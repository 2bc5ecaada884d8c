-- ===== src/Provision/RoundTrip.antt =====
-- From `handleProvisionRequest` to `pairDevice` of provision/provision.service.ts.
use mathlib.Core.Path.{subst}
use qs_farm_be.Common.{
  ℕ, ◌+◌, ◌≤◌, ◌≡◌, refl, sym, ap, ◌∙◌, inl, inr, Bool, true, false, ◌||◌, none, some, List, [],
  ◌∷◌, ◌++◌, arith, Option-cases, ◌==◌, find, find-test,
}
use qs_farm_be.Domain.{Uuid, Time, Device, paired, pending}
use qs_farm_be.Provision.{
  Db, PairingToken, ProvisionRequest, PairRequest, Fresh, Provisioned, Paired, done, has_serial,
  token_of, may_pair, token_lifetime, created_device, refreshed_device, replace_device,
  generate_pairing_token, give_token, provisioned_device, handle_provision_request, pair_device,
}
use qs_farm_be.Provision.Lookups.{find-append, find-replace, find-narrow, find-wide}
use qs_farm_be.Provision.Pairing.{IsPairable, number_eq_refl, pair_device_iff}

created-has_serial :
    (fresh : Fresh) (now : Time) (serial : ℕ) (payload : ProvisionRequest)
    → has_serial serial (created_device fresh.device_id now serial payload) ≡ true
unfolding created_device
created-has_serial fresh now serial payload = number_eq_refl serial

-- The device that a request writes is the one that its serial finds afterwards, and is pending.
provisioned_device-found :
    (fresh : Fresh) (now : Time) (serial : ℕ) (payload : ProvisionRequest) (db : Db) (d : Device)
    (ds : List Device)
    → provisioned_device fresh now serial payload db ≡ some (d, ds)
    → (find (has_serial serial) ds ≡ some d) × (d.status ≡ pending)
unfolding provisioned_device created_device refreshed_device replace_device
provisioned_device-found fresh now serial payload db d ds h =
    elim (Option-cases (find (has_serial serial) db.devices)) [
      | inl n ↦
          let c = created_device fresh.device_id now serial payload in
          let e : (c, db.devices ++ c ∷ []) ≡ (d, ds) = ground arith in
          let found =
            find-append (has_serial serial) db.devices c n
              (created-has_serial fresh now serial payload) in
          subst
            (λ (p : Device × List Device).
              (find (has_serial serial) p.1 ≡ some p.0) × (p.0.status ≡ pending))
            e (found, refl)
      | inr (old, f) ↦
          let c = refreshed_device now payload old in
          let e : (c, replace_device c db.devices) ≡ (d, ds) = ground arith in
          let found =
            find-replace (has_serial serial) (λ x. x.id == c.id) db.devices old c
              (number_eq_refl old.id) (find-test (has_serial serial) db.devices old f) f in
          subst
            (λ (p : Device × List Device).
              (find (has_serial serial) p.1 ≡ some p.0) × (p.0.status ≡ pending))
            e (found, refl)
    ]

abbrev issued_token : Fresh → Time → ℕ → PairingToken
issued_token fresh now serial = record {
  id = fresh.token_id;
  token = fresh.token;
  serial = serial;
  expires_at = now + token_lifetime;
  used = false;
  created_at = now;
}

generate_pairing_token-found :
    (fresh : Fresh) (now : Time) (serial : ℕ) (ts us : List PairingToken) (t : PairingToken)
    → generate_pairing_token fresh now serial ts ≡ some (t, us)
    → (find (token_of serial) us ≡ some t)
      × (t.used ≡ false)
      × (t.expires_at ≡ now + token_lifetime)
      × (t.token ≡ fresh.token)
unfolding generate_pairing_token
generate_pairing_token-found fresh now serial ts us t h =
    let wide : PairingToken → Bool = λ x. x.serial == serial || x.token == fresh.token in
    elim (Option-cases (find wide ts)) [
      | inl n ↦
          let c = issued_token fresh now serial in
          let e : (c, ts ++ c ∷ []) ≡ (t, us) = ground arith in
          let narrow = find-narrow (token_of serial) wide ts (λ x k. ground arith) n in
          let found = find-append (token_of serial) ts c narrow (number_eq_refl serial) in
          subst
            (λ (p : PairingToken × List PairingToken).
              (find (token_of serial) p.1 ≡ some p.0)
              × (p.0.used ≡ false)
              × (p.0.expires_at ≡ now + token_lifetime)
              × (p.0.token ≡ fresh.token))
            e (found, refl, refl, refl)
      | inr (x, bad) ↦ ground arith
    ]

generate_pairing_token-refused :
    (fresh : Fresh) (now : Time) (serial : ℕ) (ts : List PairingToken) (t : PairingToken)
    → find (token_of serial) ts ≡ some t
    → generate_pairing_token fresh now serial ts ≡ none
unfolding generate_pairing_token
generate_pairing_token-refused fresh now serial ts t h =
    let wide : PairingToken → Bool = λ x. x.serial == serial || x.token == fresh.token in
    let hit = find-wide (token_of serial) wide ts t (λ x k. ground arith) h in rw hit refl

-- What the parts of a request that was answered are.
record Granted (fresh : Fresh) (now : Time) (payload : ProvisionRequest) (db : Db) (r : Provisioned)
    : Type 0 where
  serial : ℕ
  nonce : ℕ
  device : Device
  devices : List Device
  token : PairingToken
  tokens : List PairingToken
  asked : payload.serial ≡ some serial
  written : provisioned_device fresh now serial payload db ≡ some (device, devices)
  issued : generate_pairing_token fresh now serial db.pairing_tokens ≡ some (token, tokens)
  answer : r ≡ record {
    device_id = device.id;
    serial = device.serial;
    pairing_token = token.token;
    expires_at = token.expires_at;
  }
  store :
      (handle_provision_request fresh now payload db).0
      ≡ record db { devices = devices; pairing_tokens = tokens }

granted :
    (fresh : Fresh) (now : Time) (payload : ProvisionRequest) (db : Db) (r : Provisioned)
    → (handle_provision_request fresh now payload db).1 ≡ some r
    → Granted fresh now payload db r
unfolding handle_provision_request give_token
granted fresh now payload db r h = elim (Option-cases payload.serial) [
  | inl n ↦ ground arith
  | inr (serial, e) ↦ elim (Option-cases payload.nonce) [
    | inl n ↦ ground arith
    | inr (nonce, f) ↦ elim (Option-cases (provisioned_device fresh now serial payload db)) [
      | inl n ↦ ground arith
      | inr ((d, ds), w) ↦
          elim (Option-cases (generate_pairing_token fresh now serial db.pairing_tokens)) [
            | inl n ↦ ground arith
            | inr ((t, ts), g) ↦ record {
              serial = serial;
              nonce = nonce;
              device = d;
              devices = ds;
              token = t;
              tokens = ts;
              asked = e;
              written = w;
              issued = g;
              answer = ground arith;
              store = ground arith;
            }
          ]
    ]
  ]
]

-- A device that got its answer can be paired: within the 24 hours from the request, the returned
-- token pairs the returned device, for any farm and user.
pub provision-pair :
    (fresh : Fresh) (now later : Time) (payload : ProvisionRequest) (db : Db) (r : Provisioned)
    (dto : PairRequest) (token : ℕ) (user : Uuid)
    → (handle_provision_request fresh now payload db).1 ≡ some r
    → payload.serial ≡ some dto.serial
    → dto.pairing_token ≡ r.pairing_token
    → later ≤ now + token_lifetime
    → (pair_device later token user dto (handle_provision_request fresh now payload db).0).1
      ≡ done (record {
        device_id = r.device_id;
        serial = r.serial;
        device_token = token;
        status = paired;
      })
provision-pair fresh now later payload db r dto token user h e m l =
    let g = granted fresh now payload db r h in
    let (found, status) =
      provisioned_device-found fresh now g.serial payload db g.device g.devices g.written in
    let (issued, unused, expiry, value) =
      generate_pairing_token-found fresh now g.serial db.pairing_tokens g.tokens g.token g.issued in
    let same : g.serial ≡ dto.serial = ground (arith, g.asked, e) in
    let db' : Db = record db { devices = g.devices; pairing_tokens = g.tokens } in
    let ready : IsPairable later dto db' g.device g.token = record {
      found = subst (λ n. find (has_serial n) g.devices ≡ some g.device) same found;
      open_status = ap may_pair status;
      issued = subst (λ n. find (token_of n) g.tokens ≡ some g.token) same issued;
      unused = unused;
      in_time = ground (arith, expiry, l);
      matching = sym (m ∙ ap (λ (x : Provisioned). x.pairing_token) g.answer);
    } in
    let result : Paired = record {
      device_id = r.device_id;
      serial = r.serial;
      device_token = token;
      status = paired;
    } in
    let own : result ≡ record {
      device_id = g.device.id;
      serial = g.device.serial;
      device_token = token;
      status = paired;
    } =
      ap
        (λ (x : Provisioned). record {
          device_id = x.device_id;
          serial = x.serial;
          device_token = token;
          status = paired;
        })
        g.answer in
    subst (λ (x : Db). (pair_device later token user dto x).1 ≡ done result) (sym g.store)
      ((pair_device_iff later token user dto db' result).1 (g.device, g.token, ready, own))

-- While the table has a pairing token for a serial, used or expired or not, a request with this
-- serial gets no answer and no new token, and nothing is published.
pub handle_provision_request_blocked :
    (fresh : Fresh) (now : Time) (payload : ProvisionRequest) (db : Db) (serial : ℕ)
    (t : PairingToken)
    → payload.serial ≡ some serial
    → find (token_of serial) db.pairing_tokens ≡ some t
    → let (db', answer, messages) = handle_provision_request fresh now payload db in
      (answer ≡ none) × (messages ≡ []) × (db'.pairing_tokens ≡ db.pairing_tokens)
unfolding handle_provision_request give_token
handle_provision_request_blocked fresh now payload db serial t e h =
    let refused = generate_pairing_token-refused fresh now serial db.pairing_tokens t h in
    elim (Option-cases payload.nonce) [
      | inl n ↦ ground arith
      | inr (nonce, f) ↦ elim (Option-cases (provisioned_device fresh now serial payload db)) [
        | inl n ↦ ground arith
        | inr ((d, ds), w) ↦ ground arith
      ]
    ]
