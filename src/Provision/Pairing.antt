-- ===== src/Provision/Pairing.antt =====
-- When `pairDevice` of provision/provision.service.ts goes through, and what it does to the token.
use mathlib.Core.Path.{subst}
use qs_farm_be.Common.{
  ℕ, ◌≤◌, ◌≡◌, ◌↔◌, ◌⊎◌, refl, sym, ap, ◌∙◌, inl, inr, true, false, none, some, List, [], arith,
  Option-cases, ◌==◌, if◌then◌else◌, if-both, find,
}
use qs_farm_be.Domain.{Uuid, Time, Device, paired}
use qs_farm_be.Provision.{
  Db, PairingToken, PairRequest, Paired, Failure, Result, failed, done, already_used, has_serial,
  token_of, may_pair, same_value, check_token, check_pair, paired_device, update_device, use_token,
  pair_device,
}
use qs_farm_be.Provision.Lookups.{find-map}

-- A device and its token for which `pairDevice` goes through at time `now`.
pub record IsPairable (now : Time) (dto : PairRequest) (db : Db) (d : Device) (t : PairingToken)
    : Type 0 where
  pub found : find (has_serial dto.serial) db.devices ≡ some d
  pub open_status : may_pair d.status ≡ true
  pub issued : find (token_of dto.serial) db.pairing_tokens ≡ some t
  pub unused : t.used ≡ false
  pub in_time : now ≤ t.expires_at
  pub matching : t.token ≡ dto.pairing_token

Result-cases :
    {A : Type 0} (x : Result A) → ((e : Failure) × (x ≡ failed e)) ⊎ ((a : A) × (x ≡ done a))
Result-cases (failed e) = inl (e, refl)
Result-cases (done a) = inr (a, refl)

check_token_iff :
    (now : Time) (dto : PairRequest) (t : PairingToken)
    → (check_token now dto t ≡ none)
      ↔ ((t.used ≡ false) × (now ≤ t.expires_at) × (t.token ≡ dto.pairing_token))
unfolding check_token
check_token_iff now dto t = (λ h. (ground arith, ground arith, ground arith), λ h. ground arith)

pub IsPairable-check :
    (now : Time) (dto : PairRequest) (db : Db) (d : Device) (t : PairingToken)
    → IsPairable now dto db d t
    → check_pair now dto db ≡ done (d, t)
unfolding check_pair
IsPairable-check now dto db d t p = ground (
  arith,
  p.found,
  p.open_status,
  p.issued,
  (check_token_iff now dto t).1 (p.unused, p.in_time, p.matching),
)

check-IsPairable :
    (now : Time) (dto : PairRequest) (db : Db) (d : Device) (t : PairingToken)
    → check_pair now dto db ≡ done (d, t)
    → IsPairable now dto db d t
unfolding check_pair
check-IsPairable now dto db d t h = elim (Option-cases (find (has_serial dto.serial) db.devices)) [
  | inl n ↦ ground arith
  | inr (x, e) ↦ elim (Option-cases (find (token_of dto.serial) db.pairing_tokens)) [
    | inl n ↦ ground arith
    | inr (y, f) ↦ elim (Option-cases (check_token now dto y)) [
      | inl ok ↦
          let q = (check_token_iff now dto y).0 ok in
          let same : (x, y) ≡ (d, t) = ground arith in
          let sx : x ≡ d = ap (λ (p : Device × PairingToken). p.0) same in
          let sy : y ≡ t = ap (λ (p : Device × PairingToken). p.1) same in
          record {
            found = e ∙ ap some sx;
            open_status = ground arith;
            issued = f ∙ ap some sy;
            unused = sym (ap (λ (z : PairingToken). z.used) sy) ∙ q.0;
            in_time = subst (λ (z : PairingToken). now ≤ z.expires_at) sy q.1;
            matching = sym (ap (λ (z : PairingToken). z.token) sy) ∙ q.2;
          }
      | inr (z, bad) ↦ ground arith
    ]
  ]
]

-- A request pairs, with this answer, exactly if the device with its serial is pending or paired, and
-- the token for the serial is unused, not past its expiry and the one in the request.
pub pair_device_iff :
    (now : Time) (token : ℕ) (user : Uuid) (dto : PairRequest) (db : Db) (r : Paired)
    → ((pair_device now token user dto db).1 ≡ done r) ↔ (
        (d : Device) × (t : PairingToken) × IsPairable now dto db d t
        × (r ≡ record {
          device_id = d.id;
          serial = d.serial;
          device_token = token;
          status = paired;
        }))
unfolding pair_device
pair_device_iff now token user dto db r = (
  λ h. elim (Result-cases (check_pair now dto db)) [
    | inl (e, bad) ↦ ground arith
    | inr ((d, t), ok) ↦ (d, t, check-IsPairable now dto db d t ok, ground arith)
  ],
  λ (d, t, p, e). let ok = IsPairable-check now dto db d t p in ground arith,
)

pub number_eq_refl : (n : ℕ) → (n == n) ≡ true
number_eq_refl n = ground arith

update_device-found :
    (serial : ℕ) (d : Device) (f : Device → Device) (ds : List Device)
    → ((x : Device) → (f x).serial ≡ x.serial)
    → find (has_serial serial) ds ≡ some d
    → find (has_serial serial) (update_device d.id f ds) ≡ some (f d)
unfolding update_device
update_device-found serial d f ds k h =
    find-map (has_serial serial) (λ x. if x.id == d.id then f x else x) ds d
      (λ x.
        if-both (λ (y : Device). has_serial serial y ≡ has_serial serial x) (x.id == d.id)
          (ap (λ o. same_value o (some serial)) (k x)) refl)
      h
    ∙ ap (λ b. some (if b then f d else d)) (number_eq_refl d.id)

use_token-found :
    (serial : ℕ) (t : PairingToken) (ts : List PairingToken)
    → find (token_of serial) ts ≡ some t
    → find (token_of serial) (use_token t.id ts) ≡ some (record t { used = true })
unfolding use_token
use_token-found serial t ts h =
    find-map (token_of serial) (λ x. if x.id == t.id then record x { used = true } else x) ts t
      (λ x.
        if-both (λ (y : PairingToken). token_of serial y ≡ token_of serial x) (x.id == t.id) refl
          refl)
      h
    ∙ ap (λ b. some (if b then record t { used = true } else t)) (number_eq_refl t.id)

after_pairing : Time → ℕ → PairRequest → Db → Device → PairingToken → Db
after_pairing now token dto db d t = record db {
  devices = update_device d.id (paired_device now token dto db.gateways) db.devices;
  pairing_tokens = use_token t.id db.pairing_tokens;
}

pair_device-after :
    (now : Time) (token : ℕ) (user : Uuid) (dto : PairRequest) (db : Db) (d : Device)
    (t : PairingToken)
    → check_pair now dto db ≡ done (d, t)
    → (pair_device now token user dto db).0 ≡ after_pairing now token dto db d t
unfolding pair_device after_pairing
pair_device-after now token user dto db d t h = ground arith

pair_device-failed :
    (now : Time) (token : ℕ) (user : Uuid) (dto : PairRequest) (db : Db) (e : Failure)
    → check_pair now dto db ≡ failed e
    → pair_device now token user dto db ≡ (db, failed e, [])
unfolding pair_device
pair_device-failed now token user dto db e h = ground arith

check_pair-used :
    (now : Time) (dto : PairRequest) (db : Db) (d : Device) (t : PairingToken)
    → find (has_serial dto.serial) db.devices ≡ some d
    → may_pair d.status ≡ true
    → find (token_of dto.serial) db.pairing_tokens ≡ some t
    → t.used ≡ true
    → check_pair now dto db ≡ failed already_used
unfolding check_pair check_token
check_pair-used now dto db d t found status issued used = ground arith

check_after_pairing :
    (now now' : Time) (token : ℕ) (dto dto' : PairRequest) (db : Db) (d : Device) (t : PairingToken)
    → IsPairable now dto db d t
    → dto'.serial ≡ dto.serial
    → check_pair now' dto' (after_pairing now token dto db d t) ≡ failed already_used
unfolding after_pairing paired_device
check_after_pairing now now' token dto dto' db d t p e =
    check_pair-used now' dto' (after_pairing now token dto db d t)
      (paired_device now token dto db.gateways d) (record t { used = true })
      (update_device-found dto'.serial d (paired_device now token dto db.gateways) db.devices
        (λ x. refl) (rw e p.found))
      refl (use_token-found dto'.serial t db.pairing_tokens (rw e p.issued)) refl

-- A token pairs once: after a pairing, another request for the serial, whatever its token, user and
-- farm, is refused because the token was used, and changes and sends nothing.
pub pair_device_once :
    (now now' : Time) (token token' : ℕ) (user user' : Uuid) (dto dto' : PairRequest) (db : Db)
    (r : Paired)
    → (pair_device now token user dto db).1 ≡ done r
    → dto'.serial ≡ dto.serial
    → let db' = (pair_device now token user dto db).0 in
      pair_device now' token' user' dto' db' ≡ (db', failed already_used, [])
pair_device_once now now' token token' user user' dto dto' db r h e =
    let (d, t, p, x) = (pair_device_iff now token user dto db r).0 h in
    let after = pair_device-after now token user dto db d t (IsPairable-check now dto db d t p) in
    pair_device-failed now' token' user' dto' (pair_device now token user dto db).0 already_used
      (ap (check_pair now' dto') after ∙ check_after_pairing now now' token dto dto' db d t p e)
