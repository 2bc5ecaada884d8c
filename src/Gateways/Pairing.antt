-- ===== src/Gateways/Pairing.antt =====
-- Pairing tokens of gateways, for gateway/gateway.service.ts.
use qs_farm_be.Common.{
  ℕ, ◌+◌, ◌≤◌, ◌≡◌, refl, ap, ◌∙◌, inl, inr, true, false, some, List, [], ◌∷◌, ◌++◌, arith, All,
  find, find-test, find-mem, Memᴰ, ltb, ◌==◌, Bool-cases, Option-cases,
}
use qs_farm_be.Domain.{Uuid, Time}
use qs_farm_be.Gateways.{
  GatewayRow, GatewayDb, GatewayRequest, GatewayPaired, gateway_failed, gateway_done,
  pairing_token_used_before, save_gateway, handle_gateway_request, pair_gateway, has_token, is_past,
  paired_gateway, provisioned_gateway, new_gateway, day_ms,
}

-- The first row with a token, after a row with this token was saved over it.
found_after-save :
    (t : ℕ) (g c : GatewayRow) (xs : List GatewayRow)
    → find (has_token t) xs ≡ some g
    → c.id ≡ g.id
    → has_token t c ≡ true
    → find (has_token t) (save_gateway c xs) ≡ some c
unfolding save_gateway
found_after-save t g c [] f e h = cc
found_after-save t g c (x ∷ xs) f e h = elim (Bool-cases (x.id == c.id)) [
  | inl same ↦ rw (same, h) refl
  | inr other ↦ elim (Bool-cases (has_token t x)) [
    | inl hit ↦
        let own : x ≡ g = ground (arith, hit, f) in
        let id = ap (λ (y : GatewayRow). y.id) own in ground (arith, other, id, e)
    | inr miss ↦ rw (other, miss) (found_after-save t g c xs (ground (arith, miss, f)) e h)
  ]
]

-- What a pairing that succeeded found.
pub record Found (now : Time) (t : ℕ) (db : GatewayDb) : Type 0 where
  pub gateway : GatewayRow
  pub at : find (has_token t) db.gateways ≡ some gateway
  pub unused : gateway.pairing_token_used ≡ false
  pub in_time : is_past now gateway.pairing_token_expires_at ≡ false

pub pair_gateway-Found :
    (now : Time) (token t : ℕ) (f : Uuid) (db : GatewayDb) (p : GatewayPaired)
    → (pair_gateway now token t f db).0 ≡ gateway_done p
    → Found now t db
unfolding pair_gateway
pair_gateway-Found now token t f db p h = elim (Option-cases (find (has_token t) db.gateways)) [
  | inl n ↦ ground (arith, n, h)
  | inr (g, e) ↦ elim (Bool-cases g.pairing_token_used) [
    | inl u ↦ ground (arith, e, u, h)
    | inr u ↦ elim (Bool-cases (is_past now g.pairing_token_expires_at)) [
      | inl x ↦ ground (arith, e, u, x, h)
      | inr x ↦ record { gateway = g; at = e; unused = u; in_time = x }
    ]
  ]
]

pub pair_gateway-tables :
    (now : Time) (token t : ℕ) (f : Uuid) (db : GatewayDb) (h : Found now t db)
    → (pair_gateway now token t f db).1.gateways
      ≡ save_gateway (paired_gateway now f token h.gateway) db.gateways
unfolding pair_gateway
pair_gateway-tables now token t f db h = rw (pair_gateway, h.at, h.unused, h.in_time) refl

refused_used :
    (now : Time) (token t : ℕ) (f : Uuid) (db : GatewayDb) (c : GatewayRow)
    → find (has_token t) db.gateways ≡ some c
    → c.pairing_token_used ≡ true
    → pair_gateway now token t f db ≡ (gateway_failed pairing_token_used_before, db, [])
unfolding pair_gateway
refused_used now token t f db c h u = rw (pair_gateway, h, u) refl

-- A pairing token that paired a gateway pairs none again: another request with it is refused as
-- used, at any time and for any farm, and changes nothing.
pub pair_gateway_once :
    (now later : Time) (token token' t : ℕ) (f f' : Uuid) (db : GatewayDb) (p : GatewayPaired)
    → (pair_gateway now token t f db).0 ≡ gateway_done p
    → let db' = (pair_gateway now token t f db).1 in
      pair_gateway later token' t f' db' ≡ (gateway_failed pairing_token_used_before, db', [])
pair_gateway_once now later token token' t f f' db p h =
    let found = pair_gateway-Found now token t f db p h in
    let c = paired_gateway now f token found.gateway in
    let held = find-test (has_token t) db.gateways found.gateway found.at in
    let again =
      ap (find (has_token t)) (pair_gateway-tables now token t f db found)
      ∙ found_after-save t found.gateway c db.gateways found.at refl held in
    refused_used later token' t f' (pair_gateway now token t f db).1 c again refl

accepted :
    (now : Time) (token t : ℕ) (f : Uuid) (db : GatewayDb) (c : GatewayRow)
    → find (has_token t) db.gateways ≡ some c
    → c.pairing_token_used ≡ false
    → is_past now c.pairing_token_expires_at ≡ false
    → (pair_gateway now token t f db).0
      ≡ gateway_done (record { gateway_id = c.id; mqtt_token = token })
unfolding pair_gateway
accepted now token t f db c h u x = rw (pair_gateway, h, u, x) refl

abbrev pub IsNewToken : ℕ → List GatewayRow → Type 0
IsNewToken t = All (λ g. has_token t g ≡ false)

found_saved :
    (t : ℕ) (g c : GatewayRow) (xs : List GatewayRow)
    → IsNewToken t xs
    → Memᴰ g xs
    → c.id ≡ g.id
    → has_token t c ≡ true
    → find (has_token t) (save_gateway c xs) ≡ some c
unfolding save_gateway
found_saved t g c [] n m e h = elim m [ ]
found_saved t g c (x ∷ xs) n m e h = elim (Bool-cases (x.id == c.id)) [
  | inl same ↦ rw (same, h) refl
  | inr other ↦ rw (other, n.0) (found_saved t g c xs n.1 (in_tail m other) e h)
]
  where
    in_tail : Memᴰ g (x ∷ xs) → (x.id == c.id) ≡ false → Memᴰ g xs
    in_tail (Memᴰ.head k) o = let id = ap (λ (y : GatewayRow). y.id) k in ground (arith, id, e, o)
    in_tail (Memᴰ.tail k) o = k

found_appended :
    (t : ℕ) (c : GatewayRow) (xs : List GatewayRow)
    → IsNewToken t xs
    → has_token t c ≡ true
    → find (has_token t) (xs ++ c ∷ []) ≡ some c
found_appended t c [] n h = rw h refl
found_appended t c (x ∷ xs) n h = rw n.0 (found_appended t c xs n.1 h)

-- The token that answers a provisioning request pairs a gateway of the table that the request
-- leaves, with the serial of the request, for any farm and at any time up to 24 hours later; no row
-- has the token before.
pub request-pair_gateway :
    (now later : Time) (new_id : Uuid) (token token' : ℕ) (f : Uuid) (r : GatewayRequest)
    → (db : GatewayDb) → IsNewToken token db.gateways
    → later ≤ now + day_ms
    → let db' = (handle_gateway_request now new_id token r db).0 in
      (g : GatewayRow) × Memᴰ g db'.gateways
      × (g.serial ≡ r.serial)
      × ((pair_gateway later token' token f db').0
          ≡ gateway_done (record { gateway_id = g.id; mqtt_token = token' }))
unfolding handle_gateway_request
request-pair_gateway now later new_id token token' f r db n h =
    let own : (token == token) ≡ true = ground arith in
    let fresh : ltb (now + day_ms) later ≡ false = ground (arith, h) in
    elim (Option-cases (find (λ (g : GatewayRow). g.serial == r.serial) db.gateways)) [
      | inr (g, e) ↦
          let c = provisioned_gateway now r.nonce token g in
          let serial = find-test (λ (x : GatewayRow). x.serial == r.serial) db.gateways g e in
          let m = find-mem (λ (x : GatewayRow). x.serial == r.serial) db.gateways g e in
          let found = found_saved token g c db.gateways n m refl own in
          rw (handle_gateway_request, e)
            (
              c,
              find-mem (has_token token) _ c found,
              ground (arith, serial),
              accepted later token' token f _ c found refl fresh,
            )
      | inl e ↦
          let c = provisioned_gateway now r.nonce token (new_gateway new_id r.serial r.hw) in
          let found = found_appended token c db.gateways n own in
          rw (handle_gateway_request, e)
            (
              c,
              find-mem (has_token token) _ c found,
              refl,
              accepted later token' token f _ c found refl fresh,
            )
    ]
