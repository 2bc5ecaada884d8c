-- ===== src/Gateways/Devices.antt =====
-- Which devices a gateway serves after its pairing and after its removal: gateway/gateway.service.ts
-- beside the access rules of emqx/emqx.service.ts.
use mathlib.Core.Path.{subst}
use qs_farm_be.Common.{
  ℕ, ◌≡◌, refl, sym, ap, ◌∙◌, inl, inr, true, none, List, [], ◌∷◌, map, arith, Memᴰ, keep, ◌==◌,
  Bool-cases, Option-cases, Text, text_eq, text_eq_refl, ◌≤◌, ◌+◌, ◌++◌, Bool, false, some,
  if◌then◌else◌, codes, HasNoSlash,
}
use qs_farm_be.Domain.{Uuid, Time, Device}
use qs_farm_be.Emqx.{
  Outside, Farm, Db, Cache, cache_ttl, publish, device_ids_of, has_text, owns, topic_of,
  gateway_prefix, get_gateway_device_ids, check_gateway_device, check_gateway_publish,
  check_gateway_acl, check_acl,
}
use qs_farm_be.Emqx.Devices.{device_topic}
use qs_farm_be.Emqx.Gateways.{IsCoherent, ids_fresh, device_part, gateway_acl_fresh}
use qs_farm_be.Provision as Provision
use qs_farm_be.Gateways.{
  GatewayDb, GatewayPaired, gateway_done, pair_gateway, assign_devices, is_farm_device,
  release_devices, is_served, delete_gateway, gateway_with,
}
use qs_farm_be.Gateways.Pairing.{pair_gateway-Found}

module _ (out : Outside) (gateways : List Provision.Gateway) (farms : List Farm) where
  -- The tables as the broker's access rules read them.
  abbrev pub broker_tables : GatewayDb → Db
  broker_tables db = record { devices = db.devices; gateways = gateways; farms = farms }

  ids_of : Uuid → List Device → List Text
  ids_of i ds =
      map (λ (d : Device). out.text_of d.id)
        (keep (λ (d : Device). has_text out d.gateway_id (out.text_of i)) ds)

  ids_of-tail :
      (i : Uuid) (y : Device) (ys : List Device) (t : Text)
      → Memᴰ t (ids_of i ys)
      → Memᴰ t (ids_of i (y ∷ ys))
  unfolding ids_of
  ids_of-tail i y ys t m = elim (Bool-cases (has_text out y.gateway_id (out.text_of i))) [
    | inl e ↦ rw e (Memᴰ.tail m)
    | inr e ↦ rw e m
  ]

  assigned-mem :
      (f i : Uuid) (ds : List Device) (d : Device)
      → Memᴰ d ds
      → is_farm_device f d ≡ true
      → Memᴰ (out.text_of d.id) (ids_of i (assign_devices f i ds))
  unfolding assign_devices ids_of
  assigned-mem f i [] d m h = elim m [ ]
  assigned-mem f i (x ∷ xs) d (Memᴰ.head e) h =
      let own : is_farm_device f x ≡ true = ap (is_farm_device f) (sym e) ∙ h in
      rw (own, text_eq_refl (out.text_of i)) (Memᴰ.head (ap (λ (y : Device). out.text_of y.id) e))
  assigned-mem f i (x ∷ xs) d (Memᴰ.tail m) h =
      unfold assign_devices in
      ids_of-tail i _ (assign_devices f i xs) (out.text_of d.id) (assigned-mem f i xs d m h)

  pair_gateway-devices :
      (now : Time) (token t : ℕ) (f : Uuid) (db : GatewayDb) (p : GatewayPaired)
      → (pair_gateway now token t f db).0 ≡ gateway_done p
      → (pair_gateway now token t f db).1.devices ≡ assign_devices f p.gateway_id db.devices
  unfolding pair_gateway
  pair_gateway-devices now token t f db p h =
      let found = pair_gateway-Found now token t f db p h in
      let g = found.gateway in
      let result : (pair_gateway now token t f db).0
          ≡ gateway_done (record { gateway_id = g.id; mqtt_token = token }) =
        rw (pair_gateway, found.at, found.unused, found.in_time) refl in
      let id : p.gateway_id ≡ g.id = ground (arith, result, h) in
      rw (pair_gateway, found.at, found.unused, found.in_time, id) refl

  -- From one time to another the broker's service finds the same tables.
  abbrev pub AreKept : (Time → Db) → Db → Time → Time → Type 0
  AreKept history tables from now = (t : Time) → from ≤ t → t ≤ now → history t ≡ tables

  mem-owns : (b : Text) (ids : List Text) → Memᴰ b ids → owns ids (some b) ≡ true
  unfolding owns
  mem-owns b ids (Memᴰ.head {x = x} {xs = xs} e) =
      let same = subst (λ t. text_eq b t ≡ true) e (text_eq_refl b) in ground (arith, same)
  mem-owns b ids (Memᴰ.tail {x = x} {xs = xs} m) = ground (arith, mem-owns b xs m)

  if_allowed :
      (b : Bool) (cache : Cache) (r : Bool × Cache)
      → r.0 ≡ true
      → (if b then (true, cache) else r).0 ≡ true
  if_allowed true cache r h = refl
  if_allowed false cache r h = h

  device_allowed :
      (now : Time) (g b rest : Text) (db : Db) (cache : Cache)
      → HasNoSlash b
      → owns (get_gateway_device_ids out now g db cache).0 (some b) ≡ true
      → (check_acl out now (gateway_prefix ++ g) (device_topic b rest) publish db cache).0 ≡ true
  unfolding check_acl check_gateway_acl check_gateway_publish check_gateway_device
  device_allowed now g b rest db cache h own =
      let topic = device_topic b rest in
      let cmd : Bool × Cache = check_gateway_device out now g topic db cache in
      let listed : cmd.0 ≡ true =
        subst (λ o. owns (get_gateway_device_ids out now g db cache).0 o ≡ true)
          (sym (device_part b rest h)) own in
      if_allowed (text_eq topic (topic_of "gateway" g "status")) cache
        (if text_eq topic (codes "provision/gateway/new") then (true, cache) else cmd)
        (if_allowed (text_eq topic (codes "provision/gateway/new")) cache cmd listed)

  -- From 60 seconds after a pairing on, the gateway may publish to every topic below `device/{id}/`
  -- of every device of the farm that was not disabled, whatever the broker's service had cached. The
  -- tables have not changed since, every entry of the cache is what the database said when it was
  -- made, and was not made in the future; the id has no slash.
  pub pair_gateway-check_acl :
      (at now : Time) (token t : ℕ) (f : Uuid) (db : GatewayDb) (p : GatewayPaired) (d : Device)
      → (history : Time → Db) (cache : Cache) (rest : Text)
      → (pair_gateway at token t f db).0 ≡ gateway_done p
      → Memᴰ d db.devices
      → is_farm_device f d ≡ true
      → AreKept history (broker_tables (pair_gateway at token t f db).1) at now
      → at + cache_ttl ≤ now
      → IsCoherent out history now cache
      → HasNoSlash (out.text_of d.id)
      → (check_acl out now
          (gateway_prefix ++ out.text_of p.gateway_id)
          (device_topic (out.text_of d.id) rest)
          publish
          (history now)
          cache).0
        ≡ true
  unfolding device_ids_of ids_of
  pair_gateway-check_acl at now token t f db p d history cache rest h m own kept late c k =
      let g = out.text_of p.gateway_id in
      let (asked, past, recent, ids) = ids_fresh out history cache now g c in
      let listed : Memᴰ (out.text_of d.id) (ids_of p.gateway_id (history asked).devices) =
        subst (λ (x : Db). Memᴰ (out.text_of d.id) (ids_of p.gateway_id x.devices))
          (sym (kept asked (omega (arith, late, recent)) past))
          (subst (λ ds. Memᴰ (out.text_of d.id) (ids_of p.gateway_id ds))
            (sym (pair_gateway-devices at token t f db p h))
            (assigned-mem f p.gateway_id db.devices d m own)) in
      device_allowed now g (out.text_of d.id) rest (history now) cache k (
        subst (λ l. owns l (some (out.text_of d.id)) ≡ true) (sym ids)
          (mem-owns (out.text_of d.id) _ listed))

  -- Different ids have different texts.
  abbrev pub AreSpelledApart : Type 0
  AreSpelledApart = (a b : ℕ) → text_eq (out.text_of a) (out.text_of b) ≡ true → a ≡ b

  released_row :
      (i : Uuid) (x : Device)
      → AreSpelledApart
      → has_text out
          (if is_served i x then record x { gateway_id = none } else x).gateway_id
          (out.text_of i)
        ≡ false
  released_row i x inj = elim (Option-cases x.gateway_id) [
    | inl n ↦ rw n refl
    | inr (j, n) ↦ elim (Bool-cases (j == i)) [
      | inl e ↦ rw (n, e) refl
      | inr e ↦ elim (Bool-cases (text_eq (out.text_of j) (out.text_of i))) [
        | inl same ↦ let k = inj j i same in ground (arith, k, e)
        | inr other ↦ rw (n, e) other
      ]
    ]
  ]

  released-has_text :
      (i : Uuid) (ds : List Device) (d : Device)
      → AreSpelledApart
      → Memᴰ d (release_devices i ds)
      → has_text out d.gateway_id (out.text_of i) ≡ false
  unfolding release_devices
  released-has_text i [] d inj m = elim m [ ]
  released-has_text i (x ∷ xs) d inj (Memᴰ.head e) =
      ap (λ (y : Device). has_text out y.gateway_id (out.text_of i)) e ∙ released_row i x inj
  released-has_text i (x ∷ xs) d inj (Memᴰ.tail m) = released-has_text i xs d inj m

  delete_gateway-devices :
      (i : Uuid) (db : GatewayDb)
      → (delete_gateway i db).0 ≡ none
      → (delete_gateway i db).1.devices ≡ release_devices i db.devices
  unfolding delete_gateway
  delete_gateway-devices i db h = elim (Option-cases (gateway_with i db.gateways)) [
    | inl n ↦ ground (arith, n, h)
    | inr (g, n) ↦ rw (delete_gateway, n) refl
  ]

  -- From 60 seconds after the removal of a gateway on, it gets no topic below `device/{id}/` of any
  -- device, to subscribe or publish, whatever the broker's service had cached. The tables have not
  -- changed since, every entry of the cache is what the database said when it was made, and was not
  -- made in the future; different ids have different texts, and the id has no slash.
  pub delete_gateway-check_acl :
      (at now : Time) (i : Uuid) (db : GatewayDb) (history : Time → Db) (cache : Cache)
      → (b rest : Text) (access : ℕ) → (delete_gateway i db).0 ≡ none
      → AreKept history (broker_tables (delete_gateway i db).1) at now
      → at + cache_ttl ≤ now
      → IsCoherent out history now cache
      → AreSpelledApart
      → HasNoSlash b
      → (check_acl out now
          (gateway_prefix ++ out.text_of i)
          (device_topic b rest)
          access
          (history now)
          cache).0
        ≡ false
  delete_gateway-check_acl at now i db history cache b rest access h kept late c inj k =
      let answer =
        (check_acl out now (gateway_prefix ++ out.text_of i) (device_topic b rest) access
          (history now) cache).0 in
      elim (Bool-cases answer) [
        | inr refused ↦ refused
        | inl granted ↦
            let (t, past, recent, (d, m, served, named)) =
              gateway_acl_fresh out history cache now (out.text_of i) b rest access c k granted in
            let listed : Memᴰ d (release_devices i db.devices) =
              subst (λ ds. Memᴰ d ds) (delete_gateway-devices i db h)
                (subst (λ (x : Db). Memᴰ d x.devices) (kept t (omega (arith, late, recent)) past)
                  m) in
            let gone = released-has_text i db.devices d inj listed in ground (arith, served, gone)
      ]
