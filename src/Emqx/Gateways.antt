-- ===== src/Emqx/Gateways.antt =====
-- What a gateway may do in emqx/emqx.service.ts, with the cache of its devices.
use mathlib.Core.Path.{subst}
use Prim.Native.String.{String}
use qs_farm_be.Common.{
  ℕ, ◌+◌, ◌<◌, ◌≤◌, ◌≡◌, ◌⊎◌, refl, sym, ap, ◌∙◌, inl, inr, Bool, true, false, Option, none, some,
  List, [], ◌∷◌, ◌++◌, arith, Memᴰ, Bool-cases, Option-cases, if-both, ltb, ◌==◌, insert_by, map,
  keep, Text, codes, slash, text_eq, starts_with, split, to_first, HasNoSlash, text_eq-true,
}
use qs_farm_be.Domain.{Time, Device}
use qs_farm_be.Emqx.{
  Db, Cache, CacheEntry, Outside, cache_ttl, gateway_prefix, part, owns, device_ids_of,
  get_gateway_device_ids, check_gateway_device, check_gateway_publish, check_gateway_subscribe,
  check_gateway_acl, check_acl, is_text, has_text, topic_of,
}
use qs_farm_be.Emqx.Devices.{device_topic}

split-level : (b rest : Text) → HasNoSlash b → split (b ++ slash ∷ rest) ≡ b ∷ split rest
split-level [] rest h = refl
split-level (c ∷ b) rest h = ground (arith, h.0, split-level b rest h.1)

pub device_part : (b rest : Text) → HasNoSlash b → part 1 (split (device_topic b rest)) ≡ some b
device_part b rest h =
    ap
      (λ l. part 1 (
        to_first 100
          (to_first 101 (to_first 118 (to_first 105 (to_first 99 (to_first 101 ([] ∷ l))))))))
      (split-level b rest h)

-- The cache after a check: as it was, or as the lookup of the gateway's devices leaves it.
record Kept (cache looked_up : Cache) (r : Bool × Cache) : Type 0 where
  kept : (r.1 ≡ cache) ⊎ (r.1 ≡ looked_up)

module _ (out : Outside) where
  -- Every entry is what the database said at some time up to `now`, and lasts for the TTL from then.
  abbrev pub IsCoherent : (Time → Db) → Time → Cache → Type 0
  IsCoherent db now cache =
      (i : Text) (e : CacheEntry)
      → cache i ≡ some e
      → (t : Time) × (t ≤ now)
        × (e.expires_at ≡ t + cache_ttl)
        × (e.device_ids ≡ device_ids_of out i (db t))

  pub ids_fresh :
      (db : Time → Db) (cache : Cache) (now : Time) (g : Text)
      → IsCoherent db now cache
      → (t : Time) × (t ≤ now)
        × (now < t + cache_ttl)
        × ((get_gateway_device_ids out now g (db now) cache).0 ≡ device_ids_of out g (db t))
  unfolding get_gateway_device_ids
  ids_fresh db cache now g h = served (cache g) refl
    where
      served :
          (o : Option CacheEntry)
          → cache g ≡ o
          → (t : Time) × (t ≤ now)
            × (now < t + cache_ttl)
            × ((get_gateway_device_ids out now g (db now) cache).0 ≡ device_ids_of out g (db t))
      served none e = (now, omega arith, omega arith, ground arith)
      served (some entry) e = elim (Bool-cases (ltb now entry.expires_at)) [
        | inl fresh ↦
            let (t, past, expiry, ids) = h g entry e in
            (t, past, ground (arith, expiry), ground (arith, ids))
        | inr stale ↦ (now, omega arith, omega arith, ground arith)
      ]

  stored : (Time → Db) → Time → Text → Cache → Cache
  stored db now g =
      insert_by text_eq g
        (record { device_ids = device_ids_of out g (db now); expires_at = now + cache_ttl })

  stored-IsCoherent :
      (db : Time → Db) (cache : Cache) (now : Time) (g : Text)
      → IsCoherent db now cache
      → IsCoherent db now (stored db now g cache)
  unfolding stored
  stored-IsCoherent db cache now g h i e f = elim (Bool-cases (text_eq i g)) [
    | inl same ↦
        let own : record { device_ids = device_ids_of out g (db now); expires_at = now + cache_ttl }
            ≡ e =
          ground arith in
        (
          now,
          omega arith,
          sym (ap (λ (x : CacheEntry). x.expires_at) own),
          sym (ap (λ (x : CacheEntry). x.device_ids) own)
              ∙ ap (λ j. device_ids_of out j (db now)) (sym (text_eq-true i g same)),
        )
    | inr other ↦ h i e (ground arith)
  ]

  cache_after_ids :
      (db : Db) (cache : Cache) (now : Time) (g : Text)
      → ((get_gateway_device_ids out now g db cache).1 ≡ cache)
        ⊎ ((get_gateway_device_ids out now g db cache).1 ≡ stored (λ t. db) now g cache)
  unfolding get_gateway_device_ids stored
  cache_after_ids db cache now g = elim (Option-cases (cache g)) [
    | inl n ↦ inr (rw (n, get_gateway_device_ids) refl)
    | inr (e, f) ↦ elim (Bool-cases (ltb now e.expires_at)) [
      | inl fresh ↦ inl (rw (f, fresh, get_gateway_device_ids) refl)
      | inr stale ↦ inr (rw (f, stale, get_gateway_device_ids) refl)
    ]
  ]

  ids-IsCoherent :
      (db : Time → Db) (cache : Cache) (now : Time) (g : Text)
      → IsCoherent db now cache
      → IsCoherent db now (get_gateway_device_ids out now g (db now) cache).1
  unfolding stored
  ids-IsCoherent db cache now g h = elim (cache_after_ids (db now) cache now g) [
    | inl same ↦ subst (IsCoherent db now) (sym same) h
    | inr new ↦ subst (IsCoherent db now) (sym new) (stored-IsCoherent db cache now g h)
  ]

  -- A device of the gateway `g` whose id reads `b`.
  abbrev pub HasDevice : Db → Text → Text → Type 0
  HasDevice db g b =
      (d : Device) × Memᴰ d db.devices
      × (has_text out d.gateway_id g ≡ true)
      × (out.text_of d.id ≡ b)

  owns-HasDevice :
      (ds : List Device) (db : Db) (g b : Text)
      → ((d : Device) → Memᴰ d ds → Memᴰ d db.devices)
      → owns
          (map
            (λ (d : Device). out.text_of d.id)
            (keep (λ (d : Device). has_text out d.gateway_id g) ds))
          (some b)
        ≡ true
      → HasDevice db g b
  unfolding owns
  owns-HasDevice [] db g b sub h = cc
  owns-HasDevice (d ∷ ds) db g b sub h = elim (Bool-cases (has_text out d.gateway_id g)) [
    | inr n ↦ owns-HasDevice ds db g b (λ x m. sub x (Memᴰ.tail m)) (ground (arith, n, h))
    | inl p ↦ elim (Bool-cases (text_eq b (out.text_of d.id))) [
      | inl same ↦ (d, sub d (Memᴰ.head refl), p, sym (text_eq-true b (out.text_of d.id) same))
      | inr n ↦ owns-HasDevice ds db g b (λ x m. sub x (Memᴰ.tail m)) (ground (arith, p, n, h))
    ]
  ]

  device_decided :
      (now : Time) (g topic : Text) (access : ℕ) (db : Db) (cache : Cache)
      → (check_acl out now (gateway_prefix ++ g) (codes "device/" ++ topic) access db cache).0
        ≡ true
      → owns
          (get_gateway_device_ids out now g db cache).0
          (part 1 (split (codes "device/" ++ topic)))
        ≡ true
  unfolding check_acl check_gateway_acl check_gateway_publish check_gateway_subscribe
      check_gateway_device
  device_decided now g topic access db cache e = elim (Bool-cases (access == 2)) [
    | inl p ↦ ground (arith, p, e)
    | inr n ↦ elim (Bool-cases (access == 1)) [
      | inl q ↦
          elim (Bool-cases (is_text (part 1 (split (codes "device/" ++ topic))) (codes "+"))) [
            | inl any ↦ ground (arith, n, q, any, e)
            | inr one ↦ ground (arith, n, q, one, e)
          ]
      | inr m ↦ ground (arith, n, m, e)
    ]
  ]

  -- A gateway gets a topic below `device/{id}/`, to subscribe or publish, only for a device that the
  -- database assigned to it at a time up to now and less than the TTL before. Every entry of the
  -- cache is what the database said when it was made, and was not made in the future; the id has no
  -- slash.
  pub gateway_acl_fresh :
      (db : Time → Db) (cache : Cache) (now : Time) (g b rest : Text) (access : ℕ)
      → IsCoherent db now cache
      → HasNoSlash b
      → (check_acl out now (gateway_prefix ++ g) (device_topic b rest) access (db now) cache).0
        ≡ true
      → (t : Time) × (t ≤ now) × (now < t + cache_ttl) × HasDevice (db t) g b
  unfolding device_ids_of
  gateway_acl_fresh db cache now g b rest access h k e =
      let (t, past, recent, ids) = ids_fresh db cache now g h in
      let owned = device_decided now g (b ++ slash ∷ rest) access (db now) cache e in
      let listed : owns (device_ids_of out g (db t)) (some b) ≡ true =
        subst (λ l. owns l (some b) ≡ true) ids
          (subst (λ o. owns (get_gateway_device_ids out now g (db now) cache).0 o ≡ true)
            (device_part b rest k) owned) in
      (t, past, recent, owns-HasDevice (db t).devices (db t) g b (λ d m. m) listed)

  check_acl-Kept :
      (now : Time) (g topic : Text) (access : ℕ) (db : Db) (cache : Cache)
      → Kept cache
          (get_gateway_device_ids out now g db cache).1
          (check_acl out now (gateway_prefix ++ g) topic access db cache)
  unfolding check_acl check_gateway_acl check_gateway_publish check_gateway_subscribe
      check_gateway_device
  check_acl-Kept now g topic access db cache =
      let P = Kept cache (get_gateway_device_ids out now g db cache).1 in
      let same : (b : Bool) → P (b, cache) = λ b. record { kept = inl refl } in
      let asked : P (check_gateway_device out now g topic db cache) = record { kept = inr refl } in
      let is_it = λ (rest : String). text_eq topic (topic_of "gateway" g rest) in
      let of_device = starts_with (codes "device/") topic in
      if-both P (access == 2)
        (if-both P (is_it "status") (same true) (
          if-both P (text_eq topic (codes "provision/gateway/new")) (same true)
            (if-both P of_device asked (same false))))
        (if-both P (access == 1)
          (if-both P (is_it "ota") (same true) (
            if-both P (is_it "device-ota") (same true) (
              if-both P (starts_with (codes "provision/gateway/resp/") topic) (same true) (
                if-both P (is_it "device/+/cmd") (same true) (
                  if-both P of_device
                    (if-both P (is_text (part 1 (split topic)) (codes "+")) (same false) asked)
                    (same false))))))
          (same false))

  -- A check for a gateway keeps the cache coherent.
  pub check_acl-IsCoherent :
      (db : Time → Db) (cache : Cache) (now : Time) (g topic : Text) (access : ℕ)
      → IsCoherent db now cache
      → IsCoherent db now (check_acl out now (gateway_prefix ++ g) topic access (db now) cache).1
  check_acl-IsCoherent db cache now g topic access h =
      elim (check_acl-Kept now g topic access (db now) cache).kept [
        | inl same ↦ subst (IsCoherent db now) (sym same) h
        | inr new ↦ subst (IsCoherent db now) (sym new) (ids-IsCoherent db cache now g h)
      ]
