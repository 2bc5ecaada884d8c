-- ===== src/ConfigResolution/Cache.antt =====
-- The cache of `getDeviceContext`, and its invalidation, in zone/config-resolution.service.ts.
use qs_farm_be.Common.{
  ◌+◌, ◌<◌, ◌≤◌, ◌≡◌, ◌≢◌, ◌↔◌, refl, inl, inr, Option, none, some, arith, ltb, Option-cases,
  Bool-cases,
}
use qs_farm_be.Domain.{Uuid, Time, Zone}
use qs_farm_be.ConfigResolution.{
  Tables, CacheEntry, Cache, cache_ttl, load_context, get_device_context, invalidate_cache,
  invalidate_cache_by_zone,
}

-- What the database held at each time.
abbrev pub History : Type 0 → Type 0
History F = Time → Tables F

module _ {F : Type 0} where
  -- Every entry is what the database said at the entry's time, which is not after `now`.
  abbrev pub IsCoherent : History F → Time → Cache F → Type 0
  IsCoherent db now cache =
      (d : Uuid) (e : CacheEntry F)
      → cache d ≡ some e
      → (e.loaded_at ≤ now) × (e.content ≡ load_context (db e.loaded_at) d)

  insert-IsCoherent :
      (db : History F) (cache : Cache F) (now : Time) (d : Uuid)
      → IsCoherent db now cache
      → IsCoherent db now (get_device_context (db now) now d cache).1
  unfolding get_device_context
  insert-IsCoherent db cache now d h j e f = (ground (arith, h j e), ground (arith, h j e))

  -- If every entry of the cache is what the database held at the entry's time, and none is dated in
  -- the future, then the context that a call at time `now` returns is one that the database held at
  -- a time up to `now` and less than the TTL before it, and the cache stays so.
  pub get_device_context_fresh :
      (db : History F) (cache : Cache F) (now : Time) (d : Uuid)
      → IsCoherent db now cache
      → let (context, cache') = get_device_context (db now) now d cache in
        IsCoherent db now cache'
        × ((t : Time) × (t ≤ now) × (now < t + cache_ttl) × (context ≡ load_context (db t) d))
  unfolding get_device_context
  get_device_context_fresh db cache now d h =
      (insert-IsCoherent db cache now d h, served (cache d) refl)
    where
      served :
          (o : Option (CacheEntry F))
          → cache d ≡ o
          → (t : Time) × (t ≤ now)
            × (now < t + cache_ttl)
            × ((get_device_context (db now) now d cache).0 ≡ load_context (db t) d)
      served none e = (now, omega arith, omega arith, ground arith)
      served (some entry) e = elim (Bool-cases (ltb now (entry.loaded_at + cache_ttl))) [
        | inl fresh ↦
            let (past, same) = h d entry e in
            (entry.loaded_at, past, ground arith, ground (arith, same))
        | inr stale ↦ (now, omega arith, omega arith, ground arith)
      ]

  -- After the invalidation of a device the next call returns what the database says then.
  pub get-invalidate :
      (db : Tables F) (cache : Cache F) (now : Time) (d : Uuid)
      → (get_device_context db now d (invalidate_cache d cache)).0 ≡ load_context db d
  unfolding get_device_context invalidate_cache
  get-invalidate db cache now d = ground arith

  -- After the invalidation of a zone the cache holds the entries of other zones and of no zone, as
  -- they were, and no others.
  pub invalidate_by_zone_iff :
      (zone_id : Uuid) (cache : Cache F) (d : Uuid) (e : CacheEntry F)
      → (invalidate_cache_by_zone zone_id cache d ≡ some e)
        ↔ ((cache d ≡ some e) × ((z : Zone) → e.content.zone ≡ some z → z.id ≢ zone_id))
  unfolding invalidate_cache_by_zone
  invalidate_by_zone_iff zone_id cache d e = (
    λ h. (ground arith, λ z f same. ground arith),
    λ h. elim (Option-cases e.content.zone) [
      | inl n ↦ ground arith
      | inr (z, f) ↦ ground (arith, h.1 z f)
    ],
  )
