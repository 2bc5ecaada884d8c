-- ===== src/ConfigResolution.antt =====
-- zone/config-resolution.service.ts: which modes and thresholds are in force for a device, from its
-- own settings and its zone's, with a cache of what the database said.
pub mod Picking
pub mod Thresholds
pub mod Modes
pub mod Cache
mod Examples
use Prim.Native.String.{String}
use qs_farm_be.Common.{
  ℕ, ◌+◌, Bool, true, false, ◌&&◌, Option, none, some, List, [], ◌∷◌, ◌++◌, ltb, ◌==◌,
  if◌then◌else◌, ◌<|>◌, get_or, find, keep, Dict, insert, erase,
}
use qs_farm_be.Domain.{
  Uuid, Time, IrrigationMode, normal, ControlMode, manual, ThresholdLevel, critical, warning,
  SensorType, mode_eq, level_eq, sensor_eq, Device, Zone, ThresholdRow, ZoneSensorConfig,
}

pub record ResolvedDeviceContext (F : Type 0) : Type 0 where
  pub device : Option Device
  pub zone : Option Zone
  pub zone_configs : List (ZoneSensorConfig F)

pub record ResolvedConfig : Type 0 where
  pub irrigation_mode : IrrigationMode
  pub control_mode : ControlMode

pub record ResolvedThreshold (F : Type 0) : Type 0 where
  pub min_threshold : Option F
  pub max_threshold : Option F
  pub action : String
  pub level : ThresholdLevel

-- The tables that the service reads.
pub record Tables (F : Type 0) : Type 0 where
  pub devices : List Device
  pub zones : List Zone
  pub zone_configs : List (ZoneSensorConfig F)

pub record CacheEntry (F : Type 0) : Type 0 where
  pub content : ResolvedDeviceContext F
  pub loaded_at : Time

abbrev pub Cache : Type 0 → Type 0
Cache F = Dict Uuid (CacheEntry F)

abbrev pub cache_ttl : ℕ
cache_ttl = 60000

-- `device?.field`, then a field that may be null itself.
abbrev pub chain : {A B : Type 0} → Option A → (A → Option B) → Option B
chain none f = none
chain (some a) f = f a

-- The test of `findDeviceThreshold` and `findZoneThreshold`.
abbrev pub mode_matches : Option IrrigationMode → Option IrrigationMode → Bool
mode_matches none none = true
mode_matches none (some m) = false
mode_matches (some want) none = false
mode_matches (some want) (some m) = mode_eq m want

module _ {F : Type 0} where
  -- The two queries of `getDeviceContext`.
  unfoldable pub load_context : Tables F → Uuid → ResolvedDeviceContext F
  load_context db device_id =
      let device = find (λ d. d.id == device_id) db.devices in
      let zone_id = chain device (λ d. d.zone_id) in
      record {
        device = device;
        zone = chain zone_id (λ z. find (λ (r : Zone). r.id == z) db.zones);
        zone_configs = elim zone_id [
          | none ↦ []
          | some z ↦ keep (λ (c : ZoneSensorConfig F). c.zone_id == z) db.zone_configs
        ];
      }

  -- The branch of `getDeviceContext` that reads the database and fills the cache.
  reload : Tables F → Time → Uuid → Cache F → ResolvedDeviceContext F × Cache F
  reload db now device_id cache =
      let content = load_context db device_id in
      (content, insert device_id (record { content = content; loaded_at = now }) cache)

  -- `Date.now() - loadedAt < CACHE_TTL`, without the negative difference.
  unfoldable pub get_device_context :
      Tables F → Time → Uuid → Cache F → ResolvedDeviceContext F × Cache F
  unfolding reload
  get_device_context db now device_id cache = elim (cache device_id) [
    | none ↦ reload db now device_id cache
    | some entry ↦
        if ltb now (entry.loaded_at + cache_ttl)
        then (entry.content, cache)
        else reload db now device_id cache
  ]

  unfoldable pub resolve_config : ResolvedDeviceContext F → ResolvedConfig
  resolve_config context = elim context.zone [
    | none ↦ record {
      irrigation_mode = get_or (chain context.device (λ d. d.irrigation_mode)) normal;
      control_mode = get_or (chain context.device (λ d. d.control_mode)) manual;
    }
    | some zone ↦
        if zone.check_all
        then record { irrigation_mode = zone.irrigation_mode; control_mode = zone.control_mode }
        else record {
          irrigation_mode =
              get_or (chain context.device (λ d. d.irrigation_mode)) zone.irrigation_mode;
          control_mode = get_or (chain context.device (λ d. d.control_mode)) zone.control_mode;
        }
  ]

  abbrev pub is_wanted : ThresholdLevel → Option IrrigationMode → ThresholdRow F → Bool
  is_wanted level mode th = level_eq th.level level && mode_matches mode th.irrigation_mode

  abbrev pub resolved : ThresholdRow F → ResolvedThreshold F
  resolved t = record {
    min_threshold = t.min_threshold;
    max_threshold = t.max_threshold;
    action = t.action;
    level = t.level;
  }

  abbrev pub found : Option (ThresholdRow F) → Option (ResolvedThreshold F)
  found none = none
  found (some t) = some (resolved t)

  unfoldable pub find_device_threshold :
      List (ThresholdRow F) → ThresholdLevel → Option IrrigationMode → Option (ResolvedThreshold F)
  find_device_threshold thresholds level mode = found (find (is_wanted level mode) thresholds)

  unfoldable pub find_zone_threshold :
      List (ThresholdRow F) → ThresholdLevel → Option IrrigationMode → Option (ResolvedThreshold F)
  find_zone_threshold thresholds level mode = found (find (is_wanted level mode) thresholds)

  unfoldable pub pick_threshold :
      Bool
      → List (ThresholdRow F)
      → List (ThresholdRow F)
      → ThresholdLevel
      → IrrigationMode
      → Option (ResolvedThreshold F)
  pick_threshold check_all device_thresholds zone_thresholds level mode =
      if check_all
      then find_zone_threshold zone_thresholds level (some mode)
        <|> find_zone_threshold zone_thresholds level none
      else find_device_threshold device_thresholds level (some mode)
        <|> find_device_threshold device_thresholds level none
        <|> find_zone_threshold zone_thresholds level (some mode)
        <|> find_zone_threshold zone_thresholds level none

  -- `if (threshold) result.push(threshold)`
  abbrev pub push_found : Option (ResolvedThreshold F) → List (ResolvedThreshold F)
  push_found none = []
  push_found (some t) = t ∷ []

  abbrev pub zone_thresholds_of : ResolvedDeviceContext F → SensorType → List (ThresholdRow F)
  zone_thresholds_of context sensor_type =
      elim (find (λ (c : ZoneSensorConfig F). sensor_eq c.sensor_type sensor_type)
        context.zone_configs) [ none ↦ [] | some c ↦ c.thresholds ]

  abbrev pub is_check_all : ResolvedDeviceContext F → Bool
  is_check_all context = elim context.zone [ none ↦ false | some z ↦ z.check_all ]

  unfoldable pub resolve_thresholds_for_sensor :
      ResolvedDeviceContext F
      → List (ThresholdRow F)
      → SensorType
      → IrrigationMode
      → List (ResolvedThreshold F)
  resolve_thresholds_for_sensor context device_thresholds sensor_type mode =
      let zone_thresholds = zone_thresholds_of context sensor_type in
      let pick = λ (level : ThresholdLevel).
        pick_threshold (is_check_all context) device_thresholds zone_thresholds level mode in
      push_found (pick critical) ++ push_found (pick warning)

  unfoldable pub invalidate_cache : Uuid → Cache F → Cache F
  invalidate_cache device_id cache = erase device_id cache

  -- `entry.data.zone?.id === zoneId`
  abbrev pub in_zone : Uuid → CacheEntry F → Bool
  in_zone zone_id entry = elim entry.content.zone [ none ↦ false | some z ↦ z.id == zone_id ]

  unfoldable pub invalidate_cache_by_zone : Uuid → Cache F → Cache F
  invalidate_cache_by_zone zone_id cache d = elim (cache d) [
    | none ↦ none
    | some entry ↦ if in_zone zone_id entry then none else some entry
  ]
