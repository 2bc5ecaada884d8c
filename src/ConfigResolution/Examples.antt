-- ===== src/ConfigResolution/Examples.antt =====
-- A device, its zone and the rows of both, for zone/config-resolution.service.ts.
use qs_farm_be.Common.{
  ℕ, ◌+◌, ◌<◌, ◌≤◌, ◌≡◌, refl, inl, false, none, some, [], ◌∷◌, Memᴰ, arith, empty, insert,
}
use qs_farm_be.Domain.{
  Time, drip, auto, critical, water_pressure, Device, new_device, Zone, ThresholdRow,
}
use qs_farm_be.ConfigResolution.{
  ResolvedDeviceContext, Tables, CacheEntry, Cache, cache_ttl, load_context, get_device_context,
  resolved, resolve_config, resolve_thresholds_for_sensor, pick_threshold, find_device_threshold,
  find_zone_threshold,
}
use qs_farm_be.ConfigResolution.Picking.{from_zone, IsBest, IsCandidate}
use qs_farm_be.ConfigResolution.Thresholds.{rows_in_force, resolve_thresholds-IsBest}
use qs_farm_be.ConfigResolution.Cache.{IsCoherent, get_device_context_fresh}

abbrev north : Zone
north = record {
  id = 7;
  farm_id = 3;
  irrigation_mode = drip;
  control_mode = auto;
  check_all = false;
}

abbrev pump_device : Device
pump_device = record (new_device 1) { zone_id = some 7; farm_id = some 3 }

abbrev zone_row : ThresholdRow ℕ
zone_row = record {
  level = critical;
  irrigation_mode = some drip;
  min_threshold = none;
  max_threshold = some 90;
  action = "PUMP_OFF";
}

abbrev device_row : ThresholdRow ℕ
device_row = record zone_row { irrigation_mode = none; max_threshold = some 80 }

abbrev tables : Tables ℕ
tables = record {
  devices = pump_device ∷ [];
  zones = north ∷ [];
  zone_configs =
      record { zone_id = 7; sensor_type = water_pressure; thresholds = zone_row ∷ [] } ∷ [];
}

abbrev context : ResolvedDeviceContext ℕ
context = record {
  device = some pump_device;
  zone = some north;
  zone_configs =
      record { zone_id = 7; sensor_type = water_pressure; thresholds = zone_row ∷ [] } ∷ [];
}

abbrev entry : CacheEntry ℕ
entry = record { content = context; loaded_at = 1000 }

abbrev filled : Cache ℕ
filled = insert 1 entry empty

load_context_test : load_context tables 1 ≡ context
unfolding load_context
load_context_test = refl

resolve_config_test :
    resolve_config context ≡ record { irrigation_mode = drip; control_mode = auto }
unfolding resolve_config
resolve_config_test = refl

device_row_wins :
    resolve_thresholds_for_sensor context (device_row ∷ []) water_pressure drip
    ≡ resolved device_row ∷ []
unfolding resolve_thresholds_for_sensor pick_threshold find_device_threshold find_zone_threshold
device_row_wins = refl

device_row_in_force :
    Memᴰ
      (resolved device_row)
      (resolve_thresholds_for_sensor context (device_row ∷ []) water_pressure drip)
unfolding resolve_thresholds_for_sensor pick_threshold find_device_threshold find_zone_threshold
device_row_in_force = Memᴰ.head refl

zone_row-IsCandidate :
    IsCandidate critical drip
      (rows_in_force context (device_row ∷ []) water_pressure drip from_zone)
      zone_row
zone_row-IsCandidate = record { listed = Memᴰ.head refl; same_level = refl; same_mode = inl refl }

empty-IsCoherent : IsCoherent (λ t. tables) 5000 empty
empty-IsCoherent d e h = ground arith

resolve_thresholds-IsBest_example :
    (row : ThresholdRow ℕ) × (resolved device_row ≡ resolved row)
    × IsBest critical drip (rows_in_force context (device_row ∷ []) water_pressure drip) row
resolve_thresholds-IsBest_example =
    resolve_thresholds-IsBest context (device_row ∷ []) water_pressure drip (resolved device_row)
      device_row_in_force

get_device_context_fresh_example :
    let (c, cache') = get_device_context tables 5000 1 empty in
    IsCoherent (λ t. tables) 5000 cache'
    × ((t : Time) × (t ≤ 5000) × (5000 < t + cache_ttl) × (c ≡ load_context tables 1))
get_device_context_fresh_example =
    get_device_context_fresh (λ t. tables) empty 5000 1 empty-IsCoherent
