-- ===== src/Sensors/Examples.antt =====
-- One pressure sensor with a config of its own, for sensor/sensor.service.ts.
use qs_farm_be.Common.{
  arith, sym, ◌∙◌, inl, inr, ◌==◌, Bool-cases, ℕ, ◌≡◌, refl, true, false, none, some, [], ◌∷◌, Memᴰ,
  empty, ltb,
}
use qs_farm_be.Domain.{
  Uuid, Time, SensorType, water_pressure, sensor_eq, critical, new_device, ThresholdRow,
}
use qs_farm_be.ConfigResolution.{
  ResolvedThreshold, get_device_context, load_context, resolve_config,
  resolve_thresholds_for_sensor, find_device_threshold, find_zone_threshold, pick_threshold,
}
use qs_farm_be.Threshold.{
  World, Alert, log_alert, above, evaluate, thresholds_in_use, sort_thresholds, alert_of, scan,
  violation, on_violation, should_dispatch, raise_alert, dispatch_command, after_alert_log, notify,
  get_farm_owner_id, sort_from, insert_sorted, compare_levels, sensor_reason,
}
use qs_farm_be.Sensors.{
  Sensors, ConfigRow, SensorMode, TelemetryEvent, process_telemetry, get_configs_for_device,
  load_configs, readings_of, evaluate_readings, evaluate_reading,
}
use qs_farm_be.Sensors.Caches.{Edit, config_updated, edit, IsCoherent, HasOwnIds}
use qs_farm_be.Sensors.Coherence.{edit-get_configs_for_device}
use qs_farm_be.Sensors.Sources.{Source, process_telemetry-Source}

abbrev world : World
world = record {
  now = 100000;
  device = some (new_device 1);
  farm_owner = λ f. some 9;
  is_user_connected = λ u. false;
  publish_ok = true;
  log_ok = true;
  alert_ok = true;
}

abbrev pressure_config : ConfigRow
pressure_config = record {
  id = 31;
  device_id = 1;
  sensor_type = water_pressure;
  enabled = true;
  mode = SensorMode.auto;
}

abbrev limit : ThresholdRow ℕ
limit = record {
  level = critical;
  irrigation_mode = none;
  min_threshold = none;
  max_threshold = some 90;
  action = "PUMP_OFF";
}

abbrev site : Sensors ℕ
site = record {
  configs = pressure_config ∷ [];
  thresholds = record { id = 41; sensor_config_id = 31; row = limit } ∷ [];
  sensor_data = [];
  tables = record { devices = new_device 1 ∷ []; zones = []; zone_configs = [] };
  config_cache = empty;
  contexts = empty;
  alerting = record { device_states = empty; last_action_time = empty; farm_owner_cache = empty };
}

abbrev high_pressure : TelemetryEvent ℕ
high_pressure = record {
  device_id = 1;
  payload = λ (t : SensorType). elim (sensor_eq t water_pressure) [ true ↦ some 95 | false ↦ none ];
  farm_id = some 3;
}

abbrev force : ResolvedThreshold ℕ
force = record {
  min_threshold = none;
  max_threshold = some 90;
  action = "PUMP_OFF";
  level = critical;
}

abbrev alarm : Alert ℕ
alarm = alert_of 1 water_pressure 95 force above 90

logged : Memᴰ (log_alert alarm) (process_telemetry ltb 100000 (λ t. world) high_pressure site).1
unfolding process_telemetry readings_of get_configs_for_device load_configs get_device_context
    load_context resolve_config resolve_thresholds_for_sensor find_device_threshold
    find_zone_threshold pick_threshold evaluate_readings evaluate_reading evaluate scan violation
    on_violation should_dispatch raise_alert dispatch_command after_alert_log notify
    get_farm_owner_id sort_thresholds sort_from insert_sorted compare_levels thresholds_in_use
    sensor_reason
logged = Memᴰ.tail (Memᴰ.tail (Memᴰ.tail (Memᴰ.head refl)))

process_telemetry-Source_example :
    ∥ Source ltb high_pressure
      (get_configs_for_device 100000 1 site).0
      (get_device_context site.tables 100000 1 site.contexts).0
      alarm ∥₁
process_telemetry-Source_example =
    process_telemetry-Source ltb 100000 (λ t. world) high_pressure site (log_alert alarm) logged

abbrev switch_off : Edit ℕ
switch_off = config_updated 1 31 (record { sensor_type = none; enabled = some false; mode = none })

-- The site with the config of the device in the cache.
abbrev cached : Sensors ℕ
cached = (get_configs_for_device 100000 1 site).1

site-HasOwnIds : HasOwnIds cached
unfolding get_configs_for_device load_configs
site-HasOwnIds = record {
  configs = λ a b m n e. only_one pressure_config a b m n;
  thresholds = λ a b m n e. only_one _ a b m n;
}
  where
    only_one : {A : Type 0} → (x a b : A) → Memᴰ a (x ∷ []) → Memᴰ b (x ∷ []) → a ≡ b
    only_one x a b (Memᴰ.head e) (Memᴰ.head f) = e ∙ sym f
    only_one x a b (Memᴰ.head e) (Memᴰ.tail n) = elim n [ ]
    only_one x a b (Memᴰ.tail m) n = elim m [ ]

cached-IsCoherent : IsCoherent cached
unfolding get_configs_for_device load_configs
cached-IsCoherent d e h = elim (Bool-cases (d == 1)) [
  | inl hit ↦ ground (arith, hit, h)
  | inr miss ↦ ground (arith, miss, h)
]

edit-get_configs_for_device_example :
    IsCoherent (edit switch_off cached).1
    × ((now : Time) (d : Uuid)
        → (get_configs_for_device now d (edit switch_off cached).1).0
          ≡ load_configs d (edit switch_off cached).1)
edit-get_configs_for_device_example =
    edit-get_configs_for_device switch_off cached site-HasOwnIds cached-IsCoherent
