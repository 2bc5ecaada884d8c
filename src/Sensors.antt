-- ===== src/Sensors.antt =====
-- sensor/sensor.service.ts: readings from telemetry to the thresholds, and the administration of
-- sensor configs and thresholds with the caches. The calls of the database succeed here, but saving
-- an alert log may fail. `F` is the type
-- of readings and `lt` their comparison, as in Threshold.
pub mod Configs
pub mod Caches
pub mod Coherence
pub mod Sources
mod Examples
use qs_farm_be.Common.{
  ℕ, ◌+◌, Bool, true, false, not, ◌&&◌, Option, none, some, List, [], ◌∷◌, ◌++◌, map, ltb, ◌==◌,
  if◌then◌else◌, find, is_some, keep, Dict, insert, erase,
}
use qs_farm_be.Domain.{
  Uuid, Time, SensorType, water_pressure, water_flow, pump_temperature, soil_moisture,
  electrical_current, electrical_phase, pump_status, fert_temperature, fert_current, fert_phase,
  fert_status, sensor_eq, ThresholdRow,
}
use qs_farm_be.ConfigResolution.{
  Tables, Cache, ResolvedDeviceContext, get_device_context, resolve_config,
  resolve_thresholds_for_sensor, ResolvedThreshold, invalidate_cache,
}
use qs_farm_be.Pump.{SensorData}
use qs_farm_be.Threshold.{State, World, Effect, log_alert, SensorConfig, evaluate}

pub data SensorMode : Type 0 where
  auto manual : SensorMode

abbrev pub is_auto : SensorMode → Bool
is_auto auto = true
is_auto manual = false

-- A row of `sensor_config`, and one of `sensor_threshold` with its config.
pub record ConfigRow : Type 0 where
  pub id : Uuid
  pub device_id : Uuid
  pub sensor_type : SensorType
  pub enabled : Bool
  pub mode : SensorMode

pub record ThresholdEntry (F : Type 0) : Type 0 where
  pub id : Uuid
  pub sensor_config_id : Uuid
  pub row : ThresholdRow F

-- A config with the relation `thresholds`.
pub record LoadedConfig (F : Type 0) : Type 0 where
  pub config : ConfigRow
  pub thresholds : List (ThresholdRow F)

pub record ConfigsEntry (F : Type 0) : Type 0 where
  pub configs : List (LoadedConfig F)
  pub loaded_at : Time

-- The tables, this service's cache, the config resolution's and the state of the threshold service.
pub record Sensors (F : Type 0) : Type 0 where
  pub configs : List ConfigRow
  pub thresholds : List (ThresholdEntry F)
  pub sensor_data : List (SensorData F)
  pub tables : Tables F
  pub config_cache : Dict Uuid (ConfigsEntry F)
  pub contexts : Cache F
  pub alerting : State

-- What a telemetry message says: `payload t` is the number at the key of the sensor type `t`.
pub record TelemetryEvent (F : Type 0) : Type 0 where
  pub device_id : Uuid
  pub payload : SensorType → Option F
  pub farm_id : Option Uuid

-- The types of `PAYLOAD_TO_SENSOR_TYPE` in its order.
abbrev pub payload_sensor_types : List SensorType
payload_sensor_types =
    water_pressure ∷ water_flow ∷ pump_temperature ∷ soil_moisture ∷ electrical_current
    ∷ electrical_phase ∷ pump_status ∷ fert_temperature ∷ fert_current ∷ fert_phase ∷ fert_status
    ∷ []

module _ {F : Type 0} where
  unfoldable pub readings_of : (SensorType → Option F) → List SensorType → List (SensorType × F)
  readings_of payload [] = []
  readings_of payload (t ∷ ts) =
      let rest = readings_of payload ts in elim (payload t) [ none ↦ rest | some v ↦ (t, v) ∷ rest ]

  abbrev pub is_storable : SensorType × F → Bool
  is_storable (t, v) = not (sensor_eq t pump_status)

  -- The rows that a message adds, at the time of the database.
  abbrev pub stored : Time → Uuid → List (SensorType × F) → List (SensorData F)
  stored now d rs =
      map
        (λ (r : SensorType × F). record {
          device_id = d;
          sensor_type = r.0;
          value = r.1;
          created_at = now;
        })
        (keep is_storable rs)

  abbrev pub thresholds_of : Uuid → List (ThresholdEntry F) → List (ThresholdRow F)
  thresholds_of i ts =
      map (λ (t : ThresholdEntry F). t.row)
        (keep (λ (t : ThresholdEntry F). t.sensor_config_id == i) ts)

  -- `find({ where: { deviceId }, relations: ['thresholds'] })`
  unfoldable pub load_configs : Uuid → Sensors F → List (LoadedConfig F)
  load_configs d st =
      map (λ (c : ConfigRow). record { config = c; thresholds = thresholds_of c.id st.thresholds })
        (keep (λ (c : ConfigRow). c.device_id == d) st.configs)

  abbrev pub reload_configs : Time → Uuid → Sensors F → List (LoadedConfig F) × Sensors F
  reload_configs now d st =
      let cs = load_configs d st in
      (
        cs,
        record st {
          config_cache = insert d (record { configs = cs; loaded_at = now }) st.config_cache;
        },
      )

  unfoldable pub get_configs_for_device :
      Time → Uuid → Sensors F → List (LoadedConfig F) × Sensors F
  get_configs_for_device now d st = elim (st.config_cache d) [
    | none ↦ reload_configs now d st
    | some e ↦ if ltb now (e.loaded_at + 60000) then (e.configs, st) else reload_configs now d st
  ]

  abbrev pub is_alert_log : Effect F → Bool
  is_alert_log (log_alert a) = true
  is_alert_log _ = false

  -- Whether `evaluate` threw: an alert log was to be saved, and saving it failed. The exception ends
  -- the loop, and is caught by `processTelemetry`.
  abbrev pub throws : World → List (Effect F) → Bool
  throws w es = not w.alert_ok && is_some (find is_alert_log es)

  -- `configs.find` of the loop.
  abbrev pub applies : SensorType → LoadedConfig F → Bool
  applies t c = sensor_eq c.config.sensor_type t && c.config.enabled && is_auto c.config.mode

  module _ (lt : F → F → Bool) where
    -- One turn of the loop; `w` is what the other services answer during it.
    unfoldable pub evaluate_reading :
        World
        → TelemetryEvent F
        → List (LoadedConfig F)
        → ResolvedDeviceContext F
        → SensorType × F
        → State
        → State × List (Effect F)
    evaluate_reading w event configs context (t, v) s = elim (find (applies t) configs) [
      | none ↦ (s, [])
      | some c ↦
          elim (resolve_thresholds_for_sensor context c.thresholds t
            (resolve_config context).irrigation_mode) [
              | [] ↦ (s, [])
              | r ∷ rs ↦
                  evaluate lt w event.device_id event.farm_id
                    (record { sensor_type = c.config.sensor_type; thresholds = some c.thresholds })
                    v (some (r ∷ rs)) s
            ]
    ]

    unfoldable pub evaluate_readings :
        (SensorType → World)
        → TelemetryEvent F
        → List (LoadedConfig F)
        → ResolvedDeviceContext F
        → List (SensorType × F)
        → State
        → State × List (Effect F)
    evaluate_readings w event configs context [] s = (s, [])
    evaluate_readings w event configs context (r ∷ rs) s =
        let (s1, es) = evaluate_reading (w r.0) event configs context r s in
        let (s2, rest) = evaluate_readings w event configs context rs s1 in
        if throws (w r.0) es then (s1, es) else (s2, es ++ rest)

    unfoldable pub process_telemetry :
        Time → (SensorType → World) → TelemetryEvent F → Sensors F → Sensors F × List (Effect F)
    process_telemetry now w event st = elim (readings_of event.payload payload_sensor_types) [
      | [] ↦ (st, [])
      | r ∷ rs ↦
          let d = event.device_id in
          let st1 = record st { sensor_data = st.sensor_data ++ stored now d (r ∷ rs) } in
          let (configs, st2) = get_configs_for_device now d st1 in
          let (context, contexts) = get_device_context st2.tables now d st2.contexts in
          let (alerting, es) = evaluate_readings w event configs context (r ∷ rs) st2.alerting in
          (record st2 { contexts = contexts; alerting = alerting }, es)
    ]

  abbrev pub drop_configs : Uuid → Sensors F → Sensors F
  drop_configs d st = record st { config_cache = erase d st.config_cache }

  -- The cache of this service and the one of the config resolution.
  abbrev pub drop_both : Uuid → Sensors F → Sensors F
  drop_both d st = record (drop_configs d st) { contexts = invalidate_cache d st.contexts }
