-- ===== src/Sensors/Configs.antt =====
-- The administration of sensor configs and thresholds, in sensor/sensor.service.ts.
use qs_farm_be.Common.{
  List, Bool, true, not, ◌&&◌, Option, none, some, [], ◌∷◌, ◌++◌, map, ◌==◌, if◌then◌else◌, find,
  keep, get_or,
}
use qs_farm_be.Domain.{Uuid, SensorType, ThresholdRow}
use qs_farm_be.Sensors.{
  Sensors, ConfigRow, SensorMode, auto, ThresholdEntry, drop_configs, drop_both,
}

-- A request; what it leaves out is `none`, or has the column's default.
pub record ConfigDto : Type 0 where
  pub sensor_type : Option SensorType
  pub enabled : Option Bool
  pub mode : Option SensorMode

-- What an operation ends with: an exception, the row that it saved, or nothing.
pub data Answer (F : Type 0) : Type 0 where
  row_not_found : Answer F
  config_saved : ConfigRow → Answer F
  threshold_saved : ThresholdEntry F → Answer F
  removed : Answer F

abbrev pub assign_config : ConfigDto → ConfigRow → ConfigRow
assign_config dto c = record c {
  sensor_type = get_or dto.sensor_type c.sensor_type;
  enabled = get_or dto.enabled c.enabled;
  mode = get_or dto.mode c.mode;
}

-- A request to create names a sensor type.
abbrev pub new_config : Uuid → Uuid → SensorType → ConfigDto → ConfigRow
new_config new_id d sensor_type dto = record {
  id = new_id;
  device_id = d;
  sensor_type = sensor_type;
  enabled = get_or dto.enabled true;
  mode = get_or dto.mode auto;
}

abbrev pub save_config : ConfigRow → List ConfigRow → List ConfigRow
save_config c cs = map (λ (x : ConfigRow). if x.id == c.id then c else x) cs

module _ {F : Type 0} where
  abbrev pub config_with : Uuid → Sensors F → Option ConfigRow
  config_with i st = find (λ (c : ConfigRow). c.id == i) st.configs

  abbrev pub config_of_device : Uuid → Uuid → Sensors F → Option ConfigRow
  config_of_device d i st = find (λ (c : ConfigRow). c.id == i && c.device_id == d) st.configs

  -- `where: { id, sensorConfigId }`
  abbrev pub threshold_of_config : Uuid → Uuid → Sensors F → Option (ThresholdEntry F)
  threshold_of_config config_id i st =
      find (λ (t : ThresholdEntry F). t.id == i && t.sensor_config_id == config_id) st.thresholds

  unfoldable pub create_config :
      Uuid → Uuid → SensorType → ConfigDto → Sensors F → Answer F × Sensors F
  create_config new_id d sensor_type dto st =
      let c = new_config new_id d sensor_type dto in
      (config_saved c, drop_configs d (record st { configs = st.configs ++ c ∷ [] }))

  unfoldable pub update_config : Uuid → Uuid → ConfigDto → Sensors F → Answer F × Sensors F
  update_config d i dto st = elim (config_of_device d i st) [
    | none ↦ (row_not_found, st)
    | some c ↦ (
      config_saved (assign_config dto c),
      drop_configs d (record st { configs = save_config (assign_config dto c) st.configs }),
    )
  ]

  -- The thresholds of a config go with it.
  unfoldable pub remove_config : Uuid → Uuid → Sensors F → Answer F × Sensors F
  remove_config d i st = elim (config_of_device d i st) [
    | none ↦ (row_not_found, st)
    | some c ↦ (
      removed,
      drop_configs d (record st {
        configs = keep (λ (x : ConfigRow). not (x.id == c.id)) st.configs;
        thresholds =
            keep (λ (t : ThresholdEntry F). not (t.sensor_config_id == c.id)) st.thresholds;
      }),
    )
  ]

  unfoldable pub create_threshold : Uuid → Uuid → ThresholdRow F → Sensors F → Answer F × Sensors F
  create_threshold new_id config_id row st = elim (config_with config_id st) [
    | none ↦ (row_not_found, st)
    | some c ↦
        let t : ThresholdEntry F = record {
          id = new_id;
          sensor_config_id = config_id;
          row = row;
        } in
        (
          threshold_saved t,
          drop_both c.device_id (record st { thresholds = st.thresholds ++ t ∷ [] }),
        )
  ]

  -- What `updateThreshold` and `removeThreshold` do last; a config that is gone is passed over.
  unfoldable pub drop_of_config : Uuid → Sensors F → Sensors F
  drop_of_config config_id st = elim (config_with config_id st) [
    | none ↦ st
    | some c ↦ drop_both c.device_id st
  ]

  abbrev pub save_threshold : ThresholdEntry F → List (ThresholdEntry F) → List (ThresholdEntry F)
  save_threshold t ts = map (λ (x : ThresholdEntry F). if x.id == t.id then t else x) ts

  -- `assign` is `Object.assign` with the request on the columns.
  unfoldable pub update_threshold :
      Uuid → Uuid → (ThresholdRow F → ThresholdRow F) → Sensors F → Answer F × Sensors F
  update_threshold config_id i assign st = elim (threshold_of_config config_id i st) [
    | none ↦ (row_not_found, st)
    | some t ↦
        let saved : ThresholdEntry F = record t { row = assign t.row } in
        (
          threshold_saved saved,
          drop_of_config config_id (record st { thresholds = save_threshold saved st.thresholds }),
        )
  ]

  unfoldable pub remove_threshold : Uuid → Uuid → Sensors F → Answer F × Sensors F
  remove_threshold config_id i st = elim (threshold_of_config config_id i st) [
    | none ↦ (row_not_found, st)
    | some t ↦ (
      removed,
      drop_of_config config_id (record st {
        thresholds = keep (λ (x : ThresholdEntry F). not (x.id == t.id)) st.thresholds;
      }),
    )
  ]
