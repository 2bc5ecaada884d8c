-- ===== src/Fertilizer/Close.antt =====
-- `closeSession` of fertilizer/fertilizer.service.ts, with the aggregates that it computes.
use qs_farm_be.Common.{
  ◌-◌, Bool, true, false, ◌&&◌, Option, none, some, List, [], ◌∷◌, map, leb, ◌==◌, if◌then◌else◌,
  find, keep, length, is_some,
}
use qs_farm_be.Domain.{
  Uuid, Time, SensorType, fert_temperature, fert_current, fert_phase, critical, sensor_eq, level_eq,
}
use qs_farm_be.Pump.{SensorData, AlertRow, Aggregates}
use qs_farm_be.Fertilizer.Rows.{
  FertDb, FertilizerSession, FertilizerSessionStatus, FertilizerInterruptedReason,
}

-- `FERT_SENSOR_TYPES`
abbrev pub is_fert_sensor : SensorType → Bool
is_fert_sensor fert_temperature = true
is_fert_sensor fert_current = true
is_fert_sensor fert_phase = true
is_fert_sensor _ = false

module _ {F : Type 0} where
  -- `save` of a row that the table holds
  unfoldable pub save_fert_session :
      FertilizerSession F → List (FertilizerSession F) → List (FertilizerSession F)
  save_fert_session s [] = []
  save_fert_session s (x ∷ xs) = (if x.id == s.id then s else x) ∷ save_fert_session s xs

  abbrev pub reading_in_window : Uuid → SensorType → Time → Time → SensorData F → Bool
  reading_in_window d ty from to r =
      r.device_id == d && sensor_eq r.sensor_type ty && leb from r.created_at && leb r.created_at to

  abbrev pub fert_values : Uuid → SensorType → Time → Time → FertDb F → List F
  fert_values d ty from to db =
      map (λ (r : SensorData F). r.value) (keep (reading_in_window d ty from to) db.sensor_data)

  abbrev pub fert_overcurrent : Uuid → Time → Time → AlertRow F → Bool
  fert_overcurrent d from to a =
      a.device_id == d
      && sensor_eq a.sensor_type fert_current
      && level_eq a.level critical
      && leb from a.created_at
      && leb a.created_at to

  abbrev pub fert_alert : Uuid → Time → Time → AlertRow F → Bool
  fert_alert d from to a =
      a.device_id == d
      && is_fert_sensor a.sensor_type
      && leb from a.created_at
      && leb a.created_at to

module _ {F : Type 0} (sql : Aggregates F) where
  pub record FertStats : Type 0 where
    pub min_value : F
    pub max_value : F
    pub avg_value : F

  -- `none` where no row fits, and SQL's MIN is null.
  unfoldable pub get_sensor_aggregates : List F → Option FertStats
  get_sensor_aggregates [] = none
  get_sensor_aggregates (v ∷ vs) = some (record {
    min_value = sql.min_of v vs;
    max_value = sql.max_of v vs;
    avg_value = sql.avg_of v vs;
  })

  abbrev pub with_fert_temp : Option FertStats → FertilizerSession F → FertilizerSession F
  with_fert_temp none s = s
  with_fert_temp (some a) s = record s {
    temp_min = some a.min_value;
    temp_max = some a.max_value;
    temp_avg = some a.avg_value;
  }

  abbrev pub with_fert_current : Option FertStats → FertilizerSession F → FertilizerSession F
  with_fert_current none s = s
  with_fert_current (some a) s = record s {
    current_min = some a.min_value;
    current_max = some a.max_value;
    current_avg = some a.avg_value;
  }

  -- The window is from the session's start to its end.
  unfoldable pub compute_fert_aggregates :
      FertDb F → Time → FertilizerSession F → FertilizerSession F
  compute_fert_aggregates db ended_at s =
      let values = λ (ty : SensorType). fert_values s.device_id ty s.started_at ended_at db in
      let s1 = with_fert_temp (get_sensor_aggregates (values fert_temperature)) s in
      let s2 = with_fert_current (get_sensor_aggregates (values fert_current)) s1 in
      record s2 { phase_count = sql.count_distinct (values fert_phase) }

  abbrev pub with_fert_overcurrent : List F → FertilizerSession F → FertilizerSession F
  with_fert_overcurrent [] s = s
  with_fert_overcurrent (v ∷ vs) s = record s {
    overcurrent_detected = true;
    overcurrent_count = length (v ∷ vs);
    overcurrent_max_current = some (sql.max_of v vs);
    has_alert = true;
  }

  unfoldable pub compute_fert_overcurrent :
      FertDb F → Time → FertilizerSession F → FertilizerSession F
  compute_fert_overcurrent db ended_at s =
      let over = keep (fert_overcurrent s.device_id s.started_at ended_at) db.alerts in
      let s1 = with_fert_overcurrent (map (λ (a : AlertRow F). a.value) over) s in
      if s1.has_alert then s1 else record s1 {
        has_alert = is_some (find (fert_alert s.device_id s.started_at ended_at) db.alerts);
      }

  -- The session as `closeSession` saves it; `-` stops at 0, as `Math.max(0, …)` does.
  unfoldable pub closed_fert_session :
      FertDb F
      → FertilizerSession F
      → Time
      → FertilizerSessionStatus
      → Option FertilizerInterruptedReason
      → FertilizerSession F
  closed_fert_session db s ended_at status reason = compute_fert_overcurrent db ended_at (
      compute_fert_aggregates db ended_at (record s {
        ended_at = some ended_at;
        status = status;
        interrupted_reason = reason;
        duration_ms = some (ended_at - s.started_at);
      }))

  unfoldable pub close_fert_session :
      FertDb F
      → FertilizerSession F
      → Time
      → FertilizerSessionStatus
      → Option FertilizerInterruptedReason
      → FertDb F × FertilizerSession F
  close_fert_session db s ended_at status reason =
      let c = closed_fert_session db s ended_at status reason in
      (record db { sessions = save_fert_session c db.sessions }, c)
