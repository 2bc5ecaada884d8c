-- ===== src/Pump/Close.antt =====
-- `closeSession` of pump/pump.service.ts, with the aggregates that it computes.
use qs_farm_be.Common.{
  ℕ, ◌-◌, Bool, true, ◌&&◌, Option, none, some, List, [], ◌∷◌, map, ltb, leb, ◌==◌, if◌then◌else◌,
  find, keep, length, insert, is_some,
}
use qs_farm_be.Domain.{
  Uuid, Time, SensorType, pump_temperature, water_pressure, water_flow, electrical_current,
  electrical_phase, critical, sensor_eq, level_eq,
}
use qs_farm_be.Pump.Rows.{
  Db, SensorData, AlertRow, PumpSession, PumpSessionStatus, InterruptedReason, Aggregates,
  is_completed,
}

module _ {F : Type 0} where
  -- `save` of a row that the table holds
  unfoldable pub save_session : PumpSession F → List (PumpSession F) → List (PumpSession F)
  save_session s [] = []
  save_session s (x ∷ xs) = (if x.id == s.id then s else x) ∷ save_session s xs

  abbrev pub in_window : Uuid → SensorType → Time → Time → SensorData F → Bool
  in_window d ty from to r =
      r.device_id == d && sensor_eq r.sensor_type ty && leb from r.created_at && leb r.created_at to

  abbrev pub values_in : Uuid → SensorType → Time → Time → Db F → List F
  values_in d ty from to db =
      map (λ (r : SensorData F). r.value) (keep (in_window d ty from to) db.sensor_data)

  abbrev pub alert_in_window : Uuid → Time → Time → AlertRow F → Bool
  alert_in_window d from to a = a.device_id == d && leb from a.created_at && leb a.created_at to

  abbrev pub is_overcurrent : Uuid → Time → Time → AlertRow F → Bool
  is_overcurrent d from to a =
      alert_in_window d from to a
      && sensor_eq a.sensor_type electrical_current
      && level_eq a.level critical

module _ {F : Type 0} (sql : Aggregates F) where
  pub record Stats : Type 0 where
    pub min_value : F
    pub max_value : F
    pub avg_value : F
    pub sum_value : F

  -- `none` where no row fits, and SQL's MIN is null.
  unfoldable pub sensor_aggregates : List F → Option Stats
  sensor_aggregates [] = none
  sensor_aggregates (v ∷ vs) = some (record {
    min_value = sql.min_of v vs;
    max_value = sql.max_of v vs;
    avg_value = sql.avg_of v vs;
    sum_value = sql.sum_of v vs;
  })

  abbrev pub with_temp : Option Stats → PumpSession F → PumpSession F
  with_temp none s = s
  with_temp (some a) s = record s {
    temp_min = some a.min_value;
    temp_max = some a.max_value;
    temp_avg = some a.avg_value;
  }

  abbrev pub with_pressure : Option Stats → PumpSession F → PumpSession F
  with_pressure none s = s
  with_pressure (some a) s = record s {
    pressure_min = some a.min_value;
    pressure_max = some a.max_value;
    pressure_avg = some a.avg_value;
  }

  abbrev pub with_flow : Option Stats → PumpSession F → PumpSession F
  with_flow none s = s
  with_flow (some a) s = record s {
    flow_min = some a.min_value;
    flow_max = some a.max_value;
    flow_total = some a.sum_value;
  }

  abbrev pub with_current : Option Stats → PumpSession F → PumpSession F
  with_current none s = s
  with_current (some a) s = record s {
    current_min = some a.min_value;
    current_max = some a.max_value;
    current_avg = some a.avg_value;
  }

  -- The window is from the session's start to its end.
  unfoldable pub compute_session_aggregates : Db F → Time → PumpSession F → PumpSession F
  compute_session_aggregates db ended_at s =
      let values = λ (ty : SensorType). values_in s.device_id ty s.started_at ended_at db in
      let s1 = with_temp (sensor_aggregates (values pump_temperature)) s in
      let s2 = with_pressure (sensor_aggregates (values water_pressure)) s1 in
      let s3 = with_flow (sensor_aggregates (values water_flow)) s2 in
      let s4 = with_current (sensor_aggregates (values electrical_current)) s3 in
      record s4 { phase_count = sql.count_distinct (values electrical_phase) }

  abbrev pub with_overcurrent : List F → PumpSession F → PumpSession F
  with_overcurrent [] s = s
  with_overcurrent (v ∷ vs) s = record s {
    overcurrent_detected = true;
    overcurrent_count = length (v ∷ vs);
    overcurrent_max_current = some (sql.max_of v vs);
    has_alert = true;
  }

  unfoldable pub compute_overcurrent_data : Db F → Time → PumpSession F → PumpSession F
  compute_overcurrent_data db ended_at s =
      let over = keep (is_overcurrent s.device_id s.started_at ended_at) db.alerts in
      let s1 = with_overcurrent (map (λ (a : AlertRow F). a.value) over) s in
      if s1.has_alert then s1 else record s1 {
        has_alert = is_some (find (alert_in_window s.device_id s.started_at ended_at) db.alerts);
      }

  -- The session as `closeSession` saves it; `-` stops at 0, as `Math.max(0, …)` does.
  unfoldable pub closed_session :
      Db F → PumpSession F → Time → PumpSessionStatus → Option InterruptedReason → PumpSession F
  closed_session db s ended_at status reason = compute_overcurrent_data db ended_at (
      compute_session_aggregates db ended_at (record s {
        ended_at = some ended_at;
        status = status;
        interrupted_reason = reason;
        duration_ms = some (ended_at - s.started_at);
      }))

  -- `durationSeconds / 3600`, where `durationSeconds` is the time in milliseconds divided by 1000.
  unfoldable pub hours_of : ℕ → F
  hours_of ms = sql.divide (sql.divide (sql.number ms) (sql.number 1000)) (sql.number 3600)

  -- `UPDATE device SET totalOperatingHours = totalOperatingHours + …`
  unfoldable pub add_operating : Uuid → ℕ → Db F → Db F
  add_operating d ms db = elim (db.operating_hours d) [
    | none ↦ db
    | some total ↦ record db {
      operating_hours = insert d (sql.plus total (hours_of ms)) db.operating_hours;
    }
  ]

  unfoldable pub close_session :
      Db F
      → PumpSession F
      → Time
      → PumpSessionStatus
      → Option InterruptedReason
      → Db F × PumpSession F
  close_session db s ended_at status reason =
      let c = closed_session db s ended_at status reason in
      let saved = record db { sessions = save_session c db.sessions } in
      let ms = ended_at - s.started_at in
      (if is_completed status && ltb 0 ms then add_operating s.device_id ms saved else saved, c)
