-- ===== src/Fertilizer/AsPump.antt =====
-- The fertilizer of a device seen as a pump: the tables of fertilizer/fertilizer.service.ts as
-- tables of pump/pump.service.ts.
use qs_farm_be.Common.{
  ◌≡◌, refl, ap, Option, none, some, List, [], ◌∷◌, map, ◌==◌, if◌then◌else◌, empty, Bool-cases,
  inl, inr,
}
use qs_farm_be.Domain.{
  Uuid, normal, SensorType, pump_temperature, electrical_current, electrical_phase,
  fert_temperature, fert_current, fert_phase,
}
use qs_farm_be.Pump.{
  Db, SensorData, AlertRow, PumpSession, PumpSessionStatus, InterruptedReason, max_number,
  save_session,
}
use qs_farm_be.Fertilizer.{
  FertDb, FertilizerSession, FertilizerSessionStatus, FertilizerInterruptedReason, active,
  completed, interrupted, lwt, esp_reboot, timeout, is_fert_sensor, max_fert_number,
  save_fert_session,
}

abbrev pub as_status : FertilizerSessionStatus → PumpSessionStatus
as_status active = PumpSessionStatus.running
as_status completed = PumpSessionStatus.completed
as_status interrupted = PumpSessionStatus.interrupted

abbrev pub as_reason : FertilizerInterruptedReason → InterruptedReason
as_reason lwt = InterruptedReason.lwt
as_reason esp_reboot = InterruptedReason.esp_reboot
as_reason timeout = InterruptedReason.timeout

abbrev pub as_reasons : Option FertilizerInterruptedReason → Option InterruptedReason
as_reasons none = none
as_reasons (some r) = some (as_reason r)

-- The sensor of the pump in the place of a fertilizer's sensor.
abbrev pub as_sensor : SensorType → SensorType
as_sensor fert_temperature = pump_temperature
as_sensor fert_current = electrical_current
as_sensor fert_phase = electrical_phase
as_sensor t = t

module _ {F : Type 0} where
  abbrev pub as_session : FertilizerSession F → PumpSession F
  as_session s = record {
    id = s.id;
    device_id = s.device_id;
    session_number = s.session_number;
    irrigation_mode = normal;
    control_mode = s.control_mode;
    started_at = s.started_at;
    ended_at = s.ended_at;
    duration_ms = s.duration_ms;
    temp_min = s.temp_min;
    temp_max = s.temp_max;
    temp_avg = s.temp_avg;
    pressure_min = none;
    pressure_max = none;
    pressure_avg = none;
    flow_min = none;
    flow_max = none;
    flow_total = none;
    current_min = s.current_min;
    current_max = s.current_max;
    current_avg = s.current_avg;
    phase_count = s.phase_count;
    overcurrent_detected = s.overcurrent_detected;
    overcurrent_count = s.overcurrent_count;
    overcurrent_max_current = s.overcurrent_max_current;
    has_alert = s.has_alert;
    status = as_status s.status;
    interrupted_reason = as_reasons s.interrupted_reason;
  }

  -- Only the readings and the alerts of the fertilizer's sensors.
  abbrev pub as_readings : List (SensorData F) → List (SensorData F)
  as_readings [] = []
  as_readings (r ∷ rs) =
      let rest = as_readings rs in
      if is_fert_sensor r.sensor_type
      then record r { sensor_type = as_sensor r.sensor_type } ∷ rest
      else rest

  abbrev pub as_alerts : List (AlertRow F) → List (AlertRow F)
  as_alerts [] = []
  as_alerts (a ∷ rest_of) =
      let rest = as_alerts rest_of in
      if is_fert_sensor a.sensor_type
      then record a { sensor_type = as_sensor a.sensor_type } ∷ rest
      else rest

  -- No device has operating hours.
  abbrev pub as_pump : FertDb F → Db F
  as_pump db = record {
    sessions = map as_session db.sessions;
    sensor_data = as_readings db.sensor_data;
    alerts = as_alerts db.alerts;
    operating_hours = empty;
  }

  pub max_number-as_session :
      (d : Uuid) (xs : List (FertilizerSession F))
      → max_number d (map as_session xs) ≡ max_fert_number d xs
  unfolding max_number max_fert_number
  max_number-as_session d [] = refl
  max_number-as_session d (x ∷ xs) = rw (max_number-as_session d xs) refl

  pub save_session-as_session :
      (c : FertilizerSession F) (xs : List (FertilizerSession F))
      → save_session (as_session c) (map as_session xs) ≡ map as_session (save_fert_session c xs)
  unfolding save_session save_fert_session
  save_session-as_session c [] = refl
  save_session-as_session c (x ∷ xs) = elim (Bool-cases (x.id == c.id)) [
    | inl h ↦ rw h (ap (λ r. as_session c ∷ r) (save_session-as_session c xs))
    | inr h ↦ rw h (ap (λ r. as_session x ∷ r) (save_session-as_session c xs))
  ]
