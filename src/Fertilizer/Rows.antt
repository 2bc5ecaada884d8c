-- ===== src/Fertilizer/Rows.antt =====
-- The rows that fertilizer/fertilizer.service.ts reads and writes: fertilizer/entities, fertilizer/enums.
use qs_farm_be.Common.{ℕ, Bool, true, false, Option, List}
use qs_farm_be.Domain.{Uuid, Time, ControlMode, Device}
use qs_farm_be.Pump.{SensorData, AlertRow}

pub data FertilizerSessionStatus : Type 0 where
  active completed interrupted : FertilizerSessionStatus

pub data FertilizerInterruptedReason : Type 0 where
  lwt esp_reboot timeout : FertilizerInterruptedReason

abbrev pub fert_is_active : FertilizerSessionStatus → Bool
fert_is_active active = true
fert_is_active _ = false

-- Readings are floats of a type `F`, and a duration is kept in milliseconds, as for the pump.
pub record FertilizerSession (F : Type 0) : Type 0 where
  pub id : Uuid
  pub device_id : Uuid
  pub session_number : ℕ
  pub control_mode : ControlMode
  pub started_at : Time
  pub ended_at : Option Time
  pub duration_ms : Option ℕ
  pub temp_min : Option F
  pub temp_max : Option F
  pub temp_avg : Option F
  pub current_min : Option F
  pub current_max : Option F
  pub current_avg : Option F
  pub phase_count : ℕ
  pub overcurrent_detected : Bool
  pub overcurrent_count : ℕ
  pub overcurrent_max_current : Option F
  pub has_alert : Bool
  pub status : FertilizerSessionStatus
  pub interrupted_reason : Option FertilizerInterruptedReason

-- The tables.
pub record FertDb (F : Type 0) : Type 0 where
  pub sessions : List (FertilizerSession F)
  pub sensor_data : List (SensorData F)
  pub alerts : List (AlertRow F)
  pub devices : List Device
