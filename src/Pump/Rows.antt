-- ===== src/Pump/Rows.antt =====
-- The rows that pump/pump.service.ts reads and writes: pump/entities/pump-session.entity.ts,
-- sensor/entities/sensor-data.entity.ts and alert-log.entity.ts, and pump/enums.
use qs_farm_be.Common.{ℕ, Bool, true, false, Option, List, Dict}
use qs_farm_be.Domain.{Uuid, Time, IrrigationMode, ControlMode, SensorType, ThresholdLevel}

pub data PumpSessionStatus : Type 0 where
  running completed interrupted : PumpSessionStatus

pub data InterruptedReason : Type 0 where
  lwt esp_reboot timeout : InterruptedReason

-- The status ACTIVE is `running`.
abbrev pub is_running : PumpSessionStatus → Bool
is_running running = true
is_running _ = false

abbrev pub is_completed : PumpSessionStatus → Bool
is_completed completed = true
is_completed _ = false

-- Readings are floats of a type `F`. A duration is kept in milliseconds, so that
-- `durationSeconds` is `duration_ms / 1000` and dividing loses nothing.
pub record PumpSession (F : Type 0) : Type 0 where
  pub id : Uuid
  pub device_id : Uuid
  pub session_number : ℕ
  pub irrigation_mode : IrrigationMode
  pub control_mode : ControlMode
  pub started_at : Time
  pub ended_at : Option Time
  pub duration_ms : Option ℕ
  pub temp_min : Option F
  pub temp_max : Option F
  pub temp_avg : Option F
  pub pressure_min : Option F
  pub pressure_max : Option F
  pub pressure_avg : Option F
  pub flow_min : Option F
  pub flow_max : Option F
  pub flow_total : Option F
  pub current_min : Option F
  pub current_max : Option F
  pub current_avg : Option F
  pub phase_count : ℕ
  pub overcurrent_detected : Bool
  pub overcurrent_count : ℕ
  pub overcurrent_max_current : Option F
  pub has_alert : Bool
  pub status : PumpSessionStatus
  pub interrupted_reason : Option InterruptedReason

pub record SensorData (F : Type 0) : Type 0 where
  pub device_id : Uuid
  pub sensor_type : SensorType
  pub value : F
  pub created_at : Time

pub record AlertRow (F : Type 0) : Type 0 where
  pub device_id : Uuid
  pub sensor_type : SensorType
  pub level : ThresholdLevel
  pub value : F
  pub created_at : Time

-- The tables. `operating_hours` is the column `totalOperatingHours` of the table `device`; it is
-- none at an id that is no device.
pub record Db (F : Type 0) : Type 0 where
  pub sessions : List (PumpSession F)
  pub sensor_data : List (SensorData F)
  pub alerts : List (AlertRow F)
  pub operating_hours : Dict Uuid F

-- The aggregate functions of SQL over the values of one or more rows, and the arithmetic on floating
-- point numbers that the code does, with its rounding.
pub record Aggregates (F : Type 0) : Type 0 where
  pub min_of : F → List F → F
  pub max_of : F → List F → F
  pub avg_of : F → List F → F
  pub sum_of : F → List F → F
  pub count_distinct : List F → ℕ
  pub number : ℕ → F
  pub divide : F → F → F
  pub plus : F → F → F
