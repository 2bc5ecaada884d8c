-- ===== src/Domain.antt =====
-- The enums and the entity rows that several services share: shared/enums, sensor/enums,
-- device/entities and zone/entities under src. An id is a UUID that the services only compare, so
-- it is a number; a nullable column is an `Option`, where `none` is null, undefined or "".
use Prim.Native.String.{String}
use qs_farm_be.Common.{ℕ, ◌≡◌, Bool, true, false, Option, none, List, arith, ◌==◌}

abbrev pub Uuid : Type 0
Uuid = ℕ

-- A time in milliseconds since the epoch.
abbrev pub Time : Type 0
Time = ℕ

pub data IrrigationMode : Type 0 where
  normal spray root drip : IrrigationMode

pub data ControlMode : Type 0 where
  auto manual schedule : ControlMode

pub data ThresholdLevel : Type 0 where
  warning critical : ThresholdLevel

pub data SensorType : Type 0 where
  water_pressure water_flow pump_temperature soil_moisture electrical_current : SensorType
  electrical_phase pump_status fert_temperature fert_current fert_phase fert_status : SensorType

pub data DeviceStatus : Type 0 where
  pending paired active disabled : DeviceStatus

-- `===` on the enums.
abbrev pub mode_eq : IrrigationMode → IrrigationMode → Bool
mode_eq normal normal = true
mode_eq spray spray = true
mode_eq root root = true
mode_eq drip drip = true
mode_eq _ _ = false

abbrev pub level_eq : ThresholdLevel → ThresholdLevel → Bool
level_eq warning warning = true
level_eq critical critical = true
level_eq _ _ = false

-- The place of a sensor type in its enum.
abbrev pub sensor_index : SensorType → ℕ
sensor_index water_pressure = 0
sensor_index water_flow = 1
sensor_index pump_temperature = 2
sensor_index soil_moisture = 3
sensor_index electrical_current = 4
sensor_index electrical_phase = 5
sensor_index pump_status = 6
sensor_index fert_temperature = 7
sensor_index fert_current = 8
sensor_index fert_phase = 9
sensor_index fert_status = 10

abbrev pub sensor_eq : SensorType → SensorType → Bool
sensor_eq a b = sensor_index a == sensor_index b

pub mode_eq-true : (a b : IrrigationMode) → mode_eq a b ≡ true → a ≡ b
mode_eq-true a b h = ground arith

pub level_eq-true : (a b : ThresholdLevel) → level_eq a b ≡ true → a ≡ b
level_eq-true a b h = ground arith

pub sensor_eq-true : (a b : SensorType) → sensor_eq a b ≡ true → a ≡ b
sensor_eq-true a b h = ground arith

-- A row of the table `device`.
pub record Device : Type 0 where
  pub id : Uuid
  pub imei : Option ℕ
  pub serial : Option ℕ
  pub mac : Option ℕ
  pub hardware_version : Option (List ℕ)
  pub hw_model : Option (List ℕ)
  pub firmware_version : Option (List ℕ)
  pub device_token : Option ℕ
  pub status : DeviceStatus
  pub provisioned_at : Option Time
  pub paired_at : Option Time
  pub gateway_id : Option Uuid
  pub farm_id : Option Uuid
  pub zone_id : Option Uuid
  pub irrigation_mode : Option IrrigationMode
  pub control_mode : Option ControlMode
  pub last_seen_at : Option Time
  pub pump_enabled : Bool
  pub has_fertilizer : Bool
  pub fertilizer_enabled : Bool

-- A row with the defaults of the columns.
abbrev pub new_device : Uuid → Device
new_device i = record {
  id = i;
  imei = none;
  serial = none;
  mac = none;
  hardware_version = none;
  hw_model = none;
  firmware_version = none;
  device_token = none;
  status = pending;
  provisioned_at = none;
  paired_at = none;
  gateway_id = none;
  farm_id = none;
  zone_id = none;
  irrigation_mode = none;
  control_mode = none;
  last_seen_at = none;
  pump_enabled = false;
  has_fertilizer = false;
  fertilizer_enabled = false;
}

-- A row of the table `zone`.
pub record Zone : Type 0 where
  pub id : Uuid
  pub farm_id : Uuid
  pub irrigation_mode : IrrigationMode
  pub control_mode : ControlMode
  pub check_all : Bool

-- A sensor reading or a threshold is a float: `F` is its type, which only a comparison reads. A row
-- of `sensor_threshold` or of `zone_threshold`.
pub record ThresholdRow (F : Type 0) : Type 0 where
  pub level : ThresholdLevel
  pub irrigation_mode : Option IrrigationMode
  pub min_threshold : Option F
  pub max_threshold : Option F
  pub action : String

-- A row of `zone_sensor_config` with its thresholds.
pub record ZoneSensorConfig (F : Type 0) : Type 0 where
  pub zone_id : Uuid
  pub sensor_type : SensorType
  pub thresholds : List (ThresholdRow F)
