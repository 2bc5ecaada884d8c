-- ===== src/Sync/Rows.antt =====
-- What device/sync/sync.service.ts reads of a message, keeps of a device, and causes. Of a payload,
-- a key that is missing is `none`; `success` is whether the value is truthy.
use Prim.Native.String.{String}
use qs_farm_be.Common.{ℕ, Bool, Option, List, Dict, Text}
use qs_farm_be.Domain.{Uuid, Time, Device, IrrigationMode}
use qs_farm_be.Provision.{ProvisionRequest}
use qs_farm_be.Pump.{PumpStartedEvent, PumpStoppedEvent, PumpDisconnectedEvent}
use qs_farm_be.Fertilizer.{
  FertilizerStartedEvent, FertilizerStoppedEvent, FertilizerDisconnectedEvent,
}
use qs_farm_be.Mqtt.{Publication}

pub record Payload : Type 0 where
  pub kind : Option String
  pub reason : Option String
  pub pump_status : Option ℕ
  pub session_id : Option Uuid
  pub mode : Option String
  pub control_mode : Option String
  pub fert_status : Option ℕ
  pub fert_session_id : Option Uuid
  pub fert_control_mode : Option String
  pub command : Option String
  pub success : Bool
  pub irrigation_mode : Option String
  pub version : Option Text
  pub error : Option Text
  pub duration : Option ℕ
  pub previous_version : Option Text
  pub provision : ProvisionRequest

-- What is known of a device beside its id.
pub record Context : Type 0 where
  pub farm_id : Option Uuid
  pub zone_id : Option Uuid
  pub gateway_id : Option Uuid
  pub mac : Option ℕ

pub record ContextEntry : Type 0 where
  pub context : Context
  pub loaded_at : Time

pub record SyncWorld : Type 0 where
  pub devices : List Device
  pub contexts : Dict Uuid ContextEntry

-- What a broadcast of a device's status says.
pub data Notice : Type 0 where
  status_reported : Payload → Notice
  command_response : Payload → Notice
  pump_state_changed : Bool → Notice
  fertilizer_state_changed : Bool → Notice
  command_sent : String → Notice
  command_failed : String → Notice

pub record UpdateReport : Type 0 where
  pub device_id : Uuid
  pub version : Option Text
  pub success : Bool
  pub error_message : Option Text
  pub duration : Option ℕ
  pub previous_version : Option Text
  pub timestamp : Time

-- What a handler causes, in its order: broadcasts, events, and commands that are published with
-- parameters of a type `D`.
pub data SyncEffect (D : Type 0) : Type 0 where
  provision_requested : ProvisionRequest → SyncEffect D
  status_broadcast : Uuid → Notice → Option Uuid → SyncEffect D
  data_broadcast : Uuid → Payload → Option Uuid → SyncEffect D
  telemetry_received : Uuid → Payload → Time → Context → SyncEffect D
  pump_started : PumpStartedEvent → SyncEffect D
  pump_stopped : PumpStoppedEvent → SyncEffect D
  pump_disconnected : PumpDisconnectedEvent → SyncEffect D
  fertilizer_started : FertilizerStartedEvent → SyncEffect D
  fertilizer_stopped : FertilizerStoppedEvent → SyncEffect D
  fertilizer_disconnected : FertilizerDisconnectedEvent → SyncEffect D
  mode_changed : Uuid → IrrigationMode → SyncEffect D
  update_reported : UpdateReport → SyncEffect D
  published : Publication D → SyncEffect D
  command_dispatched : Uuid → String → Bool → SyncEffect D
