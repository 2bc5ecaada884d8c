-- ===== src/Firmware/Rows.antt =====
-- The rows of firmware/entities and what firmware/firmware.service.ts sends.
use qs_farm_be.Common.{◌≡◌, refl, ◌⊎◌, inl, inr, ℕ, Bool, Option, List, Text}
use qs_farm_be.Domain.{Uuid, Device}
use qs_farm_be.Emqx.{Farm}
use qs_farm_be.Gateways.{GatewayRow}

pub data TargetType : Type 0 where
  for_devices for_gateways : TargetType

pub record FirmwareRow : Type 0 where
  pub id : Uuid
  pub version : Text
  pub checksum : ℕ
  pub file_size : ℕ
  pub target_type : TargetType
  pub is_published : Bool

pub data FirmwareUpdateStatus : Type 0 where
  pending downloading success failed rollback : FirmwareUpdateStatus

pub record FirmwareUpdateLog : Type 0 where
  pub id : Uuid
  pub firmware_id : Option Uuid
  pub firmware_version : Option Text
  pub device_id : Option Uuid
  pub gateway_id : Option Uuid
  pub previous_version : Option Text
  pub status : FirmwareUpdateStatus
  pub error_message : Option Text

pub record FirmwareDb : Type 0 where
  pub firmwares : List FirmwareRow
  pub logs : List FirmwareUpdateLog
  pub devices : List Device
  pub gateways : List GatewayRow
  pub farms : List Farm

pub data FirmwareFailure : Type 0 where
  firmware_not_found wrong_target firmware_not_published no_targets farm_not_found farm_not_owned
        device_not_found device_not_owned gateway_not_found gateway_unpaired gateway_not_owned :
      FirmwareFailure

pub data Outcome (A : Type 0) : Type 0 where
  refused : FirmwareFailure → Outcome A
  ended : A → Outcome A

pub TargetType-cases : (t : TargetType) → (t ≡ for_devices) ⊎ (t ≡ for_gateways)
TargetType-cases for_devices = inl refl
TargetType-cases for_gateways = inr refl

pub Outcome-cases :
    {A : Type 0} (o : Outcome A)
    → ((e : FirmwareFailure) × (o ≡ refused e)) ⊎ ((a : A) × (o ≡ ended a))
Outcome-cases (refused e) = inl (e, refl)
Outcome-cases (ended a) = inr (a, refl)

-- The call of `sendCommandToDevice`, the topics `gateway/{id}/device-ota` and `gateway/{id}/ota`, and
-- the broadcast to the room of a device.
pub data FirmwareEffect : Type 0 where
  ota_command : Uuid → FirmwareRow → FirmwareEffect
  device_ota : Uuid → Uuid → FirmwareRow → FirmwareEffect
  gateway_ota : Uuid → FirmwareRow → FirmwareEffect
  firmware_deploying : Uuid → Text → FirmwareEffect

-- The message of the error that the call for a device, or a publication for a gateway, throws; and
-- the ids of the rows that the database makes, in their order.
pub record Channels : Type 0 where
  pub command_error : Uuid → Option Text
  pub publish_error : Uuid → Option Text
  pub new_id : ℕ → Uuid

-- A request; `deviceIds` and `gatewayIds` that are left out are empty.
pub record DeployRequest : Type 0 where
  pub device_ids : List Uuid
  pub gateway_ids : List Uuid
  pub farm_id : Option Uuid

-- What became of one target, with the id of its log.
pub record DeployResult : Type 0 where
  pub target_id : Uuid
  pub log_id : Uuid
  pub error : Option Text
