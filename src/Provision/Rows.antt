-- ===== src/Provision/Rows.antt =====
-- The rows and messages of provision/provision.service.ts: provision/entities and
-- gateway/entities/gateway.entity.ts. Tokens, serials and nonces are texts that are only compared.
use qs_farm_be.Common.{ℕ, Bool, Option, List}
use qs_farm_be.Domain.{Uuid, Time, Device, DeviceStatus}

pub record PairingToken : Type 0 where
  pub id : Uuid
  pub token : ℕ
  pub serial : ℕ
  pub expires_at : Time
  pub used : Bool
  pub created_at : Time

pub data GatewayStatus : Type 0 where
  pending paired active disabled : GatewayStatus

-- The columns of `gateway` that are read here.
pub record Gateway : Type 0 where
  pub id : Uuid
  pub status : GatewayStatus
  pub farm_id : Option Uuid
  pub mqtt_token : Option ℕ

pub record Db : Type 0 where
  pub devices : List Device
  pub pairing_tokens : List PairingToken
  pub gateways : List Gateway

pub record ProvisionRequest : Type 0 where
  pub serial : Option ℕ
  pub hw : Option (List ℕ)
  pub hw_model : Option (List ℕ)
  pub fw : Option (List ℕ)
  pub nonce : Option ℕ
  pub mac : Option ℕ

pub record PairRequest : Type 0 where
  pub serial : ℕ
  pub farm_id : Uuid
  pub pairing_token : ℕ

-- The ids that the database gives new rows, and the random token.
pub record Fresh : Type 0 where
  pub device_id : Uuid
  pub token_id : Uuid
  pub token : ℕ

pub record Provisioned : Type 0 where
  pub device_id : Uuid
  pub serial : Option ℕ
  pub pairing_token : ℕ
  pub expires_at : Time

pub record Paired : Type 0 where
  pub device_id : Uuid
  pub serial : Option ℕ
  pub device_token : ℕ
  pub status : DeviceStatus

-- The exceptions that are thrown.
pub data Failure : Type 0 where
  device_not_found token_not_found no_pairing_token already_used expired invalid_token : Failure
  bad_status : DeviceStatus → Failure

pub data Result (A : Type 0) : Type 0 where
  failed : Failure → Result A
  done : A → Result A

-- `provision/resp/{nonce}` and the command `set_owner`.
pub data Message : Type 0 where
  provision_response : ℕ → Uuid → ℕ → Message
  set_owner : Uuid → Uuid → ℕ → Uuid → Option Uuid → Message
