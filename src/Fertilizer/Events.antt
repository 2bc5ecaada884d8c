-- ===== src/Fertilizer/Events.antt =====
-- The events that fertilizer/fertilizer.service.ts listens to.
use Prim.Native.String.{String}
use qs_farm_be.Common.{Option}
use qs_farm_be.Domain.{Uuid, Time}

pub record FertilizerStartedEvent : Type 0 where
  pub device_id : Uuid
  pub farm_id : Option Uuid
  pub timestamp : Time
  pub control_mode : Option String

pub record FertilizerStoppedEvent : Type 0 where
  pub device_id : Uuid
  pub farm_id : Option Uuid
  pub session_id : Option Uuid
  pub timestamp : Time

pub record FertilizerDisconnectedEvent : Type 0 where
  pub device_id : Uuid
  pub farm_id : Option Uuid
  pub timestamp : Time
