-- ===== src/Pump/Events.antt =====
-- The events that pump/pump.service.ts listens to, and the messages that it sends.
use Prim.Native.String.{String}
use qs_farm_be.Common.{ℕ, Option}
use qs_farm_be.Domain.{Uuid, Time}
use qs_farm_be.Pump.Rows.{PumpSessionStatus, InterruptedReason}

pub record PumpStartedEvent : Type 0 where
  pub device_id : Uuid
  pub farm_id : Option Uuid
  pub timestamp : Time
  pub irrigation_mode : Option String
  pub control_mode : Option String

pub record PumpStoppedEvent : Type 0 where
  pub device_id : Uuid
  pub farm_id : Option Uuid
  pub session_id : Option Uuid
  pub timestamp : Time

pub record PumpDisconnectedEvent : Type 0 where
  pub device_id : Uuid
  pub farm_id : Option Uuid
  pub timestamp : Time

-- The messages sent: the session id to the device, and broadcasts to the web clients.
pub data Message : Type 0 where
  publish_session : Uuid → Uuid → Message
  session_started : Uuid → Uuid → ℕ → Option Uuid → Message
  session_ended :
      Uuid
      → Uuid
      → ℕ
      → PumpSessionStatus
      → Option ℕ
      → Option InterruptedReason
      → Option Uuid
      → Message

-- What the service reacts to, in the order in which it does.
pub data Event : Type 0 where
  started : Uuid → PumpStartedEvent → Event
  stopped : PumpStoppedEvent → Event
  disconnected : PumpDisconnectedEvent → Event
  cleanup : Time → Event
