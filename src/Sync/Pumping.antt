-- ===== src/Sync/Pumping.antt =====
-- From a message of a device to the table of pump sessions: device/mqtt/mqtt.service.ts,
-- device/sync/sync.service.ts and pump/pump.service.ts together.
use qs_farm_be.Common.{
  ℕ, ◌≡◌, ap, ◌∙◌, true, false, Option, some, List, [], ◌∷◌, arith, Text, HasNoSlash,
}
use qs_farm_be.Domain.{Uuid, Time}
use qs_farm_be.Emqx.{topic_of}
use qs_farm_be.Pump.{Db, Aggregates, started, stopped, disconnected, step}
use qs_farm_be.Pump.Sessions.{count_running}
use qs_farm_be.Pump.Invariant.{IsValid}
use qs_farm_be.Pump.Gone.{handle_pump_started-one, handle_pump_disconnected-gone}
use qs_farm_be.Sync.{
  Payload, SyncWorld, SyncEffect, pump_started, pump_stopped, pump_disconnected, says, is_number,
  handle_device_status, handle_device_telemetry, pump_events, fertilizer_events, receive,
}
use qs_farm_be.Sync.Routing.{receive-device}

module _ {F D : Type 0} (sql : Aggregates F) where
  -- What the pump service does on an event; a row that it creates gets the id `new_id`.
  unfoldable pub deliver : Uuid → SyncEffect D → Db F → Db F
  deliver new_id (pump_started e) db = step sql (started new_id e) db
  deliver new_id (pump_stopped e) db = step sql (stopped e) db
  deliver new_id (pump_disconnected e) db = step sql (disconnected e) db
  deliver new_id _ db = db

  unfoldable pub deliver_all : Uuid → List (SyncEffect D) → Db F → Db F
  deliver_all new_id [] db = db
  deliver_all new_id (e ∷ es) db = deliver_all new_id es (deliver new_id e db)

module _ (D : Type 0) {F : Type 0} (sql : Aggregates F) where
  -- The events for the fertilizer service do not reach the pump service.
  deliver_all-fertilizer :
      (new_id : Uuid) (now : Time) (i : Uuid) (farm_id : Option Uuid) (p : Payload) (db : Db F)
      → deliver_all sql new_id (fertilizer_events {D = D} now i farm_id p) db ≡ db
  unfolding deliver_all deliver fertilizer_events
  deliver_all-fertilizer new_id now i farm_id p db = ground arith

  -- If a device with an id that is not empty and has no slash reports that its pump is on, then in
  -- a valid table exactly one session of it runs afterwards.
  pub deliver_all-pump_on :
      (uuid_of : Text → Uuid) (new_id : Uuid) (now c : ℕ) (i : Text) (p : Payload) (w : SyncWorld)
      → (db : Db F) → HasNoSlash (c ∷ i)
      → is_number p.pump_status 1 ≡ true
      → IsValid db
      → count_running
          (uuid_of (c ∷ i))
          (deliver_all sql new_id
            (receive {D = D} uuid_of now (topic_of "device" (c ∷ i) "telemetry") (some p) w).1
            db).sessions
        ≡ 1
  unfolding deliver_all deliver step handle_device_telemetry pump_events
  deliver_all-pump_on uuid_of new_id now c i p w db h on v =
      rw ((receive-device D uuid_of now c i p w h).1, pump_events, on)
        (ap (λ r. count_running (uuid_of (c ∷ i)) r.sessions)
            (deliver_all-fertilizer new_id now (uuid_of (c ∷ i)) _ p _)
          ∙ handle_pump_started-one new_id _ db v)

  -- If the last will of a device with an id that is not empty and has no slash arrives, then in a
  -- valid table no session of it runs afterwards.
  pub deliver_all-lwt :
      (uuid_of : Text → Uuid) (new_id : Uuid) (now c : ℕ) (i : Text) (p : Payload) (w : SyncWorld)
      → (db : Db F) → HasNoSlash (c ∷ i)
      → says p.kind "heartbeat" ≡ false
      → says p.reason "lwt" ≡ true
      → IsValid db
      → count_running
          (uuid_of (c ∷ i))
          (deliver_all sql new_id
            (receive {D = D} uuid_of now (topic_of "device" (c ∷ i) "status") (some p) w).1
            db).sessions
        ≡ 0
  unfolding deliver_all deliver step handle_device_status
  deliver_all-lwt uuid_of new_id now c i p w db h beat lwt v =
      rw ((receive-device D uuid_of now c i p w h).0, handle_device_status, beat, lwt)
        (handle_pump_disconnected-gone sql _ db v)
