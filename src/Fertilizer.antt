-- ===== src/Fertilizer.antt =====
-- fertilizer/fertilizer.service.ts: the life of a fertilizer session, from the events that a
-- device's reports cause and the job that closes stale sessions. The calls of the database succeed.
mod Events
mod Rows
mod Close
pub use Events.*
pub use Rows.*
pub use Close.{
  is_fert_sensor, reading_in_window, fert_values, fert_overcurrent, fert_alert, FertStats,
  with_fert_temp, with_fert_current, with_fert_overcurrent,
}
unfoldable pub use Close.{
  get_sensor_aggregates, compute_fert_aggregates, compute_fert_overcurrent, closed_fert_session,
  close_fert_session, save_fert_session,
}
pub mod AsPump
pub mod Readings
pub mod Closing
pub mod Handlers
pub mod Simulation
mod Examples
use Prim.Native.String.{String}
use text.Mathlib.Text.{◌==◌ as str_eq}
use qs_farm_be.Common.{
  ℕ, ◌+◌, Bool, true, false, ◌&&◌, ◌||◌, Option, none, some, List, [], ◌∷◌, ◌++◌, ltb, ◌==◌,
  if◌then◌else◌, find, keep, Text, codes, slash,
}
use qs_farm_be.Domain.{Uuid, Time, ControlMode, auto, manual, schedule, Device}
use qs_farm_be.Pump.{SensorData, Aggregates}
use qs_farm_be.Emqx.{topic_of}

-- `validControlModes.includes`; what is not in the enum counts as missing.
unfoldable pub valid_fert_mode : Option String → ControlMode
valid_fert_mode none = manual
valid_fert_mode (some m) =
    if str_eq m "auto" then auto else if str_eq m "schedule" then schedule else manual

-- The messages sent: the session id to the device, with its mac if it has a gateway, and broadcasts
-- to the web clients.
pub data FertMessage : Type 0 where
  publish_fert_session : Text → Uuid → Option ℕ → FertMessage
  fert_session_started : Uuid → Uuid → ℕ → Option Uuid → FertMessage
  fert_session_ended :
      Uuid
      → Uuid
      → ℕ
      → FertilizerSessionStatus
      → Option ℕ
      → Option FertilizerInterruptedReason
      → Option Uuid
      → FertMessage

-- What the service reacts to; a started event comes with the id of the row it may create.
pub data FertEvent : Type 0 where
  fert_started : Uuid → FertilizerStartedEvent → FertEvent
  fert_stopped : FertilizerStoppedEvent → FertEvent
  fert_disconnected : FertilizerDisconnectedEvent → FertEvent
  fert_cleanup : Time → FertEvent

-- The topic of `publishSessionId`, and the mac that goes with it; `text_of` writes an id.
unfoldable pub publish_session_id : (ℕ → Text) → Uuid → Uuid → List Device → FertMessage
publish_session_id text_of d i devices =
    let direct = publish_fert_session (topic_of "device" (text_of d) "fert-session") i none in
    elim (find (λ (r : Device). r.id == d) devices) [
      | none ↦ direct
      | some r ↦ elim r.gateway_id [
        | none ↦ direct
        | some g ↦
            publish_fert_session
              (codes "gateway/"
                ++ text_of g
                ++ slash ∷ topic_of "device" (text_of d) "fert-session")
              i r.mac
      ]
    ]

module _ {F : Type 0} where
  abbrev pub fert_active_of_device : Uuid → FertilizerSession F → Bool
  fert_active_of_device d s = s.device_id == d && fert_is_active s.status

  abbrev pub fert_active_with_id : Uuid → FertilizerSession F → Bool
  fert_active_with_id i s = s.id == i && fert_is_active s.status

  -- `MAX(sessionNumber)` of a device, or 0
  unfoldable pub max_fert_number : Uuid → List (FertilizerSession F) → ℕ
  max_fert_number d [] = 0
  max_fert_number d (s ∷ ss) =
      let rest = max_fert_number d ss in
      if s.device_id == d && ltb rest s.session_number then s.session_number else rest

  unfoldable pub new_fert_session : Uuid → FertilizerStartedEvent → ℕ → FertilizerSession F
  new_fert_session new_id event number = record {
    id = new_id;
    device_id = event.device_id;
    session_number = number;
    control_mode = valid_fert_mode event.control_mode;
    started_at = event.timestamp;
    ended_at = none;
    duration_ms = none;
    temp_min = none;
    temp_max = none;
    temp_avg = none;
    current_min = none;
    current_max = none;
    current_avg = none;
    phase_count = 0;
    overcurrent_detected = false;
    overcurrent_count = 0;
    overcurrent_max_current = none;
    has_alert = false;
    status = active;
    interrupted_reason = none;
  }

  unfoldable pub handle_fertilizer_started :
      (ℕ → Text) → Uuid → FertilizerStartedEvent → FertDb F → FertDb F × List FertMessage
  handle_fertilizer_started text_of new_id event db =
      let d = event.device_id in
      elim (find (fert_active_of_device d) db.sessions) [
        | some existing ↦ (db, publish_session_id text_of d existing.id db.devices ∷ [])
        | none ↦
            let number = max_fert_number d db.sessions + 1 in
            (
              record db { sessions = db.sessions ++ new_fert_session new_id event number ∷ [] },
              publish_session_id text_of d new_id db.devices
                  ∷ fert_session_started d new_id number event.farm_id
                  ∷ [],
            )
      ]

  -- `MAX(createdAt)` of the device's readings of the fertilizer's sensors
  unfoldable pub last_fert_timestamp : Uuid → List (SensorData F) → Option Time
  last_fert_timestamp d [] = none
  last_fert_timestamp d (r ∷ rs) =
      let rest = last_fert_timestamp d rs in
      if r.device_id == d && is_fert_sensor r.sensor_type
      then elim rest [
        | none ↦ some r.created_at
        | some t ↦ some (if ltb t r.created_at then r.created_at else t)
      ]
      else rest

-- `lastData && lastData > session.startedAt ? lastData : otherwise`
abbrev pub end_of_fert_data : Option Time → Time → Time → Time
end_of_fert_data none start otherwise = otherwise
end_of_fert_data (some last) start otherwise = if ltb start last then last else otherwise

-- `!lastDataTime || now - lastDataTime > STALE_THRESHOLD_MS`
abbrev pub is_fert_stale : Time → Option Time → Bool
is_fert_stale now none = true
is_fert_stale now (some last) = last == 0 || ltb (last + 30000) now

module _ {F : Type 0} (sql : Aggregates F) where
  abbrev pub ended_fert_message : Uuid → Option Uuid → FertilizerSession F → FertMessage
  ended_fert_message d farm_id c =
      fert_session_ended d c.id c.session_number c.status c.duration_ms none farm_id

  unfoldable pub handle_fertilizer_stopped :
      FertilizerStoppedEvent → FertDb F → FertDb F × List FertMessage
  handle_fertilizer_stopped event db = elim event.session_id [
    | some i ↦ elim (find (fert_active_with_id i) db.sessions) [
      | none ↦ (db, [])
      | some s ↦
          let (db', c) = close_fert_session sql db s event.timestamp completed none in
          (db', ended_fert_message event.device_id event.farm_id c ∷ [])
    ]
    | none ↦ elim (find (fert_active_of_device event.device_id) db.sessions) [
      | none ↦ (db, [])
      | some s ↦
          let (db', c) =
            close_fert_session sql db s event.timestamp interrupted (some esp_reboot) in
          (db', ended_fert_message event.device_id event.farm_id c ∷ [])
    ]
  ]

  unfoldable pub handle_fertilizer_disconnected :
      FertilizerDisconnectedEvent → FertDb F → FertDb F × List FertMessage
  handle_fertilizer_disconnected event db =
      elim (find (fert_active_of_device event.device_id) db.sessions) [
        | none ↦ (db, [])
        | some s ↦
            let last = last_fert_timestamp event.device_id db.sensor_data in
            let ended_at = end_of_fert_data last s.started_at event.timestamp in
            let (db', c) = close_fert_session sql db s ended_at interrupted (some lwt) in
            (
              db',
              fert_session_ended event.device_id c.id c.session_number interrupted none (some lwt)
                    event.farm_id
                  ∷ [],
            )
      ]

  -- The body of the loop of `cleanupStaleFertilizerSessions`. A last time of 0 counts as none.
  unfoldable pub check_fert_stale : Time → FertilizerSession F → FertDb F → FertDb F
  check_fert_stale now s db =
      let last = last_fert_timestamp s.device_id db.sensor_data in
      if is_fert_stale now last
      then (close_fert_session sql db s (end_of_fert_data last s.started_at s.started_at)
          interrupted (some timeout)).0
      else db

  unfoldable pub check_all_fert_stale : Time → List (FertilizerSession F) → FertDb F → FertDb F
  check_all_fert_stale now [] db = db
  check_all_fert_stale now (s ∷ ss) db = check_all_fert_stale now ss (check_fert_stale now s db)

  -- `executing` guards against overlapping runs, and is reset when a run ends.
  unfoldable pub cleanup_stale_fertilizer_sessions : Time → Bool → FertDb F → FertDb F
  cleanup_stale_fertilizer_sessions now executing db =
      if executing
      then db
      else check_all_fert_stale now
          (keep (λ (s : FertilizerSession F). fert_is_active s.status) db.sessions) db

  -- One event, or one run of the job.
  unfoldable pub fert_step : (ℕ → Text) → FertEvent → FertDb F → FertDb F
  fert_step text_of (fert_started new_id e) db = (handle_fertilizer_started text_of new_id e db).0
  fert_step text_of (fert_stopped e) db = (handle_fertilizer_stopped e db).0
  fert_step text_of (fert_disconnected e) db = (handle_fertilizer_disconnected e db).0
  fert_step text_of (fert_cleanup now) db = cleanup_stale_fertilizer_sessions now false db

  unfoldable pub fert_run : (ℕ → Text) → List FertEvent → FertDb F → FertDb F
  fert_run text_of [] db = db
  fert_run text_of (e ∷ es) db = fert_run text_of es (fert_step text_of e db)
