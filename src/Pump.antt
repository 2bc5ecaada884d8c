-- ===== src/Pump.antt =====
-- pump/pump.service.ts: the life of a pump session, from the events that a device's reports cause
-- and the job that closes stale sessions. The calls of the database succeed.
mod Rows
mod Events
mod Close
pub mod Closing
pub mod Sessions
pub mod Changes
pub mod Refinement
pub mod Invariant
pub mod Hours
pub mod Cleanup
pub mod Gone
mod Examples
pub use Rows.*
pub use Events.*
pub use Close.{
  Stats, in_window, values_in, alert_in_window, is_overcurrent, with_temp, with_pressure, with_flow,
  with_current, with_overcurrent,
}
unfoldable pub use Close.{
  sensor_aggregates, compute_session_aggregates, compute_overcurrent_data, closed_session,
  add_operating, hours_of, close_session, save_session,
}
use Prim.Native.String.{String}
use text.Mathlib.Text.{◌==◌ as str_eq}
use qs_farm_be.Common.{
  ℕ, suc, ◌+◌, ◌-◌, Bool, true, false, not, ◌&&◌, ◌||◌, Option, none, some, List, [], ◌∷◌, ◌++◌,
  map, ltb, leb, ◌==◌, if◌then◌else◌, find, keep, length, insert, is_some,
}
use qs_farm_be.Domain.{
  Uuid, Time, IrrigationMode, normal, spray, root, drip, ControlMode, auto, manual, schedule,
  SensorType, pump_temperature, water_pressure, water_flow, electrical_current, electrical_phase,
  ThresholdLevel, critical, sensor_eq, level_eq,
}

abbrev pub stale_threshold_ms : ℕ
stale_threshold_ms = 30000

-- A mode in the event that is not in the enum counts as missing.
unfoldable pub valid_irrigation_mode : Option String → IrrigationMode
valid_irrigation_mode none = normal
valid_irrigation_mode (some m) =
    if str_eq m "spray"
    then spray
    else if str_eq m "root"
    then root
    else if str_eq m "drip"
    then drip
    else normal

unfoldable pub valid_control_mode : Option String → ControlMode
valid_control_mode none = manual
valid_control_mode (some m) =
    if str_eq m "auto" then auto else if str_eq m "schedule" then schedule else manual

module _ {F : Type 0} where
  -- `findOne({ deviceId, status: ACTIVE })` and `findOne({ id, status: ACTIVE })`
  abbrev pub active_of_device : Uuid → PumpSession F → Bool
  active_of_device d s = s.device_id == d && is_running s.status

  abbrev pub active_with_id : Uuid → PumpSession F → Bool
  active_with_id i s = s.id == i && is_running s.status

  -- `MAX(sessionNumber)` of a device, or 0
  unfoldable pub max_number : Uuid → List (PumpSession F) → ℕ
  max_number d [] = 0
  max_number d (s ∷ ss) =
      let rest = max_number d ss in
      if s.device_id == d && ltb rest s.session_number then s.session_number else rest

  unfoldable pub new_session : Uuid → PumpStartedEvent → ℕ → PumpSession F
  new_session new_id event number = record {
    id = new_id;
    device_id = event.device_id;
    session_number = number;
    irrigation_mode = valid_irrigation_mode event.irrigation_mode;
    control_mode = valid_control_mode event.control_mode;
    started_at = event.timestamp;
    ended_at = none;
    duration_ms = none;
    temp_min = none;
    temp_max = none;
    temp_avg = none;
    pressure_min = none;
    pressure_max = none;
    pressure_avg = none;
    flow_min = none;
    flow_max = none;
    flow_total = none;
    current_min = none;
    current_max = none;
    current_avg = none;
    phase_count = 0;
    overcurrent_detected = false;
    overcurrent_count = 0;
    overcurrent_max_current = none;
    has_alert = false;
    status = running;
    interrupted_reason = none;
  }

  -- `new_id` is the UUID that the database gives the row.
  unfoldable pub handle_pump_started : Uuid → PumpStartedEvent → Db F → Db F × List Message
  handle_pump_started new_id event db = elim (find (active_of_device event.device_id) db.sessions) [
    | some existing ↦ (db, publish_session event.device_id existing.id ∷ [])
    | none ↦
        let number = max_number event.device_id db.sessions + 1 in
        (
          record db { sessions = db.sessions ++ new_session new_id event number ∷ [] },
          publish_session event.device_id new_id
              ∷ session_started event.device_id new_id number event.farm_id
              ∷ [],
        )
  ]

  -- `MAX(createdAt)` of the device's readings
  unfoldable pub last_sensor_timestamp : Uuid → List (SensorData F) → Option Time
  last_sensor_timestamp d [] = none
  last_sensor_timestamp d (r ∷ rs) =
      let rest = last_sensor_timestamp d rs in
      if r.device_id == d
      then elim rest [
        | none ↦ some r.created_at
        | some t ↦ some (if ltb t r.created_at then r.created_at else t)
      ]
      else rest

module _ {F : Type 0} (sql : Aggregates F) where
  abbrev pub ended_message : Uuid → Option Uuid → PumpSession F → Message
  ended_message d farm_id c =
      session_ended d c.id c.session_number c.status c.duration_ms none farm_id

  unfoldable pub handle_pump_stopped : PumpStoppedEvent → Db F → Db F × List Message
  handle_pump_stopped event db = elim event.session_id [
    | some i ↦ elim (find (active_with_id i) db.sessions) [
      | none ↦ (db, [])
      | some s ↦
          let (db', c) = close_session sql db s event.timestamp completed none in
          (db', ended_message event.device_id event.farm_id c ∷ [])
    ]
    | none ↦ elim (find (active_of_device event.device_id) db.sessions) [
      | none ↦ (db, [])
      | some s ↦
          let (db', c) = close_session sql db s event.timestamp interrupted (some esp_reboot) in
          (db', ended_message event.device_id event.farm_id c ∷ [])
    ]
  ]

  -- `lastData && lastData > session.startedAt ? lastData : otherwise`
  abbrev pub end_of_data : Option Time → Time → Time → Time
  end_of_data none start otherwise = otherwise
  end_of_data (some last) start otherwise = if ltb start last then last else otherwise

  unfoldable pub handle_pump_disconnected : PumpDisconnectedEvent → Db F → Db F × List Message
  handle_pump_disconnected event db = elim (find (active_of_device event.device_id) db.sessions) [
    | none ↦ (db, [])
    | some s ↦
        let last = last_sensor_timestamp event.device_id db.sensor_data in
        let ended_at = end_of_data last s.started_at event.timestamp in
        let (db', c) = close_session sql db s ended_at interrupted (some lwt) in
        (
          db',
          session_ended event.device_id c.id c.session_number interrupted none (some lwt)
                event.farm_id
              ∷ [],
        )
  ]

  -- `!lastDataTime || now - lastDataTime > STALE_THRESHOLD_MS`
  abbrev pub is_stale : Time → Option Time → Bool
  is_stale now none = true
  is_stale now (some last) = last == 0 || ltb (last + stale_threshold_ms) now

  -- The body of the loop of `cleanupStaleSessions`. A last time of 0 counts as none.
  unfoldable pub check_stale : Time → PumpSession F → Db F → Db F
  check_stale now s db =
      let last = last_sensor_timestamp s.device_id db.sensor_data in
      if is_stale now last
      then (close_session sql db s (end_of_data last s.started_at s.started_at) interrupted
          (some timeout)).0
      else db

  unfoldable pub check_all_stale : Time → List (PumpSession F) → Db F → Db F
  check_all_stale now [] db = db
  check_all_stale now (s ∷ ss) db = check_all_stale now ss (check_stale now s db)

  -- `executing` guards against overlapping runs, and is reset when a run ends.
  unfoldable pub cleanup_stale_sessions : Time → Bool → Db F → Db F
  cleanup_stale_sessions now executing db =
      if executing
      then db
      else check_all_stale now (keep (λ (s : PumpSession F). is_running s.status) db.sessions) db

  -- One event, or one run of the job; a started event comes with the id of the row it may create.
  unfoldable pub step : Event → Db F → Db F
  step (started new_id e) db = (handle_pump_started new_id e db).0
  step (stopped e) db = (handle_pump_stopped e db).0
  step (disconnected e) db = (handle_pump_disconnected e db).0
  step (cleanup now) db = cleanup_stale_sessions now false db

  unfoldable pub run : List Event → Db F → Db F
  run [] db = db
  run (e ∷ es) db = run es (step e db)
