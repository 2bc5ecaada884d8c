-- ===== src/Schedule/Job.antt =====
-- The execution engine of schedule/schedule.service.ts.
use text.Mathlib.Text.{◌==◌ as str_eq}
use qs_farm_be.Common.{
  ℕ, ◌+◌, Bool, true, false, Option, none, some, List, [], ◌∷◌, ◌++◌, map, ltb, ◌==◌, if◌then◌else◌,
  find, keep, insert, ◌<|>◌,
}
use qs_farm_be.Domain.{Uuid, Time, Device, Zone, IrrigationMode, ControlMode}
use qs_farm_be.Emqx.{Farm}
use qs_farm_be.ConfigResolution.{Cache, invalidate_cache, invalidate_cache_by_zone}
use qs_farm_be.Sync.{
  Sending, sent, send_command_to_device, update_device_row, irrigation_mode_of, control_mode_of,
  device_of,
}
use qs_farm_be.Schedule.{
  DeviceSchedule, recurring, one_time, ScheduleState, Action, synced, executed, pushed, JobOutside,
  save_schedule, lacks_fields, should_execute,
}

abbrev pub owner_cache_ttl : ℕ
owner_cache_ttl = 300000

abbrev pub update_zone : Uuid → (Zone → Zone) → List Zone → List Zone
update_zone i f zs = map (λ (z : Zone). if z.id == i then f z else z) zs

abbrev pub is_of : Uuid → Option Uuid → Bool
is_of i none = false
is_of i (some j) = j == i

abbrev pub is_sent : Sending → Bool
is_sent sent = true
is_sent _ = false

-- `findAll` of a farm, and the devices of a zone.
abbrev pub farm_devices : Uuid → List Device → List Device
farm_devices f ds = keep (λ (d : Device). is_of f d.farm_id) ds

abbrev pub zone_devices : Uuid → List Device → List Device
zone_devices z ds = keep (λ (d : Device). is_of z d.zone_id) ds

abbrev pub zone_of : Uuid → List Zone → Option Zone
zone_of i zs = find (λ (z : Zone). z.id == i) zs

-- The modes that `params` names, read in the order of the source.
unfoldable pub mode_change : DeviceSchedule → Option IrrigationMode
mode_change s =
    if str_eq s.command "SET_IRRIGATION_MODE"
    then irrigation_mode_of (s.params.mode <|> s.params.irrigation_mode)
    else none

unfoldable pub control_mode_change : DeviceSchedule → Option ControlMode
control_mode_change s = if str_eq s.command "SET_MODE" then control_mode_of s.params.mode else none

-- The row as it is saved after an execution.
unfoldable pub executed_row : Time → DeviceSchedule → DeviceSchedule
executed_row now s = elim s.kind [
  | one_time ↦ record s { last_executed_at = some now; enabled = false }
  | recurring ↦ record s { last_executed_at = some now }
]

module _ {F : Type 0} where
  abbrev pub with_devices : List Device → ScheduleState F → ScheduleState F
  with_devices ds st = record st { sync = record st.sync { devices = ds } }

  unfoldable pub invalidate_all : List Device → Cache F → Cache F
  invalidate_all [] cache = cache
  invalidate_all (d ∷ ds) cache = invalidate_all ds (invalidate_cache d.id cache)

  unfoldable pub apply_mode_change : DeviceSchedule → ScheduleState F → ScheduleState F
  apply_mode_change s st = elim (mode_change s) [
    | none ↦ st
    | some m ↦ elim s.zone_id [
      | some z ↦ record st {
        zones = update_zone z (λ r. record r { irrigation_mode = m }) st.zones;
        configs = invalidate_cache_by_zone z st.configs;
      }
      | none ↦ elim s.device_id [
        | some d ↦
            record (with_devices
              (update_device_row d (λ r. record r { irrigation_mode = some m }) st.sync.devices)
              st) { configs = invalidate_cache d st.configs }
        | none ↦ elim s.farm_id [
          | some f ↦
              let ds =
                map
                  (λ (r : Device).
                    if is_of f r.farm_id then record r { irrigation_mode = some m } else r)
                  st.sync.devices in
              record (with_devices ds st) {
                configs = invalidate_all (farm_devices f ds) st.configs;
              }
          | none ↦ st
        ]
      ]
    ]
  ]

  -- Nothing is invalidated here.
  unfoldable pub apply_control_mode_change : DeviceSchedule → ScheduleState F → ScheduleState F
  apply_control_mode_change s st = elim (control_mode_change s) [
    | none ↦ st
    | some m ↦ elim s.zone_id [
      | some z ↦ record st { zones = update_zone z (λ r. record r { control_mode = m }) st.zones }
      | none ↦ elim s.device_id [
        | some d ↦
            with_devices
              (update_device_row d (λ r. record r { control_mode = some m }) st.sync.devices) st
        | none ↦ elim s.farm_id [
          | some f ↦
              with_devices
                (map
                  (λ (r : Device).
                    if is_of f r.farm_id then record r { control_mode = some m } else r)
                  st.sync.devices)
                st
          | none ↦ st
        ]
      ]
    ]
  ]

  unfoldable pub get_farm_owner_id : Time → Uuid → ScheduleState F → Option Uuid × ScheduleState F
  get_farm_owner_id now f st =
      let load : Option Uuid × ScheduleState F = elim (find (λ (r : Farm). r.id == f) st.farms) [
        | none ↦ (none, st)
        | some r ↦ (
          some r.user_id,
          record st {
            owners = insert f (record { user_id = r.user_id; loaded_at = now }) st.owners;
          },
        )
      ] in
      elim (st.owners f) [
        | none ↦ load
        | some e ↦ if ltb now (e.loaded_at + owner_cache_ttl) then (some e.user_id, st) else load
      ]

module _ {F : Type 0} (out : JobOutside) where
  -- `sendCommandToDevice` as this service calls it.
  unfoldable pub send :
      Time → DeviceSchedule → Uuid → ScheduleState F → Sending × ScheduleState F × List Action
  send now s d st =
      let (r, w, es) =
        send_command_to_device out.text_of (out.accepts d) now d s.command s.params st.sync in
      (r, record st { sync = w }, map synced es)

  -- The loop over devices, which goes on where a command fails.
  unfoldable pub send_each :
      Time → DeviceSchedule → List Device → ScheduleState F → ScheduleState F × List Action
  send_each now s [] st = (st, [])
  send_each now s (d ∷ ds) st =
      let (r, st1, es) = send now s d.id st in
      let (st2, rest) = send_each now s ds st1 in (st2, es ++ rest)

  -- The sending of the command. For a single device a failure is thrown: the flag says if none was.
  unfoldable pub send_all :
      Time → DeviceSchedule → ScheduleState F → Bool × ScheduleState F × List Action
  send_all now s st = elim s.device_id [
    | some d ↦ let (r, st1, es) = send now s d st in (is_sent r, st1, es)
    | none ↦ elim s.zone_id [
      | some z ↦ elim (zone_of z st.zones) [
        | none ↦ (true, st, [])
        | some r ↦
            let (st1, es) = send_each now s (zone_devices z st.sync.devices) st in (true, st1, es)
      ]
      | none ↦ elim s.farm_id [
        | some f ↦
            let (st1, es) = send_each now s (farm_devices f st.sync.devices) st in (true, st1, es)
        | none ↦ (true, st, [])
      ]
    ]
  ]

  -- The farm that the owner is told about; a device that is not there throws, and the flag is false.
  unfoldable pub farm_of : DeviceSchedule → ScheduleState F → Bool × Option Uuid
  farm_of s st =
      let zone_farm : Option Uuid = elim s.zone_id [
        | none ↦ none
        | some z ↦ elim (zone_of z st.zones) [ none ↦ none | some r ↦ some r.farm_id ]
      ] in
      elim (s.farm_id <|> zone_farm) [
        | some f ↦ (true, some f)
        | none ↦ elim s.device_id [
          | none ↦ (true, none)
          | some d ↦ elim (device_of d st.sync.devices) [
            | none ↦ (false, none)
            | some r ↦ (true, r.farm_id)
          ]
        ]
      ]

  -- The push notification, if the farm's owner is not connected.
  unfoldable pub notify_owner :
      Time → DeviceSchedule → Option Uuid → ScheduleState F → ScheduleState F × List Action
  notify_owner now s none st = (st, [])
  notify_owner now s (some f) st =
      let (owner, st') = get_farm_owner_id now f st in
      let online : Bool = elim owner [ none ↦ false | some u ↦ out.is_user_connected u ] in
      if online then (st', []) else (st', pushed f s.id ∷ [])

  -- `execute` after the command was sent: the modes, the save and the notification. The flag is
  -- false where it throws.
  unfoldable pub finish_execution :
      Time → DeviceSchedule → ScheduleState F → Bool × ScheduleState F × List Action
  finish_execution now s st =
      let st1 = apply_control_mode_change s (apply_mode_change s st) in
      let st2 = record st1 { schedules = save_schedule (executed_row now s) st1.schedules } in
      let (found, farm_id) = farm_of s st2 in
      let (st3, told) = notify_owner now s farm_id st2 in (found, st3, executed s.id now ∷ told)

  unfoldable pub execute :
      Time → DeviceSchedule → ScheduleState F → Bool × ScheduleState F × List Action
  execute now s st =
      let (ok, st1, es) = send_all now s st in
      if ok
      then (let (found, st2, rest) = finish_execution now s st1 in (found, st2, es ++ rest))
      else (true, st1, es)

  -- The loop of `processSchedules`; what `shouldExecute` or `execute` throws ends it.
  unfoldable pub process_each :
      Time → List DeviceSchedule → ScheduleState F → ScheduleState F × List Action
  process_each now [] st = (st, [])
  process_each now (s ∷ ss) st =
      let (found, st1, es) = execute now s st in
      let (st2, rest) = process_each now ss st1 in
      let skipped = process_each now ss st in
      if lacks_fields out.local_time s now
      then (st, [])
      else if should_execute out.local_time s now
      then (if found then (st2, es ++ rest) else (st1, es))
      else skipped

  -- `executing` guards against overlapping runs.
  unfoldable pub process_schedules : Time → Bool → ScheduleState F → ScheduleState F × List Action
  process_schedules now executing st =
      if executing
      then (st, [])
      else process_each now (keep (λ (s : DeviceSchedule). s.enabled) st.schedules) st

  -- The job at one time after another.
  unfoldable pub run_job : List Time → ScheduleState F → ScheduleState F × List Action
  run_job [] st = (st, [])
  run_job (t ∷ ts) st =
      let (st1, es) = process_schedules t false st in
      let (st2, rest) = run_job ts st1 in (st2, es ++ rest)
