-- ===== src/Schedule.antt =====
-- schedule/schedule.service.ts: the schedules of commands and the job that executes them. The calls
-- of the database succeed; times are those at which a job or a request starts.
mod Rows
pub mod Job
pub mod Quiet
pub mod Spent
pub mod Once
pub mod Targets
pub mod Modes
mod Examples
pub use Rows.*
use Prim.Native.String.{String}
use text.Mathlib.Text.{◌==◌ as str_eq}
use qs_farm_be.Common.{
  ℕ, zero, suc, ◌+◌, ◌*◌, ◌-◌, Bool, true, false, not, ◌&&◌, ◌||◌, Option, none, some, List, [],
  ◌∷◌, ◌++◌, map, ltb, leb, ◌==◌, if◌then◌else◌, find, keep, is_some, insert, get_or, ◌<|>◌, length,
  Text, split_on,
}
use qs_farm_be.Domain.{Uuid, Time, Device, Zone, IrrigationMode, ControlMode}
use qs_farm_be.Emqx.{part, Farm}
use qs_farm_be.ConfigResolution.{Cache, invalidate_cache, invalidate_cache_by_zone}
use qs_farm_be.Sync.{
  SyncWorld, SyncEffect, Sending, sent, send_command_to_device, update_device_row,
  irrigation_mode_of, control_mode_of, device_of,
}

-- `[deviceId, farmId, zoneId].filter(Boolean).length !== 1`
unfoldable pub has_one_target : Option Uuid → Option Uuid → Option Uuid → Bool
has_one_target d f z = length (keep is_some (d ∷ f ∷ z ∷ [])) == 1

abbrev pub is_empty_list : Option (List ℕ) → Bool
is_empty_list none = true
is_empty_list (some []) = true
is_empty_list (some (n ∷ ns)) = false

-- `none` where `validateScheduleFields` throws nothing.
unfoldable pub validate_schedule_fields :
    ScheduleType → Option (List ℕ) → Option Text → Option Time → Option ScheduleFailure
validate_schedule_fields recurring days time execute_at =
    if is_empty_list days || not (is_some time) then some no_days_and_time else none
validate_schedule_fields one_time days time execute_at =
    if is_some execute_at then none else some no_execute_at

-- A missing key reads as undefined.
abbrev pub given {ℓ} : {A : Type ℓ} → Option (Option A) → Option A
given none = none
given (some a) = a

-- `{...existing, ...dto}` at a key.
abbrev pub spread {ℓ} : {A : Type ℓ} → A → Option A → A
spread old none = old
spread old (some new) = new

unfoldable pub schedule_of : Uuid → ScheduleType → ScheduleDto → DeviceSchedule
schedule_of i kind dto = record {
  id = i;
  kind = kind;
  device_id = given dto.device_id;
  farm_id = given dto.farm_id;
  zone_id = given dto.zone_id;
  command = get_or dto.command "";
  params = get_or dto.params (record { mode = none; irrigation_mode = none; rest = [] });
  days_of_week = given dto.days_of_week;
  time = given dto.time;
  execute_at = given dto.execute_at;
  timezone = get_or dto.timezone (85 ∷ 84 ∷ 67 ∷ []);
  enabled = get_or dto.enabled true;
  last_executed_at = none;
}

-- `new_id` is the UUID that the database gives the row; a request to create names a type.
unfoldable pub create : Uuid → ScheduleType → ScheduleDto → List DeviceSchedule → ScheduleResult
create new_id kind dto rows =
    let s = schedule_of new_id kind dto in
    if has_one_target s.device_id s.farm_id s.zone_id
    then elim (validate_schedule_fields kind s.days_of_week s.time s.execute_at) [
      | some f ↦ refused f
      | none ↦ saved s (rows ++ s ∷ [])
    ]
    else refused not_one_target

-- `save` of a row that the table holds.
unfoldable pub save_schedule : DeviceSchedule → List DeviceSchedule → List DeviceSchedule
save_schedule s [] = []
save_schedule s (x ∷ xs) = (if x.id == s.id then s else x) ∷ save_schedule s xs

-- `dto.x !== undefined`
abbrev pub names_target : ScheduleDto → Bool
names_target dto = is_some dto.device_id || is_some dto.farm_id || is_some dto.zone_id

-- `preload`: the row with the keys of the request.
unfoldable pub preload : ScheduleDto → DeviceSchedule → DeviceSchedule
preload dto s = record s {
  kind = spread s.kind dto.kind;
  device_id = spread s.device_id dto.device_id;
  farm_id = spread s.farm_id dto.farm_id;
  zone_id = spread s.zone_id dto.zone_id;
  command = spread s.command dto.command;
  params = spread s.params dto.params;
  days_of_week = spread s.days_of_week dto.days_of_week;
  time = spread s.time dto.time;
  execute_at = spread s.execute_at dto.execute_at;
  timezone = spread s.timezone dto.timezone;
  enabled = spread s.enabled dto.enabled;
}

abbrev pub schedule_with : Uuid → List DeviceSchedule → Option DeviceSchedule
schedule_with i rows = find (λ (s : DeviceSchedule). s.id == i) rows

unfoldable pub update : Uuid → ScheduleDto → List DeviceSchedule → ScheduleResult
update i dto rows = elim (schedule_with i rows) [
  | none ↦ refused schedule_not_found
  | some existing ↦
      let s = preload dto existing in
      if names_target dto
        && not (
            has_one_target (given dto.device_id <|> existing.device_id)
              (given dto.farm_id <|> existing.farm_id) (given dto.zone_id <|> existing.zone_id))
      then refused not_one_target
      else elim (validate_schedule_fields s.kind s.days_of_week s.time s.execute_at) [
        | some f ↦ refused f
        | none ↦ saved s (save_schedule s rows)
      ]
]

unfoldable pub remove : Uuid → List DeviceSchedule → ScheduleResult
remove i rows = elim (schedule_with i rows) [
  | none ↦ refused schedule_not_found
  | some s ↦ saved s (keep (λ (x : DeviceSchedule). not (x.id == i)) rows)
]

unfoldable pub toggle : Uuid → List DeviceSchedule → ScheduleResult
toggle i rows = elim (schedule_with i rows) [
  | none ↦ refused schedule_not_found
  | some s ↦ let s' = record s { enabled = not s.enabled } in saved s' (save_schedule s' rows)
]

-- `Number` of a text of digits: "" is 0, and what is no number equals nothing.
unfoldable pub digits_from : ℕ → Text → Option ℕ
digits_from n [] = some n
digits_from n (c ∷ t) =
    let rest = digits_from (n * 10 + (c - 48)) t in if leb 48 c && leb c 57 then rest else none

abbrev pub colon : ℕ
colon = 58

-- An entry of `schedule.time.split(':').map(Number)` is the number.
unfoldable pub time_part_is : ℕ → ℕ → Option Text → Bool
time_part_is n value none = false
time_part_is n value (some time) = elim (part n (split_on colon time)) [
  | none ↦ false
  | some digits ↦ elim (digits_from 0 digits) [ none ↦ false | some m ↦ m == value ]
]

abbrev pub includes_day : Option (List ℕ) → ℕ → Bool
includes_day none d = false
includes_day (some days) d = is_some (find (λ n. n == d) days)

-- The last execution was in the same minute of the same day.
unfoldable pub same_minute : Option Text → LocalTime → LocalTime → Bool
same_minute time last now =
    last.year == now.year
    && last.month == now.month
    && last.day == now.day
    && time_part_is 0 last.hours time
    && time_part_is 1 last.minutes time

-- Whether `shouldExecute` throws: on a recurring row without days, or on its day without a time.
unfoldable pub lacks_fields : (Time → Text → LocalTime) → DeviceSchedule → Time → Bool
lacks_fields local_time s now = elim s.kind [
  | one_time ↦ false
  | recurring ↦
      not (is_some s.days_of_week)
      || includes_day s.days_of_week (local_time now s.timezone).day_of_week && not (is_some s.time)
]

-- The answer of `shouldExecute` where it does not throw.
unfoldable pub should_execute : (Time → Text → LocalTime) → DeviceSchedule → Time → Bool
should_execute local_time s now = elim s.kind [
  | one_time ↦ elim s.execute_at [
    | none ↦ false
    | some at ↦ leb at now && not (is_some s.last_executed_at)
  ]
  | recurring ↦
      let local = local_time now s.timezone in
      includes_day s.days_of_week local.day_of_week
      && time_part_is 0 local.hours s.time
      && time_part_is 1 local.minutes s.time
      && not (elim s.last_executed_at [
        | none ↦ false
        | some last ↦ same_minute s.time (local_time last s.timezone) local
      ])
]
