-- ===== src/Schedule/Rows.antt =====
-- The rows of schedule/schedule.service.ts (schedule/entities/device-schedule.entity.ts), its
-- requests (schedule/dto), and the state that its jobs read and change.
use Prim.Native.String.{String}
use qs_farm_be.Common.{ℕ, Bool, Option, List, Dict, Text}
use qs_farm_be.Domain.{Uuid, Time, Zone}
use qs_farm_be.Emqx.{Farm}
use qs_farm_be.ConfigResolution.{Cache}
use qs_farm_be.Sync.{SyncWorld, SyncEffect}

pub data ScheduleType : Type 0 where
  recurring one_time : ScheduleType

-- The keys of `params` that are read here, and the rest of it.
pub record Params : Type 0 where
  pub mode : Option String
  pub irrigation_mode : Option String
  pub rest : Text

pub record DeviceSchedule : Type 0 where
  pub id : Uuid
  pub kind : ScheduleType
  pub device_id : Option Uuid
  pub farm_id : Option Uuid
  pub zone_id : Option Uuid
  pub command : String
  pub params : Params
  pub days_of_week : Option (List ℕ)
  pub time : Option Text
  pub execute_at : Option Time
  pub timezone : Text
  pub enabled : Bool
  pub last_executed_at : Option Time

-- A request to create or to update: a key that is missing is `none`, and null is `some none`.
pub record ScheduleDto : Type 0 where
  pub kind : Option ScheduleType
  pub device_id : Option (Option Uuid)
  pub farm_id : Option (Option Uuid)
  pub zone_id : Option (Option Uuid)
  pub command : Option String
  pub params : Option Params
  pub days_of_week : Option (Option (List ℕ))
  pub time : Option (Option Text)
  pub execute_at : Option (Option Time)
  pub timezone : Option Text
  pub enabled : Option Bool

pub data ScheduleFailure : Type 0 where
  schedule_not_found : ScheduleFailure
  not_one_target : ScheduleFailure
  no_days_and_time : ScheduleFailure
  no_execute_at : ScheduleFailure

pub data ScheduleResult : Type 0 where
  refused : ScheduleFailure → ScheduleResult
  saved : DeviceSchedule → List DeviceSchedule → ScheduleResult

-- What `Intl` says of a time in a time zone.
pub record LocalTime : Type 0 where
  pub year : ℕ
  pub month : ℕ
  pub day : ℕ
  pub day_of_week : ℕ
  pub hours : ℕ
  pub minutes : ℕ

pub record FarmOwnerEntry : Type 0 where
  pub user_id : Uuid
  pub loaded_at : Time

-- The tables, and the caches of this service, of the sync service and of the config resolution.
pub record ScheduleState (F : Type 0) : Type 0 where
  pub schedules : List DeviceSchedule
  pub zones : List Zone
  pub farms : List Farm
  pub sync : SyncWorld
  pub configs : Cache F
  pub owners : Dict Uuid FarmOwnerEntry

-- What the jobs cause: what the sync service does, and a push notification to a farm's owner about
-- a schedule. `executed` marks that a schedule was saved as executed at a time.
pub data Action : Type 0 where
  synced : SyncEffect Params → Action
  executed : Uuid → Time → Action
  pushed : Uuid → Uuid → Action

-- Code outside: the text of an id, the broker's answer to a command for a device, local times, and
-- the connected users.
pub record JobOutside : Type 0 where
  pub text_of : ℕ → Text
  pub accepts : Uuid → Bool
  pub local_time : Time → Text → LocalTime
  pub is_user_connected : Uuid → Bool
