-- ===== src/Schedule/Examples.antt =====
-- Two schedules of one device, for schedule/schedule.service.ts.
use qs_farm_be.Common.{
  ℕ, ◌≡◌, ◌≤◌, refl, true, false, none, some, List, [], ◌∷◌, arith, codes, empty,
}
use qs_farm_be.Domain.{Device, new_device, drip}
use qs_farm_be.ConfigResolution.{get_device_context, resolve_config}
use qs_farm_be.Sync.{irrigation_mode_of}
use qs_farm_be.Schedule.{
  DeviceSchedule, ScheduleDto, recurring, one_time, ScheduleState, JobOutside, update, refused,
  not_one_target, has_one_target, validate_schedule_fields,
}
use qs_farm_be.Schedule.Job.{run_job, mode_change, apply_mode_change}
use qs_farm_be.Schedule.Quiet.{executions}
use qs_farm_be.Schedule.Spent.{rows_with}
use qs_farm_be.Schedule.Once.{run_job-once}
use qs_farm_be.Schedule.Targets.{
  Request, create_request, update_request, toggle_request, AreComplete, handle_requests,
  handle_requests-AreComplete, update_retarget,
}
use qs_farm_be.Schedule.Modes.{config_tables, apply_mode_change-resolve_config}

-- Every command is published, every time zone shows minutes since the epoch, nobody is connected.
abbrev outside : JobOutside
outside = record {
  text_of = λ n. n ∷ [];
  accepts = λ d. true;
  local_time =
      λ t zone. record { year = 2026; month = 1; day = 1; day_of_week = 4; hours = 6; minutes = 0 };
  is_user_connected = λ u. false;
}

abbrev flush : DeviceSchedule
flush = record {
  id = 21;
  kind = one_time;
  device_id = some 7;
  farm_id = none;
  zone_id = none;
  command = "SET_IRRIGATION_MODE";
  params = record { mode = some "drip"; irrigation_mode = none; rest = [] };
  days_of_week = none;
  time = none;
  execute_at = some 1000;
  timezone = codes "UTC";
  enabled = true;
  last_executed_at = none;
}

abbrev pump : Device
pump = record (new_device 7) { farm_id = some 3 }

abbrev state : ScheduleState ℕ
state = record {
  schedules = flush ∷ [];
  zones = [];
  farms = record { id = 3; user_id = 4 } ∷ [];
  sync = record { devices = pump ∷ []; contexts = empty };
  configs = empty;
  owners = empty;
}

abbrev nothing : ScheduleDto
nothing = record {
  kind = none;
  device_id = none;
  farm_id = none;
  zone_id = none;
  command = none;
  params = none;
  days_of_week = none;
  time = none;
  execute_at = none;
  timezone = none;
  enabled = none;
}

abbrev daily : ScheduleDto
daily = record nothing {
  device_id = some (some 7);
  command = some "PUMP_ON";
  days_of_week = some (some (1 ∷ []));
  time = some (some (codes "06:00"));
}

abbrev requests : List Request
requests =
    create_request 22 recurring daily
    ∷ update_request 21 (record nothing { execute_at = some (some 5000) })
    ∷ toggle_request 22
    ∷ []

one_row : rows_with 21 state.schedules ≤ 1
unfolding rows_with
one_row = omega arith

flush-AreComplete : AreComplete (flush ∷ [])
unfolding has_one_target validate_schedule_fields
flush-AreComplete = ((refl, refl), tt)

flush_mode : mode_change flush ≡ some drip
unfolding mode_change irrigation_mode_of
flush_mode = refl

run_job-once_example : executions 21 (run_job outside (500 ∷ 1500 ∷ 2500 ∷ []) state).1 ≤ 1
run_job-once_example =
    run_job-once outside 21 (500 ∷ 1500 ∷ 2500 ∷ []) state (λ e. refl, tt) one_row

handle_requests-AreComplete_example : AreComplete (handle_requests requests (flush ∷ []))
handle_requests-AreComplete_example =
    handle_requests-AreComplete requests (flush ∷ [])
      (tt, ((λ e. ground (arith, e), λ e. ground (arith, e), λ e. ground (arith, e)), (tt, tt)))
      flush-AreComplete

update_retarget_example :
    update 21 (record nothing { zone_id = some (some 9) }) (flush ∷ []) ≡ refused not_one_target
update_retarget_example =
    update_retarget 21 (record nothing { zone_id = some (some 9) }) (flush ∷ []) flush 7 9 refl refl
      refl

apply_mode_change-resolve_config_example :
    (resolve_config
      (get_device_context
        (config_tables [] (apply_mode_change flush state))
        1500
        7
        (apply_mode_change flush state).configs).0).irrigation_mode
    ≡ drip
apply_mode_change-resolve_config_example =
    apply_mode_change-resolve_config flush state [] 1500 7 pump drip flush_mode refl refl refl refl
