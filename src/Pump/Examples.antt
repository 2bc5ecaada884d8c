-- ===== src/Pump/Examples.antt =====
-- One device's pump, started, stopped and cut off, for pump/pump.service.ts.
use qs_farm_be.Common.{
  ℕ, suc, ◌+◌, ◌/◌, ◌≡◌, refl, false, none, some, List, [], ◌∷◌, Memᴰ, arith, empty, insert,
}
use qs_farm_be.Domain.{water_pressure}
use qs_farm_be.Pump.{
  Db, Aggregates, PumpSession, PumpStartedEvent, Event, started, stopped, disconnected, cleanup,
  closed_session, new_session, handle_pump_started, handle_pump_stopped, step, run,
  cleanup_stale_sessions, last_sensor_timestamp, max_number, handle_pump_disconnected,
  close_session, compute_session_aggregates, compute_overcurrent_data, sensor_aggregates,
  save_session, add_operating, hours_of, valid_irrigation_mode, valid_control_mode, check_all_stale,
  check_stale,
}
use qs_farm_be.Pump.Sessions.{count_running}
use qs_farm_be.Pump.Changes.{Changes}
use qs_farm_be.Pump.Refinement.{step-Changes}
use qs_farm_be.Pump.Invariant.{IsValid, FreshIds, run-IsValid}
use qs_farm_be.Pump.Hours.{add_hours, ArePositive, times, times_completed, run-operating_hours}

abbrev sql : Aggregates ℕ
sql = record {
  min_of = λ v vs. v;
  max_of = λ v vs. v;
  avg_of = λ v vs. v;
  sum_of = λ v vs. v;
  count_distinct = λ vs. 0;
  number = λ n. n;
  divide = λ a b. a / b;
  plus = λ a b. a + b;
}

abbrev start_event : PumpStartedEvent
start_event = record {
  device_id = 1;
  farm_id = some 3;
  timestamp = 1000;
  irrigation_mode = some "drip";
  control_mode = none;
}

abbrev start : Db ℕ
start = record {
  sessions = [];
  sensor_data = [];
  alerts = [];
  operating_hours = insert 1 500 empty;
}

abbrev history : List Event
history =
    started 11 start_event
    ∷ stopped
        (record { device_id = 1; farm_id = some 3; session_id = some 11; timestamp = 7201000 })
    ∷ started 12 start_event
    ∷ disconnected (record { device_id = 1; farm_id = some 3; timestamp = 9000 })
    ∷ cleanup 50000
    ∷ []

abbrev one_session : PumpSession ℕ
one_session = new_session 11 start_event 1

abbrev busy : Db ℕ
busy = record start {
  sessions = one_session ∷ [];
  sensor_data =
      record { device_id = 1; sensor_type = water_pressure; value = 4; created_at = 30000 } ∷ [];
}

start-IsValid : IsValid start
unfolding count_running
start-IsValid = record { distinct_ids = tt; one_running = λ d. omega arith; formed = tt }

history-FreshIds : FreshIds sql history start
unfolding step handle_pump_started handle_pump_stopped handle_pump_disconnected close_session
    closed_session compute_session_aggregates compute_overcurrent_data sensor_aggregates
    save_session add_operating hours_of max_number new_session valid_irrigation_mode
    valid_control_mode cleanup_stale_sessions check_all_stale check_stale last_sensor_timestamp
history-FreshIds = (tt, (tt, ((omega arith, tt), (tt, (tt, tt)))))

history_hours : (run sql history start).operating_hours 1 ≡ some 502
unfolding step handle_pump_started handle_pump_stopped handle_pump_disconnected close_session
    closed_session compute_session_aggregates compute_overcurrent_data sensor_aggregates
    save_session add_operating hours_of max_number new_session valid_irrigation_mode
    valid_control_mode cleanup_stale_sessions check_all_stale check_stale last_sensor_timestamp run
history_hours = refl

one_session-kept : Memᴰ one_session (cleanup_stale_sessions sql 40000 false busy).sessions
unfolding cleanup_stale_sessions check_all_stale check_stale last_sensor_timestamp new_session
one_session-kept = Memᴰ.head refl

step-Changes_example : Changes sql start (step sql (started 11 start_event) start)
step-Changes_example = step-Changes sql (started 11 start_event) start tt tt

run-IsValid_example : IsValid (run sql history start)
run-IsValid_example = run-IsValid sql history start history-FreshIds start-IsValid

run-operating_hours_example :
    (ms : List ℕ) × ((run sql history start).operating_hours 1 ≡ some (add_hours sql 500 ms))
    × ArePositive ms
    × ((n : ℕ)
        → times (suc n) ms + times_completed (suc n) 1 start.sessions
          ≡ times_completed (suc n) 1 (run sql history start).sessions)
run-operating_hours_example =
    run-operating_hours sql 1 history start 500 history-FreshIds start-IsValid refl
