-- ===== src/Fertilizer/Examples.antt =====
-- One device's fertilizer, started, stopped and cut off, for fertilizer/fertilizer.service.ts.
use qs_farm_be.Common.{◌+◌, ◌/◌, ℕ, ◌≡◌, some, List, [], ◌∷◌, map, arith, Text}
use qs_farm_be.Domain.{fert_current, fert_temperature}
use qs_farm_be.Pump.{Aggregates}
use qs_farm_be.Pump as Pump
use qs_farm_be.Pump.Sessions.{count_running}
use qs_farm_be.Pump.Invariant.{IsValid, FreshIds}
use qs_farm_be.Fertilizer.{
  FertDb, FertilizerStartedEvent, FertEvent, fert_started, fert_stopped, fert_disconnected,
  fert_cleanup, fert_run,
}
use qs_farm_be.Fertilizer.AsPump.{as_pump}
use qs_farm_be.Fertilizer.Handlers.{as_event}
use qs_farm_be.Fertilizer.Simulation.{fert_run-as_pump, fert_run-IsValid}

abbrev sql : Aggregates ℕ
sql = record {
  min_of = λ v vs. v;
  max_of = λ v vs. v;
  avg_of = λ v vs. v;
  sum_of = λ v vs. v;
  count_distinct = λ vs. 0;
  number = λ n. n;
  divide = λ a b. a / b;
  plus = λ a b. a + b;
}

abbrev text_of : ℕ → Text
text_of n = n ∷ []

abbrev fert_start : FertilizerStartedEvent
fert_start = record {
  device_id = 1;
  farm_id = some 3;
  timestamp = 1000;
  control_mode = some "auto";
}

abbrev tank : FertDb ℕ
tank = record {
  sessions = [];
  sensor_data =
      record { device_id = 1; sensor_type = fert_current; value = 4; created_at = 2000 }
      ∷ record { device_id = 1; sensor_type = fert_temperature; value = 30; created_at = 3000 }
      ∷ [];
  alerts = [];
  devices = [];
}

abbrev history : List FertEvent
history =
    fert_started 11 fert_start
    ∷ fert_stopped
        (record { device_id = 1; farm_id = some 3; session_id = some 11; timestamp = 4000 })
    ∷ fert_started 12 fert_start
    ∷ fert_disconnected (record { device_id = 1; farm_id = some 3; timestamp = 9000 })
    ∷ fert_cleanup 50000
    ∷ []

tank-IsValid : IsValid (as_pump tank)
unfolding count_running
tank-IsValid = record { distinct_ids = tt; one_running = λ d. omega arith; formed = tt }

history-FreshIds : FreshIds sql (map as_event history) (as_pump tank)
unfolding Pump.step Pump.handle_pump_started Pump.handle_pump_stopped Pump.handle_pump_disconnected
    Pump.close_session Pump.closed_session Pump.compute_session_aggregates
    Pump.compute_overcurrent_data Pump.sensor_aggregates Pump.save_session Pump.add_operating
    Pump.hours_of Pump.max_number Pump.new_session Pump.valid_irrigation_mode
    Pump.valid_control_mode Pump.last_sensor_timestamp
history-FreshIds = (tt, (tt, ((omega arith, tt), (tt, (tt, tt)))))

fert_run-as_pump_example :
    Pump.run sql (map as_event history) (as_pump tank) ≡ as_pump (fert_run sql text_of history tank)
fert_run-as_pump_example = fert_run-as_pump sql text_of history tank

fert_run-IsValid_example : IsValid (as_pump (fert_run sql text_of history tank))
fert_run-IsValid_example = fert_run-IsValid sql text_of history tank history-FreshIds tank-IsValid
