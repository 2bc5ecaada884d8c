-- ===== src/Sync/Examples.antt =====
-- One device that reports to the broker, for device/sync/sync.service.ts.
use qs_farm_be.Common.{
  ◌+◌, ◌/◌, ℕ, ◌≡◌, refl, true, false, none, some, [], ◌∷◌, arith, Text, codes, empty, insert,
}
use qs_farm_be.Domain.{Uuid, Device, new_device, paired}
use qs_farm_be.Emqx.{topic_of}
use qs_farm_be.Pump.{Aggregates}
use qs_farm_be.Pump as Pump
use qs_farm_be.Pump.Sessions.{count_running}
use qs_farm_be.Pump.Invariant.{IsValid}
use qs_farm_be.Sync.{
  Payload, SyncWorld, handle_device_status, handle_device_telemetry, handle_device_response,
  receive, is_device_online,
}
use qs_farm_be.Sync.Routing.{receive-device}
use qs_farm_be.Sync.Online.{handle_device_telemetry-online}
use qs_farm_be.Sync.Pumping.{deliver_all, deliver_all-pump_on, deliver_all-lwt}

abbrev pump : Device
pump = record (new_device 55) { status = paired; farm_id = some 3 }

abbrev world : SyncWorld
world = record { devices = pump ∷ []; contexts = empty }

abbrev silent : Payload
silent = record {
  kind = none;
  reason = none;
  pump_status = none;
  session_id = none;
  mode = none;
  control_mode = none;
  fert_status = none;
  fert_session_id = none;
  fert_control_mode = none;
  command = none;
  success = false;
  irrigation_mode = none;
  version = none;
  error = none;
  duration = none;
  previous_version = none;
  provision = record {
    serial = none;
    hw = none;
    hw_model = none;
    fw = none;
    nonce = none;
    mac = none;
  };
}

abbrev pump_on : Payload
pump_on = record silent { pump_status = some 1; fert_status = some 0 }

abbrev last_will : Payload
last_will = record silent { reason = some "lwt" }

-- A device's id is a text of one code point.
abbrev uuid_of : Text → Uuid
uuid_of [] = 0
uuid_of (c ∷ t) = c

abbrev sql : Aggregates ℕ
sql = record {
  min_of = λ v vs. v;
  max_of = λ v vs. v;
  avg_of = λ v vs. v;
  sum_of = λ v vs. v;
  count_distinct = λ vs. 0;
  number = λ n. n;
  divide = λ a b. a / b;
  plus = λ a b. a + b;
}

abbrev idle : Pump.Db ℕ
idle = record { sessions = []; sensor_data = []; alerts = []; operating_hours = insert 55 0 empty }

idle-IsValid : IsValid idle
unfolding count_running
idle-IsValid = record { distinct_ids = tt; one_running = λ d. omega arith; formed = tt }

receive-device_example :
    (receive {D = ℕ} uuid_of 9 (topic_of "device" (codes "7") "status") (some pump_on) world
      ≡ handle_device_status 9 55 pump_on world)
    × (receive {D = ℕ} uuid_of 9 (topic_of "device" (codes "7") "telemetry") (some pump_on) world
        ≡ handle_device_telemetry 9 55 pump_on world)
    × (receive {D = ℕ} uuid_of 9 (topic_of "device" (codes "7") "resp") (some pump_on) world
        ≡ handle_device_response 9 55 pump_on world)
receive-device_example = receive-device ℕ uuid_of 9 55 [] pump_on world (λ e. ground arith, tt)

handle_device_telemetry-online_example :
    is_device_online 60008 55 (handle_device_telemetry {D = ℕ} 9 55 pump_on world).0 ≡ true
handle_device_telemetry-online_example =
    handle_device_telemetry-online ℕ 9 60008 55 pump_on world pump refl (omega arith) (omega arith)

deliver_all-pump_on_example :
    count_running 55
      (deliver_all sql 11
        (receive {D = ℕ} uuid_of 9
          (topic_of "device" (codes "7") "telemetry")
          (some pump_on)
          world).1
        idle).sessions
    ≡ 1
deliver_all-pump_on_example =
    deliver_all-pump_on ℕ sql uuid_of 11 9 55 [] pump_on world idle (λ e. ground arith, tt) refl
      idle-IsValid

deliver_all-lwt_example :
    count_running 55
      (deliver_all sql 11
        (receive {D = ℕ} uuid_of 9
          (topic_of "device" (codes "7") "status")
          (some last_will)
          world).1
        idle).sessions
    ≡ 0
deliver_all-lwt_example =
    deliver_all-lwt ℕ sql uuid_of 11 9 55 [] last_will world idle (λ e. ground arith, tt) refl refl
      idle-IsValid
