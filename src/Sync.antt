-- ===== src/Sync.antt =====
-- device/sync/sync.service.ts: what a message of a device causes, and how a command is sent. The
-- queries of the database succeed; times are those at which a handler starts.
mod Rows
pub mod Routing
pub mod Online
pub mod Pumping
mod Examples
pub use Rows.*
use Prim.Native.String.{String}
use text.Mathlib.Text.{◌==◌ as str_eq, starts_with as str_starts_with}
use qs_farm_be.Common.{
  ℕ, ◌+◌, ◌-◌, Bool, true, false, not, ◌&&◌, ◌||◌, Option, none, some, List, [], ◌∷◌, ◌++◌, map,
  ltb, ◌==◌, if◌then◌else◌, find, keep, is_some, insert, empty, Text, codes,
}
use qs_farm_be.Domain.{
  Uuid, Time, Device, IrrigationMode, normal, spray, root, drip, ControlMode, auto, manual,
  schedule,
}
use qs_farm_be.Mqtt.{
  MqttMessage, Entry, Dispatch, gateway_provision_requested, gateway_status_received, calls,
  parse_error, on_message, handle_message, publish_to_device,
}

abbrev pub farm_cache_ttl : ℕ
farm_cache_ttl = 60000

-- The four callbacks that the service registers.
pub data Callback : Type 0 where
  provisioning device_status device_telemetry device_response : Callback

unfoldable pub setup_mqtt_to_web_socket_sync : List (Entry Callback) → List (Entry Callback)
setup_mqtt_to_web_socket_sync es = on_message (codes "device/+/resp") device_response (
    on_message (codes "device/+/telemetry") device_telemetry (
      on_message (codes "device/+/status") device_status
        (on_message (codes "provision/new") provisioning es)))

-- `update` of the row with an id; without such a row it does nothing.
unfoldable pub update_device_row : Uuid → (Device → Device) → List Device → List Device
update_device_row i f [] = []
update_device_row i f (d ∷ ds) =
    let rest = update_device_row i f ds in if d.id == i then f d ∷ rest else d ∷ rest

abbrev pub device_of : Uuid → List Device → Option Device
device_of i ds = find (λ (d : Device). d.id == i) ds

abbrev pub context_of : Option Device → Context
context_of none = record { farm_id = none; zone_id = none; gateway_id = none; mac = none }
context_of (some d) = record {
  farm_id = d.farm_id;
  zone_id = d.zone_id;
  gateway_id = d.gateway_id;
  mac = d.mac;
}

abbrev pub load_device_ids : Time → Uuid → SyncWorld → Context × SyncWorld
load_device_ids now i w =
    let c = context_of (device_of i w.devices) in
    (c, record w { contexts = insert i (record { context = c; loaded_at = now }) w.contexts })

unfoldable pub get_device_ids : Time → Uuid → SyncWorld → Context × SyncWorld
get_device_ids now i w = elim (w.contexts i) [
  | none ↦ load_device_ids now i w
  | some e ↦
      if ltb now (e.loaded_at + farm_cache_ttl) then (e.context, w) else load_device_ids now i w
]

abbrev pub update_row : Uuid → (Device → Device) → SyncWorld → SyncWorld
update_row i f w = record w { devices = update_device_row i f w.devices }

abbrev pub says : Option String → String → Bool
says none s = false
says (some t) s = str_eq t s

abbrev pub is_number : Option ℕ → ℕ → Bool
is_number none n = false
is_number (some m) n = m == n

unfoldable pub irrigation_mode_of : Option String → Option IrrigationMode
irrigation_mode_of none = none
irrigation_mode_of (some m) =
    if str_eq m "normal"
    then some normal
    else if str_eq m "spray"
    then some spray
    else if str_eq m "root"
    then some root
    else if str_eq m "drip"
    then some drip
    else none

unfoldable pub control_mode_of : Option String → Option ControlMode
control_mode_of none = none
control_mode_of (some m) =
    if str_eq m "auto"
    then some auto
    else if str_eq m "manual"
    then some manual
    else if str_eq m "schedule"
    then some schedule
    else none

-- The condition of the throttled update, and `NOW()` as the column's value.
unfoldable pub see : Time → Device → Device
see now d = elim d.last_seen_at [
  | none ↦ record d { last_seen_at = some now }
  | some t ↦ if ltb (t + 30000) now then record d { last_seen_at = some now } else d
]

unfoldable pub answer_control_mode : Uuid → Payload → SyncWorld → SyncWorld
answer_control_mode i p w =
    if says p.command "SET_MODE" && p.success
    then elim (control_mode_of p.mode) [
      | none ↦ w
      | some m ↦ update_row i (λ d. record d { control_mode = some m }) w
    ]
    else w

-- What `sendCommandToDevice` ends with: two exceptions, or success.
pub data Sending : Type 0 where
  no_fertilizer not_published sent : Sending

-- The guard of the fertilizer commands refuses.
unfoldable pub lacks_fertilizer : Uuid → String → SyncWorld → Bool
lacks_fertilizer i command w =
    str_starts_with command "fertilizer_"
    && elim (device_of i w.devices) [ none ↦ true | some d ↦ not d.has_fertilizer ]

abbrev pub text_option : (ℕ → Text) → Option ℕ → Option Text
text_option text_of none = none
text_option text_of (some n) = some (text_of n)

unfoldable pub is_device_online : Time → Uuid → SyncWorld → Bool
is_device_online now i w = elim (device_of i w.devices) [
  | none ↦ false
  | some d ↦ elim d.last_seen_at [ none ↦ false | some t ↦ ltb now (t + 90000) ]
]

module _ {D : Type 0} where
  unfoldable pub handle_device_status :
      Time → Uuid → Payload → SyncWorld → SyncWorld × List (SyncEffect D)
  handle_device_status now i p w =
      if says p.kind "heartbeat"
      then (update_row i (λ d. record d { last_seen_at = some now }) w, [])
      else if says p.reason "lwt"
      then (let (c, w') =
            get_device_ids now i (update_row i (λ d. record d { last_seen_at = none }) w) in
          (
            w',
            status_broadcast i (status_reported p) c.farm_id
                ∷ pump_disconnected (record { device_id = i; farm_id = c.farm_id; timestamp = now })
                ∷ fertilizer_disconnected
                    (record { device_id = i; farm_id = c.farm_id; timestamp = now })
                ∷ [],
          ))
      else (let (c, w') = get_device_ids now i w in
          (w', status_broadcast i (status_reported p) c.farm_id ∷ []))

  unfoldable pub pump_events : Time → Uuid → Option Uuid → Payload → List (SyncEffect D)
  pump_events now i farm_id p =
      if is_number p.pump_status 1
      then pump_started (record {
        device_id = i;
        farm_id = farm_id;
        timestamp = now;
        irrigation_mode = p.mode;
        control_mode = p.control_mode;
      })
        ∷ []
      else if is_number p.pump_status 0
      then pump_stopped
          (record { device_id = i; farm_id = farm_id; session_id = p.session_id; timestamp = now })
        ∷ []
      else []

  unfoldable pub fertilizer_events : Time → Uuid → Option Uuid → Payload → List (SyncEffect D)
  fertilizer_events now i farm_id p =
      if is_number p.fert_status 1
      then fertilizer_started (record {
        device_id = i;
        farm_id = farm_id;
        timestamp = now;
        control_mode = p.fert_control_mode;
      })
        ∷ []
      else if is_number p.fert_status 0
      then fertilizer_stopped (record {
        device_id = i;
        farm_id = farm_id;
        session_id = p.fert_session_id;
        timestamp = now;
      })
        ∷ []
      else []

  unfoldable pub handle_device_telemetry :
      Time → Uuid → Payload → SyncWorld → SyncWorld × List (SyncEffect D)
  handle_device_telemetry now i p w =
      let (c, w') = get_device_ids now i (update_row i (see now) w) in
      (
        w',
        data_broadcast i p c.farm_id ∷ telemetry_received i p now c ∷ pump_events now i c.farm_id p
            ++ fertilizer_events now i c.farm_id p,
      )

  -- `PUMP_ON` and `PUMP_OFF` that succeeded.
  unfoldable pub answer_pump :
      Uuid → Option Uuid → Payload → SyncWorld → SyncWorld × List (SyncEffect D)
  answer_pump i farm_id p w =
      let on = says p.command "PUMP_ON" in
      if (on || says p.command "PUMP_OFF") && p.success
      then (
        update_row i (λ d. record d { pump_enabled = on }) w,
        status_broadcast i (pump_state_changed on) farm_id ∷ [],
      )
      else (w, [])

  unfoldable pub answer_fertilizer :
      Uuid → Option Uuid → Payload → SyncWorld → SyncWorld × List (SyncEffect D)
  answer_fertilizer i farm_id p w =
      let on = says p.command "FERTILIZER_ON" in
      if (on || says p.command "FERTILIZER_OFF") && p.success
      then (
        update_row i (λ d. record d { fertilizer_enabled = on }) w,
        status_broadcast i (fertilizer_state_changed on) farm_id ∷ [],
      )
      else (w, [])

  unfoldable pub answer_irrigation_mode :
      Uuid → Payload → SyncWorld → SyncWorld × List (SyncEffect D)
  answer_irrigation_mode i p w =
      if says p.command "SET_IRRIGATION_MODE" && p.success
      then elim (irrigation_mode_of p.irrigation_mode) [
        | none ↦ (w, [])
        | some m ↦
            (update_row i (λ d. record d { irrigation_mode = some m }) w, mode_changed i m ∷ [])
      ]
      else (w, [])

  unfoldable pub update_report : Time → Uuid → Payload → List (SyncEffect D)
  update_report now i p =
      if says p.command "OTA_UPDATE"
      then update_reported (record {
        device_id = i;
        version = p.version;
        success = p.success;
        error_message = p.error;
        duration = p.duration;
        previous_version = p.previous_version;
        timestamp = now;
      })
        ∷ []
      else []

  unfoldable pub handle_device_response :
      Time → Uuid → Payload → SyncWorld → SyncWorld × List (SyncEffect D)
  handle_device_response now i p w =
      let (c, w1) = get_device_ids now i w in
      let (w2, pumped) = answer_pump i c.farm_id p w1 in
      let (w3, fertilized) = answer_fertilizer i c.farm_id p w2 in
      let (w4, moded) = answer_irrigation_mode i p w3 in
      (
        answer_control_mode i p w4,
        status_broadcast i (command_response p) c.farm_id ∷ pumped
            ++ fertilized
            ++ moded
            ++ update_report now i p,
      )

  -- The try block of `handleProvisioningMessage` keeps what the provisioning service throws.
  unfoldable pub run_callback :
      (Text → Uuid) → Callback → MqttMessage Payload → SyncWorld → SyncWorld × List (SyncEffect D)
  run_callback uuid_of provisioning m w = (w, provision_requested m.payload.provision ∷ [])
  run_callback uuid_of device_status m w =
      handle_device_status m.timestamp (uuid_of m.device_id) m.payload w
  run_callback uuid_of device_telemetry m w =
      handle_device_telemetry m.timestamp (uuid_of m.device_id) m.payload w
  run_callback uuid_of device_response m w =
      handle_device_response m.timestamp (uuid_of m.device_id) m.payload w

  unfoldable pub run_callbacks :
      (Text → Uuid)
      → List Callback
      → MqttMessage Payload
      → SyncWorld
      → SyncWorld × List (SyncEffect D)
  run_callbacks uuid_of [] m w = (w, [])
  run_callbacks uuid_of (c ∷ cs) m w =
      let (w1, es) = run_callback uuid_of c m w in
      let (w2, rest) = run_callbacks uuid_of cs m w1 in (w2, es ++ rest)

  -- What the service does of a dispatched message; the events to the gateway service pass it by.
  unfoldable pub on_dispatch :
      (Text → Uuid) → Dispatch Callback Payload → SyncWorld → SyncWorld × List (SyncEffect D)
  on_dispatch uuid_of (gateway_provision_requested p) w = (w, [])
  on_dispatch uuid_of (gateway_status_received g p t) w = (w, [])
  on_dispatch uuid_of (calls cs m) w = run_callbacks uuid_of cs m w
  on_dispatch uuid_of parse_error w = (w, [])

  -- A message of the broker, from its topic to the effects.
  unfoldable pub receive :
      (Text → Uuid) → Time → Text → Option Payload → SyncWorld → SyncWorld × List (SyncEffect D)
  receive uuid_of now topic parsed w =
      on_dispatch uuid_of (handle_message (setup_mqtt_to_web_socket_sync []) now topic parsed) w

  -- `accepts` is the broker's answer to the publication; `text_of` writes an id or a mac.
  unfoldable pub send_command_to_device :
      (ℕ → Text)
      → Bool
      → Time
      → Uuid
      → String
      → D
      → SyncWorld
      → Sending × SyncWorld × List (SyncEffect D)
  send_command_to_device text_of accepts now i command params w =
      let (c, w') = get_device_ids now i w in
      if lacks_fertilizer i command w'
      then (no_fertilizer, w', [])
      else if accepts
      then (
        sent,
        w',
        published (
              publish_to_device (text_of i) command params (text_option text_of c.gateway_id)
                (text_option text_of c.mac))
            ∷ status_broadcast i (command_sent command) c.farm_id
            ∷ command_dispatched i command true
            ∷ [],
      )
      else (
        not_published,
        w',
        status_broadcast i (command_failed command) c.farm_id
            ∷ command_dispatched i command false
            ∷ [],
      )
