-- ===== src/Sync/Routing.antt =====
-- Which handler of device/sync/sync.service.ts a topic of a device leads to, through
-- device/mqtt/mqtt.service.ts.
use Prim.Native.String.{String}
use qs_farm_be.Common.{
  if◌then◌else◌, ℕ, ◌≡◌, refl, ap, ◌∙◌, some, List, [], ◌∷◌, Text, codes, split, HasNoSlash,
}
use mathlib.Core.List.{append-nil}
use qs_farm_be.Domain.{Uuid}
use qs_farm_be.Emqx.{topic_of}
use qs_farm_be.Mqtt.{
  MqttMessage, match_from, extract_device_id, or_unknown, matched_callbacks, on_message,
  handle_message, is_gateway_status, calls, Entry,
}
use qs_farm_be.Mqtt.Topics.{topic_matches_pattern-match_from}
use qs_farm_be.Mqtt.Routing.{split-level}
use qs_farm_be.Sync.{
  Payload, SyncWorld, Callback, provisioning, device_status, device_telemetry, device_response,
  setup_mqtt_to_web_socket_sync, handle_device_status, handle_device_telemetry,
  handle_device_response, receive, on_dispatch, run_callbacks, run_callback,
}

abbrev registered : List (Entry Callback)
registered = setup_mqtt_to_web_socket_sync []

device_split :
    (i : Text) (rest : String)
    → HasNoSlash i
    → split (topic_of "device" i rest) ≡ codes "device" ∷ i ∷ split (codes rest)
device_split i rest h = rw (split-level i (codes rest) h) refl

-- The callbacks that the levels of a topic select.
unfoldable selected : List Text → List Callback
selected levels =
    let resp : List Callback =
      if match_from 0 (split (codes "device/+/resp")) levels then device_response ∷ [] else [] in
    let telemetry =
      if match_from 0 (split (codes "device/+/telemetry")) levels
      then device_telemetry ∷ resp
      else resp in
    let status =
      if match_from 0 (split (codes "device/+/status")) levels
      then device_status ∷ telemetry
      else telemetry in
    if match_from 0 (split (codes "provision/new")) levels then provisioning ∷ status else status

matched-selected : (topic : Text) → matched_callbacks topic registered ≡ selected (split topic)
unfolding matched_callbacks setup_mqtt_to_web_socket_sync on_message selected
matched-selected topic =
    rw
      (
        topic_matches_pattern-match_from topic (codes "device/+/status"),
        topic_matches_pattern-match_from topic (codes "device/+/telemetry"),
        topic_matches_pattern-match_from topic (codes "device/+/resp"),
        topic_matches_pattern-match_from topic (codes "provision/new"),
      )
      refl

matched-device :
    (i : Text) (rest : String) (cs : List Callback)
    → HasNoSlash i
    → selected (codes "device" ∷ i ∷ split (codes rest)) ≡ cs
    → matched_callbacks (topic_of "device" i rest) registered ≡ cs
matched-device i rest cs h e =
    matched-selected (topic_of "device" i rest) ∙ ap selected (device_split i rest h) ∙ e

extract_device_id-topic_of :
    (c : ℕ) (i : Text) (rest : String)
    → HasNoSlash (c ∷ i)
    → extract_device_id (topic_of "device" (c ∷ i) rest) ≡ c ∷ i
unfolding extract_device_id or_unknown
extract_device_id-topic_of c i rest h = rw (split-level (c ∷ i) (codes rest) h) refl

-- A message of a device that has no slash in its id.
handle_message-device :
    (now c : ℕ) (i : Text) (rest : String) (p : Payload) (cs : List Callback)
    → HasNoSlash (c ∷ i)
    → selected (codes "device" ∷ (c ∷ i) ∷ split (codes rest)) ≡ cs
    → handle_message registered now (topic_of "device" (c ∷ i) rest) (some p)
      ≡ calls cs (record {
        device_id = c ∷ i;
        topic = topic_of "device" (c ∷ i) rest;
        payload = p;
        timestamp = now;
      })
unfolding handle_message is_gateway_status
handle_message-device now c i rest p cs h e =
    let found = matched-device (c ∷ i) rest cs h e in
    let id = extract_device_id-topic_of c i rest h in cc

selected-topic :
    (i : Text)
    → (selected (codes "device" ∷ i ∷ split (codes "status")) ≡ device_status ∷ [])
      × (selected (codes "device" ∷ i ∷ split (codes "telemetry")) ≡ device_telemetry ∷ [])
      × (selected (codes "device" ∷ i ∷ split (codes "resp")) ≡ device_response ∷ [])
unfolding selected match_from
selected-topic i = (refl, refl, refl)

module _ (D : Type 0) (uuid_of : Text → Uuid) where
  -- One callback is run.
  run-single :
      (c : Callback) (m : MqttMessage Payload) (w : SyncWorld)
      → run_callbacks {D = D} uuid_of (c ∷ []) m w ≡ run_callback uuid_of c m w
  unfolding run_callbacks
  run-single c m w = rw (append-nil ((run_callback {D = D} uuid_of c m w).1)) refl

  -- If a device's id is not empty and has no slash, then its messages on the topics status,
  -- telemetry and resp are handled exactly once, by the handler of that topic, with that id.
  pub receive-device :
      (now c : ℕ) (i : Text) (p : Payload) (w : SyncWorld)
      → HasNoSlash (c ∷ i)
      → (receive {D = D} uuid_of now (topic_of "device" (c ∷ i) "status") (some p) w
          ≡ handle_device_status now (uuid_of (c ∷ i)) p w)
        × (receive {D = D} uuid_of now (topic_of "device" (c ∷ i) "telemetry") (some p) w
            ≡ handle_device_telemetry now (uuid_of (c ∷ i)) p w)
        × (receive {D = D} uuid_of now (topic_of "device" (c ∷ i) "resp") (some p) w
            ≡ handle_device_response now (uuid_of (c ∷ i)) p w)
  unfolding receive on_dispatch run_callback
  receive-device now c i p w h =
      let which = selected-topic (c ∷ i) in
      let status = handle_message-device now c i "status" p (device_status ∷ []) h which.0 in
      let telemetry =
        handle_message-device now c i "telemetry" p (device_telemetry ∷ []) h which.1 in
      let response = handle_message-device now c i "resp" p (device_response ∷ []) h which.2 in
      (
        ap (λ d. on_dispatch uuid_of d w) status ∙ run-single device_status _ w,
        ap (λ d. on_dispatch uuid_of d w) telemetry ∙ run-single device_telemetry _ w,
        ap (λ d. on_dispatch uuid_of d w) response ∙ run-single device_response _ w,
      )
