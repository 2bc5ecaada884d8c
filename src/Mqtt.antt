-- ===== src/Mqtt.antt =====
-- device/mqtt/mqtt.service.ts: which handler a message of the broker reaches, and the topics that
-- commands are published to. The client is a third-party package; a payload is of a type `J`.
pub mod Topics
pub mod Routing
mod Examples
use Prim.Native.String.{String}
use qs_farm_be.Common.{
  ℕ, suc, Bool, true, false, ◌&&◌, ◌||◌, Option, none, some, List, [], ◌∷◌, ◌++◌, ◌==◌,
  if◌then◌else◌, length, Text, codes, slash, text_eq, starts_with, ends_with, split,
}
use qs_farm_be.Emqx.{part, is_text, topic_of}

abbrev pub plus : Text
plus = codes "+"

abbrev pub hash : Text
hash = codes "#"

-- The loop of `topicMatchesPattern` from the index `i` on, over what is left of the pattern.
unfoldable pub match_from : ℕ → List Text → List Text → Bool
match_from i [] topic_parts = length topic_parts == i
match_from i (w ∷ ws) topic_parts =
    let rest = match_from (suc i) ws topic_parts in
    if text_eq w hash
    then true
    else if text_eq w plus
    then rest
    else if is_text (part i topic_parts) w
    then rest
    else false

unfoldable pub topic_matches_pattern : Text → Text → Bool
topic_matches_pattern topic pattern =
    if text_eq topic pattern then true else match_from 0 (split pattern) (split topic)

abbrev pub unknown : Text
unknown = codes "unknown"

-- `parts[1] || 'unknown'`
unfoldable pub or_unknown : Option Text → Text
or_unknown none = unknown
or_unknown (some []) = unknown
or_unknown (some (c ∷ t)) = c ∷ t

unfoldable pub extract_device_id : Text → Text
extract_device_id topic =
    let parts = split topic in
    if is_text (part 0 parts) (codes "device") then or_unknown (part 1 parts) else unknown

pub record MqttMessage (J : Type 0) : Type 0 where
  pub device_id : Text
  pub topic : Text
  pub payload : J
  pub timestamp : ℕ

-- The map of callbacks, in the order in which its keys were set: an entry is a pattern with what
-- was registered for it.
pub record Entry (C : Type 0) : Type 0 where
  pub pattern : Text
  pub callbacks : List C

module _ {C : Type 0} where
  unfoldable pub on_message : Text → C → List (Entry C) → List (Entry C)
  on_message t c [] = record { pattern = t; callbacks = c ∷ [] } ∷ []
  on_message t c (e ∷ es) =
      let rest = on_message t c es in
      if text_eq e.pattern t then record e { callbacks = e.callbacks ++ c ∷ [] } ∷ es else e ∷ rest

  -- The loop over the map of callbacks.
  unfoldable pub matched_callbacks : Text → List (Entry C) → List C
  matched_callbacks topic [] = []
  matched_callbacks topic (e ∷ es) =
      let rest = matched_callbacks topic es in
      if text_eq e.pattern (codes "*") || topic_matches_pattern topic e.pattern
      then e.callbacks ++ rest
      else rest

-- What a message causes: an event to the gateway service, calls of callbacks with the message, or
-- an error in the log.
pub data Dispatch (C : Type 0) (J : Type 0) : Type 0 where
  gateway_provision_requested : J → Dispatch C J
  gateway_status_received : Option Text → J → ℕ → Dispatch C J
  calls : List C → MqttMessage J → Dispatch C J
  parse_error : Dispatch C J

unfoldable pub is_gateway_status : Text → Bool
is_gateway_status topic = starts_with (codes "gateway/") topic && ends_with (codes "/status") topic

-- `parsed` is the answer of `JSON.parse` on the message.
unfoldable pub handle_message : {C J : Type 0} → List (Entry C) → ℕ → Text → Option J → Dispatch C J
handle_message entries now topic none = parse_error
handle_message entries now topic (some payload) =
    if text_eq topic (codes "provision/gateway/new")
    then gateway_provision_requested payload
    else if is_gateway_status topic
    then gateway_status_received (part 1 (split topic)) payload now
    else calls (matched_callbacks topic entries) (record {
      device_id = extract_device_id topic;
      topic = topic;
      payload = payload;
      timestamp = now;
    })

-- A command as it is published: the topic, and the payload with its optional mac.
pub record Publication (D : Type 0) : Type 0 where
  pub topic : Text
  pub command : String
  pub data_of : D
  pub mac : Option Text

-- A string that is null, undefined or "" is `none`.
unfoldable pub publish_to_device :
    {D : Type 0} → Text → String → D → Option Text → Option Text → Publication D
publish_to_device device_id command d none mac = record {
  topic = topic_of "device" device_id "cmd";
  command = command;
  data_of = d;
  mac = none;
}
publish_to_device device_id command d (some g) mac = record {
  topic = codes "gateway/" ++ g ++ slash ∷ topic_of "device" device_id "cmd";
  command = command;
  data_of = d;
  mac = mac;
}
