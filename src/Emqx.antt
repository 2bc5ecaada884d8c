-- ===== src/Emqx.antt =====
-- emqx/emqx.service.ts: who may connect to the MQTT broker, and which topics a client may use.
-- A user name and a topic are texts; `text_of` is the text of an id or a serial.
pub mod Devices
pub mod Gateways
pub mod Users
pub mod Unpairing
mod Examples
use Prim.Native.String.{String}
use qs_farm_be.Common.{
  ℕ, zero, suc, ◌+◌, Bool, true, false, not, ◌&&◌, ◌||◌, Option, none, some, List, [], ◌∷◌, ◌++◌,
  map, ltb, ◌==◌, if◌then◌else◌, find, keep, length, Dict, insert_by, erase_by, Text, codes, slash,
  text_eq, starts_with, remove_first, includes, split,
}
use qs_farm_be.Domain.{Uuid, Time, DeviceStatus, disabled, pending, Device}
use qs_farm_be.Provision.{Gateway, is_disabled}

-- The columns of `farm` that are read here.
pub record Farm : Type 0 where
  pub id : Uuid
  pub user_id : Uuid

pub record Db : Type 0 where
  pub devices : List Device
  pub gateways : List Gateway
  pub farms : List Farm

-- What a JSON web token says.
pub record JwtPayload : Type 0 where
  pub id : Text
  pub token_version : ℕ

-- Code outside the service: `text_of` writes an id, a serial or a token; `is_uuid` says that the
-- database takes a text as an id, where it throws on any text that is no UUID; `verify` is the check of a web token; and
-- `user_version` the `tokenVersion` of a user that exists.
pub record Outside : Type 0 where
  pub text_of : ℕ → Text
  pub is_uuid : Text → Bool
  pub verify : Text → Option JwtPayload
  pub user_version : Text → Option ℕ

pub record CacheEntry : Type 0 where
  pub device_ids : List Text
  pub expires_at : Time

abbrev pub Cache : Type 0
Cache = Dict Text CacheEntry

abbrev pub cache_ttl : ℕ
cache_ttl = 60000

-- 1 is subscribe and 2 is publish.
abbrev pub subscribe : ℕ
subscribe = 1

abbrev pub publish : ℕ
publish = 2

abbrev pub device_disabled : DeviceStatus → Bool
device_disabled disabled = true
device_disabled _ = false

abbrev pub device_prefix : Text
device_prefix = codes "device:"

abbrev pub gateway_prefix : Text
gateway_prefix = codes "gateway:"

-- The topic `{root}/{id}/{rest}`.
abbrev pub topic_of : String → Text → String → Text
topic_of top i rest = codes top ++ slash ∷ i ++ slash ∷ codes rest

-- `parts[n]` of a topic, or undefined.
abbrev pub part : ℕ → List Text → Option Text
part n [] = none
part zero (w ∷ ws) = some w
part (suc n) (w ∷ ws) = part n ws

abbrev pub is_text : Option Text → Text → Bool
is_text none t = false
is_text (some s) t = text_eq s t

unfoldable pub handle_gateway_devices_changed : Text → Cache → Cache
handle_gateway_devices_changed i cache = erase_by text_eq i cache

-- `deviceIds.has(deviceId)`
unfoldable pub owns : List Text → Option Text → Bool
owns [] o = false
owns (i ∷ ids) o = let rest = owns ids o in is_text o i || rest

-- The topics of `checkDeviceAcl`.
unfoldable pub is_own_topic : Text → Text → Bool
is_own_topic i topic =
    text_eq topic (topic_of "device" i "status")
    || text_eq topic (topic_of "device" i "telemetry")
    || text_eq topic (topic_of "device" i "cmd")
    || text_eq topic (topic_of "device" i "resp")
    || starts_with (topic_of "device" i "") topic

-- The owner of a device's farm.
unfoldable pub owner_of : Device → Db → Option Uuid
owner_of d db = elim d.farm_id [
  | none ↦ none
  | some f ↦ elim (find (λ (r : Farm). r.id == f) db.farms) [
    | none ↦ none
    | some r ↦ some r.user_id
  ]
]

unfoldable pub has_keyword : Text → Bool
has_keyword topic =
    includes (codes "cmd") topic
    || includes (codes "resp") topic
    || includes (codes "status") topic
    || includes (codes "telemetry") topic

module _ (out : Outside) where
  abbrev pub has_text : Option ℕ → Text → Bool
  has_text none t = false
  has_text (some n) t = text_eq (out.text_of n) t

  abbrev pub has_id : Text → Device → Bool
  has_id i d = text_eq (out.text_of d.id) i

  -- The device branch of `authenticate`: a query by id throws for a text that is no id.
  unfoldable pub authenticate_device : Text → Text → Db → Bool
  authenticate_device username password db =
      if out.is_uuid username
      then elim (find (λ (d : Device). has_id username d || has_text d.serial username)
          db.devices) [
            | none ↦ false
            | some d ↦ has_text d.device_token password && not (device_disabled d.status)
          ]
      else false

  unfoldable pub authenticate_gateway : Text → Text → Db → Bool
  authenticate_gateway username password db =
      let i = remove_first gateway_prefix username in
      if out.is_uuid i
      then elim (find (λ (g : Gateway). text_eq (out.text_of g.id) i) db.gateways) [
        | none ↦ false
        | some g ↦ if is_disabled g.status then false else has_text g.mqtt_token password
      ]
      else false

  unfoldable pub authenticate_user : Text → Text → Bool
  authenticate_user username password = elim (out.verify password) [
    | none ↦ false
    | some p ↦
        if text_eq p.id username
        then elim (out.user_version p.id) [ none ↦ false | some v ↦ v == p.token_version ]
        else false
  ]

  unfoldable pub authenticate : Text → Text → Db → Bool
  authenticate username password db =
      if starts_with device_prefix username || length username == 36
      then authenticate_device username password db
      else if starts_with gateway_prefix username
      then authenticate_gateway username password db
      else authenticate_user username password

  -- The ids of a gateway's devices, as the database has them.
  unfoldable pub device_ids_of : Text → Db → List Text
  device_ids_of i db =
      map (λ (d : Device). out.text_of d.id)
        (keep (λ (d : Device). has_text d.gateway_id i) db.devices)

  unfoldable pub get_gateway_device_ids : Time → Text → Db → Cache → List Text × Cache
  get_gateway_device_ids now i db cache =
      let ids = device_ids_of i db in
      let miss : List Text × Cache = (
        ids,
        insert_by text_eq i (record { device_ids = ids; expires_at = now + cache_ttl }) cache,
      ) in
      elim (cache i) [
        | none ↦ miss
        | some e ↦ if ltb now e.expires_at then (e.device_ids, cache) else miss
      ]

  -- `checkGatewayAcl` for a topic of a device.
  unfoldable pub check_gateway_device : Time → Text → Text → Db → Cache → Bool × Cache
  check_gateway_device now i topic db cache =
      let (ids, cache') = get_gateway_device_ids now i db cache in
      (owns ids (part 1 (split topic)), cache')

  unfoldable pub check_gateway_publish : Time → Text → Text → Db → Cache → Bool × Cache
  check_gateway_publish now i topic db cache =
      if text_eq topic (topic_of "gateway" i "status")
      then (true, cache)
      else if text_eq topic (codes "provision/gateway/new")
      then (true, cache)
      else if starts_with (codes "device/") topic
      then check_gateway_device now i topic db cache
      else (false, cache)

  unfoldable pub check_gateway_subscribe : Time → Text → Text → Db → Cache → Bool × Cache
  check_gateway_subscribe now i topic db cache =
      if text_eq topic (topic_of "gateway" i "ota")
      then (true, cache)
      else if text_eq topic (topic_of "gateway" i "device-ota")
      then (true, cache)
      else if starts_with (codes "provision/gateway/resp/") topic
      then (true, cache)
      else if text_eq topic (topic_of "gateway" i "device/+/cmd")
      then (true, cache)
      else if starts_with (codes "device/") topic
      then (if is_text (part 1 (split topic)) (codes "+")
          then (false, cache)
          else check_gateway_device now i topic db cache)
      else (false, cache)

  unfoldable pub check_gateway_acl : Time → Text → Text → ℕ → Db → Cache → Bool × Cache
  check_gateway_acl now username topic access db cache =
      let i = remove_first gateway_prefix username in
      if access == publish
      then check_gateway_publish now i topic db cache
      else if access == subscribe
      then check_gateway_subscribe now i topic db cache
      else (false, cache)

  -- What is left after the device's own topics is denied, provisioning or not.
  unfoldable pub check_device_acl : Text → Text → Db → Bool
  check_device_acl username topic db =
      let i = remove_first device_prefix username in
      elim (find (has_id i) db.devices) [
        | none ↦ false
        | some d ↦ if device_disabled d.status then false else is_own_topic i topic
      ]

  unfoldable pub check_user_device : Text → Text → Text → Db → Bool
  check_user_device user_id i topic db = elim (find (has_id i) db.devices) [
    | none ↦ false
    | some d ↦ has_text (owner_of d db) user_id && has_keyword topic
  ]

  unfoldable pub check_user_acl : Text → Text → Db → Bool
  check_user_acl user_id topic db =
      if text_eq topic (topic_of "user" user_id "notifications")
      then true
      else if is_text (part 0 (split topic)) (codes "device")
      then elim (part 1 (split topic)) [
        | none ↦ false
        | some i ↦ check_user_device user_id i topic db
      ]
      else false

  unfoldable pub check_acl : Time → Text → Text → ℕ → Db → Cache → Bool × Cache
  check_acl now username topic access db cache =
      if starts_with gateway_prefix username
      then check_gateway_acl now username topic access db cache
      else if starts_with device_prefix username
      then (check_device_acl username topic db, cache)
      else (check_user_acl username topic db, cache)
