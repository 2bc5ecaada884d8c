-- ===== src/Emqx/Examples.antt =====
-- A device, its gateway and its owner at the broker, for emqx/emqx.service.ts.
use qs_farm_be.Common.{
  ◌+◌, ◌<◌, ◌≤◌, ◌≡◌, ◌≢◌, ◌↔◌, refl, true, false, ◌||◌, none, some, [], ◌∷◌, ◌++◌, arith, Memᴰ,
  find, not, ℕ, length, starts_with, Text, codes, HasNoSlash, empty,
}
use qs_farm_be.Domain.{Time, Device, paired, new_device}
use qs_farm_be.Provision.{GatewayStatus}
use qs_farm_be.Emqx.{
  Db, Outside, cache_ttl, subscribe, publish, device_prefix, gateway_prefix, has_text, has_id,
  device_disabled, owner_of, has_keyword, authenticate, authenticate_device, check_acl,
  check_gateway_acl, check_gateway_publish, check_gateway_device, get_gateway_device_ids,
  device_ids_of, owns,
}
use qs_farm_be.Emqx.Devices.{device_topic, device_acl_iff, authenticate-device}
use qs_farm_be.Emqx.Gateways.{IsCoherent, HasDevice, gateway_acl_fresh}
use qs_farm_be.Emqx.Users.{user_acl_iff}
use qs_farm_be.Emqx.Unpairing.{broker_view, unpair_device-authenticate}
use qs_farm_be.Provision as Provision
use qs_farm_be.Provision.{replace_device}
use qs_farm_be.Provision.Upkeep.{unpair_device}

-- A number is one code point, past those of the topics' own letters.
abbrev outside : Outside
outside = record {
  text_of = λ n. n ∷ [];
  is_uuid = λ t. true;
  verify = λ t. none;
  user_version = λ t. none;
}

abbrev pump : Device
pump = record (new_device 1001) {
  status = paired;
  device_token = some 5000;
  gateway_id = some 2001;
  farm_id = some 3001;
}

abbrev broker : Db
broker = record {
  devices = pump ∷ [];
  gateways =
      record {
        id = 2001;
        status = GatewayStatus.paired;
        farm_id = some 3001;
        mqtt_token = some 6000;
      }
      ∷ [];
  farms = record { id = 3001; user_id = 4001 } ∷ [];
}

abbrev always : Time → Db
always t = broker

abbrev pump_id : Text
pump_id = 1001 ∷ []

abbrev gateway_id_text : Text
gateway_id_text = 2001 ∷ []

pump_id-HasNoSlash : HasNoSlash pump_id
pump_id-HasNoSlash = (omega arith, tt)

empty-IsCoherent : IsCoherent outside always 5000 empty
empty-IsCoherent i e h = ground arith

gateway_may_publish :
    (check_acl outside 5000
      (gateway_prefix ++ gateway_id_text)
      (device_topic pump_id (codes "cmd"))
      publish
      broker
      empty).0
    ≡ true
unfolding check_acl check_gateway_acl check_gateway_publish check_gateway_device
    get_gateway_device_ids device_ids_of owns
gateway_may_publish = refl

-- Ids as texts of 36 characters, as those of a UUID.
abbrev id_text : ℕ → Text
id_text n = codes "00000000-0000-0000-0000-00000000000" ++ n ∷ []

abbrev spelled : Outside
spelled = record outside { text_of = id_text; is_uuid = λ t. not (starts_with device_prefix t) }

no_prefixed_id : (t : Text) → starts_with device_prefix t ≡ true → spelled.is_uuid t ≡ false
no_prefixed_id t h = ground (arith, h)

device_connects : authenticate spelled (id_text 1001) (id_text 5000) broker ≡ true
unfolding authenticate authenticate_device
device_connects = refl

device_acl_iff_example :
    ((check_acl outside 5000
        (device_prefix ++ pump_id)
        (device_topic pump_id (codes "cmd"))
        subscribe
        broker
        empty).0
      ≡ true)
    ↔ ((pump_id ≡ pump_id)
        × ((d : Device) × (find (has_id outside pump_id) broker.devices ≡ some d)
            × (device_disabled d.status ≡ false)))
device_acl_iff_example =
    device_acl_iff outside 5000 pump_id pump_id (codes "cmd") subscribe broker empty
      pump_id-HasNoSlash pump_id-HasNoSlash

authenticate-device_example :
    (length (id_text 1001) ≡ 36)
    × (starts_with device_prefix (id_text 1001) ≡ false)
    × ((d : Device) × Memᴰ d broker.devices
        × (has_id spelled (id_text 1001) d || has_text spelled d.serial (id_text 1001) ≡ true)
        × (has_text spelled d.device_token (id_text 5000) ≡ true)
        × (device_disabled d.status ≡ false))
authenticate-device_example =
    authenticate-device spelled (id_text 1001) (id_text 5000) broker refl no_prefixed_id
      device_connects

gateway_acl_fresh_example :
    (t : Time) × (t ≤ 5000)
    × (5000 < t + cache_ttl)
    × HasDevice outside (always t) gateway_id_text pump_id
gateway_acl_fresh_example =
    gateway_acl_fresh outside always empty 5000 gateway_id_text pump_id (codes "cmd") publish
      empty-IsCoherent pump_id-HasNoSlash gateway_may_publish

user_acl_iff_example :
    ((check_acl outside 5000
        (4001 ∷ [])
        (device_topic pump_id (codes "cmd"))
        publish
        broker
        empty).0
      ≡ true)
    ↔ ((d : Device) × (find (has_id outside pump_id) broker.devices ≡ some d)
        × (has_text outside (owner_of d broker) (4001 ∷ []) ≡ true)
        × (has_keyword (device_topic pump_id (codes "cmd")) ≡ true))
user_acl_iff_example =
    user_acl_iff outside 5000 (4001 ∷ []) pump_id (codes "cmd") publish broker empty refl refl
      pump_id-HasNoSlash

abbrev second : Device
second = record (new_device 1002) { serial = some 7001; device_token = some 5001; status = paired }

abbrev two_devices : Provision.Db
two_devices = record {
  devices = record pump { serial = some 7000 } ∷ second ∷ [];
  pairing_tokens = [];
  gateways = [];
}

second_connects :
    authenticate spelled
      (id_text 1002)
      (id_text 5001)
      (broker_view (unpair_device 1001 two_devices).0 [])
    ≡ true
unfolding authenticate authenticate_device unpair_device replace_device
second_connects = refl

unpair_device-authenticate_example :
    (x : Device) × Memᴰ x (unpair_device 1001 two_devices).0.devices
    × (x.id ≢ 1001)
    × (has_text spelled x.device_token (id_text 5001) ≡ true)
unpair_device-authenticate_example =
    unpair_device-authenticate spelled 1001 two_devices [] (record pump { serial = some 7000 })
      (id_text 1002) (id_text 5001) refl refl no_prefixed_id second_connects
