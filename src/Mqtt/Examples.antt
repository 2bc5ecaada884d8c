-- ===== src/Mqtt/Examples.antt =====
-- Topics of one device and of one gateway, for device/mqtt/mqtt.service.ts.
use qs_farm_be.Common.{
  ℕ, ◌≡◌, ◌↔◌, refl, true, none, some, [], ◌∷◌, ◌++◌, arith, codes, split, empty,
}
use qs_farm_be.Emqx.{Outside, Db, topic_of, check_acl, device_prefix, gateway_prefix, subscribe}
use qs_farm_be.Domain.{new_device}
use qs_farm_be.Mqtt.{topic_matches_pattern, publish_to_device}
use qs_farm_be.Mqtt.Topics.{Matches, topic_matches_pattern-Matches}
use qs_farm_be.Mqtt.Routing.{publish_to_device-reachable}

abbrev outside : Outside
outside = record {
  text_of = λ n. n ∷ [];
  is_uuid = λ t. true;
  verify = λ t. none;
  user_version = λ t. none;
}

abbrev one_device : Db
one_device = record { devices = new_device 55 ∷ []; gateways = []; farms = [] }

-- A command's data.
abbrev sample : ℕ
sample = 0

topic_matches_pattern-Matches_example :
    (topic_matches_pattern (codes "device/7/status") (codes "device/+/status") ≡ true)
    ↔ Matches (split (codes "device/+/status")) (split (codes "device/7/status"))
topic_matches_pattern-Matches_example =
    topic_matches_pattern-Matches (codes "device/7/status") (codes "device/+/status")
      (λ e. ground arith, (λ e. refl, (λ e. tt, tt)))

publish_to_device-reachable_example :
    ((check_acl outside 5
        (device_prefix ++ 55 ∷ [])
        (publish_to_device (55 ∷ []) "PUMP_ON" sample none none).topic
        subscribe
        one_device
        empty).0
      ≡ true)
    × (topic_matches_pattern
          (publish_to_device (55 ∷ []) "PUMP_ON" sample (some (codes "9")) none).topic
          (topic_of "gateway" (codes "9") "device/+/cmd")
        ≡ true)
    × ((check_acl outside 5
          (gateway_prefix ++ codes "9")
          (topic_of "gateway" (codes "9") "device/+/cmd")
          subscribe
          one_device
          empty).0
        ≡ true)
publish_to_device-reachable_example =
    publish_to_device-reachable outside (codes "9") (55 ∷ []) "PUMP_ON" sample none 5 one_device
      empty (new_device 55) (λ e. ground arith, tt) (λ e. ground arith, tt) refl refl
