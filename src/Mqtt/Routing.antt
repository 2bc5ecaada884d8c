-- ===== src/Mqtt/Routing.antt =====
-- The topics that device/mqtt/mqtt.service.ts publishes commands to, beside the access rules of
-- emqx/emqx.service.ts.
use mathlib.Core.Path.{subst, subst₂}
use Prim.Native.String.{String}
use qs_farm_be.Common.{
  ◌≡◌, refl, sym, if-both, Bool, true, false, find, Option, none, some, [], ◌∷◌, ◌++◌, arith, Text,
  codes, slash, text_eq, text_eq_refl, split, HasNoSlash,
}
use qs_farm_be.Domain.{Time, Device}
use qs_farm_be.Emqx.{
  topic_of, device_prefix, gateway_prefix, subscribe, has_id, device_disabled,
  check_gateway_subscribe, check_gateway_acl, check_acl, Outside, Db, Cache,
}
use qs_farm_be.Emqx.Devices.{device_acl_iff}
use qs_farm_be.Mqtt.{topic_matches_pattern, publish_to_device, plus}
use qs_farm_be.Mqtt.Topics.{
  topic_matches_pattern-Matches, Matches, any_level, same_level, done, NoPlusHash,
}

-- The first level of a topic, and what follows its slash.
pub split-level : (i rest : Text) → HasNoSlash i → split (i ++ slash ∷ rest) ≡ i ∷ split rest
split-level [] rest h = refl
split-level (c ∷ i) rest h = ground (arith, h.0, split-level i rest h.1)

pub split-last : (i : Text) → HasNoSlash i → split i ≡ i ∷ []
split-last [] h = refl
split-last (c ∷ i) h = ground (arith, h.0, split-last i h.1)

command_split :
    (g i : Text)
    → HasNoSlash g
    → HasNoSlash i
    → split (codes "gateway/" ++ g ++ slash ∷ topic_of "device" i "cmd")
      ≡ codes "gateway" ∷ g ∷ codes "device" ∷ i ∷ codes "cmd" ∷ []
command_split g i h k =
    rw (split-level g (topic_of "device" i "cmd") h, split-level i (codes "cmd") k) refl

filter_split :
    (g : Text)
    → HasNoSlash g
    → split (topic_of "gateway" g "device/+/cmd")
      ≡ codes "gateway" ∷ g ∷ codes "device" ∷ plus ∷ codes "cmd" ∷ []
filter_split g h = rw (split-level g (codes "device/+/cmd") h) refl

filter_matches :
    (g i : Text)
    → HasNoSlash g
    → HasNoSlash i
    → topic_matches_pattern
        (codes "gateway/" ++ g ++ slash ∷ topic_of "device" i "cmd")
        (topic_of "gateway" g "device/+/cmd")
      ≡ true
filter_matches g i h k =
    let topic = codes "gateway/" ++ g ++ slash ∷ topic_of "device" i "cmd" in
    let filter = topic_of "gateway" g "device/+/cmd" in
    let levels : Matches (split filter) (split topic) =
      subst₂ Matches (sym (filter_split g h)) (sym (command_split g i h k))
        (same_level (same_level (same_level (any_level (same_level done))))) in
    let plain : NoPlusHash (split filter) =
      subst NoPlusHash (sym (filter_split g h))
        (λ e. ground arith, (λ e. refl, (λ e. refl, (λ e. refl, (λ e. tt, tt))))) in
    (topic_matches_pattern-Matches topic filter plain).1 levels

may_subscribe :
    (out : Outside) (g : Text) (now : Time) (db : Db) (cache : Cache)
    → (check_acl out now
        (gateway_prefix ++ g)
        (topic_of "gateway" g "device/+/cmd")
        subscribe
        db
        cache).0
      ≡ true
unfolding check_acl check_gateway_acl check_gateway_subscribe
may_subscribe out g now db cache =
    let t = topic_of "gateway" g "device/+/cmd" in
    let same = text_eq_refl t in
    if-both (λ (r : Bool × Cache). r.0 ≡ true) (text_eq t (topic_of "gateway" g "ota")) refl
      (if-both (λ (r : Bool × Cache). r.0 ≡ true) (text_eq t (topic_of "gateway" g "device-ota"))
        refl (rw same refl))

module _ (out : Outside) {D : Type 0} where
  -- A command that goes to a device itself is published to a topic that the access rules let the
  -- device subscribe to, if it is in the table and not disabled. A command that goes through a
  -- gateway is published to a topic that the filter `gateway/{id}/device/+/cmd` matches, and the
  -- access rules let the gateway subscribe to this filter. Neither id has a slash.
  pub publish_to_device-reachable :
      (g i : Text) (command : String) (d : D) (mac : Option Text) (now : Time) (db : Db)
      → (cache : Cache) (x : Device) → HasNoSlash g
      → HasNoSlash i
      → find (has_id out i) db.devices ≡ some x
      → device_disabled x.status ≡ false
      → ((check_acl out now
            (device_prefix ++ i)
            (publish_to_device i command d none mac).topic
            subscribe
            db
            cache).0
          ≡ true)
        × (topic_matches_pattern
              (publish_to_device i command d (some g) mac).topic
              (topic_of "gateway" g "device/+/cmd")
            ≡ true)
        × ((check_acl out now
              (gateway_prefix ++ g)
              (topic_of "gateway" g "device/+/cmd")
              subscribe
              db
              cache).0
            ≡ true)
  unfolding publish_to_device
  publish_to_device-reachable g i command d mac now db cache x h k f on = (
    (device_acl_iff out now i i (codes "cmd") subscribe db cache k k).1 (refl, (x, f, on)),
    filter_matches g i h k,
    may_subscribe out g now db cache,
  )
