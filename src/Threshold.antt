-- ===== src/Threshold.antt =====
-- sensor/threshold.service.ts: one reading of a sensor against the thresholds in force, with the
-- anti-spam state, the commands, the alert log and the notifications that follow. `F` is the type of
-- readings and `lt` their comparison, which answers false where one of the two is not a number.
mod Reasons
pub mod Sorting
pub mod Scan
pub mod AntiSpam
pub mod Cooldown
pub mod Actions
pub mod Effects
mod Examples
pub use Reasons.{AlertDirection, above, below}
unfoldable pub use Reasons.{sensor_reason}
use Prim.Native.String.{String}
use text.Mathlib.Text.{◌==◌ as str_eq}
use qs_farm_be.Common.{
  ℕ, ◌+◌, Bool, true, false, not, ◌&&◌, Option, none, some, List, [], ◌∷◌, ◌++◌, map, ltb, ◌==◌,
  if◌then◌else◌, get_or, Dict, empty, insert, insert_by, erase_by,
}
use qs_farm_be.Domain.{
  Uuid, Time, SensorType, ThresholdLevel, critical, warning, sensor_eq, Device, ThresholdRow,
}
use qs_farm_be.ConfigResolution.{ResolvedThreshold, resolved, chain}

-- The columns of `sensor_config` that are read here.
pub record SensorConfig (F : Type 0) : Type 0 where
  pub sensor_type : SensorType
  pub thresholds : Option (List (ThresholdRow F))

pub record OwnerEntry : Type 0 where
  pub user_id : Uuid
  pub loaded_at : Time

pub record State : Type 0 where
  pub device_states : Dict Uuid (Dict String Bool)
  pub last_action_time : Dict (Uuid × SensorType) Time
  pub farm_owner_cache : Dict Uuid OwnerEntry

abbrev pub cooldown_ms : ℕ
cooldown_ms = 30000

abbrev pub farm_owner_cache_ttl : ℕ
farm_owner_cache_ttl = 300000

-- What the other services and the database answer during one call: `device` is the row of the
-- device; `publish_ok`, `log_ok` and `alert_ok` say that publishing the command, saving the command
-- log and saving the alert log do not throw.
pub record World : Type 0 where
  pub now : Time
  pub device : Option Device
  pub farm_owner : Uuid → Option Uuid
  pub is_user_connected : Uuid → Bool
  pub publish_ok : Bool
  pub log_ok : Bool
  pub alert_ok : Bool

-- A violated threshold, as it is logged and sent.
pub record Alert (F : Type 0) : Type 0 where
  pub device_id : Uuid
  pub sensor_type : SensorType
  pub value : F
  pub threshold : F
  pub level : ThresholdLevel
  pub direction : AlertDirection
  pub action : String
  pub reason : String

-- The calls of other services, in order; a call of `log_alert` is made also where it throws.
pub data Effect (F : Type 0) : Type 0 where
  publish : Option Uuid → Option ℕ → Alert F → Effect F
  broadcast_command : Option Uuid → Alert F → Effect F
  log_command : Bool → Alert F → Effect F
  log_alert : Alert F → Effect F
  push_notification : Uuid → Alert F → Effect F
  broadcast_alert : Option Uuid → Alert F → Effect F

-- The keys `${deviceId}:${sensorType}`.
abbrev pub cooldown_key_eq : Uuid × SensorType → Uuid × SensorType → Bool
cooldown_key_eq (d, s) (e, t) = d == e && sensor_eq s t

abbrev pub is_active : State → Uuid → String → Bool
is_active s device_id action = get_or (chain (s.device_states device_id) (λ m. m action)) false

-- `lastTime && Date.now() - lastTime < COOLDOWN_MS`
abbrev pub is_cooling : Time → Option Time → Bool
is_cooling now none = false
is_cooling now (some last) = not (last == 0) && ltb now (last + cooldown_ms)

-- `Update state and cooldown`
abbrev pub mark_dispatched : Time → Uuid → SensorType → String → State → State
mark_dispatched now device_id sensor_type action s = record s {
  device_states =
      insert device_id (insert_by str_eq action true (get_or (s.device_states device_id) empty))
        s.device_states;
  last_action_time = insert_by cooldown_key_eq (device_id, sensor_type) now s.last_action_time;
}

unfoldable pub should_dispatch : Time → Uuid → SensorType → String → State → State × Bool
should_dispatch now device_id sensor_type action s =
    if is_active s device_id action
    then (s, false)
    else if is_cooling now (s.last_action_time (device_id, sensor_type))
    then (s, false)
    else (mark_dispatched now device_id sensor_type action s, true)

-- The loop of `clearStatesForSensor` on the device's own map.
unfoldable pub delete_actions : List String → Dict String Bool → Dict String Bool
delete_actions [] m = m
delete_actions (a ∷ rest) m = delete_actions rest (erase_by str_eq a m)

unfoldable pub clear_states_for_sensor : Uuid → List String → State → State
clear_states_for_sensor device_id actions s = elim (s.device_states device_id) [
  | none ↦ s
  | some m ↦ record s {
    device_states = insert device_id (delete_actions actions m) s.device_states;
  }
]

-- The owner of a farm, through the cache.
unfoldable pub get_farm_owner_id : World → Uuid → State → State × Option Uuid
get_farm_owner_id w farm_id s =
    let miss : State × Option Uuid = elim (w.farm_owner farm_id) [
      | none ↦ (s, none)
      | some owner ↦ (
        record s {
          farm_owner_cache =
              insert farm_id (record { user_id = owner; loaded_at = w.now }) s.farm_owner_cache;
        },
        some owner,
      )
    ] in
    elim (s.farm_owner_cache farm_id) [
      | none ↦ miss
      | some c ↦
          if ltb w.now (c.loaded_at + farm_owner_cache_ttl) then (s, some c.user_id) else miss
    ]

-- The comparison that `evaluate` sorts by.
pub data Sign : Type 0 where
  negative zero_sign positive : Sign

abbrev pub is_critical : ThresholdLevel → Bool
is_critical critical = true
is_critical warning = false

unfoldable pub compare_levels : ThresholdLevel → ThresholdLevel → Sign
compare_levels a b =
    if is_critical a then negative else if is_critical b then positive else zero_sign

module _ {F : Type 0} where
  -- `Array.prototype.sort` inserts each item, from the left, before the first one that the
  -- comparison places after it.
  unfoldable pub insert_sorted :
      ResolvedThreshold F → List (ResolvedThreshold F) → List (ResolvedThreshold F)
  insert_sorted t [] = t ∷ []
  insert_sorted t (x ∷ xs) =
      let rest = insert_sorted t xs in
      elim (compare_levels t.level x.level) [ negative ↦ t ∷ x ∷ xs | _ ↦ x ∷ rest ]

  unfoldable pub sort_from :
      List (ResolvedThreshold F) → List (ResolvedThreshold F) → List (ResolvedThreshold F)
  sort_from acc [] = acc
  sort_from acc (t ∷ ts) = sort_from (insert_sorted t acc) ts

  unfoldable pub sort_thresholds : List (ResolvedThreshold F) → List (ResolvedThreshold F)
  sort_thresholds = sort_from []

  -- `resolvedThresholds ?? config.thresholds ?? []`
  unfoldable pub thresholds_in_use :
      SensorConfig F → Option (List (ResolvedThreshold F)) → List (ResolvedThreshold F)
  thresholds_in_use config (some ts) = ts
  thresholds_in_use config none = elim config.thresholds [
    | none ↦ []
    | some rows ↦ map resolved rows
  ]

  -- The commands that follow a violation: none for ALERT_ONLY; a failure is logged as one.
  unfoldable pub dispatch_command : World → Option Uuid → Alert F → List (Effect F)
  dispatch_command w farm_id a =
      if str_eq a.action "ALERT_ONLY"
      then []
      else if w.publish_ok
      then publish (chain w.device (λ d. d.gateway_id)) (chain w.device (λ d. d.serial)) a
        ∷ broadcast_command farm_id a
        ∷ log_command w.log_ok a
        ∷ []
      else log_command false a ∷ []

  -- The push notification, for a farm whose owner is not connected.
  unfoldable pub notify : World → Option Uuid → Alert F → State → State × List (Effect F)
  notify w none a s = (s, [])
  notify w (some farm_id) a s =
      let (s', owner) = get_farm_owner_id w farm_id s in
      let is_online : Bool = elim owner [ none ↦ false | some u ↦ w.is_user_connected u ] in
      (s', if is_online then [] else push_notification farm_id a ∷ [])

  -- What follows the alert log, unless saving it threw.
  unfoldable pub after_alert_log : World → Option Uuid → Alert F → State → State × List (Effect F)
  after_alert_log w farm_id a s =
      let (s', pushed) = notify w farm_id a s in
      if w.alert_ok then (s', pushed ++ broadcast_alert farm_id a ∷ []) else (s, [])

  -- What follows once a violation may be dispatched.
  unfoldable pub raise_alert : World → Option Uuid → Alert F → State → State × List (Effect F)
  raise_alert w farm_id a s =
      let (s', later) = after_alert_log w farm_id a s in
      (s', dispatch_command w farm_id a ++ log_alert a ∷ later)

  abbrev pub alert_of : Uuid → SensorType → F → ResolvedThreshold F → AlertDirection → F → Alert F
  alert_of device_id sensor_type value t direction bound = record {
    device_id = device_id;
    sensor_type = sensor_type;
    value = value;
    threshold = bound;
    level = t.level;
    direction = direction;
    action = t.action;
    reason = sensor_reason sensor_type direction;
  }

  -- A violated threshold ends the loop, dispatched or not.
  unfoldable pub on_violation : World → Option Uuid → Alert F → State → State × List (Effect F)
  on_violation w farm_id a s =
      let (s', go) = should_dispatch w.now a.device_id a.sensor_type a.action s in
      if go then raise_alert w farm_id a s' else (s', [])

  module _ (lt : F → F → Bool) where
    -- The bound that the value violates, if any: the lower one is tried first.
    unfoldable pub violation : F → ResolvedThreshold F → Option (AlertDirection × F)
    violation value t =
        let upper : Option (AlertDirection × F) = elim t.max_threshold [
          | none ↦ none
          | some hi ↦ if lt hi value then some (above, hi) else none
        ] in
        elim t.min_threshold [
          | none ↦ upper
          | some lo ↦ if lt value lo then some (below, lo) else upper
        ]

    -- The loop of `evaluate` over the sorted thresholds; `actions` are those to clear at its end.
    unfoldable pub scan :
        World
        → Uuid
        → Option Uuid
        → SensorType
        → F
        → List String
        → List (ResolvedThreshold F)
        → State
        → State × List (Effect F)
    scan w device_id farm_id sensor_type value actions [] s =
        (clear_states_for_sensor device_id actions s, [])
    scan w device_id farm_id sensor_type value actions (t ∷ ts) s =
        let rest = scan w device_id farm_id sensor_type value actions ts s in
        elim (violation value t) [
          | none ↦ rest
          | some (direction, bound) ↦
              on_violation w farm_id (alert_of device_id sensor_type value t direction bound) s
        ]

    unfoldable pub evaluate :
        World
        → Uuid
        → Option Uuid
        → SensorConfig F
        → F
        → Option (List (ResolvedThreshold F))
        → State
        → State × List (Effect F)
    evaluate w device_id farm_id config value resolved_thresholds s =
        let thresholds = thresholds_in_use config resolved_thresholds in
        scan w device_id farm_id config.sensor_type value
          (map (λ (t : ResolvedThreshold F). t.action) thresholds) (sort_thresholds thresholds) s
