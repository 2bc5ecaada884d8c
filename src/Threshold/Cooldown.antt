-- ===== src/Threshold/Cooldown.antt =====
-- The cooldown of sensor/threshold.service.ts over any sequence of calls of `evaluate`.
use Prim.Native.String.{String}
use mathlib.Core.Path.{subst}
use qs_farm_be.Common.{
  ◌+◌, ◌≤◌, ◌<◌, ◌≡◌, refl, sym, ap, Bool, true, false, ◌&&◌, Option, none, some, List, [], ◌∷◌,
  ◌∙◌, arith, All, Bool-cases, inl, inr, if◌then◌else◌,
}
use qs_farm_be.Domain.{Uuid, Time, SensorType, sensor_eq-true}
use qs_farm_be.ConfigResolution.{ResolvedThreshold}
use qs_farm_be.Threshold.{
  State, World, Alert, Effect, SensorConfig, on_violation, evaluate, is_cooling, cooldown_ms,
  cooldown_key_eq, clear_states_for_sensor,
}
use qs_farm_be.Threshold.Scan.{outcome, evaluate-outcome, first_violation-Violates}
use qs_farm_be.Threshold.AntiSpam.{alerted, IsDispatched, on_violation_lem}

-- One call of `evaluate`.
pub record Call (F : Type 0) : Type 0 where
  pub world : World
  pub device_id : Uuid
  pub farm_id : Option Uuid
  pub config : SensorConfig F
  pub value : F
  pub given : Option (List (ResolvedThreshold F))

abbrev pub key_of : {F : Type 0} → Call F → Uuid × SensorType
key_of c = (c.device_id, c.config.sensor_type)

-- Times that lie a cooldown apart.
abbrev pub IsSpaced : List Time → Type 0
IsSpaced [] = Unit
IsSpaced (t ∷ ts) = All (λ u. t + cooldown_ms ≤ u) ts × IsSpaced ts

All-from-le : (a b : Time) (ts : List Time) → a ≤ b → All (λ u. b ≤ u) ts → All (λ u. a ≤ u) ts
All-from-le a b [] h k = tt
All-from-le a b (t ∷ ts) h k = (omega arith, All-from-le a b ts h k.1)

cooldown_key_eq_refl : (k : Uuid × SensorType) → cooldown_key_eq k k ≡ true
cooldown_key_eq_refl (d, s) = ground arith

cooldown_key_eq-true : (k j : Uuid × SensorType) → cooldown_key_eq k j ≡ true → k ≡ j
cooldown_key_eq-true (d, s) (e, t) h = ground (arith, sensor_eq-true s t)

clear_states-last :
    (d : Uuid) (actions : List String) (s : State)
    → (clear_states_for_sensor d actions s).last_action_time ≡ s.last_action_time
unfolding clear_states_for_sensor
clear_states-last d actions s = ground arith

module _ {F : Type 0} where
  -- The cooldown's part of one call with key `own` and result `r`, seen from the key `key`.
  record IsPaced (key own : Uuid × SensorType) (now : Time) (s : State)
      (r : State × List (Effect F)) : Type 0 where
    quiet :
        (cooldown_key_eq key own && alerted r.1) ≡ false
        → r.0.last_action_time key ≡ s.last_action_time key
    loud :
        (cooldown_key_eq key own && alerted r.1) ≡ true
        → (is_cooling now (s.last_action_time key) ≡ false) × (r.0.last_action_time key ≡ some now)

  unchanged-IsPaced :
      (key own : Uuid × SensorType) (now : Time) (s s' : State)
      → s'.last_action_time ≡ s.last_action_time
      → IsPaced key own now s (s', [])
  unchanged-IsPaced key own now s s' e = record {
    quiet = λ h. ap (λ (m : Uuid × SensorType → Option Time). m key) e;
    loud = λ h. ground arith;
  }

  dispatched-IsPaced :
      (key own : Uuid × SensorType) (w : World) (f : Option Uuid) (a : Alert F) (s : State)
      → (a.device_id, a.sensor_type) ≡ own
      → IsDispatched w f a s
      → IsPaced key own w.now s (on_violation w f a s)
  dispatched-IsPaced key own w f a s e d =
      let times = ap (λ (m : Uuid × SensorType → Option Time). m key) d.times in
      subst (λ k. IsPaced key k w.now s (on_violation w f a s)) e
        (record {
          quiet = λ h. ground (arith, d.logged);
          loud = λ h.
              let same = cooldown_key_eq-true key (a.device_id, a.sensor_type) (ground arith) in
              (rw same d.rested, ground (arith, d.logged));
        })

module _ {F : Type 0} (lt : F → F → Bool) where
  abbrev pub run_call : Call F → State → State × List (Effect F)
  run_call c s = evaluate lt c.world c.device_id c.farm_id c.config c.value c.given s

  -- The times at which calls for one sensor of one device log an alert.
  pub alert_times : Uuid × SensorType → List (Call F) → State → List Time
  alert_times key [] s = []
  alert_times key (c ∷ cs) s =
      let (s', effects) = run_call c s in
      let rest = alert_times key cs s' in
      if cooldown_key_eq key (key_of c) && alerted effects then c.world.now ∷ rest else rest

  outcome-IsPaced :
      (key : Uuid × SensorType) (c : Call F) (actions : List String) (s : State)
      (o : Option (Alert F))
      → ((a : Alert F) → o ≡ some a → (a.device_id, a.sensor_type) ≡ key_of c)
      → IsPaced key
          (key_of c)
          c.world.now
          s
          (outcome lt c.device_id c.config.sensor_type c.value c.world c.farm_id actions s o)
  outcome-IsPaced key c actions s none h =
      unchanged-IsPaced key (key_of c) c.world.now s _ (clear_states-last c.device_id actions s)
  outcome-IsPaced key c actions s (some a) h = elim (on_violation_lem c.world c.farm_id a s) [
    | inl same ↦
        subst (λ (r : State × List (Effect F)). IsPaced key (key_of c) c.world.now s r) (sym same)
          (unchanged-IsPaced key (key_of c) c.world.now s s refl)
    | inr d ↦ dispatched-IsPaced key (key_of c) c.world c.farm_id a s (h a refl) d
  ]

  run_call-IsPaced :
      (key : Uuid × SensorType) (c : Call F) (s : State)
      → IsPaced key (key_of c) c.world.now s (run_call c s)
  run_call-IsPaced key c s =
      subst (λ (r : State × List (Effect F)). IsPaced key (key_of c) c.world.now s r)
        (sym (evaluate-outcome lt c.world c.device_id c.farm_id c.config c.value c.given s))
        (outcome-IsPaced key c _ s _ λ a e.
          let v = first_violation-Violates lt c.device_id c.config.sensor_type c.value _ a e in
          ap (λ (b : Alert F). (b.device_id, b.sensor_type)) v.3)

  -- The alerts after one at time `t` that is still the latest.
  abbrev After : Uuid × SensorType → List (Call F) → State → Type 0
  After key cs s =
      (t : Time)
      → 0 < t
      → s.last_action_time key ≡ some t
      → All (λ u. t + cooldown_ms ≤ u) (alert_times key cs s)

  alert_times_lem :
      (key : Uuid × SensorType) (cs : List (Call F)) (s : State)
      → All (λ (c : Call F). 0 < c.world.now) cs
      → IsSpaced (alert_times key cs s) × After key cs s
  unfolding alert_times
  alert_times_lem key [] s h = (tt, λ t p e. tt)
  alert_times_lem key (c ∷ cs) s h =
      let p = run_call-IsPaced key c s in
      let (spaced, after) = alert_times_lem key cs (run_call c s).0 h.1 in
      elim (Bool-cases (cooldown_key_eq key (key_of c) && alerted (run_call c s).1)) [
        | inl loud ↦
            let (rested, latest) = p.loud loud in
            let later = after c.world.now h.0 latest in
            rw loud (
              (later, spaced),
              λ t q e.
                  let far : t + cooldown_ms ≤ c.world.now = ground arith in
                  (far, All-from-le _ (c.world.now + cooldown_ms) _ (omega arith) later),
            )
        | inr quiet ↦ rw quiet (spaced, λ t q e. after t q (p.quiet quiet ∙ e))
      ]

  -- Two alerts for one sensor of one device are never less than the cooldown apart, in any sequence
  -- of calls for any devices and sensors, whatever else happened in between; the clock has to be
  -- past 0, and need not be monotone.
  pub alert_times-IsSpaced :
      (key : Uuid × SensorType) (cs : List (Call F)) (s : State)
      → All (λ (c : Call F). 0 < c.world.now) cs
      → IsSpaced (alert_times key cs s)
  alert_times-IsSpaced key cs s h = (alert_times_lem key cs s h).0
