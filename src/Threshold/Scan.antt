-- ===== src/Threshold/Scan.antt =====
-- The first violation that the loop of `evaluate` in sensor/threshold.service.ts meets, and what the
-- call sends and logs about it.
use Prim.Native.String.{String}
use mathlib.Core.Path.{subst}
use mathlib.Core.List.{Mem}
use mathlib.Core.Logic.{∥∥₁_elim}
use mathlib.Core.List.Perm
use qs_farm_be.Common.{
  ap, ◌≡◌, ◌≢◌, refl, sym, Bool, true, false, Option, none, some, List, [], ◌∷◌, ◌++◌, map, arith,
  Memᴰ, All, All-mem, Bool-cases, Option-cases, inl, inr, if-both,
}
use qs_farm_be.Domain.{Uuid, SensorType, critical}
use qs_farm_be.ConfigResolution.{ResolvedThreshold}
use qs_farm_be.Threshold.{
  State, World, Alert, Effect, SensorConfig, publish, broadcast_command, log_command, log_alert,
  push_notification, broadcast_alert, AlertDirection, above, below, violation, alert_of,
  on_violation, scan, evaluate, thresholds_in_use, sort_thresholds, dispatch_command, notify,
  raise_alert, after_alert_log, should_dispatch, is_critical, clear_states_for_sensor,
}
use qs_farm_be.Threshold.Sorting.{IsCriticalFirst, sort_thresholds_lem}

module _ {F : Type 0} where
  -- The alert that an effect carries.
  abbrev pub alert_in : Effect F → Alert F
  alert_in (publish g s a) = a
  alert_in (broadcast_command f a) = a
  alert_in (log_command b a) = a
  alert_in (log_alert a) = a
  alert_in (push_notification f a) = a
  alert_in (broadcast_alert f a) = a

  abbrev Carries : Alert F → List (Effect F) → Type 0
  Carries a = All (λ e. alert_in e ≡ a)

  Carries-append :
      (a : Alert F) (es fs : List (Effect F)) → Carries a es → Carries a fs → Carries a (es ++ fs)
  Carries-append a [] fs h k = k
  Carries-append a (e ∷ es) fs h k = (h.0, Carries-append a es fs h.1 k)

  dispatch_command-Carries :
      (w : World) (f : Option Uuid) (a : Alert F) → Carries a (dispatch_command w f a)
  unfolding dispatch_command
  dispatch_command-Carries w f a = ground arith

  notify-Carries :
      (w : World) (f : Option Uuid) (a : Alert F) (s : State) → Carries a (notify w f a s).1
  unfolding notify
  notify-Carries w none a s = tt
  notify-Carries w (some f) a s = ground arith

  after_alert_log-Carries :
      (w : World) (f : Option Uuid) (a : Alert F) (s : State)
      → Carries a (after_alert_log w f a s).1
  unfolding after_alert_log
  after_alert_log-Carries w f a s =
      if-both (λ (r : State × List (Effect F)). Carries a r.1) w.alert_ok
        (Carries-append a (notify w f a s).1 _ (notify-Carries w f a s) (refl, tt)) tt

  on_violation-Carries :
      (w : World) (f : Option Uuid) (a : Alert F) (s : State) → Carries a (on_violation w f a s).1
  unfolding on_violation raise_alert
  on_violation-Carries w f a s =
      let s' = (should_dispatch w.now a.device_id a.sensor_type a.action s).0 in
      if-both (λ (r : State × List (Effect F)). Carries a r.1)
        (should_dispatch w.now a.device_id a.sensor_type a.action s).1
        (Carries-append a (dispatch_command w f a) _ (dispatch_command-Carries w f a)
          (refl, after_alert_log-Carries w f a s'))
        tt

  module _ (lt : F → F → Bool) where
    -- The direction and the bound of a violation agree with the threshold and the value.
    abbrev pub Violates : F → ResolvedThreshold F → AlertDirection → F → Type 0
    Violates value t below bound = (t.min_threshold ≡ some bound) × (lt value bound ≡ true)
    Violates value t above bound = (t.max_threshold ≡ some bound) × (lt bound value ≡ true)

    violation-Violates :
        (value : F) (t : ResolvedThreshold F) (dir : AlertDirection) (bound : F)
        → violation lt value t ≡ some (dir, bound)
        → Violates value t dir bound
    unfolding violation
    violation-Violates value t above bound h = ground arith
    violation-Violates value t below bound h = ground arith

    pub Violates-violation :
        (value : F) (t : ResolvedThreshold F) (dir : AlertDirection) (bound : F)
        → Violates value t dir bound
        → violation lt value t ≢ none
    unfolding violation
    Violates-violation value t above bound h = ground arith
    Violates-violation value t below bound h = ground arith

    module _ (device_id : Uuid) (sensor_type : SensorType) (value : F) where
      -- The first violation in a list, as the alert that is raised for it.
      abbrev pub first_violation : List (ResolvedThreshold F) → Option (Alert F)
      first_violation [] = none
      first_violation (t ∷ ts) = elim (violation lt value t) [
        | none ↦ first_violation ts
        | some (dir, bound) ↦ some (alert_of device_id sensor_type value t dir bound)
      ]

      -- What `evaluate` does about its first violation.
      abbrev pub outcome :
          World → Option Uuid → List String → State → Option (Alert F) → State × List (Effect F)
      outcome w farm_id actions s none = (clear_states_for_sensor device_id actions s, [])
      outcome w farm_id actions s (some a) = on_violation w farm_id a s

      pub scan-first_violation :
          (w : World) (farm_id : Option Uuid) (actions : List String)
          (ts : List (ResolvedThreshold F)) (s : State)
          → scan lt w device_id farm_id sensor_type value actions ts s
            ≡ outcome w farm_id actions s (first_violation ts)
      unfolding scan
      scan-first_violation w farm_id actions [] s = refl
      scan-first_violation w farm_id actions (t ∷ ts) s =
          ground (arith, scan-first_violation w farm_id actions ts s)

      pub first_violation-Violates :
          (ts : List (ResolvedThreshold F)) (a : Alert F)
          → first_violation ts ≡ some a
          → (t : ResolvedThreshold F) × Memᴰ t ts
            × Violates value t a.direction a.threshold
            × (a ≡ alert_of device_id sensor_type value t a.direction a.threshold)
      first_violation-Violates [] a h = cc
      first_violation-Violates (t ∷ ts) a h = elim (Option-cases (violation lt value t)) [
        | inl n ↦
            let (u, m, v, e) = first_violation-Violates ts a (ground arith) in
            (u, Memᴰ.tail m, v, e)
        | inr ((dir, bound), f) ↦
            let same : alert_of device_id sensor_type value t dir bound ≡ a = ground arith in
            (
              t,
              Memᴰ.head refl,
              subst (λ (b : Alert F). Violates value t b.direction b.threshold) same
                  (violation-Violates value t dir bound f),
              ground arith,
            )
      ]

      pub first_violation-none :
          (ts : List (ResolvedThreshold F)) (t : ResolvedThreshold F)
          → first_violation ts ≡ none
          → Memᴰ t ts
          → violation lt value t ≡ none
      first_violation-none [] t h m = elim m [ ]
      first_violation-none (u ∷ ts) t h (Memᴰ.head e) = rw e (ground arith)
      first_violation-none (u ∷ ts) t h (Memᴰ.tail m) = first_violation-none ts t (ground arith) m

      -- The head of a sorted list is critical if any member is.
      critical_head :
          (u : ResolvedThreshold F) (ts : List (ResolvedThreshold F)) (t : ResolvedThreshold F)
          → IsCriticalFirst (u ∷ ts)
          → Memᴰ t (u ∷ ts)
          → is_critical t.level ≡ true
          → is_critical u.level ≡ true
      critical_head u ts t h (Memᴰ.head e) c =
          subst (λ (x : ResolvedThreshold F). is_critical x.level ≡ true) e c
      critical_head u ts t h (Memᴰ.tail m) c = elim (Bool-cases (is_critical u.level)) [
        | inl good ↦ good
        | inr w ↦
            let k =
              All-mem (λ (x : ResolvedThreshold F). is_critical x.level ≡ false) t ts (h.0 w) m in
            cc
      ]

      first_violation_critical :
          (ts : List (ResolvedThreshold F)) (t : ResolvedThreshold F) (a : Alert F)
          → IsCriticalFirst ts
          → is_critical t.level ≡ true
          → violation lt value t ≢ none
          → first_violation ts ≡ some a
          → Memᴰ t ts
          → is_critical a.level ≡ true
      first_violation_critical [] t a h c v e m = elim m [ ]
      first_violation_critical (u ∷ ts) t a h c v e (Memᴰ.head same) =
          elim (Option-cases (violation lt value u)) [
            | inr (b, f) ↦ ground (arith, critical_head u ts t h (Memᴰ.head same) c)
            | inl n ↦ absurd (v (rw same n))
          ]
      first_violation_critical (u ∷ ts) t a h c v e (Memᴰ.tail m) =
          elim (Option-cases (violation lt value u)) [
            | inr (b, f) ↦ ground (arith, critical_head u ts t h (Memᴰ.tail m) c)
            | inl n ↦ first_violation_critical ts t a h.1 c v (ground arith) m
          ]

      pub outcome-first :
          (w : World) (farm_id : Option Uuid) (actions : List String) (s : State)
          (o : Option (Alert F)) (e : Effect F)
          → Memᴰ e (outcome w farm_id actions s o).1
          → o ≡ some (alert_in e)
      outcome-first w farm_id actions s none e m = elim m [ ]
      outcome-first w farm_id actions s (some a) e m =
          ap some (sym (All-mem (λ x. alert_in x ≡ a) e _ (on_violation-Carries w farm_id a s) m))

    module _ (w : World) (device_id : Uuid) (farm_id : Option Uuid) (config : SensorConfig F)
        (value : F) (given : Option (List (ResolvedThreshold F))) (s : State) where
      abbrev pub in_use : List (ResolvedThreshold F)
      in_use = thresholds_in_use config given

      abbrev pub first : Option (Alert F)
      first = first_violation device_id config.sensor_type value (sort_thresholds in_use)

      pub evaluate-outcome :
          evaluate lt w device_id farm_id config value given s
          ≡ outcome device_id config.sensor_type value w farm_id
              (map (λ (t : ResolvedThreshold F). t.action) in_use)
              s
              first
      unfolding evaluate
      evaluate-outcome = scan-first_violation device_id config.sensor_type value w farm_id _ _ s

      pub effect-first :
          (e : Effect F)
          → Memᴰ e (evaluate lt w device_id farm_id config value given s).1
          → first ≡ some (alert_in e)
      effect-first e m =
          outcome-first device_id config.sensor_type value w farm_id _ s first e
            (subst (λ (r : State × List (Effect F)). Memᴰ e r.1) evaluate-outcome m)

      -- Whatever `evaluate` sends or logs is about one threshold in use that the value violates, on
      -- the side and at the bound that the message names.
      pub evaluate-Violates :
          (e : Effect F)
          → Memᴰ e (evaluate lt w device_id farm_id config value given s).1
          → let a = alert_in e in
            ∥ (
              (t : ResolvedThreshold F) × Mem t (thresholds_in_use config given)
              × Violates value t a.direction a.threshold
              × (a ≡ alert_of device_id config.sensor_type value t a.direction a.threshold)) ∥₁
      evaluate-Violates e m =
          let (t, k, v, same) =
            first_violation-Violates device_id config.sensor_type value (sort_thresholds in_use)
              (alert_in e) (effect-first e m) in
          ∣ (t, (Perm.mem_iff (sort_thresholds_lem in_use).0).0 ∣ k ∣₁, v, same) ∣₁

      -- Where a critical threshold in use is violated, nothing is sent or logged about a warning.
      pub evaluate_critical :
          (t : ResolvedThreshold F) (dir : AlertDirection) (bound : F) (e : Effect F)
          → Mem t (thresholds_in_use config given)
          → t.level ≡ critical
          → Violates value t dir bound
          → Memᴰ e (evaluate lt w device_id farm_id config value given s).1
          → is_critical (alert_in e).level ≡ true
      evaluate_critical t dir bound e m c v k =
          ∥∥₁_elim ((Perm.mem_iff (sort_thresholds_lem in_use).0).1 m) (hlevel) λ listed.
            first_violation_critical device_id config.sensor_type value (sort_thresholds in_use) t
              (alert_in e) (sort_thresholds_lem in_use).1 (ground arith)
              (Violates-violation value t dir bound v) (effect-first e k) listed
