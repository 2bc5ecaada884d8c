-- ===== src/Threshold/Effects.antt =====
-- The messages of `evaluate` in sensor/threshold.service.ts: when an alert must be logged, and whom a
-- push notification reaches.
use mathlib.Core.Path.{subst}
use mathlib.Core.Logic.{∥∥₁_elim}
use mathlib.Core.List.{Mem}
use mathlib.Core.List.Perm
use mathlib.Core.List.Memᴰ.{not-nil}
use qs_farm_be.Common.{
  ◌≡◌, ◌≢◌, ◌⊎◌, refl, sym, ap, ◌∙◌, Bool, true, false, Option, none, some, List, [], ◌∷◌, ◌++◌,
  arith, Memᴰ, All, All-mem, inl, inr, if◌then◌else◌, if-both,
}
use qs_farm_be.Domain.{Uuid}
use qs_farm_be.ConfigResolution.{ResolvedThreshold}
use qs_farm_be.Threshold.{
  State, World, Alert, Effect, log_alert, push_notification, broadcast_alert, is_active, is_cooling,
  thresholds_in_use, sort_thresholds, violation, get_farm_owner_id, raise_alert, after_alert_log,
  notify, dispatch_command, AlertDirection,
}
use qs_farm_be.Threshold.Sorting.{sort_thresholds_lem}
use qs_farm_be.Threshold.Scan.{
  Violates, Violates-violation, first_violation-none, first_violation-Violates,
}
use qs_farm_be.Threshold.AntiSpam.{marked, dispatched, on_violation_lem}
use qs_farm_be.Threshold.Cooldown.{Call, run_call}
use qs_farm_be.Threshold.Actions.{first_of_call, outcome_of_call, call-outcome, first_action}

module _ {F : Type 0} where
  mem-append_right : (e : Effect F) (es fs : List (Effect F)) → Memᴰ e fs → Memᴰ e (es ++ fs)
  mem-append_right e [] fs m = m
  mem-append_right e (x ∷ es) fs m = Memᴰ.tail (mem-append_right e es fs m)

  raise_alert-logs :
      (w : World) (f : Option Uuid) (a : Alert F) (s : State)
      → Memᴰ (log_alert a) (raise_alert w f a s).1
  unfolding raise_alert
  raise_alert-logs w f a s =
      mem-append_right (log_alert a) (dispatch_command w f a) _ (Memᴰ.head refl)

module _ {F : Type 0} (lt : F → F → Bool) where
  outcome_logs :
      (c : Call F) (s : State) (o : Option (Alert F))
      → o ≢ none
      → ((a : Alert F) → o ≡ some a → is_active s a.device_id a.action ≡ false)
      → ((a : Alert F)
          → o ≡ some a
          → is_cooling c.world.now (s.last_action_time (a.device_id, a.sensor_type)) ≡ false)
      → (a : Alert F) × Memᴰ (log_alert a) (outcome_of_call lt c s o).1
  outcome_logs c s none h i k = absurd (h refl)
  outcome_logs c s (some a) h i k = (
    a,
    subst (λ (r : State × List (Effect F)). Memᴰ (log_alert a) r.1)
        (sym (dispatched c.world c.farm_id a s (i a refl) (k a refl)))
        (raise_alert-logs c.world c.farm_id a (marked c.world a s)),
  )

  first_sensor :
      (c : Call F) (s : State) (a : Alert F)
      → first_of_call lt c s ≡ some a
      → a.sensor_type ≡ c.config.sensor_type
  first_sensor c s a e =
      let (t, m, v, same) =
        first_violation-Violates lt c.device_id c.config.sensor_type c.value
          (sort_thresholds (thresholds_in_use c.config c.given)) a e in
      ap (λ (b : Alert F). b.sensor_type) same

  first_of_violated :
      (c : Call F) (s : State) (t : ResolvedThreshold F)
      → Mem t (thresholds_in_use c.config c.given)
      → violation lt c.value t ≢ none
      → first_of_call lt c s ≢ none
  first_of_violated c s t m v e =
      let sorted = sort_thresholds (thresholds_in_use c.config c.given) in
      ∥∥₁_elim ((Perm.mem_iff (sort_thresholds_lem (thresholds_in_use c.config c.given)).0).1 m)
        (hlevel)
        λ listed.
          v (first_violation-none lt c.device_id c.config.sensor_type c.value sorted t e listed)

  -- A violation is not missed: if a threshold in use is violated, none of the actions in use is
  -- active for the device and the sensor does not cool down, then the call logs an alert.
  pub evaluate_logs :
      (c : Call F) (s : State) (t : ResolvedThreshold F) (dir : AlertDirection) (bound : F)
      → Mem t (thresholds_in_use c.config c.given)
      → Violates lt c.value t dir bound
      → ((u : ResolvedThreshold F)
          → Mem u (thresholds_in_use c.config c.given)
          → is_active s c.device_id u.action ≡ false)
      → is_cooling c.world.now (s.last_action_time (c.device_id, c.config.sensor_type)) ≡ false
      → (a : Alert F) × Memᴰ (log_alert a) (run_call lt c s).1
  evaluate_logs c s t dir bound m v idle rested =
      let some_first = first_of_violated c s t m (Violates-violation lt c.value t dir bound v) in
      let logged =
        outcome_logs c s (first_of_call lt c s) some_first
          (λ a e.
            let (found, own) = first_action lt c s a e in
            ∥∥₁_elim found (hlevel) λ (u, k, f, w). rw (own, f) (idle u k))
          (λ a e. rw ((first_action lt c s a e).1, first_sensor c s a e) rested) in
      (
        logged.0,
        subst (λ (r : State × List (Effect F)). Memᴰ (log_alert logged.0) r.1)
            (sym (call-outcome lt c s)) logged.1,
      )

-- The farm of a push notification, whose owner is not connected.
abbrev pub IsOffline : World → Option Uuid → State → Uuid → Type 0
IsOffline w farm_id s f =
    (farm_id ≡ some f)
    × ((u : Uuid) → (get_farm_owner_id w f s).1 ≡ some u → w.is_user_connected u ≡ false)

module _ {F : Type 0} where
  abbrev is_push : Effect F → Bool
  is_push (push_notification f a) = true
  is_push _ = false

  mem-append_cases :
      (e : Effect F) (es fs : List (Effect F)) → Memᴰ e (es ++ fs) → Memᴰ e es ⊎ Memᴰ e fs
  mem-append_cases e [] fs m = inr m
  mem-append_cases e (x ∷ es) fs (Memᴰ.head h) = inl (Memᴰ.head h)
  mem-append_cases e (x ∷ es) fs (Memᴰ.tail m) = elim (mem-append_cases e es fs m) [
    | inl k ↦ inl (Memᴰ.tail k)
    | inr k ↦ inr k
  ]

  dispatch_command-no_push :
      (w : World) (f : Option Uuid) (a : Alert F)
      → All (λ e. is_push e ≡ false) (dispatch_command w f a)
  unfolding dispatch_command
  dispatch_command-no_push w f a = ground arith

  pushed_inv :
      (online : Bool) (g f : Uuid) (b a : Alert F)
      → Memᴰ (push_notification f a) (if online then [] else push_notification g b ∷ [])
      → (online ≡ false) × (g ≡ f)
  pushed_inv true g f b a m = elim m [ ]
  pushed_inv false g f b a (Memᴰ.head e) = (refl, ground arith)
  pushed_inv false g f b a (Memᴰ.tail m) = elim m [ ]

  notify-IsOffline :
      (w : World) (farm_id : Option Uuid) (b : Alert F) (s : State) (f : Uuid) (a : Alert F)
      → Memᴰ (push_notification f a) (notify w farm_id b s).1
      → IsOffline w farm_id s f
  unfolding notify
  notify-IsOffline w none b s f a m = elim m [ ]
  notify-IsOffline w (some g) b s f a m =
      let (away, same) = pushed_inv _ g f b a m in (ap some same, λ u e. ground arith)

  after_alert_log-IsOffline :
      (w : World) (farm_id : Option Uuid) (b : Alert F) (s : State) (f : Uuid) (a : Alert F)
      → Memᴰ (push_notification f a) (after_alert_log w farm_id b s).1
      → IsOffline w farm_id s f
  unfolding after_alert_log
  after_alert_log-IsOffline w farm_id b s f a =
      if-both
        (λ (r : State × List (Effect F)).
          Memᴰ (push_notification f a) r.1 → IsOffline w farm_id s f)
        w.alert_ok
        (λ m. elim (mem-append_cases _ (notify w farm_id b s).1 _ m) [
          | inl pushed ↦ notify-IsOffline w farm_id b s f a pushed
          | inr cast ↦ cc (
              All-mem (λ e. is_push e ≡ false) (push_notification f a)
                (broadcast_alert farm_id b ∷ []) (refl, tt) cast)
        ])
        (λ m. absurd (not-nil m))

  raise_alert-IsOffline :
      (w : World) (farm_id : Option Uuid) (b : Alert F) (s : State) (f : Uuid) (a : Alert F)
      → Memᴰ (push_notification f a) (raise_alert w farm_id b s).1
      → IsOffline w farm_id s f
  unfolding raise_alert
  raise_alert-IsOffline w farm_id b s f a m =
      elim (mem-append_cases _ (dispatch_command w farm_id b) _ m) [
        | inl early ↦ cc (
            All-mem (λ e. is_push e ≡ false) (push_notification f a) _
              (dispatch_command-no_push w farm_id b) early)
        | inr late ↦ elim (mem-append_cases _ (log_alert b ∷ []) _ late) [
          | inl logged ↦ cc (
              All-mem (λ e. is_push e ≡ false) (push_notification f a) (log_alert b ∷ []) (refl, tt)
                logged)
          | inr after ↦ after_alert_log-IsOffline w farm_id b s f a after
        ]
      ]

  -- Marking an alert leaves the cache of owners alone.
  marked-owner :
      (w : World) (f : Uuid) (a : Alert F) (s : State)
      → (get_farm_owner_id w f (marked w a s)).1 ≡ (get_farm_owner_id w f s).1
  unfolding get_farm_owner_id
  marked-owner w f a s = ground arith

module _ {F : Type 0} (lt : F → F → Bool) where
  outcome-IsOffline :
      (c : Call F) (s : State) (o : Option (Alert F)) (f : Uuid) (a : Alert F)
      → Memᴰ (push_notification f a) (outcome_of_call lt c s o).1
      → IsOffline c.world c.farm_id s f
  outcome-IsOffline c s none f a m = elim m [ ]
  outcome-IsOffline c s (some b) f a m = elim (on_violation_lem c.world c.farm_id b s) [
    | inl e ↦
        absurd
          (not-nil (subst (λ (r : State × List (Effect F)). Memᴰ (push_notification f a) r.1) e m))
    | inr d ↦
        let (own, away) = raise_alert-IsOffline c.world c.farm_id b (marked c.world b s) f a (
          subst (λ (r : State × List (Effect F)). Memᴰ (push_notification f a) r.1)
            (dispatched c.world c.farm_id b s d.inactive d.rested) m) in
        (own, λ u e. away u (marked-owner c.world f b s ∙ e))
  ]

  -- A push notification goes only to the owner of the call's farm, and only while the owner that
  -- the cache or the database names is not connected.
  pub evaluate-IsOffline :
      (c : Call F) (s : State) (f : Uuid) (a : Alert F)
      → Memᴰ (push_notification f a) (run_call lt c s).1
      → IsOffline c.world c.farm_id s f
  evaluate-IsOffline c s f a m = outcome-IsOffline c s (first_of_call lt c s) f a (
      subst (λ (r : State × List (Effect F)). Memᴰ (push_notification f a) r.1)
        (call-outcome lt c s) m)
