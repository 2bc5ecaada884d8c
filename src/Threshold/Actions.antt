-- ===== src/Threshold/Actions.antt =====
-- The active actions of a device in sensor/threshold.service.ts, over two calls of `evaluate`.
use Prim.Native.String.{String}
use text.Mathlib.TextPositions.{eq_refl}
use text.Mathlib.TextEquality.{eq_iff}
use mathlib.Core.Path.{subst}
use mathlib.Core.Logic.{∥∥₁_elim}
use mathlib.Core.List.{Mem}
use mathlib.Core.List.Perm
use mathlib.Core.List.Memᴰ.{not-nil}
use qs_farm_be.Common.{
  ◌≡◌, ◌≢◌, refl, sym, ap, ◌∙◌, Bool, true, false, Option, none, some, List, [], ◌∷◌, map, arith,
  Memᴰ, Option-cases, inl, inr, Dict,
}
use qs_farm_be.Domain.{Uuid}
use qs_farm_be.ConfigResolution.{ResolvedThreshold}
use qs_farm_be.Threshold.{
  State, World, Alert, Effect, on_violation, is_active, clear_states_for_sensor, delete_actions,
  thresholds_in_use, sort_thresholds, violation, log_alert,
}
use qs_farm_be.Threshold.Sorting.{sort_thresholds_lem}
use qs_farm_be.Threshold.Scan.{
  outcome, first, evaluate-outcome, first_violation-Violates, outcome-first, Violates-violation,
}
use qs_farm_be.Threshold.AntiSpam.{IsDispatched, on_violation_lem}
use qs_farm_be.Threshold.Cooldown.{Call, run_call}

delete_actions-keeps_none :
    (actions : List String) (m : Dict String Bool) (x : String)
    → m x ≡ none
    → delete_actions actions m x ≡ none
unfolding delete_actions
delete_actions-keeps_none [] m x h = h
delete_actions-keeps_none (a ∷ rest) m x h = delete_actions-keeps_none rest _ x (ground arith)

delete_actions-mem :
    (x : String) (actions : List String) (m : Dict String Bool)
    → Memᴰ x actions
    → delete_actions actions m x ≡ none
unfolding delete_actions
delete_actions-mem x actions m (Memᴰ.head {x = a} {xs = rest} e) =
    delete_actions-keeps_none rest _ x (ground (arith, eq_iff x a))
delete_actions-mem x actions m (Memᴰ.tail {x = a} {xs = rest} k) = delete_actions-mem x rest _ k

clear_states-inactive :
    (d : Uuid) (actions : List String) (s : State) (x : String)
    → Memᴰ x actions
    → is_active (clear_states_for_sensor d actions s) d x ≡ false
unfolding clear_states_for_sensor
clear_states-inactive d actions s x k = elim (Option-cases (s.device_states d)) [
  | inl n ↦ ground arith
  | inr (m, e) ↦ ground (arith, delete_actions-mem x actions m k)
]

clear_states-other :
    (d e : Uuid) (actions : List String) (s : State)
    → e ≢ d
    → (clear_states_for_sensor d actions s).device_states e ≡ s.device_states e
unfolding clear_states_for_sensor
clear_states-other d e actions s h = ground arith

map-mem :
    {F : Type 0} (t : ResolvedThreshold F) (ts : List (ResolvedThreshold F))
    → Memᴰ t ts
    → Memᴰ t.action (map (λ (u : ResolvedThreshold F). u.action) ts)
map-mem t ts (Memᴰ.head e) = Memᴰ.head (ap (λ (u : ResolvedThreshold _). u.action) e)
map-mem t ts (Memᴰ.tail {xs = us} m) = Memᴰ.tail (map-mem t us m)

module _ {F : Type 0} (lt : F → F → Bool) where
  abbrev pub first_of_call : Call F → State → Option (Alert F)
  first_of_call c s = first lt c.world c.device_id c.farm_id c.config c.value c.given s

  abbrev pub outcome_of_call : Call F → State → Option (Alert F) → State × List (Effect F)
  outcome_of_call c s o =
      outcome lt c.device_id c.config.sensor_type c.value c.world c.farm_id
        (map (λ (t : ResolvedThreshold F). t.action) (thresholds_in_use c.config c.given)) s o

  pub call-outcome :
      (c : Call F) (s : State) → run_call lt c s ≡ outcome_of_call c s (first_of_call c s)
  call-outcome c s = evaluate-outcome lt c.world c.device_id c.farm_id c.config c.value c.given s

  pub first_action :
      (c : Call F) (s : State) (a : Alert F)
      → first_of_call c s ≡ some a
      → ∥ (
          (t : ResolvedThreshold F) × Mem t (thresholds_in_use c.config c.given)
          × (a.action ≡ t.action)
          × (violation lt c.value t ≢ none)) ∥₁
        × (a.device_id ≡ c.device_id)
  first_action c s a e =
      let (t, m, v, same) =
        first_violation-Violates lt c.device_id c.config.sensor_type c.value
          (sort_thresholds (thresholds_in_use c.config c.given)) a e in
      (
        ∣ (
          t,
          (Perm.mem_iff (sort_thresholds_lem (thresholds_in_use c.config c.given)).0).0 ∣ m ∣₁,
          ap (λ (b : Alert F). b.action) same,
          Violates-violation lt c.value t a.direction a.threshold v,
        ) ∣₁,
        ap (λ (b : Alert F). b.device_id) same,
      )

  -- A dispatched action is active.
  dispatched_active :
      (w : World) (f : Option Uuid) (a : Alert F) (s : State)
      → IsDispatched w f a s
      → is_active (on_violation w f a s).0 a.device_id a.action ≡ true
  dispatched_active w f a s d =
      let e = ap (λ (m : Uuid → Option (Dict String Bool)). m a.device_id) d.states in
      ground (arith, eq_refl a.action)

  outcome_active :
      (c : Call F) (s : State) (o : Option (Alert F)) (a : Alert F)
      → ((b : Alert F) → o ≡ some b → b.device_id ≡ c.device_id)
      → Memᴰ (log_alert a) (outcome_of_call c s o).1
      → is_active (outcome_of_call c s o).0 c.device_id a.action ≡ true
  outcome_active c s none a h m = elim m [ ]
  outcome_active c s (some b) a h m =
      let carried : some b ≡ some a =
        outcome-first lt c.device_id c.config.sensor_type c.value c.world c.farm_id
          (map (λ (t : ResolvedThreshold F). t.action) (thresholds_in_use c.config c.given)) s
          (some b) (log_alert a) m in
      let same : b ≡ a = cc in
      elim (on_violation_lem c.world c.farm_id b s) [
        | inl e ↦
            absurd (not-nil (subst (λ (r : State × List (Effect F)). Memᴰ (log_alert a) r.1) e m))
        | inr d ↦
            let active = dispatched_active c.world c.farm_id b s d in
            subst
              (λ (x : String).
                is_active (on_violation c.world c.farm_id b s).0 c.device_id x ≡ true)
              (ap (λ (x : Alert F). x.action) same)
              (subst
                (λ (x : Uuid). is_active (on_violation c.world c.farm_id b s).0 x b.action ≡ true)
                (h b refl) active)
      ]

  -- After a call that logs an alert, the alert's action is active for the device.
  active_after :
      (c : Call F) (s : State) (a : Alert F)
      → Memᴰ (log_alert a) (run_call lt c s).1
      → is_active (run_call lt c s).0 c.device_id a.action ≡ true
  active_after c s a m =
      let e = call-outcome c s in
      subst (λ (r : State × List (Effect F)). is_active r.0 c.device_id a.action ≡ true) (sym e)
        (outcome_active c s (first_of_call c s) a (λ b f. (first_action c s b f).1)
          (subst (λ (r : State × List (Effect F)). Memᴰ (log_alert a) r.1) e m))

  blocked :
      (c : Call F) (s : State) (o : Option (Alert F))
      → ((b : Alert F) → o ≡ some b → is_active s b.device_id b.action ≡ true)
      → (outcome_of_call c s o).1 ≡ []
  blocked c s none h = refl
  blocked c s (some b) h = elim (on_violation_lem c.world c.farm_id b s) [
    | inl e ↦ ap (λ (r : State × List (Effect F)). r.1) e
    | inr d ↦ cc (h b refl, d.inactive)
  ]

  -- After a call that logs an alert, the next call for the same device, for any of its sensors, sends
  -- and logs nothing if all its thresholds in use carry the action of that alert.
  pub same_action_blocked :
      (c c' : Call F) (s : State) (a : Alert F)
      → Memᴰ (log_alert a) (run_call lt c s).1
      → c'.device_id ≡ c.device_id
      → ((t : ResolvedThreshold F)
          → Mem t (thresholds_in_use c'.config c'.given)
          → t.action ≡ a.action)
      → (run_call lt c' (run_call lt c s).0).1 ≡ []
  same_action_blocked c c' s a m d h =
      let s' = (run_call lt c s).0 in
      let active = active_after c s a m in
      ap (λ (r : State × List (Effect F)). r.1) (call-outcome c' s')
      ∙ blocked c' s' (first_of_call c' s') λ b e.
        let (found, own) = first_action c' s' b e in
        ∥∥₁_elim found (hlevel) λ (t, k, f, v). rw (own, d, f, h t k) active

  calm_call :
      (c : Call F) (s : State)
      → ((t : ResolvedThreshold F)
          → Mem t (thresholds_in_use c.config c.given)
          → violation lt c.value t ≡ none)
      → let (s', effects) = run_call lt c s in
        (effects ≡ [])
        × ((t : ResolvedThreshold F)
            → Mem t (thresholds_in_use c.config c.given)
            → is_active s' c.device_id t.action ≡ false)
        × ((e : Uuid) → e ≢ c.device_id → s'.device_states e ≡ s.device_states e)
  calm_call c s h =
      let actions =
        map (λ (t : ResolvedThreshold F). t.action) (thresholds_in_use c.config c.given) in
      let calm : first_of_call c s ≡ none = elim (Option-cases (first_of_call c s)) [
        | inl n ↦ n
        | inr (a, e) ↦ absurd (∥∥₁_elim (first_action c s a e).0 (hlevel) λ (t, m, f, v). v (h t m))
      ] in
      let e = call-outcome c s ∙ ap (outcome_of_call c s) calm in
      (
        ap (λ (r : State × List (Effect F)). r.1) e,
        λ t m. ∥∥₁_elim m (hlevel) λ listed.
            subst (λ (r : State × List (Effect F)). is_active r.0 c.device_id t.action ≡ false)
              (sym e) (clear_states-inactive c.device_id actions s t.action (map-mem t _ listed)),
        λ d n.
            subst (λ (r : State × List (Effect F)). r.0.device_states d ≡ s.device_states d) (sym e)
              (clear_states-other c.device_id d actions s n),
      )

  -- A reading that violates no threshold in use sends and logs nothing; then no action of a
  -- threshold in use is active for the device, whichever sensor raised it, and the actions of other
  -- devices are as they were.
  pub evaluate_clears :
      (c : Call F) (s : State)
      → ((t : ResolvedThreshold F)
          → Mem t (thresholds_in_use c.config c.given)
          → violation lt c.value t ≡ none)
      → (t : ResolvedThreshold F) → Mem t (thresholds_in_use c.config c.given)
      → (e : Uuid) → e ≢ c.device_id
      → let (s', effects) = run_call lt c s in
        (effects ≡ [])
        × (is_active s' c.device_id t.action ≡ false)
        × (s'.device_states e ≡ s.device_states e)
  evaluate_clears c s h t m e n =
      let (silent, cleared, others) = calm_call c s h in (silent, cleared t m, others e n)
