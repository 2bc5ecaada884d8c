-- ===== src/Threshold/AntiSpam.antt =====
-- The anti-spam state of sensor/threshold.service.ts: the cooldown of a sensor and the active
-- actions of a device, over calls of `evaluate`.
use qs_farm_be.Common.{
  ◌≡◌, ◌⊎◌, refl, ap, Bool, true, false, ◌||◌, Option, none, some, List, [], ◌∷◌, ◌++◌, arith,
  Bool-cases, inl, inr, ◌∙◌,
}
use qs_farm_be.Domain.{Uuid}
use qs_farm_be.Threshold.{
  mark_dispatched, State, World, Alert, Effect, log_alert, on_violation, notify, raise_alert,
  after_alert_log, should_dispatch, is_active, is_cooling, get_farm_owner_id, dispatch_command,
}

get_farm_owner_id-last :
    (w : World) (f : Uuid) (s : State)
    → (get_farm_owner_id w f s).0.last_action_time ≡ s.last_action_time
unfolding get_farm_owner_id
get_farm_owner_id-last w f s = ground arith

get_farm_owner_id-states :
    (w : World) (f : Uuid) (s : State) → (get_farm_owner_id w f s).0.device_states ≡ s.device_states
unfolding get_farm_owner_id
get_farm_owner_id-states w f s = ground arith

module _ {F : Type 0} where
  abbrev is_log_alert : Effect F → Bool
  is_log_alert (log_alert a) = true
  is_log_alert _ = false

  -- An alert was logged.
  abbrev pub alerted : List (Effect F) → Bool
  alerted [] = false
  alerted (e ∷ es) = is_log_alert e || alerted es

  alerted-append :
      (es : List (Effect F)) (a : Alert F) (fs : List (Effect F))
      → alerted (es ++ log_alert a ∷ fs) ≡ true
  alerted-append [] a fs = refl
  alerted-append (e ∷ es) a fs = ground (arith, alerted-append es a fs)

  after_alert_log-keeps :
      (w : World) (f : Option Uuid) (a : Alert F) (s : State)
      → ((after_alert_log w f a s).0.last_action_time ≡ s.last_action_time)
        × ((after_alert_log w f a s).0.device_states ≡ s.device_states)
  unfolding after_alert_log notify
  after_alert_log-keeps w none a s = ground arith
  after_alert_log-keeps w (some f) a s =
      ground (arith, get_farm_owner_id-last w f s, get_farm_owner_id-states w f s)

  abbrev pub marked : World → Alert F → State → State
  marked w a s = mark_dispatched w.now a.device_id a.sensor_type a.action s

  -- What is known when a violation is dispatched.
  pub record IsDispatched (w : World) (f : Option Uuid) (a : Alert F) (s : State) : Type 0 where
    pub logged : alerted (on_violation w f a s).1 ≡ true
    pub inactive : is_active s a.device_id a.action ≡ false
    pub rested : is_cooling w.now (s.last_action_time (a.device_id, a.sensor_type)) ≡ false
    pub times : (on_violation w f a s).0.last_action_time ≡ (marked w a s).last_action_time
    pub states : (on_violation w f a s).0.device_states ≡ (marked w a s).device_states

  pub dispatched :
      (w : World) (f : Option Uuid) (a : Alert F) (s : State)
      → is_active s a.device_id a.action ≡ false
      → is_cooling w.now (s.last_action_time (a.device_id, a.sensor_type)) ≡ false
      → on_violation w f a s ≡ raise_alert w f a (marked w a s)
  unfolding on_violation should_dispatch
  dispatched w f a s idle rested = ground arith

  raise_alert-alerted :
      (w : World) (f : Option Uuid) (a : Alert F) (s : State)
      → alerted (raise_alert w f a s).1 ≡ true
  unfolding raise_alert
  raise_alert-alerted w f a s = alerted-append (dispatch_command w f a) a _

  raise_alert-keeps :
      (w : World) (f : Option Uuid) (a : Alert F) (s : State)
      → ((raise_alert w f a s).0.last_action_time ≡ s.last_action_time)
        × ((raise_alert w f a s).0.device_states ≡ s.device_states)
  unfolding raise_alert
  raise_alert-keeps w f a s = after_alert_log-keeps w f a s

  on_violation-IsDispatched :
      (w : World) (f : Option Uuid) (a : Alert F) (s : State)
      → is_active s a.device_id a.action ≡ false
      → is_cooling w.now (s.last_action_time (a.device_id, a.sensor_type)) ≡ false
      → IsDispatched w f a s
  on_violation-IsDispatched w f a s idle rested =
      let e = dispatched w f a s idle rested in
      let k = raise_alert-keeps w f a (marked w a s) in
      record {
        logged = ap (λ (r : State × List (Effect F)). alerted r.1) e ∙ raise_alert-alerted w f a _;
        inactive = idle;
        rested = rested;
        times = ap (λ (r : State × List (Effect F)). r.0.last_action_time) e ∙ k.0;
        states = ap (λ (r : State × List (Effect F)). r.0.device_states) e ∙ k.1;
      }

  -- A violation changes nothing, or it is dispatched.
  pub on_violation_lem :
      (w : World) (f : Option Uuid) (a : Alert F) (s : State)
      → (on_violation w f a s ≡ (s, [])) ⊎ IsDispatched w f a s
  unfolding on_violation should_dispatch
  on_violation_lem w f a s = elim (Bool-cases (is_active s a.device_id a.action)) [
    | inl active ↦ inl (ground arith)
    | inr idle ↦
        elim (Bool-cases (is_cooling w.now (s.last_action_time (a.device_id, a.sensor_type)))) [
          | inl cooling ↦ inl (ground arith)
          | inr rested ↦ inr (on_violation-IsDispatched w f a s idle rested)
        ]
  ]
