-- ===== src/Threshold/Examples.antt =====
-- One pressure sensor whose owner is offline, for sensor/threshold.service.ts.
use mathlib.Core.List.{Mem}
use mathlib.Core.List.Memᴰ.{not-nil}
use mathlib.Core.Logic.{∥∥₁_elim}
use text.Mathlib.TextEquality.{eq_iff}
use qs_farm_be.Common.{ℕ, ◌≡◌, refl, true, false, none, some, [], ◌∷◌, Memᴰ, arith, empty, ltb}
use qs_farm_be.Domain.{warning, critical, water_pressure, new_device}
use qs_farm_be.ConfigResolution.{ResolvedThreshold}
use qs_farm_be.Threshold.{
  State, World, Alert, SensorConfig, publish, broadcast_command, log_command, log_alert,
  push_notification, broadcast_alert, above, evaluate, thresholds_in_use, sort_thresholds,
  is_critical, is_active, alert_of, scan, violation, on_violation, should_dispatch, raise_alert,
  dispatch_command, after_alert_log, notify, get_farm_owner_id, sort_from, insert_sorted,
  compare_levels, sensor_reason,
}
use qs_farm_be.Threshold.Scan.{Violates, evaluate-Violates, evaluate_critical}
use qs_farm_be.Threshold.Cooldown.{Call, run_call, alert_times, IsSpaced, alert_times-IsSpaced}
use qs_farm_be.Threshold.Actions.{same_action_blocked, evaluate_clears}
use qs_farm_be.Threshold.Effects.{IsOffline, evaluate_logs, evaluate-IsOffline}

abbrev fresh : State
fresh = record { device_states = empty; last_action_time = empty; farm_owner_cache = empty }

abbrev world : World
world = record {
  now = 100000;
  device = some (record (new_device 1) { serial = some 55 });
  farm_owner = λ f. some 9;
  is_user_connected = λ u. false;
  publish_ok = true;
  log_ok = true;
  alert_ok = true;
}

abbrev slow : ResolvedThreshold ℕ
slow = record {
  min_threshold = none;
  max_threshold = some 60;
  action = "ALERT_ONLY";
  level = warning;
}

abbrev burst : ResolvedThreshold ℕ
burst = record {
  min_threshold = some 5;
  max_threshold = some 90;
  action = "PUMP_OFF";
  level = critical;
}

abbrev config : SensorConfig ℕ
config = record { sensor_type = water_pressure; thresholds = none }

abbrev reading : ℕ → Call ℕ
reading v = record {
  world = world;
  device_id = 1;
  farm_id = some 3;
  config = config;
  value = v;
  given = some (slow ∷ burst ∷ []);
}

abbrev alarm : Alert ℕ
alarm = alert_of 1 water_pressure 95 burst above 90

evaluate_test :
    (run_call ltb (reading 95) fresh).1
    ≡ publish none (some 55) alarm
      ∷ broadcast_command (some 3) alarm
      ∷ log_command true alarm
      ∷ log_alert alarm
      ∷ push_notification 3 alarm
      ∷ broadcast_alert (some 3) alarm
      ∷ []
unfolding evaluate scan violation on_violation should_dispatch raise_alert dispatch_command
    after_alert_log notify get_farm_owner_id sort_thresholds sort_from insert_sorted compare_levels
    thresholds_in_use sensor_reason
evaluate_test = refl

logged : Memᴰ (log_alert alarm) (run_call ltb (reading 95) fresh).1
unfolding evaluate scan violation on_violation should_dispatch raise_alert dispatch_command
    after_alert_log notify get_farm_owner_id sort_thresholds sort_from insert_sorted compare_levels
    thresholds_in_use sensor_reason
logged = Memᴰ.tail (Memᴰ.tail (Memᴰ.tail (Memᴰ.head refl)))

pushed : Memᴰ (push_notification 3 alarm) (run_call ltb (reading 95) fresh).1
unfolding evaluate scan violation on_violation should_dispatch raise_alert dispatch_command
    after_alert_log notify get_farm_owner_id sort_thresholds sort_from insert_sorted compare_levels
    thresholds_in_use sensor_reason
pushed = Memᴰ.tail (Memᴰ.tail (Memᴰ.tail (Memᴰ.tail (Memᴰ.head refl))))

burst_in_use : Mem burst (thresholds_in_use config (some (slow ∷ burst ∷ [])))
unfolding thresholds_in_use
burst_in_use = ∣ Memᴰ.tail (Memᴰ.head refl) ∣₁

abbrev only_burst : Call ℕ
only_burst = record (reading 95) { given = some (burst ∷ []) }

burst_action :
    (t : ResolvedThreshold ℕ)
    → Mem t (thresholds_in_use config (some (burst ∷ [])))
    → t.action ≡ "PUMP_OFF"
unfolding thresholds_in_use
burst_action t m =
    (eq_iff t.action "PUMP_OFF").0 (
      ∥∥₁_elim m (hlevel)
        λ k. elim k [ Memᴰ.head e ↦ rw e refl | Memᴰ.tail j ↦ absurd (not-nil j) ])

calm :
    (t : ResolvedThreshold ℕ)
    → Mem t (thresholds_in_use config (some (slow ∷ burst ∷ [])))
    → violation ltb 50 t ≡ none
unfolding thresholds_in_use violation
calm t m = ∥∥₁_elim m (hlevel) λ k. elim k [
  | Memᴰ.head e ↦ rw e refl
  | Memᴰ.tail (Memᴰ.head e) ↦ rw e refl
  | Memᴰ.tail (Memᴰ.tail j) ↦ absurd (not-nil j)
]

idle :
    (t : ResolvedThreshold ℕ)
    → Mem t (thresholds_in_use config (some (slow ∷ burst ∷ [])))
    → is_active fresh 1 t.action ≡ false
idle t m = refl

evaluate-Violates_example : ∥ (
    (t : ResolvedThreshold ℕ) × Mem t (thresholds_in_use config (some (slow ∷ burst ∷ [])))
    × Violates ltb 95 t above 90
    × (alarm ≡ alert_of 1 water_pressure 95 t above 90)) ∥₁
evaluate-Violates_example =
    evaluate-Violates ltb world 1 (some 3) config 95 (some (slow ∷ burst ∷ [])) fresh
      (log_alert alarm) logged

evaluate_critical_example : is_critical alarm.level ≡ true
evaluate_critical_example =
    evaluate_critical ltb world 1 (some 3) config 95 (some (slow ∷ burst ∷ [])) fresh burst above 90
      (log_alert alarm) burst_in_use refl (refl, refl) logged

alert_times-IsSpaced_example :
    IsSpaced (alert_times ltb (1, water_pressure) (reading 95 ∷ reading 50 ∷ reading 95 ∷ []) fresh)
alert_times-IsSpaced_example =
    alert_times-IsSpaced ltb (1, water_pressure) (reading 95 ∷ reading 50 ∷ reading 95 ∷ []) fresh
      (omega arith, (omega arith, (omega arith, tt)))

same_action_blocked_example : (run_call ltb only_burst (run_call ltb (reading 95) fresh).0).1 ≡ []
same_action_blocked_example =
    same_action_blocked ltb (reading 95) only_burst fresh alarm logged refl burst_action

evaluate_clears_example :
    let (s', effects) = run_call ltb (reading 50) fresh in
    (effects ≡ [])
    × (is_active s' 1 "PUMP_OFF" ≡ false)
    × (s'.device_states 2 ≡ fresh.device_states 2)
evaluate_clears_example =
    evaluate_clears ltb (reading 50) fresh calm burst burst_in_use 2 (omega arith)

evaluate_logs_example : (a : Alert ℕ) × Memᴰ (log_alert a) (run_call ltb (reading 95) fresh).1
evaluate_logs_example =
    evaluate_logs ltb (reading 95) fresh burst above 90 burst_in_use (refl, refl) idle refl

evaluate-IsOffline_example : IsOffline world (some 3) fresh 3
evaluate-IsOffline_example = evaluate-IsOffline ltb (reading 95) fresh 3 alarm pushed
