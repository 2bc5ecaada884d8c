-- ===== src/Pump/Cleanup.antt =====
-- What `cleanupStaleSessions` of pump/pump.service.ts leaves.
use mathlib.Core.Path.{subst}
use qs_farm_be.Common.{
  ◌+◌, ◌≤◌, ◌≡◌, ◌≢◌, refl, sym, ap, ◌∙◌, Bool, true, false, some, List, [], ◌∷◌, arith, Memᴰ, All,
  All-mem, Bool-cases, Option-cases, inl, inr, keep,
}
use qs_farm_be.Domain.{Time}
use qs_farm_be.Pump.{
  PumpSession, Db, Aggregates, SensorData, is_running, timeout, interrupted, closed_session,
  save_session, is_stale, check_stale, check_all_stale, cleanup_stale_sessions, stale_threshold_ms,
  last_sensor_timestamp, end_of_data,
}
use qs_farm_be.Pump.Closing.{Core, closed_session-core, close_session-sessions}
use qs_farm_be.Pump.Sessions.{mem-save}
use qs_farm_be.Pump.Changes.{cut}
use qs_farm_be.Pump.Invariant.{closed_running}

module _ {F : Type 0} (sql : Aggregates F) where
  abbrev stale_end : PumpSession F → Db F → Time
  stale_end s db =
      end_of_data sql (last_sensor_timestamp s.device_id db.sensor_data) s.started_at s.started_at

  abbrev looks_stale : Time → List (SensorData F) → PumpSession F → Bool
  looks_stale now rows s = is_stale sql now (last_sensor_timestamp s.device_id rows)

  -- A running session that one look leaves was there before, and if the look found its session
  -- stale, it is another one. The readings stay.
  check_stale_lem :
      (now : Time) (s : PumpSession F) (db : Db F) (x : PumpSession F)
      → is_running x.status ≡ true
      → Memᴰ x (check_stale sql now s db).sessions
      → Memᴰ x db.sessions × (looks_stale now db.sensor_data s ≡ true → x.id ≢ s.id)
  unfolding check_stale
  check_stale_lem now s db x r m = elim (Bool-cases (looks_stale now db.sensor_data s)) [
    | inl stale ↦
        let c = closed_session sql db s (stale_end s db) interrupted (some timeout) in
        let e =
          ap (λ (k : Core). k.id)
            (closed_session-core sql db s (stale_end s db) interrupted (some timeout)) in
        let saved : Memᴰ x (save_session c db.sessions) =
          subst (Memᴰ x)
            (close_session-sessions sql db s (stale_end s db) interrupted (some timeout)).0
            (rw (stale, check_stale) at m) in
        let (k, n) =
          mem-save x c db.sessions (closed_running sql db s (stale_end s db) (cut timeout)) r
            saved in
        (k, λ h i. n (i ∙ sym e))
    | inr fresh ↦ (rw (fresh, check_stale) at m, λ h. cc)
  ]

  check_stale-sensor_data :
      (now : Time) (s : PumpSession F) (db : Db F)
      → (check_stale sql now s db).sensor_data ≡ db.sensor_data
  unfolding check_stale
  check_stale-sensor_data now s db = elim (Bool-cases (looks_stale now db.sensor_data s)) [
    | inl stale ↦
        rw (stale, check_stale)
          (close_session-sessions sql db s (stale_end s db) interrupted (some timeout)).1
    | inr fresh ↦ rw (fresh, check_stale)
  ]

  check_all_stale_lem :
      (now : Time) (ss : List (PumpSession F)) (db : Db F) (x : PumpSession F)
      → is_running x.status ≡ true
      → Memᴰ x (check_all_stale sql now ss db).sessions
      → Memᴰ x db.sessions
        × All (λ (s : PumpSession F). looks_stale now db.sensor_data s ≡ true → x.id ≢ s.id) ss
  unfolding check_all_stale
  check_all_stale_lem now [] db x r m = (m, tt)
  check_all_stale_lem now (s ∷ ss) db x r m =
      let db' = check_stale sql now s db in
      let (k, others) = check_all_stale_lem now ss db' x r m in
      let (l, own) = check_stale_lem now s db x r k in
      (
        l,
        (
          own,
          subst
              (λ (rows : List (SensorData F)).
                All (λ (t : PumpSession F). looks_stale now rows t ≡ true → x.id ≢ t.id) ss)
              (check_stale-sensor_data now s db) others,
        ),
      )

  mem-keep :
      (p : PumpSession F → Bool) (x : PumpSession F) (xs : List (PumpSession F))
      → p x ≡ true
      → Memᴰ x xs
      → Memᴰ x (keep p xs)
  mem-keep p x xs h (Memᴰ.head {x = y} {xs = ys} e) = rw (ap p (sym e) ∙ h) (Memᴰ.head e)
  mem-keep p x xs h (Memᴰ.tail {x = y} {xs = ys} m) = elim (Bool-cases (p y)) [
    | inl c ↦ rw c (Memᴰ.tail (mem-keep p x ys h m))
    | inr n ↦ rw n (mem-keep p x ys h m)
  ]

  -- After a run of the job at time `now`, every session that still runs was running before, and its
  -- device's latest reading is at most 30 seconds old.
  pub cleanup_recent :
      (now : Time) (db : Db F) (x : PumpSession F)
      → is_running x.status ≡ true
      → Memᴰ x (cleanup_stale_sessions sql now false db).sessions
      → Memᴰ x db.sessions
        × ((t : Time) × (last_sensor_timestamp x.device_id db.sensor_data ≡ some t)
            × (now ≤ t + stale_threshold_ms))
  unfolding cleanup_stale_sessions
  cleanup_recent now db x r m =
      let snapshot = keep (λ (s : PumpSession F). is_running s.status) db.sessions in
      let (k, apart) = check_all_stale_lem now snapshot db x r m in
      let listed = mem-keep (λ (s : PumpSession F). is_running s.status) x db.sessions r k in
      let own =
        All-mem (λ (s : PumpSession F). looks_stale now db.sensor_data s ≡ true → x.id ≢ s.id) x
          snapshot apart listed in
      elim (Option-cases (last_sensor_timestamp x.device_id db.sensor_data)) [
        | inl n ↦ absurd (own (ap (is_stale sql now) n) refl)
        | inr (t, e) ↦ elim (Bool-cases (is_stale sql now (some t))) [
          | inl stale ↦ absurd (own (ap (is_stale sql now) e ∙ stale) refl)
          | inr fresh ↦ (k, (t, e, ground arith))
        ]
      ]
