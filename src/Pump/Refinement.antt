-- ===== src/Pump/Refinement.antt =====
-- The handlers of pump/pump.service.ts, and its job, against the abstract view.
use mathlib.Core.Path.{subst}
use qs_farm_be.Common.{
  ◌≡◌, ◌≢◌, refl, sym, ap, ◌∙◌, Bool, some, List, [], ◌∷◌, Memᴰ, arith, All, Bool-cases,
  Option-cases, inl, inr, find, find-mem, find-test, keep,
}
use qs_farm_be.Domain.{Uuid, Time}
use qs_farm_be.Pump.{
  PumpSession, Db, Aggregates, PumpStartedEvent, PumpStoppedEvent, PumpDisconnectedEvent, Event,
  started, stopped, disconnected, cleanup, running, is_running, lwt, esp_reboot, timeout,
  active_of_device, active_with_id, closed_session, close_session, handle_pump_started,
  handle_pump_stopped, handle_pump_disconnected, is_stale, check_stale, check_all_stale,
  cleanup_stale_sessions, last_sensor_timestamp, end_of_data, step,
}
use qs_farm_be.Pump.Closing.{closed_session-core, close_session-sessions, Core}
use qs_farm_be.Pump.Sessions.{ids, Distinct, save-mem}
use qs_farm_be.Pump.Changes.{
  opens, closes, Changes, here, next, IsFresh, Verdict, finished, cut, status_of, reason_of,
}

module _ {F : Type 0} where
  -- What an event's row needs: a fresh id.
  abbrev pub HasFreshId : Event → Db F → Type 0
  HasFreshId (started i e) db = IsFresh i db
  HasFreshId _ db = Unit

  found_of_device :
      (d : Uuid) (xs : List (PumpSession F)) (s : PumpSession F)
      → find (active_of_device d) xs ≡ some s
      → Memᴰ s xs × (s.status ≡ running)
  found_of_device d xs s h =
      let test = find-test (active_of_device d) xs s h in
      (find-mem (active_of_device d) xs s h, ground arith)

  found_with_id :
      (i : Uuid) (xs : List (PumpSession F)) (s : PumpSession F)
      → find (active_with_id i) xs ≡ some s
      → Memᴰ s xs × (s.status ≡ running)
  found_with_id i xs s h =
      let test = find-test (active_with_id i) xs s h in
      (find-mem (active_with_id i) xs s h, ground arith)

  keep-ids :
      (p : PumpSession F → Bool) (n : Uuid) (xs : List (PumpSession F))
      → All (λ m. m ≢ n) (ids xs)
      → All (λ m. m ≢ n) (ids (keep p xs))
  keep-ids p n [] h = tt
  keep-ids p n (x ∷ xs) h = ground (arith, keep-ids p n xs h.1)

  keep-Distinct :
      (p : PumpSession F → Bool) (xs : List (PumpSession F))
      → Distinct (ids xs)
      → Distinct (ids (keep p xs))
  keep-Distinct p [] h = tt
  keep-Distinct p (x ∷ xs) h = ground (arith, keep-Distinct p xs h.1, keep-ids p x.id xs h.0)

  -- The rows of a list are in the table, and running.
  abbrev pub AreRunning : Db F → List (PumpSession F) → Type 0
  AreRunning db = All (λ (s : PumpSession F). Memᴰ s db.sessions × (s.status ≡ running))

  weaken :
      (ss xs : List (PumpSession F)) (y : PumpSession F)
      → All (λ (s : PumpSession F). Memᴰ s xs × (s.status ≡ running)) ss
      → All (λ (s : PumpSession F). Memᴰ s (y ∷ xs) × (s.status ≡ running)) ss
  weaken [] xs y h = tt
  weaken (s ∷ ss) xs y h = ((Memᴰ.tail h.0.0, h.0.1), weaken ss xs y h.1)

  pub keep-AreRunning :
      (xs : List (PumpSession F))
      → All
          (λ (s : PumpSession F). Memᴰ s xs × (s.status ≡ running))
          (keep (λ (s : PumpSession F). is_running s.status) xs)
  keep-AreRunning [] = tt
  keep-AreRunning (x ∷ xs) =
      let rest = weaken _ xs x (keep-AreRunning xs) in
      elim (Bool-cases (is_running x.status)) [
        | inl r ↦ rw r ((Memᴰ.head refl, ground arith), rest)
        | inr n ↦ rw n rest
      ]

module _ {F : Type 0} (sql : Aggregates F) where
  close :
      (db : Db F) (s : PumpSession F) (e : Time) (v : Verdict)
      → Memᴰ s db.sessions
      → s.status ≡ running
      → Changes sql db (close_session sql db s e (status_of v) (reason_of v)).0
  close db s e v m r = next (closes db s e v m r) here

  handle_pump_started-Changes :
      (i : Uuid) (e : PumpStartedEvent) (db : Db F)
      → IsFresh i db
      → Changes sql db (handle_pump_started i e db).0
  unfolding handle_pump_started
  handle_pump_started-Changes i e db h =
      elim (Option-cases (find (active_of_device e.device_id) db.sessions)) [
        | inl n ↦ rw (n, handle_pump_started) (next (opens db i e h n) here)
        | inr (s, f) ↦ rw (f, handle_pump_started) here
      ]

  handle_pump_stopped-Changes :
      (e : PumpStoppedEvent) (db : Db F) → Changes sql db (handle_pump_stopped sql e db).0
  unfolding handle_pump_stopped
  handle_pump_stopped-Changes e db = elim (Option-cases e.session_id) [
    | inl n ↦ elim (Option-cases (find (active_of_device e.device_id) db.sessions)) [
      | inl m ↦ rw (n, m, handle_pump_stopped) here
      | inr (s, f) ↦
          let (m, r) = found_of_device e.device_id db.sessions s f in
          rw (n, f, handle_pump_stopped) (close db s e.timestamp (cut esp_reboot) m r)
    ]
    | inr (i, n) ↦ elim (Option-cases (find (active_with_id i) db.sessions)) [
      | inl m ↦ rw (n, m, handle_pump_stopped) here
      | inr (s, f) ↦
          let (m, r) = found_with_id i db.sessions s f in
          rw (n, f, handle_pump_stopped) (close db s e.timestamp finished m r)
    ]
  ]

  handle_pump_disconnected-Changes :
      (e : PumpDisconnectedEvent) (db : Db F) → Changes sql db (handle_pump_disconnected sql e db).0
  unfolding handle_pump_disconnected
  handle_pump_disconnected-Changes e db =
      elim (Option-cases (find (active_of_device e.device_id) db.sessions)) [
        | inl n ↦ rw (n, handle_pump_disconnected) here
        | inr (s, f) ↦
            let (m, r) = found_of_device e.device_id db.sessions s f in
            rw (f, handle_pump_disconnected) (close db s _ (cut lwt) m r)
      ]

  closed_id :
      (db : Db F) (s : PumpSession F) (e : Time) (v : Verdict)
      → (closed_session sql db s e (status_of v) (reason_of v)).id ≡ s.id
  closed_id db s e v =
      ap (λ (c : Core). c.id) (closed_session-core sql db s e (status_of v) (reason_of v))

  -- The job's view of the sessions that it has yet to look at survives the closing of another.
  remaining :
      (db : Db F) (s : PumpSession F) (e : Time) (v : Verdict) (ss : List (PumpSession F))
      → All (λ m. m ≢ s.id) (ids ss)
      → AreRunning db ss
      → AreRunning (close_session sql db s e (status_of v) (reason_of v)).0 ss
  remaining db s e v [] n h = tt
  remaining db s e v (x ∷ ss) n h =
      let c = closed_session sql db s e (status_of v) (reason_of v) in
      let kept = save-mem x c db.sessions (λ k. n.0 (k ∙ closed_id db s e v)) h.0.0 in
      (
        (
          subst (Memᴰ x) (sym (close_session-sessions sql db s e (status_of v) (reason_of v)).0)
              kept,
          h.0.1,
        ),
        remaining db s e v ss n.1 h.1,
      )

  check_all_stale-Changes :
      (now : Time) (ss : List (PumpSession F)) (db : Db F)
      → Distinct (ids ss)
      → AreRunning db ss
      → Changes sql db (check_all_stale sql now ss db)
  unfolding check_all_stale check_stale
  check_all_stale-Changes now [] db u h = here
  check_all_stale-Changes now (s ∷ ss) db u h =
      let last = last_sensor_timestamp s.device_id db.sensor_data in
      let end = end_of_data sql last s.started_at s.started_at in
      elim (Bool-cases (is_stale sql now last)) [
        | inl stale ↦
            rw (stale, check_stale)
              (next (closes db s end (cut timeout) h.0.0 h.0.1) (
                check_all_stale-Changes now ss _ u.1 (remaining db s end (cut timeout) ss u.0 h.1)))
        | inr fresh ↦ rw (fresh, check_stale) (check_all_stale-Changes now ss db u.1 h.1)
      ]

  -- One event or one run of the job is a sequence of changes: sessions of devices that have none
  -- running are opened, and running sessions are closed. Ids in the table are distinct, and a new
  -- row's id is fresh.
  pub step-Changes :
      (e : Event) (db : Db F)
      → Distinct (ids db.sessions)
      → HasFreshId e db
      → Changes sql db (step sql e db)
  unfolding step
  step-Changes (started i e) db u h = handle_pump_started-Changes i e db h
  step-Changes (stopped e) db u h = handle_pump_stopped-Changes e db
  step-Changes (disconnected e) db u h = handle_pump_disconnected-Changes e db
  step-Changes (cleanup now) db u h =
      unfold cleanup_stale_sessions in
      check_all_stale-Changes now _ db (keep-Distinct _ db.sessions u) (keep-AreRunning db.sessions)
