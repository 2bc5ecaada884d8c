-- ===== src/Fertilizer/Simulation.antt =====
-- The fertilizer service behaves on its sessions as the pump service does on those of a pump:
-- fertilizer/fertilizer.service.ts beside pump/pump.service.ts.
use mathlib.Core.Path.{subst}
use mathlib.Core.Option
use qs_farm_be.Common.{
  ℕ, ◌≡◌, refl, sym, ap, ◌∙◌, none, some, List, [], ◌∷◌, map, find, keep, keep-map, Bool-cases,
  Option-cases, inl, inr, Text,
}
use qs_farm_be.Domain.{Uuid, Time}
use qs_farm_be.Pump.{
  PumpSession, Aggregates, step, run, is_running, handle_pump_started, handle_pump_stopped,
  handle_pump_disconnected, cleanup_stale_sessions, check_all_stale, check_stale,
}
use qs_farm_be.Pump.Invariant.{IsValid, FreshIds, run-IsValid}
use qs_farm_be.Fertilizer.{
  FertDb, FertilizerSession, FertilizerStartedEvent, FertilizerStoppedEvent,
  FertilizerDisconnectedEvent, FertEvent, fert_started, fert_stopped, fert_disconnected,
  fert_cleanup, fert_step, fert_run, fert_is_active, fert_active_of_device, fert_active_with_id,
  handle_fertilizer_started, close_fert_session, handle_fertilizer_stopped,
  handle_fertilizer_disconnected, cleanup_stale_fertilizer_sessions, check_all_fert_stale,
  check_fert_stale, last_fert_timestamp, is_fert_stale, completed, interrupted, esp_reboot, lwt,
  timeout,
}
use qs_farm_be.Fertilizer.AsPump.{as_session, as_pump}
use qs_farm_be.Fertilizer.Readings.{last_timestamp-as_readings}
use qs_farm_be.Fertilizer.Closing.{close_session-as_pump}
use qs_farm_be.Fertilizer.Handlers.{
  as_started, as_stopped, as_disconnected, as_event, running-as_status, find_device, find_id,
  opened, pump_started-none, pump_started-some, pump_stopped-none, pump_stopped-reboot,
  pump_stopped-missing, pump_stopped-some, pump_disconnected-none, pump_disconnected-some,
}

module _ {F : Type 0} (sql : Aggregates F) (text_of : ℕ → Text) where
  started-as_pump :
      (i : Uuid) (e : FertilizerStartedEvent) (db : FertDb F)
      → (handle_pump_started i (as_started e) (as_pump db)).0
        ≡ as_pump (handle_fertilizer_started text_of i e db).0
  unfolding handle_fertilizer_started
  started-as_pump i e db =
      elim (Option-cases (find (fert_active_of_device e.device_id) db.sessions)) [
        | inl n ↦
            rw (n, handle_fertilizer_started)
              (pump_started-none sql i _ (as_pump db)
                  (find_device e.device_id db.sessions ∙ ap (Option.map as_session) n)
                ∙ ap (λ xs. record (as_pump db) { sessions = xs }) (opened i e db.sessions))
        | inr (s, f) ↦
            rw (f, handle_fertilizer_started)
              (pump_started-some sql i _ (as_pump db) (as_session s)
                (find_device e.device_id db.sessions ∙ ap (Option.map as_session) f))
      ]

  stopped-as_pump :
      (e : FertilizerStoppedEvent) (db : FertDb F)
      → (handle_pump_stopped sql (as_stopped e) (as_pump db)).0
        ≡ as_pump (handle_fertilizer_stopped sql e db).0
  unfolding handle_fertilizer_stopped
  stopped-as_pump e db = elim (Option-cases e.session_id) [
    | inl n ↦ elim (Option-cases (find (fert_active_of_device e.device_id) db.sessions)) [
      | inl m ↦
          let found = find_device e.device_id db.sessions ∙ ap (Option.map as_session) m in
          let right : (handle_fertilizer_stopped sql e db).0 ≡ db =
            rw (n, m, handle_fertilizer_stopped) refl in
          pump_stopped-none sql (as_stopped e) (as_pump db) n found ∙ ap as_pump (sym right)
      | inr (s, f) ↦
          let found = find_device e.device_id db.sessions ∙ ap (Option.map as_session) f in
          let right : (handle_fertilizer_stopped sql e db).0
              ≡ (close_fert_session sql db s e.timestamp interrupted (some esp_reboot)).0 =
            rw (n, f, handle_fertilizer_stopped) refl in
          pump_stopped-reboot sql (as_stopped e) (as_pump db) (as_session s) n found
          ∙ close_session-as_pump sql db s e.timestamp interrupted (some esp_reboot)
          ∙ ap as_pump (sym right)
    ]
    | inr (i, n) ↦ elim (Option-cases (find (fert_active_with_id i) db.sessions)) [
      | inl m ↦
          let found = find_id i db.sessions ∙ ap (Option.map as_session) m in
          let right : (handle_fertilizer_stopped sql e db).0 ≡ db =
            rw (n, m, handle_fertilizer_stopped) refl in
          pump_stopped-missing sql (as_stopped e) (as_pump db) i n found ∙ ap as_pump (sym right)
      | inr (s, f) ↦
          let found = find_id i db.sessions ∙ ap (Option.map as_session) f in
          let right : (handle_fertilizer_stopped sql e db).0
              ≡ (close_fert_session sql db s e.timestamp completed none).0 =
            rw (n, f, handle_fertilizer_stopped) refl in
          pump_stopped-some sql (as_stopped e) (as_pump db) i (as_session s) n found
          ∙ close_session-as_pump sql db s e.timestamp completed none
          ∙ ap as_pump (sym right)
    ]
  ]

  disconnected-as_pump :
      (e : FertilizerDisconnectedEvent) (db : FertDb F)
      → (handle_pump_disconnected sql (as_disconnected e) (as_pump db)).0
        ≡ as_pump (handle_fertilizer_disconnected sql e db).0
  unfolding handle_fertilizer_disconnected
  disconnected-as_pump e db =
      elim (Option-cases (find (fert_active_of_device e.device_id) db.sessions)) [
        | inl n ↦
            rw (n, handle_fertilizer_disconnected)
              (pump_disconnected-none sql _ (as_pump db)
                (find_device e.device_id db.sessions ∙ ap (Option.map as_session) n))
        | inr (s, f) ↦
            rw (f, handle_fertilizer_disconnected)
              (pump_disconnected-some sql _ (as_pump db) (as_session s) _
                  (find_device e.device_id db.sessions ∙ ap (Option.map as_session) f)
                  (last_timestamp-as_readings e.device_id db.sensor_data)
                ∙ close_session-as_pump sql db s _ interrupted (some lwt))
      ]

  check_stale-as_pump :
      (now : Time) (s : FertilizerSession F) (db : FertDb F)
      → check_stale sql now (as_session s) (as_pump db) ≡ as_pump (check_fert_stale sql now s db)
  unfolding check_stale check_fert_stale
  check_stale-as_pump now s db =
      rw (check_stale, last_timestamp-as_readings s.device_id db.sensor_data)
        (elim (Option-cases (last_fert_timestamp s.device_id db.sensor_data)) [
          | inl n ↦ rw n (close_session-as_pump sql db s s.started_at interrupted (some timeout))
          | inr (t, n) ↦ rw n (elim (Bool-cases (is_fert_stale now (some t))) [
            | inl h ↦ rw h (close_session-as_pump sql db s _ interrupted (some timeout))
            | inr h ↦ rw h refl
          ])
        ])

  check_all-as_pump :
      (now : Time) (ss : List (FertilizerSession F)) (db : FertDb F)
      → check_all_stale sql now (map as_session ss) (as_pump db)
        ≡ as_pump (check_all_fert_stale sql now ss db)
  unfolding check_all_stale check_all_fert_stale
  check_all-as_pump now [] db = refl
  check_all-as_pump now (s ∷ ss) db =
      ap (check_all_stale sql now (map as_session ss)) (check_stale-as_pump now s db)
      ∙ check_all-as_pump now ss (check_fert_stale sql now s db)

  -- One event or run of the job.
  fert_step-as_pump :
      (e : FertEvent) (db : FertDb F)
      → step sql (as_event e) (as_pump db) ≡ as_pump (fert_step sql text_of e db)
  unfolding step fert_step cleanup_stale_sessions cleanup_stale_fertilizer_sessions
  fert_step-as_pump (fert_started i e) db = started-as_pump i e db
  fert_step-as_pump (fert_stopped e) db = stopped-as_pump e db
  fert_step-as_pump (fert_disconnected e) db = disconnected-as_pump e db
  fert_step-as_pump (fert_cleanup now) db =
      ap (λ ss. check_all_stale sql now ss (as_pump db))
        (keep-map as_session (λ (s : PumpSession F). is_running s.status)
          (λ (s : FertilizerSession F). fert_is_active s.status) db.sessions
          (λ s. running-as_status s.status))
      ∙ check_all-as_pump now
          (keep (λ (s : FertilizerSession F). fert_is_active s.status) db.sessions) db

  -- What any events and runs of the job leave of the fertilizer sessions is what the same events
  -- and runs would leave of pump sessions, if the fertilizer's sensors stood for those of the pump:
  -- the same sessions are opened and closed, with the same numbers, times, outcomes and aggregates.
  pub fert_run-as_pump :
      (es : List FertEvent) (db : FertDb F)
      → run sql (map as_event es) (as_pump db) ≡ as_pump (fert_run sql text_of es db)
  unfolding run fert_run
  fert_run-as_pump [] db = refl
  fert_run-as_pump (e ∷ es) db =
      ap (run sql (map as_event es)) (fert_step-as_pump e db)
      ∙ fert_run-as_pump es (fert_step sql text_of e db)

  -- After any events and runs of the job no device has two active fertilizer sessions, ids are
  -- distinct, and a session has an end, a duration and a reason as its status says; provided this
  -- holds before and new rows get fresh ids.
  pub fert_run-IsValid :
      (es : List FertEvent) (db : FertDb F)
      → FreshIds sql (map as_event es) (as_pump db)
      → IsValid (as_pump db)
      → IsValid (as_pump (fert_run sql text_of es db))
  fert_run-IsValid es db f v =
      subst IsValid (fert_run-as_pump es db) (run-IsValid sql (map as_event es) (as_pump db) f v)
