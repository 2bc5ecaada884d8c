-- ===== src/Pump/Closing.antt =====
-- What `closeSession` of pump/pump.service.ts writes of a session's identity and outcome.
use qs_farm_be.Common.{
  ℕ, ◌-◌, ◌≡◌, refl, ◌∙◌, Option, none, some, List, [], ◌∷◌, arith, Option-cases, inl, inr, if-both,
}
use qs_farm_be.Domain.{Uuid, Time}
use qs_farm_be.Pump.{
  PumpSession, PumpSessionStatus, InterruptedReason, Db, Aggregates, Stats, with_temp,
  with_pressure, with_flow, with_current, with_overcurrent, compute_session_aggregates,
  compute_overcurrent_data, closed_session, close_session, add_operating, save_session,
}

-- The columns of a session that are no aggregate.
pub record Core : Type 0 where
  pub id : Uuid
  pub device_id : Uuid
  pub session_number : ℕ
  pub started_at : Time
  pub ended_at : Option Time
  pub duration_ms : Option ℕ
  pub status : PumpSessionStatus
  pub interrupted_reason : Option InterruptedReason

module _ {F : Type 0} where
  abbrev pub core : PumpSession F → Core
  core s = record {
    id = s.id;
    device_id = s.device_id;
    session_number = s.session_number;
    started_at = s.started_at;
    ended_at = s.ended_at;
    duration_ms = s.duration_ms;
    status = s.status;
    interrupted_reason = s.interrupted_reason;
  }

module _ {F : Type 0} (sql : Aggregates F) where
  with_temp-core : (o : Option (Stats sql)) (s : PumpSession F) → core (with_temp sql o s) ≡ core s
  with_temp-core none s = refl
  with_temp-core (some a) s = refl

  with_pressure-core :
      (o : Option (Stats sql)) (s : PumpSession F) → core (with_pressure sql o s) ≡ core s
  with_pressure-core none s = refl
  with_pressure-core (some a) s = refl

  with_flow-core : (o : Option (Stats sql)) (s : PumpSession F) → core (with_flow sql o s) ≡ core s
  with_flow-core none s = refl
  with_flow-core (some a) s = refl

  with_current-core :
      (o : Option (Stats sql)) (s : PumpSession F) → core (with_current sql o s) ≡ core s
  with_current-core none s = refl
  with_current-core (some a) s = refl

  with_overcurrent-core :
      (vs : List F) (s : PumpSession F) → core (with_overcurrent sql vs s) ≡ core s
  with_overcurrent-core [] s = refl
  with_overcurrent-core (v ∷ vs) s = refl

  compute_session_aggregates-core :
      (db : Db F) (e : Time) (s : PumpSession F)
      → core (compute_session_aggregates sql db e s) ≡ core s
  unfolding compute_session_aggregates
  compute_session_aggregates-core db e s =
      with_current-core _ _ ∙ with_flow-core _ _ ∙ with_pressure-core _ _ ∙ with_temp-core _ s

  compute_overcurrent_data-core :
      (db : Db F) (e : Time) (s : PumpSession F)
      → core (compute_overcurrent_data sql db e s) ≡ core s
  unfolding compute_overcurrent_data
  compute_overcurrent_data-core db e s =
      if-both (λ (t : PumpSession F). core t ≡ core s) _ (with_overcurrent-core _ s)
        (with_overcurrent-core _ s)

  -- A closed session keeps its identity, and has the given end, outcome and reason, with the time
  -- between its start and its end as its duration.
  pub closed_session-core :
      (db : Db F) (s : PumpSession F) (e : Time) (status : PumpSessionStatus)
      (reason : Option InterruptedReason)
      → core (closed_session sql db s e status reason) ≡ record (core s) {
        ended_at = some e;
        duration_ms = some (e - s.started_at);
        status = status;
        interrupted_reason = reason;
      }
  unfolding closed_session
  closed_session-core db s e status reason =
      compute_overcurrent_data-core db e _ ∙ compute_session_aggregates-core db e _

  add_operating-sessions :
      (d : Uuid) (ms : ℕ) (db : Db F)
      → ((add_operating sql d ms db).sessions ≡ db.sessions)
        × ((add_operating sql d ms db).sensor_data ≡ db.sensor_data)
  unfolding add_operating
  add_operating-sessions d ms db = elim (Option-cases (db.operating_hours d)) [
    | inl n ↦ ground arith
    | inr (t, e) ↦ ground arith
  ]

  -- Closing a session saves its row, and leaves the readings alone.
  pub close_session-sessions :
      (db : Db F) (s : PumpSession F) (e : Time) (status : PumpSessionStatus)
      (reason : Option InterruptedReason)
      → ((close_session sql db s e status reason).0.sessions
          ≡ save_session (closed_session sql db s e status reason) db.sessions)
        × ((close_session sql db s e status reason).0.sensor_data ≡ db.sensor_data)
  unfolding close_session
  close_session-sessions db s e status reason =
      let c = closed_session sql db s e status reason in
      if-both
        (λ (r : Db F). (r.sessions ≡ save_session c db.sessions) × (r.sensor_data ≡ db.sensor_data))
        _ (add_operating-sessions s.device_id (e - s.started_at) _) (refl, refl)
