-- ===== src/Fertilizer/Closing.antt =====
-- `closeSession` of fertilizer/fertilizer.service.ts beside that of pump/pump.service.ts.
use qs_farm_be.Common.{
  ℕ, ◌-◌, ◌≡◌, refl, ap, ◌∙◌, Bool, ◌&&◌, Option, some, List, [], ◌∷◌, map, ltb, if◌then◌else◌,
  find, keep, is_some, Bool-cases, inl, inr, if-both,
}
use qs_farm_be.Domain.{
  Uuid, Time, fert_temperature, fert_current, fert_phase, water_pressure, water_flow,
  electrical_current, electrical_phase,
}
use qs_farm_be.Pump.{
  Db, PumpSession, Aggregates, sensor_aggregates, with_temp, with_pressure, with_flow, with_current,
  with_overcurrent, values_in, alert_in_window, compute_session_aggregates,
  compute_overcurrent_data, closed_session, close_session, add_operating, AlertRow, save_session,
  is_completed,
}
use qs_farm_be.Fertilizer.{
  FertDb, FertilizerSession, FertilizerSessionStatus, FertilizerInterruptedReason,
  get_sensor_aggregates, with_fert_temp, with_fert_current, with_fert_overcurrent, fert_values,
  fert_overcurrent, compute_fert_aggregates, compute_fert_overcurrent, closed_fert_session,
  close_fert_session, save_fert_session,
}
use qs_farm_be.Fertilizer.AsPump.{
  as_status, as_reasons, as_session, as_alerts, as_pump, save_session-as_session,
}
use qs_farm_be.Fertilizer.Readings.{
  values-as_readings, no_water, overcurrent-as_alerts, alert-as_alerts,
}

module _ {F : Type 0} (sql : Aggregates F) where
  with_temp-as_session :
      (vs : List F) (s : FertilizerSession F)
      → with_temp sql (sensor_aggregates sql vs) (as_session s)
        ≡ as_session (with_fert_temp sql (get_sensor_aggregates sql vs) s)
  unfolding sensor_aggregates get_sensor_aggregates
  with_temp-as_session [] s = refl
  with_temp-as_session (v ∷ vs) s = refl

  with_current-as_session :
      (vs : List F) (s : FertilizerSession F)
      → with_current sql (sensor_aggregates sql vs) (as_session s)
        ≡ as_session (with_fert_current sql (get_sensor_aggregates sql vs) s)
  unfolding sensor_aggregates get_sensor_aggregates
  with_current-as_session [] s = refl
  with_current-as_session (v ∷ vs) s = refl

  with_overcurrent-as_session :
      (vs : List F) (s : FertilizerSession F)
      → with_overcurrent sql vs (as_session s) ≡ as_session (with_fert_overcurrent sql vs s)
  with_overcurrent-as_session [] s = refl
  with_overcurrent-as_session (v ∷ vs) s = refl

  without_water :
      (d : Uuid) (from to : Time) (db : FertDb F) (s : PumpSession F)
      → with_flow sql (sensor_aggregates sql (values_in d water_flow from to (as_pump db))) (
          with_pressure sql
            (sensor_aggregates sql (values_in d water_pressure from to (as_pump db)))
            s)
        ≡ s
  unfolding sensor_aggregates
  without_water d from to db s =
      rw ((no_water d from to db.sensor_data).0, (no_water d from to db.sensor_data).1) refl

  aggregates-as_session :
      (db : FertDb F) (e : Time) (s : FertilizerSession F)
      → compute_session_aggregates sql (as_pump db) e (as_session s)
        ≡ as_session (compute_fert_aggregates sql db e s)
  unfolding compute_session_aggregates compute_fert_aggregates
  aggregates-as_session db e s =
      let d = s.device_id in
      let from = s.started_at in
      let rs = db.sensor_data in
      let temps = values-as_readings d fert_temperature from e rs refl in
      let currents = values-as_readings d fert_current from e rs refl in
      let phases = values-as_readings d fert_phase from e rs refl in
      let s1 =
        with_fert_temp sql (get_sensor_aggregates sql (fert_values d fert_temperature from e db))
          s in
      let vc = fert_values d fert_current from e db in
      let counted =
        λ (x : PumpSession F) (vs : List F). record x { phase_count = sql.count_distinct vs } in
      let warm =
        ap (λ vs. with_temp sql (sensor_aggregates sql vs) (as_session s)) temps
        ∙ with_temp-as_session (fert_values d fert_temperature from e db) s in
      let dry =
        ap
          (λ x. with_flow sql (sensor_aggregates sql (values_in d water_flow from e (as_pump db))) (
            with_pressure sql
              (sensor_aggregates sql (values_in d water_pressure from e (as_pump db))) x))
          warm
        ∙ without_water d from e db (as_session s1) in
      let charged =
        ap
          (λ x.
            with_current sql
              (sensor_aggregates sql (values_in d electrical_current from e (as_pump db))) x)
          dry
        ∙ ap (λ vs. with_current sql (sensor_aggregates sql vs) (as_session s1)) currents
        ∙ with_current-as_session vc s1 in
      ap (λ x. counted x (values_in d electrical_phase from e (as_pump db))) charged
      ∙ ap (λ vs. counted (as_session (with_fert_current sql (get_sensor_aggregates sql vc) s1)) vs)
          phases

  flagged-as_session :
      (b c : Bool) (s : FertilizerSession F)
      → b ≡ c
      → (if s.has_alert then as_session s else record (as_session s) { has_alert = b })
        ≡ as_session (if s.has_alert then s else record s { has_alert = c })
  flagged-as_session b c s e =
      rw e (elim (Bool-cases s.has_alert) [ inl h ↦ rw h refl | inr h ↦ rw h refl ])

  overcurrent-as_session :
      (db : FertDb F) (e : Time) (s : FertilizerSession F)
      → compute_overcurrent_data sql (as_pump db) e (as_session s)
        ≡ as_session (compute_fert_overcurrent sql db e s)
  unfolding compute_overcurrent_data compute_fert_overcurrent
  overcurrent-as_session db e s =
      let d = s.device_id in
      let from = s.started_at in
      let over = map (λ (a : AlertRow F). a.value) (keep (fert_overcurrent d from e) db.alerts) in
      let any = is_some (find (alert_in_window d from e) (as_alerts db.alerts)) in
      let marked =
        ap (λ vs. with_overcurrent sql vs (as_session s)) (overcurrent-as_alerts d from e db.alerts)
        ∙ with_overcurrent-as_session over s in
      ap (λ (x : PumpSession F). if x.has_alert then x else record x { has_alert = any }) marked
      ∙ flagged-as_session any _ (with_fert_overcurrent sql over s)
          (alert-as_alerts d from e db.alerts)

  pub closed_session-as_session :
      (db : FertDb F) (s : FertilizerSession F) (e : Time) (st : FertilizerSessionStatus)
      → (re : Option FertilizerInterruptedReason)
      → closed_session sql (as_pump db) (as_session s) e (as_status st) (as_reasons re)
        ≡ as_session (closed_fert_session sql db s e st re)
  unfolding closed_session closed_fert_session
  closed_session-as_session db s e st re =
      let ended = record s {
        ended_at = some e;
        status = st;
        interrupted_reason = re;
        duration_ms = some (e - s.started_at);
      } in
      ap (compute_overcurrent_data sql (as_pump db) e) (aggregates-as_session db e ended)
      ∙ overcurrent-as_session db e (compute_fert_aggregates sql db e ended)

  no_hours : (d : Uuid) (ms : ℕ) (db : FertDb F) → add_operating sql d ms (as_pump db) ≡ as_pump db
  unfolding add_operating
  no_hours d ms db = refl

  pub close_session-as_pump :
      (db : FertDb F) (s : FertilizerSession F) (e : Time) (st : FertilizerSessionStatus)
      → (re : Option FertilizerInterruptedReason)
      → (close_session sql (as_pump db) (as_session s) e (as_status st) (as_reasons re)).0
        ≡ as_pump (close_fert_session sql db s e st re).0
  unfolding close_session close_fert_session
  close_session-as_pump db s e st re =
      let c = closed_fert_session sql db s e st re in
      let saved : FertDb F = record db { sessions = save_fert_session c db.sessions } in
      let rows =
        ap (λ x. save_session x (map as_session db.sessions))
          (closed_session-as_session db s e st re)
        ∙ save_session-as_session c db.sessions in
      let at = λ (xs : List (PumpSession F)). record (as_pump db) { sessions = xs } in
      let finish = λ (r : Db F).
        if is_completed (as_status st) && ltb 0 (e - s.started_at)
        then add_operating sql s.device_id (e - s.started_at) r
        else r in
      ap (λ xs. finish (at xs)) rows
      ∙ if-both (λ (r : Db F). r ≡ as_pump saved)
          (is_completed (as_status st) && ltb 0 (e - s.started_at))
          (no_hours s.device_id (e - s.started_at) saved) refl
