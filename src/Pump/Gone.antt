-- ===== src/Pump/Gone.antt =====
-- What a device that is gone leaves in the table of pump/pump.service.ts.
use qs_farm_be.Common.{
  ◌+◌, ◌≤◌, ◌≡◌, refl, ap, ◌∙◌, true, false, some, List, [], ◌∷◌, arith, Bool-cases, Option-cases,
  inl, inr, find,
}
use qs_farm_be.Domain.{Uuid}
use qs_farm_be.Pump.{
  PumpSession, Db, Aggregates, PumpStartedEvent, PumpDisconnectedEvent, handle_pump_started,
  new_session, max_number, is_running, active_of_device, save_session, handle_pump_disconnected,
  closed_session, interrupted, lwt, last_sensor_timestamp, end_of_data,
}
use qs_farm_be.Pump.Closing.{closed_session-core, close_session-sessions, Core}
use qs_farm_be.Pump.Sessions.{count_running, count_of_find-none, count-save, count-append}
use qs_farm_be.Pump.Invariant.{IsValid, closed_running}
use qs_farm_be.Pump.Changes.{cut}

module _ {F : Type 0} where
  -- Saving the one running session of a device as a closed one.
  pub count-save_found :
      (d : Uuid) (s c : PumpSession F) (xs : List (PumpSession F))
      → find (active_of_device d) xs ≡ some s
      → count_running d xs ≤ 1
      → c.id ≡ s.id
      → is_running c.status ≡ false
      → count_running d (save_session c xs) ≡ 0
  unfolding count_running save_session
  count-save_found d s c [] f h e r = refl
  count-save_found d s c (x ∷ xs) f h e r = elim (Bool-cases (active_of_device d x)) [
    | inl hit ↦
        let same : x ≡ s = ground (arith, hit, f) in
        let id = ap (λ (y : PumpSession F). y.id) same in
        let less = count-save d c xs r in ground (arith, hit, id, less)
    | inr miss ↦
        let rest = count-save_found d s c xs (ground (arith, miss, f)) (ground (arith, miss)) e r in
        ground (arith, miss, rest)
  ]

  count_of_find-some :
      (d : Uuid) (xs : List (PumpSession F)) (s : PumpSession F)
      → find (active_of_device d) xs ≡ some s
      → 1 ≤ count_running d xs
  unfolding count_running
  count_of_find-some d [] s h = cc
  count_of_find-some d (x ∷ xs) s h = elim (Bool-cases (active_of_device d x)) [
    | inl hit ↦ ground (arith, hit)
    | inr miss ↦
        let rest = count_of_find-some d xs s (ground (arith, miss, h)) in ground (arith, miss, rest)
  ]

  -- In a valid table, after a device's pump has started exactly one session of it runs.
  pub handle_pump_started-one :
      (i : Uuid) (e : PumpStartedEvent) (db : Db F)
      → IsValid db
      → count_running e.device_id (handle_pump_started i e db).0.sessions ≡ 1
  unfolding handle_pump_started
  handle_pump_started-one i e db v =
      elim (Option-cases (find (active_of_device e.device_id) db.sessions)) [
        | inl n ↦
            rw (n, handle_pump_started)
              (let s : PumpSession F = new_session i e (max_number e.device_id db.sessions + 1) in
                let before = count_of_find-none e.device_id db.sessions n in
                let fresh : active_of_device e.device_id s ≡ true =
                  unfold new_session in ground arith in
                let after = count-append e.device_id db.sessions s in
                ground (arith, before, fresh, after))
        | inr (s, f) ↦
            rw (f, handle_pump_started)
              (omega
                (arith, count_of_find-some e.device_id db.sessions s f, v.one_running e.device_id))
      ]

module _ {F : Type 0} (sql : Aggregates F) where
  -- In a valid table, after the disconnection of a device no session of it runs.
  pub handle_pump_disconnected-gone :
      (e : PumpDisconnectedEvent) (db : Db F)
      → IsValid db
      → count_running e.device_id (handle_pump_disconnected sql e db).0.sessions ≡ 0
  unfolding handle_pump_disconnected
  handle_pump_disconnected-gone e db v =
      elim (Option-cases (find (active_of_device e.device_id) db.sessions)) [
        | inl n ↦ rw (n, handle_pump_disconnected) (count_of_find-none e.device_id db.sessions n)
        | inr (s, f) ↦
            rw (f, handle_pump_disconnected)
              (let last = last_sensor_timestamp e.device_id db.sensor_data in
                let end = end_of_data sql last s.started_at e.timestamp in
                let c = closed_session sql db s end interrupted (some lwt) in
                let id =
                  ap (λ (k : Core). k.id)
                    (closed_session-core sql db s end interrupted (some lwt)) in
                let stopped = closed_running sql db s end (cut lwt) in
                ap (count_running e.device_id)
                  (close_session-sessions sql db s end interrupted (some lwt)).0
                ∙ count-save_found e.device_id s c db.sessions f (v.one_running e.device_id) id
                    stopped)
      ]
