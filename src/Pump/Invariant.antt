-- ===== src/Pump/Invariant.antt =====
-- What holds of the table of sessions of pump/pump.service.ts after any events.
use mathlib.Core.Path.{subst}
use qs_farm_be.Common.{
  ◌+◌, ◌-◌, ◌≤◌, ◌≡◌, refl, sym, ap, ◌∙◌, false, none, some, List, [], ◌∷◌, ◌++◌, arith, All,
  if-both, find, ◌==◌,
}
use qs_farm_be.Domain.{Uuid, Time}
use qs_farm_be.Pump.{
  PumpSession, PumpSessionStatus, running, completed, interrupted, InterruptedReason, Db,
  Aggregates, PumpStartedEvent, Event, is_running, active_of_device, closed_session, save_session,
  new_session, max_number, step, run,
}
use qs_farm_be.Pump.Closing.{Core, core, closed_session-core, close_session-sessions}
use qs_farm_be.Pump.Sessions.{
  ids, Distinct, ids-save, append-Distinct, count_running, count-append, count-save,
  count_of_find-none,
}
use qs_farm_be.Pump.Changes.{
  Change, opens, closes, Changes, here, next, IsFresh, Verdict, finished, cut, status_of, reason_of,
}
use qs_farm_be.Pump.Refinement.{HasFreshId, step-Changes}

-- A session that runs has no end; one that ended has an end, the duration up to it, and a reason
-- exactly if it was interrupted.
abbrev IsOutcome : PumpSessionStatus → Core → Type 0
IsOutcome running c = (c.ended_at ≡ none) × (c.duration_ms ≡ none) × (c.interrupted_reason ≡ none)
IsOutcome completed c =
    (e : Time) × (c.ended_at ≡ some e)
    × (c.duration_ms ≡ some (e - c.started_at))
    × (c.interrupted_reason ≡ none)
IsOutcome interrupted c =
    (e : Time) × (c.ended_at ≡ some e)
    × (c.duration_ms ≡ some (e - c.started_at))
    × ((r : InterruptedReason) × (c.interrupted_reason ≡ some r))

abbrev pub IsFormed : {F : Type 0} → PumpSession F → Type 0
IsFormed s = IsOutcome s.status (core s)

pub record IsValid {F : Type 0} (db : Db F) : Type 0 where
  pub distinct_ids : Distinct (ids db.sessions)
  pub one_running : (d : Uuid) → count_running d db.sessions ≤ 1
  pub formed : All IsFormed db.sessions

module _ {F : Type 0} where
  All-append :
      (xs : List (PumpSession F)) (s : PumpSession F)
      → All IsFormed xs
      → IsFormed s
      → All IsFormed (xs ++ s ∷ [])
  All-append [] s h f = (f, tt)
  All-append (x ∷ xs) s h f = (h.0, All-append xs s h.1 f)

  All-save :
      (c : PumpSession F) (xs : List (PumpSession F))
      → All IsFormed xs
      → IsFormed c
      → All IsFormed (save_session c xs)
  unfolding save_session
  All-save c [] h f = tt
  All-save c (x ∷ xs) h f = (if-both IsFormed (x.id == c.id) f h.0, All-save c xs h.1 f)

  one_running_opened :
      (d : Uuid) (s : PumpSession F) (xs : List (PumpSession F))
      → count_running s.device_id xs ≡ 0
      → count_running d xs ≤ 1
      → count_running d (xs ++ s ∷ []) ≤ 1
  one_running_opened d s xs h k = ground (arith, count-append d xs s)

  opened-IsValid :
      (db : Db F) (i : Uuid) (e : PumpStartedEvent)
      → IsFresh i db
      → find (active_of_device e.device_id) db.sessions ≡ none
      → IsValid db
      → IsValid (record db {
        sessions = db.sessions ++ new_session i e (max_number e.device_id db.sessions + 1) ∷ [];
      })
  unfolding new_session
  opened-IsValid db i e fresh idle v =
      let s = new_session {F = F} i e (max_number e.device_id db.sessions + 1) in
      record {
        distinct_ids = append-Distinct db.sessions s v.distinct_ids fresh;
        one_running = λ d.
            one_running_opened d s db.sessions (count_of_find-none e.device_id db.sessions idle)
              (v.one_running d);
        formed = All-append db.sessions s v.formed (refl, refl, refl);
      }

module _ {F : Type 0} (sql : Aggregates F) where
  closed-IsFormed :
      (db : Db F) (s : PumpSession F) (e : Time) (v : Verdict)
      → IsFormed (closed_session sql db s e (status_of v) (reason_of v))
  closed-IsFormed db s e v =
      subst (λ (k : Core). IsOutcome k.status k)
        (sym (closed_session-core sql db s e (status_of v) (reason_of v))) (verdict-IsOutcome v)
    where
      verdict-IsOutcome :
          (w : Verdict)
          → IsOutcome (status_of w) (record (core s) {
            ended_at = some e;
            duration_ms = some (e - s.started_at);
            status = status_of w;
            interrupted_reason = reason_of w;
          })
      verdict-IsOutcome finished = (e, refl, refl, refl)
      verdict-IsOutcome (cut r) = (e, refl, refl, (r, refl))

  pub closed_running :
      (db : Db F) (s : PumpSession F) (e : Time) (v : Verdict)
      → is_running (closed_session sql db s e (status_of v) (reason_of v)).status ≡ false
  closed_running db s e v =
      ap (λ (k : Core). is_running k.status)
        (closed_session-core sql db s e (status_of v) (reason_of v))
      ∙ ended v
    where
      ended : (w : Verdict) → is_running (status_of w) ≡ false
      ended finished = refl
      ended (cut r) = refl

  pub Change-IsValid : (a b : Db F) → Change sql a b → IsValid a → IsValid b
  Change-IsValid a b (opens db i e fresh idle) v = opened-IsValid db i e fresh idle v
  Change-IsValid a b (closes db s e w m r) v =
      let c = closed_session sql db s e (status_of w) (reason_of w) in
      let same = (close_session-sessions sql db s e (status_of w) (reason_of w)).0 in
      record {
        distinct_ids =
            subst (λ xs. Distinct (ids xs)) (sym same)
              (subst Distinct (sym (ids-save c db.sessions)) v.distinct_ids);
        one_running = λ d.
            subst (λ xs. count_running d xs ≤ 1) (sym same)
              (omega
                (arith, count-save d c db.sessions (closed_running db s e w), v.one_running d));
        formed =
            subst (All IsFormed) (sym same)
              (All-save c db.sessions v.formed (closed-IsFormed db s e w));
      }

  pub Changes-IsValid : (a b : Db F) → Changes sql a b → IsValid a → IsValid b
  Changes-IsValid a b here v = v
  Changes-IsValid a b (next {b = m} x xs) v = Changes-IsValid m b xs (Change-IsValid a m x v)

  -- Each started event of a history brings an id that no row has then.
  abbrev pub FreshIds : List Event → Db F → Type 0
  FreshIds [] db = Unit
  FreshIds (e ∷ es) db = HasFreshId e db × FreshIds es (step sql e db)

  pub step-IsValid :
      (e : Event) (db : Db F) → HasFreshId e db → IsValid db → IsValid (step sql e db)
  step-IsValid e db h v = Changes-IsValid db _ (step-Changes sql e db v.distinct_ids h) v

  -- After any events, ids are distinct, no device has two running sessions, a running session has
  -- no end, and an ended one has its end, its duration and, exactly if interrupted, a reason; given
  -- that this holds before and that new rows get fresh ids.
  pub run-IsValid :
      (es : List Event) (db : Db F) → FreshIds es db → IsValid db → IsValid (run sql es db)
  unfolding run
  run-IsValid [] db h v = v
  run-IsValid (e ∷ es) db h v = run-IsValid es (step sql e db) h.1 (step-IsValid e db h.0 v)
