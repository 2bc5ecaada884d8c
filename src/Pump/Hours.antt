-- ===== src/Pump/Hours.antt =====
-- The operating hours of a device and its completed sessions, in pump/pump.service.ts.
use qs_farm_be.Common.{
  All, All-append, ℕ, zero, suc, ltb, ◌≤◌, sym, ◌∙◌, inl, inr, Bool, true, false, Bool-cases, ◌+◌,
  ◌-◌, ◌≡◌, refl, ap, ◌&&◌, some, List, [], ◌∷◌, ◌++◌, arith, if◌then◌else◌, ◌==◌, get_or,
}
use qs_farm_be.Domain.{Uuid, Time}
use qs_farm_be.Pump.{
  PumpSession, running, Db, Aggregates, Event, is_completed, closed_session, close_session,
  add_operating, hours_of, new_session, step, run,
}
use qs_farm_be.Pump.Closing.{Core, closed_session-core, close_session-sessions}
use qs_farm_be.Pump.Sessions.{
  ids, Distinct, completed_sum, completed_part, completed-append, completed-save,
}
use qs_farm_be.Pump.Changes.{
  Change, opens, closes, Changes, here, next, Verdict, finished, cut, status_of, reason_of,
}
use qs_farm_be.Pump.Refinement.{step-Changes}
use qs_farm_be.Pump.Invariant.{IsValid, Change-IsValid, FreshIds, step-IsValid}

-- What the numbers of a list count for, and how often a number is one of them.
unfoldable pub sum_by : (ℕ → ℕ) → List ℕ → ℕ
sum_by w [] = 0
sum_by w (m ∷ ms) = w m + sum_by w ms

abbrev pub is_one : ℕ → ℕ → ℕ
is_one n m = if m == n then 1 else 0

abbrev pub times : ℕ → List ℕ → ℕ
times n = sum_by (is_one n)

sum_by-append : (w : ℕ → ℕ) (ms ns : List ℕ) → sum_by w (ms ++ ns) ≡ sum_by w ms + sum_by w ns
unfolding sum_by
sum_by-append w [] ns = omega arith
sum_by-append w (m ∷ ms) ns = omega (arith, sum_by-append w ms ns)

abbrev pub ArePositive : List ℕ → Type 0
ArePositive = All (λ m. 1 ≤ m)

module _ {F : Type 0} where
  -- How many completed sessions of a device have a duration.
  abbrev pub times_completed : ℕ → Uuid → List (PumpSession F) → ℕ
  times_completed n = completed_sum (is_one n)

  running_part :
      (w : ℕ → ℕ) (d : Uuid) (s : PumpSession F) → s.status ≡ running → completed_part w d s ≡ 0
  unfolding completed_part
  running_part w d s r = ground arith

module _ {F : Type 0} (sql : Aggregates F) where
  -- The total after durations in milliseconds are added to it as hours, one after the other.
  unfoldable pub add_hours : F → List ℕ → F
  add_hours t [] = t
  add_hours t (m ∷ ms) =
      add_hours
        (sql.plus t (sql.divide (sql.divide (sql.number m) (sql.number 1000)) (sql.number 3600))) ms

  add_hours-append :
      (ms ns : List ℕ) (t : F) → add_hours t (ms ++ ns) ≡ add_hours (add_hours t ms) ns
  unfolding add_hours
  add_hours-append [] ns t = refl
  add_hours-append (m ∷ ms) ns t = add_hours-append ms ns _

  -- From one state of the tables to another the hours of a device grow by the durations of the
  -- sessions that were completed in between, in some order.
  record Balance (d : Uuid) (a b : Db F) (t : F) : Type 0 where
    durations : List ℕ
    total : b.operating_hours d ≡ some (add_hours t durations)
    positive : ArePositive durations
    each :
        (w : ℕ → ℕ)
        → w 0 ≡ 0
        → sum_by w durations + completed_sum w d a.sessions ≡ completed_sum w d b.sessions

  abbrev IsBalanced : Uuid → Db F → Db F → Type 0
  IsBalanced d a b = (t : F) → a.operating_hours d ≡ some t → Balance d a b t

  IsBalanced-refl : (d : Uuid) (a : Db F) → IsBalanced d a a
  unfolding sum_by add_hours
  IsBalanced-refl d a t e = record {
    durations = [];
    total = e;
    positive = tt;
    each = λ w z. omega arith;
  }

  IsBalanced-trans :
      (d : Uuid) (a b c : Db F) → IsBalanced d a b → IsBalanced d b c → IsBalanced d a c
  IsBalanced-trans d a b c ab bc t e =
      let x = ab t e in
      let y = bc (add_hours t x.durations) x.total in
      record {
        durations = x.durations ++ y.durations;
        total = y.total ∙ ap some (sym (add_hours-append x.durations y.durations t));
        positive = All-append (λ m. 1 ≤ m) x.durations y.durations x.positive y.positive;
        each =
            λ w z. omega (arith, sum_by-append w x.durations y.durations, x.each w z, y.each w z);
      }

  opened-IsBalanced :
      (d : Uuid) (db : Db F) (s : PumpSession F)
      → s.status ≡ running
      → IsBalanced d db (record db { sessions = db.sessions ++ s ∷ [] })
  unfolding sum_by add_hours
  opened-IsBalanced d db s r t e = record {
    durations = [];
    total = e;
    positive = tt;
    each = λ w z. omega (arith, completed-append w d db.sessions s, running_part w d s r);
  }

  -- The durations that the update of the hours adds for a device.
  abbrev added : Uuid → PumpSession F → Time → Verdict → List ℕ
  added d s e v =
      if s.device_id == d && is_completed (status_of v) && ltb 0 (e - s.started_at)
      then (e - s.started_at) ∷ []
      else []

  added-ArePositive :
      (d : Uuid) (s : PumpSession F) (e : Time) (v : Verdict) → ArePositive (added d s e v)
  added-ArePositive d s e v =
      elim (Bool-cases
        (s.device_id == d && is_completed (status_of v) && ltb 0 (e - s.started_at))) [
          | inl h ↦ rw h (ground (arith, h), tt)
          | inr h ↦ rw h tt
        ]

  closed_part :
      (w : ℕ → ℕ) (d : Uuid) (db : Db F) (s : PumpSession F) (e : Time) (v : Verdict)
      → w 0 ≡ 0
      → completed_part w d (closed_session sql db s e (status_of v) (reason_of v))
        ≡ sum_by w (added d s e v)
  unfolding completed_part sum_by
  closed_part w d db s e v z =
      ap
        (λ (k : Core).
          if k.device_id == d && is_completed k.status then w (get_or k.duration_ms 0) else 0)
        (closed_session-core sql db s e (status_of v) (reason_of v))
      ∙ weighed (s.device_id == d) (is_completed (status_of v)) (e - s.started_at)
    where
      weighed :
          (a c : Bool) (ms : ℕ)
          → (if a && c then w ms else 0) ≡ sum_by w (if a && c && ltb 0 ms then ms ∷ [] else [])
      weighed false c ms = refl
      weighed true false ms = refl
      weighed true true zero = z
      weighed true true (suc ms) = ground arith

  close_session-operating :
      (d : Uuid) (db : Db F) (s : PumpSession F) (e : Time) (v : Verdict) (t : F)
      → db.operating_hours d ≡ some t
      → (close_session sql db s e (status_of v) (reason_of v)).0.operating_hours d
        ≡ some (add_hours t (added d s e v))
  unfolding close_session add_operating add_hours hours_of
  close_session-operating d db s e finished t h = ground arith
  close_session-operating d db s e (cut r) t h = ground arith

  Change-IsBalanced :
      (d : Uuid) (a b : Db F) → Change sql a b → Distinct (ids a.sessions) → IsBalanced d a b
  unfolding new_session
  Change-IsBalanced d a b (opens db i e fresh idle) u t h = opened-IsBalanced d db _ refl t h
  Change-IsBalanced d a b (closes db s e v m r) u t h =
      let c = closed_session sql db s e (status_of v) (reason_of v) in
      let saved = (close_session-sessions sql db s e (status_of v) (reason_of v)).0 in
      let id =
        ap (λ (k : Core). k.id) (closed_session-core sql db s e (status_of v) (reason_of v)) in
      record {
        durations = added d s e v;
        total = close_session-operating d db s e v t h;
        positive = added-ArePositive d s e v;
        each = λ w z. omega (
          arith,
          ap (completed_sum w d) saved,
          completed-save w d s c db.sessions u id m,
          closed_part w d db s e v z,
          running_part w d s r,
        );
      }

  Changes-IsBalanced : (d : Uuid) (a b : Db F) → Changes sql a b → IsValid a → IsBalanced d a b
  Changes-IsBalanced d a b here v = IsBalanced-refl d a
  Changes-IsBalanced d a b (next {b = m} x xs) v =
      IsBalanced-trans d a m b (Change-IsBalanced d a m x v.distinct_ids)
        (Changes-IsBalanced d m b xs (Change-IsValid sql a m x v))

  run_balance :
      (d : Uuid) (es : List Event) (db : Db F)
      → FreshIds sql es db
      → IsValid db
      → IsBalanced d db (run sql es db)
  unfolding run
  run_balance d [] db h v = IsBalanced-refl d db
  run_balance d (x ∷ es) db h v =
      IsBalanced-trans d db (step sql x db) (run sql es (step sql x db))
        (Changes-IsBalanced d db _ (step-Changes sql x db v.distinct_ids h.0) v)
        (run_balance d es (step sql x db) h.1 (step-IsValid sql x db h.0 v))

  -- Over any events, the column of a device's operating hours becomes what it was plus, one after
  -- the other and in floating point, the hours of durations: each duration in milliseconds divided
  -- by 1000 and then by 3600. The durations are positive, and each occurs among them as often as
  -- there are completed sessions of the device with it that were not there before: interrupted
  -- sessions add nothing, and no session is counted twice. The table is valid before, and new rows
  -- get fresh ids.
  pub run-operating_hours :
      (d : Uuid) (es : List Event) (db : Db F) (t : F)
      → FreshIds sql es db
      → IsValid db
      → db.operating_hours d ≡ some t
      → (ms : List ℕ) × ((run sql es db).operating_hours d ≡ some (add_hours t ms))
        × ArePositive ms
        × ((n : ℕ)
            → times (suc n) ms + times_completed (suc n) d db.sessions
              ≡ times_completed (suc n) d (run sql es db).sessions)
  run-operating_hours d es db t h v e =
      let x = run_balance d es db h v t e in
      (x.durations, x.total, x.positive, λ n. x.each (is_one (suc n)) (ground arith))
