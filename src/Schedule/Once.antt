-- ===== src/Schedule/Once.antt =====
-- How often a one-time schedule is executed by the job of schedule/schedule.service.ts.
use mathlib.Core.Path.{subst}
use qs_farm_be.Common.{
  ℕ, suc, ◌+◌, ◌≤◌, ◌≡◌, refl, sym, ap, ◌∙◌, ◌⊎◌, inl, inr, true, false, List, [], ◌∷◌, ◌++◌, arith,
  ◌==◌, if◌then◌else◌, Bool-cases, is_some, Text,
}
use qs_farm_be.Domain.{Uuid, Time}
use qs_farm_be.Schedule.{
  DeviceSchedule, LocalTime, one_time, ScheduleState, Action, JobOutside, save_schedule,
  lacks_fields, should_execute,
}
use qs_farm_be.Schedule.Job.{
  apply_mode_change, apply_control_mode_change, send_all, executed_row, farm_of, finish_execution,
  execute, process_each, process_schedules, run_job,
}
use qs_farm_be.Schedule.Quiet.{
  executions, executions-append, apply_mode_change-schedules, apply_control_mode_change-schedules,
  send_all-Quiet, notify_owner-Quiet, Quiet,
}
use qs_farm_be.Schedule.Spent.{
  AreOneTime, AreSpent, rows_with, open_rows, executed_row-fields, save-All, save-AreSpent,
  rows_with-save, open_rows-keep, open_rows-rows_with, open_rows-AreSpent, keep-AreOneTime,
}

-- A one-time schedule that is due was not executed.
due-open :
    (local_time : Time → Text → LocalTime) (s : DeviceSchedule) (now : Time)
    → should_execute local_time s now ≡ true
    → s.kind ≡ one_time
    → is_some s.last_executed_at ≡ false
unfolding should_execute
due-open local_time s now h k = ground (arith, h, k)

module _ {F : Type 0} (out : JobOutside) where
  -- An execution that succeeded: the row is saved, and nothing else is executed.
  record Saves (now : Time) (s : DeviceSchedule) (a b : ScheduleState F) (es : List Action)
      : Type 0 where
    pub saved : b.schedules ≡ save_schedule (executed_row now s) a.schedules
    pub logged : (i : Uuid) → executions i es ≡ (if s.id == i then 1 else 0)

  finish-Saves :
      (now : Time) (s : DeviceSchedule) (st : ScheduleState F)
      → Saves now s st (finish_execution out now s st).1 (finish_execution out now s st).2
  unfolding finish_execution executions
  finish-Saves now s st =
      let st1 = apply_control_mode_change s (apply_mode_change s st) in
      let st2 = record st1 { schedules = save_schedule (executed_row now s) st1.schedules } in
      let told = notify_owner-Quiet out now s (farm_of out s st2).1 st2 in
      let kept =
        apply_control_mode_change-schedules s (apply_mode_change s st)
        ∙ apply_mode_change-schedules s st in
      record {
        saved = told.same ∙ ap (save_schedule (executed_row now s)) kept;
        logged = λ i.
            let silent = told.unlogged i in
            elim (Bool-cases (s.id == i)) [ inl h ↦ rw h (ap suc silent) | inr h ↦ rw h silent ];
      }

  execute-cases :
      (now : Time) (s : DeviceSchedule) (st : ScheduleState F)
      → Quiet st (execute out now s st).1 (execute out now s st).2
        ⊎ Saves now s st (execute out now s st).1 (execute out now s st).2
  unfolding execute
  execute-cases now s st =
      let sent = send_all-Quiet out now s st in
      elim (Bool-cases (send_all out now s st).0) [
        | inr h ↦ inl (rw (execute, h) sent)
        | inl h ↦
            let done = finish-Saves now s (send_all out now s st).1 in
            inr (
              rw (execute, h)
                (record {
                  saved = done.saved ∙ ap (save_schedule (executed_row now s)) sent.same;
                  logged = λ i. omega (
                    arith,
                    executions-append i (send_all out now s st).2
                        (finish_execution out now s (send_all out now s st).1).2,
                    sent.unlogged i,
                    done.logged i,
                  );
                }))
      ]

  -- What part of a run keeps of the rows with an id, and how often it executes them.
  record Progress (i : Uuid) (n : ℕ) (a b : ScheduleState F) (es : List Action) : Type 0 where
    pub bounded : executions i es ≤ n
    pub one_time_kept : AreOneTime i a.schedules → AreOneTime i b.schedules
    pub spent_kept : AreSpent i a.schedules → AreSpent i b.schedules
    pub rows_kept : rows_with i b.schedules ≡ rows_with i a.schedules
    pub ended : (executions i es ≡ 0) ⊎ AreSpent i b.schedules

  idle : (i : Uuid) (a : ScheduleState F) → Progress i 0 a a []
  unfolding executions
  idle i a = record {
    bounded = omega arith;
    one_time_kept = λ h. h;
    spent_kept = λ h. h;
    rows_kept = refl;
    ended = inl refl;
  }

  then_next :
      (i : Uuid) (n m k : ℕ) (a b c : ScheduleState F) (es fs : List Action)
      → Progress i n a b es
      → Progress i m b c fs
      → n + m ≤ k
      → Progress i k a c (es ++ fs)
  then_next i n m k a b c es fs p q h =
      let sum = executions-append i es fs in
      record {
        bounded = omega (arith, sum, p.bounded, q.bounded, h);
        one_time_kept = λ x. q.one_time_kept (p.one_time_kept x);
        spent_kept = λ x. q.spent_kept (p.spent_kept x);
        rows_kept = q.rows_kept ∙ p.rows_kept;
        ended = elim p.ended [
          | inr x ↦ inr (q.spent_kept x)
          | inl x ↦ elim q.ended [ inr y ↦ inr y | inl y ↦ inl (omega (arith, sum, x, y)) ]
        ];
      }

  quiet-Progress :
      (i : Uuid) (a b : ScheduleState F) (es : List Action) → Quiet a b es → Progress i 0 a b es
  quiet-Progress i a b es q = record {
    bounded = omega (arith, q.unlogged i);
    one_time_kept = subst (AreOneTime i) (sym q.same);
    spent_kept = subst (AreSpent i) (sym q.same);
    rows_kept = ap (rows_with i) q.same;
    ended = inl (q.unlogged i);
  }

  saves-Progress :
      (i : Uuid) (now : Time) (s : DeviceSchedule) (a b : ScheduleState F) (es : List Action)
      → Saves now s a b es
      → ((s.id == i) ≡ true → s.kind ≡ one_time)
      → Progress i (if s.id == i then 1 else 0) a b es
  saves-Progress i now s a b es v one =
      let c = executed_row now s in
      let f = executed_row-fields now s in
      let spent : (c.id == i) ≡ true → (c.kind ≡ one_time) × (is_some c.last_executed_at ≡ true) =
        λ h. (f.1 ∙ one (ap (λ n. n == i) (sym f.0) ∙ h), f.2) in
      record {
        bounded = omega (arith, v.logged i);
        one_time_kept = λ h. subst (AreOneTime i) (sym v.saved) (
            save-All (λ x. (x.id == i) ≡ true → x.kind ≡ one_time) c a.schedules (λ u. (spent u).0)
              h);
        spent_kept = λ h. subst (AreSpent i) (sym v.saved) (
            save-All
              (λ x. (x.id == i) ≡ true → (x.kind ≡ one_time) × (is_some x.last_executed_at ≡ true))
              c a.schedules spent h);
        rows_kept = ap (rows_with i) v.saved ∙ rows_with-save i c a.schedules;
        ended = elim (Bool-cases (s.id == i)) [
          | inr h ↦ inl (let l = v.logged i in ground (arith, h, l))
          | inl h ↦
              let own = ap (λ n. n == i) f.0 ∙ h in
              inr (subst (AreSpent i) (sym v.saved) (save-AreSpent i c a.schedules own (spent own)))
        ];
      }

  weaken :
      (i : Uuid) (n k : ℕ) (a b : ScheduleState F) (es : List Action)
      → n ≤ k
      → Progress i n a b es
      → Progress i k a b es
  weaken i n k a b es h p = record {
    bounded = omega (arith, p.bounded, h);
    one_time_kept = p.one_time_kept;
    spent_kept = p.spent_kept;
    rows_kept = p.rows_kept;
    ended = p.ended;
  }

  execute-Progress :
      (i : Uuid) (now : Time) (s : DeviceSchedule) (st : ScheduleState F)
      → ((s.id == i) ≡ true → s.kind ≡ one_time)
      → Progress i (if s.id == i then 1 else 0) st (execute out now s st).1 (execute out now s st).2
  execute-Progress i now s st one = elim (execute-cases now s st) [
    | inl q ↦ weaken i 0 _ _ _ _ (omega arith) (quiet-Progress i _ _ _ q)
    | inr v ↦ saves-Progress i now s _ _ _ v one
  ]

  process_each-Progress :
      (i : Uuid) (now : Time) (ss : List DeviceSchedule) (st : ScheduleState F)
      → AreOneTime i ss
      → Progress i (open_rows i ss) st (process_each out now ss st).0 (process_each out now ss st).1
  unfolding process_each open_rows
  process_each-Progress i now [] st h = idle i st
  process_each-Progress i now (s ∷ ss) st h =
      elim (Bool-cases (lacks_fields out.local_time s now)) [
        | inl thrown ↦ rw thrown (weaken i 0 _ _ _ _ (omega arith) (idle i st))
        | inr sound ↦ rw sound (elim (Bool-cases (should_execute out.local_time s now)) [
          | inr skip ↦ rw skip (
              weaken i (open_rows i ss) _ _ _ _ (ground arith)
                (process_each-Progress i now ss st h.1))
          | inl due ↦
              let first = execute-Progress i now s st h.0 in
              let rest = process_each-Progress i now ss (execute out now s st).1 h.1 in
              let fits : (if s.id == i then 1 else 0) + open_rows i ss ≤ (
                  if s.id == i
                  then (if is_some s.last_executed_at then open_rows i ss else suc (open_rows i ss))
                  else open_rows i ss) =
                elim (Bool-cases (s.id == i)) [
                  | inl own ↦
                      let new = due-open out.local_time s now due (h.0 own) in
                      ground (arith, own, new)
                  | inr other ↦ ground (arith, other)
                ] in
              rw due (elim (Bool-cases (execute out now s st).0) [
                | inl found ↦ rw found (then_next i _ _ _ _ _ _ _ _ first rest fits)
                | inr lost ↦ rw lost (weaken i _ _ _ _ _ (omega (arith, fits)) first)
              ])
        ])
      ]

  process_schedules-Progress :
      (i : Uuid) (now : Time) (st : ScheduleState F)
      → AreOneTime i st.schedules
      → Progress i
          (open_rows i st.schedules)
          st
          (process_schedules out now false st).0
          (process_schedules out now false st).1
  unfolding process_schedules
  process_schedules-Progress i now st h =
      weaken i _ _ _ _ _ (open_rows-keep i (λ s. s.enabled) st.schedules)
        (process_each-Progress i now _ st (keep-AreOneTime i (λ s. s.enabled) st.schedules h))

  run_job-spent :
      (i : Uuid) (ts : List Time) (st : ScheduleState F)
      → AreOneTime i st.schedules
      → AreSpent i st.schedules
      → executions i (run_job out ts st).1 ≡ 0
  unfolding run_job executions
  run_job-spent i [] st h k = refl
  run_job-spent i (t ∷ ts) st h k =
      let p = process_schedules-Progress i t st h in
      let rest =
        run_job-spent i ts (process_schedules out t false st).0 (p.one_time_kept h)
          (p.spent_kept k) in
      omega (
        arith,
        executions-append i (process_schedules out t false st).1
            (run_job out ts (process_schedules out t false st).0).1,
        p.bounded,
        open_rows-AreSpent i st.schedules k,
        rest,
      )

  -- Over any runs of the job, at any times and whatever the broker answers, a one-time schedule is
  -- saved as executed at most once, if at most one row has its id.
  pub run_job-once :
      (i : Uuid) (ts : List Time) (st : ScheduleState F)
      → AreOneTime i st.schedules
      → rows_with i st.schedules ≤ 1
      → executions i (run_job out ts st).1 ≤ 1
  unfolding run_job executions
  run_job-once i [] st h u = omega arith
  run_job-once i (t ∷ ts) st h u =
      let p = process_schedules-Progress i t st h in
      let st1 = (process_schedules out t false st).0 in
      let sum = executions-append i (process_schedules out t false st).1 (run_job out ts st1).1 in
      let first = open_rows-rows_with i st.schedules in
      elim p.ended [
        | inl none_yet ↦
            let rest = run_job-once i ts st1 (p.one_time_kept h) (omega (arith, p.rows_kept, u)) in
            omega (arith, sum, none_yet, rest)
        | inr spent ↦
            let rest = run_job-spent i ts st1 (p.one_time_kept h) spent in
            omega (arith, sum, p.bounded, first, u, rest)
      ]
