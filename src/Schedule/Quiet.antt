-- ===== src/Schedule/Quiet.antt =====
-- The parts of an execution that leave the table of schedules as it is, in
-- schedule/schedule.service.ts.
use qs_farm_be.Common.{
  ℕ, suc, ◌+◌, ◌≡◌, refl, ◌∙◌, Option, none, some, List, [], ◌∷◌, ◌++◌, map, arith, ◌==◌,
  if◌then◌else◌, Option-cases, inl, inr, if-both,
}
use qs_farm_be.Domain.{Uuid, Time, Device}
use qs_farm_be.Sync.{SyncEffect}
use qs_farm_be.Schedule.{
  DeviceSchedule, Params, ScheduleState, Action, synced, executed, pushed, JobOutside,
}
use qs_farm_be.Schedule.Job.{
  mode_change, control_mode_change, apply_mode_change, apply_control_mode_change, get_farm_owner_id,
  send, send_each, send_all, notify_owner, zone_of,
}

-- How often a schedule was saved as executed.
unfoldable pub executions : Uuid → List Action → ℕ
executions i [] = 0
executions i (executed j t ∷ es) = let rest = executions i es in if j == i then suc rest else rest
executions i (synced e ∷ es) = executions i es
executions i (pushed f s ∷ es) = executions i es

pub executions-append :
    (i : Uuid) (xs ys : List Action) → executions i (xs ++ ys) ≡ executions i xs + executions i ys
unfolding executions
executions-append i [] ys = omega arith
executions-append i (executed j t ∷ xs) ys = ground (arith, executions-append i xs ys)
executions-append i (synced e ∷ xs) ys = executions-append i xs ys
executions-append i (pushed f s ∷ xs) ys = executions-append i xs ys

executions-synced : (i : Uuid) (es : List (SyncEffect Params)) → executions i (map synced es) ≡ 0
unfolding executions
executions-synced i [] = refl
executions-synced i (e ∷ es) = executions-synced i es

pushed-unlogged : (i f s : Uuid) → executions i (pushed f s ∷ []) ≡ 0
unfolding executions
pushed-unlogged i f s = refl

-- No schedule changes and none is executed.
pub record Quiet {F : Type 0} (a b : ScheduleState F) (es : List Action) : Type 0 where
  pub same : b.schedules ≡ a.schedules
  pub unlogged : (i : Uuid) → executions i es ≡ 0

module _ {F : Type 0} where
  pub apply_mode_change-schedules :
      (s : DeviceSchedule) (st : ScheduleState F)
      → (apply_mode_change s st).schedules ≡ st.schedules
  unfolding apply_mode_change
  apply_mode_change-schedules s st = elim (Option-cases (mode_change s)) [
    | inl n ↦ rw (n, apply_mode_change) refl
    | inr (m, n) ↦ elim (Option-cases s.zone_id) [
      | inr (z, h) ↦ rw (n, h, apply_mode_change) refl
      | inl h ↦ elim (Option-cases s.device_id) [
        | inr (d, k) ↦ rw (n, h, k, apply_mode_change) refl
        | inl k ↦ elim (Option-cases s.farm_id) [
          | inr (f, l) ↦ rw (n, h, k, l, apply_mode_change) refl
          | inl l ↦ rw (n, h, k, l, apply_mode_change) refl
        ]
      ]
    ]
  ]

  pub apply_control_mode_change-schedules :
      (s : DeviceSchedule) (st : ScheduleState F)
      → (apply_control_mode_change s st).schedules ≡ st.schedules
  unfolding apply_control_mode_change
  apply_control_mode_change-schedules s st = elim (Option-cases (control_mode_change s)) [
    | inl n ↦ rw (n, apply_control_mode_change) refl
    | inr (m, n) ↦ elim (Option-cases s.zone_id) [
      | inr (z, h) ↦ rw (n, h, apply_control_mode_change) refl
      | inl h ↦ elim (Option-cases s.device_id) [
        | inr (d, k) ↦ rw (n, h, k, apply_control_mode_change) refl
        | inl k ↦ elim (Option-cases s.farm_id) [
          | inr (f, l) ↦ rw (n, h, k, l, apply_control_mode_change) refl
          | inl l ↦ rw (n, h, k, l, apply_control_mode_change) refl
        ]
      ]
    ]
  ]

module _ {F : Type 0} (out : JobOutside) where
  send-Quiet :
      (now : Time) (s : DeviceSchedule) (d : Uuid) (st : ScheduleState F)
      → Quiet st (send out now s d st).1 (send out now s d st).2
  unfolding send
  send-Quiet now s d st = record { same = refl; unlogged = λ i. executions-synced i _ }

  none_sent : (st : ScheduleState F) → Quiet st st []
  unfolding executions
  none_sent st = record { same = refl; unlogged = λ i. refl }

  send_each-Quiet :
      (now : Time) (s : DeviceSchedule) (ds : List Device) (st : ScheduleState F)
      → Quiet st (send_each out now s ds st).0 (send_each out now s ds st).1
  unfolding send_each
  send_each-Quiet now s [] st = none_sent st
  send_each-Quiet now s (d ∷ ds) st =
      let first = send-Quiet now s d.id st in
      let rest = send_each-Quiet now s ds (send out now s d.id st).1 in
      record {
        same = rest.same ∙ first.same;
        unlogged = λ i. omega (
          arith,
          executions-append i (send out now s d.id st).2
              (send_each out now s ds (send out now s d.id st).1).1,
          first.unlogged i,
          rest.unlogged i,
        );
      }

  pub send_all-Quiet :
      (now : Time) (s : DeviceSchedule) (st : ScheduleState F)
      → Quiet st (send_all out now s st).1 (send_all out now s st).2
  unfolding send_all
  send_all-Quiet now s st = elim (Option-cases s.device_id) [
    | inr (d, h) ↦ rw (h, send_all) (let q = send-Quiet now s d st in q)
    | inl h ↦ elim (Option-cases s.zone_id) [
      | inr (z, k) ↦ elim (Option-cases (zone_of z st.zones)) [
        | inl n ↦ rw (h, k, n, send_all) (none_sent st)
        | inr (r, n) ↦ rw (h, k, n, send_all) (send_each-Quiet now s _ st)
      ]
      | inl k ↦ elim (Option-cases s.farm_id) [
        | inr (f, l) ↦ rw (h, k, l, send_all) (send_each-Quiet now s _ st)
        | inl l ↦ rw (h, k, l, send_all) (none_sent st)
      ]
    ]
  ]

  get_farm_owner_id-schedules :
      (now : Time) (f : Uuid) (st : ScheduleState F)
      → (get_farm_owner_id now f st).1.schedules ≡ st.schedules
  unfolding get_farm_owner_id
  get_farm_owner_id-schedules now f st = ground arith

  pub notify_owner-Quiet :
      (now : Time) (s : DeviceSchedule) (f : Option Uuid) (st : ScheduleState F)
      → Quiet st (notify_owner out now s f st).0 (notify_owner out now s f st).1
  unfolding notify_owner
  notify_owner-Quiet now s none st = none_sent st
  notify_owner-Quiet now s (some f) st =
      let same = get_farm_owner_id-schedules now f st in
      let logged : (i : Uuid) → executions i (pushed f s.id ∷ []) ≡ 0 =
        λ i. pushed-unlogged i f s.id in
      if-both (λ (r : ScheduleState F × List Action). Quiet st r.0 r.1) _
        (record { same = same; unlogged = λ i. (none_sent st).unlogged i })
        (record { same = same; unlogged = logged })
