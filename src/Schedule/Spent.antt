-- ===== src/Schedule/Spent.antt =====
-- The rows of a schedule before and after its execution, in schedule/schedule.service.ts.
use qs_farm_be.Common.{
  ℕ, suc, ◌≤◌, ◌≡◌, refl, ◌⊎◌, inl, inr, Bool, true, List, [], ◌∷◌, arith, All, keep, ◌==◌,
  if◌then◌else◌, Bool-cases, is_some, if-both,
}
use qs_farm_be.Domain.{Uuid, Time}
use qs_farm_be.Schedule.{DeviceSchedule, ScheduleType, recurring, one_time, save_schedule}
use qs_farm_be.Schedule.Job.{executed_row}

-- The rows with an id are one-time schedules; and they were executed.
abbrev pub AreOneTime : Uuid → List DeviceSchedule → Type 0
AreOneTime i = All (λ s. (s.id == i) ≡ true → s.kind ≡ one_time)

abbrev pub AreSpent : Uuid → List DeviceSchedule → Type 0
AreSpent i =
    All (λ s. (s.id == i) ≡ true → (s.kind ≡ one_time) × (is_some s.last_executed_at ≡ true))

unfoldable pub rows_with : Uuid → List DeviceSchedule → ℕ
rows_with i [] = 0
rows_with i (s ∷ ss) = let rest = rows_with i ss in if s.id == i then suc rest else rest

-- The rows with an id that are not executed yet.
unfoldable pub open_rows : Uuid → List DeviceSchedule → ℕ
open_rows i [] = 0
open_rows i (s ∷ ss) =
    let rest = open_rows i ss in
    if s.id == i then (if is_some s.last_executed_at then rest else suc rest) else rest

kind-cases : (k : ScheduleType) → (k ≡ one_time) ⊎ (k ≡ recurring)
kind-cases one_time = inl refl
kind-cases recurring = inr refl

pub executed_row-fields :
    (now : Time) (s : DeviceSchedule)
    → ((executed_row now s).id ≡ s.id)
      × ((executed_row now s).kind ≡ s.kind)
      × (is_some (executed_row now s).last_executed_at ≡ true)
unfolding executed_row
executed_row-fields now s = elim (kind-cases s.kind) [
  | inl h ↦ rw (h, executed_row) (refl, h, refl)
  | inr h ↦ rw (h, executed_row) (refl, h, refl)
]

pub save-All :
    (P : DeviceSchedule → Type 0) (c : DeviceSchedule) (rows : List DeviceSchedule)
    → P c
    → All P rows
    → All P (save_schedule c rows)
unfolding save_schedule
save-All P c [] h k = tt
save-All P c (x ∷ xs) h k = (if-both P (x.id == c.id) h k.0, save-All P c xs h k.1)

pub save-AreSpent :
    (i : Uuid) (c : DeviceSchedule) (rows : List DeviceSchedule)
    → (c.id == i) ≡ true
    → (c.kind ≡ one_time) × (is_some c.last_executed_at ≡ true)
    → AreSpent i (save_schedule c rows)
unfolding save_schedule
save-AreSpent i c [] h k = tt
save-AreSpent i c (x ∷ xs) h k = (
  elim (Bool-cases (x.id == c.id)) [
    | inl e ↦ rw e (λ u. k)
    | inr e ↦ rw e (λ u. ground (arith, h, e, u))
  ],
  save-AreSpent i c xs h k,
)

pub rows_with-save :
    (i : Uuid) (c : DeviceSchedule) (rows : List DeviceSchedule)
    → rows_with i (save_schedule c rows) ≡ rows_with i rows
unfolding save_schedule rows_with
rows_with-save i c [] = refl
rows_with-save i c (x ∷ xs) =
    let rest = rows_with-save i c xs in
    elim (Bool-cases (x.id == c.id)) [
      | inl e ↦ rw e (ground (arith, e, rest))
      | inr e ↦ rw e (ground (arith, rest))
    ]

pub open_rows-keep :
    (i : Uuid) (p : DeviceSchedule → Bool) (rows : List DeviceSchedule)
    → open_rows i (keep p rows) ≤ open_rows i rows
unfolding open_rows
open_rows-keep i p [] = omega arith
open_rows-keep i p (x ∷ xs) = ground (arith, open_rows-keep i p xs)

pub open_rows-rows_with :
    (i : Uuid) (rows : List DeviceSchedule) → open_rows i rows ≤ rows_with i rows
unfolding open_rows rows_with
open_rows-rows_with i [] = omega arith
open_rows-rows_with i (x ∷ xs) = ground (arith, open_rows-rows_with i xs)

pub open_rows-AreSpent :
    (i : Uuid) (rows : List DeviceSchedule) → AreSpent i rows → open_rows i rows ≡ 0
unfolding open_rows
open_rows-AreSpent i [] h = refl
open_rows-AreSpent i (x ∷ xs) h = elim (Bool-cases (x.id == i)) [
  | inl e ↦ ground (arith, e, (h.0 e).1, open_rows-AreSpent i xs h.1)
  | inr e ↦ ground (arith, e, open_rows-AreSpent i xs h.1)
]

pub keep-AreOneTime :
    (i : Uuid) (p : DeviceSchedule → Bool) (rows : List DeviceSchedule)
    → AreOneTime i rows
    → AreOneTime i (keep p rows)
keep-AreOneTime i p [] h = tt
keep-AreOneTime i p (x ∷ xs) h = elim (Bool-cases (p x)) [
  | inl e ↦ rw e (h.0, keep-AreOneTime i p xs h.1)
  | inr e ↦ rw e (keep-AreOneTime i p xs h.1)
]
