-- ===== src/Schedule/Targets.antt =====
-- What holds of the rows that the requests to schedule/schedule.service.ts leave.
use qs_farm_be.Common.{
  ◌≡◌, ◌≢◌, refl, inl, inr, Bool, true, false, not, ◌&&◌, Option, none, some, List, [], ◌∷◌, ◌++◌,
  arith, All, All-mem, find-mem, keep, ◌==◌, Bool-cases, Option-cases, ◌<|>◌,
}
use qs_farm_be.Domain.{Uuid}
use qs_farm_be.Schedule.{
  DeviceSchedule, ScheduleType, ScheduleDto, ScheduleResult, refused, saved, not_one_target,
  has_one_target, validate_schedule_fields, create, update, remove, toggle, preload, schedule_of,
  schedule_with, given, spread, names_target,
}
use qs_farm_be.Schedule.Spent.{save-All}

-- Exactly one target, and the fields that the type asks for.
abbrev pub IsComplete : DeviceSchedule → Type 0
IsComplete s =
    (has_one_target s.device_id s.farm_id s.zone_id ≡ true)
    × (validate_schedule_fields s.kind s.days_of_week s.time s.execute_at ≡ none)

pub data Request : Type 0 where
  create_request : Uuid → ScheduleType → ScheduleDto → Request
  update_request : Uuid → ScheduleDto → Request
  toggle_request : Uuid → Request
  remove_request : Uuid → Request

-- A refused request changes nothing.
abbrev pub rows_after : List DeviceSchedule → ScheduleResult → List DeviceSchedule
rows_after rows (refused f) = rows
rows_after rows (saved s rows') = rows'

unfoldable pub handle_request : Request → List DeviceSchedule → List DeviceSchedule
handle_request (create_request i kind dto) rows = rows_after rows (create i kind dto rows)
handle_request (update_request i dto) rows = rows_after rows (update i dto rows)
handle_request (toggle_request i) rows = rows_after rows (toggle i rows)
handle_request (remove_request i) rows = rows_after rows (remove i rows)

unfoldable pub handle_requests : List Request → List DeviceSchedule → List DeviceSchedule
handle_requests [] rows = rows
handle_requests (r ∷ rs) rows = handle_requests rs (handle_request r rows)

-- A request to update sets no target to null.
abbrev pub HasNoNull : Request → Type 0
HasNoNull (update_request i dto) =
    (dto.device_id ≢ some none) × (dto.farm_id ≢ some none) × (dto.zone_id ≢ some none)
HasNoNull _ = Unit

abbrev pub AreComplete : List DeviceSchedule → Type 0
AreComplete = All IsComplete

spread-given :
    (old : Option Uuid) (new : Option (Option Uuid))
    → new ≢ some none
    → spread old new ≡ (given new <|> old)
spread-given old none h = refl
spread-given old (some none) h = absurd (h refl)
spread-given old (some (some x)) h = refl

append-AreComplete :
    (rows : List DeviceSchedule) (s : DeviceSchedule)
    → AreComplete rows
    → IsComplete s
    → AreComplete (rows ++ s ∷ [])
append-AreComplete [] s h k = (k, tt)
append-AreComplete (x ∷ xs) s h k = (h.0, append-AreComplete xs s h.1 k)

keep-AreComplete :
    (p : DeviceSchedule → Bool) (rows : List DeviceSchedule)
    → AreComplete rows
    → AreComplete (keep p rows)
keep-AreComplete p [] h = tt
keep-AreComplete p (x ∷ xs) h = elim (Bool-cases (p x)) [
  | inl e ↦ rw e (h.0, keep-AreComplete p xs h.1)
  | inr e ↦ rw e (keep-AreComplete p xs h.1)
]

create-AreComplete :
    (i : Uuid) (kind : ScheduleType) (dto : ScheduleDto) (rows : List DeviceSchedule)
    → AreComplete rows
    → AreComplete (rows_after rows (create i kind dto rows))
unfolding create schedule_of
create-AreComplete i kind dto rows h =
    elim (Bool-cases
      (has_one_target (given dto.device_id) (given dto.farm_id) (given dto.zone_id))) [
        | inr t ↦ rw (create, t) h
        | inl t ↦
            elim (Option-cases (
              validate_schedule_fields kind (given dto.days_of_week) (given dto.time)
                (given dto.execute_at))) [
                  | inl v ↦ rw (create, t, v) (append-AreComplete rows _ h (t, v))
                  | inr (f, v) ↦ rw (create, t, v) h
                ]
      ]

-- The targets that an update checks are those that it saves.
preload-target :
    (dto : ScheduleDto) (s : DeviceSchedule)
    → HasNoNull (update_request s.id dto)
    → has_one_target s.device_id s.farm_id s.zone_id ≡ true
    → (names_target dto
        && not (
            has_one_target
              (given dto.device_id <|> s.device_id)
              (given dto.farm_id <|> s.farm_id)
              (given dto.zone_id <|> s.zone_id)))
      ≡ false
    → has_one_target (preload dto s).device_id (preload dto s).farm_id (preload dto s).zone_id
      ≡ true
unfolding preload
preload-target dto s n old h =
    rw
      (
        spread-given s.device_id dto.device_id n.0,
        spread-given s.farm_id dto.farm_id n.1,
        spread-given s.zone_id dto.zone_id n.2,
      )
      (elim (Bool-cases (names_target dto)) [
        | inl e ↦ ground (arith, e, h)
        | inr e ↦
            let d : dto.device_id ≡ none = ground (arith, e) in
            let f : dto.farm_id ≡ none = ground (arith, e) in
            let z : dto.zone_id ≡ none = ground (arith, e) in rw (d, f, z) old
      ])

update-AreComplete :
    (i : Uuid) (dto : ScheduleDto) (rows : List DeviceSchedule)
    → HasNoNull (update_request i dto)
    → AreComplete rows
    → AreComplete (rows_after rows (update i dto rows))
unfolding update
update-AreComplete i dto rows n h = elim (Option-cases (schedule_with i rows)) [
  | inl e ↦ rw (update, e) h
  | inr (s, e) ↦
      let old =
        All-mem IsComplete s rows h (find-mem (λ (x : DeviceSchedule). x.id == i) rows s e) in
      let new = preload dto s in
      elim (Bool-cases (
        names_target dto
        && not (
            has_one_target (given dto.device_id <|> s.device_id) (given dto.farm_id <|> s.farm_id)
              (given dto.zone_id <|> s.zone_id)))) [
                | inl t ↦ rw (update, e, t) h
                | inr t ↦
                    elim (Option-cases (
                      validate_schedule_fields new.kind new.days_of_week new.time new.execute_at)) [
                        | inr (f, v) ↦ rw (update, e, t, v) h
                        | inl v ↦
                            rw (update, e, t, v)
                              (save-All IsComplete new rows (preload-target dto s n old.0 t, v) h)
                      ]
              ]
]

toggle-AreComplete :
    (i : Uuid) (rows : List DeviceSchedule)
    → AreComplete rows
    → AreComplete (rows_after rows (toggle i rows))
unfolding toggle
toggle-AreComplete i rows h = elim (Option-cases (schedule_with i rows)) [
  | inl e ↦ rw (toggle, e) h
  | inr (s, e) ↦
      let old =
        All-mem IsComplete s rows h (find-mem (λ (x : DeviceSchedule). x.id == i) rows s e) in
      rw (toggle, e) (save-All IsComplete _ rows old h)
]

remove-AreComplete :
    (i : Uuid) (rows : List DeviceSchedule)
    → AreComplete rows
    → AreComplete (rows_after rows (remove i rows))
unfolding remove
remove-AreComplete i rows h = elim (Option-cases (schedule_with i rows)) [
  | inl e ↦ rw (remove, e) h
  | inr (s, e) ↦ rw (remove, e) (keep-AreComplete _ rows h)
]

-- Over any requests to create, update, toggle and remove, each row keeps exactly one target and the
-- fields that its type asks for, provided this holds before and no update sets a target to null.
pub handle_requests-AreComplete :
    (rs : List Request) (rows : List DeviceSchedule)
    → All HasNoNull rs
    → AreComplete rows
    → AreComplete (handle_requests rs rows)
unfolding handle_requests handle_request
handle_requests-AreComplete [] rows n h = h
handle_requests-AreComplete (create_request i kind dto ∷ rs) rows n h =
    handle_requests-AreComplete rs _ n.1 (create-AreComplete i kind dto rows h)
handle_requests-AreComplete (update_request i dto ∷ rs) rows n h =
    handle_requests-AreComplete rs _ n.1 (update-AreComplete i dto rows n.0 h)
handle_requests-AreComplete (toggle_request i ∷ rs) rows n h =
    handle_requests-AreComplete rs _ n.1 (toggle-AreComplete i rows h)
handle_requests-AreComplete (remove_request i ∷ rs) rows n h =
    handle_requests-AreComplete rs _ n.1 (remove-AreComplete i rows h)

two_targets : (o f : Option Uuid) (d z : Uuid) → has_one_target (o <|> some d) f (some z) ≡ false
unfolding has_one_target
two_targets none none d z = refl
two_targets none (some f) d z = refl
two_targets (some o) none d z = refl
two_targets (some o) (some f) d z = refl

-- A row with a device as its only target is not moved to a zone, whatever the request says of the
-- device.
pub update_retarget :
    (i : Uuid) (dto : ScheduleDto) (rows : List DeviceSchedule) (s : DeviceSchedule) (d z : Uuid)
    → schedule_with i rows ≡ some s
    → s.device_id ≡ some d
    → dto.zone_id ≡ some (some z)
    → update i dto rows ≡ refused not_one_target
unfolding update
update_retarget i dto rows s d z e h k =
    let two = two_targets (given dto.device_id) (given dto.farm_id <|> s.farm_id) d z in
    let named : names_target dto ≡ true = ground (arith, k) in
    let bad : (names_target dto
          && not (
              has_one_target (given dto.device_id <|> s.device_id) (given dto.farm_id <|> s.farm_id)
                (given dto.zone_id <|> s.zone_id)))
        ≡ true =
      rw (named, h, k, two) refl in
    rw (update, e, bad) refl
