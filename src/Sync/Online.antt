-- ===== src/Sync/Online.antt =====
-- When a device counts as online, for device/sync/sync.service.ts.
use qs_farm_be.Common.{
  ◌+◌, ◌≤◌, ◌<◌, ◌≡◌, refl, ◌∙◌, inl, inr, Bool, true, false, Option, none, some, List, [], ◌∷◌,
  Memᴰ, arith, ltb, ◌==◌, if-both, Bool-cases, Option-cases,
}
use qs_farm_be.Domain.{Uuid, Time, Device}
use qs_farm_be.Sync.{
  Payload, SyncWorld, pump_disconnected, fertilizer_disconnected, Context, update_device_row,
  update_row, device_of, get_device_ids, handle_device_status, handle_device_telemetry,
  is_device_online, see, says,
}

-- The row of a device after its update.
pub device_of-update_device_row :
    (i : Uuid) (f : Device → Device) (ds : List Device) (d : Device)
    → ((e : Device) → (f e).id ≡ e.id)
    → device_of i ds ≡ some d
    → device_of i (update_device_row i f ds) ≡ some (f d)
unfolding update_device_row
device_of-update_device_row i f [] d k h = cc
device_of-update_device_row i f (e ∷ ds) d k h = elim (Bool-cases (e.id == i)) [
  | inl same ↦ let kept = k e in ground (arith, same, kept, h)
  | inr other ↦
      let inner = device_of-update_device_row i f ds d k (ground (arith, other, h)) in
      ground (arith, other, inner)
]

device_of-missing :
    (i : Uuid) (f : Device → Device) (ds : List Device)
    → ((e : Device) → (f e).id ≡ e.id)
    → device_of i ds ≡ none
    → device_of i (update_device_row i f ds) ≡ none
unfolding update_device_row
device_of-missing i f [] k h = refl
device_of-missing i f (e ∷ ds) k h = elim (Bool-cases (e.id == i)) [
  | inl same ↦ ground (arith, same, h)
  | inr other ↦
      let inner = device_of-missing i f ds k (ground (arith, other, h)) in
      ground (arith, other, inner)
]

-- Asking for the context of a device leaves the rows as they are.
pub get_device_ids-devices :
    (now : Time) (i : Uuid) (w : SyncWorld) → (get_device_ids now i w).1.devices ≡ w.devices
unfolding get_device_ids
get_device_ids-devices now i w = elim (Option-cases (w.contexts i)) [
  | inl n ↦ rw (n, get_device_ids) refl
  | inr (e, h) ↦
      rw (h, get_device_ids)
        (if-both (λ (r : Context × SyncWorld). r.1.devices ≡ w.devices)
          (ltb now (e.loaded_at + 60000)) refl refl)
]

see-id : (now : Time) (d : Device) → (see now d).id ≡ d.id
unfolding see
see-id now d = elim (Option-cases d.last_seen_at) [
  | inl n ↦ rw n refl
  | inr (t, h) ↦ rw h (if-both (λ (r : Device). r.id ≡ d.id) (ltb (t + 30000) now) refl refl)
]

-- What a device's reports leave in the column.
see-recent :
    (now later : Time) (d : Device)
    → now ≤ later
    → later < now + 60000
    → elim (see now d).last_seen_at [ none ↦ false | some t ↦ ltb later (t + 90000) ] ≡ true
unfolding see
see-recent now later d h k = elim (Option-cases d.last_seen_at) [
  | inl n ↦ rw n (ground arith)
  | inr (t, e) ↦ rw e (elim (Bool-cases (ltb (t + 30000) now)) [
    | inl old ↦ rw old (ground arith)
    | inr new ↦ rw (new, e) (ground (arith, new))
  ])
]

abbrev row_online : Time → Option Device → Bool
row_online later none = false
row_online later (some d) = elim d.last_seen_at [ none ↦ false | some t ↦ ltb later (t + 90000) ]

online-row :
    (later : Time) (i : Uuid) (w : SyncWorld) (ds : List Device) (o : Option Device)
    → w.devices ≡ ds
    → device_of i ds ≡ o
    → is_device_online later i w ≡ row_online later o
unfolding is_device_online
online-row later i w ds none e h = rw (e, is_device_online, h) refl
online-row later i w ds (some d) e h = rw (e, is_device_online, h) refl

module _ (D : Type 0) where
  -- If a device of the table reports telemetry, then it counts as online for the next 60 seconds:
  -- the 90 seconds of the test, less the 30 seconds in which the column is not written again.
  pub handle_device_telemetry-online :
      (now later : Time) (i : Uuid) (p : Payload) (w : SyncWorld) (d : Device)
      → device_of i w.devices ≡ some d
      → now ≤ later
      → later < now + 60000
      → is_device_online later i (handle_device_telemetry {D = D} now i p w).0 ≡ true
  unfolding handle_device_telemetry
  handle_device_telemetry-online now later i p w d found h k =
      let kept = get_device_ids-devices now i (update_row i (see now) w) in
      let row = device_of-update_device_row i (see now) w.devices d (see-id now) found in
      let recent = see-recent now later d h k in online-row later i _ _ _ kept row ∙ recent

  -- After the last will of a device it does not count as online until it reports again, and the
  -- pump service and the fertilizer service are both told that it is gone.
  pub handle_device_status-lwt :
      (now later : Time) (i : Uuid) (p : Payload) (w : SyncWorld)
      → says p.kind "heartbeat" ≡ false
      → says p.reason "lwt" ≡ true
      → (is_device_online later i (handle_device_status {D = D} now i p w).0 ≡ false)
        × ((farm_id : Option Uuid) × Memᴰ
              (pump_disconnected (record { device_id = i; farm_id = farm_id; timestamp = now }))
              (handle_device_status {D = D} now i p w).1
            × Memᴰ
                (fertilizer_disconnected
                  (record { device_id = i; farm_id = farm_id; timestamp = now }))
                (handle_device_status {D = D} now i p w).1)
  unfolding handle_device_status
  handle_device_status-lwt now later i p w h k =
      let gone = λ (d : Device). record d { last_seen_at = none } in
      let kept = get_device_ids-devices now i (update_row i gone w) in
      rw (h, k)
        (
          elim (Option-cases (device_of i w.devices)) [
            | inl n ↦
                online-row later i _ _ none kept (device_of-missing i gone w.devices (λ d. refl) n)
            | inr (d, e) ↦
                online-row later i _ _ (some (gone d)) kept
                  (device_of-update_device_row i gone w.devices d (λ d. refl) e)
          ],
          (_, Memᴰ.tail (Memᴰ.head refl), Memᴰ.tail (Memᴰ.tail (Memᴰ.head refl))),
        )
