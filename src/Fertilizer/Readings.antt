-- ===== src/Fertilizer/Readings.antt =====
-- The readings and alerts of the fertilizer's sensors in the two services' queries:
-- fertilizer/fertilizer.service.ts and pump/pump.service.ts.
use qs_farm_be.Common.{
  is_some, ◌≡◌, refl, ap, Bool, true, false, ◌&&◌, List, [], ◌∷◌, map, arith, leb, ◌==◌, find, keep,
  Bool-cases, inl, inr,
}
use qs_farm_be.Domain.{
  Uuid, Time, SensorType, fert_current, water_pressure, water_flow, critical, sensor_eq, level_eq,
}
use qs_farm_be.Pump.{
  SensorData, AlertRow, in_window, alert_in_window, is_overcurrent, last_sensor_timestamp,
}
use qs_farm_be.Fertilizer.{
  is_fert_sensor, reading_in_window, fert_overcurrent, fert_alert, last_fert_timestamp,
}
use qs_farm_be.Fertilizer.AsPump.{as_sensor, as_readings, as_alerts}

sensor_eq-as_sensor :
    (a b : SensorType)
    → is_fert_sensor a ≡ true
    → is_fert_sensor b ≡ true
    → sensor_eq (as_sensor a) (as_sensor b) ≡ sensor_eq a b
sensor_eq-as_sensor a b h k = ground arith

sensor_eq_other :
    (a b : SensorType) → is_fert_sensor a ≡ false → is_fert_sensor b ≡ true → sensor_eq a b ≡ false
sensor_eq_other a b h k = ground arith

water_free :
    (a : SensorType)
    → is_fert_sensor a ≡ true
    → (sensor_eq (as_sensor a) water_pressure ≡ false)
      × (sensor_eq (as_sensor a) water_flow ≡ false)
water_free a h = ground arith

shuffle : (d f t s l : Bool) → ((d && f && t) && s && l) ≡ (d && s && l && f && t)
shuffle d f t s l = ground arith

module _ {F : Type 0} where
  pub last_timestamp-as_readings :
      (d : Uuid) (rs : List (SensorData F))
      → last_sensor_timestamp d (as_readings rs) ≡ last_fert_timestamp d rs
  unfolding last_sensor_timestamp last_fert_timestamp
  last_timestamp-as_readings d [] = refl
  last_timestamp-as_readings d (r ∷ rs) = elim (Bool-cases (is_fert_sensor r.sensor_type)) [
    | inl h ↦
        rw (h, last_timestamp-as_readings d rs)
          (elim (Bool-cases (r.device_id == d)) [ inl k ↦ rw k refl | inr k ↦ rw k refl ])
    | inr h ↦
        rw (h, last_timestamp-as_readings d rs)
          (elim (Bool-cases (r.device_id == d)) [ inl k ↦ rw k refl | inr k ↦ rw k refl ])
  ]

  -- The values of one of the fertilizer's sensors in a window.
  pub values-as_readings :
      (d : Uuid) (ty : SensorType) (from to : Time) (rs : List (SensorData F))
      → is_fert_sensor ty ≡ true
      → map
          (λ (r : SensorData F). r.value)
          (keep (in_window d (as_sensor ty) from to) (as_readings rs))
        ≡ map (λ (r : SensorData F). r.value) (keep (reading_in_window d ty from to) rs)
  values-as_readings d ty from to [] h = refl
  values-as_readings d ty from to (r ∷ rs) h =
      let rest = values-as_readings d ty from to rs h in
      elim (Bool-cases (is_fert_sensor r.sensor_type)) [
        | inl k ↦
            rw (k, sensor_eq-as_sensor r.sensor_type ty k h)
              (elim (Bool-cases (reading_in_window d ty from to r)) [
                | inl w ↦ rw w (ap (λ vs. r.value ∷ vs) rest)
                | inr w ↦ rw w rest
              ])
        | inr k ↦
            rw (k, sensor_eq_other r.sensor_type ty k h)
              (elim (Bool-cases (r.device_id == d)) [ inl w ↦ rw w rest | inr w ↦ rw w rest ])
      ]

  pub no_water :
      (d : Uuid) (from to : Time) (rs : List (SensorData F))
      → (keep (in_window d water_pressure from to) (as_readings rs) ≡ [])
        × (keep (in_window d water_flow from to) (as_readings rs) ≡ [])
  no_water d from to [] = (refl, refl)
  no_water d from to (r ∷ rs) = elim (Bool-cases (is_fert_sensor r.sensor_type)) [
    | inl k ↦
        rw (k, (water_free r.sensor_type k).0, (water_free r.sensor_type k).1)
          (elim (Bool-cases (r.device_id == d)) [
            | inl w ↦ rw w (no_water d from to rs)
            | inr w ↦ rw w (no_water d from to rs)
          ])
    | inr k ↦ rw k (no_water d from to rs)
  ]

  overcurrent_eq :
      (d : Uuid) (from to : Time) (a : AlertRow F)
      → is_fert_sensor a.sensor_type ≡ true
      → is_overcurrent d from to (record a { sensor_type = as_sensor a.sensor_type })
        ≡ fert_overcurrent d from to a
  overcurrent_eq d from to a k = rw (sensor_eq-as_sensor a.sensor_type fert_current k refl) (
      shuffle (a.device_id == d) (leb from a.created_at) (leb a.created_at to)
        (sensor_eq a.sensor_type fert_current) (level_eq a.level critical))

  pub overcurrent-as_alerts :
      (d : Uuid) (from to : Time) (rs : List (AlertRow F))
      → map (λ (a : AlertRow F). a.value) (keep (is_overcurrent d from to) (as_alerts rs))
        ≡ map (λ (a : AlertRow F). a.value) (keep (fert_overcurrent d from to) rs)
  overcurrent-as_alerts d from to [] = refl
  overcurrent-as_alerts d from to (a ∷ rs) =
      let rest = overcurrent-as_alerts d from to rs in
      elim (Bool-cases (is_fert_sensor a.sensor_type)) [
        | inl k ↦
            rw (k, overcurrent_eq d from to a k)
              (elim (Bool-cases (fert_overcurrent d from to a)) [
                | inl w ↦ rw w (ap (λ vs. a.value ∷ vs) rest)
                | inr w ↦ rw w rest
              ])
        | inr k ↦
            rw (k, sensor_eq_other a.sensor_type fert_current k refl)
              (elim (Bool-cases (a.device_id == d)) [ inl w ↦ rw w rest | inr w ↦ rw w rest ])
      ]

  pub alert-as_alerts :
      (d : Uuid) (from to : Time) (rs : List (AlertRow F))
      → is_some (find (alert_in_window d from to) (as_alerts rs))
        ≡ is_some (find (fert_alert d from to) rs)
  alert-as_alerts d from to [] = refl
  alert-as_alerts d from to (a ∷ rs) =
      let rest = alert-as_alerts d from to rs in
      elim (Bool-cases (is_fert_sensor a.sensor_type)) [
        | inl k ↦ rw k (elim (Bool-cases (a.device_id == d)) [
          | inl w ↦ rw w (elim (Bool-cases (leb from a.created_at && leb a.created_at to)) [
            | inl v ↦ rw v refl
            | inr v ↦ rw v rest
          ])
          | inr w ↦ rw w rest
        ])
        | inr k ↦
            rw k (elim (Bool-cases (a.device_id == d)) [ inl w ↦ rw w rest | inr w ↦ rw w rest ])
      ]
