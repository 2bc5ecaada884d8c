-- ===== src/ConfigResolution/Thresholds.antt =====
-- Which thresholds `resolveThresholdsForSensor` of zone/config-resolution.service.ts puts in force.
use mathlib.Core.Path.{subst}
use qs_farm_be.Common.{◌≡◌, sym, ◌⊎◌, inl, inr, Option, some, List, [], ◌∷◌, Memᴰ, arith, map}
use qs_farm_be.Domain.{IrrigationMode, ThresholdLevel, critical, warning, SensorType, ThresholdRow}
use qs_farm_be.ConfigResolution.{
  ResolvedDeviceContext, ResolvedThreshold, resolved, pick_threshold, zone_thresholds_of,
  is_check_all, resolve_thresholds_for_sensor,
}
use qs_farm_be.ConfigResolution.Picking.{
  Origin, applicable, IsCandidate, IsBest, pick_threshold-IsBest, pick_threshold-some,
  mem-push_found, push_found-mem, push_found_levels,
}

module _ {F : Type 0} where
  module _ (context : ResolvedDeviceContext F) (device_rows : List (ThresholdRow F))
      (sensor_type : SensorType) (mode : IrrigationMode) where
    -- The rows that count for this sensor.
    abbrev pub rows_in_force : Origin → List (ThresholdRow F)
    rows_in_force =
        applicable (is_check_all context) device_rows (zone_thresholds_of context sensor_type)

    abbrev in_force : List (ResolvedThreshold F)
    in_force = resolve_thresholds_for_sensor context device_rows sensor_type mode

    abbrev pick : ThresholdLevel → Option (ResolvedThreshold F)
    pick level =
        pick_threshold (is_check_all context) device_rows (zone_thresholds_of context sensor_type)
          level mode

    pick_level :
        (level : ThresholdLevel) (t : ResolvedThreshold F) → pick level ≡ some t → t.level ≡ level
    pick_level level t h =
        let (row, e, b) =
          pick_threshold-IsBest level mode (is_check_all context) device_rows
            (zone_thresholds_of context sensor_type) t h in
        ground (arith, b.candidate.same_level)

    either_level :
        (level : ThresholdLevel) (t : ResolvedThreshold F)
        → pick level ≡ some t
        → (pick critical ≡ some t) ⊎ (pick warning ≡ some t)
    either_level critical t e = inl e
    either_level warning t e = inr e

    in_force-pick : (t : ResolvedThreshold F) → Memᴰ t in_force → pick t.level ≡ some t
    unfolding resolve_thresholds_for_sensor
    in_force-pick t m = elim (mem-push_found (pick critical) (pick warning) t m) [
      | inl e ↦ subst (λ l. pick l ≡ some t) (sym (pick_level critical t e)) e
      | inr e ↦ subst (λ l. pick l ≡ some t) (sym (pick_level warning t e)) e
    ]

    -- Every threshold that is put in force for a sensor comes from a row of its own level, in the
    -- active irrigation mode or in none, of the device or its zone; and no row that counts is
    -- preferred to it. The order is: device with the mode, device with none, zone with the mode,
    -- zone with none; a zone with `checkAll` leaves the device's rows out.
    pub resolve_thresholds-IsBest :
        (t : ResolvedThreshold F)
        → Memᴰ t (resolve_thresholds_for_sensor context device_rows sensor_type mode)
        → (row : ThresholdRow F) × (t ≡ resolved row) × IsBest t.level mode rows_in_force row
    resolve_thresholds-IsBest t m =
        pick_threshold-IsBest t.level mode (is_check_all context) device_rows
          (zone_thresholds_of context sensor_type) t (in_force-pick t m)

    -- A level for which any row counts has a threshold in force.
    pub resolve_thresholds_complete :
        (level : ThresholdLevel) (o : Origin) (r : ThresholdRow F)
        → IsCandidate level mode (rows_in_force o) r
        → (t : ResolvedThreshold F) × Memᴰ t
            (resolve_thresholds_for_sensor context device_rows sensor_type mode)
          × (t.level ≡ level)
    unfolding resolve_thresholds_for_sensor
    resolve_thresholds_complete level o r c =
        let (t, e, l) =
          pick_threshold-some level mode (is_check_all context) device_rows
            (zone_thresholds_of context sensor_type) o r c in
        (t, push_found-mem (pick critical) (pick warning) t (either_level level t e), l)

    -- At most one threshold of each level is in force, and a critical one stands before a warning.
    pub resolve_thresholds_levels :
        Memᴰ
          (map
            (λ (t : ResolvedThreshold F). t.level)
            (resolve_thresholds_for_sensor context device_rows sensor_type mode))
          ([] ∷ (critical ∷ []) ∷ (warning ∷ []) ∷ (critical ∷ warning ∷ []) ∷ [])
    unfolding resolve_thresholds_for_sensor
    resolve_thresholds_levels =
        push_found_levels (pick critical) (pick warning) (pick_level critical) (pick_level warning)
