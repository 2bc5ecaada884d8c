-- ===== src/ConfigResolution/Picking.antt =====
-- The order in which `pickThreshold` of zone/config-resolution.service.ts prefers thresholds.
use qs_farm_be.Common.{
  ℕ, ◌+◌, ◌≤◌, ◌≡◌, refl, ◌⊎◌, inl, inr, Bool, true, false, Option, none, some, List, [], ◌∷◌, Memᴰ,
  arith, if◌then◌else◌, find, find-test, find-mem, find-none, Option-cases, ◌<|>◌, ◌++◌, map,
}
use qs_farm_be.Domain.{
  IrrigationMode, ThresholdLevel, critical, warning, ThresholdRow, mode_eq, mode_eq-true, level_eq,
  level_eq-true,
}
use qs_farm_be.ConfigResolution.{
  ResolvedThreshold, is_wanted, resolved, found, find_device_threshold, find_zone_threshold,
  pick_threshold, push_found,
}

pub data Origin : Type 0 where
  from_device from_zone : Origin

-- The order of preference: 0 for the device's row with this mode, 1 for the device's row with none,
-- 2 and 3 for the zone's.
abbrev rank_of_mode : Option IrrigationMode → ℕ
rank_of_mode none = 1
rank_of_mode (some m) = 0

abbrev rank_of_origin : Origin → ℕ
rank_of_origin from_device = 0
rank_of_origin from_zone = 2

level_eq_refl : (l : ThresholdLevel) → level_eq l l ≡ true
level_eq_refl l = ground arith

mode_eq_refl : (m : IrrigationMode) → mode_eq m m ≡ true
mode_eq_refl m = ground arith

module _ {F : Type 0} where
  abbrev pub rank : Origin → ThresholdRow F → ℕ
  rank o row = rank_of_origin o + rank_of_mode row.irrigation_mode

  -- Rows that count: a zone with `checkAll` hides the device's own.
  abbrev pub applicable :
      Bool → List (ThresholdRow F) → List (ThresholdRow F) → Origin → List (ThresholdRow F)
  applicable check_all device_rows zone_rows from_device = if check_all then [] else device_rows
  applicable check_all device_rows zone_rows from_zone = zone_rows

  -- A row that may speak for a level in an irrigation mode: its own mode is this one or null.
  pub record IsCandidate (level : ThresholdLevel) (mode : IrrigationMode)
      (rows : List (ThresholdRow F)) (row : ThresholdRow F) : Type 0 where
    pub listed : Memᴰ row rows
    pub same_level : row.level ≡ level
    pub same_mode : (row.irrigation_mode ≡ some mode) ⊎ (row.irrigation_mode ≡ none)

  module _ (level : ThresholdLevel) (mode : IrrigationMode) where
    exact_hit :
        (rows : List (ThresholdRow F)) (row : ThresholdRow F)
        → find (is_wanted level (some mode)) rows ≡ some row
        → IsCandidate level mode rows row × (row.irrigation_mode ≡ some mode)
    exact_hit rows row h =
        let test = find-test (is_wanted level (some mode)) rows row h in
        let same : row.irrigation_mode ≡ some mode = elim (Option-cases row.irrigation_mode) [
          | inl e ↦ ground arith
          | inr (m, e) ↦ ground (arith, mode_eq-true m mode)
        ] in
        (
          record {
            listed = find-mem (is_wanted level (some mode)) rows row h;
            same_level = ground (arith, level_eq-true row.level level);
            same_mode = inl same;
          },
          same,
        )

    any_hit :
        (rows : List (ThresholdRow F)) (row : ThresholdRow F)
        → find (is_wanted level none) rows ≡ some row
        → IsCandidate level mode rows row × (row.irrigation_mode ≡ none)
    any_hit rows row h =
        let test = find-test (is_wanted level none) rows row h in
        let same : row.irrigation_mode ≡ none = ground arith in
        (
          record {
            listed = find-mem (is_wanted level none) rows row h;
            same_level = ground (arith, level_eq-true row.level level);
            same_mode = inr same;
          },
          same,
        )

    -- No row with this mode was found: a candidate has none.
    exact_miss :
        (rows : List (ThresholdRow F)) (row : ThresholdRow F)
        → find (is_wanted level (some mode)) rows ≡ none
        → IsCandidate level mode rows row
        → row.irrigation_mode ≡ none
    exact_miss rows row h c =
        let miss = find-none (is_wanted level (some mode)) rows row h c.listed in
        ground (arith, level_eq_refl level, mode_eq_refl mode, c.same_level, c.same_mode)

    any_miss :
        (rows : List (ThresholdRow F)) (row : ThresholdRow F)
        → find (is_wanted level none) rows ≡ none
        → IsCandidate level mode rows row
        → row.irrigation_mode ≡ some mode
    any_miss rows row h c =
        let miss = find-none (is_wanted level none) rows row h c.listed in
        ground (arith, level_eq_refl level, c.same_level, c.same_mode)

    -- The preferred row of a list of rows by origin.
    abbrev pick_row : (Origin → List (ThresholdRow F)) → Option (ThresholdRow F)
    pick_row rows =
        find (is_wanted level (some mode)) (rows from_device)
        <|> find (is_wanted level none) (rows from_device)
        <|> find (is_wanted level (some mode)) (rows from_zone)
        <|> find (is_wanted level none) (rows from_zone)

    -- A candidate that no other candidate beats.
    pub record IsBest (rows : Origin → List (ThresholdRow F)) (row : ThresholdRow F) : Type 0 where
      pub origin : Origin
      pub candidate : IsCandidate level mode (rows origin) row
      pub best :
          (o : Origin) (r : ThresholdRow F)
          → IsCandidate level mode (rows o) r
          → rank origin row ≤ rank o r

    found-or_null : (a b : Option (ThresholdRow F)) → (found a <|> found b) ≡ found (a <|> b)
    found-or_null none b = refl
    found-or_null (some t) b = refl

    pick_threshold-pick_row :
        (check_all : Bool) (device_rows zone_rows : List (ThresholdRow F))
        → pick_threshold check_all device_rows zone_rows level mode
          ≡ found (pick_row (applicable check_all device_rows zone_rows))
    unfolding pick_threshold find_device_threshold find_zone_threshold
    pick_threshold-pick_row true d z = found-or_null _ _
    pick_threshold-pick_row false d z = simp found-or_null

    module _ (rows : Origin → List (ThresholdRow F)) where
      abbrev exact : Origin → Option (ThresholdRow F)
      exact o = find (is_wanted level (some mode)) (rows o)

      abbrev any : Origin → Option (ThresholdRow F)
      any o = find (is_wanted level none) (rows o)

      -- What the lookups that came back empty say of every candidate.
      abbrev Beats : Origin → ThresholdRow F → Type 0
      Beats origin row =
          (o : Origin) (r : ThresholdRow F)
          → IsCandidate level mode (rows o) r
          → rank origin row ≤ rank o r

      Beats-second :
          (row : ThresholdRow F)
          → row.irrigation_mode ≡ none
          → exact from_device ≡ none
          → Beats from_device row
      Beats-second row e n from_device r c = ground (arith, exact_miss _ r n c)
      Beats-second row e n from_zone r c = ground arith

      Beats-third :
          (row : ThresholdRow F)
          → row.irrigation_mode ≡ some mode
          → exact from_device ≡ none
          → any from_device ≡ none
          → Beats from_zone row
      Beats-third row e n n' from_device r c = ground (arith, exact_miss _ r n c, any_miss _ r n' c)
      Beats-third row e n n' from_zone r c = ground arith

      Beats-fourth :
          (row : ThresholdRow F)
          → row.irrigation_mode ≡ none
          → exact from_device ≡ none
          → any from_device ≡ none
          → exact from_zone ≡ none
          → Beats from_zone row
      Beats-fourth row e n n' m from_device r c =
          ground (arith, exact_miss _ r n c, any_miss _ r n' c)
      Beats-fourth row e n n' m from_zone r c = ground (arith, exact_miss _ r m c)

      IsBest-of :
          (origin : Origin) (row : ThresholdRow F)
          → IsCandidate level mode (rows origin) row
          → Beats origin row
          → IsBest rows row
      IsBest-of origin row c b = record { origin = origin; candidate = c; best = b }

      pick_row-IsBest : (row : ThresholdRow F) → pick_row rows ≡ some row → IsBest rows row
      pick_row-IsBest row h = elim (Option-cases (exact from_device)) [
        | inr (r, e) ↦
            let hit = exact_hit (rows from_device) row (cc) in
            IsBest-of from_device row hit.0 (λ o x c. ground (arith, hit.1))
        | inl n ↦ elim (Option-cases (any from_device)) [
          | inr (r, e) ↦
              let hit = any_hit (rows from_device) row (ground arith) in
              IsBest-of from_device row hit.0 (Beats-second row hit.1 n)
          | inl n' ↦ elim (Option-cases (exact from_zone)) [
            | inr (r, e) ↦
                let hit = exact_hit (rows from_zone) row (ground arith) in
                IsBest-of from_zone row hit.0 (Beats-third row hit.1 n n')
            | inl m ↦
                let hit = any_hit (rows from_zone) row (ground arith) in
                IsBest-of from_zone row hit.0 (Beats-fourth row hit.1 n n' m)
          ]
        ]
      ]

      pick_row-none :
          (o : Origin) (r : ThresholdRow F)
          → pick_row rows ≡ none
          → ¬ IsCandidate level mode (rows o) r
      pick_row-none from_device r h c =
          let n : exact from_device ≡ none = ground arith in
          let n' : any from_device ≡ none = ground arith in
          ground (arith, exact_miss _ r n c, any_miss _ r n' c)
      pick_row-none from_zone r h c =
          let n : exact from_zone ≡ none = ground arith in
          let n' : any from_zone ≡ none = ground arith in
          ground (arith, exact_miss _ r n c, any_miss _ r n' c)

    pub pick_threshold-IsBest :
        (check_all : Bool) (device_rows zone_rows : List (ThresholdRow F)) (t : ResolvedThreshold F)
        → pick_threshold check_all device_rows zone_rows level mode ≡ some t
        → (row : ThresholdRow F) × (t ≡ resolved row)
          × IsBest (applicable check_all device_rows zone_rows) row
    pick_threshold-IsBest check_all device_rows zone_rows t h =
        let rows = applicable check_all device_rows zone_rows in
        let e = pick_threshold-pick_row check_all device_rows zone_rows in
        elim (Option-cases (pick_row rows)) [
          | inl n ↦ absurd (ground (arith, e))
          | inr (row, f) ↦ (row, ground (arith, e), pick_row-IsBest rows row f)
        ]

    pub pick_threshold-some :
        (check_all : Bool) (device_rows zone_rows : List (ThresholdRow F)) (o : Origin)
        (r : ThresholdRow F)
        → IsCandidate level mode (applicable check_all device_rows zone_rows o) r
        → (t : ResolvedThreshold F) × (pick_threshold check_all device_rows zone_rows level mode
            ≡ some t)
          × (t.level ≡ level)
    pick_threshold-some check_all device_rows zone_rows o r c =
        let rows = applicable check_all device_rows zone_rows in
        let e = pick_threshold-pick_row check_all device_rows zone_rows in
        elim (Option-cases (pick_row rows)) [
          | inl n ↦ absurd (pick_row-none rows o r n c)
          | inr (row, f) ↦
              (resolved row, ground (arith, e), (pick_row-IsBest rows row f).candidate.same_level)
        ]

  pub mem-push_found :
      (a b : Option (ResolvedThreshold F)) (t : ResolvedThreshold F)
      → Memᴰ t (push_found a ++ push_found b)
      → (a ≡ some t) ⊎ (b ≡ some t)
  mem-push_found (some x) b t (Memᴰ.head e) = inl (cc)
  mem-push_found (some x) (some y) t (Memᴰ.tail (Memᴰ.head e)) = inr (cc)
  mem-push_found none (some y) t (Memᴰ.head e) = inr (cc)
  mem-push_found none none t m = elim m [ ]
  mem-push_found none (some y) t (Memᴰ.tail m) = elim m [ ]
  mem-push_found (some x) none t (Memᴰ.tail m) = elim m [ ]
  mem-push_found (some x) (some y) t (Memᴰ.tail (Memᴰ.tail m)) = elim m [ ]

  pub push_found-mem :
      (a b : Option (ResolvedThreshold F)) (t : ResolvedThreshold F)
      → (a ≡ some t) ⊎ (b ≡ some t)
      → Memᴰ t (push_found a ++ push_found b)
  push_found-mem (some x) b t (inl e) = Memᴰ.head (ground arith)
  push_found-mem none b t (inl e) = cc
  push_found-mem (some x) (some y) t (inr e) = Memᴰ.tail (Memᴰ.head (ground arith))
  push_found-mem none (some y) t (inr e) = Memᴰ.head (ground arith)
  push_found-mem a none t (inr e) = cc

  pub push_found_levels :
      (a b : Option (ResolvedThreshold F))
      → ((t : ResolvedThreshold F) → a ≡ some t → t.level ≡ critical)
      → ((t : ResolvedThreshold F) → b ≡ some t → t.level ≡ warning)
      → Memᴰ
          (map (λ (t : ResolvedThreshold F). t.level) (push_found a ++ push_found b))
          ([] ∷ (critical ∷ []) ∷ (warning ∷ []) ∷ (critical ∷ warning ∷ []) ∷ [])
  push_found_levels none none ha hb = Memᴰ.head refl
  push_found_levels (some x) none ha hb = Memᴰ.tail (Memᴰ.head (ground (arith, ha x refl)))
  push_found_levels none (some y) ha hb =
      Memᴰ.tail (Memᴰ.tail (Memᴰ.head (ground (arith, hb y refl))))
  push_found_levels (some x) (some y) ha hb =
      Memᴰ.tail (Memᴰ.tail (Memᴰ.tail (Memᴰ.head (ground (arith, ha x refl, hb y refl)))))
