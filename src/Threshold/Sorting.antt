-- ===== src/Threshold/Sorting.antt =====
-- The order in which `evaluate` of sensor/threshold.service.ts tries the thresholds.
use mathlib.Core.Path.{subst, sym}
use mathlib.Core.List.{Perm, perm_middle, append-nil}
use mathlib.Core.List.Perm
use qs_farm_be.Common.{
  ◌≡◌, refl, true, false, List, [], ◌∷◌, ◌++◌, arith, All, Bool-cases, inl, inr,
}
use qs_farm_be.ConfigResolution.{ResolvedThreshold}
use qs_farm_be.Threshold.{is_critical, compare_levels, insert_sorted, sort_from, sort_thresholds}

module _ {F : Type 0} where
  -- After a threshold that is not critical none is.
  abbrev pub IsCriticalFirst : List (ResolvedThreshold F) → Type 0
  IsCriticalFirst [] = Unit
  IsCriticalFirst (t ∷ ts) =
      (is_critical t.level ≡ false
        → All (λ (u : ResolvedThreshold F). is_critical u.level ≡ false) ts)
      × IsCriticalFirst ts

  insert_sorted_warnings :
      (t : ResolvedThreshold F) (xs : List (ResolvedThreshold F))
      → is_critical t.level ≡ false
      → All (λ (u : ResolvedThreshold F). is_critical u.level ≡ false) xs
      → All (λ (u : ResolvedThreshold F). is_critical u.level ≡ false) (insert_sorted t xs)
  unfolding insert_sorted compare_levels
  insert_sorted_warnings t [] h a = (h, tt)
  insert_sorted_warnings t (x ∷ xs) h a = ground (arith, insert_sorted_warnings t xs h a.1)

  insert_sorted_warning :
      (t x : ResolvedThreshold F) (xs : List (ResolvedThreshold F))
      → is_critical t.level ≡ false
      → insert_sorted t (x ∷ xs) ≡ x ∷ insert_sorted t xs
  unfolding insert_sorted compare_levels
  insert_sorted_warning t x xs w = ground arith

  insert_sorted_critical :
      (t : ResolvedThreshold F) (xs : List (ResolvedThreshold F))
      → is_critical t.level ≡ true
      → insert_sorted t xs ≡ t ∷ xs
  unfolding insert_sorted compare_levels
  insert_sorted_critical t [] c = refl
  insert_sorted_critical t (x ∷ xs) c = ground arith

  insert_sorted-IsCriticalFirst :
      (t : ResolvedThreshold F) (xs : List (ResolvedThreshold F))
      → IsCriticalFirst xs
      → IsCriticalFirst (insert_sorted t xs)
  unfolding insert_sorted
  insert_sorted-IsCriticalFirst t [] h = (λ e. tt, tt)
  insert_sorted-IsCriticalFirst t (x ∷ xs) h = elim (Bool-cases (is_critical t.level)) [
    | inl c ↦
        subst IsCriticalFirst (sym (insert_sorted_critical t (x ∷ xs) c))
          (λ (e : is_critical t.level ≡ false). cc, h)
    | inr w ↦
        subst IsCriticalFirst (sym (insert_sorted_warning t x xs w))
          (λ e. insert_sorted_warnings t xs w (h.0 e), insert_sorted-IsCriticalFirst t xs h.1)
  ]

  insert_sorted-perm :
      (t : ResolvedThreshold F) (xs : List (ResolvedThreshold F))
      → Perm (insert_sorted t xs) (t ∷ xs)
  unfolding insert_sorted compare_levels
  insert_sorted-perm t [] = Perm.refl (t ∷ [])
  insert_sorted-perm t (x ∷ xs) =
      let later = Perm.trans (Perm.cons x (insert_sorted-perm t xs)) (Perm.swap t x xs) in
      ground (arith, later, Perm.refl (t ∷ x ∷ xs))

  sort_from_lem :
      (acc ts : List (ResolvedThreshold F))
      → IsCriticalFirst acc
      → Perm (sort_from acc ts) (acc ++ ts) × IsCriticalFirst (sort_from acc ts)
  unfolding sort_from
  sort_from_lem acc [] h = (rw append-nil (Perm.refl acc), h)
  sort_from_lem acc (t ∷ ts) h =
      let rest = sort_from_lem (insert_sorted t acc) ts (insert_sorted-IsCriticalFirst t acc h) in
      (
        Perm.trans rest.0 (
            Perm.trans (Perm.append (insert_sorted-perm t acc) (Perm.refl ts))
              (Perm.symm (perm_middle acc ts))),
        rest.1,
      )

  -- Sorting keeps the thresholds and puts every critical one before every other.
  pub sort_thresholds_lem :
      (ts : List (ResolvedThreshold F))
      → Perm (sort_thresholds ts) ts × IsCriticalFirst (sort_thresholds ts)
  unfolding sort_thresholds
  sort_thresholds_lem ts = sort_from_lem [] ts tt
