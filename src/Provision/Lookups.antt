-- ===== src/Provision/Lookups.antt =====
-- What `findOne` of provision/provision.service.ts finds after an update of the table.
use qs_farm_be.Common.{
  ◌≡◌, refl, ap, inl, inr, Bool, true, none, some, List, [], ◌∷◌, ◌++◌, map, arith, Bool-cases,
  Option-cases, if◌then◌else◌, find, is_some,
}

module _ {ℓ} {A : Type ℓ} (p : A → Bool) where
  -- An update that keeps the answer of the test finds the updated row.
  pub find-map :
      (g : A → A) (xs : List A) (a : A)
      → ((x : A) → p (g x) ≡ p x)
      → find p xs ≡ some a
      → find p (map g xs) ≡ some (g a)
  find-map g [] a k h = cc
  find-map g (x ∷ xs) a k h = elim (Bool-cases (p x)) [
    | inl hit ↦ let e : x ≡ a = ground arith in rw (k x, hit, e) refl
    | inr miss ↦ rw (k x, miss) (find-map g xs a k (ground arith))
  ]

  pub find-append :
      (xs : List A) (a : A) → find p xs ≡ none → p a ≡ true → find p (xs ++ a ∷ []) ≡ some a
  find-append [] a h k = rw k refl
  find-append (x ∷ xs) a h k = elim (Bool-cases (p x)) [
    | inl hit ↦ ground arith
    | inr miss ↦ rw miss (find-append xs a (ground arith) k)
  ]

  -- Replacing a row that was found by one that passes the test, wherever the test `same` says so.
  pub find-replace :
      (same : A → Bool) (xs : List A) (a b : A)
      → same a ≡ true
      → p b ≡ true
      → find p xs ≡ some a
      → find p (map (λ x. if same x then b else x) xs) ≡ some b
  find-replace same [] a b s k h = cc
  find-replace same (x ∷ xs) a b s k h = elim (Bool-cases (same x)) [
    | inl e ↦ rw (e, k) refl
    | inr n ↦ elim (Bool-cases (p x)) [
      | inl hit ↦ let e : x ≡ a = ground arith in cc (ap same e, n, s)
      | inr miss ↦ rw (n, miss) (find-replace same xs a b s k (ground arith))
    ]
  ]

  -- A row that passes a narrower test passes the wider one.
  pub find-narrow :
      (q : A → Bool) (xs : List A)
      → ((x : A) → p x ≡ true → q x ≡ true)
      → find q xs ≡ none
      → find p xs ≡ none
  find-narrow q [] k h = refl
  find-narrow q (x ∷ xs) k h = elim (Bool-cases (p x)) [
    | inl hit ↦ ground (arith, k x hit)
    | inr miss ↦ rw miss (find-narrow q xs k (ground arith))
  ]

  pub find-wide :
      (q : A → Bool) (xs : List A) (a : A)
      → ((x : A) → p x ≡ true → q x ≡ true)
      → find p xs ≡ some a
      → is_some (find q xs) ≡ true
  find-wide q xs a k h = elim (Option-cases (find q xs)) [
    | inl n ↦ cc (find-narrow q xs k n, h)
    | inr (b, e) ↦ rw e refl
  ]
