-- ===== src/Common/Lists.antt =====
-- The array methods that the services call, and predicates on arrays.
use Prim.Native.Nat.{ℕ, suc}
use mathlib.Core.Path.{◌≡◌, refl, ap}
use mathlib.Core.Logic.{◌⊎◌, inl, inr}
use mathlib.Core.Bool.{Bool, true, false}
use mathlib.Core.Option
use mathlib.Core.Option.{Option, none, some}
use mathlib.Core.List.{List, [], ◌∷◌, ◌++◌, map, Memᴰ}
use native.Mathlib.Omega.{arith}
use qs_farm_be.Common.Tests.{if◌then◌else◌, Bool-cases}

module _ {ℓ} {A : Type ℓ} where
  abbrev pub length : List A → ℕ
  length [] = 0
  length (x ∷ xs) = suc (length xs)

  -- `Array.prototype.find`
  abbrev pub find : (A → Bool) → List A → Option A
  find p [] = none
  find p (x ∷ xs) = if p x then some x else find p xs

  -- `Array.prototype.filter`
  abbrev pub keep : (A → Bool) → List A → List A
  keep p [] = []
  keep p (x ∷ xs) = let rest = keep p xs in if p x then x ∷ rest else rest

  abbrev pub All {κ} : (A → Type κ) → List A → Type κ
  All P [] = Unit
  All P (x ∷ xs) = P x × All P xs

module _ {ℓ} {A : Type ℓ} where
  pub find-test : (p : A → Bool) (xs : List A) (a : A) → find p xs ≡ some a → p a ≡ true
  find-test p [] a h = cc
  find-test p (x ∷ xs) a h = elim (Bool-cases (p x)) [
    | inl hit ↦ let e : x ≡ a = ground arith in rw e at hit
    | inr miss ↦ find-test p xs a (ground arith)
  ]

  pub find-mem : (p : A → Bool) (xs : List A) (a : A) → find p xs ≡ some a → Memᴰ a xs
  find-mem p [] a h = cc
  find-mem p (x ∷ xs) a h = elim (Bool-cases (p x)) [
    | inl hit ↦ Memᴰ.head (ground arith)
    | inr miss ↦ Memᴰ.tail (find-mem p xs a (ground arith))
  ]

  pub find-none : (p : A → Bool) (xs : List A) (a : A) → find p xs ≡ none → Memᴰ a xs → p a ≡ false
  find-none p [] a h m = elim m [ ]
  find-none p (x ∷ xs) a h (Memᴰ.head e) = rw e (ground arith)
  find-none p (x ∷ xs) a h (Memᴰ.tail m) = find-none p xs a (ground arith) m

  pub All-mem {κ} : (P : A → Type κ) (a : A) (xs : List A) → All P xs → Memᴰ a xs → P a
  All-mem P a xs h (Memᴰ.head e) = rw e h.0
  All-mem P a xs h (Memᴰ.tail {xs = ys} m) = All-mem P a ys h.1 m

  pub mem-All {κ} : (P : A → Type κ) (xs : List A) → ((a : A) → Memᴰ a xs → P a) → All P xs
  mem-All P [] h = tt
  mem-All P (x ∷ xs) h = (h x (Memᴰ.head refl), mem-All P xs (λ a m. h a (Memᴰ.tail m)))

-- A search in the images of a list, for a test that sees the same in an element and its image.
module _ {ℓ κ} {A : Type ℓ} {B : Type κ} where
  pub find-map :
      (f : A → B) (p : B → Bool) (q : A → Bool) (xs : List A)
      → ((x : A) → p (f x) ≡ q x)
      → find p (map f xs) ≡ Option.map f (find q xs)
  find-map f p q [] h = refl
  find-map f p q (x ∷ xs) h =
      rw (h x) (elim (Bool-cases (q x)) [
        | inl hit ↦ rw hit refl
        | inr miss ↦ rw miss (find-map f p q xs h)
      ])

  pub keep-map :
      (f : A → B) (p : B → Bool) (q : A → Bool) (xs : List A)
      → ((x : A) → p (f x) ≡ q x)
      → keep p (map f xs) ≡ map f (keep q xs)
  keep-map f p q [] h = refl
  keep-map f p q (x ∷ xs) h = rw (h x) (elim (Bool-cases (q x)) [
    | inl hit ↦ rw hit (ap (λ r. f x ∷ r) (keep-map f p q xs h))
    | inr miss ↦ rw miss (keep-map f p q xs h)
  ])

module _ {ℓ κ} {A : Type ℓ} (P : A → Type κ) where
  pub All-append : (xs ys : List A) → All P xs → All P ys → All P (xs ++ ys)
  All-append [] ys h k = k
  All-append (x ∷ xs) ys h k = (h.0, All-append xs ys h.1 k)

  pub All-keep :
      (p : A → Bool) (xs : List A) → ((a : A) → Memᴰ a xs → p a ≡ true → P a) → All P (keep p xs)
  All-keep p [] h = tt
  All-keep p (x ∷ xs) h =
      let rest = All-keep p xs (λ a m. h a (Memᴰ.tail m)) in
      elim (Bool-cases (p x)) [
        | inl hit ↦ rw hit (h x (Memᴰ.head refl) hit, rest)
        | inr miss ↦ rw miss rest
      ]

pub List-cases : {A : Type 0} (xs : List A) → (xs ≡ []) ⊎ ((y : A) × (ys : List A) × (xs ≡ y ∷ ys))
List-cases [] = inl refl
List-cases (y ∷ ys) = inr (y, ys, refl)

module _ {ℓ κ μ} {A : Type ℓ} {B : Type κ} (P : B → Type μ) where
  pub All-map : (f : A → B) (xs : List A) → All (λ a. P (f a)) xs → All P (map f xs)
  All-map f [] h = tt
  All-map f (x ∷ xs) h = (h.0, All-map f xs h.1)
