-- ===== src/Provision/Cleanup.antt =====
-- What `deleteAllPairingTokens` of provision/provision.service.ts leaves.
use mathlib.Core.Path.{subst}
use qs_farm_be.Common.{
  ◌≡◌, ◌↔◌, sym, ap, ◌∙◌, inl, inr, Bool, true, false, not, List, [], ◌∷◌, arith, Memᴰ, Bool-cases,
  Option-cases, ◌==◌, if◌then◌else◌, find, find-mem, find-test, find-none, keep, is_some,
}
use qs_farm_be.Domain.{Time}
use qs_farm_be.Provision.{Db, PairingToken}
use qs_farm_be.Provision.Pairing.{number_eq_refl}
use qs_farm_be.Provision.Upkeep.{TokenFilter, is_selected, remove_tokens, delete_all_pairing_tokens}

module _ {A : Type 0} (p : A → Bool) where
  keep-mem : (a : A) (xs : List A) → Memᴰ a (keep p xs) → Memᴰ a xs × (p a ≡ true)
  keep-mem a [] m = elim m [ ]
  keep-mem a (x ∷ xs) m = elim (Bool-cases (p x)) [
    | inl hit ↦ elim (subst (λ b. Memᴰ a (if b then x ∷ keep p xs else keep p xs)) hit m) [
      | Memᴰ.head e ↦ (Memᴰ.head e, ap p e ∙ hit)
      | Memᴰ.tail k ↦ let (j, h) = keep-mem a xs k in (Memᴰ.tail j, h)
    ]
    | inr miss ↦
        let (k, h) =
          keep-mem a xs (subst (λ b. Memᴰ a (if b then x ∷ keep p xs else keep p xs)) miss m) in
        (Memᴰ.tail k, h)
  ]

  mem-keep : (a : A) (xs : List A) → Memᴰ a xs → p a ≡ true → Memᴰ a (keep p xs)
  mem-keep a xs (Memᴰ.head {x = y} {xs = ys} e) h = rw (ap p (sym e) ∙ h) (Memᴰ.head e)
  mem-keep a xs (Memᴰ.tail {x = y} {xs = ys} m) h = elim (Bool-cases (p y)) [
    | inl c ↦ rw c (Memᴰ.tail (mem-keep a ys m h))
    | inr n ↦ rw n (mem-keep a ys m h)
  ]

-- The tokens whose ids no two rows share.
abbrev pub HasOwnId : List PairingToken → Type 0
HasOwnId ts = (t u : PairingToken) → Memᴰ t ts → Memᴰ u ts → t.id ≡ u.id → t ≡ u

-- Where ids are unique, exactly the tokens that the filter does not select are left.
pub delete_all_pairing_tokens_iff :
    (filter : TokenFilter) (now : Time) (db : Db) (t : PairingToken)
    → HasOwnId db.pairing_tokens
    → Memᴰ t (delete_all_pairing_tokens filter now db).0.pairing_tokens
      ↔ (Memᴰ t db.pairing_tokens × (is_selected filter now t ≡ false))
unfolding delete_all_pairing_tokens remove_tokens
delete_all_pairing_tokens_iff filter now db t own = (
  λ m. let (k, e) = keep-mem stays t db.pairing_tokens m in (k, unselected k e),
  λ (k, e). mem-keep stays t db.pairing_tokens k (apart k e),
)
  where
    selected : List PairingToken
    selected = keep (is_selected filter now) db.pairing_tokens

    has_id_of : PairingToken → PairingToken → Bool
    has_id_of x u = u.id == x.id

    stays : PairingToken → Bool
    stays x = not (is_some (find (has_id_of x) selected))

    unselected : Memᴰ t db.pairing_tokens → stays t ≡ true → is_selected filter now t ≡ false
    unselected k e = elim (Bool-cases (is_selected filter now t)) [
      | inr n ↦ n
      | inl s ↦
          let listed = mem-keep (is_selected filter now) t db.pairing_tokens k s in
          elim (Option-cases (find (has_id_of t) selected)) [
            | inl n ↦ cc (find-none (has_id_of t) selected t n listed, number_eq_refl t.id)
            | inr (u, f) ↦ ground (arith, e, f)
          ]
    ]

    apart : Memᴰ t db.pairing_tokens → is_selected filter now t ≡ false → stays t ≡ true
    apart k e = elim (Option-cases (find (has_id_of t) selected)) [
      | inl n ↦ ap (λ o. not (is_some o)) n
      | inr (u, f) ↦
          let (j, s) =
            keep-mem (is_selected filter now) u db.pairing_tokens
              (find-mem (has_id_of t) selected u f) in
          let same = own u t j k (ground (arith, find-test (has_id_of t) selected u f)) in
          cc (ap (is_selected filter now) same, s, e)
    ]
