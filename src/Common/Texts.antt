-- ===== src/Common/Texts.antt =====
-- JavaScript strings as lists of code points, with the string methods that the services call.
use Prim.Native.String.{String}
use Prim.Native.Char.{code}
use Prim.Native.Nat.{ℕ}
use mathlib.Core.Path.{◌≡◌, refl}
use mathlib.Core.Logic.{◌≢◌}
use mathlib.Core.Bool.{Bool, true, false, ◌&&◌, ◌||◌}
use mathlib.Core.List.{List, [], ◌∷◌, ◌++◌}
use native.Mathlib.Omega.{arith}
use qs_farm_be.Common.Tests.{◌==◌, if◌then◌else◌}
use qs_farm_be.Common.Lists.{All}

abbrev pub Text : Type 0
Text = List ℕ

abbrev pub codes : String → Text
codes String.[] = []
codes (String.◌∷◌ c s) = code c ∷ codes s

abbrev pub slash : ℕ
slash = 47

abbrev pub text_eq : Text → Text → Bool
text_eq [] [] = true
text_eq [] (d ∷ t) = false
text_eq (c ∷ s) [] = false
text_eq (c ∷ s) (d ∷ t) = c == d && text_eq s t

-- `t.startsWith(p)`, with `p` first.
abbrev pub starts_with : Text → Text → Bool
starts_with [] t = true
starts_with (c ∷ p) [] = false
starts_with (c ∷ p) (d ∷ t) = c == d && starts_with p t

-- `t.endsWith(p)`, with `p` first.
abbrev pub ends_with : Text → Text → Bool
ends_with p [] = text_eq [] p
ends_with p (c ∷ t) = let rest = ends_with p t in text_eq (c ∷ t) p || rest

abbrev pub drop_text : Text → Text → Text
drop_text [] t = t
drop_text (c ∷ p) [] = []
drop_text (c ∷ p) (d ∷ t) = drop_text p t

-- `t.replace(p, '')`: without the first occurrence of `p`.
abbrev pub remove_first : Text → Text → Text
remove_first p [] = []
remove_first p (c ∷ t) =
    let rest = remove_first p t in if starts_with p (c ∷ t) then drop_text p (c ∷ t) else c ∷ rest

-- `t.includes(p)`
abbrev pub includes : Text → Text → Bool
includes p [] = starts_with p []
includes p (c ∷ t) = let rest = includes p t in starts_with p (c ∷ t) || rest

abbrev pub to_first : ℕ → List Text → List Text
to_first c [] = (c ∷ []) ∷ []
to_first c (w ∷ ws) = (c ∷ w) ∷ ws

-- `t.split('/')`
abbrev pub split : Text → List Text
split [] = [] ∷ []
split (c ∷ t) = let rest = split t in if c == slash then [] ∷ rest else to_first c rest

abbrev pub HasNoSlash : Text → Type 0
HasNoSlash = All (λ c. c ≢ slash)

pub text_eq-true : (s t : Text) → text_eq s t ≡ true → s ≡ t
text_eq-true [] [] h = refl
text_eq-true [] (d ∷ t) h = cc
text_eq-true (c ∷ s) [] h = cc
text_eq-true (c ∷ s) (d ∷ t) h = ground (arith, text_eq-true s t)

pub text_eq_refl : (s : Text) → text_eq s s ≡ true
text_eq_refl [] = refl
text_eq_refl (c ∷ s) = ground (arith, text_eq_refl s)

-- A first level that is closed by a slash is a prefix only of the same first level.
pub starts_with-level :
    (a b rest : Text)
    → HasNoSlash a
    → HasNoSlash b
    → starts_with (a ++ slash ∷ []) (b ++ slash ∷ rest) ≡ true
    → a ≡ b
starts_with-level [] [] rest h k e = refl
starts_with-level [] (d ∷ b) rest h k e = ground (arith, k.0)
starts_with-level (c ∷ a) [] rest h k e = ground (arith, h.0)
starts_with-level (c ∷ a) (d ∷ b) rest h k e = ground (arith, starts_with-level a b rest h.1 k.1)

pub starts_with-append : (p s t : Text) → starts_with (p ++ s) (p ++ t) ≡ starts_with s t
starts_with-append [] s t = refl
starts_with-append (c ∷ p) s t = ground (arith, starts_with-append p s t)

-- `t.split(c)` at a single character.
abbrev pub split_on : ℕ → Text → List Text
split_on c [] = [] ∷ []
split_on c (d ∷ t) = let rest = split_on c t in if d == c then [] ∷ rest else to_first d rest
