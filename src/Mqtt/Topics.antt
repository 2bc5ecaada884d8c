-- ===== src/Mqtt/Topics.antt =====
-- The wildcards of MQTT as a relation, and the loop of `topicMatchesPattern` in
-- device/mqtt/mqtt.service.ts as its decision.
use qs_farm_be.Common.{
  ℕ, suc, ◌≤◌, ◌<◌, zero, ◌≡◌, ◌↔◌, refl, ◌⊎◌, inl, inr, true, false, none, some, List, [], ◌∷◌,
  arith, Bool-cases, length, Text, text_eq, text_eq-true, text_eq_refl, split,
}
use qs_farm_be.Emqx.{part}
use qs_farm_be.Mqtt.{match_from, topic_matches_pattern, hash, plus}

-- The levels of a pattern match those of a topic: `#` stands for any levels, `+` for one.
pub data Matches : List Text → List Text → Type 0 where
  done : Matches [] []
  any_levels : {ws ts : List Text} → Matches (hash ∷ ws) ts
  any_level : {ws ts : List Text} {t : Text} → Matches ws ts → Matches (plus ∷ ws) (t ∷ ts)
  same_level : {ws ts : List Text} {w : Text} → Matches ws ts → Matches (w ∷ ws) (w ∷ ts)

-- No `#` follows directly on a `+`.
abbrev pub StartsNoHash : List Text → Type 0
StartsNoHash [] = Unit
StartsNoHash (w ∷ ws) = text_eq w hash ≡ false

abbrev pub NoPlusHash : List Text → Type 0
NoPlusHash [] = Unit
NoPlusHash (w ∷ ws) = (text_eq w plus ≡ true → StartsNoHash ws) × NoPlusHash ws

part-past : (i : ℕ) (ts : List Text) → length ts ≤ i → part i ts ≡ none
part-past i [] h = refl
part-past zero (t ∷ ts) h = ground arith
part-past (suc i) (t ∷ ts) h = part-past i ts (ground arith)

-- Past the end of the topic only a `#` can match.
match_from-past :
    (i : ℕ) (ws ts : List Text)
    → StartsNoHash ws
    → NoPlusHash ws
    → length ts < i
    → match_from i ws ts ≡ false
unfolding match_from
match_from-past i [] ts s n h = ground arith
match_from-past i (w ∷ ws) ts s n h =
    let gone = part-past i ts (ground arith) in
    elim (Bool-cases (text_eq w plus)) [
      | inl p ↦ ground (arith, s, p, match_from-past (suc i) ws ts (n.0 p) n.1 (ground arith))
      | inr p ↦ rw gone (ground (arith, s, p))
    ]

-- What is left of a topic at the index `i`.
abbrev from : ℕ → List Text → List Text
from zero ts = ts
from (suc i) [] = []
from (suc i) (t ∷ ts) = from i ts

record Next (i : ℕ) (ts : List Text) : Type 0 where
  level : Text
  at : part i ts ≡ some level
  split_off : from i ts ≡ level ∷ from (suc i) ts
  inside : suc i ≤ length ts

from-cases :
    (i : ℕ) (ts : List Text) → i ≤ length ts → (length ts ≡ i) × (from i ts ≡ []) ⊎ Next i ts
from-cases zero [] h = inl (refl, refl)
from-cases zero (t ∷ ts) h =
    inr (record { level = t; at = refl; split_off = refl; inside = ground arith })
from-cases (suc i) [] h = ground arith
from-cases (suc i) (t ∷ ts) h = elim (from-cases i ts (ground arith)) [
  | inl (e, k) ↦ inl (ground arith, k)
  | inr n ↦ inr (record {
    level = n.level;
    at = n.at;
    split_off = n.split_off;
    inside = ground (arith, n.inside);
  })
]

match_from_sound :
    (i : ℕ) (ws ts : List Text)
    → i ≤ length ts
    → NoPlusHash ws
    → match_from i ws ts ≡ true
    → Matches ws (from i ts)
unfolding match_from
match_from_sound i [] ts h n m = elim (from-cases i ts h) [
  | inl (e, k) ↦ rw k Matches.done
  | inr n ↦ ground (arith, n.inside)
]
match_from_sound i (w ∷ ws) ts h n m = elim (Bool-cases (text_eq w hash)) [
  | inl p ↦ rw (text_eq-true w hash p) Matches.any_levels
  | inr not_hash ↦ elim (from-cases i ts h) [
    | inl (e, k) ↦ elim (Bool-cases (text_eq w plus)) [
      | inl p ↦
          let past = match_from-past (suc i) ws ts (n.0 p) n.1 (ground arith) in
          ground (arith, past)
      | inr p ↦ let gone = part-past i ts (ground arith) in ground (arith, gone, p)
    ]
    | inr next ↦ elim (Bool-cases (text_eq w plus)) [
      | inl p ↦
          let inner = match_from_sound (suc i) ws ts next.inside n.1 (ground arith) in
          rw (next.split_off, text_eq-true w plus p) (Matches.any_level inner)
      | inr p ↦ elim (Bool-cases (text_eq next.level w)) [
        | inl same ↦
            let inner = match_from_sound (suc i) ws ts next.inside n.1 (ground (arith, next.at)) in
            rw (next.split_off, text_eq-true next.level w same) (Matches.same_level inner)
        | inr differ ↦ ground (arith, next.at)
      ]
    ]
  ]
]

-- A level left of a topic is the next one.
from-next :
    (i : ℕ) (ts rs : List Text) (t : Text)
    → i ≤ length ts
    → t ∷ rs ≡ from i ts
    → (part i ts ≡ some t) × (rs ≡ from (suc i) ts) × (suc i ≤ length ts)
from-next i ts rs t h e = elim (from-cases i ts h) [
  | inl (n, k) ↦ cc
  | inr next ↦
      let at = next.at in
      let off = next.split_off in (ground (arith, at, off), ground (arith, off), next.inside)
]

match_from_complete :
    (i : ℕ) (ws rs ts : List Text)
    → i ≤ length ts
    → Matches ws rs
    → rs ≡ from i ts
    → match_from i ws ts ≡ true
unfolding match_from
match_from_complete i [] [] ts h Matches.done e = elim (from-cases i ts h) [
  | inl (n, k) ↦ ground (arith, n)
  | inr next ↦ let off = next.split_off in cc
]
match_from_complete i [] (t ∷ rs) ts h m e = elim m [ ]
match_from_complete i (w ∷ ws) rs ts h Matches.any_levels e = rw (text_eq_refl hash) refl
match_from_complete i (w ∷ ws) (t ∷ rs) ts h (Matches.any_level m) e =
    let next = from-next i ts rs t h e in match_from_complete (suc i) ws rs ts next.2 m next.1
match_from_complete i (w ∷ ws) (t ∷ rs) ts h (Matches.same_level m) e =
    let next = from-next i ts rs t h e in
    let inner = match_from_complete (suc i) ws rs ts next.2 m next.1 in
    elim (Bool-cases (text_eq w hash)) [
      | inl p ↦ ground (arith, p)
      | inr p ↦ elim (Bool-cases (text_eq w plus)) [
        | inl q ↦ ground (arith, p, q, inner)
        | inr q ↦
            let at = next.0 in let same = text_eq_refl w in ground (arith, p, q, at, same, inner)
      ]
    ]

Matches-refl : (ws : List Text) → Matches ws ws
Matches-refl [] = Matches.done
Matches-refl (w ∷ ws) = Matches.same_level (Matches-refl ws)

-- The test for the same text first changes nothing.
pub topic_matches_pattern-match_from :
    (topic pattern : Text)
    → topic_matches_pattern topic pattern ≡ match_from 0 (split pattern) (split topic)
unfolding topic_matches_pattern
topic_matches_pattern-match_from topic pattern = elim (Bool-cases (text_eq topic pattern)) [
  | inl e ↦
      let same = text_eq-true topic pattern e in
      let looped : match_from 0 (split pattern) (split topic) ≡ true =
        match_from_complete 0 (split pattern) (split topic) (split topic) (ground arith)
          (rw same (Matches-refl (split pattern))) refl in
      ground (arith, looped)
  | inr e ↦ ground (arith, e)
]

-- If in the pattern no `#` follows directly on a `+`, then `topicMatchesPattern` says true exactly
-- if the levels of the topic match those of the pattern by the rules of the wildcards.
pub topic_matches_pattern-Matches :
    (topic pattern : Text)
    → NoPlusHash (split pattern)
    → (topic_matches_pattern topic pattern ≡ true) ↔ Matches (split pattern) (split topic)
topic_matches_pattern-Matches topic pattern h =
    rw (topic_matches_pattern-match_from topic pattern) (
      λ m. match_from_sound 0 (split pattern) (split topic) (ground arith) h m,
      λ m. match_from_complete 0 (split pattern) (split topic) (split topic) (ground arith) m refl,
    )
