-- ===== src/Pump/Sessions.antt =====
-- The table of sessions of pump/pump.service.ts as a list: ids, running sessions and completed time.
use mathlib.Core.Path.{subst}
use qs_farm_be.Common.{
  ◌∙◌, ℕ, suc, ◌+◌, ◌≤◌, ◌≡◌, ◌≢◌, refl, sym, ap, true, false, ◌&&◌, none, List, [], ◌∷◌, ◌++◌,
  Memᴰ, arith, All, All-mem, Bool-cases, inl, inr, if◌then◌else◌, map, find, get_or, ◌==◌,
}
use qs_farm_be.Domain.{Uuid}
use qs_farm_be.Pump.{PumpSession, is_running, is_completed, active_of_device, save_session}

abbrev pub Distinct : List ℕ → Type 0
Distinct [] = Unit
Distinct (n ∷ ns) = All (λ m. m ≢ n) ns × Distinct ns

Distinct-append :
    (ns : List ℕ) (k : ℕ) → Distinct ns → All (λ n. n ≢ k) ns → Distinct (ns ++ k ∷ [])
Distinct-append [] k d h = (tt, tt)
Distinct-append (n ∷ ns) k d h = (fresh_end ns d.0, Distinct-append ns k d.1 h.1)
  where
    fresh_end : (ms : List ℕ) → All (λ m. m ≢ n) ms → All (λ m. m ≢ n) (ms ++ k ∷ [])
    fresh_end [] a = (λ e. h.0 (sym e), tt)
    fresh_end (m ∷ ms) a = (a.0, fresh_end ms a.1)

module _ {F : Type 0} where
  abbrev pub ids : List (PumpSession F) → List Uuid
  ids = map (λ (s : PumpSession F). s.id)

  -- The number of running sessions of a device.
  unfoldable pub count_running : Uuid → List (PumpSession F) → ℕ
  count_running d [] = 0
  count_running d (s ∷ ss) =
      let rest = count_running d ss in if active_of_device d s then suc rest else rest

  -- What a session of a device counts for if it is completed, by the weight of its duration.
  unfoldable pub completed_part : (ℕ → ℕ) → Uuid → PumpSession F → ℕ
  completed_part w d s =
      if s.device_id == d && is_completed s.status then w (get_or s.duration_ms 0) else 0

  -- What the completed sessions of a device count for.
  unfoldable pub completed_sum : (ℕ → ℕ) → Uuid → List (PumpSession F) → ℕ
  completed_sum w d [] = 0
  completed_sum w d (s ∷ ss) = completed_part w d s + completed_sum w d ss

  pub ids-save : (c : PumpSession F) (xs : List (PumpSession F)) → ids (save_session c xs) ≡ ids xs
  unfolding save_session
  ids-save c [] = refl
  ids-save c (x ∷ xs) = ground (arith, ids-save c xs)

  ids-append :
      (xs : List (PumpSession F)) (s : PumpSession F) → ids (xs ++ s ∷ []) ≡ ids xs ++ s.id ∷ []
  ids-append [] s = refl
  ids-append (x ∷ xs) s = ap (λ r. x.id ∷ r) (ids-append xs s)

  pub append-Distinct :
      (xs : List (PumpSession F)) (s : PumpSession F)
      → Distinct (ids xs)
      → All (λ n. n ≢ s.id) (ids xs)
      → Distinct (ids (xs ++ s ∷ []))
  append-Distinct xs s d h = rw (ids-append xs s) (Distinct-append (ids xs) s.id d h)

  pub count-append :
      (d : Uuid) (xs : List (PumpSession F)) (s : PumpSession F)
      → count_running d (xs ++ s ∷ [])
        ≡ count_running d xs + (if active_of_device d s then 1 else 0)
  unfolding count_running
  count-append d [] s = ground arith
  count-append d (x ∷ xs) s = ground (arith, count-append d xs s)

  pub count_of_find-none :
      (d : Uuid) (xs : List (PumpSession F))
      → find (active_of_device d) xs ≡ none
      → count_running d xs ≡ 0
  unfolding count_running
  count_of_find-none d [] h = refl
  count_of_find-none d (x ∷ xs) h = ground (arith, count_of_find-none d xs)

  pub count-save :
      (d : Uuid) (c : PumpSession F) (xs : List (PumpSession F))
      → is_running c.status ≡ false
      → count_running d (save_session c xs) ≤ count_running d xs
  unfolding count_running save_session
  count-save d c [] h = omega arith
  count-save d c (x ∷ xs) h = ground (arith, count-save d c xs h)

  pub completed-append :
      (w : ℕ → ℕ) (d : Uuid) (xs : List (PumpSession F)) (s : PumpSession F)
      → completed_sum w d (xs ++ s ∷ []) ≡ completed_sum w d xs + completed_part w d s
  unfolding completed_sum
  completed-append w d [] s = omega arith
  completed-append w d (x ∷ xs) s = omega (arith, completed-append w d xs s)

  save-other :
      (c : PumpSession F) (xs : List (PumpSession F))
      → All (λ n. n ≢ c.id) (ids xs)
      → save_session c xs ≡ xs
  unfolding save_session
  save-other c [] h = refl
  save-other c (x ∷ xs) h = ground (arith, h.0, save-other c xs h.1)

  mem-ids : (s : PumpSession F) (xs : List (PumpSession F)) → Memᴰ s xs → Memᴰ s.id (ids xs)
  mem-ids s xs (Memᴰ.head e) = Memᴰ.head (ap (λ (x : PumpSession F). x.id) e)
  mem-ids s xs (Memᴰ.tail {xs = ys} m) = Memᴰ.tail (mem-ids s ys m)

  save_hit :
      (c x : PumpSession F) (xs : List (PumpSession F))
      → x.id ≡ c.id
      → save_session c (x ∷ xs) ≡ c ∷ save_session c xs
  unfolding save_session
  save_hit c x xs e = ground arith

  save_miss :
      (c x : PumpSession F) (xs : List (PumpSession F))
      → x.id ≢ c.id
      → save_session c (x ∷ xs) ≡ x ∷ save_session c xs
  unfolding save_session
  save_miss c x xs e = ground arith

  pub completed-save :
      (w : ℕ → ℕ) (d : Uuid) (old c : PumpSession F) (xs : List (PumpSession F))
      → Distinct (ids xs)
      → c.id ≡ old.id
      → Memᴰ old xs
      → completed_sum w d (save_session c xs) + completed_part w d old
        ≡ completed_sum w d xs + completed_part w d c
  unfolding completed_sum
  completed-save w d old c xs u e (Memᴰ.head {x = x} {xs = ys} same) =
      let hit : x.id ≡ c.id = sym (ap (λ (s : PumpSession F). s.id) same) ∙ sym e in
      let rest = save-other c ys (subst (λ k. All (λ n. n ≢ k) (ids ys)) hit u.0) in
      omega (
        arith,
        ap (completed_sum w d) (save_hit c x ys hit),
        ap (completed_sum w d) rest,
        ap (completed_part w d) same,
      )
  completed-save w d old c xs u e (Memᴰ.tail {x = x} {xs = ys} m) =
      let apart = All-mem (λ k. k ≢ x.id) old.id (ids ys) u.0 (mem-ids old ys m) in
      omega (
        arith,
        ap (completed_sum w d) (save_miss c x ys (λ h. apart (sym e ∙ sym h))),
        completed-save w d old c ys u.1 e m,
      )

  mem-tail : (x c : PumpSession F) (xs : List (PumpSession F)) → x ≢ c → Memᴰ x (c ∷ xs) → Memᴰ x xs
  mem-tail x c xs n (Memᴰ.head e) = absurd (n e)
  mem-tail x c xs n (Memᴰ.tail m) = m

  mem-save_miss :
      (x c y : PumpSession F) (ys zs : List (PumpSession F))
      → y.id ≢ c.id
      → (Memᴰ x zs → Memᴰ x ys × (x.id ≢ c.id))
      → Memᴰ x (y ∷ zs)
      → Memᴰ x (y ∷ ys) × (x.id ≢ c.id)
  mem-save_miss x c y ys zs n rest (Memᴰ.head e) =
      (Memᴰ.head e, λ k. n (ap (λ (s : PumpSession F). s.id) (sym e) ∙ k))
  mem-save_miss x c y ys zs n rest (Memᴰ.tail m) = let (k, l) = rest m in (Memᴰ.tail k, l)

  -- A running session that is found after a closed one was saved was there before, under another id.
  pub mem-save :
      (x c : PumpSession F) (xs : List (PumpSession F))
      → is_running c.status ≡ false
      → is_running x.status ≡ true
      → Memᴰ x (save_session c xs)
      → Memᴰ x xs × (x.id ≢ c.id)
  unfolding save_session
  mem-save x c [] h r m = elim m [ ]
  mem-save x c (y ∷ ys) h r m = elim (Bool-cases (y.id == c.id)) [
    | inl hit ↦
        let same = save_hit c y ys (ground arith) in
        let later =
          mem-tail x c (save_session c ys)
            (λ e. cc (ap (λ (s : PumpSession F). is_running s.status) e)) (subst (Memᴰ x) same m) in
        let (k, l) = mem-save x c ys h r later in (Memᴰ.tail k, l)
    | inr miss ↦
        let apart : y.id ≢ c.id = ground arith in
        mem-save_miss x c y ys (save_session c ys) apart (mem-save x c ys h r)
          (subst (Memᴰ x) (save_miss c y ys apart) m)
  ]

  pub save-mem :
      (x c : PumpSession F) (xs : List (PumpSession F))
      → x.id ≢ c.id
      → Memᴰ x xs
      → Memᴰ x (save_session c xs)
  unfolding save_session
  save-mem x c xs n (Memᴰ.head {x = y} {xs = ys} e) = Memᴰ.head (ground arith)
  save-mem x c xs n (Memᴰ.tail {x = y} {xs = ys} m) = Memᴰ.tail (save-mem x c ys n m)
