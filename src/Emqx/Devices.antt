-- ===== src/Emqx/Devices.antt =====
-- What a device may do in emqx/emqx.service.ts.
use mathlib.Core.Path.{subst}
use qs_farm_be.Common.{
  ℕ, ◌≡◌, ◌↔◌, refl, sym, ap, ◌∙◌, inl, inr, Bool, true, false, ◌||◌, Option, none, some, [], ◌∷◌,
  ◌++◌, arith, Memᴰ, Bool-cases, Option-cases, if◌then◌else◌, find, find-mem, find-test, length,
  ◌==◌, Text, codes, slash, text_eq, starts_with, HasNoSlash, text_eq-true, starts_with-level,
}
use qs_farm_be.Domain.{Time, Device}
use qs_farm_be.Emqx.{
  Db, Cache, Outside, device_prefix, has_text, has_id, device_disabled, is_own_topic,
  check_device_acl, check_acl, authenticate, authenticate_device,
}

-- The topic `device/{id}/{rest}`.
abbrev pub device_topic : Text → Text → Text
device_topic i rest = codes "device/" ++ i ++ slash ∷ rest

closed_level : (i s t : Text) → i ++ slash ∷ s ≡ (i ++ slash ∷ []) ++ s
closed_level i s t = append_one i
  where
    append_one : (a : Text) → a ++ slash ∷ s ≡ (a ++ slash ∷ []) ++ s
    append_one [] = refl
    append_one (c ∷ a) = ap (λ l. c ∷ l) (append_one a)

starts_with_self : (p s : Text) → starts_with p (p ++ s) ≡ true
starts_with_self [] s = refl
starts_with_self (c ∷ p) s = ground (arith, starts_with_self p s)

level_of_self : (i s : Text) → starts_with (i ++ slash ∷ []) (i ++ slash ∷ s) ≡ true
level_of_self i s = rw (closed_level i s []) (starts_with_self (i ++ slash ∷ []) s)

own_topic-level :
    (i b rest : Text)
    → is_own_topic i (device_topic b rest) ≡ true
    → starts_with (i ++ slash ∷ []) (b ++ slash ∷ rest) ≡ true
unfolding is_own_topic
own_topic-level i b rest h =
    elim (Bool-cases (text_eq (b ++ slash ∷ rest) (i ++ slash ∷ codes "status"))) [
      | inl e ↦ level (codes "status") e
      | inr n1 ↦ elim (Bool-cases (text_eq (b ++ slash ∷ rest) (i ++ slash ∷ codes "telemetry"))) [
        | inl e ↦ level (codes "telemetry") e
        | inr n2 ↦ elim (Bool-cases (text_eq (b ++ slash ∷ rest) (i ++ slash ∷ codes "cmd"))) [
          | inl e ↦ level (codes "cmd") e
          | inr n3 ↦ elim (Bool-cases (text_eq (b ++ slash ∷ rest) (i ++ slash ∷ codes "resp"))) [
            | inl e ↦ level (codes "resp") e
            | inr n4 ↦ ground (arith, n1, n2, n3, n4, h)
          ]
        ]
      ]
    ]
  where
    level :
        (s : Text)
        → text_eq (b ++ slash ∷ rest) (i ++ slash ∷ s) ≡ true
        → starts_with (i ++ slash ∷ []) (b ++ slash ∷ rest) ≡ true
    level s e =
        subst (λ l. starts_with (i ++ slash ∷ []) l ≡ true)
          (sym (text_eq-true (b ++ slash ∷ rest) (i ++ slash ∷ s) e)) (level_of_self i s)

own_topic_self : (i rest : Text) → is_own_topic i (device_topic i rest) ≡ true
unfolding is_own_topic
own_topic_self i rest = ground (arith, level_of_self i rest)

module _ (out : Outside) where
  device_decision : Text → Text → Option Device → Bool
  device_decision a topic none = false
  device_decision a topic (some d) =
      if device_disabled d.status then false else is_own_topic a topic

  check_acl-device :
      (now : Time) (a topic : Text) (access : ℕ) (db : Db) (cache : Cache)
      → (check_acl out now (device_prefix ++ a) topic access db cache).0
        ≡ device_decision a topic (find (has_id out a) db.devices)
  unfolding check_acl check_device_acl device_decision
  check_acl-device now a topic access db cache =
      elim (find (has_id out a) db.devices)
        as (λ o.
          elim o as (λ x. Bool) [
            | none ↦ false
            | some d ↦ if device_disabled d.status then false else is_own_topic a topic
          ]
          ≡ device_decision a topic o) [ none ↦ refl | some d ↦ refl ]

  decision_inv :
      (a b rest : Text) (o : Option Device)
      → HasNoSlash a
      → HasNoSlash b
      → device_decision a (device_topic b rest) o ≡ true
      → (a ≡ b) × ((d : Device) × (o ≡ some d) × (device_disabled d.status ≡ false))
  unfolding device_decision
  decision_inv a b rest none h k e = cc
  decision_inv a b rest (some d) h k e = (
    starts_with-level a b rest h k (own_topic-level a b rest (ground arith)),
    (d, refl, ground arith),
  )

  -- A device may use a topic below `device/{id}/` exactly if the id is its own and it is a device
  -- that is not disabled, whether it subscribes or publishes; ids have no slash.
  pub device_acl_iff :
      (now : Time) (a b rest : Text) (access : ℕ) (db : Db) (cache : Cache)
      → HasNoSlash a
      → HasNoSlash b
      → ((check_acl out now (device_prefix ++ a) (device_topic b rest) access db cache).0 ≡ true)
        ↔ ((a ≡ b)
            × ((d : Device) × (find (has_id out a) db.devices ≡ some d)
                × (device_disabled d.status ≡ false)))
  unfolding device_decision
  device_acl_iff now a b rest access db cache h k = (
    λ e.
        decision_inv a b rest (find (has_id out a) db.devices) h k
          (sym (check_acl-device now a (device_topic b rest) access db cache) ∙ e),
    λ (same, (d, f, on)).
        check_acl-device now a (device_topic b rest) access db cache
        ∙ ap (device_decision a (device_topic b rest)) f
        ∙ subst (λ t. device_decision a (device_topic t rest) (some d) ≡ true) same
            (ground (arith, on, own_topic_self a rest)),
  )

  -- A client whose name is read as a device's, which has the prefix `device:` or 36 characters,
  -- connects only by a name of 36 characters without the prefix, and only with the token of a device
  -- that is not disabled and that the name finds by its id or its serial. The database takes no text
  -- with the prefix as an id.
  pub authenticate-device :
      (username password : Text) (db : Db)
      → (starts_with device_prefix username || length username == 36) ≡ true
      → ((t : Text) → starts_with device_prefix t ≡ true → out.is_uuid t ≡ false)
      → authenticate out username password db ≡ true
      → (length username ≡ 36)
        × (starts_with device_prefix username ≡ false)
        × ((d : Device) × Memᴰ d db.devices
            × (has_id out username d || has_text out d.serial username ≡ true)
            × (has_text out d.device_token password ≡ true)
            × (device_disabled d.status ≡ false))
  unfolding authenticate authenticate_device
  authenticate-device username password db p u e =
      let named = λ (d : Device). has_id out username d || has_text out d.serial username in
      elim (Bool-cases (starts_with device_prefix username)) [
        | inl q ↦ let no = u username q in ground (arith, q, no, e)
        | inr q ↦
            let long : length username ≡ 36 = ground (arith, p, q) in
            elim (Option-cases (find named db.devices)) [
              | inl n ↦ ground arith
              | inr (d, f) ↦ (
                long,
                q,
                (
                  d,
                  find-mem named db.devices d f,
                  find-test named db.devices d f,
                  ground arith,
                  ground arith,
                ),
              )
            ]
      ]
