-- ===== src/Emqx/Users.antt =====
-- What a user's client may do in emqx/emqx.service.ts.
use qs_farm_be.Common.{
  ℕ, ◌≡◌, ◌↔◌, sym, ap, ◌∙◌, inl, inr, Bool, true, false, ◌&&◌, Option, none, some, arith,
  Option-cases, find, Text, starts_with, HasNoSlash,
}
use qs_farm_be.Domain.{Time, Device}
use qs_farm_be.Emqx.{
  Db, Cache, Outside, device_prefix, gateway_prefix, has_text, has_id, owner_of, has_keyword,
  check_user_device, check_user_acl, check_acl,
}
use qs_farm_be.Emqx.Devices.{device_topic}
use qs_farm_be.Emqx.Gateways.{device_part}

module _ (out : Outside) where
  user_decision : Text → Text → Db → Option Device → Bool
  user_decision user topic db none = false
  user_decision user topic db (some d) = has_text out (owner_of d db) user && has_keyword topic

  check_acl-user :
      (now : Time) (user b rest : Text) (access : ℕ) (db : Db) (cache : Cache)
      → starts_with gateway_prefix user ≡ false
      → starts_with device_prefix user ≡ false
      → HasNoSlash b
      → (check_acl out now user (device_topic b rest) access db cache).0
        ≡ user_decision user (device_topic b rest) db (find (has_id out b) db.devices)
  unfolding check_acl check_user_acl check_user_device user_decision
  check_acl-user now user b rest access db cache g d h =
      let p = device_part b rest h in
      elim (Option-cases (find (has_id out b) db.devices)) [
        | inl n ↦ ground (arith, g, d, p, n)
        | inr (x, f) ↦ ground (arith, g, d, p, f)
      ]

  -- A user's client may use a topic below `device/{id}/`, to subscribe or publish, exactly if the
  -- user owns the farm of the device with this id and the topic contains one of the four keywords;
  -- the user's name is neither a device's nor a gateway's, and the id has no slash.
  pub user_acl_iff :
      (now : Time) (user b rest : Text) (access : ℕ) (db : Db) (cache : Cache)
      → starts_with gateway_prefix user ≡ false
      → starts_with device_prefix user ≡ false
      → HasNoSlash b
      → ((check_acl out now user (device_topic b rest) access db cache).0 ≡ true) ↔ (
          (d : Device) × (find (has_id out b) db.devices ≡ some d)
          × (has_text out (owner_of d db) user ≡ true)
          × (has_keyword (device_topic b rest) ≡ true))
  unfolding user_decision
  user_acl_iff now user b rest access db cache g d h =
      let same = check_acl-user now user b rest access db cache g d h in
      (
        λ e. elim (Option-cases (find (has_id out b) db.devices)) [
          | inl n ↦ cc (e, same, ap (user_decision user (device_topic b rest) db) n)
          | inr (x, f) ↦
              let both : has_text out (owner_of x db) user && has_keyword (device_topic b rest)
                  ≡ true =
                sym (ap (user_decision user (device_topic b rest) db) f) ∙ sym same ∙ e in
              (x, f, ground arith, ground arith)
        ],
        λ (x, f, o, k).
            same ∙ ap (user_decision user (device_topic b rest) db) f ∙ ground (arith, o, k),
      )
