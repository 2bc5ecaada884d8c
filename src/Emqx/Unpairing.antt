-- ===== src/Emqx/Unpairing.antt =====
-- What `unpairDevice` of provision/provision.service.ts means for emqx/emqx.service.ts.
use mathlib.Core.Path.{subst}
use qs_farm_be.Common.{
  ◌≡◌, ◌≢◌, refl, sym, ◌∙◌, inl, inr, true, false, none, some, List, [], ◌∷◌, arith, Memᴰ,
  Bool-cases, find, find-test, ◌==◌, length, Text, starts_with,
}
use qs_farm_be.Domain.{Uuid, Device, pending}
use qs_farm_be.Provision.{Result, done, failed, replace_device, Gateway}
use qs_farm_be.Provision as Provision
use qs_farm_be.Provision.Upkeep.{unpair_device, with_id}
use qs_farm_be.Emqx.{Farm, Outside, Db, device_prefix, has_text, authenticate}
use qs_farm_be.Emqx.Devices.{authenticate-device}

-- The device as it is saved.
abbrev unpaired : Device → Device
unpaired d = record d { farm_id = none; device_token = none; status = pending }

-- The tables that the broker's service reads, beside the devices of provisioning.
abbrev pub broker_view : Provision.Db → List Farm → Db
broker_view db farms = record { devices = db.devices; gateways = db.gateways; farms = farms }

unpair_device-devices :
    (i : Uuid) (db : Provision.Db) (d : Device)
    → find (with_id i) db.devices ≡ some d
    → (unpair_device i db).0.devices ≡ replace_device (unpaired d) db.devices
unfolding unpair_device
unpair_device-devices i db d h = rw (h, unpair_device) refl

replaced-token :
    (u x : Device) (ds : List Device)
    → u.device_token ≡ none
    → Memᴰ x (replace_device u ds)
    → x.device_token ≢ none
    → x.id ≢ u.id
unfolding replace_device
replaced-token u x [] t m k = elim m [ ]
replaced-token u x (d ∷ ds) t (Memᴰ.head e) k = elim (Bool-cases (d.id == u.id)) [
  | inl same ↦ ground (arith, e, same)
  | inr other ↦ ground (arith, e, other)
]
replaced-token u x (d ∷ ds) t (Memᴰ.tail m) k = replaced-token u x ds t m k

replaced_found :
    (i : Uuid) (u d : Device) (ds : List Device)
    → u.id ≡ d.id
    → find (with_id i) ds ≡ some d
    → Memᴰ u (replace_device u ds)
unfolding replace_device
replaced_found i u d [] e h = cc
replaced_found i u d (x ∷ ds) e h = elim (Bool-cases (with_id i x)) [
  | inl hit ↦ Memᴰ.head (ground (arith, e, h, hit))
  | inr miss ↦ Memᴰ.tail (replaced_found i u d ds e (ground (arith, h, miss)))
]

-- Unpairing a device takes its farm away and leaves it with its gateway.
pub unpair_device-gateway_id :
    (i : Uuid) (db : Provision.Db) (d : Device)
    → find (with_id i) db.devices ≡ some d
    → (x : Device) × Memᴰ x (unpair_device i db).0.devices
      × (x.id ≡ i)
      × (x.farm_id ≡ none)
      × (x.gateway_id ≡ d.gateway_id)
unpair_device-gateway_id i db d h =
    let own : d.id ≡ i = ground (arith, find-test (with_id i) db.devices d h) in
    (
      unpaired d,
      subst (Memᴰ (unpaired d)) (sym (unpair_device-devices i db d h))
          (replaced_found i (unpaired d) d db.devices refl h),
      own,
      refl,
      refl,
    )

module _ (out : Outside) where
  -- Once a device is unpaired, a client that connects by a name of 36 characters has the token of
  -- another device. The database takes no text with the prefix `device:` as an id.
  pub unpair_device-authenticate :
      (i : Uuid) (db : Provision.Db) (farms : List Farm) (d : Device) (username password : Text)
      → find (with_id i) db.devices ≡ some d
      → length username ≡ 36
      → ((t : Text) → starts_with device_prefix t ≡ true → out.is_uuid t ≡ false)
      → authenticate out username password (broker_view (unpair_device i db).0 farms) ≡ true
      → (x : Device) × Memᴰ x (unpair_device i db).0.devices
        × (x.id ≢ i)
        × (has_text out x.device_token password ≡ true)
  unpair_device-authenticate i db farms d username password h p u e =
      let tables = broker_view (unpair_device i db).0 farms in
      let (long, bare, (x, m, named, token, on)) =
        authenticate-device out username password tables (ground (arith, p)) u e in
      let own : d.id ≡ i = ground (arith, find-test (with_id i) db.devices d h) in
      let listed = subst (Memᴰ x) (unpair_device-devices i db d h) m in
      let other =
        replaced-token (unpaired d) x db.devices refl listed (λ n. ground (arith, token, n)) in
      (x, m, λ same. other (same ∙ sym own), token)
