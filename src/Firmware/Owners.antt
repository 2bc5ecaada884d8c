-- ===== src/Firmware/Owners.antt =====
-- Who owns the targets of a deployment, in firmware/firmware.service.ts.
use qs_farm_be.Common.{
  ◌≡◌, true, false, inl, inr, Option, none, some, List, [], ◌∷◌, arith, Memᴰ, All, All-keep,
  find-mem, find-test, keep, ◌==◌, Bool-cases, Option-cases, List-cases,
}
use qs_farm_be.Domain.{Uuid, Device, DeviceStatus}
use qs_farm_be.Emqx.{Farm}
use qs_farm_be.Gateways.{GatewayRow}
use qs_farm_be.Firmware.Rows.{
  FirmwareDb, FirmwareEffect, ota_command, device_ota, gateway_ota, firmware_deploying,
  DeployRequest, farm_not_found, farm_not_owned, no_targets, device_not_found, device_not_owned,
  ended,
}
use qs_farm_be.Firmware.Devices.{
  farm_with, device_with, is_of_farm, is_paired, find_devices, target_devices,
}
use qs_farm_be.Firmware.{is_owned_by, all_owned, check_targets}

is_of_farm-some : (f : Uuid) (d : Device) → is_of_farm f d ≡ true → d.farm_id ≡ some f
is_of_farm-some f d h = ground (arith, h)

pub is_paired-paired : (d : Device) → is_paired d ≡ true → d.status ≡ DeviceStatus.paired
is_paired-paired d h = ground (arith, h)

module _ (u : Uuid) (db : FirmwareDb) where
  -- The farm that a row refers to is one of the user's.
  pub record Owns (farm_id : Option Uuid) : Type 0 where
    pub farm : Farm
    pub listed : Memᴰ farm db.farms
    pub referred : farm_id ≡ some farm.id
    pub of_user : farm.user_id ≡ u

  pub record OwnsDevice (i : Uuid) : Type 0 where
    pub device : Device
    pub listed : Memᴰ device db.devices
    pub named : device.id ≡ i
    pub paired : device.status ≡ DeviceStatus.paired
    pub owned : Owns device.farm_id

  -- A device of the user's, with the gateway that serves it.
  pub record OwnsRelayed (g i : Uuid) : Type 0 where
    pub owns : OwnsDevice i
    pub relayed : owns.device.gateway_id ≡ some g

  pub record OwnsGateway (i : Uuid) : Type 0 where
    pub gateway : GatewayRow
    pub listed : Memᴰ gateway db.gateways
    pub named : gateway.id ≡ i
    pub owned : Owns gateway.farm_id

  unfoldable pub OwnsTarget : FirmwareEffect → Type 0
  OwnsTarget (ota_command i fw) = OwnsDevice i
  OwnsTarget (device_ota g i fw) = OwnsRelayed g i
  OwnsTarget (gateway_ota g fw) = OwnsGateway g
  OwnsTarget (firmware_deploying i v) = OwnsDevice i

  pub farm_with-Owns :
      (f : Uuid) (farm : Farm)
      → farm_with f db ≡ some farm
      → farm.user_id == u ≡ true
      → Owns (some f)
  farm_with-Owns f farm h k =
      let named = find-test (λ (x : Farm). x.id == f) db.farms farm h in
      record {
        farm = farm;
        listed = find-mem (λ (x : Farm). x.id == f) db.farms farm h;
        referred = ground (arith, named);
        of_user = ground (arith, k);
      }

  is_owned_by-Owns : (f : Option Uuid) → is_owned_by u db f ≡ true → Owns f
  is_owned_by-Owns none h = ground (arith, h)
  is_owned_by-Owns (some f) h = elim (Option-cases (farm_with f db)) [
    | inl n ↦ let e : false ≡ true = rw (n, is_owned_by) at h in ground (arith, e)
    | inr (farm, n) ↦
        let e : farm.user_id == u ≡ true = rw (n, is_owned_by) at h in farm_with-Owns f farm n e
  ]

  -- A device of the table whose farm is the user's.
  abbrev pub IsOwnRow : Device → Type 0
  IsOwnRow d = Memᴰ d db.devices × Owns d.farm_id

  find_devices-mem :
      (is : List Uuid) (ds : List Device)
      → find_devices is db ≡ some ds
      → All (λ d. Memᴰ d db.devices) ds
  unfolding find_devices
  find_devices-mem [] ds h = let e : ds ≡ [] = cc in rw e tt
  find_devices-mem (i ∷ is) ds h = elim (Option-cases (device_with i db)) [
    | inl n ↦ let e : none ≡ some ds = rw (n, find_devices) at h in cc
    | inr (d, n) ↦ elim (Option-cases (find_devices is db)) [
      | inl k ↦ let e : none ≡ some ds = rw (n, k, find_devices) at h in cc
      | inr (rest, k) ↦
          let e : some (d ∷ rest) ≡ some ds = rw (n, k, find_devices) at h in
          let same : ds ≡ d ∷ rest = cc in
          rw same (find-mem (λ (x : Device). x.id == i) db.devices d n, find_devices-mem is rest k)
    ]
  ]

  all_owned-IsOwnRow :
      (ds : List Device)
      → All (λ d. Memᴰ d db.devices) ds
      → all_owned u db ds ≡ true
      → All IsOwnRow ds
  unfolding all_owned
  all_owned-IsOwnRow [] m h = tt
  all_owned-IsOwnRow (d ∷ ds) m h =
      let own : is_owned_by u db d.farm_id ≡ true = ground (arith, h) in
      let rest : all_owned u db ds ≡ true = ground (arith, h) in
      ((m.0, is_owned_by-Owns d.farm_id own), all_owned-IsOwnRow ds m.1 rest)

  of_farm-IsOwnRow :
      (f : Uuid) (farm : Farm)
      → farm_with f db ≡ some farm
      → farm.user_id == u ≡ true
      → All IsOwnRow (keep (is_of_farm f) db.devices)
  of_farm-IsOwnRow f farm h k = All-keep IsOwnRow (is_of_farm f) db.devices λ d m e.
      let same : d.farm_id ≡ some f = is_of_farm-some f d e in
      (m, rw same (farm_with-Owns f farm h k))

  -- What the checks let pass is owned.
  pub check_targets-IsOwnRow :
      (r : DeployRequest) (ds : List Device)
      → check_targets u r db ≡ none
      → target_devices r db ≡ ended ds
      → All IsOwnRow ds
  unfolding check_targets target_devices
  check_targets-IsOwnRow r ds h k = elim (Option-cases r.farm_id) [
    | inr (f, n) ↦ elim (Option-cases (farm_with f db)) [
      | inl m ↦ let e : some farm_not_found ≡ none = rw (n, m, check_targets) at h in cc
      | inr (farm, m) ↦ elim (Bool-cases (farm.user_id == u)) [
        | inr b ↦ let e : some farm_not_owned ≡ none = rw (n, m, b, check_targets) at h in cc
        | inl b ↦
            let e : ended (keep (is_of_farm f) db.devices) ≡ ended ds =
              rw (n, target_devices) at k in
            let same : ds ≡ keep (is_of_farm f) db.devices = cc in
            rw same (of_farm-IsOwnRow f farm m b)
      ]
    ]
    | inl n ↦ elim (List-cases r.device_ids) [
      | inl m ↦ let e : some no_targets ≡ none = rw (n, m, check_targets) at h in cc
      | inr (i, is, m) ↦ elim (Option-cases (find_devices (i ∷ is) db)) [
        | inl q ↦ let e : some device_not_found ≡ none = rw (n, m, q, check_targets) at h in cc
        | inr (found, q) ↦ elim (Bool-cases (all_owned u db found)) [
          | inr b ↦ let e : some device_not_owned ≡ none = rw (n, m, q, b, check_targets) at h in cc
          | inl b ↦
              let e : ended found ≡ ended ds = rw (n, m, q, target_devices) at k in
              let same : ds ≡ found = cc in
              rw same (all_owned-IsOwnRow found (find_devices-mem (i ∷ is) found q) b)
        ]
      ]
    ]
  ]
