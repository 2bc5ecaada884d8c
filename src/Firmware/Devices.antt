-- ===== src/Firmware/Devices.antt =====
-- `deploy` of firmware/firmware.service.ts, without checks of the owner.
use qs_farm_be.Common.{
  ℕ, suc, Bool, true, false, Option, none, some, List, [], ◌∷◌, ◌++◌, map, ◌==◌, find, keep, Text,
}
use qs_farm_be.Domain.{Uuid, Device, DeviceStatus}
use qs_farm_be.Emqx.{Farm}
use qs_farm_be.Firmware.Rows.{
  FirmwareRow, for_devices, for_gateways, FirmwareUpdateLog, FirmwareUpdateStatus, FirmwareDb,
  firmware_not_found, wrong_target, no_targets, device_not_found, Outcome, refused, ended,
  FirmwareEffect, ota_command, device_ota, firmware_deploying, Channels, DeployRequest,
  DeployResult,
}

abbrev pub firmware_with : Uuid → FirmwareDb → Option FirmwareRow
firmware_with i db = find (λ (f : FirmwareRow). f.id == i) db.firmwares

abbrev pub farm_with : Uuid → FirmwareDb → Option Farm
farm_with i db = find (λ (f : Farm). f.id == i) db.farms

abbrev pub device_with : Uuid → FirmwareDb → Option Device
device_with i db = find (λ (d : Device). d.id == i) db.devices

abbrev pub is_of_farm : Uuid → Device → Bool
is_of_farm f d = elim d.farm_id [ none ↦ false | some g ↦ g == f ]

abbrev pub is_paired : Device → Bool
is_paired d = elim d.status [ DeviceStatus.paired ↦ true | _ ↦ false ]

-- `Promise.all(deviceIds.map(findOne))`
unfoldable pub find_devices : List Uuid → FirmwareDb → Option (List Device)
find_devices [] db = some []
find_devices (i ∷ is) db =
    let rest = find_devices is db in
    elim (device_with i db) [
      | none ↦ none
      | some d ↦ elim rest [ none ↦ none | some ds ↦ some (d ∷ ds) ]
    ]

-- The devices that `deploy` resolves.
unfoldable pub target_devices : DeployRequest → FirmwareDb → Outcome (List Device)
target_devices r db = elim r.farm_id [
  | some f ↦ ended (keep (is_of_farm f) db.devices)
  | none ↦ elim r.device_ids [
    | [] ↦ refused no_targets
    | i ∷ is ↦ elim (find_devices (i ∷ is) db) [
      | none ↦ refused device_not_found
      | some ds ↦ ended ds
    ]
  ]
]

-- The log that `deploy` saves first; on an error its status is set to FAILED.
abbrev pub new_log :
    Uuid → FirmwareRow → Option Uuid → Option Uuid → Option Text → Option Text → FirmwareUpdateLog
new_log i fw device_id gateway_id previous error = record {
  id = i;
  firmware_id = some fw.id;
  firmware_version = some fw.version;
  device_id = device_id;
  gateway_id = gateway_id;
  previous_version = previous;
  status = elim error [
    | none ↦ FirmwareUpdateStatus.pending
    | some e ↦ FirmwareUpdateStatus.failed
  ];
  error_message = error;
}

-- The command to a device, then the topic of its gateway.
unfoldable pub send_ota : Channels → FirmwareRow → Device → Option Text × List FirmwareEffect
send_ota w fw d = elim (w.command_error d.id) [
  | some e ↦ (some e, ota_command d.id fw ∷ [])
  | none ↦ elim d.gateway_id [
    | none ↦ (none, ota_command d.id fw ∷ [])
    | some g ↦ (w.publish_error g, ota_command d.id fw ∷ device_ota g d.id fw ∷ [])
  ]
]

-- The loop over the active devices, from the `k`th new row on.
unfoldable pub deploy_each :
    Channels
    → FirmwareRow
    → ℕ
    → List Device
    → List FirmwareUpdateLog × List DeployResult × List FirmwareEffect
deploy_each w fw k [] = ([], [], [])
deploy_each w fw k (d ∷ ds) =
    let (error, es) = send_ota w fw d in
    let (logs, results, rest) = deploy_each w fw (suc k) ds in
    (
      new_log (w.new_id k) fw (some d.id) none d.firmware_version error ∷ logs,
      record { target_id = d.id; log_id = w.new_id k; error = error } ∷ results,
      es ++ rest,
    )

abbrev pub announce : FirmwareRow → List Device → List FirmwareEffect
announce fw ds = map (λ (d : Device). firmware_deploying d.id fw.version) ds

unfoldable pub deploy_to_devices :
    Channels
    → FirmwareRow
    → List Device
    → FirmwareDb
    → Outcome (List DeployResult) × FirmwareDb × List FirmwareEffect
deploy_to_devices w fw devices db =
    let active = keep is_paired devices in
    let (logs, results, es) = deploy_each w fw 0 active in
    (ended results, record db { logs = db.logs ++ logs }, es ++ announce fw active)

unfoldable pub deploy :
    Channels
    → Uuid
    → DeployRequest
    → FirmwareDb
    → Outcome (List DeployResult) × FirmwareDb × List FirmwareEffect
deploy w i r db = elim (firmware_with i db) [
  | none ↦ (refused firmware_not_found, db, [])
  | some fw ↦ elim fw.target_type [
    | for_gateways ↦ (refused wrong_target, db, [])
    | for_devices ↦ elim (target_devices r db) [
      | refused e ↦ (refused e, db, [])
      | ended devices ↦ deploy_to_devices w fw devices db
    ]
  ]
]
