-- ===== src/Firmware.antt =====
-- firmware/firmware.service.ts: the deployment of firmware to devices and gateways, with the checks
-- of who owns them. The queries and saves of the database succeed; the publications may fail.
pub mod Rows
pub mod Devices
pub mod Owners
pub mod Deployments
mod Examples
use qs_farm_be.Common.{
  ℕ, suc, Bool, true, false, not, Option, none, some, List, [], ◌∷◌, ◌++◌, map, ◌==◌, if◌then◌else◌,
  find, keep, Text,
}
use qs_farm_be.Domain.{Uuid, Device, DeviceStatus}
use qs_farm_be.Emqx.{Farm}
use qs_farm_be.Gateways.{GatewayRow, gateway_with, find_by_farm}
use qs_farm_be.Firmware.Rows.{
  FirmwareRow, TargetType, for_devices, for_gateways, FirmwareUpdateLog, FirmwareUpdateStatus,
  FirmwareDb, FirmwareFailure, firmware_not_found, wrong_target, firmware_not_published, no_targets,
  farm_not_found, farm_not_owned, device_not_found, device_not_owned, gateway_not_found,
  gateway_unpaired, gateway_not_owned, Outcome, refused, ended, FirmwareEffect, ota_command,
  device_ota, gateway_ota, firmware_deploying, Channels, DeployRequest, DeployResult,
}
use qs_farm_be.Firmware.Devices.{
  firmware_with, farm_with, device_with, is_of_farm, is_paired, find_devices, target_devices,
  new_log, send_ota, deploy_each, announce, deploy_to_devices, deploy,
}

-- `device.farm` is the row that the farm id of the device refers to.
abbrev pub is_owned_by : Uuid → FirmwareDb → Option Uuid → Bool
is_owned_by u db farm_id = elim farm_id [
  | none ↦ false
  | some f ↦ elim (farm_with f db) [ none ↦ false | some farm ↦ farm.user_id == u ]
]

-- Whether the loop over the devices finds each of them owned.
unfoldable pub all_owned : Uuid → FirmwareDb → List Device → Bool
all_owned u db [] = true
all_owned u db (d ∷ ds) =
    let rest = all_owned u db ds in if is_owned_by u db d.farm_id then rest else false

-- The checks of `deployForUser`; `none` lets the request pass.
unfoldable pub check_targets : Uuid → DeployRequest → FirmwareDb → Option FirmwareFailure
check_targets u r db = elim r.farm_id [
  | some f ↦ elim (farm_with f db) [
    | none ↦ some farm_not_found
    | some farm ↦ if farm.user_id == u then none else some farm_not_owned
  ]
  | none ↦ elim r.device_ids [
    | [] ↦ some no_targets
    | i ∷ is ↦ elim (find_devices (i ∷ is) db) [
      | none ↦ some device_not_found
      | some ds ↦ if all_owned u db ds then none else some device_not_owned
    ]
  ]
]

unfoldable pub deploy_for_user :
    Channels
    → Uuid
    → DeployRequest
    → Uuid
    → FirmwareDb
    → Outcome (List DeployResult) × FirmwareDb × List FirmwareEffect
deploy_for_user w i r u db = elim (check_targets u r db) [
  | some e ↦ (refused e, db, [])
  | none ↦ deploy w i r db
]

-- The loop over the gateways of a request.
unfoldable pub check_gateways : Uuid → FirmwareDb → List Uuid → Option FirmwareFailure
check_gateways u db [] = none
check_gateways u db (i ∷ is) =
    let rest = check_gateways u db is in
    elim (gateway_with i db.gateways) [
      | none ↦ some gateway_not_found
      | some g ↦ elim g.farm_id [
        | none ↦ some gateway_unpaired
        | some f ↦ elim (farm_with f db) [
          | none ↦ some farm_not_found
          | some farm ↦ if farm.user_id == u then rest else some gateway_not_owned
        ]
      ]
    ]

-- The gateways that the user may deploy to.
unfoldable pub target_gateways : Uuid → DeployRequest → FirmwareDb → Outcome (List Uuid)
target_gateways u r db = elim r.farm_id [
  | some f ↦ elim (farm_with f db) [
    | none ↦ refused farm_not_found
    | some farm ↦
        if farm.user_id == u
        then ended (map (λ (g : GatewayRow). g.id) (find_by_farm f db.gateways))
        else refused farm_not_owned
  ]
  | none ↦ elim r.gateway_ids [
    | [] ↦ refused no_targets
    | i ∷ is ↦ elim (check_gateways u db (i ∷ is)) [ some e ↦ refused e | none ↦ ended (i ∷ is) ]
  ]
]

unfoldable pub deploy_to_gateways :
    Channels
    → FirmwareRow
    → ℕ
    → List Uuid
    → List FirmwareUpdateLog × List DeployResult × List FirmwareEffect
deploy_to_gateways w fw k [] = ([], [], [])
deploy_to_gateways w fw k (g ∷ gs) =
    let error = w.publish_error g in
    let (logs, results, es) = deploy_to_gateways w fw (suc k) gs in
    (
      new_log (w.new_id k) fw none (some g) none error ∷ logs,
      record { target_id = g; log_id = w.new_id k; error = error } ∷ results,
      gateway_ota g fw ∷ es,
    )

unfoldable pub deploy_gateways_for_user :
    Channels
    → Uuid
    → DeployRequest
    → Uuid
    → FirmwareDb
    → Outcome (List DeployResult) × FirmwareDb × List FirmwareEffect
deploy_gateways_for_user w i r u db = elim (firmware_with i db) [
  | none ↦ (refused firmware_not_found, db, [])
  | some fw ↦
      if not fw.is_published
      then (refused firmware_not_published, db, [])
      else elim fw.target_type [
        | for_devices ↦ (refused wrong_target, db, [])
        | for_gateways ↦ elim (target_gateways u r db) [
          | refused e ↦ (refused e, db, [])
          | ended gs ↦
              let (logs, results, es) = deploy_to_gateways w fw 0 gs in
              (ended results, record db { logs = db.logs ++ logs }, es)
        ]
      ]
]

-- The requests that `handleMobileUpdateRequest` makes of the one it gets.
abbrev pub gateway_request : List Uuid → DeployRequest
gateway_request gs = record { device_ids = []; gateway_ids = gs; farm_id = none }

abbrev pub device_request : DeployRequest → DeployRequest
device_request r = record { device_ids = r.device_ids; gateway_ids = []; farm_id = r.farm_id }

-- The gateways of a request come before its devices and its farm.
unfoldable pub handle_mobile_update_request :
    Channels
    → Uuid
    → DeployRequest
    → Uuid
    → FirmwareDb
    → Outcome (List DeployResult) × FirmwareDb × List FirmwareEffect
handle_mobile_update_request w i r u db = elim r.gateway_ids [
  | g ∷ gs ↦ deploy_gateways_for_user w i (gateway_request (g ∷ gs)) u db
  | [] ↦ deploy_for_user w i (device_request r) u db
]
