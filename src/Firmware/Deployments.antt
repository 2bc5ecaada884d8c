-- ===== src/Firmware/Deployments.antt =====
-- What a user's request deploys, and to whom, in firmware/firmware.service.ts.
use qs_farm_be.Common.{◌≡◌, List, Memᴰ, All}
use qs_farm_be.Domain.{Uuid, Device, DeviceStatus}
use qs_farm_be.Firmware.Rows.{FirmwareDb, FirmwareEffect}
use qs_farm_be.Firmware.Owners.{Owns, OwnsTarget}

module _ (u : Uuid) (db : FirmwareDb) where
  abbrev AreOwned : List FirmwareEffect → Type 0
  AreOwned = All (OwnsTarget u db)

  -- A paired device of the table that is the user's.
  abbrev IsOwnPairedRow : Device → Type 0
  IsOwnPairedRow d = Memᴰ d db.devices × (d.status ≡ DeviceStatus.paired) × Owns u db d.farm_id
