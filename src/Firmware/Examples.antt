-- ===== src/Firmware/Examples.antt =====
-- A farm with one paired device, for firmware/firmware.service.ts.
use qs_farm_be.Common.{true, none, some, [], ◌∷◌}
use qs_farm_be.Domain.{Device, DeviceStatus, new_device}
use qs_farm_be.Firmware.Rows.{FirmwareRow, for_devices, FirmwareDb, Channels, DeployRequest}

abbrev release : FirmwareRow
release = record {
  id = 7;
  version = 2 ∷ [];
  checksum = 99;
  file_size = 1024;
  target_type = for_devices;
  is_published = true;
}

abbrev pump : Device
pump = record (new_device 1) { status = DeviceStatus.paired; farm_id = some 3 }

abbrev db : FirmwareDb
db = record {
  firmwares = release ∷ [];
  logs = [];
  devices = pump ∷ new_device 2 ∷ [];
  gateways = [];
  farms = record { id = 3; user_id = 9 } ∷ [];
}

abbrev channels : Channels
channels = record { command_error = λ i. none; publish_error = λ i. none; new_id = λ k. k }

abbrev request : DeployRequest
request = record { device_ids = []; gateway_ids = []; farm_id = some 3 }
