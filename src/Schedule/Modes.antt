-- ===== src/Schedule/Modes.antt =====
-- What a schedule that sets the irrigation mode changes for the thresholds: the cache of
-- zone/config-resolution.service.ts behind schedule/schedule.service.ts.
use qs_farm_be.Common.{◌≡◌, refl, ap, ◌∙◌, none, some, List}
use qs_farm_be.Domain.{Uuid, Time, Device, IrrigationMode, ZoneSensorConfig}
use qs_farm_be.ConfigResolution.{
  Tables, ResolvedDeviceContext, load_context, invalidate_cache, get_device_context, resolve_config,
}
use qs_farm_be.ConfigResolution.Cache.{get-invalidate}
use qs_farm_be.Sync.{device_of, update_device_row}
use qs_farm_be.Sync.Online.{device_of-update_device_row}
use qs_farm_be.Schedule.{DeviceSchedule, ScheduleState}
use qs_farm_be.Schedule.Job.{with_devices, mode_change, apply_mode_change}

module _ {F : Type 0} where
  -- The config_tables that the config resolution reads.
  abbrev pub config_tables : List (ZoneSensorConfig F) → ScheduleState F → Tables F
  config_tables configs st = record {
    devices = st.sync.devices;
    zones = st.zones;
    zone_configs = configs;
  }

  resolve-alone :
      (configs : List (ZoneSensorConfig F)) (st : ScheduleState F) (r : Device) (i : Uuid)
      (m : IrrigationMode)
      → device_of i st.sync.devices ≡ some r
      → r.zone_id ≡ none
      → r.irrigation_mode ≡ some m
      → (resolve_config (load_context (config_tables configs st) i)).irrigation_mode ≡ m
  unfolding load_context resolve_config
  resolve-alone configs st r i m h z k = rw (h, z) (rw k refl)

  -- When a schedule for a device sets the irrigation mode, the mode that the next call of the config
  -- resolution gives for the device is the new one, whatever was cached; the device is in the table
  -- and in no zone.
  pub apply_mode_change-resolve_config :
      (s : DeviceSchedule) (st : ScheduleState F) (configs : List (ZoneSensorConfig F)) (now : Time)
      → (d : Uuid) (r : Device) (m : IrrigationMode) → mode_change s ≡ some m
      → s.zone_id ≡ none
      → s.device_id ≡ some d
      → device_of d st.sync.devices ≡ some r
      → r.zone_id ≡ none
      → (resolve_config
          (get_device_context
            (config_tables configs (apply_mode_change s st))
            now
            d
            (apply_mode_change s st).configs).0).irrigation_mode
        ≡ m
  unfolding apply_mode_change
  apply_mode_change-resolve_config s st configs now d r m c z h found alone =
      let set = λ (x : Device). record x { irrigation_mode = some m } in
      let st1 : ScheduleState F =
        record (with_devices (update_device_row d set st.sync.devices) st) {
          configs = invalidate_cache d st.configs;
        } in
      rw (apply_mode_change, c, z, h)
        (ap (λ (x : ResolvedDeviceContext F). (resolve_config x).irrigation_mode)
            (get-invalidate (config_tables configs st1) st.configs now d)
          ∙ resolve-alone configs st1 (set r) d m
              (device_of-update_device_row d set st.sync.devices r (λ x. refl) found) alone refl)
