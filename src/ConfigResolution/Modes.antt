-- ===== src/ConfigResolution/Modes.antt =====
-- The modes in force: `resolveConfig` of zone/config-resolution.service.ts.
use qs_farm_be.Common.{◌≡◌, ◌≢◌, false, none, some, arith, inl, inr, Option-cases}
use qs_farm_be.Domain.{Device, Zone}
use qs_farm_be.ConfigResolution.{ResolvedDeviceContext, resolve_config}

module _ {F : Type 0} where
  -- The device's own mode is in force when it has one and its zone does not impose the zone's.
  pub resolve_config_device :
      (context : ResolvedDeviceContext F)
      → ((z : Zone) → context.zone ≡ some z → z.check_all ≡ false)
      → (d : Device) → context.device ≡ some d
      → (d.irrigation_mode ≢ none
          → d.irrigation_mode ≡ some (resolve_config context).irrigation_mode)
        × (d.control_mode ≢ none → d.control_mode ≡ some (resolve_config context).control_mode)
  unfolding resolve_config
  resolve_config_device context h d e = elim (Option-cases context.zone) [
    | inl n ↦ (λ i. ground arith, λ c. ground arith)
    | inr (z, f) ↦ (λ i. ground (arith, h z f), λ c. ground (arith, h z f))
  ]
