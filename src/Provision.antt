-- ===== src/Provision.antt =====
-- provision/provision.service.ts: a device asks for a pairing token, and its owner pairs it to a
-- farm. Of the database's refusals, the unique columns are modelled. A reading of the clock is an
-- argument; several readings in one call are one.
mod Rows
pub mod Lookups
pub mod Pairing
pub mod RoundTrip
pub mod Upkeep
pub mod Cleanup
mod Examples
pub use Rows.*
use qs_farm_be.Common.{
  ℕ, ◌+◌, Bool, true, false, not, ◌&&◌, ◌||◌, Option, none, some, List, [], ◌∷◌, ◌++◌, map, ltb,
  leb, ◌==◌, if◌then◌else◌, ◌<|>◌, find, keep, length, is_some,
}
use qs_farm_be.Domain.{Uuid, Time, DeviceStatus, pending, paired, Device, new_device}
use qs_farm_be.Provision.Rows.{GatewayStatus}

abbrev pub token_lifetime : ℕ
token_lifetime = 86400000

-- `===` of two columns that may be null, as a unique index reads it: null differs from null.
abbrev pub same_value : Option ℕ → Option ℕ → Bool
same_value none b = false
same_value (some a) none = false
same_value (some a) (some b) = a == b

abbrev pub has_serial : ℕ → Device → Bool
has_serial serial d = same_value d.serial (some serial)

abbrev pub token_of : ℕ → PairingToken → Bool
token_of serial t = t.serial == serial

abbrev pub is_paired : DeviceStatus → Bool
is_paired paired = true
is_paired _ = false

-- PENDING or PAIRED
abbrev pub may_pair : DeviceStatus → Bool
may_pair pending = true
may_pair paired = true
may_pair _ = false

unfoldable pub is_valid_hardware_version : List ℕ → Bool
is_valid_hardware_version hw = ltb 0 (length hw) && leb (length hw) 50

-- `hw && !this.isValidHardwareVersion(hw)`
abbrev pub has_bad_hardware : Option (List ℕ) → Bool
has_bad_hardware none = false
has_bad_hardware (some hw) = not (is_valid_hardware_version hw)

-- Another row holds a value of a unique column.
abbrev pub clashes : Device → Device → Bool
clashes d x =
    not (x.id == d.id)
    && (same_value d.serial x.serial || same_value d.imei x.imei || same_value d.mac x.mac)

-- Saving a row that the table has, where no unique column refuses it.
unfoldable pub replace_device : Device → List Device → List Device
replace_device d = map (λ (x : Device). if x.id == d.id then d else x)

unfoldable pub created_device : Uuid → Time → ℕ → ProvisionRequest → Device
created_device i now serial payload = record (new_device i) {
  serial = some serial;
  mac = payload.mac;
  hardware_version = payload.hw;
  hw_model = payload.hw_model;
  firmware_version = payload.fw;
  status = pending;
  imei = some serial;
  farm_id = none;
  provisioned_at = some now;
}

unfoldable pub refreshed_device : Time → ProvisionRequest → Device → Device
refreshed_device now payload d = record d {
  hardware_version = payload.hw <|> d.hardware_version;
  hw_model = payload.hw_model <|> d.hw_model;
  firmware_version = payload.fw <|> d.firmware_version;
  mac = payload.mac <|> d.mac;
  status = pending;
  provisioned_at = some now;
}

-- `none` where the unique `serial` or `token` refuses the row.
unfoldable pub generate_pairing_token :
    Fresh → Time → ℕ → List PairingToken → Option (PairingToken × List PairingToken)
generate_pairing_token fresh now serial tokens =
    let t : PairingToken = record {
      id = fresh.token_id;
      token = fresh.token;
      serial = serial;
      expires_at = now + token_lifetime;
      used = false;
      created_at = now;
    } in
    if is_some (find (λ (x : PairingToken). x.serial == serial || x.token == fresh.token) tokens)
    then none
    else some (t, tokens ++ t ∷ [])

-- What follows the saving of the device: a token, and the response. A failure leaves the device.
unfoldable pub give_token :
    Fresh → Time → ℕ → ℕ → Device → Db → Db × Option Provisioned × List Message
give_token fresh now serial nonce d db =
    elim (generate_pairing_token fresh now serial db.pairing_tokens) [
      | none ↦ (db, none, [])
      | some (t, tokens) ↦ (
        record db { pairing_tokens = tokens },
        some (record {
          device_id = d.id;
          serial = d.serial;
          pairing_token = t.token;
          expires_at = t.expires_at;
        }),
        provision_response nonce d.id t.token ∷ [],
      )
    ]

-- The device that `save` writes, and the table with it.
unfoldable pub provisioned_device :
    Fresh → Time → ℕ → ProvisionRequest → Db → Option (Device × List Device)
provisioned_device fresh now serial payload db = elim (find (has_serial serial) db.devices) [
  | none ↦
      let d = created_device fresh.device_id now serial payload in
      if is_some (find (clashes d) db.devices) then none else some (d, db.devices ++ d ∷ [])
  | some old ↦
      let d = refreshed_device now payload old in
      if is_paired old.status || is_some (find (clashes d) db.devices)
      then none
      else some (d, replace_device d db.devices)
]

-- `none` is the null that is returned where the request is refused or anything throws.
unfoldable pub handle_provision_request :
    Fresh → Time → ProvisionRequest → Db → Db × Option Provisioned × List Message
handle_provision_request fresh now payload db = elim payload.serial [
  | none ↦ (db, none, [])
  | some serial ↦ elim payload.nonce [
    | none ↦ (db, none, [])
    | some nonce ↦
        if has_bad_hardware payload.hw
        then (db, none, [])
        else elim (provisioned_device fresh now serial payload db) [
          | none ↦ (db, none, [])
          | some (d, devices) ↦
              give_token fresh now serial nonce d (record db { devices = devices })
        ]
  ]
]

-- The checks of `pairDevice`, in order.
unfoldable pub check_token : Time → PairRequest → PairingToken → Option Failure
check_token now dto t =
    if t.used
    then some already_used
    else if ltb t.expires_at now
    then some expired
    else if t.token == dto.pairing_token
    then none
    else some invalid_token

unfoldable pub check_pair : Time → PairRequest → Db → Result (Device × PairingToken)
check_pair now dto db = elim (find (has_serial dto.serial) db.devices) [
  | none ↦ failed device_not_found
  | some d ↦
      if may_pair d.status
      then elim (find (token_of dto.serial) db.pairing_tokens) [
        | none ↦ failed no_pairing_token
        | some t ↦ elim (check_token now dto t) [ none ↦ done (d, t) | some e ↦ failed e ]
      ]
      else failed (bad_status d.status)
]

abbrev pub is_disabled : GatewayStatus → Bool
is_disabled GatewayStatus.disabled = true
is_disabled _ = false

-- A gateway of the farm whose status is not DISABLED.
abbrev pub serves : Uuid → Gateway → Bool
serves farm_id g = same_value g.farm_id (some farm_id) && not (is_disabled g.status)

unfoldable pub farm_gateway : Uuid → List Gateway → Option Uuid
farm_gateway farm_id gateways = elim (find (serves farm_id) gateways) [
  | none ↦ none
  | some g ↦ some g.id
]

unfoldable pub paired_device : Time → ℕ → PairRequest → List Gateway → Device → Device
paired_device now device_token dto gateways d = record d {
  farm_id = some dto.farm_id;
  device_token = some device_token;
  status = paired;
  paired_at = some now;
  gateway_id = farm_gateway dto.farm_id gateways;
}

-- `UPDATE … WHERE id = …`
unfoldable pub update_device : Uuid → (Device → Device) → List Device → List Device
update_device i f = map (λ (x : Device). if x.id == i then f x else x)

unfoldable pub use_token : Uuid → List PairingToken → List PairingToken
use_token i = map (λ (t : PairingToken). if t.id == i then record t { used = true } else t)

-- `device_token` is the random token that the device gets.
unfoldable pub pair_device : Time → ℕ → Uuid → PairRequest → Db → Db × Result Paired × List Message
pair_device now device_token user_id dto db = elim (check_pair now dto db) [
  | failed e ↦ (db, failed e, [])
  | done (d, t) ↦ (
    record db {
      devices = update_device d.id (paired_device now device_token dto db.gateways) db.devices;
      pairing_tokens = use_token t.id db.pairing_tokens;
    },
    done (record {
      device_id = d.id;
      serial = d.serial;
      device_token = device_token;
      status = paired;
    }),
    set_owner d.id user_id device_token dto.farm_id (farm_gateway dto.farm_id db.gateways) ∷ [],
  )
]
