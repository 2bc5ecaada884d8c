-- ===== src/Gateways.antt =====
-- gateway/gateway.service.ts: provisioning, pairing and status of gateways, and the devices that they
-- serve. The queries of the database and the publications succeed.
pub mod Pairing
pub mod Devices
mod Examples
use Prim.Native.String.{String}
use qs_farm_be.Common.{
  ℕ, ◌+◌, Bool, true, false, not, ◌&&◌, Option, none, some, List, [], ◌∷◌, ◌++◌, map, ltb, ◌==◌,
  if◌then◌else◌, find, keep, is_some, Text, ◌<|>◌,
}
use qs_farm_be.Domain.{Uuid, Time, Device}
use qs_farm_be.Emqx.{device_disabled}
use qs_farm_be.Provision.{GatewayStatus}
use qs_farm_be.Sync.{says}

-- A row of the table `gateway`; tokens, serials and nonces are only compared.
pub record GatewayRow : Type 0 where
  pub id : Uuid
  pub serial : ℕ
  pub hardware_version : Option Text
  pub firmware_version : Option Text
  pub mqtt_token : Option ℕ
  pub status : GatewayStatus
  pub farm_id : Option Uuid
  pub last_seen_at : Option Time
  pub nonce : Option ℕ
  pub pairing_token : Option ℕ
  pub pairing_token_expires_at : Option Time
  pub pairing_token_used : Bool
  pub provisioned_at : Option Time
  pub paired_at : Option Time

pub record GatewayDb : Type 0 where
  pub gateways : List GatewayRow
  pub devices : List Device

pub record GatewayRequest : Type 0 where
  pub serial : ℕ
  pub hw : Option Text
  pub nonce : ℕ

pub data GatewayFailure : Type 0 where
  gateway_not_found invalid_pairing_token pairing_token_used_before pairing_token_expired :
      GatewayFailure

-- `provision/gateway/resp/{nonce}` with a pairing token, or with the id and the MQTT token.
pub data GatewayMessage : Type 0 where
  pairing_token_sent : ℕ → ℕ → GatewayMessage
  credentials_sent : Option ℕ → Uuid → ℕ → GatewayMessage

pub data GatewayResult (A : Type 0) : Type 0 where
  gateway_failed : GatewayFailure → GatewayResult A
  gateway_done : A → GatewayResult A

pub record GatewayPaired : Type 0 where
  pub gateway_id : Uuid
  pub mqtt_token : ℕ

pub record GatewayPayload : Type 0 where
  pub kind : Option String
  pub reason : Option String
  pub fw : Option Text

abbrev pub day_ms : ℕ
day_ms = 86400000

abbrev pub gateway_with : Uuid → List GatewayRow → Option GatewayRow
gateway_with i gs = find (λ (g : GatewayRow). g.id == i) gs

-- `save` of a row that the table holds.
unfoldable pub save_gateway : GatewayRow → List GatewayRow → List GatewayRow
save_gateway g [] = []
save_gateway g (x ∷ xs) = (if x.id == g.id then g else x) ∷ save_gateway g xs

unfoldable pub update_gateway : Uuid → (GatewayRow → GatewayRow) → List GatewayRow → List GatewayRow
update_gateway i f [] = []
update_gateway i f (x ∷ xs) = (if x.id == i then f x else x) ∷ update_gateway i f xs

-- `create` with the defaults of the columns.
abbrev pub new_gateway : Uuid → ℕ → Option Text → GatewayRow
new_gateway i serial hw = record {
  id = i;
  serial = serial;
  hardware_version = hw;
  firmware_version = none;
  mqtt_token = none;
  status = GatewayStatus.pending;
  farm_id = none;
  last_seen_at = none;
  nonce = none;
  pairing_token = none;
  pairing_token_expires_at = none;
  pairing_token_used = false;
  provisioned_at = none;
  paired_at = none;
}

abbrev pub provisioned_gateway : Time → ℕ → ℕ → GatewayRow → GatewayRow
provisioned_gateway now nonce token g = record g {
  nonce = some nonce;
  pairing_token = some token;
  pairing_token_expires_at = some (now + day_ms);
  pairing_token_used = false;
  provisioned_at = some now;
}

-- `new_id` is the UUID of a new row and `token` the random pairing token.
unfoldable pub handle_gateway_request :
    Time → Uuid → ℕ → GatewayRequest → GatewayDb → GatewayDb × List GatewayMessage
handle_gateway_request now new_id token r db =
    elim (find (λ (g : GatewayRow). g.serial == r.serial) db.gateways) [
      | some g ↦ (
        record db { gateways = save_gateway (provisioned_gateway now r.nonce token g) db.gateways },
        pairing_token_sent r.nonce token ∷ [],
      )
      | none ↦ (
        record db {
          gateways =
              db.gateways
              ++ provisioned_gateway now r.nonce token (new_gateway new_id r.serial r.hw) ∷ [];
        },
        pairing_token_sent r.nonce token ∷ [],
      )
    ]

abbrev pub has_token : ℕ → GatewayRow → Bool
has_token t g = elim g.pairing_token [ none ↦ false | some u ↦ u == t ]

abbrev pub is_past : Time → Option Time → Bool
is_past now none = false
is_past now (some e) = ltb e now

abbrev pub paired_gateway : Time → Uuid → ℕ → GatewayRow → GatewayRow
paired_gateway now farm_id token g = record g {
  farm_id = some farm_id;
  status = GatewayStatus.paired;
  mqtt_token = some token;
  pairing_token_used = true;
  paired_at = some now;
}

-- `where: { farmId, status: Not(DISABLED) }`
abbrev pub is_farm_device : Uuid → Device → Bool
is_farm_device f d =
    elim d.farm_id [ none ↦ false | some g ↦ g == f ] && not (device_disabled d.status)

unfoldable pub assign_devices : Uuid → Uuid → List Device → List Device
assign_devices farm_id i [] = []
assign_devices farm_id i (d ∷ ds) =
    (if is_farm_device farm_id d then record d { gateway_id = some i } else d)
    ∷ assign_devices farm_id i ds

-- `new_token` is the random MQTT token.
unfoldable pub pair_gateway :
    Time → ℕ → ℕ → Uuid → GatewayDb → GatewayResult GatewayPaired × GatewayDb × List GatewayMessage
pair_gateway now new_token pairing_token farm_id db =
    elim (find (has_token pairing_token) db.gateways) [
      | none ↦ (gateway_failed invalid_pairing_token, db, [])
      | some g ↦
          if g.pairing_token_used
          then (gateway_failed pairing_token_used_before, db, [])
          else if is_past now g.pairing_token_expires_at
          then (gateway_failed pairing_token_expired, db, [])
          else (
            gateway_done (record { gateway_id = g.id; mqtt_token = new_token }),
            record {
              gateways = save_gateway (paired_gateway now farm_id new_token g) db.gateways;
              devices = assign_devices farm_id g.id db.devices;
            },
            credentials_sent g.nonce g.id new_token ∷ [],
          )
    ]

abbrev pub is_served : Uuid → Device → Bool
is_served i d = elim d.gateway_id [ none ↦ false | some g ↦ g == i ]

unfoldable pub release_devices : Uuid → List Device → List Device
release_devices i [] = []
release_devices i (d ∷ ds) =
    (if is_served i d then record d { gateway_id = none } else d) ∷ release_devices i ds

unfoldable pub delete_gateway : Uuid → GatewayDb → Option GatewayFailure × GatewayDb
delete_gateway i db = elim (gateway_with i db.gateways) [
  | none ↦ (some gateway_not_found, db)
  | some g ↦ (
    none,
    record {
      gateways = keep (λ (x : GatewayRow). not (x.id == i)) db.gateways;
      devices = release_devices i db.devices;
    },
  )
]

abbrev pub seen : Time → Option Text → GatewayRow → GatewayRow
seen now fw g = record g { last_seen_at = some now; firmware_version = fw <|> g.firmware_version }

unfoldable pub handle_gateway_status : Time → Uuid → GatewayPayload → GatewayDb → GatewayDb
handle_gateway_status now i p db =
    if says p.kind "heartbeat"
    then record db { gateways = update_gateway i (seen now p.fw) db.gateways }
    else if says p.reason "lwt"
    then record db {
      gateways = update_gateway i (λ g. record g { last_seen_at = none }) db.gateways;
    }
    else db

unfoldable pub update_firmware_version : Uuid → Text → GatewayDb → GatewayDb
update_firmware_version i v db = record db {
  gateways = update_gateway i (λ g. record g { firmware_version = some v }) db.gateways;
}

unfoldable pub is_gateway_online : Time → GatewayRow → Bool
is_gateway_online now g = elim g.last_seen_at [ none ↦ false | some t ↦ ltb now (t + 90000) ]

abbrev pub find_by_farm : Uuid → List GatewayRow → List GatewayRow
find_by_farm f gs = keep (λ (g : GatewayRow). elim g.farm_id [ none ↦ false | some h ↦ h == f ]) gs
