-- ===== src/Provision/Upkeep.antt =====
-- The other operations of provision/provision.service.ts: unpairing, a new device token, and the
-- administration of pairing tokens.
use qs_farm_be.Common.{
  ℕ, Bool, true, not, Option, none, some, List, [], ◌∷◌, map, ltb, ◌==◌, if◌then◌else◌, find, keep,
  length, is_some,
}
use qs_farm_be.Domain.{Uuid, Time, DeviceStatus, pending, Device}
use qs_farm_be.Provision.{
  Db, PairingToken, Result, failed, done, device_not_found, token_not_found, bad_status, is_paired,
  has_serial, replace_device,
}

abbrev pub with_id : Uuid → Device → Bool
with_id i d = d.id == i

unfoldable pub unpair_device : Uuid → Db → Db × Result Device
unpair_device device_id db = elim (find (with_id device_id) db.devices) [
  | none ↦ (db, failed device_not_found)
  | some d ↦
      let d' = record d { farm_id = none; device_token = none; status = pending } in
      (record db { devices = replace_device d' db.devices }, done d')
]

-- `new_token` is the random token.
unfoldable pub regenerate_device_token : ℕ → Uuid → Db → Db × Result (Uuid × ℕ)
regenerate_device_token new_token device_id db = elim (find (with_id device_id) db.devices) [
  | none ↦ (db, failed device_not_found)
  | some d ↦
      if is_paired d.status
      then (
        record db {
          devices = replace_device (record d { device_token = some new_token }) db.devices;
        },
        done (device_id, new_token),
      )
      else (db, failed (bad_status d.status))
]

pub record PairingStatus : Type 0 where
  pub device_id : Uuid
  pub serial : Option ℕ
  pub status : DeviceStatus
  pub farm_id : Option Uuid
  pub provisioned_at : Option Time
  pub paired_at : Option Time

unfoldable pub get_pairing_status : ℕ → Db → Result PairingStatus
get_pairing_status serial db = elim (find (has_serial serial) db.devices) [
  | none ↦ failed device_not_found
  | some d ↦ done (record {
    device_id = d.id;
    serial = d.serial;
    status = d.status;
    farm_id = d.farm_id;
    provisioned_at = d.provisioned_at;
    paired_at = d.paired_at;
  })
]

-- Rows in descending order of creation.
unfoldable pub insert_latest : PairingToken → List PairingToken → List PairingToken
insert_latest t [] = t ∷ []
insert_latest t (x ∷ xs) =
    let rest = insert_latest t xs in if ltb x.created_at t.created_at then t ∷ x ∷ xs else x ∷ rest

unfoldable pub by_creation : List PairingToken → List PairingToken
by_creation [] = []
by_creation (t ∷ ts) = insert_latest t (by_creation ts)

-- Each token with its `expired` flag.
unfoldable pub get_all_pairing_tokens : Time → Db → List (PairingToken × Bool)
get_all_pairing_tokens now db =
    map (λ (t : PairingToken). (t, ltb t.expires_at now)) (by_creation db.pairing_tokens)

abbrev token_with_id : Uuid → PairingToken → Bool
token_with_id i t = t.id == i

unfoldable pub delete_pairing_token : Uuid → Db → Db × Result (Uuid × ℕ)
delete_pairing_token token_id db = elim (find (token_with_id token_id) db.pairing_tokens) [
  | none ↦ (db, failed token_not_found)
  | some t ↦ (
    record db {
      pairing_tokens =
          keep (λ (x : PairingToken). not (token_with_id token_id x)) db.pairing_tokens;
    },
    done (token_id, t.serial),
  )
]

pub data TokenFilter : Type 0 where
  expired used all : TokenFilter

abbrev pub is_selected : TokenFilter → Time → PairingToken → Bool
is_selected expired now t = ltb t.expires_at now
is_selected used now t = t.used
is_selected all now t = true

-- `remove` deletes by id.
unfoldable pub remove_tokens : List PairingToken → List PairingToken → List PairingToken
remove_tokens ts =
    keep (λ (x : PairingToken). not (is_some (find (λ (t : PairingToken). t.id == x.id) ts)))

-- The number of tokens that are deleted comes back.
unfoldable pub delete_all_pairing_tokens : TokenFilter → Time → Db → Db × ℕ
delete_all_pairing_tokens filter now db =
    let selected = keep (is_selected filter now) db.pairing_tokens in
    (record db { pairing_tokens = remove_tokens selected db.pairing_tokens }, length selected)
