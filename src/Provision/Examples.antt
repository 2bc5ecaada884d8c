-- ===== src/Provision/Examples.antt =====
-- A device that asks for a token and is paired, for provision/provision.service.ts.
use qs_farm_be.Common.{◌≡◌, ◌↔◌, refl, false, none, some, [], ◌∷◌, arith, Memᴰ}
use qs_farm_be.Domain.{Device, paired, new_device}
use qs_farm_be.Provision.{
  Db, PairingToken, ProvisionRequest, PairRequest, Fresh, Provisioned, Paired, failed, done,
  already_used, handle_provision_request, pair_device, check_pair, check_token, created_device,
  provisioned_device, generate_pairing_token, give_token, is_valid_hardware_version,
}
use qs_farm_be.Provision.Rows.{GatewayStatus}
use qs_farm_be.Provision.Pairing.{IsPairable, pair_device_iff, pair_device_once}
use qs_farm_be.Provision.RoundTrip.{provision-pair, handle_provision_request_blocked}
use qs_farm_be.Provision.Cleanup.{HasOwnId}

abbrev fresh : Fresh
fresh = record { device_id = 1; token_id = 2; token = 777 }

abbrev start : Db
start = record {
  devices = [];
  pairing_tokens = [];
  gateways =
      record { id = 40; status = GatewayStatus.active; farm_id = some 3; mqtt_token = none } ∷ [];
}

abbrev payload : ProvisionRequest
payload = record {
  serial = some 55;
  hw = some (1 ∷ 2 ∷ []);
  hw_model = none;
  fw = none;
  nonce = some 9;
  mac = none;
}

abbrev dto : PairRequest
dto = record { serial = 55; farm_id = 3; pairing_token = 777 }

abbrev answer : Provisioned
answer = record { device_id = 1; serial = some 55; pairing_token = 777; expires_at = 86401000 }

abbrev pairing : Paired
pairing = record { device_id = 1; serial = some 55; device_token = 888; status = paired }

abbrev issued : PairingToken
issued = record {
  id = 2;
  token = 777;
  serial = 55;
  expires_at = 86401000;
  used = false;
  created_at = 1000;
}

abbrev waiting : Db
waiting = record start {
  devices = record (new_device 1) { serial = some 55 } ∷ [];
  pairing_tokens = issued ∷ [];
}

answered : (handle_provision_request fresh 1000 payload start).1 ≡ some answer
unfolding handle_provision_request give_token provisioned_device generate_pairing_token
    created_device is_valid_hardware_version
answered = refl

paired_once : (pair_device 5000 888 6 dto waiting).1 ≡ done pairing
unfolding pair_device check_pair check_token
paired_once = refl

one_token-HasOwnId : HasOwnId waiting.pairing_tokens
one_token-HasOwnId t u (Memᴰ.head e) (Memᴰ.head f) same = cc
one_token-HasOwnId t u (Memᴰ.tail m) k same = elim m [ ]
one_token-HasOwnId t u (Memᴰ.head e) (Memᴰ.tail m) same = elim m [ ]

pair_device_iff_example : ((pair_device 5000 888 6 dto waiting).1 ≡ done pairing) ↔ (
    (d : Device) × (t : PairingToken) × IsPairable 5000 dto waiting d t
    × (pairing
        ≡ record { device_id = d.id; serial = d.serial; device_token = 888; status = paired }))
pair_device_iff_example = pair_device_iff 5000 888 6 dto waiting pairing

pair_device_once_example :
    let db' = (pair_device 5000 888 6 dto waiting).0 in
    pair_device 6000 889 7 dto db' ≡ (db', failed already_used, [])
pair_device_once_example =
    pair_device_once 5000 6000 888 889 6 7 dto dto waiting pairing paired_once refl

provision-pair_example :
    (pair_device 5000 888 6 dto (handle_provision_request fresh 1000 payload start).0).1
    ≡ done pairing
provision-pair_example =
    provision-pair fresh 1000 5000 payload start answer dto 888 6 answered refl refl (omega arith)

handle_provision_request_blocked_example :
    let (db', answer, messages) = handle_provision_request fresh 99000000 payload waiting in
    (answer ≡ none) × (messages ≡ []) × (db'.pairing_tokens ≡ waiting.pairing_tokens)
handle_provision_request_blocked_example =
    handle_provision_request_blocked fresh 99000000 payload waiting 55 issued refl refl
