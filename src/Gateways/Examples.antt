-- ===== src/Gateways/Examples.antt =====
-- One gateway and one device of its farm, for gateway/gateway.service.ts.
use qs_farm_be.Common.{◌≡◌, refl, true, false, none, some, [], ◌∷◌, arith, Memᴰ, ◌++◌, codes, empty}
use qs_farm_be.Domain.{Device, new_device, paired}
use qs_farm_be.Emqx.{Outside, Db, check_acl, gateway_prefix, publish}
use qs_farm_be.Emqx.Devices.{device_topic}
use qs_farm_be.Emqx.Gateways.{IsCoherent}
use qs_farm_be.Provision.{GatewayStatus}
use qs_farm_be.Gateways.{
  GatewayRow, GatewayDb, GatewayRequest, gateway_failed, gateway_done, pairing_token_used_before,
  pair_gateway, handle_gateway_request, delete_gateway,
}
use qs_farm_be.Gateways.Pairing.{pair_gateway_once, request-pair_gateway}
use qs_farm_be.Gateways.Devices.{broker_tables, pair_gateway-check_acl, delete_gateway-check_acl}

abbrev outside : Outside
outside = record {
  text_of = λ n. n ∷ [];
  is_uuid = λ t. true;
  verify = λ t. none;
  user_version = λ t. none;
}

abbrev pump : Device
pump = record (new_device 7) { status = paired; farm_id = some 3 }

-- A gateway that was disabled, with a token that expired.
abbrev old_gateway : GatewayRow
old_gateway = record {
  id = 2001;
  serial = 77;
  hardware_version = none;
  firmware_version = none;
  mqtt_token = none;
  status = GatewayStatus.disabled;
  farm_id = none;
  last_seen_at = none;
  nonce = none;
  pairing_token = some 900;
  pairing_token_expires_at = some 50;
  pairing_token_used = false;
  provisioned_at = none;
  paired_at = none;
}

abbrev site : GatewayDb
site = record { gateways = old_gateway ∷ []; devices = pump ∷ [] }

abbrev request : GatewayRequest
request = record { serial = 77; hw = none; nonce = 12 }

pairs_now :
    (pair_gateway 40 8000 900 3 site).0
    ≡ gateway_done (record { gateway_id = 2001; mqtt_token = 8000 })
unfolding pair_gateway
pairs_now = refl

deletes_now : (delete_gateway 2001 site).0 ≡ none
unfolding delete_gateway
deletes_now = refl

pair_gateway_once_example :
    pair_gateway 45 8001 900 4 (pair_gateway 40 8000 900 3 site).1
    ≡ (gateway_failed pairing_token_used_before, (pair_gateway 40 8000 900 3 site).1, [])
pair_gateway_once_example =
    pair_gateway_once 40 45 8000 8001 900 3 4 site (record { gateway_id = 2001; mqtt_token = 8000 })
      pairs_now

request-pair_gateway_example :
    let db = (handle_gateway_request 60 2002 901 request site).0 in
    (g : GatewayRow) × Memᴰ g db.gateways
    × (g.serial ≡ 77)
    × ((pair_gateway 1000 8000 901 3 db).0
        ≡ gateway_done (record { gateway_id = g.id; mqtt_token = 8000 }))
request-pair_gateway_example =
    request-pair_gateway 60 1000 2002 901 8000 3 request site (refl, tt) (omega arith)

abbrev after_pairing : Db
after_pairing = broker_tables outside [] [] (pair_gateway 40 8000 900 3 site).1

abbrev after_removal : Db
after_removal = broker_tables outside [] [] (delete_gateway 2001 site).1

empty-IsCoherent : (db : Db) → IsCoherent outside (λ t. db) 70000 empty
empty-IsCoherent db i e h = ground arith

pair_gateway-check_acl_example :
    (check_acl outside 70000
      (gateway_prefix ++ 2001 ∷ [])
      (device_topic (7 ∷ []) (codes "status"))
      publish
      after_pairing
      empty).0
    ≡ true
pair_gateway-check_acl_example =
    pair_gateway-check_acl outside [] [] 40 70000 8000 900 3 site
      (record { gateway_id = 2001; mqtt_token = 8000 }) pump (λ t. after_pairing) empty
      (codes "status") pairs_now (Memᴰ.head refl) refl (λ t from to. refl) (omega arith)
      (empty-IsCoherent after_pairing) (omega arith, tt)

delete_gateway-check_acl_example :
    (check_acl outside 70000
      (gateway_prefix ++ 2001 ∷ [])
      (device_topic (7 ∷ []) (codes "cmd"))
      publish
      after_removal
      empty).0
    ≡ false
delete_gateway-check_acl_example =
    delete_gateway-check_acl outside [] [] 40 70000 2001 site (λ t. after_removal) empty (7 ∷ [])
      (codes "cmd") publish deletes_now (λ t from to. refl) (omega arith)
      (empty-IsCoherent after_removal) (λ a b e. ground (arith, e)) (omega arith, tt)
