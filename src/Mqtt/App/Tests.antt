-- ===== src/Mqtt/App/Tests.antt =====
-- The connection of one client. The world of the services is the number of states.
use drogue_cloud.Base.{ℕ, ◌+◌, String, ◌≡◌, ◌↔◌, refl, true, false, [], none, some, ok, err}
use drogue_cloud.Mqtt.Dialect.{drogue_v1}
use drogue_cloud.Mqtt.Errors.{authentication_failed}
use drogue_cloud.Mqtt.Authenticator.{auth_pass}
use drogue_cloud.Mqtt.App.{
  Packet, v3, Services, Created, psk_found, state_created, connect, dialect_of, make_lwt,
}
use drogue_cloud.Mqtt.App.Connecting.{connect_psk}

abbrev friendly : Services ℕ String String (Unit {0})
friendly = record {
  from_utf8 = λ bytes. some "secret";
  parse_identity = λ text. some ("app", "door");
  request_psk = λ app device w. (ok (psk_found app device), w);
  authenticator = record {
    percent_decode = λ text. text;
    ids_from_cert = λ certs. ok ("app", "door");
    request_authenticate = λ app device credential w. (ok (auth_pass app device), w);
  };
  device_dialect = λ device. none;
  application_dialect = λ app. none;
  default_dialect = drogue_v1;
  create_state = λ app device lwt w. (state_created, w + 1);
}

abbrev with_password : Packet (Unit {0})
with_password = record {
  clean = true;
  username = some "gate@shop";
  password = some [];
  client_id = "gate";
  last_will = none;
  certs = none;
  psk_identity = none;
}

abbrev with_key : Packet (Unit {0})
with_key = record with_password { username = none; password = none; psk_identity = some [] }

abbrev with_both : Packet (Unit {0})
with_both = record with_password { psk_identity = some [] }

abbrev door : Created String String
door = record { application = "app"; device = "door"; dialect = drogue_v1 }

connect_psk_example : (connect friendly false v3 with_key 0 ≡ (ok door, 1)) ↔ (
    (with_key.clean ≡ true)
    × (with_key.username ≡ none)
    × (with_key.password ≡ none)
    × (with_key.certs ≡ none)
    × (door.application ≡ "app")
    × (door.device ≡ "door")
    × (dialect_of friendly "app" "door" ≡ ok door.dialect)
    × (friendly.create_state "app" "door" (make_lwt v3 with_key) 0 ≡ (state_created, 1)))
connect_psk_example =
    connect_psk friendly v3 with_key 0 0 1 [] "secret" ("app", "door") "app" "door" door refl refl
      refl refl

key_connects : connect friendly false v3 with_key 0 ≡ (ok door, 1)
unfolding connect
key_connects = refl

password_connects :
    (connect friendly false v3 with_password 0).0
    ≡ ok (record { application = "shop"; device = "gate"; dialect = drogue_v1 })
unfolding connect
password_connects = refl

both_refused : connect friendly false v3 with_both 0 ≡ (err authentication_failed, 0)
unfolding connect
both_refused = refl
