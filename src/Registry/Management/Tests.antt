-- ===== src/Registry/Management/Tests.antt =====
-- The management of applications and devices at concrete inputs.
use drogue_cloud.Base.{
  ℕ, String, ◌≡◌, refl, List, [], ◌∷◌, Option, none, some, Result, ok, err, arith, string_eq,
  string_beq_iff, ◌==◌, if◌then◌else◌, ◌⊎◌, ◌+◌,
}
use drogue_cloud.HashMap.{get}
use drogue_cloud.HashMap.Retain.{retain}
use drogue_cloud.Authz.{
  UserIds, UserInformation, authenticated, anonymous, is_admin, authorize, ensure_with,
}
use drogue_cloud.Registry.{
  Entity, App, DeviceKey, device_key_eq, fields, ServiceError, conflict, Event, device_event,
  new_app, new_device,
}
use drogue_cloud.Registry.Diff.{diff_paths}
use drogue_cloud.Registry.Diff.Sound.{field_of, diff_paths-field_of}
use drogue_cloud.Registry.Versions.{ParseUuid}
use drogue_cloud.Registry.Tables.{Db, Fresh}
use drogue_cloud.Registry.Outbox.Pending.{AllPending}
use drogue_cloud.Registry.Entities.{Resource, Specs, app_to_entity}
use drogue_cloud.Registry.Management.Applications.{update_app}
use drogue_cloud.Registry.Management.Devices.{update_device, create_device, delete_device}
use drogue_cloud.Registry.Management.DeviceUpdates.{sent_entity}
use drogue_cloud.Registry.Management.Announcing.{update_device-AllPending}
use drogue_cloud.Registry.Management.AppUpdates.{update_app-AllPending}
use drogue_cloud.Registry.Management.Locking.{update_device-conflict}

abbrev users : UserIds
users = record {
  user_id = λ user. elim user [ authenticated details ↦ some details.user_id | anonymous ↦ none ];
  of_authenticated = λ details. refl;
  of_anonymous = refl;
}

abbrev boss : UserInformation
boss = authenticated (record { user_id = "boss"; roles = [] })

abbrev parse_uuid : ParseUuid
parse_uuid text = if text == "seven" then some 7 else none

abbrev specs : Specs String String Unit Unit
specs = record {
  trust_anchors = λ r. none;
  process_anchors = λ anchors. ok ("", []);
  aliases = λ r. none;
  authentication = λ r. none;
}

abbrev entity : Option ℕ → List String → Entity String String
entity deleted finalizers = record {
  uid = 5;
  labels = "";
  annotations = "";
  creation_timestamp = 1;
  resource_version = 7;
  generation = 2;
  revision = 3;
  deletion_timestamp = deleted;
  finalizers = finalizers;
  sections = ("spec", fields (("on", "yes") ∷ [])) ∷ ("status", fields []) ∷ [];
}

abbrev app : Option ℕ → List String → App String String
app deleted finalizers = record {
  entity = entity deleted finalizers;
  owner = some "boss";
  transfer_owner = none;
  members = [];
}

abbrev key : DeviceKey
key = record { app = "shop"; device = "door" }

-- One application with one device
abbrev tables : App String String → Entity String String → Db String String
tables app device = record {
  apps = ("shop", app) ∷ [];
  app_aliases = ("shop", "shop") ∷ [];
  devices = (key, device) ∷ [];
  device_aliases = (key, "door") ∷ [];
  outbox = [];
}

abbrev fresh : Fresh
fresh = record { uid = 11; resource_version = 12; default_uid = 13 }

abbrev resource : String → String → List String → Resource String String
resource name version finalizers = record {
  name = name;
  uid = "";
  resource_version = version;
  labels = "red";
  annotations = "";
  finalizers = finalizers;
  spec = ("on", "no") ∷ [];
  status = [];
}

abbrev or_nothing :
    Result ServiceError (Db String String × List Event) → Db String String × List Event
or_nothing (ok r) = r
or_nothing (err e) = (tables (app none []) (entity none []), [])

abbrev updated : Db String String × List Event
updated = or_nothing (
    update_device users parse_uuid specs "i" (tables (app none []) (entity none [])) fresh 20 boss
      "shop" (resource "door" "seven" []))

update_device-AllPending_example :
    (new : Entity String String) × (get key updated.0.devices ≡ some new)
    × ((new ≡ entity none [])
        ⊎ ((new.revision ≡ 3 + 1)
            × (updated.1
                ≡ new_device "i" "shop" "door" 5 new.revision (
                    diff_paths (entity none []) (
                      sent_entity users parse_uuid specs "i"
                        (resource "door" "seven" [])
                        (entity none []))))
            × AllPending updated.1 updated.0.outbox))
unfolding update_device get retain ensure_with authorize is_admin
update_device-AllPending_example =
    update_device-AllPending users parse_uuid specs "i" (tables (app none []) (entity none []))
      updated.0 updated.1 fresh 20 boss "shop" (resource "door" "seven" []) (entity none [])
      (omega arith) refl refl refl

abbrev created : Db String String × List Event
created = or_nothing (
    create_device users parse_uuid specs "i" (tables (app none []) (entity none [])) fresh 20 boss
      "shop" (resource "gate" "" []))

abbrev converted : App String String × List (String × String)
converted = elim (app_to_entity specs (resource "shop" "" [])) [
  | ok r ↦ r
  | err e ↦ (app none [], [])
]

abbrev renewed : Db String String × List Event
renewed = or_nothing (
    update_app users parse_uuid specs "i" (tables (app none []) (entity none [])) fresh 20 boss
      (resource "shop" "" []))

update_app-AllPending_example :
    (new : App String String) × (get "shop" renewed.0.apps ≡ some new)
    × ((new ≡ app none [])
        ⊎ ((new.entity.uid ≡ 5)
            × (new.entity.revision ≡ 3 + 1)
            × (renewed.1
                ≡ new_app "i" "shop" 0 new.entity.revision (
                    diff_paths
                      (entity none [])
                      (record converted.0.entity { deletion_timestamp = none })))
            × AllPending renewed.1 renewed.0.outbox))
unfolding update_app app_to_entity get retain ensure_with authorize is_admin
update_app-AllPending_example =
    update_app-AllPending users parse_uuid specs "i" (tables (app none []) (entity none []))
      renewed.0 renewed.1 fresh 20 boss (resource "shop" "" []) converted (app none [])
      (omega arith) refl refl refl refl

-- The second update is sent by a client that has not seen the first.
update_device-conflict_example :
    update_device users parse_uuid specs "i" updated.0 fresh 21 boss "shop"
      (resource "door" "seven" ("mine" ∷ []))
    ≡ err conflict
unfolding update_device get retain ensure_with authorize is_admin
update_device-conflict_example =
    update_device-conflict users parse_uuid specs "i" (tables (app none []) (entity none []))
      updated.0 (device_event "i" "shop" "door" 5 ".metadata" 4)
      (device_event "i" "shop" "door" 5 ".spec.on" 4 ∷ []) fresh fresh 20 21 boss "shop"
      (resource "door" "seven" []) (resource "door" "seven" ("mine" ∷ [])) (entity none [])
      (omega arith) refl (λ e. ground (arith, (string_beq_iff "seven" "").1 e)) (omega arith) refl
      refl refl

-- The application is marked, and waits for its last device.
abbrev waiting : Entity String String → Db String String
waiting device = tables (app (some 9) ("has-devices" ∷ [])) device

abbrev deleted : Db String String × List Event
deleted =
    or_nothing
      (delete_device users parse_uuid specs "i" (waiting (entity none [])) fresh 20 boss key none)

abbrev cleaned : Db String String × List Event
cleaned = or_nothing (
    update_device users parse_uuid specs "i" (waiting (entity (some 9) ("mine" ∷ []))) fresh 20 boss
      "shop" (resource "door" "" []))

-- The order of the fields and of the sections does not count.
abbrev turned : Entity String String
turned = record (entity none []) {
  sections = ("status", fields []) ∷ ("spec", fields (("on", "yes") ∷ [])) ∷ [];
}

diff_paths-field_of_example :
    ((entity none []).annotations ≡ turned.annotations)
    × ((entity none []).labels ≡ turned.labels)
    × ((entity none []).finalizers ≡ turned.finalizers)
    × ((section k : String)
        → field_of section k (entity none []).sections ≡ field_of section k turned.sections)
unfolding diff_paths get
diff_paths-field_of_example = diff_paths-field_of (entity none []) turned refl
