-- ===== src/Registry/Management/Leftovers.antt =====
-- device-management-service/src/service/management/mod.rs: what is left of an application that was
-- deleted, by the way in which its last device goes away.
use drogue_cloud.Base.{
  ℕ, ◌<◌, ◌^◌, String, ◌≡◌, refl, sym, ap, ◌∙◌, true, is_some, List, [], ◌∷◌, Option, none, some,
  ok, arith, Result-cases, inl, inr, PartialEq, string_eq, ◌==◌, beq_refl,
}
use drogue_cloud.HashMap.{get, remove}
use drogue_cloud.HashMap.Retain.{retain, retain-remove}
use drogue_cloud.Authz.{UserInformation, UserIds}
use drogue_cloud.Registry.{Entity, App, DeviceKey, device_key_eq, Event}
use drogue_cloud.Registry.Versions.{ParseUuid}
use drogue_cloud.Registry.Tables.{Db, Fresh, count_devices, delete_app as delete_app_row}
use drogue_cloud.Registry.Statements.{delete_device_rows, delete_app_rows}
use drogue_cloud.Registry.Entities.{Resource, Specs}
use drogue_cloud.Registry.Management.Applications.{perform_update_app, check_clean_app}
use drogue_cloud.Registry.Management.Devices.{delete_device, update_device}
use drogue_cloud.Registry.Management.{without}
use drogue_cloud.Registry.Management.Effects.{delete_device_effect}
use drogue_cloud.Registry.Management.DeviceUpdates.{update_device_effect}

-- Once the only device of an application is removed, it has none.
count_devices-remove :
    {Labels Json : Type 0}
    → (before after : Db Labels Json) (key : DeviceKey) (current : Entity Labels Json)
    → retain (λ k e. k.app == key.app) before.devices ≡ (key, current) ∷ []
    → after.devices ≡ remove key before.devices
    → count_devices after key.app ≡ 0
unfolding count_devices remove
count_devices-remove before after key current only removed =
    rw (removed, retain-remove (λ k e. k.app == key.app) key before.devices, only, beq_refl key)
      refl

module _ {Labels Json Anchors Validity : Type 0} ⦃l : PartialEq Labels⦄ ⦃j : PartialEq Json⦄
    (users : UserIds) (parse_uuid : ParseUuid) (specs : Specs Labels Json Anchors Validity)
    (instance_id : String) where
  -- When the last device of an application has no finalizers and is deleted, the
  -- application's row stays as it was, also if it was marked as deleted, though no device is left.
  delete_device-count_devices :
      (db changed : Db Labels Json) (events : List Event) (fresh : Fresh) (now : ℕ)
      (identity : UserInformation) (key : DeviceKey) (preconditions : Option (String × String))
      (current : Entity Labels Json)
      → current.revision < 2 ^ 64
      → get key db.devices ≡ some current
      → current.finalizers ≡ []
      → retain (λ k e. k.app == key.app) db.devices ≡ (key, current) ∷ []
      → delete_device users parse_uuid specs instance_id db fresh now identity key preconditions
        ≡ ok (changed, events)
      → (count_devices changed key.app ≡ 0) × (changed.apps ≡ db.apps)
  delete_device-count_devices db changed events fresh now identity key preconditions current small
        is bare only h =
      elim (delete_device_effect users parse_uuid specs instance_id db changed events fresh now
        identity key preconditions current small is h) [
          | inl (finalizers, devices, apps, told, outbox) ↦
              (count_devices-remove db changed key current only devices, apps)
          | inr (row, some_left, revision, rest) ↦ absurd (ground (arith, some_left, bare))
        ]

  check_clean_app-perform :
      (db changed : Db Labels Json) (fresh : Fresh) (name : String) (app : App Labels Json)
      → get name db.apps ≡ some app
      → is_some app.entity.deletion_timestamp ≡ true
      → count_devices db name ≡ 0
      → check_clean_app users parse_uuid specs instance_id db fresh name ≡ ok changed
      → (events : List Event) × (perform_update_app users parse_uuid specs instance_id db fresh none
            name
            (record app.entity { finalizers = without "has-devices" app.entity.finalizers })
            none
            ""
            ""
          ≡ ok (changed, events))
  unfolding check_clean_app
  check_clean_app-perform db changed fresh name app is marked left h =
      elim (Result-cases (
        perform_update_app users parse_uuid specs instance_id db fresh none name
          (record app.entity { finalizers = without "has-devices" app.entity.finalizers }) none ""
          "")) [
            | inl (r, e) ↦ (r.1, ground (arith, is, marked, left, h, e))
            | inr (error, e) ↦ absurd (ground (arith, is, marked, left, h, e))
          ]

  perform_update_app-gone :
      (db changed : Db Labels Json) (events : List Event) (fresh : Fresh) (name : String)
      (sent : Entity Labels Json) (app : App Labels Json)
      → get name db.apps ≡ some app
      → is_some app.entity.deletion_timestamp ≡ true
      → sent.finalizers ≡ []
      → perform_update_app users parse_uuid specs instance_id db fresh none name sent none "" ""
        ≡ ok (changed, events)
      → changed.apps ≡ remove name db.apps
  unfolding perform_update_app
  perform_update_app-gone db changed events fresh name sent app is marked bare h =
      elim (Result-cases (delete_app_row db name)) [
        | inr (e, d) ↦ absurd (ground (arith, h, is, marked, bare, d))
        | inl (deleted, d) ↦
            let same : deleted ≡ changed = ground (arith, h, is, marked, bare, d) in
            ap (λ db. db.apps) (sym same) ∙ (delete_app_rows db deleted name d).0
      ]

  -- When a device of a deleted application is marked as deleted, is the last one of the
  -- application, and is updated without finalizers, then the application's row is removed, if
  -- it has no finalizer but the one for devices.
  update_device-remove :
      (db changed : Db Labels Json) (events : List Event) (fresh : Fresh) (now : ℕ)
      (identity : UserInformation) (application : String) (device : Resource Labels Json)
      (current : Entity Labels Json) (app : App Labels Json)
      → current.revision < 2 ^ 64
      → get (record { app = application; device = device.name }) db.devices ≡ some current
      → is_some current.deletion_timestamp ≡ true
      → device.finalizers ≡ []
      → retain (λ k e. k.app == application) db.devices
        ≡ (record { app = application; device = device.name }, current) ∷ []
      → get application db.apps ≡ some app
      → is_some app.entity.deletion_timestamp ≡ true
      → without "has-devices" app.entity.finalizers ≡ []
      → update_device users parse_uuid specs instance_id db fresh now identity application device
        ≡ ok (changed, events)
      → changed.apps ≡ remove application db.apps
  update_device-remove db changed events fresh now identity application device current app small is
        marked bare only there app_marked app_bare h =
      elim (update_device_effect users parse_uuid specs instance_id db changed events fresh now
        identity application device current small is h) [
          | inl (gone, finalizers, silent, (deleted, d, cleaned)) ↦
              let key : DeviceKey = record { app = application; device = device.name } in
              let (apps, devices, outbox) = delete_device_rows db deleted key d in
              let stays : get application deleted.apps ≡ some app = rw apps there in
              let (dropped, performed) =
                check_clean_app-perform deleted changed fresh application app stays app_marked
                  (count_devices-remove db deleted key current only devices) cleaned in
              perform_update_app-gone deleted changed dropped fresh application
                (record app.entity { finalizers = without "has-devices" app.entity.finalizers }) app
                stays app_marked app_bare performed
              ∙ ap (remove application) apps
          | inr (unmarked, inl (same, silent)) ↦ absurd (ground (arith, unmarked, marked, bare))
          | inr (unmarked, inr rest) ↦ absurd (ground (arith, unmarked, marked, bare))
        ]
