-- ===== src/Registry/Management/Devices.antt =====
-- device-management-service/src/service/management/mod.rs: the calls for devices. Lists go through the
-- checks of `get_device`.
use drogue_cloud.Base.{
  ℕ, String, ◌&&◌, [], ◌∷◌, Option, none, some, Result, ok, err, is_some, is_empty, PartialEq,
  string_eq, ◌>>=◌, ◌>>◌, if◌then◌else◌,
}
use drogue_cloud.HashMap.{get}
use drogue_cloud.Authz.{UserInformation, UserIds, Permission, ensure_with}
use drogue_cloud.Registry.{
  Entity, App, DeviceKey, device_key_eq, ServiceError, not_found, reference_not_found, new_device,
}
use drogue_cloud.Registry.Advance.{advance_from, advance_revision}
use drogue_cloud.Registry.Diff.{diff_paths}
use drogue_cloud.Registry.Versions.{ParseUuid, check_versions}
use drogue_cloud.Registry.Tables.{
  Db, Fresh, create_device as insert_device, update_device as update_device_row,
  delete_device as delete_device_row,
}
use drogue_cloud.Registry.Entities.{Resource, Specs, device_to_entity}
use drogue_cloud.Registry.Management.{
  as_conflict, as_reference, or_error, ensure_live, uid_text, version_text, Transaction,
  resource_of, send_to_outbox, announce,
}
use drogue_cloud.Registry.Management.Applications.{check_clean_app}

module _ {Labels Json Anchors Validity : Type 0} ⦃l : PartialEq Labels⦄ ⦃j : PartialEq Json⦄
    (users : UserIds) (parse_uuid : ParseUuid) (specs : Specs Labels Json Anchors Validity)
    (instance_id : String) where
  abbrev pub live_app : Option (App Labels Json) → Result ServiceError (App Labels Json)
  live_app none = err reference_not_found
  live_app (some app) = elim app.entity.deletion_timestamp [
    | none ↦ ok app
    | some deleted ↦ err reference_not_found
  ]

  -- The event has the UUID that was drawn here.
  unfoldable pub create_device :
      Db Labels Json
      → Fresh
      → ℕ
      → UserInformation
      → String
      → Resource Labels Json
      → Transaction Labels Json
  unfolding device_to_entity insert_device send_to_outbox new_device
  create_device db fresh now identity application device = do
    let converted = device_to_entity specs device
    app ← live_app (get application db.apps)
    ensure_with users (resource_of app) identity Permission.write reference_not_found
    let entity = record converted.0 { uid = fresh.uid }
    created ← as_reference (
        insert_device db fresh now (record { app = application; device = device.name }) entity
          converted.1)
    ok (
        announce now (new_device instance_id application device.name fresh.uid entity.generation [])
          created)

  unfoldable pub get_device :
      Db Labels Json
      → UserInformation
      → DeviceKey
      → Result ServiceError (Option (Entity Labels Json))
  get_device db identity key = do
    app ← or_error (get key.app db.apps) not_found
    ensure_with users (resource_of app) identity Permission.read not_found
    ok (get key db.devices)

  unfoldable pub update_device :
      Db Labels Json
      → Fresh
      → ℕ
      → UserInformation
      → String
      → Resource Labels Json
      → Transaction Labels Json
  unfolding device_to_entity check_versions delete_device_row check_clean_app diff_paths
      advance_from update_device_row send_to_outbox new_device
  update_device db fresh now identity application device = do
    let converted = device_to_entity specs device
    let key : DeviceKey = record { app = application; device = device.name }
    app ← or_error (get application db.apps) not_found
    ensure_with users (resource_of app) identity Permission.write not_found
    current ← or_error (get key db.devices) not_found
    check_versions parse_uuid device.uid device.resource_version current
    let entity = record converted.0 { deletion_timestamp = current.deletion_timestamp }
    if is_some entity.deletion_timestamp && is_empty entity.finalizers
        then (do
          deleted ← delete_device_row db key
          cleaned ← check_clean_app users parse_uuid specs instance_id deleted fresh application
          ok (cleaned, []))
        else let paths = diff_paths current entity in
          if is_empty paths then ok (db, []) else do
            advanced ← advance_from paths current entity
            updated ← as_conflict (update_device_row db fresh key advanced (some converted.1))
            ok (
                announce now
                  (new_device instance_id application device.name current.uid advanced.revision
                    paths)
                  updated)

  unfoldable pub delete_device :
      Db Labels Json
      → Fresh
      → ℕ
      → UserInformation
      → DeviceKey
      → Option (String × String)
      → Transaction Labels Json
  unfolding check_versions advance_revision delete_device_row update_device_row send_to_outbox
      new_device
  delete_device db fresh now identity key preconditions = do
    current ← or_error (get key db.devices) not_found
    ensure_live current.deletion_timestamp (do
      app ← or_error (get key.app db.apps) not_found
      ensure_with users (resource_of app) identity Permission.write not_found
      check_versions parse_uuid (uid_text preconditions) (version_text preconditions) current
      advanced ← advance_revision current
      if is_empty advanced.finalizers
          then (do
            deleted ← delete_device_row db key
            ok (
                announce now
                  (new_device instance_id key.app key.device current.uid advanced.revision [])
                  deleted))
          else do
            marked ←
                update_device_row db fresh key (record advanced { deletion_timestamp = some now })
                  none
            ok (
                announce now
                  (new_device instance_id key.app key.device current.uid advanced.revision
                    (".metadata" ∷ []))
                  marked))
