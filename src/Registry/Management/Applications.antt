-- ===== src/Registry/Management/Applications.antt =====
-- device-management-service/src/service: the calls for applications (management/mod.rs), with
-- `perform_update_app` and `check_clean_app` (mod.rs). Lists go through the check of `get_app`.
use drogue_cloud.Base.{
  ℕ, ltb, String, not, ◌&&◌, List, [], ◌∷◌, ◌++◌, Option, none, some, Result, ok, is_some, is_empty,
  PartialEq, string_eq, ◌>>=◌, ◌>>◌, if◌then◌else◌,
}
use drogue_cloud.HashMap.{get}
use drogue_cloud.Authz.{UserInformation, UserIds, Permission, ensure_with}
use drogue_cloud.Registry.{
  Entity, App, device_key_eq, ServiceError, not_authorized, not_found, new_app,
}
use drogue_cloud.Registry.Advance.{advance_from, advance_revision}
use drogue_cloud.Registry.Diff.{diff_paths}
use drogue_cloud.Registry.Versions.{ParseUuid, check_versions}
use drogue_cloud.Registry.Tables.{
  Db, Fresh, TypedAlias, create_app as insert_app, update_data, delete_app as delete_app_row,
  delete_devices, count_devices,
}
use drogue_cloud.Registry.Entities.{Resource, Specs, app_to_entity}
use drogue_cloud.Registry.Management.{
  as_conflict, or_error, without, ensure_live, uid_text, version_text, Transaction, resource_of,
  send_to_outbox, announce,
}

module _ {Labels Json Anchors Validity : Type 0} ⦃l : PartialEq Labels⦄ ⦃j : PartialEq Json⦄
    (users : UserIds) (parse_uuid : ParseUuid) (specs : Specs Labels Json Anchors Validity)
    (instance_id : String) where
  unfoldable pub create_app :
      Db Labels Json → Fresh → ℕ → UserInformation → Resource Labels Json → Transaction Labels Json
  unfolding app_to_entity insert_app send_to_outbox new_app
  create_app db fresh now identity application = do
    converted ← app_to_entity specs application
    let entity = record converted.0.entity { uid = fresh.uid }
    let app = record converted.0 { entity = entity; owner = users.user_id identity }
    created ← as_conflict (insert_app db fresh now application.name app converted.1)
    ok (announce now (new_app instance_id application.name fresh.uid entity.generation []) created)

  unfoldable pub get_app :
      Db Labels Json → UserInformation → String → Result ServiceError (Option (App Labels Json))
  get_app db identity name = elim (get name db.apps) [
    | none ↦ ok none
    | some app ↦ do
      ensure_with users (resource_of app) identity Permission.read not_authorized
      ok (some app)
  ]

  abbrev pub ensure_if :
      Option UserInformation → App Labels Json → Permission → Result ServiceError (Unit {0})
  ensure_if none app permission = ok tt
  ensure_if (some identity) app permission =
      ensure_with users (resource_of app) identity permission not_authorized

  -- `perform_update_app`; without an identity nothing is checked of the user.
  unfoldable pub perform_update_app :
      Db Labels Json
      → Fresh
      → Option UserInformation
      → String
      → Entity Labels Json
      → Option (List TypedAlias)
      → String
      → String
      → Transaction Labels Json
  unfolding check_versions delete_app_row diff_paths advance_from update_data new_app
  perform_update_app db fresh identity name sent aliases uid version = do
    current ← or_error (get name db.apps) not_found
    ensure_if identity current Permission.write
    check_versions parse_uuid uid version current.entity
    let entity = record sent { deletion_timestamp = current.entity.deletion_timestamp }
    if is_some entity.deletion_timestamp && is_empty entity.finalizers
        then (do deleted ← delete_app_row db name; ok (deleted, []))
        else let paths = diff_paths current.entity entity in
          if is_empty paths then ok (db, []) else do
            advanced ← advance_from paths current.entity entity
            updated ← as_conflict (update_data db fresh name advanced aliases)
            ok (updated, new_app instance_id name advanced.uid advanced.revision paths)

  unfoldable pub update_app :
      Db Labels Json → Fresh → ℕ → UserInformation → Resource Labels Json → Transaction Labels Json
  unfolding app_to_entity perform_update_app send_to_outbox
  update_app db fresh now identity application = do
    converted ← app_to_entity specs application
    performed ←
        perform_update_app db fresh (some identity) application.name converted.0.entity
          (some converted.1) application.uid application.resource_version
    ok (announce now performed.1 performed.0)

  -- The finalizer of an application whose devices are not all gone.
  abbrev pub with_devices : ℕ → Entity Labels Json → Entity Labels Json
  with_devices remaining e =
      if ltb 0 remaining then record e { finalizers = e.finalizers ++ "has-devices" ∷ [] } else e

  unfoldable pub delete_app :
      Db Labels Json
      → Fresh
      → ℕ
      → UserInformation
      → String
      → Option (String × String)
      → Transaction Labels Json
  unfolding check_versions delete_devices advance_revision delete_app_row update_data send_to_outbox
      new_app
  delete_app db fresh now identity name preconditions = do
    current ← or_error (get name db.apps) not_found
    ensure_live current.entity.deletion_timestamp (do
      ensure_with users (resource_of current) identity Permission.admin not_authorized
      check_versions parse_uuid (uid_text preconditions) (version_text preconditions) current.entity
      let left = delete_devices db name
      advanced ← advance_revision (with_devices left.1 current.entity)
      if is_empty advanced.finalizers
          then (do
            deleted ← delete_app_row left.0 name
            ok (
                announce now (new_app instance_id name current.entity.uid advanced.revision [])
                  deleted))
          else do
            marked ←
                update_data left.0 fresh name (record advanced { deletion_timestamp = some now })
                  none
            ok (
                announce now
                  (new_app instance_id name current.entity.uid advanced.revision (".metadata" ∷ []))
                  marked))

  -- Called when a device was deleted; the events of the update are dropped.
  unfoldable pub check_clean_app :
      Db Labels Json → Fresh → String → Result ServiceError (Db Labels Json)
  unfolding count_devices perform_update_app
  check_clean_app db fresh name = elim (get name db.apps) [
    | none ↦ ok db
    | some app ↦
        if not (is_some app.entity.deletion_timestamp)
        then ok db
        else if ltb 0 (count_devices db name)
        then ok db
        else do
          performed ←
              perform_update_app db fresh none name
                (record app.entity { finalizers = without "has-devices" app.entity.finalizers })
                none "" ""
          ok performed.0
  ]
