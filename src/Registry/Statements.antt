-- ===== src/Registry/Statements.antt =====
-- What a statement that succeeds has done to the applications and the devices
-- (database-common/src/models/app.rs and device.rs).
use drogue_cloud.Base.{
  ℕ, ◌<◌, ◌+◌, ◌^◌, String, ◌≡◌, not, List, Option, none, some, ok, arith, string_eq, ◌==◌,
}
use drogue_cloud.HashMap.{get, insert, remove}
use drogue_cloud.HashMap.Retain.{retain}
use drogue_cloud.Registry.{Entity, App, DeviceKey, device_key_eq}
use drogue_cloud.Registry.Advance.{
  increment, set_revision, set_generation, advance_from, advance_revision,
}
use drogue_cloud.Registry.Tables.{
  Db, Fresh, TypedAlias, updated_entity, update_data, delete_app, create_device, update_device,
  delete_device,
}

module _ {Labels Json : Type 0} where
  pub delete_device_rows :
      (db changed : Db Labels Json) (key : DeviceKey)
      → delete_device db key ≡ ok changed
      → (changed.apps ≡ db.apps)
        × (changed.devices ≡ remove key db.devices)
        × (changed.outbox ≡ db.outbox)
  unfolding delete_device
  delete_device_rows db changed key h = ground arith

  pub update_device_rows :
      (db changed : Db Labels Json) (fresh : Fresh) (key : DeviceKey)
      (e stored : Entity Labels Json) (aliases : Option (List TypedAlias))
      → get key db.devices ≡ some stored
      → update_device db fresh key e aliases ≡ ok changed
      → (changed.apps ≡ db.apps)
        × (changed.devices ≡ insert key (updated_entity stored e fresh) db.devices)
        × (changed.outbox ≡ db.outbox)
  unfolding update_device
  update_device_rows db changed fresh key e stored none is h = ground arith
  update_device_rows db changed fresh key e stored (some aliases) is h = ground arith

  pub create_device_rows :
      (db changed : Db Labels Json) (fresh : Fresh) (now : ℕ) (key : DeviceKey)
      (e : Entity Labels Json) (aliases : List TypedAlias)
      → create_device db fresh now key e aliases ≡ ok changed
      → (changed.apps ≡ db.apps)
        × (get key db.devices ≡ none)
        × (changed.devices
            ≡ insert key
                (record e {
                  uid = fresh.default_uid;
                  resource_version = fresh.resource_version;
                  creation_timestamp = now;
                  deletion_timestamp = none;
                })
                db.devices)
        × (changed.outbox ≡ db.outbox)
  unfolding create_device
  create_device_rows db changed fresh now key e aliases h = ground arith

  pub update_data_rows :
      (db changed : Db Labels Json) (fresh : Fresh) (name : String) (e : Entity Labels Json)
      (stored : App Labels Json) (aliases : Option (List TypedAlias))
      → get name db.apps ≡ some stored
      → update_data db fresh name e aliases ≡ ok changed
      → (changed.devices ≡ db.devices)
        × (changed.apps
            ≡ insert name (record stored { entity = updated_entity stored.entity e fresh }) db.apps)
        × (changed.outbox ≡ db.outbox)
  unfolding update_data
  update_data_rows db changed fresh name e stored none is h = ground arith
  update_data_rows db changed fresh name e stored (some aliases) is h = ground arith

  pub delete_app_rows :
      (db changed : Db Labels Json) (name : String)
      → delete_app db name ≡ ok changed
      → (changed.apps ≡ remove name db.apps)
        × (changed.devices ≡ retain (λ key e. not (key.app == name)) db.devices)
        × (changed.outbox ≡ db.outbox)
  unfolding delete_app
  delete_app_rows db changed name h = ground arith

  -- A resource that advances is one revision after the current one.
  pub advance_from_lem :
      (paths : List String) (current e advanced : Entity Labels Json)
      → advance_from paths current e ≡ ok advanced
      → current.revision < 2 ^ 64
      → (advanced.revision ≡ current.revision + 1)
        × (advanced.uid ≡ e.uid)
        × (advanced.deletion_timestamp ≡ e.deletion_timestamp)
        × (advanced.finalizers ≡ e.finalizers)
  unfolding advance_from set_revision set_generation increment
  advance_from_lem paths current e advanced h small = ground arith

  pub advance_revision_lem :
      (e advanced : Entity Labels Json)
      → advance_revision e ≡ ok advanced
      → e.revision < 2 ^ 64
      → (advanced.revision ≡ e.revision + 1)
        × (advanced.uid ≡ e.uid)
        × (advanced.finalizers ≡ e.finalizers)
  unfolding advance_revision set_revision increment
  advance_revision_lem e advanced h small = ground arith
