-- ===== src/Registry/Tables.antt =====
-- The tables of the registry, and what the SQL statements of `PostgresApplicationAccessor` and
-- `PostgresDeviceAccessor` (database-common/src/models/app.rs and device.rs) do with them. The
-- database is taken to answer; a statement that breaks a constraint is an error.
use drogue_cloud.Base.{
  ℕ, String, Bool, not, ◌&&◌, ◌||◌, List, [], ◌∷◌, Option, none, some, Result, ok, err, is_some,
  is_empty, length, string_eq, ◌==◌, ◌>>=◌, if◌then◌else◌,
}
use drogue_cloud.HashMap.{HashMap, get, insert, remove}
use drogue_cloud.HashMap.Retain.{retain}
use drogue_cloud.Registry.{
  Entity, App, DeviceKey, device_key_eq, ServiceError, not_found, unique_violation,
  foreign_key_violation,
}
use drogue_cloud.Registry.Outbox.{Outbox}

-- An alias, with its type first; lookups go by the alias alone.
abbrev pub TypedAlias : Type 0
TypedAlias = String × String

-- The aliases of a device are keyed by their application and the alias.
pub record Db (Labels Json : Type 0) : Type 0 where
  pub apps : HashMap String (App Labels Json)
  pub app_aliases : HashMap String String
  pub devices : HashMap DeviceKey (Entity Labels Json)
  pub device_aliases : HashMap DeviceKey String
  pub outbox : Outbox

-- What a statement draws: the version of the row, the UUID that the database draws by default.
pub record Fresh : Type 0 where
  pub uid : ℕ
  pub resource_version : ℕ
  pub default_uid : ℕ

-- Inserting an alias that is taken is an error.
unfoldable pub insert_app_aliases :
    String → List TypedAlias → HashMap String String → Result ServiceError (HashMap String String)
insert_app_aliases app [] table = ok table
insert_app_aliases app ((kind, alias) ∷ aliases) table =
    if is_some (get alias table)
    then err unique_violation
    else insert_app_aliases app aliases (insert alias app table)

unfoldable pub insert_device_aliases :
    String
    → String
    → List TypedAlias
    → HashMap DeviceKey String
    → Result ServiceError (HashMap DeviceKey String)
insert_device_aliases app device [] table = ok table
insert_device_aliases app device ((kind, alias) ∷ aliases) table =
    let key : DeviceKey = record { app = app; device = alias } in
    if is_some (get key table)
    then err unique_violation
    else insert_device_aliases app device aliases (insert key device table)

module _ {Labels Json : Type 0} where
  -- A join of aliases and applications
  unfoldable pub lookup_app : Db Labels Json → String → Option (App Labels Json)
  lookup_app db alias = elim (get alias db.app_aliases) [
    | none ↦ none
    | some name ↦ get name db.apps
  ]

  unfoldable pub lookup_device : Db Labels Json → String → String → Option (Entity Labels Json)
  lookup_device db app alias = elim (get (record { app = app; device = alias }) db.device_aliases) [
    | none ↦ none
    | some name ↦ get (record { app = app; device = name }) db.devices
  ]

  -- `ON DELETE CASCADE` takes the aliases and the devices of the application away.
  unfoldable pub delete_app : Db Labels Json → String → Result ServiceError (Db Labels Json)
  delete_app db name =
      if is_some (get name db.apps)
      then ok (record db {
        apps = remove name db.apps;
        app_aliases = retain (λ alias app. not (app == name)) db.app_aliases;
        devices = retain (λ key e. not (key.app == name)) db.devices;
        device_aliases = retain (λ key device. not (key.app == name)) db.device_aliases;
      })
      else err not_found

  unfoldable pub create_app :
      Db Labels Json
      → Fresh
      → ℕ
      → String
      → App Labels Json
      → List TypedAlias
      → Result ServiceError (Db Labels Json)
  unfolding insert_app_aliases
  create_app db fresh now name app aliases =
      if is_some (get name db.apps) then err unique_violation else do
        table ← insert_app_aliases name aliases db.app_aliases
        let entity = record app.entity {
          resource_version = fresh.resource_version;
          creation_timestamp = now;
          deletion_timestamp = none;
        }
        ok (record db {
          apps =
              insert name (record app { entity = entity; transfer_owner = none; members = [] })
                db.apps;
          app_aliases = table;
        })

  -- The columns that `update_data` sets.
  abbrev pub updated_entity : Entity Labels Json → Entity Labels Json → Fresh → Entity Labels Json
  updated_entity stored entity fresh = record entity {
    uid = stored.uid;
    creation_timestamp = stored.creation_timestamp;
    resource_version = fresh.resource_version;
  }

  unfoldable pub update_data :
      Db Labels Json
      → Fresh
      → String
      → Entity Labels Json
      → Option (List TypedAlias)
      → Result ServiceError (Db Labels Json)
  unfolding insert_app_aliases
  update_data db fresh name entity aliases = elim (get name db.apps) [
    | none ↦ err not_found
    | some stored ↦
        let app = record stored { entity = updated_entity stored.entity entity fresh } in
        let changed = record db { apps = insert name app db.apps } in
        elim aliases [
          | none ↦ ok changed
          | some new_aliases ↦ do
            table ←
                insert_app_aliases name new_aliases
                  (retain (λ alias owner. not (owner == name)) db.app_aliases)
            ok (record changed { app_aliases = table })
        ]
  ]

  unfoldable pub delete_device : Db Labels Json → DeviceKey → Result ServiceError (Db Labels Json)
  delete_device db key =
      if is_some (get key db.devices)
      then ok (record db {
        devices = remove key db.devices;
        device_aliases =
            retain (λ alias device. not (alias.app == key.app && device == key.device))
              db.device_aliases;
      })
      else err not_found

  -- The statement names no UUID, so that the database draws one.
  unfoldable pub create_device :
      Db Labels Json
      → Fresh
      → ℕ
      → DeviceKey
      → Entity Labels Json
      → List TypedAlias
      → Result ServiceError (Db Labels Json)
  unfolding insert_device_aliases
  create_device db fresh now key entity aliases =
      if is_some (get key db.devices)
      then err unique_violation
      else if not (is_some (get key.app db.apps))
      then err foreign_key_violation
      else do
        table ← insert_device_aliases key.app key.device aliases db.device_aliases
        let row = record entity {
          uid = fresh.default_uid;
          resource_version = fresh.resource_version;
          creation_timestamp = now;
          deletion_timestamp = none;
        }
        ok (record db { devices = insert key row db.devices; device_aliases = table })

  unfoldable pub update_device :
      Db Labels Json
      → Fresh
      → DeviceKey
      → Entity Labels Json
      → Option (List TypedAlias)
      → Result ServiceError (Db Labels Json)
  unfolding insert_device_aliases
  update_device db fresh key entity aliases = elim (get key db.devices) [
    | none ↦ err not_found
    | some stored ↦
        let row = updated_entity stored entity fresh in
        let changed = record db { devices = insert key row db.devices } in
        elim aliases [
          | none ↦ ok changed
          | some new_aliases ↦ do
            table ← insert_device_aliases key.app key.device new_aliases (
                retain (λ alias device. not (alias.app == key.app && device == key.device))
                  db.device_aliases)
            ok (record changed { device_aliases = table })
        ]
  ]

  unfoldable pub count_devices : Db Labels Json → String → ℕ
  count_devices db app = length (retain (λ key e. key.app == app) db.devices)

  -- Whether a device stays when its application is deleted.
  abbrev pub stays : String → DeviceKey → Entity Labels Json → Bool
  stays app key e = not (key.app == app && is_empty e.finalizers)

  -- The devices without finalizers are deleted, and the aliases with them; the others are counted.
  unfoldable pub delete_devices : Db Labels Json → String → Db Labels Json × ℕ
  unfolding count_devices
  delete_devices db app =
      let devices = retain (stays app) db.devices in
      let left = record db {
        devices = devices;
        device_aliases =
            retain
              (λ alias device.
                not (alias.app == app)
                || is_some (get (record { app = app; device = device }) devices))
              db.device_aliases;
      } in
      (left, count_devices left app)
