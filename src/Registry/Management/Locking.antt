-- ===== src/Registry/Management/Locking.antt =====
-- device-management-service/src/service/management/mod.rs: the version that a client expects keeps it
-- from overwriting a change that it has not seen.
use drogue_cloud.Base.{
  ℕ, ◌<◌, ◌^◌, String, ◌≡◌, ◌≢◌, List, ◌∷◌, none, some, ok, err, arith, Option-cases, Result-cases,
  inl, inr, PartialEq, nat_eq, string_eq, beq_refl, string_beq_iff, nat_beq_iff,
}
use drogue_cloud.HashMap.{get, get-insert}
use drogue_cloud.Authz.{UserInformation, UserIds, Permission, ensure_with}
use drogue_cloud.Registry.{Entity, App, DeviceKey, device_key_eq, conflict, not_found, Event}
use drogue_cloud.Registry.Versions.{ParseUuid, is_ok_and_equal, check_versions}
use drogue_cloud.Registry.Tables.{Db, Fresh}
use drogue_cloud.Registry.Entities.{Resource, Specs}
use drogue_cloud.Registry.Management.Devices.{update_device}
use drogue_cloud.Registry.Management.{resource_of}
use drogue_cloud.Registry.Management.DeviceUpdates.{update_device_effect}

-- The version that was expected was the one of the row.
is_ok_and_equal-eq :
    (parse_uuid : ParseUuid) (expected : String) (actual : ℕ)
    → expected ≢ ""
    → (uuid : ℕ) → is_ok_and_equal parse_uuid expected actual ≡ some uuid
    → parse_uuid expected ≡ some actual
unfolding is_ok_and_equal
is_ok_and_equal-eq parse_uuid expected actual named uuid h =
    elim (Option-cases (parse_uuid expected)) [
      | inl e ↦ absurd (ground (arith, h, e, named, string_beq_iff expected ""))
      | inr (v, e) ↦ ground (arith, h, e, named, string_beq_iff expected "", nat_beq_iff v actual)
    ]

is_ok_and_equal-other :
    (parse_uuid : ParseUuid) (expected : String) (old new : ℕ)
    → expected ≢ ""
    → new ≢ old
    → parse_uuid expected ≡ some old
    → is_ok_and_equal parse_uuid expected new ≡ none
unfolding is_ok_and_equal
is_ok_and_equal-other parse_uuid expected old new named differ h =
    ground (arith, h, named, differ, string_beq_iff expected "", nat_beq_iff old new)

module _ {Labels Json Anchors Validity : Type 0} ⦃l : PartialEq Labels⦄ ⦃j : PartialEq Json⦄
    (users : UserIds) (parse_uuid : ParseUuid) (specs : Specs Labels Json Anchors Validity)
    (instance_id : String) where
  update_device-version :
      (db : Db Labels Json) (r : Db Labels Json × List Event) (fresh : Fresh) (now : ℕ)
      (identity : UserInformation) (application : String) (device : Resource Labels Json)
      (current : Entity Labels Json)
      → get (record { app = application; device = device.name }) db.devices ≡ some current
      → update_device users parse_uuid specs instance_id db fresh now identity application device
        ≡ ok r
      → (uuid : ℕ) × (is_ok_and_equal parse_uuid device.resource_version current.resource_version
          ≡ some uuid)
  unfolding update_device check_versions
  update_device-version db r fresh now identity application device current is h =
      elim (Option-cases
        (is_ok_and_equal parse_uuid device.resource_version current.resource_version)) [
          | inr (uuid, e) ↦ (uuid, e)
          | inl e ↦ absurd (ground (arith, h, is, e))
        ]

  -- An update that succeeds has the user's permission.
  update_device-allowed :
      (db : Db Labels Json) (r : Db Labels Json × List Event) (fresh : Fresh) (now : ℕ)
      (identity : UserInformation) (application : String) (device : Resource Labels Json)
      → update_device users parse_uuid specs instance_id db fresh now identity application device
        ≡ ok r
      → (app : App Labels Json) × (get application db.apps ≡ some app)
        × (ensure_with users (resource_of app) identity Permission.write not_found ≡ ok tt)
  unfolding update_device
  update_device-allowed db r fresh now identity application device h =
      elim (Option-cases (get application db.apps)) [
        | inl e ↦ absurd (ground (arith, h, e))
        | inr (app, e) ↦
            elim (Result-cases
              (ensure_with users (resource_of app) identity Permission.write not_found)) [
                | inl (checked, a) ↦ (app, e, a)
                | inr (error, a) ↦ absurd (ground (arith, h, e, a))
              ]
      ]

  update_device-refused :
      (db : Db Labels Json) (fresh : Fresh) (now : ℕ) (identity : UserInformation)
      (application : String) (device : Resource Labels Json) (app : App Labels Json)
      (row : Entity Labels Json)
      → get application db.apps ≡ some app
      → ensure_with users (resource_of app) identity Permission.write not_found ≡ ok tt
      → get (record { app = application; device = device.name }) db.devices ≡ some row
      → is_ok_and_equal parse_uuid device.resource_version row.resource_version ≡ none
      → update_device users parse_uuid specs instance_id db fresh now identity application device
        ≡ err conflict
  unfolding update_device check_versions
  update_device-refused db fresh now identity application device app row is allowed there other =
      elim (Option-cases (is_ok_and_equal parse_uuid device.uid row.uid)) [
        | inl e ↦ ground (arith, is, allowed, there, other, e)
        | inr (uuid, e) ↦ ground (arith, is, allowed, there, other, e)
      ]

  -- When an update with an expected version succeeds and announces an event, and the database draws
  -- a version other than the one that was there, then a second update of the device by the same
  -- user with the same expected version is a conflict.
  pub update_device-conflict :
      (db changed : Db Labels Json) (event : Event) (events : List Event) (fresh later : Fresh)
      (now then_now : ℕ) (identity : UserInformation) (application : String)
      (device other : Resource Labels Json) (current : Entity Labels Json)
      → current.revision < 2 ^ 64
      → get (record { app = application; device = device.name }) db.devices ≡ some current
      → device.resource_version ≢ ""
      → fresh.resource_version ≢ current.resource_version
      → update_device users parse_uuid specs instance_id db fresh now identity application device
        ≡ ok (changed, event ∷ events)
      → other.name ≡ device.name
      → other.resource_version ≡ device.resource_version
      → update_device users parse_uuid specs instance_id changed later then_now identity application
          other
        ≡ err conflict
  update_device-conflict db changed event events fresh later now then_now identity application
        device other current small is named moved h same_name same_version =
      let key : DeviceKey = record { app = application; device = device.name } in
      elim (update_device_effect users parse_uuid specs instance_id db changed (event ∷ events)
        fresh now identity application device current small is h) [
          | inl (gone, finalizers, silent, deleted) ↦ absurd (ground (arith, silent))
          | inr (unmarked, inl (same, silent)) ↦ absurd (ground (arith, silent))
          | inr
                (
                  unmarked,
                  inr (row, revision, deletion, version, (uid, devices, apps, told, outbox)),
                ) ↦
              let (app, there, allowed) =
                update_device-allowed db (changed, event ∷ events) fresh now identity application
                  device h in
              let (uuid, expected) =
                update_device-version db (changed, event ∷ events) fresh now identity application
                  device current is h in
              let parsed =
                is_ok_and_equal-eq parse_uuid device.resource_version current.resource_version named
                  uuid expected in
              let refused =
                is_ok_and_equal-other parse_uuid device.resource_version current.resource_version
                  row.resource_version named (rw version moved) parsed in
              let stored : get key changed.devices ≡ some row =
                ground (arith, devices, get-insert key key row db.devices, beq_refl key) in
              update_device-refused changed later then_now identity application other app row
                (rw apps there) allowed (rw same_name stored) (rw same_version refused)
        ]
