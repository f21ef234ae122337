-- ===== src/Registry/Management/Effects.antt =====
-- device-management-service/src/service/management/mod.rs: the outcomes that a successful call can
-- have, as relations between the tables before and after.
use drogue_cloud.Base.{
  ℕ, ◌<◌, ◌+◌, ◌^◌, String, ◌≡◌, ◌⊎◌, false, List, [], ◌∷◌, Option, none, some, ok, arith, is_empty,
  Result-cases, Bool-cases, inl, inr, PartialEq, string_eq,
}
use drogue_cloud.HashMap.{get, insert, remove}
use drogue_cloud.Authz.{UserInformation, UserIds}
use drogue_cloud.Registry.{Entity, DeviceKey, device_key_eq, Event, new_device}
use drogue_cloud.Registry.Advance.{advance_revision}
use drogue_cloud.Registry.Versions.{ParseUuid}
use drogue_cloud.Registry.Outbox.{notify}
use drogue_cloud.Registry.Tables.{
  Db, Fresh, updated_entity, delete_device as delete_device_row, update_device as update_device_row,
}
use drogue_cloud.Registry.Statements.{delete_device_rows, update_device_rows, advance_revision_lem}
use drogue_cloud.Registry.Entities.{Specs}
use drogue_cloud.Registry.Management.Devices.{delete_device}
use drogue_cloud.Registry.Management.{send_to_outbox}

module _ {Labels Json Anchors Validity : Type 0} ⦃l : PartialEq Labels⦄ ⦃j : PartialEq Json⦄
    (users : UserIds) (parse_uuid : ParseUuid) (specs : Specs Labels Json Anchors Validity)
    (instance_id : String) where
  -- The rows that a deleted device leaves.
  abbrev pub DeviceDeleted :
      Db Labels Json → Db Labels Json → List Event → ℕ → DeviceKey → Entity Labels Json → ℕ → Type 0
  DeviceDeleted db changed events now key current revision =
      (current.finalizers ≡ [])
      × (changed.devices ≡ remove key db.devices)
      × (changed.apps ≡ db.apps)
      × (events ≡ new_device instance_id key.app key.device current.uid revision [])
      × (changed.outbox ≡ notify now events db.outbox)

  -- A device that is marked, and the path of the event.
  abbrev pub DeviceUpdated :
      Db Labels Json
      → Db Labels Json
      → List Event
      → ℕ
      → DeviceKey
      → Entity Labels Json
      → Entity Labels Json
      → List String
      → Type 0
  DeviceUpdated db changed events now key current row paths =
      (row.uid ≡ current.uid)
      × (changed.devices ≡ insert key row db.devices)
      × (changed.apps ≡ db.apps)
      × (events ≡ new_device instance_id key.app key.device current.uid row.revision paths)
      × (changed.outbox ≡ notify now events db.outbox)

  pub delete_device_effect :
      (db changed : Db Labels Json) (events : List Event) (fresh : Fresh) (now : ℕ)
      (identity : UserInformation) (key : DeviceKey) (preconditions : Option (String × String))
      (current : Entity Labels Json)
      → current.revision < 2 ^ 64
      → get key db.devices ≡ some current
      → delete_device users parse_uuid specs instance_id db fresh now identity key preconditions
        ≡ ok (changed, events)
      → DeviceDeleted db changed events now key current (current.revision + 1)
        ⊎ ((row : Entity Labels Json) × (is_empty current.finalizers ≡ false)
            × (row.revision ≡ current.revision + 1)
            × DeviceUpdated db changed events now key current row (".metadata" ∷ []))
  unfolding delete_device send_to_outbox
  delete_device_effect db changed events fresh now identity key preconditions current small is h =
      elim (Result-cases (advance_revision current)) [
        | inr (e, a) ↦ absurd (ground (arith, h, is, a))
        | inl (advanced, a) ↦
            let (revision, uid, finalizers) = advance_revision_lem current advanced a small in
            elim (Bool-cases (is_empty advanced.finalizers)) [
              | inl none_left ↦ elim (Result-cases (delete_device_row db key)) [
                | inr (e, d) ↦ absurd (ground (arith, h, is, a, none_left, d))
                | inl (deleted, d) ↦
                    let rows = delete_device_rows db deleted key d in
                    inl (ground (arith, h, is, a, none_left, d, rows, revision, uid, finalizers))
              ]
              | inr some_left ↦
                  let row : Entity Labels Json = record advanced {
                    deletion_timestamp = some now;
                  } in
                  elim (Result-cases (update_device_row db fresh key row none)) [
                    | inr (e, d) ↦ absurd (ground (arith, h, is, a, some_left, d))
                    | inl (marked, d) ↦
                        let rows = update_device_rows db marked fresh key row current none is d in
                        inr (
                          updated_entity current row fresh,
                          ground (arith, some_left, finalizers),
                          revision,
                          ground (arith, h, is, a, some_left, d, rows, revision, uid, finalizers),
                        )
                  ]
            ]
      ]
