-- ===== src/Registry/Management/DeviceUpdates.antt =====
-- device-management-service/src/service/management/mod.rs: the outcomes of `update_device`.
use drogue_cloud.Base.{
  ℕ, ◌<◌, ◌+◌, ◌^◌, String, ◌≡◌, ◌⊎◌, refl, ◌∙◌, ap, true, false, ◌&&◌, List, [], some, ok, arith,
  is_some, is_empty, Result-cases, Bool-cases, inl, inr, PartialEq,
}
use drogue_cloud.HashMap.{get}
use drogue_cloud.Authz.{UserInformation, UserIds}
use drogue_cloud.Registry.{Entity, DeviceKey, device_key_eq, Event}
use drogue_cloud.Registry.Advance.{advance_from}
use drogue_cloud.Registry.Diff.{diff_paths}
use drogue_cloud.Registry.Versions.{ParseUuid}
use drogue_cloud.Registry.Tables.{
  Db, Fresh, updated_entity, delete_device as delete_device_row, update_device as update_device_row,
}
use drogue_cloud.Registry.Statements.{update_device_rows, advance_from_lem}
use drogue_cloud.Registry.Entities.{Resource, Specs, device_to_entity}
use drogue_cloud.Registry.Management.Applications.{check_clean_app}
use drogue_cloud.Registry.Management.Devices.{update_device}
use drogue_cloud.Registry.Management.{send_to_outbox}
use drogue_cloud.Registry.Management.Effects.{DeviceUpdated}

module _ {Labels Json Anchors Validity : Type 0} ⦃l : PartialEq Labels⦄ ⦃j : PartialEq Json⦄
    (users : UserIds) (parse_uuid : ParseUuid) (specs : Specs Labels Json Anchors Validity)
    (instance_id : String) where
  -- The row that an update asks for.
  abbrev pub sent_entity : Resource Labels Json → Entity Labels Json → Entity Labels Json
  sent_entity device current = record (device_to_entity specs device).0 {
    deletion_timestamp = current.deletion_timestamp;
  }

  -- The device was marked before, and its last finalizer is gone.
  abbrev pub DeviceCleaned :
      Db Labels Json
      → Db Labels Json
      → List Event
      → Fresh
      → DeviceKey
      → Entity Labels Json
      → Resource Labels Json
      → Type 0
  DeviceCleaned db changed events fresh key current device =
      (is_some current.deletion_timestamp ≡ true)
      × (device.finalizers ≡ [])
      × (events ≡ [])
      × ((deleted : Db Labels Json) × (delete_device_row db key ≡ ok deleted)
          × (check_clean_app users parse_uuid specs instance_id deleted fresh key.app ≡ ok changed))

  abbrev pub DeviceChanged :
      Db Labels Json
      → Db Labels Json
      → List Event
      → Fresh
      → ℕ
      → DeviceKey
      → Entity Labels Json
      → Resource Labels Json
      → Type 0
  DeviceChanged db changed events fresh now key current device =
      (row : Entity Labels Json) × (row.revision ≡ current.revision + 1)
      × (row.deletion_timestamp ≡ current.deletion_timestamp)
      × (row.resource_version ≡ fresh.resource_version)
      × DeviceUpdated users parse_uuid specs instance_id db changed events now key current row
          (diff_paths current (sent_entity device current))

  pub update_device_effect :
      (db changed : Db Labels Json) (events : List Event) (fresh : Fresh) (now : ℕ)
      (identity : UserInformation) (application : String) (device : Resource Labels Json)
      (current : Entity Labels Json)
      → current.revision < 2 ^ 64
      → get (record { app = application; device = device.name }) db.devices ≡ some current
      → update_device users parse_uuid specs instance_id db fresh now identity application device
        ≡ ok (changed, events)
      → let key : DeviceKey = record { app = application; device = device.name } in
        DeviceCleaned db changed events fresh key current device
        ⊎ (((is_some current.deletion_timestamp && is_empty device.finalizers) ≡ false)
            × (((changed ≡ db) × (events ≡ []))
                ⊎ DeviceChanged db changed events fresh now key current device))
  unfolding update_device send_to_outbox device_to_entity
  update_device_effect db changed events fresh now identity application device current small is h =
      let key : DeviceKey = record { app = application; device = device.name } in
      let entity = sent_entity device current in
      elim (Bool-cases (is_some current.deletion_timestamp && is_empty device.finalizers)) [
        | inl gone ↦ elim (Result-cases (delete_device_row db key)) [
          | inr (e, d) ↦ absurd (ground (arith, h, is, gone, d))
          | inl (deleted, d) ↦
              elim (Result-cases
                (check_clean_app users parse_uuid specs instance_id deleted fresh application)) [
                  | inr (e, c) ↦ absurd (ground (arith, h, is, gone, d, c))
                  | inl (cleaned, c) ↦
                      let same : cleaned ≡ changed = ground (arith, h, is, gone, d, c) in
                      inl (
                        ground (arith, gone),
                        ground (arith, gone),
                        ground (arith, h, is, gone, d, c),
                        (deleted, d, c ∙ ap ok same),
                      )
                ]
        ]
        | inr stays ↦ elim (Bool-cases (is_empty (diff_paths current entity))) [
          | inl same ↦ inr (stays, inl (ground (arith, h, is, stays, same)))
          | inr differs ↦
              elim (Result-cases (advance_from (diff_paths current entity) current entity)) [
                | inr (e, a) ↦ absurd (ground (arith, h, is, stays, differs, a))
                | inl (advanced, a) ↦
                    let (revision, uid, deletion, finalizers) =
                      advance_from_lem (diff_paths current entity) current entity advanced a
                        small in
                    let aliases = some (device_to_entity specs device).1 in
                    elim (Result-cases (update_device_row db fresh key advanced aliases)) [
                      | inr (e, d) ↦ absurd (ground (arith, h, is, stays, differs, a, d))
                      | inl (updated, d) ↦
                          let rows =
                            update_device_rows db updated fresh key advanced current aliases is d in
                          inr (
                            stays,
                            inr (
                              updated_entity current advanced fresh,
                              revision,
                              deletion,
                              refl,
                              ground (arith, h, is, stays, differs, a, d, rows, revision),
                            ),
                          )
                    ]
              ]
        ]
      ]
