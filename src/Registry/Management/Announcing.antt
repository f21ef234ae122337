-- ===== src/Registry/Management/Announcing.antt =====
-- device-management-service/src/service/management/mod.rs: a device that a call changes gets the next
-- revision, and the change is in the outbox when the call is committed.
use drogue_cloud.Base.{
  ℕ, ◌<◌, ◌+◌, ◌^◌, String, ◌≡◌, ◌⊎◌, refl, sym, false, ◌&&◌, List, [], ◌∷◌, map, none, some, ok,
  arith, is_some, is_empty, Result-cases, inl, inr, PartialEq, beq_refl,
}
use drogue_cloud.HashMap.{get, get-insert}
use drogue_cloud.Authz.{UserInformation, UserIds}
use drogue_cloud.Registry.{Entity, DeviceKey, device_key_eq, Event, device_event, new_device}
use drogue_cloud.Registry.Diff.{diff_paths}
use drogue_cloud.Registry.Versions.{ParseUuid}
use drogue_cloud.Registry.Outbox.{entry_from_event}
use drogue_cloud.Registry.Outbox.Pending.{AllOf, AllPending, notify-AllPending}
use drogue_cloud.Registry.Tables.{Db, Fresh, create_device as create_device_row}
use drogue_cloud.Registry.Statements.{create_device_rows}
use drogue_cloud.Registry.Entities.{Resource, Specs, device_to_entity}
use drogue_cloud.Registry.Management.Devices.{update_device, create_device}
use drogue_cloud.Registry.Management.{send_to_outbox}
use drogue_cloud.Registry.Management.DeviceUpdates.{sent_entity, update_device_effect}

device_events-AllOf :
    (instance_id app device : String) (uid revision : ℕ) (paths : List String)
    → AllOf uid (map (λ path. device_event instance_id app device uid path revision) paths)
unfolding entry_from_event
device_events-AllOf instance_id app device uid revision [] = tt
device_events-AllOf instance_id app device uid revision (path ∷ paths) =
    (refl, device_events-AllOf instance_id app device uid revision paths)

new_device-AllOf :
    (instance_id app device : String) (uid revision : ℕ) (paths : List String)
    → AllOf uid (new_device instance_id app device uid revision paths)
unfolding new_device entry_from_event
new_device-AllOf instance_id app device uid revision [] = (refl, tt)
new_device-AllOf instance_id app device uid revision (path ∷ paths) =
    device_events-AllOf instance_id app device uid revision (path ∷ paths)

module _ {Labels Json Anchors Validity : Type 0} ⦃l : PartialEq Labels⦄ ⦃j : PartialEq Json⦄
    (users : UserIds) (parse_uuid : ParseUuid) (specs : Specs Labels Json Anchors Validity)
    (instance_id : String) where
  -- An update that succeeds, and is not the clean-up of a deleted device, leaves the device as it
  -- was, or with the next revision. Then there is an event for each path that differs, with the
  -- device's UUID and that revision, and each is in the outbox.
  pub update_device-AllPending :
      (db changed : Db Labels Json) (events : List Event) (fresh : Fresh) (now : ℕ)
      (identity : UserInformation) (application : String) (device : Resource Labels Json)
      (current : Entity Labels Json)
      → current.revision < 2 ^ 64
      → get (record { app = application; device = device.name }) db.devices ≡ some current
      → (is_some current.deletion_timestamp && is_empty device.finalizers) ≡ false
      → update_device users parse_uuid specs instance_id db fresh now identity application device
        ≡ ok (changed, events)
      → (new : Entity Labels Json) × (get
            (record { app = application; device = device.name })
            changed.devices
          ≡ some new)
        × ((new ≡ current)
            ⊎ ((new.revision ≡ current.revision + 1)
                × (events
                    ≡ new_device instance_id application device.name current.uid new.revision (
                        diff_paths current
                          (sent_entity users parse_uuid specs instance_id device current)))
                × AllPending events changed.outbox))
  update_device-AllPending db changed events fresh now identity application device current small is
        stays h =
      let key : DeviceKey = record { app = application; device = device.name } in
      elim (update_device_effect users parse_uuid specs instance_id db changed events fresh now
        identity application device current small is h) [
          | inl (gone, finalizers, silent, deleted) ↦
              absurd (ground (arith, gone, finalizers, stays))
          | inr (unmarked, inl (same, silent)) ↦ (current, ground (arith, same, is), inl refl)
          | inr
                (
                  unmarked,
                  inr (row, revision, deletion, version, (uid, devices, apps, told, outbox)),
                ) ↦
              (
                row,
                ground (arith, devices, get-insert key key row db.devices, beq_refl key),
                inr (
                  revision,
                  told,
                  rw outbox (
                      notify-AllPending now current.uid events db.outbox (
                        rw told (
                          new_device-AllOf instance_id application device.name current.uid
                            row.revision
                            (diff_paths current
                              (sent_entity users parse_uuid specs instance_id device current))))),
                ),
              )
        ]

  -- A device that is created is stored with the UUID that the database draws, but the events
  -- of the creation, which all are in the outbox, have the UUID that the service drew.
  create_device-AllPending :
      (db changed : Db Labels Json) (events : List Event) (fresh : Fresh) (now : ℕ)
      (identity : UserInformation) (application : String) (device : Resource Labels Json)
      → create_device users parse_uuid specs instance_id db fresh now identity application device
        ≡ ok (changed, events)
      → (new : Entity Labels Json) × (get
            (record { app = application; device = device.name })
            changed.devices
          ≡ some new)
        × (new.uid ≡ fresh.default_uid)
        × (events ≡ new_device instance_id application device.name fresh.uid new.generation [])
        × AllPending events changed.outbox
  unfolding create_device send_to_outbox device_to_entity
  create_device-AllPending db changed events fresh now identity application device h =
      let key : DeviceKey = record { app = application; device = device.name } in
      let sent = new_device instance_id application device.name fresh.uid 0 [] in
      let e : Entity Labels Json = record (device_to_entity specs device).0 { uid = fresh.uid } in
      let aliases = (device_to_entity specs device).1 in
      elim (Result-cases (create_device_row db fresh now key e aliases)) [
        | inr (error, d) ↦ absurd (ground (arith, h, d))
        | inl (created, d) ↦
            let (apps, absent, devices, outbox) =
              create_device_rows db created fresh now key e aliases d in
            let row : Entity Labels Json = record e {
              uid = fresh.default_uid;
              resource_version = fresh.resource_version;
              creation_timestamp = now;
              deletion_timestamp = none;
            } in
            let both : (send_to_outbox now sent created ≡ changed) × (sent ≡ events) =
              ground (arith, h, d) in
            (
              row,
              ground (arith, both, devices, get-insert key key row db.devices, beq_refl key),
              refl,
              sym both.1,
              rw (← both.0, ← both.1)
                  (notify-AllPending now fresh.uid sent created.outbox
                    (new_device-AllOf instance_id application device.name fresh.uid 0 [])),
            )
      ]
