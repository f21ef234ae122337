-- ===== src/Registry/Management/AppUpdates.antt =====
-- device-management-service: the outcomes of `perform_update_app` (service/mod.rs), and what
-- `update_app` (service/management/mod.rs) announces of them.
use drogue_cloud.Base.{
  ℕ, ◌<◌, ◌+◌, ◌^◌, String, ◌≡◌, ◌⊎◌, refl, sym, beq_refl, ◌∙◌, ap, true, false, ◌&&◌, List, [],
  ◌∷◌, map, Option, some, ok, err, arith, is_some, is_empty, Option-cases, Result-cases, Bool-cases,
  inl, inr, PartialEq, string_eq,
}
use drogue_cloud.HashMap.{get, insert, get-insert}
use drogue_cloud.Authz.{UserInformation, UserIds}
use drogue_cloud.Registry.{Entity, App, Event, app_event, new_app}
use drogue_cloud.Registry.Advance.{advance_from}
use drogue_cloud.Registry.Diff.{diff_paths}
use drogue_cloud.Registry.Versions.{ParseUuid}
use drogue_cloud.Registry.Outbox.{entry_from_event}
use drogue_cloud.Registry.Outbox.Pending.{AllOf, AllPending, notify-AllPending}
use drogue_cloud.Registry.Tables.{
  Db, Fresh, TypedAlias, updated_entity, delete_app as delete_app_row, update_data,
}
use drogue_cloud.Registry.Statements.{update_data_rows, advance_from_lem}
use drogue_cloud.Registry.Entities.{Resource, Specs, app_to_entity}
use drogue_cloud.Registry.Management.Applications.{perform_update_app, update_app}
use drogue_cloud.Registry.Management.{send_to_outbox}

app_events-AllOf :
    (instance_id app : String) (uid revision : ℕ) (paths : List String)
    → AllOf uid (map (λ path. app_event instance_id app uid path revision) paths)
unfolding entry_from_event
app_events-AllOf instance_id app uid revision [] = tt
app_events-AllOf instance_id app uid revision (path ∷ paths) =
    (refl, app_events-AllOf instance_id app uid revision paths)

new_app-AllOf :
    (instance_id app : String) (uid revision : ℕ) (paths : List String)
    → AllOf uid (new_app instance_id app uid revision paths)
unfolding new_app entry_from_event
new_app-AllOf instance_id app uid revision [] = (refl, tt)
new_app-AllOf instance_id app uid revision (path ∷ paths) =
    app_events-AllOf instance_id app uid revision (path ∷ paths)

-- The entity of a resource that a client sends has the nil UUID, and the finalizers that were sent.
app_to_entity_lem :
    {Labels Json Anchors Validity : Type 0}
    → (specs : Specs Labels Json Anchors Validity) (r : Resource Labels Json)
      (converted : App Labels Json × List TypedAlias)
    → app_to_entity specs r ≡ ok converted
    → (converted.0.entity.uid ≡ 0) × (converted.0.entity.finalizers ≡ r.finalizers)
unfolding app_to_entity
app_to_entity_lem specs r converted h = elim (Option-cases (specs.trust_anchors r)) [
  | inl e ↦ ground (arith, h, e)
  | inr (err e, is) ↦ ground (arith, h, is)
  | inr (ok anchors, is) ↦ elim (Result-cases (specs.process_anchors anchors)) [
    | inl (processed, p) ↦ ground (arith, h, is, p)
    | inr (e, p) ↦ absurd (ground (arith, h, is, p))
  ]
]

module _ {Labels Json Anchors Validity : Type 0} ⦃l : PartialEq Labels⦄ ⦃j : PartialEq Json⦄
    (users : UserIds) (parse_uuid : ParseUuid) (specs : Specs Labels Json Anchors Validity)
    (instance_id : String) where
  -- The new row of an application in the tables.
  abbrev pub AppStored :
      Db Labels Json → Db Labels Json → String → App Labels Json → Entity Labels Json → Type 0
  AppStored db changed name current row =
      (row.uid ≡ current.entity.uid)
      × (row.revision ≡ current.entity.revision + 1)
      × (changed.apps ≡ insert name (record current { entity = row }) db.apps)
      × (changed.devices ≡ db.devices)

  -- The events of an update have the UUID of the entity that was sent.
  abbrev pub AppChanged :
      Db Labels Json
      → Db Labels Json
      → List Event
      → String
      → App Labels Json
      → Entity Labels Json
      → Type 0
  AppChanged db changed events name current sent =
      (row : Entity Labels Json) × AppStored db changed name current row
      × (events
          ≡ new_app instance_id name sent.uid row.revision (
              diff_paths current.entity
                (record sent { deletion_timestamp = current.entity.deletion_timestamp })))

  pub perform_update_app_effect :
      (db changed : Db Labels Json) (events : List Event) (fresh : Fresh)
      (identity : Option UserInformation) (name : String) (sent : Entity Labels Json)
      (aliases : Option (List TypedAlias)) (uid version : String) (current : App Labels Json)
      → current.entity.revision < 2 ^ 64
      → get name db.apps ≡ some current
      → perform_update_app users parse_uuid specs instance_id db fresh identity name sent aliases
          uid version
        ≡ ok (changed, events)
      → ((is_some current.entity.deletion_timestamp ≡ true)
          × (sent.finalizers ≡ [])
          × (delete_app_row db name ≡ ok changed)
          × (events ≡ []))
        ⊎ (((changed ≡ db) × (events ≡ [])) ⊎ AppChanged db changed events name current sent)
  unfolding perform_update_app
  perform_update_app_effect db changed events fresh identity name sent aliases uid version current
        small is h =
      let entity : Entity Labels Json = record sent {
        deletion_timestamp = current.entity.deletion_timestamp;
      } in
      elim (Bool-cases (is_some current.entity.deletion_timestamp && is_empty sent.finalizers)) [
        | inl gone ↦ elim (Result-cases (delete_app_row db name)) [
          | inr (e, d) ↦ absurd (ground (arith, h, is, gone, d))
          | inl (deleted, d) ↦
              let same : deleted ≡ changed = ground (arith, h, is, gone, d) in
              inl (
                ground (arith, gone),
                ground (arith, gone),
                d ∙ ap ok same,
                ground (arith, h, is, gone, d),
              )
        ]
        | inr stays ↦ elim (Bool-cases (is_empty (diff_paths current.entity entity))) [
          | inl same ↦ inr (inl (ground (arith, h, is, stays, same)))
          | inr differs ↦
              elim (Result-cases
                (advance_from (diff_paths current.entity entity) current.entity entity)) [
                  | inr (e, a) ↦ absurd (ground (arith, h, is, stays, differs, a))
                  | inl (advanced, a) ↦
                      let (revision, kept_uid, deletion, finalizers) =
                        advance_from_lem (diff_paths current.entity entity) current.entity entity
                          advanced a small in
                      elim (Result-cases (update_data db fresh name advanced aliases)) [
                        | inr (e, d) ↦ absurd (ground (arith, h, is, stays, differs, a, d))
                        | inl (updated, d) ↦
                            let rows =
                              update_data_rows db updated fresh name advanced current aliases is
                                d in
                            inr (
                              inr (
                                updated_entity current.entity advanced fresh,
                                ground (arith, h, is, stays, differs, a, d, rows, revision),
                                ground (arith, h, is, stays, differs, a, d, revision, kept_uid),
                              ))
                      ]
                ]
        ]
      ]

  -- An update that succeeds, and is not the last of a deleted application, leaves the application as
  -- it was, or with the next revision and the UUID that it had. Then there is an event for each path
  -- that differs, with that revision, but with the nil UUID, and each is in the outbox.
  pub update_app-AllPending :
      (db changed : Db Labels Json) (events : List Event) (fresh : Fresh) (now : ℕ)
      (identity : UserInformation) (application : Resource Labels Json)
      (converted : App Labels Json × List TypedAlias) (current : App Labels Json)
      → current.entity.revision < 2 ^ 64
      → get application.name db.apps ≡ some current
      → (is_some current.entity.deletion_timestamp && is_empty application.finalizers) ≡ false
      → app_to_entity specs application ≡ ok converted
      → update_app users parse_uuid specs instance_id db fresh now identity application
        ≡ ok (changed, events)
      → (new : App Labels Json) × (get application.name changed.apps ≡ some new)
        × ((new ≡ current)
            ⊎ ((new.entity.uid ≡ current.entity.uid)
                × (new.entity.revision ≡ current.entity.revision + 1)
                × (events
                    ≡ new_app instance_id application.name 0 new.entity.revision (
                        diff_paths current.entity (record converted.0.entity {
                          deletion_timestamp = current.entity.deletion_timestamp;
                        })))
                × AllPending events changed.outbox))
  unfolding update_app send_to_outbox
  update_app-AllPending db changed events fresh now identity application converted current small is
        stays c h =
      let performed =
        perform_update_app users parse_uuid specs instance_id db fresh (some identity)
          application.name converted.0.entity (some converted.1) application.uid
          application.resource_version in
      elim (Result-cases performed) [
        | inr (e, p) ↦ absurd (ground (arith, h, c, p))
        | inl ((updated, sent), p) ↦
            let (nil, finalizers) = app_to_entity_lem specs application converted c in
            let both : (send_to_outbox now sent updated ≡ changed) × (sent ≡ events) =
              ground (arith, h, c, p) in
            elim (perform_update_app_effect db updated sent fresh (some identity) application.name
              converted.0.entity (some converted.1) application.uid application.resource_version
              current small is p) [
                | inl (marked, bare, row, silent) ↦
                    absurd (ground (arith, marked, bare, finalizers, stays))
                | inr (inl (same, silent)) ↦
                    (current, ground (arith, both, same, silent, is), inl refl)
                | inr (inr (row, (uid, revision, apps, devices), told)) ↦ (
                  record current { entity = row },
                  ground (
                    arith,
                    both,
                    apps,
                    get-insert application.name application.name (record current { entity = row })
                        db.apps,
                    beq_refl application.name,
                  ),
                  inr (
                    uid,
                    revision,
                    sym both.1 ∙ (rw (← nil) told),
                    rw (← both.0, ← both.1)
                        (notify-AllPending now converted.0.entity.uid sent updated.outbox (
                          rw told (
                            new_app-AllOf instance_id application.name converted.0.entity.uid
                              row.revision
                              (diff_paths current.entity (record converted.0.entity {
                                deletion_timestamp = current.entity.deletion_timestamp;
                              }))))),
                  ),
                )
              ]
      ]
