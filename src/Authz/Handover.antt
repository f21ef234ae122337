-- ===== src/Authz/Handover.antt =====
-- device-management-service/src/service/admin/mod.rs: who owns an application after the calls of a
-- transfer, and after those of strangers.
use drogue_cloud.Base.{
  String, ◌≡◌, false, List, [], Option, none, some, Result, ok, err, arith, inl, inr, Result-cases,
  string_eq, ◌==◌, beq_refl,
}
use drogue_cloud.HashMap.{get, insert, get-insert}
use drogue_cloud.Authz.{
  Role, Permission, Outcome, UserDetails, UserInformation, authenticated, anonymous, UserIds,
  is_admin, authorize, ensure_with,
}
use drogue_cloud.Authz.Transfer.{
  AdminError, App, Apps, Keycloak, resource_of, same_user, get_app, update_transfer, member_ids,
  is_stale, transfer, cancel, accept, set_members,
}

module _ (users : UserIds) (keycloak : Keycloak) where
  -- The calls that change an application.
  pub data Call : Type 0 where
    transfers : String → Call
    cancels accepts : Call
    sets_members : Option String → List (String × Role) → Call

  unfoldable pub call : Apps → UserInformation → String → Call → Result AdminError Apps
  unfolding transfer cancel accept set_members
  call apps identity name (transfers new_user) = transfer users keycloak apps identity name new_user
  call apps identity name cancels = cancel users keycloak apps identity name
  call apps identity name accepts = accept users keycloak apps identity name
  call apps identity name (sets_members expected members) =
      set_members users keycloak apps identity name expected members

  -- The tables after a call: a call that fails is rolled back.
  abbrev pub committed : Apps → Result AdminError Apps → Apps
  committed apps (ok changed) = changed
  committed apps (err e) = apps

  abbrev pub ownership : Apps → String → Option (Option String × Option String)
  ownership apps name = elim (get name apps) [
    | none ↦ none
    | some app ↦ some (app.owner, app.transfer_owner)
  ]

  -- A logged-in user who is no administrator, is not the owner of an application that has one, and
  -- has not been offered it, can change neither its owner nor the offer with any of these calls.
  pub call_keeps_ownership :
      (apps : Apps) (details : UserDetails) (name : String) (c : Call) (app : App) (holder : String)
      → get name apps ≡ some app
      → app.owner ≡ some holder
      → is_admin (authenticated details) ≡ false
      → (holder == details.user_id) ≡ false
      → same_user app.transfer_owner (some details.user_id) ≡ false
      → ownership (committed apps (call apps (authenticated details) name c)) name
        ≡ some (some holder, app.transfer_owner)
  unfolding call transfer cancel accept set_members get_app ensure_with authorize same_user
  call_keeps_ownership apps details name (transfers new_user) app holder stored owned plain other
        offered =
      ground (arith, stored, owned, plain, other, users.of_authenticated details)
  call_keeps_ownership apps details name cancels app holder stored owned plain other offered =
      ground (arith, stored, owned, offered, other, users.of_authenticated details)
  call_keeps_ownership apps details name accepts app holder stored owned plain other offered =
      ground (arith, stored, owned, offered, users.of_authenticated details)
  call_keeps_ownership apps details name (sets_members expected members) app holder stored owned
        plain other offered =
      elim (Result-cases (member_ids keycloak members [])) [
        | inr (e, f) ↦ ground (arith, stored, owned, f)
        | inl (ids, f) ↦
            let changed : App = record app { members = ids } in
            ground (arith, stored, owned, f, get-insert name name changed apps, beq_refl name)
      ]

  -- An application that its owner offers to a user, and that this user accepts, is then owned by
  -- that user, with the same members, and nothing of it is on offer.
  accept-transfer :
      (apps : Apps) (giver receiver : UserDetails) (name new_user : String) (app : App)
      → get name apps ≡ some app
      → app.owner ≡ some giver.user_id
      → (new_user == "") ≡ false
      → keycloak.id_from_username new_user ≡ some receiver.user_id
      → (offered : Apps) × (transfer users keycloak apps (authenticated giver) name new_user
          ≡ ok offered)
        × ((given : Apps) × (accept users keycloak offered (authenticated receiver) name ≡ ok given)
            × (get name given
                ≡ some (record app { owner = some receiver.user_id; transfer_owner = none })))
  unfolding transfer accept get_app update_transfer same_user ensure_with authorize
  accept-transfer apps giver receiver name new_user app stored owned named known =
      let offer : App = record app {
        transfer_owner = some receiver.user_id;
        owner = some giver.user_id;
      } in
      let offered = insert name offer apps in
      let taken : App = record app { owner = some receiver.user_id; transfer_owner = none } in
      (
        offered,
        ground (
          arith,
          stored,
          owned,
          named,
          known,
          users.of_authenticated giver,
          beq_refl giver.user_id,
        ),
        (
          insert name taken offered,
          ground (
            arith,
            get-insert name name offer apps,
            beq_refl name,
            beq_refl receiver.user_id,
            users.of_authenticated receiver,
          ),
          ground (arith, get-insert name name taken offered, beq_refl name),
        ),
      )

  -- Where nothing is on offer, an accept without a login succeeds: it takes the owner from the
  -- application, which then allows everything to everyone.
  pub authorize-accept_anonymous :
      (apps : Apps) (name : String) (app : App) (identity : UserInformation)
      (permission : Permission)
      → get name apps ≡ some app
      → app.transfer_owner ≡ none
      → (taken : Apps) × (accept users keycloak apps anonymous name ≡ ok taken)
        × ((free : App) × (get name taken ≡ some free)
            × (authorize users (resource_of free) identity permission ≡ Outcome.allow))
  unfolding accept get_app update_transfer same_user authorize
  authorize-accept_anonymous apps name app identity permission stored unoffered =
      let free : App = record app { owner = none; transfer_owner = none } in
      (
        insert name free apps,
        ground (arith, stored, unoffered, users.of_anonymous),
        (free, ground (arith, get-insert name name free apps, beq_refl name), ground arith),
      )

  -- Setting the members leaves the version of the application as it was, so the version that a
  -- caller has seen before also passes the test of the next call.
  is_stale-set_members :
      (apps changed : Apps) (identity : UserInformation) (name version : String)
      (members : List (String × Role)) (app : App)
      → get name apps ≡ some app
      → set_members users keycloak apps identity name (some version) members ≡ ok changed
      → (after : App) × (get name changed ≡ some after) × (is_stale (some version) after ≡ false)
  unfolding set_members get_app ensure_with
  is_stale-set_members apps changed identity name version members app stored done =
      elim (Result-cases (member_ids keycloak members [])) [
        | inr (e, f) ↦ absurd (ground (arith, stored, done, f))
        | inl (ids, f) ↦
            let after : App = record app { members = ids } in
            let same : insert name after apps ≡ changed = ground (arith, stored, done, f) in
            (
              after,
              rw (← same) (ground (arith, get-insert name name after apps, beq_refl name)),
              ground (arith, stored, done, f),
            )
      ]
