-- ===== src/Authz/Transfer.antt =====
-- device-management-service/src/service/admin/mod.rs: the transfer of applications to other users
-- and their member lists, on the table of applications (`update_transfer` and `set_members` of
-- database-common/src/models/app.rs). Each operation is one transaction, and the database is taken
-- to answer; the user names of Keycloak are a parameter.
use drogue_cloud.Base.{
  String, Bool, true, false, not, ◌||◌, List, [], ◌∷◌, Option, none, some, Result, ok, err,
  if◌then◌else◌, string_eq, ◌==◌, ◌>>=◌, ◌>>◌,
}
use drogue_cloud.HashMap.{HashMap, get, insert}
use drogue_cloud.Authz.{Role, Permission, UserInformation, UserIds, Resource, ensure_with}

pub data AdminError : Type 0 where
  not_found bad_request internal optimistic_lock_failed : AdminError

pub record App : Type 0 where
  pub owner : Option String
  pub transfer_owner : Option String
  pub members : HashMap String Role
  pub resource_version : String

abbrev pub Apps : Type 0
Apps = HashMap String App

-- What Keycloak knows of a user name and of an id.
pub record Keycloak : Type 0 where
  pub id_from_username : String → Option String
  pub username_from_id : String → Option String

abbrev pub resource_of : App → Resource
resource_of app = record { owner = app.owner; members = app.members }

-- The equality that is derived for `Option<&str>`.
unfoldable pub same_user : Option String → Option String → Bool
same_user none none = true
same_user none (some user) = false
same_user (some user) none = false
same_user (some user) (some other) = user == other

unfoldable pub get_app : Apps → String → Result AdminError App
get_app apps name = elim (get name apps) [ none ↦ err not_found | some app ↦ ok app ]

unfoldable pub update_transfer : Apps → String → App → Option String → Option String → Apps
update_transfer apps name app holder receiver =
    insert name (record app { owner = holder; transfer_owner = receiver }) apps

-- The names of members become ids; the empty name is the member for everyone.
unfoldable pub member_ids :
    Keycloak → List (String × Role) → HashMap String Role → Result AdminError (HashMap String Role)
member_ids keycloak [] ids = ok ids
member_ids keycloak ((name, role) ∷ members) ids =
    if name == ""
    then member_ids keycloak members (insert name role ids)
    else elim (keycloak.id_from_username name) [
      | none ↦ err bad_request
      | some id ↦ member_ids keycloak members (insert id role ids)
    ]

-- The members whose ids have a user name, by that name.
unfoldable pub member_names :
    Keycloak → HashMap String Role → HashMap String Role → HashMap String Role
member_names keycloak [] names = names
member_names keycloak ((id, role) ∷ members) names =
    if id == ""
    then member_names keycloak members (insert id role names)
    else elim (keycloak.username_from_id id) [
      | none ↦ member_names keycloak members names
      | some username ↦ member_names keycloak members (insert username role names)
    ]

abbrev pub is_stale : Option String → App → Bool
is_stale none app = false
is_stale (some version) app = not (version == app.resource_version)

module _ (users : UserIds) (keycloak : Keycloak) where
  unfoldable pub transfer : Apps → UserInformation → String → String → Result AdminError Apps
  unfolding get_app update_transfer
  transfer apps identity name new_user = if new_user == "" then err bad_request else do
    app ← get_app apps name
    ensure_with users (resource_of app) identity Permission.owner not_found
    elim (keycloak.id_from_username new_user) [
      | none ↦ err bad_request
      | some id ↦ ok (update_transfer apps name app (users.user_id identity) (some id))
    ]

  unfoldable pub read_transfer_state :
      Apps → UserInformation → String → Result AdminError (Option String)
  unfolding get_app same_user
  read_transfer_state apps identity name = do
    app ← get_app apps name
    if same_user app.transfer_owner (users.user_id identity)
          || same_user app.owner (users.user_id identity)
        then elim app.transfer_owner [
          | none ↦ ok none
          | some id ↦ elim (keycloak.username_from_id id) [
            | none ↦ err internal
            | some username ↦ ok (some username)
          ]
        ]
        else err not_found

  unfoldable pub cancel : Apps → UserInformation → String → Result AdminError Apps
  unfolding get_app same_user update_transfer
  cancel apps identity name = do
    app ← get_app apps name
    if same_user app.transfer_owner (users.user_id identity)
          || same_user app.owner (users.user_id identity)
        then ok (update_transfer apps name app app.owner none)
        else err not_found

  unfoldable pub accept : Apps → UserInformation → String → Result AdminError Apps
  unfolding get_app same_user update_transfer
  accept apps identity name = do
    app ← get_app apps name
    if same_user app.transfer_owner (users.user_id identity)
        then ok (update_transfer apps name app (users.user_id identity) none)
        else err not_found

  unfoldable pub get_members :
      Apps → UserInformation → String → Result AdminError (String × HashMap String Role)
  unfolding get_app member_names
  get_members apps identity name = do
    app ← get_app apps name
    ensure_with users (resource_of app) identity Permission.admin not_found
    ok (app.resource_version, member_names keycloak app.members [])

  -- `expected` is the version that the caller has seen, if it says so.
  unfoldable pub set_members :
      Apps
      → UserInformation
      → String
      → Option String
      → List (String × Role)
      → Result AdminError Apps
  unfolding get_app member_ids
  set_members apps identity name expected members = do
    app ← get_app apps name
    if is_stale expected app then err optimistic_lock_failed else do
      ensure_with users (resource_of app) identity Permission.admin not_found
      ids ← member_ids keycloak members []
      ok (insert name (record app { members = ids }) apps)
