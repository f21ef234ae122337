-- ===== src/Authz/Tests.antt =====
-- The authorization of a user at concrete inputs.
use drogue_cloud.Base.{
  ◌≡◌, refl, ◌||◌, [], ◌∷◌, none, some, ok, leb, is_some, if◌then◌else◌, string_eq, ◌==◌,
}
use drogue_cloud.HashMap.{get, insert, remove}
use drogue_cloud.Authz.{
  Role, Permission, Outcome, UserDetails, authenticated, anonymous, UserIds, is_admin, Resource,
  authorize, auth_read, ensure_with,
}
use drogue_cloud.Authz.Transfer.{
  App, Apps, Keycloak, resource_of, same_user, accept, set_members, get_app, member_ids,
}
use drogue_cloud.Authz.Handover.{
  transfers, call, committed, ownership, call_keeps_ownership, authorize-accept_anonymous,
}
use drogue_cloud.Authz.Levels.{needed, level, authorize-level, auth_read-authorize, is_allow}

abbrev users : UserIds
users = record {
  user_id = λ user. elim user [ authenticated details ↦ some details.user_id | anonymous ↦ none ];
  of_authenticated = λ details. refl;
  of_anonymous = refl;
}

abbrev guest : UserDetails
guest = record { user_id = "guest"; roles = [] }

-- An application of another user, with a member, and open to all.
abbrev shared : Resource
shared = record { owner = some "boss"; members = ("guest", Role.reader) ∷ ("", Role.reader) ∷ [] }

authorize-level_example : authorize users shared (authenticated guest) Permission.write ≡ (
    if leb (needed Permission.write) (level users shared (authenticated guest))
    then Outcome.allow
    else Outcome.deny)
authorize-level_example = authorize-level users shared (authenticated guest) Permission.write

auth_read-authorize_example : auth_read (some (authenticated guest)) shared ≡ (
    is_allow users (authorize users shared (authenticated guest) Permission.read)
    || is_some (get "" shared.members))
auth_read-authorize_example = auth_read-authorize users shared guest "boss" refl

abbrev keycloak : Keycloak
keycloak = record {
  id_from_username = λ name. if name == "Guest" then some "guest" else none;
  username_from_id = λ id. if id == "guest" then some "Guest" else none;
}

abbrev boss : UserDetails
boss = record { user_id = "boss"; roles = [] }

abbrev shared_app : App
shared_app = record {
  owner = some "boss";
  transfer_owner = none;
  members = ("guest", Role.admin) ∷ [];
  resource_version = "1";
}

abbrev apps : Apps
apps = ("app", shared_app) ∷ []

-- A member, even one with the role of an administrator of the application, cannot give it away.
call_keeps_ownership_example :
    ownership users keycloak
      (committed users keycloak apps
        (call users keycloak apps (authenticated guest) "app" (transfers "Guest")))
      "app"
    ≡ some (some "boss", none)
unfolding get same_user is_admin
call_keeps_ownership_example =
    call_keeps_ownership users keycloak apps guest "app" (transfers "Guest") shared_app "boss" refl
      refl refl refl refl

authorize-accept_anonymous_example :
    (taken : Apps) × (accept users keycloak apps anonymous "app" ≡ ok taken)
    × ((free : App) × (get "app" taken ≡ some free)
        × (authorize users (resource_of free) (authenticated guest) Permission.owner
            ≡ Outcome.allow))
unfolding get
authorize-accept_anonymous_example =
    authorize-accept_anonymous users keycloak apps "app" shared_app (authenticated guest)
      Permission.owner refl refl

abbrev without_members : Apps
without_members = ("app", record shared_app { members = [] }) ∷ []

members_set :
    set_members users keycloak apps (authenticated boss) "app" (some "1") [] ≡ ok without_members
unfolding set_members get_app ensure_with authorize is_admin member_ids get insert remove
members_set = refl
