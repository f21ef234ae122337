-- ===== src/Authz.antt =====
-- Who may do what with an application: database-common/src/auth.rs, and the same rule as the SQL
-- restriction of `auth_read` in database-common/src/models/sql.rs. Roles and users are those of
-- service-api/src/admin/mod.rs and service-api/src/auth/user/mod.rs.
pub mod Levels
pub mod Transfer
pub mod Handover
pub mod Tests
use drogue_cloud.Base.{
  String, ◌≡◌, Bool, true, false, ◌||◌, List, Option, none, some, Result, ok, err, any, is_some,
  if◌then◌else◌, string_eq, ◌==◌,
}
use drogue_cloud.HashMap.{HashMap, get}

pub data Role : Type 0 where
  admin manager reader : Role

pub data Permission : Type 0 where
  owner admin write read : Permission

pub data Outcome : Type 0 where
  allow deny : Outcome

pub record UserDetails : Type 0 where
  pub user_id : String
  pub roles : List String

pub data UserInformation : Type 0 where
  authenticated : UserDetails → UserInformation
  anonymous : UserInformation

-- `UserInformation::user_id` of drogue-bazaar: the id of a user who is authenticated.
pub record UserIds : Type 0 where
  pub user_id : UserInformation → Option String
  pub of_authenticated :
      (details : UserDetails) → user_id (authenticated details) ≡ some details.user_id
  pub of_anonymous : user_id anonymous ≡ none

unfoldable pub is_admin : UserInformation → Bool
is_admin (authenticated details) = any (λ s. s == "drogue-admin") details.roles
is_admin anonymous = false

-- A resource: its owner, and the roles of its members.
pub record Resource : Type 0 where
  pub owner : Option String
  pub members : HashMap String Role

-- The member list decides.
unfoldable pub member_outcome : Option Role → Permission → Outcome
member_outcome none permission = Outcome.deny
member_outcome (some role) Permission.owner = Outcome.deny
member_outcome (some Role.admin) Permission.admin = Outcome.allow
member_outcome (some role) Permission.admin = Outcome.deny
member_outcome (some Role.admin) Permission.write = Outcome.allow
member_outcome (some Role.manager) Permission.write = Outcome.allow
member_outcome (some Role.reader) Permission.write = Outcome.deny
member_outcome (some role) Permission.read = Outcome.allow

-- `Option::unwrap_or_default`
abbrev pub or_empty : Option String → String
or_empty none = ""
or_empty (some user) = user

abbrev pub is_owner_permission : Permission → Bool
is_owner_permission Permission.owner = true
is_owner_permission _ = false

-- The owner of the resource is the user.
abbrev pub owns : String → Option String → Bool
owns holder none = false
owns holder (some user) = holder == user

module _ (users : UserIds) where
  unfoldable pub authorize : Resource → UserInformation → Permission → Outcome
  unfolding member_outcome
  authorize resource identity permission =
      if is_admin identity then Outcome.allow else elim resource.owner [
        | none ↦ Outcome.allow
        | some holder ↦
            if owns holder (users.user_id identity)
            then Outcome.allow
            else if is_owner_permission permission
            then Outcome.deny
            else member_outcome (get (or_empty (users.user_id identity)) resource.members)
                permission
      ]

  unfoldable pub ensure_with {ℓ} :
      {E : Type ℓ} → Resource → UserInformation → Permission → E → Result E (Unit {0})
  ensure_with resource identity permission error = elim (authorize resource identity permission) [
    | allow ↦ ok tt
    | deny ↦ err error
  ]

-- The rows that `auth_read` lets through; without a user authentication is off.
unfoldable pub auth_read : Option UserInformation → Resource → Bool
auth_read none resource = true
auth_read (some user) resource =
    let id : String = elim user [ authenticated details ↦ details.user_id | anonymous ↦ "" ] in
    let is_owner : Bool = elim resource.owner [ none ↦ false | some holder ↦ holder == id ] in
    if is_admin user
    then true
    else is_owner || is_some (get id resource.members) || is_some (get "" resource.members)
