-- ===== src/Authz/Levels.antt =====
-- database-common/src/auth.rs: the rule as an order of levels, and how far the listing of
-- applications (database-common/src/models/sql.rs) agrees with it.
use drogue_cloud.Base.{
  ℕ, String, ◌≡◌, Bool, true, false, ◌||◌, Option, none, some, arith, leb, is_some, if◌then◌else◌,
  string_eq, string_beq_iff,
}
use drogue_cloud.HashMap.{get}
use drogue_cloud.Authz.{
  Role, Permission, Outcome, UserDetails, UserInformation, authenticated, UserIds, is_admin,
  Resource, authorize, auth_read, member_outcome, or_empty, owns,
}

-- What a permission takes.
unfoldable pub needed : Permission → ℕ
needed Permission.read = 1
needed Permission.write = 2
needed Permission.admin = 3
needed Permission.owner = 4

unfoldable pub role_level : Option Role → ℕ
role_level none = 0
role_level (some Role.reader) = 1
role_level (some Role.manager) = 2
role_level (some Role.admin) = 3

module _ (users : UserIds) where
  -- What a user has: all of it as an administrator, as the owner, and where there is no owner.
  unfoldable pub level : Resource → UserInformation → ℕ
  level resource identity = elim resource.owner [
    | none ↦ 4
    | some holder ↦
        if is_admin identity || owns holder (users.user_id identity)
        then 4
        else role_level (get (or_empty (users.user_id identity)) resource.members)
  ]

  -- An operation is allowed exactly if the level of the user reaches what the permission takes.
  pub authorize-level :
      (resource : Resource) (identity : UserInformation) (permission : Permission)
      → authorize users resource identity permission ≡ (
          if leb (needed permission) (level resource identity) then Outcome.allow else Outcome.deny)
  unfolding authorize needed role_level level
  authorize-level resource identity Permission.read = ground arith
  authorize-level resource identity Permission.write = ground arith
  authorize-level resource identity Permission.admin = ground arith
  authorize-level resource identity Permission.owner = ground arith

  abbrev pub is_allow : Outcome → Bool
  is_allow Outcome.allow = true
  is_allow Outcome.deny = false

  -- For an owned application, a logged-in user who may read it finds it in the listing. The
  -- listing has more only where the application has the member for everyone, "".
  pub auth_read-authorize :
      (resource : Resource) (details : UserDetails) (holder : String)
      → resource.owner ≡ some holder
      → auth_read (some (authenticated details)) resource ≡ (
          is_allow (authorize users resource (authenticated details) Permission.read)
          || is_some (get "" resource.members))
  unfolding authorize auth_read is_admin member_outcome
  auth_read-authorize resource details holder h =
      ground (arith, users.of_authenticated details, string_beq_iff holder details.user_id)

  -- An application without an owner may be read by all, and the listing shows it to those alone
  -- who are administrators or members, or to all if it has the member for everyone.
  auth_read_unowned :
      (resource : Resource) (details : UserDetails)
      → resource.owner ≡ none
      → (authorize users resource (authenticated details) Permission.read ≡ Outcome.allow)
        × (auth_read (some (authenticated details)) resource ≡ (
            is_admin (authenticated details)
            || is_some (get details.user_id resource.members)
            || is_some (get "" resource.members)))
  unfolding authorize auth_read is_admin member_outcome
  auth_read_unowned resource details h = (ground (arith, h), ground (arith, h))
