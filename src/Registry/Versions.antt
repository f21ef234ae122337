-- ===== src/Registry/Versions.antt =====
-- device-management-service/src/service/utils.rs: the version that a client expects.
use drogue_cloud.Base.{
  ℕ, String, Option, none, some, Result, ok, err, nat_eq, string_eq, ◌==◌, ◌>>=◌, if◌then◌else◌,
}
use drogue_cloud.Registry.{Entity, ServiceError, conflict}

-- The parser of UUIDs
abbrev pub ParseUuid : Type 0
ParseUuid = String → Option ℕ

-- An empty text expects nothing.
unfoldable pub is_ok_and_equal : ParseUuid → String → ℕ → Option ℕ
is_ok_and_equal parse_uuid expected actual =
    if expected == "" then some actual else elim (parse_uuid expected) [
      | none ↦ none
      | some uuid ↦ if uuid == actual then some uuid else none
    ]

pub record Constraints : Type 0 where
  pub uid : ℕ
  pub resource_version : ℕ

abbrev pub or_conflict : Option ℕ → Result ServiceError ℕ
or_conflict none = err conflict
or_conflict (some uuid) = ok uuid

module _ {Labels Json : Type 0} where
  unfoldable pub check_versions :
      ParseUuid → String → String → Entity Labels Json → Result ServiceError Constraints
  unfolding is_ok_and_equal
  check_versions parse_uuid expected_uid expected_version current = do
    uid ← or_conflict (is_ok_and_equal parse_uuid expected_uid current.uid)
    version ← or_conflict (is_ok_and_equal parse_uuid expected_version current.resource_version)
    ok (record { uid = uid; resource_version = version })
