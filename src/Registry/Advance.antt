-- ===== src/Registry/Advance.antt =====
-- database-common/src/models/gen.rs: how the generation and the revision of a resource advance.
use drogue_cloud.Base.{
  ℕ, ◌+◌, ◌%◌, ◌^◌, String, Bool, List, Result, ok, err, ltb, leb, any, if◌then◌else◌, ◌>>=◌,
}
use text.Mathlib.Text.{starts_with}
use drogue_cloud.Registry.{Entity, ServiceError, internal}

-- `u64` addition
unfoldable pub increment : ℕ → ℕ
increment n = (n + 1) % 2 ^ 64

abbrev pub is_spec_path : String → Bool
is_spec_path path = starts_with path ".spec"

module _ {Labels Json : Type 0} where
  -- The revision must grow.
  unfoldable pub set_revision : ℕ → Entity Labels Json → Result ServiceError (Entity Labels Json)
  set_revision revision e =
      if ltb e.revision revision then ok (record e { revision = revision }) else err internal

  -- The generation may stay the same, but not shrink.
  unfoldable pub set_generation : ℕ → Entity Labels Json → Result ServiceError (Entity Labels Json)
  set_generation generation e =
      if leb e.generation generation
      then ok (record e { generation = generation })
      else err internal

  unfoldable pub advance_from :
      List String
      → Entity Labels Json
      → Entity Labels Json
      → Result ServiceError (Entity Labels Json)
  unfolding set_revision set_generation increment
  advance_from paths current e = do
    revised ← set_revision (increment current.revision) e
    set_generation
        (if any is_spec_path paths then increment current.generation else current.generation)
        revised

  unfoldable pub advance_revision : Entity Labels Json → Result ServiceError (Entity Labels Json)
  unfolding set_revision increment
  advance_revision e = set_revision (increment e.revision) e
