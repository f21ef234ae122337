-- ===== src/Registry/Entities.antt =====
-- device-management-service/src/service/mod.rs: `app_to_entity` and `device_to_entity`, which make a
-- row and its aliases of a resource that a client sends.
use drogue_cloud.Base.{
  String, true, false, ◌&&◌, List, [], ◌∷◌, none, some, Result, ok, err, string_eq, ◌==◌, any,
  if◌then◌else◌, ◌>>=◌,
}
use drogue_cloud.HashMap.{HashMap, insert}
use drogue_cloud.Registry.{fields, Entity, App, ServiceError}
use drogue_cloud.Registry.Tables.{TypedAlias}
use drogue_cloud.Authentication.{Credential, password, username_password, pre_shared_key, Decoded}

-- A resource as it is sent; the UID and version are the texts that the client expects.
pub record Resource (Labels Json : Type 0) : Type 0 where
  pub name : String
  pub uid : String
  pub resource_version : String
  pub labels : Labels
  pub annotations : Labels
  pub finalizers : List String
  pub spec : HashMap String Json
  pub status : HashMap String Json

-- The typed sections that are read, and the processing of trust anchors (x509.rs).
pub record Specs (Labels Json Anchors Validity : Type 0) : Type 0 where
  pub trust_anchors : Resource Labels Json → Decoded Anchors
  pub process_anchors : Anchors → Result ServiceError (Json × List TypedAlias)
  pub aliases : Resource Labels Json → Decoded (List String)
  pub authentication : Resource Labels Json → Decoded (List (Credential Validity))

-- `HashSet::insert`
unfoldable pub add_alias : TypedAlias → List TypedAlias → List TypedAlias
add_alias alias aliases =
    if any (λ a. a.0 == alias.0 && a.1 == alias.1) aliases then aliases else alias ∷ aliases

unfoldable pub add_all : List TypedAlias → List TypedAlias → List TypedAlias
unfolding add_alias
add_all [] aliases = aliases
add_all (alias ∷ more) aliases = add_all more (add_alias alias aliases)

unfoldable pub add_names : List String → List TypedAlias → List TypedAlias
unfolding add_alias
add_names [] aliases = aliases
add_names (name ∷ names) aliases = add_names names (add_alias ("alias", name) aliases)

-- The user names that are unique in the application
unfoldable pub add_usernames :
    {Validity : Type 0} → List (Credential Validity) → List TypedAlias → List TypedAlias
unfolding add_alias
add_usernames [] aliases = aliases
add_usernames (username_password user stored true ∷ cs) aliases =
    add_usernames cs (add_alias ("username", user) aliases)
add_usernames (username_password user stored false ∷ cs) aliases = add_usernames cs aliases
add_usernames (password stored ∷ cs) aliases = add_usernames cs aliases
add_usernames (pre_shared_key key ∷ cs) aliases = add_usernames cs aliases

module _ {Labels Json Anchors Validity : Type 0} (specs : Specs Labels Json Anchors Validity) where
  abbrev pub new_entity : Resource Labels Json → HashMap String Json → Entity Labels Json
  new_entity resource status = record {
    uid = 0;
    labels = resource.labels;
    annotations = resource.annotations;
    creation_timestamp = 0;
    resource_version = 0;
    generation = 0;
    revision = 0;
    deletion_timestamp = none;
    finalizers = resource.finalizers;
    sections = ("spec", fields resource.spec) ∷ ("status", fields status) ∷ [];
  }

  abbrev pub new_row : Entity Labels Json → App Labels Json
  new_row entity = record { entity = entity; owner = none; transfer_owner = none; members = [] }

  unfoldable pub app_to_entity :
      Resource Labels Json → Result ServiceError (App Labels Json × List TypedAlias)
  unfolding add_all
  app_to_entity resource =
      let plain : App Labels Json × List TypedAlias =
        (new_row (new_entity resource resource.status), ("name", resource.name) ∷ []) in
      elim (specs.trust_anchors resource) [
        | none ↦ ok plain
        | some (err _) ↦ ok plain
        | some (ok anchors) ↦ do
          processed ← specs.process_anchors anchors
          ok (
            new_row (new_entity resource (insert "trustAnchors" processed.0 resource.status)),
            add_all processed.1 (("name", resource.name) ∷ []),
          )
      ]

  unfoldable pub device_aliases : Resource Labels Json → List TypedAlias
  unfolding add_names add_usernames
  device_aliases resource =
      let named : List TypedAlias = elim (specs.aliases resource) [
        | some (ok names) ↦ add_names names (("name", resource.name) ∷ [])
        | _ ↦ ("name", resource.name) ∷ []
      ] in
      elim (specs.authentication resource) [
        | some (ok credentials) ↦ add_usernames credentials named
        | _ ↦ named
      ]

  unfoldable pub device_to_entity : Resource Labels Json → Entity Labels Json × List TypedAlias
  unfolding device_aliases
  device_to_entity resource = (new_entity resource resource.status, device_aliases resource)
