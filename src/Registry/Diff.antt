-- ===== src/Registry/Diff.antt =====
-- database-common/src/models/diff.rs: the paths in which two states of a resource differ.
pub mod Sound
use Prim.Native.String.{◌++◌ as str_append}
use drogue_cloud.Base.{
  String, Bool, true, false, not, ◌||◌, ◌&&◌, List, [], ◌∷◌, ◌++◌, Option, none, some,
  if◌then◌else◌, PartialEq, string_eq, ◌==◌, list_beq, is_some,
}
use drogue_cloud.HashMap.{HashMap, get}
use drogue_cloud.Registry.{Section, fields, scalar, Sections, Entity}

-- "{prefix}.{k}"
abbrev pub path_of : String → String → String
path_of prefix k = str_append prefix (str_append "." k)

module _ {Json : Type 0} ⦃e : PartialEq Json⦄ where
  abbrev pub has_value : Json → Option Json → Bool
  has_value v none = false
  has_value v (some other) = v == other

  -- The fields that got changed or removed.
  unfoldable pub changed_in : String → HashMap String Json → HashMap String Json → List String
  changed_in prefix new [] = []
  changed_in prefix new ((k, v) ∷ current) =
      let rest = changed_in prefix new current in
      if has_value v (get k new) then rest else path_of prefix k ∷ rest

  -- The fields that got added.
  unfoldable pub added_to : String → HashMap String Json → HashMap String Json → List String
  added_to prefix current [] = []
  added_to prefix current ((k, v) ∷ new) =
      let rest = added_to prefix current new in
      if is_some (get k current) then rest else path_of prefix k ∷ rest

  unfoldable pub diff_maps : String → HashMap String Json → HashMap String Json → List String
  unfolding changed_in added_to
  diff_maps prefix current new = changed_in prefix new current ++ added_to prefix current new

  unfoldable pub all_keys : String → HashMap String Json → List String
  all_keys prefix [] = []
  all_keys prefix ((k, v) ∷ m) = path_of prefix k ∷ all_keys prefix m

  -- `none` is the null value of a section that is not there.
  unfoldable pub diff_maps_data :
      String → Option (Section Json) → Option (Section Json) → List String
  unfolding diff_maps all_keys
  diff_maps_data prefix (some (fields current)) (some (fields new)) = diff_maps prefix current new
  diff_maps_data prefix (some (fields current)) (some (scalar v)) = all_keys prefix current
  diff_maps_data prefix (some (fields current)) none = all_keys prefix current
  diff_maps_data prefix (some (scalar v)) (some (fields new)) = all_keys prefix new
  diff_maps_data prefix (some (scalar v)) (some (scalar w)) = []
  diff_maps_data prefix (some (scalar v)) none = []
  diff_maps_data prefix none (some (fields new)) = all_keys prefix new
  diff_maps_data prefix none (some (scalar w)) = []
  diff_maps_data prefix none none = []

  -- The sections of the current state.
  unfoldable pub diff_current : Sections Json → Sections Json → List String
  unfolding diff_maps_data
  diff_current new [] = []
  diff_current new ((k, v) ∷ current) =
      diff_maps_data (path_of "" k) (some v) (get k new) ++ diff_current new current

  -- The sections that only the new state has.
  unfoldable pub diff_new : Sections Json → Sections Json → List String
  unfolding diff_maps_data
  diff_new current [] = []
  diff_new current ((k, v) ∷ new) =
      let rest = diff_new current new in
      if is_some (get k current) then rest else diff_maps_data (path_of "" k) none (some v) ++ rest

  unfoldable pub diff_section : Sections Json → Sections Json → List String
  unfolding diff_current diff_new
  diff_section current new = diff_current new current ++ diff_new current new

  unfoldable pub diff_paths :
      {Labels : Type 0} ⦃l : PartialEq Labels⦄
      → Entity Labels Json
      → Entity Labels Json
      → List String
  unfolding diff_section
  diff_paths current new =
      let data_paths = diff_section current.sections new.sections in
      if current.annotations == new.annotations
        && current.labels == new.labels
        && list_beq current.finalizers new.finalizers
      then data_paths
      else ".metadata" ∷ data_paths
