-- ===== src/Registry/Select/Meaning.antt =====
-- database-common/src/models/sql.rs: the rows that a query with conditions selects, by what PostgreSQL
-- says of the operators; `none` is the value NULL.
use drogue_cloud.Base.{
  ℕ, zero, suc, ◌≤◌, String, Bool, true, false, not, ◌&&◌, ◌||◌, List, [], ◌∷◌, Option, none, some,
  is_some, is_empty, any, string_eq, ◌==◌, if◌then◌else◌,
}
use drogue_cloud.HashMap.{HashMap, get}
use drogue_cloud.Authz.{Role}
use drogue_cloud.Registry.Select.{
  Operation, label_eq, label_not_eq, label_in, label_not_in, label_exists, label_not_exists, Param,
  text, texts, Condition, owner_or_member, name_is, has_label, has_no_label, label_is, label_is_not,
  label_any, label_not_any, Fragment, condition, sql, where_keyword, and_keyword, order_by,
  limit_to, offset_by, lock_rows, SqlType, varchar, varchar_array,
}

pub record SelectRow : Type 0 where
  pub row_name : String
  pub row_labels : HashMap String String
  pub owner : Option String
  pub members : HashMap String Role

abbrev pub param_at : ℕ → List Param → Option Param
param_at n [] = none
param_at zero (p ∷ ps) = none
param_at (suc zero) (p ∷ ps) = some p
param_at (suc (suc n)) (p ∷ ps) = param_at (suc n) ps

abbrev pub text_of : Option Param → Option String
text_of (some (text t)) = some t
text_of (some (texts ts)) = none
text_of none = none

abbrev pub texts_of : Option Param → Option (List String)
texts_of (some (texts ts)) = some ts
texts_of (some (text t)) = none
texts_of none = none

abbrev pub label_in_row : Option String → SelectRow → Option String
label_in_row none row = none
label_in_row (some l) row = get l row.row_labels

-- `=`, which is NULL where one side is.
abbrev pub equals : Option String → Option String → Option Bool
equals (some a) (some b) = some (a == b)
equals (some a) none = none
equals none b = none

abbrev pub negated : Option Bool → Option Bool
negated none = none
negated (some b) = some (not b)

-- `= ANY`, which is false for no elements.
abbrev pub equals_any : Option String → Option (List String) → Option Bool
equals_any a none = none
equals_any a (some []) = some false
equals_any none (some (t ∷ ts)) = none
equals_any (some a) (some (t ∷ ts)) = some (any (λ u. a == u) (t ∷ ts))

abbrev pub exists_in : Option String → SelectRow → Option Bool
exists_in none row = none
exists_in (some l) row = some (is_some (get l row.row_labels))

abbrev pub readable_by : Option String → SelectRow → Option Bool
readable_by none row = none
readable_by (some id) row =
    let is_owner : Bool = elim row.owner [ none ↦ false | some holder ↦ holder == id ] in
    some (is_owner || is_some (get id row.members) || is_some (get "" row.members))

abbrev pub holds : List Param → Condition → SelectRow → Option Bool
holds ps (owner_or_member n) row = readable_by (text_of (param_at n ps)) row
holds ps (name_is n) row = equals (some row.row_name) (text_of (param_at n ps))
holds ps (has_label n) row = exists_in (text_of (param_at n ps)) row
holds ps (has_no_label n) row = negated (exists_in (text_of (param_at n ps)) row)
holds ps (label_is n m) row =
    equals (label_in_row (text_of (param_at n ps)) row) (text_of (param_at m ps))
holds ps (label_is_not n m) row =
    negated (equals (label_in_row (text_of (param_at n ps)) row) (text_of (param_at m ps)))
holds ps (label_any n m) row =
    equals_any (label_in_row (text_of (param_at n ps)) row) (texts_of (param_at m ps))
holds ps (label_not_any n m) row =
    negated (equals_any (label_in_row (text_of (param_at n ps)) row) (texts_of (param_at m ps)))

abbrev pub is_true : Option Bool → Bool
is_true none = false
is_true (some b) = b

-- How far the text of a query is read: no condition yet, a condition has to follow, a condition was
-- read, or the conditions are over.
pub data Place : Type 0 where
  unfiltered wanting filtered closing : Place

-- By the grammar of SELECT: WHERE before the first condition, AND before each other one, and ORDER BY
-- before the limits and the lock.
abbrev pub follow : Place → Fragment → Option Place
follow unfiltered where_keyword = some wanting
follow filtered and_keyword = some wanting
follow wanting (condition c) = some filtered
follow wanting other = none
follow closing (order_by s) = none
follow place (order_by s) = some closing
follow place (limit_to n) = some closing
follow place (offset_by n) = some closing
follow place (lock_rows l) = some closing
follow place other = none

abbrev pub places : Place → List Fragment → Option Place
places place [] = some place
places place (f ∷ fs) = elim (follow place f) [ none ↦ none | some next ↦ places next fs ]

-- A query starts with its text, which may have a WHERE with conditions already.
abbrev pub start_place : Bool → Place
start_place base_where = if base_where then filtered else unfiltered

abbrev pub query_place : Bool → List Fragment → Option Place
query_place base_where (sql s ∷ fs) = places (start_place base_where) fs
query_place base_where other = none

abbrev pub is_complete : Option Place → Bool
is_complete none = false
is_complete (some wanting) = false
is_complete (some place) = true

-- A row is selected if each condition is true, and not NULL.
unfoldable pub selects : List Param → List Fragment → SelectRow → Bool
selects ps [] row = true
selects ps (condition c ∷ fs) row = is_true (holds ps c row) && selects ps fs row
selects ps (sql s ∷ fs) row = selects ps fs row
selects ps (where_keyword ∷ fs) row = selects ps fs row
selects ps (and_keyword ∷ fs) row = selects ps fs row
selects ps (order_by s ∷ fs) row = selects ps fs row
selects ps (limit_to n ∷ fs) row = selects ps fs row
selects ps (offset_by n ∷ fs) row = selects ps fs row
selects ps (lock_rows l ∷ fs) row = selects ps fs row

-- Each parameter has its type.
abbrev pub has_type : Param → SqlType → Bool
has_type (text t) varchar = true
has_type (texts ts) varchar_array = true
has_type other type = false

abbrev pub typed : List Param → List SqlType → Bool
typed [] [] = true
typed (p ∷ ps) (t ∷ ts) = has_type p t && typed ps ts
typed other types = false

-- What the database says of a row: an error, if the query is not well formed, or the types are not
-- those of the parameters.
abbrev pub answer : Bool → List Fragment × List Param × List SqlType → SelectRow → Option Bool
answer base_where query row =
    if is_complete (query_place base_where query.0) && typed query.1 query.2
    then some (selects query.1 query.0 row)
    else none

-- What a requirement asks of a row. A value that a label must not have is one of a label
-- that is there.
abbrev pub matches : Operation → SelectRow → Bool
matches (label_exists l) row = is_some (get l row.row_labels)
matches (label_not_exists l) row = not (is_some (get l row.row_labels))
matches (label_eq l v) row = elim (get l row.row_labels) [ none ↦ false | some w ↦ w == v ]
matches (label_not_eq l v) row = elim (get l row.row_labels) [
  | none ↦ false
  | some w ↦ not (w == v)
]
matches (label_in l vs) row = elim (get l row.row_labels) [
  | none ↦ false
  | some w ↦ any (λ v. w == v) vs
]
matches (label_not_in l vs) row =
    is_empty vs
    || elim (get l row.row_labels) [ none ↦ false | some w ↦ not (any (λ v. w == v) vs) ]

abbrev pub all_match : List Operation → SelectRow → Bool
all_match [] row = true
all_match (op ∷ ops) row = matches op row && all_match ops row

-- Conditions are on parameters that are there.
abbrev pub IsBoundBy : ℕ → Condition → Type 0
IsBoundBy k (owner_or_member n) = n ≤ k
IsBoundBy k (name_is n) = n ≤ k
IsBoundBy k (has_label n) = n ≤ k
IsBoundBy k (has_no_label n) = n ≤ k
IsBoundBy k (label_is n m) = (n ≤ k) × (m ≤ k)
IsBoundBy k (label_is_not n m) = (n ≤ k) × (m ≤ k)
IsBoundBy k (label_any n m) = (n ≤ k) × (m ≤ k)
IsBoundBy k (label_not_any n m) = (n ≤ k) × (m ≤ k)

abbrev pub AllBound : ℕ → List Fragment → Type 0
AllBound k [] = Unit
AllBound k (condition c ∷ fs) = IsBoundBy k c × AllBound k fs
AllBound k (other ∷ fs) = AllBound k fs
