-- ===== src/Registry/Select/Labels.antt =====
-- database-common/src/models/sql.rs: a label selector restricts a query to the rows that match it.

use drogue_cloud.Base.{
  ◌-◌, String, ◌≡◌, refl, ap, ◌∙◌, Bool, false, not, ◌&&◌, ◌||◌, List, [], ◌∷◌, Option, none, some,
  is_some, is_empty, length, any, arith, string_eq, ◌==◌, Bool-cases, inl, inr,
}
use drogue_cloud.HashMap.{get}
use drogue_cloud.Authz.{UserInformation, authenticated, anonymous, is_admin}
use drogue_cloud.Authz as Authz
use drogue_cloud.Registry.Select.{
  Operation, label_eq, label_not_eq, label_in, label_not_in, label_exists, label_not_exists, text,
  texts, Condition, has_label, has_no_label, label_is, label_is_not, label_any, label_not_any,
  condition, SelectBuilder, push_condition, label, labels, auth_read, owner_or_member, varchar,
  varchar_array, build,
}
use drogue_cloud.Registry.Select.Meaning.{
  SelectRow, holds, is_true, selects, matches, all_match, IsBoundBy, wanting, answer, equals,
  negated, equals_any,
}
use drogue_cloud.Registry.Select.Selecting.{selects-append, query_place-append, AllBound-append}
use drogue_cloud.Registry.Select.Preparing.{
  IsReady, selected, Prepared, with_one, with_two, with_one-Prepared, with_two-Prepared,
  params_of_one, params_of_two, build-answer,
}

-- Whether a builder is ready after a requirement, and selects the rows that match it of those that it
-- selected.
abbrev Restricts : Bool → SelectBuilder → SelectBuilder → (SelectRow → Bool) → Type 0
Restricts base_where b c restriction =
    IsReady base_where c
    × ((row : SelectRow) → selected c row ≡ (selected b row && restriction row))

push_condition-Restricts :
    (base_where : Bool) (b c : SelectBuilder) (q : Condition) (restriction : SelectRow → Bool)
    → Prepared base_where b c
    → IsBoundBy (length c.params) q
    → ((row : SelectRow) → is_true (holds c.params q row) ≡ restriction row)
    → Restricts base_where b (push_condition q c) restriction
unfolding push_condition selects
push_condition-Restricts base_where b c q restriction (there, (place, kinds, bounds), same) bound
      means =
    (
      (
        rw there (query_place-append base_where wanting c.select (condition q ∷ []) place),
        kinds,
        AllBound-append (length c.params) c.select (condition q ∷ []) bounds (bound, tt),
      ),
      λ row.
          rw (← same row, ← means row)
            (ground (arith, selects-append c.params c.select (condition q ∷ []) row)),
    )

-- The operators on a label that a row has or not.
equals_means :
    (o : Option String) (v : String)
    → is_true (equals o (some v)) ≡ (elim o [ none ↦ false | some w ↦ w == v ])
equals_means none v = refl
equals_means (some w) v = refl

differs_means :
    (o : Option String) (v : String)
    → is_true (negated (equals o (some v))) ≡ (elim o [ none ↦ false | some w ↦ not (w == v) ])
differs_means none v = refl
differs_means (some w) v = refl

any_means :
    (o : Option String) (vs : List String)
    → is_true (equals_any o (some vs)) ≡ (elim o [ none ↦ false | some w ↦ any (λ v. w == v) vs ])
any_means none [] = refl
any_means (some w) [] = refl
any_means none (v ∷ vs) = refl
any_means (some w) (v ∷ vs) = refl

misses_means :
    (o : Option String) (vs : List String)
    → is_true (negated (equals_any o (some vs)))
      ≡ (is_empty vs || elim o [ none ↦ false | some w ↦ not (any (λ v. w == v) vs) ])
misses_means none [] = refl
misses_means (some w) [] = refl
misses_means none (v ∷ vs) = refl
misses_means (some w) (v ∷ vs) = refl

label-Restricts :
    (base_where : Bool) (op : Operation) (b : SelectBuilder)
    → IsReady base_where b
    → Restricts base_where b (label op b) (matches op)
unfolding label with_one with_two
label-Restricts base_where (label_exists l) b ready =
    let c = with_one b (text l) varchar in
    push_condition-Restricts base_where b c (has_label (length c.params)) (matches (label_exists l))
      (with_one-Prepared base_where b (text l) varchar refl ready) (omega arith)
      (λ row. rw (params_of_one b (text l) varchar) refl)
label-Restricts base_where (label_not_exists l) b ready =
    let c = with_one b (text l) varchar in
    push_condition-Restricts base_where b c (has_no_label (length c.params))
      (matches (label_not_exists l)) (with_one-Prepared base_where b (text l) varchar refl ready)
      (omega arith) (λ row. rw (params_of_one b (text l) varchar) refl)
label-Restricts base_where (label_eq l v) b ready =
    let c = with_two b (text l) (text v) varchar in
    let (first, second) = params_of_two b (text l) (text v) varchar in
    push_condition-Restricts base_where b c (label_is (length c.params - 1) (length c.params))
      (matches (label_eq l v))
      (with_two-Prepared base_where b (text l) (text v) varchar refl refl ready)
      (omega arith, omega arith) (λ row. rw (first, second) (equals_means (get l row.row_labels) v))
label-Restricts base_where (label_not_eq l v) b ready =
    let c = with_two b (text l) (text v) varchar in
    let (first, second) = params_of_two b (text l) (text v) varchar in
    push_condition-Restricts base_where b c (label_is_not (length c.params - 1) (length c.params))
      (matches (label_not_eq l v))
      (with_two-Prepared base_where b (text l) (text v) varchar refl refl ready)
      (omega arith, omega arith)
      (λ row. rw (first, second) (differs_means (get l row.row_labels) v))
label-Restricts base_where (label_in l vs) b ready =
    let c = with_two b (text l) (texts vs) varchar_array in
    let (first, second) = params_of_two b (text l) (texts vs) varchar_array in
    push_condition-Restricts base_where b c (label_any (length c.params - 1) (length c.params))
      (matches (label_in l vs))
      (with_two-Prepared base_where b (text l) (texts vs) varchar_array refl refl ready)
      (omega arith, omega arith) (λ row. rw (first, second) (any_means (get l row.row_labels) vs))
label-Restricts base_where (label_not_in l vs) b ready =
    let c = with_two b (text l) (texts vs) varchar_array in
    let (first, second) = params_of_two b (text l) (texts vs) varchar_array in
    push_condition-Restricts base_where b c (label_not_any (length c.params - 1) (length c.params))
      (matches (label_not_in l vs))
      (with_two-Prepared base_where b (text l) (texts vs) varchar_array refl refl ready)
      (omega arith, omega arith)
      (λ row. rw (first, second) (misses_means (get l row.row_labels) vs))

labels-Restricts :
    (base_where : Bool) (ops : List Operation) (b : SelectBuilder)
    → IsReady base_where b
    → Restricts base_where b (labels ops b) (all_match ops)
unfolding labels
labels-Restricts base_where [] b ready = (ready, λ row. ground arith)
labels-Restricts base_where (op ∷ ops) b ready =
    let (first, one) = label-Restricts base_where op b ready in
    let (all_ready, all) = labels-Restricts base_where ops (label op b) first in
    (all_ready, λ row. ground (arith, one row, all row))

-- A builder whose text so far is well formed, whose conditions are on parameters that it has, with
-- the types of these, and whose `have_where` is true exactly if there is a condition, stays so when the requirements of a
-- label selector are added. The query that is built then is well formed (WHERE stands before the
-- first condition and AND before each other one, and each parameter has its type), and selects, of the rows that the builder selected,
-- those that match every requirement.
pub labels-selected :
    (base_where : Bool) (ops : List Operation) (b : SelectBuilder)
    → IsReady base_where b
    → IsReady base_where (labels ops b)
      × ((row : SelectRow)
          → answer base_where (build (labels ops b)) row
            ≡ some (selected b row && all_match ops row))
labels-selected base_where ops b ready =
    let (all_ready, all) = labels-Restricts base_where ops b ready in
    (all_ready, λ row. build-answer base_where (labels ops b) all_ready row ∙ ap some (all row))

-- A builder that is ready stays so when `auth_read` adds its condition, and then selects, of the rows
-- that it selected, those that the user may read by `auth_read` of Authz.
auth_read-selected :
    (base_where : Bool) (user : Option UserInformation) (b : SelectBuilder)
    → IsReady base_where b
    → Restricts base_where b
        (auth_read user b)
        (λ row. Authz.auth_read user (record { owner = row.owner; members = row.members }))
unfolding auth_read Authz.auth_read with_one
auth_read-selected base_where none b ready = (ready, λ row. ground arith)
auth_read-selected base_where (some user) b ready = elim (Bool-cases (is_admin user)) [
  | inl admin ↦ (rw admin ready, λ row. rw admin (ground arith))
  | inr member ↦
      let id : String = elim user [ authenticated details ↦ details.user_id | anonymous ↦ "" ] in
      let c = with_one b (text id) varchar in
      rw member (
        push_condition-Restricts base_where b c (owner_or_member (length c.params)) (readable id)
          (with_one-Prepared base_where b (text id) varchar refl ready) (omega arith)
          (λ row. rw (params_of_one b (text id) varchar) refl))
]
  where
    readable : String → SelectRow → Bool
    readable id row =
        let is_owner : Bool = elim row.owner [ none ↦ false | some holder ↦ holder == id ] in
        is_owner || is_some (get id row.members) || is_some (get "" row.members)
