-- ===== src/Registry/Select.antt =====
-- database-common/src/models/sql.rs: `SelectBuilder`, which collects the conditions of a query and its
-- parameters. The text of a query is a list of fragments here; a condition names its parameters by
-- their number, from 1.
pub mod Meaning
pub mod Selecting
pub mod Preparing
pub mod Labels
pub mod Tests
use drogue_cloud.Base.{
  ℕ, ◌-◌, String, Bool, true, false, List, [], ◌∷◌, ◌++◌, Option, none, some, is_empty, length,
  if◌then◌else◌,
}
use drogue_cloud.Authz.{UserInformation, authenticated, anonymous, is_admin}

-- A requirement of a label selector (service-api/src/labels/mod.rs)
pub data Operation : Type 0 where
  label_eq label_not_eq : String → String → Operation
  label_in label_not_in : String → List String → Operation
  label_exists label_not_exists : String → Operation

pub data Lock : Type 0 where
  no_lock for_update for_share : Lock

pub data Param : Type 0 where
  text : String → Param
  texts : List String → Param

pub data SqlType : Type 0 where
  varchar varchar_array : SqlType

pub data Condition : Type 0 where
  owner_or_member name_is has_label has_no_label : ℕ → Condition
  label_is label_is_not label_any label_not_any : ℕ → ℕ → Condition

pub data Fragment : Type 0 where
  sql : String → Fragment
  where_keyword and_keyword : Fragment
  condition : Condition → Fragment
  order_by : List String → Fragment
  limit_to offset_by : ℕ → Fragment
  lock_rows : Lock → Fragment

pub record SelectBuilder : Type 0 where
  pub select : List Fragment
  pub params : List Param
  pub types : List SqlType
  pub have_where : Bool
  pub sort : List String
  pub lock : Lock
  pub limit : Option ℕ
  pub offset : Option ℕ

unfoldable pub new : String → List Param → List SqlType → SelectBuilder
new select params types = record {
  select = sql select ∷ [];
  params = params;
  types = types;
  have_where = false;
  sort = [];
  lock = no_lock;
  limit = none;
  offset = none;
}

unfoldable pub has_where : SelectBuilder → SelectBuilder
has_where b = record b { have_where = true }

unfoldable pub ensure_where_or_and : SelectBuilder → SelectBuilder
ensure_where_or_and b =
    if b.have_where
    then record b { select = b.select ++ and_keyword ∷ [] }
    else record b { select = b.select ++ where_keyword ∷ []; have_where = true }

-- A parameter with its type.
unfoldable pub push : Param → SqlType → SelectBuilder → SelectBuilder
push param type b = record b { params = b.params ++ param ∷ []; types = b.types ++ type ∷ [] }

unfoldable pub push_condition : Condition → SelectBuilder → SelectBuilder
push_condition c b = record b { select = b.select ++ condition c ∷ [] }

-- A condition on the last parameter, and one on the last two.
abbrev pub on_last : (ℕ → Condition) → SelectBuilder → SelectBuilder
on_last c b = push_condition (c (length b.params)) b

abbrev pub on_last_two : (ℕ → ℕ → Condition) → SelectBuilder → SelectBuilder
on_last_two c b = push_condition (c (length b.params - 1) (length b.params)) b

unfoldable pub auth_read : Option UserInformation → SelectBuilder → SelectBuilder
unfolding ensure_where_or_and push push_condition
auth_read none b = b
auth_read (some user) b =
    let id : String = elim user [ authenticated details ↦ details.user_id | anonymous ↦ "" ] in
    if is_admin user
    then b
    else on_last owner_or_member (push (text id) varchar (ensure_where_or_and b))

unfoldable pub name : Option String → SelectBuilder → SelectBuilder
unfolding ensure_where_or_and push push_condition
name none b = b
name (some n) b = on_last name_is (push (text n) varchar (ensure_where_or_and b))

unfoldable pub label : Operation → SelectBuilder → SelectBuilder
unfolding ensure_where_or_and push push_condition
label (label_exists l) b = on_last has_label (push (text l) varchar (ensure_where_or_and b))
label (label_not_exists l) b = on_last has_no_label (push (text l) varchar (ensure_where_or_and b))
label (label_eq l v) b =
    on_last_two label_is (push (text v) varchar (push (text l) varchar (ensure_where_or_and b)))
label (label_not_eq l v) b =
    on_last_two label_is_not (push (text v) varchar (push (text l) varchar (ensure_where_or_and b)))
label (label_in l vs) b =
    on_last_two label_any
      (push (texts vs) varchar_array (push (text l) varchar (ensure_where_or_and b)))
label (label_not_in l vs) b =
    on_last_two label_not_any
      (push (texts vs) varchar_array (push (text l) varchar (ensure_where_or_and b)))

unfoldable pub labels : List Operation → SelectBuilder → SelectBuilder
unfolding label
labels [] b = b
labels (op ∷ ops) b = labels ops (label op b)

abbrev pub optional : {A : Type 0} → Option A → (A → Fragment) → List Fragment
optional none f = []
optional (some a) f = f a ∷ []

abbrev pub sorted_by : List String → List Fragment
sorted_by [] = []
sorted_by (s ∷ sort) = order_by (s ∷ sort) ∷ []

unfoldable pub build : SelectBuilder → List Fragment × List Param × List SqlType
build b = (
  b.select
      ++ sorted_by b.sort
      ++ optional b.limit limit_to
      ++ optional b.offset offset_by
      ++ lock_rows b.lock ∷ [],
  b.params,
  b.types,
)
