-- ===== src/Registry/Select/Preparing.antt =====
-- database-common/src/models/sql.rs: the conditions of a query are put where they may stand, on
-- parameters that are there.
use mathlib.Core.List.{append_assoc}
use drogue_cloud.Base.{
  suc, ◌-◌, ◌≡◌, refl, ◌∙◌, Bool, true, List, [], ◌∷◌, ◌++◌, some, length, length-append, arith,
  string_eq, Bool-cases, inl, inr,
}
use drogue_cloud.Registry.Select.{
  Param, where_keyword, and_keyword, SelectBuilder, ensure_where_or_and, push, SqlType, varchar,
  build, sorted_by, optional, limit_to, offset_by, lock_rows,
}
use drogue_cloud.Registry.Select.Meaning.{
  SelectRow, param_at, selects, AllBound, Place, unfiltered, wanting, filtered, start_place,
  query_place, answer, typed, has_type,
}
use drogue_cloud.Registry.Select.Selecting.{
  param_at-append, param_at_end, selects-append_params, selects-append, AllBound-le,
  query_place-append, closes, selects_closing, typed-append, AllBound-append,
}

-- A builder whose text was read up to a place, with conditions on parameters that it has, and the types
-- of its parameters.
abbrev pub IsAt : Bool → Place → SelectBuilder → Type 0
IsAt base_where place b =
    (query_place base_where b.select ≡ some place)
    × (typed b.params b.types ≡ true)
    × AllBound (length b.params) b.select

-- The text of a query with conditions that are complete, if `have_where` says whether there are any;
-- `base_where` says whether the text that the query was made of has some.
abbrev pub IsReady : Bool → SelectBuilder → Type 0
IsReady base_where b = IsAt base_where (start_place b.have_where) b

abbrev pub selected : SelectBuilder → SelectRow → Bool
selected b row = selects b.params b.select row

-- A builder that a condition has to follow, and that selects what another one does.
abbrev pub Prepared : Bool → SelectBuilder → SelectBuilder → Type 0
Prepared base_where b c =
    (c.have_where ≡ true)
    × IsAt base_where wanting c
    × ((row : SelectRow) → selected c row ≡ selected b row)

ensure_where_or_and-Prepared :
    (base_where : Bool) (b : SelectBuilder)
    → IsReady base_where b
    → Prepared base_where b (ensure_where_or_and b)
unfolding ensure_where_or_and selects
ensure_where_or_and-Prepared base_where b (place, kinds, bound) = elim (Bool-cases b.have_where) [
  | inl there ↦ rw there (
    refl,
    (
      query_place-append base_where filtered b.select (and_keyword ∷ []) (rw there at place),
      kinds,
      AllBound-append (length b.params) b.select (and_keyword ∷ []) bound tt,
    ),
    λ row. ground (arith, selects-append b.params b.select (and_keyword ∷ []) row),
  )
  | inr absent ↦ rw absent (
    refl,
    (
      query_place-append base_where unfiltered b.select (where_keyword ∷ []) (rw absent at place),
      kinds,
      AllBound-append (length b.params) b.select (where_keyword ∷ []) bound tt,
    ),
    λ row. ground (arith, selects-append b.params b.select (where_keyword ∷ []) row),
  )
]

push-Prepared :
    (base_where : Bool) (p : Param) (t : SqlType) (b c : SelectBuilder)
    → has_type p t ≡ true
    → Prepared base_where b c
    → Prepared base_where b (push p t c)
unfolding push
push-Prepared base_where p t b c fits (there, (place, kinds, bound), same) = (
  there,
  (
    place,
    typed-append c.params c.types p t kinds fits,
    AllBound-le (length c.params) (length (c.params ++ p ∷ [])) c.select
        (ground (arith, length-append c.params (p ∷ []))) bound,
  ),
  λ row. selects-append_params c.select c.params (p ∷ []) row bound ∙ same row,
)

param_last :
    (ps : List Param) (p : Param) → param_at (length (ps ++ p ∷ [])) (ps ++ p ∷ []) ≡ some p
param_last ps p = rw (length_one) (param_at_end ps p)
  where
    length_one : length (ps ++ p ∷ []) ≡ suc (length ps)
    length_one = omega (arith, length-append ps (p ∷ []))

param_before_last :
    (ps : List Param) (p q : Param)
    → param_at (length ((ps ++ p ∷ []) ++ q ∷ []) - 1) ((ps ++ p ∷ []) ++ q ∷ []) ≡ some p
param_before_last ps p q = rw length_two (
    param_at-append (length (ps ++ p ∷ [])) (ps ++ p ∷ []) (q ∷ []) (omega arith) ∙ param_last ps p)
  where
    length_two : length ((ps ++ p ∷ []) ++ q ∷ []) - 1 ≡ length (ps ++ p ∷ [])
    length_two = omega (arith, length-append (ps ++ p ∷ []) (q ∷ []))

-- What a builder has after one parameter, or two.
unfoldable pub with_one : SelectBuilder → Param → SqlType → SelectBuilder
with_one b p t = push p t (ensure_where_or_and b)

pub with_one-Prepared :
    (base_where : Bool) (b : SelectBuilder) (p : Param) (t : SqlType)
    → has_type p t ≡ true
    → IsReady base_where b
    → Prepared base_where b (with_one b p t)
unfolding with_one
with_one-Prepared base_where b p t fits ready =
    push-Prepared base_where p t b (ensure_where_or_and b) fits
      (ensure_where_or_and-Prepared base_where b ready)

unfoldable pub with_two : SelectBuilder → Param → Param → SqlType → SelectBuilder
with_two b p q t = push q t (push p varchar (ensure_where_or_and b))

pub with_two-Prepared :
    (base_where : Bool) (b : SelectBuilder) (p q : Param) (t : SqlType)
    → has_type p varchar ≡ true
    → has_type q t ≡ true
    → IsReady base_where b
    → Prepared base_where b (with_two b p q t)
unfolding with_two with_one
with_two-Prepared base_where b p q t first second ready =
    push-Prepared base_where q t b (with_one b p varchar) second
      (with_one-Prepared base_where b p varchar first ready)

-- The parameters are the ones that the condition names.
pub params_of_one :
    (b : SelectBuilder) (p : Param) (t : SqlType)
    → param_at (length (with_one b p t).params) (with_one b p t).params ≡ some p
unfolding with_one push
params_of_one b p t = param_last (ensure_where_or_and b).params p

pub params_of_two :
    (b : SelectBuilder) (p q : Param) (t : SqlType)
    → (param_at (length (with_two b p q t).params - 1) (with_two b p q t).params ≡ some p)
      × (param_at (length (with_two b p q t).params) (with_two b p q t).params ≡ some q)
unfolding with_two push
params_of_two b p q t = (
  param_before_last (ensure_where_or_and b).params p q,
  param_last ((ensure_where_or_and b).params ++ p ∷ []) q,
)

-- The query of a ready builder is well formed.
pub build-answer :
    (base_where : Bool) (b : SelectBuilder)
    → IsReady base_where b
    → (row : SelectRow) → answer base_where (build b) row ≡ some (selected b row)
unfolding build
build-answer base_where b (place, kinds, bound) row =
    let closing =
      sorted_by b.sort
      ++ optional b.limit limit_to
      ++ optional b.offset offset_by
      ++ lock_rows b.lock ∷ [] in
    let text : (build b).0 ≡ b.select ++ closing = simp append_assoc in
    let whole = query_place-append base_where (start_place b.have_where) b.select closing place in
    rw (text, whole, closes b.have_where b.sort b.limit b.offset b.lock, kinds)
      (ground (
        arith,
        selects-append b.params b.select closing row,
        selects_closing b.params b.sort b.limit b.offset b.lock row,
      ))
