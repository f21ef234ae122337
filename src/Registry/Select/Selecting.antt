-- ===== src/Registry/Select/Selecting.antt =====
-- database-common/src/models/sql.rs: what is added to a query leaves what is there as it was.
use drogue_cloud.Base.{
  ℕ, zero, suc, ◌≤◌, ◌≡◌, refl, ◌&&◌, List, [], ◌∷◌, ◌++◌, Option, none, some, Bool, true, false,
  String, length, arith, Option-cases, inl, inr, string_eq,
}
use drogue_cloud.Registry.Select.{
  Param, Condition, owner_or_member, name_is, has_label, has_no_label, label_is, label_is_not,
  label_any, label_not_any, Fragment, condition, sql, where_keyword, and_keyword, order_by,
  limit_to, offset_by, lock_rows, Lock, SqlType, sorted_by, optional,
}
use drogue_cloud.Registry.Select.Meaning.{
  SelectRow, param_at, holds, selects, IsBoundBy, AllBound, Place, follow, places, start_place,
  query_place, is_complete, has_type, typed,
}

-- A parameter keeps its number when others come after it.
pub param_at-append :
    (n : ℕ) (ps qs : List Param) → n ≤ length ps → param_at n (ps ++ qs) ≡ param_at n ps
param_at-append zero [] [] small = refl
param_at-append zero [] (q ∷ qs) small = refl
param_at-append (suc n) [] qs small = absurd (ground (arith, small))
param_at-append zero (p ∷ ps) qs small = refl
param_at-append (suc zero) (p ∷ ps) qs small = refl
param_at-append (suc (suc n)) (p ∷ ps) qs small =
    param_at-append (suc n) ps qs (omega (arith, small))

pub param_at_end :
    (ps : List Param) (p : Param) → param_at (suc (length ps)) (ps ++ p ∷ []) ≡ some p
param_at_end [] p = refl
param_at_end (q ∷ ps) p = param_at_end ps p

holds-append :
    (c : Condition) (ps qs : List Param) (row : SelectRow)
    → IsBoundBy (length ps) c
    → holds (ps ++ qs) c row ≡ holds ps c row
holds-append (owner_or_member n) ps qs row small = rw (param_at-append n ps qs small) refl
holds-append (name_is n) ps qs row small = rw (param_at-append n ps qs small) refl
holds-append (has_label n) ps qs row small = rw (param_at-append n ps qs small) refl
holds-append (has_no_label n) ps qs row small = rw (param_at-append n ps qs small) refl
holds-append (label_is n m) ps qs row small =
    rw (param_at-append n ps qs small.0, param_at-append m ps qs small.1) refl
holds-append (label_is_not n m) ps qs row small =
    rw (param_at-append n ps qs small.0, param_at-append m ps qs small.1) refl
holds-append (label_any n m) ps qs row small =
    rw (param_at-append n ps qs small.0, param_at-append m ps qs small.1) refl
holds-append (label_not_any n m) ps qs row small =
    rw (param_at-append n ps qs small.0, param_at-append m ps qs small.1) refl

pub selects-append_params :
    (fs : List Fragment) (ps qs : List Param) (row : SelectRow)
    → AllBound (length ps) fs
    → selects (ps ++ qs) fs row ≡ selects ps fs row
unfolding selects
selects-append_params [] ps qs row small = refl
selects-append_params (condition c ∷ fs) ps qs row small =
    rw (holds-append c ps qs row small.0, selects-append_params fs ps qs row small.1) refl
selects-append_params (sql s ∷ fs) ps qs row small = selects-append_params fs ps qs row small
selects-append_params (where_keyword ∷ fs) ps qs row small =
    selects-append_params fs ps qs row small
selects-append_params (and_keyword ∷ fs) ps qs row small = selects-append_params fs ps qs row small
selects-append_params (order_by s ∷ fs) ps qs row small = selects-append_params fs ps qs row small
selects-append_params (limit_to n ∷ fs) ps qs row small = selects-append_params fs ps qs row small
selects-append_params (offset_by n ∷ fs) ps qs row small = selects-append_params fs ps qs row small
selects-append_params (lock_rows l ∷ fs) ps qs row small = selects-append_params fs ps qs row small

pub selects-append :
    (ps : List Param) (fs gs : List Fragment) (row : SelectRow)
    → selects ps (fs ++ gs) row ≡ (selects ps fs row && selects ps gs row)
unfolding selects
selects-append ps [] gs row = refl
selects-append ps (condition c ∷ fs) gs row = ground (arith, selects-append ps fs gs row)
selects-append ps (sql s ∷ fs) gs row = selects-append ps fs gs row
selects-append ps (where_keyword ∷ fs) gs row = selects-append ps fs gs row
selects-append ps (and_keyword ∷ fs) gs row = selects-append ps fs gs row
selects-append ps (order_by s ∷ fs) gs row = selects-append ps fs gs row
selects-append ps (limit_to n ∷ fs) gs row = selects-append ps fs gs row
selects-append ps (offset_by n ∷ fs) gs row = selects-append ps fs gs row
selects-append ps (lock_rows l ∷ fs) gs row = selects-append ps fs gs row

pub AllBound-le : (k m : ℕ) (fs : List Fragment) → k ≤ m → AllBound k fs → AllBound m fs
AllBound-le k m [] le all = tt
AllBound-le k m (condition c ∷ fs) le all = (bound c all.0, AllBound-le k m fs le all.1)
  where
    bound : (c : Condition) → IsBoundBy k c → IsBoundBy m c
    bound (owner_or_member n) small = omega (arith, small, le)
    bound (name_is n) small = omega (arith, small, le)
    bound (has_label n) small = omega (arith, small, le)
    bound (has_no_label n) small = omega (arith, small, le)
    bound (label_is n i) small = (omega (arith, small.0, le), omega (arith, small.1, le))
    bound (label_is_not n i) small = (omega (arith, small.0, le), omega (arith, small.1, le))
    bound (label_any n i) small = (omega (arith, small.0, le), omega (arith, small.1, le))
    bound (label_not_any n i) small = (omega (arith, small.0, le), omega (arith, small.1, le))
AllBound-le k m (sql s ∷ fs) le all = AllBound-le k m fs le all
AllBound-le k m (where_keyword ∷ fs) le all = AllBound-le k m fs le all
AllBound-le k m (and_keyword ∷ fs) le all = AllBound-le k m fs le all
AllBound-le k m (order_by s ∷ fs) le all = AllBound-le k m fs le all
AllBound-le k m (limit_to n ∷ fs) le all = AllBound-le k m fs le all
AllBound-le k m (offset_by n ∷ fs) le all = AllBound-le k m fs le all
AllBound-le k m (lock_rows l ∷ fs) le all = AllBound-le k m fs le all

pub AllBound-append :
    (k : ℕ) (fs gs : List Fragment) → AllBound k fs → AllBound k gs → AllBound k (fs ++ gs)
AllBound-append k [] gs all more = more
AllBound-append k (condition c ∷ fs) gs all more = (all.0, AllBound-append k fs gs all.1 more)
AllBound-append k (sql s ∷ fs) gs all more = AllBound-append k fs gs all more
AllBound-append k (where_keyword ∷ fs) gs all more = AllBound-append k fs gs all more
AllBound-append k (and_keyword ∷ fs) gs all more = AllBound-append k fs gs all more
AllBound-append k (order_by s ∷ fs) gs all more = AllBound-append k fs gs all more
AllBound-append k (limit_to n ∷ fs) gs all more = AllBound-append k fs gs all more
AllBound-append k (offset_by n ∷ fs) gs all more = AllBound-append k fs gs all more
AllBound-append k (lock_rows l ∷ fs) gs all more = AllBound-append k fs gs all more

places-append :
    (place next : Place) (fs gs : List Fragment)
    → places place fs ≡ some next
    → places place (fs ++ gs) ≡ places next gs
places-append place next [] gs h = ground (arith, h)
places-append place next (f ∷ fs) gs h = elim (Option-cases (follow place f)) [
  | inl e ↦ absurd (ground (arith, e, h))
  | inr (one, e) ↦ rw (places, e) (places-append one next fs gs (rw (places, e) at h))
]

pub query_place-append :
    (base_where : Bool) (place : Place) (fs gs : List Fragment)
    → query_place base_where fs ≡ some place
    → query_place base_where (fs ++ gs) ≡ places place gs
query_place-append base_where place (sql s ∷ fs) gs h =
    places-append (start_place base_where) place fs gs h
query_place-append base_where place [] gs h = absurd (ground (arith, h))
query_place-append base_where place (f ∷ fs) gs h = absurd (ground (arith, h))

-- The order, the limits and the lock may follow any complete conditions.
pub closes :
    (have_where : Bool) (sort : List String) (limit offset : Option ℕ) (lock : Lock)
    → is_complete (
        places (start_place have_where) (
          sorted_by sort
          ++ optional limit limit_to
          ++ optional offset offset_by
          ++ lock_rows lock ∷ []))
      ≡ true
closes true [] none none lock = refl
closes true [] none (some m) lock = refl
closes true [] (some n) none lock = refl
closes true [] (some n) (some m) lock = refl
closes true (s ∷ sort) none none lock = refl
closes true (s ∷ sort) none (some m) lock = refl
closes true (s ∷ sort) (some n) none lock = refl
closes true (s ∷ sort) (some n) (some m) lock = refl
closes false [] none none lock = refl
closes false [] none (some m) lock = refl
closes false [] (some n) none lock = refl
closes false [] (some n) (some m) lock = refl
closes false (s ∷ sort) none none lock = refl
closes false (s ∷ sort) none (some m) lock = refl
closes false (s ∷ sort) (some n) none lock = refl
closes false (s ∷ sort) (some n) (some m) lock = refl

-- They are no conditions.
pub selects_closing :
    (ps : List Param) (sort : List String) (limit offset : Option ℕ) (lock : Lock) (row : SelectRow)
    → selects ps
        (sorted_by sort
          ++ optional limit limit_to
          ++ optional offset offset_by
          ++ lock_rows lock ∷ [])
        row
      ≡ true
unfolding selects
selects_closing ps [] none none lock row = refl
selects_closing ps [] none (some m) lock row = refl
selects_closing ps [] (some n) none lock row = refl
selects_closing ps [] (some n) (some m) lock row = refl
selects_closing ps (s ∷ sort) none none lock row = refl
selects_closing ps (s ∷ sort) none (some m) lock row = refl
selects_closing ps (s ∷ sort) (some n) none lock row = refl
selects_closing ps (s ∷ sort) (some n) (some m) lock row = refl

pub typed-append :
    (ps : List Param) (ts : List SqlType) (p : Param) (t : SqlType)
    → typed ps ts ≡ true
    → has_type p t ≡ true
    → typed (ps ++ p ∷ []) (ts ++ t ∷ []) ≡ true
typed-append [] [] p t h one = ground (arith, one)
typed-append [] (u ∷ ts) p t h one = absurd (ground (arith, h))
typed-append (q ∷ ps) [] p t h one = absurd (ground (arith, h))
typed-append (q ∷ ps) (u ∷ ts) p t h one =
    ground (arith, h, typed-append ps ts p t (ground (arith, h)) one)
