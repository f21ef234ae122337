-- ===== src/Operator/Queue/Keys.antt =====
-- operator-common/src/controller/base/mod.rs: the keys of controllers, names of applications and pairs of
-- an application and a device.
use Prim.Native.Nat.{compare}
use Prim.Native.String.{◌++◌ as str_append, len, slice, find}
use text.Mathlib.Text.{find?, is_le}
use text.Mathlib.TextFind.{find_cases, Hit}
use text.Mathlib.TextPositions.{slice-append_left, slice-append_right, len-append}
use text.Mathlib.TextLemmas.{append_assoc}
use drogue_cloud.Base.{
  ℕ, ◌+◌, ◌≤◌, String, ◌≡◌, sym, ap, ◌∙◌, Option, none, some, is_some, arith, if◌then◌else◌,
  Option-cases, Bool-cases, inl, inr,
}
use drogue_cloud.Operator.Queue.{Key}

pub string_reads : (text key : String) → some text ≡ some key → key ≡ text
string_reads text key h = ground (arith, h)

-- `impl Key for String`
abbrev pub string_key : Key String
string_key = record {
  to_string = λ key. key;
  from_string = λ text. some text;
  to_string-from_string = string_reads;
}

abbrev pub pair_text : String × String → String
pair_text key = str_append key.0 (str_append "/" key.1)

-- Two parts, with one slash between them.
abbrev pub pair_from : String → Option (String × String)
pair_from s = elim (find? s "/") [
  | none ↦ none
  | some i ↦
      let rest = slice s (i + 1) (len s) in
      if is_some (find? rest "/") then none else some (slice s 0 i, rest)
]

parts_of_Hit :
    (s : String) (hit : Hit s "/")
    → pair_text (slice s 0 (find s "/"), slice s (find s "/" + 1) (len s)) ≡ s
parts_of_Hit s (u, v, parts, at) =
    ap (λ a. str_append a (str_append "/" (slice s (find s "/" + 1) (len s)))) before
    ∙ ap (λ b. str_append u (str_append "/" b)) after
    ∙ sym parts
  where
    before : slice s 0 (find s "/") ≡ u
    before =
        ap (λ k. slice s 0 k) at
        ∙ ap (λ w. slice w 0 (len u)) parts
        ∙ slice-append_left u (str_append "/" v)

    joined : s ≡ str_append (str_append u "/") v
    joined = parts ∙ sym (append_assoc u "/" v)

    start : find s "/" + 1 ≡ len (str_append u "/")
    start = ap (λ k. k + 1) at ∙ sym (len-append u "/")

    end : len s ≡ len (str_append u "/") + len v
    end = ap len joined ∙ len-append (str_append u "/") v

    after : slice s (find s "/" + 1) (len s) ≡ v
    after =
        ap (λ k. slice s k (len s)) start
        ∙ ap (λ k. slice s (len (str_append u "/")) k) end
        ∙ ap (λ w. slice w (len (str_append u "/")) (len (str_append u "/") + len v)) joined
        ∙ slice-append_right (str_append u "/") v

find?_lem : (s : String) (i : ℕ) → find? s "/" ≡ some i → (find s "/" ≡ i) × (find s "/" ≤ len s)
find?_lem s i h = elim (Bool-cases (is_le (compare (find s "/") (len s)))) [
  | inl small ↦ (ground (arith, h, small), ground (arith, small))
  | inr past ↦ absurd (ground (arith, h, past))
]

hit_of : (s : String) → find s "/" ≤ len s → Hit s "/"
hit_of s small = elim (find_cases s "/") [
  | inl hit ↦ hit
  | inr miss ↦ absurd (omega (arith, small, miss))
]

pub pair_reads :
    (text : String) (key : String × String) → pair_from text ≡ some key → pair_text key ≡ text
pair_reads text key h = elim (Option-cases (find? text "/")) [
  | inl absent ↦ absurd (ground (arith, h, absent))
  | inr (i, there) ↦
      let (at, small) = find?_lem text i there in
      let hit = hit_of text small in
      let parts : pair_text (slice text 0 i, slice text (i + 1) (len text)) ≡ text =
        rw (← at) (parts_of_Hit text hit) in
      elim (Bool-cases (is_some (find? (slice text (i + 1) (len text)) "/"))) [
        | inl more ↦ absurd (ground (arith, h, there, more))
        | inr last ↦ ground (arith, h, there, last, parts)
      ]
]

-- `impl Key for (String, String)`
abbrev pub pair_key : Key (String × String)
pair_key = record {
  to_string = pair_text;
  from_string = pair_from;
  to_string-from_string = pair_reads;
}
