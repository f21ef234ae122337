-- ===== src/Mqtt/Topics.antt =====
-- `str::split('/')` and `str::split_once('/')`, as the MQTT dialects use them, and the levels of a
-- topic, which MQTT (section 4.7 of the specification) matches with those of a topic filter.
use Prim.Native.Char.{Char}
use Prim.Native.String.{[] as str_nil, ◌∷◌ as str_cons, ◌++◌ as str_append}
use text.Mathlib.TextLemmas.{cons-append, nil-append}
use drogue_cloud.Base.{
  String, ◌≡◌, refl, Bool, true, false, ◌||◌, ◌&&◌, List, [], ◌∷◌, ◌++◌, Option, none, some, arith,
  if◌then◌else◌, All, string_eq, ◌==◌, string_beq_iff, Bool-cases, Option-cases, inl, inr,
}

-- Whether a character is the separator.
abbrev pub is_slash : Char → Bool
is_slash c = str_cons c str_nil == "/"

-- A character before the first level. There is always one.
unfoldable pub push : Char → List String → List String
push c [] = str_cons c str_nil ∷ []
push c (level ∷ levels) = str_cons c level ∷ levels

unfoldable pub split : String → List String
unfolding push
split String.[] = "" ∷ []
split (String.◌∷◌ c s) = let rest = split s in if is_slash c then "" ∷ rest else push c rest

unfoldable pub push_pair : Char → Option (String × String) → Option (String × String)
push_pair c none = none
push_pair c (some (before, after)) = some (str_cons c before, after)

unfoldable pub split_once : String → Option (String × String)
unfolding push_pair
split_once String.[] = none
split_once (String.◌∷◌ c s) =
    let rest = split_once s in if is_slash c then some ("", s) else push_pair c rest

-- The levels with a separator between them.
abbrev pub join : List String → String
join [] = ""
join (level ∷ []) = level
join (level ∷ next ∷ levels) = str_append level (str_append "/" (join (next ∷ levels)))

-- Which names a topic filter stands for: "#" is for all levels that are left, "+" for any one.
unfoldable pub level_match : List String → List String → Bool
level_match [] [] = true
level_match [] (level ∷ levels) = false
level_match (f ∷ fs) [] = f == "#"
level_match (f ∷ fs) (level ∷ levels) =
    f == "#" || ((f == "+" || f == level) && level_match fs levels)

-- No character is the separator.
unfoldable pub is_level : String → Bool
is_level String.[] = true
is_level (String.◌∷◌ c s) = if is_slash c then false else is_level s

pub split-cons :
    (s : String) → (level : String) × (levels : List String) × (split s ≡ level ∷ levels)
unfolding split
split-cons String.[] = ("", [], refl)
split-cons (String.◌∷◌ c s) =
    let (level, levels, e) = split-cons s in
    elim (Bool-cases (is_slash c)) [
      | inl p ↦ ("", split s, ground (arith, p))
      | inr p ↦ (str_cons c level, levels, ground (arith, p, e))
    ]

-- A separator between two texts separates their levels.
pub split-append : (s t : String) → split (str_append s (str_append "/" t)) ≡ split s ++ split t
unfolding split
split-append String.[] t = rw (nil-append (str_append "/" t), cons-append, nil-append t) refl
split-append (String.◌∷◌ c s) t =
    let (level, levels, e) = split-cons s in
    rw cons-append (elim (Bool-cases (is_slash c)) [
      | inl p ↦ ground (arith, p, split-append s t)
      | inr p ↦ ground (arith, p, e, split-append s t)
    ])

pub split-is_level : (s : String) → is_level s ≡ true → split s ≡ s ∷ []
unfolding split is_level
split-is_level String.[] h = refl
split-is_level (String.◌∷◌ c s) h = ground (arith, split-is_level s)

-- What `split` gives are levels.
pub split-All : (s : String) → All (λ level. is_level level ≡ true) (split s)
unfolding split is_level push
split-All String.[] = (refl, tt)
split-All (String.◌∷◌ c s) =
    let (level, levels, e) = split-cons s in
    let rest = rw e at (split-All s) in
    elim (Bool-cases (is_slash c)) [ inl p ↦ rw (p, e) (refl, rest) | inr p ↦ rw (p, e, p) rest ]

slash_lem : (c : Char) (s : String) → is_slash c ≡ true → str_append "/" s ≡ str_cons c s
slash_lem c s h =
    rw (← ((string_beq_iff (str_cons c str_nil) "/").0 h), cons-append, nil-append) refl

join-push :
    (c : Char) (level : String) (levels : List String)
    → join (push c (level ∷ levels)) ≡ str_cons c (join (level ∷ levels))
unfolding push
join-push c level [] = refl
join-push c level (next ∷ levels) = cons-append _ _ _

pub join-split : (s : String) → join (split s) ≡ s
unfolding split
join-split String.[] = refl
join-split (String.◌∷◌ c s) =
    let (level, levels, e) = split-cons s in
    elim (Bool-cases (is_slash c)) [
      | inl p ↦ ground (arith, p, e, join-split s, slash_lem c s p, nil-append (str_append "/" s))
      | inr p ↦ ground (arith, p, e, join-split s, join-push c level levels)
    ]

pub split_once_lem :
    (s before after : String)
    → split_once s ≡ some (before, after)
    → s ≡ str_append before (str_append "/" after)
unfolding split_once push_pair
split_once_lem String.[] before after h = cc
split_once_lem (String.◌∷◌ c s) before after h = elim (Bool-cases (is_slash c)) [
  | inl p ↦ ground (arith, p, slash_lem c s p, nil-append (str_append "/" s))
  | inr p ↦ elim (Option-cases (split_once s)) [
    | inl e ↦ absurd (ground (arith, p, e))
    | inr ((b, a), e) ↦
        ground (arith, p, e, split_once_lem s b a e, cons-append c b (str_append "/" a))
  ]
]

-- What comes before the first separator is a level.
pub split_once-is_level :
    (s before after : String) → split_once s ≡ some (before, after) → is_level before ≡ true
unfolding split_once push_pair is_level
split_once-is_level String.[] before after h = absurd (ground (arith, h))
split_once-is_level (String.◌∷◌ c s) before after h = elim (Bool-cases (is_slash c)) [
  | inl p ↦ let is : "" ≡ before = ground (arith, p, h) in rw (← is) refl
  | inr p ↦ elim (Option-cases (split_once s)) [
    | inl e ↦ absurd (ground (arith, p, e))
    | inr ((b, a), e) ↦
        let is : str_cons c b ≡ before = ground (arith, p, e, h) in
        rw (← is, p) (split_once-is_level s b a e)
  ]
]

pub split_once-append :
    (s t : String) → is_level s ≡ true → split_once (str_append s (str_append "/" t)) ≡ some (s, t)
unfolding split_once push_pair is_level
split_once-append String.[] t h = rw (nil-append (str_append "/" t), cons-append, nil-append t) refl
split_once-append (String.◌∷◌ c s) t h = rw cons-append (elim (Bool-cases (is_slash c)) [
  | inl p ↦ absurd (ground (arith, p, h))
  | inr p ↦ ground (arith, p, split_once-append s t)
])
