-- ===== src/Registry/Diff/Sound.antt =====
-- database-common/src/models/diff.rs: where no path differs, nothing that the paths cover does.
use drogue_cloud.Base.{
  String, ◌≡◌, refl, sym, ◌∙◌, ◌&&◌, List, [], ◌∷◌, ◌++◌, Option, none, some, is_some, arith,
  Option-cases, Bool-cases, inl, inr, PartialEq, string_eq, ◌==◌, list_beq, list_beq_iff,
  string_beq_iff,
}
use drogue_cloud.HashMap.{HashMap, get}
use drogue_cloud.Registry.{Section, fields, scalar, Sections, Entity}
use drogue_cloud.Registry.Diff.{
  path_of, changed_in, added_to, diff_maps, all_keys, diff_maps_data, diff_current, diff_new,
  diff_section, diff_paths,
}

-- The fields of a section that is not an object, or not there, are none.
abbrev pub field_in : {Json : Type 0} → String → Option (Section Json) → Option Json
field_in k none = none
field_in k (some (scalar v)) = none
field_in k (some (fields m)) = get k m

abbrev pub field_of : {Json : Type 0} → String → String → Sections Json → Option Json
field_of section k sections = field_in k (get section sections)

append_empty : {A : Type 0} → (xs ys : List A) → xs ++ ys ≡ [] → (xs ≡ []) × (ys ≡ [])
append_empty [] ys h = (refl, h)
append_empty (x ∷ xs) ys h = absurd (ground (arith, h))

module _ {Json : Type 0} ⦃e : PartialEq Json⦄ where
  changed_in-get :
      (prefix k : String) (new current : HashMap String Json) (v : Json)
      → changed_in prefix new current ≡ []
      → get k current ≡ some v
      → get k new ≡ some v
  unfolding changed_in get
  changed_in-get prefix k new [] v same is = absurd (ground (arith, is))
  changed_in-get prefix k new ((j, w) ∷ current) v same is = elim (Option-cases (get j new)) [
    | inl gone ↦ absurd (ground (arith, gone, same))
    | inr (u, there) ↦ ground (
      arith,
      there,
      same,
      is,
      e.equals_iff w u,
      string_beq_iff j k,
      changed_in-get prefix k new current v,
    )
  ]

  added_to-get :
      (prefix k : String) (current new : HashMap String Json)
      → added_to prefix current new ≡ []
      → get k current ≡ none
      → get k new ≡ none
  unfolding added_to get
  added_to-get prefix k current [] same is = refl
  added_to-get prefix k current ((j, w) ∷ new) same is =
      ground (arith, same, is, string_beq_iff j k, added_to-get prefix k current new)

  diff_maps-get :
      (prefix k : String) (current new : HashMap String Json)
      → diff_maps prefix current new ≡ []
      → get k current ≡ get k new
  unfolding diff_maps
  diff_maps-get prefix k current new same =
      let (changed, added) =
        append_empty (changed_in prefix new current) (added_to prefix current new) same in
      elim (Option-cases (get k current)) [
        | inl gone ↦ gone ∙ sym (added_to-get prefix k current new added gone)
        | inr (v, is) ↦ is ∙ sym (changed_in-get prefix k new current v changed is)
      ]

  all_keys-get :
      (prefix k : String) (m : HashMap String Json) → all_keys prefix m ≡ [] → get k m ≡ none
  unfolding all_keys get
  all_keys-get prefix k [] same = refl
  all_keys-get prefix k (entry ∷ m) same = absurd (ground (arith, same))

  diff_maps_data-field_in :
      (prefix k : String) (current new : Option (Section Json))
      → diff_maps_data prefix current new ≡ []
      → field_in k current ≡ field_in k new
  unfolding diff_maps_data
  diff_maps_data-field_in prefix k (some (fields m)) (some (fields n)) same =
      diff_maps-get prefix k m n same
  diff_maps_data-field_in prefix k (some (fields m)) (some (scalar v)) same =
      all_keys-get prefix k m same
  diff_maps_data-field_in prefix k (some (fields m)) none same = all_keys-get prefix k m same
  diff_maps_data-field_in prefix k (some (scalar v)) (some (fields n)) same =
      sym (all_keys-get prefix k n same)
  diff_maps_data-field_in prefix k (some (scalar v)) (some (scalar w)) same = refl
  diff_maps_data-field_in prefix k (some (scalar v)) none same = refl
  diff_maps_data-field_in prefix k none (some (fields n)) same = sym (all_keys-get prefix k n same)
  diff_maps_data-field_in prefix k none (some (scalar w)) same = refl
  diff_maps_data-field_in prefix k none none same = refl

  diff_current-field_in :
      (section k : String) (new current : Sections Json) (v : Section Json)
      → diff_current new current ≡ []
      → get section current ≡ some v
      → field_in k (some v) ≡ field_in k (get section new)
  unfolding diff_current get
  diff_current-field_in section k new [] v same is = absurd (ground (arith, is))
  diff_current-field_in section k new ((j, w) ∷ current) v same is =
      let (here, rest) =
        append_empty (diff_maps_data (path_of "" j) (some w) (get j new)) (diff_current new current)
          same in
      elim (Bool-cases (j == section)) [
        | inl hit ↦
            let w_is : w ≡ v = ground (arith, is, hit) in
            let at : j ≡ section = (string_beq_iff j section).0 hit in
            rw (← w_is, ← at) (diff_maps_data-field_in (path_of "" j) k (some w) (get j new) here)
        | inr miss ↦ diff_current-field_in section k new current v rest (ground (arith, is, miss))
      ]

  diff_new-field_in :
      (section k : String) (current new : Sections Json)
      → diff_new current new ≡ []
      → get section current ≡ none
      → field_in k (get section new) ≡ none
  unfolding diff_new get
  diff_new-field_in section k current [] same is = refl
  diff_new-field_in section k current ((j, w) ∷ new) same is =
      elim (Bool-cases (is_some (get j current))) [
        | inl known ↦ elim (Bool-cases (j == section)) [
          | inl hit ↦ absurd (ground (arith, known, is, (string_beq_iff j section).0 hit))
          | inr miss ↦
              rw miss (diff_new-field_in section k current new (ground (arith, same, known)) is)
        ]
        | inr unknown ↦
            let (here, rest) =
              append_empty (diff_maps_data (path_of "" j) none (some w)) (diff_new current new)
                (ground (arith, same, unknown)) in
            elim (Bool-cases (j == section)) [
              | inl hit ↦ rw hit (sym (diff_maps_data-field_in (path_of "" j) k none (some w) here))
              | inr miss ↦ rw miss (diff_new-field_in section k current new rest is)
            ]
      ]

  diff_section-field_of :
      (section k : String) (current new : Sections Json)
      → diff_section current new ≡ []
      → field_of section k current ≡ field_of section k new
  unfolding diff_section
  diff_section-field_of section k current new same =
      let (kept, added) = append_empty (diff_current new current) (diff_new current new) same in
      elim (Option-cases (get section current)) [
        | inl gone ↦ rw gone (sym (diff_new-field_in section k current new added gone))
        | inr (v, is) ↦ rw is (diff_current-field_in section k new current v kept is)
      ]

  -- Two states of a resource in which no path differs have the same annotations, labels and
  -- finalizers, and the same value of each field of each section that is an object.
  pub diff_paths-field_of :
      {Labels : Type 0}
      → ⦃l : PartialEq Labels⦄ → (current new : Entity Labels Json) → diff_paths current new ≡ []
      → (current.annotations ≡ new.annotations)
        × (current.labels ≡ new.labels)
        × (current.finalizers ≡ new.finalizers)
        × ((section k : String)
            → field_of section k current.sections ≡ field_of section k new.sections)
  unfolding diff_paths
  diff_paths-field_of ⦃l⦄ current new same =
      elim (Bool-cases (
        current.annotations == new.annotations
        && current.labels == new.labels
        && list_beq current.finalizers new.finalizers)) [
          | inr differs ↦ absurd (ground (arith, same, differs))
          | inl equal ↦ (
            ground (arith, equal, l.equals_iff current.annotations new.annotations),
            ground (arith, equal, l.equals_iff current.labels new.labels),
            ground (arith, equal, list_beq_iff current.finalizers new.finalizers),
            λ section k.
                diff_section-field_of section k current.sections new.sections
                  (ground (arith, same, equal)),
          )
        ]
