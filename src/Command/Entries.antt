-- ===== src/Command/Entries.antt =====
-- What `add_entry` and `remove_entry` of endpoint-common/src/command/commands.rs do to the inner
-- map of each key, and how many random draws the loop of `add_entry` needs.
use drogue_cloud.Base.{
  ℕ, String, map-eq-some, ◌⊎◌, ◌<◌, ◌≡◌, refl, ◌≢◌, List, [], ◌∷◌, none, some, arith, inl, inr,
  if◌then◌else◌, length, All, Option-cases, PartialEq, ◌==◌, nat_eq, beq_refl,
}
use drogue_cloud.HashMap.{
  HashMap, get, insert, remove, get-insert, get-remove, remove_absent, remove-insert,
}
use drogue_cloud.HashMap.Size.{length-remove-lt}
use drogue_cloud.Command.{MqttTopics, CommandAddress, DeviceId, CommandFilter, id_eq, address_eq}
use drogue_cloud.Command.Registry.{
  entry_map, free_id, add_entry, remove_entry, CommandTarget, CommandMap, Commands,
  SubscriptionHandle, register, device_key, gateway_key,
}

-- The draws differ from one another.
abbrev pub Distinct : List ℕ → Type 0
Distinct [] = Unit
Distinct (d ∷ ds) = All (λ x. d ≢ x) ds × Distinct ds

module _ {V : Type 0} where
  pub free_id-absent :
      (inner : HashMap ℕ V) (draws : List ℕ) {id : ℕ}
      → free_id inner draws ≡ some id
      → get id inner ≡ none
  unfolding free_id
  free_id-absent inner [] h = cc
  free_id-absent inner (d ∷ ds) h = elim (Option-cases (get d inner)) [
    | inl free ↦ ground (arith, free)
    | inr (v, taken) ↦ free_id-absent inner ds (ground (arith, taken))
  ]

  -- An id that is not drawn does not matter to the loop.
  free_id-remove :
      (inner : HashMap ℕ V) (k : ℕ) (draws : List ℕ)
      → All (λ x. k ≢ x) draws
      → free_id (remove k inner) draws ≡ free_id inner draws
  unfolding free_id
  free_id-remove inner k [] h = refl
  free_id-remove inner k (d ∷ ds) h =
      ground (arith, get-remove k d inner, free_id-remove inner k ds h.1)

  -- With more distinct draws than entries the loop ends.
  pub free_id_total :
      (inner : HashMap ℕ V) (draws : List ℕ)
      → Distinct draws
      → length inner < length draws
      → (id : ℕ) × (free_id inner draws ≡ some id)
  unfolding free_id
  free_id_total inner [] h lt = absurd (omega arith)
  free_id_total inner (d ∷ ds) h lt = elim (Option-cases (get d inner)) [
    | inl free ↦ (d, ground (arith, free))
    | inr (v, taken) ↦
        let shorter : length (remove d inner) < length ds =
          omega (arith, length-remove-lt d inner v taken) in
        let (id, found) = free_id_total (remove d inner) ds h.1 shorter in
        (id, ground (arith, taken, found, free_id-remove inner d ds h.0))
  ]

module _ {K V : Type 0} ⦃e : PartialEq K⦄ where
  pub entry_map-insert :
      (key j : K) (inner : HashMap ℕ V) (m : HashMap K (HashMap ℕ V))
      → entry_map (insert key inner m) j ≡ (if key == j then inner else entry_map m j)
  unfolding entry_map
  entry_map-insert key j inner m = ground (arith, get-insert key j inner m)

  -- The inner map of the key loses the id, all others stay.
  pub entry_map-remove_entry :
      (m : HashMap K (HashMap ℕ V)) (key j : K) (id : ℕ)
      → entry_map (remove_entry m key id) j
        ≡ (if key == j then remove id (entry_map m key) else entry_map m j)
  unfolding entry_map remove_entry remove
  entry_map-remove_entry m key j id = ground (
    arith,
    e.equals_iff key j,
    get-remove key j m,
    get-insert key j (remove id (entry_map m key)) m,
  )

  -- What a finished call of `add_entry` did.
  pub add_entry_inv :
      (m : HashMap K (HashMap ℕ V)) (key : K) (value : V) (draws : List ℕ)
      (r : ℕ × HashMap K (HashMap ℕ V))
      → add_entry m key value draws ≡ some r
      → (get r.0 (entry_map m key) ≡ none)
        × (r.1 ≡ insert key (insert r.0 value (entry_map m key)) m)
  unfolding add_entry
  add_entry_inv m key value draws r h = elim (Option-cases (free_id (entry_map m key) draws)) [
    | inl stuck ↦ ground (arith, stuck)
    | inr (id, found) ↦
        ground (arith, found, free_id-absent (entry_map m key) draws {id = id} found)
  ]

  -- Adding an entry and removing it again leaves each inner map as it was.
  pub entry_map-remove_entry-add_entry :
      (m : HashMap K (HashMap ℕ V)) (key j : K) (value : V) (draws : List ℕ)
      (r : ℕ × HashMap K (HashMap ℕ V))
      → add_entry m key value draws ≡ some r
      → entry_map (remove_entry r.1 key r.0) j ≡ entry_map m j
  entry_map-remove_entry-add_entry m key j value draws r h =
      let (absent, added) = add_entry_inv m key value draws r h in
      ground (
        arith,
        added,
        e.equals_iff key j,
        beq_refl key,
        entry_map-remove_entry r.1 key j r.0,
        entry_map-insert key j (insert r.0 value (entry_map m key)) m,
        entry_map-insert key key (insert r.0 value (entry_map m key)) m,
        remove-insert r.0 value (entry_map m key),
        remove_absent r.0 (entry_map m key) absent,
      )

module _ (topics : MqttTopics) where
  open topics use {TopicFilter}

  -- A registration is an entry in the map of the devices, or in that of the gateways.
  pub register_inv :
      (s : Commands TopicFilter) (filter : CommandFilter) (target : CommandTarget TopicFilter)
      (draws : List ℕ) (s' : Commands TopicFilter) (handle : SubscriptionHandle)
      → register topics s filter target draws ≡ some (s', handle)
      → ((device : String) × (r : ℕ × CommandMap CommandAddress TopicFilter) × (filter.device
            ≡ some device)
          × (add_entry s.devices (device_key filter device) target draws ≡ some r)
          × (s' ≡ record s { devices = r.1 })
          × (handle ≡ record { filter = filter; id = r.0 }))
        ⊎ ((r : ℕ × CommandMap DeviceId TopicFilter) × (filter.device ≡ none)
            × (add_entry s.wildcards (gateway_key filter) target draws ≡ some r)
            × (s' ≡ record s { wildcards = r.1 })
            × (handle ≡ record { filter = filter; id = r.0 }))
  unfolding register
  register_inv s filter target draws s' handle h = elim (Option-cases filter.device) [
    | inr (device, is) ↦
        let (r, done, e) = map-eq-some _ _ (rw (is, register) at h) in
        inl (device, r, is, done, cc e, cc e)
    | inl is ↦
        let (r, done, e) = map-eq-some _ _ (rw (is, register) at h) in inr (r, is, done, cc e, cc e)
  ]
