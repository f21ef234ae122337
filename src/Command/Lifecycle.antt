-- ===== src/Command/Lifecycle.antt =====
-- endpoint-common/src/command/commands.rs: every call returns, and the maps hold no empty group.
use drogue_cloud.Base.{
  ℕ, ◌<◌, ◌≡◌, ◌≢◌, List, [], none, some, arith, inl, inr, length, Option-cases, PartialEq, nat_eq,
}
use drogue_cloud.HashMap.{HashMap, get, insert, remove, get-insert, get-remove}
use drogue_cloud.Command.{MqttTopics, name_filter_from, CommandFilter, id_eq, address_eq}
use drogue_cloud.Command.Registry.{
  CommandTarget, Commands, SubscriptionHandle, new, entry_map, add_entry, remove_entry, cleanup,
  register, subscribe, unsubscribe, device_key, gateway_key,
}
use drogue_cloud.Command.Entries.{Distinct, free_id_total, add_entry_inv, register_inv}

module _ {K V : Type 0} ⦃e : PartialEq K⦄ where
  add_entry_total :
      (m : HashMap K (HashMap ℕ V)) (key : K) (value : V) (draws : List ℕ)
      → Distinct draws
      → length (entry_map m key) < length draws
      → (r : ℕ × HashMap K (HashMap ℕ V)) × (add_entry m key value draws ≡ some r)
  unfolding add_entry
  add_entry_total m key value draws d enough =
      let (id, found) = free_id_total (entry_map m key) draws d enough in
      ((id, insert key (insert id value (entry_map m key)) m), rw found)

  -- No key has an empty inner map.
  abbrev pub NoEmpty : HashMap K (HashMap ℕ V) → Type 0
  NoEmpty m = (k : K) → get k m ≢ some []

  add_entry-NoEmpty :
      (m : HashMap K (HashMap ℕ V)) (key : K) (value : V) (draws : List ℕ)
      (r : ℕ × HashMap K (HashMap ℕ V))
      → add_entry m key value draws ≡ some r
      → NoEmpty m
      → NoEmpty r.1
  unfolding insert
  add_entry-NoEmpty m key value draws r h tidy k bad =
      let (_, added) = add_entry_inv m key value draws r h in
      ground (arith, added, tidy k, get-insert key k (insert r.0 value (entry_map m key)) m)

  remove_entry-NoEmpty :
      (m : HashMap K (HashMap ℕ V)) (key : K) (id : ℕ) → NoEmpty m → NoEmpty (remove_entry m key id)
  unfolding remove_entry
  remove_entry-NoEmpty m key id tidy k bad = elim (Option-cases (get key m)) [
    | inl e ↦ ground (arith, e, tidy k)
    | inr (inner, e) ↦
        ground (arith, e, tidy k, get-remove key k m, get-insert key k (remove id inner) m)
  ]

module _ (topics : MqttTopics) where
  open topics use {TopicFilter}

  -- The number of subscriptions under the key of a filter.
  abbrev pub crowd : Commands TopicFilter → CommandFilter → ℕ
  crowd s filter = elim filter.device [
    | some device ↦ length (entry_map s.devices (device_key filter device))
    | none ↦ length (entry_map s.wildcards (gateway_key filter))
  ]

  -- The random loop of `subscribe` ends once it has drawn more ids than there are subscriptions
  -- under the key, whatever ids those are, as long as it does not draw one twice.
  subscribe_total :
      (s : Commands TopicFilter) (filter : CommandFilter) (tx : ℕ) (draws : List ℕ)
      → Distinct draws
      → crowd s (cleanup filter) < length draws
      → (r : Commands TopicFilter × SubscriptionHandle) × (subscribe topics s filter tx draws
          ≡ some r)
  unfolding subscribe register
  subscribe_total s filter tx draws d enough =
      let target : CommandTarget TopicFilter = record {
        tx = tx;
        filter = name_filter_from topics filter.command_filter;
      } in
      elim (Option-cases (cleanup filter).device) [
        | inl is ↦
            let (r, done) =
              add_entry_total s.wildcards (gateway_key (cleanup filter)) target draws d
                (ground (arith, is)) in
            (
              (record s { wildcards = r.1 }, record { filter = cleanup filter; id = r.0 }),
              rw (is, register, done),
            )
        | inr (device, is) ↦
            let (r, done) =
              add_entry_total s.devices (device_key (cleanup filter) device) target draws d
                (ground (arith, is)) in
            (
              (record s { devices = r.1 }, record { filter = cleanup filter; id = r.0 }),
              rw (is, register, done),
            )
      ]

  pub record IsTidy (s : Commands TopicFilter) : Type 0 where
    pub devices : NoEmpty s.devices
    pub wildcards : NoEmpty s.wildcards

  -- The states that calls lead to. A call of `subscribe` may be given any channel and any draws.
  pub data Reach : Commands TopicFilter → Type 0 where
    start : Reach new
    subscribed :
        {s s' : Commands TopicFilter} (filter : CommandFilter) (tx : ℕ) (draws : List ℕ)
        (handle : SubscriptionHandle)
        → Reach s
        → subscribe topics s filter tx draws ≡ some (s', handle)
        → Reach s'
    unsubscribed :
        {s : Commands TopicFilter} (handle : SubscriptionHandle)
        → Reach s
        → Reach (unsubscribe topics s handle)

  subscribe-IsTidy :
      (s s' : Commands TopicFilter) (filter : CommandFilter) (tx : ℕ) (draws : List ℕ)
      (handle : SubscriptionHandle)
      → subscribe topics s filter tx draws ≡ some (s', handle)
      → IsTidy s
      → IsTidy s'
  unfolding subscribe
  subscribe-IsTidy s s' filter tx draws handle h tidy =
      elim (register_inv topics s (cleanup filter) _ draws s' handle h) [
        | inl (device, r, is, done, e, k) ↦ rw e (record {
          devices = add_entry-NoEmpty s.devices _ _ draws r done tidy.devices;
          wildcards = tidy.wildcards;
        })
        | inr (r, is, done, e, k) ↦ rw e (record {
          devices = tidy.devices;
          wildcards = add_entry-NoEmpty s.wildcards _ _ draws r done tidy.wildcards;
        })
      ]

  unsubscribe-IsTidy :
      (s : Commands TopicFilter) (handle : SubscriptionHandle)
      → IsTidy s
      → IsTidy (unsubscribe topics s handle)
  unfolding unsubscribe
  unsubscribe-IsTidy s handle tidy = elim (Option-cases handle.filter.device) [
    | inl is ↦
        rw (is, unsubscribe)
          (record {
            devices = tidy.devices;
            wildcards = remove_entry-NoEmpty s.wildcards _ handle.id tidy.wildcards;
          })
    | inr (device, is) ↦
        rw (is, unsubscribe)
          (record {
            devices = remove_entry-NoEmpty s.devices _ handle.id tidy.devices;
            wildcards = tidy.wildcards;
          })
  ]

  start-IsTidy : IsTidy new
  unfolding new get
  start-IsTidy = record { devices = λ k bad. cc; wildcards = λ k bad. cc }

  -- In every state that calls lead to, no device and no gateway is left with an empty group.
  Reach-IsTidy : {s : Commands TopicFilter} → Reach s → IsTidy s
  Reach-IsTidy start = start-IsTidy
  Reach-IsTidy (subscribed filter tx draws handle r h) =
      subscribe-IsTidy _ _ filter tx draws handle h (Reach-IsTidy r)
  Reach-IsTidy (unsubscribed handle r) = unsubscribe-IsTidy _ handle (Reach-IsTidy r)
