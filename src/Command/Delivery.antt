-- ===== src/Command/Delivery.antt =====
-- endpoint-common/src/command/commands.rs: what subscribing and unsubscribing do to the channels
-- that a command is sent to.
use mathlib.Core.List.{Perm, perm_middle, append_assoc}
use mathlib.Core.List.Perm
use drogue_cloud.Base.{
  ℕ, ◌≡◌, Bool, true, false, ◌&&◌, ◌||◌, List, [], ◌∷◌, ◌++◌, none, some, arith, inl, inr,
  if◌then◌else◌, PartialEq, ◌==◌, nat_eq, string_eq, string_beq_iff,
}
use drogue_cloud.HashMap.{HashMap, get, insert, remove_absent}
use drogue_cloud.Command.{
  DeviceId, Command, MqttTopics, name_filter_from, matches, CommandFilter, id_eq, address_eq,
  id_beq, address_beq,
}
use drogue_cloud.Command.Registry.{
  CommandTarget, CommandMap, Commands, SubscriptionHandle, entry_map, add_entry, cleanup, register,
  subscribe, unsubscribe, dispatch_command, send, device_key, gateway_key,
}
use drogue_cloud.Command.Entries.{
  add_entry_inv, register_inv, entry_map-remove_entry-add_entry, entry_map-insert,
}

-- The key of the gateway that a command goes through.
abbrev gateway_of : Command → DeviceId
gateway_of msg = record { app_id = msg.address.app_id; device_id = msg.address.gateway_id }

module _ (topics : MqttTopics) where
  open topics use {TopicFilter}

  -- What a filter asks for: commands through its gateway, for the device it names. One that names
  -- the gateway itself, or no device, gets the commands of every device behind the gateway.
  unfoldable pub wants : CommandFilter → Command → Bool
  wants filter msg =
      let name = matches topics (name_filter_from topics filter.command_filter) msg.command in
      elim filter.device [
        | none ↦
            filter.application == msg.address.app_id
            && filter.gateway == msg.address.gateway_id
            && name
        | some device ↦
            filter.application == msg.address.app_id
            && filter.gateway == msg.address.gateway_id
            && (device == filter.gateway || device == msg.address.device_id)
            && name
      ]

  abbrev hit : Bool → ℕ → List ℕ
  hit b tx = if b then tx ∷ [] else []

  -- One group of subscriptions, after a new entry.
  dispatch_command-insert :
      (id : ℕ) (target : CommandTarget TopicFilter) (inner : HashMap ℕ (CommandTarget TopicFilter))
      (msg : Command)
      → get id inner ≡ none
      → dispatch_command topics (insert id target inner) msg
        ≡ hit (matches topics target.filter msg.command) target.tx
          ++ dispatch_command topics inner msg
  unfolding dispatch_command insert
  dispatch_command-insert id target inner msg h = rw (remove_absent id inner h) (ground arith)

  module _ {K : Type 0} ⦃e : PartialEq K⦄ where
    abbrev group : CommandMap K TopicFilter → K → Command → List ℕ
    group m key msg = dispatch_command topics (entry_map m key) msg

    group-add_entry :
        (m : CommandMap K TopicFilter) (key j : K) (target : CommandTarget TopicFilter)
        (draws : List ℕ) (msg : Command) (r : ℕ × CommandMap K TopicFilter)
        → add_entry m key target draws ≡ some r
        → group r.1 j msg
          ≡ hit (key == j && matches topics target.filter msg.command) target.tx ++ group m j msg
    group-add_entry m key j target draws msg r h =
        let (absent, added) = add_entry_inv m key target draws r h in
        ground (
          arith,
          added,
          e.equals_iff key j,
          entry_map-insert key j (insert r.0 target (entry_map m key)) m,
          dispatch_command-insert r.0 target (entry_map m key) msg absent,
        )

  -- The command is one for the filter's key, in the map that the filter goes to.
  abbrev addressed : CommandFilter → Command → Bool
  addressed filter msg = elim filter.device [
    | some device ↦ address_beq (device_key filter device) msg.address
    | none ↦ id_beq (gateway_key filter) (gateway_of msg)
  ]

  -- `cleanup` does not change what a filter asks for.
  wants-cleanup :
      (filter : CommandFilter) (msg : Command)
      → wants filter msg ≡ (
          addressed (cleanup filter) msg
          && matches topics (name_filter_from topics filter.command_filter) msg.command)
  unfolding wants cleanup
  wants-cleanup filter msg = ground (arith, string_beq_iff filter.gateway filter.gateway)

  hit-Perm :
      (b : Bool) (tx : ℕ) (xs ys : List ℕ) → Perm (xs ++ (hit b tx ++ ys)) (hit b tx ++ (xs ++ ys))
  hit-Perm true tx xs ys = perm_middle xs ys
  hit-Perm false tx xs ys = Perm.rfl

  register-Perm :
      (s : Commands TopicFilter) (filter : CommandFilter) (target : CommandTarget TopicFilter)
      (draws : List ℕ) (s' : Commands TopicFilter) (handle : SubscriptionHandle) (msg : Command)
      → register topics s filter target draws ≡ some (s', handle)
      → Perm (send topics s' msg) (
          hit (addressed filter msg && matches topics target.filter msg.command) target.tx
          ++ send topics s msg)
  unfolding send
  register-Perm s filter target draws s' handle msg h =
      elim (register_inv topics s filter target draws s' handle h) [
        | inl (device, r, is, done, e, _) ↦
            rw
              (e, is, group-add_entry s.devices _ msg.address target draws msg r done, append_assoc)
              Perm.rfl
        | inr (r, is, done, e, _) ↦
            rw (e, is, group-add_entry s.wildcards _ (gateway_of msg) target draws msg r done)
              (hit-Perm
                (id_beq (gateway_key filter) (gateway_of msg)
                  && matches topics target.filter msg.command)
                target.tx (group s.devices msg.address msg)
                (group s.wildcards (gateway_of msg) msg))
      ]

  -- A new subscription gets exactly the commands that its filter asks for, each once, and every
  -- channel that was there gets what it got before. The order of the sends is left open.
  pub send-subscribe :
      (s s' : Commands TopicFilter) (filter : CommandFilter) (tx : ℕ) (draws : List ℕ)
      (handle : SubscriptionHandle) (msg : Command)
      → subscribe topics s filter tx draws ≡ some (s', handle)
      → Perm (send topics s' msg) ((if wants filter msg then tx ∷ [] else []) ++ send topics s msg)
  unfolding subscribe
  send-subscribe s s' filter tx draws handle msg h =
      rw wants-cleanup (register-Perm s (cleanup filter) _ draws s' handle msg h)

  -- Unsubscribing what was just subscribed restores the channels of every command.
  pub send-unsubscribe-subscribe :
      (s s' : Commands TopicFilter) (filter : CommandFilter) (tx : ℕ) (draws : List ℕ)
      (handle : SubscriptionHandle) (msg : Command)
      → subscribe topics s filter tx draws ≡ some (s', handle)
      → send topics (unsubscribe topics s' handle) msg ≡ send topics s msg
  unfolding subscribe send unsubscribe
  send-unsubscribe-subscribe s s' filter tx draws handle msg h =
      elim (register_inv topics s (cleanup filter) _ draws s' handle h) [
        | inl (device, r, is, done, e, k) ↦ ground (
          arith,
          e,
          k,
          is,
          entry_map-remove_entry-add_entry s.devices _ msg.address _ draws r done,
        )
        | inr (r, is, done, e, k) ↦ ground (
          arith,
          e,
          k,
          is,
          entry_map-remove_entry-add_entry s.wildcards _ (gateway_of msg) _ draws r done,
        )
      ]
