-- ===== src/Command/Registry.antt =====
-- endpoint-common/src/command/commands.rs: the subscriptions of one endpoint, and dispatching.
use mathlib.Core.Option
use drogue_cloud.Base.{
  ℕ, String, List, [], ◌∷◌, ◌++◌, Option, none, some, if◌then◌else◌, is_empty, nat_eq, string_eq,
  PartialEq, ◌==◌,
}
use drogue_cloud.HashMap.{HashMap, get, insert, remove}
use drogue_cloud.Command.{
  DeviceId, CommandAddress, Command, MqttTopics, CommandNameFilter, name_filter_from, matches,
  CommandFilter, id_eq, address_eq,
}

-- The sending half of a channel is a number that names the channel.
pub record CommandTarget (F : Type 0) : Type 0 where
  pub tx : ℕ
  pub filter : CommandNameFilter F

abbrev pub CommandMap : Type 0 → Type 0 → Type 0
CommandMap K F = HashMap K (HashMap ℕ (CommandTarget F))

pub record Commands (F : Type 0) : Type 0 where
  pub devices : CommandMap CommandAddress F
  pub wildcards : CommandMap DeviceId F

pub record SubscriptionHandle : Type 0 where
  pub filter : CommandFilter
  pub id : ℕ

unfoldable pub new : {F : Type 0} → Commands F
new = record { devices = []; wildcards = [] }

-- The loop over `rand::random()`: the first draw that is not an id of the map. `none`: the loop
-- still runs after these draws.
unfoldable pub free_id : {V : Type 0} → HashMap ℕ V → List ℕ → Option ℕ
free_id inner [] = none
free_id inner (draw ∷ draws) = elim (get draw inner) [
  | none ↦ some draw
  | some _ ↦ free_id inner draws
]

module _ {K V : Type 0} ⦃e : PartialEq K⦄ where
  -- `entry(key)`, a vacant one filled by an empty map
  unfoldable pub entry_map : HashMap K (HashMap ℕ V) → K → HashMap ℕ V
  entry_map m key = elim (get key m) [ none ↦ [] | some inner ↦ inner ]

  unfoldable pub add_entry :
      HashMap K (HashMap ℕ V) → K → V → List ℕ → Option (ℕ × HashMap K (HashMap ℕ V))
  unfolding entry_map
  add_entry m key value draws =
      Option.map (λ id. (id, insert key (insert id value (entry_map m key)) m))
        (free_id (entry_map m key) draws)

  unfoldable pub remove_entry : HashMap K (HashMap ℕ V) → K → ℕ → HashMap K (HashMap ℕ V)
  remove_entry m key id = elim (get key m) [
    | none ↦ m
    | some inner ↦
        let rest = remove id inner in if is_empty rest then remove key m else insert key rest m
  ]

-- A filter for the gateway itself becomes a filter without a device.
unfoldable pub cleanup : CommandFilter → CommandFilter
cleanup filter = elim filter.device [
  | some device ↦ if device == filter.gateway then record filter { device = none } else filter
  | none ↦ filter
]

abbrev pub device_key : CommandFilter → String → CommandAddress
device_key filter device = record {
  app_id = filter.application;
  gateway_id = filter.gateway;
  device_id = device;
}

abbrev pub gateway_key : CommandFilter → DeviceId
gateway_key filter = record { app_id = filter.application; device_id = filter.gateway }

module _ (topics : MqttTopics) where
  open topics use {TopicFilter}

  unfoldable pub register :
      Commands TopicFilter
      → CommandFilter
      → CommandTarget TopicFilter
      → List ℕ
      → Option (Commands TopicFilter × SubscriptionHandle)
  register s filter target draws = elim filter.device [
    | some device ↦
        Option.map (λ r. (record s { devices = r.1 }, record { filter = filter; id = r.0 }))
          (add_entry s.devices (device_key filter device) target draws)
    | none ↦
        Option.map (λ r. (record s { wildcards = r.1 }, record { filter = filter; id = r.0 }))
          (add_entry s.wildcards (gateway_key filter) target draws)
  ]

  -- `tx` is the sender of the channel that the call creates.
  unfoldable pub subscribe :
      Commands TopicFilter
      → CommandFilter
      → ℕ
      → List ℕ
      → Option (Commands TopicFilter × SubscriptionHandle)
  unfolding cleanup
  subscribe s filter tx draws =
      let target : CommandTarget TopicFilter = record {
        tx = tx;
        filter = name_filter_from topics filter.command_filter;
      } in
      register s (cleanup filter) target draws

  unfoldable pub unsubscribe : Commands TopicFilter → SubscriptionHandle → Commands TopicFilter
  unsubscribe s handle = elim handle.filter.device [
    | some device ↦ record s {
      devices = remove_entry s.devices (device_key handle.filter device) handle.id;
    }
    | none ↦ record s { wildcards = remove_entry s.wildcards (gateway_key handle.filter) handle.id }
  ]

  -- The channels that a command is sent to. A channel whose receiver is gone drops it, which is
  -- logged and changes nothing here.
  unfoldable pub dispatch_command : HashMap ℕ (CommandTarget TopicFilter) → Command → List ℕ
  dispatch_command [] msg = []
  dispatch_command ((id, sender) ∷ senders) msg =
      let rest = dispatch_command senders msg in
      if matches topics sender.filter msg.command then sender.tx ∷ rest else rest

  unfoldable pub send : Commands TopicFilter → Command → List ℕ
  unfolding dispatch_command entry_map
  send s msg =
      dispatch_command (entry_map s.devices msg.address) msg
      ++ dispatch_command
          (entry_map s.wildcards
            (record { app_id = msg.address.app_id; device_id = msg.address.gateway_id }))
          msg
