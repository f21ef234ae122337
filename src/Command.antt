-- ===== src/Command.antt =====
-- endpoint-common/src/command/mod.rs, target.rs and the filters of commands.rs: commands, their
-- addresses, and what a subscription asks for.
-- The MQTT topic filters of the `mqtt` crate are a parameter.
pub mod Registry
mod Entries
pub mod Delivery
pub mod Lifecycle
pub mod Tests
use drogue_cloud.Base.{
  ℕ, String, ◌≡◌, refl, ◌↔◌, Bool, true, false, ◌&&◌, List, Option, none, some, arith, PartialEq,
  string_eq, ◌==◌, string_beq_iff, if◌then◌else◌,
}

-- service-common/src/id.rs
pub record DeviceId : Type 0 where
  pub app_id : String
  pub device_id : String

pub record CommandAddress : Type 0 where
  pub app_id : String
  pub gateway_id : String
  pub device_id : String

pub record Command : Type 0 where
  pub address : CommandAddress
  pub command : String
  pub payload : Option (List ℕ)

-- The `mqtt` crate: `TopicFilter::new`, `TopicNameRef::new` and `is_match`.
pub record MqttTopics : Type 1 where
  pub TopicFilter : Type 0
  pub new_filter : String → Option TopicFilter
  pub is_name : String → Bool
  pub is_match : TopicFilter → String → Bool

pub data CommandNameFilter (F : Type 0) : Type 0 where
  always never : CommandNameFilter F
  filter : F → CommandNameFilter F

module _ (topics : MqttTopics) where
  open topics use {TopicFilter, new_filter, is_name, is_match}

  unfoldable pub name_filter_from : Option String → CommandNameFilter TopicFilter
  name_filter_from none = always
  name_filter_from (some text) = elim (new_filter text) [ some f ↦ filter f | none ↦ never ]

  unfoldable pub matches : CommandNameFilter TopicFilter → String → Bool
  matches always command = true
  matches never command = false
  matches (filter f) command = if is_name command then is_match f command else false

pub record CommandFilter : Type 0 where
  pub application : String
  pub gateway : String
  pub device : Option String
  pub command_filter : Option String

unfoldable pub wildcard : String → String → CommandFilter
wildcard application gateway = record {
  application = application;
  gateway = gateway;
  device = none;
  command_filter = none;
}

unfoldable pub proxied_device : String → String → String → CommandFilter
proxied_device application gateway device = record {
  application = application;
  gateway = gateway;
  device = some device;
  command_filter = none;
}

unfoldable pub device_filter : String → String → CommandFilter
device_filter application device = record {
  application = application;
  gateway = device;
  device = some device;
  command_filter = none;
}

unfoldable pub with_filter : CommandFilter → Option String → CommandFilter
with_filter self command_filter = record self { command_filter = command_filter }

-- Derived equality of the keys of the two maps.
abbrev pub id_beq : DeviceId → DeviceId → Bool
id_beq a b = a.app_id == b.app_id && a.device_id == b.device_id

pub id_beq_iff : (a b : DeviceId) → (id_beq a b ≡ true) ↔ (a ≡ b)
id_beq_iff a b =
    ground (arith, string_beq_iff a.app_id b.app_id, string_beq_iff a.device_id b.device_id)

instance abbrev pub id_eq : PartialEq DeviceId
id_eq = record { equals = id_beq; equals_iff = id_beq_iff }

abbrev pub address_beq : CommandAddress → CommandAddress → Bool
address_beq a b = a.app_id == b.app_id && a.gateway_id == b.gateway_id && a.device_id == b.device_id

pub address_beq_iff : (a b : CommandAddress) → (address_beq a b ≡ true) ↔ (a ≡ b)
address_beq_iff a b = ground (
  arith,
  string_beq_iff a.app_id b.app_id,
  string_beq_iff a.gateway_id b.gateway_id,
  string_beq_iff a.device_id b.device_id,
)

instance abbrev pub address_eq : PartialEq CommandAddress
address_eq = record { equals = address_beq; equals_iff = address_beq_iff }
