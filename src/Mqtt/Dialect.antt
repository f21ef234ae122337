-- ===== src/Mqtt/Dialect.antt =====
-- mqtt-endpoint/src/service/session/dialect: which channel and device a PUBLISH is for, which
-- commands a SUBSCRIBE asks for, and the topic of a command that is sent to a device.
use Prim.Native.String.{◌++◌ as str_append}
use drogue_cloud.Base.{
  String, Bool, true, false, not, ◌&&◌, ◌||◌, List, [], ◌∷◌, Option, none, some, Result, ok, err,
  if◌then◌else◌, string_eq, ◌==◌,
}
use drogue_cloud.Command.{
  DeviceId, Command, CommandFilter, wildcard, device_filter, proxied_device, with_filter,
}
use drogue_cloud.Mqtt.Topics.{split, split_once}

pub data ParseError : Type 0 where
  syntax empty : ParseError

pub record ParsedPublishTopic : Type 0 where
  pub channel : String
  pub device : Option String

pub data DeviceFilter : Type 0 where
  wildcard_device own_device : DeviceFilter
  proxied : String → DeviceFilter

pub record SubscribeFilter : Type 0 where
  pub device : DeviceFilter
  pub command : Option String

-- The implementations of `TopicEncoder`, each with its flag.
pub data TopicEncoder : Type 0 where
  default_encoder : (force_device : Bool) → TopicEncoder
  wot_encoder : (node_wot_bug : Bool) → TopicEncoder

pub record ParsedSubscribeTopic : Type 0 where
  pub filter : SubscribeFilter
  pub encoder : TopicEncoder

-- The dialects that the client library knows.
pub data MqttDialect : Type 0 where
  drogue_v1 : MqttDialect
  plain_topic : (device_prefix : Bool) → MqttDialect

unfoldable pub into_command_filter : SubscribeFilter → DeviceId → CommandFilter
into_command_filter self id =
    let filter : CommandFilter = elim self.device [
      | wildcard_device ↦ wildcard id.app_id id.device_id
      | own_device ↦ device_filter id.app_id id.device_id
      | proxied device ↦
          if device == id.device_id
          then device_filter id.app_id id.device_id
          else proxied_device id.app_id id.device_id device
    ] in
    with_filter filter self.command

abbrev pub published : String → Option String → Result ParseError ParsedPublishTopic
published channel device = ok (record { channel = channel; device = device })

-- The match on the levels of a topic.
unfoldable pub publish_levels : List String → Result ParseError ParsedPublishTopic
publish_levels [] = err syntax
publish_levels (channel ∷ []) = if channel == "" then err empty else published channel none
publish_levels (channel ∷ as_device ∷ []) = published channel (some as_device)
publish_levels (channel ∷ as_device ∷ level ∷ levels) = err syntax

unfoldable pub parse_publish : MqttDialect → String → Result ParseError ParsedPublishTopic
unfolding publish_levels
parse_publish drogue_v1 path = publish_levels (split path)
parse_publish (plain_topic false) path = if path == "" then err empty else published path none
parse_publish (plain_topic true) path = elim (split_once path) [
  | none ↦ if path == "" then err empty else err syntax
  | some (device, rest) ↦ published rest (if device == "" then none else some device)
]

abbrev pub asked : DeviceFilter → Bool → ParsedSubscribeTopic
asked device force =
    let filter : SubscribeFilter = record { device = device; command = none } in
    record { filter = filter; encoder = default_encoder force }

-- The match on the levels of a topic filter.
unfoldable pub subscribe_levels : List String → Result ParseError ParsedSubscribeTopic
subscribe_levels (a ∷ b ∷ c ∷ []) =
    if a == "command" && b == "inbox" && c == "#"
    then ok (asked wildcard_device false)
    else err syntax
subscribe_levels (a ∷ b ∷ device ∷ d ∷ []) =
    if not (a == "command" && b == "inbox" && d == "#")
    then err syntax
    else if device == "+"
    then ok (asked wildcard_device false)
    else if device == ""
    then ok (asked own_device false)
    else ok (asked (proxied device) true)
subscribe_levels levels = err syntax

unfoldable pub parse_subscribe : MqttDialect → String → Result ParseError ParsedSubscribeTopic
unfolding subscribe_levels
parse_subscribe dialect path = subscribe_levels (split path)

abbrev pub slashed : String → String → String
slashed a b = str_append a (str_append "/" b)

unfoldable pub encode_command_topic : TopicEncoder → Command → String
encode_command_topic (default_encoder force) command =
    if force || not (command.address.gateway_id == command.address.device_id)
    then slashed "command" (slashed "inbox" (slashed command.address.device_id command.command))
    else slashed "command" (slashed "inbox" (slashed "" command.command))
encode_command_topic (wot_encoder node_wot_bug) command =
    if node_wot_bug
    then slashed "" (slashed command.address.device_id command.command)
    else slashed command.address.device_id command.command
