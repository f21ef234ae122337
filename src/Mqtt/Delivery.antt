-- ===== src/Mqtt/Delivery.antt =====
-- mqtt-endpoint/src/service/session/dialect/mod.rs: the topic of a command that a subscription gets,
-- and the topic filter of the subscription.
use drogue_cloud.Base.{
  String, ◌≡◌, ◌⊎◌, inl, inr, true, false, not, ◌||◌, if◌then◌else◌, none, List, [], ◌∷◌, ◌++◌,
  arith, ok, string_eq, ◌==◌, string_beq_iff, Bool, beq_refl, Bool-cases, refl,
}
use drogue_cloud.Command.{
  DeviceId, Command, MqttTopics, wildcard, proxied_device, device_filter, with_filter,
}
use drogue_cloud.Command.Delivery.{wants}
use drogue_cloud.Mqtt.Topics.{
  split, split-append, split-cons, split-is_level, split-All, level_match,
}
use drogue_cloud.Mqtt.Dialect.{
  MqttDialect, DeviceFilter, wildcard_device, own_device, proxied, ParsedSubscribeTopic,
  default_encoder, parse_subscribe, encode_command_topic, slashed, asked, subscribe_levels,
  into_command_filter,
}

-- The levels of the topic of a command, with the device or with an empty level in its place.
slashed-split :
    (device name : String)
    → split (slashed "command" (slashed "inbox" (slashed device name)))
      ≡ "command" ∷ "inbox" ∷ (split device ++ split name)
unfolding split
slashed-split device name =
    rw (split-append "command" _, split-append "inbox" _, split-append device name) refl

-- The topic filters that are understood, and what each asks for.
abbrev Asked : List String → ParsedSubscribeTopic → Type 0
Asked levels parsed =
    ((levels ≡ "command" ∷ "inbox" ∷ "#" ∷ []) × (parsed ≡ asked wildcard_device false))
    ⊎ ((levels ≡ "command" ∷ "inbox" ∷ "+" ∷ "#" ∷ []) × (parsed ≡ asked wildcard_device false))
    ⊎ ((levels ≡ "command" ∷ "inbox" ∷ "" ∷ "#" ∷ []) × (parsed ≡ asked own_device false))
    ⊎ ((device : String) × (levels ≡ "command" ∷ "inbox" ∷ device ∷ "#" ∷ [])
        × (parsed ≡ asked (proxied device) true))

subscribe_levels_inv :
    (levels : List String) (parsed : ParsedSubscribeTopic)
    → subscribe_levels levels ≡ ok parsed
    → Asked levels parsed
unfolding subscribe_levels
subscribe_levels_inv [] parsed h = absurd (ground (arith, h))
subscribe_levels_inv (a ∷ []) parsed h = absurd (ground (arith, h))
subscribe_levels_inv (a ∷ b ∷ []) parsed h = absurd (ground (arith, h))
subscribe_levels_inv (a ∷ b ∷ c ∷ []) parsed h =
    inl (
      ground (arith, h, string_beq_iff a "command", string_beq_iff b "inbox", string_beq_iff c "#"))
subscribe_levels_inv (a ∷ b ∷ device ∷ d ∷ []) parsed h =
    let e1 = string_beq_iff a "command" in
    let e2 = string_beq_iff b "inbox" in
    let e3 = string_beq_iff d "#" in
    elim (Bool-cases (device == "+")) [
      | inl p ↦ inr (inl (ground (arith, h, e1, e2, e3, p, string_beq_iff device "+")))
      | inr p ↦ elim (Bool-cases (device == "")) [
        | inl q ↦ inr (inr (inl (ground (arith, h, e1, e2, e3, p, q, string_beq_iff device ""))))
        | inr q ↦ inr (
            inr (
              inr
                (device, ground (arith, h, e1, e2, e3, p, q), ground (arith, h, e1, e2, e3, p, q))))
      ]
    ]
subscribe_levels_inv (a ∷ b ∷ c ∷ d ∷ x ∷ levels) parsed h = absurd (ground (arith, h))

-- Whether a command is for the device that a subscription names. A subscription for all devices
-- names every device.
abbrev names : DeviceFilter → DeviceId → Command → Bool
names wildcard_device id command = true
names own_device id command = command.address.device_id == id.device_id
names (proxied device) id command = command.address.device_id == device

-- The subscription names the device of the session itself.
abbrev pub is_own : DeviceFilter → DeviceId → Bool
is_own wildcard_device id = false
is_own own_device id = true
is_own (proxied device) id = device == id.device_id

module _ (topics : MqttTopics) where
  -- Either the command is for the device of the session, or the subscription is not for that one.
  names-wants :
      (device : DeviceFilter) (id : DeviceId) (command : Command)
      → wants topics (into_command_filter (record { device = device; command = none }) id) command
        ≡ true
      → (is_own device id ≡ false) ⊎ (command.address.device_id ≡ id.device_id)
      → names device id command ≡ true
  unfolding wants into_command_filter wildcard proxied_device with_filter device_filter
  names-wants wildcard_device id command h other = refl
  names-wants own_device id command h other =
      ground (arith, string_beq_iff command.address.device_id id.device_id)
  names-wants (proxied device) id command h other = ground (
    arith,
    h,
    string_beq_iff command.address.device_id id.device_id,
    string_beq_iff device command.address.device_id,
    string_beq_iff command.address.device_id device,
    string_beq_iff device id.device_id,
  )

-- The levels of the topic of a command.
encode_command_topic_lem :
    (force : Bool) (command : Command)
    → split (encode_command_topic (default_encoder force) command)
      ≡ "command"
        ∷ "inbox"
        ∷ ((if force || not (command.address.gateway_id == command.address.device_id)
              then split command.address.device_id
              else "" ∷ [])
            ++ split command.command)
unfolding encode_command_topic split
encode_command_topic_lem force command = ground (
  arith,
  slashed-split command.address.device_id command.command,
  slashed-split "" command.command,
)

level_match_all : (levels : List String) → level_match ("#" ∷ []) levels ≡ true
unfolding level_match
level_match_all [] = refl
level_match_all (level ∷ levels) = refl

-- "+" is for one level of a device's name, "#" for what is left.
level_match_any :
    (b : Bool) (first : String) (rest levels : List String)
    → level_match ("+" ∷ "#" ∷ []) ((if b then first ∷ rest else "" ∷ []) ++ levels) ≡ true
unfolding level_match
level_match_any true first rest levels = level_match_all (rest ++ levels)
level_match_any false first rest levels = level_match_all levels

level_match_one :
    (device : String) (levels : List String)
    → level_match (device ∷ "#" ∷ []) (device ∷ levels) ≡ true
unfolding level_match
level_match_one device levels = ground (arith, beq_refl device, level_match_all levels)

module _ (topics : MqttTopics) where
  -- A command that a subscription gets is published on a topic that the topic filter of the
  -- subscription matches, if the command is for the device of the session, or the subscription is
  -- for another device or for all.
  pub level_match-encode_command_topic :
      (dialect : MqttDialect) (path : String) (id : DeviceId) (parsed : ParsedSubscribeTopic)
      (command : Command)
      → parse_subscribe dialect path ≡ ok parsed
      → wants topics (into_command_filter parsed.filter id) command ≡ true
      → (is_own parsed.filter.device id ≡ false) ⊎ (command.address.device_id ≡ id.device_id)
      → level_match (split path) (split (encode_command_topic parsed.encoder command)) ≡ true
  unfolding parse_subscribe level_match wants into_command_filter wildcard device_filter
      proxied_device with_filter
  level_match-encode_command_topic dialect path id parsed command h w other =
      let (first, rest, e) = split-cons command.address.device_id in
      elim (subscribe_levels_inv (split path) parsed h) [
        | inl (at, is) ↦ rw (at, is, encode_command_topic_lem) (level_match_all _)
        | inr (inl (at, is)) ↦
            rw (at, is, encode_command_topic_lem, e) (level_match_any _ first rest _)
        | inr (inr (inl (at, is))) ↦
            let here = names-wants topics own_device id command (rw is at w) (rw is at other) in
            let direct : (command.address.gateway_id == command.address.device_id) ≡ true = ground (
              arith,
              here,
              string_beq_iff id.device_id command.address.gateway_id,
              string_beq_iff command.address.device_id id.device_id,
              string_beq_iff command.address.gateway_id command.address.device_id,
              rw is at w,
            ) in
            rw (at, is, encode_command_topic_lem, direct) (level_match_one "" _)
        | inr (inr (inr (named, at, is))) ↦
            let here =
              names-wants topics (proxied named) id command (rw is at w) (rw is at other) in
            let is_named : command.address.device_id ≡ named =
              (string_beq_iff command.address.device_id named).0 here in
            let clean = rw at at (split-All path) in
            rw (at, is, encode_command_topic_lem, is_named, split-is_level named clean.1.1.0)
              (level_match_one named _)
      ]
