-- ===== src/Mqtt/Publishing.antt =====
-- mqtt-endpoint/src/service/session/dialect/mod.rs: the topics that a device may publish to.

use drogue_cloud.Base.{
  String, ◌≡◌, refl, sym, subst, ◌≢◌, ◌↔◌, inl, inr, true, false, List, [], ◌∷◌, Option, none, some,
  arith, ok, string_eq, ◌==◌, string_beq_iff, Bool-cases, Option-cases,
}
use drogue_cloud.Mqtt.Topics.{
  split, split-append, split-is_level, split-All, join-split, is_level, split_once, split_once_lem,
  split_once-is_level, split_once-append,
}
use drogue_cloud.Mqtt.Dialect.{
  MqttDialect, drogue_v1, plain_topic, ParsedPublishTopic, published, publish_levels, parse_publish,
  slashed,
}

-- The topic that a device writes to reach a channel, for itself or for another device.
abbrev pub topic_of : MqttDialect → String → Option String → String
topic_of drogue_v1 channel none = channel
topic_of drogue_v1 channel (some device) = slashed channel device
topic_of (plain_topic false) channel device = channel
topic_of (plain_topic true) channel none = slashed "" channel
topic_of (plain_topic true) channel (some device) = slashed device channel

-- What a dialect can say.
abbrev pub IsSayable : MqttDialect → String → Option String → Type 0
IsSayable drogue_v1 channel none = (is_level channel ≡ true) × (channel ≢ "")
IsSayable drogue_v1 channel (some device) = (is_level channel ≡ true) × (is_level device ≡ true)
IsSayable (plain_topic false) channel device = (device ≡ none) × (channel ≢ "")
IsSayable (plain_topic true) channel none = Unit
IsSayable (plain_topic true) channel (some device) = (is_level device ≡ true) × (device ≢ "")

-- A topic is what its channel and device say.
abbrev pub Says : MqttDialect → String → ParsedPublishTopic → Type 0
Says dialect path t =
    (topic_of dialect t.channel t.device ≡ path) × IsSayable dialect t.channel t.device

published-Says :
    (dialect : MqttDialect) (path channel : String) (device : Option String)
    (t : ParsedPublishTopic)
    → published channel device ≡ ok t
    → (topic_of dialect channel device ≡ path) × IsSayable dialect channel device
    → Says dialect path t
published-Says dialect path channel device t h said =
    let parsed : ParsedPublishTopic = record { channel = channel; device = device } in
    let is : parsed ≡ t = cc h in subst (Says dialect path) is said

publish_levels-Says :
    (path : String) (levels : List String) (t : ParsedPublishTopic)
    → split path ≡ levels
    → publish_levels levels ≡ ok t
    → Says drogue_v1 path t
unfolding publish_levels
publish_levels-Says path [] t e h = absurd (ground (arith, h))
publish_levels-Says path (channel ∷ []) t e h =
    let clean = rw e at (split-All path) in
    let whole = rw e at (join-split path) in
    elim (Bool-cases (channel == "")) [
      | inl p ↦ absurd (ground (arith, p, h))
      | inr p ↦
          published-Says drogue_v1 path channel none t (ground (arith, p, h))
            (whole, (clean.0, λ q. ground (arith, p, q, string_beq_iff channel "")))
    ]
publish_levels-Says path (channel ∷ device ∷ []) t e h =
    let clean = rw e at (split-All path) in
    let whole = rw e at (join-split path) in
    published-Says drogue_v1 path channel (some device) t h (whole, (clean.0, clean.1.0))
publish_levels-Says path (a ∷ b ∷ c ∷ levels) t e h = absurd (ground (arith, h))

parse_publish-Says :
    (dialect : MqttDialect) (path : String) (t : ParsedPublishTopic)
    → parse_publish dialect path ≡ ok t
    → Says dialect path t
unfolding parse_publish
parse_publish-Says drogue_v1 path t h = publish_levels-Says path (split path) t refl h
parse_publish-Says (plain_topic false) path t h = elim (Bool-cases (path == "")) [
  | inl p ↦ absurd (ground (arith, p, h))
  | inr p ↦
      published-Says (plain_topic false) path path none t (ground (arith, p, h))
        (refl, (refl, λ q. ground (arith, p, q, string_beq_iff path "")))
]
parse_publish-Says (plain_topic true) path t h = elim (Option-cases (split_once path)) [
  | inl e ↦ absurd (ground (arith, e, h))
  | inr ((device, rest), e) ↦
      let whole = sym (split_once_lem path device rest e) in
      let clean = split_once-is_level path device rest e in
      let empty = string_beq_iff device "" in
      elim (Bool-cases (device == "")) [
        | inl p ↦
            published-Says (plain_topic true) path rest none t (ground (arith, p, e, h))
              (rw (empty.0 p) at whole, tt)
        | inr p ↦
            published-Says (plain_topic true) path rest (some device) t (ground (arith, p, e, h))
              (whole, (clean, λ q. ground (arith, p, q, empty)))
      ]
]

Says-parse_publish :
    (dialect : MqttDialect) (channel : String) (device : Option String)
    → IsSayable dialect channel device
    → parse_publish dialect (topic_of dialect channel device) ≡ published channel device
unfolding parse_publish publish_levels is_level
Says-parse_publish drogue_v1 channel none h =
    ground (arith, h, split-is_level channel h.0, string_beq_iff channel "")
Says-parse_publish drogue_v1 channel (some device) h =
    rw (split-append channel device, split-is_level channel h.0, split-is_level device h.1) refl
Says-parse_publish (plain_topic false) channel device h =
    ground (arith, h, string_beq_iff channel "")
Says-parse_publish (plain_topic true) channel none h =
    ground (arith, split_once-append "" channel refl)
Says-parse_publish (plain_topic true) channel (some device) h =
    ground (arith, h, split_once-append device channel h.0, string_beq_iff device "")

-- A topic is read as a channel and a device exactly if they say it, in the dialect, and are names
-- that the dialect can say.
pub parse_publish_iff :
    (dialect : MqttDialect) (path : String) (t : ParsedPublishTopic)
    → (parse_publish dialect path ≡ ok t) ↔ Says dialect path t
parse_publish_iff dialect path t = (
  parse_publish-Says dialect path t,
  λ (says, can). rw (← says) (Says-parse_publish dialect t.channel t.device can),
)
