-- ===== src/Mqtt/Tests.antt =====
-- The MQTT endpoint at concrete topics, caches and sessions. The world of the services is the number
-- of the next subscription.
use mathlib.Core.List.{Memᴰ}
use drogue_cloud.Base.{
  ℕ, ◌+◌, ◌<◌, String, ◌≡◌, refl, ◌↔◌, ◌⊎◌, inl, inr, Bool, true, false, List, [], Option, none,
  some, Result, ok, err, arith, leb, length, string_eq, ◌==◌, string_beq_iff, Bool-cases,
}
use drogue_cloud.HashMap.{HashMap, get, insert, remove, get-insert, get-remove}
use drogue_cloud.HashMap.Retain.{retain, get-retain}
use drogue_cloud.Command.{
  DeviceId, Command, MqttTopics, with_filter, proxied_device, matches, name_filter_from,
}
use drogue_cloud.Command.Delivery.{wants}
use drogue_cloud.Mqtt.Topics.{split, split_once, level_match}
use drogue_cloud.Mqtt.Dialect.{
  drogue_v1, plain_topic, ParsedPublishTopic, ParsedSubscribeTopic, parse_publish, parse_subscribe,
  encode_command_topic, asked, proxied, into_command_filter,
}
use drogue_cloud.Mqtt.Delivery.{level_match-encode_command_topic}
use drogue_cloud.Mqtt.Publishing.{Says, parse_publish_iff}
use drogue_cloud.Mqtt.Cache.{
  DeviceCacheEntry, Lru, Reading, DeviceCache, new as new_cache, fetch, load_and_cache,
}
use drogue_cloud.Mqtt.Cache.Freshness.{Answer, Reach, heard, fetch_fresh}

abbrev literal_topics : MqttTopics
literal_topics = record {
  TopicFilter = String;
  new_filter = λ text. some text;
  is_name = λ name. true;
  is_match = λ filter name. filter == name;
}

abbrev pub gateway : DeviceId
gateway = record { app_id = "app"; device_id = "gw" }

abbrev open_door : Command
open_door = record {
  address = record { app_id = "app"; gateway_id = "gw"; device_id = "door" };
  command = "open/now";
  payload = none;
}

abbrev door_inbox : ParsedSubscribeTopic
door_inbox = asked (proxied "door") true

door_inbox_parsed : parse_subscribe drogue_v1 "command/inbox/door/#" ≡ ok door_inbox
unfolding parse_subscribe split
door_inbox_parsed = refl

door_inbox_wanted :
    wants literal_topics (into_command_filter door_inbox.filter gateway) open_door ≡ true
unfolding wants into_command_filter with_filter proxied_device matches name_filter_from
door_inbox_wanted = refl

level_match-encode_command_topic_example :
    level_match
      (split "command/inbox/door/#")
      (split (encode_command_topic door_inbox.encoder open_door))
    ≡ true
level_match-encode_command_topic_example =
    level_match-encode_command_topic literal_topics drogue_v1 "command/inbox/door/#" gateway
      door_inbox open_door door_inbox_parsed door_inbox_wanted (inl refl)

-- The topic of a command for another device is not one that the filter for the session itself matches.
foreign_topic : level_match (split "command/inbox//#") (split "command/inbox/door/open") ≡ false
unfolding split level_match
foreign_topic = refl

abbrev measured : ParsedPublishTopic
measured = record { channel = "temp/inside"; device = some "door" }

parse_publish_iff_example :
    (parse_publish (plain_topic true) "door/temp/inside" ≡ ok measured)
    ↔ Says (plain_topic true) "door/temp/inside" measured
parse_publish_iff_example = parse_publish_iff (plain_topic true) "door/temp/inside" measured

plain_topic_parsed : parse_publish (plain_topic true) "door/temp/inside" ≡ ok measured
unfolding parse_publish split_once
plain_topic_parsed = refl

pub lookup-put_lem :
    (key j : String) (v : DeviceCacheEntry ℕ) (c : HashMap String (DeviceCacheEntry ℕ))
    (e : DeviceCacheEntry ℕ)
    → get j (insert key v c) ≡ some e
    → ((key ≡ j) × (v ≡ e)) ⊎ (get j c ≡ some e)
lookup-put_lem key j v c e h = elim (Bool-cases (key == j)) [
  | inl p ↦ inl ((string_beq_iff key j).0 p, ground (arith, p, h, get-insert key j v c))
  | inr p ↦ inr (ground (arith, p, h, get-insert key j v c))
]

-- An entry is kept or not for its key.
abbrev pub keeps :
    (String → DeviceCacheEntry ℕ → Bool) → HashMap String (DeviceCacheEntry ℕ) → String → Bool
keeps p c key = elim (get key c) [ none ↦ false | some entry ↦ p key entry ]

pub lookup-new_cache_lem : (key : String) → get {V = DeviceCacheEntry ℕ} key [] ≡ none
unfolding get
lookup-new_cache_lem key = refl

pub lookup-pop_lem :
    (key j : String) (c : HashMap String (DeviceCacheEntry ℕ)) (e : DeviceCacheEntry ℕ)
    → get j (remove key c) ≡ some e
    → get j c ≡ some e
lookup-pop_lem key j c e h = ground (arith, h, get-remove key j c)

pub lookup-retain_lem :
    (p : String → DeviceCacheEntry ℕ → Bool) (j : String) (c : HashMap String (DeviceCacheEntry ℕ))
    (e : DeviceCacheEntry ℕ)
    → get j (retain (λ key entry. keeps p c key) c) ≡ some e
    → get j c ≡ some e
lookup-retain_lem p j c e h = ground (arith, h, get-retain (keeps p c) j c)

-- A cache that forgets nothing.
abbrev pub unbounded : Lru ℕ
unbounded = record {
  Cache = HashMap String (DeviceCacheEntry ℕ);
  new_cache = λ capacity. [];
  lookup = get;
  is_full = λ c. leb 2 (length c);
  touch = λ key c. c;
  pop = remove;
  put = insert;
  retain = λ p c. retain (λ key entry. keeps p c key) c;
  lookup-new_cache = λ key capacity. lookup-new_cache_lem key;
  lookup-touch = λ j key c. refl;
  lookup-pop = lookup-pop_lem;
  lookup-put = lookup-put_lem;
  lookup-retain = lookup-retain_lem;
}

-- The clock stands still within a call.
abbrev at_time : ℕ → Reading
at_time now = record {
  looked = now;
  answered = now;
  checked = now;
  set = now;
  evicted = λ key. now;
}

abbrev pub first_cache : DeviceCache unbounded
first_cache = new_cache unbounded 5 100 0

abbrev says_seven : String → Result String (Option ℕ)
says_seven device = ok (some 7)

abbrev says_nothing : String → Result String (Option ℕ)
says_nothing device = err "unreachable"

abbrev filled_cache : DeviceCache unbounded
filled_cache = (fetch unbounded first_cache "door" says_seven (at_time 10)).1

abbrev seven_heard : List (Answer ℕ)
seven_heard = heard unbounded first_cache "door" says_seven (at_time 10) []

-- After a minute the service is not asked again.
still_seven : (fetch unbounded filled_cache "door" says_nothing (at_time 60)).0 ≡ ok 7
unfolding fetch load_and_cache insert get new_cache
still_seven = refl

fetch_fresh_example :
    (says_nothing "door" ≡ ok (some 7))
    ⊎ ((a : Answer ℕ) × Memᴰ a seven_heard
        × (a.key ≡ "door")
        × (a.outcome ≡ some 7)
        × (60 < a.at + 100))
fetch_fresh_example =
    fetch_fresh unbounded "door" says_nothing (at_time 60) (some 7)
      (Reach.fetched "door" says_seven (at_time 10) (Reach.start 5 0)) still_seven
