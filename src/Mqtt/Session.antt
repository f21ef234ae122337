-- ===== src/Mqtt/Session.antt =====
-- mqtt-endpoint/src/service/session/mod.rs and inbox.rs: the session of one connection. The services
-- that it calls are an interface; what it asks them is recorded.
pub mod Calls
pub mod Cleanup
pub mod LastWill
pub mod Refusing
mod Tests
mod Same
use drogue_cloud.Base.{
  ℕ, String, Bool, true, false, List, [], ◌∷◌, Option, none, some, is_some, Result, ok, err,
  if◌then◌else◌, string_eq, ◌==◌,
}
use drogue_cloud.HashMap.{HashMap, get, insert, remove}
use drogue_cloud.Command.{DeviceId, Command, CommandFilter}
use drogue_cloud.Command.Registry.{SubscriptionHandle}
use drogue_cloud.Publish.Sender.{PublishOutcome, event_accepted, event_rejected, queue_full}
use drogue_cloud.Mqtt.Errors.{
  PublishError, internal_error, quota_exceeded, unspecified_error, topic_name_invalid, ServerError,
}
use drogue_cloud.Mqtt.Dialect.{
  MqttDialect, TopicEncoder, encode_command_topic, parse_publish, parse_subscribe,
  into_command_filter,
}
use drogue_cloud.Mqtt.Disconnect.{
  Inner, connected, ensure, as_publish_error, server_error, Disconnect, on_disconnect, close,
}
use drogue_cloud.Mqtt.Cache.{Lru, Reading, DeviceCache, fetch}

-- What the authentication service says of a gateway and a device.
pub data GatewayOutcome (T : Type 0) : Type 0 where
  pass : T → GatewayOutcome T
  fail : GatewayOutcome T

abbrev pub passed : {T : Type 0} → GatewayOutcome T → Option T
passed (pass device) = some device
passed fail = none

abbrev pub map_ok : {E A B : Type 0} → (A → B) → Result E A → Result E B
map_ok f (ok a) = ok (f a)
map_ok f (err e) = err e

-- The services: `Commands` with its random numbers, the state service, the authentication service
-- and the sender.
pub record Services (World T : Type 0) : Type 0 where
  pub subscribe_to : CommandFilter → World → SubscriptionHandle × World
  pub unsubscribe_from : SubscriptionHandle → World → World
  pub delete_state : Bool → World → World
  pub authorize_as : DeviceId → String → World → Result String (GatewayOutcome T)
  pub publish_on :
      String → T → Option String → List ℕ → World → Result String PublishOutcome × World

-- What a session has asked of the services, the last first.
pub data Request : Type 0 where
  opened shut : SubscriptionHandle → Request
  deleted : (skip_lwt : Bool) → Request
  handed_on : (channel : String) → Request

pub record Outside (World : Type 0) : Type 0 where
  pub world : World
  pub requests : List Request

-- The loop of an inbox sends what the subscription gets with its encoder.
pub record InboxSubscription : Type 0 where
  pub handle : SubscriptionHandle
  pub encoder : TopicEncoder

pub record Publish : Type 0 where
  pub topic : String
  pub content_type : Option String
  pub payload : List ℕ

pub data Ack : Type 0 where
  confirmed identifiers_not_supported refused success no_subscription_existed : Ack

-- `send_command`: the topic and the payload that go to the sink.
unfoldable pub send_command : Command → TopicEncoder → String × List ℕ
send_command cmd encoder =
    (encode_command_topic encoder cmd, elim cmd.payload [ some payload ↦ payload | none ↦ [] ])

module _ {World T : Type 0} (lru : Lru T) (services : Services World T) where
  pub record Session : Type 0 where
    pub dialect : MqttDialect
    pub id : DeviceId
    pub device : T
    pub inbox_reader : HashMap String InboxSubscription
    pub device_cache : DeviceCache lru
    pub has_handle : Bool
    pub disconnect : Inner

  abbrev pub State : Type 0
  State = Session × Outside World

  unfoldable pub new : MqttDialect → DeviceId → T → DeviceCache lru → Session
  new dialect id device device_cache = record {
    dialect = dialect;
    id = id;
    device = device;
    inbox_reader = [];
    device_cache = device_cache;
    has_handle = true;
    disconnect = connected;
  }

  -- `InboxSubscription::new`
  unfoldable pub open_inbox :
      Outside World → CommandFilter → TopicEncoder → InboxSubscription × Outside World
  open_inbox o filter encoder =
      let r = services.subscribe_to filter o.world in
      (
        record { handle = r.0; encoder = encoder },
        record { world = r.1; requests = opened r.0 ∷ o.requests },
      )

  -- `InboxSubscription::close`, and what dropping one does that was not closed.
  unfoldable pub close_inbox : Outside World → InboxSubscription → Outside World
  close_inbox o subscription = record {
    world = services.unsubscribe_from subscription.handle o.world;
    requests = shut subscription.handle ∷ o.requests;
  }

  unfoldable pub close_all : Outside World → HashMap String InboxSubscription → Outside World
  unfolding close_inbox
  close_all o [] = o
  close_all o (entry ∷ entries) = close_all (close_inbox o entry.1) entries

  unfoldable pub subscribe_inbox : State → String → CommandFilter → TopicEncoder → State
  unfolding open_inbox
  subscribe_inbox (s, o) topic_filter filter encoder = elim (get topic_filter s.inbox_reader) [
    | some _ ↦ (s, o)
    | none ↦
        let r = open_inbox o filter encoder in
        (record s { inbox_reader = insert topic_filter r.0 s.inbox_reader }, r.1)
  ]

  unfoldable pub eval_device : State → String → Reading → Result PublishError (String × T) × Session
  eval_device (s, o) path r = elim (parse_publish s.dialect path) [
    | err e ↦ (err topic_name_invalid, s)
    | ok topic ↦ elim topic.device [
      | none ↦ (ok (topic.channel, s.device), s)
      | some device ↦
          if device == s.id.device_id
          then (ok (topic.channel, s.device), s)
          else let ask : String → Result String (Option T) =
              λ d. map_ok passed (services.authorize_as s.id d o.world) in
            let fetched = fetch lru s.device_cache device ask r in
            (map_ok (λ d. (topic.channel, d)) fetched.0, record s { device_cache = fetched.1 })
    ]
  ]

  abbrev pub conclude : Result String PublishOutcome → Result PublishError (Unit {0})
  conclude (ok event_accepted) = ok tt
  conclude (ok event_rejected) = err unspecified_error
  conclude (ok queue_full) = err quota_exceeded
  conclude (err e) = err (internal_error e)

  unfoldable pub publish : State → Publish → Reading → Result PublishError (Unit {0}) × State
  unfolding eval_device
  publish (s, o) message r = elim (ensure s.disconnect) [
    | err e ↦ (err (as_publish_error e), (s, o))
    | ok _ ↦
        let evaluated = eval_device (s, o) message.topic r in
        elim evaluated.0 [
          | err e ↦ (err e, (evaluated.1, o))
          | ok (channel, device) ↦
              let sent =
                services.publish_on channel device message.content_type message.payload o.world in
              (
                conclude sent.0,
                (evaluated.1, record { world = sent.1; requests = handed_on channel ∷ o.requests }),
              )
        ]
  ]

  -- One request of a SUBSCRIBE.
  unfoldable pub subscribe_one : State → String → Ack × State
  unfolding subscribe_inbox
  subscribe_one (s, o) topic = elim (parse_subscribe s.dialect topic) [
    | err e ↦ (refused, (s, o))
    | ok parsed ↦
        let filter = into_command_filter parsed.filter s.id in
        (confirmed, subscribe_inbox (s, o) topic filter parsed.encoder)
  ]

  unfoldable pub subscribe_each : State → List String → List Ack × State
  unfolding subscribe_one
  subscribe_each state [] = ([], state)
  subscribe_each state (topic ∷ topics) =
      let one = subscribe_one state topic in
      let rest = subscribe_each one.1 topics in (one.0 ∷ rest.0, rest.1)

  abbrev pub refuse_each : List String → List Ack
  refuse_each [] = []
  refuse_each (topic ∷ topics) = identifiers_not_supported ∷ refuse_each topics

  -- A SUBSCRIBE, which may have an identifier.
  unfoldable pub subscribe : State → Option ℕ → List String → List Ack × State
  unfolding subscribe_each
  subscribe state id topics =
      if is_some id then (refuse_each topics, state) else subscribe_each state topics

  unfoldable pub unsubscribe : State → List String → List Ack × State
  unfolding close_inbox
  unsubscribe state [] = ([], state)
  unsubscribe (s, o) (topic ∷ topics) = elim (get topic s.inbox_reader) [
    | none ↦ let rest = unsubscribe (s, o) topics in (no_subscription_existed ∷ rest.0, rest.1)
    | some subscription ↦
        let closed = close_inbox o subscription in
        let left : Session = record s { inbox_reader = remove topic s.inbox_reader } in
        let rest = unsubscribe (left, closed) topics in (success ∷ rest.0, rest.1)
  ]

  -- `Session::disconnect`
  unfoldable pub disconnected_by : State → Disconnect → Result ServerError (Unit {0}) × State
  disconnected_by (s, o) message =
      let r = on_disconnect s.disconnect message in
      let left : Session = record s { disconnect = r.1 } in
      elim r.0 [ ok _ ↦ (ok tt, (left, o)) | err e ↦ (err (server_error e), (left, o)) ]

  -- `handle.take()` and what is done with it.
  unfoldable pub take_handle : State → Bool → State
  take_handle (s, o) skip_lwt =
      if s.has_handle
      then (
        record s { has_handle = false },
        record {
          world = services.delete_state skip_lwt o.world;
          requests = deleted skip_lwt ∷ o.requests;
        },
      )
      else (s, o)

  unfoldable pub closed : State → State
  unfolding take_handle close_all
  closed (s, o) =
      let r = close s.disconnect in
      let taken = take_handle (record s { disconnect = r.1 }, o) r.0 in
      (record taken.0 { inbox_reader = [] }, close_all taken.1 taken.0.inbox_reader)

  -- Dropping the session, and then its inboxes.
  unfoldable pub drop : State → Outside World
  unfolding take_handle close_all
  drop state = let taken = take_handle state false in close_all taken.1 taken.0.inbox_reader
