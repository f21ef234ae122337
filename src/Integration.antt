-- ===== src/Integration.antt =====
-- mqtt-integration/src/service/session.rs: the session of a client that reads the events of
-- applications and sends commands. The services that it calls are an interface; a stream is a task
-- of the runtime (tokio), which runs on when its handle is dropped.
pub mod Streams
pub mod Reading
pub mod Tests
use Prim.Native.String.{◌++◌ as str_append}
use drogue_cloud.Base.{
  ℕ, String, Bool, true, false, not, ◌&&◌, ◌||◌, List, [], ◌∷◌, Option, none, some, Result, ok, err,
  ◌>>=◌, ◌>>◌, if◌then◌else◌, any, string_eq, nat_eq, ◌==◌,
}
use drogue_cloud.HashMap.{HashMap, get, insert, remove}
use drogue_cloud.Mqtt.Errors.{
  PublishError, internal_error, unsupported_operation, not_authorized, ServerError, unsupported,
}
use drogue_cloud.Mqtt.Topics.{split, join}

pub data Permission : Type 0 where
  read write : Permission

pub data AckReason : Type 0 where
  unauthorized wildcards_not_supported topic_filter_invalid unspecified : AckReason

-- The levels of `QoS` of a SUBSCRIBE.
pub data QoS : Type 0 where
  at_most_once at_least_once exactly_once : QoS

-- What runs as a task, and names the topic of its messages.
pub record Stream (Target : Type 0) : Type 0 where
  pub topic : String
  pub qos : QoS
  pub id : Option ℕ
  pub target : Target
  pub consumer_group : Option String
  pub structured : Bool

-- The user service (none: no authorization), the registry, the reading of the Kafka section, the
-- start of an event stream, and the sending of a command.
pub record Services (A D Target : Type 0) : Type 0 where
  pub user_auth : Option (String → Permission → Result String Bool)
  pub get_app : String → Result String (Option A)
  pub get_device_and_gateways : String → String → Result String (Option D)
  pub kafka_target : A → Result String Target
  pub new_stream : Target → Option String → Result String (Unit {0})
  pub process_command : A → D → String → List ℕ → Result String (Unit {0})
  pub eq_ignore_ascii_case : String → String → Bool

abbrev pub map_err : {E F A : Type 0} → (E → F) → Result E A → Result F A
map_err f (ok a) = ok a
map_err f (err e) = err (f e)

abbrev pub ok_or : {E A : Type 0} → E → Option A → Result E A
ok_or e none = err e
ok_or e (some a) = ok a

-- The errors of a command, with the text of what failed.
abbrev pub lookup_failed : String → PublishError
lookup_failed e = internal_error (str_append "Error looking up registry info " e)

abbrev pub sending_failed : String → PublishError
sending_failed e = internal_error (str_append "Error sending command " e)

-- The group of a shared subscription, or of the client, and the levels that are left.
unfoldable pub group_of : String → List String → Option String × List String
group_of client_id (prefix ∷ group_id ∷ topic) =
    if prefix == "$share" || prefix == "$shared"
    then (some group_id, topic)
    else ((if client_id == "" then none else some client_id), prefix ∷ group_id ∷ topic)
group_of client_id other = ((if client_id == "" then none else some client_id), other)

unfoldable pub application_of : List String → Result AckReason String
application_of [] = err unauthorized
application_of (kind ∷ application ∷ []) =
    if kind == "a" || (kind == "app" || kind == "application")
    then ok application
    else err topic_filter_invalid
application_of levels = err topic_filter_invalid

abbrev pub stream_qos : QoS → QoS
stream_qos at_most_once = at_most_once
stream_qos _ = at_least_once

unfoldable pub no_wildcards : List String → Result AckReason (Unit {0})
no_wildcards topic =
    if any (λ level. level == "+" || level == "#") topic then err wildcards_not_supported else ok tt

unfoldable pub consumer_group_of : String → Option String → Option String
consumer_group_of app none = none
consumer_group_of app (some group_id) = some (str_append app (str_append "." group_id))

module _ {A D Target : Type 0} (services : Services A D Target) where
  -- `streams` has the handle of a task for each topic. `running` are the tasks that were not aborted.
  pub record Session : Type 0 where
    pub client_id : String
    pub streams : HashMap String ℕ
    pub running : HashMap ℕ (Stream Target)

  -- `authorize`, where there is a user service
  unfoldable pub authorize : String → Permission → Result (Unit {0}) (Unit {0})
  authorize application permission = elim services.user_auth [
    | none ↦ ok tt
    | some call ↦ elim (call application permission) [
      | err e ↦ err tt
      | ok allowed ↦ if allowed then ok tt else err tt
    ]
  ]

  -- What `subscribe_to` makes of a topic, before the stream is attached.
  unfoldable pub prepare :
      String → Option ℕ → String → QoS → Bool → Result AckReason (Stream Target)
  unfolding group_of application_of authorize no_wildcards consumer_group_of
  prepare client_id id original_topic qos structured =
      let grouped = group_of client_id (split original_topic) in
      do
        _ ← no_wildcards grouped.1
        app ← application_of grouped.1
        _ ← map_err (λ _. unauthorized) (authorize app read)
        found ← map_err (λ _. unspecified) (services.get_app app)
        app_res ← ok_or unspecified found
        target ← map_err (λ _. unspecified) (services.kafka_target app_res)
        _ ←
            map_err (λ _. unspecified)
              (services.new_stream target (consumer_group_of app grouped.0))
        ok (record {
          topic = join grouped.1;
          qos = stream_qos qos;
          id = id;
          target = target;
          consumer_group = consumer_group_of app grouped.0;
          structured = structured;
        })

  unfoldable pub abort : Session → ℕ → Session
  abort s task = record s { running = remove task s.running }

  -- `attach_stream`; `task` is the handle of the new task. The handle that `insert` replaces is
  -- dropped, which leaves its task running.
  unfoldable pub attach_stream : Session → ℕ → Stream Target → Session
  attach_stream s task stream = record s {
    streams = insert stream.topic task s.streams;
    running = insert task stream s.running;
  }

  unfoldable pub detach : Session → String → Bool × Session
  unfolding abort
  detach s topic = elim (get topic s.streams) [
    | none ↦ (false, s)
    | some task ↦ (true, abort (record s { streams = remove topic s.streams }) task)
  ]

  unfoldable pub subscribe_to :
      Session → ℕ → Option ℕ → String → QoS → Bool → Result AckReason QoS × Session
  unfolding prepare attach_stream
  subscribe_to s task id original_topic qos structured =
      elim (prepare s.client_id id original_topic qos structured) [
        | err reason ↦ (err reason, s)
        | ok stream ↦ (ok stream.qos, attach_stream s task stream)
      ]

  abbrev pub SubAck : Type 0
  SubAck = Result AckReason QoS

  -- The requests of a SUBSCRIBE, each with the task that it would start.
  unfoldable pub subscribe_each :
      Session → Option ℕ → Bool → List (ℕ × String × QoS) → List SubAck × Session
  unfolding subscribe_to
  subscribe_each s id structured [] = ([], s)
  subscribe_each s id structured ((task, topic, qos) ∷ subs) =
      let one = subscribe_to s task id topic qos structured in
      let rest = subscribe_each one.1 id structured subs in (one.0 ∷ rest.0, rest.1)

  -- The content mode is structured, if the user property is not there.
  unfoldable pub content_mode : Option String → Result ServerError Bool
  content_mode none = ok true
  content_mode (some mode) =
      if mode == "structured"
      then ok true
      else if mode == "binary"
      then ok false
      else err unsupported

  unfoldable pub subscribe :
      Session
      → Option ℕ
      → Option String
      → List (ℕ × String × QoS)
      → Result ServerError (List SubAck) × Session
  unfolding content_mode subscribe_each
  subscribe s id mode subs = elim (content_mode mode) [
    | err e ↦ (err e, s)
    | ok structured ↦ let r = subscribe_each s id structured subs in (ok r.0, r.1)
  ]

  -- For each topic, whether a subscription existed.
  unfoldable pub unsubscribe : Session → List String → List Bool × Session
  unfolding detach
  unsubscribe s [] = ([], s)
  unsubscribe s (topic ∷ topics) =
      let one = detach s topic in let rest = unsubscribe one.1 topics in (one.0 ∷ rest.0, rest.1)

  -- Dropping the session aborts the tasks whose handles it has.
  unfoldable pub abort_all : Session → HashMap String ℕ → Session
  unfolding abort
  abort_all s [] = s
  abort_all s (entry ∷ entries) = abort_all (abort s entry.1) entries

  unfoldable pub drop : Session → Session
  unfolding abort_all
  drop s = abort_all (record s { streams = [] }) s.streams

  -- What is made of a command.
  unfoldable pub send_command : String → String → String → List ℕ → Result PublishError (Unit {0})
  unfolding authorize
  send_command app device command payload = do
    _ ← map_err (λ _. not_authorized) (authorize app write)
    found ← map_err lookup_failed (services.get_app app)
    device_gateways ← map_err lookup_failed (services.get_device_and_gateways app device)
    application ← ok_or not_authorized found
    gateways ← ok_or not_authorized device_gateways
    map_err sending_failed (services.process_command application gateways command payload)

  -- A command is published on "command/<application>/<device>/<command>".
  unfoldable pub publish_levels : List String → List ℕ → Result PublishError (Unit {0})
  unfolding send_command
  publish_levels (kind ∷ app ∷ device ∷ command ∷ []) payload =
      if services.eq_ignore_ascii_case kind "command"
      then send_command app device command payload
      else err unsupported_operation
  publish_levels levels payload = err unsupported_operation

  unfoldable pub publish : String → List ℕ → Result PublishError (Unit {0})
  unfolding publish_levels
  publish topic payload = publish_levels (split topic) payload
