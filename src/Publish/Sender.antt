-- ===== src/Publish/Sender.antt =====
-- endpoint-common/src/sender/mod.rs: `publish`, from the body of a message to the sink, with the rules
-- that Processor's `TryFrom` finds (process/mod.rs).
use drogue_cloud.Base.{String, List, [], Option, none, some, Result, ok, err, if◌then◌else◌}
use drogue_cloud.Publish.{is_json, Rule}
use drogue_cloud.Publish.Processor.{
  Outcome, accepted, rejected, dropped, Error, CloudEvents, Externals, process,
}

pub data Direction : Type 0 where
  upstream downstream : Direction

pub data PublishOutcome : Type 0 where
  event_accepted event_rejected queue_full : PublishOutcome

pub data PublishError (Failure : Type 0) : Type 0 where
  sink_error spec_error event_error : Failure → PublishError Failure
  processor_error : Error Failure → PublishError Failure

pub data Content (Json Bytes : Type 0) : Type 0 where
  json : Json → Content Json Bytes
  binary : Bytes → Content Json Bytes

-- The sections of an application with rules; what is there may fail to be read.
pub record Sections (App Failure Endpoint Request : Type 0) : Type 0 where
  pub command_rules : App → Option (Result Failure (List (Rule Endpoint Request)))
  pub publish_rules : App → Option (Result Failure (List (Rule Endpoint Request)))

-- What is sent, its parser and the builder of events.
pub record Builder (Message Json Bytes Event Failure : Type 0) : Type 0 where
  pub parse_json : Bytes → Option Json
  pub build : Message → String → Content Json Bytes → Result Failure Event

abbrev pub rules_in :
    {A Failure : Type 0} → Option (Result Failure (List A)) → Result (PublishError Failure) (List A)
rules_in none = ok []
rules_in (some (ok rules)) = ok rules
rules_in (some (err e)) = err (spec_error e)

unfoldable pub rules_of :
    {App Failure Endpoint Request : Type 0}
    → Sections App Failure Endpoint Request
    → Direction
    → App
    → Result (PublishError Failure) (List (Rule Endpoint Request))
rules_of sections upstream app = rules_in (sections.command_rules app)
rules_of sections downstream app = rules_in (sections.publish_rules app)

-- A body whose type says that it is JSON, but is not, has no content.
unfoldable pub content_of :
    {Json Bytes : Type 0}
    → (Bytes → Option Json)
    → Option String
    → Bytes
    → Option (String × Content Json Bytes)
unfolding is_json
content_of parse (some type) body =
    if is_json type
    then (elim (parse body) [ some v ↦ some ("application/json", json v) | none ↦ none ])
    else some (type, binary body)
content_of parse none body = elim (parse body) [
  | some v ↦ some ("application/json", json v)
  | none ↦ some ("application/octet-stream", binary body)
]

module _ {App Message Json Event Url Bytes Failure Endpoint Request Client Payload World : Type 0}
    (events : CloudEvents Event Url Bytes)
    (externals : Externals Event Bytes Failure Endpoint Request Client Payload World)
    (sections : Sections App Failure Endpoint Request)
    (builder : Builder Message Json Bytes Event Failure) where
  -- The sink of a direction
  abbrev pub Send : Type 0
  Send = App → Event → World → Result Failure PublishOutcome × World

  abbrev pub sent :
      Result Failure PublishOutcome × World → Result (PublishError Failure) PublishOutcome × World
  sent (ok outcome, w) = (ok outcome, w)
  sent (err e, w) = (err (sink_error e), w)

  -- What is made of the outcome of the rules.
  abbrev pub conclude :
      Send
      → App
      → Result (Error Failure) (Outcome Event) × World
      → Result (PublishError Failure) PublishOutcome × World
  conclude send app (err e, w) = (err (processor_error e), w)
  conclude send app (ok (rejected reason), w) = (ok event_rejected, w)
  conclude send app (ok (accepted event), w) = sent (send app event w)
  conclude send app (ok dropped, w) = (ok event_accepted, w)

  unfoldable pub publish :
      Send
      → Direction
      → App
      → Message
      → Option String
      → Bytes
      → World
      → Result (PublishError Failure) PublishOutcome × World
  unfolding content_of rules_of process
  publish send direction app message content_type body w =
      elim (content_of builder.parse_json content_type body) [
        | none ↦ (ok event_rejected, w)
        | some (type, content) ↦ elim (builder.build message type content) [
          | err e ↦ (err (event_error e), w)
          | ok e ↦ elim (rules_of sections direction app) [
            | err failure ↦ (err failure, w)
            | ok rules ↦ conclude send app (process events externals rules e w)
          ]
        ]
      ]
