-- ===== src/Publish/Processor.antt =====
-- endpoint-common/src/sender/process/mod.rs: the processing of an event by the rules, and what
-- `publish` of sender/mod.rs makes of the outcome. Calls of external endpoints change a world.
use drogue_cloud.Base.{
  ℕ, leb, String, Bool, ◌&&◌, ◌||◌, List, [], ◌∷◌, Option, none, some, Result, ok, err, nat_eq,
  string_eq, ◌==◌, if◌then◌else◌,
}
use drogue_cloud.Publish.{
  is_when, is_json, ResponseType, cloud_event, assume_structured_cloud_event, raw, ValidateSpec,
  EnrichSpec, Step, drop, break, reject, set_attribute, set_extension, remove_attribute,
  remove_extension, validate, enrich, Rule,
}

pub data StepOutcome (E : Type 0) : Type 0 where
  continue accept : E → StepOutcome E
  rejecting : String → StepOutcome E
  dropping : StepOutcome E

pub data Outcome (E : Type 0) : Type 0 where
  accepted : E → Outcome E
  rejected : String → Outcome E
  dropped : Outcome E

pub data Error (Failure : Type 0) : Type 0 where
  config : String → Error Failure
  external : Failure → Error Failure
  external_response : ℕ → Error Failure

-- The crate cloudevents: its setters change one attribute each.
pub record CloudEvents (Event Url Bytes : Type 0) : Type 0 where
  pub subject : Event → Option String
  pub set_subject : Option String → Event → Event
  pub set_type : String → Event → Event
  pub set_datacontenttype : Option String → Event → Event
  pub set_dataschema : Option Url → Event → Event
  pub set_event_extension : String → String → Event → Event
  pub remove_event_extension : String → Event → Event
  pub set_data : String → Bytes → Event → Event
  pub parse_url : String → Option Url

-- The answer of an external endpoint; what is read of its body may fail.
pub record Response (Event Bytes Failure : Type 0) : Type 0 where
  pub status : ℕ
  pub content_type : Option String
  pub text : Result Failure String
  pub json_reason : Result Failure (Option String)
  pub json_event : Result Failure Event
  pub decoded_event : Result Failure Event
  pub bytes : Result Failure Bytes

-- The pool of clients.
pub record Externals (Event Bytes Failure Endpoint Request Client Payload World : Type 0)
    : Type 0 where
  pub get_client : Endpoint → World → Result Failure Client × World
  pub to_payload : Request → Event → Payload
  pub send :
      Client → Payload → Endpoint → World → Result Failure (Response Event Bytes Failure) × World

module _ {Event Url Bytes Failure Endpoint Request Client Payload World : Type 0}
    (events : CloudEvents Event Url Bytes)
    (externals : Externals Event Bytes Failure Endpoint Request Client Payload World) where
  abbrev pub Answer : Type 0 → Type 0
  Answer A = Result (Error Failure) A × World

  abbrev pub or_default : Option String → String → String
  or_default none text = text
  or_default (some text) other = text

  abbrev pub lift : {A B : Type 0} → (A → B) → Result Failure A → Result (Error Failure) B
  lift f (ok a) = ok (f a)
  lift f (err e) = err (external e)

  -- `set_attribute`; without a value the attribute is removed.
  unfoldable pub change_attribute : Event → String → Option String → Result (Error Failure) Event
  change_attribute event name value =
      if name == "datacontenttype"
      then ok (events.set_datacontenttype value event)
      else if name == "dataschema"
      then (elim value [
        | none ↦ ok (events.set_dataschema none event)
        | some text ↦ elim (events.parse_url text) [
          | none ↦ err (config "Invalid URL")
          | some url ↦ ok (events.set_dataschema (some url) event)
        ]
      ])
      else if name == "subject"
      then ok (events.set_subject value event)
      else if name == "type"
      then (elim value [
        | none ↦ err (config "Removing the 'type' attribute is not valid")
        | some text ↦ ok (events.set_type text event)
      ])
      else err (config "Unknown or immutable attribute")

  abbrev pub continue_with :
      Result (Error Failure) Event → Result (Error Failure) (StepOutcome Event)
  continue_with (ok event) = ok (continue event)
  continue_with (err e) = err e

  -- Get a client and send the event.
  unfoldable pub call : Endpoint → Request → Event → World → Answer (Response Event Bytes Failure)
  call endpoint request event w =
      let client = externals.get_client endpoint w in
      elim client.0 [
        | err e ↦ (err (external e), client.1)
        | ok c ↦
            let answer = externals.send c (externals.to_payload request event) endpoint client.1 in
            (lift (λ response. response) answer.0, answer.1)
      ]

  abbrev pub reason_of : Response Event Bytes Failure → Result (Error Failure) (StepOutcome Event)
  reason_of response =
      if is_json (or_default response.content_type "")
      then lift (λ reason. rejecting (or_default reason "Rejected")) response.json_reason
      else lift rejecting response.text

  abbrev pub is_client_error : ℕ → Bool
  is_client_error status = leb 400 status && leb status 499

  abbrev pub validated :
      Event → Response Event Bytes Failure → Result (Error Failure) (StepOutcome Event)
  validated event response =
      if response.status == 200 || response.status == 204
      then ok (continue event)
      else if response.status == 202
      then ok (accept event)
      else if is_client_error response.status
      then reason_of response
      else err (external_response response.status)

  -- `validate`
  unfoldable pub validate_event :
      ValidateSpec Endpoint Request → Event → World → Answer (StepOutcome Event)
  unfolding call
  validate_event spec event w =
      let answer = call spec.endpoint spec.request event w in
      elim answer.0 [
        | err e ↦ (err e, answer.1)
        | ok response ↦ (validated event response, answer.1)
      ]

  abbrev pub enriched :
      ResponseType
      → Event
      → Response Event Bytes Failure
      → Result (Error Failure) (StepOutcome Event)
  enriched type event response =
      if response.status == 200
      then (elim type [
        | cloud_event ↦ lift continue response.decoded_event
        | assume_structured_cloud_event ↦ lift continue response.json_event
        | raw ↦
            lift
              (λ body. continue (
                events.set_data (or_default response.content_type "application/octet-stream") body
                  event))
              response.bytes
      ])
      else err (external_response response.status)

  -- `enrich`
  unfoldable pub enrich_event :
      EnrichSpec Endpoint Request → Event → World → Answer (StepOutcome Event)
  unfolding call
  enrich_event spec event w =
      let answer = call spec.endpoint spec.request event w in
      elim answer.0 [
        | err e ↦ (err e, answer.1)
        | ok response ↦ (enriched spec.response event response, answer.1)
      ]

  unfoldable pub step : Step Endpoint Request → Event → World → Answer (StepOutcome Event)
  unfolding change_attribute validate_event enrich_event
  step drop event w = (ok dropping, w)
  step break event w = (ok (accept event), w)
  step (reject reason) event w = (ok (rejecting reason), w)
  step (set_attribute name value) event w =
      (continue_with (change_attribute event name (some value)), w)
  step (remove_attribute name) event w = (continue_with (change_attribute event name none), w)
  step (set_extension name value) event w =
      (ok (continue (events.set_event_extension name value event)), w)
  step (remove_extension name) event w =
      (ok (continue (events.remove_event_extension name event)), w)
  step (validate spec) event w = validate_event spec event w
  step (enrich spec) event w = enrich_event spec event w

  -- `handle`: the steps up to the first that does not continue.
  unfoldable pub handle : List (Step Endpoint Request) → Event → World → Answer (StepOutcome Event)
  unfolding step
  handle [] event w = (ok (continue event), w)
  handle (s ∷ steps) event w =
      let r = step s event w in
      elim r.0 [
        | ok (continue changed) ↦ handle steps changed r.1
        | ok (accept changed) ↦ (ok (accept changed), r.1)
        | ok dropping ↦ (ok dropping, r.1)
        | ok (rejecting reason) ↦ (ok (rejecting reason), r.1)
        | err e ↦ (err e, r.1)
      ]

  unfoldable pub process : List (Rule Endpoint Request) → Event → World → Answer (Outcome Event)
  unfolding is_when handle
  process [] event w = (ok (accepted event), w)
  process (rule ∷ rules) event w =
      let rest = process rules event w in
      if is_when rule.when (events.subject event)
      then (let r = handle rule.then_steps event w in
          elim r.0 [
            | ok (continue changed) ↦ process rules changed r.1
            | ok (accept changed) ↦ (ok (accepted changed), r.1)
            | ok dropping ↦ (ok dropped, r.1)
            | ok (rejecting reason) ↦ (ok (rejected reason), r.1)
            | err e ↦ (err e, r.1)
          ])
      else rest
