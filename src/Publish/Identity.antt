-- ===== src/Publish/Identity.antt =====
-- endpoint-common/src/sender/process/mod.rs: what rules cannot change of an event, such as its id and
-- its source.
use drogue_cloud.Base.{
  String, ◌≡◌, refl, ◌∙◌, ◌⊎◌, Bool, true, false, List, [], ◌∷◌, Option, none, some, ok, arith,
  Bool-cases, inl, inr, Result-cases, Option-cases, string_eq, nat_eq,
}
use drogue_cloud.Publish.{
  is_when, Step, drop, break, reject, set_attribute, remove_attribute, set_extension,
  remove_extension, validate, enrich, ResponseType, cloud_event, assume_structured_cloud_event, raw,
  Rule,
}
use drogue_cloud.Publish.Processor.{
  StepOutcome, continue, accept, rejecting, dropping, accepted, CloudEvents, Externals, Response,
  step, handle, process, change_attribute, validate_event, enrich_event, call, enriched, validated,
  or_default,
}

-- A part of an event that the setters of the crate leave alone.
pub record Untouched {Event Url Bytes : Type 0} (events : CloudEvents Event Url Bytes)
    (Part : Type 0) : Type 0 where
  pub part : Event → Part
  pub of_subject : (value : Option String) (e : Event) → part (events.set_subject value e) ≡ part e
  pub of_type : (value : String) (e : Event) → part (events.set_type value e) ≡ part e
  pub of_datacontenttype :
      (value : Option String) (e : Event) → part (events.set_datacontenttype value e) ≡ part e
  pub of_dataschema :
      (value : Option Url) (e : Event) → part (events.set_dataschema value e) ≡ part e
  pub of_extension :
      (name value : String) (e : Event) → part (events.set_event_extension name value e) ≡ part e
  pub of_removal :
      (name : String) (e : Event) → part (events.remove_event_extension name e) ≡ part e
  pub of_data :
      (type : String) (body : Bytes) (e : Event) → part (events.set_data type body e) ≡ part e

ResponseType-cases :
    (type : ResponseType)
    → (type ≡ cloud_event) ⊎ ((type ≡ assume_structured_cloud_event) ⊎ (type ≡ raw))
ResponseType-cases cloud_event = inl refl
ResponseType-cases assume_structured_cloud_event = inr (inl refl)
ResponseType-cases raw = inr (inr refl)

-- Whether a step replaces the event by one that an endpoint sends.
abbrev pub replaces : ResponseType → Bool
replaces cloud_event = true
replaces assume_structured_cloud_event = true
replaces raw = false

abbrev pub can_replace : {Endpoint Request : Type 0} → Step Endpoint Request → Bool
can_replace (enrich spec) = replaces spec.response
can_replace other = false

abbrev pub NoneReplaces : {Endpoint Request : Type 0} → List (Step Endpoint Request) → Type 0
NoneReplaces [] = Unit
NoneReplaces (s ∷ steps) = (can_replace s ≡ false) × NoneReplaces steps

abbrev pub NoRuleReplaces : {Endpoint Request : Type 0} → List (Rule Endpoint Request) → Type 0
NoRuleReplaces [] = Unit
NoRuleReplaces (rule ∷ rules) = NoneReplaces rule.then_steps × NoRuleReplaces rules

-- The event that an outcome goes on with or accepts.
abbrev pub carried : {E : Type 0} → StepOutcome E → Option E
carried (continue event) = some event
carried (accept event) = some event
carried (rejecting reason) = none
carried dropping = none

module _ {Event Url Bytes Failure Endpoint Request Client Payload World Part : Type 0}
    (events : CloudEvents Event Url Bytes)
    (externals : Externals Event Bytes Failure Endpoint Request Client Payload World)
    (untouched : Untouched events Part) where
  change_attribute-part :
      (event changed : Event) (name : String) (value : Option String)
      → change_attribute events externals event name value ≡ ok changed
      → untouched.part changed ≡ untouched.part event
  unfolding change_attribute
  change_attribute-part event changed name none h = ground (
    arith,
    h,
    untouched.of_datacontenttype none event,
    untouched.of_dataschema none event,
    untouched.of_subject none event,
  )
  change_attribute-part event changed name (some text) h =
      elim (Option-cases (events.parse_url text)) [
        | inl is ↦ ground (
          arith,
          h,
          is,
          untouched.of_datacontenttype (some text) event,
          untouched.of_subject (some text) event,
          untouched.of_type text event,
        )
        | inr (url, is) ↦ ground (
          arith,
          h,
          is,
          untouched.of_datacontenttype (some text) event,
          untouched.of_dataschema (some url) event,
          untouched.of_subject (some text) event,
          untouched.of_type text event,
        )
      ]

  validated-part :
      (event changed : Event) (response : Response Event Bytes Failure) (r : StepOutcome Event)
      → validated events externals event response ≡ ok r
      → carried r ≡ some changed
      → untouched.part changed ≡ untouched.part event
  validated-part event changed response r h has = elim (Result-cases response.text) [
    | inl (text, is) ↦ elim (Result-cases response.json_reason) [
      | inl (reason, json) ↦ ground (arith, h, has, is, json)
      | inr (e, json) ↦ ground (arith, h, has, is, json)
    ]
    | inr (e, is) ↦ elim (Result-cases response.json_reason) [
      | inl (reason, json) ↦ ground (arith, h, has, is, json)
      | inr (f, json) ↦ ground (arith, h, has, is, json)
    ]
  ]

  enriched-part :
      (event changed : Event) (response : Response Event Bytes Failure) (r : StepOutcome Event)
      → enriched events externals raw event response ≡ ok r
      → carried r ≡ some changed
      → untouched.part changed ≡ untouched.part event
  enriched-part event changed response r h has = elim (Result-cases response.bytes) [
    | inl (body, is) ↦
        let type = or_default events externals response.content_type "application/octet-stream" in
        ground (arith, h, has, is, untouched.of_data type body event)
    | inr (e, is) ↦ ground (arith, h, has, is)
  ]

  step-part :
      (s : Step Endpoint Request) (event changed : Event) (w : World) (r : StepOutcome Event)
      → can_replace s ≡ false
      → (step events externals s event w).0 ≡ ok r
      → carried r ≡ some changed
      → untouched.part changed ≡ untouched.part event
  unfolding step validate_event enrich_event
  step-part drop event changed w r same h has = ground (arith, h, has)
  step-part break event changed w r same h has = ground (arith, h, has)
  step-part (reject reason) event changed w r same h has = ground (arith, h, has)
  step-part (set_attribute name value) event changed w r same h has =
      elim (Result-cases (change_attribute events externals event name (some value))) [
        | inl (next, is) ↦
            change_attribute-part event changed name (some value) (ground (arith, h, has, is))
        | inr (e, is) ↦ absurd (ground (arith, h, is))
      ]
  step-part (remove_attribute name) event changed w r same h has =
      elim (Result-cases (change_attribute events externals event name none)) [
        | inl (next, is) ↦
            change_attribute-part event changed name none (ground (arith, h, has, is))
        | inr (e, is) ↦ absurd (ground (arith, h, is))
      ]
  step-part (set_extension name value) event changed w r same h has =
      ground (arith, h, has, untouched.of_extension name value event)
  step-part (remove_extension name) event changed w r same h has =
      ground (arith, h, has, untouched.of_removal name event)
  step-part (validate spec) event changed w r same h has =
      elim (Result-cases (call events externals spec.endpoint spec.request event w).0) [
        | inl (response, is) ↦ validated-part event changed response r (ground (arith, h, is)) has
        | inr (e, is) ↦ absurd (ground (arith, h, is))
      ]
  step-part (enrich spec) event changed w r same h has =
      elim (Result-cases (call events externals spec.endpoint spec.request event w).0) [
        | inl (response, is) ↦
            enriched-part event changed response r
              (ground (arith, h, is, same, ResponseType-cases spec.response)) has
        | inr (e, is) ↦ absurd (ground (arith, h, is))
      ]

  handle-part :
      (steps : List (Step Endpoint Request)) (event changed : Event) (w : World)
      (r : StepOutcome Event)
      → NoneReplaces steps
      → (handle events externals steps event w).0 ≡ ok r
      → carried r ≡ some changed
      → untouched.part changed ≡ untouched.part event
  unfolding handle
  handle-part [] event changed w r same h has = ground (arith, h, has)
  handle-part (s ∷ steps) event changed w r same h has =
      let next = step events externals s event w in
      elim (Result-cases next.0) [
        | inl (continue e, is) ↦
            handle-part steps e changed next.1 r same.1 (ground (arith, h, is)) has
            ∙ step-part s event e w (continue e) same.0 is refl
        | inl (accept e, is) ↦
            step-part s event changed w (accept e) same.0 is (ground (arith, h, is, has))
        | inl (rejecting reason, is) ↦ absurd (ground (arith, h, is, has))
        | inl (dropping, is) ↦ absurd (ground (arith, h, is, has))
        | inr (e, is) ↦ absurd (ground (arith, h, is))
      ]

  -- If no step of the rules takes over an event that an endpoint sends, then an event that is
  -- accepted has the parts that the crate's setters leave alone (such as its id and its source) as
  -- they were.
  pub process-part :
      (rules : List (Rule Endpoint Request)) (event changed : Event) (w : World)
      → NoRuleReplaces rules
      → (process events externals rules event w).0 ≡ ok (accepted changed)
      → untouched.part changed ≡ untouched.part event
  unfolding process
  process-part [] event changed w same h = ground (arith, h)
  process-part (rule ∷ rules) event changed w same h =
      let r = handle events externals rule.then_steps event w in
      elim (Bool-cases (is_when rule.when (events.subject event))) [
        | inr skipped ↦ process-part rules event changed w same.1 (ground (arith, h, skipped))
        | inl applies ↦ elim (Result-cases r.0) [
          | inl (continue next, is) ↦
              process-part rules next changed r.1 same.1 (ground (arith, h, applies, is))
              ∙ handle-part rule.then_steps event next w (continue next) same.0 is refl
          | inl (accept next, is) ↦
              handle-part rule.then_steps event changed w (accept next) same.0 is
                (ground (arith, h, applies, is))
          | inl (rejecting reason, is) ↦ absurd (ground (arith, h, applies, is))
          | inl (dropping, is) ↦ absurd (ground (arith, h, applies, is))
          | inr (e, is) ↦ absurd (ground (arith, h, applies, is))
        ]
      ]
