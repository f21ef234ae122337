-- ===== src/Publish/Sending.antt =====
-- endpoint-common/src/sender/mod.rs: what `publish` gives to the sink.
use drogue_cloud.Base.{
  String, ◌≡◌, ◌⊎◌, ◌∙◌, List, Option, Result, ok, err, arith, inl, inr, Result-cases, Option-cases,
}
use drogue_cloud.Publish.{Rule}
use drogue_cloud.Publish.Processor.{accepted, rejected, dropped, CloudEvents, Externals, process}
use drogue_cloud.Publish.Identity.{Untouched, NoRuleReplaces, process-part}
use drogue_cloud.Publish.Sender.{
  Direction, PublishOutcome, event_accepted, event_rejected, PublishError, event_error,
  processor_error, Content, Sections, Builder, rules_of, content_of, Send, sent, publish,
}

module _
    {App Message Json Event Url Bytes Failure Endpoint Request Client Payload World Part : Type 0}
    (events : CloudEvents Event Url Bytes)
    (externals : Externals Event Bytes Failure Endpoint Request Client Payload World)
    (sections : Sections App Failure Endpoint Request)
    (builder : Builder Message Json Bytes Event Failure) (untouched : Untouched events Part) where
  -- Let the rules of an application take over no event that an endpoint sends, and let every
  -- event that is built have a given part (such as its source) that the crate's setters leave
  -- alone. Then the answer of `publish` does not depend on the sink, or it is that of one call of the sink, with
  -- an event of that part.
  pub publish-part :
      (direction : Direction) (app : App) (message : Message) (content_type : Option String)
      (body : Bytes) (w : World) (rules : List (Rule Endpoint Request)) (given : Part)
      → rules_of sections direction app ≡ ok rules
      → NoRuleReplaces rules
      → ((type : String) (content : Content Json Bytes) (e : Event)
          → builder.build message type content ≡ ok e
          → untouched.part e ≡ given)
      → ((answer : Result (PublishError Failure) PublishOutcome × World) × ((send : Send events
              externals sections builder)
            → publish events externals sections builder send direction app message content_type body
                w
              ≡ answer))
        ⊎ ((e : Event) × (after : World) × (untouched.part e ≡ given)
            × ((send : Send events externals sections builder)
                → publish events externals sections builder send direction app message content_type
                    body w
                  ≡ sent events externals sections builder (send app e after)))
  unfolding publish
  publish-part direction app message content_type body w rules given has same built =
      elim (Option-cases (content_of builder.parse_json content_type body)) [
        | inl no_content ↦ inl ((ok event_rejected, w), λ send. ground (arith, no_content))
        | inr ((type, content), is) ↦ elim (Result-cases (builder.build message type content)) [
          | inr (failure, b) ↦ inl ((err (event_error failure), w), λ send. ground (arith, is, b))
          | inl (e, b) ↦
              let r = process events externals rules e w in
              elim (Result-cases r.0) [
                | inr (failure, p) ↦
                    inl
                      ((err (processor_error failure), r.1), λ send. ground (arith, is, b, has, p))
                | inl (rejected reason, p) ↦
                    inl ((ok event_rejected, r.1), λ send. ground (arith, is, b, has, p))
                | inl (dropped, p) ↦
                    inl ((ok event_accepted, r.1), λ send. ground (arith, is, b, has, p))
                | inl (accepted changed, p) ↦ inr (
                  changed,
                  r.1,
                  process-part events externals untouched rules e changed w same p
                      ∙ built type content e b,
                  λ send. ground (arith, is, b, has, p),
                )
              ]
        ]
      ]
