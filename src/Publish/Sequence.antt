-- ===== src/Publish/Sequence.antt =====
-- endpoint-common/src/sender/process/mod.rs: rules in a row, as one fold over the state of the
-- processing.
use mathlib.Core.List.{foldl}
use drogue_cloud.Base.{
  ◌≡◌, refl, List, [], ◌∷◌, Result, ok, err, if◌then◌else◌, Bool-cases, Result-cases, inl, inr,
}
use drogue_cloud.Publish.{is_when, Step, Rule}
use drogue_cloud.Publish.Processor.{
  StepOutcome, continue, accept, rejecting, dropping, Outcome, accepted, rejected, dropped, Error,
  CloudEvents, Externals, step, handle, process,
}

-- Where the processing is: it goes on with an event, or has come to its result.
pub data Processing (Event Failure World : Type 0) : Type 0 where
  going : Event → World → Processing Event Failure World
  ended : Result (Error Failure) (Outcome Event) → World → Processing Event Failure World

module _ {Event Url Bytes Failure Endpoint Request Client Payload World : Type 0}
    (events : CloudEvents Event Url Bytes)
    (externals : Externals Event Bytes Failure Endpoint Request Client Payload World) where
  abbrev after : Result (Error Failure) (StepOutcome Event) → World → Processing Event Failure World
  after (ok (continue event)) w = going event w
  after (ok (accept event)) w = ended (ok (accepted event)) w
  after (ok (rejecting reason)) w = ended (ok (rejected reason)) w
  after (ok dropping) w = ended (ok dropped) w
  after (err e) w = ended (err e) w

  -- A step changes the event that the processing goes on with; a result stays as it is.
  abbrev pub by_step :
      Processing Event Failure World → Step Endpoint Request → Processing Event Failure World
  by_step (going event w) s =
      after (step events externals s event w).0 (step events externals s event w).1
  by_step (ended result w) s = ended result w

  -- The steps of a rule, if its condition holds of the event as it is by then.
  abbrev pub by_rule :
      Processing Event Failure World → Rule Endpoint Request → Processing Event Failure World
  by_rule (going event w) rule =
      if is_when rule.when (events.subject event)
      then foldl by_step (going event w) rule.then_steps
      else going event w
  by_rule (ended result w) rule = ended result w

  abbrev pub result_of :
      Processing Event Failure World → Result (Error Failure) (Outcome Event) × World
  result_of (going event w) = (ok (accepted event), w)
  result_of (ended result w) = (result, w)

  foldl-by_step :
      (steps : List (Step Endpoint Request)) (result : Result (Error Failure) (Outcome Event))
      (w : World)
      → foldl by_step (ended result w) steps ≡ ended result w
  foldl-by_step [] result w = refl
  foldl-by_step (s ∷ steps) result w = foldl-by_step steps result w

  foldl-by_rule :
      (rules : List (Rule Endpoint Request)) (result : Result (Error Failure) (Outcome Event))
      (w : World)
      → foldl by_rule (ended result w) rules ≡ ended result w
  foldl-by_rule [] result w = refl
  foldl-by_rule (rule ∷ rules) result w = foldl-by_rule rules result w

  handle-foldl :
      (steps : List (Step Endpoint Request)) (event : Event) (w : World)
      → let r = handle events externals steps event w in
        foldl by_step (going event w) steps ≡ after r.0 r.1
  unfolding handle
  handle-foldl [] event w = refl
  handle-foldl (s ∷ steps) event w =
      let r = step events externals s event w in
      elim (Result-cases r.0) [
        | inl (continue next, is) ↦ rw (handle, is) (handle-foldl steps next r.1)
        | inl (accept next, is) ↦ rw (handle, is) (foldl-by_step steps (ok (accepted next)) r.1)
        | inl (rejecting reason, is) ↦
            rw (handle, is) (foldl-by_step steps (ok (rejected reason)) r.1)
        | inl (dropping, is) ↦ rw (handle, is) (foldl-by_step steps (ok dropped) r.1)
        | inr (e, is) ↦ rw (handle, is) (foldl-by_step steps (err e) r.1)
      ]

  -- The early returns of the two loops make a fold: one step after the other, each on the event and
  -- the world that the one before it left, a rule's steps only if its condition holds of the event as
  -- the rules before it left it, and nothing once there is a result. An event that is left at the end
  -- is accepted.
  pub process-foldl :
      (rules : List (Rule Endpoint Request)) (event : Event) (w : World)
      → process events externals rules event w ≡ result_of (foldl by_rule (going event w) rules)
  unfolding process
  process-foldl [] event w = refl
  process-foldl (rule ∷ rules) event w =
      let r = handle events externals rule.then_steps event w in
      elim (Bool-cases (is_when rule.when (events.subject event))) [
        | inr skipped ↦ rw skipped (process-foldl rules event w)
        | inl applies ↦
            rw (applies, handle-foldl rule.then_steps event w)
              (elim (Result-cases r.0) [
                | inl (continue next, is) ↦ rw is (process-foldl rules next r.1)
                | inl (accept next, is) ↦ rw (is, foldl-by_rule rules (ok (accepted next)) r.1) refl
                | inl (rejecting reason, is) ↦
                    rw (is, foldl-by_rule rules (ok (rejected reason)) r.1) refl
                | inl (dropping, is) ↦ rw (is, foldl-by_rule rules (ok dropped) r.1) refl
                | inr (e, is) ↦ rw (is, foldl-by_rule rules (err e) r.1) refl
              ])
      ]
