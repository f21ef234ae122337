-- ===== src/Operator/Controller.antt =====
-- operator-common/src/controller/base/mod.rs: how a controller processes a resource, with what is
-- outside of it (the registry, the systems that it manages) as a state that the calls change.
use drogue_cloud.Base.{
  ℕ, zero, suc, String, Option, none, some, Result, ok, err, ltb, if◌then◌else◌,
}
use drogue_cloud.Operator.{
  ReconcileError, permanent, temporary, ProcessOutcome, done, retry, OperationOutcome, complete,
  retry_now, retry_later, retry_outcome,
}

-- The operations that a controller is built from; `World` is what they act on.
pub record Operations (Input Output World : Type 0) : Type 0 where
  pub get : World → Result String (Option Input) × World
  pub update_if : Output → Output → World → Result ReconcileError (Unit {0}) × World
  pub ref_output : Input → Output
  pub process_resource : Input → World → Result ReconcileError (ProcessOutcome Output) × World
  pub recover : String → Input → World → Result (Unit {0}) Output × World

module _ {Input Output World : Type 0} (operations : Operations Input Output World) where
  -- Store what is there to store; then answer.
  unfoldable pub store :
      Input
      → Output
      → Result ReconcileError OperationOutcome
      → World
      → Result ReconcileError OperationOutcome × World
  store resource outcome answer w =
      let r = operations.update_if (operations.ref_output resource) outcome w in
      elim r.0 [ ok _ ↦ (answer, r.1) | err e ↦ (err e, r.1) ]

  unfoldable pub recover_with :
      String
      → Input
      → Result ReconcileError OperationOutcome
      → World
      → Result ReconcileError OperationOutcome × World
  unfolding store
  recover_with msg resource answer w =
      let r = operations.recover msg resource w in
      elim r.0 [
        | ok outcome ↦ store resource outcome answer r.1
        | err _ ↦ (err (permanent "Failed to recover"), r.1)
      ]

  -- `ControllerOperation::process`
  unfoldable pub process : World → Result ReconcileError OperationOutcome × World
  unfolding store recover_with
  process w =
      let r = operations.get w in
      elim r.0 [
        | err _ ↦ (ok retry_now, r.1)
        | ok none ↦ (ok complete, r.1)
        | ok (some resource) ↦
            let p = operations.process_resource resource r.1 in
            elim p.0 [
              | ok (done outcome) ↦ store resource outcome (ok complete) p.1
              | ok (retry outcome delay) ↦ store resource outcome (ok (retry_outcome delay)) p.1
              | err (temporary msg) ↦ recover_with msg resource (ok retry_now) p.1
              | err (permanent msg) ↦ recover_with msg resource (ok complete) p.1
            ]
      ]

-- Whether a result ends the loop: with nothing left to do, or with a delay for the work queue.
unfoldable pub decision : Result ReconcileError OperationOutcome → Option (Option ℕ)
decision (ok complete) = some none
decision (err (permanent msg)) = some none
decision (ok retry_now) = none
decision (err (temporary msg)) = none
decision (ok (retry_later delay)) = some (some delay)

abbrev pub max_retries : ℕ
max_retries = 10

module _ {World : Type 0} (operation : World → Result ReconcileError OperationOutcome × World) where
  -- `InnerBaseController::process`: the delay after which the key is to be queued, if it is. The
  -- loop runs on fuel; `none` is a loop that is still running.
  unfoldable pub process_key : ℕ → ℕ → World → Option (Option ℕ × World)
  unfolding decision
  process_key zero retries w = none
  process_key (suc fuel) retries w =
      let r = operation w in
      let rest = process_key fuel (suc retries) r.1 in
      elim (decision r.0) [
        | some delay ↦ some (delay, r.1)
        | none ↦ if ltb max_retries (suc retries) then some (some 0, r.1) else rest
      ]
