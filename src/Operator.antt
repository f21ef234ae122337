-- ===== src/Operator.antt =====
-- operator-common/src/controller: the controllers that operators are made of. This file has the
-- outcomes of an operation, and the decision to construct or to deconstruct a resource.
pub mod Controller
pub mod Retries
pub mod Progressor
pub mod Ready
pub mod Progressing
pub mod Queue
pub mod Tests
use drogue_cloud.Base.{
  ℕ, zero, suc, String, Bool, true, false, List, Option, none, some, Result, ok, err, any, is_some,
  string_eq, ◌==◌,
}

pub data ReconcileError : Type 0 where
  permanent temporary : String → ReconcileError

pub data ProcessOutcome (A : Type 0) : Type 0 where
  done : A → ProcessOutcome A
  retry : A → Option ℕ → ProcessOutcome A

pub data OperationOutcome : Type 0 where
  complete retry_now : OperationOutcome
  retry_later : ℕ → OperationOutcome

-- `OperationOutcome::retry`
unfoldable pub retry_outcome : Option ℕ → OperationOutcome
retry_outcome none = retry_now
retry_outcome (some zero) = retry_now
retry_outcome (some (suc delay)) = retry_later (suc delay)

pub data ReconcileState (I C D : Type 0) : Type 0 where
  ignore : I → ReconcileState I C D
  construct : C → ReconcileState I C D
  deconstruct : D → ReconcileState I C D

pub record Metadata : Type 0 where
  pub finalizers : List String
  pub deletion_timestamp : Option ℕ

-- The functions that make the parts of the state are the identity here: each gets the context.
unfoldable pub eval_by_finalizer :
    {A : Type 0} → Bool → A → Metadata → String → ReconcileState A A A
eval_by_finalizer requested ctx metadata finalizer =
    let configured = any (λ f. f == finalizer) metadata.finalizers in
    let deleted = is_some metadata.deletion_timestamp in
    elim requested [
      | false ↦ elim configured [ false ↦ ignore ctx | true ↦ deconstruct ctx ]
      | true ↦ elim deleted [ false ↦ construct ctx | true ↦ deconstruct ctx ]
    ]
