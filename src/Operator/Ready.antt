-- ===== src/Operator/Ready.antt =====
-- operator-common/src/controller/base/conditions.rs, and `run_with` of reconciler/progress.rs: what
-- a reconciliation writes into the status of its resource.
use drogue_cloud.Base.{
  ℕ, String, true, false, List, [], ◌∷◌, none, some, Result, ok, is_empty, string_eq, ◌==◌, ◌>>=◌,
  if◌then◌else◌,
}
use drogue_cloud.Operator.{ReconcileError, permanent, temporary, ProcessOutcome, done, retry}
use drogue_cloud.Operator.Progressor.{
  ConditionStatus, with_status, Conditions, ConditionUpdate, Step, completed, retried, aborted,
  run_steps,
}

pub data ReadyState : Type 0 where
  ready_complete ready_progressing : ReadyState
  ready_failed : String → ReadyState

unfoldable pub ready_status : ReadyState → ConditionStatus
ready_status ready_complete = record {
  status = some true;
  reason = some "AsExpected";
  message = some "";
}
ready_status ready_progressing = record {
  status = some false;
  reason = some "Progressing";
  message = some "";
}
ready_status (ready_failed msg) = record {
  status = some false;
  reason = some "Failed";
  message = some msg;
}

-- The first condition that is not met, but for the one of the reconciliation itself.
unfoldable pub eval_ready : Conditions → List String
eval_ready [] = []
eval_ready (c ∷ cs) =
    let rest = eval_ready cs in
    if c.type_name == "Reconciled"
    then rest
    else if c.status == "True"
    then rest
    else c.type_name ∷ []

-- The sections of a resource, which may fail to decode, and how a context holds its resource.
pub record Resources (Context Resource : Type 0) : Type 0 where
  pub generation : Resource → ℕ
  pub set_status : Conditions → ℕ → Resource → Result ReconcileError Resource
  pub update_conditions : (Conditions → Conditions) → Resource → Result ReconcileError Resource
  pub ready_name : String
  pub waiting_text : List String → String
  pub resource : Context → Resource
  pub conditions : Context → Conditions

module _ {Context Resource : Type 0} (updates : ConditionUpdate)
    (resources : Resources Context Resource) where
  abbrev pub ready_condition : List String → ConditionStatus
  ready_condition waiting = if is_empty waiting then with_status true else record {
    status = some false;
    reason = some "WaitingForReady";
    message = some (resources.waiting_text waiting);
  }

  unfoldable pub finish_ready : Conditions → ℕ → Resource → Result ReconcileError Resource
  unfolding eval_ready
  finish_ready cs generation resource = do
    stored ← resources.set_status cs generation resource
    resources.update_conditions
        (updates.update resources.ready_name (ready_condition (eval_ready cs))) stored

  -- The outcome of a reconciliation, and the conditions that it leaves.
  unfoldable pub run_with :
      {World : Type 0}
      → List (Step Context World)
      → Context
      → World
      → Result ReconcileError (ProcessOutcome Resource) × World
  unfolding run_steps ready_status finish_ready
  run_with steps ctx w =
      let generation = resources.generation (resources.resource ctx) in
      let r = run_steps updates steps (resources.conditions ctx) ctx w in
      elim r.0 [
        | completed context cs ↦ (
          do
            out ←
                finish_ready (updates.update "Reconciled" (ready_status ready_complete) cs)
                  generation (resources.resource context)
            ok (done out),
          r.1,
        )
        | retried context when cs ↦ (
          do
            out ←
                finish_ready (updates.update "Reconciled" (ready_status ready_progressing) cs)
                  generation (resources.resource context)
            ok (retry out when),
          r.1,
        )
        | aborted e cs ↦ (
          do
            out ←
                finish_ready
                  (updates.update "Reconciled" (ready_status (ready_failed (updates.error_text e)))
                    cs)
                  generation (resources.resource ctx)
            elim e [ permanent _ ↦ ok (done out) | temporary _ ↦ ok (retry out none) ],
          r.1,
        )
      ]
