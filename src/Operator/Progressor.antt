-- ===== src/Operator/Progressor.antt =====
-- operator-common/src/controller/reconciler/progress.rs: the steps of a reconciliation, run in a row
-- until one asks for a retry or fails, with a condition kept for each.
use drogue_cloud.Base.{
  ℕ, String, ◌≡◌, Bool, true, false, List, [], ◌∷◌, Option, none, some, string_eq, ◌==◌,
  if◌then◌else◌,
}
use drogue_cloud.Operator.{ReconcileError}

pub record ConditionStatus : Type 0 where
  pub status : Option Bool
  pub reason : Option String
  pub message : Option String

-- `ConditionStatus::default()`
abbrev pub unknown : ConditionStatus
unknown = record { status = none; reason = none; message = none }

abbrev pub with_status : Bool → ConditionStatus
with_status b = record unknown { status = some b }

-- A condition of drogue-client, with its type and the text of its status.
pub record Condition : Type 0 where
  pub type_name : String
  pub status : String
  pub reason : Option String
  pub message : Option String

abbrev pub Conditions : Type 0
Conditions = List Condition

-- The text of a status: "Unknown" if there is none.
abbrev pub status_text : Option Bool → String
status_text none = "Unknown"
status_text (some true) = "True"
status_text (some false) = "False"

abbrev pub status_of : String → Conditions → Option String
status_of name [] = none
status_of name (c ∷ cs) = if c.type_name == name then some c.status else status_of name cs

-- `Conditions::update` of drogue-client, and the message of an error: they set the status of one
-- condition, and leave the others.
pub record ConditionUpdate : Type 0 where
  pub update : String → ConditionStatus → Conditions → Conditions
  pub error_text : ReconcileError → String
  pub status_of-update :
      (name key : String) (s : ConditionStatus) (cs : Conditions)
      → status_of key (update name s cs)
        ≡ (if name == key then some (status_text s.status) else status_of key cs)

-- What a step answers.
pub data StepOutcome (Context : Type 0) : Type 0 where
  proceed : Context → StepOutcome Context
  again : Context → Option ℕ → StepOutcome Context
  failed : ReconcileError → StepOutcome Context

-- `ProgressOperation`; a step acts on the world, too.
pub record Step (Context World : Type 0) : Type 0 where
  pub type_name : String
  pub run : Context → World → StepOutcome Context × World
  pub when_skipped : Context → Context × ConditionStatus
  pub when_failed : ConditionStatus

pub data Progress (Context : Type 0) : Type 0 where
  completed : Context → Conditions → Progress Context
  retried : Context → Option ℕ → Conditions → Progress Context
  aborted : ReconcileError → Conditions → Progress Context

module _ {Context World : Type 0} (conditions : ConditionUpdate) where
  -- The steps after one that asks for a retry.
  unfoldable pub skip : List (Step Context World) → Context → Conditions → Context × Conditions
  skip [] context cs = (context, cs)
  skip (s ∷ steps) context cs =
      let r = s.when_skipped context in skip steps r.0 (conditions.update s.type_name r.1 cs)

  -- The steps after one that fails.
  unfoldable pub fail_rest : List (Step Context World) → Conditions → Conditions
  fail_rest [] cs = cs
  fail_rest (s ∷ steps) cs = fail_rest steps (conditions.update s.type_name s.when_failed cs)

  -- `Progressor::run`
  unfoldable pub run_steps :
      List (Step Context World) → Conditions → Context → World → Progress Context × World
  unfolding skip fail_rest
  run_steps [] cs context w = (completed context cs, w)
  run_steps (s ∷ steps) cs context w =
      let r = s.run context w in
      elim r.0 [
        | proceed next ↦
            run_steps steps (conditions.update s.type_name (with_status true) cs) next r.1
        | again next when ↦
            let skipped = skip steps next (conditions.update s.type_name (with_status false) cs) in
            (retried skipped.0 when skipped.1, r.1)
        | failed e ↦
            let status = record unknown {
              reason = some "Failed";
              message = some (conditions.error_text e);
            } in
            (aborted e (fail_rest steps (conditions.update s.type_name status cs)), r.1)
      ]
