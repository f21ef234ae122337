-- ===== src/Operator/Progressing.antt =====
-- operator-common/src/controller/reconciler/progress.rs: the conditions that a run of steps leaves,
-- and what base/conditions.rs makes of them.

use drogue_cloud.Base.{
  ℕ, String, ◌≡◌, refl, ◌∙◌, ◌⊎◌, true, false, List, [], ◌∷◌, Option, none, some, arith, inl, inr,
  All, is_empty, string_eq, string_beq_iff, ◌==◌, beq_refl,
}
use drogue_cloud.Operator.{ReconcileError}
use drogue_cloud.Operator.Progressor.{
  ConditionStatus, unknown, with_status, Conditions, ConditionUpdate, status_of, StepOutcome,
  proceed, again, failed, Step, Progress, completed, retried, aborted, skip, fail_rest, run_steps,
}
use drogue_cloud.Operator.Ready.{eval_ready}

outcome_cases :
    {C : Type 0} (o : StepOutcome C)
    → ((c : C) × (o ≡ proceed c))
      ⊎ (((c : C) × (when : Option ℕ) × (o ≡ again c when))
          ⊎ ((e : ReconcileError) × (o ≡ failed e)))
outcome_cases (proceed c) = inl (c, refl)
outcome_cases (again c when) = inr (inl (c, when, refl))
outcome_cases (failed e) = inr (inr (e, refl))

-- The conditions of a run that did not get to its end.
abbrev pub stopped : {C : Type 0} → Progress C → Option Conditions
stopped (completed c cs) = none
stopped (retried c when cs) = some cs
stopped (aborted e cs) = some cs

abbrev pub finished : {C : Type 0} → Progress C → Option Conditions
finished (completed c cs) = some cs
finished (retried c when cs) = none
finished (aborted e cs) = none

module _ (updates : ConditionUpdate) where
  -- A condition that is not "True" keeps the resource from being ready.
  waits :
      (cs : Conditions) (name status : String)
      → status_of name cs ≡ some status
      → (status == "True") ≡ false
      → (name == "Reconciled") ≡ false
      → is_empty (eval_ready cs) ≡ false
  unfolding eval_ready
  waits [] name status h unmet other = cc
  waits (c ∷ cs) name status h unmet other = ground (
    arith,
    h,
    unmet,
    other,
    waits cs name status,
    string_beq_iff c.type_name name,
    string_beq_iff c.type_name "Reconciled",
    string_beq_iff name "Reconciled",
  )

  waits_reconciled :
      (out : Conditions) (name status : String) (reconciled : ConditionStatus)
      → status_of name out ≡ some status
      → (status == "True") ≡ false
      → (name == "Reconciled") ≡ false
      → is_empty (eval_ready (updates.update "Reconciled" reconciled out)) ≡ false
  waits_reconciled out name status reconciled h unmet other =
      waits (updates.update "Reconciled" reconciled out) name status
        (ground (
          arith,
          h,
          other,
          updates.status_of-update "Reconciled" name reconciled out,
          string_beq_iff "Reconciled" name,
          string_beq_iff name "Reconciled",
        ))
        unmet other

module _ {Context World : Type 0} (updates : ConditionUpdate) where
  -- A name that no step has, and steps of which no two share a name, the name of the
  -- reconciliation included.
  abbrev IsFree : String → List (Step Context World) → Type 0
  IsFree name steps = All (λ s. (s.type_name == name) ≡ false) steps

  abbrev pub AreDistinct : List (Step Context World) → Type 0
  AreDistinct [] = Unit
  AreDistinct (s ∷ steps) =
      ((s.type_name == "Reconciled") ≡ false) × IsFree s.type_name steps × AreDistinct steps

  finished_keeps :
      (steps : List (Step Context World)) (cs out : Conditions) (context : Context) (w : World)
      (name : String)
      → finished (run_steps updates steps cs context w).0 ≡ some out
      → status_of name cs ≡ some "True"
      → status_of name out ≡ some "True"
  unfolding run_steps
  finished_keeps [] cs out context w name h is = ground (arith, h, is)
  finished_keeps (s ∷ steps) cs out context w name h is = elim (outcome_cases (s.run context w).0) [
    | inl (next, e) ↦
        let kept = updates.update s.type_name (with_status true) cs in
        finished_keeps steps kept out next (s.run context w).1 name (ground (arith, h, e))
          (ground (arith, updates.status_of-update s.type_name name (with_status true) cs, is))
    | inr (inl (next, when, e)) ↦ ground (arith, h, e)
    | inr (inr (error, e)) ↦ ground (arith, h, e)
  ]

  -- When all steps got done, the condition of each of them is "True".
  run_steps-finished :
      (steps : List (Step Context World)) (cs out : Conditions) (context : Context) (w : World)
      → finished (run_steps updates steps cs context w).0 ≡ some out
      → All (λ s. status_of s.type_name out ≡ some "True") steps
  unfolding run_steps
  run_steps-finished [] cs out context w h = tt
  run_steps-finished (s ∷ steps) cs out context w h = elim (outcome_cases (s.run context w).0) [
    | inl (next, e) ↦
        let kept = updates.update s.type_name (with_status true) cs in
        let rest : finished (run_steps updates steps kept next (s.run context w).1).0 ≡ some out =
          ground (arith, h, e) in
        (
          finished_keeps steps kept out next (s.run context w).1 s.type_name rest (
              ground (
                arith,
                updates.status_of-update s.type_name s.type_name (with_status true) cs,
                beq_refl s.type_name,
              )),
          run_steps-finished steps kept out next (s.run context w).1 rest,
        )
    | inr (inl (next, when, e)) ↦ ground (arith, h, e)
    | inr (inr (error, e)) ↦ ground (arith, h, e)
  ]

  skip_keeps :
      (steps : List (Step Context World)) (context : Context) (cs : Conditions) (name : String)
      → IsFree name steps
      → status_of name (skip updates steps context cs).1 ≡ status_of name cs
  unfolding skip
  skip_keeps [] context cs name free = refl
  skip_keeps (s ∷ steps) context cs name free =
      let r = s.when_skipped context in
      skip_keeps steps r.0 (updates.update s.type_name r.1 cs) name free.1
      ∙ ground (arith, updates.status_of-update s.type_name name r.1 cs, free.0)

  fail_rest_keeps :
      (steps : List (Step Context World)) (cs : Conditions) (name : String)
      → IsFree name steps
      → status_of name (fail_rest updates steps cs) ≡ status_of name cs
  unfolding fail_rest
  fail_rest_keeps [] cs name free = refl
  fail_rest_keeps (s ∷ steps) cs name free =
      fail_rest_keeps steps (updates.update s.type_name s.when_failed cs) name free.1
      ∙ ground (arith, updates.status_of-update s.type_name name s.when_failed cs, free.0)

  -- A run that stops at a step does not let the resource be ready, if the steps have names of their
  -- own: the condition of that step is not met, whatever the steps behind it set theirs to.
  pub run_steps-stopped :
      (steps : List (Step Context World)) (cs out : Conditions) (context : Context) (w : World)
      (reconciled : ConditionStatus)
      → AreDistinct steps
      → stopped (run_steps updates steps cs context w).0 ≡ some out
      → is_empty (eval_ready (updates.update "Reconciled" reconciled out)) ≡ false
  unfolding run_steps
  run_steps-stopped [] cs out context w reconciled distinct h = cc
  run_steps-stopped (s ∷ steps) cs out context w reconciled distinct h =
      elim (outcome_cases (s.run context w).0) [
        | inl (next, e) ↦
            run_steps-stopped steps (updates.update s.type_name (with_status true) cs) out next
              (s.run context w).1 reconciled distinct.2 (ground (arith, h, e))
        | inr (inl (next, when, e)) ↦
            let cs1 = updates.update s.type_name (with_status false) cs in
            let here : status_of s.type_name cs1 ≡ some "False" = ground (
              arith,
              updates.status_of-update s.type_name s.type_name (with_status false) cs,
              beq_refl s.type_name,
            ) in
            let same : (skip updates steps next cs1).1 ≡ out = ground (arith, h, e) in
            waits_reconciled updates out s.type_name "False" reconciled
              (rw (← same) (skip_keeps steps next cs1 s.type_name distinct.1 ∙ here)) refl
              distinct.0
        | inr (inr (error, e)) ↦
            let status : ConditionStatus = record unknown {
              reason = some "Failed";
              message = some (updates.error_text error);
            } in
            let cs1 = updates.update s.type_name status cs in
            let here : status_of s.type_name cs1 ≡ some "Unknown" = ground (
              arith,
              updates.status_of-update s.type_name s.type_name status cs,
              beq_refl s.type_name,
            ) in
            let same : fail_rest updates steps cs1 ≡ out = ground (arith, h, e) in
            waits_reconciled updates out s.type_name "Unknown" reconciled
              (rw (← same) (fail_rest_keeps steps cs1 s.type_name distinct.1 ∙ here)) refl
              distinct.0
      ]
