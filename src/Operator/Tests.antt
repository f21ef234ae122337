-- ===== src/Operator/Tests.antt =====
-- Controllers and reconciliations at concrete inputs.
use drogue_cloud.Base.{
  ℕ, zero, suc, ◌≤◌, ◌<◌, String, ◌≡◌, refl, ◌⊎◌, true, false, List, [], ◌∷◌, Option, none, some,
  Result, ok, arith, is_empty, string_eq,
}
use drogue_cloud.Operator.{ReconcileError, OperationOutcome, complete, retry_now}
use drogue_cloud.Operator.Controller.{process_key, max_retries}
use drogue_cloud.Operator.Retries.{process_key_result, decides, after}
use drogue_cloud.Operator.Progressor.{
  ConditionStatus, unknown, with_status, Conditions, ConditionUpdate, status_text, proceed, again,
  Step, run_steps, skip,
}
use drogue_cloud.Operator.Ready.{eval_ready}
use drogue_cloud.Operator.Progressing.{finished, stopped, AreDistinct, run_steps-stopped}

-- An operation that asks for three retries.
abbrev countdown : ℕ → Result ReconcileError OperationOutcome × ℕ
countdown zero = (ok complete, zero)
countdown (suc n) = (ok retry_now, n)

process_key_result_example :
    ((m : ℕ) × (m ≤ max_retries)
      × ((delay : Option ℕ) × (decides countdown m 3 ≡ some delay)
          × (process_key countdown 11 0 3 ≡ some (delay, after countdown (suc m) 3)))
      × ((k : ℕ) → k < m → decides countdown k 3 ≡ none))
    ⊎ (((k : ℕ) → k ≤ max_retries → decides countdown k 3 ≡ none)
        × (process_key countdown 11 0 3 ≡ some (some 0, after countdown 11 3)))
process_key_result_example = process_key_result countdown 11 3 (omega arith)

three_retries : process_key countdown 11 0 3 ≡ some (none, 0)
unfolding process_key
three_retries = refl

too_many_retries : process_key countdown 11 0 30 ≡ some (some 0, 19)
unfolding process_key
too_many_retries = refl

-- Conditions with the newest first.
abbrev prepend : String → ConditionStatus → Conditions → Conditions
prepend name s cs =
    record {
      type_name = name;
      status = status_text s.status;
      reason = s.reason;
      message = s.message;
    }
    ∷ cs

abbrev updates : ConditionUpdate
updates = record {
  update = prepend;
  error_text = λ e. "error";
  status_of-update = λ name key s cs. refl;
}

-- A step that counts, and one that wants to be called again.
abbrev counting : String → Step ℕ ℕ
counting name = record {
  type_name = name;
  run = λ context w. (proceed (suc context), suc w);
  when_skipped = λ context. (context, with_status true);
  when_failed = unknown;
}

abbrev waiting : Step ℕ ℕ
waiting = record (counting "Waiting") { run = λ context w. (again context none, w) }

abbrev two_steps : List (Step ℕ ℕ)
two_steps = counting "First" ∷ counting "Second" ∷ []

abbrev two_done : Conditions
two_done = prepend "Second" (with_status true) (prepend "First" (with_status true) [])

two_finished : finished (run_steps updates two_steps [] 0 0).0 ≡ some two_done
unfolding run_steps
two_finished = refl

abbrev three_steps : List (Step ℕ ℕ)
three_steps = counting "First" ∷ waiting ∷ counting "Second" ∷ []

abbrev left_waiting : Conditions
left_waiting =
    prepend "Second" (with_status true)
      (prepend "Waiting" (with_status false) (prepend "First" (with_status true) []))

three_stopped : stopped (run_steps updates three_steps [] 0 0).0 ≡ some left_waiting
unfolding run_steps skip
three_stopped = refl

three_steps-AreDistinct : AreDistinct updates three_steps
three_steps-AreDistinct = (refl, (refl, (refl, tt)), (refl, (refl, tt), (refl, tt, tt)))

run_steps-stopped_example :
    is_empty (eval_ready (updates.update "Reconciled" (with_status true) left_waiting)) ≡ false
run_steps-stopped_example =
    run_steps-stopped updates three_steps [] left_waiting 0 0 (with_status true)
      three_steps-AreDistinct three_stopped
