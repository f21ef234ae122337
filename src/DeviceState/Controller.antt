-- ===== src/DeviceState/Controller.antt =====
-- service-common/src/state/mod.rs: the loops of `StateController`, on the answers of the device state
-- service as a list. A loop that is still waiting at the end of the list is `pending`.
use drogue_cloud.Base.{
  ℕ, zero, suc, ◌+◌, ◌-◌, ◌%◌, ◌^◌, Bool, true, false, List, [], ◌∷◌, Option, none, some,
}

pub data CreateAnswer : Type 0 where
  created occupied create_failed : CreateAnswer

-- `create_recovers` stands for the call of `delete` that follows a failure.
pub data CreationOutcome : Type 0 where
  create_done create_occupied create_recovers create_pending : CreationOutcome

-- `StateController::create`
unfoldable pub create : List CreateAnswer → ℕ → CreationOutcome
create [] attempts = create_pending
create (created ∷ answers) attempts = create_done
create (occupied ∷ answers) zero = create_occupied
create (occupied ∷ answers) (suc attempts) = create answers attempts
create (create_failed ∷ answers) attempts = create_recovers

-- `attempts -= 1` on a `usize`, as it is compiled without checks of overflow.
unfoldable pub decrement : ℕ → ℕ
decrement attempts = (attempts + (2 ^ 64 - 1)) % 2 ^ 64

-- Whether the sender of the kill event is still there, is part of a loop that waits.
pub data DeleteOutcome : Type 0 where
  delete_done delete_aborts : DeleteOutcome
  delete_pending : ℕ → Bool → DeleteOutcome

-- What one failed call leads to: the attempts that are left, and the kill sender.
unfoldable pub after_failure : ℕ → Bool → Option (ℕ × Bool)
unfolding decrement
after_failure attempts has_kill = elim (decrement attempts) [
  | zero ↦ elim has_kill [ true ↦ some (zero, false) | false ↦ none ]
  | suc left ↦ some (suc left, has_kill)
]

-- `StateController::delete`; an answer is whether the call succeeded.
unfoldable pub delete : List Bool → ℕ → Bool → DeleteOutcome
unfolding after_failure
delete [] attempts has_kill = delete_pending attempts has_kill
delete (true ∷ answers) attempts has_kill = delete_done
delete (false ∷ answers) attempts has_kill = elim (after_failure attempts has_kill) [
  | none ↦ delete_aborts
  | some state ↦ delete answers state.0 state.1
]
