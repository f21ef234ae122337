-- ===== src/DeviceState/Attempts.antt =====
-- service-common/src/state/mod.rs: how often `StateController` calls the device state service.
use drogue_cloud.Base.{
  ℕ, zero, suc, ◌+◌, ◌-◌, ◌^◌, ◌≤◌, ◌<◌, ◌≡◌, refl, ◌∙◌, Bool, true, false, List, [], ◌∷◌, ◌++◌,
  some, arith,
}
use drogue_cloud.DeviceState.Controller.{
  CreateAnswer, created, occupied, create_done, create_occupied, create, decrement, after_failure,
  delete,
}

abbrev pub replicate {ℓ} : {A : Type ℓ} → ℕ → A → List A
replicate zero x = []
replicate (suc n) x = x ∷ replicate n x

-- A device that becomes free after some answers is created, if no more of them than the attempts
-- said that it is occupied.
create_in_time :
    (busy attempts : ℕ) (answers : List CreateAnswer)
    → busy ≤ attempts
    → create (replicate busy occupied ++ created ∷ answers) attempts ≡ create_done
unfolding create
create_in_time zero attempts answers few = refl
create_in_time (suc busy) zero answers few = absurd (omega (arith, few))
create_in_time (suc busy) (suc attempts) answers few =
    create_in_time busy attempts answers (omega (arith, few))

-- With one answer more that says so, the call ends, and the device counts as occupied.
create_too_late :
    (attempts : ℕ) (answers : List CreateAnswer)
    → create (replicate (suc attempts) occupied ++ answers) attempts ≡ create_occupied
unfolding create
create_too_late zero answers = refl
create_too_late (suc attempts) answers = create_too_late attempts answers

decrement-suc : (n : ℕ) → n < 2 ^ 64 → decrement (suc n) ≡ n
unfolding decrement
decrement-suc n small = omega (arith, small)

after_failure_more :
    (k : ℕ) (has_kill : Bool)
    → suc k < 2 ^ 64
    → after_failure (suc (suc k)) has_kill ≡ some (suc k, has_kill)
unfolding after_failure
after_failure_more k has_kill small = ground (arith, decrement-suc (suc k) small)

-- Failed calls while there are attempts left.
delete_failures :
    (n attempts left : ℕ) (answers : List Bool) (has_kill : Bool)
    → attempts ≡ n + suc left
    → attempts < 2 ^ 64
    → delete (replicate n false ++ answers) attempts has_kill ≡ delete answers (suc left) has_kill
unfolding delete
delete_failures zero attempts left answers has_kill h small =
    let same : attempts ≡ suc left = omega (arith, h) in rw same refl
delete_failures (suc n) zero left answers has_kill h small = absurd (omega (arith, h))
delete_failures (suc n) (suc zero) left answers has_kill h small = absurd (omega (arith, h))
delete_failures (suc n) (suc (suc k)) left answers has_kill h small = ground (
  arith,
  after_failure_more k has_kill (omega (arith, small)),
  delete_failures n (suc k) left answers has_kill (omega (arith, h)) (omega (arith, small)),
)

-- With a number of retries that is not 0, and that many calls failed, the runner is told to shut
-- down and the loop goes on. Its counter wraps around, so further failed calls, fewer than 2 ^ 64
-- of them, do not abort the process.
delete_does_not_abort :
    (n more : ℕ) (answers : List Bool)
    → suc n < 2 ^ 64
    → more < 2 ^ 64
    → (left : ℕ) × (delete
          (replicate n false ++ false ∷ (replicate more false ++ answers))
          (suc n)
          true
        ≡ delete answers left false)
unfolding delete after_failure decrement
delete_does_not_abort n zero answers small few =
    (0, delete_failures n (suc n) 0 (false ∷ answers) true (omega arith) small)
delete_does_not_abort n (suc m) answers small few = (
  suc (2 ^ 64 - 2 - m),
  delete_failures n (suc n) 0 (false ∷ false ∷ (replicate m false ++ answers)) true (omega arith)
        small
      ∙ delete_failures m (2 ^ 64 - 1) (2 ^ 64 - 2 - m) answers false (omega (arith, few))
          (omega (arith, few)),
)
