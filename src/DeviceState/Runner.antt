-- ===== src/DeviceState/Runner.antt =====
-- service-common/src/state/mod.rs: the start of `StateController`, and `StateRunner`, which keeps the
-- session of an endpoint alive. Times are in milliseconds. The clock, and what the state service
-- answers, are given with each attempt; a loop that still waits at the end of them is not over.
pub mod Lifetime
mod Tests
use drogue_cloud.Base.{
  ℕ, zero, suc, ◌+◌, ◌-◌, String, Bool, true, false, List, [], ◌∷◌, ◌++◌, Option, none, some,
  if◌then◌else◌, ltb,
}
use drogue_cloud.DeviceState.{StateId}
use drogue_cloud.DeviceState.Mux.{Mux, Notice, handle_lost as mux_handle_lost}

pub record InitResponse : Type 0 where
  pub session : String
  pub expires : ℕ

pub data InitOutcome : Type 0 where
  init_done : InitResponse → InitOutcome
  init_failed init_pending : InitOutcome

-- The loop of `StateController::new`. An answer is a response, or a failure.
unfoldable pub init : List (Option InitResponse) → ℕ → InitOutcome
init [] attempts = init_pending
init (some response ∷ answers) attempts = init_done response
init (none ∷ answers) zero = init_failed
init (none ∷ answers) (suc attempts) = init answers attempts

pub record StateRunner : Type 0 where
  pub delay_buffer : ℕ
  pub min_delay_ms : ℕ

-- A deadline that has passed gives a negative delay, which is less than the minimum; here it is 0,
-- and the minimum is what counts then too.
unfoldable pub next_deadline : StateRunner → ℕ → ℕ → ℕ × ℕ
next_deadline self now expires =
    let delay = (expires - self.delay_buffer) - now in
    let delay = if ltb delay self.min_delay_ms then self.min_delay_ms else delay in
    (expires, now + delay)

unfoldable pub handle_lost : Mux → List StateId → Mux × List Notice
handle_lost mux [] = (mux, [])
handle_lost mux (id ∷ lost_ids) =
    let one = mux_handle_lost mux id in
    let rest = handle_lost one.0 lost_ids in (rest.0, one.1 ++ rest.1)

pub data PingAnswer : Type 0 where
  pinged : (lost_ids : List StateId) → (expires : ℕ) → PingAnswer
  not_initialized ping_failed : PingAnswer

-- One round of the loop of `ping`: when it starts, the answer, and when the answer is there.
pub record Attempt : Type 0 where
  pub started : ℕ
  pub answer : PingAnswer
  pub answered : ℕ

pub data PingOutcome : Type 0 where
  ping_pending session_lost session_invalidated : PingOutcome
  ping_done : Mux → List Notice → ℕ × ℕ → PingOutcome

abbrev pub after_answer : StateRunner → Mux → Attempt → PingAnswer → PingOutcome → PingOutcome
after_answer self mux attempt (pinged lost_ids expires) again =
    let handled = handle_lost mux lost_ids in
    ping_done handled.0 handled.1 (next_deadline self attempt.answered expires)
after_answer self mux attempt not_initialized again = session_invalidated
after_answer self mux attempt ping_failed again = again

unfoldable pub ping : StateRunner → Mux → ℕ → List Attempt → PingOutcome
unfolding handle_lost next_deadline
ping self mux expires [] = ping_pending
ping self mux expires (attempt ∷ attempts) =
    let again = ping self mux expires attempts in
    if ltb expires attempt.started
    then session_lost
    else after_answer self mux attempt attempt.answer again

pub data RunOutcome : Type 0 where
  still_running : ℕ × ℕ → RunOutcome
  terminated : RunOutcome

-- The loop of `run`: the attempts of one call of `ping` after the other.
unfoldable pub looping : StateRunner → Mux → ℕ × ℕ → List (List Attempt) → RunOutcome × List Notice
unfolding ping
looping self mux (expires, deadline) [] = (still_running (expires, deadline), [])
looping self mux (expires, deadline) (attempts ∷ rounds) = elim (ping self mux expires attempts) [
  | ping_pending ↦ (still_running (expires, deadline), [])
  | session_lost ↦ (terminated, [])
  | session_invalidated ↦ (terminated, [])
  | ping_done mux' notices next ↦
      let rest = looping self mux' next rounds in (rest.0, notices ++ rest.1)
]
