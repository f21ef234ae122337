-- ===== src/DeviceState/Runner/Lifetime.antt =====
-- service-common/src/state/mod.rs: when the session of an endpoint is kept alive, and when it ends.
use mathlib.Core.List.{append-nil}
use drogue_cloud.Base.{
  ℕ, ◌+◌, ◌-◌, ◌≤◌, ◌<◌, ◌≡◌, ◌⊎◌, refl, ap, sym, ◌∙◌, List, [], ◌∷◌, ◌++◌, arith, Bool-cases, inl,
  inr, ltb, All,
}
use drogue_cloud.DeviceState.Mux.{Mux}
use drogue_cloud.DeviceState.Runner.{
  StateRunner, next_deadline, Attempt, ping_failed, ping_pending, session_lost, ping, still_running,
  terminated, looping,
}

near :
    (self : StateRunner) (now expires : ℕ)
    → self.min_delay_ms ≤ expires - self.delay_buffer - now
    → let deadline = now + (expires - self.delay_buffer - now) in
      (deadline + self.delay_buffer ≤ expires) ⊎ (deadline ≡ now + self.min_delay_ms)
near self now expires enough = elim (Bool-cases (ltb now (expires - self.delay_buffer))) [
  | inl p ↦ inl (ground (arith, p))
  | inr p ↦ inr (ground (arith, p, enough))
]

exact_or_late :
    (self : StateRunner) (now expires : ℕ)
    → let deadline = now + (expires - self.delay_buffer - now) in
      (expires < now + self.min_delay_ms + self.delay_buffer)
      ⊎ (deadline + self.delay_buffer ≡ expires)
exact_or_late self now expires =
    elim (Bool-cases (ltb expires (now + self.min_delay_ms + self.delay_buffer))) [
      | inl p ↦ inl (ground (arith, p))
      | inr p ↦ inr (ground (arith, p))
    ]

-- The next ping is not due before the minimal delay. It is due at least `delay_buffer` before the
-- session expires, unless the minimal delay is all there is left to wait. It is due
-- exactly `delay_buffer` before that, unless there is no time for the minimal delay and the buffer.
pub next_deadline-le :
    (self : StateRunner) (now expires : ℕ)
    → let deadline = (next_deadline self now expires).1 in
      (now + self.min_delay_ms ≤ deadline)
      × ((deadline + self.delay_buffer ≤ expires) ⊎ (deadline ≡ now + self.min_delay_ms))
      × ((expires < now + self.min_delay_ms + self.delay_buffer)
          ⊎ (deadline + self.delay_buffer ≡ expires))
unfolding next_deadline
next_deadline-le self now expires =
    let delay = expires - self.delay_buffer - now in
    elim (Bool-cases (ltb delay self.min_delay_ms)) [
      | inl p ↦ rw p (omega arith, inr refl, inl (ground (arith, p)))
      | inr p ↦ rw p (
        ground (arith, p),
        near self now expires (ground (arith, p)),
        exact_or_late self now expires,
      )
    ]

-- The attempts that fail, while the session has not expired.
abbrev pub Failing : ℕ → List Attempt → Type 0
Failing expires =
    All (λ (attempt : Attempt). (attempt.answer ≡ ping_failed) × (attempt.started ≤ expires))

-- A service that cannot be reached: the loop goes on with the attempts that come then.
ping-append :
    (self : StateRunner) (mux : Mux) (expires : ℕ) (failed attempts : List Attempt)
    → Failing expires failed
    → ping self mux expires (failed ++ attempts) ≡ ping self mux expires attempts
unfolding ping
ping-append self mux expires [] attempts h = refl
ping-append self mux expires (attempt ∷ failed) attempts h =
    ground (arith, h.0.0, h.0.1, ping-append self mux expires failed attempts h.1)

-- If attempts to reach the state service fail before the session expired, the runner runs on. With
-- the first attempt that starts after the session expired it ends, whatever would be answered. No
-- watcher is told anything.
pub looping-expired :
    (self : StateRunner) (mux : Mux) (expires deadline : ℕ) (failed : List Attempt) (late : Attempt)
    (attempts : List Attempt) (rounds : List (List Attempt))
    → Failing expires failed
    → expires < late.started
    → (looping self mux (expires, deadline) (failed ∷ rounds)
        ≡ (still_running (expires, deadline), []))
      × (looping self mux (expires, deadline) ((failed ++ late ∷ attempts) ∷ rounds)
          ≡ (terminated, []))
unfolding looping ping
looping-expired self mux expires deadline failed late attempts rounds h lt =
    let waiting : ping self mux expires failed ≡ ping_pending =
      ap (ping self mux expires) (sym (append-nil failed))
      ∙ ping-append self mux expires failed [] h in
    let lost : ping self mux expires (failed ++ late ∷ attempts) ≡ session_lost =
      ping-append self mux expires failed (late ∷ attempts) h ∙ ground (arith, lt) in
    (rw (looping, waiting) refl, rw (looping, lost) refl)
