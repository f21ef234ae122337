-- ===== src/DeviceState/Runner/Tests.antt =====
-- The runner at concrete times.
use drogue_cloud.Base.{ℕ, ◌+◌, ◌≤◌, ◌<◌, ◌≡◌, ◌⊎◌, refl, [], ◌∷◌, arith}
use drogue_cloud.DeviceState.Mux.{new}
use drogue_cloud.DeviceState.Runner.{
  StateRunner, Attempt, ping_failed, still_running, terminated, next_deadline, looping,
}
use drogue_cloud.DeviceState.Runner.Lifetime.{next_deadline-le, looping-expired}

abbrev runner : StateRunner
runner = record { delay_buffer = 5000; min_delay_ms = 1000 }

abbrev unreachable_at : ℕ → Attempt
unreachable_at now = record { started = now; answer = ping_failed; answered = now }

next_deadline-le_example :
    (100 + 1000 ≤ (next_deadline runner 100 30000).1)
    × (((next_deadline runner 100 30000).1 + 5000 ≤ 30000)
        ⊎ ((next_deadline runner 100 30000).1 ≡ 100 + 1000))
    × ((30000 < 100 + 1000 + 5000) ⊎ ((next_deadline runner 100 30000).1 + 5000 ≡ 30000))
next_deadline-le_example = next_deadline-le runner 100 30000

looping-expired_example :
    (looping runner new (30000, 25000) ((unreachable_at 29900 ∷ unreachable_at 30000 ∷ []) ∷ [])
      ≡ (still_running (30000, 25000), []))
    × (looping runner new
          (30000, 25000)
          ((unreachable_at 29900 ∷ unreachable_at 30000 ∷ unreachable_at 30100 ∷ []) ∷ [])
        ≡ (terminated, []))
looping-expired_example =
    looping-expired runner new 30000 25000 (unreachable_at 29900 ∷ unreachable_at 30000 ∷ [])
      (unreachable_at 30100) [] [] ((refl, omega arith), ((refl, omega arith), tt)) (omega arith)
