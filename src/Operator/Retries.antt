-- ===== src/Operator/Retries.antt =====
-- operator-common/src/controller/base/mod.rs: the loop of `InnerBaseController::process`.
use drogue_cloud.Base.{
  ℕ, zero, suc, ◌+◌, ◌≤◌, ◌<◌, ◌≡◌, refl, Option, none, some, Result, arith, inl, inr, ◌⊎◌, ltb,
  Bool-cases, Option-cases,
}
use drogue_cloud.Operator.{ReconcileError, OperationOutcome}
use drogue_cloud.Operator.Controller.{decision, process_key, max_retries}

module _ {World : Type 0} (operation : World → Result ReconcileError OperationOutcome × World) where
  -- The world after some calls of the operation.
  unfoldable pub after : ℕ → World → World
  after zero w = w
  after (suc n) w = after n (operation w).1

  -- What the next call decides, after some calls.
  abbrev pub decides : ℕ → World → Option (Option ℕ)
  decides n w = decision (operation (after n w)).0

  process_key_first :
      (n fuel retries : ℕ) (delay : Option ℕ) (w : World)
      → n < fuel
      → retries + n ≤ max_retries
      → ((k : ℕ) → k < n → decides k w ≡ none)
      → decides n w ≡ some delay
      → process_key operation fuel retries w ≡ some (delay, after (suc n) w)
  unfolding process_key after
  process_key_first n zero retries delay w enough few undecided h = absurd (omega (arith, enough))
  process_key_first zero (suc fuel) retries delay w enough few undecided h = ground (arith, h)
  process_key_first (suc n) (suc fuel) retries delay w enough few undecided h = ground (
    arith,
    undecided 0 (omega arith),
    process_key_first n fuel (suc retries) delay (operation w).1 (omega (arith, enough))
        (omega (arith, few)) (λ k less. undecided (suc k) (omega (arith, less))) h,
  )

  process_key_gives_up :
      (n fuel retries : ℕ) (w : World)
      → n < fuel
      → retries + n ≡ max_retries
      → ((k : ℕ) → k ≤ n → decides k w ≡ none)
      → process_key operation fuel retries w ≡ some (some 0, after (suc n) w)
  unfolding process_key after
  process_key_gives_up n zero retries w enough all undecided = absurd (omega (arith, enough))
  process_key_gives_up zero (suc fuel) retries w enough all undecided =
      ground (arith, all, undecided 0 (omega arith))
  process_key_gives_up (suc n) (suc fuel) retries w enough all undecided = ground (
    arith,
    all,
    undecided 0 (omega arith),
    process_key_gives_up n fuel (suc retries) (operation w).1 (omega (arith, enough))
        (omega (arith, all)) (λ k less. undecided (suc k) (omega (arith, less))),
  )

  -- The first of the first calls that decides.
  first_decision :
      (n : ℕ) (w : World)
      → ((m : ℕ) × (m < n)
          × ((delay : Option ℕ) × (decides m w ≡ some delay))
          × ((k : ℕ) → k < m → decides k w ≡ none))
        ⊎ ((k : ℕ) → k < n → decides k w ≡ none)
  unfolding after
  first_decision zero w = inr (λ k less. absurd (omega (arith, less)))
  first_decision (suc n) w = elim (first_decision n w) [
    | inl (m, less, found, before) ↦ inl (m, omega (arith, less), found, before)
    | inr never ↦ elim (Option-cases (decides n w)) [
      | inr found ↦ inl (n, omega arith, found, never)
      | inl h ↦ inr (λ k less. elim (Bool-cases (ltb k n)) [
        | inl below ↦ never k (ground (arith, below))
        | inr above ↦ let same : k ≡ n = ground (arith, above, less) in rw same h
      ])
    ]
  ]

  -- Eleven rounds are enough. Either a call decides, with all calls before it asking for an
  -- immediate retry, and then its decision is the result and nothing is called after it; or
  -- eleven calls in a row ask for a retry, and the key is queued without a delay.
  pub process_key_result :
      (fuel : ℕ) (w : World)
      → max_retries < fuel
      → ((m : ℕ) × (m ≤ max_retries)
          × ((delay : Option ℕ) × (decides m w ≡ some delay)
              × (process_key operation fuel 0 w ≡ some (delay, after (suc m) w)))
          × ((k : ℕ) → k < m → decides k w ≡ none))
        ⊎ (((k : ℕ) → k ≤ max_retries → decides k w ≡ none)
            × (process_key operation fuel 0 w ≡ some (some 0, after 11 w)))
  process_key_result fuel w enough = elim (first_decision 11 w) [
    | inl (m, less, (delay, h), before) ↦ inl (
      m,
      omega (arith, less),
      (
        delay,
        h,
        process_key_first m fuel 0 delay w (omega (arith, less, enough)) (omega (arith, less))
            before h,
      ),
      before,
    )
    | inr never ↦
        let all : (k : ℕ) → k ≤ max_retries → decides k w ≡ none =
          λ k few. never k (omega (arith, few)) in
        inr (all, process_key_gives_up max_retries fuel 0 w enough refl all)
  ]
