-- ===== src/Async/Polling.antt =====
-- When PollUntilTerminal succeeds, and how often it polls.
use mathlib.Core.Path.{subst}
use native.Mathlib.Decide.{ℕ_discrete}
use krateo_rest_dynamic_cont.Base.{
  ℕ, zero, suc, ◌+◌, ◌≤◌, ◌<◌, ◌≡◌, ◌↔◌, ◌⊎◌, inl, inr, ◌∙◌, false, arith, Text, ok,
}
use krateo_rest_dynamic_cont.Definition.{PollConfig}
use krateo_rest_dynamic_cont.Async.{
  PollOutcome, pending, succeeded, classify_status, Polls, poll_from, poll_until_terminal,
  poll_attempts,
}
use krateo_rest_dynamic_cont.Async.Budget.{poll_budget_bounds}

module _ (cfg : PollConfig) (w : Polls) where
  -- Attempt number i runs and its status is classified so.
  abbrev pub Observed : ℕ → PollOutcome → Type 0
  Observed i o =
      (w.expired i ≡ false)
      × ((status : Text) × (w.observe i ≡ ok status) × (classify_status cfg status ≡ o))

  -- Attempt number i is not the last word.
  abbrev pub Passed : ℕ → Type 0
  Passed i = Observed i pending × (w.interrupted i ≡ false)

  poll_step :
      (left i : ℕ)
      → (poll_from cfg w (suc left) i).0 ≡ ok tt
      → Observed i succeeded ⊎ (Passed i × ((poll_from cfg w left (suc i)).0 ≡ ok tt))
  unfolding poll_from
  poll_step zero i h = ground arith
  poll_step (suc left) i h = ground arith

  poll_sound :
      (left i : ℕ)
      → (poll_from cfg w left i).0 ≡ ok tt
      → (n : ℕ) × (i ≤ n)
        × (n < i + left)
        × ((j : ℕ) → i ≤ j → j < n → Passed j)
        × Observed n succeeded
  unfolding poll_from
  poll_sound zero i h = cc
  poll_sound (suc left) i h = elim (poll_step left i h) [
    | inl done ↦ (i, omega arith, omega arith, λ j a b. absurd (omega arith), done)
    | inr (passed, more) ↦
        let (n, low, high, before, done) = poll_sound left (suc i) more in
        (
          n,
          omega arith,
          omega arith,
          λ j a b. elim (ℕ_discrete i j) [
            | yes e ↦ subst Passed e passed
            | no ne ↦ before j (omega arith) b
          ],
          done,
        )
  ]

  poll_done : (left i : ℕ) → Observed i succeeded → (poll_from cfg w (suc left) i).0 ≡ ok tt
  unfolding poll_from
  poll_done left i (live, (status, seen, class)) = rw live (rw seen (rw class))

  poll_on :
      (left i : ℕ)
      → Passed i
      → (poll_from cfg w (suc (suc left)) i).0 ≡ (poll_from cfg w (suc left) (suc i)).0
  unfolding poll_from
  poll_on left i ((live, (status, seen, class)), on) = ground arith

  poll_complete :
      (left i n : ℕ)
      → i ≤ n
      → n < i + left
      → ((j : ℕ) → i ≤ j → j < n → Passed j)
      → Observed n succeeded
      → (poll_from cfg w left i).0 ≡ ok tt
  poll_complete zero i n low high before done = absurd (omega arith)
  poll_complete (suc zero) i n low high before done =
      poll_done zero i (subst (λ k. Observed k succeeded) (omega arith) done)
  poll_complete (suc (suc left)) i n low high before done = elim (ℕ_discrete n i) [
    | yes e ↦ poll_done (suc left) i (subst (λ k. Observed k succeeded) e done)
    | no ne ↦
        poll_on left i (before i (omega arith) (omega arith))
        ∙ poll_complete (suc left) (suc i) n (omega arith) (omega arith)
            (λ j a b. before j (omega arith) b) done
  ]

  -- A blocking poll succeeds exactly when, within its attempts, some attempt observes a success
  -- status and every attempt before it ran, observed a pending status and slept undisturbed.
  pub poll_until_terminal_succeeds_iff :
      ((poll_until_terminal cfg w).0 ≡ ok tt)
      ↔ ((n : ℕ) × (n < poll_attempts cfg) × ((j : ℕ) → j < n → Passed j) × Observed n succeeded)
  unfolding poll_until_terminal
  poll_until_terminal_succeeds_iff = (
    λ h.
        let (n, low, high, before, done) = poll_sound (poll_attempts cfg) 0 h in
        (n, omega arith, λ j b. before j (omega arith) b, done),
    λ (n, high, before, done).
        poll_complete (poll_attempts cfg) 0 n (omega arith) (omega arith) (λ j a b. before j b)
          done,
  )

  poll_count : (left i : ℕ) → (poll_from cfg w left i).1 ≤ left
  unfolding poll_from
  poll_count zero i = omega arith
  poll_count (suc left) i = ground (arith, poll_count left (suc i))

  -- It polls at most 120 times, and no more often than its attempts.
  pub poll_until_terminal_count :
      ((poll_until_terminal cfg w).1 ≤ poll_attempts cfg) × ((poll_until_terminal cfg w).1 ≤ 120)
  unfolding poll_until_terminal
  poll_until_terminal_count =
      omega (arith, poll_count (poll_attempts cfg) 0, poll_budget_bounds cfg)
