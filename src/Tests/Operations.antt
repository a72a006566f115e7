-- ===== src/Tests/Operations.antt =====
-- Concrete asynchronous operations for internal/tools/async.
use krateo_rest_dynamic_cont.Base.{
  ℕ, zero, suc, ◌≤◌, ◌<◌, ◌*◌, ◌≡◌, ◌↔◌, refl, false, [], ◌∷◌, none, some, Text, codes, to_lower,
  is_empty, text_eq, equal_fold, Result, ok,
}
use krateo_rest_dynamic_cont.Async.{
  Polls, second, poll_interval, poll_attempts, poll_timeout, poll_until_terminal, pending,
  succeeded, failed, classify_status, extract_operation_handle, raw_handle, handle_in_header,
  header_get, refine, scalar_to_string,
}
use krateo_rest_dynamic_cont.Async.Budget.{poll_budget_bounds}
use krateo_rest_dynamic_cont.Async.Polling.{
  Passed, Observed, poll_until_terminal_succeeds_iff, poll_until_terminal_count,
}
use krateo_rest_dynamic_cont.Async.Handles.{
  extract_operation_handle-ne-nil, classify_status_iff, IsListed,
}
use krateo_rest_dynamic_cont.Tests.{sample, polling, by_header}

abbrev status_at : ℕ → Result Text
status_at zero = ok (codes "running")
status_at (suc n) = ok (codes "Done")

-- An operation that is done at the second poll.
abbrev quick : Polls
quick = record { expired = λ i. false; observe = status_at; interrupted = λ i. false }

poll_until_terminal_succeeds_iff_example : ((poll_until_terminal polling quick).0 ≡ ok tt) ↔ (
    (n : ℕ) × (n < poll_attempts polling)
    × ((j : ℕ) → j < n → Passed polling quick j)
    × Observed polling quick n succeeded)
poll_until_terminal_succeeds_iff_example = poll_until_terminal_succeeds_iff polling quick

poll_until_terminal_count_example :
    ((poll_until_terminal polling quick).1 ≤ poll_attempts polling)
    × ((poll_until_terminal polling quick).1 ≤ 120)
poll_until_terminal_count_example = poll_until_terminal_count polling quick

poll_budget_bounds_example :
    ((0 < poll_attempts polling) × (poll_attempts polling ≤ 120))
    × ((0 < poll_interval polling) × (poll_interval polling ≤ 60 * second))
    × ((0 < poll_timeout polling) × (poll_timeout polling ≤ 1800 * second))
poll_budget_bounds_example = poll_budget_bounds polling

extract_operation_handle-ne-nil_example : is_empty (codes "op-7") ≡ false
unfolding extract_operation_handle raw_handle handle_in_header header_get refine scalar_to_string
    text_eq to_lower equal_fold
extract_operation_handle-ne-nil_example =
    extract_operation_handle-ne-nil sample (λ n. refl) none
      (some ((codes "Operation-Id", codes "op-7") ∷ [])) by_header (codes "op-7") refl

classify_status_iff_example :
    ((classify_status polling (codes "DONE") ≡ succeeded)
      ↔ IsListed polling.success_values (codes "DONE"))
    × ((classify_status polling (codes "DONE") ≡ failed) ↔ (
        (¬ IsListed polling.success_values (codes "DONE"))
        × IsListed polling.failure_values (codes "DONE")))
    × ((classify_status polling (codes "DONE") ≡ pending) ↔ (
        (¬ IsListed polling.success_values (codes "DONE"))
        × (¬ IsListed polling.failure_values (codes "DONE"))))
classify_status_iff_example = classify_status_iff polling (codes "DONE")
