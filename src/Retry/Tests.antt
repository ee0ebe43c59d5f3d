-- ===== src/Retry/Tests.antt =====
-- Runs of the retry loop of src/retry.go.
use umans_dash_go.Prelude.{ℕ, zero, suc, ◌≤◌, ◌≡◌, refl, [], ◌∷◌, pos, codes, same}
use umans_dash_go.Retry.{
  RetryConfig, Callback, retry, done, finished, retry_loop, get_retry_delay, set_retry_config,
}
use umans_dash_go.Retry.Loop.{Ran, allowed, logged, retry_loop-Ran}

abbrev settings : RetryConfig
settings = set_retry_config (pos 3) (codes "conservative")

-- Fails twice, then succeeds.
abbrev flaky : Callback ℕ ℕ
flaky zero is_last n = (n, done)
flaky (suc zero) is_last n = (suc n, retry)
flaky (suc (suc zero)) is_last n = (suc n, retry)
flaky (suc (suc (suc a))) is_last n = (suc n, done)

run : retry_loop settings flaky 0 ≡ (3, 5 ∷ 15 ∷ [], finished)
unfolding retry_loop same
run = refl

exhausted : retry_loop {E = ℕ} settings (λ a l n. (suc n, retry)) 0 ≡ (3, 5 ∷ 15 ∷ [], finished)
unfolding retry_loop same
exhausted = refl

retry_loop-Ran_example :
    Ran
      (λ a. get_retry_delay settings (pos a))
      (allowed settings)
      1
      []
      (retry_loop settings (logged flaky) (0, []))
    × (allowed settings ≤ 10)
retry_loop-Ran_example = retry_loop-Ran settings flaky 0
