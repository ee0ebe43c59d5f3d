-- ===== src/Chat/Rule.antt =====
-- A rule for `retryLoop` of src/retry.go: what a callback ensures on each verdict holds of the loop.
use umans_dash_go.Prelude.{ℕ, zero, suc, ◌+◌, ◌≡◌, Bool, true, false, List, [], ℤ, pos, negsuc}
use umans_dash_go.Retry.{
  RetryConfig, Callback, Verdict, failed, retry, done, Ending, finished, aborted, attempts, single,
  ending_of, next_attempt, get_retry_attempts, get_retry_delay, retry_loop,
}

module _ {S E : Type 0} (Open Closed Broken : S → Type 0) where
  -- What a call ensures: it asks for a retry only where it is not the last one.
  unfoldable pub Good : Bool → S × Verdict E → Type 0
  Good is_last (s, retry) = Open s × (is_last ≡ false)
  Good is_last (s, done) = Closed s
  Good is_last (s, failed e) = Broken s

  unfoldable pub Ended : {A : Type 0} → S × A × Ending E → Type 0
  Ended (s, slept, finished) = Closed s
  Ended (s, slept, aborted e) = Broken s

  next_attempt-Ended :
      (delay : ℕ → ℕ) (attempt : ℕ) (is_last : Bool) (s : S) (v : Verdict E)
      (rest : S × List ℕ × Ending E)
      → Good is_last (s, v)
      → (Open s → is_last ≡ false → Ended rest)
      → Ended (next_attempt delay attempt is_last s v rest)
  unfolding Good Ended next_attempt
  next_attempt-Ended delay attempt is_last s (failed e) rest good more = good
  next_attempt-Ended delay attempt is_last s done rest good more = good
  next_attempt-Ended delay attempt is_last s retry (t, slept, finished) good more =
      more good.0 good.1
  next_attempt-Ended delay attempt is_last s retry (t, slept, aborted e) good more =
      more good.0 good.1

  module _ (fn : Callback S E)
      (good : (attempt : ℕ) (is_last : Bool) (s : S)
        → Open s
        → Good is_last (fn attempt is_last s)) where
    attempts-Ended :
        (delay : ℕ → ℕ) (left attempt : ℕ) (s : S)
        → Open s
        → Ended (attempts delay fn (suc left) attempt s)
    unfolding attempts
    attempts-Ended delay zero attempt s h =
        next_attempt-Ended delay attempt true (fn attempt true s).0 (fn attempt true s).1 _
          (good attempt true s h) (λ h' e. absurd (cc e))
    attempts-Ended delay (suc left) attempt s h =
        next_attempt-Ended delay attempt false (fn attempt false s).0 (fn attempt false s).1 _
          (good attempt false s h)
          (λ h' e. attempts-Ended delay left (attempt + 1) (fn attempt false s).0 h')

    single-Ended : (s : S) → Open s → Ended (single fn s)
    unfolding single Good Ended ending_of
    single-Ended s h = go (fn 1 true s).0 (fn 1 true s).1 (good 1 true s h)
      where
        go : (t : S) (v : Verdict E) → Good true (t, v) → Ended {A = List ℕ} (t, [], ending_of v)
        go t (failed e) g = g
        go t done g = g
        go t retry g = absurd (cc (g.1))

    pub retry_loop-Ended : (c : RetryConfig) (s : S) → Open s → Ended (retry_loop c fn s)
    unfolding retry_loop
    retry_loop-Ended c s h = go (get_retry_attempts c)
      where
        delay : ℕ → ℕ
        delay a = get_retry_delay c (pos a)

        go :
            (a : ℤ)
            → Ended (elim a as (λ _. S × List ℕ × Ending E) [
              | negsuc n ↦ single fn s
              | pos zero ↦ single fn s
              | pos (suc n) ↦ attempts delay fn (suc n) 1 s
            ])
        go (negsuc n) = single-Ended s h
        go (pos zero) = single-Ended s h
        go (pos (suc n)) = attempts-Ended delay n 1 s h
