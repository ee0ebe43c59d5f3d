-- ===== src/Retry/Loop.antt =====
-- `retryLoop`, `getRetryAttempts` and `getRetryDelay`: how often the callback runs, with which
-- flags and results, and after which delays.
use umans_dash_go.Prelude.{
  ℕ, zero, suc, ◌+◌, ◌≤◌, ◌≡◌, refl, ap, ◌∙◌, inl, inr, Bool, true, false, List, [], ◌∷◌, ◌++◌,
  arith, ltb, ℤ, pos, negsuc, Bool-cases,
}
use mathlib.Core.List.{append_assoc}
use umans_dash_go.Retry.{
  RetryConfig, Callback, Verdict, failed, retry, done, Ending, finished, attempts, single,
  ending_of, retry_loop, get_retry_attempts, next_attempt, get_retry_delay, no_more,
}

-- A call: its attempt number, its flag, and what it returned.
abbrev pub Made : Type 0 → Type 0
Made E = ℕ × Bool × Verdict E

-- The callback with a log of its calls, oldest first.
unfoldable pub logged : {S E : Type 0} → Callback S E → Callback (S × List (Made E)) E
logged fn attempt is_last (s, log) =
    let (s', verdict) = fn attempt is_last s in
    ((s', log ++ (attempt, is_last, verdict) ∷ []), verdict)

-- `calls` calls that asked for a retry with more attempts left, and the one behind them, which
-- returned `last` with `left` more attempts allowed.
unfoldable pub trace : {E : Type 0} → ℕ → ℕ → ℕ → Verdict E → List (Made E)
trace attempt zero zero last = (attempt, true, last) ∷ []
trace attempt zero (suc left) last = (attempt, false, last) ∷ []
trace attempt (suc calls) left last = (attempt, false, retry) ∷ trace (attempt + 1) calls left last

trace_single :
    {E : Type 0} (attempt left : ℕ) (last : Verdict E)
    → (attempt, no_more left, last) ∷ [] ≡ trace attempt zero left last
unfolding trace
trace_single attempt zero last = refl
trace_single attempt (suc left) last = refl

-- The delays behind the first `n` calls.
unfoldable pub pauses : (ℕ → ℕ) → ℕ → ℕ → List ℕ
pauses delay attempt zero = []
pauses delay attempt (suc n) = delay attempt ∷ pauses delay (attempt + 1) n

-- `calls` calls asked for a retry and were followed by another one after a delay; the call behind them
-- returned `last`. It was the last one allowed, with no attempts `unused`, or it asked for no retry. The loop
-- has an error exactly where that call returned one.
pub record Ran {S E : Type 0} (delay : ℕ → ℕ) (left attempt : ℕ) (log : List (Made E))
    (r : (S × List (Made E)) × List ℕ × Ending E) : Type 0 where
  pub calls : ℕ
  pub unused : ℕ
  pub last : Verdict E
  pub within : left ≡ suc (calls + unused)
  pub logs : r.0.1 ≡ log ++ trace attempt calls unused last
  pub sleeps : r.1 ≡ pauses delay attempt calls
  pub early : last ≡ retry → unused ≡ 0
  pub ends : r.2 ≡ ending_of last

module _ {S E : Type 0} (delay : ℕ → ℕ) (fn : Callback S E) where
  Ran-once :
      (left attempt : ℕ) (s : S) (log : List (Made E)) (v : Verdict E)
      → (v ≡ retry → left ≡ 0)
      → Ran delay
          (suc left)
          attempt
          log
          ((s, log ++ (attempt, no_more left, v) ∷ []), [], ending_of v)
  unfolding trace pauses
  Ran-once left attempt s log v early = record {
    calls = 0;
    unused = left;
    last = v;
    within = omega arith;
    logs = ap (log ++◌) (trace_single attempt left v);
    sleeps = refl;
    early = early;
    ends = refl;
  }

  next_attempt-Ran :
      (left attempt : ℕ) (s : S) (log : List (Made E)) (v : Verdict E)
      (r : (S × List (Made E)) × List ℕ × Ending E)
      → Ran delay (suc left) (attempt + 1) (log ++ (attempt, false, v) ∷ []) r
      → Ran delay
          (suc (suc left))
          attempt
          log
          (next_attempt delay attempt false (s, log ++ (attempt, false, v) ∷ []) v r)
  unfolding next_attempt trace pauses ending_of
  next_attempt-Ran left attempt s log (failed e) r h =
      Ran-once (suc left) attempt s log (failed e) (λ d. absurd (ground (arith, d)))
  next_attempt-Ran left attempt s log done r h =
      Ran-once (suc left) attempt s log done (λ d. absurd (ground (arith, d)))
  next_attempt-Ran left attempt s log retry r h = record {
    calls = suc h.calls;
    unused = h.unused;
    last = h.last;
    within = omega (arith, h.within);
    logs =
        h.logs
        ∙ append_assoc log ((attempt, false, retry) ∷ [])
            (trace (attempt + 1) h.calls h.unused h.last);
    sleeps = ap (◌∷◌ (delay attempt)) h.sleeps;
    early = h.early;
    ends = h.ends;
  }

  last_attempt-Ran :
      (attempt : ℕ) (s : S) (log : List (Made E)) (v : Verdict E)
      → Ran {E = E} delay 1 attempt log (
          next_attempt delay attempt true
            (s, log ++ (attempt, true, v) ∷ [])
            v
            ((s, log ++ (attempt, true, v) ∷ []), [], finished))
  unfolding next_attempt ending_of
  last_attempt-Ran attempt s log (failed e) = Ran-once 0 attempt s log (failed e) (λ d. refl)
  last_attempt-Ran attempt s log done = Ran-once 0 attempt s log done (λ d. refl)
  last_attempt-Ran attempt s log retry = Ran-once 0 attempt s log retry (λ d. refl)

  attempts-Ran :
      (left attempt : ℕ) (s : S) (log : List (Made E))
      → Ran delay (suc left) attempt log (attempts delay (logged fn) (suc left) attempt (s, log))
  unfolding attempts logged
  attempts-Ran zero attempt s log =
      last_attempt-Ran attempt (fn attempt true s).0 log (fn attempt true s).1
  attempts-Ran (suc left) attempt s log =
      next_attempt-Ran left attempt (fn attempt false s).0 log (fn attempt false s).1 _ (
        attempts-Ran left (attempt + 1) (fn attempt false s).0
          (log ++ (attempt, false, (fn attempt false s).1) ∷ []))

single-Ran :
    {S E : Type 0} (delay : ℕ → ℕ) (fn : Callback S E) (s : S)
    → Ran delay 1 1 [] (single (logged fn) (s, []))
unfolding single logged
single-Ran delay fn s = Ran-once delay fn 0 1 (fn 1 true s).0 [] (fn 1 true s).1 (λ d. refl)

-- The attempts that a configuration allows: at least one.
unfoldable pub allowed : RetryConfig → ℕ
allowed c = elim (get_retry_attempts c) [ negsuc n ↦ 1 | pos zero ↦ 1 | pos (suc n) ↦ suc n ]

-- `getRetryAttempts` lies between 0 and 10, whatever the configuration holds.
pub get_retry_attempts_bounds :
    (c : RetryConfig) → (n : ℕ) × (get_retry_attempts c ≡ pos n) × (n ≤ 10)
unfolding get_retry_attempts
get_retry_attempts_bounds c = go c.retry_attempts
  where
    go :
        (a : ℤ)
        → (n : ℕ) × (get_retry_attempts (record c { retry_attempts = a }) ≡ pos n) × (n ≤ 10)
    go (pos n) = elim (Bool-cases (ltb 10 n)) [
      | inl big ↦ (10, ground arith, omega arith)
      | inr small ↦ (n, ground arith, ground arith)
    ]
    go (negsuc n) = (2, ground arith, omega arith)

-- The retry loop runs its callback at least once and at most as often as the configuration allows,
-- which is 1 for a retry count of 0 and the count otherwise, 10 at most. The attempts are numbered
-- from 1 and only the last allowed one is flagged as last. An attempt that asks for a retry is followed by
-- the next one after its delay, unless it was the last one allowed; any other attempt ends the loop. The loop
-- ends with an error exactly where the attempt that ended it returned that error.
pub retry_loop-Ran :
    {S E : Type 0} (c : RetryConfig) (fn : Callback S E) (s : S)
    → Ran (λ a. get_retry_delay c (pos a)) (allowed c) 1 [] (retry_loop c (logged fn) (s, []))
      × (allowed c ≤ 10)
unfolding retry_loop allowed
retry_loop-Ran {S} {E} c fn s = go (get_retry_attempts c) (get_retry_attempts_bounds c)
  where
    delay : ℕ → ℕ
    delay a = get_retry_delay c (pos a)

    go :
        (a : ℤ)
        → (n : ℕ) × (a ≡ pos n) × (n ≤ 10)
        → Ran {S = S} {E = E} delay
            (elim a as (λ _. ℕ) [ negsuc n ↦ 1 | pos zero ↦ 1 | pos (suc n) ↦ suc n ])
            1
            []
            (elim a [
              | negsuc n ↦ single (logged fn) (s, [])
              | pos zero ↦ single (logged fn) (s, [])
              | pos (suc n) ↦ attempts delay (logged fn) (suc n) 1 (s, [])
            ])
          × (elim a as (λ _. ℕ) [ negsuc n ↦ 1 | pos zero ↦ 1 | pos (suc n) ↦ suc n ] ≤ 10)
    go (negsuc n) (m, e, small) = absurd (ground arith)
    go (pos zero) (m, e, small) = (single-Ran delay fn s, omega arith)
    go (pos (suc n)) (m, e, small) = (attempts-Ran delay fn n 1 s [], ground arith)
