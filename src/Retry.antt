-- ===== src/Retry.antt =====
-- src/retry.go, with the retry settings of src/queue.go and the constants of src/config.go.
-- Delays are in seconds. The slept delays are part of the loop's result.
pub mod Loop
pub mod Delay
mod Tests
use umans_dash_go.Prelude.{
  ℕ, zero, suc, ◌+◌, ◌-◌, ◌≤◌, ◌<◌, ◌≡◌, refl, Bool, true, false, ◌||◌, Option, none, some, List,
  [], ◌∷◌, ltb, leb, ◌==◌, if◌then◌else◌, ℤ, pos, negsuc, ltb_ℤ, leb_ℤ, Bytes, codes, same, length,
  get_elem?,
}

abbrev pub default_retry_attempts : ℤ
default_retry_attempts = pos 2

abbrev pub max_retry_attempts_cap : ℤ
max_retry_attempts_cap = pos 10

abbrev pub aggressive : List ℕ
aggressive = 1 ∷ 3 ∷ 5 ∷ 10 ∷ 15 ∷ 20 ∷ 25 ∷ 30 ∷ 45 ∷ 60 ∷ []

abbrev pub conservative : List ℕ
conservative = 5 ∷ 15 ∷ 30 ∷ 45 ∷ 60 ∷ 120 ∷ 180 ∷ 240 ∷ 300 ∷ []

-- `BackoffPresets[name]`.
unfoldable pub backoff_presets : Bytes → Option (List ℕ)
backoff_presets name =
    if same name (codes "aggressive")
    then some aggressive
    else if same name (codes "conservative")
    then some conservative
    else none

-- The snapshot under `retryConfigMu`.
pub record RetryConfig : Type 0 where
  pub retry_attempts : ℤ
  pub backoff_strategy : Bytes

unfoldable pub get_retry_attempts : RetryConfig → ℤ
get_retry_attempts c =
    let n = if ltb_ℤ c.retry_attempts (pos 0) then default_retry_attempts else c.retry_attempts in
    if ltb_ℤ max_retry_attempts_cap n then max_retry_attempts_cap else n

unfoldable pub get_backoff_strategy : RetryConfig → Bytes
get_backoff_strategy c =
    if same c.backoff_strategy [] then codes "aggressive" else c.backoff_strategy

abbrev pub set_retry_config : ℤ → Bytes → RetryConfig
set_retry_config attempts strategy = record {
  retry_attempts = attempts;
  backoff_strategy = strategy;
}

-- The preset with the fallback to the aggressive one.
unfoldable pub preset_of : RetryConfig → List ℕ
unfolding backoff_presets get_backoff_strategy
preset_of c = elim (backoff_presets (get_backoff_strategy c)) [
  | none ↦ aggressive
  | some [] ↦ aggressive
  | some (d ∷ ds) ↦ d ∷ ds
]

-- `idx` of `getRetryDelay`: `attempt - 1`, clamped to the preset.
abbrev pub delay_index : ℤ → ℕ → ℕ
delay_index (negsuc a) n = 0
delay_index (pos a) n = if leb n (a - 1) then n - 1 else a - 1

abbrev pub or_zero : Option ℕ → ℕ
or_zero none = 0
or_zero (some d) = d

unfoldable pub get_retry_delay : RetryConfig → ℤ → ℕ
unfolding preset_of
get_retry_delay c attempt =
    let preset = preset_of c in
    if length preset == 0
    then 1
    else or_zero (get_elem? preset (delay_index attempt (length preset)))

-- What the callback returns: `err` non-nil, or `retry`.
pub data Verdict (E : Type 0) : Type 0 where
  failed : E → Verdict E
  retry : Verdict E
  done : Verdict E

-- The result of the loop: its error, if any, with `(bool, error)` as `finished` or `aborted`.
pub data Ending (E : Type 0) : Type 0 where
  finished : Ending E
  aborted : E → Ending E

-- The callback over the state that it shares with its caller.
abbrev pub Callback : Type 0 → Type 0 → Type 0
Callback S E = ℕ → Bool → S → S × Verdict E

-- `attempt == maxAttempts`, where the attempts left behind this one are counted.
abbrev pub no_more : ℕ → Bool
no_more zero = true
no_more (suc left) = false

-- What follows an attempt: stop, or sleep unless it was the last one and go on with `rest`.
unfoldable pub next_attempt :
    {S E : Type 0}
    → (ℕ → ℕ)
    → ℕ
    → Bool
    → S
    → Verdict E
    → S × List ℕ × Ending E
    → S × List ℕ × Ending E
next_attempt delay attempt is_last s (failed e) rest = (s, [], aborted e)
next_attempt delay attempt is_last s done rest = (s, [], finished)
next_attempt delay attempt is_last s retry (s', slept, ending) =
    (s', (if is_last then slept else delay attempt ∷ slept), ending)

module _ {S E : Type 0} (delay : ℕ → ℕ) (fn : Callback S E) where
  -- The `for` loop from `attempt` on, with the attempts left; the delays slept are collected.
  unfoldable pub attempts : ℕ → ℕ → S → S × List ℕ × Ending E
  attempts zero attempt s = (s, [], finished)
  attempts (suc left) attempt s =
      let (s', verdict) = fn attempt (no_more left) s in
      let rest = attempts left (attempt + 1) s' in
      next_attempt delay attempt (no_more left) s' verdict rest

-- One run with `isLast`, whose `retry` is ignored.
unfoldable pub ending_of : {E : Type 0} → Verdict E → Ending E
ending_of (failed e) = aborted e
ending_of retry = finished
ending_of done = finished

unfoldable pub single : {S E : Type 0} → Callback S E → S → S × List ℕ × Ending E
single fn s = let (s', verdict) = fn 1 true s in (s', [], ending_of verdict)

unfoldable pub retry_loop : {S E : Type 0} → RetryConfig → Callback S E → S → S × List ℕ × Ending E
unfolding single ending_of attempts next_attempt get_retry_attempts get_retry_delay
retry_loop c fn s = elim (get_retry_attempts c) [
  | negsuc n ↦ single fn s
  | pos zero ↦ single fn s
  | pos (suc n) ↦ attempts (λ a. get_retry_delay c (pos a)) fn (suc n) 1 s
]

unfoldable pub is_retryable_status : ℕ → Bool
is_retryable_status status = status == 500 || (status == 503 || status == 502)
