-- ===== src/Retry/Delay.antt =====
-- `getRetryDelay` of src/retry.go over the presets of src/config.go.
use umans_dash_go.Prelude.{
  ◌&&◌, ℕ, suc, ◌≤◌, ◌≡◌, refl, ◌⊎◌, inl, inr, Bool, true, List, arith, leb, ℤ, pos, length,
  get_elem?, passes, passes_at,
}
use native.Mathlib.Decide.{dec_lt}
use umans_dash_go.Retry.{
  RetryConfig, get_retry_delay, preset_of, aggressive, conservative, or_zero, delay_index,
}

-- Every configuration selects one of the two presets.
preset_of_cases : (c : RetryConfig) → (preset_of c ≡ aggressive) ⊎ (preset_of c ≡ conservative)
unfolding preset_of
preset_of_cases c = ground arith

abbrev pick : List ℕ → ℤ → ℕ
pick preset attempt = or_zero (get_elem? preset (delay_index attempt (length preset)))

get_retry_delay-pick : (c : RetryConfig) (a : ℤ) → get_retry_delay c a ≡ pick (preset_of c) a
unfolding get_retry_delay
get_retry_delay-pick c a = elim (preset_of_cases c) [
  | inl e ↦ rw (e, get_retry_delay)
  | inr e ↦ rw (e, get_retry_delay)
]

abbrev pub Grows : (ℕ → ℕ) → ℕ → Type 0
Grows d a = (1 ≤ d a) × (d a ≤ d (suc a)) × (d (suc a) ≤ 300)

abbrev grows : (ℕ → ℕ) → ℕ → Bool
grows d a = leb 1 (d a) && (leb (d a) (d (suc a)) && leb (d (suc a)) 300)

Grows-grows : (d : ℕ → ℕ) (a : ℕ) → grows d a ≡ true → Grows d a
Grows-grows d a h = ground arith

-- A preset of at most 10 delays that grow, from a table; behind it the last one repeats.
Grows-table :
    (preset : List ℕ) (last : ℕ)
    → passes (grows (λ a. pick preset (pos a))) 10 ≡ true
    → ((a : ℕ) → 10 ≤ a → pick preset (pos a) ≡ last)
    → 1 ≤ last
    → last ≤ 300
    → (a : ℕ) → Grows (λ a. pick preset (pos a)) a
Grows-table preset last table tail low high a = elim (dec_lt a 10) [
  | yes lt ↦
      Grows-grows (λ a. pick preset (pos a)) a
        (passes_at (grows (λ a. pick preset (pos a))) 10 table a lt)
  | no ge ↦ rw (tail a (omega arith), tail (suc a) (omega arith)) (low, omega arith, high)
]

last_aggressive : (a : ℕ) → 10 ≤ a → pick aggressive (pos a) ≡ 60
last_aggressive a h = ground arith

last_conservative : (a : ℕ) → 10 ≤ a → pick conservative (pos a) ≡ 300
last_conservative a h = ground arith

-- Whatever strategy is configured, the delays before a further attempt lie between 1 and 300
-- seconds and never shrink from one attempt to the next.
pub get_retry_delay-Grows : (c : RetryConfig) (a : ℕ) → Grows (λ a. get_retry_delay c (pos a)) a
unfolding passes
get_retry_delay-Grows c a = elim (preset_of_cases c) [
  | inl e ↦
      rw (get_retry_delay-pick c (pos a), get_retry_delay-pick c (pos (suc a)), e)
        (Grows-table aggressive 60 refl last_aggressive (omega arith) (omega arith) a)
  | inr e ↦
      rw (get_retry_delay-pick c (pos a), get_retry_delay-pick c (pos (suc a)), e)
        (Grows-table conservative 300 refl last_conservative (omega arith) (omega arith) a)
]
