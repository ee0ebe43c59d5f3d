-- ===== src/ConfigAdmin/Limited.antt =====
-- The fields of `HandleConfigPost` of src/handlers.go that are clamped, or change the gate, keep the bounds.
use umans_dash_go.Prelude.{
  ℕ, ◌*◌, ◌≡◌, refl, sym, subst, Bool, true, false, Option, none, some, List, ◌&&◌, ℤ, pos, negsuc,
  eqb_ℤ, ◌≤ℤ◌, Bytes, codes, same, arith, if_split,
}
use umans_dash_go.Json.{Items}
use umans_dash_go.Gate.{set_manual_limit, set_concurrency_limit_mode, invalidate_gate_cache, second}
use umans_dash_go.Retry.{backoff_presets, get_retry_attempts, set_retry_config}
use umans_dash_go.ConfigAdmin.{Server, set_keys}
use umans_dash_go.ConfigAdmin.Numbers.{
  Float64, to_int, fits, set_limit_mode, set_manual, set_slot_delay, set_attempts, set_strategy,
  set_timeout, is_limit_mode, switch_mode, use_limit, default_manual, drop_gate, seconds, at_least,
  clamp_attempts, clamp_timeout,
}
use umans_dash_go.ConfigAdmin.Steps.{Keeps}
use umans_dash_go.ConfigAdmin.Valid.{IsValid, Within, WhenSome, Retrying}

pub set_keys-Keeps : (v : Items) → Keeps IsValid (set_keys v)
unfolding set_keys
set_keys-Keeps v s h = h

pub drop_gate-Keeps : Keeps IsValid drop_gate
unfolding drop_gate invalidate_gate_cache
drop_gate-Keeps s h = h

pub use_limit-Keeps : (n : ℤ) → Keeps IsValid (use_limit n)
unfolding set_manual_limit
use_limit-Keeps n s (r, t, d, g, w, k) = (
  r,
  t,
  d,
  record {
    is_mode = g.is_mode;
    is_used = g.is_used;
    natural = ground arith;
    positive = λ m. ground arith;
  },
  w,
  k,
)

-- A new mode on a server whose manual limit fits it.
switch_mode-IsValid :
    (v : Bytes) (s : Server)
    → is_limit_mode v ≡ true
    → (same v (codes "manual") ≡ true → pos 1 ≤ℤ s.gate.manual_limit)
    → IsValid s
    → IsValid (switch_mode v s)
unfolding switch_mode set_concurrency_limit_mode
switch_mode-IsValid v s listed fits (r, t, d, g, w, k) = (
  r,
  t,
  d,
  record { is_mode = listed; is_used = refl; natural = g.natural; positive = fits },
  w,
  k,
)

default_manual-IsValid :
    (v : Bytes) (s : Server)
    → is_limit_mode v ≡ true
    → IsValid s
    → IsValid (default_manual (switch_mode v s))
unfolding default_manual switch_mode set_concurrency_limit_mode set_manual_limit
default_manual-IsValid v s listed (r, t, d, g, w, k) = (
  r,
  t,
  d,
  record { is_mode = listed; is_used = refl; natural = ground arith; positive = λ m. ground arith },
  w,
  k,
)

limit_fits :
    (b : Bool) (manual : ℤ)
    → pos 0 ≤ℤ manual
    → (b && eqb_ℤ manual (pos 0)) ≡ false
    → b ≡ true
    → pos 1 ≤ℤ manual
limit_fits b (pos n) h e m = ground (arith, e, m)
limit_fits b (negsuc n) h e m = absurd (omega (arith, h))

pub set_limit_mode-Keeps : (v : Bytes) → Keeps IsValid (set_limit_mode v)
unfolding set_limit_mode
set_limit_mode-Keeps v s h = drop_gate-Keeps _ (
    if_split IsValid (is_limit_mode v) _ s
      (λ listed.
        if_split IsValid (same v (codes "manual") && eqb_ℤ s.gate.manual_limit (pos 0))
          (default_manual (switch_mode v s)) (switch_mode v s)
          (λ unset. default_manual-IsValid v s listed h)
          (λ keeps.
            switch_mode-IsValid v s listed
              (limit_fits (same v (codes "manual")) s.gate.manual_limit h.3.natural keeps) h))
      (λ other. h))

pub set_manual-Keeps :
    (number : Bytes → Float64) (outside : Float64 → ℤ) (v : Bytes)
    → Keeps IsValid (set_manual number outside v)
unfolding set_manual drop_gate invalidate_gate_cache
set_manual-Keeps number outside v s h =
    use_limit-Keeps (at_least (pos 1) (to_int number outside v)) s h

pub set_slot_delay-Keeps :
    (number : Bytes → Float64) (outside : Float64 → ℤ) (v : Bytes)
    → Keeps IsValid (set_slot_delay number outside v)
unfolding set_slot_delay
set_slot_delay-Keeps number outside v s (r, t, d, g, w, k) = (
  r,
  t,
  record {
    delay_natural = ground arith;
    images_natural = d.images_natural;
    override_natural = d.override_natural;
    gate_is_override = d.gate_is_override;
  },
  g,
  w,
  k,
)

pub set_attempts-Keeps :
    (number : Bytes → Float64) (outside : Float64 → ℤ) (v : Bytes)
    → Keeps IsValid (set_attempts number outside v)
unfolding set_attempts clamp_attempts
set_attempts-Keeps number outside v s (r, t, d, g, w, k) =
    (record { bounded = (ground arith, ground arith); is_setting = refl }, t, d, g, w, k)

get_retry_attempts_id :
    (s : Server) → IsValid s → get_retry_attempts s.retries ≡ s.retries.retry_attempts
unfolding get_retry_attempts
get_retry_attempts_id s (r, t, d, g, w, k) = ground (arith, r.bounded)

pub set_strategy-Keeps : (v : Bytes) → Keeps IsValid (set_strategy v)
unfolding set_strategy
set_strategy-Keeps v s (r, t, d, g, w, k) = go (backoff_presets v)
  where
    go :
        (o : Option (List ℕ))
        → IsValid (elim o as (λ _. Server) [
          | none ↦ s
          | some delays ↦ record s {
            settings = record s.settings { backoff_strategy = v };
            retries = set_retry_config (get_retry_attempts s.retries) v;
          }
        ])
    go none = (r, t, d, g, w, k)
    go (some delays) = (
      subst (λ n. Retrying n s.settings.retry_attempts)
          (sym (get_retry_attempts_id s (r, t, d, g, w, k))) r,
      t,
      d,
      g,
      w,
      k,
    )

seconds-Within :
    (n : ℤ)
    → Within (pos 30) (pos 1800) n
    → Within (pos (30 * second)) (pos (1800 * second)) (seconds n)
seconds-Within (pos n) h = (omega (arith, h.0), omega (arith, h.1))
seconds-Within (negsuc n) h = absurd (omega (arith, h.0))

clamp_timeout-Within :
    (number : Bytes → Float64) (outside : Float64 → ℤ) (v : Bytes)
    → Within (pos (30 * second)) (pos (1800 * second)) (clamp_timeout number outside v)
unfolding clamp_timeout
clamp_timeout-Within number outside v = seconds-Within _ (ground arith, ground arith)

pub set_timeout-Keeps :
    (number : Bytes → Float64) (outside : Float64 → ℤ) (v : Bytes)
    → Keeps IsValid (set_timeout number outside v)
unfolding set_timeout
set_timeout-Keeps number outside v s (r, t, d, g, w, k) = (
  r,
  record { bounded = clamp_timeout-Within number outside v; is_used = go s.upstream_timeout },
  d,
  g,
  w,
  k,
)
  where
    go :
        (o : Option ℤ)
        → WhenSome
            (λ t. t ≡ clamp_timeout number outside v)
            (elim o as (λ _. Option ℤ) [
              | none ↦ none
              | some t ↦ some (clamp_timeout number outside v)
            ])
    go none = tt
    go (some t) = refl
