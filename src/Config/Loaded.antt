-- ===== src/Config/Loaded.antt =====
-- What `LoadConfig` of src/config.go has checked of a configuration that it read.
use umans_dash_go.Prelude.{
  ◌≡◌, refl, Bool, true, false, ◌||◌, Option, none, some, [], ℤ, pos, ltb_ℤ, leb_ℤ, ◌≤ℤ◌, Bytes,
  codes, same, arith, Option-cases, inl, inr, if_split,
}
use umans_dash_go.Retry.{default_retry_attempts, max_retry_attempts_cap, backoff_presets}
use umans_dash_go.Config.{
  Config, apply_default_api_key_mode, migrate_retries, migrate_strategy, migrate, decoded, Loading,
  fatal, loaded, load_config,
}

abbrev pub is_preset : Bytes → Bool
is_preset name = elim (backoff_presets name) [ none ↦ false | some p ↦ true ]

-- Either the program has stopped or each setting is in its range.
abbrev pub Checked : Loading → Type 0
Checked fatal = Unit
Checked (loaded c with_error) =
    (with_error ≡ false)
    × (pos 1 ≤ℤ c.request_timeout)
    × ((n : ℤ) × (c.retry_attempts ≡ some n) × (pos 0 ≤ℤ n) × (n ≤ℤ max_retry_attempts_cap))
    × (is_preset c.backoff_strategy ≡ true)
    × (same c.api_key_mode [] ≡ false)

retries_in_range :
    (o : Option ℤ) → (pos 0 ≤ℤ migrate_retries o) × (migrate_retries o ≤ℤ max_retry_attempts_cap)
unfolding migrate_retries
retries_in_range none = (omega arith, omega arith)
retries_in_range (some n) =
    if_split (λ m. (pos 0 ≤ℤ m) × (m ≤ℤ max_retry_attempts_cap))
      (ltb_ℤ n (pos 0) || ltb_ℤ max_retry_attempts_cap n) default_retry_attempts n
      (λ out. (omega arith, omega arith))
      (λ within. (ground (arith, within), ground (arith, within)))

aggressive_preset : is_preset (codes "aggressive") ≡ true
unfolding backoff_presets same
aggressive_preset = refl

strategy_preset : (name : Bytes) → is_preset (migrate_strategy name) ≡ true
unfolding migrate_strategy
strategy_preset name =
    if_split (λ s. is_preset s ≡ true) (same name []) (codes "aggressive")
      (elim (backoff_presets name) [ none ↦ codes "aggressive" | some p ↦ name ])
      (λ empty. aggressive_preset)
      (λ named. elim (Option-cases (backoff_presets name)) [
        | inl e ↦ ground (arith, e, aggressive_preset)
        | inr (p, e) ↦ ground (arith, e)
      ])

smart_named : same (codes "smart") [] ≡ false
unfolding same
smart_named = refl

migrated-Checked :
    (c : Config)
    → leb_ℤ c.request_timeout (pos 0) ≡ false
    → Checked (loaded (apply_default_api_key_mode (migrate c)) false)
unfolding apply_default_api_key_mode migrate
migrated-Checked c positive =
    if_split (λ m. Checked (loaded m false)) (same c.api_key_mode [])
      (record (migrate c) { api_key_mode = codes "smart" }) (migrate c)
      (λ unset.
        (refl, ground (arith, positive), retries, strategy_preset c.backoff_strategy, smart_named))
      (λ named.
        (refl, ground (arith, positive), retries, strategy_preset c.backoff_strategy, named))
  where
    retries :
        (n : ℤ) × (some (migrate_retries c.retry_attempts) ≡ some n)
        × (pos 0 ≤ℤ n)
        × (n ≤ℤ max_retry_attempts_cap)
    retries = (
      migrate_retries c.retry_attempts,
      refl,
      (retries_in_range c.retry_attempts).0,
      (retries_in_range c.retry_attempts).1,
    )

-- A configuration that was read from its file, whatever the environment says, has a positive request
-- timeout, retries between none and the cap, a strategy with a preset, and a key mode; or the program stops.
pub load_config-Checked :
    (overrides : Config → Config) (c : Config) → Checked (load_config overrides (decoded c))
unfolding load_config
load_config-Checked overrides c =
    if_split Checked (leb_ℤ (overrides c).request_timeout (pos 0)) fatal
      (loaded (apply_default_api_key_mode (migrate (overrides c))) false) (λ stopped. tt)
      (λ positive. migrated-Checked (overrides c) positive)
