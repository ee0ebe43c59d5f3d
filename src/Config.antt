-- ===== src/Config.antt =====
-- The configuration of src/config.go: `ParseDuration`, `applyEnvOverrides`, `applyDefaultApiKeyMode` and
-- `LoadConfig`, on the settings that they check or change. The environment, the number parser and the
-- decoder of the file are parameters. A duration is a 64-bit number of nanoseconds.
pub mod Loaded
mod Tests
use umans_dash_go.Prelude.{
  ℕ, zero, suc, ◌+◌, ◌-◌, ◌*◌, ◌%◌, ◌^◌, Bool, true, false, not, ◌&&◌, ◌||◌, Option, none, some,
  List, [], ◌∷◌, ◌++◌, map, ltb, leb, ◌==◌, if◌then◌else◌, ℤ, pos, negsuc, ltb_ℤ, leb_ℤ, Bytes,
  codes, same,
}
use umans_dash_go.Retry.{default_retry_attempts, max_retry_attempts_cap, backoff_presets}

pub record Config : Type 0 where
  pub listen_addr : Bytes
  pub upstream_base_url : Bytes
  pub request_timeout : ℤ
  pub api_key : Bytes
  pub api_keys : List Bytes
  pub override_concurrency : ℤ
  pub max_images : ℤ
  pub vision_handoff_enabled : Bool
  pub vision_handoff_cache_enabled : Bool
  pub vision_handoff_cache_ttl : ℤ
  pub api_key_mode : Bytes
  pub retry_attempts : Option ℤ
  pub backoff_strategy : Bytes

-- The wrap of int64.
abbrev pub wrap : ℤ → ℤ
wrap (pos n) =
    if ltb (n % 2 ^ 64) (2 ^ 63) then pos (n % 2 ^ 64) else negsuc (2 ^ 64 - 1 - n % 2 ^ 64)
wrap (negsuc n) =
    if ltb (n % 2 ^ 64) (2 ^ 63) then negsuc (n % 2 ^ 64) else pos (2 ^ 64 - 1 - n % 2 ^ 64)

abbrev pub scale : ℕ → ℤ → ℤ
scale k (pos n) = wrap (pos (n * k))
scale k (negsuc n) = if k == 0 then pos 0 else wrap (negsuc (suc n * k - 1))

-- The digits and the unit of `^(\d+)(h|m|s)$`.
abbrev pub is_digit : ℕ → Bool
is_digit c = leb 48 c && leb c 57

abbrev pub unit_of : ℕ → Option ℕ
unit_of c =
    if c == 104
    then some 3_600_000_000_000
    else if c == 109
    then some 60_000_000_000
    else if c == 115
    then some 1_000_000_000
    else none

unfoldable pub digits_and_unit : Bytes → Option (Bytes × ℕ)
digits_and_unit [] = none
digits_and_unit (c ∷ []) = none
digits_and_unit (c ∷ d ∷ []) =
    if is_digit c then (elim (unit_of d) [ none ↦ none | some k ↦ some (c ∷ [], k) ]) else none
digits_and_unit (c ∷ d ∷ e ∷ cs) =
    let rest = digits_and_unit (d ∷ e ∷ cs) in
    if is_digit c then (elim rest [ none ↦ none | some r ↦ some (c ∷ r.0, r.1) ]) else none

module _ (atoi : Bytes → Option ℤ) where
  unfoldable pub parse_duration : Bytes → ℤ
  parse_duration text = if same text [] then pos 0 else (elim (digits_and_unit text) [
    | some r ↦ elim (atoi r.0) [ none ↦ pos 0 | some n ↦ scale r.1 n ]
    | none ↦ elim (atoi text) [ none ↦ pos 0 | some n ↦ scale 1_000_000 n ]
  ])

  abbrev pub or_default : Bytes → Bytes → Bytes
  or_default [] old = old
  or_default (c ∷ cs) old = c ∷ cs

  abbrev pub number_or : Bytes → ℤ → ℤ
  number_or [] old = old
  number_or (c ∷ cs) old = elim (atoi (c ∷ cs)) [ none ↦ old | some n ↦ n ]

  abbrev pub duration_or : Bytes → ℤ → ℤ
  duration_or [] old = old
  duration_or (c ∷ cs) old = parse_duration (c ∷ cs)

  abbrev pub retries_or : Bytes → Option ℤ → Option ℤ
  retries_or [] old = old
  retries_or (c ∷ cs) old = elim (atoi (c ∷ cs)) [ none ↦ old | some n ↦ some n ]

  abbrev pub flag_or : Bytes → Bytes → Bool → Bool
  flag_or [] lowered old = old
  flag_or (c ∷ cs) lowered old = not (same lowered (codes "false"))

  abbrev pub strategy_or : Bytes → Bytes → Bytes
  strategy_or [] old = old
  strategy_or (c ∷ cs) old = elim (backoff_presets (c ∷ cs)) [ none ↦ old | some p ↦ c ∷ cs ]

  abbrev pub keys_or : (Bytes → List Bytes) → Bytes → List Bytes → List Bytes
  keys_or split_trimmed [] old = old
  keys_or split_trimmed (c ∷ cs) old = split_trimmed (c ∷ cs)

  -- `split_trimmed` splits at commas and trims each part; an unset variable is empty.
  module _ (to_lower : Bytes → Bytes) (split_trimmed : Bytes → List Bytes)
      (getenv : Bytes → Bytes) where
    unfoldable pub apply_env_overrides : Config → Config
    apply_env_overrides c = record c {
      listen_addr = or_default (getenv (codes "LISTEN_ADDR")) c.listen_addr;
      upstream_base_url = or_default (getenv (codes "UPSTREAM_BASE_URL")) c.upstream_base_url;
      request_timeout = duration_or (getenv (codes "REQUEST_TIMEOUT")) c.request_timeout;
      api_key = or_default (getenv (codes "UMANS_API_KEY")) c.api_key;
      api_keys = keys_or split_trimmed (getenv (codes "API_KEYS")) c.api_keys;
      override_concurrency =
          number_or (getenv (codes "OVERRIDE_CONCURRENCY")) c.override_concurrency;
      max_images = number_or (getenv (codes "MAX_IMAGES")) c.max_images;
      vision_handoff_enabled =
          flag_or (getenv (codes "VISION_HANDOFF_ENABLED"))
            (getenv (codes "VISION_HANDOFF_ENABLED")) c.vision_handoff_enabled;
      vision_handoff_cache_enabled =
          flag_or (getenv (codes "VISION_HANDOFF_CACHE_ENABLED"))
            (to_lower (getenv (codes "VISION_HANDOFF_CACHE_ENABLED")))
            c.vision_handoff_cache_enabled;
      vision_handoff_cache_ttl =
          duration_or (getenv (codes "VISION_HANDOFF_CACHE_TTL")) c.vision_handoff_cache_ttl;
      retry_attempts = retries_or (getenv (codes "RETRY_ATTEMPTS")) c.retry_attempts;
      backoff_strategy = strategy_or (getenv (codes "BACKOFF_STRATEGY")) c.backoff_strategy;
    }

unfoldable pub apply_default_api_key_mode : Config → Config
apply_default_api_key_mode c =
    if same c.api_key_mode [] then record c { api_key_mode = codes "smart" } else c

unfoldable pub migrate_retries : Option ℤ → ℤ
migrate_retries none = default_retry_attempts
migrate_retries (some n) =
    if ltb_ℤ n (pos 0) || ltb_ℤ max_retry_attempts_cap n then default_retry_attempts else n

unfoldable pub migrate_strategy : Bytes → Bytes
migrate_strategy name =
    if same name []
    then codes "aggressive"
    else (elim (backoff_presets name) [ none ↦ codes "aggressive" | some p ↦ name ])

unfoldable pub migrate : Config → Config
migrate c = record c {
  retry_attempts = some (migrate_retries c.retry_attempts);
  backoff_strategy = migrate_strategy c.backoff_strategy;
}

-- `DefaultConfig`: fifteen minutes and a day are its durations.
abbrev pub default_config : Config
default_config = record {
  listen_addr = codes "127.0.0.1:8084";
  upstream_base_url = codes "https://api.code.umans.ai/v1";
  request_timeout = pos 900_000_000_000;
  api_key = [];
  api_keys = [];
  override_concurrency = pos 0;
  max_images = pos 9;
  vision_handoff_enabled = false;
  vision_handoff_cache_enabled = false;
  vision_handoff_cache_ttl = pos 86_400_000_000_000;
  api_key_mode = [];
  retry_attempts = some default_retry_attempts;
  backoff_strategy = codes "aggressive";
}

-- The file: missing, malformed, or decoded over the defaults.
pub data ConfigFile : Type 0 where
  missing malformed : ConfigFile
  decoded : Config → ConfigFile

-- `log.Fatal`, or the configuration with whether an error comes with it.
pub data Loading : Type 0 where
  fatal : Loading
  loaded : Config → Bool → Loading

-- `overrides` is `applyEnvOverrides` in the environment.
unfoldable pub load_config : (Config → Config) → ConfigFile → Loading
load_config overrides missing = loaded (apply_default_api_key_mode (overrides default_config)) false
load_config overrides malformed =
    loaded (apply_default_api_key_mode (overrides default_config)) true
load_config overrides (decoded c) =
    if leb_ℤ (overrides c).request_timeout (pos 0)
    then fatal
    else loaded (apply_default_api_key_mode (migrate (overrides c))) false
