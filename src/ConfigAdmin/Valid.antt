-- ===== src/ConfigAdmin/Valid.antt =====
-- The bounds of the settings of src/handlers.go, and the fields that are taken as they are.
use umans_dash_go.Prelude.{
  ◌*◌, ◌≡◌, Bool, true, Option, none, some, ℤ, pos, ◌≤ℤ◌, Bytes, codes, same, if_split,
}
use umans_dash_go.Json.{Fields, Items, str_at, arr_at, obj_at, bool_at}
use umans_dash_go.Gate.{second}
use umans_dash_go.Retry.{max_retry_attempts_cap}
use umans_dash_go.ConfigAdmin.{
  Server, change, in_order, take_names, take_vision, set_address, set_api_key, set_api_keys,
  set_enabled_models, set_display_names, set_disabled_models, set_handoff_enabled,
  set_handoff_model, set_handoff_prompt, set_handoff_cache, set_key_mode, is_key_mode,
}
use umans_dash_go.ConfigAdmin.Numbers.{is_source, is_limit_mode}
use umans_dash_go.ConfigAdmin.Steps.{Keeps, on_some-Keeps, in_order-Keeps}

abbrev pub Within : ℤ → ℤ → ℤ → Type 0
Within low high n = (low ≤ℤ n) × (n ≤ℤ high)

abbrev pub WhenSome : (ℤ → Type 0) → Option ℤ → Type 0
WhenSome P none = Unit {0}
WhenSome P (some n) = P n

-- The number of retries in use, and the setting.
pub record Retrying (used : ℤ) (setting : Option ℤ) : Type 0 where
  pub bounded : Within (pos 0) max_retry_attempts_cap used
  pub is_setting : setting ≡ some used

-- The timeout, and that of the upstream client.
pub record Timed (timeout : ℤ) (upstream : Option ℤ) : Type 0 where
  pub bounded : Within (pos (30 * second)) (pos (1800 * second)) timeout
  pub is_used : WhenSome (λ t. t ≡ timeout) upstream

pub record Sized (delay images override gate : ℤ) : Type 0 where
  pub delay_natural : pos 0 ≤ℤ delay
  pub images_natural : pos 0 ≤ℤ images
  pub override_natural : pos 0 ≤ℤ override
  pub gate_is_override : gate ≡ override

-- The mode of the limit, the gate's mode and its manual limit, which is at least one in manual mode.
pub record Gating (mode gate : Bytes) (manual : ℤ) : Type 0 where
  pub is_mode : is_limit_mode mode ≡ true
  pub is_used : gate ≡ mode
  pub natural : pos 0 ≤ℤ manual
  pub positive : same mode (codes "manual") ≡ true → pos 1 ≤ℤ manual

abbrev pub IsValid : Server → Type 0
IsValid s =
    Retrying s.retries.retry_attempts s.settings.retry_attempts
    × Timed s.settings.request_timeout s.upstream_timeout
    × Sized s.settings.slot_free_delay s.settings.max_images s.settings.override_concurrency
        s.gate.override_concurrency
    × Gating s.settings.concurrency_limit_mode s.gate.concurrency_limit_mode s.gate.manual_limit
    × (is_source s.settings.wallpaper_source ≡ true)
    × (is_key_mode s.settings.api_key_mode ≡ true)

pub set_api_key-Keeps : (v : Bytes) → Keeps IsValid (set_api_key v)
unfolding set_api_key
set_api_key-Keeps v s h = h

pub set_api_keys-Keeps : (v : Items) → Keeps IsValid (set_api_keys v)
unfolding set_api_keys
set_api_keys-Keeps v s h = h

pub set_enabled_models-Keeps : (v : Items) → Keeps IsValid (set_enabled_models v)
unfolding set_enabled_models
set_enabled_models-Keeps v s h = h

pub set_display_names-Keeps : (v : Fields) → Keeps IsValid (set_display_names v)
unfolding set_display_names
set_display_names-Keeps v s h = h

pub set_disabled_models-Keeps : (v : Items) → Keeps IsValid (set_disabled_models v)
unfolding set_disabled_models
set_disabled_models-Keeps v s h = h

pub set_handoff_enabled-Keeps : (v : Bool) → Keeps IsValid (set_handoff_enabled v)
unfolding set_handoff_enabled
set_handoff_enabled-Keeps v s h = h

pub set_handoff_model-Keeps : (v : Bytes) → Keeps IsValid (set_handoff_model v)
unfolding set_handoff_model
set_handoff_model-Keeps v s h = h

pub set_handoff_prompt-Keeps : (v : Bytes) → Keeps IsValid (set_handoff_prompt v)
unfolding set_handoff_prompt
set_handoff_prompt-Keeps v s h = h

pub set_handoff_cache-Keeps : (v : Bool) → Keeps IsValid (set_handoff_cache v)
unfolding set_handoff_cache
set_handoff_cache-Keeps v s h = h

pub set_address-Keeps : (v : Bytes) → Keeps IsValid (set_address v)
unfolding set_address
set_address-Keeps v s h = h

pub take_names-Keeps : (m : Fields) → Keeps IsValid (in_order (take_names m))
take_names-Keeps m = in_order-Keeps IsValid (take_names m) (
  on_some-Keeps IsValid (str_at (codes "apiKey") m) set_api_key set_api_key-Keeps,
  (
    on_some-Keeps IsValid (arr_at (codes "apiKeys") m) set_api_keys set_api_keys-Keeps,
    (
      on_some-Keeps IsValid (str_at (codes "listenAddr") m) set_address set_address-Keeps,
      (
        on_some-Keeps IsValid (arr_at (codes "enabledModels") m) set_enabled_models
            set_enabled_models-Keeps,
        (
          on_some-Keeps IsValid (obj_at (codes "modelDisplayNames") m) set_display_names
              set_display_names-Keeps,
          tt,
        ),
      ),
    ),
  ),
)

pub set_key_mode-Keeps : (v : Bytes) → Keeps IsValid (set_key_mode v)
unfolding set_key_mode
set_key_mode-Keeps v s (r, t, d, g, w, k) =
    if_split IsValid (is_key_mode v) (change (λ c. record c { api_key_mode = v }) s) s
      (λ listed. (r, t, d, g, w, listed)) (λ other. (r, t, d, g, w, k))

pub take_vision-Keeps : (m : Fields) → Keeps IsValid (in_order (take_vision m))
take_vision-Keeps m = in_order-Keeps IsValid (take_vision m) (
  on_some-Keeps IsValid (arr_at (codes "disabledModels") m) set_disabled_models
      set_disabled_models-Keeps,
  (
    on_some-Keeps IsValid (bool_at (codes "visionHandoffEnabled") m) set_handoff_enabled
        set_handoff_enabled-Keeps,
    (
      on_some-Keeps IsValid (str_at (codes "visionHandoffModel") m) set_handoff_model
          set_handoff_model-Keeps,
      (
        on_some-Keeps IsValid (str_at (codes "visionHandoffPrompt") m) set_handoff_prompt
            set_handoff_prompt-Keeps,
        (
          on_some-Keeps IsValid (bool_at (codes "visionHandoffCacheEnabled") m) set_handoff_cache
              set_handoff_cache-Keeps,
          (
            on_some-Keeps IsValid (str_at (codes "apikeyMode") m) set_key_mode set_key_mode-Keeps,
            tt,
          ),
        ),
      ),
    ),
  ),
)
