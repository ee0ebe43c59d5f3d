-- ===== src/ConfigAdmin.antt =====
-- `HandleConfigPost` of src/handlers.go on the configuration, the gate, the retry settings, the key pool
-- and the upstream client's timeout. A decoded number is
-- what `number` reads of its text, and `outside` converts one that an int cannot hold.
-- The settings are those that the handler writes; a duration is a number of nanoseconds.
pub mod Numbers
pub mod Post
pub mod Steps
pub mod Valid
pub mod Limited
pub mod Bounds
pub mod Gated
mod Tests
use umans_dash_go.Prelude.{
  ℕ, Bool, true, false, not, Option, none, some, List, [], ◌∷◌, ◌||◌, if◌then◌else◌, ℤ, Bytes,
  codes, same,
}
use umans_dash_go.Json.{
  Json, Items, nil, cons, Fields, end, field, num, obj, member, str_at, arr_at, obj_at, bool_at,
  text_at, as_str,
}
use umans_dash_go.KeyPool.{KeyConfig, KeyPool, new_key_pool}
use umans_dash_go.Gate.{GateState}
use umans_dash_go.Retry.{RetryConfig}

pub record Settings : Type 0 where
  pub api_key : Bytes
  pub api_keys : List Bytes
  pub listen_addr : Bytes
  pub enabled_models : List Bytes
  pub model_display_names : List (Bytes × Bytes)
  pub wallpaper_source : Bytes
  pub override_concurrency : ℤ
  pub max_images : ℤ
  pub disabled_models : List Bytes
  pub vision_handoff_enabled : Bool
  pub vision_handoff_model : Bytes
  pub vision_handoff_prompt : Bytes
  pub vision_handoff_cache_enabled : Bool
  pub api_key_mode : Bytes
  pub concurrency_limit_mode : Bytes
  pub burst_mode : Bool
  pub manual_concurrency_limit : ℤ
  pub slot_free_delay : ℤ
  pub retry_attempts : Option ℤ
  pub backoff_strategy : Bytes
  pub request_timeout : ℤ
  pub keys : List KeyConfig

-- The gate's override of the concurrency is the setting: both change together. `upstream_timeout` is
-- none without an upstream client, `saves` lists what was given to `debouncedSaveConfig`, the newest
-- first, and `rendered` says that the dashboard cache may hold a page.
pub record Server : Type 0 where
  pub settings : Settings
  pub gate : GateState
  pub retries : RetryConfig
  pub key_pool : Option KeyPool
  pub upstream_timeout : Option ℤ
  pub saves : List Settings
  pub rendered : Bool
  pub restart_required : Bool
  pub signals_queue : Bool

abbrev pub change : (Settings → Settings) → Server → Server
change f s = record s { settings = f s.settings }

-- `if v, ok := data[key].(T); ok { … }`.
abbrev pub on_some : {A : Type 0} → Option A → (A → Server → Server) → Server → Server
on_some none f s = s
on_some (some v) f s = f v s

abbrev pub on_str : Bytes → (Bytes → Server → Server) → Fields → Server → Server
on_str key f data_in s = on_some (str_at key data_in) f s

abbrev pub on_bool : Bytes → (Bool → Server → Server) → Fields → Server → Server
on_bool key f data_in s = on_some (bool_at key data_in) f s

abbrev pub on_arr : Bytes → (Items → Server → Server) → Fields → Server → Server
on_arr key f data_in s = on_some (arr_at key data_in) f s

abbrev pub on_obj : Bytes → (Fields → Server → Server) → Fields → Server → Server
on_obj key f data_in s = on_some (obj_at key data_in) f s

abbrev pub as_num : Json → Option Bytes
as_num (num t) = some t
as_num _ = none

abbrev pub num_at : Bytes → Fields → Option Bytes
num_at key data_in = elim (member key data_in) [ none ↦ none | some v ↦ as_num v ]

abbrev pub on_num : Bytes → (Bytes → Server → Server) → Fields → Server → Server
on_num key f data_in s = on_some (num_at key data_in) f s

-- The strings of an array, and of an object with their keys.
unfoldable pub strings_of : Items → List Bytes
strings_of nil = []
strings_of (cons v vs) =
    let rest = strings_of vs in elim (as_str v) [ none ↦ rest | some t ↦ t ∷ rest ]

unfoldable pub names_of : Fields → List (Bytes × Bytes)
names_of end = []
names_of (field k v m) =
    let rest = names_of m in elim (as_str v) [ none ↦ rest | some t ↦ (k, t) ∷ rest ]

abbrev pub key_config : Fields → KeyConfig
key_config m = record {
  name = text_at (codes "name") m;
  key = text_at (codes "key") m;
  session = text_at (codes "session") m;
}

unfoldable pub key_configs : Items → List KeyConfig
key_configs nil = []
key_configs (cons (obj m) vs) = key_config m ∷ key_configs vs
key_configs (cons _ vs) = key_configs vs

-- The fields that are taken as they are.
unfoldable pub set_api_key : Bytes → Server → Server
set_api_key v s = change (λ c. record c { api_key = v }) s

unfoldable pub set_api_keys : Items → Server → Server
set_api_keys v s = change (λ c. record c { api_keys = strings_of v }) s

unfoldable pub set_enabled_models : Items → Server → Server
set_enabled_models v s = change (λ c. record c { enabled_models = strings_of v }) s

unfoldable pub set_display_names : Fields → Server → Server
set_display_names v s = change (λ c. record c { model_display_names = names_of v }) s

unfoldable pub set_disabled_models : Items → Server → Server
set_disabled_models v s = change (λ c. record c { disabled_models = strings_of v }) s

unfoldable pub set_handoff_enabled : Bool → Server → Server
set_handoff_enabled v s = change (λ c. record c { vision_handoff_enabled = v }) s

unfoldable pub set_handoff_model : Bytes → Server → Server
set_handoff_model v s = change (λ c. record c { vision_handoff_model = v }) s

unfoldable pub set_handoff_prompt : Bytes → Server → Server
set_handoff_prompt v s = change (λ c. record c { vision_handoff_prompt = v }) s

unfoldable pub set_handoff_cache : Bool → Server → Server
set_handoff_cache v s = change (λ c. record c { vision_handoff_cache_enabled = v }) s

unfoldable pub set_address : Bytes → Server → Server
set_address v s = record s {
  settings = record s.settings { listen_addr = v };
  restart_required = not (same v s.settings.listen_addr);
}

abbrev pub is_key_mode : Bytes → Bool
is_key_mode v = same v (codes "managed") || (same v (codes "passthrough") || same v (codes "smart"))

unfoldable pub set_key_mode : Bytes → Server → Server
set_key_mode v s = if is_key_mode v then change (λ c. record c { api_key_mode = v }) s else s

unfoldable pub set_keys : Items → Server → Server
set_keys v s = record s {
  settings = record s.settings { keys = key_configs v };
  key_pool = some (new_key_pool (key_configs v));
}

-- The steps of the handler, the first one first.
unfoldable pub in_order : List (Server → Server) → Server → Server
in_order [] s = s
in_order (f ∷ fs) s = in_order fs (f s)

-- The fields before the first one that can be refused.
abbrev pub take_names : Fields → List (Server → Server)
take_names m =
    on_str (codes "apiKey") set_api_key m
    ∷ on_arr (codes "apiKeys") set_api_keys m
    ∷ on_str (codes "listenAddr") set_address m
    ∷ on_arr (codes "enabledModels") set_enabled_models m
    ∷ on_obj (codes "modelDisplayNames") set_display_names m
    ∷ []

-- The fields of the models and of the vision handoff, which follow those that can be refused.
abbrev pub take_vision : Fields → List (Server → Server)
take_vision m =
    on_arr (codes "disabledModels") set_disabled_models m
    ∷ on_bool (codes "visionHandoffEnabled") set_handoff_enabled m
    ∷ on_str (codes "visionHandoffModel") set_handoff_model m
    ∷ on_str (codes "visionHandoffPrompt") set_handoff_prompt m
    ∷ on_bool (codes "visionHandoffCacheEnabled") set_handoff_cache m
    ∷ on_str (codes "apikeyMode") set_key_mode m
    ∷ []
