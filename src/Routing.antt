-- ===== src/Routing.antt =====
-- `HandleRequest` of src/proxy.go: who is let in, and which handler a path and a method have.
pub mod Admitted
pub mod Guarded
mod Tests
use Prim.Native.String.{String}
use umans_dash_go.Prelude.{
  Bool, true, false, not, ◌&&◌, ◌||◌, List, [], ◌∷◌, if◌then◌else◌, Bytes, codes, same,
}
use umans_dash_go.Admission.{Headers, KeyMode, authorized}

-- The handler that is called, or the answer that is written at once.
pub data Route : Type 0 where
  dashboard dashboard_js healthz models_info models validate api_models chat_completions messages :
      Route
  config_get config_post keys_get keys_post usage concurrency usage_history status : Route
  status_history user restart bing_wallpaper wallhaven_wallpaper : Route
  unauthorized method_not_allowed not_found : Route

abbrev pub is_path : Bytes → String → Bool
is_path path name = same path (codes name)

-- The paths that need no key.
unfoldable pub is_open : Bytes → Bool
is_open path = is_path path "/" || (is_path path "/dashboard" || is_path path "/healthz")

abbrev pub is_get : Bytes → Bool
is_get method = same method (codes "GET")

abbrev pub is_post : Bytes → Bool
is_post method = same method (codes "POST")

-- One handler for GET, one for POST, and 405 for the other methods.
unfoldable pub by_method : Route → Route → Bytes → Route
by_method on_get on_post method =
    if is_get method then on_get else if is_post method then on_post else method_not_allowed

-- The rest of the switch, on the account's data, the restart and the wallpapers.
unfoldable pub route_umans : Bytes → Bytes → Route
route_umans path method =
    if is_path path "/api/umans/usage" && is_get method
    then usage
    else if is_path path "/api/umans/concurrency" && is_get method
    then concurrency
    else if is_path path "/api/umans/usage-history"
    then usage_history
    else if is_path path "/api/umans/status" && is_get method
    then status
    else if is_path path "/api/umans/status-history" && is_get method
    then status_history
    else if is_path path "/api/umans/user"
    then user
    else if is_path path "/api/restart"
    then restart
    else if is_path path "/api/bg"
    then bing_wallpaper
    else if is_path path "/api/bg-wallhaven"
    then wallhaven_wallpaper
    else not_found

-- The switch: the first case that fits.
unfoldable pub route : Bytes → Bytes → Route
route path method =
    if is_path path "/" || is_path path "/dashboard"
    then dashboard
    else if is_path path "/dashboard.js"
    then dashboard_js
    else if is_path path "/healthz"
    then healthz
    else if is_path path "/v1/models/info"
    then models_info
    else if is_path path "/v1/models"
    then models
    else if is_path path "/api/validate"
    then validate
    else if is_path path "/api/models"
    then api_models
    else if is_path path "/v1/chat/completions"
    then chat_completions
    else if is_path path "/v1/messages" || is_path path "/messages"
    then messages
    else if is_path path "/api/config"
    then by_method config_get config_post method
    else if is_path path "/api/keys"
    then by_method keys_get keys_post method
    else route_umans path method

module _ (trim_space : Bytes → Bytes) where
  -- `API_KEYS` guards everything but the open paths, as far as the mode of the keys does.
  unfoldable pub handle_request : KeyMode → List Bytes → Headers → Bytes → Bytes → Route
  handle_request mode [] headers path method = route path method
  handle_request mode (k ∷ ks) headers path method =
      if not (is_open path) && not (authorized trim_space mode (k ∷ ks) headers)
      then unauthorized
      else route path method
