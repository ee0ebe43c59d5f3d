-- ===== src/ConfigAdmin/Tests.antt =====
-- Runs of `HandleConfigPost`.
use umans_dash_go.Prelude.{
  ℕ, ◌+◌, ◌-◌, ◌*◌, ◌≡◌, refl, true, false, none, some, [], ◌∷◌, ℤ, pos, negsuc, Bytes, codes,
  arith, same, ◌==◌, if◌then◌else◌,
}
use umans_dash_go.Json.{str, num, member, Fields, end, field}
use umans_dash_go.Gate.{
  GateState, second, get_effective_concurrency, compute_effective, set_manual_limit,
  set_concurrency_limit_mode, invalidate_gate_cache,
}
use umans_dash_go.ConfigAdmin.{Server, Settings, in_order, set_address}
use umans_dash_go.ConfigAdmin.Numbers.{
  Float64, int_limit, int_of, set_max_images, set_limit_mode, switch_mode, default_manual,
  set_attempts, set_timeout, clamp_timeout, drop_gate,
}
use umans_dash_go.ConfigAdmin.Post.{handle_config_post, finish_post, check_fields}
use umans_dash_go.ConfigAdmin.Valid.{IsValid}
use umans_dash_go.ConfigAdmin.Bounds.{numbers_fit, handle_config_post-IsValid}
use umans_dash_go.ConfigAdmin.Gated.{Answered, handle_config_post-Answered}

abbrev from_digits : ℕ → Bytes → ℕ
from_digits n [] = n
from_digits n (d ∷ ds) = from_digits (n * 10 + (d - 48)) ds

-- Integers in decimal, without a sign or with a minus.
abbrev read_number : Bytes → Float64
read_number [] = record { negative = false; whole = 0 }
read_number (d ∷ ds) =
    if d == 45
    then record { negative = true; whole = from_digits 0 ds }
    else record { negative = false; whole = from_digits 0 (d ∷ ds) }

-- What an int64 conversion of amd64 gives out of range.
abbrev lowest : Float64 → ℤ
lowest f = negsuc (int_limit - 1)

abbrev settings : Settings
settings = record {
  api_key = [];
  api_keys = [];
  listen_addr = codes ":8080";
  enabled_models = [];
  model_display_names = [];
  wallpaper_source = codes "none";
  override_concurrency = pos 0;
  max_images = pos 9;
  disabled_models = [];
  vision_handoff_enabled = true;
  vision_handoff_model = [];
  vision_handoff_prompt = [];
  vision_handoff_cache_enabled = true;
  api_key_mode = codes "smart";
  concurrency_limit_mode = codes "soft";
  burst_mode = false;
  manual_concurrency_limit = pos 0;
  slot_free_delay = pos 0;
  retry_attempts = some (pos 3);
  backoff_strategy = codes "aggressive";
  request_timeout = pos (900 * second);
  keys = [];
}

abbrev gate : GateState
gate = record {
  upstream = true;
  override_concurrency = pos 0;
  last_concurrency = record {
    concurrent = pos 0;
    limit = some (pos 4);
    hard_cap = some (pos 8);
    user_id = [];
    overridden = false;
  };
  effective_cache = none;
  concurrency_limit_mode = codes "soft";
  manual_limit = pos 0;
  cached_gate = pos 4;
  cached_gate_at = 7;
}

abbrev server : Server
server = record {
  settings = settings;
  gate = gate;
  retries = record { retry_attempts = pos 3; backoff_strategy = codes "aggressive" };
  key_pool = none;
  upstream_timeout = some (pos (900 * second));
  saves = [];
  rendered = true;
  restart_required = false;
  signals_queue = false;
}

abbrev manual_request : Fields
manual_request = field (codes "concurrencyLimitMode") (str (codes "manual")) (
    field (codes "retryAttempts") (num (codes "99"))
      (field (codes "requestTimeout") (num (codes "-5")) end))

-- The images are refused after the address is taken.
abbrev refused_request : Fields
refused_request =
    field (codes "listenAddr") (str (codes ":9090"))
      (field (codes "maxImages") (num (codes "-1")) end)

refused_address :
    (handle_config_post read_number lowest [] (some refused_request) server).0.settings.listen_addr
    ≡ codes ":9090"
unfolding handle_config_post finish_post in_order set_address check_fields set_max_images member
    same
refused_address = refl

manual_limit_set :
    (handle_config_post read_number lowest [] (some manual_request) server).0.gate.manual_limit
    ≡ pos 4
unfolding handle_config_post finish_post in_order check_fields set_limit_mode switch_mode
    default_manual set_attempts int_of set_timeout clamp_timeout get_effective_concurrency
    set_manual_limit drop_gate invalidate_gate_cache set_concurrency_limit_mode compute_effective
    member same
manual_limit_set = refl

server-IsValid : IsValid server
unfolding same
server-IsValid = (
  record { bounded = (omega arith, omega arith); is_setting = refl },
  record { bounded = (omega arith, omega arith); is_used = refl },
  record {
    delay_natural = omega arith;
    images_natural = omega arith;
    override_natural = omega arith;
    gate_is_override = refl;
  },
  record {
    is_mode = refl;
    is_used = refl;
    natural = omega arith;
    positive = λ m. absurd (ground (arith, m));
  },
  refl,
  refl,
)

-- An image limit and an override, which both fit.
abbrev sized_request : Fields
sized_request =
    field (codes "maxImages") (num (codes "12"))
      (field (codes "overrideConcurrency") (num (codes "5")) manual_request)

fit : numbers_fit read_number lowest (some sized_request) ≡ true
unfolding member same
fit = refl

handle_config_post-IsValid_example :
    IsValid (handle_config_post read_number lowest [] (some sized_request) server).0
handle_config_post-IsValid_example =
    handle_config_post-IsValid read_number lowest [] (some sized_request) server fit server-IsValid

handle_config_post-Answered_example :
    Answered server (handle_config_post read_number lowest [] (some refused_request) server)
handle_config_post-Answered_example =
    handle_config_post-Answered read_number lowest server [] (some refused_request)
