-- ===== src/ConfigAdmin/Numbers.antt =====
-- The fields of `HandleConfigPost` of src/handlers.go that are checked, clamped, or change the gate.
use umans_dash_go.Prelude.{
  ℕ, zero, ◌*◌, suc, ◌-◌, leb, ltb, Bool, true, false, none, some, ◌||◌, ◌&&◌, if◌then◌else◌, ℤ,
  pos, negsuc, ltb_ℤ, eqb_ℤ, Bytes, codes, same,
}
use umans_dash_go.Gate.{
  ConcurrencyData, get_effective_concurrency, set_manual_limit, set_concurrency_limit_mode,
  invalidate_gate_cache, second,
}
use umans_dash_go.Retry.{
  max_retry_attempts_cap, backoff_presets, get_retry_attempts, get_backoff_strategy,
  set_retry_config,
}
use umans_dash_go.ConfigAdmin.{Server, change}

pub data Checked : Type 0 where
  rejected : Bytes → Server → Checked
  goes_on : Server → Checked

abbrev pub is_source : Bytes → Bool
is_source v = same v (codes "none") || (same v (codes "bing") || same v (codes "wallhaven"))

unfoldable pub set_wallpaper : Bytes → Server → Checked
set_wallpaper v s =
    if is_source v
    then goes_on
        (record s { settings = record s.settings { wallpaper_source = v }; rendered = false })
    else rejected (codes "wallpaperSource must be one of: none, bing, wallhaven") s

abbrev pub at_least : ℤ → ℤ → ℤ
at_least low n = if ltb_ℤ n low then low else n

abbrev pub at_most : ℤ → ℤ → ℤ
at_most high n = if ltb_ℤ high n then high else n

-- The default of the manual limit: the soft cap, the hard cap, or one.
abbrev pub default_limit : ConcurrencyData → ℤ
default_limit eff = elim eff.limit [
  | some n ↦ n
  | none ↦ elim eff.hard_cap [ some n ↦ n | none ↦ pos 1 ]
]

abbrev pub use_limit : ℤ → Server → Server
use_limit n s = record s {
  settings = record s.settings { manual_concurrency_limit = n };
  gate = set_manual_limit n s.gate;
}

-- `GetEffectiveConcurrency` also stores its result in its cache.
unfoldable pub default_manual : Server → Server
default_manual s =
    let (eff, cache) =
      get_effective_concurrency s.gate.upstream s.gate.effective_cache s.gate.last_concurrency
        s.settings.override_concurrency in
    use_limit (default_limit eff) (record s { gate = record s.gate { effective_cache = cache } })

abbrev pub is_limit_mode : Bytes → Bool
is_limit_mode v = same v (codes "soft") || (same v (codes "hard") || same v (codes "manual"))

unfoldable pub switch_mode : Bytes → Server → Server
switch_mode v s = record s {
  settings = record s.settings { concurrency_limit_mode = v; burst_mode = same v (codes "hard") };
  gate = set_concurrency_limit_mode v s.gate;
  signals_queue = true;
}

unfoldable pub drop_gate : Server → Server
drop_gate s = record s { gate = invalidate_gate_cache s.gate }

unfoldable pub set_limit_mode : Bytes → Server → Server
set_limit_mode v s =
    let switched = switch_mode v s in
    drop_gate (
      if is_limit_mode v
      then (if same v (codes "manual") && eqb_ℤ s.gate.manual_limit (pos 0)
          then default_manual switched
          else switched)
      else s)

unfoldable pub set_strategy : Bytes → Server → Server
set_strategy v s = elim (backoff_presets v) [
  | none ↦ s
  | some delays ↦ record s {
    settings = record s.settings { backoff_strategy = v };
    retries = set_retry_config (get_retry_attempts s.retries) v;
  }
]

abbrev pub seconds : ℤ → ℤ
seconds (pos n) = pos (n * second)
seconds (negsuc n) = negsuc (suc n * second - 1)

-- A decoded number, as far as the handler tells two of them apart: whether it is below 0, and the integer
-- part of its absolute value.
pub record Float64 : Type 0 where
  pub negative : Bool
  pub whole : ℕ

-- 2 ^ 63
abbrev pub int_limit : ℕ
int_limit = 9_223_372_036_854_775_808

-- Whether an `int` of 64 bits can hold the integer part.
abbrev pub fits : Float64 → Bool
fits f = if f.negative then leb f.whole int_limit else ltb f.whole int_limit

abbrev pub minus : ℕ → ℤ
minus zero = pos 0
minus (suc n) = negsuc n

-- `int(v)`, which cuts the fraction off. What it gives for a number that does not fit is left to the
-- implementation of Go, and is `outside`.
unfoldable pub int_of : (Float64 → ℤ) → Float64 → ℤ
int_of outside f = if fits f then (if f.negative then minus f.whole else pos f.whole) else outside f

module _ (number : Bytes → Float64) (outside : Float64 → ℤ) where
  abbrev pub to_int : Bytes → ℤ
  to_int v = int_of outside (number v)

  unfoldable pub set_manual : Bytes → Server → Server
  set_manual v s = record (drop_gate (use_limit (at_least (pos 1) (to_int v)) s)) {
    signals_queue = true;
  }

  unfoldable pub set_slot_delay : Bytes → Server → Server
  set_slot_delay v = change (λ c. record c { slot_free_delay = at_least (pos 0) (to_int v) })

  unfoldable pub clamp_attempts : Bytes → ℤ
  clamp_attempts v = at_most max_retry_attempts_cap (at_least (pos 0) (to_int v))

  unfoldable pub set_attempts : Bytes → Server → Server
  set_attempts v s = record s {
    settings = record s.settings { retry_attempts = some (clamp_attempts v) };
    retries = set_retry_config (clamp_attempts v) (get_backoff_strategy s.retries);
  }

  -- A number of seconds between half a minute and half an hour.
  unfoldable pub clamp_timeout : Bytes → ℤ
  clamp_timeout v = seconds (at_most (pos 1800) (at_least (pos 30) (to_int v)))

  unfoldable pub set_timeout : Bytes → Server → Server
  set_timeout v s = record s {
    settings = record s.settings { request_timeout = clamp_timeout v };
    upstream_timeout = elim s.upstream_timeout [ none ↦ none | some t ↦ some (clamp_timeout v) ];
  }

  -- The numbers that are refused when they are negative.
  unfoldable pub set_override : Bytes → Server → Checked
  set_override v s =
      if (number v).negative
      then rejected (codes "overrideConcurrency must be >= 0") s
      else goes_on (record s {
        settings = record s.settings { override_concurrency = to_int v };
        gate = record s.gate { override_concurrency = to_int v };
      })

  unfoldable pub set_max_images : Bytes → Server → Checked
  set_max_images v s =
      if (number v).negative
      then rejected (codes "maxImages must be >= 0") s
      else goes_on (change (λ c. record c { max_images = to_int v }) s)
