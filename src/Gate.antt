-- ===== src/Gate.antt =====
-- The concurrency gate: `gateLimit` and its setters in src/queue.go, `GetEffectiveConcurrency` in
-- src/usage.go, and the type `ConcurrencyData` of src/types.go.
-- Each mutex-protected group of fields is read and written as a whole. Times are nanoseconds since
-- Go's zero time, so that an unset `cachedGateAt` is 0.
pub mod Limit
pub mod Effective
mod Tests
use umans_dash_go.Prelude.{
  ℕ, zero, suc, ◌+◌, ◌-◌, ◌≤◌, ◌<◌, ◌≡◌, refl, Bool, true, false, not, ◌&&◌, ◌||◌, Option, none,
  some, List, [], ◌∷◌, ltb, leb, ◌==◌, if◌then◌else◌, ℤ, pos, negsuc, ltb_ℤ, leb_ℤ, eqb_ℤ, Bytes,
  codes, same,
}

pub record ConcurrencyData : Type 0 where
  pub concurrent : ℤ
  pub limit : Option ℤ
  pub hard_cap : Option ℤ
  pub user_id : Bytes
  pub overridden : Bool

-- Both pointers nil, or both set to equal values.
unfoldable pub same_limit : Option ℤ → Option ℤ → Bool
same_limit none none = true
same_limit none (some b) = false
same_limit (some a) none = false
same_limit (some a) (some b) = eqb_ℤ a b

abbrev pub is_override : ℤ → Bool
is_override override = ltb_ℤ (pos 0) override

-- The smaller of the override and the hard cap of the API.
abbrev pub cap_override : ℤ → Option ℤ → ℤ
cap_override override none = override
cap_override override (some cap) = if ltb_ℤ cap override then cap else override

-- The computation behind the cache.
unfoldable pub compute_effective : ConcurrencyData → ℤ → ConcurrencyData
compute_effective last override =
    if is_override override
    then record last { hard_cap = some (cap_override override last.hard_cap); overridden = true }
    else last

-- The test of the cache key.
unfoldable pub cache_matches : ConcurrencyData → ConcurrencyData → ℤ → Bool
unfolding same_limit
cache_matches cached last override =
    same_limit last.limit cached.limit
    && (same_limit last.hard_cap cached.hard_cap
        && (if cached.overridden then is_override override else not (is_override override)))

-- The result and the cache `effectiveConcurrencyCache` after it; `upstream` is `p.Upstream != nil`.
unfoldable pub get_effective_concurrency :
    Bool → Option ConcurrencyData → ConcurrencyData → ℤ → ConcurrencyData × Option ConcurrencyData
unfolding cache_matches compute_effective
get_effective_concurrency false cache last override = (compute_effective last override, cache)
get_effective_concurrency true none last override =
    (compute_effective last override, some (compute_effective last override))
get_effective_concurrency true (some cached) last override =
    if cache_matches cached last override
    then (cached, some cached)
    else (compute_effective last override, some (compute_effective last override))

pub data Mode : Type 0 where
  soft hard manual : Mode

-- The `switch` on the mode: any other text is the default case.
unfoldable pub mode_of : Bytes → Mode
mode_of mode =
    if same mode (codes "manual") then manual else if same mode (codes "hard") then hard else soft

abbrev pub or_else : Option ℤ → Option ℤ → ℤ
or_else none none = pos 1
or_else none (some b) = b
or_else (some a) b = a

abbrev pub above_one : ℤ → ℤ
above_one gate = if ltb_ℤ gate (pos 1) then pos 1 else gate

abbrev pub below_cap : ℤ → Option ℤ → ℤ
below_cap gate none = gate
below_cap gate (some cap) = if ltb_ℤ cap gate then cap else gate

unfoldable pub choose_gate : ConcurrencyData → Mode → ℤ → ℤ
choose_gate eff manual limit =
    if leb_ℤ limit (pos 0)
    then or_else eff.limit eff.hard_cap
    else above_one (below_cap limit eff.hard_cap)
choose_gate eff hard limit = or_else eff.hard_cap eff.limit
choose_gate eff soft limit = or_else eff.limit eff.hard_cap

-- The fields of `Proxy` that the gate reads and writes.
pub record GateState : Type 0 where
  pub upstream : Bool
  pub override_concurrency : ℤ
  pub last_concurrency : ConcurrencyData
  pub effective_cache : Option ConcurrencyData
  pub concurrency_limit_mode : Bytes
  pub manual_limit : ℤ
  pub cached_gate : ℤ
  pub cached_gate_at : ℕ

abbrev pub second : ℕ
second = 1_000_000_000

abbrev pub is_fresh : ℕ → GateState → Bool
is_fresh now s = not (s.cached_gate_at == 0) && leb (now - s.cached_gate_at) second

-- The gate computed anew.
unfoldable pub compute_gate : GateState → ℤ × Option ConcurrencyData
unfolding get_effective_concurrency choose_gate mode_of
compute_gate s =
    let (eff, cache) =
      get_effective_concurrency s.upstream s.effective_cache s.last_concurrency
        s.override_concurrency in
    (choose_gate eff (mode_of s.concurrency_limit_mode) s.manual_limit, cache)

unfoldable pub gate_limit : ℕ → GateState → GateState × ℤ
gate_limit now s = if is_fresh now s then (s, s.cached_gate) else (
  record s {
    effective_cache = (compute_gate s).1;
    cached_gate = (compute_gate s).0;
    cached_gate_at = now;
  },
  (compute_gate s).0,
)

unfoldable pub invalidate_gate_cache : GateState → GateState
invalidate_gate_cache s = record s { cached_gate = pos 0; cached_gate_at = 0 }

unfoldable pub set_concurrency_limit_mode : Bytes → GateState → GateState
set_concurrency_limit_mode mode s = record s { concurrency_limit_mode = mode }

unfoldable pub set_manual_limit : ℤ → GateState → GateState
set_manual_limit limit s = record s { manual_limit = above_one limit }

-- The end of `FetchConcurrency`: fresh upstream data replaces the old, and both caches are dropped.
unfoldable pub store_concurrency : ℤ → Option ℤ → Option ℤ → Bytes → GateState → GateState
unfolding invalidate_gate_cache
store_concurrency concurrent limit hard_cap user_id s = invalidate_gate_cache (record s {
  last_concurrency = record {
    concurrent = concurrent;
    limit = limit;
    hard_cap = hard_cap;
    user_id = user_id;
    overridden = false;
  };
  effective_cache = none;
})
