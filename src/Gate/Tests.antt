-- ===== src/Gate/Tests.antt =====
-- Runs of the gate of src/queue.go and src/usage.go.
use umans_dash_go.Prelude.{◌*◌, ◌≡◌, refl, true, false, none, some, [], pos, codes, same}
use umans_dash_go.Gate.{
  ConcurrencyData, GateState, compute_gate, gate_limit, second, get_effective_concurrency,
  compute_effective, set_concurrency_limit_mode, invalidate_gate_cache,
}
use umans_dash_go.Gate.Effective.{Agrees, get_effective_concurrency-Agrees}

abbrev plan : ConcurrencyData
plan = record {
  concurrent = pos 1;
  limit = some (pos 4);
  hard_cap = some (pos 8);
  user_id = [];
  overridden = false;
}

abbrev settings : GateState
settings = record {
  upstream = true;
  override_concurrency = pos 10;
  last_concurrency = plan;
  effective_cache = none;
  concurrency_limit_mode = codes "hard";
  manual_limit = pos 0;
  cached_gate = pos 0;
  cached_gate_at = 0;
}

program : Unit {0}
unfolding gate_limit compute_gate same invalidate_gate_cache set_concurrency_limit_mode
program = tt

-- The hard cap, and the soft limit; then the override is lowered to 3 and the cap still answers.
gates :
    ((gate_limit 5 settings).1 ≡ pos 8)
    × ((gate_limit 5 (set_concurrency_limit_mode (codes "soft") settings)).1 ≡ pos 4)
    × ((gate_limit
          (9 * second)
          (record (gate_limit 5 settings).0 { override_concurrency = pos 3 })).1
        ≡ pos 8)
unfolding program
gates = (refl, refl, refl)

get_effective_concurrency-Agrees_example :
    Agrees
      (get_effective_concurrency true (some (compute_effective plan (pos 6))) plan (pos 6)).0
      (compute_effective plan (pos 6))
get_effective_concurrency-Agrees_example = get_effective_concurrency-Agrees true plan plan (pos 6)
