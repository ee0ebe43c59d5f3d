-- ===== src/Usage/Tests.antt =====
-- Runs of the usage.
use umans_dash_go.Prelude.{◌≡◌, refl, true, false, none, some, [], pos, codes, same}
use umans_dash_go.Json.{null}
use umans_dash_go.Gate.{GateState, gate_limit, choose_gate, compute_effective, mode_of}
use umans_dash_go.Usage.{UsageData, Usage, fetch_usage, fetch_concurrency}
use umans_dash_go.Usage.Window.{Counted, gate_of, fetch_usage-Counted, fetch_concurrency-gate}

abbrev answer : UsageData
answer = record {
  usage = null;
  plan = null;
  started_at = some (codes "noon");
  concurrent_sessions = pos 1;
  limit = some (pos 4);
  hard_cap = some (pos 8);
  user_id = [];
}

abbrev counted : Usage
counted = record {
  usage_cache = none;
  fetched_at = 0;
  throttled_count = 7;
  throttled_window = codes "dawn";
}

abbrev gate : GateState
gate = record {
  upstream = true;
  override_concurrency = pos 0;
  last_concurrency = record {
    concurrent = pos 0;
    limit = none;
    hard_cap = none;
    user_id = [];
    overridden = false;
  };
  effective_cache = none;
  concurrency_limit_mode = [];
  manual_limit = pos 0;
  cached_gate = pos 3;
  cached_gate_at = 5;
}

fetch_usage-Counted_example :
    Counted true 10 (some answer) counted (fetch_usage true 10 20 (some answer) counted).0
fetch_usage-Counted_example = fetch_usage-Counted true 10 20 (some answer) counted

fetch_concurrency-gate_example :
    (gate_limit 30 (fetch_concurrency true 10 20 (some answer) (counted, gate)).1).1
    ≡ gate_of answer gate
unfolding fetch_usage
fetch_concurrency-gate_example = fetch_concurrency-gate true 10 20 30 (some answer) counted gate

-- The cached gate of 3 is replaced by the limit of the answer.
new_gate : gate_of answer gate ≡ pos 4
unfolding choose_gate compute_effective mode_of same
new_gate = refl
