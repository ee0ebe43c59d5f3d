-- ===== src/Usage.antt =====
-- `FetchUsage` and `FetchConcurrency` of src/usage.go: the usage and its cache, the count of throttled
-- requests of a window, and the limits that the gate then reads. The upstream client and the decoder of
-- its answer are parameters. `UsageData` has the decoded fields `usage` and `plan` as they are.
pub mod Window
mod Tests
use umans_dash_go.Prelude.{
  ℕ, Bool, true, false, not, ◌&&◌, Option, none, some, List, [], ◌∷◌, ltb, since, if◌then◌else◌, ℤ,
  Bytes, same,
}
use umans_dash_go.Json.{Json}
use umans_dash_go.Gate.{GateState, store_concurrency}

-- No `window` is the nil pointer; `started_at` is what it holds. Without `limits` both are nil.
pub record UsageData : Type 0 where
  pub usage : Json
  pub plan : Json
  pub started_at : Option Bytes
  pub concurrent_sessions : ℤ
  pub limit : Option ℤ
  pub hard_cap : Option ℤ
  pub user_id : Bytes

pub record Usage : Type 0 where
  pub usage_cache : Option UsageData
  pub fetched_at : ℕ
  pub throttled_count : ℕ
  pub throttled_window : Bytes

-- Five minutes.
abbrev pub usage_cache_ttl : ℕ
usage_cache_ttl = 300_000_000_000

abbrev pub new_window : UsageData → Bytes
new_window usage = elim usage.started_at [ none ↦ [] | some started ↦ started ]

unfoldable pub reset_throttled : UsageData → Usage → Usage
reset_throttled usage s =
    if not (same (new_window usage) []) && not (same (new_window usage) s.throttled_window)
    then record s { throttled_count = 0; throttled_window = new_window usage }
    else s

unfoldable pub store_usage : ℕ → UsageData → Usage → Usage
store_usage later usage s = record (reset_throttled usage s) {
  usage_cache = some usage;
  fetched_at = later;
}

abbrev pub fresh_usage : Bool → ℕ → Usage → Option UsageData
fresh_usage fresh now s =
    if fresh
    then none
    else if ltb (since now s.fetched_at) usage_cache_ttl
    then s.usage_cache
    else none

-- `answer` is the decoded answer of the upstream: none without a client, and on an error or a body that
-- does not decode.
unfoldable pub fetch_usage : Bool → ℕ → ℕ → Option UsageData → Usage → Usage × Option UsageData
fetch_usage fresh now later answer s = elim (fresh_usage fresh now s) [
  | some usage ↦ (s, some usage)
  | none ↦ elim answer [
    | none ↦ (s, s.usage_cache)
    | some usage ↦ (store_usage later usage s, some usage)
  ]
]

unfoldable pub fetch_concurrency :
    Bool → ℕ → ℕ → Option UsageData → Usage × GateState → Usage × GateState
fetch_concurrency fresh now later answer s =
    let fetched = fetch_usage fresh now later answer s.0 in
    elim fetched.1 [
      | none ↦ (fetched.0, s.1)
      | some usage ↦ (
        fetched.0,
        store_concurrency usage.concurrent_sessions usage.limit usage.hard_cap usage.user_id s.1,
      )
    ]
