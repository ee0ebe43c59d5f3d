-- ===== src/Admission.antt =====
-- How a request gets its key and its conversation: the first two steps of `proxyChatRequest` in
-- src/proxy_openai.go and of `proxyAnthropicRequest` in src/proxy_anthropic.go, and the client's key,
-- the authorisation and the dashboard's key in src/http.go. `strings.TrimSpace` is a parameter.
pub mod Affinity
pub mod Access
mod Tests
use umans_dash_go.Prelude.{
  ℕ, zero, suc, ◌+◌, ◌≡◌, refl, Bool, true, false, not, ◌||◌, ◌&&◌, Option, none, some, List, [],
  ◌∷◌, ◌==◌, if◌then◌else◌, ℤ, pos, negsuc, Bytes, codes, same, drop, length, take,
}
use umans_dash_go.KeyPool.{KeyPool, KeySlot, acquire, mark_healthy}
use umans_dash_go.Conversation.{Session, Conversations, touch, track}

abbrev pub bearer_prefix : Bytes
bearer_prefix = codes "Bearer "

-- The two headers, and the request's mode: `passthrough`, `smart`, or `managed` for any other text.
pub record Headers : Type 0 where
  pub x_api_key : Bytes
  pub authorization : Bytes

pub data KeyMode : Type 0 where
  passthrough smart managed : KeyMode

unfoldable pub key_mode : Bytes → KeyMode
key_mode mode =
    if same mode (codes "passthrough")
    then passthrough
    else if same mode (codes "smart")
    then smart
    else managed

unfoldable pub listed : Bytes → List Bytes → Bool
listed key [] = false
listed key (k ∷ ks) = same k key || listed key ks

module _ (trim_space : Bytes → Bytes) where
  -- The token of an `Authorization` header that starts with "Bearer ".
  unfoldable pub bearer_token : Headers → Option Bytes
  bearer_token h =
      let auth = trim_space h.authorization in
      if same (take 7 auth) bearer_prefix then some (trim_space (drop 7 auth)) else none

  unfoldable pub extract_client_api_key : Headers → Bytes
  extract_client_api_key h =
      if not (same (trim_space h.x_api_key) [])
      then trim_space h.x_api_key
      else (elim (bearer_token h) [ none ↦ [] | some token ↦ token ])

  unfoldable pub authorized : KeyMode → List Bytes → Headers → Bool
  authorized passthrough keys h = not (same (extract_client_api_key h) [])
  authorized smart keys h = true
  authorized managed [] h = true
  authorized managed (k ∷ ks) h =
      if not (same (trim_space h.x_api_key) []) && listed (trim_space h.x_api_key) (k ∷ ks)
      then true
      else (elim (bearer_token h) [ none ↦ false | some token ↦ listed token (k ∷ ks) ])

unfoldable pub set_last_client_key : Bytes → Bytes → Bytes
set_last_client_key key last = if same key [] then last else key

-- What `upstreamAPIKeyForDashboard` takes where the pool has no key: the configured ones.
abbrev pub first_key : List Bytes → Bytes
first_key [] = []
first_key (k ∷ ks) = k

unfoldable pub configured_key : Bytes → List Bytes → Bytes
configured_key api_key keys = if not (same api_key []) then api_key else first_key keys

abbrev pub dashboard_slot : Bytes → List Bytes → KeyPool × Option KeySlot → Option KeyPool × Bytes
dashboard_slot api_key keys (p, none) = (some p, configured_key api_key keys)
dashboard_slot api_key keys (p, some slot) = (some (mark_healthy (pos slot.index) p), slot.key)

unfoldable pub pool_key : ℕ → Bytes → List Bytes → Option KeyPool → Option KeyPool × Bytes
pool_key now api_key keys none = (none, configured_key api_key keys)
pool_key now api_key keys (some p) = dashboard_slot api_key keys (acquire now (negsuc 0) p)

unfoldable pub upstream_api_key_for_dashboard :
    ℕ → KeyMode → Bytes → Bytes → List Bytes → Option KeyPool → Option KeyPool × Bytes
upstream_api_key_for_dashboard now passthrough last api_key keys pool = (pool, last)
upstream_api_key_for_dashboard now smart last api_key keys pool =
    if not (same last []) then (pool, last) else pool_key now api_key keys pool
upstream_api_key_for_dashboard now managed last api_key keys pool = pool_key now api_key keys pool

-- The key of a request: the client's, a slot of the pool, none at all, or the status of a refusal.
pub data Key : Type 0 where
  client : Bytes → Key
  pooled : KeySlot → Key
  keyless : Key
  refused : ℕ → Key

abbrev pub slot_key : KeyPool × Option KeySlot → Option KeyPool × Key
slot_key (p, none) = (some p, refused 503)
slot_key (p, some slot) = (some p, pooled slot)

abbrev pub acquire_pooled : ℕ → ℤ → Option KeyPool → Option KeyPool × Key
acquire_pooled now preferred none = (none, keyless)
acquire_pooled now preferred (some p) = slot_key (acquire now preferred p)

unfoldable pub acquire_key : ℕ → KeyMode → Bytes → ℤ → Option KeyPool → Option KeyPool × Key
acquire_key now passthrough client_key preferred pool =
    if same client_key [] then (pool, refused 401) else (pool, client client_key)
acquire_key now smart client_key preferred pool =
    if same client_key [] then acquire_pooled now preferred pool else (pool, client client_key)
acquire_key now managed client_key preferred pool = acquire_pooled now preferred pool

-- The position of the slot, or the zero value of the OpenAI path and of the session's index.
abbrev pub slot_index : Key → ℤ
slot_index (client k) = pos 0
slot_index (pooled slot) = pos slot.index
slot_index keyless = pos 0
slot_index (refused status) = pos 0

-- The conversations with the counter of the sessions.
pub record Tracking : Type 0 where
  pub conversations : Conversations
  pub session_counter : ℕ

-- The preferred key of the OpenAI path, from the session that was touched.
abbrev pub preferred_index : Option Session → ℤ
preferred_index none = negsuc 0
preferred_index (some session) = session.token_index

-- The session tracking of the OpenAI path, for the session that was touched before the key was taken.
unfoldable pub track_openai : Bytes → ℤ → Option Session → Tracking → Tracking
track_openai fp index none t = if same fp [] then t else record {
  conversations =
      track fp (record { token_index = index; request_count = 1; sess_num = t.session_counter + 1 })
        false t.conversations;
  session_counter = t.session_counter + 1;
}
track_openai fp index (some session) t = if same fp [] then t else record t {
  conversations =
      track fp (record session { token_index = index; request_count = session.request_count + 1 })
        true t.conversations;
}

-- The index of a session that exists follows the slot, where there is one.
abbrev pub moved_index : Key → ℤ → ℤ
moved_index (client k) index = index
moved_index (pooled slot) index = pos slot.index
moved_index keyless index = index
moved_index (refused status) index = index

abbrev pub track_anthropic_touched : Bytes → Key → ℕ → Conversations × Option Session → Tracking
track_anthropic_touched fp key counter (c, some session) = record {
  conversations =
      track fp
        (record session {
          token_index = moved_index key session.token_index;
          request_count = session.request_count + 1;
        })
        true c;
  session_counter = counter;
}
track_anthropic_touched fp key counter (c, none) = record {
  conversations =
      track fp (record { token_index = slot_index key; request_count = 1; sess_num = counter + 1 })
        true c;
  session_counter = counter + 1;
}

-- The session tracking of the Anthropic path, which touches the session itself.
unfoldable pub track_anthropic : Bytes → Key → Tracking → Tracking
track_anthropic fp key t =
    if same fp []
    then t
    else track_anthropic_touched fp key t.session_counter (touch fp t.conversations)

-- The session tracking by the key that the request got; a refusal has returned before it.
abbrev pub track_admitted : Bytes → Option Session → Tracking → Key → Tracking
track_admitted fp session t (client k) = track_openai fp (pos 0) session t
track_admitted fp session t (pooled slot) = track_openai fp (pos slot.index) session t
track_admitted fp session t keyless = track_openai fp (pos 0) session t
track_admitted fp session t (refused status) = t

-- The first steps of the OpenAI path: touch, key, session; a refusal tracks nothing.
unfoldable pub admit_openai :
    ℕ → KeyMode → Bytes → Bytes → Tracking → Option KeyPool → Tracking × Option KeyPool × Key
admit_openai now mode client_key fp t pool =
    let (c, session) = touch fp t.conversations in
    let (pool', key) = acquire_key now mode client_key (preferred_index session) pool in
    (track_admitted fp session (record t { conversations = c }) key, pool', key)
