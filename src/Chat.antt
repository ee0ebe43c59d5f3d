-- ===== src/Chat.antt =====
-- `proxyChatRequest` of src/proxy_openai.go: key acquisition, session tracking, and the retry callback.
-- The upstream client is a parameter: what it returns for an attempt and a key. The two error writers
-- are set, as src/handlers.go sets them. The payload's rewriting is in Pipeline, the panic recovery left out;
-- `now` is the time that an attempt reads, and the log of errors is not part of the state.
pub mod Rule
pub mod Answers
pub mod Keys
pub mod Marks
mod Tests
use umans_dash_go.Prelude.{
  ℕ, zero, suc, ◌+◌, ◌≤◌, ◌<◌, ◌≡◌, refl, Bool, true, false, not, ◌||◌, ◌&&◌, Option, none, some,
  List, [], ◌∷◌, ◌++◌, ltb, leb, ◌==◌, if◌then◌else◌, ℤ, pos, negsuc, Bytes, codes, same, length,
}
use umans_dash_go.KeyPool.{KeyPool, KeySlot, acquire, mark_unhealthy, mark_healthy, total}
use umans_dash_go.Conversation.{Session, Conversations, touch, track}
use umans_dash_go.Retry.{
  RetryConfig, Callback, Verdict, failed, retry, done, Ending, finished, aborted, retry_loop,
  is_retryable_status,
}

-- What the code reads of an upstream response. `peeked` counts the bytes of the first read,
-- `peek_fails` is an error of it other than the end of the stream, and `body_fails` an error behind it.
pub record Response : Type 0 where
  pub status : ℕ
  pub event_stream : Bool
  pub peeked : ℕ
  pub peek_fails : Bool
  pub body_fails : Bool

-- What the handler gives to the response, in the order of the calls.
pub data Answer : Type 0 where
  -- `writeError` and `writePassthroughError` with a status
  error passed : ℕ → Answer
  stream_headers chunk stream_error json_body done_marker : Answer

pub data Failure : Type 0 where
  already_committed no_keys : Failure

-- The request's own constants: `keeps_client_key` says that the mode is "passthrough" or "smart".
pub record Request : Type 0 where
  pub using_client_key : Bool
  pub client_key : Bytes
  pub keeps_client_key : Bool
  pub is_stream : Bool
  pub has_upstream : Bool

-- What the callback shares with the handler and the proxy. `streaming` says that the content type of the
-- response is that of an event stream, and `sent` lists the keys of the upstream calls.
pub record Chat : Type 0 where
  pub pool : Option KeyPool
  pub key_index : ℤ
  pub key : Bytes
  pub last_status : ℕ
  pub headers_committed : Bool
  pub streaming : Bool
  pub last_client_key : Bytes
  pub throttled : ℕ
  pub answers : List Answer
  pub sent : List Bytes

abbrev pub answer : Answer → Chat → Chat
answer a s = record s { answers = s.answers ++ a ∷ [] }

unfoldable pub mark_pool : ℕ → ℤ → ℕ → Option KeyPool → Option KeyPool
mark_pool now index status none = none
mark_pool now index status (some p) = some (mark_unhealthy now index status p)

unfoldable pub heal_pool : ℤ → Option KeyPool → Option KeyPool
heal_pool index none = none
heal_pool index (some p) = some (mark_healthy index p)

-- `lastStatus = status` with the mark on the current key.
abbrev pub mark_current : ℕ → ℕ → Chat → Chat
mark_current now status s = record s {
  last_status = status;
  pool = mark_pool now s.key_index status s.pool;
}

-- `BumpThrottled` on the two statuses.
abbrev pub bump : ℕ → Chat → Chat
bump status s = record s {
  throttled = if status == 503 || status == 429 then s.throttled + 1 else s.throttled;
}

abbrev pub take_slot : ℕ → Chat → KeyPool × Option KeySlot → Chat × Bool
take_slot now s (p, none) = (record s { pool = some p }, false)
take_slot now s (p, some slot) =
    (record s { pool = some p; key_index = pos slot.index; key = slot.key }, true)

-- Key rotation before a further attempt; false where no key is left.
unfoldable pub rotate : Request → ℕ → ℕ → Chat → Chat × Bool
rotate req now attempt s = elim s.pool [
  | none ↦ (s, true)
  | some p ↦
      if ltb 1 attempt && (not req.using_client_key && ltb 1 (total p))
      then take_slot now s (acquire now (negsuc 0) (mark_unhealthy now s.key_index s.last_status p))
      else (s, true)
]

-- A retryable failure: on the last attempt the client is told, otherwise the loop goes on.
abbrev pub give_up : {E : Type 0} → Bool → ℕ → Chat → Chat × Verdict E
give_up true status s = (answer (passed status) s, done)
give_up false status s = (s, retry)

abbrev pub bump_last : Bool → ℕ → Chat → Chat
bump_last true status s = bump status s
bump_last false status s = s

abbrev pub send_headers : Chat → Chat
send_headers s = record s {
  headers_committed = true;
  streaming = true;
  answers = if s.streaming then s.answers else s.answers ++ stream_headers ∷ [];
}

-- The stream behind its first read.
unfoldable pub stream_body : Response → Chat → Chat
stream_body r s =
    let headed = send_headers s in
    let started = if ltb 0 r.peeked then answer chunk headed else headed in
    if r.body_fails then answer stream_error started else started

-- The branch of a response that is no event stream.
unfoldable pub json_reply : Request → Response → Chat → Chat
json_reply req r s =
    if r.body_fails
    then answer (error 502) s
    else if req.is_stream
    then answer done_marker (answer chunk (send_headers s))
    else answer json_body s

-- A status below 400: the key is healthy again, and a client's key is remembered.
unfoldable pub succeeded : Request → Chat → Chat
succeeded req s = record s {
  pool = if req.using_client_key then s.pool else heal_pool s.key_index s.pool;
  last_client_key =
      if req.keeps_client_key && not (same req.client_key [])
      then req.client_key
      else s.last_client_key;
}

-- The response of a success; an event stream whose first read is empty counts as status 502.
unfoldable pub deliver : Request → ℕ → Bool → Response → Chat → Chat × Verdict Failure
deliver req now is_last r s =
    if not r.event_stream
    then (json_reply req r s, done)
    else if r.peeked == 0 && not r.peek_fails
    then give_up is_last 502 (mark_current now 502 s)
    else (stream_body r s, done)

unfoldable pub respond : Request → ℕ → Bool → Response → Chat → Chat × Verdict Failure
respond req now is_last r s =
    if is_retryable_status r.status
    then give_up is_last r.status (bump_last is_last r.status (mark_current now r.status s))
    else if leb 400 r.status
    then (answer (passed r.status) (bump r.status s), done)
    else deliver req now is_last r (succeeded req s)

module _ (req : Request) (now : ℕ → ℕ) (upstream : ℕ → Bytes → Option Response) where
  -- `ChatCompletions` and what follows it; a network error counts as status 502.
  unfoldable pub forward : ℕ → Bool → Chat → Chat × Verdict Failure
  forward attempt is_last s =
      let called = record s { sent = s.sent ++ s.key ∷ [] } in
      if not req.has_upstream
      then (answer (error 503) s, done)
      else (elim (upstream attempt s.key) [
        | none ↦ give_up is_last 502 (mark_current (now attempt) 502 called)
        | some r ↦ respond req (now attempt) is_last r called
      ])

  -- The callback of the retry loop.
  unfoldable pub callback : Callback Chat Failure
  callback attempt is_last s =
      let (rotated, has_key) = rotate req (now attempt) attempt s in
      if s.headers_committed
      then (s, failed already_committed)
      else if has_key
      then forward attempt is_last rotated
      else (rotated, failed no_keys)

-- What follows the loop.
unfoldable pub conclude : {A : Type 0} → Chat × A × Ending Failure → Chat
conclude (s, slept, finished) = s
conclude (s, slept, aborted e) = if s.streaming then answer stream_error s else answer (error 503) s

unfoldable pub forward_request :
    RetryConfig → Request → (ℕ → ℕ) → (ℕ → Bytes → Option Response) → Chat → Chat
forward_request c req now upstream s = conclude (retry_loop c (callback req now upstream) s)
