-- ===== src/Anthropic.antt =====
-- Step 8 of `proxyAnthropicRequest` in src/proxy_anthropic.go: the upstream calls in the retry loop, and
-- the error that is written behind it. The upstream client is a parameter, as in Chat; the rotation of
-- keys and the marks are those of Chat, on the fields that the two paths share. The recovery of panics
-- and the error log are left out.
pub mod Exhausted
pub mod Stale
mod Tests
use umans_dash_go.Prelude.{
  ℕ, zero, suc, ◌≡◌, Bool, true, false, not, ◌||◌, ◌&&◌, Option, none, some, List, [], ◌∷◌, ◌++◌,
  leb, ◌==◌, if◌then◌else◌, ℤ, pos, negsuc, Bytes, codes, same,
}
use umans_dash_go.Retry.{
  RetryConfig, Callback, Verdict, failed, retry, done, Ending, finished, aborted, retry_loop,
  is_retryable_status,
}
use umans_dash_go.Chat
use umans_dash_go.Chat.{
  Request, Failure, already_committed, no_keys, rotate, mark_pool, mark_current, bump, succeeded,
}

-- What the code reads of an upstream response: its content type, and whether the text of the event stream's
-- type is in it, `body`, which is what can be read of an error, and `body_fails`, an error while the body is
-- piped.
pub record Reply : Type 0 where
  pub status : ℕ
  pub content_type : Bytes
  pub event_stream : Bool
  pub body : Bytes
  pub body_fails : Bool

-- What is written to the client: an error of `WriteAnthropicError` or `WriteAnthropicPassthroughError` with
-- its status, a response that is piped with its status, the event of an interrupted stream, and an error that
-- `WriteJSON` writes as an event, without a status.
pub data Written : Type 0 where
  error passed piped : ℕ → Written
  stream_error error_event : Written

-- `chat` has the pool, the current key, `lastStatus`, `headersCommitted` and the counters; its answers and
-- its flag of the stream belong to the other path. Of the writer it has the content type and the tracker's
-- flags: a status is `written`, or the writer is `taken_over`, that is hijacked or aborted, which no other
-- goroutine does during a call here.
pub record Exchange : Type 0 where
  pub chat : Chat.Chat
  pub last_err_body : Bytes
  pub content_type : Bytes
  pub written : Bool
  pub taken_over : Bool
  pub writes : List Written

abbrev pub network_error_body : Bytes
network_error_body =
    codes "{\"error\":{\"type\":\"api_error\",\"message\":\"upstream network error: "

abbrev pub write : Written → Exchange → Exchange
write w x = record x { writes = x.writes ++ w ∷ [] }

abbrev pub event_stream_type : Bytes
event_stream_type = codes "text/event-stream"

-- `WriteJSON` of an error: an event where the response is an event stream, else the error itself, which is
-- dropped where the response is committed. Nothing reaches a client whose writer is taken over.
unfoldable pub tell : Written → Exchange → Exchange
tell w x =
    if same x.content_type event_stream_type
    then (if x.taken_over then x else write error_event (record x { written = true }))
    else if x.written || x.taken_over
    then x
    else write w (record x { content_type = codes "application/json"; written = true })

-- `return !isLast, nil`.
abbrev pub again : Bool → Verdict Failure
again true = done
again false = retry

-- A status from 400 on.
unfoldable pub reject : ℕ → Bool → Reply → Exchange → Exchange × Verdict Failure
reject now is_last r x =
    if is_retryable_status r.status
    then (
      record x { chat = record x.chat { last_status = r.status }; last_err_body = r.body },
      again is_last,
    )
    else (
      tell (passed r.status) (record x {
        chat = bump r.status (record x.chat {
          pool =
              if r.status == 503
              then mark_pool now x.chat.key_index 503 x.chat.pool
              else x.chat.pool;
        });
      }),
      done,
    )

-- A status below 400: the body is piped, unless the response is already committed.
unfoldable pub pipe : Request → Reply → Exchange → Exchange
pipe req r x =
    let healed = record x {
      chat = record (succeeded req x.chat) { headers_committed = true };
      content_type = if same r.content_type [] then x.content_type else r.content_type;
    } in
    let begun = write (piped r.status) (record healed { written = true }) in
    if x.written || x.taken_over
    then healed
    else if r.body_fails && r.event_stream
    then write stream_error begun
    else begun

module _ (req : Request) (now : ℕ → ℕ) (upstream : ℕ → Bytes → Option Reply) where
  unfoldable pub send : ℕ → Bool → Exchange → Exchange × Verdict Failure
  send attempt is_last x =
      let called = record x { chat = record x.chat { sent = x.chat.sent ++ x.chat.key ∷ [] } } in
      elim (upstream attempt x.chat.key) [
        | none ↦ (
          record called {
            chat = mark_current (now attempt) 502 called.chat;
            last_err_body = network_error_body;
          },
          again is_last,
        )
        | some r ↦
            if leb 400 r.status
            then reject (now attempt) is_last r called
            else (pipe req r called, done)
      ]

  -- The callback of the retry loop.
  unfoldable pub call_messages : Callback Exchange Failure
  call_messages attempt is_last x =
      let (rotated, has_key) = rotate req (now attempt) attempt x.chat in
      if x.chat.headers_committed
      then (x, failed already_committed)
      else if has_key
      then send attempt is_last (record x { chat = rotated })
      else (record x { chat = rotated }, failed no_keys)

-- The end of the handler: the last error, where there is one, at the time `now`.
unfoldable pub write_last_error : ℕ → Exchange → Exchange
write_last_error now x =
    if not (x.chat.last_status == 0) && not (same x.last_err_body [])
    then tell (passed x.chat.last_status) (record x {
      chat = bump x.chat.last_status (record x.chat {
        pool =
            if x.chat.last_status == 503
            then mark_pool now x.chat.key_index 503 x.chat.pool
            else x.chat.pool;
      });
    })
    else x

unfoldable pub finish : {A : Type 0} → ℕ → Exchange × A × Ending Failure → Exchange
finish now (x, slept, finished) = write_last_error now x
finish now (x, slept, aborted e) = tell (error 503) x

unfoldable pub proxy_messages :
    RetryConfig → Request → (ℕ → ℕ) → ℕ → (ℕ → Bytes → Option Reply) → Exchange → Exchange
proxy_messages c req now end upstream x =
    finish end (retry_loop c (call_messages req now upstream) x)
