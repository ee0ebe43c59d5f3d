-- ===== src/Anthropic/Exhausted.antt =====
-- The error that src/proxy_anthropic.go writes where every attempt fails.
use umans_dash_go.Prelude.{
  ℕ, ◌≡◌, refl, ◌∙◌, sym, subst, Bool, true, false, Option, none, some, [], ◌∷◌, ◌++◌,
  if◌then◌else◌, arith, Bytes, codes, same, List,
}
use umans_dash_go.Retry.{RetryConfig, Ending, finished, aborted, is_retryable_status}
use umans_dash_go.Chat
use umans_dash_go.Chat.{Request, Failure, rotate, mark_pool, mark_current, bump, succeeded}
use umans_dash_go.Chat.Rule.{Good, Ended, retry_loop-Ended}
use umans_dash_go.Anthropic.{
  Reply, Written, passed, error_event, tell, Exchange, again, reject, send, call_messages,
  write_last_error, finish, proxy_messages,
}

-- What a client gets of an error with this status.
abbrev pub told : ℕ → Exchange → List Written
told status x =
    if x.taken_over
    then []
    else if same x.content_type (codes "text/event-stream")
    then error_event ∷ []
    else if x.written
    then []
    else passed status ∷ []

-- Before an attempt nothing is written, and no pool is configured.
pub record Waiting (x : Exchange) : Type 0 where
  pub no_pool : x.chat.pool ≡ none
  pub uncommitted : x.chat.headers_committed ≡ false
  pub unwritten : x.writes ≡ []

-- The writer is the one of before.
record Still (start x : Exchange) : Type 0 where
  waiting : Waiting x
  same_type : x.content_type ≡ start.content_type
  same_written : x.written ≡ start.written
  same_taken : x.taken_over ≡ start.taken_over

-- After a failed attempt, its status and body are kept.
record Failed (r : Reply) (start x : Exchange) : Type 0 where
  still : Still start x
  status : x.chat.last_status ≡ r.status
  body : x.last_err_body ≡ r.body

rotate_poolless :
    (req : Request) (now attempt : ℕ) (s : Chat.Chat)
    → s.pool ≡ none
    → rotate req now attempt s ≡ (s, true)
unfolding rotate
rotate_poolless req now attempt s e = ground (arith, e)

-- Without a pool every attempt goes out.
pub call_waiting :
    (req : Request) (now : ℕ → ℕ) (upstream : ℕ → Bytes → Option Reply) (attempt : ℕ)
    (is_last : Bool) (x : Exchange)
    → Waiting x
    → call_messages req now upstream attempt is_last x ≡ send req now upstream attempt is_last x
unfolding call_messages
call_waiting req now upstream attempt is_last x h =
    ground (arith, h.uncommitted, rotate_poolless req (now attempt) attempt x.chat h.no_pool)

-- The state after an attempt with a retryable status.
abbrev after_failure : Reply → Exchange → Exchange
after_failure r x = record x {
  chat = record x.chat { sent = x.chat.sent ++ x.chat.key ∷ []; last_status = r.status };
  last_err_body = r.body;
}

module _ (req : Request) (now : ℕ → ℕ) (r : Reply)
    (retryable : is_retryable_status r.status ≡ true) where
  send_failing :
      (attempt : ℕ) (is_last : Bool) (x : Exchange)
      → send req now (λ a k. some r) attempt is_last x ≡ (after_failure r x, again is_last)
  unfolding send reject is_retryable_status
  send_failing attempt is_last x = ground (arith, retryable)

  call_failing :
      (attempt : ℕ) (is_last : Bool) (x : Exchange)
      → Waiting x
      → call_messages req now (λ a k. some r) attempt is_last x ≡ (after_failure r x, again is_last)
  call_failing attempt is_last x h =
      call_waiting req now (λ a k. some r) attempt is_last x h ∙ send_failing attempt is_last x

  after_failure-Still : (start x : Exchange) → Still start x → Still start (after_failure r x)
  after_failure-Still start x h = record {
    waiting = record {
      no_pool = h.waiting.no_pool;
      uncommitted = h.waiting.uncommitted;
      unwritten = h.waiting.unwritten;
    };
    same_type = h.same_type;
    same_written = h.same_written;
    same_taken = h.same_taken;
  }

  module _ (start : Exchange) where
    after_failure-Good :
        (is_last : Bool) (x : Exchange)
        → Still start x
        → Good {E = Failure}
            (Still start)
            (Failed r start)
            (λ y. ⊥)
            is_last
            (after_failure r x, again is_last)
    unfolding Good
    after_failure-Good true x h = record {
      still = after_failure-Still start x h;
      status = refl;
      body = refl;
    }
    after_failure-Good false x h = (after_failure-Still start x h, refl)

    call-Good :
        (attempt : ℕ) (is_last : Bool) (x : Exchange)
        → Still start x
        → Good
            (Still start)
            (Failed r start)
            (λ y. ⊥)
            is_last
            (call_messages req now (λ a k. some r) attempt is_last x)
    call-Good attempt is_last x h =
        subst (Good (Still start) (Failed r start) (λ y. ⊥) is_last)
          (sym (call_failing attempt is_last x h.waiting)) (after_failure-Good is_last x h)

    finish-Failed :
        {A : Type 0} (end : ℕ) (t : Exchange × A × Ending Failure)
        → Ended (Still start) (Failed r start) (λ y. ⊥) t
        → (finish end t).writes ≡ (if same r.body [] then [] else told r.status start)
    unfolding Ended finish write_last_error is_retryable_status tell
    finish-Failed end (x, slept, finished) h = ground (
      arith, retryable, h.status, h.body, h.still.waiting.unwritten, h.still.same_type,
      h.still.same_written, h.still.same_taken,
    )
    finish-Failed end (x, slept, aborted e) h = absurd h

  -- Without a pool and with nothing written before: where every attempt ends in one retryable
  -- status, this status is written once if the error has a body. If its body is empty, nothing is
  -- written at all. A response that is an event stream already gets an event in place of the status, and
  -- one that is committed otherwise, or whose writer is taken over, gets nothing.
  pub proxy_messages_exhausted :
      (c : RetryConfig) (end : ℕ) (x : Exchange)
      → Waiting x
      → (proxy_messages c req now end (λ a k. some r) x).writes
        ≡ (if same r.body [] then [] else told r.status x)
  unfolding proxy_messages
  proxy_messages_exhausted c end x h = finish-Failed x end _ (
      retry_loop-Ended (Still x) (Failed r x) (λ y. ⊥) (call_messages req now (λ a k. some r))
        (call-Good x) c x
        (record { waiting = h; same_type = refl; same_written = refl; same_taken = refl }))
