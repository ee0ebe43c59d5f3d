-- ===== src/Anthropic/Stale.antt =====
-- The error of an earlier attempt in src/proxy_anthropic.go, behind a response that came after it.
use umans_dash_go.Prelude.{
  ℕ, zero, suc, ◌≡◌, refl, ap, ◌∙◌, sym, subst, if_split, ◌||◌, Bool, true, false, ◌&&◌, Option,
  none, some, List, [], ◌∷◌, ◌++◌, leb, ◌==◌, if◌then◌else◌, pos, negsuc, arith, Bytes, same,
}
use mathlib.Core.List.{append-nil}
use umans_dash_go.Retry.{
  RetryConfig, Callback, retry, done, Ending, finished, attempts, next_attempt, no_more, single,
  get_retry_attempts, get_retry_delay, retry_loop,
}
use umans_dash_go.Chat
use umans_dash_go.Chat.{Request, mark_pool, succeeded}
use umans_dash_go.Anthropic.{
  Reply, Written, piped, error_event, event_stream_type, tell, Exchange, network_error_body, pipe,
  send, call_messages, write_last_error, finish, proxy_messages,
}
use umans_dash_go.Anthropic.Exhausted.{Waiting, call_waiting}

attempts_second :
    {S E : Type 0} (delay : ℕ → ℕ) (fn : Callback S E) (n : ℕ) (s t u : S)
    → fn 1 false s ≡ (t, retry)
    → ((b : Bool) → fn 2 b t ≡ (u, done))
    → attempts delay fn (suc (suc n)) 1 s ≡ (u, delay 1 ∷ [], finished)
unfolding attempts next_attempt
attempts_second delay fn n s t u first second = rw first (rw (second (no_more n)) refl)

-- A loop whose first call asks for a retry and whose second is done ends there.
retry_loop_second :
    {S E : Type 0} (c : RetryConfig) (fn : Callback S E) (n : ℕ) (s t u : S)
    → get_retry_attempts c ≡ pos (suc (suc n))
    → fn 1 false s ≡ (t, retry)
    → ((b : Bool) → fn 2 b t ≡ (u, done))
    → retry_loop c fn s ≡ (u, get_retry_delay c (pos 1) ∷ [], finished)
unfolding retry_loop
retry_loop_second {S} {E} c fn n s t u allowed first second =
    subst
      (λ a.
        (elim a as (λ _. S × List ℕ × Ending E) [
          | negsuc m ↦ single fn s
          | pos zero ↦ single fn s
          | pos (suc m) ↦ attempts (λ k. get_retry_delay c (pos k)) fn (suc m) 1 s
        ])
        ≡ (u, get_retry_delay c (pos 1) ∷ [], finished))
      (sym allowed) (attempts_second (λ k. get_retry_delay c (pos k)) fn n s t u first second)

-- Nothing answers the first attempt, and then the reply comes.
abbrev pub late_reply : Reply → ℕ → Bytes → Option Reply
late_reply r attempt k = if attempt == 1 then none else some r

abbrev after_network_error : Exchange → Exchange
after_network_error x = record x {
  chat = record x.chat { sent = x.chat.sent ++ x.chat.key ∷ []; last_status = 502; pool = none };
  last_err_body = network_error_body;
}

-- What the error of an earlier attempt adds behind a response.
last_told :
    (end : ℕ) (y : Exchange)
    → y.chat.last_status ≡ 502
    → y.last_err_body ≡ network_error_body
    → y.written ≡ true
    → y.taken_over ≡ false
    → (write_last_error end y).writes
      ≡ y.writes ++ (if same y.content_type event_stream_type then error_event ∷ [] else [])
unfolding write_last_error tell same
last_told end y status body sent free =
    rw (status, body)
      (if_split
        (λ (z : Exchange).
          z.writes
          ≡ y.writes ++ (if same y.content_type event_stream_type then error_event ∷ [] else []))
        (same y.content_type event_stream_type) _ _ (λ e. rw (e, free) refl)
        (λ e. rw (e, sent) (sym (append-nil y.writes))))

module _ (req : Request) (now : ℕ → ℕ) (r : Reply) where
  first_call :
      (x : Exchange)
      → Waiting x
      → call_messages req now (late_reply r) 1 false x ≡ (after_network_error x, retry)
  unfolding send mark_pool
  first_call x h = call_waiting req now (late_reply r) 1 false x h ∙ ground (arith, h.no_pool)

  abbrev called : Exchange → Exchange
  called x = record x { chat = record x.chat { sent = x.chat.sent ++ x.chat.key ∷ [] } }

  second_call :
      (b : Bool) (x : Exchange)
      → Waiting x
      → leb 400 r.status ≡ false
      → call_messages req now (late_reply r) 2 b x ≡ (pipe req r (called x), done)
  unfolding send
  second_call b x h good = call_waiting req now (late_reply r) 2 b x h ∙ ground (arith, good)

  -- The content type of the response once the reply is piped.
  abbrev pub piped_type : Exchange → Bytes
  piped_type x = if same r.content_type [] then x.content_type else r.content_type

  -- The exchange once the whole reply is piped.
  abbrev begun : Exchange → Exchange
  begun x = record x {
    chat = record (succeeded req x.chat) { headers_committed = true };
    content_type = piped_type x;
    written = true;
    writes = x.writes ++ piped r.status ∷ [];
  }

  pipe-begun :
      (x : Exchange)
      → x.written ≡ false
      → x.taken_over ≡ false
      → r.body_fails ≡ false
      → pipe req r x ≡ begun x
  unfolding pipe
  pipe-begun x unsent free whole =
      if_split (λ (z : Exchange). z ≡ begun x) (x.written || x.taken_over) _ _
        (λ sent. absurd (ground (arith, sent, unsent, free)))
        (λ open_one.
          if_split (λ (z : Exchange). z ≡ begun x) (r.body_fails && r.event_stream) _ _
            (λ breaks. absurd (ground (arith, breaks, whole))) (λ intact. refl))

  succeeded_status : (s : Chat.Chat) → (succeeded req s).last_status ≡ s.last_status
  unfolding succeeded
  succeeded_status s = ground arith

  piped_then_error :
      (end : ℕ) (x : Exchange)
      → x.writes ≡ []
      → x.written ≡ false
      → x.taken_over ≡ false
      → r.body_fails ≡ false
      → (write_last_error end (pipe req r (called (after_network_error x)))).writes
        ≡ piped r.status ∷ (if same (piped_type x) event_stream_type then error_event ∷ [] else [])
  piped_then_error end x unwritten unsent free whole =
      rw (pipe-begun (called (after_network_error x)) unsent free whole) (
        last_told end (begun (called (after_network_error x)))
          (succeeded_status (called (after_network_error x)).chat) refl refl free
        ∙ ap
            (λ (ws : List Written).
              (ws ++ piped r.status ∷ [])
              ++ (if same (piped_type x) event_stream_type then error_event ∷ [] else []))
            unwritten)

  -- Without a pool, with at least two attempts and a writer to which no status is written and that is not
  -- taken over: where the first attempt meets a network error and the second one a reply that is no error
  -- and is read to its end, the reply is piped to the client. The network error of the first attempt follows
  -- it as an event where the response is then an event stream, and is dropped where it is not.
  pub proxy_messages_late :
      (c : RetryConfig) (n end : ℕ) (x : Exchange)
      → get_retry_attempts c ≡ pos (suc (suc n))
      → leb 400 r.status ≡ false
      → r.body_fails ≡ false
      → x.written ≡ false
      → x.taken_over ≡ false
      → Waiting x
      → (proxy_messages c req now end (late_reply r) x).writes
        ≡ piped r.status ∷ (if same (piped_type x) event_stream_type then error_event ∷ [] else [])
  unfolding proxy_messages finish
  proxy_messages_late c n end x allowed good whole unsent free h =
      rw
        (retry_loop_second c (call_messages req now (late_reply r)) n x (after_network_error x)
          (pipe req r (called (after_network_error x))) allowed (first_call x h)
          (λ b. second_call b (after_network_error x) (waiting x h) good))
        (piped_then_error end x h.unwritten unsent free whole)
    where
      waiting : (x : Exchange) → Waiting x → Waiting (after_network_error x)
      waiting x h = record { no_pool = refl; uncommitted = h.uncommitted; unwritten = h.unwritten }
