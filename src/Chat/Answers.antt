-- ===== src/Chat/Answers.antt =====
-- The handler of src/proxy_openai.go answers once, whatever upstream does.
use umans_dash_go.Prelude.{
  ℕ, ◌+◌, ◌≡◌, refl, ◌∙◌, Bool, true, false, not, ◌&&◌, Option, none, some, List, [], ◌∷◌, ◌++◌,
  ltb, leb, ◌==◌, if◌then◌else◌, negsuc, arith, Bytes, Bool-cases, inl, inr, if_split,
}
use umans_dash_go.KeyPool.{KeyPool, KeySlot, acquire, mark_unhealthy, total}
use umans_dash_go.Retry.{
  RetryConfig, Verdict, failed, done, Ending, finished, aborted, is_retryable_status,
}
use umans_dash_go.Chat
use umans_dash_go.Chat.{
  Request, Response, Failure, Answer, error, passed, stream_headers, chunk, stream_error, json_body,
  done_marker, rotate, take_slot, give_up, answer, mark_current, bump, bump_last, send_headers,
  stream_body, json_reply, succeeded, respond, deliver, no_keys, forward, callback, conclude,
  forward_request,
}
use umans_dash_go.Chat.Rule.{Good, Ended, retry_loop-Ended}

-- How many answers of the list begin a response.
unfoldable pub begins : List Answer → ℕ
begins [] = 0
begins (error status ∷ l) = 1 + begins l
begins (passed status ∷ l) = 1 + begins l
begins (stream_headers ∷ l) = 1 + begins l
begins (json_body ∷ l) = 1 + begins l
begins (chunk ∷ l) = begins l
begins (stream_error ∷ l) = begins l
begins (done_marker ∷ l) = begins l

begins-append : (l m : List Answer) → begins (l ++ m) ≡ begins l + begins m
unfolding begins
begins-append [] m = omega arith
begins-append (error status ∷ l) m = omega (arith, begins-append l m)
begins-append (passed status ∷ l) m = omega (arith, begins-append l m)
begins-append (stream_headers ∷ l) m = omega (arith, begins-append l m)
begins-append (json_body ∷ l) m = omega (arith, begins-append l m)
begins-append (chunk ∷ l) m = begins-append l m
begins-append (stream_error ∷ l) m = begins-append l m
begins-append (done_marker ∷ l) m = begins-append l m

-- Nothing has been sent to the client.
pub record Fresh (s : Chat.Chat) : Type 0 where
  pub unanswered : begins s.answers ≡ 0
  pub plain : s.streaming ≡ false
  pub uncommitted : s.headers_committed ≡ false

abbrev pub Answered : Chat.Chat → Type 0
Answered s = begins s.answers ≡ 1

answer-Answered :
    (a : Answer) (s : Chat.Chat) → begins (a ∷ []) ≡ 1 → Fresh s → Answered (answer a s)
answer-Answered a s e h = omega (arith, begins-append s.answers (a ∷ []), h.unanswered, e)

closed-Good :
    (is_last : Bool) (s : Chat.Chat)
    → Answered s
    → Good {E = Failure} Fresh Answered Fresh is_last (s, done)
unfolding Good
closed-Good is_last s h = h

broken-Good :
    (is_last : Bool) (s : Chat.Chat)
    → Fresh s
    → Good {E = Failure} Fresh Answered Fresh is_last (s, failed no_keys)
unfolding Good
broken-Good is_last s h = h

error_begins : begins (error 503 ∷ []) ≡ 1
unfolding begins
error_begins = refl

passed_on-Answered :
    (status : ℕ) (s : Chat.Chat) → Fresh s → Answered (answer (passed status) (bump status s))
unfolding begins
passed_on-Answered status s h =
    omega (arith, begins-append s.answers (passed status ∷ []), h.unanswered)

give_up-Good :
    (is_last : Bool) (status : ℕ) (s : Chat.Chat)
    → Fresh s
    → Good {E = Failure} Fresh Answered Fresh is_last (give_up is_last status s)
unfolding Good begins
give_up-Good true status s h = answer-Answered (passed status) s refl h
give_up-Good false status s h = (h, refl)

send_headers-begins : (s : Chat.Chat) → Fresh s → begins (send_headers s).answers ≡ 1
unfolding begins
send_headers-begins s h =
    ground (arith, h.plain, h.unanswered, begins-append s.answers (stream_headers ∷ []))

stream_body-Answered : (r : Response) (s : Chat.Chat) → Fresh s → Answered (stream_body r s)
unfolding stream_body begins
stream_body-Answered r s h = ground (
  arith,
  send_headers-begins s h,
  begins-append (send_headers s).answers (chunk ∷ []),
  begins-append (send_headers s).answers (stream_error ∷ []),
  begins-append (answer chunk (send_headers s)).answers (stream_error ∷ []),
)

json_reply-Answered :
    (req : Request) (r : Response) (s : Chat.Chat) → Fresh s → Answered (json_reply req r s)
unfolding json_reply begins
json_reply-Answered req r s h = ground (
  arith,
  h.unanswered,
  send_headers-begins s h,
  begins-append s.answers (error 502 ∷ []),
  begins-append s.answers (json_body ∷ []),
  begins-append (send_headers s).answers (chunk ∷ []),
  begins-append (answer chunk (send_headers s)).answers (done_marker ∷ []),
)

same_answers-Fresh :
    (s t : Chat.Chat)
    → Fresh s
    → t.answers ≡ s.answers
    → t.streaming ≡ s.streaming
    → t.headers_committed ≡ s.headers_committed
    → Fresh t
same_answers-Fresh s t h a b c = record {
  unanswered = rw a h.unanswered;
  plain = b ∙ h.plain;
  uncommitted = c ∙ h.uncommitted;
}

succeeded-Fresh : (req : Request) (s : Chat.Chat) → Fresh s → Fresh (succeeded req s)
unfolding succeeded
succeeded-Fresh req s h = same_answers-Fresh s _ h refl refl refl

bump_last-Fresh : (b : Bool) (status : ℕ) (s : Chat.Chat) → Fresh s → Fresh (bump_last b status s)
bump_last-Fresh true status s h = same_answers-Fresh s _ h refl refl refl
bump_last-Fresh false status s h = h

marked-Fresh : (now status : ℕ) (s : Chat.Chat) → Fresh s → Fresh (mark_current now status s)
marked-Fresh now status s h = same_answers-Fresh s _ h refl refl refl

deliver-Good :
    (req : Request) (now : ℕ) (is_last : Bool) (r : Response) (s : Chat.Chat)
    → Fresh s
    → Good Fresh Answered Fresh is_last (deliver req now is_last r s)
unfolding deliver
deliver-Good req now is_last r s h =
    if_split (Good Fresh Answered Fresh is_last) (not r.event_stream) _ _
      (λ json. closed-Good is_last _ (json_reply-Answered req r s h))
      (λ stream.
        if_split (Good Fresh Answered Fresh is_last) (r.peeked == 0 && not r.peek_fails) _ _
          (λ empty. give_up-Good is_last 502 _ (marked-Fresh now 502 s h))
          (λ some_bytes. closed-Good is_last _ (stream_body-Answered r s h)))

respond-Good :
    (req : Request) (now : ℕ) (is_last : Bool) (r : Response) (s : Chat.Chat)
    → Fresh s
    → Good Fresh Answered Fresh is_last (respond req now is_last r s)
unfolding respond
respond-Good req now is_last r s h = elim (Bool-cases (is_retryable_status r.status)) [
  | inl again ↦ rw again (
      give_up-Good is_last r.status _
        (bump_last-Fresh is_last r.status _ (marked-Fresh now r.status s h)))
  | inr final ↦ rw final (elim (Bool-cases (leb 400 r.status)) [
    | inl wrong ↦ rw wrong (closed-Good is_last _ (passed_on-Answered r.status s h))
    | inr right ↦ rw right (deliver-Good req now is_last r _ (succeeded-Fresh req s h))
  ])
]

forward-Good :
    (req : Request) (now : ℕ → ℕ) (upstream : ℕ → Bytes → Option Response) (attempt : ℕ)
    (is_last : Bool) (s : Chat.Chat)
    → Fresh s
    → Good Fresh Answered Fresh is_last (forward req now upstream attempt is_last s)
unfolding forward
forward-Good req now upstream attempt is_last s h = elim (Bool-cases req.has_upstream) [
  | inr missing ↦ rw missing (closed-Good is_last _ (answer-Answered (error 503) s error_begins h))
  | inl there ↦ rw there (go (upstream attempt s.key))
]
  where
    called : Chat.Chat
    called = record s { sent = s.sent ++ s.key ∷ [] }

    called-Fresh : Fresh called
    called-Fresh = same_answers-Fresh s called h refl refl refl

    go :
        (o : Option Response)
        → Good Fresh Answered Fresh is_last (elim o as (λ _. Chat.Chat × Verdict Failure) [
          | none ↦ give_up is_last 502 (mark_current (now attempt) 502 called)
          | some r ↦ respond req (now attempt) is_last r called
        ])
    go none = give_up-Good is_last 502 _ (marked-Fresh (now attempt) 502 called called-Fresh)
    go (some r) = respond-Good req (now attempt) is_last r called called-Fresh

take_slot-Fresh :
    (now : ℕ) (s : Chat.Chat) (r : KeyPool × Option KeySlot) → Fresh s → Fresh (take_slot now s r).0
take_slot-Fresh now s (p, none) h = same_answers-Fresh s _ h refl refl refl
take_slot-Fresh now s (p, some slot) h = same_answers-Fresh s _ h refl refl refl

rotate-Fresh :
    (req : Request) (now attempt : ℕ) (s : Chat.Chat) → Fresh s → Fresh (rotate req now attempt s).0
unfolding rotate
rotate-Fresh req now attempt s h = go s.pool
  where
    go :
        (o : Option KeyPool)
        → Fresh
            (elim o as (λ _. Chat.Chat × Bool) [
              | none ↦ (s, true)
              | some p ↦
                  if ltb 1 attempt && (not req.using_client_key && ltb 1 (total p))
                  then take_slot now s
                      (acquire now (negsuc 0) (mark_unhealthy now s.key_index s.last_status p))
                  else (s, true)
            ]).0
    go none = h
    go (some p) =
        elim (Bool-cases (ltb 1 attempt && (not req.using_client_key && ltb 1 (total p)))) [
          | inl further ↦ rw further (take_slot-Fresh now s _ h)
          | inr stays ↦ rw stays h
        ]

pub callback-Good :
    (req : Request) (now : ℕ → ℕ) (upstream : ℕ → Bytes → Option Response) (attempt : ℕ)
    (is_last : Bool) (s : Chat.Chat)
    → Fresh s
    → Good Fresh Answered Fresh is_last (callback req now upstream attempt is_last s)
unfolding callback
callback-Good req now upstream attempt is_last s h =
    if_split (Good Fresh Answered Fresh is_last) s.headers_committed _ _
      (λ committed. absurd (ground (arith, h.uncommitted)))
      (λ open_response.
        if_split (Good Fresh Answered Fresh is_last) (rotate req (now attempt) attempt s).1 _ _
          (λ key. forward-Good req now upstream attempt is_last _ (rotated attempt s h))
          (λ no_key. broken-Good is_last _ (rotated attempt s h)))
  where
    rotated : (attempt : ℕ) (s : Chat.Chat) → Fresh s → Fresh (rotate req (now attempt) attempt s).0
    rotated attempt s h = rotate-Fresh req (now attempt) attempt s h

conclude-Answered :
    {A : Type 0} (r : Chat.Chat × A × Ending Failure)
    → Ended Fresh Answered Fresh r
    → Answered (conclude r)
unfolding Ended conclude
conclude-Answered (s, slept, finished) h = h
conclude-Answered (s, slept, aborted e) h =
    rw h.plain (answer-Answered (error 503) s error_begins h)

-- Where nothing has been sent before the loop, the handler begins exactly one answer, an error,
-- an upstream error passed on, a stream or a JSON body, whatever upstream returns in each attempt
-- and whatever keys the pool has left.
pub forward_request_answers :
    (c : RetryConfig) (req : Request) (now : ℕ → ℕ) (upstream : ℕ → Bytes → Option Response)
    (s : Chat.Chat)
    → Fresh s
    → begins (forward_request c req now upstream s).answers ≡ 1
unfolding forward_request
forward_request_answers c req now upstream s h = conclude-Answered _ (
    retry_loop-Ended Fresh Answered Fresh (callback req now upstream)
      (callback-Good req now upstream) c s h)
