-- ===== src/Chat/Keys.antt =====
-- Which keys src/proxy_openai.go sends upstream.
use umans_dash_go.Prelude.{
  ℕ, ◌≡◌, refl, ◌∙◌, sym, subst, Bool, true, false, not, ◌&&◌, Option, none, some, List, [], ◌∷◌,
  ◌++◌, ltb, leb, ◌==◌, if◌then◌else◌, negsuc, arith, Bytes, if_split,
}
use umans_dash_go.KeyPool.{KeyPool, acquire, mark_unhealthy, total}
use umans_dash_go.Retry.{
  RetryConfig, Verdict, failed, retry, done, Ending, finished, aborted, is_retryable_status,
  retry_loop,
}
use umans_dash_go.Chat
use umans_dash_go.Chat.{
  Request, Response, Failure, mark_pool, rotate, take_slot, give_up, answer, error, mark_current,
  bump, bump_last, send_headers, stream_body, json_reply, succeeded, respond, deliver, forward,
  callback, conclude, forward_request,
}
use umans_dash_go.Chat.Answers.{Fresh, Answered, callback-Good}
use umans_dash_go.Chat.Rule.{Good, Ended, retry_loop-Ended}

-- Every key of the list is the given one.
pub data Only (k : Bytes) : List Bytes → Type 0 where
  no_call : Only k []
  one_more : (l : List Bytes) → Only k l → Only k (l ++ k ∷ [])

-- The key and the calls so far are those of the state `s`.
record Kept (s : Chat.Chat) (r : Chat.Chat × Verdict Failure) : Type 0 where
  key : r.0.key ≡ s.key
  sent : r.0.sent ≡ s.sent

give_up-Kept :
    (is_last : Bool) (status : ℕ) (s t : Chat.Chat)
    → t.key ≡ s.key
    → t.sent ≡ s.sent
    → Kept s (give_up is_last status t)
give_up-Kept true status s t k e = record { key = k; sent = e }
give_up-Kept false status s t k e = record { key = k; sent = e }

json_reply-Kept : (req : Request) (r : Response) (s : Chat.Chat) → Kept s (json_reply req r s, done)
unfolding json_reply
json_reply-Kept req r s = record { key = ground arith; sent = ground arith }

stream_body-Kept : (r : Response) (s : Chat.Chat) → Kept s (stream_body r s, done)
unfolding stream_body
stream_body-Kept r s = record { key = ground arith; sent = ground arith }

deliver-Kept :
    (req : Request) (now : ℕ) (is_last : Bool) (r : Response) (s : Chat.Chat)
    → Kept s (deliver req now is_last r s)
unfolding deliver
deliver-Kept req now is_last r s =
    if_split (Kept s) (not r.event_stream) _ _ (λ json. json_reply-Kept req r s)
      (λ stream.
        if_split (Kept s) (r.peeked == 0 && not r.peek_fails) _ _
          (λ empty. give_up-Kept is_last 502 s _ refl refl) (λ some_bytes. stream_body-Kept r s))

succeeded_keeps :
    (req : Request) (s : Chat.Chat)
    → ((succeeded req s).key ≡ s.key) × ((succeeded req s).sent ≡ s.sent)
unfolding succeeded
succeeded_keeps req s = (refl, refl)

bump_last_keeps :
    (b : Bool) (status : ℕ) (s : Chat.Chat)
    → ((bump_last b status s).key ≡ s.key) × ((bump_last b status s).sent ≡ s.sent)
bump_last_keeps true status s = (refl, refl)
bump_last_keeps false status s = (refl, refl)

respond-Kept :
    (req : Request) (now : ℕ) (is_last : Bool) (r : Response) (s : Chat.Chat)
    → Kept s (respond req now is_last r s)
unfolding respond
respond-Kept req now is_last r s =
    if_split (Kept s) (is_retryable_status r.status) _ _
      (λ again.
        give_up-Kept is_last r.status s _
          (bump_last_keeps is_last r.status (mark_current now r.status s)).0
          (bump_last_keeps is_last r.status (mark_current now r.status s)).1)
      (λ final.
        if_split (Kept s) (leb 400 r.status) _ _ (λ wrong. record { key = refl; sent = refl })
          (λ right. record {
            key =
                (deliver-Kept req now is_last r (succeeded req s)).key ∙ (succeeded_keeps req s).0;
            sent =
                (deliver-Kept req now is_last r (succeeded req s)).sent ∙ (succeeded_keeps req s).1;
          }))

-- The key in use is the client's, and so were all the keys sent.
pub record OfClient (req : Request) (s : Chat.Chat) : Type 0 where
  pub key : s.key ≡ req.client_key
  pub sent : Only req.client_key s.sent

both-Good :
    (req : Request) (is_last : Bool) (s : Chat.Chat) (v : Verdict Failure)
    → Good Fresh Answered Fresh is_last (s, v)
    → OfClient req s
    → Good (λ t. Fresh t × OfClient req t) (OfClient req) (OfClient req) is_last (s, v)
unfolding Good
both-Good req is_last s (failed e) g h = h
both-Good req is_last s done g h = h
both-Good req is_last s retry g h = ((g.0, h), g.1)

Kept-OfClient :
    (req : Request) (s : Chat.Chat) (r : Chat.Chat × Verdict Failure)
    → OfClient req s
    → Kept s r
    → OfClient req r.0
Kept-OfClient req s r h k = record {
  key = k.key ∙ h.key;
  sent = subst (Only req.client_key) (sym k.sent) h.sent;
}

module _ (req : Request) (now : ℕ → ℕ) (upstream : ℕ → Bytes → Option Response) where
  forward-OfClient :
      (attempt : ℕ) (is_last : Bool) (s : Chat.Chat)
      → OfClient req s
      → OfClient req (forward req now upstream attempt is_last s).0
  unfolding forward
  forward-OfClient attempt is_last s h =
      if_split (λ (r : Chat.Chat × Verdict Failure). OfClient req r.0) (not req.has_upstream) _ _
        (λ missing. record { key = h.key; sent = h.sent }) (λ there. go (upstream attempt s.key))
    where
      called : Chat.Chat
      called = record s { sent = s.sent ++ s.key ∷ [] }

      called-OfClient : OfClient req called
      called-OfClient = record {
        key = h.key;
        sent =
            subst (λ k. Only req.client_key (s.sent ++ k ∷ [])) (sym h.key)
              (one_more s.sent h.sent);
      }

      go :
          (o : Option Response)
          → OfClient req
              (elim o as (λ _. Chat.Chat × Verdict Failure) [
                | none ↦ give_up is_last 502 (mark_current (now attempt) 502 called)
                | some r ↦ respond req (now attempt) is_last r called
              ]).0
      go none =
          Kept-OfClient req called _ called-OfClient (give_up-Kept is_last 502 called _ refl refl)
      go (some r) =
          Kept-OfClient req called _ called-OfClient
            (respond-Kept req (now attempt) is_last r called)

  pub rotate_client :
      (attempt : ℕ) (s : Chat.Chat)
      → req.using_client_key ≡ true
      → rotate req (now attempt) attempt s ≡ (s, true)
  unfolding rotate
  rotate_client attempt s own = go s.pool
    where
      go :
          (o : Option KeyPool)
          → (elim o as (λ _. Chat.Chat × Bool) [
            | none ↦ (s, true)
            | some p ↦
                if ltb 1 attempt && (not req.using_client_key && ltb 1 (total p))
                then take_slot (now attempt) s (
                    acquire
                      (now attempt)
                      (negsuc 0)
                      (mark_unhealthy (now attempt) s.key_index s.last_status p))
                else (s, true)
          ])
            ≡ (s, true)
      go none = refl
      go (some p) = ground (arith, own)

  callback-OfClient :
      (attempt : ℕ) (is_last : Bool) (s : Chat.Chat)
      → req.using_client_key ≡ true
      → OfClient req s
      → OfClient req (callback req now upstream attempt is_last s).0
  unfolding callback
  callback-OfClient attempt is_last s own h =
      if_split (λ (r : Chat.Chat × Verdict Failure). OfClient req r.0) s.headers_committed _ _
        (λ committed. h)
        (λ open_response.
          if_split (λ (r : Chat.Chat × Verdict Failure). OfClient req r.0)
            (rotate req (now attempt) attempt s).1 _ _
            (λ key. forward-OfClient attempt is_last _ rotated) (λ no_key. rotated))
    where
      rotated : OfClient req (rotate req (now attempt) attempt s).0
      rotated =
          subst (λ (r : Chat.Chat × Bool). OfClient req r.0) (sym (rotate_client attempt s own)) h

conclude-sent : {A : Type 0} (r : Chat.Chat × A × Ending Failure) → (conclude r).sent ≡ r.0.sent
unfolding conclude
conclude-sent (s, slept, finished) = refl
conclude-sent (s, slept, aborted e) = ground arith

Ended-OfClient :
    {A : Type 0} (req : Request) (P : Chat.Chat → Type 0) (r : Chat.Chat × A × Ending Failure)
    → Ended P (OfClient req) (OfClient req) r
    → OfClient req r.0
unfolding Ended
Ended-OfClient req P (s, slept, finished) h = h
Ended-OfClient req P (s, slept, aborted e) h = h

-- A request with the client's own key sends no other key upstream, in any attempt, where nothing has
-- been sent before the loop.
pub forward_request-sent :
    (c : RetryConfig) (req : Request) (now : ℕ → ℕ) (upstream : ℕ → Bytes → Option Response)
    (s : Chat.Chat)
    → req.using_client_key ≡ true
    → Fresh s
    → OfClient req s
    → Only req.client_key (forward_request c req now upstream s).sent
unfolding forward_request
forward_request-sent c req now upstream s own f h =
    subst (Only req.client_key) (sym (conclude-sent (retry_loop c (callback req now upstream) s)))
      (Ended-OfClient req (λ t. Fresh t × OfClient req t) _
        (retry_loop-Ended (λ t. Fresh t × OfClient req t) (OfClient req) (OfClient req)
          (callback req now upstream)
          (λ attempt is_last t k.
            both-Good req is_last _ _ (callback-Good req now upstream attempt is_last t k.0)
              (callback-OfClient req now upstream attempt is_last t own k.1))
          c s (f, h))).sent
