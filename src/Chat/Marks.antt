-- ===== src/Chat/Marks.antt =====
-- What an attempt with the client's own key does to the pool, in src/proxy_openai.go.
use umans_dash_go.Prelude.{
  ℕ, ◌≡◌, refl, Bool, true, false, not, Option, none, some, [], ◌∷◌, ◌++◌, arith, Bytes, if_split,
}
use umans_dash_go.KeyPool.{KeyPool, mark_unhealthy}
use umans_dash_go.Retry.{Verdict}
use umans_dash_go.Chat
use umans_dash_go.Chat.{
  Request, Response, Failure, mark_pool, rotate, take_slot, give_up, answer, error, mark_current,
  bump, bump_last, send_headers, stream_body, json_reply, succeeded, respond, deliver, forward,
  callback, conclude, forward_request,
}
use umans_dash_go.Chat.Keys.{rotate_client}

give_up-pool :
    (is_last : Bool) (status : ℕ) (s : Chat.Chat)
    → (give_up {E = Failure} is_last status s).0.pool ≡ s.pool
give_up-pool true status s = refl
give_up-pool false status s = refl

forward-pool :
    (req : Request) (now : ℕ → ℕ) (upstream : ℕ → Bytes → Option Response) (attempt : ℕ)
    (is_last : Bool) (s : Chat.Chat)
    → req.has_upstream ≡ true
    → upstream attempt s.key ≡ none
    → (forward req now upstream attempt is_last s).0.pool
      ≡ mark_pool (now attempt) s.key_index 502 s.pool
unfolding forward
forward-pool req now upstream attempt is_last s there down =
    if_split
      (λ (r : Chat.Chat × Verdict Failure).
        r.0.pool ≡ mark_pool (now attempt) s.key_index 502 s.pool)
      (not req.has_upstream) _ _ (λ missing. absurd (ground (arith, there)))
      (λ present. go (upstream attempt s.key) down)
  where
    called : Chat.Chat
    called = record s { sent = s.sent ++ s.key ∷ [] }

    go :
        (o : Option Response)
        → o ≡ none
        → (elim o as (λ _. Chat.Chat × Verdict Failure) [
          | none ↦ give_up is_last 502 (mark_current (now attempt) 502 called)
          | some r ↦ respond req (now attempt) is_last r called
        ]).0.pool
          ≡ mark_pool (now attempt) s.key_index 502 s.pool
    go none e = give_up-pool is_last 502 (mark_current (now attempt) 502 called)
    go (some r) e = cc e

callback_client :
    (req : Request) (now : ℕ → ℕ) (upstream : ℕ → Bytes → Option Response) (attempt : ℕ)
    (is_last : Bool) (s : Chat.Chat)
    → req.using_client_key ≡ true
    → s.headers_committed ≡ false
    → callback req now upstream attempt is_last s ≡ forward req now upstream attempt is_last s
unfolding callback
callback_client req now upstream attempt is_last s own fresh =
    ground (arith, rotate_client req now upstream attempt s own)

-- Where a request with the client's own key meets a network error, and nothing is committed, a
-- key of the pool is marked with status 502: the one at the current index, which is 0 where no
-- slot was taken.
pub callback_client_failure :
    (req : Request) (now : ℕ → ℕ) (upstream : ℕ → Bytes → Option Response) (attempt : ℕ)
    (is_last : Bool) (s : Chat.Chat) (p : KeyPool)
    → req.using_client_key ≡ true
    → req.has_upstream ≡ true
    → s.headers_committed ≡ false
    → s.pool ≡ some p
    → upstream attempt s.key ≡ none
    → (callback req now upstream attempt is_last s).0.pool
      ≡ some (mark_unhealthy (now attempt) s.key_index 502 p)
unfolding mark_pool
callback_client_failure req now upstream attempt is_last s p own there fresh pooled down = cc (
  callback_client req now upstream attempt is_last s own fresh,
  forward-pool req now upstream attempt is_last s there down,
  pooled,
)
