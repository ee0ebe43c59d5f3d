-- ===== src/Chat/Tests.antt =====
-- Runs of src/proxy_openai.go: upstream fails once and then answers.
use umans_dash_go.Prelude.{
  ℕ, ◌≡◌, refl, true, false, Option, none, some, [], ◌∷◌, pos, Bytes, codes, same, ◌==◌,
  if◌then◌else◌,
}
use umans_dash_go.KeyPool.{
  KeyConfig, KeyPool, new_key_pool, new_entry, mark_unhealthy, acquire, is_available, mark_healthy,
}
use umans_dash_go.Retry.{RetryConfig, retry_loop, is_retryable_status}
use umans_dash_go.Chat
use umans_dash_go.Chat.{
  Request, Response, Answer, passed, chunk, stream_headers, json_body, forward_request, callback,
  forward, respond, deliver, rotate, conclude, json_reply, stream_body, succeeded, mark_pool,
  heal_pool,
}
use umans_dash_go.Chat.Answers.{begins, Fresh, forward_request_answers}
use umans_dash_go.Chat.Keys.{Only, no_call, forward_request-sent}

abbrev key_of : Bytes → KeyConfig
key_of k = record { name = k; key = k; session = [] }

abbrev two_keys : KeyPool
unfolding new_key_pool new_entry
two_keys = new_key_pool (key_of (codes "a") ∷ key_of (codes "b") ∷ [])

abbrev config : RetryConfig
config = record { retry_attempts = pos 3; backoff_strategy = codes "aggressive" }

abbrev own_key : Request
own_key = record {
  using_client_key = true;
  client_key = codes "mine";
  keeps_client_key = true;
  is_stream = false;
  has_upstream = true;
}

abbrev pool_request : Request
pool_request = record own_key { using_client_key = false; client_key = [] }

abbrev start_with : Bytes → Chat.Chat
start_with k = record {
  pool = some two_keys;
  key_index = pos 0;
  key = k;
  last_status = 0;
  headers_committed = false;
  streaming = false;
  last_client_key = [];
  throttled = 0;
  answers = [];
  sent = [];
}

abbrev ok_json : Response
ok_json = record {
  status = 200;
  event_stream = false;
  peeked = 0;
  peek_fails = false;
  body_fails = false;
}

abbrev second_works : ℕ → Bytes → Option Response
second_works n k = if n == 2 then some ok_json else none

abbrev always_fails : ℕ → Bytes → Option Response
always_fails n k = some (record ok_json { status = 503 })

program : Unit {0}
unfolding forward_request retry_loop callback forward respond deliver rotate conclude json_reply
    stream_body succeeded mark_pool heal_pool new_key_pool new_entry mark_unhealthy mark_healthy
    acquire is_available is_retryable_status same
program = tt

-- The second attempt goes out with the second key and is answered; where every attempt gets status 503,
-- the last one is passed on and counted as throttled.
chats :
    ((forward_request config pool_request (λ a. a) second_works (start_with (codes "a"))).sent
      ≡ codes "a" ∷ codes "b" ∷ [])
    × ((forward_request config pool_request (λ a. a) second_works (start_with (codes "a"))).answers
        ≡ json_body ∷ [])
    × ((forward_request config own_key (λ a. a) always_fails (start_with (codes "mine"))).answers
        ≡ passed 503 ∷ [])
    × ((forward_request config own_key (λ a. a) always_fails (start_with (codes "mine"))).throttled
        ≡ 1)
unfolding program
chats = (refl, refl, refl, refl)

start-Fresh : (k : Bytes) → Fresh (start_with k)
unfolding begins
start-Fresh k = record { unanswered = refl; plain = refl; uncommitted = refl }

forward_request_answers_example :
    begins
      (forward_request config pool_request (λ a. a) second_works (start_with (codes "a"))).answers
    ≡ 1
forward_request_answers_example =
    forward_request_answers config pool_request (λ a. a) second_works (start_with (codes "a"))
      (start-Fresh (codes "a"))

forward_request-sent_example :
    Only
      (codes "mine")
      (forward_request config own_key (λ a. a) always_fails (start_with (codes "mine"))).sent
forward_request-sent_example =
    forward_request-sent config own_key (λ a. a) always_fails (start_with (codes "mine")) refl
      (start-Fresh (codes "mine")) (record { key = refl; sent = no_call })
