-- ===== src/Anthropic/Tests.antt =====
-- Runs of src/proxy_anthropic.go without a pool.
use umans_dash_go.Prelude.{◌≡◌, refl, true, false, none, some, [], ◌∷◌, pos, negsuc, codes, same}
use umans_dash_go.Retry.{RetryConfig, retry_loop, get_retry_attempts, is_retryable_status}
use umans_dash_go.Chat.{Request, rotate, mark_pool, succeeded}
use umans_dash_go.Anthropic.{
  Reply, passed, piped, Exchange, proxy_messages, finish, write_last_error, call_messages, send,
  reject, pipe, tell, error_event,
}
use umans_dash_go.Anthropic.Exhausted.{Waiting, proxy_messages_exhausted}
use umans_dash_go.Anthropic.Stale.{late_reply, proxy_messages_late}

abbrev config : RetryConfig
config = record { retry_attempts = pos 2; backoff_strategy = codes "conservative" }

abbrev client_request : Request
client_request = record {
  using_client_key = true;
  client_key = codes "mine";
  keeps_client_key = true;
  is_stream = true;
  has_upstream = true;
}

abbrev start : Exchange
start = record {
  chat = record {
    pool = none;
    key_index = negsuc 0;
    key = codes "mine";
    last_status = 0;
    headers_committed = false;
    streaming = false;
    last_client_key = [];
    throttled = 0;
    answers = [];
    sent = [];
  };
  last_err_body = [];
  content_type = [];
  written = false;
  taken_over = false;
  writes = [];
}

abbrev success : Reply
success = record {
  status = 200;
  content_type = codes "text/event-stream";
  event_stream = true;
  body = [];
  body_fails = false;
}

abbrev overloaded : Reply
overloaded = record {
  status = 503;
  content_type = [];
  event_stream = false;
  body = [];
  body_fails = false;
}

abbrev not_found : Reply
not_found = record overloaded { status = 404 }

-- An error that is not retryable is passed on at once; a success is piped, and the client's key kept.
exchanges :
    ((proxy_messages config client_request (λ a. a) 9 (λ a k. some not_found) start).writes
      ≡ passed 404 ∷ [])
    × ((proxy_messages config client_request (λ a. a) 9 (λ a k. some success) start).writes
        ≡ piped 200 ∷ [])
    × ((proxy_messages config client_request
          (λ a. a)
          9
          (λ a k. some success)
          start).chat.last_client_key
        ≡ codes "mine")
unfolding proxy_messages finish write_last_error retry_loop call_messages send reject pipe tell
    rotate mark_pool succeeded is_retryable_status same
exchanges = (refl, refl, refl)

start-Waiting : Waiting start
start-Waiting = record { no_pool = refl; uncommitted = refl; unwritten = refl }

proxy_messages_exhausted_example :
    (proxy_messages config client_request (λ a. a) 9 (λ a k. some overloaded) start).writes ≡ []
unfolding is_retryable_status same
proxy_messages_exhausted_example =
    proxy_messages_exhausted client_request (λ a. a) overloaded refl config 9 start start-Waiting

proxy_messages_late_example :
    (proxy_messages config client_request (λ a. a) 9 (late_reply success) start).writes
    ≡ piped 200 ∷ error_event ∷ []
unfolding get_retry_attempts same
proxy_messages_late_example =
    proxy_messages_late client_request (λ a. a) success config 0 9 start refl refl refl refl refl
      start-Waiting
