-- ===== src/Http/Tests.antt =====
-- Runs of the response writers.
use umans_dash_go.Prelude.{
  ℕ, ◌≡◌, refl, true, false, Option, none, some, List, [], ◌∷◌, ◌++◌, Bytes, codes, same, ◌≤◌,
  length, take,
}
use umans_dash_go.Json.{Json, obj, Fields, end}
use umans_dash_go.Tracker.{
  new_tracker, begin_write, begin_flush, is_committed, write_header, header, body,
}
use umans_dash_go.Http.{
  Writer, Marshalled, marshalled, write_json, write_bytes, safe_flush, write_plain,
}
use umans_dash_go.Http.Errors.{
  openai, anthropic, error_object, kind_for, write_queue_full_error, write_error,
  write_passthrough_error,
}
use umans_dash_go.Http.Body.{Incoming}
use umans_dash_go.Http.Passed.{write_passthrough_error-error_object}
use umans_dash_go.Http.Pipe.{
  Read, Ended, pipe_loop, at_eof, whole, write_failed, pipe_body_to_response,
}
use umans_dash_go.Http.Pipe.Sent.{stream, wire_of}
use umans_dash_go.Http.Pipe.Counted.{pipe_body_to_response_lem}
use umans_dash_go.Http.Stable.{Send, call, json, sse_headers, keepalive, queue_full, send_all}
use umans_dash_go.Http.Silent.{ordered, take_over, send_all-take_over}

abbrev fresh_writer : Writer
fresh_writer = record { tracker = new_tracker; content_type = []; retry_after = [] }

-- An encoder that writes the same text for each value.
abbrev to_text : Json → Marshalled
to_text v = marshalled (codes "{}")

abbrev as_it_is : Bytes → Bytes
as_it_is b = b

-- A decoder that reads the same error in each text.
abbrev busy : Bytes → Option Fields
busy b = some (error_object anthropic 503 (codes "busy") [] [])

write_passthrough_error-error_object_example :
    write_passthrough_error to_text as_it_is busy openai 503 (codes "{}") fresh_writer
    ≡ write_error to_text openai 503 (codes "busy") (codes "overloaded_error") [] fresh_writer
unfolding same kind_for
write_passthrough_error-error_object_example =
    write_passthrough_error-error_object to_text as_it_is busy anthropic openai 503 503
      (codes "busy") [] [] (codes "{}") fresh_writer refl

abbrev hello : Incoming
hello = record { sent = codes "hello"; breaks = false }

abbrev chunk : Bytes → Option Ended → Read
chunk b e = record { client_gone = false; bytes = b; ended = e; taken_over = false; refused = none }

abbrev two_chunks : List Read
two_chunks = chunk (codes "ab") none ∷ chunk (codes "c") (some at_eof) ∷ []

whole_pipe : (pipe_body_to_response (some two_chunks) fresh_writer).2 ≡ whole
unfolding pipe_body_to_response pipe_loop begin_write safe_flush begin_flush
whole_pipe = refl

-- Of the second chunk only a byte is sent.
abbrev cut_chunks : List Read
cut_chunks =
    chunk (codes "ab") none ∷ record (chunk (codes "cd") (some at_eof)) { refused = some 1 } ∷ []

cut_pipe :
    let (after, n, e) = pipe_body_to_response (some cut_chunks) fresh_writer in
    (wire_of after ≡ codes "abc") × (n ≡ 2) × (e ≡ write_failed)
unfolding pipe_body_to_response pipe_loop begin_write safe_flush begin_flush
cut_pipe = (refl, refl, refl)

pipe_body_to_response_lem_example :
    let (after, n, e) = pipe_body_to_response (some cut_chunks) fresh_writer in
    (m : ℕ) × (n ≤ m)
    × (m ≤ length (stream cut_chunks))
    × (wire_of after ≡ wire_of fresh_writer ++ take m (stream cut_chunks))
    × (¬ (e ≡ write_failed) → n ≡ m)
    × (e ≡ whole → m ≡ length (stream cut_chunks))
pipe_body_to_response_lem_example = pipe_body_to_response_lem cut_chunks fresh_writer

abbrev calls : List Send
calls = sse_headers ∷ keepalive ∷ json 200 (obj end) ∷ []

calls_sent :
    (send_all to_text as_it_is busy
      (json 200 (obj end) ∷ queue_full openai ∷ [])
      fresh_writer).tracker.wire
    ≡ body (codes "{}") ∷ header 200 ∷ []
unfolding send_all call write_json write_bytes begin_write write_header write_queue_full_error
    write_error write_plain is_committed same
calls_sent = refl

send_all-take_over_example :
    let sent = send_all to_text as_it_is busy calls fresh_writer in
    (ordered sent.tracker.wire ≡ true)
    × ((send_all to_text as_it_is busy calls (take_over true sent)).tracker.wire
        ≡ sent.tracker.wire)
send_all-take_over_example =
    send_all-take_over to_text as_it_is busy calls calls true fresh_writer refl
