-- ===== src/Http.antt =====
-- The response writers of src/http.go. The response is the tracker of src/types.go with the two header
-- fields that the code sets or tests by itself; the underlying writer can flush. `encoding/json` is a
-- parameter: the text of a value or of the error, and what the text of an object decodes into.
pub mod Errors
pub mod Body
pub mod Pipe
pub mod Passed
pub mod Stable
pub mod Silent
mod Tests
use umans_dash_go.Prelude.{
  ℕ, Bool, true, false, ◌||◌, Option, none, some, List, [], ◌∷◌, ◌++◌, ◌==◌, if◌then◌else◌, Bytes,
  codes, same,
}
use umans_dash_go.Json.{Json, str, obj, Fields, end, field, put, obj_at, str_at}
use umans_dash_go.Tracker.{
  Tracker, is_committed, write_header, begin_write, end_write, begin_flush, end_flush, commit_sse,
}
use umans_dash_go.Sse.{format}
use umans_dash_go.Vision.Handoff.{dash}

pub record Writer : Type 0 where
  pub tracker : Tracker
  pub content_type : Bytes
  pub retry_after : Bytes

pub data Marshalled : Type 0 where
  marshalled marshal_error : Bytes → Marshalled

abbrev pub event_stream : Bytes
event_stream = codes "text/event-stream"

abbrev pub json_type : Bytes
json_type = codes "application/json"

abbrev finish_write : Bytes → Tracker × Bool → Tracker
finish_write b (t, true) = end_write b t
finish_write b (t, false) = t

-- `w.Write(b)` and `safeFlush(w)` without a step of another goroutine between their halves.
unfoldable pub write_bytes : Bytes → Writer → Writer
write_bytes b w = record w { tracker = finish_write b (begin_write w.tracker) }

unfoldable pub safe_flush : Writer → Writer
safe_flush w = record w {
  tracker = if begin_flush w.tracker then end_flush w.tracker else w.tracker;
}

abbrev pub set_content_type : Bytes → Writer → Writer
set_content_type b w = record w { content_type = b }

abbrev pub send_status : ℕ → Writer → Writer
send_status status w = record w { tracker = write_header status w.tracker }

abbrev pub is_streaming : Writer → Bool
is_streaming w = same w.content_type event_stream

abbrev pub data_prefix : Bytes
data_prefix = codes "data: "

abbrev pub blank_line : Bytes
blank_line = 10 ∷ 10 ∷ []

abbrev pub write_event : Bytes → Writer → Writer
write_event b w = safe_flush (write_bytes blank_line (write_bytes b (write_bytes data_prefix w)))

abbrev pub error_key : Bytes
error_key = codes "error"

abbrev pub message_key : Bytes
message_key = codes "message"

abbrev pub kind_key : Bytes
kind_key = codes "type"

abbrev pub code_key : Bytes
code_key = codes "code"

abbrev pub marshal_failed : Bytes → Bytes
marshal_failed e = codes "failed to marshal JSON: " ++ e

-- The event that tells of a failed encoding: its text is put between quotes as it is.
abbrev pub marshal_event : Bytes → Bytes
marshal_event e = format (record {
  event = error_key;
  id = [];
  retry = [];
  data_text = codes "{\"error\":\"" ++ marshal_failed e ++ codes "\"}";
})

-- `map[string]interface{}{"error": …}`.
abbrev pub under_error : Json → Json
under_error v = obj (field error_key v end)

-- `b, _ := json.Marshal(…)`.
abbrev pub text_of : Marshalled → Bytes
text_of (marshalled b) = b
text_of (marshal_error e) = []

-- The payload as one event.
unfoldable pub write_streamed : Marshalled → Writer → Writer
write_streamed (marshal_error e) w = safe_flush (write_bytes (marshal_event e) w)
write_streamed (marshalled b) w = write_event b w

module _ (marshal : Json → Marshalled) where
  unfoldable pub write_plain : ℕ → Marshalled → Writer → Writer
  write_plain status (marshal_error e) w =
      write_bytes (text_of (marshal (under_error (str (marshal_failed e)))))
        (send_status 500 (set_content_type json_type w))
  write_plain status (marshalled b) w =
      if is_committed w.tracker
      then w
      else write_bytes b (send_status status (set_content_type json_type w))

  unfoldable pub write_json : ℕ → Json → Writer → Writer
  write_json status payload w =
      if is_streaming w
      then write_streamed (marshal payload) w
      else write_plain status (marshal payload) w

abbrev pub after_commit : Writer → Tracker × Bool → Writer
after_commit w (t, true) = safe_flush (record w { tracker = t; content_type = event_stream })
after_commit w (t, false) = w

-- `writeSSEHeaders`.
unfoldable pub write_sse_headers : Writer → Writer
write_sse_headers w = if is_streaming w then w else after_commit w (commit_sse w.tracker)

abbrev pub keepalive : Bytes
keepalive =
    codes ": keepalive " ++ dash ++ codes " analyzing image via vision handoff" ++ blank_line

-- The writer with whether this call sent the headers.
unfoldable pub flush_vision_handoff_keepalive : Writer → Writer × Bool
flush_vision_handoff_keepalive w =
    if is_streaming w
    then (safe_flush (write_bytes keepalive w), false)
    else (safe_flush (write_bytes keepalive (write_sse_headers w)), true)
