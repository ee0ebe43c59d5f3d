-- ===== src/Http/Errors.antt =====
-- The error answers of src/http.go in the two formats, and what they take from an upstream error.
use umans_dash_go.Prelude.{
  ℕ, ◌||◌, Option, none, some, [], ◌++◌, ◌==◌, if◌then◌else◌, Bytes, codes, same,
}
use umans_dash_go.Json.{Json, str, obj, Fields, end, field, put, obj_at, str_at}
use umans_dash_go.Http.{
  Writer, Marshalled, error_key, message_key, kind_key, code_key, blank_line, data_prefix,
  under_error, text_of, write_bytes, safe_flush, write_json,
}

pub data ErrorFormat : Type 0 where
  openai anthropic : ErrorFormat

abbrev pub api_error : Bytes
api_error = codes "api_error"

abbrev pub upstream_error : Bytes
upstream_error = codes "upstream_error"

-- `typeMap[status]`, or "api_error".
unfoldable pub kind_for : ℕ → Bytes
kind_for status =
    if status == 400
    then codes "invalid_request_error"
    else if status == 401
    then codes "authentication_error"
    else if status == 403
    then codes "permission_error"
    else if status == 404
    then codes "not_found_error"
    else if status == 429
    then codes "rate_limit_error"
    else if status == 503
    then codes "overloaded_error"
    else api_error

abbrev pub kind_or : ℕ → Bytes → Bytes
kind_or status kind = if same kind [] then kind_for status else kind

abbrev pub anthropic_fields : Bytes → Bytes → Fields
anthropic_fields message kind = field kind_key (str kind) (field message_key (str message) end)

abbrev pub overloaded : Bytes
overloaded = codes "The server is overloaded. Please retry later."

abbrev pub queue_full_code : Bytes
queue_full_code = codes "queue_full"

abbrev pub done_line : Bytes
done_line = codes "data: [DONE]" ++ blank_line

-- The type of an upstream error that names none.
abbrev pub default_kind : ErrorFormat → Bytes
default_kind openai = upstream_error
default_kind anthropic = api_error

-- What an upstream error tells: the message, the type and the code, by default `body`, `kind` and none.
pub record Told : Type 0 where
  pub message : Bytes
  pub kind : Bytes
  pub code : Bytes

abbrev pub text_or : Bytes → Option Bytes → Bytes
text_or b none = b
text_or b (some t) = t

unfoldable pub told_by : Bytes → Bytes → Option Fields → Told
told_by body kind none = record { message = body; kind = kind; code = [] }
told_by body kind (some m) = elim (obj_at error_key m) [
  | none ↦ record { message = text_or body (str_at message_key m); kind = kind; code = [] }
  | some e ↦ record {
    message = text_or body (str_at message_key e);
    kind = text_or kind (str_at kind_key e);
    code = text_or [] (str_at code_key e);
  }
]

unfoldable pub error_fields : Bytes → Bytes → Bytes → Fields
error_fields message kind code =
    let named = field message_key (str message) (field kind_key (str kind) end) in
    if same code [] then named else put code_key (str code) named

-- The object of an error answer: only OpenAI's format has the code.
unfoldable pub error_object : ErrorFormat → ℕ → Bytes → Bytes → Bytes → Fields
error_object openai status message kind code =
    field error_key (obj (error_fields message kind code)) end
error_object anthropic status message kind code =
    field kind_key (str error_key)
      (field error_key (obj (anthropic_fields message (kind_or status kind))) end)

module _ (marshal : Json → Marshalled) where
  unfoldable pub write_error : ErrorFormat → ℕ → Bytes → Bytes → Bytes → Writer → Writer
  write_error format status message kind code =
      write_json marshal status (obj (error_object format status message kind code))

  unfoldable pub write_queue_full_error : ErrorFormat → Writer → Writer
  write_queue_full_error openai w =
      write_error openai 429 overloaded (codes "server_error") queue_full_code
        (record w { retry_after = codes "2" })
  write_queue_full_error anthropic w =
      write_error anthropic 429 overloaded (codes "overloaded_error") []
        (record w { retry_after = codes "2" })

  -- `trim` is `strings.TrimSpace`, and `unmarshal` decodes an object.
  unfoldable pub write_passthrough_error :
      (Bytes → Bytes) → (Bytes → Option Fields) → ErrorFormat → ℕ → Bytes → Writer → Writer
  write_passthrough_error trim unmarshal format status body w =
      let told = told_by (trim body) (default_kind format) (unmarshal (trim body)) in
      write_error format status told.message told.kind told.code w

  -- An error on a stream whose headers are out, where the tracker is not taken over.
  unfoldable pub write_sse_error_event : Bytes → Bytes → Writer → Writer
  write_sse_error_event kind message w =
      if w.tracker.hijacked || w.tracker.aborted
      then w
      else safe_flush (
          write_bytes done_line (
            write_bytes blank_line (
              write_bytes (text_of (marshal (under_error (obj (anthropic_fields message kind)))))
                (write_bytes data_prefix w))))
