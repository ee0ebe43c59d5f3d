-- ===== src/Vision.antt =====
-- The vision handoff: `analyzeImageViaHandoff`, `extractContent` and `cacheHandoffDescription` of
-- src/normalize.go and `PerformVisionHandoff` of src/vision.go. The upstream, the hash, the JSON codec,
-- `strings.TrimSpace` and the printing of errors and numbers are parameters. The images of a request are
-- described one after the other, which is one of the schedules of the goroutines; the semaphore that bounds
-- how many run is not modelled, and the configuration does not change on the way.
pub mod Handoff
pub mod Described
pub mod Replaced
mod Tests
use umans_dash_go.Prelude.{
  ℕ, zero, suc, ◌+◌, Bool, true, false, not, ◌&&◌, Option, none, some, List, [], ◌∷◌, ◌++◌, ltb,
  leb_ℤ, ltb_ℤ, ℤ, pos, pos_part, ◌==◌, if◌then◌else◌, Bytes, codes, same, length, take, get_elem?,
}
use umans_dash_go.Json.{
  Json, Items, Fields, null, bool, num, str, arr, obj, nil, cons, end, field, member, as_obj,
  as_arr, as_str, obj_at, arr_at, str_at, text_at,
}
use umans_dash_go.HandoffCache.{HandoffCache, get, set}
use umans_dash_go.Schema.{after_prefix}
use umans_dash_go.Images.{collect_image_parts, image_uri, write_payload}
use umans_dash_go.Payload.{part_text}

-- `extractContent`: what it appends.
unfoldable pub parts_text : Items → Bytes
parts_text nil = []
parts_text (cons part parts) =
    (elim (part_text part) [ none ↦ [] | some text ↦ text ]) ++ parts_text parts

unfoldable pub extract_content : Option Json → Bytes
extract_content content = elim content [
  | none ↦ []
  | some v ↦ elim (as_str v) [
    | some s ↦ s
    | none ↦ elim (as_arr v) [ none ↦ [] | some parts ↦ parts_text parts ]
  ]
]

-- The text of one chunk of the stream.
unfoldable pub choice_text : Fields → Bytes
choice_text choice = elim (obj_at (codes "delta") choice) [
  | some delta ↦ extract_content (member (codes "content") delta)
  | none ↦ elim (obj_at (codes "message") choice) [
    | none ↦ []
    | some message ↦ extract_content (member (codes "content") message)
  ]
]

abbrev pub first_choice : Items → Option Fields
first_choice nil = none
first_choice (cons v xs) = as_obj v

unfoldable pub chunk_text : Fields → Bytes
chunk_text chunk = elim (arr_at (codes "choices") chunk) [
  | none ↦ []
  | some choices ↦ elim (first_choice choices) [ none ↦ [] | some choice ↦ choice_text choice ]
]

-- What `ChatCompletions` returns: an error with its text, or an answer with the body's text, the lines
-- that the scanner reads from it and the error that ends them, `io.EOF` being none.
pub data Reply : Type 0 where
  request_error : Bytes → Reply
  answered : ℕ → Bytes → List Bytes → Option Bytes → Reply

abbrev pub failure : Bytes → Bytes
failure reason = codes "[Image analysis failed: " ++ reason ++ codes "]"

-- `decode` is `json.Unmarshal` into a map, which leaves an empty one for a JSON null.
module _ (trim : Bytes → Bytes) (decode : Bytes → Option Fields) where
  abbrev pub data_text : Bytes → Bytes
  data_text data_line = elim (decode data_line) [ none ↦ [] | some chunk ↦ chunk_text chunk ]

  -- The loop over the lines, with whether it came to the end of them.
  unfoldable pub read_stream : List Bytes → Bytes × Bool
  read_stream [] = ([], true)
  read_stream (line ∷ lines) =
      let rest = read_stream lines in
      elim (after_prefix (codes "data: ") (trim line)) [
        | none ↦ rest
        | some data_line ↦
            if same data_line (codes "[DONE]")
            then ([], false)
            else (data_text data_line ++ rest.0, rest.1)
      ]

-- What is done with the upstream's reply: a description, or the text of a failure.
pub data Outcome : Type 0 where
  described : Bytes → Outcome
  failed : Bytes → Outcome

abbrev pub unless_blank : Bytes → Outcome
unless_blank [] = failed (failure (codes "empty content from stream"))
unless_blank (c ∷ cs) = described (c ∷ cs)

module _ (trim : Bytes → Bytes) (decode : Bytes → Option Fields) (itoa : ℕ → Bytes) where
  unfoldable pub description_of : List Bytes → Option Bytes → Outcome
  description_of lines read_error =
      let read = read_stream trim decode lines in
      if read.1
      then (elim read_error [
        | some reason ↦ failed (failure (codes "error reading SSE stream: " ++ reason))
        | none ↦ unless_blank read.0
      ])
      else unless_blank read.0

  unfoldable pub outcome_of : Reply → Outcome
  outcome_of (request_error reason) = failed (failure (codes "upstream request error: " ++ reason))
  outcome_of (answered status body lines read_error) =
      if status == 200
      then description_of lines read_error
      else failed (failure (codes "upstream returned status " ++ itoa status ++ codes ": " ++ body))
