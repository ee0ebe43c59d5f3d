-- ===== src/ErrorLog.antt =====
-- What src/errors.go takes out of the requests that src/errors_log.go logs. `to_lower` is
-- `strings.ToLower`, and `decode` and `encode` are those of encoding/json.
pub mod Redacted
mod Tests
use umans_dash_go.Prelude.{
  ℕ, zero, suc, Bool, true, false, ◌&&◌, ◌||◌, ◌==◌, Option, none, some, List, [], ◌∷◌, ◌++◌, map,
  ltb, if◌then◌else◌, Bytes, codes, same, length, take,
}
use umans_dash_go.Json.{Json, Items, Fields, null, bool, num, str, arr, obj, nil, cons, end, field}
use umans_dash_go.Mask.{truncate_body}

-- `strings.HasPrefix` and `strings.Contains`, the text searched first.
unfoldable pub starts_with : Bytes → Bytes → Bool
starts_with text [] = true
starts_with [] (p ∷ ps) = false
starts_with (c ∷ cs) (p ∷ ps) = c == p && starts_with cs ps

unfoldable pub contains_text : Bytes → Bytes → Bool
contains_text [] part = starts_with [] part
contains_text (c ∷ cs) part = starts_with (c ∷ cs) part || contains_text cs part

abbrev pub redacted : Bytes
redacted = codes "[REDACTED]"

-- Of the header's name in lower case.
unfoldable pub is_sensitive : Bytes → Bool
is_sensitive lower =
    same lower (codes "authorization")
    || (same lower (codes "x-api-key")
        || (same lower (codes "cookie")
            || (same lower (codes "set-cookie")
                || (same lower (codes "api-key")
                    || (contains_text lower (codes "auth")
                        || (contains_text lower (codes "token")
                            || (contains_text lower (codes "key")
                                || (contains_text lower (codes "password")
                                    || contains_text lower (codes "secret")))))))))

-- Of a field's name in lower case.
unfoldable pub is_secret : Bytes → Bool
is_secret lower =
    same lower (codes "api_key")
    || (same lower (codes "apikey")
        || (contains_text lower (codes "token")
            || (contains_text lower (codes "password")
                || (contains_text lower (codes "secret")
                    || contains_text lower (codes "authorization")))))

-- The text of a long content; any other value is walked.
abbrev pub content_key : Bytes
content_key = codes "content"

module _ (to_lower : Bytes → Bytes) where
  abbrev pub redact_header : Bytes × List Bytes → Bytes × List Bytes
  redact_header (k, values) = if is_sensitive (to_lower k) then (k, redacted ∷ []) else (k, values)

  unfoldable pub redact_headers : List (Bytes × List Bytes) → List (Bytes × List Bytes)
  redact_headers headers = map redact_header headers

  -- The field of a content that is a text is cut behind 2000 bytes.
  unfoldable mutual
    pub redact_walk : Json → Json
    redact_walk (obj m) = obj (redact_fields m)
    redact_walk (arr vs) = arr (redact_items vs)
    redact_walk null = null
    redact_walk (bool b) = bool b
    redact_walk (num t) = num t
    redact_walk (str t) = str t

    pub redact_items : Items → Items
    redact_items nil = nil
    redact_items (cons v vs) = cons (redact_walk v) (redact_items vs)

    pub redact_content : Json → Json
    redact_content (str t) = str (truncate_body t 2000)
    redact_content (obj m) = obj (redact_fields m)
    redact_content (arr vs) = arr (redact_items vs)
    redact_content null = null
    redact_content (bool b) = bool b
    redact_content (num t) = num t

    pub redact_fields : Fields → Fields
    redact_fields end = end
    redact_fields (field k v m) =
        field k
          (if is_secret (to_lower k)
            then str redacted
            else if same k content_key
            then redact_content v
            else redact_walk v)
          (redact_fields m)

  -- A text that is no JSON is returned as it is.
  unfoldable pub redact_body_json : (Bytes → Option Json) → (Json → Option Bytes) → Bytes → Bytes
  redact_body_json decode encode [] = []
  redact_body_json decode encode (c ∷ cs) = elim (decode (c ∷ cs)) [
    | none ↦ c ∷ cs
    | some v ↦ elim (encode (redact_walk v)) [ none ↦ codes "[unserializable]" | some text ↦ text ]
  ]

  -- What `LogRetryableError` keeps of a request and of the answer.
  pub record Logged : Type 0 where
    pub headers : List (Bytes × List Bytes)
    pub body : Bytes

  unfoldable pub logged :
      (Bytes → Option Json) → (Json → Option Bytes) → List (Bytes × List Bytes) → Bytes → Logged
  logged decode encode headers body = record {
    headers = redact_headers headers;
    body = redact_body_json decode encode (truncate_body body 4096);
  }
