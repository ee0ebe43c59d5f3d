-- ===== src/ErrorLog/Tests.antt =====
-- Runs of the redaction.
use umans_dash_go.Prelude.{◌≡◌, refl, List, [], ◌∷◌, Bytes, codes, same, All}
use umans_dash_go.Json.{Json, str, obj, end, field}
use umans_dash_go.ErrorLog.{
  redact_walk, redact_headers, redacted, is_secret, contains_text, starts_with,
}
use umans_dash_go.ErrorLog.Redacted.{Clean, Masked, redact_walk-Clean}

abbrev as_it_is : Bytes → Bytes
as_it_is b = b

abbrev request : Json
request = obj (field (codes "user") (obj (field (codes "api_key") (str (codes "k")) end)) end)

abbrev headers : List (Bytes × List Bytes)
headers = (codes "x-api-key", codes "k" ∷ []) ∷ []

nested_key :
    redact_walk as_it_is request
    ≡ obj (field (codes "user") (obj (field (codes "api_key") (str redacted) end)) end)
unfolding redact_walk is_secret contains_text starts_with same
nested_key = refl

redact_walk-Clean_example :
    Clean as_it_is (redact_walk as_it_is request)
    × (redact_walk as_it_is (redact_walk as_it_is request) ≡ redact_walk as_it_is request)
    × All (Masked as_it_is) (redact_headers as_it_is headers)
redact_walk-Clean_example = redact_walk-Clean as_it_is request headers
