-- ===== src/Http/Passed.antt =====
-- Upstream errors that src/http.go passes on: an error in either format keeps what it says.
use umans_dash_go.Prelude.{
  arith, ℕ, ◌≡◌, refl, ◌∙◌, ap, Bool-cases, Option, some, [], Bytes, same, eq_of_same, inl, inr,
}
use umans_dash_go.Json.{Json, Fields, put, member}
use umans_dash_go.Http.{Marshalled, Writer}
use umans_dash_go.Http.Errors.{
  ErrorFormat, openai, anthropic, told_by, error_fields, error_object, kind_or, write_error,
  write_passthrough_error, default_kind,
}

-- The type and the code of an error object: Anthropic's always has a type, and no code.
abbrev pub kind_in : ErrorFormat → ℕ → Bytes → Bytes
kind_in openai status kind = kind
kind_in anthropic status kind = kind_or status kind

abbrev pub code_in : ErrorFormat → Bytes → Bytes
code_in openai code = code
code_in anthropic code = []

told_by-error_object :
    (format : ErrorFormat) (status : ℕ) (message kind code body fallback : Bytes)
    → told_by body fallback (some (error_object format status message kind code))
      ≡ record { message = message; kind = kind_in format status kind; code = code_in format code }
unfolding told_by error_object error_fields member put same
told_by-error_object anthropic status message kind code body fallback = refl
told_by-error_object openai status message kind code body fallback =
    elim (Bool-cases (same code [])) [
      | inl e ↦ ground (arith, e, eq_of_same code [] e)
      | inr e ↦ ground (arith, e)
    ]

-- A body that decodes to an error object in either format is passed on in either format as an error
-- with its message, its type and its code, which is empty where the body is Anthropic's.
pub write_passthrough_error-error_object :
    (marshal : Json → Marshalled) (trim : Bytes → Bytes) (unmarshal : Bytes → Option Fields)
    (from into : ErrorFormat) (status earlier : ℕ) (message kind code body : Bytes) (w : Writer)
    → unmarshal (trim body) ≡ some (error_object from earlier message kind code)
    → write_passthrough_error marshal trim unmarshal into status body w
      ≡ write_error marshal into status message (kind_in from earlier kind) (code_in from code) w
unfolding write_passthrough_error
write_passthrough_error-error_object marshal trim unmarshal from into status earlier message kind
      code body w decoded =
    ap
      (λ o.
        let told = told_by (trim body) (default_kind into) o in
        write_error marshal into status told.message told.kind told.code w)
      decoded
    ∙ ap (λ told. write_error marshal into status told.message told.kind told.code w)
        (told_by-error_object from earlier message kind code (trim body) (default_kind into))
