-- ===== src/Http/Body.antt =====
-- Bodies read up to `MaxBodySize` by src/http.go. A body is its bytes with whether reading them ends in an error.
use umans_dash_go.Prelude.{
  ℕ, suc, ◌*◌, ◌≤◌, ◌≡◌, refl, Bool, Option, none, some, List, ltb, ◌&&◌, if◌then◌else◌, Bytes,
  take, length, arith, length-take, zero, [], ◌∷◌, ap,
}

pub record Incoming : Type 0 where
  pub sent : Bytes
  pub breaks : Bool

pub data Content : Type 0 where
  content : Bytes → Content
  broken too_large : Content

abbrev pub max_body_size : ℕ
max_body_size = 5 * 1024 * 1024

-- `io.ReadAll(io.LimitReader(body, limit))`: an error behind the limit is never met.
unfoldable pub read_limited : ℕ → Incoming → Option Bytes
read_limited limit body =
    if body.breaks && ltb (length body.sent) limit then none else some (take limit body.sent)

unfoldable pub within : ℕ → Option Bytes → Content
within size none = broken
within size (some data_read) = if ltb size (length data_read) then too_large else content data_read

-- `ReadBody`.
unfoldable pub read_body : Incoming → Content
read_body body = within max_body_size (read_limited (suc max_body_size) body)

-- `readBodyText`, where no body is an empty text.
unfoldable pub read_body_text : Option Incoming → Content
read_body_text none = content []
read_body_text (some body) = within max_body_size (read_limited (suc max_body_size) body)

take_all : {A : Type 0} (n : ℕ) (xs : List A) → length xs ≤ n → take n xs ≡ xs
take_all zero [] h = refl
take_all zero (x ∷ xs) h = absurd (omega arith)
take_all (suc n) [] h = refl
take_all (suc n) (x ∷ xs) h = ap (x ∷◌) (take_all n xs (omega arith))

-- The answer for a body against a limit: what it says, the error of a body that breaks within the
-- limit, and the refusal of one that is longer, whether it breaks or not.
abbrev pub expected : ℕ → Incoming → Content
expected size body =
    if ltb size (length body.sent)
    then too_large
    else if body.breaks
    then broken
    else content body.sent

within-read_limited :
    (size : ℕ) (body : Incoming) → within size (read_limited (suc size) body) ≡ expected size body
unfolding within read_limited
within-read_limited size body =
    ground (arith, length-take (suc size) body.sent, take_all (suc size) body.sent)

-- A request body and an upstream body are both read as far as the limit: a longer one is refused, whether
-- it breaks or not, a shorter one that breaks is an error, and any other one is returned whole.
pub read_body_lem :
    (body : Incoming)
    → (read_body body ≡ expected max_body_size body)
      × (read_body_text (some body) ≡ expected max_body_size body)
unfolding read_body read_body_text
read_body_lem body =
    (within-read_limited max_body_size body, within-read_limited max_body_size body)
