-- ===== src/Http/Pipe.antt =====
-- `pipeBodyToResponse` of src/http.go: what reaches the client of an upstream body. A read comes with
-- whether the client is gone before it, whether the writer is taken over before its bytes are written, and
-- whether the underlying writer fails and how many of them it has sent then; a list that ends first is a body that is still read.
pub mod Sent
pub mod Counted
use umans_dash_go.Prelude.{
  ℕ, suc, ◌+◌, ◌≤◌, ◌≡◌, refl, Bool, true, false, not, ◌&&◌, Option, none, some, List, [], ◌∷◌,
  ◌++◌, ltb, if◌then◌else◌, Bytes, take, length, arith, length-append, ap, sym, subst, ◌∙◌,
  if_split,
}
use mathlib.Core.List.{append_assoc, append-nil}
use umans_dash_go.Tracker
use umans_dash_go.Tracker.{
  Tracker, Call, body, flushed, begin_write, end_write, begin_flush, end_flush, hijack,
}
use umans_dash_go.Http.{Writer, safe_flush}

pub data Ended : Type 0 where
  at_eof at_error : Ended

pub data PipeEnd : Type 0 where
  no_body whole disconnected write_failed read_failed still_reading : PipeEnd

pub record Read : Type 0 where
  pub client_gone : Bool
  pub bytes : Bytes
  pub ended : Option Ended
  pub taken_over : Bool
  pub refused : Option ℕ

-- Another goroutine takes the writer over.
abbrev pub overtake : Bool → Writer → Writer
overtake true w = record w { tracker = hijack w.tracker }
overtake false w = w

-- `w.Write(b)` with whether it fails. An underlying writer that fails may have sent the first bytes.
abbrev pub try_write : Option ℕ → Bytes → Writer → Writer × Bool
try_write refused b w =
    let (t, goes_on) = begin_write w.tracker in
    if goes_on
    then (elim refused [
      | none ↦ (record w { tracker = end_write b t }, false)
      | some k ↦ (record w { tracker = end_write (take k b) t }, true)
    ])
    else (record w { tracker = t }, true)

abbrev pub end_of : Ended → PipeEnd
end_of at_eof = whole
end_of at_error = read_failed

abbrev pub then_flush : Writer × Bool → Writer × Bool
then_flush (sent, true) = (sent, true)
then_flush (sent, false) = (safe_flush sent, false)

-- The bytes of one read: nothing is written of an empty one.
abbrev pub write_chunk : Read → Writer → Writer × Bool
write_chunk r w =
    if ltb 0 (length r.bytes)
    then then_flush (try_write r.refused r.bytes (overtake r.taken_over w))
    else (w, false)

-- The loop, with the bytes written so far.
unfoldable pub pipe_loop : List Read → ℕ → Writer → Writer × ℕ × PipeEnd
pipe_loop [] total w = (w, total, still_reading)
pipe_loop (r ∷ reads) total w =
    let (sent, fails) = write_chunk r w in
    let rest = pipe_loop reads (total + length r.bytes) sent in
    if r.client_gone
    then (w, total, disconnected)
    else if fails
    then (sent, total, write_failed)
    else elim r.ended [ some e ↦ (sent, total + length r.bytes, end_of e) | none ↦ rest ]

-- `none` is a nil body.
unfoldable pub pipe_body_to_response : Option (List Read) → Writer → Writer × ℕ × PipeEnd
pipe_body_to_response none w = (w, 0, no_body)
pipe_body_to_response (some reads) w = pipe_loop reads 0 w
