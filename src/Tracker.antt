-- ===== src/Tracker.antt =====
-- `responseWriterTracker` of src/types.go: which of the handler and the middleware answers.
-- A call of the underlying writer is an entry of `wire`, where the newest comes first. `Write` and
-- `Flush` release the lock before they call the underlying writer, so each is two steps: the test
-- under the lock, and the call. What the middleware of src/proxy.go writes after a successful `Claim`
-- goes to the underlying writer itself and is not on this wire.
pub mod System
pub mod Exclusive
mod Tests
use umans_dash_go.Prelude.{ℕ, ◌≡◌, Bool, true, false, ◌||◌, if◌then◌else◌, List, [], ◌∷◌, Bytes}

pub data Call : Type 0 where
  header : ℕ → Call
  body : Bytes → Call
  flushed : Call

pub record Tracker : Type 0 where
  pub written : Bool
  pub hijacked : Bool
  pub aborted : Bool
  pub wire : List Call

abbrev pub new_tracker : Tracker
new_tracker = record { written = false; hijacked = false; aborted = false; wire = [] }

unfoldable pub is_committed : Tracker → Bool
is_committed t = t.written || t.hijacked || t.aborted

-- `rw.written = true` with the call of the underlying `WriteHeader`.
abbrev pub commit : ℕ → Tracker → Tracker
commit status t = record t { written = true; wire = header status ∷ t.wire }

unfoldable pub write_header : ℕ → Tracker → Tracker
write_header status t = if t.hijacked || t.written || t.aborted then t else commit status t

-- The first part of `Write`: whether it goes on to the underlying writer, or returns `ErrHijacked`.
unfoldable pub begin_write : Tracker → Tracker × Bool
begin_write t = if t.hijacked || t.aborted then (t, false) else (record t { written = true }, true)

abbrev pub end_write : Bytes → Tracker → Tracker
end_write b t = record t { wire = body b ∷ t.wire }

unfoldable pub begin_flush : Tracker → Bool
begin_flush t = if t.aborted || t.hijacked then false else true

abbrev pub end_flush : Tracker → Tracker
end_flush t = record t { wire = flushed ∷ t.wire }

abbrev pub hijack : Tracker → Tracker
hijack t = record t { hijacked = true }

abbrev pub abort : Tracker → Tracker
abort t = record t { aborted = true }

unfoldable pub claim : Tracker → Tracker × Bool
claim t =
    if t.written || t.hijacked || t.aborted
    then (t, false)
    else (record t { written = true; hijacked = true }, true)

-- `commitSSE`, whose status is `http.StatusOK`.
unfoldable pub commit_sse : Tracker → Tracker × Bool
commit_sse t = if t.written || t.hijacked || t.aborted then (t, false) else (commit 200 t, true)
