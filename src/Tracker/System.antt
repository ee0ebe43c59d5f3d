-- ===== src/Tracker/System.antt =====
-- Handler goroutines and the middleware over one tracker of src/types.go, under interleaving: each step
-- is one hold of `rw.mu`, or one call of the underlying writer after it.
use umans_dash_go.Prelude.{ℕ, suc, ◌+◌, ◌≡◌, Bool, true, false, List, [], ◌∷◌, ◌++◌, Bytes}
use umans_dash_go.Tracker.{
  Tracker, new_tracker, write_header, begin_write, end_write, begin_flush, end_flush, hijack, abort,
  claim, commit_sse,
}

-- `writing` are the bodies past the test of `Write`, `flushing` the calls past that of `Flush`, and
-- `claims` the calls of `Claim` that returned true.
pub record System : Type 0 where
  pub tracker : Tracker
  pub writing : List Bytes
  pub flushing : ℕ
  pub claims : ℕ

abbrev pub start : System
start = record { tracker = new_tracker; writing = []; flushing = 0; claims = 0 }

abbrev pub write_started : Bytes → System → Tracker × Bool → System
write_started b s (t, true) = record s { tracker = t; writing = b ∷ s.writing }
write_started b s (t, false) = record s { tracker = t }

abbrev pub claim_made : System → Tracker × Bool → System
claim_made s (t, true) = record s { tracker = t; claims = s.claims + 1 }
claim_made s (t, false) = record s { tracker = t }

pub data Step (s : System) : System → Type 0 where
  header : (status : ℕ) → Step s (record s { tracker = write_header status s.tracker })
  write : (b : Bytes) → Step s (write_started b s (begin_write s.tracker))
  written :
      (b : Bytes) (before behind : List Bytes)
      → s.writing ≡ before ++ b ∷ behind
      → Step s (record s { tracker = end_write b s.tracker; writing = before ++ behind })
  flush : begin_flush s.tracker ≡ true → Step s (record s { flushing = s.flushing + 1 })
  flush_done :
      (n : ℕ)
      → s.flushing ≡ suc n
      → Step s (record s { tracker = end_flush s.tracker; flushing = n })
  hijacks : Step s (record s { tracker = hijack s.tracker })
  aborts : Step s (record s { tracker = abort s.tracker })
  claims : Step s (claim_made s (claim s.tracker))
  streams : Step s (record s { tracker = (commit_sse s.tracker).0 })

pub data Reach : System → Type 0 where
  here : Reach start
  next : {s t : System} → Reach s → Step s t → Reach t
