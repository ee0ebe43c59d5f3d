-- ===== src/Tracker/Exclusive.antt =====
-- One answer for each request: the tracker of src/types.go lets the handler or the middleware write.
use umans_dash_go.Prelude.{
  ℕ, ◌+◌, ◌≤◌, ◌<◌, ◌≡◌, refl, Bool, true, false, List, [], ◌∷◌, ◌++◌, Bytes, arith, ◌||◌,
  Bool-cases, inl, inr, length, length-append,
}
use umans_dash_go.Tracker
use umans_dash_go.Tracker.{
  Call, body, flushed, Tracker, new_tracker, write_header, begin_write, end_write, begin_flush,
  end_flush, is_committed, hijack, abort, claim, commit_sse,
}
use umans_dash_go.Tracker.System.{
  System, Step, Reach, header, write_started, claim_made, write, written, flush, flush_done,
  hijacks, aborts, claims, streams, here, next,
}

-- How many headers the handler has sent.
abbrev pub headers : List Call → ℕ
headers [] = 0
headers (Tracker.header status ∷ w) = 1 + headers w
headers (body b ∷ w) = headers w
headers (flushed ∷ w) = headers w

-- How many bodies the handler has sent.
abbrev pub bodies : List Call → ℕ
bodies [] = 0
bodies (Tracker.header status ∷ w) = bodies w
bodies (body b ∷ w) = 1 + bodies w
bodies (flushed ∷ w) = bodies w

abbrev number : Bool → ℕ
number true = 1
number false = 0

-- Bodies that the handler has sent or is about to send.
abbrev said : System → ℕ
said s = bodies s.tracker.wire + length s.writing

record Inv (s : System) : Type 0 where
  one_answer : headers s.tracker.wire + s.claims ≤ number s.tracker.written
  sealed : 0 < s.claims → s.tracker.hijacked ≡ true
  silent : 0 < s.claims → said s ≡ 0
  begun : 0 < said s → s.tracker.written ≡ true

header-Inv :
    (status : ℕ) (s : System) → Inv s → Inv (record s { tracker = write_header status s.tracker })
unfolding write_header
header-Inv status s h = record {
  one_answer = ground (arith, h.one_answer);
  sealed = λ c. ground (arith, h.sealed c);
  silent = λ c. ground (arith, h.silent c);
  begun = λ c. ground (arith, h.begun);
}

streams-Inv : (s : System) → Inv s → Inv (record s { tracker = (commit_sse s.tracker).0 })
unfolding commit_sse
streams-Inv s h = record {
  one_answer = ground (arith, h.one_answer);
  sealed = λ c. ground (arith, h.sealed c);
  silent = λ c. ground (arith, h.silent c);
  begun = λ c. ground (arith, h.begun);
}

write-Inv : (b : Bytes) (s : System) → Inv s → Inv (write_started b s (begin_write s.tracker))
unfolding begin_write
write-Inv b s h = elim (Bool-cases (s.tracker.hijacked || s.tracker.aborted)) [
  | inl shut ↦
      rw shut (record {
        one_answer = h.one_answer;
        sealed = h.sealed;
        silent = h.silent;
        begun = h.begun;
      })
  | inr free ↦ rw free (record {
    one_answer = ground (arith, h.one_answer);
    sealed = λ c. h.sealed c;
    silent = λ c. ground (arith, h.sealed c, free);
    begun = λ c. refl;
  })
]

claim-Inv : (s : System) → Inv s → Inv (claim_made s (claim s.tracker))
unfolding claim
claim-Inv s h = elim (Bool-cases (s.tracker.written || s.tracker.hijacked || s.tracker.aborted)) [
  | inl shut ↦
      rw shut (record {
        one_answer = h.one_answer;
        sealed = h.sealed;
        silent = h.silent;
        begun = h.begun;
      })
  | inr free ↦ rw free (record {
    one_answer = ground (arith, h.one_answer, free);
    sealed = λ c. refl;
    silent = λ c. ground (arith, h.begun, free);
    begun = λ c. refl;
  })
]

written-Inv :
    (b : Bytes) (before behind : List Bytes) (s : System)
    → s.writing ≡ before ++ b ∷ behind
    → Inv s
    → Inv (record s { tracker = end_write b s.tracker; writing = before ++ behind })
written-Inv b before behind s at h = record {
  one_answer = h.one_answer;
  sealed = h.sealed;
  silent = λ c. omega (arith, h.silent c, same_said);
  begun = λ c. h.begun (omega (arith, same_said, c));
}
  where
    same_said : bodies (end_write b s.tracker).wire + length (before ++ behind) ≡ said s
    same_said =
        rw at (omega (arith, length-append before behind, length-append before (b ∷ behind)))

Step-Inv : (s t : System) → Step s t → Inv s → Inv t
Step-Inv s _ (header status) h = header-Inv status s h
Step-Inv s _ (write b) h = write-Inv b s h
Step-Inv s _ (written b before behind at) h = written-Inv b before behind s at h
Step-Inv s _ (flush unlocked) h = record {
  one_answer = h.one_answer;
  sealed = h.sealed;
  silent = h.silent;
  begun = h.begun;
}
Step-Inv s _ (flush_done n at) h = record {
  one_answer = h.one_answer;
  sealed = h.sealed;
  silent = h.silent;
  begun = h.begun;
}
Step-Inv s _ hijacks h = record {
  one_answer = h.one_answer;
  sealed = λ c. refl;
  silent = h.silent;
  begun = h.begun;
}
Step-Inv s _ aborts h = record {
  one_answer = h.one_answer;
  sealed = h.sealed;
  silent = h.silent;
  begun = h.begun;
}
Step-Inv s _ claims h = claim-Inv s h
Step-Inv s _ streams h = streams-Inv s h

Reach-Inv : (s : System) → Reach s → Inv s
Reach-Inv _ here = record {
  one_answer = omega arith;
  sealed = λ c. absurd (omega arith);
  silent = λ c. refl;
  begun = λ c. absurd (omega arith);
}
Reach-Inv _ (next {s} {t} r step) = Step-Inv s t step (Reach-Inv s r)

-- Under every interleaving, the response headers that the handler sends and the successful claims of
-- the middleware are one at most together; and after a successful claim the handler has sent no body,
-- none is past the test of `Write`, and none gets past it later.
pub Reach-exclusive :
    (s : System)
    → Reach s
    → (headers s.tracker.wire + s.claims ≤ 1)
      × (0 < s.claims
          → (bodies s.tracker.wire + length s.writing ≡ 0) × ((begin_write s.tracker).1 ≡ false))
unfolding begin_write
Reach-exclusive s r = (
  ground (arith, (Reach-Inv s r).one_answer),
  λ c. ((Reach-Inv s r).silent c, ground (arith, (Reach-Inv s r).sealed c)),
)

-- A response that is committed accepts neither a claim, nor the headers of a stream, nor a header.
pub committed_stays :
    (status : ℕ) (t : Tracker)
    → is_committed t ≡ true
    → (claim t ≡ (t, false)) × (commit_sse t ≡ (t, false)) × (write_header status t ≡ t)
unfolding is_committed claim commit_sse write_header
committed_stays status t h = (ground arith, ground arith, ground arith)
