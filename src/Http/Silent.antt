-- ===== src/Http/Silent.antt =====
-- What the writers of src/http.go may send: one header at most, before any body, and nothing once the
-- response is taken over.
use umans_dash_go.Prelude.{
  ◌≡◌, refl, sym, subst, Bool, true, false, not, ◌||◌, Option, List, [], ◌∷◌, Bytes, arith,
  if◌then◌else◌,
}
use umans_dash_go.Json.{Json, Fields}
use umans_dash_go.Tracker
use umans_dash_go.Tracker.{
  Tracker, Call, body, flushed, new_tracker, write_header, begin_write, begin_flush, commit_sse,
  hijack, abort,
}
use umans_dash_go.Http.{Writer, Marshalled, write_bytes, safe_flush}
use umans_dash_go.Http.Stable.{Stable, Send, send_all, send_all-Stable}

abbrev has_output : List Call → Bool
has_output [] = false
has_output (Tracker.header status ∷ w) = true
has_output (body b ∷ w) = true
has_output (flushed ∷ w) = has_output w

-- The newest call comes first: a header has neither a header nor a body before it.
abbrev pub ordered : List Call → Bool
ordered [] = true
ordered (Tracker.header status ∷ w) = not (has_output w)
ordered (body b ∷ w) = ordered w
ordered (flushed ∷ w) = ordered w

record InOrder (t : Tracker) : Type 0 where
  order : ordered t.wire ≡ true
  unwritten : t.written ≡ false → has_output t.wire ≡ false

InOrder-Stable : Stable InOrder
unfolding write_header write_bytes begin_write safe_flush begin_flush commit_sse
InOrder-Stable = record {
  on_header = λ status t h. record {
    order = ground (arith, h.order, h.unwritten);
    unwritten = λ u. ground (arith, h.unwritten, u);
  };
  on_write = λ b w h. record {
    order = ground (arith, h.order);
    unwritten = λ u. ground (arith, h.unwritten, u);
  };
  on_flush = λ w h. record {
    order = ground (arith, h.order);
    unwritten = λ u. ground (arith, h.unwritten, u);
  };
  on_stream = λ t h. record {
    order = ground (arith, h.order, h.unwritten);
    unwritten = λ u. ground (arith, h.unwritten, u);
  };
}

record Taken (wire : List Call) (t : Tracker) : Type 0 where
  over : (t.hijacked || t.aborted) ≡ true
  as_before : t.wire ≡ wire

Taken-Stable : (wire : List Call) → Stable (Taken wire)
unfolding write_header write_bytes begin_write safe_flush begin_flush commit_sse
Taken-Stable wire = record {
  on_header = λ status t h. record {
    over = ground (arith, h.over);
    as_before = ground (arith, h.over, h.as_before);
  };
  on_write = λ b w h. record {
    over = ground (arith, h.over);
    as_before = ground (arith, h.over, h.as_before);
  };
  on_flush = λ w h. record {
    over = ground (arith, h.over);
    as_before = ground (arith, h.over, h.as_before);
  };
  on_stream = λ t h. record {
    over = ground (arith, h.over);
    as_before = ground (arith, h.over, h.as_before);
  };
}

-- The middleware takes the response over: its tracker is hijacked, or aborted.
abbrev pub take_over : Bool → Writer → Writer
take_over hijacks w = record w { tracker = if hijacks then hijack w.tracker else abort w.tracker }

take_over-Taken : (hijacks : Bool) (w : Writer) → Taken w.tracker.wire (take_over hijacks w).tracker
take_over-Taken true w = record { over = refl; as_before = refl }
take_over-Taken false w = record { over = ground arith; as_before = refl }

-- Whatever calls of the writers a handler makes on a new response, and whatever it goes on to make once
-- the response is taken over, the client gets one header at most, no body before it, and of the calls
-- behind the takeover nothing.
pub send_all-take_over :
    (marshal : Json → Marshalled) (trim : Bytes → Bytes) (unmarshal : Bytes → Option Fields)
    (before after : List Send) (hijacks : Bool) (w : Writer)
    → w.tracker ≡ new_tracker
    → let sent = send_all marshal trim unmarshal before w in
      (ordered sent.tracker.wire ≡ true)
      × ((send_all marshal trim unmarshal after (take_over hijacks sent)).tracker.wire
          ≡ sent.tracker.wire)
send_all-take_over marshal trim unmarshal before after hijacks w fresh = (
  (send_all-Stable marshal trim unmarshal InOrder-Stable before w
      (subst InOrder (sym fresh) (record { order = refl; unwritten = λ u. refl }))).order,
  (send_all-Stable marshal trim unmarshal (Taken-Stable sent.tracker.wire) after
      (take_over hijacks sent) (take_over-Taken hijacks sent)).as_before,
)
  where
    sent : Writer
    sent = send_all marshal trim unmarshal before w
