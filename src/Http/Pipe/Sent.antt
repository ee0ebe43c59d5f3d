-- ===== src/Http/Pipe/Sent.antt =====
-- What one chunk of `pipeBodyToResponse` in src/http.go adds to what the client gets.
use umans_dash_go.Prelude.{
  ℕ, zero, Bool-cases, inl, inr, suc, ◌≤◌, ◌≡◌, refl, Bool, true, false, Option, none, some, List,
  [], ◌∷◌, ◌++◌, ltb, Bytes, take, length, arith, ap, sym, subst, ◌∙◌, if_split,
}
use mathlib.Core.List.{append-nil}
use native.Mathlib.Decide.{dec_lt}
use umans_dash_go.Tracker
use umans_dash_go.Tracker.{
  Tracker, Call, body, flushed, begin_write, end_write, begin_flush, end_flush, hijack,
}
use umans_dash_go.Http.{Writer, safe_flush}
use umans_dash_go.Http.Pipe.{Read, overtake, try_write, then_flush, write_chunk}

-- The bytes on the wire, the oldest first.
abbrev pub said : List Call → Bytes
said [] = []
said (Tracker.header status ∷ calls) = said calls
said (body b ∷ calls) = said calls ++ b
said (flushed ∷ calls) = said calls

abbrev pub wire_of : Writer → Bytes
wire_of w = said w.tracker.wire

-- The body up to its end.
abbrev pub stream : List Read → Bytes
stream [] = []
stream (r ∷ reads) = elim r.ended [ none ↦ r.bytes ++ stream reads | some e ↦ r.bytes ]

-- The first bytes of `text` follow.
abbrev pub Prefixed : Bytes → Bytes → Bytes → Type 0
Prefixed before text after = (k : ℕ) × (k ≤ length text) × (after ≡ before ++ take k text)

Prefixed-nothing : (before text : Bytes) → Prefixed before text before
Prefixed-nothing before text = (0, omega arith, sym (append-nil before))

take_over : (k : ℕ) (xs : Bytes) → length xs ≤ k → take k xs ≡ xs
take_over zero [] h = refl
take_over (suc k) [] h = refl
take_over zero (x ∷ xs) h = absurd (omega (arith, h))
take_over (suc k) (x ∷ xs) h = ap (x ∷◌) (take_over k xs (omega (arith, h)))

Prefixed-take : (before text : Bytes) (k : ℕ) → Prefixed before text (before ++ take k text)
Prefixed-take before text k = elim (dec_lt (length text) k) [
  | yes over ↦ (
    length text,
    omega arith,
    ap (before ++◌)
        (take_over k text (omega (arith, over)) ∙ sym (take_over (length text) text (omega arith))),
  )
  | no within ↦ (k, omega (arith, within), refl)
]

try_write_refused :
    (refused : Option ℕ) (b : Bytes) (w : Writer)
    → (try_write refused b w).1 ≡ true
    → Prefixed (wire_of w) b (wire_of (try_write refused b w).0)
unfolding begin_write
try_write_refused none b w fails =
    subst (Prefixed (wire_of w) b) (ground (arith, fails)) (Prefixed-nothing (wire_of w) b)
try_write_refused (some k) b w fails = elim (Bool-cases (begin_write w.tracker).1) [
  | inl goes ↦ subst (Prefixed (wire_of w) b) (ground (arith, goes)) (Prefixed-take (wire_of w) b k)
  | inr stops ↦
      subst (Prefixed (wire_of w) b) (ground (arith, stops)) (Prefixed-nothing (wire_of w) b)
]

try_write_sent :
    (refused : Option ℕ) (b : Bytes) (w : Writer)
    → (try_write refused b w).1 ≡ false
    → wire_of (try_write refused b w).0 ≡ wire_of w ++ b
unfolding begin_write
try_write_sent none b w goes = ground (arith, goes)
try_write_sent (some k) b w goes = absurd (ground (arith, goes))

wire_of-safe_flush : (w : Writer) → wire_of (safe_flush w) ≡ wire_of w
unfolding safe_flush begin_flush
wire_of-safe_flush w = ground arith

wire_of-overtake : (b : Bool) (w : Writer) → wire_of (overtake b w) ≡ wire_of w
wire_of-overtake true w = refl
wire_of-overtake false w = refl

append-empty : (xs b : Bytes) → ltb 0 (length b) ≡ false → xs ≡ xs ++ b
append-empty xs [] h = sym (append-nil xs)
append-empty xs (x ∷ b) h = absurd (ground arith)

then_flush_refused :
    (r : Writer × Bool)
    → (then_flush r).1 ≡ true
    → (r.1 ≡ true) × (wire_of (then_flush r).0 ≡ wire_of r.0)
then_flush_refused (sent, true) h = (refl, refl)
then_flush_refused (sent, false) h = (h, wire_of-safe_flush sent)

then_flush_sent :
    (r : Writer × Bool)
    → (then_flush r).1 ≡ false
    → (r.1 ≡ false) × (wire_of (then_flush r).0 ≡ wire_of r.0)
then_flush_sent (sent, true) h = (h, refl)
then_flush_sent (sent, false) h = (refl, wire_of-safe_flush sent)

abbrev tried : Read → Writer → Writer × Bool
tried r w = try_write r.refused r.bytes (overtake r.taken_over w)

pub write_chunk_refused :
    (r : Read) (w : Writer)
    → (write_chunk r w).1 ≡ true
    → Prefixed (wire_of w) r.bytes (wire_of (write_chunk r w).0)
write_chunk_refused r w =
    if_split (λ c. c.1 ≡ true → Prefixed (wire_of w) r.bytes (wire_of c.0)) (ltb 0 (length r.bytes))
      (then_flush (tried r w)) (w, false)
      (λ some_bytes fails.
        subst (λ (before : Bytes). Prefixed before r.bytes (wire_of (then_flush (tried r w)).0))
          (wire_of-overtake r.taken_over w)
          (subst (Prefixed (wire_of (overtake r.taken_over w)) r.bytes)
            (sym (then_flush_refused (tried r w) fails).1)
            (try_write_refused r.refused r.bytes (overtake r.taken_over w)
              (then_flush_refused (tried r w) fails).0)))
      (λ no_bytes fails. Prefixed-nothing (wire_of w) r.bytes)

pub write_chunk_sent :
    (r : Read) (w : Writer)
    → (write_chunk r w).1 ≡ false
    → wire_of (write_chunk r w).0 ≡ wire_of w ++ r.bytes
write_chunk_sent r w =
    if_split (λ c. c.1 ≡ false → wire_of c.0 ≡ wire_of w ++ r.bytes) (ltb 0 (length r.bytes))
      (then_flush (tried r w)) (w, false)
      (λ some_bytes goes.
        (then_flush_sent (tried r w) goes).1
        ∙ try_write_sent r.refused r.bytes (overtake r.taken_over w)
            (then_flush_sent (tried r w) goes).0
        ∙ ap (◌++ r.bytes) (wire_of-overtake r.taken_over w))
      (λ no_bytes goes. append-empty (wire_of w) r.bytes no_bytes)
