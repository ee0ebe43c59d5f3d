-- ===== src/Http/Pipe/Counted.antt =====
-- What the client gets of a body that `pipeBodyToResponse` of src/http.go copies, and what is counted of it.
use umans_dash_go.Prelude.{
  ℕ, zero, suc, ◌+◌, ◌≤◌, ◌≡◌, refl, Bool, true, false, Option, none, some, List, [], ◌∷◌, ◌++◌,
  if◌then◌else◌, Bytes, take, length, arith, length-append, ap, sym, ◌∙◌,
}
use mathlib.Core.List.{append_assoc, append-nil}
use umans_dash_go.Http.{Writer}
use umans_dash_go.Http.Pipe.{
  Ended, PipeEnd, Read, end_of, write_chunk, pipe_loop, pipe_body_to_response, whole, disconnected,
  write_failed,
}
use umans_dash_go.Http.Pipe.Sent.{wire_of, stream, Prefixed, write_chunk_refused, write_chunk_sent}

record Piped (w : Writer) (total : ℕ) (text : Bytes) (sent : Writer) (n : ℕ) (e : PipeEnd)
    : Type 0 where
  count : ℕ
  few : count ≤ length text
  counted : n ≤ total + count
  exact : ¬ (e ≡ write_failed) → n ≡ total + count
  written : wire_of sent ≡ wire_of w ++ take count text
  complete : e ≡ whole → count ≡ length text

take_append : (xs ys : Bytes) (n : ℕ) → take (length xs + n) (xs ++ ys) ≡ xs ++ take n ys
take_append [] ys n = ap (λ k. take k ys) {x = length {A = ℕ} [] + n} {y = n} (omega arith)
take_append (x ∷ xs) ys n =
    ap (λ k. take k (x ∷ (xs ++ ys))) {y = suc (length xs + n)} (omega arith)
    ∙ ap (x ∷◌) (take_append xs ys n)

take_all : (xs : Bytes) → take (length xs) xs ≡ xs
take_all [] = refl
take_all (x ∷ xs) = ap (x ∷◌) (take_all xs)

-- The loop that goes on behind a chunk of the body.
Piped-after :
    {w sent after : Writer} {total n : ℕ} {e : PipeEnd} (b text : Bytes)
    → wire_of sent ≡ wire_of w ++ b
    → Piped sent (total + length b) text after n e
    → Piped w total (b ++ text) after n e
Piped-after {w} b text sends h = record {
  count = length b + h.count;
  few = omega (arith, h.few, length-append b text);
  counted = omega (arith, h.counted);
  exact = λ d. omega (arith, h.exact d);
  written =
      h.written
      ∙ ap (◌++ take h.count text) sends
      ∙ append_assoc (wire_of w) b (take h.count text)
      ∙ ap (wire_of w ++◌) (sym (take_append b text h.count));
  complete = λ d. omega (arith, h.complete d, length-append b text);
}

Piped-nothing :
    {w sent : Writer} {total : ℕ} {e : PipeEnd} (text : Bytes)
    → wire_of sent ≡ wire_of w
    → (e ≡ whole → 0 ≡ length text)
    → Piped w total text sent total e
Piped-nothing {w} text same_wire complete = record {
  count = 0;
  few = omega arith;
  counted = omega arith;
  exact = λ d. omega arith;
  written = same_wire ∙ sym (append-nil (wire_of w));
  complete = complete;
}

Piped-whole :
    {w sent : Writer} {total : ℕ} (b : Bytes) (e : Ended)
    → wire_of sent ≡ wire_of w ++ b
    → Piped w total b sent (total + length b) (end_of e)
Piped-whole {w} b e sends = record {
  count = length b;
  few = omega arith;
  counted = omega arith;
  exact = λ d. refl;
  written = sends ∙ ap (wire_of w ++◌) (sym (take_all b));
  complete = λ d. refl;
}

-- A chunk of which only some first bytes are sent, and none counted.
Piped-cut :
    {w sent : Writer} {total : ℕ} (b text : Bytes)
    → Prefixed (wire_of w) b (wire_of sent)
    → length b ≤ length text
    → ((k : ℕ) → k ≤ length b → take k text ≡ take k b)
    → Piped w total text sent total write_failed
Piped-cut {w = w} b text (k, few, at) fits begins = record {
  count = k;
  few = omega (arith, few, fits);
  counted = omega arith;
  exact = λ d. absurd (d refl);
  written = at ∙ ap (wire_of w ++◌) (sym (begins k few));
  complete = λ d. absurd (ground (arith, d));
}

take_within : (b text : Bytes) (k : ℕ) → k ≤ length b → take k (b ++ text) ≡ take k b
take_within b text zero h = refl
take_within [] text (suc k) h = absurd (omega (arith, h))
take_within (x ∷ b) text (suc k) h = ap (x ∷◌) (take_within b text k (omega (arith, h)))

read_cut :
    {w sent : Writer} {total : ℕ} (b text : Bytes) (ended : Option Ended)
    → Prefixed (wire_of w) b (wire_of sent)
    → Piped w total (elim ended [ none ↦ b ++ text | some e ↦ b ]) sent total write_failed
read_cut b text none cut =
    Piped-cut b (b ++ text) cut (omega (arith, length-append b text)) (take_within b text)
read_cut b text (some e) cut = Piped-cut b b cut (omega arith) (λ k h. refl)

abbrev IsPiped : Writer → ℕ → Bytes → Writer × ℕ × PipeEnd → Type 0
IsPiped w total text (sent, n, e) = Piped w total text sent n e

-- One read and the loop behind it.
read-IsPiped :
    {w sent : Writer} {total : ℕ} {rest : Writer × ℕ × PipeEnd} (b text : Bytes) (gone fails : Bool)
    (ended : Option Ended)
    → (fails ≡ true → Prefixed (wire_of w) b (wire_of sent))
    → (fails ≡ false → wire_of sent ≡ wire_of w ++ b)
    → IsPiped sent (total + length b) text rest
    → IsPiped w total
        (elim ended [ none ↦ b ++ text | some e ↦ b ])
        (if gone
          then (w, total, disconnected)
          else if fails
          then (sent, total, write_failed)
          else elim ended [ some e ↦ (sent, total + length b, end_of e) | none ↦ rest ])
read-IsPiped b text true fails ended refuses sends behind =
    Piped-nothing _ refl (λ d. absurd (ground (arith, d)))
read-IsPiped b text false true ended refuses sends behind = read_cut b text ended (refuses refl)
read-IsPiped b text false false none refuses sends behind = Piped-after b text (sends refl) behind
read-IsPiped b text false false (some e) refuses sends behind = Piped-whole b e (sends refl)

pipe_loop-IsPiped :
    (reads : List Read) (total : ℕ) (w : Writer)
    → IsPiped w total (stream reads) (pipe_loop reads total w)
unfolding pipe_loop
pipe_loop-IsPiped [] total w = Piped-nothing [] refl (λ d. absurd (ground (arith, d)))
pipe_loop-IsPiped (r ∷ reads) total w =
    read-IsPiped r.bytes (stream reads) r.client_gone (write_chunk r w).1 r.ended
      (write_chunk_refused r w) (write_chunk_sent r w)
      (pipe_loop-IsPiped reads (total + length r.bytes) (write_chunk r w).0)

-- Whatever the reads and the ends are, the bytes that the client gets behind those before are the first ones
-- of the body up to its end, at least as many as the function returns and all of them where the body was read
-- to its end. They are just as many, unless a write to the client failed: then the chunk that failed may have
-- been sent in part and is not counted.
pub pipe_body_to_response_lem :
    (reads : List Read) (w : Writer)
    → let (after, n, e) = pipe_body_to_response (some reads) w in
      (m : ℕ) × (n ≤ m)
      × (m ≤ length (stream reads))
      × (wire_of after ≡ wire_of w ++ take m (stream reads))
      × (¬ (e ≡ write_failed) → n ≡ m)
      × (e ≡ whole → m ≡ length (stream reads))
unfolding pipe_body_to_response
pipe_body_to_response_lem reads w =
    let piped = pipe_loop-IsPiped reads 0 w in
    (
      piped.count,
      omega (arith, piped.counted),
      piped.few,
      piped.written,
      λ d. omega (arith, piped.exact d),
      piped.complete,
    )
