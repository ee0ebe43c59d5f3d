-- ===== src/Sse/Lines.antt =====
-- The lines that `SSEEvent.Format` (src/types.go) writes, and that the scanner reads them again.
use umans_dash_go.Prelude.{
  ℕ, ◌≡◌, refl, sym, ap, ◌∙◌, Bool, true, false, not, ◌&&◌, List, [], ◌∷◌, ◌++◌, map, ◌==◌, Bytes,
  codes, All, arith, Bool-cases, inl, inr, if_split, All-append,
}
use mathlib.Core.List.{append_assoc}
use umans_dash_go.Sse.{
  SseEvent, newline, push, split, join, write_field, write_data, write_text, format, trim_cr,
  drop_empty_last,
}

-- No byte of the text is `b`.
unfoldable pub lacks : ℕ → Bytes → Bool
lacks b [] = true
lacks b (c ∷ cs) = not (c == b) && lacks b cs

unfoldable pub unlines : List Bytes → Bytes
unlines [] = []
unlines (l ∷ ls) = l ++ (newline ∷ unlines ls)

join-push : (c : ℕ) (ls : List Bytes) → join (push c ls) ≡ c ∷ join ls
unfolding join
join-push c [] = refl
join-push c (l ∷ []) = refl
join-push c (l ∷ m ∷ ls) = refl

pub split_cons : (text : Bytes) → (l : Bytes) × (ls : List Bytes) × (split text ≡ l ∷ ls)
unfolding split
split_cons [] = ([], [], refl)
split_cons (c ∷ cs) = elim (Bool-cases (c == newline)) [
  | inl e ↦ ([], split cs, ground (arith, e))
  | inr e ↦ (c ∷ (split_cons cs).0, (split_cons cs).1, ground (arith, e, (split_cons cs).2))
]

join_blank : (text : Bytes) → join ([] ∷ split text) ≡ newline ∷ join (split text)
unfolding join
join_blank text =
    ap (λ r. join ([] ∷ r)) (split_cons text).2
    ∙ ap (λ r. newline ∷ join r) (sym (split_cons text).2)

pub join-split : (text : Bytes) → join (split text) ≡ text
unfolding join split
join-split [] = refl
join-split (c ∷ cs) = elim (Bool-cases (c == newline)) [
  | inl e ↦ ground (arith, e, join_blank cs, join-split cs)
  | inr e ↦ ground (arith, e, join-push c (split cs), join-split cs)
]

split-line :
    (l rest : Bytes) → lacks newline l ≡ true → split (l ++ (newline ∷ rest)) ≡ l ∷ split rest
unfolding lacks split
split-line [] rest h = refl
split-line (c ∷ cs) rest h = ground (arith, h, split-line cs rest)

-- The lines of the lines written.
pub split-unlines :
    (ls : List Bytes) → All (λ l. lacks newline l ≡ true) ls → split (unlines ls) ≡ ls ++ ([] ∷ [])
unfolding split unlines
split-unlines [] h = refl
split-unlines (l ∷ ls) (h, hs) = split-line l (unlines ls) h ∙ ap (λ r. l ∷ r) (split-unlines ls hs)

pub drop-last : (ls : List Bytes) → drop_empty_last (ls ++ ([] ∷ [])) ≡ ls
unfolding drop_empty_last
drop-last [] = refl
drop-last ([] ∷ []) = refl
drop-last ((c ∷ cs) ∷ []) = refl
drop-last (l ∷ m ∷ ls) = ap (λ r. l ∷ r) (drop-last (m ∷ ls))

trim_cr-lacks : (l : Bytes) → lacks 13 l ≡ true → trim_cr l ≡ l
unfolding lacks trim_cr
trim_cr-lacks [] h = refl
trim_cr-lacks (c ∷ []) h = ground (arith, h)
trim_cr-lacks (c ∷ d ∷ cs) h = ap (λ r. c ∷ r) (trim_cr-lacks (d ∷ cs) (ground (arith, h)))

unlines-append : (ls ms : List Bytes) → unlines (ls ++ ms) ≡ unlines ls ++ unlines ms
unfolding unlines
unlines-append [] ms = refl
unlines-append (l ∷ ls) ms =
    ap (λ r. l ++ (newline ∷ r)) (unlines-append ls ms)
    ∙ sym (append_assoc l (newline ∷ unlines ls) (unlines ms))

-- The lines of an event.
abbrev pub field_lines : Bytes → Bytes → List Bytes
field_lines name [] = []
field_lines name (c ∷ cs) = (name ++ (codes ": " ++ (c ∷ cs))) ∷ []

abbrev pub data_lines_of : List Bytes → List Bytes
data_lines_of [] = []
data_lines_of (l ∷ ls) = (codes "data: " ++ l) ∷ data_lines_of ls

abbrev pub text_lines : Bytes → List Bytes
text_lines [] = []
text_lines (c ∷ cs) = data_lines_of (split (c ∷ cs))

abbrev pub lines_of : SseEvent → List Bytes
lines_of e =
    field_lines (codes "event") e.event
    ++ (field_lines (codes "id") e.id
        ++ (field_lines (codes "retry") e.retry ++ (text_lines e.data_text ++ ([] ∷ []))))

write_field-unlines :
    (name value : Bytes) → write_field name value ≡ unlines (field_lines name value)
unfolding unlines
write_field-unlines name [] = refl
write_field-unlines name (c ∷ cs) = refl

write_data-unlines : (ls : List Bytes) → write_data ls ≡ unlines (data_lines_of ls)
unfolding write_data unlines
write_data-unlines [] = refl
write_data-unlines (l ∷ ls) =
    append_assoc (codes "data" ++ (codes ": " ++ l)) (newline ∷ []) (write_data ls)
    ∙ ap (λ r. (codes "data: " ++ l) ++ (newline ∷ r)) (write_data-unlines ls)

write_text-unlines : (text : Bytes) → write_text text ≡ unlines (text_lines text)
unfolding unlines
write_text-unlines [] = refl
write_text-unlines (c ∷ cs) = write_data-unlines (split (c ∷ cs))

unlines-both :
    (ls ms : List Bytes) (a b : Bytes)
    → a ≡ unlines ls
    → b ≡ unlines ms
    → a ++ b ≡ unlines (ls ++ ms)
unlines-both ls ms a b p q = rw (p, q) (sym (unlines-append ls ms))

unlines_last : unlines ([] ∷ []) ≡ newline ∷ []
unfolding unlines
unlines_last = refl

pub format-unlines : (e : SseEvent) → format e ≡ unlines (lines_of e)
unfolding format
format-unlines e = unlines-both _ _ _ _ (write_field-unlines (codes "event") e.event) (
    unlines-both _ _ _ _ (write_field-unlines (codes "id") e.id) (
      unlines-both _ _ _ _ (write_field-unlines (codes "retry") e.retry)
        (unlines-both _ _ _ _ (write_text-unlines e.data_text) (sym unlines_last))))

lacks-append :
    (b : ℕ) (xs ys : Bytes) → lacks b xs ≡ true → lacks b ys ≡ true → lacks b (xs ++ ys) ≡ true
unfolding lacks
lacks-append b [] ys h k = k
lacks-append b (x ∷ xs) ys h k = ground (arith, h, lacks-append b xs ys)

abbrev pub Lacking : ℕ → Bytes → Type 0
Lacking b l = lacks b l ≡ true

field_lines-Lacking :
    (b : ℕ) (name value : Bytes)
    → Lacking b name
    → Lacking b (codes ": ")
    → Lacking b value
    → All (Lacking b) (field_lines name value)
field_lines-Lacking b name [] n s v = tt
field_lines-Lacking b name (c ∷ cs) n s v =
    (lacks-append b name (codes ": " ++ (c ∷ cs)) n (lacks-append b (codes ": ") (c ∷ cs) s v), tt)

push-Lacking :
    (b c : ℕ) (ls : List Bytes)
    → (c == b) ≡ false
    → All (Lacking b) ls
    → All (Lacking b) (push c ls)
unfolding lacks
push-Lacking b c [] e h = (ground (arith, e), tt)
push-Lacking b c (l ∷ ls) e (h, hs) = (ground (arith, e, h), hs)

head_lacks : (b c : ℕ) (cs : Bytes) → Lacking b (c ∷ cs) → ((c == b) ≡ false) × Lacking b cs
unfolding lacks
head_lacks b c cs h = (ground (arith, h), ground (arith, h))

pub split-Lacking : (b : ℕ) (text : Bytes) → Lacking b text → All (Lacking b) (split text)
unfolding split lacks
split-Lacking b [] h = (refl, tt)
split-Lacking b (c ∷ cs) h =
    if_split (All (Lacking b)) (c == newline) ([] ∷ split cs) (push c (split cs))
      (λ e. (refl, split-Lacking b cs (head_lacks b c cs h).1))
      (λ e.
        push-Lacking b c (split cs) (head_lacks b c cs h).0
          (split-Lacking b cs (head_lacks b c cs h).1))

pub split-newline : (text : Bytes) → All (Lacking newline) (split text)
unfolding split lacks
split-newline [] = (refl, tt)
split-newline (c ∷ cs) =
    if_split (All (Lacking newline)) (c == newline) ([] ∷ split cs) (push c (split cs))
      (λ e. (refl, split-newline cs)) (λ e. push-Lacking newline c (split cs) e (split-newline cs))

data_lines_of-Lacking :
    (b : ℕ) (ls : List Bytes)
    → Lacking b (codes "data: ")
    → All (Lacking b) ls
    → All (Lacking b) (data_lines_of ls)
data_lines_of-Lacking b [] s h = tt
data_lines_of-Lacking b (l ∷ ls) s (h, hs) =
    (lacks-append b (codes "data: ") l s h, data_lines_of-Lacking b ls s hs)

text_lines-Lacking :
    (b : ℕ) (text : Bytes)
    → Lacking b (codes "data: ")
    → All (Lacking b) (split text)
    → All (Lacking b) (text_lines text)
text_lines-Lacking b [] s h = tt
text_lines-Lacking b (c ∷ cs) s h = data_lines_of-Lacking b (split (c ∷ cs)) s h

-- No name that is written has the byte.
abbrev pub Foreign : ℕ → Type 0
Foreign b =
    Lacking b (codes "event")
    × Lacking b (codes "id")
    × Lacking b (codes "retry")
    × Lacking b (codes "data: ")
    × Lacking b (codes ": ")

pub newline-Foreign : Foreign newline
unfolding lacks
newline-Foreign = (refl, refl, refl, refl, refl)

pub return-Foreign : Foreign 13
unfolding lacks
return-Foreign = (refl, refl, refl, refl, refl)

blank_lacks : (b : ℕ) → Lacking b []
unfolding lacks
blank_lacks b = refl

pub lines_of-Lacking :
    (b : ℕ) (e : SseEvent)
    → Foreign b
    → Lacking b e.event
    → Lacking b e.id
    → Lacking b e.retry
    → All (Lacking b) (split e.data_text)
    → All (Lacking b) (lines_of e)
lines_of-Lacking b e (fe, fi, fr, fd, fs) he hi hr hd =
    All-append (Lacking b) _ _ (field_lines-Lacking b (codes "event") e.event fe fs he) (
      All-append (Lacking b) _ _ (field_lines-Lacking b (codes "id") e.id fi fs hi) (
        All-append (Lacking b) _ _ (field_lines-Lacking b (codes "retry") e.retry fr fs hr) (
          All-append (Lacking b) _ _ (text_lines-Lacking b e.data_text fd hd) (blank_lacks b, tt))))

pub trim_each : (ls : List Bytes) → All (Lacking 13) ls → map trim_cr ls ≡ ls
trim_each [] h = refl
trim_each (l ∷ ls) (h, hs) = rw (trim_cr-lacks l h, trim_each ls hs)
