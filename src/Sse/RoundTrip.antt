-- ===== src/Sse/RoundTrip.antt =====
-- `ParseSSEEvent` after `SSEEvent.Format` (src/types.go).
use umans_dash_go.Prelude.{
  ◌≡◌, refl, sym, ap, ◌∙◌, true, none, some, List, [], ◌∷◌, ◌++◌, map, Bytes, codes, same, arith,
}
use mathlib.Core.List.{append_assoc, append-nil}
use umans_dash_go.Sse.{
  SseEvent, newline, split, join, format, trim_cr, drop_empty_last, all_short, scan_lines, cut,
  take_field, take_line, take_lines, no_event, with_data, parse_sse_event,
}
use umans_dash_go.Sse.Lines.{
  Lacking, field_lines, data_lines_of, text_lines, lines_of, join-split, split_cons, split-unlines,
  drop-last, format-unlines, lines_of-Lacking, newline-Foreign, return-Foreign, trim_each,
  split-newline, split-Lacking,
}

-- What the lines say.
abbrev plain_event : Bytes → Bytes → Bytes → SseEvent
plain_event event id retry = record { event = event; id = id; retry = retry; data_text = [] }

take_event :
    (v : Bytes) (rest : List Bytes)
    → take_lines (field_lines (codes "event") v ++ rest) (record { ev = no_event; data_lines = [] })
      ≡ take_lines rest (record { ev = plain_event v [] []; data_lines = [] })
unfolding take_lines take_line cut take_field same
take_event [] rest = refl
take_event (c ∷ cs) rest = refl

take_id :
    (v event : Bytes) (rest : List Bytes)
    → take_lines
        (field_lines (codes "id") v ++ rest)
        (record { ev = plain_event event [] []; data_lines = [] })
      ≡ take_lines rest (record { ev = plain_event event v []; data_lines = [] })
unfolding take_lines take_line cut take_field same
take_id [] event rest = refl
take_id (c ∷ cs) event rest = refl

take_retry :
    (v event id : Bytes) (rest : List Bytes)
    → take_lines
        (field_lines (codes "retry") v ++ rest)
        (record { ev = plain_event event id []; data_lines = [] })
      ≡ take_lines rest (record { ev = plain_event event id v; data_lines = [] })
unfolding take_lines take_line cut take_field same
take_retry [] event id rest = refl
take_retry (c ∷ cs) event id rest = refl

take_data :
    (ls taken : List Bytes) (e : SseEvent)
    → take_lines (data_lines_of ls ++ ([] ∷ [])) (record { ev = e; data_lines = taken })
      ≡ record { ev = e; data_lines = taken ++ ls }
unfolding take_lines take_line cut take_field same
take_data [] taken e = ap (λ r. record { ev = e; data_lines = r }) (sym (append-nil taken))
take_data (l ∷ ls) taken e =
    take_data ls (taken ++ (l ∷ [])) e
    ∙ ap (λ r. record { ev = e; data_lines = r }) (append_assoc taken (l ∷ []) ls)

abbrev pieces : Bytes → List Bytes
pieces [] = []
pieces (c ∷ cs) = split (c ∷ cs)

text_lines-pieces : (text : Bytes) → text_lines text ≡ data_lines_of (pieces text)
text_lines-pieces [] = refl
text_lines-pieces (c ∷ cs) = refl

with_data-pieces :
    (event id retry text : Bytes)
    → with_data (record { ev = plain_event event id retry; data_lines = pieces text })
      ≡ record { event = event; id = id; retry = retry; data_text = text }
with_data-pieces event id retry [] = refl
with_data-pieces event id retry (c ∷ cs) =
    ap (λ ls. with_data (record { ev = plain_event event id retry; data_lines = ls }))
      (split_cons (c ∷ cs)).2
    ∙ ap (λ t. record { event = event; id = id; retry = retry; data_text = t })
        (sym (ap join (split_cons (c ∷ cs)).2) ∙ join-split (c ∷ cs))

take_all :
    (e : SseEvent)
    → take_lines (lines_of e) (record { ev = no_event; data_lines = [] })
      ≡ record { ev = plain_event e.event e.id e.retry; data_lines = pieces e.data_text }
take_all e =
    take_event e.event _
    ∙ take_id e.id e.event _
    ∙ take_retry e.retry e.event e.id _
    ∙ ap
        (λ ls.
          take_lines (ls ++ ([] ∷ []))
            (record { ev = plain_event e.event e.id e.retry; data_lines = [] }))
        (text_lines-pieces e.data_text)
    ∙ take_data (pieces e.data_text) [] (plain_event e.event e.id e.retry)

scan-format :
    (e : SseEvent)
    → Lacking newline e.event × Lacking newline e.id × Lacking newline e.retry
    → Lacking 13 e.event × Lacking 13 e.id × Lacking 13 e.retry × Lacking 13 e.data_text
    → all_short (split (format e)) ≡ true
    → scan_lines (format e) ≡ some (lines_of e)
unfolding scan_lines
scan-format e (ne, ni, nr) (ce, ci, cr, cd) short = ground (arith, short, read)
  where
    pieces_of : split (format e) ≡ lines_of e ++ ([] ∷ [])
    pieces_of =
        ap split (format-unlines e)
        ∙ split-unlines (lines_of e)
            (lines_of-Lacking newline e newline-Foreign ne ni nr (split-newline e.data_text))

    read : map trim_cr (drop_empty_last (split (format e))) ≡ lines_of e
    read =
        ap (λ ls. map trim_cr (drop_empty_last ls)) pieces_of
        ∙ ap (map trim_cr) (drop-last (lines_of e))
        ∙ trim_each (lines_of e)
            (lines_of-Lacking 13 e return-Foreign ce ci cr (split-Lacking 13 e.data_text cd))

-- An event parses to itself, where no field has a carriage return, none but the data a newline, and no
-- written line is too long for the scanner.
pub parse_sse_event-format :
    (e : SseEvent)
    → Lacking newline e.event × Lacking newline e.id × Lacking newline e.retry
    → Lacking 13 e.event × Lacking 13 e.id × Lacking 13 e.retry × Lacking 13 e.data_text
    → all_short (split (format e)) ≡ true
    → parse_sse_event (format e) ≡ some e
unfolding parse_sse_event
parse_sse_event-format e newlines returns short =
    ap
      (λ scanned. elim scanned [
        | none ↦ none
        | some lines ↦
            some (with_data (take_lines lines (record { ev = no_event; data_lines = [] })))
      ])
      (scan-format e newlines returns short)
    ∙ ap (λ p. some (with_data p)) (take_all e)
    ∙ ap some (with_data-pieces e.event e.id e.retry e.data_text)
