-- ===== src/Sse.antt =====
-- Server-sent events of src/types.go: `SSEEvent.Format` and `ParseSSEEvent`, with the parts of strings and
-- bufio that they use: `Split`, `Join` and `Cut`, and a scanner of lines, which takes a carriage return
-- off the end of a line and gives up at one of 65536 bytes.
pub mod Lines
pub mod RoundTrip
mod Tests
use umans_dash_go.Prelude.{
  ℕ, Bool, true, false, not, ◌&&◌, ◌||◌, Option, none, some, List, [], ◌∷◌, ◌++◌, map, ltb, ◌==◌,
  if◌then◌else◌, Bytes, codes, same, length,
}

pub record SseEvent : Type 0 where
  pub event : Bytes
  pub id : Bytes
  pub retry : Bytes
  pub data_text : Bytes

abbrev pub newline : ℕ
newline = 10

abbrev pub push : ℕ → List Bytes → List Bytes
push c [] = (c ∷ []) ∷ []
push c (l ∷ ls) = (c ∷ l) ∷ ls

-- `strings.Split` at newlines.
unfoldable pub split : Bytes → List Bytes
split [] = [] ∷ []
split (c ∷ cs) = if c == newline then [] ∷ split cs else push c (split cs)

-- `strings.Join` with newlines.
unfoldable pub join : List Bytes → Bytes
join [] = []
join (l ∷ []) = l
join (l ∷ m ∷ ls) = l ++ (newline ∷ join (m ∷ ls))

abbrev pub write_line : Bytes → Bytes → Bytes
write_line name value = (name ++ (codes ": " ++ value)) ++ (newline ∷ [])

-- A field that is empty is not written.
abbrev pub write_field : Bytes → Bytes → Bytes
write_field name [] = []
write_field name (c ∷ cs) = write_line name (c ∷ cs)

unfoldable pub write_data : List Bytes → Bytes
write_data [] = []
write_data (l ∷ ls) = write_line (codes "data") l ++ write_data ls

abbrev pub write_text : Bytes → Bytes
write_text [] = []
write_text (c ∷ cs) = write_data (split (c ∷ cs))

unfoldable pub format : SseEvent → Bytes
format e =
    write_field (codes "event") e.event
    ++ (write_field (codes "id") e.id
        ++ (write_field (codes "retry") e.retry ++ (write_text e.data_text ++ (newline ∷ []))))

unfoldable pub trim_cr : Bytes → Bytes
trim_cr [] = []
trim_cr (c ∷ []) = if c == 13 then [] else c ∷ []
trim_cr (c ∷ d ∷ cs) = c ∷ trim_cr (d ∷ cs)

-- No line follows the last newline where nothing does.
unfoldable pub drop_empty_last : List Bytes → List Bytes
drop_empty_last [] = []
drop_empty_last ([] ∷ []) = []
drop_empty_last ((c ∷ cs) ∷ []) = (c ∷ cs) ∷ []
drop_empty_last (l ∷ m ∷ ls) = l ∷ drop_empty_last (m ∷ ls)

unfoldable pub all_short : List Bytes → Bool
all_short [] = true
all_short (l ∷ ls) = ltb (length l) 65536 && all_short ls

-- The lines of the scanner, or its error.
unfoldable pub scan_lines : Bytes → Option (List Bytes)
scan_lines text =
    if all_short (split text) then some (map trim_cr (drop_empty_last (split text))) else none

-- `strings.Cut` at ": ".
abbrev pub after_space : Bytes → Option Bytes
after_space [] = none
after_space (c ∷ cs) = if c == 32 then some cs else none

unfoldable pub cut : Bytes → Option (Bytes × Bytes)
cut [] = none
cut (c ∷ cs) =
    let rest = cut cs in
    elim (if c == 58 then after_space cs else none) [
      | some value ↦ some ([], value)
      | none ↦ elim rest [ none ↦ none | some found ↦ some (c ∷ found.0, found.1) ]
    ]

pub record Parsed : Type 0 where
  pub ev : SseEvent
  pub data_lines : List Bytes

unfoldable pub take_field : Bytes → Bytes → Parsed → Parsed
take_field name value p =
    if same name (codes "event")
    then record p { ev = record (p.ev) { event = value } }
    else if same name (codes "id")
    then record p { ev = record (p.ev) { id = value } }
    else if same name (codes "retry")
    then record p { ev = record (p.ev) { retry = value } }
    else if same name (codes "data")
    then record p { data_lines = p.data_lines ++ (value ∷ []) }
    else p

unfoldable pub take_line : Bytes → Parsed → Parsed
take_line [] p = p
take_line (c ∷ cs) p = if c == 58 then p else (elim (cut (c ∷ cs)) [
  | none ↦ take_field (c ∷ cs) [] p
  | some found ↦ take_field found.0 found.1 p
])

unfoldable pub take_lines : List Bytes → Parsed → Parsed
take_lines [] p = p
take_lines (l ∷ ls) p = take_lines ls (take_line l p)

abbrev pub no_event : SseEvent
no_event = record { event = []; id = []; retry = []; data_text = [] }

abbrev pub with_data : Parsed → SseEvent
with_data p = elim p.data_lines [ [] ↦ p.ev | l ∷ ls ↦ record (p.ev) { data_text = join (l ∷ ls) } ]

unfoldable pub parse_sse_event : Bytes → Option SseEvent
parse_sse_event raw = elim (scan_lines raw) [
  | none ↦ none
  | some lines ↦ some (with_data (take_lines lines (record { ev = no_event; data_lines = [] })))
]
