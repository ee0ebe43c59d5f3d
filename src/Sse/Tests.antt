-- ===== src/Sse/Tests.antt =====
-- Runs of the events.
use umans_dash_go.Prelude.{◌≡◌, refl, true, some, [], ◌∷◌, ◌++◌, codes, same}
use umans_dash_go.Sse.{
  SseEvent, newline, format, split, parse_sse_event, scan_lines, all_short, trim_cr,
  drop_empty_last, cut, take_field, take_line, take_lines, write_data, no_event,
}
use umans_dash_go.Sse.Lines.{lacks, Lacking}
use umans_dash_go.Sse.RoundTrip.{parse_sse_event-format}

-- Two lines of data.
abbrev ping : SseEvent
ping = record {
  event = codes "ping";
  id = [];
  retry = codes "10";
  data_text = codes "a" ++ (newline ∷ codes ": b");
}

one_line : (Lacking newline ping.event) × (Lacking newline ping.id) × (Lacking newline ping.retry)
unfolding lacks
one_line = (refl, refl, refl)

no_return :
    (Lacking 13 ping.event)
    × (Lacking 13 ping.id)
    × (Lacking 13 ping.retry)
    × (Lacking 13 ping.data_text)
unfolding lacks
no_return = (refl, refl, refl, refl)

short_lines : all_short (split (format ping)) ≡ true
unfolding all_short split format write_data
short_lines = refl

parse_sse_event-format_example : parse_sse_event (format ping) ≡ some ping
parse_sse_event-format_example = parse_sse_event-format ping one_line no_return short_lines

-- A line with no space after its colon is not read as data.
unspaced : parse_sse_event (codes "data:x" ++ (newline ∷ [])) ≡ some no_event
unfolding parse_sse_event scan_lines all_short split trim_cr drop_empty_last cut take_field
    take_line take_lines same
unspaced = refl
