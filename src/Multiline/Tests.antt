-- ===== src/Multiline/Tests.antt =====
-- The multiline buffer at concrete inputs.
use phpeek_pm.Prelude.{str_eq, ◌≡◌, refl, Bool, true, false, List, [], ◌∷◌, ◌++◌, pos, String, some}
use phpeek_pm.Multiline.{
  Event, arrival, time_check, handle, run, MultilineConfig, MultilineBuffer, new_multiline_buffer,
  append_line, add_matched, add, should_flush, flush,
}
use phpeek_pm.Multiline.Lines.{of_entry, of_entries, of_events, run-of_events}

runs : Unit {0}
unfolding handle new_multiline_buffer append_line add_matched add should_flush flush run
runs = tt

-- A start is a line that stands out.
abbrev is_start : String → Bool
is_start line = str_eq line "ERROR"

abbrev config : MultilineConfig
config = record { enabled = true; pattern = "^ERROR$"; max_lines = pos 3; timeout = pos 0 }

abbrev buffer : MultilineBuffer
buffer = record {
  enabled = true;
  start_pattern = some is_start;
  max_lines = pos 3;
  timeout = pos 1000000000;
  lines = [];
  start_time = 0;
}

abbrev input : List Event
input =
    arrival 1 "ERROR"
    ∷ arrival 2 "at a"
    ∷ time_check 3
    ∷ arrival 3 "ERROR"
    ∷ arrival 4 "at b"
    ∷ arrival 5 "at c"
    ∷ arrival 6 "at d"
    ∷ time_check 1000000006
    ∷ arrival 1000000007 "ERROR"
    ∷ []

made : new_multiline_buffer (λ pattern. some is_start) (some config) ≡ some buffer
unfolding runs
made = refl

entries :
    (run input buffer).1
    ≡ ("ERROR" ∷ "at a" ∷ []) ∷ ("ERROR" ∷ "at b" ∷ "at c" ∷ []) ∷ ("at d" ∷ []) ∷ []
unfolding runs
entries = refl

left_over : flush (run input buffer).0 ≡ (buffer, some ("ERROR" ∷ []))
unfolding runs
left_over = refl

late :
    (should_flush 2000000006 (run input buffer).0 ≡ false)
    × (should_flush 2000000007 (run input buffer).0 ≡ true)
unfolding runs
late = (refl, refl)

run-of_events_example :
    let (last, entries) = run input buffer in
    of_entries entries ++ of_entry (flush last).1 ≡ of_events input
run-of_events_example = run-of_events (λ pattern. some is_start) (some config) buffer input made
