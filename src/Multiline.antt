-- ===== src/Multiline.antt =====
-- internal/logger/multiline.go: the buffer that puts the lines of one log entry together. The start
-- pattern is a predicate on lines (regexp.MatchString); an entry is the list of the lines that
-- strings.Join puts together.
mod Tests
pub mod Lines
pub mod Entries
use phpeek_pm.Prelude.{
  str_eq, ℕ, zero, suc, ◌*◌, ◌-◌, Bool, true, false, not, ◌&&◌, ◌||◌, if◌then◌else◌, List, [], ◌∷◌,
  ◌++◌, ℤ, pos, negsuc, leb, leb_ℤ, ltb, ◌==◌, sub_ℕ, length, String, Option, none, some,
}

pub record MultilineConfig : Type 0 where
  pub enabled : Bool
  pub pattern : String
  pub max_lines : ℤ
  pub timeout : ℤ

pub record MultilineBuffer : Type 0 where
  pub enabled : Bool
  pub start_pattern : Option (String → Bool)
  pub max_lines : ℤ
  pub timeout : ℤ
  pub lines : List String
  pub start_time : ℕ

abbrev second : ℕ
second = 1000000000

abbrev is_zero : ℤ → Bool
is_zero (pos n) = n == 0
is_zero (negsuc n) = false

abbrev seconds : ℤ → ℤ
seconds (pos n) = pos (n * second)
seconds (negsuc n) = sub_ℕ 0 (suc n * second)

abbrev pub disabled : MultilineBuffer
disabled = record {
  enabled = false;
  start_pattern = none;
  max_lines = pos 0;
  timeout = pos 0;
  lines = [];
  start_time = 0;
}

-- An empty pattern is not compiled. `none` is an error, and `some none` no pattern.
abbrev pub compile_pattern :
    (String → Option (String → Bool)) → String → Option (Option (String → Bool))
compile_pattern compile pattern =
    if str_eq pattern ""
    then some none
    else elim (compile pattern) [ none ↦ none | some matches ↦ some (some matches) ]

abbrev pub new_enabled : MultilineConfig → Option (String → Bool) → MultilineBuffer
new_enabled cfg start_pattern =
    let timeout = seconds cfg.timeout in
    record {
      enabled = true;
      start_pattern = start_pattern;
      max_lines = if is_zero cfg.max_lines then pos 100 else cfg.max_lines;
      timeout = if is_zero timeout then pos second else timeout;
      lines = [];
      start_time = 0;
    }

-- `compile` stands for regexp.Compile with MatchString of its result; `none` is its error.
unfoldable pub new_multiline_buffer :
    (String → Option (String → Bool)) → Option MultilineConfig → Option MultilineBuffer
new_multiline_buffer compile none = some disabled
new_multiline_buffer compile (some cfg) =
    if not cfg.enabled then some disabled else (elim (compile_pattern compile cfg.pattern) [
      | none ↦ none
      | some start_pattern ↦ some (new_enabled cfg start_pattern)
    ])

-- The internal flush of a buffer that is not empty.
abbrev pub cleared : MultilineBuffer → MultilineBuffer
cleared mb = record mb { lines = []; start_time = 0 }

-- The line is added to the entry at hand.
unfoldable pub append_line : ℕ → String → MultilineBuffer → MultilineBuffer × Option (List String)
append_line now line mb =
    let lines = mb.lines ++ line ∷ [] in
    let added = record mb {
      lines = lines;
      start_time = if length lines == 1 then now else mb.start_time;
    } in
    if leb_ℤ mb.max_lines (pos (length lines)) then (cleared added, some lines) else (added, none)

unfoldable pub add_matched :
    ℕ → String → Bool → MultilineBuffer → MultilineBuffer × Option (List String)
add_matched now line is_start mb =
    if is_start && ltb 0 (length mb.lines)
    then (record mb { lines = line ∷ []; start_time = now }, some mb.lines)
    else append_line now line mb

-- The two fast paths of Add return the line itself.
abbrev pub add_from :
    Bool
    → Option (String → Bool)
    → ℕ
    → String
    → MultilineBuffer
    → MultilineBuffer × Option (List String)
add_from false pattern now line mb = (mb, some (line ∷ []))
add_from true none now line mb = (mb, some (line ∷ []))
add_from true (some matches) now line mb = add_matched now line (matches line) mb

-- Add: `none` where the line was buffered.
unfoldable pub add : ℕ → String → MultilineBuffer → MultilineBuffer × Option (List String)
add now line mb = add_from mb.enabled mb.start_pattern now line mb

-- time.Since(mb.startTime) >= mb.timeout
unfoldable pub should_flush : ℕ → MultilineBuffer → Bool
should_flush now mb =
    if not mb.enabled || length mb.lines == 0
    then false
    else leb_ℤ mb.timeout (sub_ℕ now mb.start_time)

-- Flush: `none` is the empty text of an empty buffer.
unfoldable pub flush : MultilineBuffer → MultilineBuffer × Option (List String)
flush mb =
    if not mb.enabled || length mb.lines == 0 then (mb, none) else (cleared mb, some mb.lines)

-- What ProcessWriter does with the buffer: processLine adds a line, Write looks at the time at its end.
-- An entry that is one empty line comes out here; the writer then drops it.
pub data Event : Type 0 where
  arrival : ℕ → String → Event
  time_check : ℕ → Event

-- The buffer's side of Write and processLine, up to what it gives back. They go on with the entry unless
-- it is the empty text.
unfoldable pub handle : Event → MultilineBuffer → MultilineBuffer × Option (List String)
handle (arrival now line) mb = add now line mb
handle (time_check now) mb = if should_flush now mb then flush mb else (mb, none)

-- The entries that come out of many events.
unfoldable pub run : List Event → MultilineBuffer → MultilineBuffer × List (List String)
run [] mb = (mb, [])
run (event ∷ events) mb =
    let (handled, entry) = handle event mb in
    let (last, entries) = run events handled in
    (last, elim entry [ none ↦ entries | some e ↦ e ∷ entries ])
