-- ===== src/Oneshot.antt =====
-- internal/process/oneshot_history.go: the history of one-shot executions, bounded by number and by
-- age. A time is a number of nanoseconds since Go's zero time, and each reading of the clock is an
-- argument. The int64 counter of ids is unbounded here.
mod Tests
pub mod Eviction
pub mod Queries
pub mod Completion
pub mod Counts
use phpeek_pm.Prelude.{
  ℕ, zero, suc, ◌+◌, ◌-◌, ◌*◌, ◌/◌, ◌≡◌, Bool, true, false, ◌&&◌, List, [], ◌∷◌, ◌++◌,
  if◌then◌else◌, ℤ, pos, negsuc, leb_ℤ, ltb, ltb_ℤ, pos_part, sub_ℕ, ◌==◌, String, str_eq, length,
  get_elem?, drop, find_last, modify_at, newest_from, Option, none, some, lookup, insert,
}

-- What formatDuration returns: nothing yet, the constant text, or Round(unit).String() of a duration.
pub data DurationText : Type 0 where
  empty : DurationText
  below_millisecond : DurationText
  rounded : (unit : ℕ) (d : ℤ) → DurationText

abbrev pub millisecond : ℕ
millisecond = 1000000

abbrev pub second : ℕ
second = 1000000000

unfoldable pub format_duration : ℤ → DurationText
format_duration d =
    if ltb_ℤ d (pos millisecond)
    then below_millisecond
    else (if ltb_ℤ d (pos second)
        then rounded millisecond d
        else (if ltb_ℤ d (pos (60 * second))
            then rounded (100 * millisecond) d
            else rounded second d))

-- Duration.Milliseconds: the division of an int64 cuts towards zero.
abbrev milliseconds : ℤ → ℤ
milliseconds (pos n) = pos (n / millisecond)
milliseconds (negsuc n) = sub_ℕ 0 (suc n / millisecond)

pub record OneshotExecution : Type 0 where
  pub id : ℕ
  pub process_name : String
  pub instance_id : String
  pub started_at : ℕ
  pub finished_at : ℕ
  pub exit_code : ℤ
  pub success : Bool
  pub error : String
  pub duration : DurationText
  pub duration_ms : ℤ
  pub trigger_type : String

pub record OneshotHistory : Type 0 where
  pub max_entries : ℕ
  pub max_age : ℕ
  pub entries : List OneshotExecution
  pub next_id : ℕ

unfoldable pub new_oneshot_history : ℤ → ℤ → OneshotHistory
new_oneshot_history max_entries max_age = record {
  max_entries = if leb_ℤ max_entries (pos 0) then 5000 else pos_part max_entries;
  max_age = if leb_ℤ max_age (pos 0) then 24 * (3600 * second) else pos_part max_age;
  entries = [];
  next_id = 1;
}

-- e.StartedAt.After(cutoff)
abbrev pub is_fresh : ℤ → OneshotExecution → Bool
is_fresh cutoff e = ltb_ℤ cutoff (pos e.started_at)

-- The loop that finds the first entry within the age limit, from index i on.
unfoldable pub age_start : ℤ → ℕ → List OneshotExecution → ℕ
age_start cutoff i [] = i
age_start cutoff i (e ∷ es) =
    let rest = age_start cutoff (i + 1) es in if is_fresh cutoff e then i else rest

unfoldable pub evict : ℕ → OneshotHistory → OneshotHistory
evict now h =
    let by_age = age_start (sub_ℕ now h.max_age) 0 h.entries in
    let by_size =
      if ltb h.max_entries (length h.entries) then length h.entries - h.max_entries else 0 in
    let start = if ltb by_age by_size then by_size else by_age in
    if ltb 0 start then record h { entries = drop start h.entries } else h

-- The entry that Record appends.
abbrev pub recorded : ℕ → String → String → String → OneshotHistory → OneshotExecution
recorded now process_name instance_id trigger_type h = record {
  id = h.next_id;
  process_name = process_name;
  instance_id = instance_id;
  started_at = now;
  finished_at = 0;
  exit_code = pos 0;
  success = false;
  error = "";
  duration = empty;
  duration_ms = pos 0;
  trigger_type = trigger_type;
}

-- Record reads the clock for the entry, and evict reads it again.
unfoldable pub record_execution :
    ℕ → ℕ → String → String → String → OneshotHistory → OneshotHistory × ℕ
record_execution now later process_name instance_id trigger_type h =
    let entry = recorded now process_name instance_id trigger_type h in
    (
      evict later (record h { entries = h.entries ++ entry ∷ []; next_id = h.next_id + 1 }),
      entry.id,
    )

abbrev is_none : Option String → Bool
is_none none = true
is_none (some e) = false

abbrev is_exit_zero : ℤ → Bool
is_exit_zero (pos n) = n == 0
is_exit_zero (negsuc n) = false

abbrev message_or : Option String → String → String
message_or none old = old
message_or (some message) old = message

-- The body of Complete's loop at the entry with the id.
unfoldable pub finish : ℕ → ℤ → Option String → OneshotExecution → OneshotExecution
finish now exit_code err e =
    let d = sub_ℕ now e.started_at in
    record e {
      finished_at = now;
      exit_code = exit_code;
      success = is_exit_zero exit_code && is_none err;
      error = message_or err e.error;
      duration = format_duration d;
      duration_ms = milliseconds d;
    }

abbrev pub has_id : ℕ → OneshotExecution → Bool
has_id id e = e.id == id

abbrev pub write_at :
    Option ℕ → (OneshotExecution → OneshotExecution) → List OneshotExecution → List OneshotExecution
write_at none f entries = entries
write_at (some i) f entries = modify_at i f entries

unfoldable pub complete : ℕ → ℕ → ℤ → Option String → OneshotHistory → OneshotHistory
complete now id exit_code err h = record h {
  entries =
      write_at (find_last (has_id id) (length h.entries) h.entries) (finish now exit_code err)
        h.entries;
}

-- `if h.entries[i].ProcessName == processName { result = append(result, h.entries[i]) }`
abbrev pub append_match :
    String → Option OneshotExecution → List OneshotExecution → List OneshotExecution
append_match process_name none result = result
append_match process_name (some e) result =
    if str_eq e.process_name process_name then result ++ e ∷ [] else result

-- The loops of GetAll and GetRecent: the number of rounds left is one above the index.
unfoldable pub all_from :
    ℕ → String → List OneshotExecution → List OneshotExecution → List OneshotExecution
all_from zero process_name entries result = result
all_from (suc i) process_name entries result =
    all_from i process_name entries (append_match process_name (get_elem? entries i) result)

unfoldable pub get_all : String → OneshotHistory → List OneshotExecution
get_all process_name h = all_from (length h.entries) process_name h.entries []

unfoldable pub recent_from :
    ℕ → ℤ → String → List OneshotExecution → List OneshotExecution → List OneshotExecution
recent_from zero limit process_name entries result = result
recent_from (suc i) limit process_name entries result =
    let rest =
      recent_from i limit process_name entries
        (append_match process_name (get_elem? entries i) result) in
    if ltb_ℤ (pos (length result)) limit then rest else result

unfoldable pub get_recent : String → ℤ → OneshotHistory → List OneshotExecution
get_recent process_name limit h = recent_from (length h.entries) limit process_name h.entries []

unfoldable pub get_all_processes : OneshotHistory → List OneshotExecution
get_all_processes h = newest_from (length h.entries) 0 h.entries

-- `none` is the panic of `make` at a negative length.
unfoldable pub get_recent_all : ℤ → OneshotHistory → Option (List OneshotExecution)
get_recent_all (negsuc n) h = none
get_recent_all (pos limit) h =
    let count = if ltb limit (length h.entries) then limit else length h.entries in
    some (newest_from count 0 h.entries)

pub record OneshotProcessStats : Type 0 where
  pub total : ℕ
  pub successful : ℕ
  pub failed : ℕ
  pub running : ℕ

abbrev pub no_stats : OneshotProcessStats
no_stats = record { total = 0; successful = 0; failed = 0; running = 0 }

-- The map's entry, which is zero where there is none.
abbrev pub stats_or : Option OneshotProcessStats → OneshotProcessStats
stats_or none = no_stats
stats_or (some ps) = ps

unfoldable pub count_entry : OneshotExecution → OneshotProcessStats → OneshotProcessStats
count_entry e ps =
    let running = e.finished_at == 0 in
    record ps {
      total = ps.total + 1;
      successful = if e.success then ps.successful + 1 else ps.successful;
      failed = if e.success then ps.failed else (if running then ps.failed else ps.failed + 1);
      running = if e.success then ps.running else (if running then ps.running + 1 else ps.running);
    }

unfoldable pub count_by_process :
    List (String × OneshotProcessStats)
    → List OneshotExecution
    → List (String × OneshotProcessStats)
count_by_process by_process [] = by_process
count_by_process by_process (e ∷ es) =
    let ps = stats_or (lookup e.process_name by_process) in
    count_by_process (insert e.process_name (count_entry e ps) by_process) es

pub record OneshotHistoryStats : Type 0 where
  pub total_entries : ℕ
  pub by_process : List (String × OneshotProcessStats)

unfoldable pub stats : OneshotHistory → OneshotHistoryStats
stats h = record { total_entries = length h.entries; by_process = count_by_process [] h.entries }
