-- ===== src/Schedule/History.antt =====
-- internal/schedule/history.go: the bounded history of a job's executions. A time is a number of
-- nanoseconds since Go's zero time, and the clock's reading is an argument of each method that asks
-- for it. The int64 counter of ids is unbounded here.
mod Tests
pub mod Bounds
pub mod Ids
pub mod Stats
use phpeek_pm.Prelude.{
  ℕ, zero, suc, ◌+◌, ◌-◌, ◌≡◌, Bool, true, false, ◌||◌, List, [], ◌∷◌, ◌++◌, reverse, if◌then◌else◌,
  ℤ, pos, leb_ℤ, leb, ltb, ltb_ℤ, pos_part, sub_ℕ, negsuc, not, ◌&&◌, ◌/◌, ◌+ℤ◌, ◌==◌, String,
  length, get_elem?, set, drop, find_last, modify_at, newest_from, Option, none, some,
}

pub record ExecutionEntry : Type 0 where
  pub id : ℕ
  pub start_time : ℕ
  pub end_time : ℕ
  pub exit_code : ℤ
  pub success : Bool
  pub error : String
  pub triggered : String

-- EndTime.IsZero()
unfoldable pub is_running : ExecutionEntry → Bool
is_running e = e.end_time == 0

-- `now` is read only while the execution is running.
unfoldable pub duration : ℕ → ExecutionEntry → ℤ
unfolding is_running
duration now e = if is_running e then sub_ℕ now e.start_time else sub_ℕ e.end_time e.start_time

pub record ExecutionHistory : Type 0 where
  pub entries : List ExecutionEntry
  pub max_size : ℕ
  pub next_id : ℕ

unfoldable pub new_execution_history : ℤ → ExecutionHistory
new_execution_history max_size = record {
  entries = [];
  max_size = if leb_ℤ max_size (pos 0) then 100 else pos_part max_size;
  next_id = 1;
}

-- The entry that StartExecution adds.
abbrev pub started : ℕ → String → ExecutionHistory → ExecutionEntry
started now triggered h = record {
  id = h.next_id;
  start_time = now;
  end_time = 0;
  exit_code = pos 0;
  success = false;
  error = "";
  triggered = triggered;
}

unfoldable pub start_execution : ℕ → String → ExecutionHistory → ExecutionHistory × ℕ
start_execution now triggered h =
    let entry = started now triggered h in
    let kept = if leb h.max_size (length h.entries) then drop 1 h.entries else h.entries in
    (record h { entries = kept ++ entry ∷ []; next_id = h.next_id + 1 }, entry.id)

-- What EndExecution writes into the entry.
unfoldable pub finish : ℕ → ℤ → Bool → String → ExecutionEntry → ExecutionEntry
finish now exit_code success error e = record e {
  end_time = now;
  exit_code = exit_code;
  success = success;
  error = error;
}

abbrev pub has_id : ℕ → ExecutionEntry → Bool
has_id id e = e.id == id

-- The index that the loops of EndExecution and GetByID stop at.
unfoldable pub index_of : ℕ → List ExecutionEntry → Option ℕ
index_of id entries = find_last (has_id id) (length entries) entries

-- The two loops' bodies at the index that was found.
abbrev pub write_at :
    Option ℕ → (ExecutionEntry → ExecutionEntry) → List ExecutionEntry → List ExecutionEntry
write_at none f entries = entries
write_at (some i) f entries = modify_at i f entries

abbrev pub fetch : Option ℕ → List ExecutionEntry → Option ExecutionEntry
fetch none entries = none
fetch (some i) entries = get_elem? entries i

unfoldable pub end_execution : ℕ → ℕ → ℤ → Bool → String → ExecutionHistory → ExecutionHistory
end_execution now id exit_code success error h =
    let entries = write_at (index_of id h.entries) (finish now exit_code success error) h.entries in
    record h { entries = entries }

-- The loop writes entry i to place len - 1 - i.
unfoldable pub get_all : ExecutionHistory → List ExecutionEntry
get_all h = reverse h.entries

-- `if n <= 0 || n > len { n = len }`
unfoldable pub recent_count : ℤ → ℕ → ℕ
recent_count n count = if leb_ℤ n (pos 0) || ltb_ℤ (pos count) n then count else pos_part n

unfoldable pub get_recent : ℤ → ExecutionHistory → List ExecutionEntry
get_recent n h = newest_from (recent_count n (length h.entries)) 0 h.entries

unfoldable pub get_by_id : ℕ → ExecutionHistory → Option ExecutionEntry
get_by_id id h = fetch (index_of id h.entries) h.entries

unfoldable pub get_last : ExecutionHistory → Option ExecutionEntry
get_last h = if length h.entries == 0 then none else get_elem? h.entries (length h.entries - 1)

-- A float64 percentage: the zero that is returned without any completed execution, or
-- `successes / completed * 100`.
pub data Percentage : Type 0 where
  no_executions : Percentage
  percentage : (successes completed : ℕ) → Percentage

-- The counters of SuccessRate's loop: successes and completed executions.
unfoldable pub count_success : ℕ → ℕ → List ExecutionEntry → ℕ × ℕ
unfolding is_running
count_success successes completed [] = (successes, completed)
count_success successes completed (e ∷ es) =
    let over = not (is_running e) in
    count_success (if over && e.success then successes + 1 else successes)
      (if over then completed + 1 else completed) es

unfoldable pub success_rate : ExecutionHistory → Percentage
success_rate h =
    let (successes, completed) = count_success 0 0 h.entries in
    if length h.entries == 0
    then no_executions
    else (if completed == 0 then no_executions else percentage successes completed)

-- HistoryStats, with the sum of durations that the loop keeps beside it.
pub record HistoryStats : Type 0 where
  pub total_executions : ℕ
  pub success_count : ℕ
  pub failure_count : ℕ
  pub running_count : ℕ
  pub last_execution_time : ℕ
  pub last_success_time : ℕ
  pub last_failure_time : ℕ
  pub total_duration : ℤ

-- `if t.After(last) { last = t }`
abbrev later : ℕ → ℕ → ℕ
later t last = if ltb last t then t else last

-- One round of the loop of Stats. `continue` skips the rest for a running execution.
unfoldable pub count_entry : HistoryStats → ExecutionEntry → HistoryStats
unfolding is_running duration ◌+ℤ◌
count_entry s e =
    let counted = record s { total_executions = s.total_executions + 1 } in
    if is_running e
    then record counted { running_count = s.running_count + 1 }
    else record counted {
      total_duration = s.total_duration +ℤ duration 0 e;
      success_count = if e.success then s.success_count + 1 else s.success_count;
      last_success_time =
          if e.success then later e.end_time s.last_success_time else s.last_success_time;
      failure_count = if e.success then s.failure_count else s.failure_count + 1;
      last_failure_time =
          if e.success then s.last_failure_time else later e.end_time s.last_failure_time;
      last_execution_time = later e.start_time s.last_execution_time;
    }

unfoldable pub count_entries : HistoryStats → List ExecutionEntry → HistoryStats
count_entries s [] = s
count_entries s (e ∷ es) = count_entries (count_entry s e) es

abbrev pub no_stats : HistoryStats
no_stats = record {
  total_executions = 0;
  success_count = 0;
  failure_count = 0;
  running_count = 0;
  last_execution_time = 0;
  last_success_time = 0;
  last_failure_time = 0;
  total_duration = pos 0;
}

-- Division of an integer by a positive number, which Go cuts towards zero.
abbrev quot : ℤ → ℕ → ℤ
quot (pos n) c = pos (n / c)
quot (negsuc n) c = sub_ℕ 0 (suc n / c)

-- The counts, the success rate and the average duration.
unfoldable pub stats : ExecutionHistory → HistoryStats × Percentage × ℤ
stats h =
    let s = count_entries no_stats h.entries in
    let completed = s.success_count + s.failure_count in
    if ltb 0 completed
    then (s, percentage s.success_count completed, quot s.total_duration completed)
    else (s, no_executions, pos 0)
