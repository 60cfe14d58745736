-- ===== src/Oneshot/Tests.antt =====
-- The history of one-shot executions at concrete inputs.
use phpeek_pm.Prelude.{
  ◌≡◌, refl, arith, pos, negsuc, [], ◌∷◌, ◌-◌, ◌*◌, ◌++◌, last_n, length, none, reverse, lookup,
  insert, find_last, newest_from, sub_ℕ,
}
use phpeek_pm.Oneshot.{
  format_duration, rounded, below_millisecond, second, OneshotHistory, new_oneshot_history,
  age_start, evict, recorded, record_execution, finish, complete, all_from, get_all, recent_from,
  get_recent, get_all_processes, get_recent_all, count_entry, count_by_process, stats,
}
use phpeek_pm.Oneshot.Eviction.{record_execution_lem, skip_expired}
use phpeek_pm.Oneshot.Queries.{of_process, get_all_lem}
use phpeek_pm.Oneshot.Completion.{HasAscendingIds}

runs : Unit {0}
unfolding format_duration new_oneshot_history age_start evict record_execution finish complete
    all_from get_all recent_from get_recent get_all_processes get_recent_all count_entry
    count_by_process stats lookup insert find_last newest_from
runs = tt

durations :
    (format_duration (pos 20) ≡ below_millisecond)
    × (format_duration (pos (90 * second)) ≡ rounded second (pos (90 * second)))
unfolding runs
durations = (refl, refl)

abbrev one : OneshotHistory
one =
    (record_execution 100 100 "migrate" "migrate-0" "manual"
      (new_oneshot_history (pos 2) (pos 50))).0

abbrev two : OneshotHistory
two = (record_execution 120 121 "seed" "seed-0" "api" (complete 110 1 (pos 0) none one)).0

newest :
    (length (get_all_processes two) ≡ 2)
    × (length (get_all "seed" two) ≡ 1)
    × (get_recent_all (negsuc 0) two ≡ none)
unfolding runs
newest = (refl, refl, refl)

-- The first execution is too old when the third is recorded.
aged : length (record_execution 160 160 "seed" "seed-1" "api" two).0.entries ≡ 2
unfolding runs
aged = refl

record_execution_lem_example :
    let (h', id) = record_execution 160 161 "seed" "seed-1" "api" two in
    h'.entries
    ≡ last_n (two.max_entries - 1) (skip_expired (sub_ℕ 161 two.max_age) two.entries)
      ++ recorded 160 "seed" "seed-1" "api" two ∷ []
record_execution_lem_example =
    record_execution_lem 160 161 "seed" "seed-1" "api" two (unfold runs in omega arith)
      (unfold runs in omega arith)

two-HasAscendingIds : HasAscendingIds two
unfolding runs
two-HasAscendingIds = (omega arith, (omega arith, omega arith))

get_all_lem_example : get_all "seed" two ≡ of_process "seed" (reverse two.entries)
get_all_lem_example = get_all_lem "seed" two
