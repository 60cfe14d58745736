-- ===== src/Schedule/History/Tests.antt =====
-- A job's history at concrete inputs.
use phpeek_pm.Prelude.{◌≡◌, refl, arith, pos, ◌+◌, length, true, find_last, newest_from, ◌+ℤ◌}
use phpeek_pm.Schedule.History.{
  is_running, duration, ExecutionHistory, new_execution_history, start_execution, finish, index_of,
  end_execution, get_all, recent_count, get_recent, get_by_id, get_last, percentage, no_executions,
  count_success, success_rate, count_entry, count_entries, stats,
}
use phpeek_pm.Schedule.History.Bounds.{IsBounded}
use phpeek_pm.Schedule.History.Stats.{stats_lem}

runs : Unit {0}
unfolding is_running duration new_execution_history start_execution finish index_of end_execution
    get_all recent_count get_recent get_by_id get_last count_success success_rate count_entry
    count_entries stats find_last newest_from ◌+ℤ◌
runs = tt

abbrev empty : ExecutionHistory
empty = new_execution_history (pos 2)

-- Two executions, of which the first ended with exit code 0.
abbrev two : ExecutionHistory
two =
    (start_execution 30 "manual"
      (end_execution 20 1 (pos 0) true "" (start_execution 10 "schedule" empty).0)).0

rates :
    (success_rate two ≡ percentage 1 1) × (success_rate empty ≡ no_executions) × (two.next_id ≡ 3)
unfolding runs
rates = (refl, refl, refl)

evicts : length (start_execution 40 "manual" two).0.entries ≡ 2
unfolding runs
evicts = refl

two-IsBounded : IsBounded two
unfolding runs
two-IsBounded = record { room = omega arith; fits = omega arith }

stats_lem_example :
    let (s, rate, average) = stats two in
    (s.total_executions ≡ length two.entries)
    × (s.success_count + s.failure_count + s.running_count ≡ s.total_executions)
    × (rate ≡ success_rate two)
stats_lem_example = stats_lem two
