-- ===== src/Oneshot/Counts.antt =====
-- What Stats counts.
use phpeek_pm.Prelude.{
  ◌+◌, ◌≡◌, refl, ap, ◌∙◌, List, [], ◌∷◌, arith, Bool-cases, inl, inr, String, str_eq, eq_iff,
  length, lookup, insert, lookup-insert,
}
use phpeek_pm.Oneshot.{
  OneshotExecution, OneshotHistory, OneshotProcessStats, no_stats, stats_or, count_entry,
  count_by_process, stats,
}
use phpeek_pm.Oneshot.Queries.{of_process}

-- The counts over the executions of one process.
abbrev pub tally : OneshotProcessStats → List OneshotExecution → OneshotProcessStats
tally ps [] = ps
tally ps (e ∷ es) = tally (count_entry e ps) es

count_by_process-tally :
    (name : String) (by_process : List (String × OneshotProcessStats)) (es : List OneshotExecution)
    → stats_or (lookup name (count_by_process by_process es))
      ≡ tally (stats_or (lookup name by_process)) (of_process name es)
unfolding count_by_process
count_by_process-tally name m [] = refl
count_by_process-tally name m (e ∷ es) =
    let ps = count_entry e (stats_or (lookup e.process_name m)) in
    count_by_process-tally name (insert e.process_name ps m) es
    ∙ ap (λ o. tally (stats_or o) (of_process name es)) (lookup-insert e.process_name name ps m)
    ∙ (elim (Bool-cases (str_eq e.process_name name)) [
      | inl same ↦ rw same (
          ap (λ n. tally (count_entry e (stats_or (lookup n m))) (of_process name es))
            ((eq_iff e.process_name name).0 same))
      | inr other ↦ rw other refl
    ])

tally-partition :
    (ps : OneshotProcessStats) (es : List OneshotExecution)
    → let t = tally ps es in
      (t.total ≡ ps.total + length es)
      × (t.successful + t.failed + t.running + ps.total
          ≡ ps.successful + ps.failed + ps.running + t.total)
unfolding count_entry
tally-partition ps [] = omega arith
tally-partition ps (e ∷ es) = ground (arith, tally-partition (count_entry e ps) es)

-- For every process, Stats counts each of its executions once, as successful, failed or running.
oneshot_stats_lem :
    (process_name : String) (h : OneshotHistory)
    → let ps = stats_or (lookup process_name (stats h).by_process) in
      (ps ≡ tally no_stats (of_process process_name h.entries))
      × (ps.total ≡ length (of_process process_name h.entries))
      × (ps.successful + ps.failed + ps.running ≡ ps.total)
      × ((stats h).total_entries ≡ length h.entries)
unfolding stats lookup
oneshot_stats_lem name h =
    let e = count_by_process-tally name [] h.entries in
    let parts = tally-partition no_stats (of_process name h.entries) in
    (e, rw e (omega (arith, parts)), rw e (omega (arith, parts)), refl)
