-- ===== src/Schedule/History/Stats.antt =====
-- The newest executions, and the statistics.
use phpeek_pm.Prelude.{
  ℕ, zero, suc, ◌+◌, ◌≤◌, ◌≡◌, refl, sym, ap, ◌∙◌, List, [], ◌∷◌, arith, true, false, ℤ, pos,
  negsuc, ◌≤ℤ◌, leb_ℤ, pos_part, reverse, length, take, take_all, length-reverse, newest_from,
  newest_from_lem, if◌then◌else◌, Bool-cases, inl, inr, min, dec_lt, not, ◌&&◌,
}
use phpeek_pm.Schedule.History.{
  ExecutionEntry, ExecutionHistory, HistoryStats, get_all, get_recent, recent_count, count_success,
  success_rate, count_entry, count_entries, no_stats, stats, is_running,
}

newest_first :
    (n : ℕ) (es : List ExecutionEntry) → n ≤ length es → newest_from n 0 es ≡ take n (reverse es)
newest_first n es h = newest_from_lem n 0 es (omega arith)

all_newest : (es : List ExecutionEntry) → newest_from (length es) 0 es ≡ reverse es
all_newest es =
    newest_first (length es) es (omega arith)
    ∙ take_all (length es) (reverse es) (omega (arith, length-reverse es))

recent_count-pos : (n count : ℕ) → recent_count (pos (suc n)) count ≡ min (suc n) count
unfolding recent_count
recent_count-pos n count = ground arith

recent_count_nonpos : (n : ℤ) (count : ℕ) → n ≤ℤ pos 0 → recent_count n count ≡ count
unfolding recent_count
recent_count_nonpos n count h = ground arith

take-min : (n : ℕ) (xs : List ExecutionEntry) → take (min n (length xs)) xs ≡ take n xs
take-min n xs = elim (dec_lt n (length xs)) [
  | yes less ↦ let e : min n (length xs) ≡ n = omega arith in rw e
  | no more ↦
      let e : min n (length xs) ≡ length xs = omega arith in
      rw e (take_all (length xs) xs (omega arith) ∙ sym (take_all n xs (omega arith)))
]

-- GetRecent(n) is the first n executions of GetAll at a positive n, and all of them otherwise.
get_recent-get_all :
    (n : ℤ) (h : ExecutionHistory)
    → get_recent n h ≡ (if leb_ℤ n (pos 0) then get_all h else take (pos_part n) (get_all h))
unfolding get_recent get_all
get_recent-get_all n h = elim (Bool-cases (leb_ℤ n (pos 0))) [
  | inl all ↦ rw all (
      ap (λ k. newest_from k 0 h.entries)
        (recent_count_nonpos n (length h.entries) (nonpositive n all))
      ∙ all_newest h.entries)
  | inr some_asked ↦ rw some_asked (first n some_asked)
]
  where
    nonpositive : (n : ℤ) → leb_ℤ n (pos 0) ≡ true → n ≤ℤ pos 0
    nonpositive n h = ground arith

    first :
        (n : ℤ)
        → leb_ℤ n (pos 0) ≡ false
        → newest_from (recent_count n (length h.entries)) 0 h.entries
          ≡ take (pos_part n) (reverse h.entries)
    first (pos zero) e = absurd (clash e)
      where
        clash : leb_ℤ (pos 0) (pos 0) ≡ false → ⊥
        clash e = ground arith
    first (pos (suc n)) e =
        let es = h.entries in
        ap (λ k. newest_from k 0 es) (recent_count-pos n (length es))
        ∙ newest_first (min (suc n) (length es)) es (omega arith)
        ∙ ap (λ k. take (min (suc n) k) (reverse es)) (sym (length-reverse es))
        ∙ take-min (suc n) (reverse es)
    first (negsuc n) e = absurd (below n e)
      where
        below : (n : ℕ) → leb_ℤ (negsuc n) (pos 0) ≡ false → ⊥
        below n e = ground arith

-- Each execution is counted once: as running, as a success or as a failure.
count_entries-partition :
    (s : HistoryStats) (es : List ExecutionEntry)
    → let t = count_entries s es in
      (t.total_executions ≡ s.total_executions + length es)
      × (t.success_count + t.failure_count + t.running_count + s.total_executions
          ≡ s.success_count + s.failure_count + s.running_count + t.total_executions)
unfolding count_entries count_entry
count_entries-partition s [] = omega arith
count_entries-partition s (e ∷ es) = ground (arith, count_entries-partition (count_entry s e) es)

count_success-step :
    (s : HistoryStats) (e : ExecutionEntry)
    → ((if not (is_running e) && e.success then s.success_count + 1 else s.success_count)
        ≡ (count_entry s e).success_count)
      × ((if not (is_running e)
            then s.success_count + s.failure_count + 1
            else s.success_count + s.failure_count)
          ≡ (count_entry s e).success_count + (count_entry s e).failure_count)
unfolding count_entry
count_success-step s e = ground arith

-- The two loops, of SuccessRate and of Stats, count the same.
count_success-count_entries :
    (s : HistoryStats) (es : List ExecutionEntry)
    → let t = count_entries s es in
      count_success s.success_count (s.success_count + s.failure_count) es
      ≡ (t.success_count, t.success_count + t.failure_count)
unfolding count_entries count_success
count_success-count_entries s [] = refl
count_success-count_entries s (e ∷ es) =
    let (successes, completed) = count_success-step s e in
    ap
      (λ n.
        count_success n
          (if not (is_running e)
            then s.success_count + s.failure_count + 1
            else s.success_count + s.failure_count)
          es)
      successes
    ∙ ap (λ n. count_success (count_entry s e).success_count n es) completed
    ∙ count_success-count_entries (count_entry s e) es

-- Stats counts every execution once, as running, as a success or as a failure, and its success rate
-- is that of SuccessRate.
pub stats_lem :
    (h : ExecutionHistory)
    → let (s, rate, average) = stats h in
      (s.total_executions ≡ length h.entries)
      × (s.success_count + s.failure_count + s.running_count ≡ s.total_executions)
      × (rate ≡ success_rate h)
unfolding stats success_rate
stats_lem h = ground (
  arith,
  count_entries-partition no_stats h.entries,
  count_success-count_entries no_stats h.entries,
)
