-- ===== src/Schedule/History/Bounds.antt =====
-- The size of the history, and what it keeps.
use phpeek_pm.Prelude.{
  ℕ, ◌-◌, ◌≤◌, ◌<◌, ◌≡◌, sym, [], ◌∷◌, ◌++◌, arith, Bool, Bool-cases, inl, inr, ℤ, String, length,
  drop, last_n, last_n_all, drop-append_left, length-append, length-drop, leb, leb→le, leb_false→lt,
  Option-cases, length-modify_at,
}
use phpeek_pm.Schedule.History.{
  ExecutionHistory, new_execution_history, start_execution, end_execution, finish, index_of,
  started,
}

pub record IsBounded (h : ExecutionHistory) : Type 0 where
  pub room : 0 < h.max_size
  pub fits : length h.entries ≤ h.max_size

pub new_execution_history-IsBounded : (n : ℤ) → IsBounded (new_execution_history n)
unfolding new_execution_history
new_execution_history-IsBounded n = ground arith

-- Starting an execution keeps the newest max_size of the entries and the new one.
start_execution-entries :
    (now : ℕ) (triggered : String) (h : ExecutionHistory)
    → IsBounded h
    → (start_execution now triggered h).0.entries
      ≡ last_n h.max_size (h.entries ++ started now triggered h ∷ [])
unfolding start_execution
start_execution-entries now triggered h v =
    let e = started now triggered h in
    let more = length-append h.entries (e ∷ []) in
    elim (Bool-cases (leb h.max_size (length h.entries))) [
      | inl full ↦
          let one : length (h.entries ++ e ∷ []) - h.max_size ≡ 1 =
            omega (arith, leb→le _ _ full, more, v) in
          rw (full, one)
            (sym (drop-append_left 1 h.entries (e ∷ []) (omega (arith, leb→le _ _ full, v))))
      | inr free ↦
          rw free (sym (last_n_all h.max_size _ (omega (arith, leb_false→lt _ _ free, more))))
    ]

pub start_execution-IsBounded :
    (now : ℕ) (triggered : String) (h : ExecutionHistory)
    → IsBounded h
    → IsBounded (start_execution now triggered h).0
unfolding start_execution
start_execution-IsBounded now triggered h v =
    let e = started now triggered h in
    ground (
      arith,
      length-append h.entries (e ∷ []),
      length-append (drop 1 h.entries) (e ∷ []),
      length-drop 1 h.entries,
    )

pub end_execution-IsBounded :
    (now id : ℕ) (exit_code : ℤ) (success : Bool) (error : String) (h : ExecutionHistory)
    → IsBounded h
    → IsBounded (end_execution now id exit_code success error h)
unfolding end_execution
end_execution-IsBounded now id exit_code success error h v =
    elim (Option-cases (index_of id h.entries)) [
      | inl absent ↦ rw (absent, end_execution) v
      | inr (i, found) ↦
          rw (found, end_execution)
            (omega (arith, v, length-modify_at i (finish now exit_code success error) h.entries))
    ]
