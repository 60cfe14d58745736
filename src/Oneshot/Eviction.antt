-- ===== src/Oneshot/Eviction.antt =====
-- Which executions the history keeps.
use phpeek_pm.Prelude.{
  ℕ, zero, suc, ◌+◌, ◌-◌, ◌≤◌, ◌<◌, ◌≡◌, refl, sym, ap, ◌∙◌, arith, true, Bool-cases, inl, inr,
  List, [], ◌∷◌, ◌++◌, if◌then◌else◌, ℤ, pos, ltb, ltb_ℤ, lt→ltb, sub_ℕ, String, length, drop,
  last_n, length-last_n, length-drop, length-append, drop-drop, drop-append_left,
}
use phpeek_pm.Oneshot.{
  OneshotExecution, OneshotHistory, new_oneshot_history, is_fresh, age_start, evict, recorded,
  record_execution,
}

-- What is left when the executions before the first one within the age limit are dropped.
abbrev pub skip_expired : ℤ → List OneshotExecution → List OneshotExecution
skip_expired cutoff [] = []
skip_expired cutoff (e ∷ es) = if is_fresh cutoff e then e ∷ es else skip_expired cutoff es

-- The length of the dropped part.
abbrev expired : ℤ → List OneshotExecution → ℕ
expired cutoff [] = 0
expired cutoff (e ∷ es) = if is_fresh cutoff e then 0 else suc (expired cutoff es)

age_start-expired :
    (cutoff : ℤ) (i : ℕ) (es : List OneshotExecution)
    → age_start cutoff i es ≡ i + expired cutoff es
unfolding age_start
age_start-expired cutoff i [] = omega arith
age_start-expired cutoff i (e ∷ es) = ground (arith, age_start-expired cutoff (i + 1) es)

drop-expired :
    (cutoff : ℤ) (es : List OneshotExecution) → drop (expired cutoff es) es ≡ skip_expired cutoff es
drop-expired cutoff [] = refl
drop-expired cutoff (e ∷ es) = elim (Bool-cases (is_fresh cutoff e)) [
  | inl fresh ↦ rw fresh
  | inr old ↦ rw old (drop-expired cutoff es)
]

-- Dropping the larger of two prefixes is dropping one and then what is left of the other.
drop-larger :
    (a n : ℕ) (es : List OneshotExecution)
    → drop (if ltb a (length es - n) then length es - n else a) es ≡ last_n n (drop a es)
drop-larger a n es =
    let e : (if ltb a (length es - n) then length es - n else a) ≡ a + (length (drop a es) - n) =
      ground (arith, length-drop a es) in
    ap (λ k. drop k es) e ∙ sym (drop-drop (length (drop a es) - n) a es)

-- evict keeps, of the executions from the first one within the age limit on, the last max_entries.
pub evict_lem :
    (now : ℕ) (h : OneshotHistory)
    → (evict now h).entries ≡ last_n h.max_entries (skip_expired (sub_ℕ now h.max_age) h.entries)
unfolding evict
evict_lem now h =
    let cutoff = sub_ℕ now h.max_age in
    dropped h _
    ∙ ap (λ k. drop k h.entries)
        (start_eq (age_start cutoff 0 h.entries) h.max_entries (length h.entries))
    ∙ drop-larger (age_start cutoff 0 h.entries) h.max_entries h.entries
    ∙ ap (λ k. last_n h.max_entries (drop k h.entries))
        (age_start-expired cutoff 0 h.entries ∙ omega arith)
    ∙ ap (last_n h.max_entries) (drop-expired cutoff h.entries)
  where
    dropped :
        (h : OneshotHistory) (k : ℕ)
        → (if ltb 0 k then record h { entries = drop k h.entries } else h).entries
          ≡ drop k h.entries
    dropped h zero = refl
    dropped h (suc k) = rw (lt→ltb 0 (suc k) (omega arith)) refl

    start_eq :
        (a n len : ℕ)
        → (if ltb a (if ltb n len then len - n else 0)
            then (if ltb n len then len - n else 0)
            else a)
          ≡ (if ltb a (len - n) then len - n else a)
    start_eq a n len = ground arith

-- No more than max_entries are kept, and ids lie below the next one.
pub record IsBounded (h : OneshotHistory) : Type 0 where
  pub limit_positive : 0 < h.max_entries
  pub within_limit : length h.entries ≤ h.max_entries

pub new_oneshot_history-IsBounded :
    (max_entries max_age : ℤ) → IsBounded (new_oneshot_history max_entries max_age)
unfolding new_oneshot_history
new_oneshot_history-IsBounded max_entries max_age = record {
  limit_positive = ground arith;
  within_limit = ground arith;
}

evict-max_entries : (now : ℕ) (h : OneshotHistory) → (evict now h).max_entries ≡ h.max_entries
unfolding evict
evict-max_entries now h = ground arith

-- Record keeps the number of executions within the limit, whatever it was before.
pub record_execution-IsBounded :
    (now later : ℕ) (process_name instance_id trigger_type : String) (h : OneshotHistory)
    → 0 < h.max_entries
    → IsBounded (record_execution now later process_name instance_id trigger_type h).0
unfolding record_execution
record_execution-IsBounded now later process_name instance_id trigger_type h pos_limit =
    let h' : OneshotHistory = record h {
      entries = h.entries ++ recorded now process_name instance_id trigger_type h ∷ [];
      next_id = h.next_id + 1;
    } in
    let kept = skip_expired (sub_ℕ later h.max_age) h'.entries in
    record {
      limit_positive = omega (arith, pos_limit, evict-max_entries later h');
      within_limit = omega (
        arith,
        ap length (evict_lem later h'),
        length-last_n h.max_entries kept,
        evict-max_entries later h',
      );
    }

skip_expired-snoc :
    (cutoff : ℤ) (es : List OneshotExecution) (e : OneshotExecution)
    → is_fresh cutoff e ≡ true
    → skip_expired cutoff (es ++ e ∷ []) ≡ skip_expired cutoff es ++ e ∷ []
skip_expired-snoc cutoff [] e h = rw h
skip_expired-snoc cutoff (x ∷ es) e h = elim (Bool-cases (is_fresh cutoff x)) [
  | inl fresh ↦ rw fresh
  | inr old ↦ rw old (skip_expired-snoc cutoff es e h)
]

last_n-snoc :
    (n : ℕ) (xs : List OneshotExecution) (x : OneshotExecution)
    → last_n (suc n) (xs ++ x ∷ []) ≡ last_n n xs ++ x ∷ []
last_n-snoc n xs x =
    let e : length (xs ++ x ∷ []) - suc n ≡ length xs - n =
      omega (arith, length-append xs (x ∷ [])) in
    rw e (drop-append_left (length xs - n) xs (x ∷ []) (omega arith))

-- An execution is in the history after Record, as the last entry, behind the newest of the fresh
-- ones before it, if less than max_age has passed before evict reads the clock again.
pub record_execution_lem :
    (now later : ℕ) (process_name instance_id trigger_type : String) (h : OneshotHistory)
    → 0 < h.max_entries
    → later < now + h.max_age
    → let (h', id) = record_execution now later process_name instance_id trigger_type h in
      h'.entries
      ≡ last_n (h.max_entries - 1) (skip_expired (sub_ℕ later h.max_age) h.entries)
        ++ recorded now process_name instance_id trigger_type h ∷ []
unfolding record_execution
record_execution_lem now later process_name instance_id trigger_type h limit soon =
    let e = recorded now process_name instance_id trigger_type h in
    let cutoff = sub_ℕ later h.max_age in
    let more : h.max_entries ≡ suc (h.max_entries - 1) = omega arith in
    evict_lem later (record h { entries = h.entries ++ e ∷ []; next_id = h.next_id + 1 })
    ∙ ap (last_n h.max_entries)
        (skip_expired-snoc cutoff h.entries e (fresh later now h.max_age soon))
    ∙ ap (λ n. last_n n (skip_expired cutoff h.entries ++ e ∷ [])) more
    ∙ last_n-snoc (h.max_entries - 1) (skip_expired cutoff h.entries) e
  where
    fresh : (later now age : ℕ) → later < now + age → ltb_ℤ (sub_ℕ later age) (pos now) ≡ true
    fresh later now age soon = ground arith
