-- ===== src/Schedule/History/Ids.antt =====
-- Executions found again by their ids.
use phpeek_pm.Prelude.{
  ℕ, suc, ◌≡◌, ◌≢◌, refl, sym, ap, ◌∙◌, List, [], ◌∷◌, ◌++◌, arith, Bool, Option-cases, inl, inr, ℤ,
  String, length, drop, length-append, leb, Option, none, some, get_elem?, modify_at,
  length-modify_at, get_elem?-modify_at_self, get_elem?-modify_at_ne, find_last-modify_at,
  find_last_sound, find_last-snoc, get_elem?-snoc, if◌then◌else◌, ◌==◌, ==_iff, some_inj,
  ℕ_discrete, subst,
}
use phpeek_pm.Schedule.History.{
  ExecutionEntry, ExecutionHistory, start_execution, end_execution, finish, started, has_id,
  index_of, get_by_id, fetch,
}

pub index_of-snoc :
    (es : List ExecutionEntry) (e : ExecutionEntry)
    → index_of e.id (es ++ e ∷ []) ≡ some (length es)
unfolding index_of
index_of-snoc es e =
    let more : length (es ++ e ∷ []) ≡ suc (length es) = omega (arith, length-append es (e ∷ [])) in
    rw more (find_last-snoc (has_id e.id) es e ((==_iff e.id e.id).1 refl))

-- The id that StartExecution returns leads to the entry that it added.
pub get_by_id-start_execution :
    (now : ℕ) (triggered : String) (h : ExecutionHistory)
    → let (h', id) = start_execution now triggered h in
      get_by_id id h' ≡ some (started now triggered h)
unfolding get_by_id start_execution
get_by_id-start_execution now triggered h =
    let e = started now triggered h in
    let kept = if leb h.max_size (length h.entries) then drop 1 h.entries else h.entries in
    ap (λ o. fetch o (kept ++ e ∷ [])) (index_of-snoc kept e) ∙ get_elem?-snoc kept e

one_entry :
    (es : List ExecutionEntry) (i k : ℕ) {x y : ExecutionEntry}
    → i ≡ k
    → get_elem? es i ≡ some x
    → get_elem? es k ≡ some y
    → x.id ≡ y.id
one_entry es i k {x} {y} here at_i at_k =
    let same : x ≡ y = cc in ap (λ (e : ExecutionEntry). e.id) same

module _ (now : ℕ) (exit_code : ℤ) (success : Bool) (error : String) where
  index_of-modify_at :
      (id i : ℕ) (es : List ExecutionEntry)
      → index_of id (modify_at i (finish now exit_code success error) es) ≡ index_of id es
  unfolding index_of finish
  index_of-modify_at id i es = rw (length-modify_at i (finish now exit_code success error) es) (
      find_last-modify_at (has_id id) (finish now exit_code success error) i (length es) es
        (λ x. refl))

  -- What EndExecution leaves to be found under an id.
  abbrev pub after_end : ℕ → ℕ → Option ExecutionEntry → Option ExecutionEntry
  after_end id j none = none
  after_end id j (some e) = if id == j then some (finish now exit_code success error e) else some e

  entry_at :
      (id : ℕ) (es : List ExecutionEntry) {i : ℕ}
      → index_of id es ≡ some i
      → (x : ExecutionEntry) × (get_elem? es i ≡ some x) × (x.id ≡ id)
  unfolding index_of
  entry_at id es found =
      let (x, at, has) = find_last_sound (has_id id) (length es) es found in
      (x, at, (==_iff x.id id).0 has)

  after_end_ne : (id j : ℕ) (o : Option ExecutionEntry) → id ≢ j → after_end id j o ≡ o
  after_end_ne id j none apart = refl
  after_end_ne id j (some e) apart = ground (arith, ==_iff id j)

  after_end_self :
      (id : ℕ) (o : Option ExecutionEntry) {x : ExecutionEntry}
      → o ≡ some x
      → after_end id id o ≡ some (finish now exit_code success error x)
  after_end_self id o e = rw (e, (==_iff id id).1 refl)

  -- The search for `id` finds nothing new after a write at index i.
  fetch-write_at :
      (id j i : ℕ) (es : List ExecutionEntry)
      → index_of id es ≡ some i
      → (o : Option ℕ) → index_of j es ≡ o
      → fetch o (modify_at i (finish now exit_code success error) es) ≡ after_end id j (fetch o es)
  fetch-write_at id j i es found none e = refl
  fetch-write_at id j i es found (some k) e =
      let f = finish now exit_code success error in
      let (x, at_i, has_id) = entry_at id es found in
      let (y, at_k, has_j) = entry_at j es e in
      elim (ℕ_discrete id j) [
        | yes same ↦
            let here : i ≡ k = some_inj (sym found ∙ ap (λ n. index_of n es) same ∙ e) in
            subst (λ n. get_elem? (modify_at i f es) n ≡ after_end id j (get_elem? es n)) here
              (get_elem?-modify_at_self i f es at_i
                ∙ subst (λ n. some (f x) ≡ after_end id n (get_elem? es i)) same
                    (sym (after_end_self id (get_elem? es i) at_i)))
        | no apart ↦
            get_elem?-modify_at_ne i k f es
              (λ here. apart (sym has_id ∙ one_entry es i k here at_i at_k ∙ has_j))
            ∙ sym (after_end_ne id j (get_elem? es k) apart)
      ]

  -- EndExecution changes the entry with its id, and no other.
  pub get_by_id-end_execution :
      (id j : ℕ) (h : ExecutionHistory)
      → get_by_id j (end_execution now id exit_code success error h)
        ≡ after_end id j (get_by_id j h)
  unfolding get_by_id end_execution
  get_by_id-end_execution id j h = elim (Option-cases (index_of id h.entries)) [
    | inl absent ↦ rw absent (not_there absent)
    | inr (i, found) ↦
        rw (found, index_of-modify_at j i h.entries)
          (fetch-write_at id j i h.entries found (index_of j h.entries) refl)
  ]
    where
      not_there :
          index_of id h.entries ≡ none
          → fetch (index_of j h.entries) h.entries
            ≡ after_end id j (fetch (index_of j h.entries) h.entries)
      not_there absent = elim (ℕ_discrete id j) [
        | yes same ↦
            let gone : index_of j h.entries ≡ none =
              subst (λ n. index_of n h.entries ≡ none) same absent in
            rw gone
        | no apart ↦ sym (after_end_ne id j (fetch (index_of j h.entries) h.entries) apart)
      ]
