-- ===== src/Oneshot/Completion.antt =====
-- Complete and its effect on the executions.
use phpeek_pm.Prelude.{
  ℕ, zero, suc, ◌+◌, ◌≤◌, ◌≡◌, refl, sym, ap, ◌∙◌, List, [], ◌∷◌, ◌++◌, arith, Bool, true, false,
  if◌then◌else◌, Bool-cases, Option-cases, inl, inr, ℤ, String, length, drop, Option, none, some,
  get_elem?, ◌==◌, ==_iff, find_last, modify_at, find_last_sound, find_last-none, lt_of_get_elem?,
  get_elem?-modify_at_self, get_elem?-modify_at_ne, ℕ_discrete, subst, some_inj,
}
use phpeek_pm.Oneshot.{
  OneshotExecution, OneshotHistory, finish, has_id, write_at, complete, record_execution, recorded,
  evict,
}

-- The ids ascend from at least `lo` and lie below `next`.
abbrev pub IdsBetween : ℕ → ℕ → List OneshotExecution → Type 0
IdsBetween lo next [] = lo ≤ next
IdsBetween lo next (e ∷ es) = (lo ≤ e.id) × IdsBetween (suc e.id) next es

abbrev pub HasAscendingIds : OneshotHistory → Type 0
HasAscendingIds h = IdsBetween 0 h.next_id h.entries

ids_from :
    (lo lo' next : ℕ) (es : List OneshotExecution)
    → lo' ≤ lo
    → IdsBetween lo next es
    → IdsBetween lo' next es
ids_from lo lo' next [] le h = omega arith
ids_from lo lo' next (e ∷ es) le h = (omega (arith, h.0), h.1)

ids_drop :
    (k lo next : ℕ) (es : List OneshotExecution)
    → IdsBetween lo next es
    → IdsBetween lo next (drop k es)
ids_drop zero lo next es h = h
ids_drop (suc k) lo next [] h = h
ids_drop (suc k) lo next (e ∷ es) h =
    ids_from (suc e.id) lo next (drop k es) (omega (arith, h.0)) (ids_drop k (suc e.id) next es h.1)

ids_snoc :
    (lo next : ℕ) (es : List OneshotExecution) (e : OneshotExecution)
    → e.id ≡ next
    → IdsBetween lo next es
    → IdsBetween lo (next + 1) (es ++ e ∷ [])
ids_snoc lo next [] e at h = (omega (arith, h, at), omega (arith, at))
ids_snoc lo next (x ∷ es) e at h = (h.0, ids_snoc (suc x.id) next es e at h.1)

ids_modify :
    (i lo next : ℕ) (f : OneshotExecution → OneshotExecution) (es : List OneshotExecution)
    → ((e : OneshotExecution) → (f e).id ≡ e.id)
    → IdsBetween lo next es
    → IdsBetween lo next (modify_at i f es)
ids_modify i lo next f [] same h = h
ids_modify zero lo next f (e ∷ es) same h =
    (omega (arith, h.0, same e), subst (λ n. IdsBetween (suc n) next es) (sym (same e)) h.1)
ids_modify (suc i) lo next f (e ∷ es) same h = (h.0, ids_modify i (suc e.id) next f es same h.1)

id-ge :
    (lo next i : ℕ) (es : List OneshotExecution) {x : OneshotExecution}
    → IdsBetween lo next es
    → get_elem? es i ≡ some x
    → lo ≤ x.id
id-ge lo next i [] h at = cc
id-ge lo next zero (e ∷ es) h at =
    omega (arith, h.0, ap (λ (x : OneshotExecution). x.id) (some_inj at))
id-ge lo next (suc i) (e ∷ es) h at = omega (arith, h.0, id-ge (suc e.id) next i es h.1 at)

-- An id stands at one index.
one_index :
    (lo next i j : ℕ) (es : List OneshotExecution) {x y : OneshotExecution}
    → IdsBetween lo next es
    → get_elem? es i ≡ some x
    → get_elem? es j ≡ some y
    → x.id ≡ y.id
    → i ≡ j
one_index lo next i j [] h a b e = cc
one_index lo next zero zero (z ∷ es) h a b e = refl
one_index lo next zero (suc j) (z ∷ es) h a b e = absurd (
    omega (
      arith,
      e,
      id-ge (suc z.id) next j es h.1 b,
      ap (λ (x : OneshotExecution). x.id) (some_inj a),
    ))
one_index lo next (suc i) zero (z ∷ es) h a b e = absurd (
    omega (
      arith,
      e,
      id-ge (suc z.id) next i es h.1 a,
      ap (λ (x : OneshotExecution). x.id) (some_inj b),
    ))
one_index lo next (suc i) (suc j) (z ∷ es) h a b e =
    ap suc (one_index (suc z.id) next i j es h.1 a b e)

evict-HasAscendingIds :
    (now : ℕ) (h : OneshotHistory) → HasAscendingIds h → HasAscendingIds (evict now h)
unfolding evict
evict-HasAscendingIds now h asc = kept _ _
  where
    kept :
        (b : Bool) (k : ℕ)
        → HasAscendingIds (if b then record h { entries = drop k h.entries } else h)
    kept true k = ids_drop k 0 h.next_id h.entries asc
    kept false k = asc

-- Record and Complete keep the ids of the history ascending, and below the next one.
pub oneshot_history-HasAscendingIds :
    (h : OneshotHistory)
    → HasAscendingIds h
    → ((now later : ℕ) (process_name instance_id trigger_type : String)
        → HasAscendingIds (record_execution now later process_name instance_id trigger_type h).0)
      × ((now id : ℕ) (exit_code : ℤ) (err : Option String)
          → HasAscendingIds (complete now id exit_code err h))
unfolding record_execution evict complete finish
oneshot_history-HasAscendingIds h asc = (
  λ now later p i t.
      let e = recorded now p i t h in
      evict-HasAscendingIds later
        (record h { entries = h.entries ++ e ∷ []; next_id = h.next_id + 1 })
        (ids_snoc 0 h.next_id h.entries e refl asc),
  λ now id code err.
      written (finish now code err) (find_last (has_id id) (length h.entries) h.entries)
        (λ e. refl),
)
  where
    written :
        (f : OneshotExecution → OneshotExecution) (o : Option ℕ)
        → ((e : OneshotExecution) → (f e).id ≡ e.id)
        → IdsBetween 0 h.next_id (write_at o f h.entries)
    written f none same = asc
    written f (some i) same = ids_modify i 0 h.next_id f h.entries same asc

module _ (now id : ℕ) (exit_code : ℤ) (err : Option String) where
  -- What Complete makes of an execution.
  abbrev pub completed : Option OneshotExecution → Option OneshotExecution
  completed none = none
  completed (some e) = if e.id == id then some (finish now exit_code err e) else some e

  -- Complete writes into the execution with the id, wherever it stands, and into no other.
  complete_lem :
      (h : OneshotHistory) (i : ℕ)
      → HasAscendingIds h
      → get_elem? (complete now id exit_code err h).entries i ≡ completed (get_elem? h.entries i)
  unfolding complete
  complete_lem h i asc = elim (Option-cases (find_last (has_id id) (length h.entries) h.entries)) [
    | inl absent ↦ rw absent (
        sym (
          untouched (get_elem? h.entries i) refl (λ x at.
            find_last-none (has_id id) (length h.entries) i h.entries absent
              (lt_of_get_elem? h.entries i at) at)))
    | inr found ↦
        let f = finish now exit_code err in
        let (x, at, has) = find_last_sound (has_id id) (length h.entries) h.entries found.1 in
        rw (found.1) (elim (ℕ_discrete found.0 i) [
          | yes same ↦
              subst
                (λ n.
                  get_elem? (modify_at found.0 f h.entries) n ≡ completed (get_elem? h.entries n))
                same (get_elem?-modify_at_self found.0 f h.entries at ∙ rw (at, has) refl)
          | no apart ↦
              get_elem?-modify_at_ne found.0 i f h.entries apart
              ∙ sym (
                  untouched (get_elem? h.entries i) refl (λ y at_i.
                    elim (Bool-cases (has_id id y)) [
                      | inl hit ↦ absurd (
                          apart (
                            one_index 0 h.next_id found.0 i h.entries asc at at_i
                              ((==_iff x.id id).0 has ∙ sym ((==_iff y.id id).0 hit))))
                      | inr miss ↦ miss
                    ]))
        ])
  ]
    where
      untouched :
          (o : Option OneshotExecution)
          → get_elem? h.entries i ≡ o
          → ((x : OneshotExecution) → get_elem? h.entries i ≡ some x → has_id id x ≡ false)
          → completed o ≡ o
      untouched none e no_id = refl
      untouched (some x) e no_id = rw (no_id x e) refl
