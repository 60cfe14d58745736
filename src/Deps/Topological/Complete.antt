-- ===== src/Deps/Topological/Complete.antt =====
-- On a valid graph without cycles the sort finds a place for every node.
use phpeek_pm.Prelude.{
  ℕ, zero, suc, ◌≤◌, ◌<◌, ◌≡◌, ◌≢◌, refl, ◌∙◌, arith, subst, true, false, List, [], ◌∷◌, String,
  str_eq, eq_refl, eq_iff, Bool-cases, Option-cases, some_inj, inl, inr, length, Option, none, some,
  lookup, keys, pos, sub_ℕ, ==_iff,
}
use phpeek_pm.Deps.{Graph, GraphError, contains, validate, validate_nodes, validate_deps, ok}
use phpeek_pm.Deps.Topological.{kahn, check_complete}
use phpeek_pm.Deps.Topological.Counts.{
  count, IsDistinct, hits, hits-le-length, hits_all, no_duplicates, contains-count,
}
use phpeek_pm.Deps.Topological.Degrees.{IsMap, ready}
use phpeek_pm.Deps.Topological.Invariant.{Invariant-IsDistinct}
use phpeek_pm.Deps.Topological.Sound.{
  Stopped, kahn_ends, hits_full, result_in_keys, result-le-length, length-keys, lookup-keys,
}

-- Every dependency has a lower rank than the node that has it: there is no cycle.
abbrev pub IsRanked : Graph → (String → ℕ) → Type 0
IsRanked g rank =
    (x : String) (ds : List String) (d : String)
    → lookup x g ≡ some ds
    → contains ds d ≡ true
    → rank d < rank x

abbrev pub HasNoDuplicates : Graph → Type 0
HasNoDuplicates g = (x : String) (ds : List String) → lookup x g ≡ some ds → no_duplicates ds ≡ true

validate_deps_lem :
    (g : Graph) (name : String) (ds : List String) (d : String)
    → validate_deps g name ds ≡ none
    → contains ds d ≡ true
    → (lookup d g ≢ none) × (str_eq d name ≡ false)
unfolding validate_deps contains
validate_deps_lem g name [] d valid c = cc
validate_deps_lem g name (e ∷ ds) d valid c = elim (Option-cases (lookup e g)) [
  | inl absent ↦ absurd (never (rw (absent, validate_deps) at valid))
  | inr there ↦ elim (Bool-cases (str_eq e name)) [
    | inl own ↦ absurd (never (rw (there.1, own, validate_deps) at valid))
    | inr other ↦ elim (Bool-cases (str_eq e d)) [
      | inl same ↦
          subst (λ n. (lookup n g ≢ none) × (str_eq n name ≡ false)) ((eq_iff e d).0 same)
            ((λ absent. clash absent (there.1)), other)
      | inr further ↦
          validate_deps_lem g name ds d (rw (there.1, other, validate_deps) at valid)
            (rw further at c)
    ]
  ]
]
  where
    never : {e : GraphError} → some e ≡ none → ⊥
    never h = cc

    clash : {o : Option (List String)} {v : List String} → o ≡ none → o ≡ some v → ⊥
    clash e f = cc

validate_nodes_lem :
    (g nodes : Graph) (x : String) (ds : List String)
    → validate_nodes g nodes ≡ none
    → lookup x nodes ≡ some ds
    → validate_deps g x ds ≡ none
unfolding validate_nodes lookup
validate_nodes_lem g [] x ds valid found = cc
validate_nodes_lem g ((node, deps) ∷ nodes) x ds valid found =
    elim (Option-cases (validate_deps g node deps)) [
      | inl first ↦ elim (Bool-cases (str_eq node x)) [
        | inl same ↦
            subst (λ n. validate_deps g n ds ≡ none) ((eq_iff node x).0 same)
              (subst (λ l. validate_deps g node l ≡ none) (some_inj (rw same at found)) first)
        | inr other ↦
            validate_nodes_lem g nodes x ds (rw (first, validate_nodes) at valid)
              (rw other at found)
      ]
      | inr bad ↦ absurd (never (rw (bad.1, validate_nodes) at valid))
    ]
  where
    never : {e : GraphError} → some e ≡ none → ⊥
    never h = cc

-- In a graph that Validate accepts, every dependency is a node and none is the node itself.
pub validate_lem :
    (g : Graph) (x : String) (ds : List String) (d : String)
    → validate g ≡ none
    → lookup x g ≡ some ds
    → contains ds d ≡ true
    → (lookup d g ≢ none) × (str_eq d x ≡ false)
unfolding validate
validate_lem g x ds d valid found c =
    validate_deps_lem g x ds d (validate_nodes_lem g g x ds valid found) c

map_unique : (xs : List String) → IsDistinct xs → no_duplicates xs ≡ true
map_unique [] h = refl
map_unique (x ∷ xs) h = elim (Bool-cases (contains xs x)) [
  | inl old ↦ absurd (clash (h x) (contains-count xs x old))
  | inr new ↦ rw new (map_unique xs (λ y. omega (arith, h y)))
]
  where
    clash : count x (x ∷ xs) ≤ 1 → 0 < count x xs → ⊥
    clash a b = ground (arith, eq_refl x)

module _ (g : Graph) (rank : String → ℕ) (order : List String) (stop : Stopped g order)
    (valid : validate g ≡ none) (unique : HasNoDuplicates g) (ranked : IsRanked g rank) where
  -- A node whose dependencies are all in the result has degree zero.
  in_result :
      (x : String) (ds : List String)
      → lookup x g ≡ some ds
      → length ds ≤ hits ds order
      → 0 < count x order
  in_result x ds found all =
      let inv = stop.invariant in
      let full : hits ds order ≡ length ds =
        omega (arith, all, hits-le-length ds order (Invariant-IsDistinct inv)) in
      let zero_degree : stop.degree x ≡ pos 0 =
        inv.degrees x ds found ∙ rw full (sub-self (length ds)) in
      let at : ready (lookup x g) (stop.degree x) ≡ 1 = rw (found, zero_degree) refl in
      omega (arith, inv.places x, at)
    where
      sub-self : (n : ℕ) → sub_ℕ n n ≡ pos 0
      sub-self n = ground arith

  placed :
      (n : ℕ) (x : String) (ds : List String)
      → rank x < n
      → lookup x g ≡ some ds
      → 0 < count x order
  placed zero x ds below found = absurd (omega arith)
  placed (suc n) x ds below found =
      let all = hits_all ds order (unique x ds found) (λ d c. elim (Option-cases (lookup d g)) [
        | inl absent ↦ absurd ((validate_lem g x ds d valid found c).0 absent)
        | inr there ↦ placed n d (there.0) (omega (arith, ranked x ds d found c)) (there.1)
      ]) in
      in_result x ds found all

  full_length : IsMap g → length order ≡ length g
  full_length map = ground (
    arith,
    result-le-length stop.invariant,
    length-keys g,
    hits_full (keys g) order (result_in_keys stop.invariant),
    hits_all (keys g) order (map_unique (keys g) map) (λ x c. elim (Option-cases (lookup x g)) [
      | inl absent ↦ absurd (lookup-keys x g c absent)
      | inr there ↦ placed (suc (rank x)) x (there.0) (omega arith) (there.1)
    ]),
  )

-- Kahn's algorithm, with the check of the length, succeeds on a graph that Validate accepts, in which
-- no process names a dependency twice and the dependencies have lower ranks than their dependents.
pub kahn_complete :
    (g : Graph) (rank : String → ℕ)
    → IsMap g
    → validate g ≡ none
    → HasNoDuplicates g
    → IsRanked g rank
    → (order : List String) × (check_complete g (kahn g) ≡ ok order)
unfolding check_complete
kahn_complete g rank map valid unique ranked =
    let ends = kahn_ends g map in
    (
      ends.0,
      rw (
        ends.1,
        (==_iff (length (ends.0)) (length g)).1
            (full_length g rank (ends.0) ends.2 valid unique ranked map),
      ),
    )
