-- ===== src/Deps/Topological/Sound.antt =====
-- What TopologicalSort returns: every node once, after its dependencies.
use phpeek_pm.Prelude.{
  ℕ, zero, suc, ◌+◌, ◌≤◌, ◌<◌, ◌≡◌, ◌≢◌, refl, sym, ap, ◌∙◌, arith, subst, Bool, true, false,
  if◌then◌else◌, List, [], ◌∷◌, ◌++◌, String, str_eq, eq_refl, Bool-cases, Option-cases, some_inj,
  inl, inr, length, length-append, Option, none, some, lookup, keys, ℤ, ◌==◌, ==_iff,
}
use phpeek_pm.Deps.{
  Graph, contains, validate, Found, no_cycle, cycle, no_fuel, has_cycle, ok, err, out_of_fuel,
  GraphError, incomplete,
}
use phpeek_pm.Deps.Topological.{is_zero, drain, kahn, check_complete, topological_sort, sort_after}
use phpeek_pm.Deps.Topological.Counts.{
  one_if, count, hits, hits-le-length, all_hit, hits-lt-length, no_duplicates, contains-count,
  count-contains, zero_cases,
}
use phpeek_pm.Deps.Topological.Degrees.{IsMap, ready}
use phpeek_pm.Deps.Topological.Invariant.{
  OrderedAfter, Invariant, Invariant-IsDistinct, Invariant-initial, Invariant-next, sub-zero,
}

-- The state in which the algorithm stops.
pub record Stopped (g : Graph) (result : List String) : Type 0 where
  pub degree : String → ℤ
  pub invariant : Invariant g degree [] result

pub contains-keys : (x : String) (g : Graph) → lookup x g ≢ none → contains (keys g) x ≡ true
unfolding lookup contains
contains-keys x [] h = absurd (h refl)
contains-keys x ((node, deps) ∷ g) h = elim (Bool-cases (str_eq node x)) [
  | inl same ↦ rw same refl
  | inr other ↦ rw other (contains-keys x g (rw other at h))
]

pub lookup-keys : (x : String) (g : Graph) → contains (keys g) x ≡ true → lookup x g ≢ none
unfolding lookup contains
lookup-keys x [] h e = cc
lookup-keys x ((node, deps) ∷ g) h e = ground (arith, lookup-keys x g)

pub length-keys : (g : Graph) → length (keys g) ≡ length g
length-keys [] = refl
length-keys ((node, deps) ∷ g) = omega (arith, length-keys g)

-- If all of `rs` are among `ds`, all of them hit.
pub hits_full :
    (ds rs : List String)
    → ((x : String) → 0 < count x rs → contains ds x ≡ true)
    → hits ds rs ≡ length rs
hits_full ds [] h = refl
hits_full ds (r ∷ rs) h =
    rw (h r (here r rs)) (omega (arith, hits_full ds rs (λ x c. h x (omega (arith, c)))))
  where
    here : (r : String) (rs : List String) → 0 < count r (r ∷ rs)
    here r rs = ground (arith, eq_refl r)

pub result_in_keys :
    {g : Graph} {degree : String → ℤ} {queue result : List String}
    → Invariant g degree queue result
    → (x : String) → 0 < count x result
    → contains (keys g) x ≡ true
result_in_keys {g} {degree} {queue} {result} inv x c =
    contains-keys x g (λ absent. none_there absent (inv.places x))
  where
    none_there :
        lookup x g ≡ none → count x queue + count x result ≡ ready (lookup x g) (degree x) → ⊥
    none_there absent e = let e' = rw absent at e in omega (arith, e', c)

pub result-le-length :
    {g : Graph} {degree : String → ℤ} {queue result : List String}
    → Invariant g degree queue result
    → length result ≤ length g
result-le-length {g} {degree} {queue} {result} inv = omega (
  arith,
  length-keys g,
  hits_full (keys g) result (result_in_keys inv),
  hits-le-length (keys g) result (Invariant-IsDistinct inv),
)

popped-lt-length :
    {g : Graph} {degree : String → ℤ} {node : String} {queue result : List String}
    → IsMap g
    → Invariant g degree (node ∷ queue) result
    → length result < length g
popped-lt-length {g} {node = node} {result = result} map inv =
    omega (arith, result-le-length (Invariant-next inv map), length-append result (node ∷ []))

-- With as much fuel as there are nodes left, the loop ends.
drain_ends :
    (g : Graph) (fuel : ℕ) (degree : String → ℤ) (queue result : List String)
    → IsMap g
    → Invariant g degree queue result
    → length g ≤ fuel + length result
    → (order : List String) × (drain g fuel degree queue result ≡ some order) × Stopped g order
unfolding drain
drain_ends g fuel degree [] result map inv enough =
    (result, refl, record { degree = degree; invariant = inv })
drain_ends g zero degree (node ∷ queue) result map inv enough =
    absurd (omega (arith, popped-lt-length map inv))
drain_ends g (suc fuel) degree (node ∷ queue) result map inv enough =
    drain_ends g fuel _ _ (result ++ node ∷ []) map (Invariant-next inv map)
      (omega (arith, length-append result (node ∷ [])))

pub kahn_ends :
    (g : Graph) → IsMap g → (order : List String) × (kahn g ≡ some order) × Stopped g order
unfolding kahn
kahn_ends g map = drain_ends g (length g) _ _ [] map (Invariant-initial g map) (omega arith)

pub stopped : (g : Graph) (order : List String) → IsMap g → kahn g ≡ some order → Stopped g order
stopped g order map h =
    let ends = kahn_ends g map in subst (Stopped g) (some_inj (sym ends.1 ∙ h)) ends.2

ok_inj : {xs ys : List String} → ok xs ≡ ok ys → xs ≡ ys
ok_inj {xs} h = ap (λ r. elim r [ ok ys ↦ ys | err e ↦ xs | out_of_fuel ↦ xs ]) h

-- The tests that a result has passed.
pub sorted_by :
    (g : Graph) (order : List String)
    → topological_sort g ≡ ok order
    → (kahn g ≡ some order) × (length order ≡ length g)
unfolding topological_sort sort_after check_complete
sorted_by g order h = elim (Option-cases (validate g)) [
  | inl valid ↦ from_cycle (has_cycle g) (rw (valid, topological_sort) at h)
  | inr invalid ↦ absurd (never (rw (invalid.1, topological_sort) at h))
]
  where
    never : {e : GraphError} → err e ≡ ok order → ⊥
    never h = cc

    from_length :
        (b : Bool) (result : List String)
        → (if b then ok result else err incomplete) ≡ ok order
        → (b ≡ true) × (result ≡ order)
    from_length true result h = (refl, ok_inj h)
    from_length false result h = cc

    from_kahn :
        (k : Option (List String))
        → check_complete g k ≡ ok order
        → (k ≡ some order) × (length order ≡ length g)
    from_kahn none h = cc
    from_kahn (some result) h =
        let same = from_length (length result == length g) result h in
        (ap some same.1, ap length (sym same.1) ∙ (==_iff (length result) (length g)).0 same.0)

    from_cycle :
        (f : Found) → sort_after g f ≡ ok order → (kahn g ≡ some order) × (length order ≡ length g)
    from_cycle (no_cycle s) h = from_kahn (kahn g) h
    from_cycle (cycle path) h = cc
    from_cycle no_fuel h = cc

not_there : (n : ℕ) {b : Bool} → b ≡ false → (0 < n → b ≡ true) → n ≡ 0
not_there n without h = elim (zero_cases n) [ inl e ↦ e | inr p ↦ absurd (clash without (h p)) ]
  where
    clash : {b : Bool} → b ≡ false → b ≡ true → ⊥
    clash e f = cc

-- The names of a result that is as long as the graph are those of the graph.
stopped_all :
    (g : Graph) (order : List String)
    → IsMap g
    → Stopped g order
    → length order ≡ length g
    → (x : String) → count x order ≡ count x (keys g)
stopped_all g order map stop full x = elim (Bool-cases (contains (keys g) x)) [
  | inl within ↦
      let all =
        all_hit (keys g) order x (Invariant-IsDistinct stop.invariant)
          (hits_full (keys g) order (result_in_keys stop.invariant) ∙ full ∙ sym (length-keys g))
          within in
      omega
        (arith, all, Invariant-IsDistinct stop.invariant x, map x, contains-count (keys g) x within)
  | inr without ↦
      let order_zero = not_there (count x order) without (result_in_keys stop.invariant x) in
      omega (arith, order_zero, not_there (count x (keys g)) without (count-contains (keys g) x))
]

-- A result of TopologicalSort has each node of the graph exactly once, and every node stands after
-- all the nodes that it depends on.
pub topological_sort_sound :
    (g : Graph) (order : List String)
    → IsMap g
    → topological_sort g ≡ ok order
    → ((x : String) → count x order ≡ count x (keys g)) × OrderedAfter g [] order
topological_sort_sound g order map h =
    let stop = stopped g order map (sorted_by g order h).0 in
    (stopped_all g order map stop (sorted_by g order h).1, stop.invariant.ordered)

-- If a process names a dependency twice, TopologicalSort never succeeds: it subtracts one from the
-- in-degree for the two, which therefore never becomes zero.
pub topological_sort_duplicate :
    (g : Graph) (order : List String) (x : String) (ds : List String)
    → IsMap g
    → lookup x g ≡ some ds
    → no_duplicates ds ≡ false
    → topological_sort g ≢ ok order
topological_sort_duplicate g order x ds map found twice h =
    let stop = stopped g order map (sorted_by g order h).0 in
    let inv = stop.invariant in
    let all = stopped_all g order map stop (sorted_by g order h).1 x in
    let key : 0 < count x (keys g) =
      contains-count (keys g) x (contains-keys x g (λ absent. clash absent found)) in
    let fewer = hits-lt-length ds order twice (Invariant-IsDistinct inv) in
    not_ready (is_zero (stop.degree x)) (ready_eq (stop.degree x) (inv.places x))
      (omega (arith, all, key)) fewer
      (λ z.
        sub-zero (length ds) (hits ds order) (hits-le-length ds order (Invariant-IsDistinct inv))
          (ap is_zero (sym (inv.degrees x ds found)) ∙ z))
  where
    clash : lookup x g ≡ none → lookup x g ≡ some ds → ⊥
    clash e f = cc

    ready_eq :
        (z : ℤ) → 0 + count x order ≡ ready (lookup x g) z → count x order ≡ one_if (is_zero z)
    ready_eq z e = let e' = rw found at e in omega (arith, e')

    not_ready : {n a b : ℕ} (z : Bool) → n ≡ one_if z → 0 < n → a < b → (z ≡ true → a ≡ b) → ⊥
    not_ready true e p l f = omega (arith, f refl, e, p, l)
    not_ready false e p l f = omega (arith, e, p)
