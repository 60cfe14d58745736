-- ===== src/Deps/Topological/Invariant.antt =====
-- What holds of the degrees, the queue and the result of Kahn's algorithm between two rounds.
use phpeek_pm.Prelude.{
  ℕ, zero, suc, ◌+◌, ◌-◌, ◌≤◌, ◌<◌, ◌≡◌, ◌≢◌, refl, sym, ap, ◌∙◌, arith, Bool, true, false, List,
  [], ◌∷◌, ◌++◌, String, eq_refl, Bool-cases, Option-cases, inl, inr, length, Option, none, some,
  lookup, ℤ, pos, negsuc, ◌+ℤ◌, sub_ℕ,
}
use phpeek_pm.Deps.{Graph, contains, dependencies}
use phpeek_pm.Deps.Topological.{is_zero, in_degrees, ready_nodes, Kahn, relax, sort_alphabetically}
use phpeek_pm.Deps.Topological.Counts.{
  one_if, count, IsDistinct, count-append, hits, hits-append, hits-le-length, all_hit,
}
use phpeek_pm.Deps.Topological.Sorting.{count-sort_alphabetically}
use phpeek_pm.Deps.Topological.Degrees.{
  IsMap, ready, lowered, newly, in_degrees_lem, count-ready_nodes, relax-degree, relax-queue,
}

-- Each name of `xs` stands after all its dependencies; `done` is what stands before `xs`.
abbrev pub OrderedAfter : Graph → List String → List String → Type 0
OrderedAfter g done [] = Unit {0}
OrderedAfter g done (x ∷ xs) =
    ((d : String) → contains (dependencies x g) d ≡ true → 0 < count d done)
    × OrderedAfter g (x ∷ done) xs

OrderedAfter-snoc :
    (g : Graph) (done xs : List String) (x : String)
    → OrderedAfter g done xs
    → ((d : String) → contains (dependencies x g) d ≡ true → 0 < count d done + count d xs)
    → OrderedAfter g done (xs ++ x ∷ [])
OrderedAfter-snoc g done [] x o h = (λ d c. omega (arith, h d c), tt)
OrderedAfter-snoc g done (y ∷ xs) x o h =
    (o.0, OrderedAfter-snoc g (y ∷ done) xs x o.1 (λ d c. omega (arith, h d c)))

pub record Invariant (g : Graph) (degree : String → ℤ) (queue result : List String) : Type 0 where
  -- A degree counts the dependencies that are not in the result.
  pub degrees :
      (x : String) (ds : List String)
      → lookup x g ≡ some ds
      → degree x ≡ sub_ℕ (length ds) (hits ds result)
  -- A node stands in the queue or in the result, once, if and only if its degree is zero.
  pub places : (x : String) → count x queue + count x result ≡ ready (lookup x g) (degree x)
  pub ordered : OrderedAfter g [] result

one_if-le : (b : Bool) → one_if b ≤ 1
one_if-le true = omega arith
one_if-le false = omega arith

pub ready-le : (o : Option (List String)) (z : ℤ) → ready o z ≤ 1
ready-le none z = omega arith
ready-le (some ds) z = one_if-le (is_zero z)

module _ {g : Graph} {degree : String → ℤ} {queue result : List String}
    (inv : Invariant g degree queue result) where
  pub Invariant-IsDistinct : IsDistinct result
  Invariant-IsDistinct x = omega (arith, inv.places x, ready-le (lookup x g) (degree x))

pos_is_zero : (n : ℕ) → is_zero (pos n) ≡ true → n ≡ 0
pos_is_zero zero h = refl
pos_is_zero (suc n) h = cc

is_zero_pos : (z : ℤ) → is_zero z ≡ true → z ≡ pos 0
is_zero_pos (pos zero) h = refl
is_zero_pos (pos (suc n)) h = cc
is_zero_pos (negsuc n) h = cc

sub-pos : (a b : ℕ) → b ≤ a → sub_ℕ a b ≡ pos (a - b)
sub-pos a b h = ground arith

pub sub-zero : (a b : ℕ) → b ≤ a → is_zero (sub_ℕ a b) ≡ true → b ≡ a
sub-zero a b h z = omega (arith, pos_is_zero (a - b) (ap is_zero (sym (sub-pos a b h)) ∙ z))

sub-suc : (a b c : ℕ) → c ≡ b + 1 → sub_ℕ a b +ℤ negsuc 0 ≡ sub_ℕ a c
unfolding ◌+ℤ◌
sub-suc a b c h = ground arith

sub-none : (n : ℕ) → pos n ≡ sub_ℕ n 0
sub-none n = ground arith

count_self : (x : String) (xs : List String) → count x (x ∷ xs) ≡ 1 + count x xs
count_self x xs = ground (arith, eq_refl x)

pub Invariant-initial :
    (g : Graph)
    → IsMap g
    → Invariant g (in_degrees g) (sort_alphabetically (ready_nodes (in_degrees g) g)) []
Invariant-initial g map = record {
  degrees = λ x ds h. in_degrees_lem x g ∙ rw h (sub-none (length ds));
  places = λ x. omega (
    arith,
    count-sort_alphabetically x (ready_nodes (in_degrees g) g),
    count-ready_nodes x (in_degrees g) g map,
  );
  ordered = tt;
}

module _ {g : Graph} {degree : String → ℤ} {node : String} {queue result : List String}
    (inv : Invariant g degree (node ∷ queue) result) where
  -- The popped node is a node of the graph, its dependencies are in the result, and it is not.
  pub Invariant-popped_absent : count node result ≡ 0
  Invariant-popped_absent =
      omega (arith, count_self node queue, inv.places node, ready-le (lookup node g) (degree node))

  popped_ready : 0 < ready (lookup node g) (degree node)
  popped_ready = omega (arith, count_self node queue, inv.places node, Invariant-popped_absent)

  pub Invariant-popped_node : lookup node g ≢ none
  Invariant-popped_node h = positive (rw h at popped_ready)
    where
      positive : 0 < 0 → ⊥
      positive p = omega arith

  -- A node of degree zero has its dependencies in the result.
  all_done :
      (x : String) (ds : List String)
      → lookup x g ≡ some ds
      → is_zero (degree x) ≡ true
      → hits ds result ≡ length ds
  all_done x ds found z =
      sub-zero (length ds) (hits ds result) (hits-le-length ds result (Invariant-IsDistinct inv))
        (ap is_zero (sym (inv.degrees x ds found)) ∙ z)

  dependencies_done : (d : String) → contains (dependencies node g) d ≡ true → 0 < count d result
  unfolding dependencies
  dependencies_done d c = elim (Option-cases (lookup node g)) [
    | inl absent ↦ absurd (Invariant-popped_node absent)
    | inr found ↦
        let zero_degree : is_zero (degree node) ≡ true =
          positive (is_zero (degree node)) (rw (found.1) at popped_ready) in
        all_hit (found.0) result d (Invariant-IsDistinct inv)
          (all_done node (found.0) (found.1) zero_degree) (opened (found.0) (found.1) c)
  ]
    where
      opened :
          (ds : List String)
          → lookup node g ≡ some ds
          → contains (dependencies node g) d ≡ true
          → contains ds d ≡ true
      opened ds found c = rw (found, dependencies) at c

      positive : (b : Bool) → 0 < one_if b → b ≡ true
      positive true p = refl
      positive false p = absurd (omega arith)

  -- A node that waits for the popped one has a degree above zero.
  waits :
      (x : String) (ds : List String)
      → lookup x g ≡ some ds
      → contains ds node ≡ true
      → is_zero (degree x) ≡ false
  waits x ds found c = elim (Bool-cases (is_zero (degree x))) [
    | inl z ↦ absurd (
        clash (all_hit ds result node (Invariant-IsDistinct inv) (all_done x ds found z) c)
          Invariant-popped_absent)
    | inr nz ↦ nz
  ]
    where
      clash : {n : ℕ} → 0 < n → n ≡ 0 → ⊥
      clash p e = omega arith

  next-places :
      (x : String)
      → ready (lookup x g) (degree x) + newly node (lookup x g) (degree x)
        ≡ ready (lookup x g) (lowered node (lookup x g) (degree x))
  next-places x = elim (Option-cases (lookup x g)) [
    | inl absent ↦ rw absent refl
    | inr found ↦ rw (found.1) (elim (Bool-cases (contains (found.0) node)) [
      | inl hit ↦ rw (hit, waits x (found.0) (found.1) hit) (omega arith)
      | inr miss ↦ rw miss (omega arith)
    ])
  ]

  next-degrees :
      (x : String) (ds : List String)
      → lookup x g ≡ some ds
      → lowered node (lookup x g) (degree x) ≡ sub_ℕ (length ds) (hits ds (result ++ node ∷ []))
  next-degrees x ds found =
      rw (found, inv.degrees x ds found)
        (elim (Bool-cases (contains ds node)) [
          | inl hit ↦
              rw hit (
                sub-suc (length ds) (hits ds result) (hits ds (result ++ node ∷ [])) (one_more hit))
          | inr miss ↦ rw miss (ap (sub_ℕ (length ds)) (same miss))
        ])
    where
      one_more : contains ds node ≡ true → hits ds (result ++ node ∷ []) ≡ hits ds result + 1
      one_more hit = ground (arith, hits-append ds result (node ∷ []), hit)

      same : contains ds node ≡ false → hits ds result ≡ hits ds (result ++ node ∷ [])
      same miss = ground (arith, hits-append ds result (node ∷ []), miss)

  pub Invariant-next :
      IsMap g
      → Invariant g
          (relax node g (record { in_degree = degree; queue = queue })).in_degree
          (relax node g (record { in_degree = degree; queue = queue })).queue
          (result ++ node ∷ [])
  Invariant-next map =
      let k : Kahn = record { in_degree = degree; queue = queue } in
      record {
        degrees = λ x ds found. relax-degree node x g k map ∙ next-degrees x ds found;
        places = λ x. rw (relax-degree node x g k map) (
            omega (
              arith,
              relax-queue node x g k map,
              count-append x result (node ∷ []),
              inv.places x,
              next-places x,
            ));
        ordered =
            OrderedAfter-snoc g [] result node inv.ordered
              (λ d c. omega (arith, dependencies_done d c));
      }
