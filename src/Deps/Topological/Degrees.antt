-- ===== src/Deps/Topological/Degrees.antt =====
-- The maps and queues of the algorithm, at one name.
use phpeek_pm.Prelude.{
  ℕ, ◌+◌, ◌≤◌, ◌≡◌, refl, sym, ap, ◌∙◌, arith, Bool, true, false, if◌then◌else◌, List, [], ◌∷◌,
  ◌++◌, String, str_eq, eq_iff, eq_refl, Bool-cases, inl, inr, length, Option, none, some, lookup,
  keys, ℤ, pos, negsuc, ◌+ℤ◌, subst,
}
use phpeek_pm.Deps.{Graph, contains}
use phpeek_pm.Deps.Topological.{
  is_zero, in_degrees, ready_nodes, Kahn, relax_one, relax, sort_alphabetically,
}
use phpeek_pm.Deps.Topological.Counts.{one_if, count, IsDistinct, count-append}
use phpeek_pm.Deps.Topological.Sorting.{count-sort_alphabetically}

-- The keys of a Go map are distinct.
abbrev pub IsMap : Graph → Type 0
IsMap g = IsDistinct (keys g)

pub IsMap-tail :
    (node : String) (deps : List String) (g : Graph) → IsMap ((node, deps) ∷ g) → IsMap g
IsMap-tail node deps g h x = omega (arith, h x)

pub lookup_absent : (x : String) (g : Graph) → count x (keys g) ≡ 0 → lookup x g ≡ none
unfolding lookup
lookup_absent x [] h = refl
lookup_absent x ((node, deps) ∷ g) h = ground (arith, lookup_absent x g)

pub lookup_tail_absent :
    (node : String) (deps : List String) (g : Graph)
    → IsMap ((node, deps) ∷ g)
    → lookup node g ≡ none
lookup_tail_absent node deps g h = one_left node g (h node)
  where
    one_left :
        (node : String) (g : Graph)
        → one_if (str_eq node node) + count node (keys g) ≤ 1
        → lookup node g ≡ none
    one_left node g one = lookup_absent node g (ground (arith, eq_refl node))

-- 1 for a node whose in-degree is zero.
abbrev pub ready : Option (List String) → ℤ → ℕ
ready none z = 0
ready (some deps) z = one_if (is_zero z)

-- A node's in-degree after a round, and whether the round puts it into the queue.
abbrev pub lowered : String → Option (List String) → ℤ → ℤ
lowered node none z = z
lowered node (some deps) z = if contains deps node then z +ℤ negsuc 0 else z

abbrev pub newly : String → Option (List String) → ℤ → ℕ
newly node none z = 0
newly node (some deps) z = if contains deps node then one_if (is_zero (z +ℤ negsuc 0)) else 0

abbrev pub initial : Option (List String) → ℤ
initial none = pos 0
initial (some deps) = pos (length deps)

pub in_degrees_lem : (x : String) (g : Graph) → in_degrees g x ≡ initial (lookup x g)
unfolding lookup in_degrees
in_degrees_lem x [] = refl
in_degrees_lem x ((node, deps) ∷ g) = ground (arith, in_degrees_lem x g)

pub count-ready_nodes :
    (x : String) (deg : String → ℤ) (g : Graph)
    → IsMap g
    → count x (ready_nodes deg g) ≡ ready (lookup x g) (deg x)
unfolding lookup ready_nodes
count-ready_nodes x deg [] h = refl
count-ready_nodes x deg ((node, deps) ∷ g) h = elim (Bool-cases (str_eq node x)) [
  | inl same ↦
      let e : node ≡ x = (eq_iff node x).0 same in
      let absent : lookup x g ≡ none =
        subst (λ n. lookup n g ≡ none) e (lookup_tail_absent node deps g h) in
      let ih : count x (ready_nodes deg g) ≡ 0 =
        count-ready_nodes x deg g (IsMap-tail node deps g h) ∙ rw absent in
      let at : deg node ≡ deg x = ap deg e in
      rw (same, at) (ready_here (is_zero (deg x)) node x (ready_nodes deg g) same ih)
  | inr other ↦
      let ih = count-ready_nodes x deg g (IsMap-tail node deps g h) in
      rw other (ready_other (is_zero (deg node)) node x (ready_nodes deg g) other ∙ ih)
]
  where
    ready_here :
        (b : Bool) (node x : String) (rest : List String)
        → str_eq node x ≡ true
        → count x rest ≡ 0
        → count x (if b then node ∷ rest else rest) ≡ one_if b
    ready_here b node x rest same absent = ground arith

    ready_other :
        (b : Bool) (node x : String) (rest : List String)
        → str_eq node x ≡ false
        → count x (if b then node ∷ rest else rest) ≡ count x rest
    ready_other b node x rest other = ground arith

relax_one-degree_here :
    (node x : String) (deps : List String) (k : Kahn)
    → (relax_one node x deps k).in_degree x ≡ lowered node (some deps) (k.in_degree x)
unfolding relax_one
relax_one-degree_here node x deps k = elim (Bool-cases (contains deps node)) [
  | inl hit ↦ rw (hit, eq_refl x)
  | inr miss ↦ rw miss
]

relax_one-degree_other :
    (node d x : String) (deps : List String) (k : Kahn)
    → str_eq d x ≡ false
    → (relax_one node d deps k).in_degree x ≡ k.in_degree x
unfolding relax_one
relax_one-degree_other node d x deps k other = elim (Bool-cases (contains deps node)) [
  | inl hit ↦ rw (hit, other)
  | inr miss ↦ rw miss
]

relax_one-queue_here :
    (node x : String) (deps : List String) (k : Kahn)
    → count x (relax_one node x deps k).queue
      ≡ count x k.queue + newly node (some deps) (k.in_degree x)
unfolding relax_one
relax_one-queue_here node x deps k = elim (Bool-cases (contains deps node)) [
  | inl hit ↦ rw hit (queue_here (is_zero (k.in_degree x +ℤ negsuc 0)) x k.queue)
  | inr miss ↦ rw miss (omega arith)
]
  where
    queue_here :
        (b : Bool) (x : String) (queue : List String)
        → count x (if b then sort_alphabetically (queue ++ x ∷ []) else queue)
          ≡ count x queue + one_if b
    queue_here b x queue = ground (
      arith,
      eq_refl x,
      count-sort_alphabetically x (queue ++ x ∷ []),
      count-append x queue (x ∷ []),
    )

relax_one-queue_other :
    (node d x : String) (deps : List String) (k : Kahn)
    → str_eq d x ≡ false
    → count x (relax_one node d deps k).queue ≡ count x k.queue
unfolding relax_one
relax_one-queue_other node d x deps k other = elim (Bool-cases (contains deps node)) [
  | inl hit ↦ rw hit (queue_other (is_zero (k.in_degree d +ℤ negsuc 0)) d x k.queue other)
  | inr miss ↦ rw miss
]
  where
    queue_other :
        (b : Bool) (d x : String) (queue : List String)
        → str_eq d x ≡ false
        → count x (if b then sort_alphabetically (queue ++ d ∷ []) else queue) ≡ count x queue
    queue_other b d x queue other =
        ground (
          arith,
          other,
          count-sort_alphabetically x (queue ++ d ∷ []),
          count-append x queue (d ∷ []),
        )

-- The inner loop lowers the degree of a name by one where the map has it with `node` as a dependency,
pub relax-degree :
    (node x : String) (g : Graph) (k : Kahn)
    → IsMap g
    → (relax node g k).in_degree x ≡ lowered node (lookup x g) (k.in_degree x)
unfolding relax lookup
relax-degree node x [] k h = refl
relax-degree node x ((d, deps) ∷ g) k h = elim (Bool-cases (str_eq d x)) [
  | inl same ↦
      let e : d ≡ x = (eq_iff d x).0 same in
      let absent : lookup x g ≡ none =
        subst (λ n. lookup n g ≡ none) e (lookup_tail_absent d deps g h) in
      let ih = relax-degree node x g (relax_one node d deps k) (IsMap-tail d deps g h) in
      rw same (
        ih
        ∙ rw absent (
            subst
              (λ n.
                (relax_one node n deps k).in_degree x ≡ lowered node (some deps) (k.in_degree x))
              (sym e) (relax_one-degree_here node x deps k)))
  | inr other ↦
      let ih = relax-degree node x g (relax_one node d deps k) (IsMap-tail d deps g h) in
      rw other (ih ∙ ap (lowered node (lookup x g)) (relax_one-degree_other node d x deps k other))
]

-- and puts it into the queue where the degree is then zero.
pub relax-queue :
    (node x : String) (g : Graph) (k : Kahn)
    → IsMap g
    → count x (relax node g k).queue ≡ count x k.queue + newly node (lookup x g) (k.in_degree x)
unfolding relax lookup
relax-queue node x [] k h = omega arith
relax-queue node x ((d, deps) ∷ g) k h = elim (Bool-cases (str_eq d x)) [
  | inl same ↦
      let e : d ≡ x = (eq_iff d x).0 same in
      let absent : lookup x g ≡ none =
        subst (λ n. lookup n g ≡ none) e (lookup_tail_absent d deps g h) in
      let ih = relax-queue node x g (relax_one node d deps k) (IsMap-tail d deps g h) in
      let here =
        subst
          (λ n.
            count x (relax_one node n deps k).queue
            ≡ count x k.queue + newly node (some deps) (k.in_degree x))
          (sym e) (relax_one-queue_here node x deps k) in
      rw same (ih ∙ rw absent (omega (arith, here)))
  | inr other ↦
      let ih = relax-queue node x g (relax_one node d deps k) (IsMap-tail d deps g h) in
      rw other (
        ih
        ∙ rw (
          relax_one-queue_other node d x deps k other,
          relax_one-degree_other node d x deps k other,
        ))
]
