-- ===== src/Deps/Walks.antt =====
-- Walks along dependencies, the stack of the search for cycles, and the path that it builds.
use phpeek_pm.Prelude.{
  ◌<◌, ℕ, zero, suc, ◌≡◌, refl, ◌∙◌, arith, subst, Bool, true, List, [], ◌∷◌, String, str_eq,
  eq_refl, eq_iff, Bool-cases, inl, inr, length,
}
use phpeek_pm.Deps.{
  Graph, contains, dependencies, Search, Found, no_cycle, cycle, no_fuel, cycle_path, continue_with,
}

pub here : (x : String) (st : List String) → contains (x ∷ st) x ≡ true
unfolding contains
here x st = rw (eq_refl x) refl

pub there :
    (x : String) (st : List String) (y : String) → contains st y ≡ true → contains (x ∷ st) y ≡ true
unfolding contains
there x st y h = ground arith

module _ (g : Graph) where
  abbrev pub DependsOn : String → String → Type 0
  DependsOn x y = contains (dependencies x g) y ≡ true

  -- From x to y, each depends on the next.
  abbrev pub IsWalk : String → List String → String → Type 0
  IsWalk x [] y = x ≡ y
  IsWalk x (z ∷ p) y = DependsOn x z × IsWalk z p y

  abbrev pub IsCycle : List String → Type 0
  IsCycle [] = ⊥
  IsCycle (x ∷ []) = ⊥
  IsCycle (x ∷ z ∷ p) = IsWalk x (z ∷ p) x

  -- The nodes that are being visited, below `x`: the parent of each is the next and depends on it.
  abbrev pub IsStack : (String → String) → String → List String → Type 0
  IsStack parent x [] = Unit {0}
  IsStack parent x (y ∷ st) = (parent x ≡ y) × DependsOn y x × IsStack parent y st

  abbrev pub Inside : List String → (String → Bool) → Type 0
  Inside st v = (y : String) → contains st y ≡ true → v y ≡ true

  pub IsStack-same :
      (v : String → Bool) (p q : String → String) (x : String) (st : List String)
      → ((y : String) → v y ≡ true → q y ≡ p y)
      → Inside (x ∷ st) v
      → IsStack p x st
      → IsStack q x st
  IsStack-same v p q x [] same inside h = tt
  IsStack-same v p q x (y ∷ st) same inside h = (
    same x (inside x (here x (y ∷ st))) ∙ h.0,
    h.1,
    IsStack-same v p q y st same (λ z c. inside z (there x (y ∷ st) z c)) h.2,
  )

  pub record Keeps (st : List String) (s s' : Search) : Type 0 where
    pub visits : (y : String) → s.visited y ≡ true → s'.visited y ≡ true
    pub parents : (y : String) → s.visited y ≡ true → s'.parent y ≡ s.parent y
    pub on_stack : (y : String) → s'.rec_stack y ≡ true → contains st y ≡ true

  abbrev pub Outcome : List String → Search → Found → Type 0
  Outcome st s (no_cycle s') = Keeps st s s'
  Outcome st s (cycle path) = IsCycle path
  Outcome st s no_fuel = ⊥

  pub cycle_path-Outcome :
      (fuel : ℕ) (parent : String → String) (dep current : String) (st : List String) (z : String)
      (p above : List String) (s : Search)
      → length st < fuel
      → IsStack parent current st
      → contains (current ∷ st) dep ≡ true
      → DependsOn current z
      → IsWalk z p dep
      → Outcome above s (cycle_path fuel parent dep current (z ∷ p))
  unfolding cycle_path contains
  cycle_path-Outcome zero parent dep current st z p above s enough stack there_is d w =
      absurd (omega (arith, enough))
  cycle_path-Outcome (suc fuel) parent dep current [] z p above s enough stack there_is d w =
      elim (Bool-cases (str_eq current dep)) [
        | inl same ↦ rw same (subst (λ x. DependsOn x z) ((eq_iff current dep).0 same) d, w)
        | inr other ↦ absurd (ground (arith, there_is, other))
      ]
  cycle_path-Outcome (suc fuel) parent dep current (y ∷ st) z p above s enough stack there_is d w =
      elim (Bool-cases (str_eq current dep)) [
        | inl same ↦ rw same (subst (λ x. DependsOn x z) ((eq_iff current dep).0 same) d, w)
        | inr other ↦
            let rest =
              cycle_path-Outcome fuel parent dep y st current (z ∷ p) above s (shorter enough)
                stack.2 (rw other at there_is) stack.1 (d, w) in
            rw (other, stack.0) rest
      ]
    where
      shorter : suc (length st) < suc fuel → length st < fuel
      shorter h = omega arith

  Keeps-trans :
      {st st' : List String} {s t u : Search} → Keeps st s t → Keeps st' t u → Keeps st' s u
  Keeps-trans a b = record {
    visits = λ y v. b.visits y (a.visits y v);
    parents = λ y v. b.parents y (a.visits y v) ∙ a.parents y v;
    on_stack = b.on_stack;
  }

  -- An outcome from a later state is one from an earlier state.
  pub Outcome-trans :
      (st st' : List String) (s t : Search)
      → Keeps st s t
      → (r : Found) → Outcome st' t r
      → Outcome st' s r
  Outcome-trans st st' s t k (no_cycle u) h = Keeps-trans k h
  Outcome-trans st st' s t k (cycle path) h = h
  Outcome-trans st st' s t k no_fuel h = h

  pub continue_with-Outcome :
      (fuel : ℕ) (visit : String → Search → Found) (next : Search → Found) (st st' : List String)
      (s : Search) (r : Found)
      → Outcome st s r
      → ((t : Search) → Keeps st s t → Outcome st' t (next t))
      → Outcome st' s (continue_with fuel visit next r)
  continue_with-Outcome fuel visit next st st' s (no_cycle t) k h =
      Outcome-trans st st' s t k (next t) (h t k)
  continue_with-Outcome fuel visit next st st' s (cycle path) c h = c
  continue_with-Outcome fuel visit next st st' s no_fuel c h = c
