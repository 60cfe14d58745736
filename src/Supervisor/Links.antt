-- ===== src/Supervisor/Links.antt =====
-- The pointer of attemptRestart to the instance that it has started.
use phpeek_pm.Prelude.{
  ℕ, zero, suc, ◌≡◌, refl, sym, subst, inl, inr, ◌⊎◌, List, [], ◌∷◌, ◌++◌, length, length-set,
  get_elem?, set, Option, Option-cases, some, some_inj,
}
use phpeek_pm.Supervisor.{
  Monitor, waiting, exited, backing_off, counting, replacing, finished, Instance, Supervisor,
  started, start_from, start_instance,
}
use phpeek_pm.Supervisor.Positions.{id_at, KeepsIds, KeepsIds-append, KeepsIds-set, id_at-snoc}

-- It leads to an instance with the id of the old one.
abbrev pub LinkOf : Monitor → ℕ → List Instance → Type 0
LinkOf waiting id heap = Unit {0}
LinkOf (exited code count) id heap = Unit {0}
LinkOf (backing_off code count) id heap = Unit {0}
LinkOf (counting new count) id heap = id_at heap new ≡ some id
LinkOf (replacing new) id heap = id_at heap new ≡ some id
LinkOf finished id heap = Unit {0}

abbrev pub Linked : List Instance → Type 0
Linked heap = (h : ℕ) (i : Instance) → get_elem? heap h ≡ some i → LinkOf i.monitor i.id heap

LinkOf-KeepsIds :
    (m : Monitor) (id : ℕ) (heap heap' : List Instance)
    → KeepsIds heap heap'
    → LinkOf m id heap
    → LinkOf m id heap'
LinkOf-KeepsIds waiting id heap heap' keeps l = tt
LinkOf-KeepsIds (exited code count) id heap heap' keeps l = tt
LinkOf-KeepsIds (backing_off code count) id heap heap' keeps l = tt
LinkOf-KeepsIds (counting new count) id heap heap' keeps l = keeps new id l
LinkOf-KeepsIds (replacing new) id heap heap' keeps l = keeps new id l
LinkOf-KeepsIds finished id heap heap' keeps l = tt

set-cases :
    (heap : List Instance) (h k : ℕ) (j x : Instance)
    → get_elem? (set heap h j) k ≡ some x
    → (x ≡ j) ⊎ (get_elem? heap k ≡ some x)
set-cases [] h k j x e = inr e
set-cases (y ∷ heap) zero zero j x e = inl (sym (some_inj e))
set-cases (y ∷ heap) zero (suc k) j x e = inr e
set-cases (y ∷ heap) (suc h) zero j x e = inr e
set-cases (y ∷ heap) (suc h) (suc k) j x e = set-cases heap h k j x e

snoc-cases :
    (heap : List Instance) (k : ℕ) (j x : Instance)
    → get_elem? (heap ++ j ∷ []) k ≡ some x
    → (x ≡ j) ⊎ (get_elem? heap k ≡ some x)
snoc-cases [] zero j x e = inl (sym (some_inj e))
snoc-cases [] (suc k) j x e = cc
snoc-cases (y ∷ heap) zero j x e = inr e
snoc-cases (y ∷ heap) (suc k) j x e = snoc-cases heap k j x e

-- One instance is put in a place.
pub Linked-set :
    (heap : List Instance) (h : ℕ) (i j : Instance)
    → get_elem? heap h ≡ some i
    → j.id ≡ i.id
    → LinkOf j.monitor j.id heap
    → Linked heap
    → Linked (set heap h j)
Linked-set heap h i j found same link linked k x e =
    let keeps = KeepsIds-set heap h i j found same in
    elim (set-cases heap h k j x e) [
      | inl is ↦
          subst (λ y. LinkOf y.monitor y.id (set heap h j)) (sym is)
            (LinkOf-KeepsIds j.monitor j.id heap _ keeps link)
      | inr there ↦ LinkOf-KeepsIds x.monitor x.id heap _ keeps (linked k x there)
    ]

-- An instance is started.
pub Linked-started :
    (heap : List Instance) (id pid : ℕ) → Linked heap → Linked (heap ++ started id pid ∷ [])
Linked-started heap id pid linked k x e =
    let heap' = heap ++ started id pid ∷ [] in
    elim (snoc-cases heap k (started id pid) x e) [
      | inl is ↦ subst (λ y. LinkOf y.monitor y.id heap') (sym is) tt
      | inr there ↦
          LinkOf-KeepsIds x.monitor x.id heap heap' (KeepsIds-append heap _) (linked k x there)
    ]

-- A goroutine starts the instance that takes the place of its own.
pub Linked-restarted :
    (heap : List Instance) (h pid count : ℕ) (i : Instance)
    → get_elem? heap h ≡ some i
    → Linked heap
    → Linked
        (set heap h record i { monitor = counting (length heap) count } ++ started i.id pid ∷ [])
Linked-restarted heap h pid count i found linked k x e =
    let j = record i { monitor = counting (length heap) count } in
    let left = set heap h j in
    let heap' = left ++ started i.id pid ∷ [] in
    let keeps : KeepsIds heap heap' =
      λ k n at. KeepsIds-append left _ k n (KeepsIds-set heap h i j found refl k n at) in
    elim (snoc-cases left k (started i.id pid) x e) [
      | inl is ↦ subst (λ y. LinkOf y.monitor y.id heap') (sym is) tt
      | inr there ↦ elim (set-cases heap h k j x there) [
        | inl is ↦
            subst (λ y. LinkOf y.monitor y.id heap') (sym is)
              (subst (λ n. id_at heap' n ≡ some i.id) (length-set heap h j)
                (id_at-snoc left (started i.id pid)))
        | inr before ↦ LinkOf-KeepsIds x.monitor x.id heap heap' keeps (linked k x before)
      ]
    ]

-- The loop of Start.
pub start_from-Linked :
    (rounds i : ℕ) (spawn : ℕ → Option ℕ) (s : Supervisor)
    → Linked s.heap
    → Linked (start_from rounds i spawn s).0.heap
unfolding start_from
start_from-Linked zero i spawn s l = l
start_from-Linked (suc rounds) i spawn s l = elim (Option-cases (spawn i)) [
  | inl fails ↦ rw (fails, start_from) l
  | inr (pid, starts) ↦
      rw (starts, start_from)
        (start_from-Linked rounds (suc i) spawn
          (record (start_instance i pid s) { instances = s.instances ++ length s.heap ∷ [] })
          (Linked-started s.heap i pid l))
]
