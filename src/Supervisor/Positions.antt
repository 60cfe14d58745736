-- ===== src/Supervisor/Positions.antt =====
-- The ids of the instances in the slice.
use phpeek_pm.Prelude.{
  ℕ, zero, suc, ◌+◌, ◌≡◌, refl, sym, ap, ◌∙◌, arith, inl, inr, Bool, true, false, Bool-cases, List,
  [], ◌∷◌, ◌++◌, length, length-append, get_elem?, set, take, ◌==◌, ==_iff, Option, Option-cases,
  none, some, some_inj,
}
use phpeek_pm.Supervisor.{Instance, Supervisor, at, started, start_instance, start_from, replace_id}

abbrev pub id_at : List Instance → ℕ → Option ℕ
id_at heap h = elim (get_elem? heap h) [ none ↦ none | some i ↦ some i.id ]

-- The instances of a list have the ids n, n + 1, ...
abbrev pub Placed : List Instance → ℕ → List ℕ → Type 0
Placed heap n [] = Unit {0}
Placed heap n (h ∷ hs) = (id_at heap h ≡ some n) × Placed heap (suc n) hs

-- Ids stay what they are.
abbrev pub KeepsIds : List Instance → List Instance → Type 0
KeepsIds heap heap' = (h n : ℕ) → id_at heap h ≡ some n → id_at heap' h ≡ some n

pub Placed-KeepsIds :
    (heap heap' : List Instance) (n : ℕ) (hs : List ℕ)
    → KeepsIds heap heap'
    → Placed heap n hs
    → Placed heap' n hs
Placed-KeepsIds heap heap' n [] keeps p = tt
Placed-KeepsIds heap heap' n (h ∷ hs) keeps p =
    (keeps h n p.0, Placed-KeepsIds heap heap' (suc n) hs keeps p.1)

pub Placed-append :
    (heap : List Instance) (n : ℕ) (xs ys : List ℕ)
    → Placed heap n xs
    → Placed heap (n + length xs) ys
    → Placed heap n (xs ++ ys)
Placed-append heap n [] ys p q = let e : n + 0 ≡ n = omega arith in rw e at q
Placed-append heap n (x ∷ xs) ys p q =
    let e : n + suc (length xs) ≡ suc n + length xs = omega arith in
    (p.0, Placed-append heap (suc n) xs ys p.1 (rw e at q))

pub Placed-take :
    (heap : List Instance) (n k : ℕ) (hs : List ℕ) → Placed heap n hs → Placed heap n (take k hs)
Placed-take heap n zero hs p = tt
Placed-take heap n (suc k) [] p = tt
Placed-take heap n (suc k) (h ∷ hs) p = (p.0, Placed-take heap (suc n) k hs p.1)

id_at-test :
    (heap : List Instance) (h n id : ℕ)
    → id_at heap h ≡ some n
    → at (λ i. i.id == id) heap h ≡ true
    → n ≡ id
id_at-test heap h n id e t = by_elem (get_elem? heap h) e t
  where
    by_elem :
        (o : Option Instance)
        → (let r : Option ℕ = elim o [ none ↦ none | some i ↦ some i.id ] in r ≡ some n)
        → (let b : Bool = elim o [ none ↦ false | some i ↦ i.id == id ] in b ≡ true)
        → n ≡ id
    by_elem none e t = cc
    by_elem (some i) e t = sym (some_inj e) ∙ (==_iff i.id id).0 t

pub replace_id-Placed :
    (heap : List Instance) (id new n : ℕ) (hs : List ℕ)
    → id_at heap new ≡ some id
    → Placed heap n hs
    → Placed heap n (replace_id heap id new hs)
unfolding replace_id
replace_id-Placed heap id new n [] is_new p = tt
replace_id-Placed heap id new n (h ∷ hs) is_new p =
    elim (Bool-cases (at (λ i. i.id == id) heap h)) [
      | inl same ↦ rw same (is_new ∙ ap some (sym (id_at-test heap h n id p.0 same)), p.1)
      | inr other ↦ rw other (p.0, replace_id-Placed heap id new (suc n) hs is_new p.1)
    ]

pub KeepsIds-append : (heap more : List Instance) → KeepsIds heap (heap ++ more)
KeepsIds-append [] more h n e = cc
KeepsIds-append (i ∷ heap) more zero n e = e
KeepsIds-append (i ∷ heap) more (suc h) n e = KeepsIds-append heap more h n e

pub id_at-snoc :
    (heap : List Instance) (i : Instance) → id_at (heap ++ i ∷ []) (length heap) ≡ some i.id
id_at-snoc [] i = refl
id_at-snoc (j ∷ heap) i = id_at-snoc heap i

pub KeepsIds-set :
    (heap : List Instance) (h : ℕ) (i j : Instance)
    → get_elem? heap h ≡ some i
    → j.id ≡ i.id
    → KeepsIds heap (set heap h j)
KeepsIds-set [] h i j found same k n e = e
KeepsIds-set (x ∷ heap) zero i j found same zero n e =
    ap some (same ∙ ap (λ y. y.id) (sym (some_inj found))) ∙ e
KeepsIds-set (x ∷ heap) zero i j found same (suc k) n e = e
KeepsIds-set (x ∷ heap) (suc h) i j found same zero n e = e
KeepsIds-set (x ∷ heap) (suc h) i j found same (suc k) n e =
    KeepsIds-set heap h i j found same k n e

pub length-replace_id :
    (heap : List Instance) (id new : ℕ) (hs : List ℕ)
    → length (replace_id heap id new hs) ≡ length hs
unfolding replace_id
length-replace_id heap id new [] = refl
length-replace_id heap id new (h ∷ hs) = ground (arith, length-replace_id heap id new hs)

-- The loop of Start numbers the instances.
pub start_from-Placed :
    (rounds i : ℕ) (spawn : ℕ → Option ℕ) (s : Supervisor)
    → length s.instances ≡ i
    → Placed s.heap 0 s.instances
    → Placed (start_from rounds i spawn s).0.heap 0 (start_from rounds i spawn s).0.instances
unfolding start_from
start_from-Placed zero i spawn s l p = p
start_from-Placed (suc rounds) i spawn s l p = elim (Option-cases (spawn i)) [
  | inl fails ↦ rw (fails, start_from) p
  | inr (pid, starts) ↦
      let heap' = s.heap ++ started i pid ∷ [] in
      rw (starts, start_from)
        (start_from-Placed rounds (suc i) spawn
          (record (start_instance i pid s) { instances = s.instances ++ length s.heap ∷ [] })
          (omega (arith, l, length-append s.instances (length s.heap ∷ [])))
          (Placed-append heap' 0 s.instances (length s.heap ∷ [])
            (Placed-KeepsIds s.heap heap' 0 s.instances (KeepsIds-append s.heap _) p)
            (id_at-snoc s.heap (started i pid) ∙ ap some (omega (arith, l)), tt)))
]
