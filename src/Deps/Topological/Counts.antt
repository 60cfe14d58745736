-- ===== src/Deps/Topological/Counts.antt =====
-- How often names stand in lists, and how many of a list's names are among the dependencies.
use phpeek_pm.Prelude.{
  ℕ, zero, suc, ◌+◌, ◌≤◌, ◌<◌, ◌≡◌, ◌⊎◌, refl, sym, ap, ◌∙◌, arith, Bool, true, false,
  if◌then◌else◌, List, [], ◌∷◌, ◌++◌, String, str_eq, eq_iff, eq_refl, Bool-cases, inl, inr, length,
}
use phpeek_pm.Deps.{contains}

abbrev pub one_if : Bool → ℕ
one_if true = 1
one_if false = 0

abbrev pub count : String → List String → ℕ
count x [] = 0
count x (y ∷ ys) = one_if (str_eq y x) + count x ys

-- No name stands in the list twice.
abbrev pub IsDistinct : List String → Type 0
IsDistinct xs = (x : String) → count x xs ≤ 1

-- How many of `rs` are among `ds`.
abbrev pub hits : List String → List String → ℕ
hits ds [] = 0
hits ds (r ∷ rs) = one_if (contains ds r) + hits ds rs

pub count-append : (x : String) (xs ys : List String) → count x (xs ++ ys) ≡ count x xs + count x ys
count-append x [] ys = omega arith
count-append x (y ∷ xs) ys = omega (arith, count-append x xs ys)

pub hits-append : (ds xs ys : List String) → hits ds (xs ++ ys) ≡ hits ds xs + hits ds ys
hits-append ds [] ys = omega arith
hits-append ds (y ∷ xs) ys = omega (arith, hits-append ds xs ys)

hits-cons-le : (d : String) (ds rs : List String) → hits (d ∷ ds) rs ≤ count d rs + hits ds rs
unfolding contains
hits-cons-le d ds [] = omega arith
hits-cons-le d ds (r ∷ rs) = ground (arith, eq_iff d r, eq_iff r d, hits-cons-le d ds rs)

hits-cons_new :
    (d : String) (ds rs : List String)
    → contains ds d ≡ false
    → hits (d ∷ ds) rs ≡ count d rs + hits ds rs
unfolding contains
hits-cons_new d ds [] h = omega arith
hits-cons_new d ds (r ∷ rs) h = elim (Bool-cases (str_eq d r)) [
  | inl same ↦
      let e : d ≡ r = (eq_iff d r).0 same in
      let absent : contains ds r ≡ false = ap (contains ds) (sym e) ∙ h in
      let back : str_eq r d ≡ true = (eq_iff r d).1 (sym e) in
      rw (same, absent, back) (omega (arith, hits-cons_new d ds rs h))
  | inr other ↦ ground (arith, eq_iff d r, eq_iff r d, hits-cons_new d ds rs h)
]

hits-cons_old :
    (d : String) (ds rs : List String) → contains ds d ≡ true → hits (d ∷ ds) rs ≡ hits ds rs
unfolding contains
hits-cons_old d ds [] h = refl
hits-cons_old d ds (r ∷ rs) h = elim (Bool-cases (str_eq d r)) [
  | inl same ↦
      let present : contains ds r ≡ true = ap (contains ds) (sym ((eq_iff d r).0 same)) ∙ h in
      rw (same, present) (omega (arith, hits-cons_old d ds rs h))
  | inr other ↦ rw other (omega (arith, hits-cons_old d ds rs h))
]

hits_nil : (rs : List String) → hits [] rs ≡ 0
unfolding contains
hits_nil [] = refl
hits_nil (r ∷ rs) = omega (arith, hits_nil rs)

-- Distinct names hit each dependency at most once.
pub hits-le-length : (ds rs : List String) → IsDistinct rs → hits ds rs ≤ length ds
hits-le-length [] rs h = omega (arith, hits_nil rs)
hits-le-length (d ∷ ds) rs h = omega (arith, hits-cons-le d ds rs, h d, hits-le-length ds rs h)

-- If they hit as often as there are dependencies, they hit them all.
pub all_hit :
    (ds rs : List String) (x : String)
    → IsDistinct rs
    → hits ds rs ≡ length ds
    → contains ds x ≡ true
    → 0 < count x rs
unfolding contains
all_hit [] rs x h e c = cc
all_hit (d ∷ ds) rs x h e c = elim (Bool-cases (str_eq d x)) [
  | inl same ↦
      let at : count x rs ≡ count d rs = ap (λ n. count n rs) (sym ((eq_iff d x).0 same)) in
      omega (arith, at, h d, hits-cons-le d ds rs, hits-le-length ds rs h)
  | inr other ↦
      all_hit ds rs x h (omega (arith, h d, hits-cons-le d ds rs, hits-le-length ds rs h))
        (rw other at c)
]

-- Dependencies without duplicates.
abbrev pub no_duplicates : List String → Bool
no_duplicates [] = true
no_duplicates (d ∷ ds) = if contains ds d then false else no_duplicates ds

not_both : ◌≡◌ {A = Bool} false true → ⊥
not_both h = cc

later :
    (d : String) (ds : List String) (x : String) → contains ds x ≡ true → contains (d ∷ ds) x ≡ true
unfolding contains
later d ds x c = ground arith

pub hits_all :
    (ds rs : List String)
    → no_duplicates ds ≡ true
    → ((x : String) → contains ds x ≡ true → 0 < count x rs)
    → length ds ≤ hits ds rs
unfolding contains
hits_all [] rs u h = omega arith
hits_all (d ∷ ds) rs u h = elim (Bool-cases (contains ds d)) [
  | inl old ↦ absurd (not_both (rw old at u))
  | inr new ↦
      let rest = hits_all ds rs (rw new at u) (λ x c. h x (later d ds x c)) in
      omega (arith, rest, hits-cons_new d ds rs new, h d (rw (eq_refl d)))
]

-- With a duplicate, distinct names hit fewer dependencies than there are.
pub hits-lt-length :
    (ds rs : List String) → no_duplicates ds ≡ false → IsDistinct rs → hits ds rs < length ds
hits-lt-length [] rs u h = cc
hits-lt-length (d ∷ ds) rs u h = elim (Bool-cases (contains ds d)) [
  | inl old ↦ omega (arith, hits-cons_old d ds rs old, hits-le-length ds rs h)
  | inr new ↦ omega (arith, hits-cons-le d ds rs, h d, hits-lt-length ds rs (rw new at u) h)
]

pub contains-count : (xs : List String) (x : String) → contains xs x ≡ true → 0 < count x xs
unfolding contains
contains-count [] x h = cc
contains-count (y ∷ ys) x h = ground (arith, contains-count ys x)

pub count-contains : (xs : List String) (x : String) → 0 < count x xs → contains xs x ≡ true
unfolding contains
count-contains [] x h = absurd (omega arith)
count-contains (y ∷ ys) x h = ground (arith, count-contains ys x)

pub zero_cases : (n : ℕ) → (n ≡ 0) ⊎ (0 < n)
zero_cases zero = inl refl
zero_cases (suc n) = inr (omega arith)

pub no_duplicates-IsDistinct : (xs : List String) → no_duplicates xs ≡ true → IsDistinct xs
no_duplicates-IsDistinct [] h x = omega arith
no_duplicates-IsDistinct (y ∷ ys) h x = elim (Bool-cases (contains ys y)) [
  | inl old ↦ absurd (not_both (rw old at h))
  | inr new ↦
      let rest = no_duplicates-IsDistinct ys (rw new at h) x in
      elim (Bool-cases (str_eq y x)) [
        | inr other ↦ rw other (omega (arith, rest))
        | inl same ↦
            let absent : contains ys x ≡ false =
              ap (contains ys) (sym ((eq_iff y x).0 same)) ∙ new in
            elim (zero_cases (count x ys)) [
              | inl zero_left ↦ rw same (omega (arith, zero_left))
              | inr positive ↦ absurd (not_both (sym absent ∙ count-contains ys x positive))
            ]
      ]
]
