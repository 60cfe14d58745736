-- ===== src/Deps/Topological/Sorting.antt =====
-- sortAlphabetically keeps the names.
use phpeek_pm.Prelude.{
  ◌+◌, ◌≡◌, refl, arith, List, [], ◌∷◌, reverse, String, str_eq, str_gtb, Bool-cases, inl, inr,
}
use mathlib.Core.List.{reverse-cons}
use phpeek_pm.Deps.Topological.{place, sort_from, sort_alphabetically}
use phpeek_pm.Deps.Topological.Counts.{one_if, count, count-append}

pub count-reverse : (x : String) (xs : List String) → count x (reverse xs) ≡ count x xs
count-reverse x [] = refl
count-reverse x (y ∷ ys) =
    rw reverse-cons (omega (arith, count-append x (reverse ys) (y ∷ []), count-reverse x ys))

count-place :
    (x key : String) (xs : List String)
    → count x (place key xs) ≡ one_if (str_eq key x) + count x xs
unfolding place
count-place x key [] = refl
count-place x key (y ∷ ys) = elim (Bool-cases (str_gtb y key)) [
  | inl more ↦ rw more (omega (arith, count-place x key ys))
  | inr less ↦ rw less
]

count-sort_from :
    (x : String) (done xs : List String) → count x (sort_from done xs) ≡ count x done + count x xs
unfolding sort_from
count-sort_from x done [] = omega arith
count-sort_from x done (y ∷ ys) =
    omega (arith, count-sort_from x (place y done) ys, count-place x y done)

-- Every name stands in the sorted list as often as in the given one.
pub count-sort_alphabetically :
    (x : String) (xs : List String) → count x (sort_alphabetically xs) ≡ count x xs
unfolding sort_alphabetically
count-sort_alphabetically x xs =
    omega (arith, count-reverse x (sort_from [] xs), count-sort_from x [] xs)
