-- ===== src/Prelude/Newest.antt =====
-- A loop that reads a slice from its end: `result[i] = entries[len - 1 - i]`.
use phpeek_pm.Prelude.Lists.{length, get_elem?, take, drop, length-reverse}
use phpeek_pm.Prelude.Search.{get_elem?-snoc, get_elem?_in}
use Prim.Native.Nat.{ℕ, zero, suc, ◌+◌, ◌-◌, ◌≤◌, ◌<◌}
use mathlib.Core.Path.{◌≡◌, refl, ap, ◌∙◌, sym}
use mathlib.Core.List.{List, [], ◌∷◌, ◌++◌, reverse, reverse-cons}
use mathlib.Core.Option.{none, some}
use native.Mathlib.Decide.{ℕ_discrete}
use native.Mathlib.Omega.{arith}

module _ {ℓ} {A : Type ℓ} where
  -- The rounds for the `rounds` values of i from `i` on. An index below 0 or past the end is never
  -- met: the callers' counts are at most the length.
  unfoldable pub newest_from : ℕ → ℕ → List A → List A
  newest_from zero i entries = []
  newest_from (suc rounds) i entries =
      let rest = newest_from rounds (i + 1) entries in
      elim (get_elem? entries (length entries - 1 - i)) [ none ↦ rest | some e ↦ e ∷ rest ]

  get_elem?-append_left :
      (xs ys : List A) (i : ℕ) → i < length xs → get_elem? (xs ++ ys) i ≡ get_elem? xs i
  get_elem?-append_left [] ys i h = elim h [ ]
  get_elem?-append_left (x ∷ xs) ys zero h = refl
  get_elem?-append_left (x ∷ xs) ys (suc i) h = get_elem?-append_left xs ys i (omega arith)

  get_elem?-reverse :
      (xs : List A) (i : ℕ)
      → i < length xs
      → get_elem? (reverse xs) i ≡ get_elem? xs (length xs - 1 - i)
  get_elem?-reverse [] i h = elim h [ ]
  get_elem?-reverse (x ∷ xs) i h = elim (ℕ_discrete i (length xs)) [
    | yes last ↦
        let at : suc (length xs) - 1 - i ≡ 0 = omega arith in
        let len : i ≡ length (reverse xs) = omega (arith, length-reverse xs) in
        rw (reverse-cons, at, len) (get_elem?-snoc (reverse xs) x)
    | no before ↦
        let at : suc (length xs) - 1 - i ≡ suc (length xs - 1 - i) = omega arith in
        rw (reverse-cons, at)
          (get_elem?-append_left (reverse xs) (x ∷ []) i (omega (arith, length-reverse xs))
            ∙ get_elem?-reverse xs i (omega arith))
  ]

  take-drop_step :
      (r i : ℕ) (xs : List A) (x : A)
      → get_elem? xs i ≡ some x
      → take (suc r) (drop i xs) ≡ x ∷ take r (drop (i + 1) xs)
  take-drop_step r i [] x h = cc
  take-drop_step r zero (y ∷ xs) x h = ground arith
  take-drop_step r (suc i) (y ∷ xs) x h =
      let e : suc i + 1 ≡ suc (i + 1) = omega arith in rw e (take-drop_step r i xs x h)

  pub newest_from_lem :
      (rounds i : ℕ) (xs : List A)
      → i + rounds ≤ length xs
      → newest_from rounds i xs ≡ take rounds (drop i (reverse xs))
  unfolding newest_from
  newest_from_lem zero i xs h = refl
  newest_from_lem (suc r) i xs h =
      let (x, at) = get_elem?_in xs (length xs - 1 - i) (omega arith) in
      let back : get_elem? (reverse xs) i ≡ some x = get_elem?-reverse xs i (omega arith) ∙ at in
      rw (at, newest_from)
        (ap (λ l. x ∷ l) (newest_from_lem r (i + 1) xs (omega arith))
          ∙ sym (take-drop_step r i (reverse xs) x back))
