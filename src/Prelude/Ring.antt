-- ===== src/Prelude/Ring.antt =====
-- Ring buffers: a write at index i of a ring of `size` slots, and the order of the slots.
use phpeek_pm.Prelude.Lists.{
  length, get_elem?, set, take, drop, length-append, length-set, length-take, length-drop,
  length-reverse,
}
use phpeek_pm.Prelude.Slices.{
  last_n, take_all, drop_all, take-suc-set, drop-suc-set, drop-drop, drop-append_left,
  take-length-append, take-append-drop, last_n_all,
}
use Prim.Native.Nat.{ℕ, zero, suc, ◌+◌, ◌-◌, ◌≤◌, ◌<◌}
use mathlib.Core.Path.{◌≡◌, refl, ap, ◌∙◌, sym}
use mathlib.Core.List.{List, [], ◌∷◌, ◌++◌, reverse, append-nil, append_assoc, reverse-append}
use native.Mathlib.Decide.{dec_lt}
use native.Mathlib.Omega.{arith}

module _ {ℓ} {A : Type ℓ} (es : List A) (i size : ℕ) (x : A) (len : length es ≡ size)
    (lt : i < size) where
  -- The slot written last ends the part of the ring before the new index.
  pub take-set : take (i + 1) (set es i x) ≡ take i es ++ x ∷ []
  take-set = let e : i + 1 ≡ suc i = omega arith in rw e (take-suc-set i x es (omega arith))

  -- A write into the last slot: the ring is in order from its start.
  pub set_last : size ≤ i + 1 → set es i x ++ [] ≡ take i es ++ x ∷ []
  set_last h =
      append-nil (set es i x)
      ∙ sym (take_all (i + 1) (set es i x) (omega (arith, length-set es i x)))
      ∙ take-set

  pub drop-set : drop (i + 1) (set es i x) ≡ drop 1 (drop i es)
  drop-set =
      let e : i + 1 ≡ suc i = omega arith in
      rw e (drop-suc-set i x es ∙ rw (← e) (sym (drop-drop 1 i es)))

  -- In a full ring the write drops the oldest entry.
  pub last_n-ring :
      last_n size ((drop i es ++ take i es) ++ x ∷ []) ≡ drop 1 (drop i es) ++ (take i es ++ x ∷ [])
  last_n-ring =
      let one_more : length ((drop i es ++ take i es) ++ x ∷ []) - size ≡ 1 = omega (
        arith,
        length-append (drop i es ++ take i es) (x ∷ []),
        length-append (drop i es) (take i es),
        length-drop i es,
        length-take i es,
      ) in
      rw (one_more, append_assoc)
        (drop-append_left 1 (drop i es) (take i es ++ x ∷ []) (omega (arith, length-drop i es)))

  pub last_n-prefix : last_n size (take i es ++ x ∷ []) ≡ take i es ++ x ∷ []
  last_n-prefix =
      last_n_all size (take i es ++ x ∷ [])
        (omega (arith, length-append (take i es) (x ∷ []), length-take i es))

  pub last_n-ring_last :
      size ≤ i + 1 → last_n size ((drop i es ++ take i es) ++ x ∷ []) ≡ take i es ++ x ∷ []
  last_n-ring_last h =
      let none_left : drop 1 (drop i es) ≡ [] =
        drop_all 1 (drop i es) (omega (arith, length-drop i es)) in
      last_n-ring ∙ rw none_left

module _ {ℓ} {A : Type ℓ} where
  pub get_elem?-take : (n i : ℕ) (xs : List A) → i < n → get_elem? (take n xs) i ≡ get_elem? xs i
  get_elem?-take zero i xs h = absurd (omega arith)
  get_elem?-take (suc n) i [] h = refl
  get_elem?-take (suc n) zero (x ∷ xs) h = refl
  get_elem?-take (suc n) (suc i) (x ∷ xs) h = get_elem?-take n i xs (omega arith)

  pub get_elem?-drop : (n i : ℕ) (xs : List A) → get_elem? (drop n xs) i ≡ get_elem? xs (n + i)
  get_elem?-drop zero i xs = let e : 0 + i ≡ i = omega arith in rw e
  get_elem?-drop (suc n) i [] = refl
  get_elem?-drop (suc n) i (x ∷ xs) =
      let e : suc n + i ≡ suc (n + i) = omega arith in rw e (get_elem?-drop n i xs)

  pub get_elem?-append_before :
      (xs ys : List A) (i : ℕ) → i < length xs → get_elem? (xs ++ ys) i ≡ get_elem? xs i
  get_elem?-append_before [] ys i h = absurd (omega arith)
  get_elem?-append_before (x ∷ xs) ys zero h = refl
  get_elem?-append_before (x ∷ xs) ys (suc i) h = get_elem?-append_before xs ys i (omega arith)

  pub get_elem?-append_after :
      (xs ys : List A) (i : ℕ) → get_elem? (xs ++ ys) (length xs + i) ≡ get_elem? ys i
  get_elem?-append_after [] ys i = let e : 0 + i ≡ i = omega arith in rw e
  get_elem?-append_after (x ∷ xs) ys i =
      let e : suc (length xs) + i ≡ suc (length xs + i) = omega arith in
      rw e (get_elem?-append_after xs ys i)

  -- The last n, from the newest to the oldest.
  pub take-reverse : (n : ℕ) (xs : List A) → take n (reverse xs) ≡ reverse (last_n n xs)
  take-reverse n xs = elim (dec_lt n (length xs)) [
    | yes less ↦
        let k = length xs - n in
        let len : n ≡ length (reverse (drop k xs)) =
          omega (arith, length-reverse (drop k xs), length-drop k xs) in
        ap (λ l. take n (reverse l)) (sym (take-append-drop k xs))
        ∙ ap (take n) (reverse-append (take k xs) (drop k xs))
        ∙ ap (λ m. take m (reverse (drop k xs) ++ reverse (take k xs))) len
        ∙ take-length-append (reverse (drop k xs)) (reverse (take k xs))
    | no more ↦
        take_all n (reverse xs) (omega (arith, length-reverse xs))
        ∙ ap reverse (sym (last_n_all n xs (omega arith)))
  ]
