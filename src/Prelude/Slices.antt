-- ===== src/Prelude/Slices.antt =====
-- Slices of lists: `xs[i:]`, `xs[:i]`, `copy`, and the last n elements.
use phpeek_pm.Prelude.Lists.{length, set, take, drop, length-append, length-drop}
use Prim.Native.Nat.{ℕ, zero, suc, ◌+◌, ◌-◌, ◌≤◌, ◌<◌, min}
use mathlib.Core.Path.{◌≡◌, refl, ap, ◌∙◌, sym}
use mathlib.Core.List.{List, [], ◌∷◌, ◌++◌, append-nil}
use native.Mathlib.Omega.{arith}

module _ {ℓ} {A : Type ℓ} where
  -- The last n elements, in their order: all of them if there are fewer.
  abbrev pub last_n : ℕ → List A → List A
  last_n n xs = drop (length xs - n) xs

  -- Go's copy(dst, src): the result is dst's new content.
  abbrev pub copy : List A → List A → List A
  copy dst src = take (length dst) src ++ drop (length src) dst

module _ {ℓ} {A : Type ℓ} where
  pub take_all : (n : ℕ) (xs : List A) → length xs ≤ n → take n xs ≡ xs
  take_all zero [] h = refl
  take_all zero (x ∷ xs) h = absurd (omega arith)
  take_all (suc n) [] h = refl
  take_all (suc n) (x ∷ xs) h = ap (λ l. x ∷ l) (take_all n xs (omega arith))

  pub drop_all : (n : ℕ) (xs : List A) → length xs ≤ n → drop n xs ≡ []
  drop_all zero [] h = refl
  drop_all zero (x ∷ xs) h = absurd (omega arith)
  drop_all (suc n) [] h = refl
  drop_all (suc n) (x ∷ xs) h = drop_all n xs (omega arith)

  pub take-append-drop : (n : ℕ) (xs : List A) → take n xs ++ drop n xs ≡ xs
  take-append-drop zero xs = refl
  take-append-drop (suc n) [] = refl
  take-append-drop (suc n) (x ∷ xs) = rw (take-append-drop n xs)

  pub take-suc-set :
      (i : ℕ) (v : A) (xs : List A)
      → i < length xs
      → take (suc i) (set xs i v) ≡ take i xs ++ v ∷ []
  take-suc-set i v [] h = absurd (omega arith)
  take-suc-set zero v (x ∷ xs) h = refl
  take-suc-set (suc i) v (x ∷ xs) h = ap (λ l. x ∷ l) (take-suc-set i v xs (omega arith))

  pub drop-suc-set : (i : ℕ) (v : A) (xs : List A) → drop (suc i) (set xs i v) ≡ drop (suc i) xs
  drop-suc-set i v [] = refl
  drop-suc-set zero v (x ∷ xs) = refl
  drop-suc-set (suc i) v (x ∷ xs) = drop-suc-set i v xs

  pub drop-drop : (i j : ℕ) (xs : List A) → drop i (drop j xs) ≡ drop (j + i) xs
  drop-drop i zero xs = let e : zero + i ≡ i = omega arith in rw e
  drop-drop i (suc j) [] =
      let e : suc j + i ≡ suc (j + i) = omega arith in rw e (drop_all i [] (omega arith))
  drop-drop i (suc j) (x ∷ xs) =
      let e : suc j + i ≡ suc (j + i) = omega arith in rw e (drop-drop i j xs)

  pub drop-append_left :
      (n : ℕ) (xs ys : List A) → n ≤ length xs → drop n (xs ++ ys) ≡ drop n xs ++ ys
  drop-append_left zero xs ys h = refl
  drop-append_left (suc n) [] ys h = absurd (omega arith)
  drop-append_left (suc n) (x ∷ xs) ys h = drop-append_left n xs ys (omega arith)

  pub drop-append_right :
      (n : ℕ) (xs ys : List A) → length xs ≤ n → drop n (xs ++ ys) ≡ drop (n - length xs) ys
  drop-append_right n [] ys h = let e : n - 0 ≡ n = omega arith in rw e
  drop-append_right zero (x ∷ xs) ys h = absurd (omega arith)
  drop-append_right (suc n) (x ∷ xs) ys h =
      let e : suc n - suc (length xs) ≡ n - length xs = omega arith in
      rw e (drop-append_right n xs ys (omega arith))

  pub take-length-append : (xs ys : List A) → take (length xs) (xs ++ ys) ≡ xs
  take-length-append [] ys = refl
  take-length-append (x ∷ xs) ys = ap (λ l. x ∷ l) (take-length-append xs ys)

  pub drop-length-append : (xs ys : List A) → drop (length xs) (xs ++ ys) ≡ ys
  drop-length-append [] ys = refl
  drop-length-append (x ∷ xs) ys = drop-length-append xs ys

  -- Copying over a slice of the same length gives the source.
  pub copy_whole : (dst src : List A) → length dst ≡ length src → copy dst src ≡ src
  copy_whole dst src e =
      rw (take_all (length dst) src (omega arith), drop_all (length src) dst (omega arith))
        (append-nil src)

  -- Two slices copied one behind the other fill a slice of their joint length.
  pub copy_both :
      (dst xs ys : List A) (k : ℕ)
      → k ≡ length xs
      → length dst ≡ length xs + length ys
      → take k (copy dst xs) ++ copy (drop k (copy dst xs)) ys ≡ xs ++ ys
  copy_both dst xs ys k ek e =
      rw
        (
          ek,
          take_all (length dst) xs (omega arith),
          take-length-append xs (drop (length xs) dst),
          drop-length-append xs (drop (length xs) dst),
        )
        (ap (λ l. xs ++ l)
          (copy_whole (drop (length xs) dst) ys (omega (arith, length-drop (length xs) dst))))

  pub last_n_all : (n : ℕ) (xs : List A) → length xs ≤ n → last_n n xs ≡ xs
  last_n_all n xs h = let e : length xs - n ≡ 0 = omega arith in rw e

  pub length-last_n : (n : ℕ) (xs : List A) → length (last_n n xs) ≡ min n (length xs)
  length-last_n n xs = omega (arith, length-drop (length xs - n) xs)

  -- Dropping from the front first does not change what the last n are.
  pub last_n-drop : (n k : ℕ) (xs : List A) → k ≤ length xs - n → last_n n (drop k xs) ≡ last_n n xs
  last_n-drop n k xs h =
      let e : k + (length (drop k xs) - n) ≡ length xs - n = omega (arith, length-drop k xs) in
      drop-drop (length (drop k xs) - n) k xs ∙ ap (λ i. drop i xs) e

  -- The last n after one more element depend only on the last n before it.
  pub last_n-last_n_snoc :
      (n : ℕ) (xs : List A) (x : A) → last_n n (last_n n xs ++ x ∷ []) ≡ last_n n (xs ++ x ∷ [])
  last_n-last_n_snoc n xs x =
      let k = length xs - n in
      let e : drop k (xs ++ x ∷ []) ≡ drop k xs ++ x ∷ [] = drop-append_left k xs _ (omega arith) in
      ap (last_n n) (sym e)
      ∙ last_n-drop n k (xs ++ x ∷ []) (omega (arith, length-append xs (x ∷ [])))
