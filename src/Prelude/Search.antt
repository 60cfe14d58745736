-- ===== src/Prelude/Search.antt =====
-- A loop `for i := len(xs) - 1; i >= 0; i--` that stops at the first element with a property.
use phpeek_pm.Prelude.Lists.{length, get_elem?}
use phpeek_pm.Prelude.Tests.{if◌then◌else◌, Bool-cases}
use Prim.Native.Nat.{ℕ, zero, suc, ◌<◌}
use mathlib.Core.Path.{◌≡◌, refl, sym, ap, ◌∙◌}
use mathlib.Core.Logic.{◌≢◌, inl, inr}
use mathlib.Core.Bool.{Bool, true, false}
use mathlib.Core.List.{List, [], ◌∷◌, ◌++◌}
use mathlib.Core.Option.{Option, none, some}
use native.Mathlib.Omega.{arith}
use native.Mathlib.Decide.{ℕ_discrete}

module _ {ℓ} {A : Type ℓ} where
  -- Writes to fields of the element at an index; out of range nothing changes.
  abbrev pub modify_at : ℕ → (A → A) → List A → List A
  modify_at i f [] = []
  modify_at zero f (x ∷ xs) = f x ∷ xs
  modify_at (suc i) f (x ∷ xs) = x ∷ modify_at i f xs

  pub length-modify_at : (i : ℕ) (f : A → A) (xs : List A) → length (modify_at i f xs) ≡ length xs
  length-modify_at i f [] = refl
  length-modify_at zero f (x ∷ xs) = refl
  length-modify_at (suc i) f (x ∷ xs) = ap suc (length-modify_at i f xs)

  pub get_elem?-modify_at_self :
      (i : ℕ) (f : A → A) (xs : List A) {x : A}
      → get_elem? xs i ≡ some x
      → get_elem? (modify_at i f xs) i ≡ some (f x)
  get_elem?-modify_at_self i f [] h = cc
  get_elem?-modify_at_self zero f (x ∷ xs) h = cc
  get_elem?-modify_at_self (suc i) f (x ∷ xs) h = get_elem?-modify_at_self i f xs h

  pub get_elem?-modify_at_ne :
      (i j : ℕ) (f : A → A) (xs : List A) → i ≢ j → get_elem? (modify_at i f xs) j ≡ get_elem? xs j
  get_elem?-modify_at_ne i j f [] h = refl
  get_elem?-modify_at_ne zero zero f (x ∷ xs) h = absurd (h refl)
  get_elem?-modify_at_ne zero (suc j) f (x ∷ xs) h = refl
  get_elem?-modify_at_ne (suc i) zero f (x ∷ xs) h = refl
  get_elem?-modify_at_ne (suc i) (suc j) f (x ∷ xs) h =
      get_elem?-modify_at_ne i j f xs (λ e. h (ap suc e))

  pub modify_at-snoc :
      (f : A → A) (xs : List A) (x : A) → modify_at (length xs) f (xs ++ x ∷ []) ≡ xs ++ f x ∷ []
  modify_at-snoc f [] x = refl
  modify_at-snoc f (y ∷ xs) x = ap (λ l. y ∷ l) (modify_at-snoc f xs x)

  pub get_elem?-snoc : (xs : List A) (x : A) → get_elem? (xs ++ x ∷ []) (length xs) ≡ some x
  get_elem?-snoc [] x = refl
  get_elem?-snoc (y ∷ xs) x = get_elem?-snoc xs x

  pub get_elem?_in : (xs : List A) (i : ℕ) → i < length xs → (x : A) × (get_elem? xs i ≡ some x)
  get_elem?_in [] i h = elim h [ ]
  get_elem?_in (x ∷ xs) zero h = (x, refl)
  get_elem?_in (x ∷ xs) (suc i) h = get_elem?_in xs i (omega arith)

  pub lt_of_get_elem? : (xs : List A) (i : ℕ) {x : A} → get_elem? xs i ≡ some x → i < length xs
  lt_of_get_elem? [] i h = cc
  lt_of_get_elem? (y ∷ xs) zero h = omega arith
  lt_of_get_elem? (y ∷ xs) (suc i) h = omega (arith, lt_of_get_elem? xs i h)

module _ {ℓ} {A : Type ℓ} (p : A → Bool) where
  -- One round, at the element that is looked at. The loop starts below the list's length, so there
  -- always is one.
  abbrev pub find_step : Option A → ℕ → Option ℕ → Option ℕ
  find_step none i rest = rest
  find_step (some x) i rest = if p x then some i else rest

  -- The number of rounds left is one above the index.
  unfoldable pub find_last : ℕ → List A → Option ℕ
  find_last zero xs = none
  find_last (suc i) xs = let rest = find_last i xs in find_step (get_elem? xs i) i rest

  -- The index that is found lies in range, and its element has the property.
  pub find_last_sound :
      (n : ℕ) (xs : List A) {i : ℕ}
      → find_last n xs ≡ some i
      → (x : A) × (get_elem? xs i ≡ some x) × (p x ≡ true)
  unfolding find_last
  find_last_sound zero xs h = cc
  find_last_sound (suc n) xs {i} h = found (get_elem? xs n) refl h (find_last_sound n xs {i = i})
    where
      found :
          (o : Option A)
          → get_elem? xs n ≡ o
          → find_step o n (find_last n xs) ≡ some i
          → (find_last n xs ≡ some i → (x : A) × (get_elem? xs i ≡ some x) × (p x ≡ true))
          → (x : A) × (get_elem? xs i ≡ some x) × (p x ≡ true)
      found none e h ih = ih h
      found (some x) e h ih = elim (Bool-cases (p x)) [
        | inl hit ↦ (x, ground arith, hit)
        | inr miss ↦ ih (rw miss at h)
      ]

  find_step_congr :
      (f : A → A) (i n k : ℕ) (xs : List A) (rest : Option ℕ)
      → ((x : A) → p (f x) ≡ p x)
      → find_step (get_elem? (modify_at i f xs) n) k rest ≡ find_step (get_elem? xs n) k rest
  find_step_congr f i n k [] rest e = refl
  find_step_congr f zero zero k (x ∷ xs) rest e = rw (e x)
  find_step_congr f zero (suc n) k (x ∷ xs) rest e = refl
  find_step_congr f (suc i) zero k (x ∷ xs) rest e = refl
  find_step_congr f (suc i) (suc n) k (x ∷ xs) rest e = find_step_congr f i n k xs rest e

  -- A write that leaves the property of each element as it was does not move the search.
  pub find_last-modify_at :
      (f : A → A) (i n : ℕ) (xs : List A)
      → ((x : A) → p (f x) ≡ p x)
      → find_last n (modify_at i f xs) ≡ find_last n xs
  unfolding find_last
  find_last-modify_at f i zero xs e = refl
  find_last-modify_at f i (suc n) xs e =
      rw (find_last-modify_at f i n xs e) (find_step_congr f i n n xs (find_last n xs) e)

  -- The search for the last element finds it at once if it has the property.
  pub find_last-snoc :
      (xs : List A) (x : A)
      → p x ≡ true
      → find_last (suc (length xs)) (xs ++ x ∷ []) ≡ some (length xs)
  unfolding find_last
  find_last-snoc xs x h = rw (get_elem?-snoc xs x, h)

  pub find_last-none :
      (n i : ℕ) (xs : List A) {x : A}
      → find_last n xs ≡ none
      → i < n
      → get_elem? xs i ≡ some x
      → p x ≡ false
  unfolding find_last
  find_last-none zero i xs h lt at = absurd (omega arith)
  find_last-none (suc n) i xs {x} h lt at = elim (ℕ_discrete i n) [
    | yes same ↦ here (get_elem? xs n) (ap (get_elem? xs) (sym same) ∙ at) h
    | no apart ↦ find_last-none n i xs (before (get_elem? xs n) h) (omega arith) at
  ]
    where
      clash : {k : ℕ} → some k ≡ none → ⊥
      clash h = cc

      here : (o : Option A) → o ≡ some x → find_step o n (find_last n xs) ≡ none → p x ≡ false
      here o e h = elim (Bool-cases (p x)) [
        | inl hit ↦ absurd (clash (rw (e, hit) at h))
        | inr miss ↦ miss
      ]

      before : (o : Option A) → find_step o n (find_last n xs) ≡ none → find_last n xs ≡ none
      before none h = h
      before (some y) h = elim (Bool-cases (p y)) [
        | inl hit ↦ absurd (clash (rw hit at h))
        | inr miss ↦ rw miss at h
      ]
