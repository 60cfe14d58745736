-- ===== src/Config/Equality.antt =====
-- What Equal compares, and what it passes over.
use phpeek_pm.Prelude.{
  false_ne_true, suc, ◌≡◌, refl, sym, ap, ◌∙◌, subst, arith, inl, inr, ◌⊎◌, ◌↔◌, Bool, true, false,
  ◌&&◌, if◌then◌else◌, Bool-cases, List, [], ◌∷◌, String, str_eq, eq_refl, eq_iff, ℤ, length, ◌==◌,
  ==_iff, Option, none, some, lookup, delete, lookup-delete, delete-HasUniqueKeys, HasUniqueKeys,
}
use phpeek_pm.Config.{
  bool_eq, int_eq, elements_equal, string_slice_equal, has_value, entries_in, string_map_equal,
}

pub bool_eq_iff : (a b : Bool) → (bool_eq a b ≡ true) ↔ (a ≡ b)
bool_eq_iff true true = (λ h. refl, λ h. refl)
bool_eq_iff true false = (λ h. cc, λ h. cc)
bool_eq_iff false true = (λ h. cc, λ h. cc)
bool_eq_iff false false = (λ h. refl, λ h. refl)

pub int_eq_iff : (a b : ℤ) → (int_eq a b ≡ true) ↔ (a ≡ b)
int_eq_iff a b = (λ h. ground (arith, h), λ h. ground (arith, h))

elements_equal_iff :
    (a b : List String) → length a ≡ length b → (elements_equal a b ≡ true) ↔ (a ≡ b)
unfolding elements_equal
elements_equal_iff [] [] e = (λ h. refl, λ h. refl)
elements_equal_iff [] (y ∷ b) e = absurd (omega (arith, e))
elements_equal_iff (x ∷ a) [] e = absurd (omega (arith, e))
elements_equal_iff (x ∷ a) (y ∷ b) e =
    let rest = elements_equal_iff a b (omega (arith, e)) in
    (λ h. ground (arith, h, eq_iff x y, rest), λ h. ground (arith, h, eq_iff x y, rest))

pub string_slice_equal_iff : (a b : List String) → (string_slice_equal a b ≡ true) ↔ (a ≡ b)
unfolding string_slice_equal
string_slice_equal_iff a b = (
  λ h. same h (Bool-cases (length a == length b)),
  λ e. subst (λ l. (length a == length l && elements_equal a l) ≡ true) e (itself a),
)
  where
    same :
        (length a == length b && elements_equal a b) ≡ true
        → ((length a == length b) ≡ true) ⊎ ((length a == length b) ≡ false)
        → a ≡ b
    same h (inl e) = (elements_equal_iff a b ((==_iff _ _).0 e)).0 (rw e at h)
    same h (inr e) = absurd (false_ne_true (rw e at h))

    itself : (l : List String) → (length l == length l && elements_equal l l) ≡ true
    itself l =
        let e : (length l == length l) ≡ true = (==_iff _ _).1 refl in
        rw e ((elements_equal_iff l l refl).1 refl)

module _ {ℓ} {V : Type ℓ} where
  pub delete-absent : (k : String) (m : List (String × V)) → lookup k m ≡ none → delete k m ≡ m
  unfolding lookup delete
  delete-absent k [] h = refl
  delete-absent k ((j, v) ∷ m) h = elim (Bool-cases (str_eq j k)) [
    | inl same ↦ absurd (clash (rw same at h))
    | inr other ↦ rw other (ap (λ l. (j, v) ∷ l) (delete-absent k m (rw other at h)))
  ]
    where
      clash : ◌≡◌ {A = Option V} (some v) none → ⊥
      clash e = cc

  pub length-delete :
      (k : String) (v : V) (m : List (String × V))
      → HasUniqueKeys m
      → lookup k m ≡ some v
      → suc (length (delete k m)) ≡ length m
  unfolding lookup delete
  length-delete k v [] u h = cc
  length-delete k v ((j, w) ∷ m) u h = elim (Bool-cases (str_eq j k)) [
    | inl same ↦ rw same (
        ap suc (
          ap length (delete-absent k m (subst (λ n. lookup n m ≡ none) ((eq_iff j k).0 same) u.0))))
    | inr other ↦ rw other (ap suc (length-delete k v m u.1 (rw other at h)))
  ]

-- A map whose entries are all in one of the same length has the same values.
entries_in_same :
    (a b : List (String × String))
    → HasUniqueKeys a
    → HasUniqueKeys b
    → length a ≡ length b
    → entries_in a b ≡ true
    → (k : String) → lookup k a ≡ lookup k b
unfolding entries_in lookup
entries_in_same [] [] ua ub e h k = refl
entries_in_same [] (y ∷ b) ua ub e h k = absurd (omega (arith, e))
entries_in_same ((j, v) ∷ a) b ua ub e h k =
    let (there, rest) = both (lookup j b) (entries_in a b) h in
    let b' = delete j b in
    let shorter : length a ≡ length b' = omega (arith, e, length-delete j v b ub there) in
    let ih =
      entries_in_same a b' ua.1 (delete-HasUniqueKeys j b ub) shorter (without a b j ua.0 rest) k in
    elim (Bool-cases (str_eq j k)) [
      | inl same ↦ rw same (sym there ∙ ap (λ n. lookup n b) ((eq_iff j k).0 same))
      | inr other ↦ rw other (ih ∙ lookup-delete j k b ∙ rw other refl)
    ]
  where
    both : (o : Option String) (r : Bool) → (has_value v o && r) ≡ true → (o ≡ some v) × (r ≡ true)
    both none r h = cc
    both (some w) r h = elim (Bool-cases (str_eq w v)) [
      | inl same ↦ (ap some ((eq_iff w v).0 same), rw same at h)
      | inr other ↦ absurd (false_ne_true (rw other at h))
    ]

    without :
        (a b : List (String × String)) (j : String)
        → lookup j a ≡ none
        → entries_in a b ≡ true
        → entries_in a (delete j b) ≡ true
    without [] b j absent h = refl
    without ((i, w) ∷ a) b j absent h =
        ground (arith, absent, h, lookup-delete j i b, eq_iff i j, eq_iff j i, without a b j)

-- Maps with the same values are as long.
length_same :
    (a b : List (String × String))
    → HasUniqueKeys a
    → HasUniqueKeys b
    → ((k : String) → lookup k a ≡ lookup k b)
    → length a ≡ length b
unfolding lookup
length_same [] [] ua ub same = refl
length_same [] ((j, v) ∷ b) ua ub same = absurd (clash (same j ∙ rw (eq_refl j) refl))
  where
    clash : ◌≡◌ {A = Option String} none (some v) → ⊥
    clash e = cc
length_same ((j, v) ∷ a) b ua ub same =
    let there : lookup j b ≡ some v = sym (same j) ∙ rw (eq_refl j) refl in
    let ih =
      length_same a (delete j b) ua.1 (delete-HasUniqueKeys j b ub)
        (λ k. without k (Bool-cases (str_eq j k))) in
    omega (arith, ih, length-delete j v b ub there)
  where
    without :
        (k : String)
        → (str_eq j k ≡ true) ⊎ (str_eq j k ≡ false)
        → lookup k a ≡ lookup k (delete j b)
    without k (inl is_j) =
        subst (λ n. lookup n a ≡ none) ((eq_iff j k).0 is_j) ua.0
        ∙ sym (lookup-delete j k b ∙ rw is_j refl)
    without k (inr other) =
        (let e = same k in rw other at e) ∙ sym (lookup-delete j k b ∙ rw other refl)

in_entries :
    (a b : List (String × String))
    → HasUniqueKeys a
    → ((k v : String) → lookup k a ≡ some v → lookup k b ≡ some v)
    → entries_in a b ≡ true
unfolding entries_in lookup
in_entries [] b ua sub = refl
in_entries ((j, v) ∷ a) b ua sub =
    let there : lookup j b ≡ some v = sub j v (rw (eq_refl j) refl) in
    let rest =
      in_entries a b ua.1 (λ k w found. sub k w (later k w found (Bool-cases (str_eq j k)))) in
    rw there (rw (eq_refl v) rest)
  where
    clash : (w : String) → ◌≡◌ {A = Option String} none (some w) → ⊥
    clash w e = cc

    later :
        (k w : String)
        → lookup k a ≡ some w
        → (str_eq j k ≡ true) ⊎ (str_eq j k ≡ false)
        → (let rest = lookup k a in if str_eq j k then some v else rest) ≡ some w
    later k w found (inl is_j) =
        absurd (clash w (sym ua.0 ∙ ap (λ n. lookup n a) ((eq_iff j k).0 is_j) ∙ found))
    later k w found (inr other) = rw other found

abbrev pub SameValues : List (String × String) → List (String × String) → Type 0
SameValues a b = (k : String) → lookup k a ≡ lookup k b

pub string_map_equal_iff :
    (a b : List (String × String))
    → HasUniqueKeys a
    → HasUniqueKeys b
    → (string_map_equal a b ≡ true) ↔ SameValues a b
unfolding string_map_equal
string_map_equal_iff a b ua ub = (λ h. forth h, λ same. back same)
  where
    forth : (length a == length b && entries_in a b) ≡ true → SameValues a b
    forth h = elim (Bool-cases (length a == length b)) [
      | inl e ↦ entries_in_same a b ua ub ((==_iff _ _).0 e) (rw e at h)
      | inr e ↦ absurd (false_ne_true (rw e at h))
    ]

    back : SameValues a b → (length a == length b && entries_in a b) ≡ true
    back same =
        let e : (length a == length b) ≡ true = (==_iff _ _).1 (length_same a b ua ub same) in
        rw e (in_entries a b ua (λ k v found. sym (same k) ∙ found))
