-- ===== src/Config/Nested.antt =====
-- A value that an override sets is read back, and no other value changes.
use phpeek_pm.Prelude.{
  ◌≡◌, refl, ap, ◌∙◌, ◌⊎◌, ◌↔◌, inl, inr, arith, true, false, Bool-cases, false_ne_true,
  if◌then◌else◌, List, [], ◌∷◌, Option, none, some, ==_iff,
}
use phpeek_pm.Config.Override.{
  Text, text_eq, Value, mapping, Entries, no_entries, entry, get, put, map_of, ensure_map,
  set_nested_value,
}

pub text_eq_iff : (s t : Text) → (text_eq s t ≡ true) ↔ (s ≡ t)
unfolding text_eq
text_eq_iff [] [] = (λ e. refl, λ e. refl)
text_eq_iff [] (d ∷ t) = (λ e. absurd (false_ne_true e), λ e. cc)
text_eq_iff (c ∷ s) [] = (λ e. absurd (false_ne_true e), λ e. cc)
text_eq_iff (c ∷ s) (d ∷ t) = ground (arith, ==_iff c d, text_eq_iff s t)

pub text_eq_refl : (s : Text) → text_eq s s ≡ true
text_eq_refl s = (text_eq_iff s s).1 refl

get-put :
    (k j : Text) (v : Value) (m : Entries)
    → get j (put k v m) ≡ (if text_eq k j then some v else get j m)
unfolding get put
get-put k j v no_entries = refl
get-put k j v (entry i w m) =
    ground (arith, text_eq_iff k j, text_eq_iff i k, text_eq_iff i j, get-put k j v m)

-- What stands at a path.
abbrev pub read : Entries → List Text → Option Value
read m [] = none
read m (k ∷ []) = get k m
read m (k ∷ j ∷ path) = read (map_of (get k m)) (j ∷ path)

-- Neither path goes on from the other.
abbrev pub Diverge : List Text → List Text → Type 0
Diverge [] q = ⊥
Diverge (k ∷ p) [] = ⊥
Diverge (k ∷ p) (j ∷ q) = (text_eq k j ≡ false) ⊎ Diverge p q

read-set_same :
    (k : Text) (path : List Text) (value : Value) (m : Entries)
    → read (set_nested_value m (k ∷ path) value) (k ∷ path) ≡ some value
unfolding set_nested_value
read-set_same k [] value m = get-put k k value m ∙ rw (text_eq_refl k) refl
read-set_same k (j ∷ path) value m =
    let below = mapping (set_nested_value (ensure_map m k) (j ∷ path) value) in
    rw (get-put k k below m, text_eq_refl k) (read-set_same j path value (ensure_map m k))

read-put_other :
    (k j : Text) (v : Value) (m : Entries) (q : List Text)
    → text_eq k j ≡ false
    → read (put k v m) (j ∷ q) ≡ read m (j ∷ q)
read-put_other k j v m [] apart = get-put k j v m ∙ rw apart refl
read-put_other k j v m (i ∷ q) apart =
    let same : get j (put k v m) ≡ get j m = get-put k j v m ∙ rw apart refl in
    ap (λ w. read (map_of w) (i ∷ q)) same

read-set_other :
    (path q : List Text) (value : Value) (m : Entries)
    → Diverge path q
    → read (set_nested_value m path value) q ≡ read m q
unfolding set_nested_value
read-set_other [] q value m d = absurd d
read-set_other (k ∷ path) [] value m d = absurd d
read-set_other (k ∷ []) (j ∷ q) value m (inl apart) = read-put_other k j value m q apart
read-set_other (k ∷ []) (j ∷ q) value m (inr d) = absurd d
read-set_other (k ∷ l ∷ path) (j ∷ q) value m (inl apart) =
    read-put_other k j (mapping (set_nested_value (ensure_map m k) (l ∷ path) value)) m q apart
read-set_other (k ∷ l ∷ path) (j ∷ []) value m (inr d) = absurd d
read-set_other (k ∷ l ∷ path) (j ∷ i ∷ q) value m (inr d) =
    let below = mapping (set_nested_value (ensure_map m k) (l ∷ path) value) in
    elim (Bool-cases (text_eq k j)) [
      | inr apart ↦ read-put_other k j below m (i ∷ q) apart
      | inl same ↦
          let here : get j (put k below m) ≡ some below = get-put k j below m ∙ rw same refl in
          ap (λ v. read (map_of v) (i ∷ q)) here
          ∙ read-set_other (l ∷ path) (i ∷ q) value (ensure_map m k) d
          ∙ ap (λ n. read (map_of (get n m)) (i ∷ q)) ((text_eq_iff k j).0 same)
    ]

-- What setNestedValue stores at a path is what stands there afterwards, also where a map on the way was
-- missing or something else, and what stands at a path that parts from it is as it was.
pub set_nested_value_lem :
    (k : Text) (path : List Text) (value : Value) (m : Entries)
    → (read (set_nested_value m (k ∷ path) value) (k ∷ path) ≡ some value)
      × ((q : List Text)
          → Diverge (k ∷ path) q
          → read (set_nested_value m (k ∷ path) value) q ≡ read m q)
set_nested_value_lem k path value m =
    (read-set_same k path value m, λ q d. read-set_other (k ∷ path) q value m d)
