-- ===== src/Config/Matching.antt =====
-- matchFieldPath finds a path of fields whenever the tokens can be read as one.
use phpeek_pm.Prelude.{
  ℕ, zero, suc, ◌≤◌, ◌<◌, ◌≡◌, ◌≢◌, subst, ◌∙◌, inl, inr, arith, Bool-cases, List, [], ◌∷◌, Option,
  Option-cases, none, some, some_inj, length, take, drop, leb, length-drop,
}
use phpeek_pm.Config.Override.{
  Text, FieldNode, key, children, find_field, join, longest, match_field_path,
}

-- The tokens can be read as a path of fields below a node: each key is some tokens, joined.
pub data Reads : FieldNode → List Text → List Text → Type 0 where
  ends : {node : FieldNode} → Reads node [] []
  goes :
      {node child : FieldNode} {tokens path : List Text} (i : ℕ)
      → 0 < i
      → i ≤ length tokens
      → find_field (join (take i tokens)) (children node) ≡ some child
      → Reads child (drop i tokens) path
      → Reads node tokens (key child ∷ path)

longest_sound :
    (try : List Text → List Text → Option (List Text)) (i : ℕ) (tokens path : List Text)
    → longest try i tokens ≡ some path
    → (j : ℕ) × (0 < j) × (j ≤ i) × (try (take j tokens) (drop j tokens) ≡ some path)
unfolding longest
longest_sound try zero tokens path e = cc
longest_sound try (suc i) tokens path e =
    elim (Option-cases (try (take (suc i) tokens) (drop (suc i) tokens))) [
      | inr (found, is) ↦ (suc i, omega arith, omega arith, is ∙ (rw (is, longest) at e))
      | inl none_here ↦
          let (j, positive, within, is) =
            longest_sound try i tokens path (rw (none_here, longest) at e) in
          (j, positive, omega (arith, within), is)
    ]

longest-none :
    (try : List Text → List Text → Option (List Text)) (i : ℕ) (tokens : List Text)
    → longest try i tokens ≡ none
    → (j : ℕ) → 0 < j
    → j ≤ i
    → try (take j tokens) (drop j tokens) ≡ none
unfolding longest
longest-none try zero tokens e j positive within = absurd (omega (arith, positive, within))
longest-none try (suc i) tokens e j positive within =
    elim (Option-cases (try (take (suc i) tokens) (drop (suc i) tokens))) [
      | inr (found, is) ↦ absurd (clash (rw (is, longest) at e))
      | inl none_here ↦ elim (Bool-cases (leb j i)) [
        | inl below ↦
            longest-none try i tokens (rw (none_here, longest) at e) j positive
              (ground (arith, below))
        | inr above ↦
            let top : suc i ≡ j = ground (arith, above, within) in
            subst (λ n. try (take n tokens) (drop n tokens) ≡ none) top none_here
      ]
    ]
  where
    clash : {p : List Text} → some p ≡ none → ⊥
    clash e = cc

-- What matchFieldPath tries for a prefix of the tokens.
abbrev tried : ℕ → FieldNode → List Text → List Text → Option (List Text)
tried fuel node front rest = elim (find_field (join front) (children node)) [
  | none ↦ none
  | some child ↦ elim (match_field_path fuel child rest) [
    | none ↦ none
    | some path ↦ some (key child ∷ path)
  ]
]

match_sound :
    (fuel : ℕ) (node : FieldNode) (tokens path : List Text)
    → match_field_path fuel node tokens ≡ some path
    → Reads node tokens path
unfolding match_field_path
match_sound zero node tokens path e = cc
match_sound (suc fuel) node [] path e = subst (λ p. Reads node [] p) (some_inj e) ends
match_sound (suc fuel) node (t ∷ ts) path e =
    let tokens = t ∷ ts in
    let (j, positive, within, is) = longest_sound (tried fuel node) (length tokens) tokens path e in
    elim (Option-cases (find_field (join (take j tokens)) (children node))) [
      | inl absent ↦ absurd (clash (rw (absent, tried) at is))
      | inr (child, found) ↦ elim (Option-cases (match_field_path fuel child (drop j tokens))) [
        | inl fails ↦ absurd (clash (rw (found, fails, tried) at is))
        | inr (rest, matches) ↦
            subst (λ p. Reads node tokens p) (some_inj (rw (found, matches, tried) at is))
              (goes j positive within found (match_sound fuel child (drop j tokens) rest matches))
      ]
    ]
  where
    clash : {p : List Text} → none ≡ some p → ⊥
    clash e = cc

match_complete :
    (fuel : ℕ) (node : FieldNode) (tokens path : List Text)
    → length tokens < fuel
    → Reads node tokens path
    → match_field_path fuel node tokens ≢ none
unfolding match_field_path
match_complete zero node tokens path enough reads e = absurd (omega (arith, enough))
match_complete (suc fuel) node [] path enough reads e = cc
match_complete (suc fuel) node (t ∷ ts) _ enough
      (goes {child = child} {path = path} i positive within found reads) e =
    let tokens = t ∷ ts in
    let fails = longest-none (tried fuel node) (length tokens) tokens e i positive within in
    elim (Option-cases (match_field_path fuel child (drop i tokens))) [
      | inl none_there ↦
          match_complete fuel child (drop i tokens) path
            (omega (arith, length-drop i tokens, enough, positive, within)) reads none_there
      | inr (rest, matches) ↦ clash (rw (found, matches, tried) at fails)
    ]
  where
    clash : {p : List Text} → some p ≡ none → ⊥
    clash e = cc

-- matchFieldPath, which tries the longest prefix first and goes back, returns a path as which the tokens
-- can be read, and returns none only where there is no such path.
pub match_field_path_lem :
    (node : FieldNode) (tokens : List Text)
    → ((path : List Text)
        → match_field_path (suc (length tokens)) node tokens ≡ some path
        → Reads node tokens path)
      × (match_field_path (suc (length tokens)) node tokens ≡ none
          → (path : List Text) → Reads node tokens path
          → ⊥)
match_field_path_lem node tokens = (
  λ path e. match_sound (suc (length tokens)) node tokens path e,
  λ e path reads. match_complete (suc (length tokens)) node tokens path (omega arith) reads e,
)
