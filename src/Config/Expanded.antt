-- ===== src/Config/Expanded.antt =====
-- What ExpandEnv makes of a text that is written as a sequence of bytes and references.
use phpeek_pm.Prelude.{
  if◌then◌else◌, ℕ, zero, suc, ◌≤◌, ◌≡◌, refl, sym, subst, inl, inr, Bool-cases, Option-cases,
  some_inj, ap, ◌∙◌, arith, Bool, true, false, List, [], ◌∷◌, ◌++◌, append_assoc, Option, none,
  some, ◌==◌, length, length-append,
}
use phpeek_pm.Config.Override.{Text, is_empty_text}
use phpeek_pm.Config.Expand.{
  span, in_name, in_default, Reference, close, after_colon, after_name, reference_at, value_of,
  expand_from, expand_env,
}

-- A byte, or a reference with its name and default value.
pub data Segment : Type 0 where
  byte : ℕ → Segment
  reference : Text → Option Text → Segment

abbrev pub AllBytes : (ℕ → Bool) → Text → Type 0
AllBytes test [] = Unit {0}
AllBytes test (c ∷ s) = (test c ≡ true) × AllBytes test s

abbrev pub default_of : Option Text → Text
default_of none = []
default_of (some s) = s

abbrev pub print_segment : Segment → Text
print_segment (byte c) = c ∷ []
print_segment (reference name none) = 36 ∷ 123 ∷ (name ++ 125 ∷ [])
print_segment (reference name (some default)) = 36 ∷ 123 ∷ (name ++ 58 ∷ 45 ∷ (default ++ 125 ∷ []))

abbrev pub print : List Segment → Text
print [] = []
print (s ∷ l) = print_segment s ++ print l

-- A name is not empty and has no `}` and no `:`; a default value has no `}`.
abbrev pub IsReference : Text → Option Text → Type 0
IsReference name default =
    (is_empty_text name ≡ false)
    × (AllBytes in_name name × AllBytes in_default (default_of default))

-- No reference stands at the beginning of a text.
abbrev pub BeginsWithNone : Text → Type 0
BeginsWithNone s =
    (name : Text) (default : Option Text) (tail : Text)
    → IsReference name default
    → s ≡ print_segment (reference name default) ++ tail
    → ⊥

-- Every reference of the text is written as one.
abbrev pub ArePlain : List Segment → Type 0
ArePlain [] = Unit {0}
ArePlain (byte c ∷ l) = BeginsWithNone (c ∷ print l) × ArePlain l
ArePlain (reference name default ∷ l) = IsReference name default × ArePlain l

-- A value, or the default value where it is empty.
abbrev pub or_default : Text → Text → Text
or_default [] default = default
or_default (c ∷ value) default = c ∷ value

abbrev pub render_segment : (Text → Text) → Segment → Text
render_segment getenv (byte c) = c ∷ []
render_segment getenv (reference name default) = or_default (getenv name) (default_of default)

abbrev pub render : (Text → Text) → List Segment → Text
render getenv [] = []
render getenv (s ∷ l) = render_segment getenv s ++ render getenv l

span_stops :
    (test : ℕ → Bool) (front rest : Text) (c : ℕ)
    → AllBytes test front
    → test c ≡ false
    → span test (front ++ c ∷ rest) ≡ (front, c ∷ rest)
unfolding span
span_stops test [] rest c all stops = rw stops refl
span_stops test (d ∷ front) rest c (here, all) stops =
    rw (here, span_stops test front rest c all stops) refl

reference_at_name :
    (name rest : Text)
    → is_empty_text name ≡ false
    → AllBytes in_name name
    → reference_at (36 ∷ 123 ∷ (name ++ 125 ∷ rest)) ≡ some ((name, []), rest)
unfolding reference_at
reference_at_name name rest some_name all =
    rw (span_stops in_name name rest 125 all refl, some_name) refl

reference_at_default :
    (name default rest : Text)
    → is_empty_text name ≡ false
    → AllBytes in_name name
    → AllBytes in_default default
    → reference_at (36 ∷ 123 ∷ (name ++ 58 ∷ 45 ∷ (default ++ 125 ∷ rest)))
      ≡ some ((name, default), rest)
unfolding reference_at
reference_at_default name default rest some_name all all_default =
    rw
      (
        span_stops in_name name (45 ∷ (default ++ 125 ∷ rest)) 58 all refl,
        some_name,
        span_stops in_default default rest 125 all_default refl,
      )
      refl

print_name :
    (name rest : Text)
    → print_segment (reference name none) ++ rest ≡ 36 ∷ 123 ∷ (name ++ 125 ∷ rest)
print_name name rest = ap (λ t. 36 ∷ 123 ∷ t) (append_assoc name (125 ∷ []) rest)

print_default :
    (name default rest : Text)
    → print_segment (reference name (some default)) ++ rest
      ≡ 36 ∷ 123 ∷ (name ++ 58 ∷ 45 ∷ (default ++ 125 ∷ rest))
print_default name default rest =
    ap (λ t. 36 ∷ 123 ∷ t)
      (append_assoc name (58 ∷ 45 ∷ (default ++ 125 ∷ [])) rest
        ∙ ap (λ t. name ++ 58 ∷ 45 ∷ t) (append_assoc default (125 ∷ []) rest))

-- A reference that is written is read.
reference_at-print :
    (name : Text) (default : Option Text) (rest : Text)
    → IsReference name default
    → reference_at (print_segment (reference name default) ++ rest)
      ≡ some ((name, default_of default), rest)
reference_at-print name none rest (some_name, (all, d)) =
    ap reference_at (print_name name rest) ∙ reference_at_name name rest some_name all
reference_at-print name (some default) rest (some_name, (all, d)) =
    ap reference_at (print_default name default rest)
    ∙ reference_at_default name default rest some_name all d

span_joins : (test : ℕ → Bool) (s : Text) → (span test s).0 ++ (span test s).1 ≡ s
unfolding span
span_joins test [] = refl
span_joins test (c ∷ s) = elim (Bool-cases (test c)) [
  | inl holds ↦ rw holds (ap (λ t. c ∷ t) (span_joins test s))
  | inr fails ↦ rw fails refl
]

span-AllBytes : (test : ℕ → Bool) (s : Text) → AllBytes test (span test s).0
unfolding span
span-AllBytes test [] = tt
span-AllBytes test (c ∷ s) = elim (Bool-cases (test c)) [
  | inl holds ↦ rw holds (holds, span-AllBytes test s)
  | inr fails ↦ rw fails tt
]

abbrev Stops : (ℕ → Bool) → Text → Type 0
Stops test [] = Unit {0}
Stops test (c ∷ s) = test c ≡ false

span-Stops : (test : ℕ → Bool) (s : Text) → Stops test (span test s).1
unfolding span
span-Stops test [] = tt
span-Stops test (c ∷ s) = elim (Bool-cases (test c)) [
  | inl holds ↦ rw holds (span-Stops test s)
  | inr fails ↦ rw fails fails
]

-- What is read is written there.
abbrev IsWritten : Text → Reference → Type 0
IsWritten t r =
    (default : Option Text) × IsReference r.0.0 default
    × (r.0.1 ≡ default_of default)
    × (print_segment (reference r.0.0 default) ++ r.1 ≡ t)

close-IsWritten :
    (name value more : Text) (r : Reference)
    → is_empty_text name ≡ false
    → AllBytes in_name name
    → AllBytes in_default value
    → Stops in_default more
    → close name (value, more) ≡ some r
    → IsWritten (36 ∷ 123 ∷ (name ++ 58 ∷ 45 ∷ (value ++ more))) r
close-IsWritten name value [] r some_name all d stop e = cc
close-IsWritten name value (c ∷ rest) r some_name all d stop e =
    let closing : c ≡ 125 = ground (arith, stop) in
    subst (IsWritten (36 ∷ 123 ∷ (name ++ 58 ∷ 45 ∷ (value ++ c ∷ rest)))) (some_inj e) (
      some value,
      (some_name, (all, d)),
      refl,
      print_default name value rest
          ∙ ap (λ k. 36 ∷ 123 ∷ (name ++ 58 ∷ 45 ∷ (value ++ k ∷ rest))) (sym closing),
    )

after_colon-IsWritten :
    (name s : Text) (r : Reference)
    → is_empty_text name ≡ false
    → AllBytes in_name name
    → after_colon name s ≡ some r
    → IsWritten (36 ∷ 123 ∷ (name ++ 58 ∷ s)) r
after_colon-IsWritten name [] r some_name all e = cc
after_colon-IsWritten name (c ∷ s) r some_name all e = elim (Bool-cases (c == 45)) [
  | inr other ↦ absurd (clash (rw other at e))
  | inl dash ↦
      let is_dash : c ≡ 45 = ground (arith, dash) in
      subst (λ t. IsWritten (36 ∷ 123 ∷ (name ++ 58 ∷ t)) r)
        (ap (λ t. 45 ∷ t) (span_joins in_default s) ∙ ap (λ k. k ∷ s) (sym is_dash))
        (close-IsWritten name (span in_default s).0 (span in_default s).1 r some_name all
          (span-AllBytes in_default s) (span-Stops in_default s) (rw dash at e))
]
  where
    clash : none ≡ some r → ⊥
    clash h = cc

after_name-IsWritten :
    (name more : Text) (r : Reference)
    → AllBytes in_name name
    → Stops in_name more
    → after_name (name, more) ≡ some r
    → IsWritten (36 ∷ 123 ∷ (name ++ more)) r
after_name-IsWritten name [] r all stop e = cc
after_name-IsWritten name (c ∷ s) r all stop e = elim (Bool-cases (is_empty_text name)) [
  | inl empty ↦ absurd (clash (rw empty at e))
  | inr some_name ↦ elim (Bool-cases (c == 125)) [
    | inl closes ↦
        let closing : c ≡ 125 = ground (arith, closes) in
        subst (IsWritten (36 ∷ 123 ∷ (name ++ c ∷ s))) (some_inj (rw (some_name, closes) at e)) (
          none,
          (some_name, (all, tt)),
          refl,
          print_name name s ∙ ap (λ k. 36 ∷ 123 ∷ (name ++ k ∷ s)) (sym closing),
        )
    | inr goes_on ↦
        let colon : c ≡ 58 = ground (arith, stop, goes_on) in
        subst (λ k. IsWritten (36 ∷ 123 ∷ (name ++ k ∷ s)) r) (sym colon)
          (after_colon-IsWritten name s r some_name all (rw (some_name, goes_on) at e))
  ]
]
  where
    clash : none ≡ some r → ⊥
    clash h = cc

reference_at-IsWritten : (t : Text) (r : Reference) → reference_at t ≡ some r → IsWritten t r
unfolding reference_at
reference_at-IsWritten [] r e = cc
reference_at-IsWritten (c ∷ []) r e = elim (Bool-cases (c == 36)) [
  | inl dollar ↦ absurd (clash (rw dollar at e))
  | inr other ↦ absurd (clash (rw other at e))
]
  where
    clash : none ≡ some r → ⊥
    clash h = cc
reference_at-IsWritten (c ∷ d ∷ s) r e = elim (Bool-cases (c == 36)) [
  | inr other ↦ absurd (clash (rw other at e))
  | inl dollar ↦ elim (Bool-cases (d == 123)) [
    | inr other ↦ absurd (clash (rw (dollar, other) at e))
    | inl brace ↦
        let is_dollar : c ≡ 36 = ground (arith, dollar) in
        let is_brace : d ≡ 123 = ground (arith, brace) in
        subst (λ t. IsWritten t r)
          (ap (λ t. 36 ∷ 123 ∷ t) (span_joins in_name s)
            ∙ ap (λ k. 36 ∷ k ∷ s) (sym is_brace)
            ∙ ap (λ k. k ∷ d ∷ s) (sym is_dollar))
          (after_name-IsWritten (span in_name s).0 (span in_name s).1 r (span-AllBytes in_name s)
            (span-Stops in_name s) (rw (dollar, brace) at e))
  ]
]
  where
    clash : none ≡ some r → ⊥
    clash h = cc

none-BeginsWithNone : (t : Text) → reference_at t ≡ none → BeginsWithNone t
none-BeginsWithNone t e name default tail is at_start =
    clash (sym e ∙ ap reference_at at_start ∙ reference_at-print name default tail is)
  where
    clash : {r : Reference} → none ≡ some r → ⊥
    clash h = cc

BeginsWithNone-none : (t : Text) → BeginsWithNone t → reference_at t ≡ none
BeginsWithNone-none t begins = elim (Option-cases (reference_at t)) [
  | inl nothing ↦ nothing
  | inr (r, found) ↦
      let (default, is, same, written) = reference_at-IsWritten t r found in
      absurd (begins r.0.0 default r.1 is (sym written))
]

-- Every text is written as segments.
written_from :
    (fuel : ℕ) (s : Text) → length s ≤ fuel → (l : List Segment) × ArePlain l × (print l ≡ s)
written_from zero [] enough = ([], tt, refl)
written_from zero (c ∷ s) enough = absurd (omega (arith, enough))
written_from (suc fuel) [] enough = ([], tt, refl)
written_from (suc fuel) (c ∷ s) enough = elim (Option-cases (reference_at (c ∷ s))) [
  | inl nothing ↦
      let (l, plain, same) = written_from fuel s (omega (arith, enough)) in
      (
        byte c ∷ l,
        (
          subst (λ t. BeginsWithNone (c ∷ t)) (sym same) (none-BeginsWithNone (c ∷ s) nothing),
          plain,
        ),
        ap (λ t. c ∷ t) same,
      )
  | inr (r, found) ↦
      let (default, is, value, written) = reference_at-IsWritten (c ∷ s) r found in
      let shorter : length r.1 ≤ fuel = omega (
        arith,
        enough,
        ap length written,
        length-append (print_segment (reference r.0.0 default)) r.1,
        some_bytes r.0.0 default,
      ) in
      let (l, plain, same) = written_from fuel r.1 shorter in
      (
        reference r.0.0 default ∷ l,
        (is, plain),
        ap (λ t. print_segment (reference r.0.0 default) ++ t) same ∙ written,
      )
]
  where
    some_bytes :
        (name : Text) (default : Option Text) → 1 ≤ length (print_segment (reference name default))
    some_bytes name none = omega arith
    some_bytes name (some default) = omega arith

module _ (getenv : Text → Text) where
  expand_reference :
      (fuel : ℕ) (c : ℕ) (s name default rest expanded : Text)
      → reference_at (c ∷ s) ≡ some ((name, default), rest)
      → expand_from getenv fuel rest ≡ expanded
      → expand_from getenv (suc fuel) (c ∷ s) ≡ value_of getenv name default ++ expanded
  unfolding expand_from
  expand_reference fuel c s name default rest expanded is e = rw (is, expand_from, e) refl

  expand_byte :
      (fuel : ℕ) (c : ℕ) (s : Text)
      → reference_at (c ∷ s) ≡ none
      → expand_from getenv (suc fuel) (c ∷ s) ≡ c ∷ expand_from getenv fuel s
  unfolding expand_from
  expand_byte fuel c s is = rw (is, expand_from) refl

  value_of_lem :
      (name default : Text) → value_of getenv name default ≡ or_default (getenv name) default
  value_of_lem name default = by_value (getenv name)
    where
      by_value :
          (value : Text)
          → (if is_empty_text value then default else value) ≡ or_default value default
      by_value [] = refl
      by_value (c ∷ value) = refl

  expand-print :
      (l : List Segment) (fuel : ℕ)
      → ArePlain l
      → length (print l) ≤ fuel
      → expand_from getenv fuel (print l) ≡ render getenv l
  unfolding expand_from
  expand-print [] zero plain enough = refl
  expand-print [] (suc fuel) plain enough = refl
  expand-print (byte c ∷ l) zero plain enough = absurd (omega (arith, enough))
  expand-print (byte c ∷ l) (suc fuel) (begins, plain) enough =
      expand_byte fuel c (print l) (BeginsWithNone-none (c ∷ print l) begins)
      ∙ ap (λ s. c ∷ s) (expand-print l fuel plain (omega (arith, enough)))
  expand-print (reference name none ∷ l) zero plain enough = absurd (omega (arith, enough))
  expand-print (reference name none ∷ l) (suc fuel) (is, plain) enough =
      let text = name ++ 125 ∷ [] in
      expand_reference fuel 36 (123 ∷ (text ++ print l)) name [] (print l) (render getenv l)
        (reference_at-print name none (print l) is)
        (expand-print l fuel plain (omega (arith, enough, length-append text (print l))))
      ∙ ap (λ t. t ++ render getenv l) (value_of_lem name [])
  expand-print (reference name (some default) ∷ l) zero plain enough =
      absurd (omega (arith, enough))
  expand-print (reference name (some default) ∷ l) (suc fuel) (is, plain) enough =
      let text = name ++ 58 ∷ 45 ∷ (default ++ 125 ∷ []) in
      expand_reference fuel 36 (123 ∷ (text ++ print l)) name default (print l) (render getenv l)
        (reference_at-print name (some default) (print l) is)
        (expand-print l fuel plain (omega (arith, enough, length-append text (print l))))
      ∙ ap (λ t. t ++ render getenv l) (value_of_lem name default)

  -- Every text is a sequence of references and of bytes at which no reference begins. A reference is
  -- `${name}` or `${name:-default}`; the name is not empty and has no `}` and no `:`, the default value
  -- has no `}`. ExpandEnv puts for each reference the value of its variable, or the default value where
  -- that is empty, and changes no other byte.
  pub expand_env-print :
      ((s : Text) → (l : List Segment) × ArePlain l × (print l ≡ s))
      × ((l : List Segment) → ArePlain l → expand_env getenv (print l) ≡ render getenv l)
  unfolding expand_env
  expand_env-print = (
    λ s. written_from (length s) s (omega arith),
    λ l plain. expand-print l (length (print l)) plain (omega arith),
  )
