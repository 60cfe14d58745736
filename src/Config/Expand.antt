-- ===== src/Config/Expand.antt =====
-- internal/config/envsubst.go, ExpandEnv: references to the environment in the text of a configuration
-- file. `reference_at` is what the regular expression \$\{([^}:]+)(?::-([^}]*))?\} matches at the front
-- of a text, with the name and the default value. A text is the list of its bytes.
use phpeek_pm.Prelude.{
  ℕ, zero, suc, Bool, not, ◌||◌, if◌then◌else◌, [], ◌∷◌, ◌++◌, Option, none, some, ◌==◌, length,
}
use phpeek_pm.Config.Override.{Text, is_empty_text}

-- The longest front of the bytes that a test holds of, and the rest.
unfoldable pub span : (ℕ → Bool) → Text → Text × Text
span test [] = ([], [])
span test (c ∷ s) =
    let (front, rest) = span test s in if test c then (c ∷ front, rest) else ([], c ∷ s)

-- [^}:] and [^}]
abbrev pub in_name : ℕ → Bool
in_name c = not (c == 125 || c == 58)

abbrev pub in_default : ℕ → Bool
in_default c = not (c == 125)

abbrev pub Reference : Type 0
Reference = (Text × Text) × Text

-- The closing brace.
abbrev pub close : Text → Text × Text → Option Reference
close name (value, []) = none
close name (value, c ∷ rest) = some ((name, value), rest)

abbrev pub after_colon : Text → Text → Option Reference
after_colon name [] = none
after_colon name (c ∷ s) = if c == 45 then close name (span in_default s) else none

abbrev pub after_name : Text × Text → Option Reference
after_name (name, []) = none
after_name (name, c ∷ s) =
    if is_empty_text name
    then none
    else if c == 125
    then some ((name, []), s)
    else after_colon name s

abbrev pub after_dollar : Text → Option Reference
after_dollar [] = none
after_dollar (c ∷ s) = if c == 123 then after_name (span in_name s) else none

unfoldable pub reference_at : Text → Option Reference
unfolding span
reference_at [] = none
reference_at (c ∷ s) = if c == 36 then after_dollar s else none

-- os.Getenv gives the empty text for a variable that is not set.
abbrev pub value_of : (Text → Text) → Text → Text → Text
value_of getenv name default =
    let value = getenv name in if is_empty_text value then default else value

-- ReplaceAllStringFunc; the length of the text is enough fuel.
unfoldable pub expand_from : (Text → Text) → ℕ → Text → Text
unfolding reference_at
expand_from getenv zero s = []
expand_from getenv (suc fuel) [] = []
expand_from getenv (suc fuel) (c ∷ s) = elim (reference_at (c ∷ s)) [
  | none ↦ c ∷ expand_from getenv fuel s
  | some ((name, default), rest) ↦ value_of getenv name default ++ expand_from getenv fuel rest
]

unfoldable pub expand_env : (Text → Text) → Text → Text
unfolding expand_from
expand_env getenv content = expand_from getenv (length content) content
