-- ===== src/Config/Override.antt =====
-- internal/config/envsubst.go: environment variables that override fields of the configuration. A text
-- is the list of its bytes. The configuration before it is decoded is a tree of maps, as the YAML
-- library makes it; `parse` is parseEnvValue, which gives what a value of the environment stands for.
-- The tree of the fields, which the source builds by reflection, is an argument.
use phpeek_pm.Prelude.{
  ℕ, zero, suc, ◌+◌, ◌-◌, Bool, true, false, ◌&&◌, if◌then◌else◌, List, [], ◌∷◌, ◌++◌, map, String,
  Option, none, some, leb, ◌==◌, length, take, drop,
}
use Prim.Native.Char.{code}

abbrev pub Text : Type 0
Text = List ℕ

abbrev pub codes : String → Text
codes String.[] = []
codes (String.◌∷◌ c s) = code c ∷ codes s

unfoldable pub text_eq : Text → Text → Bool
text_eq [] [] = true
text_eq [] (d ∷ t) = false
text_eq (c ∷ s) [] = false
text_eq (c ∷ s) (d ∷ t) = c == d && text_eq s t

abbrev pub lower_byte : ℕ → ℕ
lower_byte c = if leb 65 c && leb c 90 then c + 32 else c

abbrev pub upper_byte : ℕ → ℕ
upper_byte c = if leb 97 c && leb c 122 then c - 32 else c

-- strings.ToLower, ToUpper and ReplaceAll of a byte
abbrev pub to_lower : Text → Text
to_lower s = map lower_byte s

abbrev pub to_upper : Text → Text
to_upper s = map upper_byte s

abbrev pub replace_all : ℕ → ℕ → Text → Text
replace_all old new s = map (λ c. if c == old then new else c) s

abbrev pub onto_first : ℕ → List Text → List Text
onto_first c [] = (c ∷ []) ∷ []
onto_first c (s ∷ l) = (c ∷ s) ∷ l

-- strings.Split and Join at an underscore
unfoldable pub split : Text → List Text
split [] = [] ∷ []
split (c ∷ s) = let rest = split s in if c == 95 then [] ∷ rest else onto_first c rest

unfoldable pub join : List Text → Text
join [] = []
join (s ∷ []) = s
join (s ∷ t ∷ l) = s ++ 95 ∷ join (t ∷ l)

unfoldable pub strip_prefix : Text → Text → Option Text
strip_prefix [] s = some s
strip_prefix (c ∷ front) [] = none
strip_prefix (c ∷ front) (d ∷ s) = let rest = strip_prefix front s in if c == d then rest else none

-- What stands before and behind the first place of `sep`.
unfoldable pub cut : Text → Text → Option (Text × Text)
unfolding strip_prefix
cut sep [] = elim (strip_prefix sep []) [ some rest ↦ some ([], rest) | none ↦ none ]
cut sep (c ∷ s) =
    let later = cut sep s in
    elim (strip_prefix sep (c ∷ s)) [
      | some rest ↦ some ([], rest)
      | none ↦ elim later [ none ↦ none | some (before, rest) ↦ some (c ∷ before, rest) ]
    ]

mutual
  pub data FieldNode : Type 0 where
    field_node : Text → Fields → FieldNode

  pub data Fields : Type 0 where
    no_fields : Fields
    field : Text → FieldNode → Fields → Fields

mutual
  pub data Value : Type 0 where
    scalar : Text → Value
    mapping : Entries → Value

  pub data Entries : Type 0 where
    no_entries : Entries
    entry : Text → Value → Entries → Entries

abbrev pub key : FieldNode → Text
key (field_node k children) = k

abbrev pub children : FieldNode → Fields
children (field_node k fields) = fields

unfoldable pub find_field : Text → Fields → Option FieldNode
unfolding text_eq
find_field name no_fields = none
find_field name (field k child fields) =
    let rest = find_field name fields in if text_eq k name then some child else rest

-- The loop of matchFieldPath: the longest prefix of the tokens is tried first.
unfoldable pub longest :
    (List Text → List Text → Option (List Text)) → ℕ → List Text → Option (List Text)
longest try zero tokens = none
longest try (suc i) tokens =
    let shorter = longest try i tokens in
    elim (try (take (suc i) tokens) (drop (suc i) tokens)) [
      | some path ↦ some path
      | none ↦ shorter
    ]

-- `fuel` bounds the depth: one more than there are tokens is enough.
unfoldable pub match_field_path : ℕ → FieldNode → List Text → Option (List Text)
unfolding longest find_field join
match_field_path zero node tokens = none
match_field_path (suc fuel) node [] = some []
match_field_path (suc fuel) node (t ∷ ts) =
    longest
      (λ front rest. elim (find_field (join front) (children node)) [
        | none ↦ none
        | some child ↦ elim (match_field_path fuel child rest) [
          | none ↦ none
          | some path ↦ some (key child ∷ path)
        ]
      ])
      (length (t ∷ ts)) (t ∷ ts)

-- m[key] and m[key] = value
unfoldable pub get : Text → Entries → Option Value
unfolding text_eq
get k no_entries = none
get k (entry j v m) = let rest = get k m in if text_eq j k then some v else rest

unfoldable pub put : Text → Value → Entries → Entries
unfolding text_eq
put k v no_entries = entry k v no_entries
put k v (entry j w m) = let rest = put k v m in if text_eq j k then entry j v m else entry j w rest

abbrev pub map_of : Option Value → Entries
map_of none = no_entries
map_of (some (scalar s)) = no_entries
map_of (some (mapping m)) = m

-- The map that ensureMap returns; the callers below store it under the key.
abbrev pub ensure_map : Entries → Text → Entries
ensure_map m k = map_of (get k m)

unfoldable pub set_nested_value : Entries → List Text → Value → Entries
unfolding get put
set_nested_value root [] value = root
set_nested_value root (k ∷ []) value = put k value root
set_nested_value root (k ∷ j ∷ path) value =
    put k (mapping (set_nested_value (ensure_map root k) (j ∷ path) value)) root

-- The name of the process whose name has the encoding, or the empty text.
unfoldable pub decode_process_name : Entries → Text → Text
unfolding text_eq
decode_process_name no_entries encoded = []
decode_process_name (entry name v processes) encoded =
    let rest = decode_process_name processes encoded in
    if text_eq (to_upper (replace_all 45 95 name)) (to_upper encoded) then name else rest

abbrev pub normalize_process_name : Text → Text
normalize_process_name encoded = to_lower (replace_all 95 45 encoded)

abbrev pub is_empty_text : Text → Bool
is_empty_text [] = true
is_empty_text (c ∷ s) = false

abbrev pub process_name : Entries → Text → Text
process_name processes encoded =
    let name = decode_process_name processes encoded in
    if is_empty_text name then normalize_process_name encoded else name

module _ (parse : Text → Value) where
  -- The loop of applyProcessEnvOverride over where the name ends.
  unfoldable pub override_from : FieldNode → ℕ → List Text → Text → Entries → Entries
  unfolding match_field_path set_nested_value decode_process_name
  override_from tree zero tokens value processes = processes
  override_from tree (suc at) tokens value processes =
      let field_tokens = map to_lower (drop (suc at) tokens) in
      let rest = override_from tree at tokens value processes in
      elim (match_field_path (suc (length field_tokens)) tree field_tokens) [
        | none ↦ rest
        | some path ↦
            let name = process_name processes (join (take (suc at) tokens)) in
            put name (mapping (set_nested_value (ensure_map processes name) path (parse value)))
              processes
      ]

  unfoldable pub apply_process_env_override : FieldNode → Text → Text → Entries → Entries
  unfolding cut split override_from
  apply_process_env_override tree segment value processes =
      if is_empty_text segment then processes else elim (cut (codes "_ENV_") segment) [
        | some (encoded, env_key) ↦
            if is_empty_text env_key
            then processes
            else set_nested_value processes
                (process_name processes encoded ∷ codes "env" ∷ env_key ∷ []) (scalar value)
        | none ↦
            let tokens = split segment in
            if leb 2 (length tokens)
            then override_from tree (length tokens - 1) tokens value processes
            else processes
      ]

  abbrev pub override_global : FieldNode → Text → Text → Entries → Entries
  override_global tree segment value globals =
      let tokens = split (to_lower segment) in
      elim (match_field_path (suc (length tokens)) tree tokens) [
        | none ↦ globals
        | some path ↦ set_nested_value globals path (parse value)
      ]

  -- One variable, with what stands under "global" and under "processes".
  unfoldable pub apply_env :
      FieldNode → FieldNode → Text → Text → Entries × Entries → Entries × Entries
  unfolding apply_process_env_override
  apply_env global_tree process_tree name value (globals, processes) =
      elim (strip_prefix (codes "PHPEEK_PM_GLOBAL_") name) [
        | some segment ↦ (override_global global_tree segment value globals, processes)
        | none ↦ elim (strip_prefix (codes "PHPEEK_PM_PROCESS_") name) [
          | some segment ↦
              (globals, apply_process_env_override process_tree segment value processes)
          | none ↦ (globals, processes)
        ]
      ]

  unfoldable pub apply_all :
      FieldNode → FieldNode → List (Text × Text) → Entries × Entries → Entries × Entries
  unfolding apply_env
  apply_all global_tree process_tree [] maps = maps
  apply_all global_tree process_tree ((name, value) ∷ environ) maps =
      apply_all global_tree process_tree environ
        (apply_env global_tree process_tree name value maps)

  unfoldable pub apply_env_overrides_map :
      FieldNode → FieldNode → List (Text × Text) → Entries → Entries
  unfolding apply_all
  apply_env_overrides_map global_tree process_tree environ raw =
      let (globals, processes) =
        apply_all global_tree process_tree environ
          (ensure_map raw (codes "global"), ensure_map raw (codes "processes")) in
      put (codes "processes") (mapping processes) (put (codes "global") (mapping globals) raw)
