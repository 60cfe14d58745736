-- ===== src/Config/OverrideTests.antt =====
-- Overrides from the environment at concrete inputs.
use phpeek_pm.Prelude.{if◌then◌else◌, ◌≡◌, refl, List, [], ◌∷◌, none, some}
use phpeek_pm.Config.Override.{
  Text, codes, text_eq, split, join, strip_prefix, cut, FieldNode, field_node, no_fields, field,
  scalar, mapping, Entries, no_entries, entry, find_field, longest, match_field_path, get, put,
  set_nested_value, decode_process_name, override_from, apply_process_env_override, apply_env,
  apply_all, apply_env_overrides_map,
}
use phpeek_pm.Config.Nested.{read, Diverge, set_nested_value_lem}
use phpeek_pm.Config.Matching.{Reads, match_field_path_lem}
use phpeek_pm.Config.Expand.{span, reference_at, expand_from, expand_env}
use phpeek_pm.Config.Expanded.{Segment, byte, reference, print, render, ArePlain, expand_env-print}

runs : Unit {0}
unfolding text_eq split join strip_prefix cut find_field longest match_field_path get put
    set_nested_value decode_process_name override_from apply_process_env_override apply_env
    apply_all apply_env_overrides_map span reference_at expand_from expand_env
runs = tt

abbrev leaf : Text → FieldNode
leaf k = field_node k no_fields

abbrev health : FieldNode
health = field_node (codes "health_check") (field (codes "type") (leaf (codes "type")) no_fields)

abbrev process_fields : FieldNode
process_fields =
    field_node []
      (field (codes "type") (leaf (codes "type")) (field (codes "health_check") health no_fields))

nested :
    match_field_path 4 process_fields (codes "health" ∷ codes "check" ∷ codes "type" ∷ [])
    ≡ some (codes "health_check" ∷ codes "type" ∷ [])
unfolding runs
nested = refl

match_field_path_lem_example :
    let tokens = codes "health" ∷ codes "check" ∷ codes "type" ∷ [] in
    ((path : List Text)
      → match_field_path 4 process_fields tokens ≡ some path
      → Reads process_fields tokens path)
    × (match_field_path 4 process_fields tokens ≡ none
        → (path : List Text) → Reads process_fields tokens path
        → ⊥)
match_field_path_lem_example =
    match_field_path_lem process_fields (codes "health" ∷ codes "check" ∷ codes "type" ∷ [])

abbrev app : Entries
app = entry (codes "my-app") (mapping no_entries) no_entries

-- The type of a health check cannot be overridden: the last token alone is a field of a process, and what
-- stands before it is taken for the name of one.
misread :
    apply_process_env_override scalar process_fields
      (codes "MY_APP_HEALTH_CHECK_TYPE")
      (codes "tcp")
      app
    ≡ entry (codes "my-app") (mapping no_entries) (
        entry
          (codes "my-app-health-check")
          (mapping (entry (codes "type") (scalar (codes "tcp")) no_entries))
          no_entries)
unfolding runs
misread = refl

overridden :
    apply_env_overrides_map scalar process_fields process_fields
      ((codes "PHPEEK_PM_PROCESS_MY_APP_TYPE", codes "oneshot") ∷ (codes "PATH", codes "bin") ∷ [])
      (entry (codes "processes") (mapping app) no_entries)
    ≡ entry
        (codes "processes")
        (mapping (
          entry
            (codes "my-app")
            (mapping (entry (codes "type") (scalar (codes "oneshot")) no_entries))
            no_entries))
        (entry (codes "global") (mapping no_entries) no_entries)
unfolding runs
overridden = refl

set_nested_value_lem_example :
    let m = set_nested_value app (codes "my-app" ∷ codes "scale" ∷ []) (scalar (codes "2")) in
    (read m (codes "my-app" ∷ codes "scale" ∷ []) ≡ some (scalar (codes "2")))
    × ((q : List Text) → Diverge (codes "my-app" ∷ codes "scale" ∷ []) q → read m q ≡ read app q)
set_nested_value_lem_example =
    set_nested_value_lem (codes "my-app") (codes "scale" ∷ []) (scalar (codes "2")) app

abbrev getenv : Text → Text
getenv name = if text_eq name (codes "PORT") then codes "80" else []

abbrev listen : List Segment
listen =
    byte 58 ∷ reference (codes "PORT") none ∷ reference (codes "HOST") (some (codes "any")) ∷ []

listen_text : print listen ≡ codes ":${PORT}${HOST:-any}"
listen_text = refl

left_alone : expand_env getenv (codes "$$${}${a:b}$") ≡ codes "$$${}${a:b}$"
unfolding runs
left_alone = refl

expand_env-print_example :
    ((s : Text) → (l : List Segment) × ArePlain l × (print l ≡ s))
    × ((l : List Segment) → ArePlain l → expand_env getenv (print l) ≡ render getenv l)
expand_env-print_example = expand_env-print getenv
