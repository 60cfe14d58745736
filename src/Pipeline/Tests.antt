-- ===== src/Pipeline/Tests.antt =====
-- The log pipeline at concrete entries, over a library of patterns that match one text each.
use phpeek_pm.Prelude.{
  ◌≤◌, ◌≡◌, ◌⊎◌, ◌↔◌, refl, true, false, if◌then◌else◌, List, [], ◌∷◌, String, str_eq, none, some,
  pos,
}
use phpeek_pm.LogBuffer.{new_log_buffer}
use phpeek_pm.Pipeline.{
  Libraries, info, warn, error, rank, FilterConfig, LogFilters, CompiledPattern, ProcessWriter,
  pattern_of, parse_level, compile_all, new_log_filters, matches_any, should_log, redact,
  compile_redactions, new_redactor, detect_in, process_entry,
}
use phpeek_pm.Pipeline.Filters.{AnyMatches, StandsFor, should_log_lem}
use phpeek_pm.Pipeline.Buffered.{process_entries, process_entries-redacted}

runs : Unit {0}
unfolding pattern_of parse_level compile_all new_log_filters matches_any should_log redact
    compile_redactions new_redactor detect_in process_entry
runs = tt

abbrev texts : Libraries String
texts = record {
  compile = λ s. if str_eq s "(" then none else some s;
  matches = λ r s. str_eq r s;
  replace = λ r s t. if str_eq r s then t else s;
  to_lower = λ s. s;
  trim = λ s. s;
  has_brace = λ s. false;
  unmarshal = λ s. none;
}

abbrev config : FilterConfig
config = record { exclude = "ping" ∷ []; include = [] }

abbrev filters : LogFilters String
filters = record {
  exclude_patterns = "ping" ∷ [];
  include_patterns = [];
  min_level = warn;
  has_filters = true;
}

filters_made : new_log_filters texts (some config) "warn" ≡ some filters
unfolding runs
filters_made = refl

bad_pattern : new_log_filters texts (some record { exclude = "(" ∷ []; include = [] }) "" ≡ none
unfolding runs
bad_pattern = refl

should_log_lem_example :
    StandsFor texts "warn" warn
    × ((should_log texts filters "ping" error ≡ true) ↔ (
        (rank warn ≤ rank error)
        × ((AnyMatches texts ("ping" ∷ []) "ping" → ⊥)
            × ((◌≡◌ {A = List String} [] []) ⊎ AnyMatches texts [] "ping"))))
should_log_lem_example = should_log_lem texts config "warn" filters "ping" error filters_made

abbrev masks : List (CompiledPattern String)
masks =
    record { regex = "token=1"; replacement = "***" }
    ∷ record { regex = "token=2"; replacement = "***" }
    ∷ []

redactor_made :
    new_redactor texts (
      some record {
        enabled = true;
        patterns =
            record { name = "one"; pattern = "token=1"; replacement = "" }
            ∷ record { name = "two"; pattern = "token=2"; replacement = "***" }
            ∷ [];
      })
    ≡ some (some masks)
unfolding runs
redactor_made = refl

abbrev writer : ProcessWriter String
writer = record {
  process_name = "web";
  instance_id = "web-0";
  stream = "stdout";
  redactor = some masks;
  json_parser = record {
    enabled = false;
    detect_auto = false;
    extract_level = false;
    extract_message = false;
  };
  level_detector = record { enabled = true; patterns = (error, "***") ∷ []; default_level = info };
  filters = none;
  log_buffer = new_log_buffer (pos 2);
}

process_entries-redacted_example :
    (process_entries texts writer ((pos 1, "token=1") ∷ [])).log_buffer
    ≡ (process_entries texts writer ((pos 1, "token=2") ∷ [])).log_buffer
unfolding runs
process_entries-redacted_example =
    process_entries-redacted texts writer masks ((pos 1, "token=1") ∷ []) ((pos 1, "token=2") ∷ [])
      refl ((refl, refl), tt)
