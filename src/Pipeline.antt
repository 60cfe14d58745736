-- ===== src/Pipeline.antt =====
-- internal/logger: what a complete log entry goes through before it stands in the log buffer
-- (process_writer.go, processEntry), with its components from redactor.go, json_parser.go,
-- level_detector.go and filters.go. A compiled regular expression is a value of the regexp library.
mod Tests
pub mod Filters
pub mod Buffered
use phpeek_pm.Prelude.{
  ℕ, ◌==◌, Bool, true, false, not, ◌&&◌, ◌||◌, if◌then◌else◌, List, [], ◌∷◌, ◌++◌, String, str_eq,
  Option, none, some, lookup, insert, delete, ltb, ℤ, pos,
}
use phpeek_pm.LogBuffer.{LogEntry, LogBuffer, add, new_log_buffer}

-- What the libraries give: regexp.Compile, MatchString and ReplaceAllString; strings.ToLower and
-- TrimSpace, and strings.HasPrefix at an opening brace; json.Unmarshal into a map.
pub data JsonValue : Type 0 where
  text : String → JsonValue
  other : JsonValue

pub record Libraries (Regex : Type 0) : Type 0 where
  pub compile : String → Option Regex
  pub matches : Regex → String → Bool
  pub replace : Regex → String → String → String
  pub to_lower : String → String
  pub trim : String → String
  pub has_brace : String → Bool
  pub unmarshal : String → Option (List (String × JsonValue))

-- The four levels of log/slog, in their order.
pub data Level : Type 0 where
  debug info warn error : Level

abbrev pub rank : Level → ℕ
rank debug = 0
rank info = 1
rank warn = 2
rank error = 3

abbrev pub is_info : Level → Bool
is_info info = true
is_info debug = false
is_info warn = false
is_info error = false

abbrev pub level_string : Level → String
level_string debug = "debug"
level_string info = "info"
level_string warn = "warn"
level_string error = "error"

pub record FilterConfig : Type 0 where
  pub exclude : List String
  pub include : List String

pub record RedactionPattern : Type 0 where
  pub name : String
  pub pattern : String
  pub replacement : String

pub record RedactionConfig : Type 0 where
  pub enabled : Bool
  pub patterns : List RedactionPattern

pub record LogFilters (Regex : Type 0) : Type 0 where
  pub exclude_patterns : List Regex
  pub include_patterns : List Regex
  pub min_level : Level
  pub has_filters : Bool

-- A pattern of a redactor that is enabled, with its replacement; the name is for errors only.
pub record CompiledPattern (Regex : Type 0) : Type 0 where
  pub regex : Regex
  pub replacement : String

pub record JsonParser : Type 0 where
  pub enabled : Bool
  pub detect_auto : Bool
  pub extract_level : Bool
  pub extract_message : Bool

pub record LevelDetector (Regex : Type 0) : Type 0 where
  pub enabled : Bool
  pub patterns : List (Level × Regex)
  pub default_level : Level

-- `redactor` is none where it is not enabled. The attributes that are logged with a message do not
-- reach the log buffer, and are left out.
pub record ProcessWriter (Regex : Type 0) : Type 0 where
  pub process_name : String
  pub instance_id : String
  pub stream : String
  pub redactor : Option (List (CompiledPattern Regex))
  pub json_parser : JsonParser
  pub level_detector : LevelDetector Regex
  pub filters : Option (LogFilters Regex)
  pub log_buffer : LogBuffer

abbrev pub same_level : Level → Level → Bool
same_level debug l = rank l == 0
same_level info l = rank l == 1
same_level warn l = rank l == 2
same_level error l = rank l == 3

unfoldable pub pattern_of {ℓ} : {R : Type ℓ} → Level → List (Level × R) → Option R
pattern_of level [] = none
pattern_of level ((l, regex) ∷ patterns) =
    let rest = pattern_of level patterns in if same_level l level then some regex else rest

abbrev pub text_of : Option JsonValue → Option String
text_of none = none
text_of (some other) = none
text_of (some (text s)) = some s

abbrev pub empty_text : String → Bool
empty_text s = str_eq s ""

module _ {Regex : Type 0} (lib : Libraries Regex) where
  unfoldable pub parse_level : String → Option Level
  parse_level s =
      let l = lib.to_lower s in
      if str_eq l "debug"
      then some debug
      else if str_eq l "info"
      then some info
      else if str_eq l "warn" || str_eq l "warning"
      then some warn
      else if str_eq l "error"
      then some error
      else none

  -- The loops of NewLogFilters; `none` is the error of a pattern.
  unfoldable pub compile_all : List String → Option (List Regex)
  compile_all [] = some []
  compile_all (pattern ∷ patterns) =
      let rest = compile_all patterns in
      elim (lib.compile pattern) [
        | none ↦ none
        | some regex ↦ elim rest [ none ↦ none | some regexes ↦ some (regex ∷ regexes) ]
      ]

  abbrev pub any_pattern : {A : Type 0} → List A → Bool
  any_pattern [] = false
  any_pattern (a ∷ l) = true

  abbrev pub filters_at : Option FilterConfig → Level → Option (LogFilters Regex)
  filters_at none min_level = some record {
    exclude_patterns = [];
    include_patterns = [];
    min_level = min_level;
    has_filters = false;
  }
  filters_at (some cfg) min_level = elim (compile_all cfg.exclude) [
    | none ↦ none
    | some exclude ↦ elim (compile_all cfg.include) [
      | none ↦ none
      | some include ↦ some record {
        exclude_patterns = exclude;
        include_patterns = include;
        min_level = min_level;
        has_filters = any_pattern exclude || any_pattern include;
      }
    ]
  ]

  unfoldable pub new_log_filters : Option FilterConfig → String → Option (LogFilters Regex)
  unfolding compile_all parse_level
  new_log_filters cfg min_level =
      if empty_text min_level
      then filters_at cfg info
      else elim (parse_level min_level) [ none ↦ none | some level ↦ filters_at cfg level ]

  unfoldable pub matches_any : List Regex → String → Bool
  matches_any [] input = false
  matches_any (regex ∷ regexes) input =
      let rest = matches_any regexes input in if lib.matches regex input then true else rest

  unfoldable pub should_log : LogFilters Regex → String → Level → Bool
  unfolding matches_any
  should_log lf input level =
      if ltb (rank level) (rank lf.min_level)
      then false
      else if not lf.has_filters
      then true
      else if matches_any lf.exclude_patterns input
      then false
      else if any_pattern lf.include_patterns
      then matches_any lf.include_patterns input
      else true

  abbrev pub compile_redaction : RedactionPattern → Option (CompiledPattern Regex)
  compile_redaction p = if empty_text p.pattern then none else elim (lib.compile p.pattern) [
    | none ↦ none
    | some regex ↦ some record {
      regex = regex;
      replacement = if empty_text p.replacement then "***" else p.replacement;
    }
  ]

  unfoldable pub compile_redactions : List RedactionPattern → Option (List (CompiledPattern Regex))
  compile_redactions [] = some []
  compile_redactions (p ∷ patterns) =
      let rest = compile_redactions patterns in
      elim (compile_redaction p) [
        | none ↦ none
        | some compiled ↦ elim rest [ none ↦ none | some l ↦ some (compiled ∷ l) ]
      ]

  -- The outer `none` is an error.
  unfoldable pub new_redactor :
      Option RedactionConfig → Option (Option (List (CompiledPattern Regex)))
  unfolding compile_redactions
  new_redactor none = some none
  new_redactor (some cfg) =
      if not cfg.enabled then some none else elim (compile_redactions cfg.patterns) [
        | none ↦ none
        | some patterns ↦ some (some patterns)
      ]

  -- The loop of Redact.
  unfoldable pub redact : List (CompiledPattern Regex) → String → String
  redact [] input = input
  redact (p ∷ patterns) input = redact patterns (lib.replace p.regex input p.replacement)

  unfoldable pub detect_in : List (Level × Regex) → List Level → Level → String → Level
  unfolding pattern_of
  detect_in patterns [] default input = default
  detect_in patterns (level ∷ levels) default input =
      let rest = detect_in patterns levels default input in
      elim (pattern_of level patterns) [
        | none ↦ rest
        | some regex ↦ if lib.matches regex input then level else rest
      ]

  -- Detect of a detector that is enabled.
  abbrev pub detect : LevelDetector Regex → String → Level
  detect ld input = detect_in ld.patterns (error ∷ warn ∷ info ∷ debug ∷ []) ld.default_level input

  -- Parse, where a parser that is not enabled gives none too.
  abbrev pub parse : JsonParser → String → Option (List (String × JsonValue))
  parse jp input =
      let trimmed = lib.trim input in
      if not jp.enabled
      then none
      else if empty_text trimmed
      then none
      else if jp.detect_auto && not (lib.has_brace trimmed)
      then none
      else lib.unmarshal trimmed

  -- The message and the level that ToLogAttrs gives.
  abbrev pub to_log_attrs : JsonParser → List (String × JsonValue) → String × Level
  to_log_attrs jp data_ = (
    if jp.extract_message
        then (elim (text_of (lookup "message" data_)) [ none ↦ "" | some s ↦ s ])
        else "",
    if jp.extract_level
        then (elim (text_of (lookup "level" data_)) [
          | none ↦ info
          | some s ↦ elim (parse_level s) [ none ↦ info | some level ↦ level ]
        ])
        else info,
  )

  -- The text after the redaction.
  abbrev pub redacted : ProcessWriter Regex → String → String
  redacted pw entry = elim pw.redactor [ none ↦ entry | some patterns ↦ redact patterns entry ]

  abbrev pub message_of : ProcessWriter Regex → String → String × Level
  message_of pw entry = elim (parse pw.json_parser entry) [
    | none ↦ (entry, info)
    | some data_ ↦
        let (message, level) = to_log_attrs pw.json_parser data_ in
        (if empty_text message then entry else message, level)
  ]

  abbrev pub level_of : ProcessWriter Regex → String → Level → Level
  level_of pw entry level =
      if pw.level_detector.enabled && is_info level then detect pw.level_detector entry else level

  abbrev pub passes : Option (LogFilters Regex) → String → Level → Bool
  passes none entry level = true
  passes (some filters) entry level = should_log filters entry level

  -- What is added to the log buffer for a text that has been redacted.
  abbrev pub entry_for : ProcessWriter Regex → ℤ → String → Option LogEntry
  entry_for pw now entry =
      let (message, level) = message_of pw entry in
      let found = level_of pw entry level in
      if passes pw.filters entry found
      then some record {
        timestamp = now;
        process_name = pw.process_name;
        instance_id = pw.instance_id;
        stream = pw.stream;
        message = message;
        level = level_string found;
      }
      else none

  unfoldable pub process_entry : ProcessWriter Regex → ℤ → String → ProcessWriter Regex
  unfolding redact detect_in parse_level should_log
  process_entry pw now entry = elim (entry_for pw now (redacted pw entry)) [
    | none ↦ pw
    | some log_entry ↦ record pw { log_buffer = add pw.log_buffer log_entry }
  ]
