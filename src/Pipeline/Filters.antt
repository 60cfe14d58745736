-- ===== src/Pipeline/Filters.antt =====
-- ShouldLog of filters that NewLogFilters has made.
use phpeek_pm.Prelude.{
  some_inj, ◌≢◌, str_eq, eq_iff, ◌≤◌, ◌≡◌, subst, refl, sym, ap, ◌∙◌, ◌⊎◌, ◌↔◌, inl, inr, arith,
  Bool, true, false, not, ◌||◌, if◌then◌else◌, Bool-cases, false_ne_true, List, [], ◌∷◌, String,
  Option-cases, none, some, ltb,
}
use phpeek_pm.Pipeline.{
  Libraries, Level, rank, debug, info, warn, error, FilterConfig, LogFilters, compile_all,
  any_pattern, filters_at, new_log_filters, parse_level, empty_text, matches_any, should_log,
}

-- A name in small letters, and the level it names.
abbrev pub Names : String → Level → Type 0
Names l level =
    ((l ≡ "debug") × (level ≡ debug))
    ⊎ (((l ≡ "info") × (level ≡ info))
        ⊎ ((((l ≡ "warn") ⊎ (l ≡ "warning")) × (level ≡ warn)) ⊎ ((l ≡ "error") × (level ≡ error))))

module _ {Regex : Type 0} (lib : Libraries Regex) where
  -- Some pattern, compiled, matches.
  abbrev pub AnyMatches : List String → String → Type 0
  AnyMatches [] input = ⊥
  AnyMatches (pattern ∷ patterns) input =
      ((regex : Regex) × (lib.compile pattern ≡ some regex) × (lib.matches regex input ≡ true))
      ⊎ AnyMatches patterns input

  first_or :
      (pattern : String) (patterns : List String) (r : Regex) (rs : List Regex) (input : String)
      → lib.compile pattern ≡ some r
      → (matches_any lib rs input ≡ true) ↔ AnyMatches patterns input
      → (matches_any lib (r ∷ rs) input ≡ true) ↔ AnyMatches (pattern ∷ patterns) input
  unfolding matches_any
  first_or pattern patterns r rs input compiled rest = elim (Bool-cases (lib.matches r input)) [
    | inl hits ↦ rw (hits, matches_any) (λ h. inl (r, compiled, hits), λ h. refl)
    | inr misses ↦
        rw (misses, matches_any)
          (
            λ h. inr (rest.0 h),
            λ h. elim h [
              | inl (r', compiled', hits) ↦ absurd (
                  false_ne_true (
                    sym misses
                    ∙ ap (λ x. lib.matches x input) (some_inj (sym compiled ∙ compiled'))
                    ∙ hits))
              | inr later ↦ rest.1 later
            ],
          )
  ]

  matches_any_iff :
      (patterns : List String) (regexes : List Regex) (input : String)
      → compile_all lib patterns ≡ some regexes
      → (matches_any lib regexes input ≡ true) ↔ AnyMatches patterns input
  unfolding compile_all matches_any
  matches_any_iff [] regexes input e =
      subst (λ rs. (matches_any lib rs input ≡ true) ↔ AnyMatches [] input) (some_inj e)
        (λ h. absurd (false_ne_true h), λ h. absurd h)
  matches_any_iff (pattern ∷ patterns) regexes input e = elim (Option-cases (lib.compile pattern)) [
    | inl fails ↦ absurd (clash (rw (fails, compile_all) at e))
    | inr (r, compiled) ↦ elim (Option-cases (compile_all lib patterns)) [
      | inl fails ↦ absurd (clash (rw (compiled, fails, compile_all) at e))
      | inr (rs, all) ↦
          subst (λ l. (matches_any lib l input ≡ true) ↔ AnyMatches (pattern ∷ patterns) input)
            (some_inj (rw (compiled, all, compile_all) at e))
            (first_or pattern patterns r rs input compiled (matches_any_iff patterns rs input all))
    ]
  ]
    where
      clash : none ≡ some regexes → ⊥
      clash h = cc

  -- What NewLogFilters has compiled.
  record IsCompiled (cfg : FilterConfig) (lf : LogFilters Regex) : Type 0 where
    exclude : compile_all lib cfg.exclude ≡ some lf.exclude_patterns
    include : compile_all lib cfg.include ≡ some lf.include_patterns
    has_filters :
        lf.has_filters
        ≡ (any_pattern lib lf.exclude_patterns || any_pattern lib lf.include_patterns)

  filters_at-IsCompiled :
      (cfg : FilterConfig) (level : Level) (lf : LogFilters Regex)
      → filters_at lib (some cfg) level ≡ some lf
      → IsCompiled cfg lf
  filters_at-IsCompiled cfg level lf e = elim (Option-cases (compile_all lib cfg.exclude)) [
    | inl fails ↦ absurd (clash (rw (fails, filters_at) at e))
    | inr (exclude, excluded) ↦ elim (Option-cases (compile_all lib cfg.include)) [
      | inl fails ↦ absurd (clash (rw (excluded, fails, filters_at) at e))
      | inr (include, included) ↦
          subst (λ f. IsCompiled cfg f) (some_inj (rw (excluded, included, filters_at) at e))
            record { exclude = excluded; include = included; has_filters = refl }
    ]
  ]
    where
      clash : none ≡ some lf → ⊥
      clash h = cc

  new_log_filters-IsCompiled :
      (cfg : FilterConfig) (min_level : String) (lf : LogFilters Regex)
      → new_log_filters lib (some cfg) min_level ≡ some lf
      → IsCompiled cfg lf
  unfolding new_log_filters
  new_log_filters-IsCompiled cfg min_level lf e = elim (Bool-cases (empty_text min_level)) [
    | inl empty ↦ filters_at-IsCompiled cfg info lf (rw (empty, new_log_filters) at e)
    | inr named ↦ elim (Option-cases (parse_level lib min_level)) [
      | inl fails ↦ absurd (clash (rw (named, fails, new_log_filters) at e))
      | inr (level, parsed) ↦
          filters_at-IsCompiled cfg level lf (rw (named, parsed, new_log_filters) at e)
    ]
  ]
    where
      clash : none ≡ some lf → ⊥
      clash h = cc

  -- What a minimum level of the configuration stands for: info if it is empty, or else the level that it
  -- names, in capitals or not.
  abbrev pub StandsFor : String → Level → Type 0
  StandsFor s level = ((s ≡ "") × (level ≡ info)) ⊎ ((s ≢ "") × Names (lib.to_lower s) level)

  level_named :
      (s : String) (level : Level) → parse_level lib s ≡ some level → Names (lib.to_lower s) level
  unfolding parse_level
  level_named s level = by_tests (lib.to_lower s)
    where
      by_tests :
          (l : String)
          → (if str_eq l "debug"
              then some debug
              else if str_eq l "info"
              then some info
              else if str_eq l "warn" || str_eq l "warning"
              then some warn
              else if str_eq l "error"
              then some error
              else none)
            ≡ some level
          → Names l level
      by_tests l e = elim (Bool-cases (str_eq l "debug")) [
        | inl is_debug ↦ inl ((eq_iff l "debug").0 is_debug, sym (some_inj (rw is_debug at e)))
        | inr not_debug ↦ elim (Bool-cases (str_eq l "info")) [
          | inl is_info ↦
              inr (inl ((eq_iff l "info").0 is_info, sym (some_inj (rw (not_debug, is_info) at e))))
          | inr not_info ↦ elim (Bool-cases (str_eq l "warn")) [
            | inl is_warn ↦ inr (
                inr (
                  inl (
                    inl ((eq_iff l "warn").0 is_warn),
                    sym (some_inj (rw (not_debug, not_info, is_warn) at e)),
                  )))
            | inr not_warn ↦ elim (Bool-cases (str_eq l "warning")) [
              | inl is_warning ↦ inr (
                  inr (
                    inl (
                      inr ((eq_iff l "warning").0 is_warning),
                      sym (some_inj (rw (not_debug, not_info, not_warn, is_warning) at e)),
                    )))
              | inr not_warning ↦ elim (Bool-cases (str_eq l "error")) [
                | inl is_error ↦ inr (
                    inr (
                      inr (
                        (eq_iff l "error").0 is_error,
                        sym (
                            some_inj
                              (rw (not_debug, not_info, not_warn, not_warning, is_error) at e)),
                      )))
                | inr not_error ↦
                    absurd (clash (rw (not_debug, not_info, not_warn, not_warning, not_error) at e))
              ]
            ]
          ]
        ]
      ]
        where
          clash : none ≡ some level → ⊥
          clash h = cc

  filters_at-min_level :
      (cfg : FilterConfig) (level : Level) (lf : LogFilters Regex)
      → filters_at lib (some cfg) level ≡ some lf
      → level ≡ lf.min_level
  filters_at-min_level cfg level lf e = elim (Option-cases (compile_all lib cfg.exclude)) [
    | inl fails ↦ absurd (clash (rw (fails, filters_at) at e))
    | inr (exclude, excluded) ↦ elim (Option-cases (compile_all lib cfg.include)) [
      | inl fails ↦ absurd (clash (rw (excluded, fails, filters_at) at e))
      | inr (include, included) ↦
          ap (λ (f : LogFilters Regex). f.min_level)
            (some_inj (rw (excluded, included, filters_at) at e))
    ]
  ]
    where
      clash : none ≡ some lf → ⊥
      clash h = cc

  new_log_filters-StandsFor :
      (cfg : FilterConfig) (min_level : String) (lf : LogFilters Regex)
      → new_log_filters lib (some cfg) min_level ≡ some lf
      → StandsFor min_level lf.min_level
  unfolding new_log_filters
  new_log_filters-StandsFor cfg min_level lf e = elim (Bool-cases (empty_text min_level)) [
    | inl empty ↦ inl (
      (eq_iff min_level "").0 empty,
      sym (filters_at-min_level cfg info lf (rw (empty, new_log_filters) at e)),
    )
    | inr named ↦ elim (Option-cases (parse_level lib min_level)) [
      | inl fails ↦ absurd (clash (rw (named, fails, new_log_filters) at e))
      | inr (level, parsed) ↦ inr (
        λ empty. false_ne_true (sym named ∙ (eq_iff min_level "").1 empty),
        subst (Names (lib.to_lower min_level))
            (filters_at-min_level cfg level lf (rw (named, parsed, new_log_filters) at e))
            (level_named min_level level parsed),
      )
    ]
  ]
    where
      clash : none ≡ some lf → ⊥
      clash h = cc

  no_pattern :
      (patterns : List String) (regexes : List Regex)
      → compile_all lib patterns ≡ some regexes
      → (any_pattern lib regexes ≡ false) ↔ (patterns ≡ [])
  unfolding compile_all
  no_pattern [] regexes e =
      subst (λ rs. (any_pattern lib rs ≡ false) ↔ (◌≡◌ {A = List String} [] [])) (some_inj e)
        (λ h. refl, λ h. refl)
  no_pattern (pattern ∷ patterns) regexes e = elim (Option-cases (lib.compile pattern)) [
    | inl fails ↦ absurd (clash (rw (fails, compile_all) at e))
    | inr (r, compiled) ↦ elim (Option-cases (compile_all lib patterns)) [
      | inl fails ↦ absurd (clash (rw (compiled, fails, compile_all) at e))
      | inr (rs, all) ↦
          subst (λ l. (any_pattern lib l ≡ false) ↔ (pattern ∷ patterns ≡ []))
            (some_inj (rw (compiled, all, compile_all) at e)) (λ h. cc, λ h. cc)
    ]
  ]
    where
      clash : none ≡ some regexes → ⊥
      clash h = cc

  none_match :
      (regexes : List Regex) (input : String)
      → any_pattern lib regexes ≡ false
      → matches_any lib regexes input ≡ false
  unfolding matches_any
  none_match [] input h = refl
  none_match (r ∷ rs) input h = cc

  table :
      (low filters ex some_ex some_in in_ : Bool)
      → filters ≡ (some_ex || some_in)
      → (some_ex ≡ false → ex ≡ false)
      → ((if low
            then false
            else if not filters
            then true
            else if ex
            then false
            else if some_in
            then in_
            else true)
          ≡ true)
        ↔ ((low ≡ false) × ((ex ≡ false) × ((some_in ≡ false) ⊎ (in_ ≡ true))))
  table low filters ex some_ex some_in in_ e h = ground (arith, e, h)

  -- Filters that NewLogFilters has made of a configuration have the minimum level that the configuration
  -- names, or info if it names none. A text passes them if and only if its level is at least that
  -- minimum, no exclude pattern of the configuration matches it, and an include pattern does, unless
  -- there is none.
  pub should_log_lem :
      (cfg : FilterConfig) (min_level : String) (lf : LogFilters Regex) (input : String)
      (level : Level)
      → new_log_filters lib (some cfg) min_level ≡ some lf
      → StandsFor min_level lf.min_level
        × ((should_log lib lf input level ≡ true) ↔ (
            (rank lf.min_level ≤ rank level)
            × ((AnyMatches cfg.exclude input → ⊥)
                × ((cfg.include ≡ []) ⊎ AnyMatches cfg.include input))))
  unfolding should_log
  should_log_lem cfg min_level lf input level e =
      let c = new_log_filters-IsCompiled cfg min_level lf e in
      let exclude = matches_any_iff cfg.exclude lf.exclude_patterns input c.exclude in
      let include = matches_any_iff cfg.include lf.include_patterns input c.include in
      let low = ltb (rank level) (rank lf.min_level) in
      let t =
        table low lf.has_filters (matches_any lib lf.exclude_patterns input)
          (any_pattern lib lf.exclude_patterns) (any_pattern lib lf.include_patterns)
          (matches_any lib lf.include_patterns input) c.has_filters
          (none_match lf.exclude_patterns input) in
      let no_include = no_pattern cfg.include lf.include_patterns c.include in
      (
        new_log_filters-StandsFor cfg min_level lf e,
        (
          λ passes.
              let (high, (clear, included)) = t.0 passes in
              (
                ground (arith, high),
                (
                  λ hit. false_ne_true (sym clear ∙ exclude.1 hit),
                  elim included [
                    | inl empty ↦ inl (no_include.0 empty)
                    | inr hit ↦ inr (include.0 hit)
                  ],
                ),
              ),
          λ h.
              let (high, (clear, included)) = h in
              t.1 (
                ground (arith, high),
                (
                  elim (Bool-cases (matches_any lib lf.exclude_patterns input)) [
                    | inl hit ↦ absurd (clear (exclude.0 hit))
                    | inr none_hit ↦ none_hit
                  ],
                  elim included [
                    | inl empty ↦ inl (no_include.1 empty)
                    | inr hit ↦ inr (include.1 hit)
                  ],
                ),
              ),
        ),
      )
