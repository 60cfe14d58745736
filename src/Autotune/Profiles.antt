-- ===== src/Autotune/Profiles.antt =====
-- internal/autotune/profiles.go: the table of profiles and its lookup. The ratios are float64
-- literals, given in hundredths.
use phpeek_pm.Prelude.{
  ℕ, ◌≤◌, ◌<◌, ◌≡◌, ◌⊎◌, inl, inr, refl, arith, true, List, [], ◌∷◌, String, str_eq, Option, none,
  some, lookup, Bool-cases, some_inj, ap, ◌∙◌, subst,
}
use phpeek_pm.Autotune.{Floats, ProfileConfig, CalculationError, invalid_profile, Outcome, ok, err}

-- ProfileConfig.Description is not part of the model: nothing reads it.
abbrev pub Profile : Type 0
Profile = String

module _ (floats : Floats) where
  -- The constants of a profile, in the order of the record.
  abbrev pub profile_config :
      String
      → String
      → (avg opcache min_workers max_workers : ℕ) → (spare_min spare_max start : ℕ)
      → (requests usage reserved : ℕ) → ProfileConfig floats
  profile_config name manager avg opcache min_workers max_workers spare_min spare_max start requests
        usage reserved =
      record {
        name = name;
        process_manager_type = manager;
        avg_memory_per_worker = avg;
        opcache_memory_mb = opcache;
        min_workers = min_workers;
        max_workers = max_workers;
        spare_min_ratio = floats.hundredths spare_min;
        spare_max_ratio = floats.hundredths spare_max;
        start_servers_ratio = floats.hundredths start;
        max_requests_per_child = requests;
        max_memory_usage = floats.hundredths usage;
        reserved_memory_mb = reserved;
      }

  abbrev pub profiles : List (Profile × ProfileConfig floats)
  profiles =
      ("dev", profile_config "Development" "static" 32 64 2 2 0 0 100 100 50 64)
      ∷ ("light", profile_config "Light Production" "dynamic" 36 96 2 0 25 50 25 500 70 128)
      ∷ ("medium", profile_config "Medium Production" "dynamic" 42 128 4 0 25 50 33 1000 75 192)
      ∷ ("heavy", profile_config "Heavy Production" "dynamic" 52 256 8 0 20 40 50 2000 80 384)
      ∷ ("bursty", profile_config "Bursty Traffic" "dynamic" 44 128 4 0 40 70 50 1000 75 192)
      ∷ []

  unfoldable pub validate : Profile → Option CalculationError
  validate p = elim (lookup p profiles) [ none ↦ some (invalid_profile p) | some _ ↦ none ]

  -- The result of Validate and the table's entry.
  abbrev config_or :
      Profile
      → Option CalculationError
      → Option (ProfileConfig floats)
      → Outcome (ProfileConfig floats)
  config_or p (some e) found = err e
  config_or p none none = err (invalid_profile p)
  config_or p none (some config) = ok config

  unfoldable pub get_config : Profile → Outcome (ProfileConfig floats)
  get_config p = config_or p (validate p) (lookup p profiles)

  -- What Calculate relies on in a profile.
  pub record IsSound (config : ProfileConfig floats) : Type 0 where
    pub has_worker_memory : 0 < config.avg_memory_per_worker
    pub has_workers : 0 < config.min_workers
    pub min_within_max : (config.max_workers ≡ 0) ⊎ (config.min_workers ≤ config.max_workers)
    pub manager_known :
        (str_eq config.process_manager_type "static" ≡ true)
        ⊎ (str_eq config.process_manager_type "dynamic" ≡ true)

  abbrev AllSound : List (Profile × ProfileConfig floats) → Type 0
  AllSound [] = Unit {0}
  AllSound ((p, config) ∷ table) = IsSound config × AllSound table

  lookup-IsSound :
      (p : Profile) (table : List (Profile × ProfileConfig floats)) (config : ProfileConfig floats)
      → AllSound table
      → lookup p table ≡ some config
      → IsSound config
  unfolding lookup
  lookup-IsSound p [] config all h = cc
  lookup-IsSound p ((q, first) ∷ table) config all h = elim (Bool-cases (str_eq q p)) [
    | inl same ↦ subst IsSound (some_inj (rw same at h)) all.0
    | inr other ↦ lookup-IsSound p table config all.1 (rw other at h)
  ]

  profiles-AllSound : AllSound profiles
  profiles-AllSound = (
    record {
      has_worker_memory = omega arith;
      has_workers = omega arith;
      min_within_max = inr (omega arith);
      manager_known = inl refl;
    },
    (
      automatic (omega arith) (omega arith) refl refl,
      (
        automatic (omega arith) (omega arith) refl refl,
        (
          automatic (omega arith) (omega arith) refl refl,
          (automatic (omega arith) (omega arith) refl refl, tt),
        ),
      ),
    ),
  )
    where
      automatic :
          {config : ProfileConfig floats}
          → 0 < config.avg_memory_per_worker
          → 0 < config.min_workers
          → (config.max_workers ≡ 0)
          → str_eq config.process_manager_type "dynamic" ≡ true
          → IsSound config
      automatic memory workers unlimited dynamic = record {
        has_worker_memory = memory;
        has_workers = workers;
        min_within_max = inl unlimited;
        manager_known = inr dynamic;
      }

  -- Every profile that GetConfig returns has workers, memory for each, a minimum within its maximum
  -- and a static or dynamic process manager.
  pub get_config-IsSound :
      (p : Profile) (config : ProfileConfig floats) → get_config p ≡ ok config → IsSound config
  unfolding get_config
  get_config-IsSound p config h = from_table (validate p) (lookup p profiles) refl h
    where
      ok_inj : {a b : ProfileConfig floats} → ok a ≡ ok b → a ≡ b
      ok_inj {a} h = ap (λ r. elim r [ ok x ↦ x | err e ↦ a ]) h

      from_table :
          (v : Option CalculationError) (o : Option (ProfileConfig floats))
          → lookup p profiles ≡ o
          → config_or p v o ≡ ok config
          → IsSound config
      from_table (some e) o found h = cc
      from_table none none found h = cc
      from_table none (some x) found h =
          lookup-IsSound p profiles config profiles-AllSound (found ∙ ap some (ok_inj h))
