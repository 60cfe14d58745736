-- ===== src/Autotune/Tests.antt =====
-- The calculation at concrete inputs, with hundredths for the floating point.
use phpeek_pm.Prelude.{
  ℕ, ◌≡◌, ◌≤◌, ◌+◌, ◌*◌, ◌/◌, refl, [], ◌∷◌, true, pos, ◌≤ℤ◌, ltb, lookup, ◌+ℤ◌,
}
use phpeek_pm.Autotune.{
  Floats, ContainerResources, PhpFpmConfig, ok, err, insufficient_memory, cpu_limited,
  ProfileConfig, Calculator, choose_threshold, worker_memory, max_children, dynamic_settings,
  process_settings, validate_config, build_config, calculate,
}
use phpeek_pm.Autotune.Profiles.{validate, get_config, IsSound, get_config-IsSound, profile_config}
use phpeek_pm.Autotune.Bounds.{calculate-dynamic}
use phpeek_pm.Autotune.Memory.{calculate-memory}

abbrev floats : Floats
floats = record {
  Float = ℕ;
  hundredths = λ n. n;
  greater = λ a b. ltb b a;
  scale = λ n f. pos (n * f / 100);
  scale_up = λ n f. pos ((n * f + 99) / 100);
}

runs : Unit {0}
unfolding choose_threshold worker_memory max_children dynamic_settings process_settings
    validate_config build_config calculate validate get_config lookup ◌+ℤ◌
runs = tt

-- Two gigabytes and two processors.
abbrev resources : ContainerResources
resources = record { memory_limit_mb = 2048; cpu_limit = 2; is_containerized = true }

abbrev medium : ProfileConfig floats
medium = profile_config floats "Medium Production" "dynamic" 42 128 4 0 25 50 33 1000 75 192

abbrev dev : ProfileConfig floats
dev = profile_config floats "Development" "static" 32 64 2 2 0 0 100 100 50 64

abbrev calculator : Calculator floats
calculator = record { resources = resources; profile = medium; memory_threshold = 0 }

abbrev dev_calculator : Calculator floats
dev_calculator = record { resources = resources; profile = dev; memory_threshold = 0 }

abbrev settings : PhpFpmConfig
settings = record {
  process_manager = "dynamic";
  max_children = 8;
  start_servers = pos 3;
  min_spare = pos 2;
  max_spare = pos 4;
  max_requests = 1000;
  memory_allocated = 336;
  memory_opcache = 128;
  memory_reserved = 192;
  memory_total = 2048;
  cpus = 2;
  warnings = cpu_limited 28 8 2 ∷ [];
}

calculated : calculate floats calculator ≡ ok settings
unfolding runs
calculated = refl

too_small :
    calculate floats (record calculator {
      resources = record { memory_limit_mb = 128; cpu_limit = 1; is_containerized = true };
    })
    ≡ err (insufficient_memory 128 362)
unfolding runs
too_small = refl

found : get_config floats "medium" ≡ ok medium
unfolding runs
found = refl

get_config-IsSound_example : IsSound floats medium
get_config-IsSound_example = get_config-IsSound floats "medium" medium found

calculate-dynamic_example :
    (pos 1 ≤ℤ pos 2) × (pos 2 ≤ℤ pos 3) × (pos 3 ≤ℤ pos 4) × (pos 4 ≤ℤ pos 8)
calculate-dynamic_example = calculate-dynamic floats calculator settings calculated refl

calculate-memory_example : (336 ≡ 8 * 42) × (8 * 42 + 128 + 192 ≤ 2048)
calculate-memory_example = calculate-memory floats calculator settings calculated
