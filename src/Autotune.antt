-- ===== src/Autotune.antt =====
-- internal/autotune/calculator.go and profiles.go: the settings of PHP-FPM from a profile and the
-- container's resources. Sizes are megabytes. The floating point of the source is a parameter, of
-- which the theorems ask nothing; the logging is left out.
mod Tests
pub mod Profiles
pub mod Bounds
pub mod Memory
use phpeek_pm.Prelude.{
  ℕ, zero, suc, ◌+◌, ◌-◌, ◌*◌, ◌/◌, Bool, true, false, not, ◌&&◌, if◌then◌else◌, List, [], ◌∷◌,
  ◌++◌, ℤ, pos, negsuc, ltb_ℤ, ltb, sub_ℕ, ◌+ℤ◌, pos_part, String, str_eq, Option, none, some,
  lookup,
}

-- The operations of float64 that the code uses.
pub record Floats : Type 1 where
  pub Float : Type 0
  -- a literal, in hundredths
  pub hundredths : ℕ → Float
  pub greater : Float → Float → Bool
  -- int(float64(n) * f)
  pub scale : ℕ → Float → ℤ
  -- int(math.Ceil(float64(n) * f))
  pub scale_up : ℕ → Float → ℤ

-- What the calculation takes from DetectContainerResources.
pub record ContainerResources : Type 0 where
  pub memory_limit_mb : ℕ
  pub cpu_limit : ℕ
  pub is_containerized : Bool

-- The arguments that the messages print are those at hand.
pub data Warning : Type 0 where
  host_resources : (memory cpus : ℕ) → Warning
  recommended : Warning
  docker_limits : Warning
  compose_limits : Warning
  kubernetes_limits : Warning
  oversubscription : Warning
  expert_setting : Warning
  conservative : Warning
  cpu_limited : (workers max cpus : ℕ) → Warning
  profile_limited : (workers max : ℕ) → Warning
  profile_minimum : (workers : ℕ) → Warning
  absolute_minimum : Warning

pub data CalculationError : Type 0 where
  invalid_profile : String → CalculationError
  insufficient_memory : (available required : ℕ) → CalculationError
  insufficient_worker_memory : (available : ℤ) → (per_worker : ℕ) → CalculationError
  memory_exceeded : (needed available : ℕ) → CalculationError
  min_spare_above_max : CalculationError
  max_spare_above_max : CalculationError
  start_above_max : CalculationError
  min_spare_above_max_spare : CalculationError

pub record PhpFpmConfig : Type 0 where
  pub process_manager : String
  pub max_children : ℕ
  pub start_servers : ℤ
  pub min_spare : ℤ
  pub max_spare : ℤ
  pub max_requests : ℕ
  pub memory_allocated : ℕ
  pub memory_opcache : ℕ
  pub memory_reserved : ℕ
  pub memory_total : ℕ
  pub cpus : ℕ
  pub warnings : List Warning

pub data Outcome {ℓ} (A : Type ℓ) : Type ℓ where
  ok : A → Outcome A
  err : CalculationError → Outcome A

module _ (floats : Floats) where
  pub record ProfileConfig : Type 0 where
    pub name : String
    pub process_manager_type : String
    pub avg_memory_per_worker : ℕ
    pub opcache_memory_mb : ℕ
    pub min_workers : ℕ
    pub max_workers : ℕ
    pub spare_min_ratio : floats.Float
    pub spare_max_ratio : floats.Float
    pub start_servers_ratio : floats.Float
    pub max_requests_per_child : ℕ
    pub max_memory_usage : floats.Float
    pub reserved_memory_mb : ℕ

  -- `threshold` is 0 where the profile's own is to be used.
  pub record Calculator : Type 0 where
    pub resources : ContainerResources
    pub profile : ProfileConfig
    pub memory_threshold : floats.Float

  abbrev pub min_required : ProfileConfig → ℕ
  min_required p = p.reserved_memory_mb + p.opcache_memory_mb + p.avg_memory_per_worker

  abbrev host_warnings : ContainerResources → List Warning
  host_warnings r =
      if not r.is_containerized
      then host_resources r.memory_limit_mb r.cpu_limit
        ∷ recommended
        ∷ docker_limits
        ∷ compose_limits
        ∷ kubernetes_limits
        ∷ []
      else []

  -- The threshold, and the warnings of an override.
  unfoldable pub choose_threshold : Calculator → floats.Float × List Warning
  choose_threshold c =
      if floats.greater c.memory_threshold (floats.hundredths 0)
      then (
        c.memory_threshold,
        (if floats.greater c.memory_threshold (floats.hundredths 100)
              then oversubscription ∷ expert_setting ∷ []
              else [])
            ++ (if floats.greater (floats.hundredths 30) c.memory_threshold
                then conservative ∷ []
                else []),
      )
      else (c.profile.max_memory_usage, [])

  -- (Total × Threshold) - (Reserved + OPcache)
  unfoldable pub worker_memory : Calculator → ℤ
  worker_memory c =
      let available = floats.scale c.resources.memory_limit_mb (choose_threshold c).0 in
      available +ℤ sub_ℕ 0 (c.profile.reserved_memory_mb + c.profile.opcache_memory_mb)

  -- The four adjustments of maxChildren, each with its warning.
  abbrev by_cpu : Calculator → ℕ × List Warning → ℕ × List Warning
  by_cpu c (n, ws) =
      let max = c.resources.cpu_limit * 4 in
      if ltb max n then (max, ws ++ cpu_limited n max c.resources.cpu_limit ∷ []) else (n, ws)

  abbrev by_profile_max : Calculator → ℕ × List Warning → ℕ × List Warning
  by_profile_max c (n, ws) =
      if ltb 0 c.profile.max_workers && ltb c.profile.max_workers n
      then (c.profile.max_workers, ws ++ profile_limited n c.profile.max_workers ∷ [])
      else (n, ws)

  abbrev by_profile_min : Calculator → ℕ × List Warning → ℕ × List Warning
  by_profile_min c (n, ws) =
      if ltb n c.profile.min_workers
      then (c.profile.min_workers, ws ++ profile_minimum c.profile.min_workers ∷ [])
      else (n, ws)

  abbrev at_least_one : ℕ × List Warning → ℕ × List Warning
  at_least_one (n, ws) = if ltb n 1 then (1, ws ++ absolute_minimum ∷ []) else (n, ws)

  unfoldable pub max_children : Calculator → ℕ → List Warning → ℕ × List Warning
  max_children c by_memory ws =
      at_least_one (by_profile_min c (by_profile_max c (by_cpu c (by_memory, ws))))

  abbrev pub raise_to : ℤ → ℤ → ℤ
  raise_to least z = if ltb_ℤ z least then least else z

  -- StartServers, MinSpare and MaxSpare of the dynamic manager.
  unfoldable pub dynamic_settings : Calculator → ℕ → ℤ × ℤ × ℤ
  dynamic_settings c n =
      let min_spare = raise_to (pos 1) (floats.scale_up n c.profile.spare_min_ratio) in
      let start_servers = raise_to min_spare (floats.scale_up n c.profile.start_servers_ratio) in
      let raised = raise_to start_servers (floats.scale_up n c.profile.spare_max_ratio) in
      (start_servers, min_spare, if ltb_ℤ (pos n) raised then pos n else raised)

  unfoldable pub process_settings : Calculator → ℕ → ℤ × ℤ × ℤ
  process_settings c n =
      if str_eq c.profile.process_manager_type "dynamic"
      then dynamic_settings c n
      else (if str_eq c.profile.process_manager_type "static"
          then (pos n, pos 0, pos 0)
          else (pos 0, pos 0, pos 0))

  unfoldable pub validate_config : PhpFpmConfig → Option CalculationError
  validate_config cfg =
      let total = cfg.memory_allocated + cfg.memory_opcache + cfg.memory_reserved in
      if ltb cfg.memory_total total
      then some (memory_exceeded total cfg.memory_total)
      else (if str_eq cfg.process_manager "dynamic"
          then (if ltb_ℤ (pos cfg.max_children) cfg.min_spare
              then some min_spare_above_max
              else (if ltb_ℤ (pos cfg.max_children) cfg.max_spare
                  then some max_spare_above_max
                  else (if ltb_ℤ (pos cfg.max_children) cfg.start_servers
                      then some start_above_max
                      else (if ltb_ℤ cfg.max_spare cfg.min_spare
                          then some min_spare_above_max_spare
                          else none))))
          else none)

  -- The configuration that is built for a number of workers.
  unfoldable pub build_config : Calculator → ℕ × List Warning → PhpFpmConfig
  build_config c (n, ws) =
      let (start_servers, min_spare, max_spare) = process_settings c n in
      record {
        process_manager = c.profile.process_manager_type;
        max_children = n;
        start_servers = start_servers;
        min_spare = min_spare;
        max_spare = max_spare;
        max_requests = c.profile.max_requests_per_child;
        memory_allocated = n * c.profile.avg_memory_per_worker;
        memory_opcache = c.profile.opcache_memory_mb;
        memory_reserved = c.profile.reserved_memory_mb;
        memory_total = c.resources.memory_limit_mb;
        cpus = c.resources.cpu_limit;
        warnings = ws;
      }

  abbrev pub checked : PhpFpmConfig → Option CalculationError → Outcome PhpFpmConfig
  checked cfg none = ok cfg
  checked cfg (some e) = err e

  -- The division is reached only with room for one worker: `avg_memory_per_worker` is positive in every
  -- profile, and the pool is then positive.
  unfoldable pub calculate : Calculator → Outcome PhpFpmConfig
  calculate c =
      let pool = worker_memory c in
      let ws = host_warnings c.resources ++ (choose_threshold c).1 in
      if ltb c.resources.memory_limit_mb (min_required c.profile)
      then err (insufficient_memory c.resources.memory_limit_mb (min_required c.profile))
      else (if ltb_ℤ pool (pos c.profile.avg_memory_per_worker)
          then err (insufficient_worker_memory pool c.profile.avg_memory_per_worker)
          else (let cfg =
                build_config c
                  (max_children c (pos_part pool / c.profile.avg_memory_per_worker) ws) in
              checked cfg (validate_config cfg)))
