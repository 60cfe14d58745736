-- ===== src/Autotune/Bounds.antt =====
-- The numbers of workers that Calculate chooses.
use phpeek_pm.Prelude.{
  ℕ, zero, suc, ◌*◌, ◌/◌, ◌≤◌, ◌<◌, ◌≡◌, ◌⊎◌, refl, sym, ap, ◌∙◌, arith, subst, true, false,
  if◌then◌else◌, Bool-cases, inl, inr, Option-cases, List, ℤ, pos, ◌≤ℤ◌, ltb_ℤ, ltb, pos_part,
  str_eq, none, max,
}
use phpeek_pm.Autotune.{
  Floats, Warning, CalculationError, PhpFpmConfig, ok, err, Calculator, min_required, worker_memory,
  max_children, dynamic_settings, process_settings, raise_to, validate_config, build_config,
  checked, calculate,
}

module _ (floats : Floats) where
  -- What a successful calculation has passed.
  pub record Calculated (c : Calculator floats) (cfg : PhpFpmConfig) : Type 0 where
    pub by_memory : ℕ
    pub warnings : List Warning
    pub pool_suffices : pos c.profile.avg_memory_per_worker ≤ℤ worker_memory floats c
    pub from_pool : by_memory ≡ pos_part (worker_memory floats c) / c.profile.avg_memory_per_worker
    pub built : build_config floats c (max_children floats c by_memory warnings) ≡ cfg
    pub valid : validate_config floats cfg ≡ none

  ok_inj : {a b : PhpFpmConfig} → ok a ≡ ok b → a ≡ b
  ok_inj {a} h = ap (λ r. elim r [ ok x ↦ x | err e ↦ a ]) h

  checked_ok :
      (built cfg : PhpFpmConfig)
      → checked floats built (validate_config floats built) ≡ ok cfg
      → (built ≡ cfg) × (validate_config floats cfg ≡ none)
  checked_ok built cfg h = elim (Option-cases (validate_config floats built)) [
    | inl valid ↦
        let same : built ≡ cfg = ok_inj (rw valid at h) in
        (same, subst (λ x. validate_config floats x ≡ none) same valid)
    | inr invalid ↦ absurd (never (rw (invalid.1) at h))
  ]
    where
      never : {e : CalculationError} → err e ≡ ok cfg → ⊥
      never h = cc

  pub calculate_ok :
      (c : Calculator floats) (cfg : PhpFpmConfig) → calculate floats c ≡ ok cfg → Calculated c cfg
  unfolding calculate
  calculate_ok c cfg h =
      elim (Bool-cases (ltb c.resources.memory_limit_mb (min_required floats c.profile))) [
        | inl short ↦ absurd (never (rw (short, calculate) at h))
        | inr enough ↦
            elim (Bool-cases
              (ltb_ℤ (worker_memory floats c) (pos c.profile.avg_memory_per_worker))) [
                | inl short ↦ absurd (never (rw (enough, short, calculate) at h))
                | inr room ↦
                    let built = checked_ok _ cfg (rw (enough, room, calculate) at h) in
                    record {
                      by_memory =
                          pos_part (worker_memory floats c) / c.profile.avg_memory_per_worker;
                      warnings = _;
                      pool_suffices =
                          not_below (worker_memory floats c) (pos c.profile.avg_memory_per_worker)
                            room;
                      from_pool = refl;
                      built = built.0;
                      valid = built.1;
                    }
              ]
      ]
    where
      never : {e : CalculationError} → err e ≡ ok cfg → ⊥
      never h = cc

      not_below : (a b : ℤ) → ltb_ℤ a b ≡ false → b ≤ℤ a
      not_below a b h = ground arith

  pub max_children-bounds :
      (c : Calculator floats) (by_memory : ℕ) (ws : List Warning)
      → let n = (max_children floats c by_memory ws).0 in
        (1 ≤ n)
        × (c.profile.min_workers ≤ n)
        × (n ≤ max (max by_memory c.profile.min_workers) 1)
        × (n ≤ max (max (c.resources.cpu_limit * 4) c.profile.min_workers) 1)
        × (0 < c.profile.max_workers → n ≤ max (max c.profile.max_workers c.profile.min_workers) 1)
  unfolding max_children
  max_children-bounds c by_memory ws = ground arith

  -- A calculated number of workers is at least one and the profile's minimum. It is at most what the
  -- memory pool holds, four for each CPU and the profile's maximum, unless the minimum is larger.
  calculate-max_children :
      (c : Calculator floats) (cfg : PhpFpmConfig)
      → calculate floats c ≡ ok cfg
      → (max 1 c.profile.min_workers ≤ cfg.max_children)
        × (cfg.max_children
            ≤ max
                (max
                  (pos_part (worker_memory floats c) / c.profile.avg_memory_per_worker)
                  c.profile.min_workers)
                1)
        × (cfg.max_children ≤ max (max (c.resources.cpu_limit * 4) c.profile.min_workers) 1)
        × ((c.profile.max_workers ≡ 0)
            ⊎ (cfg.max_children ≤ max (max c.profile.max_workers c.profile.min_workers) 1))
  unfolding build_config
  calculate-max_children c cfg h =
      let r = calculate_ok c cfg h in
      let count = ap (λ (x : PhpFpmConfig). x.max_children) r.built in
      let bounds = max_children-bounds c r.by_memory r.warnings in
      (
        omega (arith, count, bounds.0, bounds.1),
        omega (arith, count, bounds.2, r.from_pool),
        omega (arith, count, bounds.3),
        limit c.profile.max_workers (λ h. omega (arith, count, bounds.4 h)),
      )
    where
      limit : {P : Type 0} (n : ℕ) → (0 < n → P) → (n ≡ 0) ⊎ P
      limit zero f = inl refl
      limit (suc n) f = inr (f (omega arith))

  validate_config-dynamic :
      (cfg : PhpFpmConfig)
      → validate_config floats cfg ≡ none
      → str_eq cfg.process_manager "dynamic" ≡ true
      → (cfg.max_spare ≤ℤ pos cfg.max_children) × (cfg.start_servers ≤ℤ pos cfg.max_children)
  unfolding validate_config
  validate_config-dynamic cfg valid dynamic = ground arith

  raise_to-ge : (least z : ℤ) → least ≤ℤ raise_to floats least z
  raise_to-ge least z = ground arith

  -- The last step for MaxSpare: it is cut down to MaxChildren, which is not below StartServers.
  cut-ge :
      (n : ℕ) (start raised : ℤ)
      → start ≤ℤ raised
      → start ≤ℤ pos n
      → start ≤ℤ (if ltb_ℤ (pos n) raised then pos n else raised)
  cut-ge n start raised above within = ground arith

  ordered :
      (c : Calculator floats) (n : ℕ)
      → let (start, min, max) = dynamic_settings floats c n in
        start ≤ℤ pos n → (pos 1 ≤ℤ min) × (min ≤ℤ start) × (start ≤ℤ max)
  unfolding dynamic_settings
  ordered c n within =
      let (start, min, max) = dynamic_settings floats c n in
      let raised = floats.scale_up n c.profile.spare_max_ratio in
      (
        raise_to-ge (pos 1) (floats.scale_up n c.profile.spare_min_ratio),
        raise_to-ge min (floats.scale_up n c.profile.start_servers_ratio),
        cut-ge n start (raise_to floats start raised) (raise_to-ge start raised) within,
      )

  -- With the dynamic process manager, a calculated configuration has
  -- 1 ≤ MinSpare ≤ StartServers ≤ MaxSpare ≤ MaxChildren.
  pub calculate-dynamic :
      (c : Calculator floats) (cfg : PhpFpmConfig)
      → calculate floats c ≡ ok cfg
      → str_eq c.profile.process_manager_type "dynamic" ≡ true
      → (pos 1 ≤ℤ cfg.min_spare)
        × (cfg.min_spare ≤ℤ cfg.start_servers)
        × (cfg.start_servers ≤ℤ cfg.max_spare)
        × (cfg.max_spare ≤ℤ pos cfg.max_children)
  unfolding build_config process_settings
  calculate-dynamic c cfg h dynamic =
      let r = calculate_ok c cfg h in
      let n = (max_children floats c r.by_memory r.warnings).0 in
      let manager = ap (λ (x : PhpFpmConfig). x.process_manager) (sym r.built) in
      let valid = validate_config-dynamic cfg r.valid (rw manager dynamic) in
      let at : process_settings floats c n ≡ dynamic_settings floats c n = rw dynamic refl in
      let settings : dynamic_settings floats c n
          ≡ (cfg.start_servers, cfg.min_spare, cfg.max_spare) =
        sym at ∙ ap (λ (x : PhpFpmConfig). (x.start_servers, x.min_spare, x.max_spare)) r.built in
      let count : cfg.max_children ≡ n = ap (λ (x : PhpFpmConfig). x.max_children) (sym r.built) in
      let within : (dynamic_settings floats c n).0 ≤ℤ pos n =
        subst (λ z. z ≤ℤ pos n) (ap (λ s. s.0) (sym settings))
          (subst (λ m. cfg.start_servers ≤ℤ pos m) count valid.1) in
      let (low, mid, high) =
        subst (λ s. (pos 1 ≤ℤ s.1) × (s.1 ≤ℤ s.0) × (s.0 ≤ℤ s.2)) settings (ordered c n within) in
      (low, mid, high, valid.0)
