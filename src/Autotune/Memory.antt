-- ===== src/Autotune/Memory.antt =====
-- The memory of a calculated configuration.
use phpeek_pm.Prelude.{
  ℕ, ◌+◌, ◌*◌, ◌/◌, ◌≤◌, ◌<◌, ◌≡◌, refl, sym, ap, ◌∙◌, arith, subst, true, false, List, ◌++◌, ℤ,
  pos, ◌≤ℤ◌, ◌+ℤ◌, sub_ℕ, ltb_ℤ, ltb, pos_part, str_eq, eq_iff, none, max, dec_lt,
}
use native.Mathlib.Nat.{div-mul-le_self, mul-le-mul_right}
use phpeek_pm.Autotune.{
  Floats, Warning, PhpFpmConfig, ok, Calculator, min_required, worker_memory, host_warnings,
  choose_threshold, max_children, validate_config, build_config, checked, calculate,
}
use phpeek_pm.Autotune.Bounds.{calculate_ok, max_children-bounds}

module _ (floats : Floats) where
  validate_config-memory :
      (cfg : PhpFpmConfig)
      → validate_config floats cfg ≡ none
      → cfg.memory_allocated + cfg.memory_opcache + cfg.memory_reserved ≤ cfg.memory_total
  unfolding validate_config
  validate_config-memory cfg valid = ground arith

  -- A calculated configuration allots each worker the profile's memory, and with OPcache and the
  -- reserve it fits into the container's, whatever the threshold, also one above 1.0.
  pub calculate-memory :
      (c : Calculator floats) (cfg : PhpFpmConfig)
      → calculate floats c ≡ ok cfg
      → (cfg.memory_allocated ≡ cfg.max_children * c.profile.avg_memory_per_worker)
        × (cfg.max_children * c.profile.avg_memory_per_worker
              + c.profile.opcache_memory_mb
              + c.profile.reserved_memory_mb
            ≤ c.resources.memory_limit_mb)
  unfolding build_config
  calculate-memory c cfg h =
      let r = calculate_ok floats c cfg h in
      let fits = validate_config-memory cfg r.valid in
      subst
        (λ (x : PhpFpmConfig).
          (x.memory_allocated ≡ x.max_children * c.profile.avg_memory_per_worker)
          × (x.max_children * c.profile.avg_memory_per_worker
                + c.profile.opcache_memory_mb
                + c.profile.reserved_memory_mb
              ≤ c.resources.memory_limit_mb))
        r.built
        (
          refl,
          subst
              (λ (x : PhpFpmConfig).
                x.memory_allocated + x.memory_opcache + x.memory_reserved ≤ x.memory_total)
              (sym r.built) fits,
        )

  workers_fit :
      (n k a m opcache reserved limit : ℕ)
      → n ≤ max (max k m) 1
      → k * a + opcache + reserved ≤ limit
      → m * a + opcache + reserved ≤ limit
      → a + opcache + reserved ≤ limit
      → n * a + opcache + reserved ≤ limit
  workers_fit n k a m opcache reserved limit bound by_pool by_min by_one = elim (dec_lt k n) [
    | no le ↦ omega (arith, by_pool, mul-le-mul_right {m = n} {n = k} a (omega arith))
    | yes lt ↦ elim (dec_lt m n) [
      | no le ↦ omega (arith, by_min, mul-le-mul_right {m = n} {n = m} a (omega arith))
      | yes lt' ↦ omega (arith, by_one, mul-le-mul_right {m = n} {n = 1} a (omega arith))
    ]
  ]

  -- What the reserve leaves of the memory below the threshold.
  pool-le :
      (s : ℤ) (reserved limit a : ℕ)
      → s ≤ℤ pos limit
      → pos a ≤ℤ s +ℤ sub_ℕ 0 reserved
      → 0 < a
      → pos_part (s +ℤ sub_ℕ 0 reserved) + reserved ≤ limit
  unfolding ◌+ℤ◌
  pool-le s reserved limit a within room some_memory = ground arith

  validate_config-static :
      (cfg : PhpFpmConfig)
      → str_eq cfg.process_manager "static" ≡ true
      → cfg.memory_allocated + cfg.memory_opcache + cfg.memory_reserved ≤ cfg.memory_total
      → validate_config floats cfg ≡ none
  unfolding validate_config
  validate_config-static cfg static fits =
      let e : cfg.process_manager ≡ "static" = (eq_iff cfg.process_manager "static").0 static in
      let other : str_eq cfg.process_manager "dynamic" ≡ false = ap (λ s. str_eq s "dynamic") e in
      ground (arith, other)

  calculate_passes :
      (c : Calculator floats)
      → min_required floats c.profile ≤ c.resources.memory_limit_mb
      → pos c.profile.avg_memory_per_worker ≤ℤ worker_memory floats c
      → ((ws : List Warning)
          → validate_config floats (
              build_config floats c (
                max_children floats c
                  (pos_part (worker_memory floats c) / c.profile.avg_memory_per_worker)
                  ws))
            ≡ none)
      → (cfg : PhpFpmConfig) × (calculate floats c ≡ ok cfg)
  unfolding calculate
  calculate_passes c enough room valid =
      let not_short : ltb c.resources.memory_limit_mb (min_required floats c.profile) ≡ false =
        ground arith in
      let ws = host_warnings floats c.resources ++ (choose_threshold floats c).1 in
      let cfg = build_config floats c (
        max_children floats c (pos_part (worker_memory floats c) / c.profile.avg_memory_per_worker)
          ws) in
      let step : calculate floats c ≡ checked floats cfg (validate_config floats cfg) =
        rw
          (not_short, not_below (worker_memory floats c) (pos c.profile.avg_memory_per_worker) room)
          refl in
      (cfg, step ∙ ap (checked floats cfg) (valid ws))
    where
      not_below : (a b : ℤ) → b ≤ℤ a → ltb_ℤ a b ≡ false
      not_below a b h = ground arith

  -- With the static process manager, Calculate succeeds if the pool has room for one worker, the
  -- threshold leaves no more than the container's memory, and the profile's minimum of workers fits.
  calculate-static :
      (c : Calculator floats)
      → str_eq c.profile.process_manager_type "static" ≡ true
      → floats.scale c.resources.memory_limit_mb (choose_threshold floats c).0
        ≤ℤ pos c.resources.memory_limit_mb
      → pos c.profile.avg_memory_per_worker ≤ℤ worker_memory floats c
      → 0 < c.profile.avg_memory_per_worker
      → c.profile.min_workers * c.profile.avg_memory_per_worker
          + c.profile.opcache_memory_mb
          + c.profile.reserved_memory_mb
        ≤ c.resources.memory_limit_mb
      → (cfg : PhpFpmConfig) × (calculate floats c ≡ ok cfg)
  calculate-static c static within room worker min =
      let a = c.profile.avg_memory_per_worker in
      let pool = worker_memory floats c in
      let reserved = c.profile.reserved_memory_mb + c.profile.opcache_memory_mb in
      let enough : pos_part pool + reserved ≤ c.resources.memory_limit_mb =
        unfold worker_memory in
        pool-le (floats.scale c.resources.memory_limit_mb (choose_threshold floats c).0) reserved
          c.resources.memory_limit_mb a within room worker in
      let one : a ≤ pos_part pool = omega (arith, room) in
      calculate_passes c (omega (arith, enough, one)) room (λ ws.
        let n = max_children floats c (pos_part pool / a) ws in
        let least =
          workers_fit n.0 (pos_part pool / a) a c.profile.min_workers c.profile.opcache_memory_mb
            c.profile.reserved_memory_mb c.resources.memory_limit_mb
            (max_children-bounds floats c (pos_part pool / a) ws).2
            (omega (arith, enough, div-mul-le_self (pos_part pool) a)) min
            (omega (arith, enough, one)) in
        unfold build_config in validate_config-static (build_config floats c n) static least)
