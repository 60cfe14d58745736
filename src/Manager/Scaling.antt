-- ===== src/Manager/Scaling.antt =====
-- What scaling makes of the number of instances.
use phpeek_pm.Prelude.{
  ℕ, zero, suc, ◌<◌, ◌≡◌, ◌≢◌, refl, sym, ap, ◌∙◌, subst, arith, inl, inr, ◌⊎◌, Bool, true, false,
  not, ◌&&◌, if◌then◌else◌, Bool-cases, List, [], ◌∷◌, String, str_eq, eq_refl, Option,
  Option-cases, none, some, lookup, insert, lookup-insert, eq_iff, ◌<ℤ◌, ℤ, pos, pos_part, ◌+ℤ◌,
  leb_ℤ, ltb_ℤ, ltb, ltb→lt, ◌==◌, ==_iff, length, get_or, set,
}
use phpeek_pm.Config.{Process, no_process}
use phpeek_pm.Supervisor.{stopped, running}
use phpeek_pm.Manager.{
  SupervisorOps, Managed, Manager, ManagerError, start_failed, stop_failed, scale_failed,
  fails_with, config_at, put, set_scale, update_scale_config, scale_to_zero, scale_up_managed,
  scale_from_zero, scale_running, scale_found, scale_process, adjusted, is_zero, adjust_scale,
}

-- What the manager relies on.
pub record SupervisorLaws {Sup : Type 0} (ops : SupervisorOps Sup) : Type 0 where
  pub starts :
      (n : ℤ) (s : Sup)
      → ops.size s ≡ 0
      → (ops.start n s).1 ≡ true
      → (ops.size (ops.start n s).0 ≡ pos_part n) × (ops.state (ops.start n s).0 ≡ running)
  pub stops : (s : Sup) → (ops.size (ops.stop s).0 ≡ 0) × (ops.state (ops.stop s).0 ≡ stopped)
  pub scales_up :
      (n : ℕ) (s : Sup)
      → ops.size s < n
      → (ops.scale_up n s).1 ≡ true
      → ops.size (ops.scale_up n s).0 ≡ n
  pub scales_down :
      (n : ℕ) (s : Sup)
      → n < ops.size s
      → (ops.scale_down n s).1 ≡ true
      → ops.size (ops.scale_down n s).0 ≡ n

pub lookup-insert_self {ℓ} :
    {V : Type ℓ} (k : String) (v : V) (l : List (String × V)) → lookup k (insert k v l) ≡ some v
lookup-insert_self k v l = lookup-insert k k v l ∙ rw (eq_refl k) refl

get_or-set : (l : List Process) (i : ℕ) (v d : Process) → i < length l → get_or (set l i v) i d ≡ v
get_or-set [] i v d h = absurd (omega arith)
get_or-set (x ∷ l) zero v d h = refl
get_or-set (x ∷ l) (suc i) v d h = get_or-set l i v d (omega arith)

module _ {Sup : Type 0} (ops : SupervisorOps Sup) (laws : SupervisorLaws ops) (name : String) where
  -- If there is no error, the process has n instances.
  abbrev HasSize : ℕ → Manager Sup × Option ManagerError → Type 0
  HasSize n r =
      r.1 ≡ none → (x : Managed Sup) × (lookup name r.0.processes ≡ some x) × (ops.size x.sup ≡ n)

  update_scale_config-processes :
      (n : ℤ) (m : Manager Sup) → (update_scale_config name n m).processes ≡ m.processes
  unfolding update_scale_config
  update_scale_config-processes n m = elim (Option-cases (lookup name m.config)) [
    | inl nothing ↦ rw (nothing, update_scale_config) refl
    | inr (p, found) ↦ rw (found, update_scale_config) refl
  ]

  put-HasSize :
      (n : ℕ) (x : Managed Sup) (m : Manager Sup) (e : Option ManagerError)
      → ops.size x.sup ≡ n
      → HasSize n (put name x m, e)
  put-HasSize n x m e size_n fine = (x, lookup-insert_self name x m.processes, size_n)

  -- An operation that is followed by the new scale in the configuration.
  updated-HasSize :
      (n : ℕ) (k : ℤ) (x : Managed Sup) (m : Manager Sup) (ok : Bool) (e : ManagerError)
      → (ok ≡ true → ops.size x.sup ≡ n)
      → let r : Manager Sup × Option ManagerError =
          if ok
          then (update_scale_config name k (put name x m), none)
          else (put name x m, some e) in
        HasSize n r
  updated-HasSize n k x m true e size_n fine = (
    x,
    subst (λ l. lookup name l ≡ some x) (sym (update_scale_config-processes k (put name x m)))
        (lookup-insert_self name x m.processes),
    size_n refl,
  )
  updated-HasSize n k x m false e size_n fine = cc

  scale_to_zero-HasSize :
      (x : Managed Sup) (m : Manager Sup)
      → lookup name m.processes ≡ some x
      → HasSize 0 (scale_to_zero ops name x m)
  scale_to_zero-HasSize x m found = elim (Bool-cases (ops.size x.sup == 0)) [
    | inl empty ↦ rw empty (λ fine. (x, found, (==_iff (ops.size x.sup) 0).0 empty))
    | inr some_there ↦
        let (sup, ok) = ops.stop x.sup in
        rw some_there (
          updated-HasSize 0 (pos 0) record x { sup = sup } m ok stop_failed
            (λ fine. (laws.stops x.sup).0))
  ]

  -- The failure is that of the call.
  failing-HasSize :
      (n : ℕ) (x : Managed Sup) (m : Manager Sup) (ok : Bool) (e : ManagerError)
      → (ok ≡ true → ops.size x.sup ≡ n)
      → HasSize n (put name x m, fails_with e ok)
  failing-HasSize n x m true e size_n fine = put-HasSize n x m none (size_n refl) fine
  failing-HasSize n x m false e size_n fine = cc

  scale_from_zero-HasSize :
      (n p : ℕ) (x : Managed Sup) (m : Manager Sup)
      → x.config ≡ p
      → p < length m.store
      → ops.size x.sup ≡ 0
      → HasSize n (scale_from_zero ops name n x p m)
  scale_from_zero-HasSize n p x m linked inside empty =
      let m' = set_scale p (pos n) m in
      let reads : (config_at m' x.config).scale ≡ pos n = rw linked (
        ap (λ c. c.scale)
          (get_or-set m.store p record (config_at m p) { scale = pos n } no_process inside)) in
      let (sup, ok) = ops.start (config_at m' x.config).scale x.sup in
      let x' : Managed Sup = record x { sup = sup } in
      let started : Manager Sup = put name x' m' in
      let has_n : ok ≡ true → ops.size sup ≡ n = λ fine.
        (laws.starts (config_at m' x.config).scale x.sup empty fine).0 ∙ ap pos_part reads in
      after_start n x' started ok (lookup-insert_self name x' m'.processes) has_n
    where
      after_start :
          (n : ℕ) (x' : Managed Sup) (started : Manager Sup) (ok : Bool)
          → lookup name started.processes ≡ some x'
          → (ok ≡ true → ops.size x'.sup ≡ n)
          → let (m'', ok') = scale_up_managed ops name n x' started in
            let r : Manager Sup × Option ManagerError =
              if not ok
              then (started, some start_failed)
              else if n == 1
              then (started, none)
              else if ltb (ops.size x'.sup) n
              then (m'', fails_with scale_failed ok')
              else (started, none) in
            HasSize n r
      after_start n x' started false found has_n = λ fine. cc
      after_start n x' started true found has_n = elim (Bool-cases (n == 1)) [
        | inl one ↦ rw one (λ fine. (x', found, has_n refl))
        | inr more ↦
            let e : ltb (ops.size x'.sup) n ≡ false = ground (arith, has_n refl) in
            rw (more, e) (λ fine. (x', found, has_n refl))
      ]

  scale_running-HasSize :
      (n : ℕ) (x : Managed Sup) (m : Manager Sup)
      → lookup name m.processes ≡ some x
      → HasSize n (scale_running ops name n x m)
  scale_running-HasSize n x m found = elim (Bool-cases (ops.size x.sup == n)) [
    | inl same ↦ rw same (λ fine. (x, found, (==_iff (ops.size x.sup) n).0 same))
    | inr other ↦ elim (Bool-cases (ltb (ops.size x.sup) n)) [
      | inl up ↦
          let (sup, ok) = ops.scale_up n x.sup in
          rw (other, up)
            (updated-HasSize n (pos n) record x { sup = sup } m ok scale_failed
              (λ fine. laws.scales_up n x.sup (ltb→lt _ _ up) fine))
      | inr down ↦
          let (sup, ok) = ops.scale_down n x.sup in
          let less : n < ops.size x.sup = ground (arith, other, down) in
          rw (other, down)
            (updated-HasSize n (pos n) record x { sup = sup } m ok scale_failed
              (λ fine. laws.scales_down n x.sup less fine))
    ]
  ]

  scale_found-HasSize :
      (desired : ℤ) (x : Managed Sup) (p : ℕ) (m : Manager Sup)
      → lookup name m.processes ≡ some x
      → x.config ≡ p
      → p < length m.store
      → HasSize (pos_part desired) (scale_found ops name desired x p m)
  scale_found-HasSize desired x p m found linked inside =
      let cfg = config_at m p in
      elim (Bool-cases (ltb_ℤ (pos 0) cfg.max_scale && ltb_ℤ cfg.max_scale desired)) [
        | inl above ↦ rw above (λ fine. cc)
        | inr below ↦ elim (Bool-cases (str_eq cfg.type "oneshot")) [
          | inl once ↦ rw (below, once) (λ fine. cc)
          | inr long ↦ elim (Bool-cases (leb_ℤ desired (pos 0))) [
            | inl down ↦
                let e : pos_part desired ≡ 0 = ground (arith, down) in
                rw (below, long, down)
                  (subst (λ n. HasSize n (scale_to_zero ops name x m)) (sym e)
                    (scale_to_zero-HasSize x m found))
            | inr up ↦ elim (Bool-cases (ops.size x.sup == 0)) [
              | inl empty ↦
                  rw (below, long, up, empty)
                    (scale_from_zero-HasSize (pos_part desired) p x m linked inside
                      ((==_iff _ 0).0 empty))
              | inr some_there ↦
                  rw (below, long, up, some_there)
                    (scale_running-HasSize (pos_part desired) x m found)
            ]
          ]
        ]
      ]

  -- If ScaleProcess returns no error for a process whose supervisor has the same pointer to its
  -- configuration as the manager, the process has as many instances as were asked for, none at a scale that is not positive.
  pub scale_process_lem :
      (desired : ℤ) (m : Manager Sup) (x : Managed Sup)
      → lookup name m.config ≡ some x.config
      → lookup name m.processes ≡ some x
      → x.config < length m.store
      → (scale_process ops name desired m).1 ≡ none
      → (x' : Managed Sup) × (lookup name (scale_process ops name desired m).0.processes ≡ some x')
        × (ops.size x'.sup ≡ pos_part desired)
  unfolding scale_process
  scale_process_lem desired m x configured found inside = elim (Bool-cases (str_eq name "")) [
    | inl empty ↦ rw empty (λ fine. cc)
    | inr named ↦ elim (Bool-cases (ltb_ℤ m.max_process_scale desired)) [
      | inl above ↦ rw (named, above) (λ fine. cc)
      | inr below ↦
          rw (named, below, configured, found, scale_process)
            (scale_found-HasSize desired x x.config m found refl inside)
    ]
  ]

  -- AdjustScale that returns no error moves the number of instances by delta, but not below none.
  adjust_scale_lem :
      (delta : ℤ) (m : Manager Sup) (x : Managed Sup)
      → lookup name m.config ≡ some x.config
      → lookup name m.processes ≡ some x
      → x.config < length m.store
      → (adjust_scale ops name delta m).1 ≡ none
      → (x' : Managed Sup) × (lookup name (adjust_scale ops name delta m).0.processes ≡ some x')
        × (ops.size x'.sup ≡ pos_part (pos (ops.size x.sup) +ℤ delta))
  unfolding adjust_scale
  adjust_scale_lem delta m x configured found inside =
      let current = ops.size x.sup in
      let target = adjusted current delta in
      let cfg = config_at m x.config in
      elim (Bool-cases (is_zero delta)) [
        | inl still ↦ rw still (λ fine. (x, found, stays delta current still))
        | inr moves ↦
            elim (Bool-cases (ltb_ℤ (pos 0) cfg.max_scale && ltb_ℤ cfg.max_scale (pos target))) [
              | inl above ↦ rw (moves, configured, found, above, adjust_scale) (λ fine. cc)
              | inr below ↦ elim (Bool-cases (target == current)) [
                | inl same ↦
                    rw (moves, configured, found, below, same, adjust_scale)
                      (λ fine. (x, found, sym ((==_iff target current).0 same)))
                | inr other ↦
                    rw (moves, configured, found, below, other, adjust_scale)
                      (scale_process_lem (pos target) m x configured found inside)
              ]
            ]
      ]
    where
      stays : (delta : ℤ) (n : ℕ) → is_zero delta ≡ true → n ≡ pos_part (pos n +ℤ delta)
      stays (pos d) n h = ground (arith, h)
      stays (ℤ.negsuc d) n h = cc

module _ {Sup : Type 0} (ops : SupervisorOps Sup) (name : String) where
  -- ScaleProcess above the maximum of the manager, or above a positive max_scale of the process, or of
  -- a oneshot process, changes nothing and returns an error.
  scale_process_refuses :
      (desired : ℤ) (m : Manager Sup) (x : Managed Sup)
      → lookup name m.config ≡ some x.config
      → lookup name m.processes ≡ some x
      → (ltb_ℤ m.max_process_scale desired ≡ true)
        ⊎ (((pos 0 <ℤ (config_at m x.config).max_scale)
              × ((config_at m x.config).max_scale <ℤ desired))
            ⊎ ((config_at m x.config).type ≡ "oneshot"))
      → ((scale_process ops name desired m).0 ≡ m) × ((scale_process ops name desired m).1 ≢ none)
  unfolding scale_process
  scale_process_refuses desired m x configured found reason =
      let cfg = config_at m x.config in
      elim (Bool-cases (str_eq name "")) [
        | inl empty ↦ rw empty (refl, λ e. cc)
        | inr named ↦ elim (Bool-cases (ltb_ℤ m.max_process_scale desired)) [
          | inl above ↦ rw (named, above) (refl, λ e. cc)
          | inr within ↦
              elim (Bool-cases (ltb_ℤ (pos 0) cfg.max_scale && ltb_ℤ cfg.max_scale desired)) [
                | inl above ↦
                    rw (named, within, configured, found, above, scale_process) (refl, λ e. cc)
                | inr below ↦
                    let once : str_eq cfg.type "oneshot" ≡ true =
                      only_oneshot cfg within below reason in
                    rw (named, within, configured, found, below, once, scale_process)
                      (refl, λ e. cc)
              ]
        ]
      ]
    where
      only_oneshot :
          (cfg : Process)
          → ltb_ℤ m.max_process_scale desired ≡ false
          → (ltb_ℤ (pos 0) cfg.max_scale && ltb_ℤ cfg.max_scale desired) ≡ false
          → (ltb_ℤ m.max_process_scale desired ≡ true)
            ⊎ (((pos 0 <ℤ cfg.max_scale) × (cfg.max_scale <ℤ desired)) ⊎ (cfg.type ≡ "oneshot"))
          → str_eq cfg.type "oneshot" ≡ true
      only_oneshot cfg within below (inl above) = cc
      only_oneshot cfg within below (inr (inl (some_max, more))) =
          absurd (ground (arith, below, some_max, more))
      only_oneshot cfg within below (inr (inr once)) = (eq_iff cfg.type "oneshot").1 once
