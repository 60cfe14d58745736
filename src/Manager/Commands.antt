-- ===== src/Manager/Commands.antt =====
-- Starting, stopping and scaling keep the manager and the supervisors linked.
use phpeek_pm.Prelude.{
  ℕ, ◌≡◌, inl, inr, Bool, true, false, not, ◌&&◌, if◌then◌else◌, Bool-cases, List, [], ◌∷◌, String,
  str_eq, Option, Option-cases, none, some, lookup, ℤ, pos, pos_part, leb_ℤ, ltb_ℤ, ltb, ◌==◌,
}
use phpeek_pm.Manager.{
  SupervisorOps, Managed, Manager, ManagerError, scale_failed, stop_failed, config_at, put,
  set_scale, update_scale_config, is_stopped, start_found, start_process, stop_process,
  stop_and_start, restart_process, scale_to_zero, scale_from_zero, scale_running, scale_found,
  scale_process, adjusted, is_zero, adjust_scale,
}
use phpeek_pm.Manager.Changes.{restart_names}
use phpeek_pm.Manager.Linked.{
  IsLinked, inserted_self, called-IsLinked, set_scale-IsLinked, update_scale_config-IsLinked,
}

module _ {Sup : Type 0} (ops : SupervisorOps Sup) where
  start_found-IsLinked :
      (name : String) (x : Managed Sup) (p : ℕ) (m : Manager Sup)
      → lookup name m.processes ≡ some x
      → IsLinked m
      → IsLinked (start_found ops name x p m).0
  start_found-IsLinked name x p m found linked = elim (Bool-cases (not (config_at m p).enabled)) [
    | inl off ↦ rw off linked
    | inr on ↦ elim (Bool-cases (not (is_stopped (ops.state x.sup)))) [
      | inl busy ↦ rw (on, busy) linked
      | inr still ↦ rw (on, still) (called-IsLinked name x _ m found linked)
    ]
  ]

  pub start_process-IsLinked :
      (name : String) (m : Manager Sup) → IsLinked m → IsLinked (start_process ops name m).0
  unfolding start_process
  start_process-IsLinked name m linked = elim (Bool-cases (str_eq name "")) [
    | inl empty ↦ rw empty linked
    | inr named ↦ elim (Option-cases (lookup name m.processes)) [
      | inl nothing ↦ rw (named, nothing, start_process) linked
      | inr (x, found) ↦
          let (c, inside) = linked name x found in
          rw (named, found, c, start_process) (start_found-IsLinked name x x.config m found linked)
    ]
  ]

  pub stop_process-IsLinked :
      (name : String) (m : Manager Sup) → IsLinked m → IsLinked (stop_process ops name m).0
  unfolding stop_process
  stop_process-IsLinked name m linked = elim (Bool-cases (str_eq name "")) [
    | inl empty ↦ rw empty linked
    | inr named ↦ elim (Option-cases (lookup name m.processes)) [
      | inl nothing ↦ rw (named, nothing, stop_process) linked
      | inr (x, found) ↦ elim (Bool-cases (is_stopped (ops.state x.sup))) [
        | inl still ↦ rw (named, found, still, stop_process) linked
        | inr busy ↦ rw (named, found, busy, stop_process) (called-IsLinked name x _ m found linked)
      ]
    ]
  ]

  stop_and_start-IsLinked :
      (name : String) (x : Managed Sup) (m : Manager Sup)
      → lookup name m.processes ≡ some x
      → IsLinked m
      → IsLinked (stop_and_start ops name x m).0
  stop_and_start-IsLinked name x m found linked =
      let (sup, ok) = ops.stop x.sup in
      let x' : Managed Sup = record x { sup = sup } in
      let stopped = called-IsLinked name x sup m found linked in
      elim (Bool-cases ok) [
        | inl fine ↦
            rw fine (
              called-IsLinked name x' _ (put name x' m) (inserted_self name x' m.processes) stopped)
        | inr fails ↦ rw fails stopped
      ]

  pub restart_process-IsLinked :
      (name : String) (m : Manager Sup) → IsLinked m → IsLinked (restart_process ops name m).0
  unfolding restart_process
  restart_process-IsLinked name m linked = elim (Bool-cases (str_eq name "")) [
    | inl empty ↦ rw empty linked
    | inr named ↦ elim (Option-cases (lookup name m.processes)) [
      | inl nothing ↦ rw (named, nothing, restart_process) linked
      | inr (x, found) ↦ elim (Bool-cases (is_stopped (ops.state x.sup))) [
        | inl still ↦
            rw (named, found, (linked name x found).0, still, restart_process)
              (start_process-IsLinked name m linked)
        | inr busy ↦
            rw (named, found, (linked name x found).0, busy, restart_process)
              (stop_and_start-IsLinked name x m found linked)
      ]
    ]
  ]

  pub restart_names-IsLinked :
      (names : List String) (m : Manager Sup) → IsLinked m → IsLinked (restart_names ops names m).0
  unfolding restart_names
  restart_names-IsLinked [] m linked = linked
  restart_names-IsLinked (name ∷ names) m linked =
      restart_names-IsLinked names (restart_process ops name m).0
        (restart_process-IsLinked name m linked)

  update_scale-IsLinked :
      (name : String) (n : ℤ) (x : Managed Sup) (sup : Sup) (ok : Bool) (e : ManagerError)
      (m : Manager Sup)
      → lookup name m.processes ≡ some x
      → IsLinked m
      → let m' = put name record x { sup = sup } m in
        let r : Manager Sup × Option ManagerError =
          if ok then (update_scale_config name n m', none) else (m', some e) in
        IsLinked r.0
  update_scale-IsLinked name n x sup true e m found linked =
      update_scale_config-IsLinked name n (put name record x { sup = sup } m)
        (called-IsLinked name x sup m found linked)
  update_scale-IsLinked name n x sup false e m found linked =
      called-IsLinked name x sup m found linked

  scale_to_zero-IsLinked :
      (name : String) (x : Managed Sup) (m : Manager Sup)
      → lookup name m.processes ≡ some x
      → IsLinked m
      → IsLinked (scale_to_zero ops name x m).0
  scale_to_zero-IsLinked name x m found linked = elim (Bool-cases (ops.size x.sup == 0)) [
    | inl empty ↦ rw empty linked
    | inr some_there ↦ rw some_there (
        update_scale-IsLinked name (pos 0) x (ops.stop x.sup).0 (ops.stop x.sup).1 stop_failed m
          found linked)
  ]

  scale_from_zero-IsLinked :
      (name : String) (n : ℕ) (x : Managed Sup) (p : ℕ) (m : Manager Sup)
      → lookup name m.processes ≡ some x
      → IsLinked m
      → IsLinked (scale_from_zero ops name n x p m).0
  scale_from_zero-IsLinked name n x p m found linked =
      let m' = set_scale p (pos n) m in
      let (sup, ok) = ops.start (config_at m' x.config).scale x.sup in
      let x' : Managed Sup = record x { sup = sup } in
      let linked' = called-IsLinked name x sup m' found (set_scale-IsLinked p (pos n) m linked) in
      elim (Bool-cases (not ok)) [
        | inl fails ↦ rw fails linked'
        | inr fine ↦ elim (Bool-cases (n == 1)) [
          | inl one ↦ rw (fine, one) linked'
          | inr more ↦ elim (Bool-cases (ltb (ops.size sup) n)) [
            | inl too_few ↦
                rw (fine, more, too_few)
                  (called-IsLinked name x' _ (put name x' m') (inserted_self name x' m'.processes)
                    linked')
            | inr enough ↦ rw (fine, more, enough) linked'
          ]
        ]
      ]

  scale_running-IsLinked :
      (name : String) (n : ℕ) (x : Managed Sup) (m : Manager Sup)
      → lookup name m.processes ≡ some x
      → IsLinked m
      → IsLinked (scale_running ops name n x m).0
  scale_running-IsLinked name n x m found linked = elim (Bool-cases (ops.size x.sup == n)) [
    | inl same ↦ rw same linked
    | inr other ↦ elim (Bool-cases (ltb (ops.size x.sup) n)) [
      | inl up ↦
          rw (other, up)
            (update_scale-IsLinked name (pos n) x (ops.scale_up n x.sup).0 (ops.scale_up n x.sup).1
              scale_failed m found linked)
      | inr down ↦
          rw (other, down)
            (update_scale-IsLinked name (pos n) x (ops.scale_down n x.sup).0
              (ops.scale_down n x.sup).1 scale_failed m found linked)
    ]
  ]

  scale_found-IsLinked :
      (name : String) (desired : ℤ) (x : Managed Sup) (p : ℕ) (m : Manager Sup)
      → lookup name m.processes ≡ some x
      → IsLinked m
      → IsLinked (scale_found ops name desired x p m).0
  scale_found-IsLinked name desired x p m found linked =
      let cfg = config_at m p in
      elim (Bool-cases (ltb_ℤ (pos 0) cfg.max_scale && ltb_ℤ cfg.max_scale desired)) [
        | inl above ↦ rw above linked
        | inr below ↦ elim (Bool-cases (str_eq cfg.type "oneshot")) [
          | inl once ↦ rw (below, once) linked
          | inr long ↦ elim (Bool-cases (leb_ℤ desired (pos 0))) [
            | inl down ↦ rw (below, long, down) (scale_to_zero-IsLinked name x m found linked)
            | inr up ↦ elim (Bool-cases (ops.size x.sup == 0)) [
              | inl empty ↦
                  rw (below, long, up, empty)
                    (scale_from_zero-IsLinked name (pos_part desired) x p m found linked)
              | inr some_there ↦
                  rw (below, long, up, some_there)
                    (scale_running-IsLinked name (pos_part desired) x m found linked)
            ]
          ]
        ]
      ]

  pub scale_process-IsLinked :
      (name : String) (desired : ℤ) (m : Manager Sup)
      → IsLinked m
      → IsLinked (scale_process ops name desired m).0
  unfolding scale_process
  scale_process-IsLinked name desired m linked = elim (Bool-cases (str_eq name "")) [
    | inl empty ↦ rw empty linked
    | inr named ↦ elim (Bool-cases (ltb_ℤ m.max_process_scale desired)) [
      | inl above ↦ rw (named, above) linked
      | inr below ↦ elim (Option-cases (lookup name m.config)) [
        | inl nothing ↦ rw (named, below, nothing, scale_process) linked
        | inr (p, c) ↦ elim (Option-cases (lookup name m.processes)) [
          | inl nothing ↦ rw (named, below, c, nothing, scale_process) linked
          | inr (x, found) ↦
              rw (named, below, c, found, scale_process)
                (scale_found-IsLinked name desired x p m found linked)
        ]
      ]
    ]
  ]

  pub adjust_scale-IsLinked :
      (name : String) (delta : ℤ) (m : Manager Sup)
      → IsLinked m
      → IsLinked (adjust_scale ops name delta m).0
  unfolding adjust_scale
  adjust_scale-IsLinked name delta m linked = elim (Bool-cases (is_zero delta)) [
    | inl still ↦ rw still linked
    | inr moves ↦ elim (Option-cases (lookup name m.config)) [
      | inl nothing ↦ rw (moves, nothing, adjust_scale) linked
      | inr (p, c) ↦ elim (Option-cases (lookup name m.processes)) [
        | inl nothing ↦ rw (moves, c, nothing, adjust_scale) linked
        | inr (x, found) ↦
            let target = adjusted (ops.size x.sup) delta in
            let cfg = config_at m p in
            elim (Bool-cases (ltb_ℤ (pos 0) cfg.max_scale && ltb_ℤ cfg.max_scale (pos target))) [
              | inl above ↦ rw (moves, c, found, above, adjust_scale) linked
              | inr below ↦ elim (Bool-cases (target == ops.size x.sup)) [
                | inl same ↦ rw (moves, c, found, below, same, adjust_scale) linked
                | inr other ↦
                    rw (moves, c, found, below, other, adjust_scale)
                      (scale_process-IsLinked name (pos target) m linked)
              ]
            ]
      ]
    ]
  ]
