-- ===== src/Manager/Performed.antt =====
-- Changes of the configuration keep the manager and the supervisors linked, and so does every command.
use phpeek_pm.Prelude.{
  ℕ, ◌<◌, ◌≡◌, refl, sym, ap, ◌∙◌, subst, arith, inl, inr, Bool, true, false, not, if◌then◌else◌,
  Bool-cases, [], ◌∷◌, ◌++◌, String, str_eq, Option, Option-cases, none, some, some_inj, lookup,
  insert, keys, pos, ltb_ℤ, length, length-append,
}
use phpeek_pm.Config.{Process}
use phpeek_pm.Manager.{
  SupervisorOps, Managed, Manager, ManagerError, start_failed, stop_failed, put,
}
use phpeek_pm.Manager.Changes.{
  is_none, is_empty, add_config, drop_config, drop_process, start_new, add_process, remove_process,
  roll_back, update_managed, update_unmanaged, update_process_locked, restart_all_processes,
  update_process,
}
use phpeek_pm.Manager.Changes.{
  Command, start, stop, restart, remove, scale, adjust, add, update, perform,
}
use phpeek_pm.Manager.Linked.{
  IsLinked, inserted, inserted_self, deleted, deleted_self, at_name, called-IsLinked,
  add_config-IsLinked, added-IsLinked, drop_config-IsLinked, drop_process-IsLinked,
  rolled_back-IsLinked,
}
use phpeek_pm.Manager.Commands.{
  start_process-IsLinked, stop_process-IsLinked, restart_process-IsLinked, restart_names-IsLinked,
  scale_process-IsLinked, adjust_scale-IsLinked,
}

-- Both branches of a test.
choice-IsLinked :
    {Sup : Type 0} (b : Bool) (r r' : Manager Sup × Option ManagerError)
    → IsLinked r.0
    → IsLinked r'.0
    → let chosen : Manager Sup × Option ManagerError = if b then r else r' in IsLinked chosen.0
choice-IsLinked true r r' h h' = h
choice-IsLinked false r r' h h' = h'

module _ {Sup : Type 0} (ops : SupervisorOps Sup) where
  start_new-IsLinked :
      (name : String) (cfg : Process) (back m : Manager Sup)
      → IsLinked back
      → ((sup : Sup)
          → IsLinked
              (put name record { config = length m.store; sup = sup } (add_config name cfg m)))
      → IsLinked (start_new ops name cfg (length m.store) back (add_config name cfg m)).0
  start_new-IsLinked name cfg back m linked_back linked =
      by_result (ops.start cfg.scale (ops.new cfg)).0 (ops.start cfg.scale (ops.new cfg)).1
    where
      by_result :
          (sup : Sup) (ok : Bool)
          → let r : Manager Sup × Option ManagerError =
              if ok
              then (
                put name record { config = length m.store; sup = sup } (add_config name cfg m),
                none,
              )
              else (back, some start_failed) in
            IsLinked r.0
      by_result sup true = linked sup
      by_result sup false = linked_back

  -- A name without a configuration has no supervisor.
  unmanaged :
      (name : String) (m : Manager Sup)
      → IsLinked m
      → is_none (lookup name m.config) ≡ true
      → lookup name m.processes ≡ none
  unmanaged name m linked unknown = elim (Option-cases (lookup name m.processes)) [
    | inl nothing ↦ nothing
    | inr (x, found) ↦ absurd (clash (sym unknown ∙ ap is_none (linked name x found).0))
  ]
    where
      clash : true ≡ false → ⊥
      clash e = cc

  add_process-IsLinked :
      (name : String) (cfg : Process) (m : Manager Sup)
      → IsLinked m
      → IsLinked (add_process ops name cfg m).0
  unfolding add_process
  add_process-IsLinked name cfg m linked = elim (Bool-cases (str_eq name "")) [
    | inl empty ↦ rw empty linked
    | inr named ↦ elim (Bool-cases (is_none (lookup name m.config))) [
      | inr known ↦ rw (named, known) linked
      | inl unknown ↦ elim (Bool-cases (is_empty cfg.command)) [
        | inl nothing ↦ rw (named, unknown, nothing) linked
        | inr command ↦ elim (Bool-cases (ltb_ℤ cfg.scale (pos 1))) [
          | inl too_few ↦ rw (named, unknown, command, too_few) linked
          | inr enough ↦
              let free = unmanaged name m linked unknown in
              let added = add_config-IsLinked name cfg m free linked in
              let new = add_config name cfg m in
              rw (named, unknown, command, enough)
                (choice-IsLinked cfg.enabled
                  (start_new ops name cfg (length m.store) (drop_config name new) new) (new, none)
                  (start_new-IsLinked name cfg (drop_config name new) m
                    (drop_config-IsLinked name new free added)
                    (λ sup. added-IsLinked name cfg sup m linked))
                  added)
        ]
      ]
    ]
  ]

  remove_process-IsLinked :
      (name : String) (m : Manager Sup) → IsLinked m → IsLinked (remove_process ops name m).0
  unfolding remove_process
  remove_process-IsLinked name m linked = elim (Bool-cases (is_none (lookup name m.config))) [
    | inl unknown ↦ rw unknown linked
    | inr known ↦ elim (Option-cases (lookup name m.processes)) [
      | inl nothing ↦
          rw (known, nothing, remove_process) (drop_config-IsLinked name m nothing linked)
      | inr (x, found) ↦
          let (sup, ok) = ops.stop x.sup in
          let m' = put name record x { sup = sup } m in
          let called = called-IsLinked name x sup m found linked in
          elim (Bool-cases ok) [
            | inl fine ↦
                rw (known, found, fine, remove_process)
                  (drop_config-IsLinked name (drop_process name m') (deleted_self name m'.processes)
                    (drop_process-IsLinked name m' called))
            | inr fails ↦ rw (known, found, fails, remove_process) called
          ]
    ]
  ]

  update_unmanaged-IsLinked :
      (name : String) (cfg : Process) (old : ℕ) (m : Manager Sup)
      → lookup name m.config ≡ some old
      → lookup name m.processes ≡ none
      → IsLinked m
      → IsLinked (update_unmanaged ops name cfg old m).0
  update_unmanaged-IsLinked name cfg old m was free linked =
      let added = add_config-IsLinked name cfg m free linked in
      let back =
        rolled_back-IsLinked name cfg old m (add_config name cfg m) was refl refl (λ k other. refl)
          (λ y found. absurd (clash y (sym free ∙ found))) linked in
      let new = add_config name cfg m in
      choice-IsLinked cfg.enabled
        (start_new ops name cfg (length m.store) (roll_back name old new) new) (new, none)
        (start_new-IsLinked name cfg (roll_back name old new) m back
          (λ sup. added-IsLinked name cfg sup m linked))
        added
    where
      clash : (y : Managed Sup) → ◌≡◌ {A = Option (Managed Sup)} none (some y) → ⊥
      clash y e = cc

  update_managed-IsLinked :
      (name : String) (cfg : Process) (old : ℕ) (x : Managed Sup) (m : Manager Sup)
      → lookup name m.config ≡ some old
      → lookup name m.processes ≡ some x
      → IsLinked m
      → IsLinked (update_managed ops name cfg old x m).0
  update_managed-IsLinked name cfg old x m was found linked =
      let p = length m.store in
      let (sup, ok) = ops.stop x.sup in
      let x' : Managed Sup = record x { sup = sup } in
      let stopped = put name x' (add_config name cfg m) in
      let back =
        rolled_back-IsLinked name cfg old m stopped was refl refl
          (λ k other. inserted name k x' m.processes other)
          (λ y at_y. (
            x,
            found,
            ap (λ z. z.config) (sym (some_inj (sym (inserted_self name x' m.processes) ∙ at_y))),
          ))
          linked in
      choice-IsLinked (not ok) (roll_back name old stopped, some stop_failed)
        (if cfg.enabled
          then start_new ops name cfg p (roll_back name old stopped) stopped
          else (drop_process name stopped, none))
        back
        (choice-IsLinked cfg.enabled (start_new ops name cfg p (roll_back name old stopped) stopped)
          (drop_process name stopped, none) (restarted x' back) (dropped x'))
    where
      -- The new supervisor takes the place of the old one.
      restarted :
          (x' : Managed Sup)
          → let stopped = put name x' (add_config name cfg m) in
            IsLinked (roll_back name old stopped)
            → IsLinked
                (start_new ops name cfg (length m.store) (roll_back name old stopped) stopped).0
      restarted x' back =
          let (sup, ok) = ops.start cfg.scale (ops.new cfg) in
          let stopped = put name x' (add_config name cfg m) in
          let y : Managed Sup = record { config = length m.store; sup = sup } in
          choice-IsLinked ok (put name y stopped, none)
            (roll_back name old stopped, some start_failed)
            (at_name name m (put name y stopped) linked
              (omega (arith, length-append m.store (cfg ∷ [])))
              (λ k other. (
                inserted name k y (insert name x' m.processes) other
                    ∙ inserted name k x' m.processes other,
                inserted name k (length m.store) m.config other,
              ))
              (λ z at_z.
                subst
                  (λ w.
                    (lookup name (insert name (length m.store) m.config) ≡ some w.config)
                    × (w.config < length (m.store ++ cfg ∷ [])))
                  (some_inj (sym (inserted_self name y (insert name x' m.processes)) ∙ at_z))
                  (
                    inserted_self name (length m.store) m.config,
                    omega (arith, length-append m.store (cfg ∷ [])),
                  )))
            back

      dropped :
          (x' : Managed Sup) → IsLinked (drop_process name (put name x' (add_config name cfg m)))
      dropped x' =
          let stopped = put name x' (add_config name cfg m) in
          at_name name m (drop_process name stopped) linked
            (omega (arith, length-append m.store (cfg ∷ [])))
            (λ k other. (
              deleted name k (insert name x' m.processes) other
                  ∙ inserted name k x' m.processes other,
              inserted name k (length m.store) m.config other,
            ))
            (λ z at_z.
              absurd (clash z (sym (deleted_self name (insert name x' m.processes)) ∙ at_z)))
        where
          clash : (z : Managed Sup) → ◌≡◌ {A = Option (Managed Sup)} none (some z) → ⊥
          clash z e = cc

  update_process_locked-IsLinked :
      (name : String) (cfg : Process) (m : Manager Sup)
      → IsLinked m
      → IsLinked (update_process_locked ops name cfg m).0
  unfolding update_process_locked
  update_process_locked-IsLinked name cfg m linked = elim (Option-cases (lookup name m.config)) [
    | inl nothing ↦ rw (nothing, update_process_locked) linked
    | inr (old, was) ↦ elim (Bool-cases (is_empty cfg.command)) [
      | inl no_command ↦ rw (was, no_command, update_process_locked) linked
      | inr command ↦ elim (Bool-cases (ltb_ℤ cfg.scale (pos 1))) [
        | inl too_few ↦ rw (was, command, too_few, update_process_locked) linked
        | inr enough ↦ elim (Option-cases (lookup name m.processes)) [
          | inl free ↦
              rw (was, command, enough, free, update_process_locked)
                (update_unmanaged-IsLinked name cfg old m was free linked)
          | inr (x, found) ↦
              rw (was, command, enough, found, update_process_locked)
                (update_managed-IsLinked name cfg old x m was found linked)
        ]
      ]
    ]
  ]

  update_process-IsLinked :
      (name : String) (cfg : Process) (m : Manager Sup)
      → IsLinked m
      → IsLinked (update_process ops name cfg m).0
  unfolding update_process restart_all_processes
  update_process-IsLinked name cfg m linked =
      let (m', e) = update_process_locked ops name cfg m in
      let linked' = update_process_locked-IsLinked name cfg m linked in
      elim (Option-cases e) [
        | inr (failure, fails) ↦ rw (fails, update_process) linked'
        | inl fine ↦
            rw (fine, update_process) (restart_names-IsLinked ops (keys m'.processes) m' linked')
      ]

  -- The start, stop, restart, scaling, addition, removal and update of a process keep the manager and the
  -- supervisors linked: a process with a supervisor has an entry
  -- in the manager's configuration, and both hold the same pointer to it, also where a call of the
  -- supervisor fails and the configuration is rolled back.
  pub perform-IsLinked :
      (command : Command) (m : Manager Sup) → IsLinked m → IsLinked (perform ops command m).0
  unfolding perform
  perform-IsLinked (start name) m linked = start_process-IsLinked ops name m linked
  perform-IsLinked (stop name) m linked = stop_process-IsLinked ops name m linked
  perform-IsLinked (restart name) m linked = restart_process-IsLinked ops name m linked
  perform-IsLinked (remove name) m linked = remove_process-IsLinked name m linked
  perform-IsLinked (scale name desired) m linked = scale_process-IsLinked ops name desired m linked
  perform-IsLinked (adjust name delta) m linked = adjust_scale-IsLinked ops name delta m linked
  perform-IsLinked (add name cfg) m linked = add_process-IsLinked name cfg m linked
  perform-IsLinked (update name cfg) m linked = update_process-IsLinked name cfg m linked
