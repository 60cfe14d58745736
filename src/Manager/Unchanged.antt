-- ===== src/Manager/Unchanged.antt =====
-- What a reload does to a process that has not changed.
use phpeek_pm.Prelude.{
  ℕ, suc, ◌≤◌, ◌<◌, ◌≡◌, refl, sym, ap, ◌∙◌, subst, arith, inl, inr, Bool, true, false, not,
  if◌then◌else◌, Bool-cases, List, [], ◌∷◌, String, str_eq, eq_iff, Option, Option-cases, none,
  some, some_inj, lookup, length, HasUniqueKeys, All,
}
use phpeek_pm.Config.{Process, equal}
use phpeek_pm.Manager.{SupervisorOps, Managed, Manager, config_at, put, stop_managed}
use phpeek_pm.Manager.Changes.{is_none, drop_process}
use phpeek_pm.Manager.Linked.{inserted, deleted}
use phpeek_pm.Manager.Reload.{
  select, number, differs, to_stop, to_start, to_update, take_config, pointer, stop_removed_process,
  start_again, start_new_process, update_running, update_changed_process, each, reload_config,
}

-- Only names at which the test holds are selected.
select-others {ℓ} :
    {V : Type ℓ} (test : String → V → Bool) (l : List (String × V)) (k : String)
    → HasUniqueKeys l
    → ((v : V) → lookup k l ≡ some v → test k v ≡ false)
    → All (λ name. str_eq name k ≡ false) (select test l)
unfolding select lookup
select-others {V} test [] k u h = tt
select-others {V} test ((name, v) ∷ l) k u h = elim (Bool-cases (str_eq name k)) [
  | inl same ↦
      let at_name : test name v ≡ false =
        subst (λ n. test n v ≡ false) (sym ((eq_iff name k).0 same)) (h v (rw same refl)) in
      rw at_name (
        select-others test l k u.1 (λ w found.
          absurd
            (clash w (sym (subst (λ n. lookup n l ≡ none) ((eq_iff name k).0 same) u.0) ∙ found))))
  | inr other ↦
      let rest = select-others test l k u.1 (λ w found. h w (rw other found)) in
      elim (Bool-cases (test name v)) [
        | inl holds ↦ rw holds (other, rest)
        | inr fails ↦ rw fails rest
      ]
]
  where
    clash : (w : V) → ◌≡◌ {A = Option V} none (some w) → ⊥
    clash w e = cc

module _ {Sup : Type 0} (ops : SupervisorOps Sup) (k : String) where
  -- What stands at k stays.
  record Untouched (m m' : Manager Sup) : Type 0 where
    processes : lookup k m'.processes ≡ lookup k m.processes
    config : m'.config ≡ m.config
    store : m'.store ≡ m.store

  same : (m : Manager Sup) → Untouched m m
  same m = record { processes = refl; config = refl; store = refl }

  put-Untouched :
      (name : String) (x : Managed Sup) (m : Manager Sup)
      → str_eq name k ≡ false
      → Untouched m (put name x m)
  put-Untouched name x m other = record {
    processes = inserted name k x m.processes other;
    config = refl;
    store = refl;
  }

  drop_process-Untouched :
      (name : String) (m : Manager Sup) → str_eq name k ≡ false → Untouched m (drop_process name m)
  drop_process-Untouched name m other = record {
    processes = deleted name k m.processes other;
    config = refl;
    store = refl;
  }

  Untouched-trans : {m m' m'' : Manager Sup} → Untouched m m' → Untouched m' m'' → Untouched m m''
  Untouched-trans a b = record {
    processes = b.processes ∙ a.processes;
    config = b.config ∙ a.config;
    store = b.store ∙ a.store;
  }

  choice-Untouched :
      (b : Bool) (m m' m'' : Manager Sup)
      → Untouched m m'
      → Untouched m m''
      → let chosen : Manager Sup = if b then m' else m'' in Untouched m chosen
  choice-Untouched true m m' m'' u u' = u
  choice-Untouched false m m' m'' u u' = u'

  start_again-Untouched :
      (name : String) (m : Manager Sup)
      → str_eq name k ≡ false
      → Untouched m (start_again ops name m)
  start_again-Untouched name m other =
      choice-Untouched _ m _ m (put-Untouched name _ m other) (same m)

  start_new_process-Untouched :
      (name : String) (m : Manager Sup)
      → str_eq name k ≡ false
      → Untouched m (start_new_process ops name m)
  unfolding start_new_process
  start_new_process-Untouched name m other =
      choice-Untouched _ m _ m (start_again-Untouched name m other) (same m)

  stop_removed_process-Untouched :
      (name : String) (m : Manager Sup)
      → str_eq name k ≡ false
      → Untouched m (stop_removed_process ops name m)
  unfolding stop_removed_process
  stop_removed_process-Untouched name m other = elim (Option-cases (lookup name m.processes)) [
    | inl nothing ↦ rw (nothing, stop_removed_process) (same m)
    | inr (x, found) ↦
        let stopped = (stop_managed ops name x m).0 in
        rw (found, stop_removed_process)
          (Untouched-trans (put-Untouched name record x { sup = (ops.stop x.sup).0 } m other)
            (drop_process-Untouched name stopped other))
  ]

  update_running-Untouched :
      (name : String) (x : Managed Sup) (m : Manager Sup)
      → str_eq name k ≡ false
      → Untouched m (update_running ops name x m)
  update_running-Untouched name x m other =
      let (stopped, ok) = stop_managed ops name x m in
      let put_it = put-Untouched name record x { sup = (ops.stop x.sup).0 } m other in
      let on = (config_at m (pointer (lookup name m.config))).enabled in
      choice-Untouched (not ok) m stopped
        (if on then start_again ops name stopped else drop_process name stopped) put_it
        (choice-Untouched on m (start_again ops name stopped) (drop_process name stopped)
          (Untouched-trans put_it (start_again-Untouched name stopped other))
          (Untouched-trans put_it (drop_process-Untouched name stopped other)))

  update_changed_process-Untouched :
      (name : String) (m : Manager Sup)
      → str_eq name k ≡ false
      → Untouched m (update_changed_process ops name m)
  unfolding update_changed_process
  update_changed_process-Untouched name m other = elim (Option-cases (lookup name m.processes)) [
    | inl nothing ↦ rw (nothing, update_changed_process) (start_new_process-Untouched name m other)
    | inr (x, found) ↦ rw (found, update_changed_process) (update_running-Untouched name x m other)
  ]

  each-Untouched :
      (step : String → Manager Sup → Manager Sup)
      → ((name : String) (m : Manager Sup) → str_eq name k ≡ false → Untouched m (step name m))
      → (names : List String) (m : Manager Sup) → All (λ name. str_eq name k ≡ false) names
      → Untouched m (each step names m)
  unfolding each
  each-Untouched step h [] m others = same m
  each-Untouched step h (name ∷ names) m others =
      Untouched-trans (h name m others.0) (each-Untouched step h names (step name m) others.1)

  -- A process whose configuration is Equal to the old one is not touched by a reload: its supervisor goes
  -- on, with the pointer to its old configuration, while the manager holds a pointer to the new one.
  pub reload_config-unchanged :
      (new : List (String × Process)) (m : Manager Sup) (p : ℕ) (cfg : Process)
      → HasUniqueKeys m.config
      → HasUniqueKeys new
      → lookup k m.config ≡ some p
      → p < length m.store
      → lookup k new ≡ some cfg
      → equal (config_at m p) cfg ≡ true
      → (lookup k (reload_config ops new m).processes ≡ lookup k m.processes)
        × ((q : ℕ) → lookup k (reload_config ops new m).config ≡ some q → p < q)
  unfolding reload_config to_stop to_start to_update take_config number lookup
  reload_config-unchanged new m p cfg unique unique_new old inside now same_cfg =
      let stops : All (λ name. str_eq name k ≡ false) (to_stop new m) =
        select-others (λ name q. is_none (lookup name new)) m.config k unique
          (λ q found. ap is_none now) in
      let starts : All (λ name. str_eq name k ≡ false) (to_start new m) =
        select-others (λ name c. is_none (lookup name m.config)) new k unique_new
          (λ c found. ap is_none old) in
      let updates : All (λ name. str_eq name k ≡ false) (to_update new m) =
        select-others (λ name c. differs m c (lookup name m.config)) new k unique_new
          (λ c found.
            ap (differs m c) old
            ∙ ap (λ d. not (equal (config_at m p) d)) (some_inj (sym found ∙ now))
            ∙ ap not same_cfg) in
      let m1 = each (stop_removed_process ops) (to_stop new m) m in
      let m2 = take_config new m1 in
      let m3 = each (start_new_process ops) (to_start new m) m2 in
      let u1 =
        each-Untouched (stop_removed_process ops) stop_removed_process-Untouched (to_stop new m) m
          stops in
      let u3 =
        each-Untouched (start_new_process ops) start_new_process-Untouched (to_start new m) m2
          starts in
      let u4 =
        each-Untouched (update_changed_process ops) update_changed_process-Untouched
          (to_update new m) m3 updates in
      (
        u4.processes ∙ u3.processes ∙ u1.processes,
        λ q found. omega (
          arith,
          inside,
          ap length u1.store,
          number-le (length m1.store) new q (sym (ap (lookup k) (u4.config ∙ u3.config)) ∙ found),
        ),
      )
    where
      number-le :
          (n : ℕ) (l : List (String × Process)) (q : ℕ) → lookup k (number n l) ≡ some q → n ≤ q
      number-le n [] q found = cc
      number-le n ((name, c) ∷ l) q found = elim (Bool-cases (str_eq name k)) [
        | inl is_k ↦ omega (arith, some_inj (rw is_k at found))
        | inr other ↦ omega (arith, number-le (suc n) l q (rw other at found))
      ]
