-- ===== src/Manager/Linked.antt =====
-- The manager and the supervisor of a process have the same configuration in their hands.
use phpeek_pm.Prelude.{
  ℕ, ◌≤◌, ◌<◌, ◌≡◌, refl, sym, ap, ◌∙◌, subst, arith, inl, inr, false, Bool-cases, List, [], ◌∷◌,
  ◌++◌, String, str_eq, eq_refl, eq_iff, Option, Option-cases, none, some, some_inj, lookup, insert,
  delete, lookup-insert, lookup-delete, ℤ, length, length-append, length-set,
}
use phpeek_pm.Config.{Process}
use phpeek_pm.Manager.{Managed, Manager, config_at, put, set_scale, update_scale_config}
use phpeek_pm.Manager.Changes.{add_config, drop_config, drop_process, roll_back}

pub inserted {ℓ} :
    {V : Type ℓ} (name k : String) (v : V) (l : List (String × V))
    → str_eq name k ≡ false
    → lookup k (insert name v l) ≡ lookup k l
inserted name k v l other = lookup-insert name k v l ∙ rw other refl

pub inserted_self {ℓ} :
    {V : Type ℓ} (name : String) (v : V) (l : List (String × V))
    → lookup name (insert name v l) ≡ some v
inserted_self name v l = lookup-insert name name v l ∙ rw (eq_refl name) refl

pub deleted {ℓ} :
    {V : Type ℓ} (name k : String) (l : List (String × V))
    → str_eq name k ≡ false
    → lookup k (delete name l) ≡ lookup k l
deleted name k l other = lookup-delete name k l ∙ rw other refl

pub deleted_self {ℓ} :
    {V : Type ℓ} (name : String) (l : List (String × V)) → lookup name (delete name l) ≡ none
deleted_self name l = lookup-delete name name l ∙ rw (eq_refl name) refl

module _ {Sup : Type 0} where
  abbrev pub IsLinked : Manager Sup → Type 0
  IsLinked m =
      (name : String) (x : Managed Sup)
      → lookup name m.processes ≡ some x
      → (lookup name m.config ≡ some x.config) × (x.config < length m.store)

  -- A change at one name.
  pub at_name :
      (name : String) (m m' : Manager Sup)
      → IsLinked m
      → length m.store ≤ length m'.store
      → ((k : String)
          → str_eq name k ≡ false
          → (lookup k m'.processes ≡ lookup k m.processes)
            × (lookup k m'.config ≡ lookup k m.config))
      → ((x : Managed Sup)
          → lookup name m'.processes ≡ some x
          → (lookup name m'.config ≡ some x.config) × (x.config < length m'.store))
      → IsLinked m'
  at_name name m m' linked longer others here k x found = elim (Bool-cases (str_eq name k)) [
    | inl same ↦
        let e = (eq_iff name k).0 same in
        let (c, inside) = here x (subst (λ n. lookup n m'.processes ≡ some x) (sym e) found) in
        (subst (λ n. lookup n m'.config ≡ some x.config) e c, inside)
    | inr other ↦
        let (p, q) = others k other in
        let (c, inside) = linked k x (sym p ∙ found) in (q ∙ c, omega (arith, inside, longer))
  ]

  pub put-IsLinked :
      (name : String) (x : Managed Sup) (m : Manager Sup)
      → IsLinked m
      → lookup name m.config ≡ some x.config
      → x.config < length m.store
      → IsLinked (put name x m)
  put-IsLinked name x m linked c inside =
      at_name name m (put name x m) linked (omega arith)
        (λ k other. (inserted name k x m.processes other, refl))
        (λ y found. is_x y (some_inj (sym (inserted_self name x m.processes) ∙ found)))
    where
      is_x :
          (y : Managed Sup)
          → x ≡ y
          → (lookup name m.config ≡ some y.config) × (y.config < length m.store)
      is_x y e =
          subst (λ z. (lookup name m.config ≡ some z.config) × (z.config < length m.store)) e
            (c, inside)

  -- A call of the supervisor of a process.
  pub called-IsLinked :
      (name : String) (x : Managed Sup) (sup : Sup) (m : Manager Sup)
      → lookup name m.processes ≡ some x
      → IsLinked m
      → IsLinked (put name record x { sup = sup } m)
  called-IsLinked name x sup m found linked =
      let (c, inside) = linked name x found in
      put-IsLinked name record x { sup = sup } m linked c inside

  pub set_scale-IsLinked :
      (p : ℕ) (n : ℤ) (m : Manager Sup) → IsLinked m → IsLinked (set_scale p n m)
  set_scale-IsLinked p n m linked name x found =
      let (c, inside) = linked name x found in
      (c, omega (arith, inside, length-set m.store p record (config_at m p) { scale = n }))

  pub update_scale_config-IsLinked :
      (name : String) (n : ℤ) (m : Manager Sup)
      → IsLinked m
      → IsLinked (update_scale_config name n m)
  unfolding update_scale_config
  update_scale_config-IsLinked name n m linked = elim (Option-cases (lookup name m.config)) [
    | inl nothing ↦ rw (nothing, update_scale_config) linked
    | inr (p, found) ↦ rw (found, update_scale_config) (set_scale-IsLinked p n m linked)
  ]

  pub add_config-IsLinked :
      (name : String) (cfg : Process) (m : Manager Sup)
      → lookup name m.processes ≡ none
      → IsLinked m
      → IsLinked (add_config name cfg m)
  add_config-IsLinked name cfg m free linked =
      at_name name m (add_config name cfg m) linked
        (omega (arith, length-append m.store (cfg ∷ [])))
        (λ k other. (refl, inserted name k (length m.store) m.config other))
        (λ y found. absurd (clash y (sym free ∙ found)))
    where
      clash : (y : Managed Sup) → ◌≡◌ {A = Option (Managed Sup)} none (some y) → ⊥
      clash y e = cc

  -- A process with a new configuration and its supervisor.
  pub added-IsLinked :
      (name : String) (cfg : Process) (sup : Sup) (m : Manager Sup)
      → IsLinked m
      → IsLinked (put name record { config = length m.store; sup = sup } (add_config name cfg m))
  added-IsLinked name cfg sup m linked =
      let x : Managed Sup = record { config = length m.store; sup = sup } in
      let m' = put name x (add_config name cfg m) in
      at_name name m m' linked (omega (arith, length-append m.store (cfg ∷ [])))
        (λ k other.
          (inserted name k x m.processes other, inserted name k (length m.store) m.config other))
        (λ y found. is_x y (some_inj (sym (inserted_self name x m.processes) ∙ found)))
    where
      is_x :
          (y : Managed Sup)
          → record { config = length m.store; sup = sup } ≡ y
          → (lookup name (insert name (length m.store) m.config) ≡ some y.config)
            × (y.config < length (m.store ++ cfg ∷ []))
      is_x y e =
          subst
            (λ z.
              (lookup name (insert name (length m.store) m.config) ≡ some z.config)
              × (z.config < length (m.store ++ cfg ∷ [])))
            e
            (
              inserted_self name (length m.store) m.config,
              omega (arith, length-append m.store (cfg ∷ [])),
            )

  pub drop_config-IsLinked :
      (name : String) (m : Manager Sup)
      → lookup name m.processes ≡ none
      → IsLinked m
      → IsLinked (drop_config name m)
  drop_config-IsLinked name m free linked =
      at_name name m (drop_config name m) linked (omega arith)
        (λ k other. (refl, deleted name k m.config other))
        (λ y found. absurd (clash y (sym free ∙ found)))
    where
      clash : (y : Managed Sup) → ◌≡◌ {A = Option (Managed Sup)} none (some y) → ⊥
      clash y e = cc

  pub drop_process-IsLinked :
      (name : String) (m : Manager Sup) → IsLinked m → IsLinked (drop_process name m)
  drop_process-IsLinked name m linked =
      at_name name m (drop_process name m) linked (omega arith)
        (λ k other. (deleted name k m.processes other, refl))
        (λ y found. absurd (clash y (sym (deleted_self name m.processes) ∙ found)))
    where
      clash : (y : Managed Sup) → ◌≡◌ {A = Option (Managed Sup)} none (some y) → ⊥
      clash y e = cc

  -- The old pointer is put back, and nothing else has changed but the supervisor of the process.
  pub rolled_back-IsLinked :
      (name : String) (cfg : Process) (old : ℕ) (m m' : Manager Sup)
      → lookup name m.config ≡ some old
      → m'.config ≡ insert name (length m.store) m.config
      → m'.store ≡ m.store ++ cfg ∷ []
      → ((k : String) → str_eq name k ≡ false → lookup k m'.processes ≡ lookup k m.processes)
      → ((y : Managed Sup)
          → lookup name m'.processes ≡ some y
          → (x : Managed Sup) × (lookup name m.processes ≡ some x) × (y.config ≡ x.config))
      → IsLinked m
      → IsLinked (roll_back name old m')
  rolled_back-IsLinked name cfg old m m' was config_e store_e others mine linked =
      at_name name m (roll_back name old m') linked longer
        (λ k other. (
          others k other,
          inserted name k old m'.config other
              ∙ ap (lookup k) config_e
              ∙ inserted name k (length m.store) m.config other,
        ))
        (λ y found.
          let (x, before, same) = mine y found in
          let (c, inside) = linked name x before in
          let old_e : old ≡ x.config = some_inj (sym was ∙ c) in
          (
            inserted_self name old m'.config ∙ ap some (old_e ∙ sym same),
            omega (arith, inside, same, longer),
          ))
    where
      longer : length m.store ≤ length m'.store
      longer = omega (arith, ap length store_e, length-append m.store (cfg ∷ []))
