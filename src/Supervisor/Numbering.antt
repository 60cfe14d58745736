-- ===== src/Supervisor/Numbering.antt =====
-- The instances of a supervisor are numbered from 0: what Start and the goroutines keep.
use phpeek_pm.Prelude.{
  ℕ, zero, suc, ◌≡◌, ◌≢◌, refl, sym, ap, ◌∙◌, subst, arith, inl, inr, ◌⊎◌, Bool, true, false,
  if◌then◌else◌, List, [], ◌∷◌, ◌++◌, ℤ, pos, pos_part, length, get_elem?, Option, Option-cases,
  none, some, some_inj, set, ℕ_discrete,
}
use phpeek_pm.Restart.{should_restart, is_zero}
use phpeek_pm.Supervisor.{
  starting, running, stopped, failed, completed, counting, replacing, finished, Instance, Stops,
  Operation, no_operation, scaling_up, cleaning_up, scaling_down, shutting_down, Context,
  no_context, live, cancelled, Settings, Supervisor, put, started, start_instance, start_from,
  mark_ready, after_start, start, check_all_instances_dead, handle_oneshot_exit, monitor_instance,
  replace_id, restart_under, count_restart, replace_instance,
}
use phpeek_pm.Supervisor.Steps.{with_stops, stops_of}
use phpeek_pm.Supervisor.Restarts.{get-set_here, get-set_other}
use phpeek_pm.Supervisor.Links.{LinkOf, Linked, Linked-set, Linked-restarted, start_from-Linked}
use phpeek_pm.Supervisor.Reached.{exit_choice}
use phpeek_pm.Supervisor.Positions.{
  id_at, Placed, KeepsIds, Placed-KeepsIds, replace_id-Placed, KeepsIds-append, KeepsIds-set,
  length-replace_id, start_from-Placed,
}

-- What ScaleUp has started so far goes on with the numbers.
abbrev pub NewPlaced : Operation → List Instance → ℕ → Type 0
NewPlaced no_operation heap n = Unit {0}
NewPlaced (scaling_up target new) heap n = Placed heap n new
NewPlaced (cleaning_up stops) heap n = Unit {0}
NewPlaced (scaling_down target stops) heap n = Unit {0}
NewPlaced (shutting_down stops) heap n = Unit {0}

abbrev pub IsIdle : Supervisor → Type 0
IsIdle s = (s.instances ≡ []) × (s.operation ≡ no_operation)

pub record IsNumbered (s : Supervisor) : Type 0 where
  pub placed : Placed s.heap 0 s.instances
  pub new : NewPlaced s.operation s.heap (length s.instances)
  pub idle : (s.state ≢ stopped) ⊎ IsIdle s
  pub links : Linked s.heap

-- A step of a goroutine that changes no more than instances.
pub record Similar (s t : Supervisor) : Type 0 where
  pub ids : KeepsIds s.heap t.heap
  pub instances : t.instances ≡ s.instances
  pub operation : t.operation ≡ s.operation
  pub state : t.state ≡ s.state
  pub links : Linked s.heap → Linked t.heap

NewPlaced-KeepsIds :
    (o : Operation) (heap heap' : List Instance) (n : ℕ)
    → KeepsIds heap heap'
    → NewPlaced o heap n
    → NewPlaced o heap' n
NewPlaced-KeepsIds no_operation heap heap' n keeps p = tt
NewPlaced-KeepsIds (scaling_up target new) heap heap' n keeps p =
    Placed-KeepsIds heap heap' n new keeps p
NewPlaced-KeepsIds (cleaning_up stops) heap heap' n keeps p = tt
NewPlaced-KeepsIds (scaling_down target stops) heap heap' n keeps p = tt
NewPlaced-KeepsIds (shutting_down stops) heap heap' n keeps p = tt

pub not_new :
    (o : Operation) (heap : List Instance) (n : ℕ) (stops : Stops)
    → stops_of o ≡ some stops
    → (stops' : Stops) → NewPlaced (with_stops stops' o) heap n
not_new no_operation heap n stops e stops' = tt
not_new (scaling_up target new) heap n stops e stops' = cc
not_new (cleaning_up _) heap n stops e stops' = tt
not_new (scaling_down target _) heap n stops e stops' = tt
not_new (shutting_down _) heap n stops e stops' = tt

pub Similar-IsNumbered : (s t : Supervisor) → Similar s t → IsNumbered s → IsNumbered t
Similar-IsNumbered s t same v = record {
  placed =
      subst (λ l. Placed t.heap 0 l) (sym same.instances)
        (Placed-KeepsIds s.heap t.heap 0 s.instances same.ids v.placed);
  new =
      subst (λ o. NewPlaced o t.heap (length t.instances)) (sym same.operation)
        (subst (λ l. NewPlaced s.operation t.heap (length l)) (sym same.instances)
          (NewPlaced-KeepsIds s.operation s.heap t.heap (length s.instances) same.ids v.new));
  idle = elim v.idle [
    | inl moves ↦ inl (λ e. moves (sym same.state ∙ e))
    | inr (none_there, free) ↦ inr (same.instances ∙ none_there, same.operation ∙ free)
  ];
  links = same.links v.links;
}

pub put-Similar :
    (h : ℕ) (i j : Instance) (s : Supervisor)
    → get_elem? s.heap h ≡ some i
    → j.id ≡ i.id
    → (Linked s.heap → LinkOf j.monitor j.id s.heap)
    → Similar s (put h j s)
put-Similar h i j s found same link = record {
  ids = KeepsIds-set s.heap h i j found same;
  instances = refl;
  operation = refl;
  state = refl;
  links = λ l. Linked-set s.heap h i j found same (link l) l;
}

Similar-trans : (s t u : Supervisor) → Similar s t → Similar t u → Similar s u
Similar-trans s t u a b = record {
  ids = λ h n e. b.ids h n (a.ids h n e);
  instances = b.instances ∙ a.instances;
  operation = b.operation ∙ a.operation;
  state = b.state ∙ a.state;
  links = λ l. b.links (a.links l);
}

same_heap : (s t : Supervisor) → t.heap ≡ s.heap → KeepsIds s.heap t.heap
same_heap s t e h n at_h = subst (λ heap. id_at heap h ≡ some n) (sym e) at_h

module _ (cfg : Settings) where
  check_all_instances_dead-Similar : (s : Supervisor) → Similar s (check_all_instances_dead cfg s)
  unfolding check_all_instances_dead
  check_all_instances_dead-Similar s = record {
    ids = same_heap s (check_all_instances_dead cfg s) (ground arith);
    instances = ground arith;
    operation = ground arith;
    state = ground arith;
    links = subst Linked (ground arith);
  }

  mark_ready_if-Similar : (b : Bool) (s : Supervisor) → Similar s (if b then mark_ready s else s)
  mark_ready_if-Similar true s = record {
    ids = λ h n e. e;
    instances = refl;
    operation = refl;
    state = refl;
    links = λ l. l;
  }
  mark_ready_if-Similar false s = record {
    ids = λ h n e. e;
    instances = refl;
    operation = refl;
    state = refl;
    links = λ l. l;
  }

  exit_choice-Similar :
      (once allowed again : Bool) (h : ℕ) (code : ℤ) (count : ℕ) (i : Instance) (s : Supervisor)
      → get_elem? s.heap h ≡ some i
      → Similar s (exit_choice cfg once allowed again h code count i s)
  unfolding handle_oneshot_exit
  exit_choice-Similar true allowed again h code count i s found =
      let j = record i { state = if is_zero code then completed else failed; monitor = finished } in
      let left = put h j s in
      let readied : Supervisor = if is_zero code then mark_ready left else left in
      Similar-trans s readied _
        (Similar-trans s left readied (put-Similar h i j s found refl (λ l. tt))
          (mark_ready_if-Similar (is_zero code) left))
        (check_all_instances_dead-Similar readied)
  exit_choice-Similar false false again h code count i s found =
      put-Similar h i _ s found refl (λ l. tt)
  exit_choice-Similar false true true h code count i s found =
      put-Similar h i _ s found refl (λ l. tt)
  exit_choice-Similar false true false h code count i s found =
      let left = put h record i { monitor = finished } s in
      Similar-trans s left _ (put-Similar h i _ s found refl (λ l. tt))
        (check_all_instances_dead-Similar left)

  pub monitor_instance-Similar :
      (h : ℕ) (code : ℤ) (count : ℕ) (i : Instance) (s : Supervisor)
      → get_elem? s.heap h ≡ some i
      → Similar s (monitor_instance cfg h code count i s)
  unfolding monitor_instance
  monitor_instance-Similar h code count i s found =
      exit_choice-Similar cfg.oneshot i.allow_restart
        (should_restart cfg.restart_policy code (pos count)) h code count i s found

  after_start-Similar :
      (monitored : Bool) (s : Supervisor) → Similar s (after_start cfg monitored s).0
  after_start-Similar monitored s = record {
    ids = same_heap s (after_start cfg monitored s).0 (ground arith);
    instances = ground arith;
    operation = ground arith;
    state = ground arith;
    links = subst Linked (ground arith);
  }

  start_from-operation :
      (rounds i : ℕ) (spawn : ℕ → Option ℕ) (s : Supervisor)
      → (start_from rounds i spawn s).0.operation ≡ s.operation
  unfolding start_from
  start_from-operation zero i spawn s = refl
  start_from-operation (suc rounds) i spawn s = elim (Option-cases (spawn i)) [
    | inl fails ↦ rw (fails, start_from) refl
    | inr (pid, starts) ↦ rw (starts, start_from) (start_from-operation rounds (suc i) spawn _)
  ]

  moves_on :
      (s : Supervisor)
      → Placed s.heap 0 s.instances
      → s.operation ≡ no_operation
      → s.state ≢ stopped
      → Linked s.heap
      → IsNumbered s
  moves_on s p free moves l = record {
    placed = p;
    links = l;
    new = subst (λ o. NewPlaced o s.heap (length s.instances)) (sym free) tt;
    idle = inl moves;
  }

  pub start-IsNumbered :
      (spawn : ℕ → Option ℕ) (monitored : Bool) (s : Supervisor)
      → s.operation ≡ no_operation
      → s.instances ≡ []
      → Linked s.heap
      → IsNumbered (start cfg spawn monitored s).0
  unfolding start
  start-IsNumbered spawn monitored s free empty links =
      let begun : Supervisor = record s { ctx = live; state = starting } in
      let tried = start_from (pos_part s.scale) 0 spawn begun in
      let placed =
        start_from-Placed (pos_part s.scale) 0 spawn begun (ap length empty)
          (subst (λ l. Placed s.heap 0 l) (sym empty) tt) in
      let linked = start_from-Linked (pos_part s.scale) 0 spawn begun links in
      let still_free = start_from-operation (pos_part s.scale) 0 spawn begun ∙ free in
      elim (Option-cases tried.1) [
        | inl fine ↦
            let runs : Supervisor = record tried.0 { state = running } in
            rw (fine, start)
              (Similar-IsNumbered runs _ (after_start-Similar monitored runs)
                (moves_on runs placed still_free (λ e. cc) linked))
        | inr (i, fails) ↦
            rw (fails, start)
              (moves_on record tried.0 { state = failed; ctx = cancelled } placed still_free
                (λ e. cc) linked)
      ]

begun-IsNumbered :
    (s : Supervisor) (h pid count : ℕ) (i : Instance)
    → get_elem? s.heap h ≡ some i
    → IsNumbered s
    → let left = put h record i { monitor = counting (length s.heap) count } s in
      IsNumbered (start_instance i.id pid left)
begun-IsNumbered s h pid count i found v =
    let j = record i { monitor = counting (length s.heap) count } in
    let left = set s.heap h j in
    let heap' = left ++ started i.id pid ∷ [] in
    let keeps : KeepsIds s.heap heap' =
      λ k n e. KeepsIds-append left _ k n (KeepsIds-set s.heap h i j found refl k n e) in
    record {
      placed = Placed-KeepsIds s.heap heap' 0 s.instances keeps v.placed;
      new = NewPlaced-KeepsIds s.operation s.heap heap' _ keeps v.new;
      idle = v.idle;
      links = Linked-restarted s.heap h pid count i found v.links;
    }

pub restart_under-IsNumbered :
    (c : Context) (spawn : Option ℕ) (h count : ℕ) (i : Instance) (s : Supervisor)
    → get_elem? s.heap h ≡ some i
    → IsNumbered s
    → IsNumbered (restart_under c spawn h count i s)
restart_under-IsNumbered no_context spawn h count i s found v =
    Similar-IsNumbered s _ (put-Similar h i _ s found refl (λ l. tt)) v
restart_under-IsNumbered cancelled none h count i s found v =
    Similar-IsNumbered s _ (put-Similar h i _ s found refl (λ l. tt)) v
restart_under-IsNumbered cancelled (some pid) h count i s found v =
    Similar-IsNumbered s _ (put-Similar h i _ s found refl (λ l. tt)) v
restart_under-IsNumbered live none h count i s found v =
    Similar-IsNumbered s _ (put-Similar h i _ s found refl (λ l. tt)) v
restart_under-IsNumbered live (some pid) h count i s found v =
    begun-IsNumbered s h pid count i found v

-- The instance at a place, after another count was written.
recounted :
    (s : Supervisor) (new h count : ℕ) (j i : Instance)
    → get_elem? s.heap new ≡ some j
    → get_elem? s.heap h ≡ some i
    → (i' : Instance) × (get_elem? (set s.heap new record j { restart_count = count }) h ≡ some i')
      × (i'.id ≡ i.id)
recounted s new h count j i at_new at_h = elim (ℕ_discrete new h) [
  | yes same ↦ (
    record j { restart_count = count },
    subst
        (λ k.
          get_elem? (set s.heap new record j { restart_count = count }) k
          ≡ some record j { restart_count = count })
        same (get-set_here s.heap new _ at_new),
    ap (λ y. y.id)
        (some_inj (sym at_new ∙ subst (λ k. get_elem? s.heap k ≡ some i) (sym same) at_h)),
  )
  | no apart ↦ (i, get-set_other s.heap new h _ apart ∙ at_h, refl)
]

pub count_restart-IsNumbered :
    (h new count : ℕ) (i : Instance) (s : Supervisor)
    → get_elem? s.heap h ≡ some i
    → i.monitor ≡ counting new count
    → IsNumbered s
    → IsNumbered (count_restart h new count i s)
unfolding count_restart
count_restart-IsNumbered h new count i s found m v =
    let link : id_at s.heap new ≡ some i.id =
      subst (λ x. LinkOf x i.id s.heap) m (v.links h i found) in
    let replaced = record i { monitor = replacing new } in
    elim (Option-cases (get_elem? s.heap new)) [
      | inl nothing ↦
          rw (nothing, count_restart)
            (Similar-IsNumbered s _ (put-Similar h i replaced s found refl (λ l. link)) v)
      | inr (j, at_new) ↦
          let counted = record j { restart_count = suc count } in
          let t = put new counted s in
          let (i', at_h, same) = recounted s new h (suc count) j i at_new found in
          let first = put-Similar new j counted s at_new refl (λ l. l new j at_new) in
          rw (at_new, count_restart)
            (Similar-IsNumbered s _
              (Similar-trans s t _ first
                (put-Similar h i' replaced t at_h (sym same) (λ l. first.ids new i.id link)))
              v)
    ]

pub replace_instance-IsNumbered :
    (h new : ℕ) (i : Instance) (s : Supervisor)
    → get_elem? s.heap h ≡ some i
    → i.monitor ≡ replacing new
    → IsNumbered s
    → IsNumbered (replace_instance h new i s)
unfolding replace_instance replace_id
replace_instance-IsNumbered h new i s found m v =
    let link : id_at s.heap new ≡ some i.id =
      subst (λ x. LinkOf x i.id s.heap) m (v.links h i found) in
    let left = put h record i { monitor = finished } s in
    let same = put-Similar h i record i { monitor = finished } s found refl (λ l. tt) in
    let w = Similar-IsNumbered s left same v in
    let l = length-replace_id left.heap i.id new s.instances in
    record {
      placed = replace_id-Placed left.heap i.id new 0 s.instances (same.ids new i.id link) w.placed;
      new = subst (λ n. NewPlaced s.operation left.heap n) (sym l) w.new;
      idle = elim v.idle [
        | inl moves ↦ inl moves
        | inr (empty, free) ↦ inr (nothing_replaced left.heap i.id new s.instances empty, free)
      ];
      links = w.links;
    }
  where
    nothing_replaced :
        (heap : List Instance) (id new : ℕ) (hs : List ℕ) → hs ≡ [] → replace_id heap id new hs ≡ []
    nothing_replaced heap id new [] e = refl
    nothing_replaced heap id new (h ∷ hs) e = cc
