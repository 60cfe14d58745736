-- ===== src/Supervisor/Orphans.antt =====
-- ScaleDown does not stop an instance that waits for its restart.
use phpeek_pm.Prelude.{
  ℕ, zero, suc, ◌+◌, ◌<◌, ◌≤◌, ◌≡◌, refl, sym, ap, ◌∙◌, subst, arith, inl, inr, Bool, true, false,
  if◌then◌else◌, Bool-cases, List, [], ◌∷◌, ◌++◌, reverse, ℤ, length, length-append, get_elem?,
  take, drop, leb, ◌==◌, ==_iff, All, Option, none, some, some_inj,
}
use phpeek_pm.Supervisor.{
  stopped, backing_off, Instance, no_operation, scaling_down, live, Settings, Supervisor,
  SupervisorError, not_below, is_running, started, replace_id, begin_scale_down, stop_instance,
  stop_next, end_scale_down,
}
use phpeek_pm.Supervisor.Steps.{scale_down, stop_an_instance, end_down, Reach, here, next, stop_one}
use phpeek_pm.Supervisor.Restarts.{Reach-trans, restarts_fully}
use phpeek_pm.Supervisor.Positions.{id_at, Placed, Placed-KeepsIds}

take-append : (xs ys : List ℕ) → take (length xs) (xs ++ ys) ≡ xs
take-append [] ys = refl
take-append (x ∷ xs) ys = ap (λ l. x ∷ l) (take-append xs ys)

drop-append : (xs ys : List ℕ) → drop (length xs) (xs ++ ys) ≡ ys
drop-append [] ys = refl
drop-append (x ∷ xs) ys = drop-append xs ys

-- No instance of the list has an id that is not below its end.
replace_id-beyond :
    (heap : List Instance) (id new n : ℕ) (hs : List ℕ)
    → n + length hs ≤ id
    → Placed heap n hs
    → replace_id heap id new hs ≡ hs
unfolding replace_id
replace_id-beyond heap id new n [] far p = refl
replace_id-beyond heap id new n (h ∷ hs) far p =
    rw (other (get_elem? heap h) p.0)
      (ap (λ l. h ∷ l) (replace_id-beyond heap id new (suc n) hs (omega (arith, far)) p.1))
  where
    other :
        (o : Option Instance)
        → (let r : Option ℕ = elim o [ none ↦ none | some i ↦ some i.id ] in r ≡ some n)
        → let b : Bool = elim o [ none ↦ false | some i ↦ i.id == id ] in b ≡ false
    other none e = refl
    other (some i) e = elim (Bool-cases (i.id == id)) [
      | inl same ↦ absurd (omega (arith, far, some_inj e, (==_iff i.id id).0 same))
      | inr differs ↦ differs
    ]

Placed-front :
    (heap : List Instance) (n : ℕ) (xs ys : List ℕ)
    → Placed heap n (xs ++ ys)
    → Placed heap n xs × Placed heap (n + length xs) ys
Placed-front heap n [] ys p = (tt, let e : n + 0 ≡ n = omega arith in rw e p)
Placed-front heap n (x ∷ xs) ys p =
    let e : n + suc (length xs) ≡ suc n + length xs = omega arith in
    let (front, back) = Placed-front heap (suc n) xs ys p.1 in ((p.0, front), rw e back)

Placed-inside :
    (heap : List Instance) (n : ℕ) (hs : List ℕ) → Placed heap n hs → All (λ h. h < length heap) hs
Placed-inside heap n [] p = tt
Placed-inside heap n (h ∷ hs) p = (inside heap h p.0, Placed-inside heap (suc n) hs p.1)
  where
    inside : (heap : List Instance) (h : ℕ) → id_at heap h ≡ some n → h < length heap
    inside [] h e = cc
    inside (x ∷ heap) zero e = omega arith
    inside (x ∷ heap) (suc h) e = omega (arith, inside heap h e)

module _ (cfg : Settings) (s : Supervisor) (hs : List ℕ) (h : ℕ) (i : Instance) (code : ℤ)
    (count pid : ℕ) (free : s.operation ≡ no_operation) (on : s.ctx ≡ live)
    (last : s.instances ≡ hs ++ h ∷ []) (placed : Placed s.heap 0 s.instances)
    (found : get_elem? s.heap h ≡ some i) (backs_off : i.monitor ≡ backing_off code count)
    (dead : i.state ≡ stopped) where
  stopping_it : Supervisor
  stopping_it = record s {
    operation = scaling_down (length hs) record { pending = h ∷ []; awaited = [] };
  }

  stopped_it : Supervisor
  stopped_it = record s {
    operation = scaling_down (length hs) record { pending = []; awaited = [] };
  }

  scaled_down : Supervisor
  scaled_down = record s { instances = hs; operation = no_operation }

  begins : stopping_it ≡ (begin_scale_down (length hs) s).0
  unfolding begin_scale_down stopping_it
  begins = by_list s.instances last
    where
      by_list :
          (l : List ℕ)
          → l ≡ hs ++ h ∷ []
          → let r : Supervisor × Option SupervisorError =
              if leb (length l) (length hs) then (s, some not_below) else (
                record s {
                  operation =
                      scaling_down
                        (length hs)
                        record { pending = reverse (drop (length hs) l); awaited = [] };
                },
                none,
              ) in
            stopping_it ≡ r.0
      by_list l e =
          let longer : leb (length (hs ++ h ∷ [])) (length hs) ≡ false =
            ground (arith, length-append hs (h ∷ [])) in
          rw (e, longer, drop-append hs (h ∷ [])) refl

  skips : stopped_it ≡ stop_one true record { pending = h ∷ []; awaited = [] } stopping_it
  unfolding stop_next stop_instance stopped_it stopping_it
  skips = rw (found, stop_instance) (rw (dead, is_running) refl)

  ends : scaled_down ≡ end_scale_down (length hs) stopped_it
  unfolding scaled_down stopped_it
  ends =
      ap (λ l. record s { instances = l; operation = no_operation })
        (sym (ap (take (length hs)) last ∙ take-append hs (h ∷ [])))

  reaches : Reach cfg s scaled_down
  unfolding stopped_it stopping_it
  reaches =
      next
        (next (next here (scale_down (length hs) free begins))
          (stop_an_instance true record { pending = h ∷ []; awaited = [] } refl tt skips))
        (end_down (length hs) record { pending = []; awaited = [] } refl refl ends)

  -- ScaleDown, called while the last instance waits for its restart, returns without stopping it: when
  -- the restart comes, a process runs that is in no place of the slice, so that neither Stop nor a
  -- further ScaleDown will stop it.
  pub scale_down_orphans :
      (t : Supervisor) × Reach cfg s t
      × (t.operation ≡ no_operation)
      × (t.instances ≡ hs)
      × (get_elem? t.heap (length s.heap)
          ≡ some record (started i.id pid) { restart_count = suc count })
      × All (λ k. k < length s.heap) t.instances
  unfolding scaled_down
  scale_down_orphans =
      let (t, restarts, e) = restarts_fully cfg scaled_down h i code count pid on found backs_off in
      let (front, back) =
        Placed-front s.heap 0 hs (h ∷ []) (subst (λ l. Placed s.heap 0 l) last placed) in
      let is_last : i.id ≡ 0 + length hs = id_found s.heap h i (0 + length hs) found back.0 in
      let same : t.instances ≡ hs =
        e.instances
        ∙ replace_id-beyond t.heap i.id (length s.heap) 0 hs (omega (arith, is_last))
            (Placed-KeepsIds s.heap t.heap 0 hs e.ids front) in
      (
        t,
        Reach-trans reaches restarts,
        e.operation,
        same,
        e.at_new,
        subst (λ l. All (λ k. k < length s.heap) l) (sym same) (Placed-inside s.heap 0 hs front),
      )
    where
      id_found :
          (heap : List Instance) (h : ℕ) (i : Instance) (n : ℕ)
          → get_elem? heap h ≡ some i
          → id_at heap h ≡ some n
          → i.id ≡ n
      id_found [] h i n f e = cc
      id_found (x ∷ heap) zero i n f e = ap (λ y. y.id) (sym (some_inj f)) ∙ some_inj e
      id_found (x ∷ heap) (suc h) i n f e = id_found heap h i n f e
