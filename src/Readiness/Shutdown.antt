-- ===== src/Readiness/Shutdown.antt =====
-- Stop, and what comes after it.
use phpeek_pm.Prelude.{
  ◌≡◌, ◌≢◌, refl, sym, ap, ◌∙◌, Bool, true, false, not, ◌&&◌, String, length, ◌==◌, none, insert,
}
use phpeek_pm.Readiness.{
  ProcessState, ProcessStatus, World, Manager, done, set_ready, create_readiness_file,
  remove_readiness_file, evaluate_readiness, all_ready, stop, update_process_state,
}
use phpeek_pm.Readiness.Criteria.{
  Tracks, update_process_state-evaluates, evaluate_readiness-is_ready,
}

-- The first Stop removes the file, and a second one changes nothing.
pub stop_lem :
    (w w' : World) (m : Manager)
    → m.stopped ≡ false
    → w.result ≡ done
    → ((stop w m).file ≡ none) × (stop w' (stop w m) ≡ stop w m)
unfolding stop remove_readiness_file
stop_lem w w' m running ok = rw (running, ok) (refl, refl)

-- An update after Stop creates the file again, if the container was not ready at Stop and the update
-- makes it ready.
pub update_process_state-stop :
    (w w' : World) (name : String) (state : ProcessState) (health : String) (m : Manager)
    → m.stopped ≡ false
    → w.result ≡ done
    → w'.result ≡ done
    → m.config.enabled ≡ true
    → Tracks name m
    → m.is_ready ≡ false
    → (update_process_state w' name state health m).is_ready ≡ true
    → (update_process_state w' name state health (stop w m)).file ≢ none
unfolding stop remove_readiness_file evaluate_readiness set_ready create_readiness_file
update_process_state-stop w w' name state health m running ok ok' enabled tracks unready becomes =
    let st : ProcessStatus = record { name = name; state = state; health = health } in
    let ps = insert name st m.processes in
    let stopped_as : stop w m ≡ record m { stopped = true; file = none } = rw (running, ok) refl in
    let parts = both_true (length ps == 0) (all_ready m.config ps) (
      sym (
        ap (λ (x : Manager). x.is_ready)
          (update_process_state-evaluates w' name state health m enabled tracks)
        ∙ evaluate_readiness-is_ready w' (record m { processes = ps }))
      ∙ becomes) in
    rw
      (
        stopped_as,
        update_process_state-evaluates w' name state health
            (record m { stopped = true; file = none }) enabled tracks,
      )
      (created (record m { stopped = true; file = none; processes = ps }) parts.0 parts.1 unready)
  where
    both_true : (a b : Bool) → (not a && b) ≡ true → (a ≡ false) × (b ≡ true)
    both_true true b h = cc
    both_true false b h = (refl, h)

    created :
        (x : Manager)
        → (length x.processes == 0) ≡ false
        → all_ready x.config x.processes ≡ true
        → x.is_ready ≡ false
        → (evaluate_readiness w' x).file ≢ none
    created x some_there all unready =
        rw (some_there, all, unready, ok', evaluate_readiness, set_ready, create_readiness_file)
          (λ e. cc)
