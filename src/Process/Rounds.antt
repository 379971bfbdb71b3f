-- ===== src/Process/Rounds.antt =====
-- A round of the scheduler, kernel/src/process.c, is made of the steps of Process/Steps.
use kfs.Base.{
  ℕ, zero, suc, ◌+◌, ◌≢◌, refl, sym, subst, Bool, true, false, not, ◌&&◌, ◌||◌, ◌==◌, if◌then◌else◌,
  Option, none, some, arith, Bool-cases, inl, inr,
}
use kfs.Process.{
  Kernel, SignalHandler, no_handler, default_handler, handler_at, is_zombie, is_waiting,
  process_max_count,
}
use kfs.Process.Delivery.{
  take_signal, without_signal, run_handler, deliver_one, deliver, deliver_process_signal,
}
use kfs.Process.Scheduler.{
  pick_next_process, begin_turn, end_turn, chosen, give_back, count_down,
  process_switch_to_kernel_space, take_turn, schedule_next_process, deliver_all,
  process_deliver_all_pending_signals, work_off, run_pending, scheduler_run_pending,
}
use kfs.Process.Moves.{OnSome}
use kfs.Process.Turns.{OnPair}
use kfs.Process.Steps.{
  takes, defaults, counts, picks, begins, returns, stops, gives_back, Reachable, steps,
}

-- One of two states.
choose_pair :
    (P : Kernel → Type 0) (c : Bool) (x y : Option (ℕ × Kernel))
    → OnPair P x
    → OnPair P y
    → OnPair P (if c then x else y)
choose_pair P true x y f g = f
choose_pair P false x y f g = g

choose_some :
    (P : Kernel → Type 0) (c : Bool) (x y : Option Kernel)
    → OnSome P x
    → OnSome P y
    → OnSome P (if c then x else y)
choose_some P true x y f g = f
choose_some P false x y f g = g

choose_state : (P : Kernel → Type 0) (c : Bool) (x y : Kernel) → P x → P y → P (if c then x else y)
choose_state P true x y f g = f
choose_state P false x y f g = g

-- What handlers at their own addresses and turns of processes are made of is a hypothesis.
module _ (directories bootstrap : ℕ) (call : ℕ → ℕ → ℕ → ℕ → Kernel → Kernel)
    (switch : ℕ → Kernel → Kernel)
    (called : (address process signal value : ℕ) (k : Kernel)
      → Reachable directories bootstrap k
      → Reachable directories bootstrap (call address process signal value k))
    (switched : (process : ℕ) (k : Kernel)
      → Reachable directories bootstrap k
      → Reachable directories bootstrap (switch process k)) where
  abbrev InReach : Kernel → Type 0
  InReach k = Reachable directories bootstrap k

  run_handler-Reachable :
      (handler : SignalHandler) (process signal value : ℕ) (k : Kernel)
      → InReach k
      → InReach (run_handler call handler process signal value k)
  unfolding run_handler
  run_handler-Reachable no_handler process signal value k r =
      steps r (defaults process signal value refl)
  run_handler-Reachable default_handler process signal value k r =
      steps r (defaults process signal value refl)
  run_handler-Reachable (handler_at address) process signal value k r =
      called address process signal value k r

  deliver_one-Reachable :
      (k : Kernel) (process : ℕ) → InReach k → InReach (deliver_one call k process)
  unfolding deliver_one
  deliver_one-Reachable k process r =
      let p = k.process_table process in
      let pending = (take_signal p).0 in
      run_handler-Reachable p.signal_handler process pending.signal pending.value
        (without_signal k process) (steps r (takes process refl))

  deliver-Reachable :
      (fuel delivered : ℕ) (k : Kernel) (process : ℕ)
      → InReach k
      → OnPair InReach (deliver call fuel delivered k process)
  unfolding deliver OnPair
  deliver-Reachable zero delivered k process r = tt
  deliver-Reachable (suc fuel) delivered k process r =
      let p = k.process_table process in
      let q = deliver_one call k process in
      let s = deliver_one-Reachable k process r in
      let rest = deliver call fuel (delivered + 1) q process in
      let ended = is_zombie (q.process_table process).status in
      choose_pair InReach (p.signal_head == p.signal_tail) (some (delivered, k))
        (if ended then some (delivered + 1, q) else rest) r
        (choose_pair InReach ended (some (delivered + 1, q)) rest s
          (deliver-Reachable fuel (delivered + 1) q process s))

  deliver_process_signal-Reachable :
      (fuel : ℕ) (k : Kernel) (process : ℕ)
      → InReach k
      → OnPair InReach (deliver_process_signal call fuel k process)
  unfolding deliver_process_signal OnPair
  deliver_process_signal-Reachable fuel k process r =
      choose_pair InReach (process == 0) (some (0, k)) (deliver call fuel 0 k process) r
        (deliver-Reachable fuel 0 k process r)

  deliver_all-Reachable :
      (fuel rounds : ℕ) (k : Kernel) (p : ℕ)
      → InReach k
      → OnSome InReach (deliver_all call switch fuel rounds k p)
  unfolding deliver_all OnSome OnPair
  deliver_all-Reachable fuel zero k p r = r
  deliver_all-Reachable fuel (suc rounds) k p r =
      let q = k.process_table p in
      let pending = q.used && not (q.signal_head == q.signal_tail) in
      let follow : Option (ℕ × Kernel) → Option Kernel = λ o. elim o [
        | none ↦ none
        | some (delivered, k') ↦ deliver_all call switch fuel rounds k' (k'.process_table p).next
      ] in
      let followed : (o : Option (ℕ × Kernel)) → OnPair InReach o → OnSome InReach (follow o) = λ o.
        elim o as (λ o. OnPair InReach o → OnSome InReach (follow o)) [
          | none ↦ λ h. tt
          | some (delivered, k') ↦
              λ h. deliver_all-Reachable fuel rounds k' (k'.process_table p).next h
        ] in
      let served = follow (deliver_process_signal call fuel k p) in
      let skipped = deliver_all call switch fuel rounds k q.next in
      choose_some InReach (p == 0) (some k) (if pending then served else skipped) r (
        choose_some InReach pending served skipped
          (followed (deliver_process_signal call fuel k p)
            (deliver_process_signal-Reachable fuel k p r))
          (deliver_all-Reachable fuel rounds k q.next r))

  take_turn-Reachable :
      (k : Kernel) (process : ℕ) → InReach k → InReach (take_turn call switch k process)
  unfolding take_turn
  take_turn-Reachable k process r =
      let status = (k.process_table process).status in
      let begun = steps r (begins process refl) in
      let ran = switched process (begin_turn k process) begun in
      let back = process_switch_to_kernel_space (switch process (begin_turn k process)) in
      choose_state InReach (is_zombie status || is_waiting status) k (end_turn back process) r
        (steps (steps ran (returns refl)) (stops process refl))

  schedule_next_process-Reachable :
      (fuel : ℕ) (k : Kernel)
      → InReach k
      → OnPair InReach (schedule_next_process call switch fuel k)
  unfolding schedule_next_process OnPair
  schedule_next_process-Reachable fuel k r =
      let next = pick_next_process k in
      let turn : Option (ℕ × Kernel) → Option (ℕ × Kernel) = λ o. elim o [
        | none ↦ none
        | some (delivered, k') ↦ some (next, give_back (take_turn call switch k' next))
      ] in
      let turned : (o : Option (ℕ × Kernel)) → OnPair InReach o → OnPair InReach (turn o) = λ o.
        elim o as (λ o. OnPair InReach o → OnPair InReach (turn o)) [
          | none ↦ λ h. tt
          | some (delivered, k') ↦ λ h. steps (take_turn-Reachable k' next h) (gives_back refl)
        ] in
      let scheduled = turn (deliver_process_signal call fuel (chosen k next) next) in
      elim (Bool-cases (next == 0)) [
        | inl nothing ↦
            subst (λ c. OnPair InReach (if c then some (0, k) else scheduled)) (sym nothing) r
        | inr found ↦
            let nz : next ≢ 0 = ground (arith, found) in
            subst (λ c. OnPair InReach (if c then some (0, k) else scheduled)) (sym found)
              (turned (deliver_process_signal call fuel (chosen k next) next) (
                deliver_process_signal-Reachable fuel (chosen k next) next
                  (steps r (picks nz refl))))
      ]

  work_off-Reachable :
      (fuel : ℕ) (k : Kernel) → InReach k → OnSome InReach (work_off call switch fuel k)
  unfolding work_off process_deliver_all_pending_signals OnSome OnPair
  work_off-Reachable fuel k r =
      let counted = steps r (counts refl) in
      let end : Option (ℕ × Kernel) → Option Kernel =
        λ o. elim o [ none ↦ none | some (process, k'') ↦ some k'' ] in
      let ended : (o : Option (ℕ × Kernel)) → OnPair InReach o → OnSome InReach (end o) = λ o.
        elim o as (λ o. OnPair InReach o → OnSome InReach (end o)) [
          | none ↦ λ h. tt
          | some (process, k'') ↦ λ h. h
        ] in
      let follow : Option Kernel → Option Kernel =
        λ o. elim o [ none ↦ none | some k' ↦ end (schedule_next_process call switch fuel k') ] in
      let followed : (o : Option Kernel) → OnSome InReach o → OnSome InReach (follow o) = λ o.
        elim o as (λ o. OnSome InReach o → OnSome InReach (follow o)) [
          | none ↦ λ h. tt
          | some k' ↦ λ h.
              ended (schedule_next_process call switch fuel k')
                (schedule_next_process-Reachable fuel k' h)
        ] in
      followed (deliver_all call switch fuel process_max_count (count_down k) k.process_head)
        (deliver_all-Reachable fuel process_max_count (count_down k) k.process_head counted)

  run_pending-Reachable :
      (fuel rounds executed : ℕ) (k : Kernel)
      → InReach k
      → OnPair InReach (run_pending call switch fuel rounds executed k)
  unfolding run_pending OnPair OnSome
  run_pending-Reachable fuel zero executed k r = r
  run_pending-Reachable fuel (suc rounds) executed k r =
      let follow : Option Kernel → Option (ℕ × Kernel) = λ o. elim o [
        | none ↦ none
        | some k' ↦ run_pending call switch fuel rounds (executed + 1) k'
      ] in
      let followed : (o : Option Kernel) → OnSome InReach o → OnPair InReach (follow o) = λ o.
        elim o as (λ o. OnSome InReach o → OnPair InReach (follow o)) [
          | none ↦ λ h. tt
          | some k' ↦ λ h. run_pending-Reachable fuel rounds (executed + 1) k' h
        ] in
      choose_pair InReach (k.pending_scheduler_ticks == 0) (some (executed, k))
        (follow (work_off call switch fuel k)) r
        (followed (work_off call switch fuel k) (work_off-Reachable fuel k r))

  -- When handlers at their own addresses, and processes in their turns, go from states that the
  -- steps reach to states that they reach, so does `scheduler_run_pending`.
  pub scheduler_run_pending-Reachable :
      (fuel max_ticks : ℕ) (k : Kernel)
      → InReach k
      → OnPair InReach (scheduler_run_pending call switch fuel max_ticks k)
  unfolding scheduler_run_pending
  scheduler_run_pending-Reachable fuel max_ticks k r = run_pending-Reachable fuel max_ticks 0 k r
