-- ===== src/Signals/Dispatch.antt =====
-- `signal_dispatch_pending` of kernel/src/signals.c with callbacks that leave the queue alone.
use kfs.Base.{
  ℕ, zero, suc, ◌+◌, ◌<◌, ◌≡◌, refl, ap, ◌≢◌, sym, subst, ◌∙◌, Option, none, some, List, [], ◌∷◌,
  arith, ◌==◌, Bool-cases, inl, inr, length, get_or, ==_iff, ◌%◌,
}
use kfs.Base.Circular.{contents_empty}
use kfs.Signals.Queue.{IsValid, waiting, waiting_split, take_pending-IsValid}
use kfs.Signals.{
  Signals, PendingSignal, no_signal, signal_queue_capacity, take_pending, run_callback, dispatch,
  signal_dispatch_pending,
}

waiting_empty : {H : Type 0} (s : Signals H) → s.signal_head ≡ s.signal_tail → waiting s ≡ []
waiting_empty s e =
    rw (← e) (contents_empty no_signal signal_queue_capacity s.pending_signals s.signal_head)

-- What waits in the queue that a dispatch leaves.
abbrev left_waiting : {H W : Type 0} → Option (ℕ × (Signals H × W)) → List PendingSignal
left_waiting none = []
left_waiting (some (n, sw)) = waiting sw.0

module _ {H W : Type 0} (call : H → PendingSignal → Signals H × W → Signals H × W) where
  -- The callbacks of a list of entries, run in its order, each with the queue's head moved on.
  unfoldable pub replay : List PendingSignal → Signals H × W → Signals H × W
  replay [] sw = sw
  replay (e ∷ es) (s, w) = replay es (
      run_callback call (get_or s.signal_handlers e.signal none) e
        (record s { signal_head = (s.signal_head + 1) % signal_queue_capacity }, w))

  -- A callback that schedules nothing and registers nothing.
  abbrev pub IsQuiet : Type 0
  IsQuiet = (h : H) (e : PendingSignal) (sw : Signals H × W) → (call h e sw).0 ≡ sw.0

  run_callback-quiet :
      IsQuiet
      → (c : Option H) (e : PendingSignal) (sw : Signals H × W)
      → (run_callback call c e sw).0 ≡ sw.0
  unfolding run_callback
  run_callback-quiet quiet none e sw = refl
  run_callback-quiet quiet (some h) e sw = quiet h e sw

  -- Whatever the callbacks do: where the loop ends, no entry waits.
  dispatch_done :
      (fuel n : ℕ) (sw : Signals H × W) (k : ℕ) (r : Signals H × W)
      → dispatch call fuel n sw ≡ some (k, r)
      → waiting r.0 ≡ []
  unfolding dispatch
  dispatch_done zero n sw k r e = cc
  dispatch_done (suc fuel) n (s, w) k r e = elim (Bool-cases (s.signal_head == s.signal_tail)) [
    | inl empty ↦
        ap left_waiting (sym (rw (empty, dispatch) at e)) ∙ waiting_empty s ((==_iff _ _).0 empty)
    | inr more ↦ dispatch_done fuel (n + 1) _ k r (rw (more, dispatch) at e)
  ]

  module _ (quiet : IsQuiet) where
    -- With one entry taken off: the rest of the loop is its replay.
    dispatch_step :
        (fuel n : ℕ) (s : Signals H) (w : W)
        → IsValid s
        → s.signal_head ≢ s.signal_tail
        → ((sw : Signals H × W)
            → IsValid sw.0
            → length (waiting sw.0) < fuel
            → dispatch call fuel (n + 1) sw
              ≡ some (n + 1 + length (waiting sw.0), replay (waiting sw.0) sw))
        → length (waiting s) < suc fuel
        → let (e, c, t) = take_pending s in
          dispatch call fuel (n + 1) (run_callback call c e (t, w))
          ≡ some (n + length (waiting s), replay (waiting s) (s, w))
    unfolding replay take_pending
    dispatch_step fuel n s w v ne ih h =
        let (e, c, t) = take_pending s in
        let sw : Signals H × W = run_callback call c e (t, w) in
        let same : sw.0 ≡ t = run_callback-quiet quiet c e (t, w) in
        let split : waiting s ≡ e ∷ waiting t = waiting_split v ne in
        let shorter : length (waiting sw.0) < fuel =
          omega (arith, ap length split, ap (λ q. length (waiting q)) same) in
        ih sw (subst IsValid (sym same) (take_pending-IsValid v)) shorter
        ∙ ap (λ q. some (n + 1 + length (waiting q), replay (waiting q) sw)) same
        ∙ ap (λ k. some (k, replay (waiting t) sw))
            (let k : n + 1 + length (waiting t) ≡ n + suc (length (waiting t)) = omega arith in k)
        ∙ ap (λ q. some (n + length q, replay q (s, w))) (sym split)

    dispatch_lem :
        (fuel n : ℕ) (sw : Signals H × W)
        → IsValid sw.0
        → length (waiting sw.0) < fuel
        → dispatch call fuel n sw ≡ some (n + length (waiting sw.0), replay (waiting sw.0) sw)
    unfolding dispatch replay
    dispatch_lem zero n sw v h = absurd (omega arith)
    dispatch_lem (suc fuel) n (s, w) v h = elim (Bool-cases (s.signal_head == s.signal_tail)) [
      | inl empty ↦
          let nothing : waiting s ≡ [] = waiting_empty s ((==_iff _ _).0 empty) in
          rw (empty, nothing) (ap (λ k. some (k, (s, w))) (omega arith))
      | inr more ↦ rw more (dispatch_step fuel n s w v (ground arith) (dispatch_lem fuel (n + 1)) h)
    ]

    -- With callbacks that leave the queue alone, and fuel above the number of waiting entries, the
    -- dispatch ends; it answers how many entries waited, has run their handlers, the oldest first,
    -- and leaves no entry waiting.
    pub signal_dispatch_pending_lem :
        (fuel : ℕ) (s : Signals H) (w : W)
        → IsValid s
        → length (waiting s) < fuel
        → (signal_dispatch_pending call fuel (s, w)
            ≡ some (length (waiting s), replay (waiting s) (s, w)))
          × (waiting (replay (waiting s) (s, w)).0 ≡ [])
    unfolding signal_dispatch_pending
    signal_dispatch_pending_lem fuel s w v h =
        let runs = dispatch_lem fuel 0 (s, w) v h in
        (
          runs ∙ ap (λ k. some (k, replay (waiting s) (s, w))) (omega arith),
          dispatch_done fuel 0 (s, w) _ _ runs,
        )
