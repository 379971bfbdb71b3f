-- ===== src/Process/Serve.antt =====
-- The loop that delivers the signals of a process, kernel/src/process.c, for the default handler.
use kfs.Base.{
  ℕ, zero, suc, ◌+◌, ◌<◌, ◌≡◌, refl, ap, ◌∙◌, true, false, some, List, [], ◌∷◌, arith, ◌==◌,
  if◌then◌else◌, length, Bool-cases, inl, inr, add32,
}
use kfs.Process.{PendingProcessSignal, Kernel, is_zombie}
use kfs.Process.Delivery.{is_fatal, take_signal, deliver_one, deliver, deliver_process_signal}
use kfs.Process.Queues.{signals}
use kfs.Process.Messages.{signals_of}
use kfs.Process.Wait.{ended}
use kfs.Process.Deliver.{
  served, unserved, fatal_code, exit_of, IsTarget, Delivered, one_record, mild-IsTarget,
  queue_empty, queue_more,
}

module _ (call : ℕ → ℕ → ℕ → ℕ → Kernel → Kernel) (process : ℕ) where
  -- The result of the loop for the signals that wait.
  Served : ℕ → ℕ → Kernel → List PendingProcessSignal → Type 0
  Served fuel delivered k xs =
      (k' : Kernel) × (deliver call fuel delivered k process
        ≡ some (delivered + length (served xs), k'))
      × Delivered process xs k'

  serve_none :
      (fuel delivered : ℕ) (k : Kernel)
      → IsTarget k process
      → signals_of k process ≡ []
      → Served (suc fuel) delivered k []
  unfolding Served deliver served unserved fatal_code
  serve_none fuel delivered k v e =
      let nothing : delivered ≡ delivered + 0 = omega arith in
      (
        k,
        rw (queue_empty call k process v.queue e) (ap (λ n. some (n, k)) nothing),
        record { waiting = e; outcome = rw (v.alive) refl },
      )

  -- A signal that does not end the process.
  serve_step :
      (x : PendingProcessSignal) (xs : List PendingProcessSignal) (k : Kernel)
      → IsTarget k process
      → signals_of k process ≡ x ∷ xs
      → is_fatal x.signal ≡ false
      → IsTarget (deliver_one call k process) process
        × (signals_of (deliver_one call k process) process ≡ xs)
  serve_step x xs k v e mild =
      let (more, here, rest) = queue_more call k process x xs v.queue e in
      let p = k.process_table process in
      let mine : is_fatal (take_signal p).0.signal ≡ false =
        ap (λ s. is_fatal s.signal) here ∙ mild in
      (
        mild-IsTarget call k process v mine,
        ap signals (one_record call k process v)
            ∙ ap
                (λ b. signals (
                  if b
                  then ended (take_signal p).1 (add32 128 (take_signal p).0.signal)
                  else (take_signal p).1))
                mine
            ∙ rest,
      )

  serve_more :
      (x : PendingProcessSignal) (xs : List PendingProcessSignal) (fuel delivered : ℕ) (k : Kernel)
      → IsTarget k process
      → signals_of k process ≡ x ∷ xs
      → is_fatal x.signal ≡ false
      → Served fuel (delivered + 1) (deliver_one call k process) xs
      → Served (suc fuel) delivered k (x ∷ xs)
  unfolding Served deliver served unserved fatal_code
  serve_more x xs fuel delivered k v e mild (k', ran, done) =
      let (more, here, rest) = queue_more call k process x xs v.queue e in
      let (v', e') = serve_step x xs k v e mild in
      let one_more : delivered + 1 + length (served xs) ≡ delivered + suc (length (served xs)) =
        omega arith in
      (
        k',
        rw (more, v'.alive, mild, ran) (ap (λ n. some (n, k')) one_more),
        record { waiting = rw mild done.waiting; outcome = rw mild done.outcome },
      )

  serve_fatal :
      (x : PendingProcessSignal) (xs : List PendingProcessSignal) (fuel delivered : ℕ) (k : Kernel)
      (v : IsTarget k process)
      → signals_of k process ≡ x ∷ xs
      → is_fatal x.signal ≡ true
      → Served (suc fuel) delivered k (x ∷ xs)
  unfolding Served deliver served unserved fatal_code
  serve_fatal x xs fuel delivered k v e fatal =
      let (more, here, rest) = queue_more call k process x xs v.queue e in
      let code = add32 128 x.signal in
      let mine : is_fatal (take_signal (k.process_table process)).0.signal ≡ true =
        ap (λ s. is_fatal s.signal) here ∙ fatal in
      let record_now : (deliver_one call k process).process_table process
          ≡ ended (take_signal (k.process_table process)).1 code =
        one_record call k process v
        ∙ ap
            (λ b.
              if b
              then ended (take_signal (k.process_table process)).1
                  (add32 128 (take_signal (k.process_table process)).0.signal)
              else (take_signal (k.process_table process)).1)
            mine
        ∙ ap (λ s. ended (take_signal (k.process_table process)).1 (add32 128 s.signal)) here in
      let dead : is_zombie ((deliver_one call k process).process_table process).status ≡ true =
        ap (λ p. is_zombie p.status) record_now in
      (
        deliver_one call k process,
        rw (more, dead, fatal) refl,
        record {
          waiting = rw fatal (ap signals record_now ∙ rest);
          outcome = rw fatal (ap exit_of record_now);
        },
      )

  serve :
      (xs : List PendingProcessSignal) (fuel delivered : ℕ) (k : Kernel)
      → length xs < fuel
      → IsTarget k process
      → signals_of k process ≡ xs
      → Served fuel delivered k xs
  serve xs zero delivered k le v e = absurd (omega arith)
  serve [] (suc fuel) delivered k le v e = serve_none fuel delivered k v e
  serve (x ∷ xs) (suc fuel) delivered k le v e = elim (Bool-cases (is_fatal x.signal)) [
    | inl fatal ↦ serve_fatal x xs fuel delivered k v e fatal
    | inr mild ↦
        let (v', e') = serve_step x xs k v e mild in
        serve_more x xs fuel delivered k v e mild
          (serve xs fuel (delivered + 1) (deliver_one call k process) (omega arith) v' e')
  ]

  -- For a process that runs, is not the kernel's and keeps the default handler,
  -- `deliver_process_signal` ends, with one round more than signals wait: it delivers the signals up
  -- to and including the first PROCESS_SIGNAL_KILL or _TERM, leaves the others waiting, and the process has
  -- ended, with 128 and the signal as its exit code, exactly if there was one.
  pub deliver_process_signal_lem :
      (fuel : ℕ) (k : Kernel)
      → IsTarget k process
      → length (signals_of k process) < fuel
      → (k' : Kernel) × (deliver_process_signal call fuel k process
          ≡ some (length (served (signals_of k process)), k'))
        × Delivered process (signals_of k process) k'
  unfolding deliver_process_signal Served
  deliver_process_signal_lem fuel k v le =
      let there : (process == 0) ≡ false = ground (arith, v.exists) in
      let (k', ran, done) = serve (signals_of k process) fuel 0 k le v refl in
      let count : 0 + length (served (signals_of k process))
          ≡ length (served (signals_of k process)) =
        omega arith in
      (k', rw there (ran ∙ ap (λ n. some (n, k')) count), done)
