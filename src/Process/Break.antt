-- ===== src/Process/Break.antt =====
-- The heap page of a process, kernel/src/process.c: memory is handed out from its break on.
use kfs.Base.{
  ℕ, ◌+◌, ◌≤◌, ◌<◌, ◌≡◌, ◌≢◌, ◌⊎◌, refl, ap, ◌∙◌, ◌||◌, none, some, arith, ◌==◌, ltb, add32,
  Bool-cases, inl, inr,
}
use kfs.Process.{Process, ProcessMemory, Kernel, modify}
use kfs.Process.Memory.{process_memory_alloc, process_mmap}
use kfs.Process.Table.{update_self, update_other}

-- The break lies inside the heap page.
pub record HasHeap (m : ProcessMemory) : Type 0 where
  pub above : m.heap_start ≤ m.heap_break
  pub below : m.heap_break ≤ m.heap_end
  pub small : m.heap_end < 4294967296

abbrev pub memory_of : Kernel → ℕ → ProcessMemory
memory_of k process = (k.process_table process).memory

-- For a size that fits behind the break as a number, `process_mmap` hands out the bytes from the
-- break on exactly if the size is not 0 and they lie inside the page, moves the break behind them,
-- and changes no other record; else it gives NULL.
pub process_mmap_lem :
    (k : Kernel) (process size : ℕ)
    → process ≢ 0
    → HasHeap (memory_of k process)
    → (memory_of k process).heap_break + size < 4294967296
    → let m = memory_of k process in
      ((process_mmap k process size ≡ none) × ((size ≡ 0) ⊎ (m.heap_end < m.heap_break + size)))
      ⊎ ((q : Kernel) × (process_mmap k process size ≡ some (m.heap_break, q))
          × (m.heap_break + size ≤ m.heap_end)
          × (memory_of q process ≡ record m { heap_break = m.heap_break + size })
          × ((a : ℕ) → a ≢ process → q.process_table a ≡ k.process_table a))
unfolding process_mmap process_memory_alloc
process_mmap_lem k process size nz v fits =
    let m = memory_of k process in
    let exact : add32 m.heap_break size ≡ m.heap_break + size = ground (arith, fits) in
    elim (Bool-cases (process == 0 || size == 0)) [
      | inl nothing ↦ inl (rw nothing refl, inl (ground (arith, nothing)))
      | inr given ↦ elim (Bool-cases (ltb m.heap_end (add32 m.heap_break size))) [
        | inl beyond ↦ inl (rw (given, beyond) refl, inr (ground (arith, beyond, exact)))
        | inr inside ↦
            let with_break : ℕ → ProcessMemory = λ b. record m { heap_break = b } in
            let moved : Process = record (k.process_table process) {
              memory = with_break (add32 m.heap_break size);
            } in
            inr (
              modify k process (λ p. record p { memory = with_break (add32 m.heap_break size) }),
              rw (given, inside) refl,
              ground (arith, inside, exact),
              ap (λ p. p.memory) (update_self k.process_table process moved) ∙ ap with_break exact,
              λ a ne. update_other k.process_table process a moved ne,
            )
      ]
    ]
