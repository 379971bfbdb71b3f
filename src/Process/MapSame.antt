-- ===== src/Process/MapSame.antt =====
-- Setting up and giving back the memory of a process, kernel/src/process.c, leaves the list of all
-- processes alone.
use kfs.Base.{
  ℕ, ◌+◌, ◌*◌, ◌≡◌, refl, ◌∙◌, Bool, true, false, Option, none, some, ◌==◌, if◌then◌else◌,
}
use kfs.Paging.{Paging, entry_at, page_dir_index, page_frame, paging_copy_directory}
use kfs.Process.{Process, ProcessMemory, Kernel, modify}
use kfs.Process.Links.{process_slot_index, process_virtual_base_for_slot}
use kfs.Process.Memory.{
  alloc_process_page, store_page, add_page, and_then, map_pages, finish_map, end_map, prepare_map,
  process_memory_map, process_release_memory, process_reset_memory, release_pages, lay_out,
}
use kfs.Process.Find.{identity}
use kfs.Process.Protocol.{modify-identity}
use kfs.Process.Same.{Kept, Kept-trans}

pub record Same (k q : Kernel) : Type 0 where
  pub table : Kept k.process_table q.process_table
  pub head : q.process_head ≡ k.process_head
  pub kernel : q.kernel_process ≡ k.kernel_process
  pub cursor : q.scheduler_cursor ≡ k.scheduler_cursor

pub Same-trans : {k q r : Kernel} → Same k q → Same q r → Same k r
Same-trans {k} {q} {r} s t = record {
  table = Kept-trans k.process_table q.process_table r.process_table s.table t.table;
  head = t.head ∙ s.head;
  kernel = t.kernel ∙ s.kernel;
  cursor = t.cursor ∙ s.cursor;
}

pub modify-Same :
    (k : Kernel) (at : ℕ) (f : Process → Process)
    → ((p : Process) → identity (f p) ≡ identity p)
    → Same k (modify k at f)
modify-Same k at f same = record {
  table = modify-identity k at f same;
  head = refl;
  kernel = refl;
  cursor = refl;
}

pub repaged : (k : Kernel) (paging : Paging) → Same k (record k { paging = paging })
repaged k paging = record { table = λ a. refl; head = refl; kernel = refl; cursor = refl }

-- What holds of the state behind a call that may panic.
unfoldable pub After : (Kernel → Type 0) → Option (Bool × Kernel) → Type 0
After P none = Unit
After P (some (b, k)) = P k

store_page-Same :
    (k : Kernel) (process : ℕ) (put : ℕ → ProcessMemory → ProcessMemory)
    (o : Option (Option ℕ × Paging))
    → After (Same k) (store_page k process put o)
unfolding After store_page
store_page-Same k process put none = tt
store_page-Same k process put (some (none, paging)) = repaged k paging
store_page-Same k process put (some (some page, paging)) =
    let q = record k { paging = paging } in
    Same-trans (repaged k paging)
      (modify-Same q process (λ p. record p { memory = put page p.memory }) (λ p. refl))

pub After-trans :
    {k q : Kernel} → Same k q → (o : Option (Bool × Kernel)) → After (Same q) o → After (Same k) o
unfolding After
After-trans s none t = tt
After-trans s (some (b, r)) t = Same-trans s t

After-and_then :
    (k : Kernel) (o : Option (Bool × Kernel)) (next : Kernel → Option (Bool × Kernel))
    → After (Same k) o
    → ((q : Kernel) → After (Same q) (next q))
    → After (Same k) (and_then o next)
unfolding After
After-and_then k none next first rest = tt
After-and_then k (some (false, q)) next first rest = first
After-and_then k (some (true, q)) next first rest = After-trans first (next q) (rest q)

add_page-Same :
    (process virtual_page : ℕ) (put : ℕ → ProcessMemory → ProcessMemory) (k : Kernel)
    → After (Same k) (add_page process virtual_page put k)
unfolding add_page
add_page-Same process virtual_page put k =
    store_page-Same k process put (alloc_process_page k process virtual_page)

map_pages-Same : (k : Kernel) (process : ℕ) → After (Same k) (map_pages k process)
unfolding map_pages
map_pages-Same k process =
    let m = (k.process_table process).memory in
    let with_data = add_page process m.data_start (λ f q. record q { data_page = f }) k in
    let add_bss = add_page process m.bss_start (λ f q. record q { bss_page = f }) in
    let add_heap = add_page process m.heap_start (λ f q. record q { heap_page = f }) in
    let add_stack = add_page process m.stack_base (λ f q. record q { stack_page = f }) in
    After-and_then k (and_then (and_then with_data add_bss) add_heap) add_stack
      (After-and_then k (and_then with_data add_bss) add_heap
        (After-and_then k with_data add_bss
          (add_page-Same process m.data_start (λ f q. record q { data_page = f }) k)
          (add_page-Same process m.bss_start (λ f q. record q { bss_page = f })))
        (add_page-Same process m.heap_start (λ f q. record q { heap_page = f })))
      (add_page-Same process m.stack_base (λ f q. record q { stack_page = f }))

pub process_release_memory-Same :
    (k : Kernel) (process : ℕ) → Same k (process_release_memory k process)
unfolding process_release_memory
process_release_memory-Same k process =
    let released = release_pages k.paging (k.process_table process).memory in
    Same-trans (repaged k released) (
      modify-Same (record k { paging = released }) process
        (λ p. record p { memory = process_reset_memory }) (λ p. refl))

finish_map-Same : (k : Kernel) (process : ℕ) → Same k (finish_map k process)
finish_map-Same k process =
    let m = (k.process_table process).memory in
    let entry =
      k.paging.memory (entry_at m.process_page_directory (page_dir_index m.virtual_base)) in
    let finished : ProcessMemory = record m {
      physical_page = m.data_page;
      process_page_table = page_frame entry;
    } in
    modify-Same k process (λ p. record p { memory = finished }) (λ p. refl)

end_map-Same :
    (k : Kernel) (process : ℕ) (o : Option (Bool × Kernel))
    → After (Same k) o
    → After (Same k) (end_map process o)
unfolding After end_map
end_map-Same k process none s = tt
end_map-Same k process (some (false, q)) s = Same-trans s (process_release_memory-Same q process)
end_map-Same k process (some (true, q)) s = Same-trans s (finish_map-Same q process)

prepare_map-Same :
    (directories : ℕ) (k : Kernel) (process : ℕ) → Same k (prepare_map directories k process)
unfolding prepare_map
prepare_map-Same directories k process =
    let slot = process_slot_index process in
    let base = (k.process_table process).memory.virtual_base in
    let virtual_base = if base == 0 then process_virtual_base_for_slot slot else base in
    let directory = directories + 4096 * slot in
    let place : Process → Process =
      λ p. record p { memory = lay_out directory virtual_base p.memory } in
    Same-trans (modify-Same k process place (λ p. refl)) (
      repaged (modify k process place)
        (paging_copy_directory k.paging directory k.paging.kernel_directory))

-- Whether it succeeds or not, `process_memory_map` leaves the list alone.
pub process_memory_map-Same :
    (directories : ℕ) (k : Kernel) (process : ℕ)
    → After (Same k) (process_memory_map directories k process)
unfolding process_memory_map After
process_memory_map-Same directories k process =
    let prepared = prepare_map directories k process in
    let mapped = end_map process (map_pages prepared process) in
    elim (process == 0) as (λ b. After (Same k) (if b then some (false, k) else mapped)) [
      | true ↦ repaged k k.paging
      | false ↦ After-trans (prepare_map-Same directories k process) mapped (
          end_map-Same prepared process (map_pages prepared process)
            (map_pages-Same prepared process))
    ]
