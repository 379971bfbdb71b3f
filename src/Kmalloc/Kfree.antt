-- ===== src/Kmalloc/Kfree.antt =====
-- `kfree` and `ksize` on the address of a block's payload.
use kfs.Base.{
  ℕ, ◌+◌, ◌<◌, ◌≡◌, sym, ap, ◌∙◌, ◌⊎◌, inl, inr, Bool, true, false, not, arith, ◌==◌, if◌then◌else◌,
  Bool-cases, Option, none, some, List, add32, sub32,
}
use kfs.Kmalloc.{Block, Heap, block_magic, header_size, kfree, ksize}
use kfs.Kmalloc.Chain.{Piece}
use kfs.Kmalloc.Alloc.{IsHeap}
use kfs.Kmalloc.Free.{block_at, release, free_store}
use kfs.Kmalloc.Release.{block_at-Found, release-IsChain, end_of-release}

-- What `kfree` of a block in use has done.
pub record Released (h : Heap) (bs : List Piece) (address : ℕ) (r : Option Heap) : Type 0 where
  pub heap : Heap
  pub result : r ≡ some heap
  pub valid : IsHeap heap (release address h.heap_start bs)

module _ {h : Heap} {bs : List Piece} (v : IsHeap h bs) (address : ℕ) (x : Piece)
    (found : block_at address h.heap_start bs ≡ some x) where
  -- On a heap whose blocks lie side by side, for the payload of a block `kfree` ends. A block in
  -- use becomes free and is joined with a free block next to it, on either side, and all blocks
  -- lie side by side again. Of a free block, it changes nothing.
  pub kfree_lem :
      ((x.free ≡ false) × Released h bs address (kfree h (address + header_size)))
      ⊎ ((x.free ≡ true) × (kfree h (address + header_size) ≡ some h))
  unfolding kfree
  kfree_lem =
      let f = block_at-Found address bs x h.headers 0 h.heap_start found v.chain in
      let bound : address + header_size < 0xF000_0000 =
        omega (arith, f.high, v.end, v.max, v.word) in
      let block : sub32 (address + header_size) header_size ≡ address = omega arith in
      let given : address + header_size == 0 ≡ false = ground arith in
      let freed_heap : Heap = record h {
        headers = free_store h.headers address;
        total_frees = add32 h.total_frees 1;
      } in
      let outcome : Block → Option Heap = λ b.
        if not (b.magic == block_magic) then none else if b.free then some h else some freed_heap in
      let e : kfree h (address + header_size) ≡ (if x.free then some h else some freed_heap) =
        rw (given, block) (ap outcome f.stored) in
      let choice : Bool → Option Heap = λ t. if t then some h else some freed_heap in
      elim (Bool-cases x.free) [
        | inl free ↦ inr (free, e ∙ ap choice free)
        | inr used ↦ inl (
          used,
          record {
            heap = freed_heap;
            result = e ∙ ap choice used;
            valid = record {
              start = v.start;
              list = v.list ∙ sym (end_of-release address bs h.heap_start).1;
              chain =
                  release-IsChain address bs x h.headers h.heap_start v.start
                    (omega (arith, v.end, v.max, v.word)) found v.chain;
              end = v.end ∙ sym (end_of-release address bs h.heap_start).0;
              max = v.max;
              word = v.word;
            };
          },
        )
      ]

  pub ksize_lem : ksize h (address + header_size) ≡ x.size
  unfolding ksize
  ksize_lem =
      let f = block_at-Found address bs x h.headers 0 h.heap_start found v.chain in
      let bound : address + header_size < 0xF000_0000 =
        omega (arith, f.high, v.end, v.max, v.word) in
      let block : sub32 (address + header_size) header_size ≡ address = omega arith in
      let given : address + header_size == 0 ≡ false = ground arith in
      let outcome : Block → ℕ = λ b. if not (b.magic == block_magic) then 0 else b.size in
      rw (given, block) (ap outcome f.stored)
