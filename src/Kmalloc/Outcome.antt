-- ===== src/Kmalloc/Outcome.antt =====
-- What `kmalloc` answers, and the heap it leaves.
use kfs.Base.{
  ℕ, ◌+◌, ◌≤◌, ◌<◌, ◌≡◌, ◌≢◌, refl, sym, ap, ◌∙◌, ◌⊎◌, inl, inr, false, arith, ltb, ◌==◌, ==_iff,
  if◌then◌else◌, Option, none, some, Bool-cases, List, [], ◌∷◌, ◌++◌, length, add32, subst,
}
use kfs.Kmalloc.{
  Heap, header_size, min_block_size, find_free_block, request, kbrk, take_block, append_block,
  kmalloc,
}
use kfs.Kmalloc.Chain.{Piece, end_of, link, IsChain, end_of-le, end_of-append}
use kfs.Kmalloc.Moves.{fits, first_fit, find_free_block_lem}
use kfs.Kmalloc.Alloc.{IsHeap, serve, take_store-IsChain, link-serve, end_of-serve}
use kfs.Kmalloc.Append.{kbrk_up, append_block_lem}

first_fit-lt :
    (size : ℕ) (bs : List Piece) (at : ℕ)
    → first_fit size at bs ≢ 0
    → first_fit size at bs < end_of at bs
unfolding first_fit end_of
first_fit-lt size [] at found = absurd (found refl)
first_fit-lt size (b ∷ bs) at found =
    let next = at + header_size + b.size in
    elim (Bool-cases (fits size b)) [
      | inl yes_fit ↦ rw yes_fit (omega (arith, end_of-le bs next))
      | inr no_fit ↦ rw no_fit (first_fit-lt size bs next (rw no_fit at found))
    ]

-- A block in use, as `kmalloc` makes it.
abbrev pub new_piece : ℕ → Piece
new_piece size = record { size = size; free = false }

-- The three ways `kmalloc` can end: the first block that fits is taken, or the heap grows by a
-- block, or there is no room for one.
pub record Reused (h : Heap) (bs : List Piece) (wanted : ℕ) (r : Option (ℕ × Heap)) : Type 0 where
  pub found : first_fit wanted h.heap_start bs ≢ 0
  pub heap : Heap
  pub result : r ≡ some (first_fit wanted h.heap_start bs + header_size, heap)
  pub same_start : heap.heap_start ≡ h.heap_start
  pub valid : IsHeap heap (serve wanted bs)

pub record Grown (h : Heap) (bs : List Piece) (wanted : ℕ) (r : Option (ℕ × Heap)) : Type 0 where
  pub none_fits : first_fit wanted h.heap_start bs ≡ 0
  pub room : h.heap_end + header_size + wanted ≤ h.heap_max
  pub heap : Heap
  pub result : r ≡ some (h.heap_end + header_size, heap)
  pub same_start : heap.heap_start ≡ h.heap_start
  pub valid : IsHeap heap (bs ++ (new_piece wanted ∷ []))

pub record Refused (h : Heap) (bs : List Piece) (wanted : ℕ) (r : Option (ℕ × Heap)) : Type 0 where
  pub none_fits : first_fit wanted h.heap_start bs ≡ 0
  pub no_room : h.heap_max < h.heap_end + header_size + wanted
  pub result : r ≡ some (0, h)

pub request_lem :
    (size : ℕ)
    → size < 0x0FFF_0000
    → (size ≤ request size) × (min_block_size ≤ request size) × (request size < size + 24)
request_lem size small = (ground arith, ground arith, ground arith)

link_end : (bs : List Piece) (b : Piece) (at : ℕ) → link 0 at (bs ++ (b ∷ [])) ≡ at
link_end [] b at = refl
link_end (d ∷ bs) b at = refl

module _ {h : Heap} {bs : List Piece} (v : IsHeap h bs) where
  reuse :
      (wanted : ℕ)
      → first_fit wanted h.heap_start bs ≢ 0
      → Reused h bs wanted (some (take_block h (first_fit wanted h.heap_start bs) wanted))
  unfolding take_block
  reuse wanted found =
      let block = first_fit wanted h.heap_start bs in
      let (chain, below) =
        take_store-IsChain wanted bs h.headers 0 h.heap_start v.start
          (omega (arith, v.end, v.max, v.word)) v.chain found in
      let exact : add32 block header_size ≡ block + header_size =
        omega (arith, first_fit-lt wanted bs h.heap_start found, v.end, v.max, v.word) in
      record {
        found = found;
        heap = (take_block h block wanted).1;
        result = ap (λ n. some (n, (take_block h block wanted).1)) exact;
        same_start = refl;
        valid = record {
          start = v.start;
          list = v.list ∙ sym (link-serve wanted bs h.heap_start);
          chain = chain;
          end = v.end ∙ sym (end_of-serve wanted bs h.heap_start);
          max = v.max;
          word = v.word;
        };
      }

  extended-IsHeap :
      (g : Heap) (wanted : ℕ)
      → IsChain g.headers 0 h.heap_start (bs ++ (new_piece wanted ∷ [])) 0
      → g.block_list ≡ h.heap_start
      → g.heap_start ≡ h.heap_start
      → g.heap_end ≡ h.heap_end + (header_size + wanted)
      → g.heap_max ≡ h.heap_max
      → h.heap_end + header_size + wanted ≤ h.heap_max
      → IsHeap g (bs ++ (new_piece wanted ∷ []))
  unfolding end_of
  extended-IsHeap g wanted chain list start end max room = record {
    start = λ e. v.start (sym start ∙ e);
    list = list ∙ sym start ∙ sym (link_end bs (new_piece wanted) g.heap_start);
    chain = subst (λ s. IsChain g.headers 0 s (bs ++ (new_piece wanted ∷ [])) 0) (sym start) chain;
    end = omega (
      arith,
      end,
      v.end,
      end_of-append bs (new_piece wanted ∷ []) h.heap_start,
      ap (λ s. end_of s (bs ++ (new_piece wanted ∷ []))) start,
    );
    max = omega (arith, end, max);
    word = omega (arith, max, v.word);
  }

  grow :
      (fuel wanted : ℕ)
      → length bs < fuel
      → first_fit wanted h.heap_start bs ≡ 0
      → h.heap_end + header_size + wanted ≤ h.heap_max
      → Grown h bs wanted (
          append_block fuel
            (record h { heap_end = h.heap_end + (header_size + wanted) })
            h.heap_end
            wanted)
  grow fuel wanted short none_fits room =
      let up : Heap = record h { heap_end = h.heap_end + (header_size + wanted) } in
      let (g, result, chain, list, start, end, max) =
        append_block_lem fuel wanted bs up h.heap_end v.start short v.list v.chain v.end
          (omega (arith, v.word)) in
      record {
        none_fits = none_fits;
        room = room;
        heap = g;
        result = result;
        same_start = start;
        valid = extended-IsHeap g wanted chain list start end max room;
      }

  -- On a heap whose blocks lie side by side, `kmalloc` of a size from 1 up to 0x0FFEFFFF ends, with
  -- more fuel than there are blocks. It takes the first free block that is large enough, cut to
  -- size where the rest can hold a block; or, where none is, puts a new block at the end if that
  -- stays below the limit; or else answers 0 and changes nothing. The blocks lie side by side again.
  pub kmalloc_lem :
      (fuel size : ℕ)
      → length bs < fuel
      → size ≢ 0
      → size < 0x0FFF_0000
      → Reused h bs (request size) (kmalloc fuel h size)
        ⊎ (Grown h bs (request size) (kmalloc fuel h size)
            ⊎ Refused h bs (request size) (kmalloc fuel h size))
  unfolding kmalloc
  kmalloc_lem fuel size short nonzero small =
      let wanted = request size in
      let (large, least, bound) = request_lem size small in
      let given : size == 0 ≡ false = ground arith in
      let found : find_free_block fuel h.headers wanted h.block_list
          ≡ some (first_fit wanted h.heap_start bs) =
        ap (find_free_block fuel h.headers wanted) v.list
        ∙ find_free_block_lem fuel bs h.headers wanted 0 h.heap_start v.start short v.chain in
      let brk : kbrk h (add32 header_size wanted) ≡ (
          if ltb h.heap_max (h.heap_end + (header_size + wanted))
          then none
          else some (h.heap_end, record h { heap_end = h.heap_end + (header_size + wanted) })) =
        ap (kbrk h) (omega arith)
        ∙ kbrk_up h (header_size + wanted) (omega arith) (omega arith)
            (omega (arith, v.max, v.word)) in
      elim (Bool-cases (first_fit wanted h.heap_start bs == 0)) [
        | inr hit ↦
            let e : kmalloc fuel h size
                ≡ some (take_block h (first_fit wanted h.heap_start bs) wanted) =
              rw (given, found, hit) refl in
            inl (subst (Reused h bs wanted) (sym e) (reuse wanted (ground (arith, hit))))
        | inl miss ↦
            let none_fits : first_fit wanted h.heap_start bs ≡ 0 = (==_iff _ 0).0 miss in
            elim (Bool-cases (ltb h.heap_max (h.heap_end + (header_size + wanted)))) [
              | inl full ↦ inr (
                  inr (record {
                    none_fits = none_fits;
                    no_room = ground (arith, full);
                    result = rw (given, found, miss, brk, full) refl;
                  }))
              | inr fits_in ↦
                  let up : Heap = record h { heap_end = h.heap_end + (header_size + wanted) } in
                  let e : kmalloc fuel h size ≡ append_block fuel up h.heap_end wanted =
                    rw (given, found, miss, brk, fits_in) refl in
                  inr (
                    inl (
                      subst (Grown h bs wanted) (sym e)
                        (grow fuel wanted short none_fits (ground (arith, fits_in)))))
            ]
      ]
