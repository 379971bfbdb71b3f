-- ===== src/Kmalloc/Append.antt =====
-- A heap that grows by a block at its end.
use kfs.Base.{
  ℕ, ◌+◌, ◌<◌, ◌≡◌, ◌≢◌, refl, sym, ap, ◌∙◌, true, false, arith, ltb, ◌==◌, if◌then◌else◌, none,
  some, List, [], ◌∷◌, ◌++◌, length, add32, subst,
}
use kfs.Kmalloc.{Block, Heap, block_magic, header_size, update, find_last, kbrk, append_block}
use kfs.Kmalloc.Chain.{
  Piece, end_of, last_of, link, header, IsChain, same-IsChain, join-IsChain, update_here,
  update_apart, set_next-IsChain, last_of-lt,
}
use kfs.Kmalloc.Moves.{find_last_lem}

-- A block put behind the last one.
append_store : (ℕ → Block) → ℕ → ℕ → ℕ → ℕ → Block
append_store m last block size =
    let fresh : Block = record {
      size = size;
      free = false;
      next = 0;
      prev = 0;
      magic = block_magic;
    } in
    let q = update m block fresh in
    let linked = update q last (record (q last) { next = block }) in
    update linked block (record (linked block) { prev = last })

single-IsChain :
    (b : Piece) (m : ℕ → Block) (prev at : ℕ)
    → m at ≡ header b prev 0
    → IsChain m prev at (b ∷ []) 0
unfolding IsChain
single-IsChain b m prev at here = (here, tt)

append_store-IsChain :
    (size : ℕ) (b : Piece) (bs : List Piece) (m : ℕ → Block) (at : ℕ)
    → at ≢ 0
    → IsChain m 0 at (b ∷ bs) 0
    → IsChain
        (append_store m (last_of 0 at (b ∷ bs)) (end_of at (b ∷ bs)) size)
        0
        at
        ((b ∷ bs) ++ (record { size = size; free = false } ∷ []))
        0
unfolding append_store
append_store-IsChain size b bs m at given c =
    let block = end_of at (b ∷ bs) in
    let last = last_of 0 at (b ∷ bs) in
    let fresh : Block = record {
      size = size;
      free = false;
      next = 0;
      prev = 0;
      magic = block_magic;
    } in
    let q = update m block fresh in
    let linked = update q last (record (q last) { next = block }) in
    let changed : Block → Block = λ h. record h { prev = last } in
    let apart : last ≢ block = λ e. omega (arith, last_of-lt (b ∷ bs) 0 at (omega arith), e) in
    join-IsChain (b ∷ bs) (record { size = size; free = false } ∷ [])
      (update linked block (record (linked block) { prev = last })) 0 at 0
      (same-IsChain (b ∷ bs) linked _ 0 at block
        (λ a lo hi. update_apart linked block _ a (omega arith))
        (set_next-IsChain b bs q 0 at 0 block (
          same-IsChain (b ∷ bs) m q 0 at 0 (λ a lo hi. update_apart m block fresh a (omega arith))
            c)))
      (single-IsChain (record { size = size; free = false }) _ last block
        (update_here linked block _
          ∙ ap changed (update_apart q last _ block apart ∙ update_here m block fresh)))

-- What `kbrk` does for a positive increment.
pub kbrk_up :
    (h : Heap) (n : ℕ)
    → n ≢ 0
    → n < 0x8000_0000
    → h.heap_end + n < 0x1_0000_0000
    → kbrk h n ≡ (
        if ltb h.heap_max (h.heap_end + n)
        then none
        else some (h.heap_end, record h { heap_end = h.heap_end + n }))
unfolding kbrk
kbrk_up h n nonzero positive small =
    let exact : add32 h.heap_end n ≡ h.heap_end + n = omega arith in
    let not_zero : n == 0 ≡ false = ground arith in
    let up : ltb n 0x8000_0000 ≡ true = ground arith in rw (not_zero, up, exact) refl

pub append_block_lem :
    (fuel size : ℕ) (bs : List Piece) (h : Heap) (block : ℕ)
    → h.heap_start ≢ 0
    → length bs < fuel
    → h.block_list ≡ link 0 h.heap_start bs
    → IsChain h.headers 0 h.heap_start bs 0
    → block ≡ end_of h.heap_start bs
    → block + header_size < 0x1_0000_0000
    → (g : Heap) × (append_block fuel h block size ≡ some (block + header_size, g))
      × IsChain g.headers 0 h.heap_start (bs ++ (record { size = size; free = false } ∷ [])) 0
      × (g.block_list ≡ h.heap_start)
      × (g.heap_start ≡ h.heap_start)
      × (g.heap_end ≡ h.heap_end)
      × (g.heap_max ≡ h.heap_max)
unfolding append_block append_store end_of
append_block_lem fuel size [] h block start short list c place small =
    let fresh : Block = record {
      size = size;
      free = false;
      next = 0;
      prev = 0;
      magic = block_magic;
    } in
    let first : h.block_list == 0 ≡ true = ground arith in
    let exact : add32 block header_size ≡ block + header_size = omega arith in
    let at_start : block ≡ h.heap_start = place in
    (
      record h {
        headers = update h.headers block fresh;
        block_list = block;
        total_allocations = add32 h.total_allocations 1;
      },
      rw (first, exact) refl,
      single-IsChain (record { size = size; free = false }) (update h.headers block fresh) 0
          h.heap_start
          (ap (update h.headers block fresh) (sym at_start) ∙ update_here h.headers block fresh),
      at_start,
      refl,
      refl,
      refl,
    )
append_block_lem fuel size (b ∷ bs) h block start short list c place small =
    let fresh : Block = record {
      size = size;
      free = false;
      next = 0;
      prev = 0;
      magic = block_magic;
    } in
    let q = update h.headers block fresh in
    let last = last_of 0 h.heap_start (b ∷ bs) in
    let more : h.block_list == 0 ≡ false = ground arith in
    let exact : add32 block header_size ≡ block + header_size = omega arith in
    let found : find_last fuel q h.block_list ≡ some last =
      ap (find_last fuel q) list
      ∙ find_last_lem fuel b bs q 0 h.heap_start start (omega arith) (
          same-IsChain (b ∷ bs) h.headers q 0 h.heap_start 0
            (λ a lo hi. update_apart h.headers block fresh a (omega arith)) c) in
    (
      record h {
        headers = append_store h.headers last block size;
        block_list = h.block_list;
        total_allocations = add32 h.total_allocations 1;
      },
      rw (more, found, exact) refl,
      subst
          (λ n.
            IsChain (append_store h.headers last n size) 0 h.heap_start
              (b ∷ bs ++ (record { size = size; free = false } ∷ [])) 0)
          (sym place) (append_store-IsChain size b bs h.headers h.heap_start start c),
      list,
      refl,
      refl,
      refl,
    )
