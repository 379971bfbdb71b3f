-- ===== src/Kmalloc/Tests.antt =====
-- Tests of the kernel heap, and its theorems at a heap of two blocks.
use kfs.Base.{
  ◌+◌, ◌≡◌, refl, ◌⊎◌, true, false, some, arith, ◌==◌, if◌then◌else◌, List, [], ◌∷◌, length,
}
use kfs.Kmalloc.{
  take_block, Heap, block_magic, header_size, request, kbrk, kmalloc, kfree, find_free_block,
}
use kfs.Kmalloc.Chain.{Piece, end_of, IsChain}
use kfs.Kmalloc.Alloc.{IsHeap}
use kfs.Kmalloc.Outcome.{Reused, Grown, Refused, kmalloc_lem}
use kfs.Kmalloc.Free.{block_at}
use kfs.Kmalloc.Fresh.{Fresh, kmalloc-Fresh}
use kfs.Kmalloc.Kfree.{Released, kfree_lem}

-- A free block of 64 bytes at 0x1000, and one of 32 bytes in use at 0x1058.
two_pieces : List Piece
two_pieces = record { size = 64; free = true } ∷ record { size = 32; free = false } ∷ []

two_blocks : Heap
two_blocks = record {
  heap_start = 0x1000;
  heap_end = 0x1090;
  heap_max = 0x2000;
  block_list = 0x1000;
  headers = λ a.
      if a == 0x1000
      then record { size = 64; free = true; next = 0x1058; prev = 0; magic = block_magic }
      else record { size = 32; free = false; next = 0; prev = 0x1000; magic = block_magic };
  total_allocations = 2;
  total_frees = 1;
}

two_blocks-IsHeap : IsHeap two_blocks two_pieces
unfolding two_blocks two_pieces IsChain end_of
two_blocks-IsHeap = record {
  start = omega arith;
  list = refl;
  chain = (refl, (refl, tt));
  end = refl;
  max = omega arith;
  word = omega arith;
}

-- A request for 10 bytes is one for 16, which the first block has.
request_10 : request 10 ≡ 16
request_10 = refl

kmalloc_reuses : find_free_block 3 two_blocks.headers 16 0x1000 ≡ some 0x1000
unfolding find_free_block two_blocks
kmalloc_reuses = refl

length-two_pieces : length two_pieces ≡ 2
unfolding two_pieces
length-two_pieces = refl

kmalloc_lem_example :
    Reused two_blocks two_pieces (request 10) (kmalloc 3 two_blocks 10)
    ⊎ (Grown two_blocks two_pieces (request 10) (kmalloc 3 two_blocks 10)
        ⊎ Refused two_blocks two_pieces (request 10) (kmalloc 3 two_blocks 10))
kmalloc_lem_example =
    kmalloc_lem two_blocks-IsHeap 3 10 (omega (arith, length-two_pieces)) (omega arith)
      (omega arith)

second :
    block_at 0x1058 two_blocks.heap_start two_pieces ≡ some (record { size = 32; free = false })
unfolding block_at two_blocks two_pieces
second = refl

kfree_lem_example :
    ((false ≡ false)
      × Released two_blocks two_pieces 0x1058 (kfree two_blocks (0x1058 + header_size)))
    ⊎ ((false ≡ true) × (kfree two_blocks (0x1058 + header_size) ≡ some two_blocks))
kfree_lem_example = kfree_lem two_blocks-IsHeap 0x1058 (record { size = 32; free = false }) second

-- A request near the end of the address space wraps to the smallest block.
request_wraps : request 0xFFFF_FFF9 ≡ 16
request_wraps = refl

-- An increment from 2 ^ 31 on is negative, and yet moves the end of the heap up, past its limit.
kbrk_past_limit :
    kbrk two_blocks 0x8000_0000 ≡ some (0x1090, record two_blocks { heap_end = 0x8000_1090 })
unfolding kbrk two_blocks
kbrk_past_limit = refl

-- The heap after a request for 10 bytes, at 0x1018.
served : Heap
served = (take_block two_blocks 0x1000 16).1

served_lem : kmalloc 3 two_blocks 10 ≡ some (0x1018, served)
unfolding kmalloc find_free_block take_block served two_blocks
served_lem = refl

kmalloc-Fresh_example : Fresh two_blocks two_pieces 10 0x1018 served
kmalloc-Fresh_example =
    kmalloc-Fresh two_blocks-IsHeap 10 (omega arith) 3 0x1018 served
      (omega (arith, length-two_pieces)) (omega arith) served_lem (omega arith)
