-- ===== src/Kmalloc/Alloc.antt =====
-- Allocation on a heap whose blocks lie side by side: first fit, or a new block at the end.
use kfs.Base.{
  ℕ, ◌+◌, ◌-◌, ◌≤◌, ◌<◌, ◌≡◌, ◌≢◌, refl, sym, ap, ◌∙◌, inl, inr, false, arith, if◌then◌else◌,
  Bool-cases, List, [], ◌∷◌, ◌++◌,
}
use kfs.Kmalloc.{Block, Heap, header_size, update, split_block}
use kfs.Kmalloc.Chain.{
  Piece, end_of, link, header, IsChain, end_of-le, same-IsChain, update_here, update_apart,
}
use kfs.Kmalloc.Moves.{fits, first_fit}
use kfs.Kmalloc.Split.{
  first_part, second_part, splits, parts, split_block-IsChain, split_block_below,
}

-- The heap's blocks are those of the layout, from its start to its end.
pub record IsHeap (h : Heap) (bs : List Piece) : Type 0 where
  pub start : h.heap_start ≢ 0
  pub list : h.block_list ≡ link 0 h.heap_start bs
  pub chain : IsChain h.headers 0 h.heap_start bs 0
  pub end : h.heap_end ≡ end_of h.heap_start bs
  pub max : h.heap_end ≤ h.heap_max
  pub word : h.heap_max < 0xF000_0000

-- A block in use.
abbrev pub in_use : Piece → Piece
in_use b = record b { free = false }

abbrev pub taken : ℕ → Piece → List Piece
taken size b =
    if splits size b then in_use (first_part size b) ∷ second_part size b ∷ [] else in_use b ∷ []

-- The first block that fits, cut to size where it is worth it, is in use; no other is touched.
unfoldable pub serve : ℕ → List Piece → List Piece
serve size [] = []
serve size (b ∷ bs) =
    let rest = serve size bs in if fits size b then taken size b ++ bs else b ∷ rest

-- The store that `take_block` leaves.
abbrev pub take_store : (ℕ → Block) → ℕ → ℕ → ℕ → Block
take_store m size block =
    let q = split_block m block size in update q block (record (q block) { free = false })

-- The first block of a chain taken into use.
in_use-IsChain :
    (b : Piece) (bs : List Piece) (m : ℕ → Block) (prev at stop : ℕ)
    → IsChain m prev at (b ∷ bs) stop
    → IsChain (update m at (record (m at) { free = false })) prev at (in_use b ∷ bs) stop
unfolding IsChain
in_use-IsChain b bs m prev at stop (here, c) =
    let next = at + header_size + b.size in
    let q = update m at (record (m at) { free = false }) in
    let used : Block → Block = λ h. record h { free = false } in
    (
      update_here m at _ ∙ ap used here,
      same-IsChain bs m q at next stop (λ a lo hi. update_apart m at _ a (omega arith)) c,
    )

pub link-serve : (size : ℕ) (bs : List Piece) (at : ℕ) → link 0 at (serve size bs) ≡ link 0 at bs
unfolding serve
link-serve size [] at = refl
link-serve size (b ∷ bs) at = elim (Bool-cases (fits size b)) [
  | inr no_fit ↦ rw no_fit refl
  | inl yes_fit ↦
      rw yes_fit
        (elim (Bool-cases (splits size b)) [ inl cut ↦ rw cut refl | inr whole ↦ rw whole refl ])
]

pub first_fit-ge :
    (size : ℕ) (bs : List Piece) (at : ℕ) → first_fit size at bs ≢ 0 → at ≤ first_fit size at bs
unfolding first_fit
first_fit-ge size [] at found = absurd (found refl)
first_fit-ge size (b ∷ bs) at found = elim (Bool-cases (fits size b)) [
  | inl yes_fit ↦ rw yes_fit (omega arith)
  | inr no_fit ↦
      rw no_fit
        (omega (arith, first_fit-ge size bs (at + header_size + b.size) (rw no_fit at found)))
]

take_here :
    (size : ℕ) (b : Piece) (bs : List Piece) (m : ℕ → Block) (prev at : ℕ)
    → at ≢ 0
    → size ≤ b.size
    → at + header_size + b.size < 0xF000_0000
    → IsChain m prev at (b ∷ bs) 0
    → IsChain (take_store m size at) prev at (taken size b ++ bs) 0
      × ((a : ℕ) → a < at → take_store m size at a ≡ m a)
take_here size b bs m prev at given le small c =
    let q = split_block m at size in
    let c' : IsChain q prev at (parts size b ++ bs) 0 =
      split_block-IsChain size b bs m prev at given le (omega arith) (omega arith) c in
    (
      elim (Bool-cases (splits size b)) [
        | inl cut ↦ rw cut (
            in_use-IsChain (first_part size b) (second_part size b ∷ bs) q prev at 0 (rw cut at c'))
        | inr whole ↦ rw whole (in_use-IsChain b bs q prev at 0 (rw whole at c'))
      ],
      λ a lt.
          update_apart q at _ a (omega arith)
          ∙ split_block_below size b bs m prev at a le (omega arith) (omega arith) c lt,
    )

pub take_store-IsChain :
    (size : ℕ) (bs : List Piece) (m : ℕ → Block) (prev at : ℕ)
    → at ≢ 0
    → end_of at bs < 0xF000_0000
    → IsChain m prev at bs 0
    → first_fit size at bs ≢ 0
    → IsChain (take_store m size (first_fit size at bs)) prev at (serve size bs) 0
      × ((a : ℕ) → a < at → take_store m size (first_fit size at bs) a ≡ m a)
unfolding IsChain end_of first_fit serve
take_store-IsChain size [] m prev at given small c found = absurd (found refl)
take_store-IsChain size (b ∷ bs) m prev at given small (here, c) found =
    let next = at + header_size + b.size in
    let after = end_of-le bs next in
    elim (Bool-cases (fits size b)) [
      | inl yes_fit ↦
          let le : size ≤ b.size = ground (arith, yes_fit) in
          rw yes_fit (take_here size b bs m prev at given le (omega (arith, after)) (here, c))
      | inr no_fit ↦
          let (rest, below) =
            take_store-IsChain size bs m at next (omega arith) small c (rw no_fit at found) in
          let beyond = first_fit-ge size bs next (rw no_fit at found) in
          rw no_fit (
            (
              below at (omega arith) ∙ here ∙ sym (ap (header b prev) (link-serve size bs next)),
              rest,
            ),
            λ a lt. below a (omega arith),
          )
    ]

pub end_of-serve : (size : ℕ) (bs : List Piece) (at : ℕ) → end_of at (serve size bs) ≡ end_of at bs
unfolding serve end_of
end_of-serve size [] at = refl
end_of-serve size (b ∷ bs) at = elim (Bool-cases (fits size b)) [
  | inr no_fit ↦ rw no_fit (end_of-serve size bs (at + header_size + b.size))
  | inl yes_fit ↦ rw yes_fit (elim (Bool-cases (splits size b)) [
    | inl cut ↦
        let whole : at + header_size + size + header_size + (b.size - size - header_size)
            ≡ at + header_size + b.size =
          ground (arith, cut) in
        rw (cut, whole) refl
    | inr whole ↦ rw whole refl
  ])
]
