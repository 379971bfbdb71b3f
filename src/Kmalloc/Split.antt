-- ===== src/Kmalloc/Split.antt =====
-- What `split_block` does to the chain of blocks.
use kfs.Base.{
  ℕ, ◌+◌, ◌-◌, ◌≤◌, ◌<◌, ◌≡◌, ◌≢◌, refl, sym, ap, ◌∙◌, inl, inr, Bool, true, arith, leb,
  if◌then◌else◌, Bool-cases, List, [], ◌∷◌, ◌++◌, add32, sub32, subst,
}
use kfs.Kmalloc.{
  Block, block_magic, header_size, min_block_size, update, set_prev, split_block, cut_block,
}
use kfs.Kmalloc.Chain.{
  Piece, end_of, link, header, IsChain, same-IsChain, update_here, update_apart, set_prev_apart,
  set_prev-IsChain,
}
use kfs.Kmalloc.Moves.{link_apart}

-- A block is cut in two: the first part holds `size` bytes, the second is free.
abbrev pub first_part : ℕ → Piece → Piece
first_part size b = record { size = size; free = b.free }

abbrev pub second_part : ℕ → Piece → Piece
second_part size b = record { size = b.size - size - header_size; free = true }

abbrev pub splits : ℕ → Piece → Bool
splits size b = leb (size + header_size + min_block_size) b.size

-- What `split_block` leaves of a block that holds `size` bytes.
abbrev pub parts : ℕ → Piece → List Piece
parts size b = if splits size b then first_part size b ∷ second_part size b ∷ [] else b ∷ []

cut_block-IsChain :
    (size : ℕ) (b : Piece) (bs : List Piece) (m : ℕ → Block) (prev at : ℕ)
    → at ≢ 0
    → size + header_size ≤ b.size
    → IsChain m prev at (b ∷ bs) 0
    → IsChain
        (cut_block m at
          (at + header_size + size)
          size
          (header (second_part size b) at (link 0 (at + header_size + b.size) bs)))
        prev
        at
        (first_part size b ∷ second_part size b ∷ bs)
        0
unfolding IsChain end_of
cut_block-IsChain size b bs m prev at given le (here, c) =
    let mid = at + header_size + size in
    let end = at + header_size + b.size in
    let stop = link 0 end bs in
    let rest = header (second_part size b) at stop in
    let same_end : mid + header_size + (second_part size b).size ≡ end = omega arith in
    let q = update m mid rest in
    let linked = set_prev q stop mid in
    let cut = cut_block m at mid size rest in
    let c_linked : IsChain linked mid end bs 0 =
      set_prev-IsChain bs q at end mid (omega arith)
        (same-IsChain bs m q at end 0 (λ a lo hi. update_apart m mid _ a (omega arith)) c) in
    let linked_at : linked at ≡ header b prev stop =
      set_prev_apart q stop mid at (link_apart bs end at (omega arith))
      ∙ update_apart m mid rest at (omega arith)
      ∙ here in
    let linked_mid : linked mid ≡ rest =
      set_prev_apart q stop mid mid (link_apart bs end mid (omega arith))
      ∙ update_here m mid rest in
    let changed : Block → Block = λ h. record h { next = mid; size = size } in
    rw same_end (
      update_here linked at _ ∙ ap changed linked_at,
      (
        update_apart linked at _ mid (omega arith) ∙ linked_mid,
        same-IsChain bs linked cut mid end 0 (λ a lo hi. update_apart linked at _ a (omega arith))
            c_linked,
      ),
    )

split_block_stored :
    (size : ℕ) (b : Piece) (stop : ℕ) (m : ℕ → Block) (prev at : ℕ)
    → size ≤ b.size
    → at + header_size + b.size < 0x1_0000_0000
    → b.size + 40 < 0x1_0000_0000
    → m at ≡ header b prev stop
    → split_block m at size ≡ (
        if splits size b
        then cut_block m at (at + header_size + size) size (header (second_part size b) at stop)
        else m)
unfolding split_block
split_block_stored size b stop m prev at le small small' here =
    let rest : ℕ → ℕ → Block =
      λ n next. record { size = n; free = true; next = next; prev = at; magic = block_magic } in
    let with_block : Block → ℕ → Block = λ h.
      if leb (add32 (add32 size header_size) min_block_size) h.size
      then cut_block m at (add32 (add32 at header_size) size) size
          (rest (sub32 (sub32 h.size size) header_size) h.next)
      else m in
    let with_sizes : ℕ → ℕ → ℕ → Block =
      λ mid n. if splits size b then cut_block m at mid size (rest n stop) else m in
    let test : add32 (add32 size header_size) min_block_size ≡ size + header_size + min_block_size =
      omega arith in
    let no_wrap : add32 (add32 at header_size) size ≡ at + header_size + size = omega arith in
    ap with_block here
    ∙ ap
        (λ n.
          if leb n b.size
          then cut_block m at (add32 (add32 at header_size) size) size
              (rest (sub32 (sub32 b.size size) header_size) stop)
          else m)
        test
    ∙ ap (λ mid. with_sizes mid (sub32 (sub32 b.size size) header_size)) no_wrap
    ∙ elim (Bool-cases (splits size b)) [
      | inr whole ↦ rw whole refl
      | inl cut ↦
          let big : size + header_size + min_block_size ≤ b.size = ground (arith, cut) in
          let exact : sub32 (sub32 b.size size) header_size ≡ b.size - size - header_size =
            omega arith in
          ap (with_sizes (at + header_size + size)) exact
    ]

-- With a size that the block has room for, `split_block` leaves the block's parts in its place.
pub split_block-IsChain :
    (size : ℕ) (b : Piece) (bs : List Piece) (m : ℕ → Block) (prev at : ℕ)
    → at ≢ 0
    → size ≤ b.size
    → at + header_size + b.size < 0x1_0000_0000
    → b.size + 40 < 0x1_0000_0000
    → IsChain m prev at (b ∷ bs) 0
    → IsChain (split_block m at size) prev at (parts size b ++ bs) 0
unfolding IsChain
split_block-IsChain size b bs m prev at given le small small' (here, c) =
    let stored =
      split_block_stored size b (link 0 (at + header_size + b.size) bs) m prev at le small small'
        here in
    subst (λ r. IsChain r prev at (parts size b ++ bs) 0) (sym stored)
      (elim (Bool-cases (splits size b)) [
        | inr whole ↦ rw whole (here, c)
        | inl cut ↦
            let big : size + header_size + min_block_size ≤ b.size = ground (arith, cut) in
            rw cut (cut_block-IsChain size b bs m prev at given (omega arith) (here, c))
      ])

-- No header before the block is touched.
pub split_block_below :
    (size : ℕ) (b : Piece) (bs : List Piece) (m : ℕ → Block) (prev at a : ℕ)
    → size ≤ b.size
    → at + header_size + b.size < 0x1_0000_0000
    → b.size + 40 < 0x1_0000_0000
    → IsChain m prev at (b ∷ bs) 0
    → a < at
    → split_block m at size a ≡ m a
unfolding IsChain
split_block_below size b bs m prev at a le small small' (here, c) lt =
    let end = at + header_size + b.size in
    let stop = link 0 end bs in
    let mid = at + header_size + size in
    let rest = header (second_part size b) at stop in
    let q = update m mid rest in
    let linked = set_prev q stop mid in
    ap (λ r. r a) (split_block_stored size b stop m prev at le small small' here)
    ∙ elim (Bool-cases (splits size b)) [
      | inr whole ↦ rw whole refl
      | inl cut ↦ rw cut (
          update_apart linked at _ a (omega arith)
          ∙ set_prev_apart q stop mid a (link_apart bs end a (omega arith))
          ∙ update_apart m mid rest a (omega arith))
    ]
