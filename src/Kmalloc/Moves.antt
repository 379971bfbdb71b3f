-- ===== src/Kmalloc/Moves.antt =====
-- What the walks along the list find, and what splitting and merging do to the chain of blocks.
use kfs.Base.{
  ℕ, zero, suc, ◌+◌, ◌≤◌, ◌<◌, ◌≡◌, ◌≢◌, refl, sym, ap, ◌∙◌, ◌⊎◌, inl, inr, Bool, false, ◌&&◌,
  arith, leb, ◌==◌, if◌then◌else◌, some, Bool-cases, List, [], ◌∷◌, length, subst,
}
use kfs.Kmalloc.{Block, header_size, update, set_prev, find_free_block, find_last}
use kfs.Kmalloc.Chain.{
  Piece, end_of, last_of, link, header, IsChain, same-IsChain, update_here, update_apart,
  set_prev_apart, set_prev-IsChain,
}

-- Whether a block is free and large enough.
abbrev pub fits : ℕ → Piece → Bool
fits size b = b.free && leb size b.size

-- The address of the first block that fits, 0 where there is none.
unfoldable pub first_fit : ℕ → ℕ → List Piece → ℕ
first_fit size at [] = 0
first_fit size at (b ∷ bs) =
    let rest = first_fit size (at + header_size + b.size) bs in if fits size b then at else rest

pub find_free_block_lem :
    (fuel : ℕ) (bs : List Piece) (m : ℕ → Block) (size prev at : ℕ)
    → at ≢ 0
    → length bs < fuel
    → IsChain m prev at bs 0
    → find_free_block fuel m size (link 0 at bs) ≡ some (first_fit size at bs)
unfolding find_free_block first_fit IsChain
find_free_block_lem zero bs m size prev at given short c = absurd (omega arith)
find_free_block_lem (suc fuel) [] m size prev at given short c = refl
find_free_block_lem (suc fuel) (b ∷ bs) m size prev at given short (here, c) =
    let next = at + header_size + b.size in
    let nonzero : at == 0 ≡ false = ground arith in
    elim (Bool-cases (fits size b)) [
      | inl yes_fit ↦ rw (nonzero, here, yes_fit) refl
      | inr no_fit ↦
          rw (nonzero, here, no_fit)
            (find_free_block_lem fuel bs m size at next (omega arith) (omega arith) c)
    ]

pub find_last_lem :
    (fuel : ℕ) (b : Piece) (bs : List Piece) (m : ℕ → Block) (prev at : ℕ)
    → at ≢ 0
    → length (b ∷ bs) ≤ fuel
    → IsChain m prev at (b ∷ bs) 0
    → find_last fuel m at ≡ some (last_of prev at (b ∷ bs))
unfolding find_last last_of IsChain
find_last_lem zero b bs m prev at given short c = absurd (omega arith)
find_last_lem (suc fuel) b [] m prev at given short (here, c) = rw here refl
find_last_lem (suc fuel) b (d ∷ bs) m prev at given short (here, c) =
    let next = at + header_size + b.size in
    let nonzero : next == 0 ≡ false = ground arith in
    rw (here, nonzero) (find_last_lem fuel d bs m at next (omega arith) (omega arith) c)

pub link_apart : (bs : List Piece) (at a : ℕ) → a < at → (link 0 at bs ≡ 0) ⊎ (link 0 at bs ≢ a)
link_apart [] at a lt = inl refl
link_apart (b ∷ bs) at a lt = inr (omega arith)

-- A block and its successor become one.
abbrev pub merged : (ℕ → Block) → ℕ → ℕ → Piece → ℕ → Block
merged m at after b =
    set_prev (update m at (record (m at) { size = b.size; next = (m after).next })) (m after).next
      at

abbrev pub joined : Piece → Piece → Piece
joined b d = record { size = b.size + header_size + d.size; free = b.free }

pub merged_stored :
    (b d : Piece) (stop : ℕ) (m : ℕ → Block) (prev at after next : ℕ)
    → m at ≡ header b prev next
    → m after ≡ header d at stop
    → merged m at after (joined b d)
      ≡ set_prev (update m at (header (joined b d) prev stop)) stop at
merged_stored b d stop m prev at after next here there =
    let with_first : Block → ℕ → Block = λ h.
      set_prev (update m at (record h { size = (joined b d).size; next = (m after).next }))
        (m after).next at in
    let with_second : Block → ℕ → Block =
      λ h. set_prev (update m at (header (joined b d) prev h.next)) h.next at in
    ap with_first here ∙ ap with_second there

pub merged-IsChain :
    (b d : Piece) (bs : List Piece) (m : ℕ → Block) (prev at : ℕ)
    → at ≢ 0
    → IsChain m prev at (b ∷ d ∷ bs) 0
    → IsChain (merged m at (at + header_size + b.size) (joined b d)) prev at (joined b d ∷ bs) 0
unfolding IsChain end_of
merged-IsChain b d bs m prev at given (here, (there, c)) =
    let after = at + header_size + b.size in
    let end = after + header_size + d.size in
    let same_end : at + header_size + (joined b d).size ≡ end = omega arith in
    let q = update m at (header (joined b d) prev (link 0 end bs)) in
    let chain : IsChain (set_prev q (link 0 end bs) at) prev at (joined b d ∷ bs) 0 = rw same_end (
      set_prev_apart q (link 0 end bs) at at (link_apart bs end at (omega arith))
          ∙ update_here m at (header (joined b d) prev (link 0 end bs)),
      set_prev-IsChain bs q after end at (omega arith)
          (same-IsChain bs m q after end 0 (λ a lo hi. update_apart m at _ a (omega arith)) c),
    ) in
    subst (λ r. IsChain r prev at (joined b d ∷ bs) 0)
      (sym (merged_stored b d (link 0 end bs) m prev at after after here there)) chain

-- No header before the block is touched.
pub merged_below :
    (b d : Piece) (bs : List Piece) (m : ℕ → Block) (prev at a : ℕ)
    → IsChain m prev at (b ∷ d ∷ bs) 0
    → a < at
    → merged m at (at + header_size + b.size) (joined b d) a ≡ m a
unfolding IsChain
merged_below b d bs m prev at a (here, (there, c)) lt =
    let after = at + header_size + b.size in
    let end = after + header_size + d.size in
    let stop = link 0 end bs in
    let q = update m at (header (joined b d) prev stop) in
    ap (λ r. r a) (merged_stored b d stop m prev at after after here there)
    ∙ set_prev_apart q stop at a (link_apart bs end a (omega arith))
    ∙ update_apart m at (header (joined b d) prev stop) a (omega arith)
