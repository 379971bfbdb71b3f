-- ===== src/Kmalloc/Free.antt =====
-- What `kfree` leaves of the heap's blocks.
use kfs.Base.{
  ℕ, ◌+◌, ◌<◌, ◌≡◌, ◌≢◌, refl, sym, ap, ◌∙◌, inl, inr, Bool, true, arith, ◌==◌, ==_iff,
  if◌then◌else◌, Bool-cases, Option, none, some, List, [], ◌∷◌, subst,
}
use kfs.Kmalloc.{Block, header_size, update, absorb_next, absorb_into_prev, coalesce_blocks}
use kfs.Kmalloc.Chain.{
  Piece, end_of, link, header, IsChain, end_of-le, same-IsChain, update_here, update_apart,
}
use kfs.Kmalloc.Moves.{merged, joined, merged-IsChain, merged_below}
use kfs.Kmalloc.Merge.{
  Shape-end, Shape-link, freed, merge_next, absorb_next-IsChain, Shape, merge_next-Shape,
  absorb_into_prev_stored,
}

-- The block at an address.
unfoldable pub block_at : ℕ → ℕ → List Piece → Option Piece
block_at address at [] = none
block_at address at (b ∷ bs) =
    let rest = block_at address (at + header_size + b.size) bs in
    if at == address then some b else rest

abbrev pub join_free : Piece → List Piece → List Piece
join_free p [] = p ∷ []
join_free p (x ∷ xs) = if p.free then joined p x ∷ xs else p ∷ x ∷ xs

-- The block at `address`, which lies behind the block `p` at `at`, becomes free and joins what is
-- free beside it.
unfoldable pub release_behind : ℕ → ℕ → Piece → List Piece → List Piece
release_behind address at p [] = p ∷ []
release_behind address at p (b ∷ bs) =
    let next = at + header_size + p.size in
    let rest = release_behind address next b bs in
    if next == address then join_free p (merge_next (freed b) bs) else p ∷ rest

unfoldable pub release : ℕ → ℕ → List Piece → List Piece
release address at [] = []
release address at (b ∷ bs) =
    if at == address then merge_next (freed b) bs else release_behind address at b bs

abbrev pub mark_free : (ℕ → Block) → ℕ → ℕ → Block
mark_free m at = update m at (record (m at) { free = true })

pub freed-IsChain :
    (b : Piece) (bs : List Piece) (m : ℕ → Block) (prev at stop : ℕ)
    → IsChain m prev at (b ∷ bs) stop
    → IsChain (mark_free m at) prev at (freed b ∷ bs) stop
unfolding IsChain
freed-IsChain b bs m prev at stop (here, c) =
    let next = at + header_size + b.size in
    let marked : Block → Block = λ h. record h { free = true } in
    (
      update_here m at _ ∙ ap marked here,
      same-IsChain bs m (mark_free m at) at next stop
          (λ a lo hi. update_apart m at _ a (omega arith)) c,
    )

-- The second block of a chain joins the first, if that is free.
join_free-IsChain :
    (p x : Piece) (xs : List Piece) (m : ℕ → Block) (prev at : ℕ)
    → at ≢ 0
    → end_of at (p ∷ x ∷ xs) < 0xF000_0000
    → IsChain m prev at (p ∷ x ∷ xs) 0
    → IsChain (absorb_into_prev m (at + header_size + p.size)) prev at (join_free p (x ∷ xs)) 0
      × ((a : ℕ) → a < at → absorb_into_prev m (at + header_size + p.size) a ≡ m a)
unfolding IsChain end_of
join_free-IsChain p x xs m prev at given small (here, (there, c)) =
    let after = at + header_size + p.size in
    let end = after + header_size + x.size in
    let q = absorb_into_prev m after in
    let stored =
      absorb_into_prev_stored p x (link 0 end xs) m prev at after given
        (omega (arith, end_of-le xs end)) here there in
    let list : Bool → List Piece = λ t. if t then joined p x ∷ xs else p ∷ x ∷ xs in
    let store : Bool → ℕ → Block = λ t. if t then merged m at after (joined p x) else m in
    elim (Bool-cases p.free) [
      | inl free ↦
          let e : q ≡ merged m at after (joined p x) = stored ∙ ap store free in
          (
            subst (λ l. IsChain q prev at l 0) (sym (ap list free))
                (subst (λ r. IsChain r prev at (joined p x ∷ xs) 0) (sym e)
                  (merged-IsChain p x xs m prev at given (here, (there, c)))),
            λ a lt. ap (λ r. r a) e ∙ merged_below p x xs m prev at a (here, (there, c)) lt,
          )
      | inr used ↦
          let e : q ≡ m = stored ∙ ap store used in
          (
            subst (λ l. IsChain q prev at l 0) (sym (ap list used))
                (subst (λ r. IsChain r prev at (p ∷ x ∷ xs) 0) (sym e) (here, (there, c))),
            λ a lt. ap (λ r. r a) e,
          )
    ]

-- The store after the block at `address` has been freed.
abbrev pub free_store : (ℕ → Block) → ℕ → ℕ → Block
free_store m address = coalesce_blocks (mark_free m address) address

-- The block is the second of the chain.
second-IsChain :
    (p b : Piece) (bs : List Piece) (m : ℕ → Block) (prev at : ℕ)
    → at ≢ 0
    → end_of at (p ∷ b ∷ bs) < 0xF000_0000
    → IsChain m prev at (p ∷ b ∷ bs) 0
    → let next = at + header_size + p.size in
      IsChain (free_store m next) prev at (join_free p (merge_next (freed b) bs)) 0
      × ((a : ℕ) → a < at → free_store m next a ≡ m a)
unfolding IsChain end_of coalesce_blocks
second-IsChain p b bs m prev at given small (here, c) =
    let next = at + header_size + p.size in
    let marked = mark_free m next in
    let q = absorb_next marked next in
    let (c', below) =
      absorb_next-IsChain (freed b) bs marked at next (omega arith) small
        (freed-IsChain b bs m at next 0 c) in
    let same : (a : ℕ) → a < next → q a ≡ m a =
      λ a lt. below a lt ∙ update_apart m next _ a (omega arith) in
    let s = merge_next-Shape (freed b) bs next in
    let joined_chain =
      join_free-IsChain p s.first s.rest q prev at given (omega (arith, s.same_end))
        (same at (omega arith) ∙ here, subst (λ l. IsChain q at next l 0) s.shape c') in
    (
      subst (λ l. IsChain (absorb_into_prev q next) prev at (join_free p l) 0) (sym s.shape)
          joined_chain.0,
      λ a lt. joined_chain.1 a lt ∙ same a (omega arith),
    )

join_free-Shape :
    (p x : Piece) (xs : List Piece) (at : ℕ)
    → Shape at (end_of at (p ∷ x ∷ xs)) (join_free p (x ∷ xs))
unfolding end_of
join_free-Shape p x xs at =
    let list : Bool → List Piece = λ t. if t then joined p x ∷ xs else p ∷ x ∷ xs in
    elim (Bool-cases p.free) [
      | inl free ↦ record {
        first = joined p x;
        rest = xs;
        shape = ap list free;
        same_end = ap (λ n. end_of n xs) (omega arith);
      }
      | inr used ↦ record { first = p; rest = x ∷ xs; shape = ap list used; same_end = refl }
    ]

pub release_behind-Shape :
    (address : ℕ) (bs : List Piece) (p : Piece) (at : ℕ)
    → Shape at (end_of at (p ∷ bs)) (release_behind address at p bs)
unfolding release_behind end_of
release_behind-Shape address [] p at = record {
  first = p;
  rest = [];
  shape = refl;
  same_end = refl;
}
release_behind-Shape address (b ∷ bs) p at =
    let next = at + header_size + p.size in
    elim (Bool-cases (next == address)) [
      | inl here ↦
          let s = merge_next-Shape (freed b) bs next in
          let t = join_free-Shape p s.first s.rest at in
          rw here (record {
            first = t.first;
            rest = t.rest;
            shape = ap (join_free p) s.shape ∙ t.shape;
            same_end = t.same_end ∙ s.same_end;
          })
      | inr there ↦
          let s = release_behind-Shape address bs b next in
          rw there (record {
            first = p;
            rest = release_behind address next b bs;
            shape = refl;
            same_end = Shape-end _ next _ s;
          })
    ]

pub release_behind-IsChain :
    (address : ℕ) (bs : List Piece) (p x : Piece) (m : ℕ → Block) (prev at : ℕ)
    → at ≢ 0
    → end_of at (p ∷ bs) < 0xF000_0000
    → block_at address (at + header_size + p.size) bs ≡ some x
    → IsChain m prev at (p ∷ bs) 0
    → IsChain (free_store m address) prev at (release_behind address at p bs) 0
      × ((a : ℕ) → a < at → free_store m address a ≡ m a)
unfolding IsChain end_of block_at release_behind
release_behind-IsChain address [] p x m prev at given small found c = cc found
release_behind-IsChain address (b ∷ bs) p x m prev at given small found (here, c) =
    let next = at + header_size + p.size in
    elim (Bool-cases (next == address)) [
      | inl e ↦
          let eq : next ≡ address = (==_iff next address).0 e in
          rw e (
            subst
              (λ n.
                IsChain (free_store m n) prev at (join_free p (merge_next (freed b) bs)) 0
                × ((a : ℕ) → a < at → free_store m n a ≡ m a))
              eq (second-IsChain p b bs m prev at given small (here, c)))
      | inr ne ↦
          let (rest, below) =
            release_behind-IsChain address bs b x m at next (omega arith) small (rw ne at found)
              c in
          let same_link = Shape-link _ next _ (release_behind-Shape address bs b next) in
          rw ne (
            (below at (omega arith) ∙ here ∙ sym (ap (header p prev) same_link), rest),
            λ a lt. below a (omega arith),
          )
    ]
