-- ===== src/Kmalloc/Merge.antt =====
-- The two halves of `coalesce_blocks` on a chain of blocks.
use kfs.Base.{
  ℕ, ◌+◌, ◌<◌, ◌≡◌, ◌≢◌, refl, sym, ap, ◌∙◌, inl, inr, Bool, true, false, not, ◌&&◌, arith, ◌==◌,
  if◌then◌else◌, Bool-cases, List, [], ◌∷◌, add32, subst,
}
use kfs.Kmalloc.{Block, header_size, update, set_prev, absorb_next, absorb_into_prev}
use kfs.Kmalloc.Chain.{Piece, end_of, link, header, IsChain, end_of-le}
use kfs.Kmalloc.Moves.{merged, joined, merged_stored, merged-IsChain, merged_below}

-- A block that becomes free, joined with a free successor.
abbrev pub freed : Piece → Piece
freed b = record b { free = true }

abbrev pub merge_next : Piece → List Piece → List Piece
merge_next b [] = b ∷ []
merge_next b (d ∷ bs) = if d.free then joined b d ∷ bs else b ∷ d ∷ bs

absorb_next_stored :
    (b d : Piece) (stop : ℕ) (m : ℕ → Block) (prev at after : ℕ)
    → after ≢ 0
    → b.size + header_size + d.size < 0xF000_0000
    → m at ≡ header b prev after
    → m after ≡ header d at stop
    → absorb_next m at ≡ (if d.free then merged m at after (joined b d) else m)
unfolding absorb_next
absorb_next_stored b d stop m prev at after given small here there =
    let with_first : Block → ℕ → Block = λ hb.
      if not (hb.next == 0) && (m hb.next).free
      then set_prev
          (update m at (record hb {
            size = add32 hb.size (add32 header_size (m hb.next).size);
            next = (m hb.next).next;
          }))
          (m hb.next).next at
      else m in
    let with_second : Block → ℕ → Block = λ hd.
      if not (after == 0) && hd.free
      then set_prev
          (update m at (record (header b prev after) {
            size = add32 b.size (add32 header_size hd.size);
            next = hd.next;
          }))
          hd.next at
      else m in
    let nonzero : after == 0 ≡ false = ground arith in
    let exact : add32 b.size (add32 header_size d.size) ≡ b.size + header_size + d.size =
      omega arith in
    let with_size : ℕ → ℕ → Block = λ n.
      if d.free
      then set_prev (update m at (header (record b { size = n }) prev stop)) stop at
      else m in
    ap with_first here
    ∙ ap with_second there
    ∙ ap
        (λ z.
          if not z && d.free
          then set_prev
              (update m at
                (header (record b { size = add32 b.size (add32 header_size d.size) }) prev stop))
              stop at
          else m)
        nonzero
    ∙ ap with_size exact
    ∙ ap (λ q. if d.free then q else m)
        (sym (merged_stored b d stop m prev at after after here there))

pub absorb_into_prev_stored :
    (b d : Piece) (stop : ℕ) (m : ℕ → Block) (prev at after : ℕ)
    → at ≢ 0
    → b.size + header_size + d.size < 0xF000_0000
    → m at ≡ header b prev after
    → m after ≡ header d at stop
    → absorb_into_prev m after ≡ (if b.free then merged m at after (joined b d) else m)
unfolding absorb_into_prev
absorb_into_prev_stored b d stop m prev at after given small here there =
    let with_second : Block → ℕ → Block = λ hd.
      if not (hd.prev == 0) && (m hd.prev).free
      then set_prev
          (update m hd.prev (record (m hd.prev) {
            size = add32 (m hd.prev).size (add32 header_size hd.size);
            next = hd.next;
          }))
          hd.next hd.prev
      else m in
    let with_first : Block → ℕ → Block = λ hb.
      if not (at == 0) && hb.free
      then set_prev
          (update m at (record hb { size = add32 hb.size (add32 header_size d.size); next = stop }))
          stop at
      else m in
    let nonzero : at == 0 ≡ false = ground arith in
    let exact : add32 b.size (add32 header_size d.size) ≡ b.size + header_size + d.size =
      omega arith in
    let with_size : ℕ → ℕ → Block = λ n.
      if b.free
      then set_prev (update m at (header (record b { size = n }) prev stop)) stop at
      else m in
    ap with_second there
    ∙ ap with_first here
    ∙ ap
        (λ z.
          if not z && b.free
          then set_prev
              (update m at
                (header (record b { size = add32 b.size (add32 header_size d.size) }) prev stop))
              stop at
          else m)
        nonzero
    ∙ ap with_size exact
    ∙ ap (λ q. if b.free then q else m)
        (sym (merged_stored b d stop m prev at after after here there))

absorb_next_alone :
    (b : Piece) (m : ℕ → Block) (prev at : ℕ) → m at ≡ header b prev 0 → absorb_next m at ≡ m
unfolding absorb_next
absorb_next_alone b m prev at here =
    let with_first : Block → ℕ → Block = λ hb.
      if not (hb.next == 0) && (m hb.next).free
      then set_prev
          (update m at (record hb {
            size = add32 hb.size (add32 header_size (m hb.next).size);
            next = (m hb.next).next;
          }))
          (m hb.next).next at
      else m in
    ap with_first here

-- The first block of a chain and its successor.
pub absorb_next-IsChain :
    (b : Piece) (bs : List Piece) (m : ℕ → Block) (prev at : ℕ)
    → at ≢ 0
    → end_of at (b ∷ bs) < 0xF000_0000
    → IsChain m prev at (b ∷ bs) 0
    → IsChain (absorb_next m at) prev at (merge_next b bs) 0
      × ((a : ℕ) → a < at → absorb_next m at a ≡ m a)
unfolding IsChain end_of
absorb_next-IsChain b [] m prev at given small (here, c) =
    let alone : absorb_next m at ≡ m = absorb_next_alone b m prev at here in
    (subst (λ q. IsChain q prev at (b ∷ []) 0) (sym alone) (here, c), λ a lt. ap (λ q. q a) alone)
absorb_next-IsChain b (d ∷ bs) m prev at given small (here, (there, c)) =
    let after = at + header_size + b.size in
    let end = after + header_size + d.size in
    let stored =
      absorb_next_stored b d (link 0 end bs) m prev at after (omega arith)
        (omega (arith, end_of-le bs end)) here there in
    let list : Bool → List Piece = λ t. if t then joined b d ∷ bs else b ∷ d ∷ bs in
    let store : Bool → ℕ → Block = λ t. if t then merged m at after (joined b d) else m in
    elim (Bool-cases d.free) [
      | inl free ↦
          let e : absorb_next m at ≡ merged m at after (joined b d) = stored ∙ ap store free in
          (
            subst (λ l. IsChain (absorb_next m at) prev at l 0) (sym (ap list free))
                (subst (λ q. IsChain q prev at (joined b d ∷ bs) 0) (sym e)
                  (merged-IsChain b d bs m prev at given (here, (there, c)))),
            λ a lt. ap (λ q. q a) e ∙ merged_below b d bs m prev at a (here, (there, c)) lt,
          )
      | inr used ↦
          let e : absorb_next m at ≡ m = stored ∙ ap store used in
          (
            subst (λ l. IsChain (absorb_next m at) prev at l 0) (sym (ap list used))
                (subst (λ q. IsChain q prev at (b ∷ d ∷ bs) 0) (sym e) (here, (there, c))),
            λ a lt. ap (λ q. q a) e,
          )
    ]

-- The chain that is left has a block where the first was, and ends where it did.
pub record Shape (at end : ℕ) (bs : List Piece) : Type 0 where
  pub first : Piece
  pub rest : List Piece
  pub shape : bs ≡ first ∷ rest
  pub same_end : end_of (at + header_size + first.size) rest ≡ end

pub merge_next-Shape :
    (b : Piece) (bs : List Piece) (at : ℕ) → Shape at (end_of at (b ∷ bs)) (merge_next b bs)
unfolding end_of
merge_next-Shape b [] at = record { first = b; rest = []; shape = refl; same_end = refl }
merge_next-Shape b (d ∷ bs) at =
    let list : Bool → List Piece = λ t. if t then joined b d ∷ bs else b ∷ d ∷ bs in
    elim (Bool-cases d.free) [
      | inl free ↦ record {
        first = joined b d;
        rest = bs;
        shape = ap list free;
        same_end = ap (λ n. end_of n bs) (omega arith);
      }
      | inr used ↦ record { first = b; rest = d ∷ bs; shape = ap list used; same_end = refl }
    ]

pub Shape-end : (bs : List Piece) (at end : ℕ) → Shape at end bs → end_of at bs ≡ end
unfolding end_of
Shape-end bs at end s = ap (end_of at) s.shape ∙ s.same_end

pub Shape-link : (bs : List Piece) (at end : ℕ) → Shape at end bs → link 0 at bs ≡ at
Shape-link bs at end s = ap (link 0 at) s.shape
