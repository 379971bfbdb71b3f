-- ===== src/Kmalloc/Release.antt =====
-- What `kfree` and `ksize` do for the address of a block's payload.
use kfs.Base.{
  ℕ, ◌+◌, ◌≤◌, ◌<◌, ◌≡◌, ◌≢◌, refl, sym, ap, inl, inr, not, ◌&&◌, arith, ◌==◌, ==_iff,
  if◌then◌else◌, Bool-cases, some, List, [], ◌∷◌, add32, subst,
}
use kfs.Kmalloc.{
  Block, header_size, update, set_prev, absorb_next, absorb_into_prev, coalesce_blocks,
}
use kfs.Kmalloc.Chain.{Piece, end_of, link, header, IsChain, end_of-le}
use kfs.Kmalloc.Merge.{
  freed, merge_next, absorb_next-IsChain, Shape, Shape-end, Shape-link, merge_next-Shape,
}
use kfs.Kmalloc.Free.{
  block_at, release, mark_free, free_store, freed-IsChain, release_behind-IsChain,
  release_behind-Shape,
}

-- The header of a block that the layout has at an address.
pub record Found (m : ℕ → Block) (address at end : ℕ) (x : Piece) : Type 0 where
  pub prev : ℕ
  pub next : ℕ
  pub stored : m address ≡ header x prev next
  pub low : at ≤ address
  pub high : address + header_size + x.size ≤ end

pub block_at-Found :
    (address : ℕ) (bs : List Piece) (x : Piece) (m : ℕ → Block) (prev at : ℕ)
    → block_at address at bs ≡ some x
    → IsChain m prev at bs 0
    → Found m address at (end_of at bs) x
unfolding block_at IsChain end_of
block_at-Found address [] x m prev at found c = cc found
block_at-Found address (b ∷ bs) x m prev at found (here, c) =
    let next = at + header_size + b.size in
    elim (Bool-cases (at == address)) [
      | inl e ↦
          let eq : at ≡ address = (==_iff at address).0 e in
          let same : b ≡ x = cc (rw e at found) in
          subst (λ n. Found m n at (end_of next bs) x) eq
            (subst (λ y. Found m at at (end_of next bs) y) same
              (record {
                prev = prev;
                next = link 0 next bs;
                stored = here;
                low = omega arith;
                high = end_of-le bs next;
              }))
      | inr ne ↦
          let f = block_at-Found address bs x m at next (rw ne at found) c in
          record {
            prev = f.prev;
            next = f.next;
            stored = f.stored;
            low = omega (arith, f.low);
            high = f.high;
          }
    ]

absorb_into_prev_alone :
    (b : Piece) (next : ℕ) (m : ℕ → Block) (at : ℕ)
    → m at ≡ header b 0 next
    → absorb_into_prev m at ≡ m
unfolding absorb_into_prev
absorb_into_prev_alone b next m at here =
    let with_block : Block → ℕ → Block = λ hd.
      if not (hd.prev == 0) && (m hd.prev).free
      then set_prev
          (update m hd.prev (record (m hd.prev) {
            size = add32 (m hd.prev).size (add32 header_size hd.size);
            next = hd.next;
          }))
          hd.next hd.prev
      else m in
    ap with_block here

head_header :
    (bs : List Piece) (m : ℕ → Block) (prev at end : ℕ)
    → Shape at end bs
    → IsChain m prev at bs 0
    → (b : Piece) × (next : ℕ) × (m at ≡ header b prev next)
unfolding IsChain
head_header bs m prev at end s c =
    let c' : IsChain m prev at (s.first ∷ s.rest) 0 =
      subst (λ l. IsChain m prev at l 0) s.shape c in
    (s.first, link 0 (at + header_size + s.first.size) s.rest, c'.0)

pub release-IsChain :
    (address : ℕ) (bs : List Piece) (x : Piece) (m : ℕ → Block) (at : ℕ)
    → at ≢ 0
    → end_of at bs < 0xF000_0000
    → block_at address at bs ≡ some x
    → IsChain m 0 at bs 0
    → IsChain (free_store m address) 0 at (release address at bs) 0
unfolding block_at release coalesce_blocks end_of
release-IsChain address [] x m at given small found c = cc found
release-IsChain address (b ∷ bs) x m at given small found c =
    let next = at + header_size + b.size in
    elim (Bool-cases (at == address)) [
      | inl e ↦
          let eq : at ≡ address = (==_iff at address).0 e in
          let q = absorb_next (mark_free m at) at in
          let c' =
            (absorb_next-IsChain (freed b) bs (mark_free m at) 0 at given small
              (freed-IsChain b bs m 0 at 0 c)).0 in
          let (d, n, here) =
            head_header (merge_next (freed b) bs) q 0 at _ (merge_next-Shape (freed b) bs at) c' in
          let alone : absorb_into_prev q at ≡ q = absorb_into_prev_alone d n q at here in
          rw e (
            subst (λ a. IsChain (free_store m a) 0 at (merge_next (freed b) bs) 0) eq
              (subst (λ r. IsChain r 0 at (merge_next (freed b) bs) 0) (sym alone) c'))
      | inr ne ↦
          rw ne (release_behind-IsChain address bs b x m 0 at given small (rw ne at found) c).0
    ]

-- The blocks that are left reach as far as those before, and begin where those began.
pub end_of-release :
    (address : ℕ) (bs : List Piece) (at : ℕ)
    → (end_of at (release address at bs) ≡ end_of at bs)
      × (link 0 at (release address at bs) ≡ link 0 at bs)
unfolding release end_of
end_of-release address [] at = (refl, refl)
end_of-release address (b ∷ bs) at = elim (Bool-cases (at == address)) [
  | inl e ↦ rw e (
    Shape-end _ at _ (merge_next-Shape (freed b) bs at),
    Shape-link _ at _ (merge_next-Shape (freed b) bs at),
  )
  | inr ne ↦ rw ne (
    Shape-end _ at _ (release_behind-Shape address bs b at),
    Shape-link _ at _ (release_behind-Shape address bs b at),
  )
]
