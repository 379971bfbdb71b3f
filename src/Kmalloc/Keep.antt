-- ===== src/Kmalloc/Keep.antt =====
-- Allocation leaves the blocks in use alone, and hands out a block of the size asked for.
use kfs.Base.{
  ℕ, ◌+◌, ◌-◌, ◌≤◌, ◌<◌, ◌≡◌, ◌≢◌, refl, sym, ap, ◌∙◌, inl, inr, true, false, ◌&&◌, arith, leb,
  ◌==◌, ==_iff, Bool-cases, some, List, [], ◌∷◌, ◌++◌, subst,
}
use kfs.Kmalloc.{header_size, min_block_size}
use kfs.Kmalloc.Chain.{Piece, end_of, end_of-le}
use kfs.Kmalloc.Moves.{fits, first_fit}
use kfs.Kmalloc.Split.{splits, first_part}
use kfs.Kmalloc.Alloc.{serve, in_use, first_fit-ge}
use kfs.Kmalloc.Free.{block_at}

pub block_at-ge :
    (address : ℕ) (bs : List Piece) (at : ℕ) (x : Piece)
    → block_at address at bs ≡ some x
    → (at ≤ address) × (address < end_of at bs)
unfolding block_at end_of
block_at-ge address [] at x found = cc found
block_at-ge address (b ∷ bs) at x found =
    let next = at + header_size + b.size in
    elim (Bool-cases (at == address)) [
      | inl e ↦ (
        omega (arith, (==_iff at address).0 e),
        omega (arith, (==_iff at address).0 e, end_of-le bs next),
      )
      | inr ne ↦
          let rest = block_at-ge address bs next x (rw ne at found) in (omega (arith, rest), rest.1)
    ]

-- A block in use stays where it is.
pub serve_keeps :
    (size address : ℕ) (bs : List Piece) (at : ℕ) (x : Piece)
    → block_at address at bs ≡ some x
    → x.free ≡ false
    → block_at address at (serve size bs) ≡ some x
unfolding block_at serve
serve_keeps size address [] at x found used = cc found
serve_keeps size address (b ∷ bs) at x found used =
    let next = at + header_size + b.size in
    elim (Bool-cases (at == address)) [
      | inl e ↦
          let same : b ≡ x = cc (rw e at found) in
          let no_fit : fits size b ≡ false =
            ap (λ y. y.free && leb size y.size) same ∙ ap (λ t. t && leb size x.size) used in
          rw (no_fit, e) (rw e at found)
      | inr ne ↦
          let there : block_at address next bs ≡ some x = rw ne at found in
          elim (Bool-cases (fits size b)) [
            | inr no_fit ↦ rw (no_fit, ne) (serve_keeps size address bs next x there used)
            | inl yes_fit ↦ rw yes_fit (elim (Bool-cases (splits size b)) [
              | inr whole ↦ rw (whole, ne) there
              | inl cut ↦
                  let low = (block_at-ge address bs next x there).0 in
                  let big : size + header_size + min_block_size ≤ b.size = ground (arith, cut) in
                  let apart : at + header_size + size == address ≡ false = ground (arith, low) in
                  let same_end : at
                        + header_size
                        + size
                        + header_size
                        + (b.size - size - header_size)
                      ≡ next =
                    omega arith in
                  rw (cut, ne, apart, same_end) there
            ])
          ]
    ]

-- The block handed out is in use, and large enough.
pub serve_gives :
    (size : ℕ) (bs : List Piece) (at : ℕ)
    → first_fit size at bs ≢ 0
    → (y : Piece) × (block_at (first_fit size at bs) at (serve size bs) ≡ some y)
      × (y.free ≡ false)
      × (size ≤ y.size)
unfolding block_at serve first_fit
serve_gives size [] at found = absurd (found refl)
serve_gives size (b ∷ bs) at found =
    let next = at + header_size + b.size in
    elim (Bool-cases (fits size b)) [
      | inr no_fit ↦
          let tail = rw no_fit at found in
          let (y, there, used, enough) = serve_gives size bs next tail in
          let apart : at == first_fit size next bs ≡ false =
            ground (arith, first_fit-ge size bs next tail) in
          rw (no_fit, apart) (y, there, used, enough)
      | inl yes_fit ↦
          let le : size ≤ b.size = ground (arith, yes_fit) in
          let here : at == at ≡ true = ground arith in
          rw yes_fit (elim (Bool-cases (splits size b)) [
            | inl cut ↦ rw (cut, here) (in_use (first_part size b), refl, refl, omega arith)
            | inr whole ↦ rw (whole, here) (in_use b, refl, refl, le)
          ])
    ]

-- What is taken was free.
pub first_fit_free :
    (size : ℕ) (bs : List Piece) (at : ℕ) (x : Piece)
    → first_fit size at bs ≢ 0
    → block_at (first_fit size at bs) at bs ≡ some x
    → x.free ≡ true
unfolding block_at first_fit
first_fit_free size [] at x found e = cc e
first_fit_free size (b ∷ bs) at x found e =
    let next = at + header_size + b.size in
    elim (Bool-cases (fits size b)) [
      | inr no_fit ↦
          let tail = rw no_fit at found in
          let apart : at == first_fit size next bs ≡ false =
            ground (arith, first_fit-ge size bs next tail) in
          let moved : first_fit size at (b ∷ bs) ≡ first_fit size next bs = rw no_fit refl in
          let e' = subst (λ n. block_at n at (b ∷ bs) ≡ some x) moved e in
          first_fit_free size bs next x tail (rw apart at e')
      | inl yes_fit ↦
          let here : at == at ≡ true = ground arith in
          let free : b.free ≡ true = ground (arith, yes_fit) in
          let moved : first_fit size at (b ∷ bs) ≡ at = rw yes_fit refl in
          let e' = subst (λ n. block_at n at (b ∷ bs) ≡ some x) moved e in
          let same : b ≡ x = cc (rw here at e') in ap (λ y. y.free) (sym same) ∙ free
    ]

-- A block put at the end.
pub append_keeps :
    (address : ℕ) (bs : List Piece) (at : ℕ) (x w : Piece)
    → block_at address at bs ≡ some x
    → block_at address at (bs ++ (w ∷ [])) ≡ some x
unfolding block_at
append_keeps address [] at x w found = cc found
append_keeps address (b ∷ bs) at x w found = elim (Bool-cases (at == address)) [
  | inl e ↦ rw e (rw e at found)
  | inr ne ↦ rw ne (append_keeps address bs (at + header_size + b.size) x w (rw ne at found))
]

pub append_gives :
    (bs : List Piece) (at : ℕ) (w : Piece) → block_at (end_of at bs) at (bs ++ (w ∷ [])) ≡ some w
unfolding block_at end_of
append_gives [] at w = ground arith
append_gives (b ∷ bs) at w =
    let next = at + header_size + b.size in
    let apart : at == end_of next bs ≡ false = ground (arith, end_of-le bs next) in
    rw apart (append_gives bs next w)
