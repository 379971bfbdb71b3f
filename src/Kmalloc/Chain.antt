-- ===== src/Kmalloc/Chain.antt =====
-- What the headers of the heap say: the blocks lie side by side, doubly linked in the order of
-- their addresses.
use kfs.Base.{
  ℕ, ◌+◌, ◌≤◌, ◌<◌, ◌≡◌, ◌≢◌, refl, sym, ap, ◌∙◌, ◌⊎◌, inr, Bool, false, arith, ◌==◌, List, [], ◌∷◌,
  ◌++◌,
}
use kfs.Kmalloc.{Block, block_magic, header_size, update, set_prev}

-- A block of the layout: its size, and whether it is free.
pub record Piece : Type 0 where
  pub size : ℕ
  pub free : Bool

-- The address behind the blocks that begin at `at`.
unfoldable pub end_of : ℕ → List Piece → ℕ
end_of at [] = at
end_of at (b ∷ bs) = end_of (at + header_size + b.size) bs

-- The last block's address, `prev` where there is none.
unfoldable pub last_of : ℕ → ℕ → List Piece → ℕ
last_of prev at [] = prev
last_of prev at (b ∷ bs) = last_of at (at + header_size + b.size) bs

-- The pointer to the blocks that begin at `at`, `stop` where there is none.
abbrev pub link : ℕ → ℕ → List Piece → ℕ
link stop at [] = stop
link stop at (b ∷ bs) = at

abbrev pub header : Piece → ℕ → ℕ → Block
header b prev next = record {
  size = b.size;
  free = b.free;
  next = next;
  prev = prev;
  magic = block_magic;
}

unfoldable pub IsChain : (ℕ → Block) → ℕ → ℕ → List Piece → ℕ → Type 0
IsChain m prev at [] stop = Unit
IsChain m prev at (b ∷ bs) stop =
    (m at ≡ header b prev (link stop (at + header_size + b.size) bs))
    × IsChain m at (at + header_size + b.size) bs stop

pub end_of-le : (bs : List Piece) (at : ℕ) → at ≤ end_of at bs
unfolding end_of
end_of-le [] at = omega arith
end_of-le (b ∷ bs) at = omega (arith, end_of-le bs (at + header_size + b.size))

pub end_of-append : (xs ys : List Piece) (at : ℕ) → end_of at (xs ++ ys) ≡ end_of (end_of at xs) ys
unfolding end_of
end_of-append [] ys at = refl
end_of-append (b ∷ xs) ys at = end_of-append xs ys (at + header_size + b.size)

link-append :
    (xs ys : List Piece) (stop at : ℕ)
    → link stop at (xs ++ ys) ≡ link (link stop (end_of at xs) ys) at xs
unfolding end_of
link-append [] ys stop at = refl
link-append (b ∷ xs) ys stop at = refl

-- A chain followed by a chain.
pub join-IsChain :
    (xs ys : List Piece) (m : ℕ → Block) (prev at stop : ℕ)
    → IsChain m prev at xs (link stop (end_of at xs) ys)
    → IsChain m (last_of prev at xs) (end_of at xs) ys stop
    → IsChain m prev at (xs ++ ys) stop
unfolding IsChain end_of last_of
join-IsChain [] ys m prev at stop first rest = rest
join-IsChain (b ∷ xs) ys m prev at stop (here, first) rest =
    let next = at + header_size + b.size in
    (
      here ∙ sym (ap (header b prev) (link-append xs ys stop next)),
      join-IsChain xs ys m at next stop first rest,
    )

-- A chain looks at nothing but its own headers.
pub same-IsChain :
    (bs : List Piece) (m q : ℕ → Block) (prev at stop : ℕ)
    → ((a : ℕ) → at ≤ a → a < end_of at bs → q a ≡ m a)
    → IsChain m prev at bs stop
    → IsChain q prev at bs stop
unfolding IsChain end_of
same-IsChain [] m q prev at stop same c = tt
same-IsChain (b ∷ bs) m q prev at stop same (here, c) =
    let next = at + header_size + b.size in
    let after = end_of-le bs next in
    (
      same at (omega arith) (omega (arith, after)) ∙ here,
      same-IsChain bs m q at next stop (λ a lo hi. same a (omega arith) hi) c,
    )

pub update_here : (m : ℕ → Block) (at : ℕ) (b : Block) → update m at b at ≡ b
update_here m at b = ground arith

pub update_apart : (m : ℕ → Block) (at : ℕ) (b : Block) (a : ℕ) → at ≢ a → update m at b a ≡ m a
update_apart m at b a ne = ground arith

pub set_prev_apart :
    (m : ℕ → Block) (at block a : ℕ) → (at ≡ 0) ⊎ (at ≢ a) → set_prev m at block a ≡ m a
set_prev_apart m at block a h = ground arith

-- The first block gets a new predecessor.
pub set_prev-IsChain :
    (bs : List Piece) (m : ℕ → Block) (prev at new : ℕ)
    → at ≢ 0
    → IsChain m prev at bs 0
    → IsChain (set_prev m (link 0 at bs) new) new at bs 0
unfolding IsChain end_of
set_prev-IsChain [] m prev at new given c = tt
set_prev-IsChain (b ∷ bs) m prev at new given (here, c) =
    let next = at + header_size + b.size in
    let nonzero : at == 0 ≡ false = ground arith in
    (
      rw nonzero (update_here m at _ ∙ rw here refl),
      same-IsChain bs m (set_prev m at new) at next 0
          (λ a lo hi. set_prev_apart m at new a (inr (omega arith))) c,
    )

pub last_of-ge : (bs : List Piece) (prev at : ℕ) → prev ≤ at → prev ≤ last_of prev at bs
unfolding last_of
last_of-ge [] prev at le = omega arith
last_of-ge (b ∷ bs) prev at le =
    omega (arith, last_of-ge bs at (at + header_size + b.size) (omega arith))

pub last_of-lt : (bs : List Piece) (prev at : ℕ) → prev < at → last_of prev at bs < end_of at bs
unfolding last_of end_of
last_of-lt [] prev at lt = lt
last_of-lt (b ∷ bs) prev at lt = last_of-lt bs at (at + header_size + b.size) (omega arith)

-- The last block gets a new successor.
pub set_next-IsChain :
    (b : Piece) (bs : List Piece) (m : ℕ → Block) (prev at stop new : ℕ)
    → IsChain m prev at (b ∷ bs) stop
    → let last = last_of prev at (b ∷ bs) in
      IsChain (update m last (record (m last) { next = new })) prev at (b ∷ bs) new
unfolding IsChain end_of last_of
set_next-IsChain b [] m prev at stop new (here, c) = (update_here m at _ ∙ rw here refl, tt)
set_next-IsChain b (d ∷ bs) m prev at stop new (here, c) =
    let next = at + header_size + b.size in
    let behind = last_of-ge bs next (next + header_size + d.size) (omega arith) in
    (
      update_apart m (last_of at next (d ∷ bs)) _ at (λ e. omega (arith, behind, e)) ∙ here,
      set_next-IsChain d bs m at next stop new c,
    )
