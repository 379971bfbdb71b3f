-- ===== src/Fifo.antt =====
-- The abstract queue that the kernel's circular buffers implement: first in, first out, with a
-- limit on its length.
pub mod Refine
use kfs.Base.{
  ℕ, ◌≡◌, Bool, true, false, Option, none, some, List, [], ◌∷◌, ◌++◌, arith, leb, ltb,
  if◌then◌else◌, length,
}

module _ {ℓ} {A : Type ℓ} where
  -- `none`: the queue is full, and stays as it is.
  unfoldable pub push : ℕ → List A → A → Option (List A)
  push limit q x = if leb limit (length q) then none else some (q ++ x ∷ [])

  unfoldable pub pop : List A → Option (A × List A)
  pop [] = none
  pop (x ∷ q) = some (x, q)

-- What the answer of the abstract push says.
pub push-none :
    {A : Type 0} (limit : ℕ) (q : List A) (x : A)
    → push limit q x ≡ none
    → ltb (length q) limit ≡ false
unfolding push
push-none limit q x e = ground arith

pub push-some :
    {A : Type 0} (limit : ℕ) (q r : List A) (x : A)
    → push limit q x ≡ some r
    → (ltb (length q) limit ≡ true) × (r ≡ q ++ x ∷ [])
unfolding push
push-some limit q r x e = ground arith
