-- ===== src/Base/Circular.antt =====
-- Circular buffers as the kernel keeps them: an array of `cap` entries, the index `head` of the
-- oldest entry and the index `tail` of the next free place. One place stays empty, so equal
-- indices mean that the buffer is empty.
use kfs.Base.{
  ℕ, zero, suc, ◌+◌, ◌-◌, ◌≤◌, ◌<◌, ◌≡◌, refl, ap, ◌≢◌, List, [], ◌∷◌, ◌++◌, arith, leb, ◌==◌,
  if◌then◌else◌, length, get_or, set, get_or-set_self, get_or-set_ne,
}

-- The index after `i`, and the one `n` places after it.
abbrev pub next_index : ℕ → ℕ → ℕ
next_index cap i = if i + 1 == cap then 0 else i + 1

abbrev pub wrap_index : ℕ → ℕ → ℕ
wrap_index cap i = if leb cap i then i - cap else i

-- The number of entries between two indices.
abbrev pub pending : ℕ → ℕ → ℕ → ℕ
pending cap head tail = if leb head tail then tail - head else cap - head + tail

module _ {ℓ} {A : Type ℓ} (default : A) (cap : ℕ) where
  -- The `n` entries from index `i` on, oldest first.
  unfoldable pub window : List A → ℕ → ℕ → List A
  window buf i zero = []
  window buf i (suc n) = get_or buf i default ∷ window buf (next_index cap i) n

  -- What the buffer holds.
  abbrev pub contents : List A → ℕ → ℕ → List A
  contents buf head tail = window buf head (pending cap head tail)

  pub length-window : (buf : List A) (i n : ℕ) → length (window buf i n) ≡ n
  unfolding window
  length-window buf i zero = refl
  length-window buf i (suc n) = ap suc (length-window buf (next_index cap i) n)

  -- A write behind a window extends it by the new entry.
  window-set :
      (buf : List A) (i n at : ℕ) (x : A)
      → cap ≤ length buf
      → i < cap
      → n < cap
      → at ≡ wrap_index cap (i + n)
      → window (set buf at x) i (suc n) ≡ window buf i n ++ x ∷ []
  unfolding window
  window-set buf i zero at x size hi hn e =
      let here : at ≡ i = ground arith in rw (here, get_or-set_self buf i x default (omega arith))
  window-set buf i (suc n) at x size hi hn e =
      let other : at ≢ i = ground arith in
      let shift : at ≡ wrap_index cap (next_index cap i + n) = ground arith in
      let inside : next_index cap i < cap = ground arith in
      rw (
        get_or-set_ne buf at i x default other,
        window-set buf (next_index cap i) n at x size inside (omega arith) shift,
      )

  -- Writing at `tail` and moving it on adds the entry at the end, unless the buffer is full.
  pub contents-push :
      (buf : List A) (head tail : ℕ) (x : A)
      → cap ≤ length buf
      → head < cap
      → tail < cap
      → next_index cap tail ≢ head
      → contents (set buf tail x) head (next_index cap tail) ≡ contents buf head tail ++ x ∷ []
  contents-push buf head tail x size hh ht room =
      let grown : pending cap head (next_index cap tail) ≡ suc (pending cap head tail) =
        ground arith in
      let place : tail ≡ wrap_index cap (head + pending cap head tail) = ground arith in
      let short : pending cap head tail < cap = ground arith in
      rw grown (window-set buf head (pending cap head tail) tail x size hh short place)

  -- Moving `head` on takes off the oldest entry, unless the buffer is empty.
  pub contents-pop :
      (buf : List A) (head tail : ℕ)
      → head < cap
      → tail < cap
      → head ≢ tail
      → contents buf head tail ≡ get_or buf head default ∷ contents buf (next_index cap head) tail
  unfolding window
  contents-pop buf head tail hh ht some_left =
      let shrunk : pending cap head tail ≡ suc (pending cap (next_index cap head) tail) =
        ground arith in
      rw shrunk

  pub contents_empty : (buf : List A) (head : ℕ) → contents buf head head ≡ []
  unfolding window
  contents_empty buf head = let e : pending cap head head ≡ 0 = ground arith in rw e

-- The buffer is full exactly when the index after `tail` is `head`, and then it holds one entry
-- less than its size; it is empty exactly when the indices are equal.
pub pending_full :
    (cap head tail : ℕ)
    → head < cap
    → tail < cap
    → next_index cap tail ≡ head
    → suc (pending cap head tail) ≡ cap
pending_full cap head tail hh ht e = ground arith

pub pending-lt :
    (cap head tail : ℕ)
    → head < cap
    → tail < cap
    → next_index cap tail ≢ head
    → suc (pending cap head tail) < cap
pending-lt cap head tail hh ht e = ground arith
