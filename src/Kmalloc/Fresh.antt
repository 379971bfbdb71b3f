-- ===== src/Kmalloc/Fresh.antt =====
-- What holds of a payload that `kmalloc` hands out.
use kfs.Base.{
  ℕ, ◌+◌, ◌≤◌, ◌<◌, ◌≡◌, ◌≢◌, sym, ap, ◌∙◌, inl, inr, false, arith, Option, none, some, List, [],
  ◌∷◌, ◌++◌, length, subst,
}
use kfs.Kmalloc.{Heap, header_size, request, kmalloc, ksize}
use kfs.Kmalloc.Chain.{Piece}
use kfs.Kmalloc.Moves.{first_fit}
use kfs.Kmalloc.Alloc.{IsHeap, serve}
use kfs.Kmalloc.Outcome.{Reused, Grown, new_piece, request_lem, kmalloc_lem}
use kfs.Kmalloc.Free.{block_at}
use kfs.Kmalloc.Kfree.{ksize_lem}
use kfs.Kmalloc.Keep.{
  block_at-ge, serve_keeps, serve_gives, first_fit_free, append_keeps, append_gives,
}

same_result :
    {a b : ℕ} {g k : Heap}
    → ◌≡◌ {A = Option (ℕ × Heap)} (some (a, g)) (some (b, k))
    → (a ≡ b) × (g ≡ k)
same_result {a} {g = g} e =
    let first : Option (ℕ × Heap) → ℕ = λ r. elim r [ none ↦ a | some (n, k) ↦ n ] in
    let second : Option (ℕ × Heap) → Heap = λ r. elim r [ none ↦ g | some (n, k) ↦ k ] in
    (ap first e, ap second e)

-- What holds of a payload that `kmalloc` hands out.
pub record Fresh (h : Heap) (bs : List Piece) (size ptr : ℕ) (g : Heap) : Type 0 where
  pub blocks : List Piece
  pub valid : IsHeap g blocks
  pub enough : size ≤ ksize g ptr
  pub keeps :
      (address : ℕ) (x : Piece)
      → block_at address h.heap_start bs ≡ some x
      → x.free ≡ false
      → (block_at address g.heap_start blocks ≡ some x) × (address + header_size ≢ ptr)

module _ {h : Heap} {bs : List Piece} (v : IsHeap h bs) (size : ℕ)
    (small : size < 0x0FFF_0000) where
  Reused-Fresh :
      {r : Option (ℕ × Heap)} (u : Reused h bs (request size) r)
      → Fresh h bs size (first_fit (request size) h.heap_start bs + header_size) u.heap
  Reused-Fresh u =
      let block = first_fit (request size) h.heap_start bs in
      let after = serve (request size) bs in
      let (y, there, used, large) = serve_gives (request size) bs h.heap_start u.found in
      let at_start : (a : ℕ) → block_at a u.heap.heap_start after ≡ block_at a h.heap_start after =
        λ a. ap (λ s. block_at a s after) u.same_start in
      record {
        blocks = after;
        valid = u.valid;
        enough = omega (
          arith,
          large,
          ksize_lem u.valid block y (at_start block ∙ there),
          (request_lem size small).0,
        );
        keeps = λ a x found live. (
          at_start a ∙ serve_keeps (request size) a bs h.heap_start x found live,
          λ e.
              let same : a ≡ block = omega arith in
              cc (
                live,
                first_fit_free (request size) bs h.heap_start x u.found
                    (ap (λ n. block_at n h.heap_start bs) (sym same) ∙ found),
              ),
        );
      }

  Grown-Fresh :
      {r : Option (ℕ × Heap)} (u : Grown h bs (request size) r)
      → Fresh h bs size (h.heap_end + header_size) u.heap
  Grown-Fresh u =
      let w = new_piece (request size) in
      let after = bs ++ (w ∷ []) in
      let at_start : (a : ℕ) → block_at a u.heap.heap_start after ≡ block_at a h.heap_start after =
        λ a. ap (λ s. block_at a s after) u.same_start in
      let there : block_at h.heap_end h.heap_start after ≡ some w =
        ap (λ n. block_at n h.heap_start after) v.end ∙ append_gives bs h.heap_start w in
      record {
        blocks = after;
        valid = u.valid;
        enough = omega (
          arith,
          ksize_lem u.valid h.heap_end w (at_start h.heap_end ∙ there),
          (request_lem size small).0,
        );
        keeps = λ a x found live. (
          at_start a ∙ append_keeps a bs h.heap_start x w found,
          λ e. omega (arith, e, (block_at-ge a bs h.heap_start x found).1, v.end),
        );
      }

  -- A payload that `kmalloc`, with more fuel than blocks, hands out for a size from 1 up to
  -- 0x0FFEFFFF on a heap whose blocks lie side by side has at least the size asked for, is none of
  -- those in use, and these stay the blocks they were.
  pub kmalloc-Fresh :
      (fuel ptr : ℕ) (g : Heap)
      → length bs < fuel
      → size ≢ 0
      → kmalloc fuel h size ≡ some (ptr, g)
      → ptr ≢ 0
      → Fresh h bs size ptr g
  kmalloc-Fresh fuel ptr g short nonzero e given =
      elim (kmalloc_lem v fuel size short nonzero small) [
        | inl u ↦ move (same_result (sym u.result ∙ e)) (Reused-Fresh u)
        | inr (inl u) ↦ move (same_result (sym u.result ∙ e)) (Grown-Fresh u)
        | inr (inr u) ↦ absurd (given (sym (same_result (sym u.result ∙ e)).0))
      ]
    where
      move : {a : ℕ} {k : Heap} → (a ≡ ptr) × (k ≡ g) → Fresh h bs size a k → Fresh h bs size ptr g
      move {a} {k} (p, q) f =
          subst (λ n. Fresh h bs size n g) p (subst (λ k'. Fresh h bs size a k') q f)
