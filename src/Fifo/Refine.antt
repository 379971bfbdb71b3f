-- ===== src/Fifo/Refine.antt =====
-- A circular buffer of `cap` places implements the abstract queue of at most `cap - 1` entries.
use mathlib.Core.Option
use kfs.Base.{
  ℕ, ◌-◌, ◌≤◌, ◌<◌, ◌≡◌, refl, Bool, true, false, none, some, List, [], ◌∷◌, ◌++◌, arith, ◌==◌,
  ==_iff, if◌then◌else◌, Bool-cases, inl, inr, length, get_or, set,
}
use kfs.Base.Circular.{
  contents, contents-push, contents-pop, contents_empty, length-window, next_index, pending,
  pending_full, pending-lt,
}
use kfs.Fifo.{push, pop}

-- A test in front of a result can be made before or behind a map.
pub map_unless :
    {A B : Type 0} (f : A → B) (c : Bool) (a : A)
    → Option.map f (if c then none else some a) ≡ (if c then none else some (f a))
map_unless f true a = refl
map_unless f false a = refl

module _ {A : Type 0} (default : A) (cap : ℕ) (buf : List A) (head tail : ℕ) (hh : head < cap)
    (ht : tail < cap) where
  push_full :
      (q : List A) (x : A)
      → length q ≡ pending cap head tail
      → next_index cap tail ≡ head
      → push (cap - 1) q x ≡ none
  unfolding push
  push_full q x e full = ground (arith, pending_full cap head tail hh ht full)

  push_room :
      (q : List A) (x : A)
      → length q ≡ pending cap head tail
      → (next_index cap tail == head) ≡ false
      → push (cap - 1) q x ≡ some (q ++ x ∷ [])
  unfolding push
  push_room q x e room = ground (arith, pending-lt cap head tail hh ht (ground arith))

  pub circular_push :
      (x : A)
      → cap ≤ length buf
      → (if next_index cap tail == head
          then none
          else some (contents default cap (set buf tail x) head (next_index cap tail)))
        ≡ push (cap - 1) (contents default cap buf head tail) x
  circular_push x size = elim (Bool-cases (next_index cap tail == head)) [
    | inl full ↦ rw (
      full,
      push_full (contents default cap buf head tail) x (length-window default cap buf head _)
          ((==_iff _ _).0 full),
    )
    | inr room ↦ rw (
      room,
      push_room (contents default cap buf head tail) x (length-window default cap buf head _) room,
      contents-push default cap buf head tail x size hh ht (ground arith),
    )
  ]

  pub circular_pop :
      (if head == tail
        then none
        else some (get_or buf head default, contents default cap buf (next_index cap head) tail))
      ≡ pop (contents default cap buf head tail)
  unfolding pop
  circular_pop = elim (Bool-cases (head == tail)) [
    | inl empty ↦ rw (empty, ← (==_iff head tail).0 empty, contents_empty default cap buf head)
    | inr more ↦ rw (more, contents-pop default cap buf head tail hh ht (ground arith))
  ]
