-- ===== src/Ring/Members.antt =====
-- Members of a list of addresses, and how many there can be.
use kfs.Base.{
  ℕ, zero, suc, ◌≤◌, ◌≡◌, ◌≢◌, refl, ap, subst, Bool, true, false, ◌==◌, if◌then◌else◌, List, [],
  ◌∷◌, ◌++◌, arith, All, length, ==_iff, Bool-cases, inl, inr,
}
use kfs.Ring.{Distinct, remove, remove-Distinct, All-map, All-both, All-remove}

-- Membership, as a test.
unfoldable pub member : ℕ → List ℕ → Bool
member a [] = false
member a (x ∷ xs) = let rest = member a xs in if x == a then true else rest

pub member-remove :
    (a b : ℕ) (xs : List ℕ) → a ≢ b → member a xs ≡ true → member a (remove b xs) ≡ true
unfolding member remove
member-remove a b [] ne h = h
member-remove a b (x ∷ xs) ne h = elim (Bool-cases (x == b)) [
  | inl e ↦ let other : (x == a) ≡ false = ground (arith, e) in rw e (rw other at h)
  | inr apart ↦ elim (Bool-cases (x == a)) [
    | inl here ↦ rw (apart, here) refl
    | inr on ↦ rw (apart, on) (member-remove a b xs ne (rw on at h))
  ]
]

pub member-append : (a : ℕ) (xs ys : List ℕ) → member a xs ≡ true → member a (xs ++ ys) ≡ true
unfolding member
member-append a [] ys h = absurd (ground (arith, h))
member-append a (x ∷ xs) ys h = elim (Bool-cases (x == a)) [
  | inl here ↦ rw here refl
  | inr on ↦ rw on (member-append a xs ys (rw on at h))
]

-- A member splits the list.
pub member-split :
    (a : ℕ) (xs : List ℕ)
    → member a xs ≡ true
    → (before : List ℕ) × (after : List ℕ) × (xs ≡ before ++ a ∷ after)
unfolding member
member-split a [] h = absurd (ground (arith, h))
member-split a (x ∷ xs) h = elim (Bool-cases (x == a)) [
  | inl here ↦ ([], xs, ap (λ y. y ∷ xs) ((==_iff x a).0 here))
  | inr on ↦
      let (before, after, e) = member-split a xs (rw on at h) in
      (x ∷ before, after, ap (λ ys. x ∷ ys) e)
]

pub remove_out : (a : ℕ) (xs : List ℕ) → Distinct xs → All (λ y. a ≢ y) (remove a xs)
unfolding remove Distinct
remove_out a [] d = tt
remove_out a (x ∷ xs) (out, d) = elim (Bool-cases (x == a)) [
  | inl e ↦ rw e (subst (λ z. All (λ y. z ≢ y) xs) ((==_iff x a).0 e) out)
  | inr apart ↦ rw apart (ground (arith, apart), remove_out a xs d)
]

length-remove_ge : (a : ℕ) (xs : List ℕ) → length xs ≤ suc (length (remove a xs))
unfolding remove
length-remove_ge a [] = omega arith
length-remove_ge a (x ∷ xs) = ground (arith, length-remove_ge a xs)

-- Different numbers from 1 to `n` are at most `n`.
pub length-Distinct :
    (n : ℕ) (xs : List ℕ) → Distinct xs → All (λ x. (x ≢ 0) × (x ≤ n)) xs → length xs ≤ n
length-Distinct zero [] d h = omega arith
length-Distinct zero (x ∷ xs) d ((nz, le), h) = absurd (nz (omega arith))
length-Distinct (suc n) xs d h =
    let left = remove (suc n) xs in
    let others = All-both _ _ left (remove_out (suc n) xs d) (All-remove _ (suc n) xs h) in
    let smaller : (x : ℕ) → (suc n ≢ x) × ((x ≢ 0) × (x ≤ suc n)) → (x ≢ 0) × (x ≤ n) =
      λ x r. (r.1.0, omega (arith, r.0, r.1.1)) in
    let fewer =
      length-Distinct n left (remove-Distinct (suc n) xs d) (All-map left smaller others) in
    omega (arith, fewer, length-remove_ge (suc n) xs)
