-- ===== src/Ring.antt =====
-- What the pointers of a linked list in a store spell: a list of different records.
pub mod Members
use kfs.Base.{
  ℕ, ◌≤◌, ◌≡◌, ◌≢◌, sym, true, false, ◌==◌, if◌then◌else◌, List, [], ◌∷◌, ◌++◌, arith, All, length,
}

-- Following `follow` from `head` one meets the addresses of the list, and then NULL.
unfoldable pub Linked : (ℕ → ℕ) → ℕ → List ℕ → Type 0
Linked follow head [] = head ≡ 0
Linked follow head (x ∷ xs) = (head ≡ x) × (x ≢ 0) × Linked follow (follow x) xs

unfoldable pub Distinct : List ℕ → Type 0
Distinct [] = Unit
Distinct (x ∷ xs) = All (λ y. x ≢ y) xs × Distinct xs

-- The list without the first occurrence of an address.
unfoldable pub remove : ℕ → List ℕ → List ℕ
remove a [] = []
remove a (x ∷ xs) = if x == a then xs else x ∷ remove a xs

-- A list does not see what happens elsewhere.
pub Linked-same :
    (f g : ℕ → ℕ) (xs : List ℕ) (head : ℕ)
    → All (λ y. g y ≡ f y) xs
    → Linked f head xs
    → Linked g head xs
unfolding Linked
Linked-same f g [] head same l = l
Linked-same f g (x ∷ xs) head (here, same) (e, nz, l) =
    (e, nz, rw here (Linked-same f g xs (f x) same l))

pub All-map : {P Q : ℕ → Type 0} (xs : List ℕ) → ((x : ℕ) → P x → Q x) → All P xs → All Q xs
All-map [] f a = tt
All-map (x ∷ xs) f (here, a) = (f x here, All-map xs f a)

pub All-both : (P Q : ℕ → Type 0) (xs : List ℕ) → All P xs → All Q xs → All (λ x. P x × Q x) xs
All-both P Q [] p q = tt
All-both P Q (x ∷ xs) (hp, p) (hq, q) = ((hp, hq), All-both P Q xs p q)

pub All-remove : (P : ℕ → Type 0) (a : ℕ) (xs : List ℕ) → All P xs → All P (remove a xs)
unfolding remove
All-remove P a [] h = tt
All-remove P a (x ∷ xs) (here, h) =
    elim (x == a) as (λ b. All P (if b then xs else x ∷ remove a xs)) [
      | true ↦ h
      | false ↦ (here, All-remove P a xs h)
    ]

pub remove-Distinct : (a : ℕ) (xs : List ℕ) → Distinct xs → Distinct (remove a xs)
unfolding remove Distinct
remove-Distinct a [] d = tt
remove-Distinct a (x ∷ xs) (here, d) =
    elim (x == a) as (λ b. Distinct (if b then xs else x ∷ remove a xs)) [
      | true ↦ d
      | false ↦ (All-remove _ a xs here, remove-Distinct a xs d)
    ]

pub length-remove : (a : ℕ) (xs : List ℕ) → length (remove a xs) ≤ length xs
unfolding remove
length-remove a [] = omega arith
length-remove a (x ∷ xs) = ground (arith, length-remove a xs)

-- The last address of a list, with its first in front.
unfoldable pub last_of : ℕ → List ℕ → ℕ
last_of x [] = x
last_of x (y ∷ ys) = last_of y ys

pub All-last_of : (P : ℕ → Type 0) (x : ℕ) (xs : List ℕ) → All P (x ∷ xs) → P (last_of x xs)
unfolding last_of
All-last_of P x [] (h, tt) = h
All-last_of P x (y ∷ ys) (h, hs) = All-last_of P y ys hs

-- In a list of different addresses, the others differ from each.
pub All-append : (P : ℕ → Type 0) (xs ys : List ℕ) → All P xs → All P ys → All P (xs ++ ys)
All-append P [] ys h hs = hs
All-append P (x ∷ xs) ys (h, hs) hy = (h, All-append P xs ys hs hy)

All-split : (P : ℕ → Type 0) (xs ys : List ℕ) (c : ℕ) → All P (xs ++ c ∷ ys) → P c
All-split P [] ys c (h, hs) = h
All-split P (x ∷ xs) ys c (h, hs) = All-split P xs ys c hs

pub Distinct-around :
    (before after : List ℕ) (c : ℕ)
    → Distinct (before ++ c ∷ after)
    → All (λ y. y ≢ c) before × All (λ y. y ≢ c) after
unfolding Distinct
Distinct-around [] after c (out, d) = (tt, All-map after (λ z ne e. ne (sym e)) out)
Distinct-around (b ∷ before) after c (out, d) =
    let (hb, ha) = Distinct-around before after c d in
    ((All-split (λ y. b ≢ y) before after c out, hb), ha)

-- The list in the order of the search, and back.
pub All-parts : (P : ℕ → Type 0) (xs ys : List ℕ) → All P (xs ++ ys) → All P xs × All P ys
All-parts P [] ys h = (tt, h)
All-parts P (x ∷ xs) ys (h, hs) = let (hx, hy) = All-parts P xs ys hs in ((h, hx), hy)

pub All-rotate :
    (P : ℕ → Type 0) (before after : List ℕ) (c : ℕ)
    → All P (before ++ c ∷ after)
    → All P (after ++ before ++ c ∷ [])
All-rotate P before after c h =
    let (hb, (hc, ha)) = All-parts P before (c ∷ after) h in
    All-append P (after ++ before) (c ∷ []) (All-append P after before ha hb) (hc, tt)

pub All-rotate_back :
    (P : ℕ → Type 0) (before after : List ℕ) (c : ℕ)
    → All P (after ++ before ++ c ∷ [])
    → All P (before ++ c ∷ after)
All-rotate_back P before after c h =
    let (hab, (hc, end)) = All-parts P (after ++ before) (c ∷ []) h in
    let (ha, hb) = All-parts P after before hab in All-append P before (c ∷ after) hb (hc, ha)

pub Linked-nonzero :
    (follow : ℕ → ℕ) (xs : List ℕ) (head : ℕ) → Linked follow head xs → All (λ x. x ≢ 0) xs
unfolding Linked
Linked-nonzero follow [] head l = tt
Linked-nonzero follow (x ∷ xs) head (e, nz, l) = (nz, Linked-nonzero follow xs (follow x) l)
