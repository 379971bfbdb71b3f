-- ===== src/Shell/Compare.antt =====
-- The string comparisons of the shell answer 0 exactly for what is the same.
use kfs.Base.{
  ℕ, zero, suc, ◌<◌, ◌≡◌, ◌≢◌, refl, ap, ◌↔◌, arith, List, [], ◌∷◌, ◌==◌, ==_iff, Bool-cases, inl,
  inr, take, sub32,
}
use kfs.Shell.{first, strcmp, strncmp}

-- The bytes of a string are not 0, and below 256.
abbrev pub IsString : List ℕ → Type 0
IsString [] = Unit
IsString (c ∷ s) = (c ≢ 0) × (c < 256) × IsString s

head_eq : {c d : ℕ} {s t : List ℕ} → c ∷ s ≡ d ∷ t → (c ≡ d) × (s ≡ t)
head_eq {c} {d} {s} {t} e =
    let rest : List ℕ → List ℕ = λ l. elim l [ [] ↦ [] | x ∷ xs ↦ xs ] in (ap first e, ap rest e)

sub32_zero : (c d : ℕ) → c < 256 → d < 256 → sub32 c d ≡ 0 → c ≡ d
sub32_zero c d hc hd e = omega arith

-- `strcmp` of two strings is 0 exactly if they are equal.
pub strcmp_lem : (s t : List ℕ) → IsString s → IsString t → (strcmp s t ≡ 0) ↔ (s ≡ t)
unfolding strcmp
strcmp_lem [] [] hs ht = (λ e. refl, λ e. refl)
strcmp_lem [] (d ∷ t) hs (d0, d1, ht) = (λ e. absurd (d0 (omega arith)), λ e. cc e)
strcmp_lem (c ∷ s) [] (c0, c1, hs) ht = (λ e. absurd (c0 e), λ e. cc e)
strcmp_lem (c ∷ s) (d ∷ t) (c0, c1, hs) (d0, d1, ht) =
    let (to, from) = strcmp_lem s t hs ht in
    elim (Bool-cases (c == d)) [
      | inl e ↦
          let same : c ≡ d = (==_iff c d).0 e in
          rw e (λ z. cc (same, to z), λ q. from (head_eq q).1)
      | inr ne ↦
          let apart : c ≢ d = ground arith in
          rw ne (λ z. absurd (apart (sub32_zero c d c1 d1 z)), λ q. absurd (apart (head_eq q).0))
    ]

-- `strncmp` of two strings is 0 exactly if their first `n` bytes are equal.
pub strncmp_lem :
    (s t : List ℕ) (n : ℕ) → IsString s → IsString t → (strncmp s t n ≡ 0) ↔ (take n s ≡ take n t)
unfolding strncmp
strncmp_lem s t zero hs ht = (λ e. refl, λ e. refl)
strncmp_lem [] [] (suc n) hs ht = (λ e. refl, λ e. refl)
strncmp_lem [] (d ∷ t) (suc n) hs (d0, d1, ht) = (λ e. absurd (d0 (omega arith)), λ e. cc e)
strncmp_lem (c ∷ s) [] (suc n) (c0, c1, hs) ht = (λ e. absurd (c0 e), λ e. cc e)
strncmp_lem (c ∷ s) (d ∷ t) (suc n) (c0, c1, hs) (d0, d1, ht) =
    let (to, from) = strncmp_lem s t n hs ht in
    elim (Bool-cases (c == d)) [
      | inl e ↦
          let same : c ≡ d = (==_iff c d).0 e in
          rw e (λ z. cc (same, to z), λ q. from (head_eq q).1)
      | inr ne ↦
          let apart : c ≢ d = ground arith in
          rw ne (λ z. absurd (apart (sub32_zero c d c1 d1 z)), λ q. absurd (apart (head_eq q).0))
    ]
