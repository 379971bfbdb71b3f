-- ===== src/Process/Table.antt =====
-- Writes to the process table.
use kfs.Base.{
  ℕ, ◌≡◌, ◌≢◌, refl, sym, ap, Bool, true, false, ◌&&◌, ◌||◌, arith, ◌==◌, if◌then◌else◌, Bool-cases,
  inl, inr, ==_iff,
}
use kfs.Process.{Process, Kernel, update, modify}

pub update_self : (m : ℕ → Process) (at : ℕ) (p : Process) → update m at p at ≡ p
update_self m at p = ground arith

pub update_other : (m : ℕ → Process) (at a : ℕ) (p : Process) → a ≢ at → update m at p a ≡ m a
update_other m at a p ne = ground arith

-- One record changes.
pub modify_lem :
    (k : Kernel) (at : ℕ) (f : Process → Process) (a : ℕ)
    → (modify k at f).process_table a
      ≡ (if a == at then f (k.process_table a) else k.process_table a)
modify_lem k at f a = elim (Bool-cases (a == at)) [
  | inl e ↦ rw e (ap (λ z. f (k.process_table z)) (sym ((==_iff a at).0 e)))
  | inr ne ↦ rw ne refl
]

pub and_true : (b : Bool) → (b && true) ≡ b
and_true true = refl
and_true false = refl

pub and_false : (b : Bool) → (b && false) ≡ false
and_false true = refl
and_false false = refl

pub ==_self : (a : ℕ) → (a == a) ≡ true
==_self a = ground arith

pub ==_apart : (a b : ℕ) → a ≢ b → (a == b) ≡ false
==_apart a b ne = ground arith

pub or_true : (b : Bool) → (b || true) ≡ true
or_true true = refl
or_true false = refl
