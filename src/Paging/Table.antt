-- ===== src/Paging/Table.antt =====
-- The table that `paging_get_or_create_table` finds or makes: the processor sees the same pages
-- before and after.
use kfs.Base.{
  ℕ, ◌*◌, ◌/◌, ◌<◌, ◌≡◌, refl, sym, ap, ◌∙◌, inl, inr, true, arith, ◌==◌, ==_iff, if◌then◌else◌,
  Bool-cases,
}
use kfs.Paging.{Paging, is_present, add_user, entry_at, page_frame, write}
use kfs.Paging.Space.{IsSpace, entry, page_entry, view, write_apart, write_same}

pub add_user_lem :
    (flags e : ℕ)
    → (add_user flags e / 4096 ≡ e / 4096) × (is_present (add_user flags e) ≡ is_present e)
add_user_lem flags e = (ground arith, ground arith)

-- What `paging_get_or_create_table` has done: the table of the address is there, and the processor
-- sees what it saw before.
pub record Ready (p : Paging) (directory k : ℕ) (table : ℕ) (q : Paging) : Type 0 where
  pub space : IsSpace q directory
  pub there : is_present (entry q directory k) ≡ true
  pub frame : page_frame (entry q directory k) ≡ table
  pub same_view : (i j : ℕ) → i < 1024 → j < 1024 → view q directory i j ≡ view p directory i j
  pub same_current : q.current_directory ≡ p.current_directory

-- Two states with the same page contents, at entries that agree on their frames.
pub view_eq :
    (p q : Paging) (directory i j : ℕ)
    → is_present (entry q directory i) ≡ is_present (entry p directory i)
    → entry q directory i / 4096 ≡ entry p directory i / 4096
    → (is_present (entry p directory i) ≡ true
        → page_entry q (entry p directory i) j ≡ page_entry p (entry p directory i) j)
    → view q directory i j ≡ view p directory i j
view_eq p q directory i j on frame same = elim (Bool-cases (is_present (entry p directory i))) [
  | inl here ↦ rw (on, here) (ap (λ n. q.memory (entry_at (n * 4096) j)) frame ∙ same here)
  | inr absent ↦ rw (on, absent)
]

module _ {p : Paging} {directory : ℕ} (v : IsSpace p directory) (k flags : ℕ) (hk : k < 1024) where
  -- The directory's entry at `k` written anew, with its frame kept.
  module _ (word : ℕ)
      (keeps : (word / 4096 ≡ entry p directory k / 4096)
        × (is_present word ≡ is_present (entry p directory k))) where
    unfoldable pub rewritten : Paging
    rewritten = record p { memory = write p.memory (entry_at directory k) word }

    entry-rewritten :
        (i : ℕ) → entry rewritten directory i ≡ (if i == k then word else entry p directory i)
    unfolding rewritten
    entry-rewritten i = write_same p.memory directory k word i

    rewritten_frame :
        (i : ℕ)
        → (entry rewritten directory i / 4096 ≡ entry p directory i / 4096)
          × (is_present (entry rewritten directory i) ≡ is_present (entry p directory i))
    rewritten_frame i = elim (Bool-cases (i == k)) [
      | inl e ↦ rw (entry-rewritten i, e, (==_iff i k).0 e) keeps
      | inr ne ↦ rw (entry-rewritten i, ne) (refl, refl)
    ]

    rewritten_page :
        (i j : ℕ)
        → i < 1024
        → j < 1024
        → is_present (entry p directory i) ≡ true
        → page_entry rewritten (entry p directory i) j ≡ page_entry p (entry p directory i) j
    unfolding rewritten
    rewritten_page i j hi hj on =
        write_apart p.memory directory k word (page_frame (entry p directory i)) j v.aligned
          (omega arith) hk hj (λ e. v.tables_apart i hi on (omega arith))

    pub rewritten-Ready :
        is_present (entry p directory k) ≡ true
        → Ready p directory k (page_frame (entry p directory k)) rewritten
    unfolding rewritten
    rewritten-Ready on =
        let here : (i : ℕ)
            → is_present (entry rewritten directory i) ≡ true
            → is_present (entry p directory i) ≡ true =
          λ i at. sym (rewritten_frame i).1 ∙ at in
        record {
          space = record {
            frames = v.frames;
            aligned = v.aligned;
            exists = v.exists;
            used = v.used;
            tables_used = λ i hi at. rw ((rewritten_frame i).0) (v.tables_used i hi (here i at));
            tables_apart = λ i hi at. rw ((rewritten_frame i).0) (v.tables_apart i hi (here i at));
            tables_distinct = λ i j hi hj ij ati atj.
                rw ((rewritten_frame i).0, (rewritten_frame j).0)
                  (v.tables_distinct i j hi hj ij (here i ati) (here j atj));
          };
          there = (rewritten_frame k).1 ∙ on;
          frame = ap (λ n. n * 4096) (rewritten_frame k).0;
          same_view = λ i j hi hj.
              view_eq p rewritten directory i j (rewritten_frame i).1 (rewritten_frame i).0
                (rewritten_page i j hi hj);
          same_current = refl;
        }
