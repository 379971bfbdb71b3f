-- ===== src/Paging/Identity.antt =====
-- The loop of `paging_identity_map` maps every page between its two ends to itself.
use kfs.Base.{ℕ, ◌<◌, ◌≡◌, ◌&&◌, leb, ltb, if◌then◌else◌}
use kfs.Pmm.{pmm_alloc_frame}
use kfs.Paging.{Paging, paging_get_physical_in_directory}
use kfs.Paging.Space.{IsSpace}

-- The current directory is well formed, and the allocator refuses a frame.
pub record Exhausted (directory : ℕ) (p : Paging) : Type 0 where
  pub current : p.current_directory ≡ directory
  pub space : IsSpace p directory
  pub no_frame : (pmm_alloc_frame p.pmm).0 ≡ 0

-- The addresses from `start` up to `end` lead to themselves, the others to where they led.
pub record Identity (p : Paging) (directory start end : ℕ) (q : Paging) : Type 0 where
  pub current : q.current_directory ≡ directory
  pub space : IsSpace q directory
  pub physical :
      (a : ℕ)
      → a < 0x1_0000_0000
      → paging_get_physical_in_directory q directory a
        ≡ (if leb start a && ltb a end then a else paging_get_physical_in_directory p directory a)
