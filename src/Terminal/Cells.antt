-- ===== src/Terminal/Cells.antt =====
-- What the loops over the cells of kernel/src/main.c leave behind.
use kfs.Base.{ℕ, zero, suc, ◌+◌, ◌<◌, ◌≡◌, ◌&&◌, ltb, leb, if◌then◌else◌, arith}
use kfs.Terminal.{put, copy_cells, shift_cells, fill_cells}

pub copy_cells_lem :
    (rounds : ℕ) (cells source : ℕ → ℕ) (offset i j : ℕ)
    → copy_cells rounds cells source offset i j
      ≡ (if leb i j && ltb j (i + rounds) then source (j + offset) else cells j)
unfolding copy_cells
copy_cells_lem zero cells source offset i j = ground arith
copy_cells_lem (suc rounds) cells source offset i j =
    let ih = copy_cells_lem rounds (put cells i (source (i + offset))) source offset (i + 1) j in
    ground (arith, ih)

pub fill_cells_lem :
    (rounds : ℕ) (cells : ℕ → ℕ) (cell i j : ℕ)
    → fill_cells rounds cells cell i j ≡ (if leb i j && ltb j (i + rounds) then cell else cells j)
unfolding fill_cells
fill_cells_lem zero cells cell i j = ground arith
fill_cells_lem (suc rounds) cells cell i j =
    let ih = fill_cells_lem rounds (put cells i cell) cell (i + 1) j in ground (arith, ih)

pub shift_cells_lem :
    (rounds : ℕ) (cells : ℕ → ℕ) (offset i j : ℕ)
    → 0 < offset
    → shift_cells rounds cells offset i j
      ≡ (if leb i j && ltb j (i + rounds) then cells (j + offset) else cells j)
unfolding shift_cells
shift_cells_lem zero cells offset i j given = ground arith
shift_cells_lem (suc rounds) cells offset i j given =
    let ih = shift_cells_lem rounds (put cells i (cells (i + offset))) offset (i + 1) j given in
    ground (arith, ih)
