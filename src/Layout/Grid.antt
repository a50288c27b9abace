-- ===== src/Layout/Grid.antt =====
-- `GridOccupancy` of src/ui/grid_occupancy.h, and the placing of widgets in src/ui/dashboard_grid.cpp.
-- A row is a bitset, as a function of the column.
pub mod Cells
pub mod Search
pub mod Tiles
use homedeck.Base.{
  ℕ, zero, suc, ◌+◌, ◌-◌, ◌*◌, ◌≤◌, ◌<◌, ◌≡◌, Bool, true, false, not, ◌&&◌, ◌||◌, Option, none,
  some, List, [], ◌∷◌, ◌++◌, ltb, leb, ◌==◌, if◌then◌else◌, length, get_elem?,
}
use homedeck.Base.Int.{ℤ, clamp}

abbrev pub Row : Type 0
Row = ℕ → Bool

abbrev pub empty_row : Row
empty_row c = false

abbrev pub max_row_span : ℕ
max_row_span = 100

pub record Placement : Type 0 where
  pub row : ℕ
  pub col : ℕ

-- `occupancy_[r][c]`, where the row is there.
abbrev pub taken : List Row → ℕ → ℕ → Bool
taken rows r c = elim (get_elem? rows r) [ none ↦ false | some bits ↦ bits c ]

-- `n` empty rows at the end.
unfoldable pub append_rows : ℕ → List Row → List Row
append_rows zero rows = rows
append_rows (suc n) rows = append_rows n (rows ++ (empty_row ∷ []))

unfoldable pub ensure_row_exists : ℕ → List Row → List Row
unfolding append_rows
ensure_row_exists row rows = append_rows (suc row - length rows) rows

-- The two loops over a rectangle, by what is left of it.
unfoldable pub cells_free : ℕ → Row → ℕ → Bool
cells_free zero bits c = true
cells_free (suc n) bits c = not (bits c) && cells_free n bits (suc c)

unfoldable pub row_free : List Row → ℕ → ℕ → ℕ → Bool
unfolding cells_free
row_free rows r col col_span = elim (get_elem? rows r) [
  | none ↦ true
  | some bits ↦ cells_free col_span bits col
]

unfoldable pub rows_free : ℕ → List Row → ℕ → ℕ → ℕ → Bool
unfolding row_free
rows_free zero rows r col col_span = true
rows_free (suc n) rows r col col_span =
    row_free rows r col col_span && rows_free n rows (suc r) col col_span

unfoldable pub set_cells : ℕ → Row → ℕ → Row
set_cells zero bits c = bits
set_cells (suc n) bits c = set_cells n (λ k. if k == c then true else bits k) (suc c)

unfoldable pub set_row : List Row → ℕ → ℕ → ℕ → List Row
unfolding set_cells
set_row [] r col col_span = []
set_row (bits ∷ rows) zero col col_span = set_cells col_span bits col ∷ rows
set_row (bits ∷ rows) (suc r) col col_span = bits ∷ set_row rows r col col_span

unfoldable pub set_rows : ℕ → List Row → ℕ → ℕ → ℕ → List Row
unfolding set_row
set_rows zero rows r col col_span = rows
set_rows (suc n) rows r col col_span = set_rows n (set_row rows r col col_span) (suc r) col col_span

module _ (columns : ℕ) where
  unfoldable pub fits : List Row → ℕ → ℕ → ℕ → ℕ → Bool
  unfolding rows_free
  fits rows row col col_span row_span =
      if ltb columns (col + col_span) then false else rows_free row_span rows row col col_span

  unfoldable pub mark_occupied : List Row → ℕ → ℕ → ℕ → ℕ → List Row
  unfolding ensure_row_exists set_rows
  mark_occupied rows row col col_span row_span =
      set_rows row_span (ensure_row_exists (row + row_span - 1) rows) row col col_span

  -- The `while` loop on fuel.
  unfoldable pub search_placement : ℕ → List Row → ℕ → ℕ → ℕ → ℕ → Option Placement
  unfolding fits
  search_placement zero rows row col col_span row_span = none
  search_placement (suc fuel) rows row col col_span row_span =
      let next =
        search_placement fuel rows (if leb columns (suc col) then suc row else row)
          (if leb columns (suc col) then 0 else suc col) col_span row_span in
      if fits rows row col col_span row_span then some (record { row = row; col = col }) else next

  -- At the row behind the last one everything is free: as many steps as there are cells, and one.
  unfoldable pub first_fit : List Row → ℕ → ℕ → Option Placement
  unfolding search_placement
  first_fit rows col_span row_span =
      search_placement (suc (length rows * columns)) rows 0 0 col_span row_span

  unfoldable pub clamp_col_span : ℤ → ℕ
  clamp_col_span col_span = clamp 1 columns col_span

  unfoldable pub clamp_row_span : ℤ → ℕ
  clamp_row_span row_span = clamp 1 max_row_span row_span

  unfoldable pub find_placement : List Row → ℤ → ℤ → Option Placement
  unfolding first_fit clamp_col_span clamp_row_span
  find_placement rows col_span row_span =
      first_fit rows (clamp_col_span col_span) (clamp_row_span row_span)
