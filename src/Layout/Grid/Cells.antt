-- ===== src/Layout/Grid/Cells.antt =====
-- What the loops over a rectangle read and write, cell by cell.
use homedeck.Base.{
  ℕ, zero, suc, ◌+◌, ◌-◌, ◌≤◌, ◌<◌, ◌≡◌, refl, ◌∙◌, ap, sym, Bool, true, false, ◌&&◌, ◌||◌, List,
  [], ◌∷◌, ◌++◌, ltb, leb, ◌==◌, if◌then◌else◌, length, arith, subst, Bool-cases, inl, inr,
  length-append, ==_iff, ◌↔◌,
}
use homedeck.Layout.Grid.{
  Row, empty_row, taken, append_rows, ensure_row_exists, cells_free, row_free, rows_free, set_cells,
  set_row, set_rows, fits, mark_occupied,
}

-- The cell lies in the rectangle.
abbrev pub inside : ℕ → ℕ → ℕ → ℕ → ℕ → ℕ → Bool
inside row col col_span row_span r c =
    leb row r && ltb r (row + row_span) && leb col c && ltb c (col + col_span)

set_cells_lem :
    (n : ℕ) (bits : Row) (c k : ℕ) → set_cells n bits c k ≡ (leb c k && ltb k (c + n) || bits k)
unfolding set_cells
set_cells_lem zero bits c k = ground arith
set_cells_lem (suc n) bits c k =
    set_cells_lem n (λ j. if j == c then true else bits j) (suc c) k ∙ ground arith

length-set_row :
    (rows : List Row) (r col col_span : ℕ) → length (set_row rows r col col_span) ≡ length rows
unfolding set_row
length-set_row [] r col col_span = refl
length-set_row (b ∷ rows) zero col col_span = refl
length-set_row (b ∷ rows) (suc r) col col_span = ap suc (length-set_row rows r col col_span)

taken-set_row :
    (rows : List Row) (r col col_span r' c : ℕ)
    → r < length rows
    → taken (set_row rows r col col_span) r' c
      ≡ (r' == r && leb col c && ltb c (col + col_span) || taken rows r' c)
unfolding set_row
taken-set_row [] r col col_span r' c h = absurd (omega (arith, h))
taken-set_row (b ∷ rows) zero col col_span zero c h = set_cells_lem col_span b col c ∙ ground arith
taken-set_row (b ∷ rows) zero col col_span (suc r') c h = ground arith
taken-set_row (b ∷ rows) (suc r) col col_span zero c h = ground arith
taken-set_row (b ∷ rows) (suc r) col col_span (suc r') c h =
    taken-set_row rows r col col_span r' c (omega (arith, h)) ∙ ground arith

taken-set_rows :
    (n : ℕ) (rows : List Row) (r col col_span r' c : ℕ)
    → r + n ≤ length rows
    → taken (set_rows n rows r col col_span) r' c
      ≡ (inside r col col_span n r' c || taken rows r' c)
unfolding set_rows
taken-set_rows zero rows r col col_span r' c h = ground arith
taken-set_rows (suc n) rows r col col_span r' c h =
    taken-set_rows n (set_row rows r col col_span) (suc r) col col_span r' c
      (omega (arith, h, length-set_row rows r col col_span))
    ∙ ap (λ t. inside (suc r) col col_span n r' c || t)
        (taken-set_row rows r col col_span r' c (omega (arith, h)))
    ∙ ground arith

get_elem?-append :
    (rows : List Row) (r c : ℕ) → taken (rows ++ (empty_row ∷ [])) r c ≡ taken rows r c
get_elem?-append [] zero c = refl
get_elem?-append [] (suc r) c = refl
get_elem?-append (b ∷ rows) zero c = refl
get_elem?-append (b ∷ rows) (suc r) c = get_elem?-append rows r c

taken-append_rows :
    (n : ℕ) (rows : List Row) (r c : ℕ) → taken (append_rows n rows) r c ≡ taken rows r c
unfolding append_rows
taken-append_rows zero rows r c = refl
taken-append_rows (suc n) rows r c =
    taken-append_rows n (rows ++ (empty_row ∷ [])) r c ∙ get_elem?-append rows r c

pub length-append_rows : (n : ℕ) (rows : List Row) → length (append_rows n rows) ≡ length rows + n
unfolding append_rows
length-append_rows zero rows = omega arith
length-append_rows (suc n) rows =
    omega
      (arith, length-append_rows n (rows ++ (empty_row ∷ [])), length-append rows (empty_row ∷ []))

-- Marking takes the cells of the rectangle, and leaves every other cell as it was.
pub taken-mark_occupied :
    (columns : ℕ) (rows : List Row) (row col col_span row_span r c : ℕ)
    → taken (mark_occupied columns rows row col col_span row_span) r c
      ≡ (inside row col col_span row_span r c || taken rows r c)
unfolding mark_occupied ensure_row_exists
taken-mark_occupied columns rows row col col_span row_span r c =
    let rows' = append_rows (suc (row + row_span - 1) - length rows) rows in
    taken-set_rows row_span rows' row col col_span r c
      (omega (arith, length-append_rows (suc (row + row_span - 1) - length rows) rows))
    ∙ ap (λ t. inside row col col_span row_span r c || t)
        (taken-append_rows (suc (row + row_span - 1) - length rows) rows r c)

cells_free_lem :
    (n : ℕ) (bits : Row) (c : ℕ)
    → cells_free n bits c ≡ true
    → (k : ℕ) → c ≤ k
    → k < c + n
    → bits k ≡ false
unfolding cells_free
cells_free_lem zero bits c h k lo hi = absurd (omega (arith, lo, hi))
cells_free_lem (suc n) bits c h k lo hi = elim (Bool-cases (k == c)) [
  | inl e ↦ ap bits ((==_iff k c).0 e) ∙ ground arith
  | inr e ↦ cells_free_lem n bits (suc c) (ground arith) k (ground (arith, e)) (omega (arith, hi))
]

cells_free_conv :
    (n : ℕ) (bits : Row) (c : ℕ)
    → ((k : ℕ) → c ≤ k → k < c + n → bits k ≡ false)
    → cells_free n bits c ≡ true
unfolding cells_free
cells_free_conv zero bits c h = refl
cells_free_conv (suc n) bits c h = ground (
  arith,
  h c (omega arith) (omega arith),
  cells_free_conv n bits (suc c) (λ k lo hi. h k (omega (arith, lo)) (omega (arith, hi))),
)

-- The cells of one row of a rectangle.
abbrev FreeRow : List Row → ℕ → ℕ → ℕ → Type 0
FreeRow rows r col col_span = (k : ℕ) → col ≤ k → k < col + col_span → taken rows r k ≡ false

row_free_iff :
    (rows : List Row) (r col col_span : ℕ)
    → (row_free rows r col col_span ≡ true) ↔ FreeRow rows r col col_span
unfolding row_free
row_free_iff [] zero col col_span = (λ e k lo hi. refl, λ h. refl)
row_free_iff [] (suc r) col col_span = (λ e k lo hi. refl, λ h. refl)
row_free_iff (b ∷ rows) zero col col_span =
    (cells_free_lem col_span b col, cells_free_conv col_span b col)
row_free_iff (b ∷ rows) (suc r) col col_span = row_free_iff rows r col col_span

-- Every cell of the rectangle is free.
abbrev pub FreeRect : List Row → ℕ → ℕ → ℕ → ℕ → Type 0
FreeRect rows row col col_span row_span =
    (r : ℕ)
    → row ≤ r
    → r < row + row_span
    → (k : ℕ) → col ≤ k
    → k < col + col_span
    → taken rows r k ≡ false

rows_free_lem :
    (n : ℕ) (rows : List Row) (row col col_span : ℕ)
    → rows_free n rows row col col_span ≡ true
    → FreeRect rows row col col_span n
unfolding rows_free
rows_free_lem zero rows row col col_span e r lo hi = absurd (omega (arith, lo, hi))
rows_free_lem (suc n) rows row col col_span e r lo hi = elim (Bool-cases (r == row)) [
  | inl same ↦
      subst (λ r'. FreeRow rows r' col col_span) (sym ((==_iff r row).0 same))
        ((row_free_iff rows row col col_span).0 (ground arith))
  | inr other ↦
      rows_free_lem n rows (suc row) col col_span (ground arith) r (ground (arith, other))
        (omega (arith, hi))
]

rows_free_conv :
    (n : ℕ) (rows : List Row) (row col col_span : ℕ)
    → FreeRect rows row col col_span n
    → rows_free n rows row col col_span ≡ true
unfolding rows_free
rows_free_conv zero rows row col col_span h = refl
rows_free_conv (suc n) rows row col col_span h = ground (
  arith,
  (row_free_iff rows row col col_span).1 (h row (omega arith) (omega arith)),
  rows_free_conv n rows (suc row) col col_span
      (λ r lo hi. h r (omega (arith, lo)) (omega (arith, hi))),
)

-- The test of the code says that a rectangle lies within the columns and is free in every cell.
pub fits_iff :
    (columns : ℕ) (rows : List Row) (row col col_span row_span : ℕ)
    → (fits columns rows row col col_span row_span ≡ true)
      ↔ ((col + col_span ≤ columns) × FreeRect rows row col col_span row_span)
unfolding fits
fits_iff columns rows row col col_span row_span = (
  λ e. (ground arith, rows_free_lem row_span rows row col col_span (ground arith)),
  λ h. ground (arith, h.0, rows_free_conv row_span rows row col col_span h.1),
)

-- Behind the last row everything is free.
pub beyond : (rows : List Row) (r k : ℕ) → length rows ≤ r → taken rows r k ≡ false
beyond [] zero k h = refl
beyond [] (suc r) k h = refl
beyond (b ∷ rows) zero k h = absurd (omega (arith, h))
beyond (b ∷ rows) (suc r) k h = beyond rows r k (omega (arith, h))
