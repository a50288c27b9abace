-- ===== src/Layout/Grid/Search.antt =====
-- The search of a placement ends, at the first position where the rectangle fits.
use homedeck.Base.{
  ℕ, zero, suc, ◌+◌, ◌-◌, ◌*◌, ◌≤◌, ◌<◌, ◌≡◌, ◌∙◌, sym, Bool, true, false, Option, some, List, ltb,
  length, arith, Bool-cases, inl, inr, ◌⊎◌, subst,
}
use mathlib.Core.Bool.{true≢false}
use homedeck.Layout.Grid.{
  Row, Placement, fits, search_placement, first_fit, find_placement, clamp_col_span, clamp_row_span,
}
use homedeck.Base.Int.{ℤ, pos, negsuc}
use homedeck.Layout.Grid.Cells.{FreeRect, fits_iff, beyond}

not_before : (r c : ℕ) → (r < 0) ⊎ ((r ≡ 0) × (c < 0)) → ⊥
not_before r c (inl h) = omega (arith, h)
not_before r c (inr (e, h)) = omega (arith, h)

module _ (columns : ℕ) (rows : List Row) (col_span row_span : ℕ) where
  abbrev fits_at : ℕ → ℕ → Bool
  fits_at r c = fits columns rows r c col_span row_span

  -- Nothing fits at a position before this one, in reading order.
  abbrev pub NoneBefore : ℕ → ℕ → Type 0
  NoneBefore row col =
      (r c : ℕ) → c < columns → (r < row) ⊎ ((r ≡ row) × (c < col)) → fits_at r c ≡ false

  -- A placement was found, and it is the first.
  abbrev pub Found : Option Placement → Type 0
  Found p =
      (row : ℕ) × (col : ℕ) × (p ≡ some (record { row = row; col = col }))
      × (fits_at row col ≡ true)
      × NoneBefore row col

  same_cell : (row col r c : ℕ) → r ≡ row → c ≡ col → fits_at row col ≡ false → fits_at r c ≡ false
  same_cell row col r c e e' h = rw (e, e') h

  step_before :
      (row col : ℕ) → NoneBefore row col → fits_at row col ≡ false → NoneBefore row (suc col)
  step_before row col none_before here r c inside (inl above) = none_before r c inside (inl above)
  step_before row col none_before here r c inside (inr (e, left)) = elim (Bool-cases (ltb c col)) [
    | inl before ↦ none_before r c inside (inr (e, ground (arith, before)))
    | inr at ↦ same_cell row col r c e (ground (arith, at, left)) here
  ]

  next_row : (row col : ℕ) → columns ≤ col → NoneBefore row col → NoneBefore (suc row) 0
  next_row row col h none_before r c inside (inl above) = elim (Bool-cases (ltb r row)) [
    | inl before ↦ none_before r c inside (inl (ground (arith, before)))
    | inr at ↦ none_before r c inside (inr (ground (arith, at, above), omega (arith, h, inside)))
  ]
  next_row row col h none_before r c inside (inr (e, left)) = absurd (omega (arith, left))

  search_found :
      (f row col : ℕ)
      → fits_at row col ≡ true
      → search_placement columns (suc f) rows row col col_span row_span
        ≡ some (record { row = row; col = col })
  unfolding search_placement
  search_found f row col e = rw e

  search_next :
      (f row col : ℕ)
      → fits_at row col ≡ false
      → suc col < columns
      → search_placement columns (suc f) rows row col col_span row_span
        ≡ search_placement columns f rows row (suc col) col_span row_span
  unfolding search_placement
  search_next f row col e h = ground (arith, e, h)

  search_wrap :
      (f row col : ℕ)
      → fits_at row col ≡ false
      → columns ≤ suc col
      → search_placement columns (suc f) rows row col col_span row_span
        ≡ search_placement columns f rows (suc row) 0 col_span row_span
  unfolding search_placement
  search_wrap f row col e h = ground (arith, e, h)

  -- From a column to the end of its row, where `n` columns are left behind this one.
  row_scan :
      (n fuel row col : ℕ)
      → col + suc n ≡ columns
      → NoneBefore row col
      → ((f : ℕ)
          → fuel ≤ f
          → NoneBefore (suc row) 0
          → Found (search_placement columns f rows (suc row) 0 col_span row_span))
      → (f : ℕ) → fuel + suc n ≤ f
      → Found (search_placement columns f rows row col col_span row_span)
  row_scan n fuel row col e before next zero h = absurd (omega (arith, h))
  row_scan zero fuel row col e before next (suc f) h = elim (Bool-cases (fits_at row col)) [
    | inl here ↦ (row, col, search_found f row col here, here, before)
    | inr no_fit ↦ subst Found (sym (search_wrap f row col no_fit (omega (arith, e)))) (
        next f (omega (arith, h))
          (next_row row (suc col) (omega (arith, e)) (step_before row col before no_fit)))
  ]
  row_scan (suc n) fuel row col e before next (suc f) h = elim (Bool-cases (fits_at row col)) [
    | inl here ↦ (row, col, search_found f row col here, here, before)
    | inr no_fit ↦ subst Found (sym (search_next f row col no_fit (omega (arith, e)))) (
        row_scan n fuel row (suc col) (omega (arith, e)) (step_before row col before no_fit) next f
          (omega (arith, h)))
  ]

  rows_scan :
      (k row : ℕ)
      → row + k ≡ length rows
      → 0 < columns
      → col_span ≤ columns
      → NoneBefore row 0
      → (f : ℕ) → k * columns + 1 ≤ f
      → Found (search_placement columns f rows row 0 col_span row_span)
  rows_scan k row e pos_columns narrow before zero h = absurd (omega (arith, h))
  rows_scan zero row e pos_columns narrow before (suc f) h =
      let here =
        (fits_iff columns rows row 0 col_span row_span).1
          (omega (arith, narrow), λ r lo hi c lo' hi'. beyond rows r c (omega (arith, e, lo))) in
      (row, 0, search_found f row 0 here, here, before)
  rows_scan (suc k) row e pos_columns narrow before (suc f) h =
      row_scan (columns - 1) (k * columns + 1) row 0 (omega (arith, pos_columns)) before
        (λ f' h' before'. rows_scan k (suc row) (omega (arith, e)) pos_columns narrow before' f' h')
        (suc f) (grind (arith, h, pos_columns))

  found : 0 < columns → col_span ≤ columns → Found (first_fit columns rows col_span row_span)
  unfolding first_fit
  found pos_columns narrow =
      rows_scan (length rows) 0 (omega arith) pos_columns narrow
        (λ r c inside before. absurd (not_before r c before)) (suc (length rows * columns))
        (omega arith)

  -- The rectangle would lie within the columns and cover free cells alone.
  abbrev pub Possible : ℕ → ℕ → Type 0
  Possible row col = (col + col_span ≤ columns) × FreeRect rows row col col_span row_span

  first_fit_first :
      0 < columns
      → col_span ≤ columns
      → (row : ℕ) × (col : ℕ) × (first_fit columns rows col_span row_span
          ≡ some (record { row = row; col = col }))
        × Possible row col
        × ((r c : ℕ) → c < columns → (r < row) ⊎ ((r ≡ row) × (c < col)) → ¬ Possible r c)
  first_fit_first pos_columns narrow =
      let (row, col, e, fit, before) = found pos_columns narrow in
      (
        row,
        col,
        e,
        (fits_iff columns rows row col col_span row_span).0 fit,
        λ r c inside earlier possible. true≢false (
            sym ((fits_iff columns rows r c col_span row_span).1 possible)
            ∙ before r c inside earlier),
      )

clamp_le : (columns : ℕ) (z : ℤ) → 0 < columns → clamp_col_span columns z ≤ columns
unfolding clamp_col_span
clamp_le columns (pos n) h = ground arith
clamp_le columns (negsuc n) h = ground arith

-- The search of `FindPlacement` ends, whatever span is asked for, and its result is the first
-- position in reading order at which the clamped rectangle lies within the columns and covers free
-- cells alone. There is a column.
pub find_placement_first :
    (columns : ℕ) (rows : List Row) (column_span row_span : ℤ)
    → 0 < columns
    → let cs = clamp_col_span columns column_span in
      let rs = clamp_row_span columns row_span in
      (row : ℕ) × (col : ℕ) × (find_placement columns rows column_span row_span
        ≡ some (record { row = row; col = col }))
      × Possible columns rows cs rs row col
      × ((r c : ℕ)
          → c < columns
          → (r < row) ⊎ ((r ≡ row) × (c < col))
          → ¬ Possible columns rows cs rs r c)
unfolding find_placement
find_placement_first columns rows column_span row_span pos_columns =
    first_fit_first columns rows (clamp_col_span columns column_span)
      (clamp_row_span columns row_span) pos_columns (clamp_le columns column_span pos_columns)
