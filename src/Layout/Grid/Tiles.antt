-- ===== src/Layout/Grid/Tiles.antt =====
-- `DashboardGrid::AddWidget` of src/ui/dashboard_grid.cpp, for one widget after another, with
-- `GrowRowDescriptorArray` of src/ui/grid_occupancy.h.
use homedeck.Base.{
  ℕ, zero, suc, ◌+◌, ◌-◌, ◌≤◌, ◌<◌, ◌≡◌, refl, ◌∙◌, ap, sym, Bool, true, false, ◌||◌, Option, some,
  List, [], ◌∷◌, ◌++◌, ltb, if◌then◌else◌, length, replicate, arith, Bool-cases, inl, inr, subst,
  All,
}
use homedeck.Base.Int.{ℤ, pos, negsuc}
use homedeck.Codec.Decimal.{◌>>=◌}
use mathlib.Core.Bool.{true≢false}
use homedeck.Layout.Grid.{Row, taken, find_placement, mark_occupied, clamp_col_span, clamp_row_span}
use homedeck.Layout.Grid.Cells.{inside, taken-mark_occupied}
use homedeck.Layout.Grid.Search.{find_placement_first, Possible}

-- `row_dsc.back() = row_height; row_dsc.push_back(terminator);`
unfoldable pub grow_once : ℕ → ℕ → List ℕ → List ℕ
grow_once row_height terminator [] = terminator ∷ []
grow_once row_height terminator (d ∷ []) = row_height ∷ terminator ∷ []
grow_once row_height terminator (d ∷ e ∷ ds) = d ∷ grow_once row_height terminator (e ∷ ds)

unfoldable pub grow : ℕ → ℕ → ℕ → List ℕ → List ℕ
unfolding grow_once
grow zero row_height terminator row_dsc = row_dsc
grow (suc n) row_height terminator row_dsc =
    grow n row_height terminator (grow_once row_height terminator row_dsc)

-- Each round of the loop adds one row: `row + 1` rows and the terminator are wanted.
unfoldable pub grow_row_descriptor_array : ℕ → ℕ → ℕ → List ℕ → List ℕ
unfolding grow
grow_row_descriptor_array row row_height terminator row_dsc =
    if ltb (suc row) (length row_dsc)
    then row_dsc
    else grow (row + 2 - length row_dsc) row_height terminator row_dsc

pub record Tile : Type 0 where
  pub row : ℕ
  pub col : ℕ
  pub col_span : ℕ
  pub row_span : ℕ

pub record Dashboard : Type 0 where
  pub rows : List Row
  pub row_dsc : List ℕ

module _ (columns row_height terminator : ℕ) where
  unfoldable pub add_widget : ℤ × ℤ → Dashboard → Option (Tile × Dashboard)
  unfolding grow_row_descriptor_array
  add_widget (column_span, row_span) d =
      let cs = clamp_col_span columns column_span in
      let rs = clamp_row_span columns row_span in
      find_placement columns d.rows (pos cs) (pos rs) >>= λ p. some (
        record { row = p.row; col = p.col; col_span = cs; row_span = rs },
        record {
          rows = mark_occupied columns d.rows p.row p.col cs rs;
          row_dsc = grow_row_descriptor_array (p.row + rs - 1) row_height terminator d.row_dsc;
        },
      )

  unfoldable pub add_widgets : List (ℤ × ℤ) → Dashboard → Option (List Tile × Dashboard)
  unfolding add_widget
  add_widgets [] d = some ([], d)
  add_widgets (span ∷ spans) d =
      add_widget span d >>= λ r. add_widgets spans r.1 >>= λ q. some (r.0 ∷ q.0, q.1)

  abbrev pub covers : Tile → ℕ → ℕ → Bool
  covers t r c = inside t.row t.col t.col_span t.row_span r c

  -- No cell belongs to both.
  abbrev pub Apart : Tile → Tile → Type 0
  Apart t u = (r c : ℕ) → covers t r c ≡ true → covers u r c ≡ false

  abbrev pub AllApart : List Tile → Type 0
  AllApart [] = Unit {0}
  AllApart (t ∷ ts) = All (Apart t) ts × AllApart ts

  -- The tile was free before, and lies within the columns.
  abbrev pub Sits : Dashboard → Tile → Type 0
  Sits d t =
      (t.col + t.col_span ≤ columns) × ((r c : ℕ) → covers t r c ≡ true → taken d.rows r c ≡ false)

  -- Clamping a clamped span changes nothing.
  reclamp_col :
      (z : ℤ)
      → 0 < columns
      → clamp_col_span columns (pos (clamp_col_span columns z)) ≡ clamp_col_span columns z
  unfolding clamp_col_span
  reclamp_col (pos n) h = ground arith
  reclamp_col (negsuc n) h = ground arith

  reclamp_row :
      (z : ℤ) → clamp_row_span columns (pos (clamp_row_span columns z)) ≡ clamp_row_span columns z
  unfolding clamp_row_span
  reclamp_row (pos n) = ground arith
  reclamp_row (negsuc n) = ground arith

  refit :
      (rows : List Row) (z w : ℤ) (row col : ℕ)
      → 0 < columns
      → Possible columns rows
          (clamp_col_span columns (pos (clamp_col_span columns z)))
          (clamp_row_span columns (pos (clamp_row_span columns w)))
          row
          col
      → Possible columns rows (clamp_col_span columns z) (clamp_row_span columns w) row col
  refit rows z w row col h p =
      subst (λ n. Possible columns rows n (clamp_row_span columns w) row col) (reclamp_col z h)
        (subst
          (λ n.
            Possible columns rows (clamp_col_span columns (pos (clamp_col_span columns z))) n row
              col)
          (reclamp_row w) p)

  -- `m` rows of the height, and the terminator.
  abbrev pub Describes : ℕ → List ℕ → Type 0
  Describes m row_dsc = row_dsc ≡ replicate m row_height ++ (terminator ∷ [])

  grow_once_lem :
      (m : ℕ)
      → Describes
          (suc m)
          (grow_once row_height terminator (replicate m row_height ++ (terminator ∷ [])))
  unfolding grow_once
  grow_once_lem zero = refl
  grow_once_lem (suc zero) = refl
  grow_once_lem (suc (suc m)) = ap (λ l. row_height ∷ l) (grow_once_lem (suc m))

  grow_lem :
      (n m k : ℕ)
      → n + m ≡ k
      → Describes k (grow n row_height terminator (replicate m row_height ++ (terminator ∷ [])))
  unfolding grow
  grow_lem zero m k e =
      ap (λ j. replicate j row_height ++ (terminator ∷ []))
        (let e' : m ≡ k = omega (arith, e) in e')
  grow_lem (suc n) m k e = rw (grow_once_lem m) (grow_lem n (suc m) k (omega (arith, e)))

  length-template : (m : ℕ) → length (replicate m row_height ++ (terminator ∷ [])) ≡ suc m
  length-template zero = refl
  length-template (suc m) = ap suc (length-template m)

  -- The template stays one of rows and a terminator, and covers the row asked for.
  describes_lem :
      (row m : ℕ) (row_dsc : List ℕ)
      → Describes m row_dsc
      → (m' : ℕ) × Describes m' (grow_row_descriptor_array row row_height terminator row_dsc)
        × (m ≤ m')
        × (row < m')
  unfolding grow_row_descriptor_array
  describes_lem row m row_dsc e = elim (Bool-cases (ltb (suc row) (length row_dsc))) [
    | inl there ↦
        (m, rw there e, omega arith, ground (arith, there, ap length e ∙ length-template m))
    | inr short ↦
        let shorter : m ≤ suc row = ground (arith, short, ap length e ∙ length-template m) in
        (
          suc row,
          rw (short, e)
              (grow_lem (row + 2 - length (replicate m row_height ++ (terminator ∷ []))) m (suc row)
                (omega (arith, length-template m, shorter))),
          shorter,
          omega arith,
        )
  ]

  -- What one widget's placing gives: its tile, where nothing was, and the cells taken after it.
  add_widget_lem :
      (span : ℤ × ℤ) (d : Dashboard)
      → 0 < columns
      → (t : Tile) × (d' : Dashboard) × (add_widget span d ≡ some (t, d'))
        × Sits d t
        × ((r c : ℕ) → taken d'.rows r c ≡ (covers t r c || taken d.rows r c))
        × (d'.row_dsc
            ≡ grow_row_descriptor_array (t.row + t.row_span - 1) row_height terminator d.row_dsc)
        × (t.col_span ≡ clamp_col_span columns span.0)
        × (t.row_span ≡ clamp_row_span columns span.1)
  unfolding add_widget
  add_widget_lem (column_span, row_span) d pos_columns =
      let cs = clamp_col_span columns column_span in
      let rs = clamp_row_span columns row_span in
      let (row, col, e, possible, earlier) =
        find_placement_first columns d.rows (pos cs) (pos rs) pos_columns in
      let free = refit d.rows column_span row_span row col pos_columns possible in
      (
        record { row = row; col = col; col_span = cs; row_span = rs },
        record {
          rows = mark_occupied columns d.rows row col cs rs;
          row_dsc = grow_row_descriptor_array (row + rs - 1) row_height terminator d.row_dsc;
        },
        rw e,
        (free.0, λ r c h. free.1 r (ground arith) (ground arith) c (ground arith) (ground arith)),
        (λ r c. taken-mark_occupied columns d.rows row col cs rs r c),
        refl,
        refl,
        refl,
      )

  abbrev pub covered : List Tile → ℕ → ℕ → Bool
  covered [] r c = false
  covered (t ∷ ts) r c = covers t r c || covered ts r c

  -- Every tile stands in rows that the template has.
  abbrev pub InRows : ℕ → List Tile → Type 0
  InRows m [] = Unit {0}
  InRows m (t ∷ ts) = (t.row + t.row_span ≤ m) × InRows m ts

  -- The tiles have the spans that were asked for, clamped.
  abbrev pub HaveSpans : List (ℤ × ℤ) → List Tile → Type 0
  HaveSpans [] [] = Unit {0}
  HaveSpans [] (t ∷ ts) = ⊥
  HaveSpans (span ∷ spans) [] = ⊥
  HaveSpans (span ∷ spans) (t ∷ ts) =
      (t.col_span ≡ clamp_col_span columns span.0)
      × (t.row_span ≡ clamp_row_span columns span.1)
      × HaveSpans spans ts

  or_split :
      (a b x u : Bool)
      → x ≡ (a || b)
      → (u ≡ true → x ≡ false)
      → (u ≡ true → b ≡ false) × (a ≡ true → u ≡ false)
  or_split a b x false e h = (λ k. absurd (true≢false (sym k)), λ k. refl)
  or_split true b x true e h = absurd (true≢false (sym e ∙ h refl))
  or_split false b x true e h = (λ k. sym e ∙ h refl, λ k. absurd (true≢false (sym k)))

  or_swap : (a b c : Bool) → (a || (b || c)) ≡ (b || a || c)
  or_swap true true c = refl
  or_swap true false c = refl
  or_swap false true c = refl
  or_swap false false c = refl

  Sits-earlier :
      (d d' : Dashboard) (t : Tile) (ts : List Tile)
      → ((r c : ℕ) → taken d'.rows r c ≡ (covers t r c || taken d.rows r c))
      → All (Sits d') ts
      → All (Sits d) ts × All (Apart t) ts
  Sits-earlier d d' t [] e h = (tt, tt)
  Sits-earlier d d' t (u ∷ us) e h =
      let (sits, apart) = Sits-earlier d d' t us e h.1 in
      (
        ((h.0.0, λ r c inside_u. (or_split _ _ _ _ (e r c) (h.0.1 r c)).0 inside_u), sits),
        ((λ r c. (or_split _ _ _ _ (e r c) (h.0.1 r c)).1), apart),
      )

  -- The widgets can all be placed: the tiles lie within the columns and on cells that were free, no
  -- cell belongs to two of them, the cells taken afterwards are those of the tiles and those taken
  -- before, and the row template has a row for every tile.
  abbrev pub PlacesAll : List (ℤ × ℤ) → Dashboard → ℕ → Type 0
  PlacesAll spans d m =
      (ts : List Tile) × (d' : Dashboard) × (m' : ℕ) × (add_widgets spans d ≡ some (ts, d'))
      × HaveSpans spans ts
      × All (Sits d) ts
      × AllApart ts
      × ((r c : ℕ) → taken d'.rows r c ≡ (covered ts r c || taken d.rows r c))
      × (Describes m' d'.row_dsc × (m ≤ m') × InRows m' ts)

  -- The placing of any number of widgets ends with a tile for each: the tiles have the clamped spans
  -- that were asked for, lie within the columns and on cells that were free, no cell belongs to two of
  -- them, the cells taken afterwards are those of the tiles and those taken before, and the row
  -- template has a row for every tile. There is a column, and the template is one of rows and a
  -- terminator at first.
  pub add_widgets_lem :
      (spans : List (ℤ × ℤ)) (d : Dashboard) (m : ℕ)
      → 0 < columns
      → Describes m d.row_dsc
      → PlacesAll spans d m
  unfolding add_widgets
  add_widgets_lem [] d m h e = ([], d, m, refl, tt, tt, tt, (λ r c. refl), (e, omega arith, tt))
  add_widgets_lem (span ∷ spans) d m h e =
      let (t, d1, placed, sits, union, template, width, height) = add_widget_lem span d h in
      let (m1, e1, le1, row1) = describes_lem (t.row + t.row_span - 1) m d.row_dsc e in
      let (ts, d2, m2, e2, spans2, sit2, apart2, union2, (template2, le2, rows2)) =
        add_widgets_lem spans d1 m1 h (template ∙ e1) in
      let (sit3, apart3) = Sits-earlier d d1 t ts union sit2 in
      (
        t ∷ ts,
        d2,
        m2,
        rw (placed, e2) refl,
        (width, height, spans2),
        (sits, sit3),
        (apart3, apart2),
        (λ r c.
            union2 r c
            ∙ ap (λ x. covered ts r c || x) (union r c)
            ∙ or_swap (covered ts r c) (covers t r c) (taken d.rows r c)),
        (template2, omega (arith, le1, le2), (omega (arith, row1, le2), rows2)),
      )
