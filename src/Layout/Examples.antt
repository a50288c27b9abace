-- ===== src/Layout/Examples.antt =====
-- Three widgets on a dashboard of four columns: the second asks for more than there is.
use homedeck.Base.{ℕ, ◌≡◌, refl, ◌<◌, Option, none, some, ◌⊎◌, ◌↔◌, ◌%◌, List, [], ◌∷◌, arith}
use homedeck.Base.Int.{ℤ, pos, negsuc}
use homedeck.Layout.Grid
use homedeck.Layout.Window.{compute_visible_rows, row_for_slot, max_visible_rows, ensure_pool}
use homedeck.Layout.Window.Slots.{OnScreen-row_for_slot}
use homedeck.Layout.Grid.Tiles
use homedeck.Layout.Grid.{empty_row, find_placement, clamp_col_span, clamp_row_span}
use homedeck.Layout.Grid.Search.{Possible, find_placement_first}
use homedeck.Layout.Grid.Tiles.{Dashboard, Tile, add_widgets, PlacesAll, add_widgets_lem}

abbrev spans : List (ℤ × ℤ)
spans = (pos 2, pos 1) ∷ (pos 9, pos 2) ∷ (pos 2, negsuc 3) ∷ []

abbrev start : Dashboard
start = record { rows = empty_row ∷ []; row_dsc = 200 ∷ 0 ∷ [] }

abbrev places : List Tile → List (ℕ × ℕ)
places [] = []
places (t ∷ ts) = (t.row, t.col) ∷ places ts

abbrev places_of : Option (List Tile × Dashboard) → List (ℕ × ℕ) × List ℕ
places_of none = ([], [])
places_of (some (ts, d)) = (places ts, d.row_dsc)

spans_place :
    places_of (add_widgets 4 200 0 spans start)
    ≡ ((0, 0) ∷ (1, 0) ∷ (0, 2) ∷ [], 200 ∷ 200 ∷ 200 ∷ 0 ∷ [])
unfolding add_widgets Tiles.add_widget Tiles.grow_row_descriptor_array Tiles.grow Tiles.grow_once
    Grid.append_rows Grid.ensure_row_exists Grid.cells_free Grid.row_free Grid.rows_free
    Grid.set_cells Grid.set_row Grid.set_rows Grid.fits Grid.mark_occupied Grid.search_placement
    Grid.first_fit Grid.clamp_col_span Grid.clamp_row_span find_placement
spans_place = refl

add_widgets_lem_example : PlacesAll 4 200 0 spans start 1
add_widgets_lem_example = add_widgets_lem 4 200 0 spans start 1 (omega arith) refl

find_placement_first_example :
    (row : ℕ) × (col : ℕ) × (find_placement 4 (empty_row ∷ []) (pos 9) (pos 2)
      ≡ some (record { row = row; col = col }))
    × Possible 4 (empty_row ∷ []) (clamp_col_span 4 (pos 9)) (clamp_row_span 4 (pos 2)) row col
    × ((r c : ℕ)
        → c < 4
        → (r < row) ⊎ ((r ≡ row) × (c < col))
        → ¬ Possible 4 (empty_row ∷ []) (clamp_col_span 4 (pos 9)) (clamp_row_span 4 (pos 2)) r c)
find_placement_first_example = find_placement_first 4 (empty_row ∷ []) (pos 9) (pos 2) (omega arith)

-- A list of fifty rows of 40 pixels, scrolled up by 100 pixels, in a view that is 120 pixels high.
OnScreen-row_for_slot_example :
    (row_for_slot 4
        (ensure_pool 0 (pos 120) (pos 40) 50 2)
        (compute_visible_rows (negsuc 99) (pos 120) (pos 40) 50 2)
      ≡ some 4)
    ↔ (4 ≡ 4 % ensure_pool 0 (pos 120) (pos 40) 50 2)
unfolding ensure_pool max_visible_rows
OnScreen-row_for_slot_example =
    OnScreen-row_for_slot (negsuc 99) 120 40 50 2 0 4 4 (omega arith) (omega arith) (omega arith)
      (omega arith, omega arith) (omega arith)
