-- ===== src/Layout/Window/Rows.antt =====
-- The window of rows, against the rows that have a pixel in the view.
use homedeck.Base.{
  ℕ, suc, ◌+◌, ◌-◌, ◌*◌, ◌/◌, ◌≤◌, ◌<◌, ◌≡◌, ◌||◌, ◌==◌, arith, Bool-cases, inl, inr,
}
use homedeck.Base.Int.{ℤ, pos, negsuc, pos_part, neg_part, ◌+ℤ◌, ◌-ℤ◌, clamp}
use homedeck.Layout.Window.{
  VisibleRows, floor_div, first_on_screen, last_on_screen, compute_visible_rows, max_visible_rows,
}
use homedeck.Layout.Window.Quotient.{
  floor_div_below, floor_div_above, floor_div_nonneg, floor_div_bounds, quotients_apart,
  quotients_ordered,
}

-- Some pixel of the row lies in the view.
abbrev pub OnScreen : ℤ → ℕ → ℕ → ℕ → Type 0
OnScreen list_top view_height pitch row =
    (neg_part list_top < pos_part list_top + pitch * suc row)
    × (pos_part list_top + pitch * row < view_height + neg_part list_top)

abbrev pub InWindow : VisibleRows → ℕ → Type 0
InWindow window row = (window.first ≤ row) × (row < window.first + window.count)

first_le :
    (list_top : ℤ) (pitch row : ℕ)
    → neg_part list_top < pos_part list_top + pitch * suc row
    → pos_part (first_on_screen list_top pitch) ≤ row
unfolding first_on_screen ◌-ℤ◌
first_le list_top pitch row h = floor_div_below (pos 0 -ℤ list_top) pitch row (ground arith)

le_last :
    (list_top : ℤ) (view_height pitch row : ℕ)
    → 0 < view_height
    → 0 < pitch
    → pos_part list_top + pitch * row < view_height + neg_part list_top
    → (row ≤ pos_part (last_on_screen list_top view_height pitch))
      × (neg_part (last_on_screen list_top view_height pitch) ≡ 0)
unfolding last_on_screen ◌-ℤ◌
le_last list_top view_height pitch row pos_view pos_pitch h = (
  floor_div_above (pos view_height -ℤ pos 1 -ℤ list_top) pitch row pos_pitch (ground arith),
  floor_div_nonneg (pos view_height -ℤ pos 1 -ℤ list_top) pitch (ground arith),
)

clamp_below : (hi k : ℕ) (z : ℤ) → pos_part z ≤ k → clamp 0 hi z ≤ k
clamp_below hi k (pos n) h = ground arith
clamp_below hi k (negsuc n) h = ground arith

clamp_above : (hi k : ℕ) (z : ℤ) → k ≤ hi → k ≤ pos_part z → k ≤ clamp 0 hi z
clamp_above hi k (pos n) h h' = ground arith
clamp_above hi k (negsuc n) h h' = ground arith

clamp_le : (hi : ℕ) (z : ℤ) → clamp 0 hi z ≤ hi
clamp_le hi (pos n) = ground arith
clamp_le hi (negsuc n) = ground arith

back_le : (z : ℤ) (n k : ℕ) → pos_part z ≤ k → pos_part (z -ℤ pos n) ≤ k
unfolding ◌-ℤ◌
back_le z n k h = ground arith

ahead_le : (z : ℤ) (n k : ℕ) → k ≤ pos_part z → neg_part z ≡ 0 → k ≤ pos_part (z +ℤ pos n)
unfolding ◌+ℤ◌
ahead_le z n k h e = ground arith

-- Every row with a pixel in the view is in the window.
pub compute_visible_rows_covers :
    (list_top : ℤ) (view_height pitch total overscan row : ℕ)
    → 0 < view_height
    → 0 < pitch
    → row < total
    → OnScreen list_top view_height pitch row
    → InWindow (compute_visible_rows list_top (pos view_height) (pos pitch) total overscan) row
unfolding compute_visible_rows
compute_visible_rows_covers list_top view_height pitch total overscan row pos_view pos_pitch h
      (top, bottom) =
    let last = le_last list_top view_height pitch row pos_view pos_pitch bottom in
    let lo =
      clamp_below (total - 1) row (first_on_screen list_top pitch -ℤ pos overscan)
        (back_le (first_on_screen list_top pitch) overscan row (first_le list_top pitch row top)) in
    let hi =
      clamp_above (total - 1) row (last_on_screen list_top view_height pitch +ℤ pos overscan)
        (omega (arith, h))
        (ahead_le (last_on_screen list_top view_height pitch) overscan row last.0 last.1) in
    ground (arith, lo, hi, h, pos_view, pos_pitch)

-- How far the two ends of the view lie apart, in rows.
screen_rows :
    (list_top : ℤ) (view_height pitch : ℕ)
    → 0 < view_height
    → 0 < pitch
    → let a = first_on_screen list_top pitch in
      let b = last_on_screen list_top view_height pitch in
      pos_part b + neg_part a ≤ pos_part a + neg_part b + (view_height + pitch - 1) / pitch
unfolding first_on_screen last_on_screen ◌-ℤ◌
screen_rows list_top view_height pitch pos_view pos_pitch =
    let a = floor_div_bounds (pos 0 -ℤ list_top) pitch pos_pitch in
    let b = floor_div_bounds (pos view_height -ℤ pos 1 -ℤ list_top) pitch pos_pitch in
    quotients_apart pitch view_height _ _ _ _ _ _ _ _ pos_pitch a.1 b.0 (ground arith)

-- Of any two ends, the clamped window is no longer than they lie apart, or is one row.
clamp_window :
    (a b : ℤ) (hi overscan gap : ℕ)
    → pos_part b + neg_part a ≤ pos_part a + neg_part b + gap
    → clamp 0 hi (b +ℤ pos overscan) ≤ clamp 0 hi (a -ℤ pos overscan) + gap + 2 * overscan
unfolding ◌-ℤ◌ ◌+ℤ◌
clamp_window (pos a) (pos b) hi overscan gap h = ground arith
clamp_window (pos a) (negsuc b) hi overscan gap h = ground arith
clamp_window (negsuc a) (pos b) hi overscan gap h = ground arith
clamp_window (negsuc a) (negsuc b) hi overscan gap h = ground arith

-- The window lies within the list, and is no longer than the pool that `MaxVisibleRows` asks for.
pub compute_visible_rows_bounds :
    (list_top view_height pitch : ℤ) (total overscan : ℕ)
    → let window = compute_visible_rows list_top view_height pitch total overscan in
      (window.first + window.count ≤ total)
      × (window.count ≤ max_visible_rows view_height pitch overscan)
unfolding compute_visible_rows max_visible_rows
compute_visible_rows_bounds list_top (negsuc view_height) pitch total overscan = ground arith
compute_visible_rows_bounds list_top (pos view_height) (negsuc pitch) total overscan = ground arith
compute_visible_rows_bounds list_top (pos view_height) (pos pitch) total overscan =
    elim (Bool-cases (total == 0 || pitch == 0 || view_height == 0)) [
      | inl empty ↦ ground (arith, empty)
      | inr full ↦
          let gap =
            screen_rows list_top view_height pitch (ground (arith, full)) (ground (arith, full)) in
          let length =
            clamp_window (first_on_screen list_top pitch)
              (last_on_screen list_top view_height pitch) (total - 1) overscan _ gap in
          let lo = clamp_le (total - 1) (first_on_screen list_top pitch -ℤ pos overscan) in
          let hi =
            clamp_le (total - 1) (last_on_screen list_top view_height pitch +ℤ pos overscan) in
          ground (arith, full, length, lo, hi)
    ]

clamp_ordered :
    (a b : ℤ) (hi overscan : ℕ)
    → pos_part a + neg_part b ≤ pos_part b + neg_part a
    → clamp 0 hi (a -ℤ pos overscan) ≤ clamp 0 hi (b +ℤ pos overscan)
unfolding ◌-ℤ◌ ◌+ℤ◌
clamp_ordered (pos a) (pos b) hi overscan h = ground arith
clamp_ordered (pos a) (negsuc b) hi overscan h = ground arith
clamp_ordered (negsuc a) (pos b) hi overscan h = ground arith
clamp_ordered (negsuc a) (negsuc b) hi overscan h = ground arith

-- The difference of which the count is taken is not negative.
first-le-last :
    (list_top : ℤ) (view_height pitch hi overscan : ℕ)
    → 0 < pitch
    → clamp 0 hi (first_on_screen list_top pitch -ℤ pos overscan)
      ≤ clamp 0 hi (last_on_screen list_top (suc view_height) pitch +ℤ pos overscan)
unfolding first_on_screen last_on_screen ◌-ℤ◌
first-le-last list_top view_height pitch hi overscan pos_pitch =
    let a = floor_div_bounds (pos 0 -ℤ list_top) pitch pos_pitch in
    let b = floor_div_bounds (pos (suc view_height) -ℤ pos 1 -ℤ list_top) pitch pos_pitch in
    clamp_ordered (floor_div (pos 0 -ℤ list_top) pitch)
      (floor_div (pos (suc view_height) -ℤ pos 1 -ℤ list_top) pitch) hi overscan
      (quotients_ordered pitch view_height _ _ _ _ _ _ _ _ a.0 b.1 (ground arith))

-- Which slot shows a row.
