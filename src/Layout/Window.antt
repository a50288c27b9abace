-- ===== src/Layout/Window.antt =====
-- src/ui/virtual_list_window.h: which rows of a long list a view of it needs, and which of the pool's
-- buttons shows which row. Sizes in pixels and `size_t` are natural numbers, the list's top is signed.
pub mod Quotient
pub mod Rows
pub mod Slots
use homedeck.Base.{
  ℕ, zero, suc, ◌+◌, ◌-◌, ◌*◌, ◌/◌, ◌%◌, ◌≤◌, ◌<◌, ◌≡◌, refl, ◌∙◌, ap, sym, Bool, true, false, ◌||◌,
  max, Option, none, some, ltb, leb, ◌==◌, if◌then◌else◌, arith, min, ◌↔◌, Bool-cases, inl, inr,
}
use homedeck.Base.Int.{ℤ, pos, negsuc, pos_part, neg_part, sub_ℕ, ◌+ℤ◌, ◌-ℤ◌, clamp}

pub record VisibleRows : Type 0 where
  pub first : ℕ
  pub count : ℕ

-- `a >= 0 ? a / b : -((-a + b - 1) / b)`, for a positive `b`.
pub floor_div : ℤ → ℕ → ℤ
floor_div (pos a) b = pos (a / b)
floor_div (negsuc a) b = sub_ℕ 0 ((suc a + b - 1) / b)

pub first_on_screen : ℤ → ℕ → ℤ
unfolding floor_div
first_on_screen list_top pitch = floor_div (pos 0 -ℤ list_top) pitch

pub last_on_screen : ℤ → ℕ → ℕ → ℤ
unfolding floor_div
last_on_screen list_top view_height pitch = floor_div (pos view_height -ℤ pos 1 -ℤ list_top) pitch

pub compute_visible_rows : ℤ → ℤ → ℤ → ℕ → ℕ → VisibleRows
unfolding first_on_screen last_on_screen
compute_visible_rows list_top (pos view_height) (pos pitch) total overscan =
    if total == 0 || pitch == 0 || view_height == 0
    then record { first = 0; count = 0 }
    else (let last_row = total - 1 in
        let first = clamp 0 last_row (first_on_screen list_top pitch -ℤ pos overscan) in
        let last = clamp 0 last_row (last_on_screen list_top view_height pitch +ℤ pos overscan) in
        record { first = first; count = last - first + 1 })
compute_visible_rows list_top (pos view_height) (negsuc pitch) total overscan = record {
  first = 0;
  count = 0;
}
compute_visible_rows list_top (negsuc view_height) pitch total overscan = record {
  first = 0;
  count = 0;
}

-- `kNoRow` is `none`.
pub row_for_slot : ℕ → ℕ → VisibleRows → Option ℕ
row_for_slot slot pool_size window =
    if pool_size == 0 || leb pool_size slot || window.count == 0
    then none
    else (let offset = (slot + pool_size - window.first % pool_size) % pool_size in
        if ltb offset window.count then some (window.first + offset) else none)

unfoldable pub max_visible_rows : ℤ → ℤ → ℕ → ℕ
max_visible_rows (pos view_height) (pos pitch) overscan =
    if pitch == 0 || view_height == 0
    then 0
    else (view_height + pitch - 1) / pitch + 2 + 2 * overscan
max_visible_rows (pos view_height) (negsuc pitch) overscan = 0
max_visible_rows (negsuc view_height) pitch overscan = 0

-- The buttons of a list after `EnsurePool`: the pool never shrinks.
unfoldable pub ensure_pool : ℕ → ℤ → ℤ → ℕ → ℕ → ℕ
unfolding max_visible_rows
ensure_pool pool view_height pitch total overscan =
    max pool (min total (max_visible_rows view_height pitch overscan))
