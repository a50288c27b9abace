-- ===== src/Layout/Window/Slots.antt =====
-- The slots of the pool, against the rows of the window.
use homedeck.Base.{
  ℕ, suc, ◌+◌, ◌-◌, ◌*◌, ◌/◌, ◌%◌, ◌≤◌, ◌<◌, ◌≡◌, ◌∙◌, ap, sym, some, ltb, arith, ◌↔◌, Bool-cases,
  inl, inr,
}
use homedeck.Base.Int.{ℤ, pos}
use homedeck.Layout.Window.{VisibleRows, compute_visible_rows, row_for_slot, ensure_pool}
use homedeck.Layout.Window.Quotient.{lt_of_mul_lt}
use homedeck.Layout.Window.Rows.{
  OnScreen, InWindow, compute_visible_rows_covers, compute_visible_rows_bounds,
}

mod_unique : (x p q r : ℕ) → x ≡ p * q + r → r < p → x % p ≡ r
mod_unique x p q r e h =
    let Q = x / p in
    let R = x % p in
    let e' : x ≡ p * Q + R = grind arith in
    let small : R < p = grind arith in
    let q_le = lt_of_mul_lt p q (suc Q) (omega (arith, e, e', small)) in
    let Q_le = lt_of_mul_lt p Q (suc q) (omega (arith, e, e', h)) in
    let same : Q ≡ q = omega (arith, q_le, Q_le) in omega (arith, e, e', ap (λ k. p * k) same)

slot_lem :
    (row pool_size first : ℕ)
    → first ≤ row
    → row < first + pool_size
    → (row % pool_size + pool_size - first % pool_size) % pool_size ≡ row - first
slot_lem row pool_size first lo hi =
    let a = first / pool_size in
    let f = first % pool_size in
    let e : first ≡ pool_size * a + f = grind arith in
    let small : f < pool_size = grind arith in
    elim (Bool-cases (ltb (f + (row - first)) pool_size)) [
      | inl within ↦
          rw
            (mod_unique row pool_size a (f + (row - first)) (omega (arith, e, lo))
              (ground (arith, within)))
            (mod_unique (f + (row - first) + pool_size - f) pool_size 1 (row - first) (omega arith)
              (omega (arith, lo, hi)))
      | inr over ↦
          rw
            (mod_unique row pool_size (suc a) (f + (row - first) - pool_size)
              (ground (arith, over, e, lo)) (omega (arith, lo, hi, small)))
            (mod_unique (f + (row - first) - pool_size + pool_size - f) pool_size 0 (row - first)
              (ground (arith, over)) (omega (arith, lo, hi)))
    ]

-- The row at an offset below the pool's size uses the slot that has this offset.
offset_lem :
    (slot pool_size first : ℕ)
    → slot < pool_size
    → slot ≡ (first + (slot + pool_size - first % pool_size) % pool_size) % pool_size
offset_lem slot pool_size first h =
    let a = first / pool_size in
    let f = first % pool_size in
    let e : first ≡ pool_size * a + f = grind arith in
    let small : f < pool_size = grind arith in
    elim (Bool-cases (ltb slot f)) [
      | inl before ↦ sym (
          ap (λ k. (first + k) % pool_size)
            (mod_unique (slot + pool_size - f) pool_size 0 (slot + pool_size - f) (omega arith)
              (ground (arith, before, small)))
          ∙ mod_unique (first + (slot + pool_size - f)) pool_size (suc a) slot
              (omega (arith, e, small)) h)
      | inr behind ↦ sym (
          ap (λ k. (first + k) % pool_size)
            (mod_unique (slot + pool_size - f) pool_size 1 (slot - f) (ground (arith, behind))
              (omega (arith, h)))
          ∙ mod_unique (first + (slot - f)) pool_size a slot (ground (arith, e, behind)) h)
    ]

-- A slot of a pool that is long enough shows a row exactly when the row is in the window and uses the
-- slot.
row_for_slot_iff :
    (slot pool_size row : ℕ) (window : VisibleRows)
    → slot < pool_size
    → window.count ≤ pool_size
    → (row_for_slot slot pool_size window ≡ some row)
      ↔ (InWindow window row × (slot ≡ row % pool_size))
unfolding row_for_slot
row_for_slot_iff slot pool_size row window h long = (
  λ e.
      let offset = (slot + pool_size - window.first % pool_size) % pool_size in
      let found : (offset < window.count) × (row ≡ window.first + offset) = ground arith in
      (
        (omega (arith, found.1), omega (arith, found.0, found.1)),
        rw (found.1) (offset_lem slot pool_size window.first h),
      ),
  λ ((lo, hi), e).
      let offset : (slot + pool_size - window.first % pool_size) % pool_size ≡ row - window.first =
        rw e (slot_lem row pool_size window.first lo (omega (arith, hi, long))) in
      ground (arith, offset, h, lo, hi),
)

-- Every row with a pixel in the view is shown by one button of the pool, and by no other: by the one of
-- its number's remainder. The view and the rows have a height.
pub OnScreen-row_for_slot :
    (list_top : ℤ) (view_height pitch total overscan before row slot : ℕ)
    → 0 < view_height
    → 0 < pitch
    → row < total
    → OnScreen list_top view_height pitch row
    → let pool = ensure_pool before (pos view_height) (pos pitch) total overscan in
      let window = compute_visible_rows list_top (pos view_height) (pos pitch) total overscan in
      slot < pool → (row_for_slot slot pool window ≡ some row) ↔ (slot ≡ row % pool)
unfolding ensure_pool
OnScreen-row_for_slot list_top view_height pitch total overscan before row slot pos_view pos_pitch
      inside shown small =
    let pool = ensure_pool before (pos view_height) (pos pitch) total overscan in
    let window = compute_visible_rows list_top (pos view_height) (pos pitch) total overscan in
    let (within, short) =
      compute_visible_rows_bounds list_top (pos view_height) (pos pitch) total overscan in
    let covers =
      compute_visible_rows_covers list_top view_height pitch total overscan row pos_view pos_pitch
        inside shown in
    let (there, back) =
      row_for_slot_iff slot pool row window small (omega (arith, within, short)) in
    (λ e. (there e).1, λ e. back (covers, e))
