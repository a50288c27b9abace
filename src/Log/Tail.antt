-- ===== src/Log/Tail.antt =====
-- `TrimToTail` on a text of whole lines.
use homedeck.Base.{
  ℕ, suc, ◌≤◌, ◌<◌, ◌≢◌, ◌≡◌, refl, ap, sym, ◌⊎◌, Bool, true, false, List, [], ◌∷◌, ◌++◌, leb, ◌&&◌,
  if◌then◌else◌, length, drop, arith, Bool-cases, inl, inr, All, leb→le,
}
use mathlib.Core.Bool.{true≢false}
use homedeck.Log.{tails_after, cut_back, trim_to_tail}

-- The lines of a text, each with its line feed.
abbrev pub text : List (List ℕ) → List ℕ
text [] = []
text (line ∷ lines) = line ++ (10 ∷ text lines)

abbrev pub IsLine : List ℕ → Type 0
IsLine line = (line ≢ []) × All (λ c. c ≢ 10) line

tails_line :
    (line rest : List ℕ)
    → All (λ c. c ≢ 10) line
    → tails_after (line ++ (10 ∷ rest)) ≡ tails_after (10 ∷ rest)
unfolding tails_after
tails_line [] rest h = refl
tails_line (c ∷ []) rest h = ground (arith, h.0)
tails_line (c ∷ d ∷ line) rest h = ground (arith, h.0, tails_line (d ∷ line) rest h.1)

tails_feed : (rest : List ℕ) → rest ≢ [] → tails_after (10 ∷ rest) ≡ rest ∷ tails_after rest
unfolding tails_after
tails_feed [] n = absurd (n refl)
tails_feed (d ∷ rest) n = refl

tails_end : tails_after (10 ∷ []) ≡ []
unfolding tails_after
tails_end = refl

text_nonempty : (line : List ℕ) (lines : List (List ℕ)) → text (line ∷ lines) ≢ []
text_nonempty [] lines e = cc
text_nonempty (c ∷ line) lines e = cc

-- The loop has stopped at the first line, or before a line that would not fit.
abbrev Stopped : ℕ → List (List ℕ) → ℕ → Bool → Type 0
Stopped max_bytes lines k going =
    ((going ≡ true) × (k ≡ 0))
    ⊎ ((going ≡ false) × ((j : ℕ) × (k ≡ suc j) × (max_bytes < length (text (drop j lines)))))

abbrev Cut : ℕ → List (List ℕ) → List ℕ × Bool → Type 0
Cut max_bytes lines r =
    (k : ℕ) × (r.0 ≡ text (drop k lines))
    × (k < length lines)
    × ((length (text (drop k lines)) ≤ max_bytes) ⊎ (suc k ≡ length lines))
    × Stopped max_bytes lines k r.1

stop_lem :
    (max_bytes : ℕ) (lines : List (List ℕ)) (k : ℕ) (going : Bool)
    → Stopped max_bytes lines k going
    → (k ≡ 0) ⊎ ((j : ℕ) × (k ≡ suc j) × (max_bytes < length (text (drop j lines))))
stop_lem max_bytes lines k going (inl (_, k0)) = inl k0
stop_lem max_bytes lines k going (inr (_, stop)) = inr stop

fit_up : {a b k l : ℕ} → (a ≤ b) ⊎ (suc k ≡ l) → (a ≤ b) ⊎ (suc (suc k) ≡ suc l)
fit_up (inl h) = inl h
fit_up (inr e) = inr (ap suc e)

cut_step :
    (max_bytes : ℕ) (line : List ℕ) (lines : List (List ℕ)) (r : List ℕ × Bool)
    → Cut max_bytes lines r
    → Cut max_bytes (line ∷ lines) (
        if r.1 && leb (length (text (line ∷ lines))) max_bytes
        then (text (line ∷ lines), true)
        else (r.0, false))
cut_step max_bytes line lines (cut, false) (k, e, small, fit, inl (wrong, _)) =
    absurd (true≢false (sym wrong))
cut_step max_bytes line lines (cut, false) (k, e, small, fit, inr (_, (j, kj, long))) =
    (suc k, e, omega (arith, small), fit_up fit, inr (refl, (suc j, ap suc kj, long)))
cut_step max_bytes line lines (cut, true) (k, e, small, fit, inr (wrong, _)) =
    absurd (true≢false wrong)
cut_step max_bytes line lines (cut, true) (k, e, small, fit, inl (_, k0)) =
    elim (Bool-cases (leb (length (text (line ∷ lines))) max_bytes)) [
      | inl fits ↦ rw fits (0, refl, omega arith, inl (leb→le _ max_bytes fits), inl (refl, refl))
      | inr long ↦ rw long (
        suc k,
        e,
        omega (arith, small),
        fit_up fit,
        inr (refl, (0, ap suc k0, ground (arith, long))),
      )
    ]

cut_lem :
    (max_bytes : ℕ) (line : List ℕ) (lines : List (List ℕ))
    → All IsLine (line ∷ lines)
    → Cut max_bytes
        (line ∷ lines)
        (cut_back max_bytes (text (line ∷ lines)) (tails_after (text (line ∷ lines))))
unfolding cut_back
cut_lem max_bytes line [] h =
    rw (tails_line line [] h.0.1, tails_end) (0, refl, omega arith, inr refl, inl (refl, refl))
cut_lem max_bytes line (next ∷ lines) h =
    rw
      (
        tails_line line (text (next ∷ lines)) h.0.1,
        tails_feed (text (next ∷ lines)) (text_nonempty next lines),
      )
      (cut_step max_bytes line (next ∷ lines) _ (cut_lem max_bytes next lines h.1))

-- What is kept of a text of one or more whole lines, none of which is empty or holds a line feed, is
-- its last lines: they fit, or are the last line alone, and one line more would not fit.
pub trim_to_tail-text :
    (lines : List (List ℕ)) (max_bytes : ℕ)
    → All IsLine lines
    → lines ≢ []
    → (k : ℕ) × (trim_to_tail (text lines) max_bytes ≡ text (drop k lines))
      × (k < length lines)
      × ((length (text (drop k lines)) ≤ max_bytes) ⊎ (suc k ≡ length lines))
      × ((k ≡ 0) ⊎ ((j : ℕ) × (k ≡ suc j) × (max_bytes < length (text (drop j lines)))))
unfolding trim_to_tail
trim_to_tail-text [] max_bytes h n = absurd (n refl)
trim_to_tail-text (line ∷ lines) max_bytes h n =
    elim (Bool-cases (leb (length (text (line ∷ lines))) max_bytes)) [
      | inl fits ↦ (0, rw fits refl, omega arith, inl (leb→le _ max_bytes fits), inl refl)
      | inr long ↦
          let (k, e, small, fit, stop) = cut_lem max_bytes line lines h in
          (k, rw long e, small, fit, stop_lem max_bytes (line ∷ lines) k _ stop)
    ]
