-- ===== src/Storage/Segment.antt =====
-- `IsValidStoreSegment` of src/platform/store_key_validation.h.
use homedeck.Base.{
  ℕ, Bool, false, not, ◌&&◌, ◌||◌, List, [], ◌∷◌, ltb, ◌==◌, if◌then◌else◌, bytes_eq, length,
  is_empty,
}
use homedeck.Base.Text.{codes}

abbrev pub max_store_segment_length : ℕ
max_store_segment_length = 15

contains : ℕ → List ℕ → Bool
contains b [] = false
contains b (c ∷ cs) = c == b || contains b cs

unfoldable pub is_valid_store_segment : List ℕ → Bool
unfolding contains bytes_eq
is_valid_store_segment segment =
    if is_empty segment
      || bytes_eq segment (codes ".")
      || bytes_eq segment (codes "..")
      || ltb max_store_segment_length (length segment)
    then false
    else not (contains b'/' segment) && not (contains 92 segment) && not (contains 0 segment)
