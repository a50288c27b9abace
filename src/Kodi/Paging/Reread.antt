-- ===== src/Kodi/Paging/Reread.antt =====
-- What a listing's parser reads out of a merged reply.
use homedeck.Base.{
  ℕ, ◌≡◌, refl, ap, false, Option, some, List, [], ◌∷◌, map, bytes_eq, bytes_eq_refl,
}
use homedeck.Json.{
  Json, Fields, array, end, field, parse_bounded_json, max_json_nesting_depth,
  exceeds_json_nesting_depth, find,
}
use homedeck.Kodi.Reply.{result_array, as_array}
use homedeck.Kodi.Listing.{parse_list, fill_each}
use homedeck.Kodi.Paging.{items_of, merged_reply}

module _ {ℓ} {A : Type ℓ} (fill : Json → A) where
  fill_each-items_of : (merged : List Json) → fill_each fill (items_of merged) ≡ map fill merged
  unfolding fill_each items_of
  fill_each-items_of [] = refl
  fill_each-items_of (element ∷ rest) = ap (λ xs. fill element ∷ xs) (fill_each-items_of rest)

  find-field : (key : List ℕ) (v : Json) (rest : Fields) → find key (field key v rest) ≡ some v
  unfolding find
  find-field key v rest = rw (bytes_eq_refl key)

  result_array-merged_reply :
      (key : List ℕ) (merged : List Json)
      → result_array (merged_reply key merged) key ≡ some (items_of merged)
  unfolding result_array merged_reply find bytes_eq
  result_array-merged_reply key merged = ap as_array (find-field key (array (items_of merged)) end)

  -- The text of a merged reply, if the library reads back what it dumped there and the text is not nested
  -- too deep, is read as one entry for each merged item, in their order.
  pub parse_list-merged_reply :
      (parse : List ℕ → Option Json) (dump : Json → List ℕ) (key : List ℕ) (merged : List Json)
      → parse (dump (merged_reply key merged)) ≡ some (merged_reply key merged)
      → exceeds_json_nesting_depth (dump (merged_reply key merged)) max_json_nesting_depth ≡ false
      → parse_list parse (dump (merged_reply key merged)) key fill ≡ map fill merged
  unfolding parse_list parse_bounded_json
  parse_list-merged_reply parse dump key merged reads shallow =
      rw (shallow, reads, result_array-merged_reply key merged) (fill_each-items_of merged)
