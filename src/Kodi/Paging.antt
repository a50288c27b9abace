-- ===== src/Kodi/Paging.antt =====
-- `CallLibrary` of src/core/kodi_client.cpp: a listing fetched in pages and merged.
pub mod Bounds
pub mod Reread
use homedeck.Base.{
  ℕ, zero, suc, ◌+◌, ◌-◌, ◌/◌, ◌==◌, ◌&&◌, ◌||◌, Bool, true, false, not, Option, none, some, List,
  [], ◌∷◌, ◌++◌, if◌then◌else◌, is_empty, ltb, leb, length, take, bytes_eq,
}
use homedeck.Base.Int.{ℤ, pos, negsuc, ltb_ℤ}
use homedeck.Base.Text.{codes}
use homedeck.Json.{
  Json, integer, object, array, Items, nil, cons, Fields, end, field, parse_bounded_json,
}
use homedeck.Kodi.Reply.{get_int, result_array, member}
use homedeck.Kodi.Client.{Outside, Client}
use homedeck.Kodi.Call.{call, is_some}
use homedeck.Kodi.Commands.{send_pending_commands}

abbrev pub library_page_size : ℕ
library_page_size = 500

abbrev pub max_library_items : ℕ
max_library_items = 10000

bytes_less : List ℕ → List ℕ → Bool
bytes_less [] [] = false
bytes_less [] (y ∷ ys) = true
bytes_less (x ∷ xs) [] = false
bytes_less (x ∷ xs) (y ∷ ys) = ltb x y || x == y && bytes_less xs ys

-- An object's members are kept in the order of their keys.
unfoldable pub set_field : List ℕ → Json → Fields → Fields
unfolding bytes_less
set_field key value end = field key value end
set_field key value (field k v rest) =
    let later = field k v (set_field key value rest) in
    if bytes_eq k key
    then field key value rest
    else if bytes_less key k
    then field key value (field k v rest)
    else later

unfoldable pub erase_field : List ℕ → Fields → Fields
erase_field key end = end
erase_field key (field k v rest) =
    let later = field k v (erase_field key rest) in if bytes_eq k key then rest else later

unfoldable pub with_limits : ℕ → Fields → Fields
unfolding set_field
with_limits start params =
    set_field (codes "limits")
      (object (
        field (codes "end") (integer (pos (start + library_page_size)))
          (field (codes "start") (integer (pos start)) end)))
      params

unfoldable pub elements : Items → List Json
elements nil = []
elements (cons element items) = element ∷ elements items

unfoldable pub items_of : List Json → Items
items_of [] = nil
items_of (element ∷ rest) = cons element (items_of rest)

abbrev pub timed_out_reply : List ℕ
timed_out_reply = codes "{\"error\":{\"code\":-1,\"message\":\"timed out\"}}"

-- What the loop over the pages ends with: a dead transport, a text that is returned as it is, or the
-- merged items; `unfinished` if the fuel did not suffice. The flag is `truncated`.
pub data Paged : Type 0 where
  gone unfinished : Paged
  answered : Option (List ℕ) → Bool → Paged
  collected : List Json → Bool → Paged

-- The total that a page states, -1 if there is none.
total_of : Option Json → ℤ
unfolding get_int
total_of none = get_int (object end) (codes "total") (negsuc 0)
total_of (some limits) = get_int limits (codes "total") (negsuc 0)

unfoldable pub stated_total : Json → ℤ
unfolding total_of member
stated_total parsed = elim (member (codes "result") parsed) [
  | none ↦ negsuc 0
  | some result ↦ total_of (member (codes "limits") result)
]

-- The listing is complete behind a page of this size.
unfoldable pub is_last_page : ℕ → ℕ → ℤ → Bool
is_last_page page_size start total =
    not (page_size == library_page_size)
    || not (ltb_ℤ total (pos 0)) && not (ltb_ℤ (pos start) total)

-- The items of a page are taken up to the bound.
unfoldable pub merge_page : List Json → List Json → List Json
merge_page merged page = merged ++ take (max_library_items - length merged) page

unfoldable pub merged_reply : List ℕ → List Json → Json
unfolding items_of
merged_reply key merged =
    object (field (codes "result") (object (field key (array (items_of merged)) end)) end)

unfoldable pub has_error : Option Json → Bool
unfolding member is_some
has_error none = false
has_error (some parsed) = is_some (member (codes "error") parsed)

unfoldable pub array_of : List ℕ → Option Json → Option (List Json)
unfolding result_array elements
array_of key none = none
array_of key (some parsed) = elim (result_array parsed key) [
  | none ↦ none
  | some items ↦ some (elements items)
]

unfoldable pub total_in : Option Json → ℤ
unfolding stated_total
total_in none = negsuc 0
total_in (some parsed) = stated_total parsed

-- What one query is made of.
pub record Query : Type 0 where
  pub method : List ℕ
  pub result_key : List ℕ
  pub library_busy_after : ℕ
  pub timeout_ms : ℕ
  pub max_age : ℕ

-- Where the loop stands behind a page that is there.
pub data Next : Type 0 where
  done : Paged → Next
  more : ℕ → List Json → Bool → Next

unfoldable pub after_page : ℕ → List Json → List Json → ℤ → Next
unfolding merge_page is_last_page
after_page start merged page total =
    let merged' = merge_page merged page in
    let start' = start + length page in
    if is_last_page (length page) start' total
    then done (collected merged' false)
    else more start' merged' (leb max_library_items (length merged'))

module _ (o : Outside) where
  unfoldable pub survive_timeout : Option (List ℕ) × Client o → Paged × Client o
  survive_timeout (some text, c) = (answered (some text) false, c)
  survive_timeout (none, c) =
      if c.last_call_timed_out
      then (answered (some timed_out_reply) true, c)
      else (answered none false, c)

  unfoldable pub call_listing : Query → List ℕ → Client o → Option (List ℕ) × Client o
  unfolding call
  call_listing q params_json c =
      call o q.library_busy_after q.method params_json q.timeout_ms true c

  unfoldable pub unlimited : Fields → List ℕ
  unfolding erase_field
  unlimited params = o.dump (object (erase_field (codes "limits") params))

  -- The first page is no listing: if it is an error, then once more without limits.
  unfoldable pub no_listing : Query → Fields → List ℕ → Option Json → Client o → Paged × Client o
  unfolding survive_timeout call_listing has_error unlimited
  no_listing q params text parsed c =
      if has_error parsed
      then survive_timeout (call_listing q (unlimited params) c)
      else (answered (some text) false, c)

  -- No page came.
  unfoldable pub missing_page : List Json → Client o → Paged
  missing_page merged c =
      if not c.last_call_timed_out
      then gone
      else if is_empty merged
      then answered (some timed_out_reply) true
      else collected merged true

  unfoldable pub ended : Paged × Client o → Next × Client o
  ended (p, c) = (done p, c)

  unfoldable pub read_page :
      Query → Fields → ℕ → List Json → Bool → List ℕ → Option Json → Client o → Next × Client o
  unfolding array_of no_listing after_page total_in ended
  read_page q params start merged truncated text parsed c = elim (array_of q.result_key parsed) [
    | some page ↦ (after_page start merged page (total_in parsed), c)
    | none ↦
        if start == 0
        then ended (no_listing q params text parsed c)
        else (done (collected merged true), c)
  ]

  unfoldable pub take_page :
      Query → Fields → ℕ → List Json → Bool → Option (List ℕ) × Client o → Next × Client o
  unfolding missing_page read_page parse_bounded_json
  take_page q params start merged truncated (none, c) = (done (missing_page merged c), c)
  take_page q params start merged truncated (some text, c) =
      read_page q params start merged truncated text (parse_bounded_json o.parse text) c

  unfoldable pub request_page :
      Query → Fields → ℕ → List Json → Bool → Bool × Client o → Next × Client o
  unfolding take_page call_listing with_limits
  request_page q params start merged truncated (sent, c) =
      let params' = with_limits start params in
      if not sent
      then (done gone, c)
      else take_page q params' start merged truncated (call_listing q (o.dump (object params')) c)

  -- Behind the first page the queued commands go out before the next request.
  unfoldable pub between_pages : Query → ℕ → Client o → Bool × Client o
  unfolding send_pending_commands
  between_pages q start c =
      if ltb 0 start then send_pending_commands o q.library_busy_after q.max_age c else (true, c)

  -- One page.
  unfoldable pub page_round : Query → Fields → ℕ → List Json → Bool → Client o → Next × Client o
  unfolding request_page between_pages
  page_round q params start merged truncated c =
      request_page q params start merged truncated (between_pages q start c)

  unfoldable pub page_loop : ℕ → Query → Fields → ℕ → List Json → Bool → Client o → Paged × Client o
  unfolding page_round
  page_loop zero q params start merged truncated c = (unfinished, c)
  page_loop (suc fuel) q params start merged truncated c =
      let (next, c') = page_round q params start merged truncated c in
      if ltb (length merged) max_library_items
      then elim next [
        | done p ↦ (p, c')
        | more start' merged' truncated' ↦ page_loop fuel q params start' merged' truncated' c'
      ]
      else (collected merged truncated, c)

  -- The text that is returned, and `truncated`.
  unfoldable pub finish : List ℕ → Paged × Client o → (Option (List ℕ) × Bool) × Client o
  unfolding merged_reply
  finish key (gone, c) = ((none, false), c)
  finish key (unfinished, c) = ((none, false), c)
  finish key (answered text truncated, c) = ((text, truncated), c)
  finish key (collected merged truncated, c) =
      ((some (o.dump (merged_reply key merged)), truncated), c)

  abbrev pub page_fuel : ℕ
  page_fuel = max_library_items / library_page_size + 1

  unfoldable pub paged : Query → Option Json → Client o → (Option (List ℕ) × Bool) × Client o
  unfolding page_loop finish
  paged q (some (object params)) c = finish q.result_key (page_loop page_fuel q params 0 [] false c)
  paged q _ c = ((none, false), c)

  unfoldable pub listing :
      Query → Option (List ℕ) → List ℕ → Bool × Client o → (Option (List ℕ) × Bool) × Client o
  unfolding paged finish survive_timeout call_listing parse_bounded_json
  listing q key params_json (false, c) = ((none, false), c)
  listing q none params_json (true, c) = finish [] (survive_timeout (call_listing q params_json c))
  listing q (some key) params_json (true, c) =
      paged (record q { result_key = key }) (parse_bounded_json o.parse params_json) c

  -- `key` is none for a listing that is not paged.
  unfoldable pub call_library :
      Query → Option (List ℕ) → List ℕ → Client o → (Option (List ℕ) × Bool) × Client o
  unfolding listing send_pending_commands
  call_library q key params_json c =
      listing q key params_json (send_pending_commands o q.library_busy_after q.max_age c)
