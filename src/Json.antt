-- ===== src/Json.antt =====
-- JSON values as the third-party parser returns them, and the guard of src/core/json_request.h
-- that runs before it. The parser itself is a parameter.
use homedeck.Base.{
  ℕ, Bool, false, ◌&&◌, ◌||◌, Option, none, some, List, [], ◌∷◌, ◌==◌, if◌then◌else◌, bytes_eq,
}
use homedeck.Base.Int.{ℤ, pos, ◌+ℤ◌, ◌-ℤ◌, ltb_ℤ}

-- A float is kept as its 64-bit pattern.
mutual
  pub data Json : Type 0 where
    null : Json
    boolean : Bool → Json
    integer : ℤ → Json
    float : ℕ → Json
    string : List ℕ → Json
    array : Items → Json
    object : Fields → Json

  pub data Items : Type 0 where
    nil : Items
    cons : Json → Items → Items

  pub data Fields : Type 0 where
    end : Fields
    field : List ℕ → Json → Fields → Fields

-- `json::find` in an object.
unfoldable pub find : List ℕ → Fields → Option Json
find key end = none
find key (field k v rest) = if bytes_eq k key then some v else find key rest

-- A member that has to be a string.
unfoldable pub string_member : List ℕ → Fields → Option (List ℕ)
string_member key fields = elim (find key fields) [ some (string text) ↦ some text | _ ↦ none ]

abbrev pub max_json_nesting_depth : ℕ
max_json_nesting_depth = 32

-- Where the bracket-counting scan is: in the text of a value, in a string, or behind a backslash.
pub data Mode : Type 0 where
  code in_string escaped : Mode

pub next_mode : Mode → ℕ → Mode
next_mode code c = if c == b'"' then in_string else code
next_mode in_string c = if c == 92 then escaped else if c == b'"' then code else in_string
next_mode escaped c = in_string

is_opening : Mode → ℕ → Bool
is_opening code c = c == b'{' || c == b'['
is_opening _ c = false

is_closing : Mode → ℕ → Bool
is_closing code c = c == b'}' || c == b']'
is_closing _ c = false

next_depth : Mode → ℕ → ℤ → ℤ
unfolding is_opening is_closing
next_depth mode c depth =
    if is_opening mode c
    then depth +ℤ pos 1
    else if is_closing mode c
    then depth -ℤ pos 1
    else depth

depth_scan : ℕ → Mode → ℤ → List ℕ → Bool
unfolding next_depth next_mode is_opening
depth_scan max_depth _ depth [] = false
depth_scan max_depth mode depth (c ∷ cs) =
    let depth' = next_depth mode c depth in
    is_opening mode c && ltb_ℤ (pos max_depth) depth'
    || depth_scan max_depth (next_mode mode c) depth' cs

unfoldable pub exceeds_json_nesting_depth : List ℕ → ℕ → Bool
unfolding depth_scan
exceeds_json_nesting_depth text max_depth = depth_scan max_depth code (pos 0) text

-- The parser answers `none` where the library returns a discarded value.
module _ (parse : List ℕ → Option Json) where
  unfoldable pub parse_bounded_json : List ℕ → Option Json
  unfolding exceeds_json_nesting_depth
  parse_bounded_json text =
      if exceeds_json_nesting_depth text max_json_nesting_depth then none else parse text

  keep_object : Option Json → Option Fields
  keep_object (some (object fields)) = some fields
  keep_object _ = none

  unfoldable pub try_parse_json_object : List ℕ → Option Fields
  unfolding parse_bounded_json keep_object
  try_parse_json_object body = keep_object (parse_bounded_json body)
