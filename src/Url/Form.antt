-- ===== src/Url/Form.antt =====
-- Reading a field of a form, against the fields of which the form was written.
use homedeck.Base.{
  ℕ, ◌≢◌, ◌≡◌, refl, ◌∙◌, ap, Bool, true, false, Option, none, some, List, [], ◌∷◌, ◌++◌, arith,
  Bool-cases, inl, inr, All, if◌then◌else◌, bytes_eq, All-append,
}
use mathlib.Core.List.{append_assoc}
use homedeck.Codec.Hex.{IsByte}
use homedeck.Url.{
  url_decode, url_encode, strip, until_ampersand, prefer, find_field, form_value, parse_form_field,
}
use homedeck.Url.Codec.{url_decode-url_encode, url_encode-IsClean, IsClean}

abbrev pub Field : Type 0
Field = List ℕ × List ℕ

-- `key=value`, with the value encoded.
abbrev pub field_text : Field → List ℕ
field_text (key, value) = key ++ (b'=' ∷ url_encode value)

abbrev pub more_fields : List Field → List ℕ
more_fields [] = []
more_fields (f ∷ fs) = b'&' ∷ (field_text f ++ more_fields fs)

-- The fields of a form, one behind the other with a `&` between them.
abbrev pub form_text : List Field → List ℕ
form_text [] = []
form_text (f ∷ fs) = field_text f ++ more_fields fs

-- The value of the first field of a name.
abbrev pub first_value : List ℕ → List Field → Option (List ℕ)
first_value key [] = none
first_value key ((k, v) ∷ fs) = if bytes_eq k key then some v else first_value key fs

abbrev pub IsField : Field → Type 0
IsField (key, value) = All IsClean key × All IsByte value

-- A prefix with its `=` stands at the start of a field exactly where the names agree.
strip_field :
    (key k rest : List ℕ)
    → All IsClean key
    → All IsClean k
    → strip (key ++ (b'=' ∷ [])) (k ++ (b'=' ∷ rest)) ≡ (if bytes_eq k key then some rest else none)
unfolding strip bytes_eq
strip_field [] [] rest hk h = refl
strip_field [] (c ∷ k) rest hk h = ground (arith, h.0.1)
strip_field (p ∷ key) [] rest hk h = ground (arith, hk.0.1)
strip_field (p ∷ key) (c ∷ k) rest hk h = ground (arith, strip_field key k rest hk.1 h.1)

abbrev NoAmpersand : List ℕ → Type 0
NoAmpersand = All (λ c. c ≢ b'&')

IsClean-NoAmpersand : (xs : List ℕ) → All IsClean xs → NoAmpersand xs
IsClean-NoAmpersand [] h = tt
IsClean-NoAmpersand (c ∷ xs) h = (h.0.0, IsClean-NoAmpersand xs h.1)

field-NoAmpersand : (k e : List ℕ) → All IsClean k → All IsClean e → NoAmpersand (k ++ (b'=' ∷ e))
field-NoAmpersand k e h h' =
    All-append (λ c. c ≢ b'&') k (b'=' ∷ e) (IsClean-NoAmpersand k h)
      (omega arith, IsClean-NoAmpersand e h')

skip_lem :
    (prefix xs rest : List ℕ)
    → NoAmpersand xs
    → find_field prefix false (xs ++ rest) ≡ find_field prefix false rest
unfolding find_field prefer
skip_lem prefix [] rest h = refl
skip_lem prefix (c ∷ xs) rest h = ground (arith, h.0, skip_lem prefix xs rest h.1)

until_more :
    (v : List ℕ) (fs : List Field) → NoAmpersand v → until_ampersand (v ++ more_fields fs) ≡ v
unfolding until_ampersand
until_more [] [] h = refl
until_more [] (f ∷ fs) h = refl
until_more (c ∷ v) fs h = ground (arith, h.0, until_more v fs h.1)

-- At a boundary, the prefix is tried, and then the rest of the field passed over.
at_boundary :
    (prefix xs rest : List ℕ)
    → xs ≢ []
    → NoAmpersand xs
    → find_field prefix true (xs ++ rest)
      ≡ prefer (strip prefix (xs ++ rest)) (find_field prefix false rest)
unfolding find_field prefer
at_boundary prefix [] rest n h = absurd (n refl)
at_boundary prefix (c ∷ xs) rest n h = ground (arith, h.0, skip_lem prefix xs rest h.1)

nonempty : (k e : List ℕ) → k ++ (b'=' ∷ e) ≢ []
nonempty [] e h = cc
nonempty (c ∷ k) e h = cc

prefer_if :
    (b : Bool) (found other : Option (List ℕ)) (rest : List ℕ)
    → found ≡ (if b then some rest else none)
    → prefer found other ≡ (if b then some rest else other)
unfolding prefer
prefer_if true found other rest e = rw e refl
prefer_if false found other rest e = rw e refl

field_step :
    (key k v : List ℕ) (fs : List Field)
    → All IsClean key
    → All IsClean k
    → All IsByte v
    → find_field (key ++ (b'=' ∷ [])) true (field_text (k, v) ++ more_fields fs) ≡ (
        if bytes_eq k key
        then some (url_encode v ++ more_fields fs)
        else find_field (key ++ (b'=' ∷ [])) false (more_fields fs))
field_step key k v fs hk h hv =
    at_boundary (key ++ (b'=' ∷ [])) (k ++ (b'=' ∷ url_encode v)) (more_fields fs)
      (nonempty k (url_encode v)) (field-NoAmpersand k (url_encode v) h (url_encode-IsClean v hv))
    ∙ rw (append_assoc k (b'=' ∷ url_encode v) (more_fields fs))
        (prefer_if (bytes_eq k key) _ _ _ (strip_field key k (url_encode v ++ more_fields fs) hk h))

no_text : (prefix : List ℕ) → form_value (find_field prefix true []) ≡ none
unfolding find_field form_value
no_text prefix = refl

more_lem :
    (prefix : List ℕ) (fs : List Field)
    → find_field prefix false (more_fields fs) ≡ find_field prefix true (form_text fs)
unfolding find_field prefer
more_lem prefix [] = refl
more_lem prefix (f ∷ fs) = refl

value_lem :
    (v : List ℕ) (fs : List Field)
    → All IsByte v
    → form_value (some (url_encode v ++ more_fields fs)) ≡ some v
unfolding form_value
value_lem v fs h =
    ap (λ t. some (url_decode t))
      (until_more (url_encode v) fs (IsClean-NoAmpersand (url_encode v) (url_encode-IsClean v h)))
    ∙ ap some (url_decode-url_encode v h)

-- The form's fields were written with their values encoded: the parser finds, for a name, the value of
-- the first field of this name, and nothing where there is none. The names have no `&` and no `=`, and
-- the values are bytes.
pub parse_form_field-form_text :
    (key : List ℕ) (fs : List Field)
    → All IsClean key
    → All IsField fs
    → parse_form_field (form_text fs) key ≡ first_value key fs
unfolding parse_form_field
parse_form_field-form_text key [] hk h = no_text (key ++ (b'=' ∷ []))
parse_form_field-form_text key ((k, v) ∷ fs) hk h = elim (Bool-cases (bytes_eq k key)) [
  | inl same ↦ ap form_value (field_step key k v fs hk h.0.0 h.0.1) ∙ rw same (value_lem v fs h.0.1)
  | inr other ↦
      ap form_value (field_step key k v fs hk h.0.0 h.0.1)
      ∙ rw other (
          ap form_value (more_lem (key ++ (b'=' ∷ [])) fs)
          ∙ parse_form_field-form_text key fs hk h.1)
]
