-- ===== src/Url/Examples.antt =====
-- Runs of the codec on a form.
use homedeck.Base.{◌≡◌, refl, List, [], ◌∷◌, arith}
use homedeck.Base.Text.{codes}
use homedeck.Url.{url_decode, url_encode, parse_form_field}
use homedeck.Url.Form.{Field, form_text, first_value, parse_form_field-form_text}

decode_runs : url_decode (codes "a%2Fb+c%") ≡ codes "a/b c%"
unfolding url_decode
decode_runs = refl

encode_runs : url_encode (codes "a/b c") ≡ codes "a%2Fb%20c"
unfolding url_encode
encode_runs = refl

-- The name stands in a value first.
abbrev fields : List Field
fields = (codes "a", codes "q=1&q=2") ∷ (codes "q", codes "x y") ∷ []

parse_form_field-form_text_example :
    parse_form_field (form_text fields) (codes "q") ≡ first_value (codes "q") fields
parse_form_field-form_text_example =
    parse_form_field-form_text (codes "q") fields (omega arith) (omega arith)
