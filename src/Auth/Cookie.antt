-- ===== src/Auth/Cookie.antt =====
-- `ExtractCookie` of src/core/admin_auth_service.cpp: one cookie's value in a `Cookie` header.
use homedeck.Base.{
  ℕ, zero, suc, ◌<◌, ◌≡◌, refl, ◌≢◌, Bool, true, false, Option, none, some, List, [], ◌∷◌, ◌++◌,
  arith, ◌==◌, if◌then◌else◌, bytes_eq, All, All-append, length, length-append, ◌∙◌, ap,
}

-- The text before the first `d`, and the text behind it if there is one.
unfoldable pub split_at : ℕ → List ℕ → List ℕ × Option (List ℕ)
split_at d [] = ([], none)
split_at d (c ∷ cs) =
    let (head, rest) = split_at d cs in if c == d then ([], some cs) else (c ∷ head, rest)

-- `find_first_not_of(' ')`: a key of spaces alone stays as it is.
drop_spaces : List ℕ → Option (List ℕ)
drop_spaces [] = none
drop_spaces (c ∷ cs) = if c == b' ' then drop_spaces cs else some (c ∷ cs)

trim_key : List ℕ → List ℕ
unfolding drop_spaces
trim_key key = elim (drop_spaces key) [ none ↦ key | some rest ↦ rest ]

-- One `key=value` pair, split at its first `=`.
match_split : List ℕ → List ℕ × Option (List ℕ) → Option (List ℕ)
unfolding trim_key
match_split name (key, none) = none
match_split name (key, some value) = if bytes_eq (trim_key key) name then some value else none

match_pair : List ℕ → List ℕ → Option (List ℕ)
unfolding split_at match_split
match_pair name pair = match_split name (split_at b'=' pair)

-- The value returns at once; else the loop goes on behind the separator, if there was one.
after_pair : Option (List ℕ) → Option (List ℕ) → (List ℕ → Option (List ℕ)) → Option (List ℕ)
after_pair (some value) rest next = some value
after_pair none none next = none
after_pair none (some rest) next = next rest

-- The loop; each round takes at least one byte off the header, so its length is fuel enough.
pub extract_loop : ℕ → List ℕ → List ℕ → Option (List ℕ)
unfolding match_pair after_pair
extract_loop zero name header = none
extract_loop (suc fuel) name [] = none
extract_loop (suc fuel) name (c ∷ cs) =
    let (pair, rest) = split_at b';' (c ∷ cs) in
    after_pair (match_pair name pair) rest (extract_loop fuel name)

unfoldable pub extract_cookie : List ℕ → List ℕ → Option (List ℕ)
unfolding extract_loop
extract_cookie header name = extract_loop (suc (length header)) name header

split_at-append :
    (d : ℕ) (xs ys : List ℕ) → All (λ c. c ≢ d) xs → split_at d (xs ++ (d ∷ ys)) ≡ (xs, some ys)
unfolding split_at
split_at-append d [] ys h = ground arith
split_at-append d (x ∷ xs) ys h = ground (arith, split_at-append d xs ys h.1)

split_at_end : (d : ℕ) (xs : List ℕ) → All (λ c. c ≢ d) xs → split_at d xs ≡ (xs, none)
unfolding split_at
split_at_end d [] h = refl
split_at_end d (x ∷ xs) h = ground (arith, split_at_end d xs h.1)

trim_key_lead : (c : ℕ) (cs : List ℕ) → c ≢ b' ' → trim_key (b' ' ∷ c ∷ cs) ≡ c ∷ cs
unfolding trim_key
trim_key_lead c cs h = ground arith

trim_key_none : (c : ℕ) (cs : List ℕ) → c ≢ b' ' → trim_key (c ∷ cs) ≡ c ∷ cs
unfolding trim_key
trim_key_none c cs h = ground arith

-- A cookie as a browser sends it: the key is not empty, has neither `=` nor `;` and does not
-- begin with a space; the value has no `;`.
pub record Cookie : Type 0 where
  pub first : ℕ
  pub more : List ℕ
  pub value : List ℕ

abbrev pub key_of : Cookie → List ℕ
key_of c = c.first ∷ c.more

pub record IsCookie (c : Cookie) : Type 0 where
  pub no_space : c.first ≢ b' '
  pub key_whole : All (λ b. b ≢ b'=') (key_of c)
  pub key_plain : All (λ b. b ≢ b';') (key_of c)
  pub value_plain : All (λ b. b ≢ b';') c.value

abbrev lead_text : Bool → List ℕ
lead_text true = b' ' ∷ []
lead_text false = []

abbrev segment : Bool → Cookie → List ℕ
segment lead c = lead_text lead ++ (key_of c ++ (b'=' ∷ c.value))

-- A header with these cookies, in RFC 6265's form.
print_from : Bool → Cookie → List Cookie → List ℕ
print_from lead c [] = segment lead c
print_from lead c (d ∷ ds) = segment lead c ++ (b';' ∷ print_from true d ds)

pub print_cookies : Cookie → List Cookie → List ℕ
unfolding print_from
print_cookies c cs = print_from false c cs

unfoldable pub find_cookie : List ℕ → List Cookie → Option (List ℕ)
find_cookie name [] = none
find_cookie name (c ∷ cs) = if bytes_eq (key_of c) name then some c.value else find_cookie name cs

match_segment :
    (lead : Bool) (name : List ℕ) (c : Cookie)
    → IsCookie c
    → match_pair name (segment lead c) ≡ (if bytes_eq (key_of c) name then some c.value else none)
unfolding match_pair match_split
match_segment true name c h =
    ap (match_split name)
      (split_at-append b'=' (b' ' ∷ key_of c) c.value (omega arith, h.key_whole))
    ∙ ap (λ k. if bytes_eq k name then some c.value else none)
        (trim_key_lead c.first c.more h.no_space)
match_segment false name c h =
    ap (match_split name) (split_at-append b'=' (key_of c) c.value h.key_whole)
    ∙ ap (λ k. if bytes_eq k name then some c.value else none)
        (trim_key_none c.first c.more h.no_space)

segment_plain : (lead : Bool) (c : Cookie) → IsCookie c → All (λ b. b ≢ b';') (segment lead c)
segment_plain lead c h =
    All-append (λ b. b ≢ b';') (lead_text lead) (key_of c ++ (b'=' ∷ c.value)) (lead_plain lead)
      (All-append (λ b. b ≢ b';') (key_of c) (b'=' ∷ c.value) h.key_plain
        (omega arith, h.value_plain))
  where
    lead_plain : (l : Bool) → All (λ b. b ≢ b';') (lead_text l)
    lead_plain true = (omega arith, tt)
    lead_plain false = tt

loop_last :
    (fuel : ℕ) (name seg : List ℕ)
    → seg ≢ []
    → All (λ b. b ≢ b';') seg
    → extract_loop (suc fuel) name seg ≡ match_pair name seg
unfolding extract_loop
loop_last fuel name [] n h = absurd (n refl)
loop_last fuel name (x ∷ seg) n h =
    ap (λ p. after_pair (match_pair name p.0) p.1 (extract_loop fuel name))
      (split_at_end b';' (x ∷ seg) h)
    ∙ after_pair_last (match_pair name (x ∷ seg))
  where
    after_pair_last : (o : Option (List ℕ)) → after_pair o none (extract_loop fuel name) ≡ o
    after_pair_last none = refl
    after_pair_last (some v) = refl

loop_more :
    (fuel : ℕ) (name seg rest : List ℕ)
    → seg ≢ []
    → All (λ b. b ≢ b';') seg
    → extract_loop (suc fuel) name (seg ++ (b';' ∷ rest))
      ≡ after_pair (match_pair name seg) (some rest) (extract_loop fuel name)
unfolding extract_loop
loop_more fuel name [] rest n h = absurd (n refl)
loop_more fuel name (x ∷ seg) rest n h =
    ap (λ p. after_pair (match_pair name p.0) p.1 (extract_loop fuel name))
      (split_at-append b';' (x ∷ seg) rest h)

segment_nonempty : (lead : Bool) (c : Cookie) → segment lead c ≢ []
segment_nonempty true c e = cc
segment_nonempty false c e = cc

extract_loop-print :
    (fuel : ℕ) (lead : Bool) (name : List ℕ) (c : Cookie) (cs : List Cookie)
    → IsCookie c
    → All IsCookie cs
    → length (print_from lead c cs) < fuel
    → extract_loop fuel name (print_from lead c cs) ≡ find_cookie name (c ∷ cs)
unfolding print_from find_cookie after_pair
extract_loop-print zero lead name c cs h hs l = absurd (omega arith)
extract_loop-print (suc fuel) lead name c [] h hs l =
    loop_last fuel name (segment lead c) (segment_nonempty lead c) (segment_plain lead c h)
    ∙ match_segment lead name c h
extract_loop-print (suc fuel) lead name c (d ∷ ds) h hs l =
    loop_more fuel name (segment lead c) (print_from true d ds) (segment_nonempty lead c)
      (segment_plain lead c h)
    ∙ ap (λ o. after_pair o (some (print_from true d ds)) (extract_loop fuel name))
        (match_segment lead name c h)
    ∙ ground (
      arith,
      extract_loop-print fuel true name d ds hs.0 hs.1
          (omega (arith, length-append (segment lead c) (b';' ∷ print_from true d ds))),
    )

-- In a header of well-formed cookies, in the form that browsers send, the first cookie of the
-- wanted name is found, and none if no cookie has that name.
pub extract_cookie-print_cookies :
    (name : List ℕ) (c : Cookie) (cs : List Cookie)
    → IsCookie c
    → All IsCookie cs
    → extract_cookie (print_cookies c cs) name ≡ find_cookie name (c ∷ cs)
unfolding extract_cookie print_cookies
extract_cookie-print_cookies name c cs h hs =
    extract_loop-print (suc (length (print_from false c cs))) false name c cs h hs (omega arith)
