-- ===== src/Harmony/Url.antt =====
-- The URLs that src/core/harmony_connection.cpp concatenates, and how a URL is taken apart.
use homedeck.Base.{
  ℕ, ◌≡◌, ◌≢◌, refl, ◌∙◌, ap, Bool, true, false, ◌||◌, List, [], ◌∷◌, ◌++◌, arith, ◌==◌,
  if◌then◌else◌, All, All-append, Bool-cases, drop, subst, sym, inl, inr, ==_iff,
}
use mathlib.Core.List.{append_assoc}
use mathlib.Core.Bool.{true≢false}
use homedeck.Base.Text.{codes}
use homedeck.Harmony.Host.{
  is_alnum, is_valid_hub_host, is_valid_hub_id, is_valid_hub_host-IsPlain, is_valid_hub_id-IsAlnum,
  IsPlain,
}

unfoldable pub handshake_url : List ℕ → List ℕ
handshake_url hub_host = codes "http://" ++ (hub_host ++ codes ":8088/")

unfoldable pub web_socket_url : List ℕ → List ℕ → List ℕ
web_socket_url hub_host hub_id =
    codes "ws://" ++ (hub_host ++ (codes ":8088/?domain=svcs.myharmony.com&hubId=" ++ hub_id))

-- The text before the first byte that passes the test, and the rest from that byte on.
pub split_before : (ℕ → Bool) → List ℕ → List ℕ × List ℕ
split_before p [] = ([], [])
split_before p (c ∷ cs) =
    let (head, rest) = split_before p cs in if p c then ([], c ∷ cs) else (c ∷ head, rest)

-- RFC 3986: the authority ends at the first `/`, `?` or `#`; an `@` in it ends the user's name,
-- and a `:` begins the port.
abbrev ends_authority : ℕ → Bool
ends_authority c = c == b'/' || c == b'?' || c == b'#'

abbrev pub authority : List ℕ → List ℕ
authority rest = (split_before ends_authority rest).0

abbrev pub at_sign : List ℕ → List ℕ × List ℕ
at_sign text = split_before (λ c. c == b'@') text

abbrev pub host_port : List ℕ → List ℕ × List ℕ
host_port text = split_before (λ c. c == b':') text

split_before-append :
    (p : ℕ → Bool) (xs : List ℕ) (d : ℕ) (ys : List ℕ)
    → All (λ c. p c ≡ false) xs
    → p d ≡ true
    → split_before p (xs ++ (d ∷ ys)) ≡ (xs, d ∷ ys)
unfolding split_before
split_before-append p [] d ys h e = ground arith
split_before-append p (x ∷ xs) d ys h e = ground (arith, split_before-append p xs d ys h.1 e)

split_before_end :
    (p : ℕ → Bool) (xs : List ℕ) → All (λ c. p c ≡ false) xs → split_before p xs ≡ (xs, [])
unfolding split_before
split_before_end p [] h = refl
split_before_end p (x ∷ xs) h = ground (arith, split_before_end p xs h.1)

onto : ℕ → List (List ℕ) → List (List ℕ)
onto c [] = (c ∷ []) ∷ []
onto c (piece ∷ more) = (c ∷ piece) ∷ more

-- The pieces between the bytes `d`.
pub pieces : ℕ → List ℕ → List (List ℕ)
unfolding onto
pieces d [] = [] ∷ []
pieces d (c ∷ cs) = if c == d then [] ∷ pieces d cs else onto c (pieces d cs)

plain_authority : (h : List ℕ) → All IsPlain h → All (λ c. ends_authority c ≡ false) h
plain_authority [] p = tt
plain_authority (c ∷ cs) (p, ps) =
    (ground (arith, p.no_slash, p.no_query, p.no_fragment), plain_authority cs ps)

plain_user : (h : List ℕ) → All IsPlain h → All (λ c. (c == b'@') ≡ false) h
plain_user [] p = tt
plain_user (c ∷ cs) (p, ps) = (ground (arith, p.no_user), plain_user cs ps)

plain_port : (h : List ℕ) → All IsPlain h → All (λ c. (c == b':') ≡ false) h
plain_port [] p = tt
plain_port (c ∷ cs) (p, ps) = (ground (arith, p.no_port), plain_port cs ps)

differs : (d c : ℕ) → is_alnum d ≡ false → is_alnum c ≡ true → (c == d) ≡ false
differs d c n h = elim (Bool-cases (c == d)) [
  | inl e ↦ absurd (true≢false (sym h ∙ ap is_alnum ((==_iff c d).0 e) ∙ n))
  | inr e ↦ e
]

alnum_plain :
    (d : ℕ) (v : List ℕ)
    → is_alnum d ≡ false
    → All (λ c. is_alnum c ≡ true) v
    → All (λ c. (c == d) ≡ false) v
alnum_plain d [] n h = tt
alnum_plain d (c ∷ cs) n h = (differs d c n h.0, alnum_plain d cs n h.1)

-- What a URL's reader takes from an authority: no user, the host `h` and the port 8088.
abbrev pub ReadsAs : List ℕ → List ℕ → Type 0
ReadsAs text h = (at_sign text ≡ (text, [])) × (host_port text ≡ (h, codes ":8088"))

reads_as : (h : List ℕ) → All IsPlain h → ReadsAs (h ++ codes ":8088") h
reads_as h p = (
  split_before_end (λ c. c == b'@') (h ++ codes ":8088")
      (All-append (λ c. (c == b'@') ≡ false) h (codes ":8088") (plain_user h p) (ground arith)),
  split_before-append (λ c. c == b':') h b':' (codes "8088") (plain_port h p) refl,
)

address :
    (h : List ℕ) (d : ℕ) (ys : List ℕ)
    → All IsPlain h
    → ends_authority d ≡ true
    → authority (h ++ (codes ":8088" ++ (d ∷ ys))) ≡ h ++ codes ":8088"
address h d ys p e =
    ap authority (sym (append_assoc h (codes ":8088") (d ∷ ys)))
    ∙ ap (λ r. r.0)
        (split_before-append ends_authority (h ++ codes ":8088") d ys
          (All-append (λ c. ends_authority c ≡ false) h (codes ":8088") (plain_authority h p)
            (ground arith))
          e)

pieces_end : (d : ℕ) (v : List ℕ) → All (λ c. (c == d) ≡ false) v → pieces d v ≡ v ∷ []
unfolding pieces onto
pieces_end d [] h = refl
pieces_end d (c ∷ cs) h = rw (h.0, pieces_end d cs h.1)

query_pieces :
    (v : List ℕ)
    → All (λ c. is_alnum c ≡ true) v
    → pieces b'&' (codes "domain=svcs.myharmony.com&hubId=" ++ v)
      ≡ codes "domain=svcs.myharmony.com" ∷ (codes "hubId=" ++ v) ∷ []
unfolding pieces onto
query_pieces v h = rw (pieces_end b'&' v (alnum_plain b'&' v refl h))

unequal : (d : ℕ) (xs : List ℕ) → All (λ c. (c == d) ≡ false) xs → All (λ c. c ≢ d) xs
unequal d [] h = tt
unequal d (x ∷ xs) h = (ground (arith, h.0), unequal d xs h.1)

query_whole :
    (v : List ℕ)
    → All (λ c. is_alnum c ≡ true) v
    → All (λ c. c ≢ b'#') (codes "domain=svcs.myharmony.com&hubId=" ++ v)
query_whole v h =
    All-append (λ c. c ≢ b'#') (codes "domain=svcs.myharmony.com&hubId=") v (omega arith)
      (unequal b'#' v (alnum_plain b'#' v refl h))

-- The address of the handshake is on the configured host and port 8088, for every host that the
-- settings accept: no byte of it can begin a path, a query, a fragment, a user or a port.
pub handshake_url-ReadsAs :
    (h : List ℕ)
    → is_valid_hub_host h ≡ true
    → (authority (drop 7 (handshake_url h)) ≡ h ++ codes ":8088")
      × ReadsAs (authority (drop 7 (handshake_url h))) h
unfolding handshake_url
handshake_url-ReadsAs h e =
    let e' = address h b'/' [] (is_valid_hub_host-IsPlain h e) refl in
    (e', subst (λ a. ReadsAs a h) (sym e') (reads_as h (is_valid_hub_host-IsPlain h e)))

-- The WebSocket's address is on the configured host and port 8088, and its query has the domain and
-- the hub's id alone, for every host that the settings accept and every id that the handshake
-- accepts: an id of the hub's answer adds no parameter and no fragment.
pub web_socket_url-ReadsAs :
    (h v : List ℕ)
    → is_valid_hub_host h ≡ true
    → is_valid_hub_id v ≡ true
    → (rest : List ℕ) × (drop 5 (web_socket_url h v)
        ≡ authority (drop 5 (web_socket_url h v)) ++ (codes "/?" ++ rest))
      × ReadsAs (authority (drop 5 (web_socket_url h v))) h
      × (pieces b'&' rest ≡ codes "domain=svcs.myharmony.com" ∷ (codes "hubId=" ++ v) ∷ [])
      × All (λ c. c ≢ b'#') rest
unfolding web_socket_url
web_socket_url-ReadsAs h v e i =
    let p = is_valid_hub_host-IsPlain h e in
    let a = (is_valid_hub_id-IsAlnum v i).1 in
    let query = codes "domain=svcs.myharmony.com&hubId=" ++ v in
    let e' = address h b'/' (b'?' ∷ query) p refl in
    (
      query,
      ap (λ x. x) (sym (append_assoc h (codes ":8088") (b'/' ∷ b'?' ∷ query)))
          ∙ ap (λ x. x ++ (codes "/?" ++ query)) (sym e'),
      subst (λ x. ReadsAs x h) (sym e') (reads_as h p),
      query_pieces v a,
      query_whole v a,
    )
