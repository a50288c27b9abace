-- ===== src/Log/Joined.antt =====
-- Reading the log: its lines as the elements of an array.
use homedeck.Base.{
  ℕ, ◌≢◌, ◌≡◌, refl, ◌∙◌, ap, sym, false, not, ◌&&◌, List, [], ◌∷◌, ◌++◌, if◌then◌else◌, is_empty,
  arith, All,
}
use mathlib.Core.List.{append_assoc, append-nil}
use homedeck.Log.{onto_first, lines_of, join_lines, join_lines_as_array_elements, bracketed}
use homedeck.Base.Text.{codes}
use homedeck.Log.Tail.{text, IsLine}

abbrev pub more_elements : List (List ℕ) → List ℕ
more_elements [] = []
more_elements (line ∷ lines) = b',' ∷ (line ++ more_elements lines)

-- The elements with a comma between them.
abbrev pub elements : List (List ℕ) → List ℕ
elements [] = []
elements (line ∷ lines) = line ++ more_elements lines

lines_of_line :
    (line rest : List ℕ)
    → All (λ c. c ≢ 10) line
    → lines_of (line ++ (10 ∷ rest)) ≡ line ∷ lines_of rest
unfolding lines_of onto_first
lines_of_line [] rest h = refl
lines_of_line (c ∷ line) rest h = ground (arith, h.0, lines_of_line line rest h.1)

lines_of-text : (lines : List (List ℕ)) → All IsLine lines → lines_of (text lines) ≡ lines
unfolding lines_of
lines_of-text [] h = refl
lines_of-text (line ∷ lines) h =
    lines_of_line line (text lines) h.0.1 ∙ ap (λ l. line ∷ l) (lines_of-text lines h.1)

nonempty_lem : (xs : List ℕ) → xs ≢ [] → is_empty xs ≡ false
nonempty_lem [] n = absurd (n refl)
nonempty_lem (x ∷ xs) n = refl

append_nonempty : (xs ys : List ℕ) → xs ≢ [] → xs ++ ys ≢ []
append_nonempty [] ys n = absurd (n refl)
append_nonempty (x ∷ xs) ys n = λ e. cc

join_more :
    (result : List ℕ) (lines : List (List ℕ))
    → result ≢ []
    → All IsLine lines
    → join_lines result lines ≡ result ++ more_elements lines
unfolding join_lines
join_more result [] n h = sym (append-nil result)
join_more result (line ∷ lines) n h =
    rw (nonempty_lem line h.0.0, nonempty_lem result n)
      (join_more (result ++ (b',' ∷ line)) lines (append_nonempty result (b',' ∷ line) n) h.1
        ∙ append_assoc result (b',' ∷ line) (more_elements lines))

pub join-text :
    (lines : List (List ℕ))
    → All IsLine lines
    → join_lines_as_array_elements (text lines) ≡ elements lines
unfolding join_lines_as_array_elements join_lines
join-text [] h = ap (join_lines []) (lines_of-text [] tt)
join-text (line ∷ lines) h =
    ap (join_lines []) (lines_of-text (line ∷ lines) h)
    ∙ rw (nonempty_lem line h.0.0) (join_more line lines h.0.0 h.1)

more-append :
    (xs ys : List (List ℕ)) → more_elements (xs ++ ys) ≡ more_elements xs ++ more_elements ys
more-append [] ys = refl
more-append (x ∷ xs) ys =
    ap (λ l. b',' ∷ l)
      (ap (λ l. x ++ l) (more-append xs ys)
        ∙ sym (append_assoc x (more_elements xs) (more_elements ys)))

pub elements-append :
    (xs ys : List (List ℕ))
    → All IsLine xs
    → All IsLine ys
    → elements xs
        ++ ((if not (is_empty (elements xs)) && not (is_empty (elements ys)) then b',' ∷ [] else [])
            ++ elements ys)
      ≡ elements (xs ++ ys)
elements-append [] ys hx hy = refl
elements-append (x ∷ xs) [] hx hy =
    rw (nonempty_lem (x ++ more_elements xs) (append_nonempty x (more_elements xs) hx.0.0))
      (append-nil (x ++ more_elements xs) ∙ ap (λ l. elements (x ∷ l)) (sym (append-nil xs)))
elements-append (x ∷ xs) (y ∷ ys) hx hy =
    rw
      (
        nonempty_lem (x ++ more_elements xs) (append_nonempty x (more_elements xs) hx.0.0),
        nonempty_lem (y ++ more_elements ys) (append_nonempty y (more_elements ys) hy.0.0),
        more-append xs (y ∷ ys),
      )
      (append_assoc x (more_elements xs) (b',' ∷ (y ++ more_elements ys)))

pub bracketed-elements :
    (xs ys : List (List ℕ))
    → All IsLine xs
    → All IsLine ys
    → bracketed (elements xs) (elements ys) ≡ codes "[" ++ (elements (xs ++ ys) ++ codes "]")
unfolding bracketed
bracketed-elements xs ys hx hy =
    ap (λ l. codes "[" ++ l)
      (regroup (elements xs) _ (elements ys) (codes "]")
        ∙ ap (λ l. l ++ codes "]") (elements-append xs ys hx hy))
  where
    regroup : (a b c d : List ℕ) → a ++ (b ++ (c ++ d)) ≡ (a ++ (b ++ c)) ++ d
    regroup a b c d = ap (λ l. a ++ l) (sym (append_assoc b c d)) ∙ sym (append_assoc a (b ++ c) d)
