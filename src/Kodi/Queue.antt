-- ===== src/Kodi/Queue.antt =====
-- The queue of listing requests: src/core/kodi_client.cpp, `EnqueueLibraryRequest`.
use homedeck.Base.{
  ℕ, zero, suc, ◌-◌, ◌≤◌, ◌≡◌, refl, ◌∙◌, true, false, ◌==◌, ◌||◌, List, [], ◌∷◌, ◌++◌, if_both,
  bytes_eq, arith, length, drop, length-append, length-drop,
}
use homedeck.Base.Int.{ℤ}
use homedeck.Kodi.Playing.{same_ℤ}
use homedeck.Kodi.Client.{
  LibraryRequest, kind_number, same_request, is_waiting, queue_request,
  max_pending_library_requests,
}

-- No request waits twice.
abbrev pub Distinct : List LibraryRequest → Type 0
Distinct [] = Unit
Distinct (r ∷ rs) = (is_waiting r rs ≡ false) × Distinct rs

-- What holds of the queue between two requests.
pub record IsTidy (pending : List LibraryRequest) : Type 0 where
  pub bounded : length pending ≤ 8
  pub distinct : Distinct pending

bytes_eq_comm : (a b : List ℕ) → bytes_eq a b ≡ bytes_eq b a
unfolding bytes_eq
bytes_eq_comm [] [] = refl
bytes_eq_comm [] (y ∷ ys) = refl
bytes_eq_comm (x ∷ xs) [] = refl
bytes_eq_comm (x ∷ xs) (y ∷ ys) = ground (arith, bytes_eq_comm xs ys)

same_ℤ_comm : (a b : ℤ) → same_ℤ a b ≡ same_ℤ b a
unfolding same_ℤ
same_ℤ_comm a b = ground arith

bytes_eq_self : (a : List ℕ) → bytes_eq a a ≡ true
unfolding bytes_eq
bytes_eq_self [] = refl
bytes_eq_self (x ∷ xs) = ground (arith, bytes_eq_self xs)

same_ℤ_self : (a : ℤ) → same_ℤ a a ≡ true
unfolding same_ℤ
same_ℤ_self a = ground arith

equal_comm : (m n : ℕ) → (m == n) ≡ (n == m)
equal_comm m n = ground arith

same_request_comm : (a b : LibraryRequest) → same_request a b ≡ same_request b a
unfolding same_request
same_request_comm a b = rw (
  equal_comm (kind_number a.kind) (kind_number b.kind),
  same_ℤ_comm a.parent_id b.parent_id,
  same_ℤ_comm a.season b.season,
  bytes_eq_comm a.path b.path,
)

same_request_self : (a : LibraryRequest) → same_request a a ≡ true
unfolding same_request
same_request_self a =
    let e : (kind_number a.kind == kind_number a.kind) ≡ true = ground arith in
    rw (e, same_ℤ_self a.parent_id, same_ℤ_self a.season, bytes_eq_self a.path)

is_waiting-append :
    (r : LibraryRequest) (xs ys : List LibraryRequest)
    → is_waiting r (xs ++ ys) ≡ (is_waiting r xs || is_waiting r ys)
unfolding is_waiting
is_waiting-append r [] ys = refl
is_waiting-append r (x ∷ xs) ys = ground (arith, is_waiting-append r xs ys)

Distinct-append :
    (request : LibraryRequest) (xs : List LibraryRequest)
    → is_waiting request xs ≡ false
    → Distinct xs
    → Distinct (xs ++ (request ∷ []))
unfolding is_waiting
Distinct-append request [] h d = (refl, tt)
Distinct-append request (x ∷ xs) h d = (
  is_waiting-append x xs (request ∷ []) ∙ ground (arith, h, d.0, same_request_comm x request),
  Distinct-append request xs (ground (arith, h)) d.1,
)

Distinct-drop : (n : ℕ) (xs : List LibraryRequest) → Distinct xs → Distinct (drop n xs)
Distinct-drop zero xs d = d
Distinct-drop (suc n) [] d = d
Distinct-drop (suc n) (x ∷ xs) d = Distinct-drop n xs d.1

is_waiting-drop :
    (r : LibraryRequest) (n : ℕ) (xs : List LibraryRequest)
    → n ≤ length xs
    → is_waiting r (drop n (xs ++ (r ∷ []))) ≡ true
unfolding is_waiting
is_waiting-drop r zero xs h = is_waiting-append r xs (r ∷ []) ∙ ground (arith, same_request_self r)
is_waiting-drop r (suc n) [] h = absurd (omega (arith, h))
is_waiting-drop r (suc n) (x ∷ xs) h = is_waiting-drop r n xs (omega (arith, h))

-- A request leaves at most eight waiting, none of them twice, and waits itself.
pub queue_request-IsTidy :
    (request : LibraryRequest) (pending : List LibraryRequest)
    → IsTidy pending
    → IsTidy (queue_request request pending)
      × (is_waiting request (queue_request request pending) ≡ true)
unfolding queue_request
queue_request-IsTidy request pending h =
    if_both (λ q. IsTidy q × (is_waiting request q ≡ true)) (is_waiting request pending) _ _
      (λ e. (h, e))
      (λ e.
        let n = length (pending ++ (request ∷ [])) - max_pending_library_requests in
        (
          record {
            bounded = omega (arith, length-drop n (pending ++ (request ∷ [])));
            distinct = Distinct-drop n _ (Distinct-append request pending e h.distinct);
          },
          is_waiting-drop request n pending
              (omega (arith, h.bounded, length-append pending (request ∷ []))),
        ))

pub queue_requests : List LibraryRequest → List LibraryRequest → List LibraryRequest
queue_requests [] pending = pending
queue_requests (r ∷ rs) pending = queue_requests rs (queue_request r pending)

-- Whatever is requested, in any order, the queue stays tidy.
pub queue_requests-IsTidy :
    (rs pending : List LibraryRequest) → IsTidy pending → IsTidy (queue_requests rs pending)
unfolding queue_requests
queue_requests-IsTidy [] pending h = h
queue_requests-IsTidy (r ∷ rs) pending h =
    queue_requests-IsTidy rs (queue_request r pending) (queue_request-IsTidy r pending h).0
