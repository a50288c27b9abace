-- ===== src/Kodi/Target/Unique.antt =====
-- What is left of the instances that a browse reports more than once.
use homedeck.Base.{
  ℕ, suc, ◌≤◌, ◌≡◌, refl, ◌∙◌, sym, true, false, List, [], ◌∷◌, if◌then◌else◌, if_both, bytes_eq,
  bytes_eq→eq, eq→bytes_eq, ltb, max, arith, Bool-cases, inl, inr, ◌⊎◌, All,
}
use homedeck.Kodi.Target.{
  MdnsService, rank, instance_key, preferred, merge_instance, merge_all, deduplicate_instances,
}

-- How many instances have this key.
unfoldable pub count_key : List ℕ → List MdnsService → ℕ
count_key k [] = 0
count_key k (s ∷ instances) =
    if bytes_eq (instance_key s) k then suc (count_key k instances) else count_key k instances

-- One more than the rank of the first instance with this key, 0 if there is none.
unfoldable pub first_rank : List ℕ → List MdnsService → ℕ
first_rank k [] = 0
first_rank k (s ∷ instances) =
    if bytes_eq (instance_key s) k then suc (rank s) else first_rank k instances

-- One more than the highest rank of the instances with this key, 0 if there is none.
unfoldable pub top_rank : List ℕ → List MdnsService → ℕ
top_rank k [] = 0
top_rank k (s ∷ instances) =
    if bytes_eq (instance_key s) k
    then max (suc (rank s)) (top_rank k instances)
    else top_rank k instances

abbrev pub IsOneOf : List MdnsService → MdnsService → Type 0
IsOneOf [] s = ⊥
IsOneOf (t ∷ ts) s = (t ≡ s) ⊎ IsOneOf ts s

-- The reference: each key once, with the highest rank it was reported with.
pub record IsDeduplicated (instances unique : List MdnsService) : Type 0 where
  pub once : (k : List ℕ) → count_key k unique ≤ 1
  pub best : (k : List ℕ) → first_rank k unique ≡ top_rank k instances
  pub reported : All (IsOneOf instances) unique

preferred-same_key :
    (s u : MdnsService)
    → bytes_eq (instance_key u) (instance_key s) ≡ true
    → instance_key (preferred s u) ≡ instance_key s
unfolding preferred
preferred-same_key s u e =
    if_both (λ x. instance_key x ≡ instance_key s) (ltb (rank u) (rank s)) s u (λ h. refl)
      (λ h. bytes_eq→eq (instance_key u) (instance_key s) e)

rank-preferred : (s u : MdnsService) → rank (preferred s u) ≡ max (rank s) (rank u)
unfolding preferred
rank-preferred s u =
    if_both (λ x. rank x ≡ max (rank s) (rank u)) (ltb (rank u) (rank s)) s u (λ h. ground arith)
      (λ h. ground arith)

apart : (a b k : List ℕ) → bytes_eq a b ≡ false → bytes_eq a k ≡ true → bytes_eq b k ≡ false
apart a b k e h = elim (Bool-cases (bytes_eq b k)) [
  | inl g ↦ ground (arith, eq→bytes_eq a b (bytes_eq→eq a k h ∙ sym (bytes_eq→eq b k g)))
  | inr g ↦ g
]

count_key-merge_instance :
    (k : List ℕ) (s : MdnsService) (us : List MdnsService)
    → count_key k (merge_instance s us)
      ≡ (if bytes_eq (instance_key s) k then max 1 (count_key k us) else count_key k us)
unfolding count_key merge_instance
count_key-merge_instance k s [] = refl
count_key-merge_instance k s (u ∷ us) =
    elim (Bool-cases (bytes_eq (instance_key u) (instance_key s))) [
      | inl e ↦
          rw (e, preferred-same_key s u e, bytes_eq→eq (instance_key u) (instance_key s) e)
            (ground arith)
      | inr e ↦ rw e (
          ground
            (arith, count_key-merge_instance k s us, apart (instance_key u) (instance_key s) k e))
    ]

first_rank-merge_instance :
    (k : List ℕ) (s : MdnsService) (us : List MdnsService)
    → first_rank k (merge_instance s us) ≡ (
        if bytes_eq (instance_key s) k
        then max (suc (rank s)) (first_rank k us)
        else first_rank k us)
unfolding first_rank merge_instance
first_rank-merge_instance k s [] = ground arith
first_rank-merge_instance k s (u ∷ us) =
    elim (Bool-cases (bytes_eq (instance_key u) (instance_key s))) [
      | inl e ↦
          rw
            (
              e,
              preferred-same_key s u e,
              rank-preferred s u,
              bytes_eq→eq (instance_key u) (instance_key s) e,
            )
            (ground arith)
      | inr e ↦ rw e (
          ground
            (arith, first_rank-merge_instance k s us, apart (instance_key u) (instance_key s) k e))
    ]

count_key-merge_all :
    (k : List ℕ) (us xs : List MdnsService) → count_key k us ≤ 1 → count_key k (merge_all us xs) ≤ 1
unfolding merge_all
count_key-merge_all k us [] h = h
count_key-merge_all k us (s ∷ xs) h =
    count_key-merge_all k (merge_instance s us) xs (ground (arith, count_key-merge_instance k s us))

first_rank-merge_all :
    (k : List ℕ) (us xs : List MdnsService)
    → first_rank k (merge_all us xs) ≡ max (first_rank k us) (top_rank k xs)
unfolding merge_all top_rank
first_rank-merge_all k us [] = ground arith
first_rank-merge_all k us (s ∷ xs) =
    first_rank-merge_all k (merge_instance s us) xs
    ∙ rw (first_rank-merge_instance k s us) (ground arith)

module _ (P : MdnsService → Type 0) where
  All-merge_instance :
      (s : MdnsService) (us : List MdnsService) → P s → All P us → All P (merge_instance s us)
  unfolding merge_instance preferred
  All-merge_instance s [] p h = (p, tt)
  All-merge_instance s (u ∷ us) p h =
      if_both (All P) (bytes_eq (instance_key u) (instance_key s)) _ _
        (λ e. (if_both P (ltb (rank u) (rank s)) s u (λ g. p) (λ g. h.0), h.1))
        (λ e. (h.0, All-merge_instance s us p h.1))

  pub All-merge_all : (us xs : List MdnsService) → All P us → All P xs → All P (merge_all us xs)
  unfolding merge_all
  All-merge_all us [] h k = h
  All-merge_all us (s ∷ xs) h k =
      All-merge_all (merge_instance s us) xs (All-merge_instance s us k.0 h) k.1

pub All-map :
    (P Q : MdnsService → Type 0) (xs : List MdnsService)
    → ((x : MdnsService) → P x → Q x)
    → All P xs
    → All Q xs
All-map P Q [] f h = tt
All-map P Q (x ∷ xs) f h = (f x h.0, All-map P Q xs f h.1)

pub All-IsOneOf : (xs : List MdnsService) → All (IsOneOf xs) xs
All-IsOneOf [] = tt
All-IsOneOf (x ∷ xs) =
    (inl refl, All-map (IsOneOf xs) (IsOneOf (x ∷ xs)) xs (λ y h. inr h) (All-IsOneOf xs))

-- Of the reported instances each key is kept once, with the highest rank that it has among them, and
-- nothing is kept that was not reported.
pub deduplicate_instances-IsDeduplicated :
    (instances : List MdnsService) → IsDeduplicated instances (deduplicate_instances instances)
unfolding deduplicate_instances count_key first_rank
deduplicate_instances-IsDeduplicated instances = record {
  once = λ k. count_key-merge_all k [] instances (omega arith);
  best = λ k. first_rank-merge_all k [] instances ∙ ground arith;
  reported = All-merge_all (IsOneOf instances) [] instances tt (All-IsOneOf instances);
}
