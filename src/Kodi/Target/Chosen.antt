-- ===== src/Kodi/Target/Chosen.antt =====
-- What can be said of the Kodi that is chosen.
use homedeck.Base.{
  ℕ, ◌≡◌, refl, subst, true, false, ◌==◌, Option, none, some, List, [], ◌∷◌, if_both, arith, inl,
  inr, ◌⊎◌, All, length, is_empty,
}
use homedeck.Harmony.Host.{has_unsafe_host_chars}
use homedeck.Kodi.Target.{
  MdnsService, Target, Resolved, is_usable, keep_usable, usable_instances, deduplicate_instances,
  choose, only, find_uuid, has_uuid, with_address, target_of, manual, browsed_target,
  has_manual_host, saved_or_empty, resolve_target, is_valid_kodi_host, address_or_hostname,
}
use homedeck.Kodi.Target.Unique.{IsOneOf, All-merge_all, All-IsOneOf, All-map}

-- A Kodi that the browse reported and that can be connected to.
pub record IsReported (browsed : List MdnsService) (s : MdnsService) : Type 0 where
  pub usable : is_usable s ≡ true
  pub one_of : IsOneOf browsed s

keep_usable-All :
    (P : MdnsService → Type 0) (xs : List MdnsService)
    → All P xs
    → All (λ s. (is_usable s ≡ true) × P s) (keep_usable xs)
unfolding keep_usable
keep_usable-All P [] h = tt
keep_usable-All P (x ∷ xs) h =
    if_both (All (λ s. (is_usable s ≡ true) × P s)) (is_usable x) _ _
      (λ e. ((e, h.0), keep_usable-All P xs h.1)) (λ e. keep_usable-All P xs h.1)

usable_instances-All :
    (browsed : List MdnsService) → All (IsReported browsed) (usable_instances browsed)
unfolding usable_instances deduplicate_instances
usable_instances-All browsed = All-merge_all (IsReported browsed) [] (keep_usable browsed) tt (
    All-map (λ s. (is_usable s ≡ true) × IsOneOf browsed s) (IsReported browsed)
      (keep_usable browsed) (λ s h. record { usable = h.0; one_of = h.1 })
      (keep_usable-All (IsOneOf browsed) browsed (All-IsOneOf browsed)))

abbrev Holds {ℓ κ} : {A : Type ℓ} → (A → Type κ) → Option A → Type κ
Holds P none = Unit
Holds P (some a) = P a

Holds-some {ℓ κ} :
    {A : Type ℓ} (P : A → Type κ) (o : Option A) (a : A) → o ≡ some a → Holds P o → P a
Holds-some P o a e h = subst (Holds P) e h

-- What a chosen instance has.
record IsChoice (uuid : List ℕ) (browsed us : List MdnsService) (s : MdnsService) : Type 0 where
  fits : IsReported browsed s
  alone : is_empty uuid ≡ true → length us ≡ 1
  same : is_empty uuid ≡ false → has_uuid uuid s ≡ true

only-IsChoice :
    (uuid : List ℕ) (browsed us : List MdnsService)
    → is_empty uuid ≡ true
    → All (IsReported browsed) us
    → Holds (IsChoice uuid browsed us) (only us)
unfolding only
only-IsChoice uuid browsed [] e h = tt
only-IsChoice uuid browsed (s ∷ []) e h = record {
  fits = h.0;
  alone = λ g. refl;
  same = λ g. absurd (ground (arith, e, g));
}
only-IsChoice uuid browsed (s ∷ t ∷ us) e h = tt

find_uuid-fits :
    (uuid : List ℕ) (browsed us : List MdnsService)
    → All (IsReported browsed) us
    → Holds (λ s. IsReported browsed s × (has_uuid uuid s ≡ true)) (find_uuid uuid us)
unfolding find_uuid
find_uuid-fits uuid browsed [] h = tt
find_uuid-fits uuid browsed (s ∷ us) h =
    if_both (Holds (λ s'. IsReported browsed s' × (has_uuid uuid s' ≡ true))) (has_uuid uuid s) _ _
      (λ e. (h.0, e)) (λ e. find_uuid-fits uuid browsed us h.1)

Holds-map {ℓ κ} :
    {A : Type ℓ} (P Q : A → Type κ) (o : Option A) → ((a : A) → P a → Q a) → Holds P o → Holds Q o
Holds-map P Q none f h = tt
Holds-map P Q (some a) f h = f a h

with_address-Holds :
    (P : MdnsService → Type 0) (o : Option MdnsService)
    → Holds P o
    → Holds (λ s. P s × (is_empty s.address ≡ false)) (with_address o)
unfolding with_address
with_address-Holds P none h = tt
with_address-Holds P (some s) h =
    if_both (Holds (λ s'. P s' × (is_empty s'.address ≡ false))) (is_empty s.address) _ _ (λ e. tt)
      (λ e. (h, e))

choose-IsChoice :
    (uuid : List ℕ) (browsed us : List MdnsService)
    → All (IsReported browsed) us
    → Holds (λ s. IsChoice uuid browsed us s × (is_empty s.address ≡ false)) (choose uuid us)
unfolding choose
choose-IsChoice uuid browsed us h = with_address-Holds (IsChoice uuid browsed us) _ (
    if_both (Holds (IsChoice uuid browsed us)) (is_empty uuid) (only us) (find_uuid uuid us)
      (λ e. only-IsChoice uuid browsed us e h)
      (λ e.
        Holds-map (λ s. IsReported browsed s × (has_uuid uuid s ≡ true)) (IsChoice uuid browsed us)
          (find_uuid uuid us)
          (λ s f. record {
            fits = f.0;
            alone = λ g. absurd (ground (arith, e, g));
            same = λ g. f.1;
          })
          (find_uuid-fits uuid browsed us h)))

-- Where a target came from, if it is not the address that the user entered.
pub record IsFromBrowse (uuid : List ℕ) (browsed : List MdnsService) (t : Target) : Type 0 where
  pub reported : MdnsService
  pub one_of : IsOneOf browsed reported
  pub same_address : t.host ≡ reported.address
  pub same_port : t.port ≡ reported.port
  pub unguessed : is_empty uuid ≡ true → length (usable_instances browsed) ≡ 1
  pub selected : is_empty uuid ≡ false → has_uuid uuid reported ≡ true

-- A target that a connect may be tried on.
pub record IsJustified (saved_host saved_uuid : Option (List ℕ)) (browsed : List MdnsService)
    (t : Target) : Type 0 where
  pub named : is_empty t.host ≡ false
  pub safe : has_unsafe_host_chars t.host true ≡ false
  pub has_port : (t.port == 0) ≡ false
  pub origin :
      (saved_host ≡ some t.host)
      ⊎ ((has_manual_host saved_host ≡ false) × IsFromBrowse (saved_or_empty saved_uuid) browsed t)

colon_allowed :
    (value : List ℕ)
    → has_unsafe_host_chars value false ≡ false
    → has_unsafe_host_chars value true ≡ false
unfolding has_unsafe_host_chars
colon_allowed value h = ground (arith, h)

manual-IsJustified :
    (host : Option (List ℕ)) (saved_uuid : Option (List ℕ)) (browsed : List MdnsService)
    → has_manual_host host ≡ true
    → Holds (IsJustified host saved_uuid browsed) (manual (saved_or_empty host)).target
unfolding has_manual_host manual saved_or_empty is_valid_kodi_host
manual-IsJustified none saved_uuid browsed e = absurd (ground (arith, e))
manual-IsJustified (some host) saved_uuid browsed e = record {
  named = ground (arith, e);
  safe = colon_allowed host (ground (arith, e));
  has_port = refl;
  origin = inl refl;
}

usable-host :
    (s : MdnsService)
    → is_usable s ≡ true
    → is_empty s.address ≡ false
    → (has_unsafe_host_chars s.address true ≡ false) × ((s.port == 0) ≡ false)
unfolding is_usable address_or_hostname
usable-host s u e = ground (arith, u, e)

target_of-IsJustified :
    (saved_host : Option (List ℕ)) (saved_uuid : Option (List ℕ)) (browsed : List MdnsService)
    → has_manual_host saved_host ≡ false
    → (o : Option MdnsService)
    → Holds
        (λ s.
          IsChoice (saved_or_empty saved_uuid) browsed (usable_instances browsed) s
          × (is_empty s.address ≡ false))
        o
    → Holds (IsJustified saved_host saved_uuid browsed) (target_of o)
unfolding target_of
target_of-IsJustified saved_host saved_uuid browsed m none h = tt
target_of-IsJustified saved_host saved_uuid browsed m (some s) (c, e) =
    let checked = usable-host s c.fits.usable e in
    record {
      named = e;
      safe = checked.0;
      has_port = checked.1;
      origin = inr (
        m,
        record {
          reported = s;
          one_of = c.fits.one_of;
          same_address = refl;
          same_port = refl;
          unguessed = c.alone;
          selected = c.same;
        },
      );
    }

-- A target that is resolved has a host that is not empty and has no character that is unsafe in a
-- URL, and a port that is not 0. It is the host that the user entered, or, if there is none that
-- can be used, the resolved address of an instance that the browse reported: with a saved choice
-- the chosen one, without one the only usable instance.
pub resolve_target-IsJustified :
    (saved_host saved_uuid : Option (List ℕ)) (browsed : List MdnsService) (t : Target)
    → (resolve_target saved_host saved_uuid browsed).target ≡ some t
    → IsJustified saved_host saved_uuid browsed t
unfolding resolve_target browsed_target
resolve_target-IsJustified saved_host saved_uuid browsed t e =
    Holds-some (IsJustified saved_host saved_uuid browsed) _ t e (
      if_both (λ (r : Resolved). Holds (IsJustified saved_host saved_uuid browsed) r.target)
        (has_manual_host saved_host) _ _ (λ m. manual-IsJustified saved_host saved_uuid browsed m)
        (λ m. target_of-IsJustified saved_host saved_uuid browsed m _ (
          choose-IsChoice (saved_or_empty saved_uuid) browsed (usable_instances browsed)
            (usable_instances-All browsed))))
