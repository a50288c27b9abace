-- ===== src/Storage/Memory.antt =====
-- A store in memory, whose writes never fail: the interface of a store can be met.
use homedeck.Base.{
  ℕ, ◌≡◌, refl, true, false, ◌&&◌, Option, none, some, List, [], ◌∷◌, arith, if◌then◌else◌,
  bytes_eq, bytes_eq_refl, bytes_eq→eq,
}
use homedeck.Storage.{KeyValueStore, Entry}

unfoldable pub get : List Entry → List ℕ → List ℕ → Option (List ℕ)
get [] ns key = none
get (e ∷ es) ns key = if bytes_eq ns e.ns && bytes_eq key e.key then some e.value else get es ns key

unfoldable pub erase : List Entry → List ℕ → List ℕ → List Entry
erase [] ns key = []
erase (e ∷ es) ns key =
    let rest = erase es ns key in if bytes_eq ns e.ns && bytes_eq key e.key then rest else e ∷ rest

pub get-put :
    (es : List Entry) (ns key v : List ℕ)
    → get (record { ns = ns; key = key; value = v } ∷ es) ns key ≡ some v
unfolding get
get-put es ns key v = ground (arith, bytes_eq_refl ns, bytes_eq_refl key)

pub get-put_ne :
    (es : List Entry) (ns key v ns' key' : List ℕ)
    → (bytes_eq ns' ns && bytes_eq key' key) ≡ false
    → get (record { ns = ns; key = key; value = v } ∷ es) ns' key' ≡ get es ns' key'
unfolding get
get-put_ne es ns key v ns' key' h = rw h

pub get-erase_self : (es : List Entry) (ns key : List ℕ) → get (erase es ns key) ns key ≡ none
unfolding get erase
get-erase_self [] ns key = refl
get-erase_self (e ∷ es) ns key = ground (arith, get-erase_self es ns key)

same_entry :
    (a b ns key ns' key' : List ℕ)
    → (bytes_eq ns a && bytes_eq key b) ≡ true
    → (bytes_eq ns' ns && bytes_eq key' key) ≡ false
    → (bytes_eq ns' a && bytes_eq key' b) ≡ false
same_entry a b ns key ns' key' h n =
    rw (← bytes_eq→eq ns a (ground arith), ← bytes_eq→eq key b (ground arith)) n

pub get-erase_other :
    (es : List Entry) (ns key ns' key' : List ℕ)
    → (bytes_eq ns' ns && bytes_eq key' key) ≡ false
    → get (erase es ns key) ns' key' ≡ get es ns' key'
unfolding get erase
get-erase_other [] ns key ns' key' h = refl
get-erase_other (e ∷ es) ns key ns' key' h =
    ground (arith, get-erase_other es ns key ns' key' h, same_entry e.ns e.key ns key ns' key')

abbrev pub memory_store : KeyValueStore
memory_store = record {
  Contents = List Entry;
  get = get;
  set = λ es ns key v. (true, record { ns = ns; key = key; value = v } ∷ es);
  erase = λ es ns key. (true, erase es ns key);
  list_all = λ es. es;
  get-set = λ es ns key v h. get-put es ns key v;
  get-set_ne = get-put_ne;
  get-erase = λ es ns key h. get-erase_self es ns key;
  get-erase_ne = get-erase_other;
}
