-- ===== src/Log/Blobs.antt =====
-- What the two blobs hold after a write, as lines.
use homedeck.Base.{
  ℕ, ◌≤◌, ◌<◌, ◌≡◌, refl, ◌∙◌, ap, sym, subst, true, false, List, [], ◌∷◌, ◌++◌, ltb, length, arith,
  Bool-cases, inl, inr, All, All-append, bytes_eq, ltb→le, ltb→lt, ◌⊎◌, length-append,
}
use homedeck.Base.Int.{pos}
use mathlib.Core.List.{append_assoc}
use homedeck.Json.{Json}
use homedeck.Storage.{
  KeyValueStore, core_module_id, encode, set_versioned, get_versioned, decode_if_present,
}
use homedeck.Storage.Laws.{get_versioned-set_versioned}
use homedeck.Log.{
  current_key, rotated_key, stored, value_or_empty, write_cache, write_text, trim_to_tail,
}
use homedeck.Log.Tail.{text, IsLine}

pub text-append : (xs ys : List (List ℕ)) → text (xs ++ ys) ≡ text xs ++ text ys
text-append [] ys = refl
text-append (x ∷ xs) ys =
    ap (λ t. x ++ (10 ∷ t)) (text-append xs ys) ∙ sym (append_assoc x (10 ∷ text xs) (text ys))

regroup : (a b c d : List (List ℕ)) → (a ++ (b ++ c)) ++ d ≡ (a ++ b) ++ (c ++ d)
regroup a b c d = ap (λ l. l ++ d) (sym (append_assoc a b c)) ∙ append_assoc (a ++ b) c d

module _ (dump : Json → List ℕ) (s : KeyValueStore) (max_log_file_bytes : ℕ)
    (writes : (c : s.Contents) (ns key v : List ℕ) → (s.set c ns key v).0 ≡ true) where
  open s use {Contents, set, get-set_ne}

  stored-write_cache :
      (key value : List ℕ) (c : Contents)
      → stored dump s max_log_file_bytes key (write_cache dump s max_log_file_bytes key value c)
        ≡ value
  unfolding stored write_cache set_versioned
  stored-write_cache key value c = ap value_or_empty (
      get_versioned-set_versioned s c core_module_id key (pos 1) value (omega arith)
        (writes c core_module_id key (encode (pos 1) value)))

  stored-write_other :
      (key other value : List ℕ) (c : Contents)
      → bytes_eq other key ≡ false
      → stored dump s max_log_file_bytes other (write_cache dump s max_log_file_bytes key value c)
        ≡ stored dump s max_log_file_bytes other c
  unfolding stored write_cache set_versioned get_versioned
  stored-write_other key other value c n =
      ap (λ o. value_or_empty (decode_if_present o))
        (get-set_ne c core_module_id key (encode (pos 1) value) core_module_id other
          (ground (arith, n)))

  -- Lines are dropped only where more bytes than the cap are kept behind them.
  abbrev pub IsLong : List (List ℕ) → List (List ℕ) → Type 0
  IsLong dropped kept = (dropped ≡ []) ⊎ (max_log_file_bytes < length (text kept))

  -- The rotated and the current blob hold the history's last lines.
  abbrev pub Holds : List (List ℕ) → Contents → Type 0
  Holds history c =
      (dropped : List (List ℕ)) × (rotated : List (List ℕ)) × (current : List (List ℕ)) × (history
        ≡ dropped ++ (rotated ++ current))
      × (stored dump s max_log_file_bytes rotated_key c ≡ text rotated)
      × (stored dump s max_log_file_bytes current_key c ≡ text current)
      × (All IsLine rotated × All IsLine current)
      × (length (text rotated) ≤ max_log_file_bytes × length (text current) ≤ max_log_file_bytes)
      × IsLong dropped (rotated ++ current)

  write_full :
      (lines : List ℕ) (c : Contents)
      → ltb max_log_file_bytes (length (stored dump s max_log_file_bytes current_key c ++ lines))
        ≡ true
      → write_text dump s max_log_file_bytes lines c
        ≡ write_cache dump s max_log_file_bytes current_key
            (trim_to_tail lines max_log_file_bytes)
            (write_cache dump s max_log_file_bytes rotated_key
              (stored dump s max_log_file_bytes current_key c)
              c)
  unfolding write_text
  write_full lines c full = rw full refl

  write_room :
      (lines : List ℕ) (c : Contents)
      → ltb max_log_file_bytes (length (stored dump s max_log_file_bytes current_key c ++ lines))
        ≡ false
      → write_text dump s max_log_file_bytes lines c
        ≡ write_cache dump s max_log_file_bytes current_key
            (stored dump s max_log_file_bytes current_key c ++ lines)
            c
  unfolding write_text
  write_room lines c room = rw room refl

  abbrev pub saved : List ℕ → Contents → List ℕ
  saved = stored dump s max_log_file_bytes

  other_keys : (bytes_eq rotated_key current_key ≡ false)
  unfolding bytes_eq
  other_keys = refl

  trim_small :
      (text : List ℕ)
      → length text ≤ max_log_file_bytes
      → trim_to_tail text max_log_file_bytes ≡ text
  unfolding trim_to_tail
  trim_small text h = ground (arith, h)

  longer :
      (dropped rotated current lines : List (List ℕ))
      → IsLong dropped (rotated ++ current)
      → IsLong dropped (rotated ++ (current ++ lines))
  longer dropped rotated current lines (inl e) = inl e
  longer dropped rotated current lines (inr h) = inr (
      omega (
        arith,
        h,
        ap length (text-append (rotated ++ current) lines),
        length-append (text (rotated ++ current)) (text lines),
        ap (λ l. length (text l)) (append_assoc rotated current lines),
      ))

  pub write_text-Holds :
      (history lines : List (List ℕ)) (c : Contents)
      → All IsLine lines
      → length (text lines) ≤ max_log_file_bytes
      → Holds history c
      → Holds (history ++ lines) (write_text dump s max_log_file_bytes (text lines) c)
  write_text-Holds history lines c h small
        (dropped, rotated, current, e, er, ec, (hr, hc), (br, bc), long) =
      let joined : saved current_key c ++ text lines ≡ text (current ++ lines) =
        ap (λ t. t ++ text lines) ec ∙ sym (text-append current lines) in
      elim (Bool-cases (ltb max_log_file_bytes (length (saved current_key c ++ text lines)))) [
        | inl full ↦
            let e' = write_full (text lines) c full in
            (
              dropped ++ rotated,
              current,
              lines,
              ap (λ l. l ++ lines) e ∙ regroup dropped rotated current lines,
              ap (saved rotated_key) e'
                  ∙ stored-write_other current_key rotated_key _ _ other_keys
                  ∙ stored-write_cache rotated_key (saved current_key c) c
                  ∙ ec,
              ap (saved current_key) e'
                  ∙ stored-write_cache current_key _ _
                  ∙ trim_small (text lines) small,
              (hc, h),
              (bc, small),
              inr (subst (λ t. max_log_file_bytes < length t) joined (ltb→lt _ _ full)),
            )
        | inr room ↦
            let e' = write_room (text lines) c room in
            (
              dropped,
              rotated,
              current ++ lines,
              ap (λ l. l ++ lines) e
                  ∙ append_assoc dropped (rotated ++ current) lines
                  ∙ ap (λ l. dropped ++ l) (append_assoc rotated current lines),
              ap (saved rotated_key) e'
                  ∙ stored-write_other current_key rotated_key _ _ other_keys
                  ∙ er,
              ap (saved current_key) e' ∙ stored-write_cache current_key _ _ ∙ joined,
              (hr, All-append IsLine current lines hc h),
              (br, subst (λ t. length t ≤ max_log_file_bytes) joined (ltb→le _ _ room)),
              longer dropped rotated current lines long,
            )
      ]
