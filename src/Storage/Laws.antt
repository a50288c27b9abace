-- ===== src/Storage/Laws.antt =====
-- What is stored is read back with its version, and the reserved key stays out of the settings.
use homedeck.Base.{
  ℕ, suc, ◌≡◌, refl, true, false, ◌&&◌, some, List, [], ◌∷◌, ◌++◌, arith, bytes_eq, All, ◌≢◌,
  Bool-cases, inl, inr, Option-cases,
}
use homedeck.Base.Int.{ℤ, pos, negsuc}
use homedeck.Codec.Decimal.{to_string_ℤ, to_string-All, from_chars_int-to_string_ℤ, IsInt}
use homedeck.Storage.{
  encode, split_line, decode, decode_if_present, KeyValueStore, is_reserved_settings_key, Entry,
  SettingEntry, list_decoded, core_module_id, password_key, set_versioned, get_versioned,
  set_setting, erase_setting, list_all_settings,
}

split_line-append :
    (xs ys : List ℕ) → All (λ c. c ≢ 10) xs → split_line (xs ++ (10 ∷ ys)) ≡ some (xs, ys)
unfolding split_line
split_line-append [] ys h = refl
split_line-append (x ∷ xs) ys h = ground (arith, split_line-append xs ys h.1)

to_string_ℤ-All : (a : ℤ) → All (λ c. c ≢ 10) (to_string_ℤ a)
unfolding to_string_ℤ
to_string_ℤ-All (pos n) = to_string-All (λ c. c ≢ 10) (λ c lo hi. omega arith) n
to_string_ℤ-All (negsuc n) =
    (omega arith, to_string-All (λ c. c ≢ 10) (λ c lo hi. omega arith) (suc n))

-- A value is decoded to itself and its version, whatever bytes it holds, for every version that
-- is an `int`.
pub decode-encode :
    (schema_version : ℤ) (value : List ℕ)
    → IsInt schema_version
    → decode (encode schema_version value)
      ≡ some (record { schema_version = schema_version; value = value })
unfolding decode encode
decode-encode schema_version value h =
    rw (split_line-append (to_string_ℤ schema_version) value (to_string_ℤ-All schema_version))
      (rw (from_chars_int-to_string_ℤ schema_version h))

bytes_eq_comm : (xs ys : List ℕ) → bytes_eq xs ys ≡ bytes_eq ys xs
unfolding bytes_eq
bytes_eq_comm [] [] = refl
bytes_eq_comm [] (y ∷ ys) = refl
bytes_eq_comm (x ∷ xs) [] = refl
bytes_eq_comm (x ∷ xs) (y ∷ ys) = ground (arith, bytes_eq_comm xs ys)

-- No listed entry is under the reserved key.
abbrev pub IsOpen : SettingEntry → Type 0
IsOpen e = is_reserved_settings_key e.module_id e.key ≡ false

list_decoded-IsOpen : (raws : List Entry) → All IsOpen (list_decoded raws)
unfolding list_decoded
list_decoded-IsOpen [] = tt
list_decoded-IsOpen (raw ∷ raws) = elim (Bool-cases (is_reserved_settings_key raw.ns raw.key)) [
  | inl reserved ↦ rw reserved (list_decoded-IsOpen raws)
  | inr free ↦ elim (Option-cases (decode raw.value)) [
    | inl bad ↦ rw (free, bad, list_decoded) (list_decoded-IsOpen raws)
    | inr (d, good) ↦ rw (free, good, list_decoded) (free, list_decoded-IsOpen raws)
  ]
]

module _ (s : KeyValueStore) where
  open s use {Contents, get, set, get-set, get-set_ne, get-erase_ne}

  -- What a write stored under a key, when it reported success, is what the next read gives.
  pub get_versioned-set_versioned :
      (c : Contents) (module_id key : List ℕ) (schema_version : ℤ) (value : List ℕ)
      → IsInt schema_version
      → (set_versioned s c module_id key schema_version value).0 ≡ true
      → get_versioned s (set_versioned s c module_id key schema_version value).1 module_id key
        ≡ some (record { schema_version = schema_version; value = value })
  unfolding set_versioned get_versioned decode_if_present
  get_versioned-set_versioned c module_id key schema_version value h ok =
      rw (get-set c module_id key (encode schema_version value) ok)
        (decode-encode schema_version value h)

  -- Neither a write of a setting nor its removal, whatever the module and key, changes what the
  -- settings store holds under the administrator's reserved key.
  pub settings_keep_reserved :
      (c : Contents) (module_id key : List ℕ) (schema_version : ℤ) (value : List ℕ)
      → (get (set_setting s c module_id key schema_version value).1 core_module_id password_key
          ≡ get c core_module_id password_key)
        × (get (erase_setting s c module_id key).1 core_module_id password_key
            ≡ get c core_module_id password_key)
  unfolding set_setting set_versioned erase_setting is_reserved_settings_key
  settings_keep_reserved c module_id key schema_version value =
      elim (Bool-cases (bytes_eq module_id core_module_id && bytes_eq key password_key)) [
        | inl reserved ↦ (rw reserved, rw reserved)
        | inr free ↦
            let other : (bytes_eq core_module_id module_id && bytes_eq password_key key) ≡ false =
              rw (bytes_eq_comm core_module_id module_id, bytes_eq_comm password_key key) free in
            (
              rw free (
                  get-set_ne c module_id key (encode schema_version value) core_module_id
                    password_key other),
              rw free (get-erase_ne c module_id key core_module_id password_key other),
            )
      ]

  -- The listing of all settings shows no entry under the reserved key, even if the store holds one.
  pub list_all_settings-IsOpen : (c : Contents) → All IsOpen (list_all_settings s c)
  unfolding list_all_settings
  list_all_settings-IsOpen c = list_decoded-IsOpen (s.list_all c)
