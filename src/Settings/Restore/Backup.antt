-- ===== src/Settings/Restore/Backup.antt =====
-- A backup that is restored.
use homedeck.Base.{
  ℕ, suc, ◌+◌, ◌≤◌, ◌≡◌, refl, ◌∙◌, sym, ap, Bool, true, false, ◌&&◌, Option, some, List, [], ◌∷◌,
  arith, length, bytes_eq, All, subst,
}
use homedeck.Base.Int.{pos}
use homedeck.Base.Text.{codes}
use homedeck.Codec.Decimal.{max_int, IsInt}
use homedeck.Http.{HttpRequest, json_response}
use homedeck.Json.{
  Json, Fields, array, field, end, find, string_member, try_parse_json_object, parse_bounded_json,
  exceeds_json_nesting_depth, max_json_nesting_depth,
}
use homedeck.Storage.{
  encode, decode_if_present, KeyValueStore, SettingEntry, set_setting, set_versioned, get_versioned,
  list_all_settings,
}
use homedeck.Storage.Laws.{get_versioned-set_versioned, IsOpen}
use homedeck.Settings.{
  Hooks, Device, invalid_key, schema_member, setting_is_valid, entry_to_json, entries_json,
  backup_json, backup_route,
}
use homedeck.Settings.Restore.{
  Tally, Restored, restore_route, restore_object, restore_settings, restore_entries, restore_entry,
  restore_valid, restored_entry, restored_members, tally_json, empty_tally,
}

-- What the checks of a restore ask of an entry.
pub record IsRestorable (h : Hooks) (e : SettingEntry) : Type 0 where
  pub open_key : IsOpen e
  pub version : ℕ
  pub version_eq : e.schema_version ≡ pos version
  pub version_le : version ≤ max_int
  pub valid_key : invalid_key e.module_id e.key ≡ false
  pub short : length e.value ≤ 4096
  pub accepted : setting_is_valid h e.module_id e.key e.value ≡ true

abbrev same_name : SettingEntry → SettingEntry → Bool
same_name e f = bytes_eq e.module_id f.module_id && bytes_eq e.key f.key

-- No two entries have the same module and key.
abbrev pub Distinct : List SettingEntry → Type 0
Distinct [] = Unit {0}
Distinct (e ∷ es) = All (λ f. same_name e f ≡ false) es × Distinct es

abbrev pub as_restored : SettingEntry → Restored
as_restored e = record {
  module_id = e.module_id;
  key = e.key;
  value = e.value;
  schema_version = e.schema_version;
}

restored_entry-to_json :
    (h : Hooks) (e : SettingEntry)
    → IsRestorable h e
    → restored_entry (entry_to_json e) ≡ some (as_restored e)
unfolding restored_entry entry_to_json find bytes_eq string_member schema_member restored_members
restored_entry-to_json h e r = rw (r.version_eq) (ground arith)

zero-add : (n : ℕ) → 0 + n ≡ n
zero-add n = omega arith

add-zero : (n : ℕ) → n + 0 ≡ n
add-zero n = omega arith

add_suc : (m n : ℕ) → suc m + n ≡ m + suc n
add_suc m n = omega arith

module _ (s : KeyValueStore) (h : Hooks) where
  open s use {Contents, get, get-set_ne}

  module _ (writes : (c : Contents) (ns key v : List ℕ) → (s.set c ns key v).0 ≡ true) where
    restore_one :
        (e : SettingEntry) (t : Tally) (c : Contents)
        → IsRestorable h e
        → restore_entry s h (restored_entry (entry_to_json e)) t c ≡ (
          record t { applied = suc t.applied },
          (set_versioned s c e.module_id e.key e.schema_version e.value).1,
        )
    unfolding restore_entry restore_valid set_setting set_versioned
    restore_one e t c r =
        rw (restored_entry-to_json h e r)
          (ground (arith, writes c e.module_id e.key (encode e.schema_version e.value)))

    restore_cons :
        (e : SettingEntry) (es : List SettingEntry) (t : Tally) (c : Contents)
        → IsRestorable h e
        → restore_entries s h (entries_json (e ∷ es)) t c
          ≡ restore_entries s h
              (entries_json es)
              (record t { applied = suc t.applied })
              (set_versioned s c e.module_id e.key e.schema_version e.value).1
    unfolding restore_entries entries_json
    restore_cons e es t c r =
        ap (λ (p : Tally × Contents). restore_entries s h (entries_json es) p.0 p.1)
          (restore_one e t c r)

    -- What the restored entries put under a name that is not among theirs.
    untouched :
        (es : List SettingEntry) (t : Tally) (c : Contents) (e : SettingEntry)
        → All (IsRestorable h) es
        → All (λ f. same_name e f ≡ false) es
        → get (restore_entries s h (entries_json es) t c).1 e.module_id e.key
          ≡ get c e.module_id e.key
    unfolding set_versioned
    untouched [] t c e r n = unfold restore_entries entries_json in refl
    untouched (f ∷ fs) t c e r n = rw (restore_cons f fs t c r.0) (
        untouched fs (record t { applied = suc t.applied })
          (set_versioned s c f.module_id f.key f.schema_version f.value).1 e r.1 n.1
        ∙ get-set_ne c f.module_id f.key (encode f.schema_version f.value) e.module_id e.key n.0)

    abbrev Stored : Contents → SettingEntry → Type 0
    Stored c e =
        get_versioned s c e.module_id e.key
        ≡ some (record { schema_version = e.schema_version; value = e.value })

    first-Stored :
        (e : SettingEntry) (es : List SettingEntry) (t : Tally) (c : Contents)
        → All (IsRestorable h) (e ∷ es)
        → Distinct (e ∷ es)
        → Stored
            (restore_entries s h
              (entries_json es)
              t
              (set_versioned s c e.module_id e.key e.schema_version e.value).1).1
            e
    unfolding get_versioned
    first-Stored e es t c r n =
        ap decode_if_present (
          untouched es t (set_versioned s c e.module_id e.key e.schema_version e.value).1 e r.1 n.0)
        ∙ get_versioned-set_versioned s c e.module_id e.key e.schema_version e.value
            (subst IsInt (sym r.0.version_eq) r.0.version_le)
            (unfold set_versioned in writes c e.module_id e.key (encode e.schema_version e.value))

    restored-All :
        (es : List SettingEntry) (t : Tally) (c : Contents)
        → All (IsRestorable h) es
        → Distinct es
        → ((restore_entries s h (entries_json es) t c).0
            ≡ record t { applied = t.applied + length es })
          × All (Stored (restore_entries s h (entries_json es) t c).1) es
    restored-All [] t c r n = (
      unfold restore_entries entries_json in
          ap (λ (k : ℕ). record t { applied = k }) (sym (add-zero t.applied)),
      tt,
    )
    restored-All (e ∷ es) t c r n =
        let t' : Tally = record t { applied = suc t.applied } in
        let c' = (set_versioned s c e.module_id e.key e.schema_version e.value).1 in
        let (counted, kept) = restored-All es t' c' r.1 n.1 in
        subst
          (λ (p : Tally × Contents).
            (p.0 ≡ record t { applied = t.applied + length (e ∷ es) }) × All (Stored p.1) (e ∷ es))
          (sym (restore_cons e es t c r.0))
          (
            counted ∙ ap (λ (k : ℕ). record t { applied = k }) (add_suc t.applied (length es)),
            (first-Stored e es t' c r n, kept),
          )

    backup_parsed :
        (parse : List ℕ → Option Json) (dump : Json → List ℕ) (request : HttpRequest) (d : Device s)
        → parse (dump (backup_json s parse dump h d)) ≡ some (backup_json s parse dump h d)
        → exceeds_json_nesting_depth
            (backup_route s parse dump h request d).0.body
            max_json_nesting_depth
          ≡ false
        → request.body ≡ (backup_route s parse dump h request d).0.body
        → try_parse_json_object parse request.body
          ≡ some (field (codes "settings") (array (entries_json (list_all_settings s d.store))) end)
    unfolding try_parse_json_object parse_bounded_json backup_route backup_json json_response
        entries_json
    backup_parsed parse dump request d law shallow body = rw (body, shallow, law) refl

    -- The backup of one device is restored on another, or on the same one, whatever its store held:
    -- the answer counts every listed entry as applied, and each reads there with the value and the
    -- version that it was listed with. That is so if every write to the store succeeds, every entry
    -- passes the checks of a restore (its length, version and key, and the hook's test), no two have
    -- the same module and key, the library reads back the text that it printed, and this text is not
    -- nested too deep.
    pub restore-backup :
        (parse : List ℕ → Option Json) (dump : Json → List ℕ) (request : HttpRequest)
        (d d' : Device s)
        → parse (dump (backup_json s parse dump h d)) ≡ some (backup_json s parse dump h d)
        → exceeds_json_nesting_depth
            (backup_route s parse dump h request d).0.body
            max_json_nesting_depth
          ≡ false
        → request.body ≡ (backup_route s parse dump h request d).0.body
        → All (IsRestorable h) (list_all_settings s d.store)
        → Distinct (list_all_settings s d.store)
        → let r = restore_route s h parse dump request d' in
          (r.0
            ≡ json_response 200 (
                dump (
                  tally_json
                    (record empty_tally { applied = length (list_all_settings s d.store) }))))
          × All
              (λ e.
                get_versioned s r.1.store e.module_id e.key
                ≡ some (record { schema_version = e.schema_version; value = e.value }))
              (list_all_settings s d.store)
    unfolding restore_route restore_object
    restore-backup parse dump request d d' law shallow body r n =
        let es = list_all_settings s d.store in
        let (counted, kept) = restored-All es empty_tally d'.store r n in
        subst
          (λ (f : Option Fields).
            ((restore_object s h parse dump f d').0
              ≡ json_response 200 (dump (tally_json (record empty_tally { applied = length es }))))
            × All (Stored (restore_object s h parse dump f d').1.store) es)
          (sym (backup_parsed parse dump request d law shallow body))
          (unfold restore_object restore_settings find bytes_eq in
            (
              ap (λ (t : Tally). json_response 200 (dump (tally_json t)))
                  (counted
                    ∙ ap (λ (k : ℕ). record empty_tally { applied = k }) (zero-add (length es))),
              kept,
            ))
