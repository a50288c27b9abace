-- ===== src/Settings/Restore/Counts.antt =====
-- The counters of a restore.
use homedeck.Base.{ℕ, suc, ◌+◌, ◌≡◌, Option, none, some, [], ◌∷◌, arith, length, length-append}
use homedeck.Json.{Items, nil, cons}
use homedeck.Storage.{KeyValueStore}
use homedeck.Settings.{Hooks}
use homedeck.Settings.Restore.{
  Tally, Restored, restore_entries, restore_entry, restore_valid, restored_entry,
}

pub count_items : Items → ℕ
count_items nil = 0
count_items (cons j js) = suc (count_items js)

module _ (s : KeyValueStore) (h : Hooks) where
  open s use {Contents}

  abbrev total : Tally → ℕ
  total t = t.applied + t.skipped + length t.failed + length t.rejected

  restore_entry-total :
      (r : Option Restored) (t : Tally) (c : Contents)
      → total (restore_entry s h r t c).0 ≡ suc (total t)
  unfolding restore_entry restore_valid
  restore_entry-total none t c = omega arith
  restore_entry-total (some r) t c = ground (
    arith,
    length-append t.failed ((r.module_id, r.key) ∷ []),
    length-append t.rejected ((r.module_id, r.key) ∷ []),
  )

  -- Every entry of a restore is counted once: as applied or skipped, or listed as failed or rejected.
  pub restore_entries-total :
      (entries : Items) (t : Tally) (c : Contents)
      → let t' = (restore_entries s h entries t c).0 in
        t'.applied + t'.skipped + length t'.failed + length t'.rejected
        ≡ t.applied + t.skipped + length t.failed + length t.rejected + count_items entries
  unfolding restore_entries count_items
  restore_entries-total nil t c = omega arith
  restore_entries-total (cons entry entries) t c =
      let (t', c') = restore_entry s h (restored_entry entry) t c in
      omega
        (arith, restore_entries-total entries t' c', restore_entry-total (restored_entry entry) t c)
