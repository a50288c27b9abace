-- ===== src/Log/Kept.antt =====
-- What is read of the log after any number of the worker's rounds.
use homedeck.Base.{
  ℕ, ◌≤◌, ◌≡◌, refl, ◌∙◌, ap, sym, subst, true, List, [], ◌∷◌, ◌++◌, if◌then◌else◌, length, arith,
  inl, All, is_empty, ◌*◌, length-append,
}
use homedeck.Base.Text.{codes}
use mathlib.Core.List.{append_assoc, append-nil}
use homedeck.Json.{Json}
use homedeck.Storage.{KeyValueStore}
use homedeck.Log.{
  Item, Record, batch_of, worker_round, current_key, rotated_key, stored, write_text, write_batch,
  batch_lines, entry_json, read_all, bracketed, join_lines_as_array_elements,
}
use homedeck.Log.Tail.{text, IsLine}
use homedeck.Log.Joined.{elements, join-text, bracketed-elements}
use homedeck.Log.Blobs.{text-append, Holds, IsLong, saved, write_text-Holds}

module _ (dump : Json → List ℕ) (s : KeyValueStore) (max_log_file_bytes : ℕ)
    (writes : (c : s.Contents) (ns key v : List ℕ) → (s.set c ns key v).0 ≡ true) where
  open s use {Contents, set, get-set_ne}

  -- Every record is printed on one line, as the library does it.
  abbrev pub OneLine : Type 0
  OneLine = (j : Json) → IsLine (dump j)

  abbrev pub lines_of_batch : List Record → List (List ℕ)
  lines_of_batch [] = []
  lines_of_batch (r ∷ batch) = dump (entry_json r) ∷ lines_of_batch batch

  -- The lines of all records that the worker took from the queue, in rounds.
  abbrev pub all_lines : List (List Item) → List (List ℕ)
  all_lines [] = []
  all_lines (items ∷ rounds) = lines_of_batch (batch_of items) ++ all_lines rounds

  batch_lines-text :
      (batch : List Record)
      → batch_lines dump s max_log_file_bytes batch ≡ text (lines_of_batch batch)
  unfolding batch_lines
  batch_lines-text [] = refl
  batch_lines-text (r ∷ batch) = ap (λ t. dump (entry_json r) ++ (10 ∷ t)) (batch_lines-text batch)

  lines_of_batch-IsLine : (batch : List Record) → OneLine → All IsLine (lines_of_batch batch)
  lines_of_batch-IsLine [] one = tt
  lines_of_batch-IsLine (r ∷ batch) one = (one (entry_json r), lines_of_batch-IsLine batch one)

  abbrev pub AllSmall : List (List Item) → Type 0
  AllSmall = All (λ items. length (text (lines_of_batch (batch_of items))) ≤ max_log_file_bytes)

  -- The rounds of the worker, one after the other.
  abbrev pub run_rounds : List (List Item) → Contents → Contents
  run_rounds [] c = c
  run_rounds (items ∷ rounds) c =
      run_rounds rounds (worker_round dump s max_log_file_bytes items c).0

  write_batch-Holds :
      (batch : List Record) (history : List (List ℕ)) (c : Contents)
      → OneLine
      → length (text (lines_of_batch batch)) ≤ max_log_file_bytes
      → Holds dump s max_log_file_bytes writes history c
      → Holds dump s max_log_file_bytes writes
          (history ++ lines_of_batch batch)
          (if is_empty batch then c else write_batch dump s max_log_file_bytes batch c)
  unfolding write_batch
  write_batch-Holds [] history c one small h =
      subst (λ l. Holds dump s max_log_file_bytes writes l c) (sym (append-nil history)) h
  write_batch-Holds (r ∷ batch) history c one small h =
      let lines = lines_of_batch (r ∷ batch) in
      subst
        (λ t.
          Holds dump s max_log_file_bytes writes (history ++ lines)
            (write_text dump s max_log_file_bytes t c))
        (sym (batch_lines-text (r ∷ batch)))
        (write_text-Holds dump s max_log_file_bytes writes history lines c
          (lines_of_batch-IsLine (r ∷ batch) one) small h)

  run_rounds-Holds :
      (rounds : List (List Item)) (history : List (List ℕ)) (c : Contents)
      → OneLine
      → AllSmall rounds
      → Holds dump s max_log_file_bytes writes history c
      → Holds dump s max_log_file_bytes writes (history ++ all_lines rounds) (run_rounds rounds c)
  unfolding worker_round
  run_rounds-Holds [] history c one small h =
      subst (λ l. Holds dump s max_log_file_bytes writes l c) (sym (append-nil history)) h
  run_rounds-Holds (items ∷ rounds) history c one small h =
      let c' = (worker_round dump s max_log_file_bytes items c).0 in
      let lines = lines_of_batch (batch_of items) in
      subst (λ l. Holds dump s max_log_file_bytes writes l (run_rounds rounds c'))
        (append_assoc history lines (all_lines rounds))
        (run_rounds-Holds rounds (history ++ lines) c' one small.1
          (write_batch-Holds (batch_of items) history c one small.0 h))

  -- After any number of the worker's rounds, whose batches each fit the cap, reading the log gives the array of the last lines
  -- of all that was logged, in order: at most twice the cap is kept, and lines are dropped only where
  -- more than the cap is kept behind them. Nothing was stored at first, the store's writes succeed, and
  -- the library prints every record on one line.
  pub read_all-run_rounds :
      (rounds : List (List Item)) (c : Contents)
      → OneLine
      → AllSmall rounds
      → stored dump s max_log_file_bytes rotated_key c ≡ []
      → stored dump s max_log_file_bytes current_key c ≡ []
      → (dropped : List (List ℕ)) × (kept : List (List ℕ)) × (all_lines rounds ≡ dropped ++ kept)
        × (read_all dump s max_log_file_bytes (run_rounds rounds c)
            ≡ codes "[" ++ (elements kept ++ codes "]"))
        × (length (text kept) ≤ 2 * max_log_file_bytes)
        × IsLong dump s max_log_file_bytes writes dropped kept
  unfolding read_all
  read_all-run_rounds rounds c one small er ec =
      let (dropped, rotated, current, e, er', ec', (hr, hc), (br, bc), long) =
        run_rounds-Holds rounds [] c one small
          ([], [], [], refl, er, ec, (tt, tt), (omega arith, omega arith), inl refl) in
      (
        dropped,
        rotated ++ current,
        e,
        ap
              (λ r. bracketed (join_lines_as_array_elements r) (
                join_lines_as_array_elements
                  (saved dump s max_log_file_bytes writes current_key (run_rounds rounds c))))
              er'
            ∙ ap
                (λ k.
                  bracketed (join_lines_as_array_elements (text rotated))
                    (join_lines_as_array_elements k))
                ec'
            ∙ ap (λ r. bracketed r (join_lines_as_array_elements (text current)))
                (join-text rotated hr)
            ∙ ap (bracketed (elements rotated)) (join-text current hc)
            ∙ bracketed-elements rotated current hr hc,
        omega (
          arith,
          br,
          bc,
          ap length (text-append rotated current),
          length-append (text rotated) (text current),
        ),
        long,
      )
