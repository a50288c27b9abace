-- ===== src/Log/Examples.antt =====
-- Two rounds of the worker on a log whose cap is three bytes, with a printer that prints no more than a letter.
use homedeck.Base.{
  ℕ, suc, ◌*◌, ◌≤◌, ◌<◌, ◌≡◌, refl, ◌⊎◌, none, some, List, [], ◌∷◌, ◌++◌, length, drop, arith,
}
use homedeck.Base.Text.{codes}
use homedeck.Base.Int.{pos}
use homedeck.Json.{Json}
use homedeck.Storage.{get_versioned, decode_if_present}
use homedeck.Storage.Memory.{memory_store, get}
use homedeck.Log.{batch_of, Item, Record, info, trim_to_tail, read_all, stored}
use homedeck.Log.Tail.{text, trim_to_tail-text}
use homedeck.Log.Blobs.{IsLong}
use homedeck.Log.Joined.{elements}
use homedeck.Log.Kept.{all_lines, run_rounds, OneLine, read_all-run_rounds}

trim_runs : trim_to_tail (codes "ab\ncd\ne\n") 6 ≡ codes "cd\ne\n"
unfolding trim_to_tail
trim_runs = refl

abbrev three_lines : List (List ℕ)
three_lines = codes "ab" ∷ codes "cd" ∷ codes "e" ∷ []

trim_to_tail-text_example :
    (k : ℕ) × (trim_to_tail (text three_lines) 6 ≡ text (drop k three_lines))
    × (k < length three_lines)
    × ((length (text (drop k three_lines)) ≤ 6) ⊎ (suc k ≡ length three_lines))
    × ((k ≡ 0) ⊎ ((j : ℕ) × (k ≡ suc j) × (6 < length (text (drop j three_lines)))))
trim_to_tail-text_example =
    trim_to_tail-text three_lines 6
      (((λ e. cc e), omega arith), (((λ e. cc e), omega arith), (((λ e. cc e), omega arith), tt)))
      (λ e. cc e)

abbrev letter : Json → List ℕ
letter j = b'x' ∷ []

letter_OneLine : OneLine letter memory_store 3 (λ c ns key v. refl)
letter_OneLine j = ((λ e. cc e), omega arith)

abbrev entry : Record
entry = record { timestamp = pos 5; level = info; component = codes "c"; message = codes "m" }

abbrev item : Item
item = record { entry = some entry; flush_signal = none }

abbrev rounds : List (List Item)
rounds = (item ∷ []) ∷ (item ∷ record { entry = none; flush_signal = some 1 } ∷ []) ∷ []

read_all-run_rounds_example :
    (dropped : List (List ℕ)) × (kept : List (List ℕ)) × (all_lines letter memory_store 3
        (λ c ns key v. refl)
        rounds
      ≡ dropped ++ kept)
    × (read_all letter memory_store 3
          (run_rounds letter memory_store 3 (λ c ns key v. refl) rounds [])
        ≡ codes "[" ++ (elements kept ++ codes "]"))
    × (length (text kept) ≤ 2 * 3)
    × IsLong letter memory_store 3 (λ c ns key v. refl) dropped kept
unfolding stored get_versioned decode_if_present get batch_of
read_all-run_rounds_example =
    read_all-run_rounds letter memory_store 3 (λ c ns key v. refl) rounds [] letter_OneLine
      (omega arith, (omega arith, tt)) refl refl
