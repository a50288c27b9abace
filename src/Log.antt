-- ===== src/Log.antt =====
-- src/core/logger.cpp: the lines of the log over the cache of Storage. The printer of the JSON library
-- is a parameter.
pub mod Tail
pub mod Joined
pub mod Blobs
pub mod Kept
mod Examples
use homedeck.Base.{
  ℕ, zero, suc, ◌+◌, ◌≤◌, Bool, true, false, not, ◌&&◌, Option, none, some, List, [], ◌∷◌, ◌++◌,
  ltb, leb, ◌==◌, if◌then◌else◌, length, is_empty,
}
use homedeck.Base.Int.{ℤ, pos}
use homedeck.Base.Text.{codes}
use homedeck.Json.{Json, integer, string, object, Fields, end, field}
use homedeck.Storage.{KeyValueStore, VersionedValue, core_module_id, set_versioned, get_versioned}

pub data LogLevel : Type 0 where
  debug info warning error : LogLevel

pub level_to_string : LogLevel → List ℕ
level_to_string debug = codes "debug"
level_to_string info = codes "info"
level_to_string warning = codes "warning"
level_to_string error = codes "error"

pub record Record : Type 0 where
  pub timestamp : ℤ
  pub level : LogLevel
  pub component : List ℕ
  pub message : List ℕ

-- `flush_signal` is the number of the promise that `ReadAll` waits for.
pub record Item : Type 0 where
  pub entry : Option Record
  pub flush_signal : Option ℕ

abbrev pub current_key : List ℕ
current_key = codes "log_current"

abbrev pub rotated_key : List ℕ
rotated_key = codes "log_rotated"

-- The text behind each line feed but one at the very end.
pub tails_after : List ℕ → List (List ℕ)
tails_after [] = []
tails_after (c ∷ []) = []
tails_after (c ∷ d ∷ rest) =
    if c == 10 then (d ∷ rest) ∷ tails_after (d ∷ rest) else tails_after (d ∷ rest)

-- The loop from the last line start backwards: the cut so far, and whether the loop goes on.
pub cut_back : ℕ → List ℕ → List (List ℕ) → List ℕ × Bool
cut_back max_bytes tail [] = (tail, true)
cut_back max_bytes tail (next ∷ rest) =
    let (cut, going) = cut_back max_bytes next rest in
    if going && leb (length tail) max_bytes then (tail, true) else (cut, false)

unfoldable pub trim_to_tail : List ℕ → ℕ → List ℕ
unfolding cut_back tails_after
trim_to_tail blob max_bytes =
    if leb (length blob) max_bytes then blob else (cut_back max_bytes blob (tails_after blob)).0

-- A character in front of the first line.
pub onto_first : ℕ → List (List ℕ) → List (List ℕ)
onto_first c [] = (c ∷ []) ∷ []
onto_first c (line ∷ lines) = (c ∷ line) ∷ lines

pub lines_of : List ℕ → List (List ℕ)
unfolding onto_first
lines_of [] = []
lines_of (c ∷ rest) = if c == 10 then [] ∷ lines_of rest else onto_first c (lines_of rest)

pub join_lines : List ℕ → List (List ℕ) → List ℕ
join_lines result [] = result
join_lines result (line ∷ lines) =
    join_lines
      (if is_empty line
        then result
        else (if is_empty result then line else result ++ (b',' ∷ line)))
      lines

unfoldable pub join_lines_as_array_elements : List ℕ → List ℕ
unfolding lines_of join_lines
join_lines_as_array_elements blob = join_lines [] (lines_of blob)

-- The value that was read, or the empty text.
abbrev pub value_or_empty : Option VersionedValue → List ℕ
value_or_empty none = []
value_or_empty (some v) = v.value

-- The array of the elements of both blobs.
pub bracketed : List ℕ → List ℕ → List ℕ
bracketed rotated_elements current_elements =
    codes "["
    ++ (rotated_elements
        ++ ((if not (is_empty rotated_elements) && not (is_empty current_elements)
              then codes ","
              else [])
            ++ (current_elements ++ codes "]")))

-- The object's members in the order in which the library keeps them, by name.
pub entry_json : Record → Json
unfolding level_to_string
entry_json r = object (
    field (codes "component") (string r.component) (
      field (codes "level") (string (level_to_string r.level)) (
        field (codes "message") (string r.message)
          (field (codes "timestamp") (integer r.timestamp) end))))

unfoldable pub batch_of : List Item → List Record
batch_of [] = []
batch_of (item ∷ items) = elim item.entry [ none ↦ batch_of items | some r ↦ r ∷ batch_of items ]

pub signals_of : List Item → List ℕ
signals_of [] = []
signals_of (item ∷ items) = elim item.flush_signal [
  | none ↦ signals_of items
  | some n ↦ n ∷ signals_of items
]

module _ (dump : Json → List ℕ) (s : KeyValueStore) (max_log_file_bytes : ℕ) where
  open s use {Contents}

  pub batch_lines : List Record → List ℕ
  unfolding entry_json
  batch_lines [] = []
  batch_lines (r ∷ batch) = dump (entry_json r) ++ (10 ∷ batch_lines batch)

  unfoldable pub stored : List ℕ → Contents → List ℕ
  stored key c = value_or_empty (get_versioned s c core_module_id key)

  pub write_cache : List ℕ → List ℕ → Contents → Contents
  write_cache key value c = (set_versioned s c core_module_id key (pos 1) value).1

  -- A write that fails only prints a message.
  unfoldable pub write_text : List ℕ → Contents → Contents
  unfolding stored write_cache
  write_text lines c =
      let previous = stored current_key c in
      let updated = previous ++ lines in
      if ltb max_log_file_bytes (length updated)
      then write_cache current_key (trim_to_tail lines max_log_file_bytes)
          (write_cache rotated_key previous c)
      else write_cache current_key updated c

  unfoldable pub write_batch : List Record → Contents → Contents
  unfolding write_text batch_lines
  write_batch batch c = write_text (batch_lines batch) c

  unfoldable pub read_all : Contents → List ℕ
  unfolding stored bracketed join_lines_as_array_elements
  read_all c =
      bracketed (join_lines_as_array_elements (stored rotated_key c))
        (join_lines_as_array_elements (stored current_key c))

  -- One round of the worker, on the items that it drained: the batch is written before a signal is set.
  unfoldable pub worker_round : List Item → Contents → Contents × List ℕ
  unfolding write_batch batch_of signals_of
  worker_round items c =
      (if is_empty (batch_of items) then c else write_batch (batch_of items) c, signals_of items)
