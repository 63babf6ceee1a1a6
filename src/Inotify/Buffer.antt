-- ===== src/Inotify/Buffer.antt =====
-- `waitForEvent` of src/inotify.hpp: the buffer between the reads, and the event that is read from
-- it. Integers have the layout of a little-endian machine.
pub mod Bytes
pub mod Refine
use cdnalizerd.Base.{
  ℕ, zero, suc, ◌+◌, ◌-◌, ◌*◌, List, [], ◌∷◌, ◌++◌, Option, none, some, ltb, if◌then◌else◌, get_or,
  drop, length,
}
use cdnalizerd.Base.Text.{Text}
use cdnalizerd.Inotify.{Event}

-- `sizeof(inotify_event)`, and the size of the buffer with `NAME_MAX + 1`.
abbrev pub header_size : ℕ
header_size = 16

abbrev pub buffer_size : ℕ
buffer_size = 272

-- The bytes up to `buffer_data_end`, and what the rest of the array still holds.
pub record Buffer : Type 0 where
  pub filled : Text
  pub stale : Text

-- A `uint32_t` at an offset.
unfoldable pub word_at : ℕ → Text → ℕ
word_at i t =
    get_or t i 0
    + 256 * get_or t (i + 1) 0
    + 65536 * get_or t (i + 2) 0
    + 16777216 * get_or t (i + 3) 0

-- The loop of the constructor of `Event`, for a name of `len` bytes: the bound `namePtr + nameLen` moves
-- with the pointer, so that it ends the loop at once or never. `none` is a read past the array.
unfoldable pub copy_name : ℕ → Text → Option Text
copy_name len [] = none
copy_name len (zero ∷ t) = some []
copy_name zero (suc c ∷ t) = some []
copy_name (suc len) (suc c ∷ t) = elim (copy_name (suc len) t) [
  | none ↦ none
  | some name ↦ some (suc c ∷ name)
]

-- The first read appends its bytes.
unfoldable pub fill : Buffer → Text → Buffer
fill b bytes = record { filled = b.filled ++ bytes; stale = drop (length bytes) b.stale }

-- The second read writes its bytes behind the others, and moves neither `buffer_data_end` nor `size`.
unfoldable fill_behind : Buffer → Text → Buffer
fill_behind b bytes = record b { stale = bytes ++ drop (length bytes) b.stale }

-- `if (size < sizeof(inotify_event))`: the bytes come from the next read; no read is an exception.
unfoldable pub read_header : Buffer → List Text → Option (Buffer × List Text)
unfolding fill
read_header b [] = if ltb (length b.filled) header_size then none else some (b, [])
read_header b (bytes ∷ reads) =
    if ltb (length b.filled) header_size
    then some (fill b bytes, reads)
    else some (b, bytes ∷ reads)

-- The size of the event at the front.
unfoldable pub event_size : Buffer → ℕ
unfolding word_at
event_size b = header_size + word_at 12 (b.filled ++ b.stale)

unfoldable pub read_name : Buffer → List Text → Option (Buffer × List Text)
unfolding fill_behind event_size
read_name b [] = if ltb (length b.filled) (event_size b) then none else some (b, [])
read_name b (bytes ∷ reads) =
    if ltb (length b.filled) (event_size b)
    then some (fill_behind b bytes, reads)
    else some (b, bytes ∷ reads)

-- `Event result(...)`
unfoldable pub front_event : Buffer → Option Event
unfolding word_at copy_name
front_event b =
    let array = b.filled ++ b.stale in
    elim (copy_name (word_at 12 array) (drop header_size array)) [
      | none ↦ none
      | some name ↦ some (record {
        wd = word_at 0 array;
        mask = word_at 4 array;
        cookie = word_at 8 array;
        name = name;
      })
    ]

-- What follows the event is moved to the beginning.
unfoldable pub clean_up : Buffer → Buffer
unfolding event_size
clean_up b =
    let start = event_size b in
    let array = b.filled ++ b.stale in
    if ltb start (length b.filled)
    then record { filled = drop start b.filled; stale = drop (length b.filled - start) array }
    else record { filled = []; stale = array }

-- From the assertions on.
unfoldable pub read_event : Buffer → List Text → Option (Event × Buffer × List Text)
unfolding read_name front_event clean_up
read_event b reads =
    if ltb (length b.filled) header_size
    then none
    else if ltb buffer_size (length b.filled)
    then none
    else elim (read_name b reads) [
      | none ↦ none
      | some (c, reads') ↦ elim (front_event c) [
        | none ↦ none
        | some e ↦ some (e, clean_up c, reads')
      ]
    ]

-- `waitForEvent`, with what the reads give. `none` is an exception, a failed assertion or a read past
-- the array.
unfoldable pub wait_for_event : Buffer → List Text → Option (Event × Buffer × List Text)
unfolding read_header read_event
wait_for_event b reads = elim (read_header b reads) [
  | none ↦ none
  | some (c, reads') ↦ read_event c reads'
]

-- `count` calls, with the events in order.
unfoldable pub wait_for_events : ℕ → Buffer → List Text → Option (List Event × Buffer × List Text)
unfolding wait_for_event
wait_for_events zero b reads = some ([], b, reads)
wait_for_events (suc count) b reads = elim (wait_for_event b reads) [
  | none ↦ none
  | some (e, c, reads') ↦ elim (wait_for_events count c reads') [
    | none ↦ none
    | some (es, d, reads'') ↦ some (e ∷ es, d, reads'')
  ]
]
