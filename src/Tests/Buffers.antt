-- ===== src/Tests/Buffers.antt =====
-- The buffer of inotify events at concrete data.
use cdnalizerd.Base.{◌≡◌, refl, List, [], ◌∷◌, some, arith, replicate}
use cdnalizerd.Base.Text.{Text, codes}
use cdnalizerd.Inotify.Print.{print_event}
use cdnalizerd.Inotify.Buffer.{Buffer, wait_for_event, wait_for_events}
use cdnalizerd.Inotify.Buffer.Bytes.{KernelEvent, IsNamed, encode_all, event_of}
use cdnalizerd.Inotify.Buffer.Refine.{Batch, wait_for_events-refines}

abbrev file_event : KernelEvent
file_event = record { wd = 1; mask = 8; cookie = 0; name = codes "a.txt"; padding = 11 }

abbrev next_event : KernelEvent
next_event = record { wd = 2; mask = 512; cookie = 0; name = codes "b"; padding = 15 }

file_event-IsNamed : IsNamed file_event
file_event-IsNamed = record {
  wd_fits = omega arith;
  mask_fits = omega arith;
  cookie_fits = omega arith;
  name_fits = omega arith;
  no_zero = omega arith;
  padded = omega arith;
}

next_event-IsNamed : IsNamed next_event
next_event-IsNamed = record {
  wd_fits = omega arith;
  mask_fits = omega arith;
  cookie_fits = omega arith;
  name_fits = omega arith;
  no_zero = omega arith;
  padded = omega arith;
}

abbrev zeros : Text
zeros = replicate 272 0

-- Two reads, of two events and of one.
abbrev batches : List Batch
batches = (file_event, next_event ∷ []) ∷ (next_event, []) ∷ []

wait_for_events-refines_example :
    (rest : Text) × (wait_for_events 3
        (record { filled = []; stale = zeros })
        (encode_all (file_event ∷ next_event ∷ []) ∷ encode_all (next_event ∷ []) ∷ [])
      ≡ some (
        event_of file_event ∷ event_of next_event ∷ event_of next_event ∷ [],
        record { filled = []; stale = rest },
        [],
      ))
wait_for_events-refines_example = wait_for_events-refines batches zeros (
  ((file_event-IsNamed, (next_event-IsNamed, tt)), omega arith),
  (((next_event-IsNamed, tt), omega arith), tt),
)

-- An event without a name, in front of another, has an empty name.
abbrev nameless_event : KernelEvent
nameless_event = record { wd = 1; mask = 32768; cookie = 0; name = []; padding = 0 }

nameless_run :
    (c : Buffer) × (wait_for_event
        (record { filled = encode_all (nameless_event ∷ next_event ∷ []); stale = zeros })
        []
      ≡ some (record { wd = 1; mask = 32768; cookie = 0; name = [] }, c, []))
unfolding wait_for_event cdnalizerd.Inotify.Buffer.read_header
nameless_run = (_, refl)

-- A saved directory entry is printed with its two labels.
print_saved :
    print_event (codes "/d/f") (record { wd = 1; mask = 1073741832; cookie = 0; name = codes "f" })
    ≡ codes "Event: path(/d/f)  Saved  isDir "
unfolding print_event
print_saved = refl
