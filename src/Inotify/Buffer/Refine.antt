-- ===== src/Inotify/Buffer/Refine.antt =====
-- The buffer of src/inotify.hpp behaves as the queue of the events that the kernel reports.
use cdnalizerd.Base.{
  lt→ltb, ge→ltb, ◌+◌, ◌≤◌, ◌≡◌, refl, ap, List, [], ◌∷◌, ◌++◌, map, some, arith, drop, length,
  Each, length-append, append-nil, drop-append_self,
}
use cdnalizerd.Base.Text.{Text}
use cdnalizerd.Inotify.{Event}
use cdnalizerd.Inotify.Buffer.{
  header_size, buffer_size, Buffer, fill, read_header, event_size, read_name, read_event,
  front_event, clean_up, wait_for_event, wait_for_events,
}
use cdnalizerd.Inotify.Buffer.Bytes.{
  KernelEvent, event_of, IsNamed, encode, encode_all, length-encode, front_event-encode,
  event_size-encode,
}

clean_up-filled :
    (e : KernelEvent) (es : List KernelEvent) (stale : Text)
    → IsNamed e
    → (clean_up (record { filled = encode_all (e ∷ es); stale = stale })).filled ≡ encode_all es
unfolding clean_up
clean_up-filled e [] stale h =
    rw
      (
        event_size-encode e [] stale h.name_fits,
        ge→ltb (length (encode e)) (length (encode e ++ []))
            (omega (arith, ap length (append-nil (encode e)))),
      )
      refl
clean_up-filled e (f ∷ fs) stale h =
    rw
      (
        event_size-encode e (encode_all (f ∷ fs)) stale h.name_fits,
        lt→ltb (length (encode e)) (length (encode e ++ encode_all (f ∷ fs)))
            (omega (arith, length-append {0} (encode e) (encode_all (f ∷ fs)))),
      )
      (drop-append_self (encode e) (encode_all (f ∷ fs)))

read_header-holding :
    (b : Buffer) (reads : List Text)
    → header_size ≤ length b.filled
    → read_header b reads ≡ some (b, reads)
unfolding read_header
read_header-holding b [] h = rw (ge→ltb (length b.filled) 16 h) refl
read_header-holding b (bytes ∷ reads) h = rw (ge→ltb (length b.filled) 16 h) refl

read_name-holding :
    (b : Buffer) (reads : List Text)
    → event_size b ≤ length b.filled
    → read_name b reads ≡ some (b, reads)
unfolding read_name
read_name-holding b [] h = rw (ge→ltb (length b.filled) (event_size b) h) refl
read_name-holding b (bytes ∷ reads) h = rw (ge→ltb (length b.filled) (event_size b) h) refl

-- The buffer that holds `e` and `es`.
abbrev holding : KernelEvent → List KernelEvent → Text → Buffer
holding e es stale = record { filled = encode_all (e ∷ es); stale = stale }

-- One call, for an event at the front that is read as `ev`.
read_event-front :
    (e : KernelEvent) (es : List KernelEvent) (stale : Text) (reads : List Text) (ev : Event)
    → length e.name + e.padding ≤ 256
    → front_event (holding e es stale) ≡ some ev
    → length (encode_all (e ∷ es)) ≤ buffer_size
    → read_event (holding e es stale) reads ≡ some (ev, clean_up (holding e es stale), reads)
unfolding read_event
read_event-front e es stale reads ev h front fits =
    let n = length-append {0} (encode e) (encode_all es) in
    let whole : event_size (holding e es stale) ≤ length (encode_all (e ∷ es)) =
      omega (arith, n, event_size-encode e (encode_all es) stale h) in
    rw
      (
        ge→ltb (length (encode_all (e ∷ es))) 16 (omega (arith, n, length-encode e)),
        ge→ltb 272 (length (encode_all (e ∷ es))) fits,
        read_name-holding (holding e es stale) reads whole,
        read_event,
        front,
      )
      refl

wait_for_event-front :
    (e : KernelEvent) (es : List KernelEvent) (stale : Text) (reads : List Text) (ev : Event)
    → length e.name + e.padding ≤ 256
    → front_event (holding e es stale) ≡ some ev
    → length (encode_all (e ∷ es)) ≤ buffer_size
    → wait_for_event (holding e es stale) reads ≡ some (ev, clean_up (holding e es stale), reads)
unfolding wait_for_event
wait_for_event-front e es stale reads ev h front fits =
    let long : header_size ≤ length (encode_all (e ∷ es)) =
      omega (arith, length-append {0} (encode e) (encode_all es), length-encode e) in
    rw (read_header-holding (holding e es stale) reads long, wait_for_event)
      (read_event-front e es stale reads ev h front fits)

wait_for_event-empty :
    (e : KernelEvent) (es : List KernelEvent) (stale : Text) (reads : List Text)
    → IsNamed e
    → length (encode_all (e ∷ es)) ≤ buffer_size
    → (rest : Text) × (wait_for_event
          (record { filled = []; stale = stale })
          (encode_all (e ∷ es) ∷ reads)
        ≡ some (event_of e, clean_up (holding e es rest), reads))
unfolding wait_for_event read_header fill
wait_for_event-empty e es stale reads h fits = (
  drop (length (encode_all (e ∷ es))) stale,
  read_event-front e es (drop (length (encode_all (e ∷ es))) stale) reads (event_of e) h.name_fits
      (front_event-encode e (encode_all es) (drop (length (encode_all (e ∷ es))) stale) h) fits,
)

-- The events of a read: at least one.
abbrev pub Batch : Type 0
Batch = KernelEvent × List KernelEvent

abbrev pub events : Batch → List KernelEvent
events (e, es) = e ∷ es

abbrev all_events : List Batch → List KernelEvent
all_events [] = []
all_events (b ∷ bs) = events b ++ all_events bs

-- The kernel gives whole events that have names, as many as the buffer can hold.
abbrev pub IsDelivered : Batch → Type 0
IsDelivered b = Each IsNamed (events b) × (length (encode_all (events b)) ≤ buffer_size)

-- Whole events in the buffer and in the reads come out one by one.
drain :
    (es : List KernelEvent) (bs : List Batch) (stale : Text)
    → Each IsNamed es
    → length (encode_all es) ≤ buffer_size
    → Each IsDelivered bs
    → (rest : Text) × (wait_for_events
          (length (es ++ all_events bs))
          (record { filled = encode_all es; stale = stale })
          (map (λ b. encode_all (events b)) bs)
        ≡ some (map event_of (es ++ all_events bs), record { filled = []; stale = rest }, []))
unfolding wait_for_events
drain [] [] stale h fits k = (stale, refl)
drain (e ∷ es) bs stale h fits k =
    let c = clean_up (holding e es stale) in
    let (rest, p) =
      drain es bs c.stale h.1 (omega (arith, length-append {0} (encode e) (encode_all es))) k in
    let same : c ≡ record { filled = encode_all es; stale = c.stale } =
      ap (λ t. record { filled = t; stale = c.stale }) (clean_up-filled e es stale h.0) in
    (
      rest,
      rw
          (
            wait_for_event-front e es stale _ (event_of e) h.0.name_fits
                (front_event-encode e (encode_all es) stale h.0) fits,
            wait_for_events,
            same,
            p,
          )
          refl,
    )
drain [] ((e, es) ∷ bs) stale h fits k =
    let (s, w) =
      wait_for_event-empty e es stale (map (λ b. encode_all (events b)) bs) k.0.0.0 k.0.1 in
    let c = clean_up (holding e es s) in
    let (rest, p) =
      drain es bs c.stale k.0.0.1
        (omega (arith, k.0.1, length-append {0} (encode e) (encode_all es))) k.1 in
    let same : c ≡ record { filled = encode_all es; stale = c.stale } =
      ap (λ t. record { filled = t; stale = c.stale }) (clean_up-filled e es s k.0.0.0) in
    (rest, rw (w, wait_for_events, same, p) refl)

-- The buffer refines the queue of the kernel's events: from the empty buffer, whatever its array
-- holds, and reads that each give one or more whole events that have names, as many calls of
-- waitForEvent as there are events give exactly these events, in order, each with its watch, mask,
-- cookie and name without the padding. They use up all the reads and leave the buffer empty.
pub wait_for_events-refines :
    (bs : List Batch) (stale : Text)
    → Each IsDelivered bs
    → (rest : Text) × (wait_for_events
          (length (all_events bs))
          (record { filled = []; stale = stale })
          (map (λ b. encode_all (events b)) bs)
        ≡ some (map event_of (all_events bs), record { filled = []; stale = rest }, []))
wait_for_events-refines bs stale h = drain [] bs stale tt (omega arith) h
