-- ===== src/Mobile/Outbox/Schedule.antt =====
-- Calls on one storage that overlap: `flushRequestOutbox` and the map of flushes in flight, with
-- `enqueueRequest` and `clearRequestOutbox` between the awaits of a flush.
use mathlib.Core.List.{append_assoc, append-nil, reverse-cons}
use you_tube_gradian_devin.Common.{
  suc, Option, none, some, List, [], ◌∷◌, ◌++◌, ◌≡◌, refl, sym, ◌∙◌, arith, length, All, reverse,
}
use you_tube_gradian_devin.Mobile.Outbox.Failures.{failures, after_delivery-failures}
use you_tube_gradian_devin.Mobile.Outbox.{
  QueuedAccessRequest, Queue, Raw, array, Delivery, after_delivery, read_request_outbox,
  enqueue_request, clear_request_outbox,
}

-- A flush in flight: the requests that it has still to send, and those that remain.
pub record Flight : Type 0 where
  pub pending : Queue
  pub remaining : Queue

pub record Outbox : Type 0 where
  pub stored : Option Raw
  pub flight : Option Flight
  -- Every request that was handed to `send`, the last one first.
  pub sent : Queue

-- What happens to the outbox. The steps of a flush are those between its awaits; an enqueue and a
-- clear are one step each.
pub data Event : Type 0 where
  -- `enqueueRequest`
  enqueue : QueuedAccessRequest → Event
  -- `flushRequestOutbox`, which joins the flush in flight if there is one
  flush : Event
  -- the next `send` of the flush ends
  settle : Delivery → Event
  -- the flush stores what remains
  finish : Event
  -- `clearRequestOutbox`
  clear : Event

begin : Outbox → Outbox
begin s = elim s.flight [
  | some flight ↦ s
  | none ↦ record s {
    flight = some (record { pending = read_request_outbox s.stored; remaining = [] });
  }
]

settle_next : Delivery → Outbox → Flight → Queue → Outbox
settle_next d s flight [] = s
settle_next d s flight (request ∷ requests) = record s {
  flight =
      some (record { pending = requests; remaining = after_delivery flight.remaining request d });
  sent = request ∷ s.sent;
}

settle_flight : Delivery → Outbox → Option Flight → Outbox
settle_flight d s none = s
settle_flight d s (some flight) = settle_next d s flight flight.pending

finish_next : Outbox → Flight → Queue → Outbox
finish_next s flight [] = record s { stored = some (array flight.remaining); flight = none }
finish_next s flight (request ∷ requests) = s

finish_flight : Outbox → Option Flight → Outbox
finish_flight s none = s
finish_flight s (some flight) = finish_next s flight flight.pending

-- An event that cannot happen in a state leaves it as it is.
unfoldable pub step : Outbox → Event → Outbox
unfolding begin settle_next settle_flight finish_next finish_flight
step s (enqueue request) = record s { stored = enqueue_request request s.stored }
step s flush = begin s
step s (settle d) = settle_flight d s s.flight
step s finish = finish_flight s s.flight
step s clear = record s { stored = clear_request_outbox s.stored }

unfoldable pub run : Outbox → List Event → Outbox
run s [] = s
run s (event ∷ events) = run (step s event) events

-- How the sends of a sequence of events end, in their order.
abbrev pub ends_of : List Event → List Delivery
ends_of [] = []
ends_of (settle d ∷ events) = d ∷ ends_of events
ends_of (enqueue request ∷ events) = ends_of events
ends_of (flush ∷ events) = ends_of events
ends_of (finish ∷ events) = ends_of events
ends_of (clear ∷ events) = ends_of events

-- The flush does not store in between.
abbrev pub IsUnfinished : Event → Type 0
IsUnfinished finish = ⊥
IsUnfinished (enqueue request) = Unit
IsUnfinished flush = Unit
IsUnfinished (settle d) = Unit
IsUnfinished clear = Unit

-- The end of a flush that has still to send `pending`.
abbrev pub finished : Queue → Queue → List Delivery → Queue → Outbox
finished pending remaining ends sent = record {
  stored = some (array (remaining ++ failures pending ends));
  flight = none;
  sent = reverse pending ++ sent;
}

-- Whatever is queued, cleared or asked for while a flush is in flight: once as many sends have ended
-- as it had still to make, the flush has sent each of these requests once, in their order, and
-- stores the ones that failed, after those that had failed before, and nothing else.
pub run-finished :
    (events : List Event) (pending remaining : Queue) (stored : Option Raw) (sent : Queue)
    → All IsUnfinished events
    → length (ends_of events) ≡ length pending
    → run
        (record {
          stored = stored;
          flight = some (record { pending = pending; remaining = remaining });
          sent = sent;
        })
        (events ++ finish ∷ [])
      ≡ record {
        stored = some (array (remaining ++ failures pending (ends_of events)));
        flight = none;
        sent = reverse pending ++ sent;
      }
unfolding run step begin settle_next settle_flight finish_next finish_flight
run-finished [] [] remaining stored sent h e = rw (append-nil remaining) refl
run-finished [] (r ∷ rs) remaining stored sent h e =
    let absurd : 0 ≡ suc (length rs) = e in grind arith
run-finished (settle d ∷ events) [] remaining stored sent h e =
    let absurd : suc (length (ends_of events)) ≡ 0 = e in grind arith
run-finished (settle d ∷ events) (r ∷ rs) remaining stored sent (u, h) e =
    run-finished events rs (after_delivery remaining r d) stored (r ∷ sent) h (omega arith)
    ∙ rw
        (
          after_delivery-failures remaining r d rs (ends_of events),
          reverse-cons r rs,
          append_assoc (reverse rs) (r ∷ []) sent,
        )
        refl
run-finished (enqueue request ∷ events) pending remaining stored sent (u, h) e =
    run-finished events pending remaining _ sent h e
run-finished (flush ∷ events) pending remaining stored sent (u, h) e =
    run-finished events pending remaining stored sent h e
run-finished (finish ∷ events) pending remaining stored sent (u, h) e = elim u [ ]
run-finished (clear ∷ events) pending remaining stored sent (u, h) e =
    run-finished events pending remaining _ sent h e

ends_of-enqueue :
    (before after : List Event) (request : QueuedAccessRequest)
    → ends_of (before ++ enqueue request ∷ after) ≡ ends_of (before ++ after)
ends_of-enqueue [] after request = refl
ends_of-enqueue (settle d ∷ before) after request = rw (ends_of-enqueue before after request) refl
ends_of-enqueue (enqueue r ∷ before) after request = ends_of-enqueue before after request
ends_of-enqueue (flush ∷ before) after request = ends_of-enqueue before after request
ends_of-enqueue (finish ∷ before) after request = ends_of-enqueue before after request
ends_of-enqueue (clear ∷ before) after request = ends_of-enqueue before after request

IsUnfinished-insert :
    (before after : List Event) (request : QueuedAccessRequest)
    → All IsUnfinished (before ++ after)
    → All IsUnfinished (before ++ enqueue request ∷ after)
IsUnfinished-insert [] after request h = (tt, h)
IsUnfinished-insert (event ∷ before) after request (u, h) =
    (u, IsUnfinished-insert before after request h)

-- A request that is queued while a flush is in flight is lost, also one that is queued after the
-- last of its sends: without the call the outbox ends the same.
pub run-enqueue_in_flight :
    (before after : List Event) (request : QueuedAccessRequest) (flight : Flight)
    (stored : Option Raw) (sent : Queue)
    → All IsUnfinished (before ++ after)
    → length (ends_of (before ++ after)) ≡ length flight.pending
    → run
        (record { stored = stored; flight = some flight; sent = sent })
        ((before ++ enqueue request ∷ after) ++ finish ∷ [])
      ≡ run
          (record { stored = stored; flight = some flight; sent = sent })
          ((before ++ after) ++ finish ∷ [])
run-enqueue_in_flight before after request flight stored sent h e =
    let same = ends_of-enqueue before after request in
    let without = run-finished (before ++ after) flight.pending flight.remaining stored sent h e in
    run-finished (before ++ enqueue request ∷ after) flight.pending flight.remaining stored sent
      (IsUnfinished-insert before after request h) (rw same e)
    ∙ rw same (sym without)
