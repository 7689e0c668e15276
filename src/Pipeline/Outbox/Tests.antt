-- ===== src/Pipeline/Outbox/Tests.antt =====
-- The outbox at a concrete input.
use airport_inspection_platf.Pipeline.Outbox.Rows.{messages}
use airport_inspection_platf.Pipeline.Outbox.{
  Outbox, OutboxEntry, after_outcome, count_attempt, delivered, mark_published, publish_rows, tick,
  unmarked,
}
use airport_inspection_platf.Pipeline.Outbox.Delivery.{
  Happening, IsDelivered, at_least_once, happen, happen_all, stored, stores, ticked,
}
use airport_inspection_platf.Prelude.{List, [], false, refl, true, ◌++◌, ◌∷◌, ◌≡◌}

abbrev empty_box : Outbox
empty_box = record { rows = []; sent = []; in_flight = false }

-- The first row is taken by Redis and cannot be marked; the next tick delivers both.
abbrev two_ticks : List Happening
two_ticks =
    stored 1 "events.broadcast.den" "a"
    ∷ stored 2 "events.broadcast.den" "b"
    ∷ ticked 1 true (λ id. unmarked)
    ∷ ticked 100 true (λ id. delivered)
    ∷ []

abbrev after_two_ticks : List OutboxEntry
after_two_ticks =
    record {
      id = 1;
      channel = "events.broadcast.den";
      payload = "a";
      attempts = 1;
      published = true;
    }
    ∷ record {
      id = 2;
      channel = "events.broadcast.den";
      payload = "b";
      attempts = 0;
      published = true;
    }
    ∷ []

two_ticks_run : (happen_all two_ticks empty_box).rows ≡ after_two_ticks
unfolding happen tick publish_rows after_outcome mark_published count_attempt
two_ticks_run = refl

at_least_once_example :
    IsDelivered (happen_all two_ticks empty_box)
    × (messages (happen_all two_ticks empty_box).rows ≡ [] ++ stores two_ticks)
at_least_once_example = at_least_once two_ticks empty_box (((λ e. cc e), tt), (tt, tt)) tt
