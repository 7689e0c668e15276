-- ===== src/Pipeline/Outbox/Rows.antt =====
-- No tick loses a row or changes a message.
use airport_inspection_platf.Pipeline.Outbox.{
  Outbox, OutboxEntry, Publication, RowOutcome, TickResult, after_outcome, batch, count_attempt,
  counts, delivered, is_delivered, landed, leaves, mark_published, publish_rows, refused,
  refused_uncounted, threw, tick, unmarked, unmarked_uncounted,
}
use airport_inspection_platf.Prelude.{
  Bool, Bool-cases, List, [], ap, false, if_false, if_true, if◌then◌else◌, inl, inr, map, refl,
  true, ℕ, ◌+◌, ◌-◌, ◌==◌, ◌∙◌, ◌∷◌, ◌≡◌, ◌⊎◌,
}

-- a tick that is not refused by the flag
unfoldable pub polled : ℕ → Bool → (ℕ → RowOutcome) → Outbox → TickResult × Outbox
unfolding publish_rows
polled batch_size selects outcome box =
    if selects
    then landed
        (publish_rows outcome 0 0 (batch batch_size box.rows) (record box { in_flight = true }))
    else (threw, box)

pub tick-cases :
    (batch_size : ℕ) (selects : Bool) (outcome : ℕ → RowOutcome) (box : Outbox)
    → (tick batch_size selects outcome box ≡ (counts 0 0, box))
      ⊎ (tick batch_size selects outcome box ≡ polled batch_size selects outcome box)
unfolding tick polled
tick-cases batch_size selects outcome box = elim (Bool-cases box.in_flight) [
  | inl busy ↦ inl (if_true _ _ _ busy)
  | inr idle ↦ inr (if_false _ _ _ idle)
]

-- The message that a row stands for.
abbrev pub message_of : OutboxEntry → Publication
message_of r = record { row_id = r.id; channel = r.channel; payload = r.payload }

-- The messages of the rows, in order.
abbrev pub messages : List OutboxEntry → List Publication
messages rows = map message_of rows

mark_published-messages :
    (id : ℕ) (rows : List OutboxEntry) → messages (mark_published id rows) ≡ messages rows
unfolding mark_published
mark_published-messages id [] = refl
mark_published-messages id (r ∷ rows) = elim (Bool-cases (r.id == id)) [
  | inl same ↦ rw same (ap (λ ms. message_of r ∷ ms) (mark_published-messages id rows))
  | inr unlike ↦ rw unlike (ap (λ ms. message_of r ∷ ms) (mark_published-messages id rows))
]

count_attempt-messages :
    (id : ℕ) (rows : List OutboxEntry) → messages (count_attempt id rows) ≡ messages rows
unfolding count_attempt
count_attempt-messages id [] = refl
count_attempt-messages id (r ∷ rows) = elim (Bool-cases (r.id == id)) [
  | inl same ↦ rw same (ap (λ ms. message_of r ∷ ms) (count_attempt-messages id rows))
  | inr unlike ↦ rw unlike (ap (λ ms. message_of r ∷ ms) (count_attempt-messages id rows))
]

pub after_outcome-messages :
    (o : RowOutcome) (row : OutboxEntry) (box : Outbox)
    → messages (after_outcome o row box).rows ≡ messages box.rows
unfolding after_outcome
after_outcome-messages delivered row box = mark_published-messages row.id box.rows
after_outcome-messages refused row box = count_attempt-messages row.id box.rows
after_outcome-messages unmarked row box = count_attempt-messages row.id box.rows
after_outcome-messages refused_uncounted row box = refl
after_outcome-messages unmarked_uncounted row box = refl

publish_rows-messages :
    (outcome : ℕ → RowOutcome) (published failed : ℕ) (rows : List OutboxEntry) (box : Outbox)
    → messages (publish_rows outcome published failed rows box).1.rows ≡ messages box.rows
unfolding publish_rows
publish_rows-messages outcome published failed [] box = refl
publish_rows-messages outcome published failed (row ∷ rows) box =
    let next = after_outcome-messages (outcome row.id) row box in
    elim (Bool-cases (leaves (outcome row.id))) [
      | inl out ↦ ap (λ (x : TickResult × Outbox). messages x.1.rows) (if_true _ _ _ out) ∙ next
      | inr on ↦
          ap (λ (x : TickResult × Outbox). messages x.1.rows) (if_false _ _ _ on)
          ∙ publish_rows-messages outcome (published + is_delivered (outcome row.id))
              (failed + (1 - is_delivered (outcome row.id))) rows _
          ∙ next
    ]

polled-messages :
    (batch_size : ℕ) (selects : Bool) (outcome : ℕ → RowOutcome) (box : Outbox)
    → messages (polled batch_size selects outcome box).1.rows ≡ messages box.rows
unfolding polled
polled-messages batch_size true outcome box =
    publish_rows-messages outcome 0 0 (batch batch_size box.rows) (record box { in_flight = true })
polled-messages batch_size false outcome box = refl

pub tick-messages :
    (batch_size : ℕ) (selects : Bool) (outcome : ℕ → RowOutcome) (box : Outbox)
    → messages (tick batch_size selects outcome box).1.rows ≡ messages box.rows
tick-messages batch_size selects outcome box = elim (tick-cases batch_size selects outcome box) [
  | inl e ↦ ap (λ (x : TickResult × Outbox). messages x.1.rows) e
  | inr e ↦
      ap (λ (x : TickResult × Outbox). messages x.1.rows) e
      ∙ polled-messages batch_size selects outcome box
]
