-- ===== src/Pipeline/Outbox/Delivery.antt =====
-- At least once: what is marked as published has been taken by Redis.
use airport_inspection_platf.Pipeline.Outbox.Rows.{
  after_outcome-messages, message_of, messages, polled, tick-cases, tick-messages,
}
use airport_inspection_platf.Pipeline.Outbox.{
  Outbox, OutboxEntry, Publication, RowOutcome, TickResult, after_outcome, batch, count_attempt,
  delivered, is_delivered, leaves, mark_published, publication, publish_rows, refused,
  refused_uncounted, tick, unmarked, unmarked_uncounted,
}
use airport_inspection_platf.Prelude.{
  All, All-append, All-filter, All-take, Bool, Bool-cases, List, String, [], all, ap, append-nil,
  append_assoc, arith, false, if_false, if_true, if◌then◌else◌, inl, inr, refl, subst, suc, sym,
  true, ℕ, ◌++◌, ◌+◌, ◌-◌, ◌==◌, ◌∙◌, ◌∷◌, ◌≡◌, ◌≢◌, ◌⊎◌,
}

abbrev pub IsSent : Publication → List Publication → Type 0
IsSent p [] = ⊥
IsSent p (q ∷ qs) = (q ≡ p) ⊎ IsSent p qs

abbrev pub IsBacked : List Publication → OutboxEntry → Type 0
IsBacked sent r = r.published ≡ true → IsSent (message_of r) sent

-- Every message of this id is that of the row.
abbrev pub Agrees : OutboxEntry → List Publication → Type 0
Agrees row ms = All (λ (q : Publication). q.row_id ≡ row.id → q ≡ message_of row) ms

-- The primary key of the table: no two messages come from rows of one id.
abbrev pub IsKeyed : List Publication → Type 0
IsKeyed [] = Unit
IsKeyed (p ∷ ps) = All (λ (q : Publication). p.row_id ≢ q.row_id) ps × IsKeyed ps

IsSent-more : (p : Publication) (ps qs : List Publication) → IsSent p ps → IsSent p (ps ++ qs)
IsSent-more p [] qs m = absurd m
IsSent-more p (q ∷ ps) qs m = elim m [ inl e ↦ inl e | inr m' ↦ inr (IsSent-more p ps qs m') ]

IsSent-last : (p : Publication) (ps : List Publication) → IsSent p (ps ++ p ∷ [])
IsSent-last p [] = inl refl
IsSent-last p (q ∷ ps) = inr (IsSent-last p ps)

same_id : (a b : ℕ) → a == b ≡ true → a ≡ b
same_id a b h = ground arith

grown :
    (sent : List Publication) (p : Publication) (rows : List OutboxEntry)
    → All (IsBacked sent) rows
    → All (IsBacked (sent ++ p ∷ [])) rows
grown sent p [] h = tt
grown sent p (r ∷ rows) (k, h) =
    (λ e. IsSent-more (message_of r) sent (p ∷ []) (k e), grown sent p rows h)

marked_one :
    (sent : List Publication) (row r : OutboxEntry)
    → (r.id ≡ row.id → message_of r ≡ message_of row)
    → IsBacked sent r
    → IsBacked
        (sent ++ publication row ∷ [])
        (if r.id == row.id then record r { published = true } else r)
marked_one sent row r agree k = elim (Bool-cases (r.id == row.id)) [
  | inl same ↦ subst (IsBacked (sent ++ publication row ∷ [])) (sym (if_true _ _ _ same)) (λ e.
      subst (λ m. IsSent m (sent ++ publication row ∷ [])) (sym (agree (same_id r.id row.id same)))
        (IsSent-last (publication row) sent))
  | inr unlike ↦
      subst (IsBacked (sent ++ publication row ∷ [])) (sym (if_false _ _ _ unlike))
        (λ e. IsSent-more (message_of r) sent (publication row ∷ []) (k e))
]

counted_one :
    (sent : List Publication) (id : ℕ) (r : OutboxEntry)
    → IsBacked sent r
    → IsBacked sent (if r.id == id then record r { attempts = suc r.attempts } else r)
counted_one sent id r k = elim (Bool-cases (r.id == id)) [
  | inl same ↦ subst (IsBacked sent) (sym (if_true _ _ _ same)) k
  | inr unlike ↦ subst (IsBacked sent) (sym (if_false _ _ _ unlike)) k
]

marked :
    (sent : List Publication) (row : OutboxEntry) (rows : List OutboxEntry)
    → Agrees row (messages rows)
    → All (IsBacked sent) rows
    → All (IsBacked (sent ++ publication row ∷ [])) (mark_published row.id rows)
unfolding mark_published
marked sent row [] a h = tt
marked sent row (r ∷ rows) (agree, a) (k, h) =
    (marked_one sent row r agree k, marked sent row rows a h)

counted :
    (sent : List Publication) (id : ℕ) (rows : List OutboxEntry)
    → All (IsBacked sent) rows
    → All (IsBacked sent) (count_attempt id rows)
unfolding count_attempt
counted sent id [] h = tt
counted sent id (r ∷ rows) (k, h) = (counted_one sent id r k, counted sent id rows h)

-- Every row that is marked as published has been taken by Redis.
abbrev pub IsDelivered : Outbox → Type 0
IsDelivered box = All (IsBacked box.sent) box.rows

after_outcome-IsDelivered :
    (o : RowOutcome) (row : OutboxEntry) (box : Outbox)
    → Agrees row (messages box.rows)
    → IsDelivered box
    → IsDelivered (after_outcome o row box)
unfolding after_outcome
after_outcome-IsDelivered delivered row box a h = marked box.sent row box.rows a h
after_outcome-IsDelivered refused row box a h = counted box.sent row.id box.rows h
after_outcome-IsDelivered unmarked row box a h =
    counted _ row.id box.rows (grown box.sent (publication row) box.rows h)
after_outcome-IsDelivered refused_uncounted row box a h = h
after_outcome-IsDelivered unmarked_uncounted row box a h =
    grown box.sent (publication row) box.rows h

publish_rows-IsDelivered :
    (outcome : ℕ → RowOutcome) (published failed : ℕ) (rows : List OutboxEntry) (box : Outbox)
    → All (λ row. Agrees row (messages box.rows)) rows
    → IsDelivered box
    → IsDelivered (publish_rows outcome published failed rows box).1
unfolding publish_rows
publish_rows-IsDelivered outcome published failed [] box all h = h
publish_rows-IsDelivered outcome published failed (row ∷ rows) box (a, all) h =
    let next = after_outcome-IsDelivered (outcome row.id) row box a h in
    let kept =
      subst (λ ms. All (λ row. Agrees row ms) rows)
        (sym (after_outcome-messages (outcome row.id) row box)) all in
    elim (Bool-cases (leaves (outcome row.id))) [
      | inl out ↦
          subst (λ (x : TickResult × Outbox). IsDelivered x.1) (sym (if_true _ _ _ out)) next
      | inr on ↦
          subst (λ (x : TickResult × Outbox). IsDelivered x.1) (sym (if_false _ _ _ on))
            (publish_rows-IsDelivered outcome (published + is_delivered (outcome row.id))
              (failed + (1 - is_delivered (outcome row.id))) rows _ kept next)
    ]

-- What no message of some rows shares its id with does not disturb them.
agree_more :
    (p : Publication) (ms : List Publication) (rows : List OutboxEntry)
    → All (λ (q : Publication). p.row_id ≢ q.row_id) (messages rows)
    → All (λ row. Agrees row ms) rows
    → All (λ row. Agrees row (p ∷ ms)) rows
agree_more p ms [] apart h = tt
agree_more p ms (r ∷ rows) (n, apart) (a, h) =
    ((λ e. absurd (n e), a), agree_more p ms rows apart h)

apart-Agrees :
    (row : OutboxEntry) (ms : List Publication)
    → All (λ (q : Publication). row.id ≢ q.row_id) ms
    → Agrees row ms
apart-Agrees row [] h = tt
apart-Agrees row (q ∷ ms) (n, h) = (λ e. absurd (n (sym e)), apart-Agrees row ms h)

IsKeyed-Agrees :
    (rows : List OutboxEntry)
    → IsKeyed (messages rows)
    → All (λ row. Agrees row (messages rows)) rows
IsKeyed-Agrees [] k = tt
IsKeyed-Agrees (r ∷ rows) (apart, k) = (
  (λ e. refl, apart-Agrees r (messages rows) apart),
  agree_more (message_of r) (messages rows) rows apart (IsKeyed-Agrees rows k),
)

All-prefix : (P : Publication → Type 0) (ps qs : List Publication) → All P (ps ++ qs) → All P ps
All-prefix P [] qs h = tt
All-prefix P (p ∷ ps) qs (k, h) = (k, All-prefix P ps qs h)

IsKeyed-prefix : (ps qs : List Publication) → IsKeyed (ps ++ qs) → IsKeyed ps
IsKeyed-prefix [] qs h = tt
IsKeyed-prefix (p ∷ ps) qs (apart, h) =
    (All-prefix (λ (q : Publication). p.row_id ≢ q.row_id) ps qs apart, IsKeyed-prefix ps qs h)

polled-IsDelivered :
    (batch_size : ℕ) (selects : Bool) (outcome : ℕ → RowOutcome) (box : Outbox)
    → IsKeyed (messages box.rows)
    → IsDelivered box
    → IsDelivered (polled batch_size selects outcome box).1
unfolding polled
polled-IsDelivered batch_size true outcome box k h =
    publish_rows-IsDelivered outcome 0 0 (batch batch_size box.rows)
      (record box { in_flight = true })
      (All-take _ batch_size _ (All-filter _ _ box.rows (IsKeyed-Agrees box.rows k))) h
polled-IsDelivered batch_size false outcome box k h = h

tick-IsDelivered :
    (batch_size : ℕ) (selects : Bool) (outcome : ℕ → RowOutcome) (box : Outbox)
    → IsKeyed (messages box.rows)
    → IsDelivered box
    → IsDelivered (tick batch_size selects outcome box).1
tick-IsDelivered batch_size selects outcome box k h =
    elim (tick-cases batch_size selects outcome box) [
      | inl e ↦ subst (λ (x : TickResult × Outbox). IsDelivered x.1) (sym e) h
      | inr e ↦
          subst (λ (x : TickResult × Outbox). IsDelivered x.1) (sym e)
            (polled-IsDelivered batch_size selects outcome box k h)
    ]

-- What happens to the outbox: the pipeline adds a row that is not published, or the worker ticks.
pub data Happening : Type 0 where
  stored : ℕ → String → String → Happening
  ticked : ℕ → Bool → (ℕ → RowOutcome) → Happening

unfoldable pub happen : Happening → Outbox → Outbox
unfolding tick
happen (stored id channel payload) box = record box {
  rows =
      box.rows
      ++ record { id = id; channel = channel; payload = payload; attempts = 0; published = false }
        ∷ [];
}
happen (ticked batch_size selects outcome) box = (tick batch_size selects outcome box).1

abbrev pub happen_all : List Happening → Outbox → Outbox
happen_all [] box = box
happen_all (e ∷ es) box = happen_all es (happen e box)

-- the messages that the pipeline adds
abbrev pub stores : List Happening → List Publication
stores [] = []
stores (stored id channel payload ∷ es) =
    record { row_id = id; channel = channel; payload = payload } ∷ stores es
stores (ticked batch_size selects outcome ∷ es) = stores es

appended-IsBacked :
    (sent : List Publication) (rows : List OutboxEntry) (r : OutboxEntry)
    → r.published ≡ false
    → All (IsBacked sent) rows
    → All (IsBacked sent) (rows ++ r ∷ [])
appended-IsBacked sent rows r new h =
    All-append (IsBacked sent) rows (r ∷ []) h ((λ e. absurd (cc)), tt)

messages-append :
    (rows : List OutboxEntry) (r : OutboxEntry)
    → messages (rows ++ r ∷ []) ≡ messages rows ++ publication r ∷ []
messages-append [] r = refl
messages-append (q ∷ rows) r = ap (λ ms. publication q ∷ ms) (messages-append rows r)

happen-messages :
    (e : Happening) (es : List Happening) (box : Outbox)
    → messages (happen e box).rows ++ stores es ≡ messages box.rows ++ stores (e ∷ es)
unfolding happen
happen-messages (stored id channel payload) es box =
    ap (λ ms. ms ++ stores es) (messages-append box.rows _)
    ∙ append_assoc (messages box.rows) _ (stores es)
happen-messages (ticked batch_size selects outcome) es box =
    ap (λ ms. ms ++ stores es) (tick-messages batch_size selects outcome box)

happen_all-messages :
    (es : List Happening) (box : Outbox)
    → messages (happen_all es box).rows ≡ messages box.rows ++ stores es
happen_all-messages [] box = sym (append-nil (messages box.rows))
happen_all-messages (e ∷ es) box = happen_all-messages es (happen e box) ∙ happen-messages e es box

happen-IsDelivered :
    (e : Happening) (box : Outbox)
    → IsKeyed (messages box.rows)
    → IsDelivered box
    → IsDelivered (happen e box)
unfolding happen
happen-IsDelivered (stored id channel payload) box k h =
    appended-IsBacked box.sent box.rows _ refl h
happen-IsDelivered (ticked batch_size selects outcome) box k h =
    tick-IsDelivered batch_size selects outcome box k h

happen_all-IsDelivered :
    (es : List Happening) (box : Outbox)
    → IsKeyed (messages box.rows ++ stores es)
    → IsDelivered box
    → IsDelivered (happen_all es box)
happen_all-IsDelivered [] box k h = h
happen_all-IsDelivered (e ∷ es) box k h =
    happen_all-IsDelivered es (happen e box) (subst IsKeyed (sym (happen-messages e es box)) k)
      (happen-IsDelivered e box (IsKeyed-prefix (messages box.rows) (stores (e ∷ es)) k) h)

-- At least once: from an outbox where this holds, after any sequence of stored messages and ticks, each
-- with any outcome of every call of Redis and PostgreSQL, and with no id drawn twice (it is the primary key),
-- a row is marked as published only if Redis has taken a message from it on its channel and with its
-- payload; and no row is ever lost: the table holds its earlier messages and then those that were stored,
-- in order.
pub at_least_once :
    (es : List Happening) (box : Outbox)
    → IsKeyed (messages box.rows ++ stores es)
    → IsDelivered box
    → IsDelivered (happen_all es box)
      × (messages (happen_all es box).rows ≡ messages box.rows ++ stores es)
at_least_once es box k h = (happen_all-IsDelivered es box k h, happen_all-messages es box)
