-- ===== src/Dashboard/Alerts/Feed.antt =====
-- apps/web/stores/alerts.ts: what the feed keeps, over any actions.
use airport_inspection_platf.Prelude.{
  All, All-take, Bool-cases, List, Option, String, [], arith, false, if◌then◌else◌, inl, inr,
  length, length-take, ltb, refl, str_eq_refl, subst, suc, sym, take, zero, ℕ, ◌∷◌, ◌≡◌, ◌≢◌, ◌≤◌,
}
use airport_inspection_platf.Prelude.Sort.{All-insert, insert, is_gt, sort}
use airport_inspection_platf.Prelude.Text.{text_lt, text_lt_asymm, text_lt_total, text_lt_trans}
use airport_inspection_platf.Dashboard.Alerts.{
  AlertItem, AlertsState, FeedState, clear, compare_newest, error, idle, initial_alerts,
  insert_alert, is_listed, loading, note_reconnect, push, push_many, ready, set_feed_state,
}

-- No alert after it is newer.
abbrev pub NotOlder : AlertItem → AlertItem → Type 0
NotOlder a b = text_lt a.received_at b.received_at ≡ false

abbrev pub IsNewestFirst : List AlertItem → Type 0
IsNewestFirst [] = Unit
IsNewestFirst (a ∷ items) = All (NotOlder a) items × IsNewestFirst items

abbrev pub IsOnce : List AlertItem → Type 0
IsOnce [] = Unit
IsOnce (a ∷ items) = All (λ b. a.id ≢ b.id) items × IsOnce items

-- The feed shows the newest first, each alert once, and no more than fit.
abbrev pub IsFeed : ℕ → List AlertItem → Type 0
IsFeed max_items items = IsNewestFirst items × IsOnce items × (length items ≤ max_items)

NotOlder-trans : (a b c : AlertItem) → NotOlder a b → NotOlder b c → NotOlder a c
NotOlder-trans a b c h k = elim (Bool-cases (text_lt b.received_at a.received_at)) [
  | inl newer ↦ elim (Bool-cases (text_lt a.received_at c.received_at)) [
    | inl older ↦ absurd (cc (text_lt_trans b.received_at a.received_at c.received_at newer older))
    | inr kept ↦ kept
  ]
  | inr same ↦
      subst (λ t. text_lt t c.received_at ≡ false)
        (sym (text_lt_total a.received_at b.received_at h same)) k
]

All-NotOlder :
    (a b : AlertItem) (items : List AlertItem)
    → NotOlder a b
    → All (NotOlder b) items
    → All (NotOlder a) items
All-NotOlder a b [] h k = tt
All-NotOlder a b (c ∷ items) h (p, k) = (NotOlder-trans a b c h p, All-NotOlder a b items h k)

insert-IsNewestFirst :
    (a : AlertItem) (items : List AlertItem)
    → IsNewestFirst items
    → IsNewestFirst (insert compare_newest a items)
unfolding insert compare_newest
insert-IsNewestFirst a [] s = (tt, tt)
insert-IsNewestFirst a (b ∷ items) (below, s) =
    elim (Bool-cases (text_lt a.received_at b.received_at)) [
      | inl older ↦ rw older (
        All-insert compare_newest (NotOlder b) a items
            (text_lt_asymm a.received_at b.received_at older) below,
        insert-IsNewestFirst a items s,
      )
      | inr kept ↦ elim (Bool-cases (text_lt b.received_at a.received_at)) [
        | inl newer ↦ rw kept (rw newer ((kept, All-NotOlder a b items kept below), (below, s)))
        | inr same ↦ rw kept (rw same ((kept, All-NotOlder a b items kept below), (below, s)))
      ]
    ]

insert-IsOnce :
    (a : AlertItem) (items : List AlertItem)
    → All (λ b. a.id ≢ b.id) items
    → IsOnce items
    → IsOnce (insert compare_newest a items)
unfolding insert
insert-IsOnce a [] fresh s = (tt, tt)
insert-IsOnce a (b ∷ items) (n, fresh) (apart, s) = elim (Bool-cases (is_gt (compare_newest a b))) [
  | inl after ↦ rw after (
    All-insert compare_newest (λ c. b.id ≢ c.id) a items (λ e. n (sym e)) apart,
    insert-IsOnce a items fresh s,
  )
  | inr before ↦ rw before ((n, fresh), (apart, s))
]

-- A list that shows the newest first is sorted as it is.
sort_again : (items : List AlertItem) → IsNewestFirst items → sort compare_newest items ≡ items
unfolding sort insert compare_newest
sort_again [] s = refl
sort_again (a ∷ []) s = refl
sort_again (a ∷ b ∷ items) ((h, below), s) = rw (sort_again (b ∷ items) s) (ground arith)

is_listed-fresh :
    (id : String) (items : List AlertItem) → is_listed id items ≡ false → All (λ b. id ≢ b.id) items
is_listed-fresh id [] h = tt
is_listed-fresh id (b ∷ items) h = ground (arith, str_eq_refl id, is_listed-fresh id items)

take-IsOnce : (n : ℕ) (items : List AlertItem) → IsOnce items → IsOnce (take n items)
take-IsOnce zero items s = tt
take-IsOnce (suc n) [] s = tt
take-IsOnce (suc n) (a ∷ items) (apart, s) =
    (All-take (λ b. a.id ≢ b.id) n items apart, take-IsOnce n items s)

take-IsNewestFirst :
    (n : ℕ) (items : List AlertItem) → IsNewestFirst items → IsNewestFirst (take n items)
take-IsNewestFirst zero items s = tt
take-IsNewestFirst (suc n) [] s = tt
take-IsNewestFirst (suc n) (a ∷ items) (below, s) =
    (All-take (NotOlder a) n items below, take-IsNewestFirst n items s)

cut-IsFeed :
    (n : ℕ) (items : List AlertItem)
    → IsNewestFirst items
    → IsOnce items
    → IsFeed n (if ltb n (length items) then take n items else items)
cut-IsFeed n items s o = elim (Bool-cases (ltb n (length items))) [
  | inl long ↦
      rw long
        (take-IsNewestFirst n items s, take-IsOnce n items o, omega (arith, length-take n items))
  | inr fits ↦ rw fits (s, o, ground arith)
]

insert_alert-IsFeed :
    (items : List AlertItem) (next : AlertItem) (n : ℕ)
    → IsFeed n items
    → IsFeed n (insert_alert items next n)
unfolding insert_alert sort
insert_alert-IsFeed items next n (s, o, few) = elim (Bool-cases (is_listed next.id items)) [
  | inl listed ↦ rw listed (s, o, few)
  | inr fresh ↦ rw fresh (
      rw (sort_again items s) (
        cut-IsFeed n (insert compare_newest next items) (insert-IsNewestFirst next items s)
          (insert-IsOnce next items (is_listed-fresh next.id items fresh) o)))
]

-- What the stream and the page do with the store.
pub data Action : Type 0 where
  pushes : AlertItem → Action
  pushes_many : List AlertItem → Action
  clears notes_reconnect : Action
  sets_feed_state : FeedState → Option String → Action

unfoldable pub perform : Action → AlertsState → AlertsState
unfolding push push_many clear note_reconnect set_feed_state
perform (pushes item) s = push item s
perform (pushes_many items) s = push_many items s
perform clears s = clear s
perform notes_reconnect s = note_reconnect s
perform (sets_feed_state state message) s = set_feed_state state message s

unfoldable pub perform_all : List Action → AlertsState → AlertsState
unfolding perform
perform_all [] s = s
perform_all (a ∷ actions) s = perform_all actions (perform a s)

-- The feed of a store is well formed for the length that it was set up with.
abbrev pub Keeps : ℕ → AlertsState → Type 0
Keeps n s = (s.max_items ≡ n) × IsFeed n s.items

push-Keeps : (n : ℕ) (item : AlertItem) (s : AlertsState) → Keeps n s → Keeps n (push item s)
unfolding push
push-Keeps n item s (e, f) = (e, rw e (insert_alert-IsFeed s.items item n f))

push_many-Keeps :
    (n : ℕ) (items : List AlertItem) (s : AlertsState) → Keeps n s → Keeps n (push_many items s)
unfolding push_many push
push_many-Keeps n [] s k = k
push_many-Keeps n (item ∷ items) s k = push_many-Keeps n items (push item s) (push-Keeps n item s k)

perform-Keeps : (n : ℕ) (a : Action) (s : AlertsState) → Keeps n s → Keeps n (perform a s)
unfolding perform clear note_reconnect set_feed_state
perform-Keeps n (pushes item) s k = push-Keeps n item s k
perform-Keeps n (pushes_many items) s k = push_many-Keeps n items s k
perform-Keeps n clears s (e, f) = (e, (tt, tt, omega arith))
perform-Keeps n notes_reconnect s k = k
perform-Keeps n (sets_feed_state idle message) s k = k
perform-Keeps n (sets_feed_state loading message) s k = k
perform-Keeps n (sets_feed_state ready message) s k = k
perform-Keeps n (sets_feed_state error message) s k = k

perform_all-Keeps :
    (n : ℕ) (actions : List Action) (s : AlertsState) → Keeps n s → Keeps n (perform_all actions s)
unfolding perform_all
perform_all-Keeps n [] s k = k
perform_all-Keeps n (a ∷ actions) s k =
    perform_all-Keeps n actions (perform a s) (perform-Keeps n a s k)

-- Whatever is pushed, in any order and with any repetition, and whatever else is done with the store, the feed shows no alert before a newer one, each alert once, and at most a thousand.
pub perform_all-IsFeed :
    (actions : List Action) → IsFeed 1000 (perform_all actions initial_alerts).items
perform_all-IsFeed actions =
    (perform_all-Keeps 1000 actions initial_alerts (refl, (tt, tt, omega arith))).1
