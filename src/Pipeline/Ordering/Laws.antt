-- ===== src/Pipeline/Ordering/Laws.antt =====
-- What the watermarks and the replay queue keep over any run of frames.
use airport_inspection_platf.Prelude.Map.{get-set}
use airport_inspection_platf.Pipeline.Ordering.{
  ReplayItem, ReplayQueue, WatermarkTracker, check, enqueue, watermark_for,
}
use airport_inspection_platf.Prelude.{
  Bool-cases, List, Option, String, [], ap, append-nil, append_assoc, arith, drop, eq_iff,
  if◌then◌else◌, inl, inr, leb, leb→le, length, length-append, length-drop, max, none, refl, some,
  str_eq, suc, sym, ℕ, ◌++◌, ◌-◌, ◌<◌, ◌∙◌, ◌∷◌, ◌≡◌, ◌≤◌,
}

abbrev pub check_all : List (String × ℕ) → WatermarkTracker → WatermarkTracker
check_all [] tracker = tracker
check_all (f ∷ frames) tracker = check_all frames (check f.0 f.1 tracker).1

-- The greater of a time and what is known.
abbrev pub latest_of : Option ℕ → ℕ → ℕ
latest_of none t = t
latest_of (some u) t = max u t

-- The greatest time among the sensor's frames and what is known.
abbrev pub greatest : String → Option ℕ → List (String × ℕ) → Option ℕ
greatest sensor_id known [] = known
greatest sensor_id known (f ∷ frames) =
    greatest sensor_id (if str_eq f.0 sensor_id then some (latest_of known f.1) else known) frames

check-watermark_for :
    (sensor_id other : String) (t : ℕ) (tracker : WatermarkTracker)
    → watermark_for sensor_id (check other t tracker).1 ≡ (
        if str_eq other sensor_id
        then some (latest_of (watermark_for sensor_id tracker) t)
        else watermark_for sensor_id tracker)
unfolding check watermark_for
check-watermark_for sensor_id other t tracker =
    ground (arith, get-set sensor_id other t tracker.latest, eq_iff other sensor_id)

-- Whatever frames arrive in whatever order, a sensor's watermark is the greatest `captured_at`
-- among its own frames and the watermark that it had; a frame of another sensor never moves it.
pub check_all-watermark_for :
    (sensor_id : String) (frames : List (String × ℕ)) (tracker : WatermarkTracker)
    → watermark_for sensor_id (check_all frames tracker)
      ≡ greatest sensor_id (watermark_for sensor_id tracker) frames
check_all-watermark_for sensor_id [] tracker = refl
check_all-watermark_for sensor_id (f ∷ frames) tracker =
    check_all-watermark_for sensor_id frames (check f.0 f.1 tracker).1
    ∙ ap (λ k. greatest sensor_id k frames) (check-watermark_for sensor_id f.0 f.1 tracker)

abbrev pub enqueue_all : List ReplayItem → ReplayQueue → ReplayQueue
enqueue_all [] queue = queue
enqueue_all (i ∷ arrivals) queue =
    enqueue_all arrivals (enqueue i.key i.payload i.enqueued_at queue).1

drop_one :
    (xs ys : List ReplayItem) (n : ℕ)
    → 0 < length xs
    → drop n (drop 1 xs ++ ys) ≡ drop (suc n) (xs ++ ys)
drop_one [] ys n l = absurd (omega arith)
drop_one (x ∷ xs) ys n l = refl

abbrev newest : ℕ → List ReplayItem → List ReplayItem
newest max_size xs = drop (length xs - max_size) xs

newest_few : (max_size : ℕ) (xs : List ReplayItem) → length xs ≤ max_size → newest max_size xs ≡ xs
newest_few max_size xs l = let e : length xs - max_size ≡ 0 = omega arith in rw e refl

newest_shift :
    (xs ys : List ReplayItem) (i : ReplayItem) (max_size : ℕ)
    → 0 < max_size
    → length xs ≡ max_size
    → newest max_size ((drop 1 xs ++ i ∷ []) ++ ys) ≡ newest max_size (xs ++ i ∷ ys)
newest_shift xs ys i max_size p l =
    let joined : (drop 1 xs ++ i ∷ []) ++ ys ≡ drop 1 xs ++ i ∷ ys =
      append_assoc (drop 1 xs) (i ∷ []) ys in
    let short : length (drop 1 xs ++ i ∷ ys) - max_size ≡ length ys =
      omega (arith, length-append (drop 1 xs) (i ∷ ys), length-drop 1 xs) in
    let long : length (xs ++ i ∷ ys) - max_size ≡ suc (length ys) =
      omega (arith, length-append xs (i ∷ ys)) in
    ap (newest max_size) joined
    ∙ ap (λ n. drop n (drop 1 xs ++ i ∷ ys)) short
    ∙ drop_one xs (i ∷ ys) (length ys) (omega arith)
    ∙ ap (λ n. drop n (xs ++ i ∷ ys)) (sym long)

-- A bounded queue keeps the newest items: after any run of arrivals it holds the last `max_size`
-- of what it held followed by what arrived, in that order, and never more than `max_size` of them,
-- if `max_size` is positive.
pub enqueue_all-newest :
    (arrivals : List ReplayItem) (queue : ReplayQueue)
    → 0 < queue.max_size
    → length queue.items ≤ queue.max_size
    → ((enqueue_all arrivals queue).items
        ≡ drop (length (queue.items ++ arrivals) - queue.max_size) (queue.items ++ arrivals))
      × (length (enqueue_all arrivals queue).items ≤ queue.max_size)
unfolding enqueue
enqueue_all-newest [] queue p l =
    let whole = append-nil queue.items in
    (sym (newest_few queue.max_size queue.items l) ∙ ap (newest queue.max_size) (sym whole), l)
enqueue_all-newest (i ∷ arrivals) queue p l =
    elim (Bool-cases (leb queue.max_size (length queue.items))) [
      | inl t ↦
          let full = leb→le queue.max_size (length queue.items) t in
          let kept = drop 1 queue.items ++ i ∷ [] in
          let ih =
            enqueue_all-newest arrivals (record queue { items = kept }) p
              (omega
                (arith, length-append (drop 1 queue.items) (i ∷ []), length-drop 1 queue.items)) in
          rw (t, enqueue_all)
            (ih.0 ∙ newest_shift queue.items arrivals i queue.max_size p (omega arith), ih.1)
      | inr t ↦
          let ih =
            enqueue_all-newest arrivals (record queue { items = queue.items ++ i ∷ [] }) p
              (ground (arith, length-append queue.items (i ∷ []))) in
          rw (t, enqueue_all)
            (ih.0 ∙ ap (newest queue.max_size) (append_assoc queue.items (i ∷ []) arrivals), ih.1)
    ]
