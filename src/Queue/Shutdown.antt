-- ===== src/Queue/Shutdown.antt =====
-- Shutdown in src/handlers.go and the queue: what `rejectQueueLocked` of src/queue.go does for each
-- item, and a request that arrives around it.
use umans_dash_go.Prelude.{
  ℕ, ◌+◌, ◌≤◌, ◌<◌, ◌≡◌, refl, ◌∙◌, ◌⊎◌, inl, inr, true, false, ◌&&◌, List, [], ◌∷◌, ◌++◌, arith,
  leb, ◌==◌, if◌then◌else◌, ℤ, pos, length, Bool-cases,
}
use umans_dash_go.Queue.{
  Item, Queue, Event, close_done, launch, enqueue_locked, release_slot, done_events, error_events,
  reject_queue_locked, reject_events, try_signal, max_queue_size,
}
use umans_dash_go.Queue.System.{
  Steps, stay, more, System, Step, arrive, enqueue, wake, pass, cut_pass, finish, finish_delayed,
  expire, signal, shut_down, clear_pending, reject,
}

-- How often `Done` of an item is closed.
unfoldable pub closes : ℕ → List Event → ℕ
closes id [] = 0
closes id (close_done n ∷ events) = (if n == id then 1 else 0) + closes id events
closes id (launch n ∷ events) = closes id events
closes id (e ∷ events) = closes id events

-- The items under an id whose handler waits on `Done`, and those that a rejection passes over.
unfoldable pub count_waiting : ℕ → List Item → ℕ
count_waiting id [] = 0
count_waiting id (item ∷ items) =
    (if item.has_done && item.id == id then 1 else 0) + count_waiting id items

unfoldable pub count_skipped : ℕ → List Item → ℕ
count_skipped id [] = 0
count_skipped id (item ∷ items) =
    (if item.tracked && item.committed
      then (if item.has_done && item.id == id then 1 else 0)
      else 0)
    + count_skipped id items

closes-append : (id : ℕ) (xs ys : List Event) → closes id (xs ++ ys) ≡ closes id xs + closes id ys
unfolding closes
closes-append id [] ys = omega arith
closes-append id (close_done n ∷ xs) ys = omega (arith, closes-append id xs ys)
closes-append id (e ∷ xs) ys = closes-append id xs ys

closes-done_events :
    (id : ℕ) (item : Item)
    → closes id (done_events item) ≡ (if item.has_done && item.id == id then 1 else 0)
unfolding closes
closes-done_events id item = ground arith

closes-error_events : (id status : ℕ) (item : Item) → closes id (error_events item status) ≡ 0
unfolding closes
closes-error_events id status item = ground arith

closes-reject_item :
    (id : ℕ) (item : Item)
    → closes id
          (if item.tracked && item.committed then [] else error_events item 503 ++ done_events item)
        + (if item.tracked && item.committed
            then (if item.has_done && item.id == id then 1 else 0)
            else 0)
      ≡ (if item.has_done && item.id == id then 1 else 0)
unfolding closes
closes-reject_item id item = ground (
  arith,
  closes-append id (error_events item 503) (done_events item),
  closes-error_events id 503 item,
  closes-done_events id item,
)

closes-reject_events :
    (id : ℕ) (items : List Item)
    → closes id (reject_events items) + count_skipped id items ≡ count_waiting id items
unfolding closes reject_events count_skipped count_waiting
closes-reject_events id [] = refl
closes-reject_events id (item ∷ items) = omega (
  arith,
  closes-append id
      (if item.tracked && item.committed then [] else error_events item 503 ++ done_events item)
      (reject_events items),
  closes-reject_item id item,
  closes-reject_events id items,
)

-- The rejection at shutdown empties the queue and closes the `Done` channel of each queued item
-- once, except for the items whose response is already committed: those are dropped with their
-- channel open, so that the handlers that wait on it stay blocked.
pub reject_queue_locked-closes :
    (id : ℕ) (q : Queue)
    → let r = reject_queue_locked q in
      (r.0.request_queue ≡ [])
      × (closes id r.1 + count_skipped id q.request_queue ≡ count_waiting id q.request_queue)
unfolding reject_queue_locked
reject_queue_locked-closes id q = (refl, closes-reject_events id q.request_queue)

-- A queued item that nobody will serve: the worker is gone.
pub record Stranded (item : Item) (s : System) : Type 0 where
  pub down : s.queue.shutting_down ≡ true
  pub gone : s.worker_alive ≡ false
  pub out : s.in_pass ≡ false
  pub behind : List Item
  pub waiting : s.queue.request_queue ≡ item ∷ behind

try_signal-queue : (q : Queue) → (try_signal q).request_queue ≡ q.request_queue
unfolding try_signal
try_signal-queue q = ground arith

try_signal-flag : (q : Queue) → (try_signal q).shutting_down ≡ q.shutting_down
unfolding try_signal
try_signal-flag q = ground arith

-- Under the lock an item is appended, or turned away where the queue is full.
enqueue_locked_queue :
    (gate : ℕ) (item : Item) (q : Queue)
    → ((enqueue_locked (pos gate) item q).0.shutting_down ≡ q.shutting_down)
      × ((enqueue_locked (pos gate) item q).0.request_queue ≡ (
          if leb max_queue_size (length q.request_queue)
          then q.request_queue
          else q.request_queue ++ item ∷ []))
unfolding enqueue_locked
enqueue_locked_queue gate item q = elim (Bool-cases (leb max_queue_size (length q.request_queue))) [
  | inl is_full ↦ rw is_full (refl, refl)
  | inr room ↦ rw room (try_signal-flag _, try_signal-queue _)
]

enqueue_locked-behind :
    (gate : ℕ) (first item : Item) (q : Queue) (behind : List Item)
    → q.request_queue ≡ first ∷ behind
    → (b : List Item) × ((enqueue_locked (pos gate) item q).0.request_queue ≡ first ∷ b)
enqueue_locked-behind gate first item q behind e =
    let (_, at) = enqueue_locked_queue gate item q in
    elim (Bool-cases (leb max_queue_size (length q.request_queue))) [
      | inl is_full ↦ (behind, ground (arith, at))
      | inr room ↦ (behind ++ item ∷ [], ground (arith, at))
    ]

module _ (gate : ℕ) (delay : ℤ) (item : Item) where
  Step-rejections : {s t : System} → Step gate delay s t → s.rejections ≤ t.rejections
  Step-rejections (arrive other up) = omega arith
  Step-rejections (enqueue other before behind e) = omega arith
  Step-rejections (wake alive idle) = omega arith
  Step-rejections (pass p) = omega arith
  Step-rejections (cut_pass down p) = omega arith
  Step-rejections (finish n e r) = omega arith
  Step-rejections (finish_delayed n e r) = omega arith
  Step-rejections (expire n e) = omega arith
  Step-rejections (signal n e) = omega arith
  Step-rejections shut_down = omega arith
  Step-rejections (clear_pending d) = omega arith
  Step-rejections (reject d g) = omega arith

  -- No step serves it; a rejection takes it out.
  Step-Stranded :
      {s t : System}
      → Step gate delay s t
      → Stranded item s
      → Stranded item t ⊎ (s.rejections < t.rejections)
  unfolding release_slot
  Step-Stranded (arrive other up) h = absurd (ground (arith, h.down))
  Step-Stranded {s = s} (enqueue other before behind e) h =
      let (b, at) = enqueue_locked-behind gate item other s.queue h.behind h.waiting in
      inl (record {
        down = (enqueue_locked_queue gate other s.queue).0 ∙ h.down;
        gone = h.gone;
        out = h.out;
        behind = b;
        waiting = at;
      })
  Step-Stranded (wake alive idle) h = absurd (ground (arith, h.gone))
  Step-Stranded (pass p) h = absurd (ground (arith, h.out))
  Step-Stranded (cut_pass down p) h = absurd (ground (arith, h.out))
  Step-Stranded {s = s} (finish n e r) h =
      inl (record {
        down = h.down;
        gone = h.gone;
        out = h.out;
        behind = h.behind;
        waiting = h.waiting;
      })
  Step-Stranded (finish_delayed n e r) h =
      inl (record {
        down = h.down;
        gone = h.gone;
        out = h.out;
        behind = h.behind;
        waiting = h.waiting;
      })
  Step-Stranded (expire n e) h =
      inl (record {
        down = h.down;
        gone = h.gone;
        out = h.out;
        behind = h.behind;
        waiting = h.waiting;
      })
  Step-Stranded {s = s} (signal n e) h = inl (record {
    down = try_signal-flag s.queue ∙ h.down;
    gone = h.gone;
    out = h.out;
    behind = h.behind;
    waiting = try_signal-queue s.queue ∙ h.waiting;
  })
  Step-Stranded shut_down h =
      inl
        (record { down = refl; gone = h.gone; out = h.out; behind = h.behind; waiting = h.waiting })
  Step-Stranded (clear_pending d) h =
      inl (record {
        down = h.down;
        gone = h.gone;
        out = h.out;
        behind = h.behind;
        waiting = h.waiting;
      })
  Step-Stranded (reject d g) h = inr (omega arith)

  Steps-rejections : {s t : System} → Steps gate delay s t → s.rejections ≤ t.rejections
  Steps-rejections stay = omega arith
  Steps-rejections (more r st) = omega (arith, Steps-rejections r, Step-rejections st)

  Steps-Stranded :
      {s t : System}
      → Steps gate delay s t
      → Stranded item s
      → Stranded item t ⊎ (s.rejections < t.rejections)
  Steps-Stranded stay h = inl h
  Steps-Stranded (more r st) h = elim (Steps-Stranded r h) [
    | inl k ↦ elim (Step-Stranded st k) [
      | inl l ↦ inl l
      | inr again ↦ inr (omega (arith, Steps-rejections r, again))
    ]
    | inr again ↦ inr (omega (arith, Step-rejections st, again))
  ]

-- A caller that read the flag before shutdown set it and takes the lock after the queue was
-- rejected and left empty, with the worker gone, is queued all the same: in every state that
-- follows the request is still in the queue, at its head, unless the queue has been rejected once more
-- since, as a further call of `Shutdown` does.
pub late_request-Stranded :
    (gate : ℕ) (delay : ℤ) (item : Item) (before behind : List Item) (s : System)
    → s.arrivals ≡ before ++ item ∷ behind
    → s.queue.shutting_down ≡ true
    → s.worker_alive ≡ false
    → s.in_pass ≡ false
    → s.queue.request_queue ≡ []
    → (t : System) × Step gate delay s t
      × ((u : System) → Steps gate delay t u → Stranded item u ⊎ (s.rejections < u.rejections))
late_request-Stranded gate delay item before behind s e down gone out none_left = (
  record s { arrivals = before ++ behind; queue = (enqueue_locked (pos gate) item s.queue).0 },
  enqueue item before behind e,
  λ u r. Steps-Stranded gate delay item r (record {
    down = (enqueue_locked_queue gate item s.queue).0 ∙ down;
    gone = gone;
    out = out;
    behind = [];
    waiting = ground (arith, (enqueue_locked_queue gate item s.queue).1);
  }),
)
