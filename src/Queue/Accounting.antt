-- ===== src/Queue/Accounting.antt =====
-- The bookkeeping of src/queue.go: `QueueLen` and the size limit, under every operation.
use umans_dash_go.Prelude.{
  ℕ, ◌+◌, ◌≤◌, ◌<◌, ◌≡◌, refl, inl, inr, Bool, false, [], ◌∷◌, arith, leb, ℤ, pos, negsuc, length,
  Bool-cases, length-append, length-drop,
}
use umans_dash_go.Queue.{
  Item, Queue, Pass, max_queue_size, process_locked, finish_pass, drain_queue, enqueue_locked,
  dispatch_item, try_enqueue_or_dispatch, release_slot, on_request_complete, reject_queue_locked,
  reset_queue, bump_throttled, worker_wake, try_signal, process_queue, pass_loop,
}

-- `QueueLen` is the length of the queue, which stays within its limit.
pub record IsValid (q : Queue) : Type 0 where
  pub counted : q.queue_len ≡ length q.request_queue
  pub bounded : length q.request_queue ≤ max_queue_size

pub data Op : Type 0 where
  enqueue : ℤ → Item → Op
  dispatch : Item → Op
  pass : (ℕ → Bool × ℤ) → ℤ → Op
  complete : ℤ → Op
  wake reject reset bump signal : Op

unfoldable pub apply : Op → Queue → Queue
apply (enqueue gate item) q = (try_enqueue_or_dispatch gate item q).0
apply (dispatch item) q = (dispatch_item item q).0
apply (pass reads gate) q = (process_queue reads gate q).0
apply (complete delay) q = (on_request_complete delay q).0
apply wake q = (worker_wake q).0
apply reject q = (reject_queue_locked q).0
apply reset q = reset_queue q
apply bump q = bump_throttled q
apply signal q = try_signal q

try_signal-IsValid : (q : Queue) → IsValid q → IsValid (try_signal q)
unfolding try_signal
try_signal-IsValid q v = ground arith

dispatch_item-IsValid : (item : Item) (q : Queue) → IsValid q → IsValid (dispatch_item item q).0
unfolding dispatch_item
dispatch_item-IsValid item q v = ground arith

lt_of_leb-false : (a b : ℕ) → leb a b ≡ false → b < a
lt_of_leb-false a b h = ground arith

enqueue_locked-IsValid :
    (gate : ℤ) (item : Item) (q : Queue) → IsValid q → IsValid (enqueue_locked gate item q).0
unfolding enqueue_locked
enqueue_locked-IsValid (negsuc g) item q v = ground (arith, dispatch_item-IsValid item q v)
enqueue_locked-IsValid (pos g) item q v =
    elim (Bool-cases (leb max_queue_size (length q.request_queue))) [
      | inl full ↦ rw full (omega arith)
      | inr room ↦ rw room (
          try_signal-IsValid _ (record {
            counted = refl;
            bounded = omega (
              arith,
              lt_of_leb-false max_queue_size (length q.request_queue) room,
              length-append q.request_queue (item ∷ []),
            );
          }))
    ]

finish_pass-IsValid : (p : Pass) (q : Queue) → IsValid q → IsValid (finish_pass p q).0
unfolding finish_pass
finish_pass-IsValid p q v = record {
  counted = refl;
  bounded =
      omega
        (arith, v.bounded, length-drop (length p.to_dispatch + length p.cancelled) q.request_queue);
}

process_locked-IsValid :
    (reads : ℕ → Bool × ℤ) (gate : ℤ) (q : Queue)
    → IsValid q
    → IsValid (process_locked reads gate q).0
unfolding process_locked drain_queue
process_locked-IsValid reads gate q v =
    ground
      (arith, finish_pass-IsValid (pass_loop reads gate 0 q.active_requests q.request_queue) q v)

try_enqueue-IsValid :
    (gate : ℤ) (item : Item) (q : Queue)
    → IsValid q
    → IsValid (try_enqueue_or_dispatch gate item q).0
unfolding try_enqueue_or_dispatch
try_enqueue-IsValid gate item q v = ground (arith, enqueue_locked-IsValid gate item q v)

process_queue-IsValid :
    (reads : ℕ → Bool × ℤ) (gate : ℤ) (q : Queue)
    → IsValid q
    → IsValid (process_queue reads gate q).0
unfolding process_queue
process_queue-IsValid reads gate q v = ground (
  arith,
  process_locked-IsValid reads gate q v,
  try_signal-IsValid (process_locked reads gate q).0,
)

on_request_complete-IsValid :
    (delay : ℤ) (q : Queue) → IsValid q → IsValid (on_request_complete delay q).0
unfolding on_request_complete release_slot try_signal
on_request_complete-IsValid delay q v = ground arith

worker_wake-IsValid : (q : Queue) → IsValid q → IsValid (worker_wake q).0
unfolding worker_wake
worker_wake-IsValid q v = ground arith

reject-IsValid : (q : Queue) → IsValid (reject_queue_locked q).0
unfolding reject_queue_locked
reject-IsValid q = omega arith

reset-IsValid : (q : Queue) → IsValid (reset_queue q)
unfolding reset_queue
reset-IsValid q = omega arith

bump-IsValid : (q : Queue) → IsValid q → IsValid (bump_throttled q)
unfolding bump_throttled
bump-IsValid q v = ground arith

-- Every operation keeps `QueueLen` equal to the length of the queue, and the queue within 256
-- items, where this held before.
pub apply-IsValid : (op : Op) (q : Queue) → IsValid q → IsValid (apply op q)
unfolding apply
apply-IsValid (enqueue gate item) q v = try_enqueue-IsValid gate item q v
apply-IsValid (dispatch item) q v = dispatch_item-IsValid item q v
apply-IsValid (pass reads gate) q v = process_queue-IsValid reads gate q v
apply-IsValid (complete delay) q v = on_request_complete-IsValid delay q v
apply-IsValid wake q v = worker_wake-IsValid q v
apply-IsValid reject q v = reject-IsValid q
apply-IsValid reset q v = reset-IsValid q
apply-IsValid bump q v = bump-IsValid q v
apply-IsValid signal q v = try_signal-IsValid q v
