-- ===== src/Queue.antt =====
-- The request queue and its dispatch: src/queue.go (`dispatchItem`, `runDispatch`,
-- `TryEnqueueOrDispatch`, `OnRequestComplete`, `rejectQueueLocked`, `ProcessQueue`, `ResetQueue`,
-- the worker and its signals), and `BumpThrottled` of src/usage.go.
-- The state is what `queueMu` protects, with the flag `shuttingDown`. A function models what runs
-- under one hold of the lock; what it writes or starts outside the lock is its list of events. The
-- gate that `gateLimit` returns and the flag, where they are read again in a loop, are arguments.
pub mod Fifo
pub mod Accounting
pub mod System
pub mod Wakeups
pub mod Runs
pub mod Progress
pub mod Shutdown
mod Tests
use umans_dash_go.Prelude.{
  ℕ, zero, suc, ◌+◌, ◌-◌, ◌≤◌, ◌<◌, ◌≡◌, refl, Bool, true, false, not, ◌&&◌, ◌||◌, Option, none,
  some, List, [], ◌∷◌, ◌++◌, map, ltb, leb, ◌==◌, if◌then◌else◌, ℤ, pos, negsuc, ltb_ℤ, leb_ℤ,
  eqb_ℤ, Bytes, codes, same, length, drop,
}

abbrev pub max_queue_size : ℕ
max_queue_size = 256

-- What the queue reads of a `QueueItem`: `ctx_err` is `Req.Context().Err() != nil`, `tracked` says
-- that the response is a `responseWriterTracker`, and the last two that the fields are not nil.
pub record Item : Type 0 where
  pub id : ℕ
  pub format : Bytes
  pub ctx_err : Bool
  pub tracked : Bool
  pub committed : Bool
  pub has_write_error : Bool
  pub has_done : Bool

pub record Queue : Type 0 where
  pub shutting_down : Bool
  pub active_requests : ℕ
  pub request_queue : List Item
  pub queue_len : ℕ
  pub throttled_count : ℕ
  pub queue_pending : Bool

pub data Event : Type 0 where
  -- `go p.runDispatch(item)`
  launch : ℕ → Event
  -- `item.WriteError(…)` with a status
  write_error : ℕ → ℕ → Event
  -- `WriteQueueFullError`
  queue_full : ℕ → Event
  -- `close(item.Done)`
  close_done : ℕ → Event
  -- the proxy handler runs, in the Anthropic format or not
  handle : Bool → ℕ → Event

abbrev pub done_events : Item → List Event
done_events item = if item.has_done then close_done item.id ∷ [] else []

abbrev pub error_events : Item → ℕ → List Event
error_events item status = if item.has_write_error then write_error item.id status ∷ [] else []

-- `trySignalQueueLocked`, and `signalQueue`, which takes the lock around it.
unfoldable pub try_signal : Queue → Queue
try_signal q = if q.queue_pending || q.shutting_down then q else record q { queue_pending = true }

-- Reserves a slot, unless the item is not to run.
unfoldable pub dispatch_item : Item → Queue → Queue × Bool × List Event
dispatch_item item q =
    if q.shutting_down
    then (q, false, [])
    else if item.ctx_err
    then (q, false, [])
    else if item.tracked && item.committed
    then (q, false, [])
    else (record q { active_requests = q.active_requests + 1 }, true, launch item.id ∷ [])

-- `runDispatch` up to its deferred calls, which follow in the reverse order: the recovery, with
-- whether the handler panicked and whether the response is committed by then; the caller then runs
-- `on_request_complete`; and `Done` is closed last.
unfoldable pub run_dispatch : Item → Bool → Bool → List Event
run_dispatch item panicked committed =
    handle (same item.format (codes "anthropic")) item.id
    ∷ ((if panicked && (item.tracked && not committed) then error_events item 500 else [])
        ++ done_events item)

-- The part of `TryEnqueueOrDispatch` behind the first test of the flag.
unfoldable pub enqueue_locked : ℤ → Item → Queue → Queue × Bool × List Event
enqueue_locked (negsuc g) item q =
    let (q', dispatched, events) = dispatch_item item q in
    if dispatched then (q', true, events) else (q', false, done_events item)
enqueue_locked (pos g) item q =
    if leb max_queue_size (length q.request_queue)
    then (
      record q { throttled_count = q.throttled_count + 1 },
      false,
      queue_full item.id ∷ done_events item,
    )
    else (
      try_signal (record q {
        request_queue = q.request_queue ++ item ∷ [];
        queue_len = length (q.request_queue ++ item ∷ []);
      }),
      false,
      [],
    )

unfoldable pub try_enqueue_or_dispatch : ℤ → Item → Queue → Queue × Bool × List Event
try_enqueue_or_dispatch gate item q =
    if q.shutting_down
    then (q, false, error_events item 503 ++ done_events item)
    else enqueue_locked gate item q

-- The decrement in `OnRequestComplete`; a signal follows it.
unfoldable pub release_slot : Queue → Queue
release_slot q = record q { active_requests = q.active_requests - 1 }

-- Whether `OnRequestComplete` releases at once, or starts a goroutine that does so after the delay.
abbrev pub releases_at_once : ℤ → Queue → Bool
releases_at_once delay q = leb_ℤ delay (pos 0) || q.shutting_down

unfoldable pub on_request_complete : ℤ → Queue → Queue × Bool
on_request_complete delay q =
    if releases_at_once delay q then (try_signal (release_slot q), true) else (q, false)

unfoldable pub reject_events : List Item → List Event
reject_events [] = []
reject_events (item ∷ items) =
    (if item.tracked && item.committed then [] else error_events item 503 ++ done_events item)
    ++ reject_events items

unfoldable pub reject_queue_locked : Queue → Queue × List Event
unfolding reject_events
reject_queue_locked q =
    (record q { request_queue = []; queue_len = 0 }, reject_events q.request_queue)

-- What one pass takes from the head of the queue.
pub record Pass : Type 0 where
  pub to_dispatch : List Item
  pub cancelled : List Item
  pub active : ℕ

abbrev pub stop : ℕ → Pass
stop active = record { to_dispatch = []; cancelled = []; active = active }

abbrev pub take_item : Item → Pass → Pass
take_item item rest =
    if item.ctx_err
    then record rest { cancelled = item ∷ rest.cancelled }
    else record rest { to_dispatch = item ∷ rest.to_dispatch }

-- The `for` loop of `ProcessQueue` from index `i` on; `reads i` is what round `i` reads of the flag
-- and of the gate.
unfoldable pub pass_loop : (ℕ → Bool × ℤ) → ℤ → ℕ → ℕ → List Item → Pass
pass_loop reads gate i active [] = stop active
pass_loop reads gate i active (item ∷ items) =
    let rest =
      take_item item
        (pass_loop reads gate (i + 1) (if item.ctx_err then active else active + 1) items) in
    if (reads i).0
    then stop active
    else if not (eqb_ℤ (reads i).1 gate)
    then stop active
    else if leb_ℤ (reads i).1 (pos active)
    then stop active
    else rest

unfoldable pub cancel_events : List Item → List Event
cancel_events [] = []
cancel_events (item ∷ items) =
    ((if item.tracked && not item.committed then error_events item 504 else []) ++ done_events item)
    ++ cancel_events items

unfoldable pub launches : List Item → List Event
launches = map (λ item. launch item.id)

abbrev pub is_empty : List Item → Bool
is_empty [] = true
is_empty (item ∷ items) = false

-- What a pass leaves to do outside the lock: how many items it dispatched, whether it signals the
-- queue at its end, and its events.
pub record Outcome : Type 0 where
  pub dispatched : ℕ
  pub signals : Bool
  pub events : List Event

abbrev pub nothing : Outcome
nothing = record { dispatched = 0; signals = false; events = [] }

-- The rest of `ProcessQueue` behind its loop.
unfoldable pub finish_pass : Pass → Queue → Queue × Outcome
unfolding cancel_events launches
finish_pass p q =
    let left = drop (length p.to_dispatch + length p.cancelled) q.request_queue in
    (
      record q { active_requests = p.active; request_queue = left; queue_len = length left },
      record {
        dispatched = length p.to_dispatch;
        signals = not (is_empty p.to_dispatch);
        events = cancel_events p.cancelled ++ launches p.to_dispatch;
      },
    )

-- Without a gate the whole queue is dispatched.
unfoldable pub drain_queue : Queue → Queue × Outcome
unfolding launches
drain_queue q = if is_empty q.request_queue then (q, nothing) else (
  record q {
    active_requests = q.active_requests + length q.request_queue;
    request_queue = [];
    queue_len = 0;
  },
  record {
    dispatched = length q.request_queue;
    signals = false;
    events = launches q.request_queue;
  },
)

-- `ProcessQueue` up to its last signal.
unfoldable pub process_locked : (ℕ → Bool × ℤ) → ℤ → Queue → Queue × Outcome
process_locked reads gate q =
    if q.shutting_down
    then (q, nothing)
    else if ltb_ℤ gate (pos 0)
    then drain_queue q
    else finish_pass (pass_loop reads gate 0 q.active_requests q.request_queue) q

unfoldable pub process_queue : (ℕ → Bool × ℤ) → ℤ → Queue → Queue × ℕ × List Event
process_queue reads gate q =
    let (q', out) = process_locked reads gate q in
    ((if out.signals then try_signal q' else q'), out.dispatched, out.events)

-- One wake-up of `queueWorker`: it clears the pending pass, and goes on to `ProcessQueue`, waits, or
-- exits.
pub data Wake : Type 0 where
  waits runs exits : Wake

unfoldable pub worker_wake : Queue → Queue × Wake
worker_wake q =
    if q.shutting_down
    then (record q { queue_pending = false }, exits)
    else if q.queue_pending
    then (record q { queue_pending = false }, runs)
    else (q, waits)

unfoldable pub reset_queue : Queue → Queue
reset_queue q = record q {
  active_requests = 0;
  request_queue = [];
  queue_len = 0;
  throttled_count = 0;
}

unfoldable pub bump_throttled : Queue → Queue
bump_throttled q = record q { throttled_count = q.throttled_count + 1 }
