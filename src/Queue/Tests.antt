-- ===== src/Queue/Tests.antt =====
-- Runs of the queue of src/queue.go.
use umans_dash_go.Prelude.{
  ℕ, ◌≤◌, ◌<◌, ◌≡◌, refl, ◌⊎◌, true, false, List, [], ◌∷◌, ◌++◌, arith, pos, codes, length, drop,
}
use umans_dash_go.Queue.{
  Item, Queue, Pass, launch, close_done, write_error, enqueue_locked, process_queue, process_locked,
  finish_pass, drain_queue, pass_loop, try_signal, reject_queue_locked, dispatch_item, worker_wake,
  cancel_events, launches,
}
use umans_dash_go.Queue.Fifo.{steady, Takes, taken, process_locked-Takes}
use umans_dash_go.Queue.Accounting.{IsValid, apply, enqueue, apply-IsValid}
use umans_dash_go.Queue.System
use umans_dash_go.Queue.System.{Steps, System, start, new_queue, Step, Reach, here, next}
use umans_dash_go.Queue.Wakeups.{Reach-slots, Reach-quiet}
use umans_dash_go.Queue.Progress.{Reach-drains}
use umans_dash_go.Queue.Shutdown.{Stranded, late_request-Stranded}

abbrev request : ℕ → Item
request n = record {
  id = n;
  format = codes "openai";
  ctx_err = false;
  tracked = true;
  committed = false;
  has_write_error = true;
  has_done = true;
}

abbrev gone : ℕ → Item
gone n = record (request n) { ctx_err = true }

abbrev waiting : Queue
waiting = record new_queue {
  request_queue = request 1 ∷ gone 2 ∷ request 3 ∷ request 4 ∷ [];
  queue_len = 4;
}

program : Unit {0}
unfolding enqueue_locked dispatch_item try_signal process_locked finish_pass drain_queue pass_loop
program = tt

-- Two slots: the first and the third request run, the cancelled one gets its 504.
two_slots : process_queue (steady 2) (pos 2) waiting ≡ (
  record new_queue {
    active_requests = 2;
    request_queue = request 4 ∷ [];
    queue_len = 1;
    queue_pending = true;
  },
  2,
  write_error 2 504 ∷ close_done 2 ∷ launch 1 ∷ launch 3 ∷ [],
)
unfolding program process_queue
two_slots = refl

-- The gate has changed when the loop reads it: nothing moves, and no signal follows.
changed_gate : process_queue (steady 3) (pos 2) waiting ≡ (waiting, 0, [])
unfolding program process_queue
changed_gate = refl

process_locked-Takes_example :
    (p : Pass) × Takes 2 0 waiting.request_queue p
    × ((process_locked (steady 2) (pos 2) waiting).0 ≡ record waiting {
      active_requests = p.active;
      request_queue = drop (taken p) waiting.request_queue;
      queue_len = length (drop (taken p) waiting.request_queue);
    })
    × ((process_locked (steady 2) (pos 2) waiting).1.dispatched ≡ length p.to_dispatch)
    × ((process_locked (steady 2) (pos 2) waiting).1.events
        ≡ cancel_events p.cancelled ++ launches p.to_dispatch)
process_locked-Takes_example = process_locked-Takes (steady 2) 2 waiting refl

apply-IsValid_example : IsValid (apply (enqueue (pos 2) (request 5)) waiting)
apply-IsValid_example = apply-IsValid (enqueue (pos 2) (request 5)) waiting (omega arith)

-- A request arrives and is queued; the flag is set, the worker exits, the queue is rejected.
arrived : Reach 1 (pos 0) (record start { arrivals = request 1 ∷ [] })
arrived = next here (System.arrive (request 1) refl)

queued : Reach 1 (pos 0) (record start { queue = (enqueue_locked (pos 1) (request 1) new_queue).0 })
queued = next arrived (System.enqueue (request 1) [] [] refl)

Reach-slots_example :
    ((enqueue_locked (pos 1) (request 1) new_queue).0.active_requests ≡ 0)
    × ((enqueue_locked (pos 1) (request 1) new_queue).0.active_requests ≤ 1)
Reach-slots_example = Reach-slots 1 (pos 0) _ queued

Reach-quiet_example : (◌≡◌ {A = List Item} [] []) ⊎ (◌≡◌ {A = ℕ} 0 1)
Reach-quiet_example =
    Reach-quiet 1 (pos 0) (record start { arrivals = request 1 ∷ [] }) arrived refl refl refl refl

stopped : System
stopped = record start {
  queue = record new_queue { shutting_down = true };
  arrivals = request 1 ∷ [];
  worker_alive = false;
  rejections = 1;
}

-- The state is reached by the steps of a shutdown.
stopped-Reach : Reach 1 (pos 0) stopped
unfolding stopped worker_wake reject_queue_locked
stopped-Reach =
    next (next (next arrived System.shut_down) (System.wake refl refl)) (System.reject refl refl)

late_request-Stranded_example :
    (t : System) × Step 1 (pos 0) stopped t
    × ((u : System)
        → Steps 1 (pos 0) t u
        → Stranded (request 1) u ⊎ (stopped.rejections < u.rejections))
unfolding stopped
late_request-Stranded_example =
    late_request-Stranded 1 (pos 0) (request 1) [] [] stopped refl refl refl refl refl

Reach-drains_example :
    (t : System) × Steps 1
      (pos 0)
      (record start { queue = (enqueue_locked (pos 1) (request 1) new_queue).0 })
      t
    × (t.queue.request_queue ≡ [])
    × (t.queue.shutting_down ≡ false)
unfolding enqueue_locked try_signal
Reach-drains_example = Reach-drains 1 (pos 0) _ queued (omega arith) refl
