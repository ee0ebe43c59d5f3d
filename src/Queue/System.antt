-- ===== src/Queue/System.antt =====
-- The queue of src/queue.go under interleaving: callers of `TryEnqueueOrDispatch` between their first
-- test of the flag and the lock, the worker between its wake-up and its pass, running handlers,
-- delayed releases, and goroutines that are about to signal. Each step is one hold of `queueMu`, or
-- one change of the flag `shuttingDown`. The gate is the same in every step.
use umans_dash_go.Prelude.{
  ℕ, suc, ◌+◌, ◌≤◌, ◌<◌, ◌≡◌, Bool, true, false, not, List, [], ◌∷◌, ◌++◌, ℤ, pos,
}
use umans_dash_go.Queue.{
  Item, Queue, Outcome, process_locked, enqueue_locked, release_slot, releases_at_once,
  reject_queue_locked, worker_wake, try_signal, Wake, waits, runs, exits,
}
use umans_dash_go.Queue.Fifo.{steady}

pub record System : Type 0 where
  pub queue : Queue
  pub arrivals : List Item
  pub in_pass : Bool
  pub worker_alive : Bool
  pub running : ℕ
  pub delayed : ℕ
  pub signals : ℕ
  -- how often `Shutdown` has rejected the queue: each call of it does
  pub rejections : ℕ

abbrev pub new_queue : Queue
new_queue = record {
  shutting_down = false;
  active_requests = 0;
  request_queue = [];
  queue_len = 0;
  throttled_count = 0;
  queue_pending = false;
}

abbrev pub start : System
start = record {
  queue = new_queue;
  arrivals = [];
  in_pass = false;
  worker_alive = true;
  running = 0;
  delayed = 0;
  signals = 0;
  rejections = 0;
}

abbrev pub is_runs : Wake → Bool
is_runs waits = false
is_runs runs = true
is_runs exits = false

abbrev pub is_exits : Wake → Bool
is_exits waits = false
is_exits runs = false
is_exits exits = true

abbrev pub as_count : Bool → ℕ
as_count true = 1
as_count false = 0

-- Reads of a pass in which the flag may turn while the gate stays.
abbrev pub flagged : (ℕ → Bool) → ℕ → ℕ → Bool × ℤ
flagged down gate i = (down i, pos gate)

-- The state behind a pass.
abbrev pub after_pass : Queue × Outcome → System → System
after_pass (q, out) s = record s {
  queue = q;
  in_pass = false;
  running = s.running + out.dispatched;
  signals = s.signals + as_count out.signals;
}

abbrev pub release : System → System
release s = record s { queue = release_slot s.queue; signals = s.signals + 1 }

abbrev pub set_flag : System → System
set_flag s = record s { queue = record s.queue { shutting_down = true } }

pub data Step (gate : ℕ) (delay : ℤ) (s : System) : System → Type 0 where
  -- a caller passes the first test of the flag
  arrive :
      (item : Item)
      → s.queue.shutting_down ≡ false
      → Step gate delay s (record s { arrivals = item ∷ s.arrivals })
  -- a caller takes the lock
  enqueue :
      (item : Item) (before behind : List Item)
      → s.arrivals ≡ before ++ item ∷ behind
      → Step gate delay s (record s {
        arrivals = before ++ behind;
        queue = (enqueue_locked (pos gate) item s.queue).0;
      })
  -- the worker wakes up
  wake :
      s.worker_alive ≡ true
      → s.in_pass ≡ false
      → Step gate delay s (record s {
        queue = (worker_wake s.queue).0;
        in_pass = is_runs (worker_wake s.queue).1;
        worker_alive = not (is_exits (worker_wake s.queue).1);
      })
  -- the worker's pass
  pass :
      s.in_pass ≡ true
      → Step gate delay s (after_pass (process_locked (steady gate) (pos gate) s.queue) s)
  -- the worker's pass, during which the flag is set
  cut_pass :
      (down : ℕ → Bool)
      → s.in_pass ≡ true
      → Step gate delay s
          (set_flag (after_pass (process_locked (flagged down gate) (pos gate) s.queue) s))
  -- a handler ends, and releases its slot at once or after the delay
  finish :
      (n : ℕ)
      → s.running ≡ suc n
      → releases_at_once delay s.queue ≡ true
      → Step gate delay s (release (record s { running = n }))
  finish_delayed :
      (n : ℕ)
      → s.running ≡ suc n
      → releases_at_once delay s.queue ≡ false
      → Step gate delay s (record s { running = n; delayed = s.delayed + 1 })
  expire : (n : ℕ) → s.delayed ≡ suc n → Step gate delay s (release (record s { delayed = n }))
  signal :
      (n : ℕ)
      → s.signals ≡ suc n
      → Step gate delay s (record s { signals = n; queue = try_signal s.queue })
  -- `Shutdown` sets the flag, clears the pending pass, and once the worker is gone rejects the queue;
  -- a further call of it does so again
  shut_down : Step gate delay s (set_flag s)
  clear_pending :
      s.queue.shutting_down ≡ true
      → Step gate delay s (record s { queue = record s.queue { queue_pending = false } })
  reject :
      s.queue.shutting_down ≡ true
      → s.worker_alive ≡ false
      → Step gate delay s
          (record s { queue = (reject_queue_locked s.queue).0; rejections = suc s.rejections })

pub data Reach (gate : ℕ) (delay : ℤ) : System → Type 0 where
  here : Reach gate delay start
  next : {s t : System} → Reach gate delay s → Step gate delay s t → Reach gate delay t

-- A finite run of steps.
pub data Steps (gate : ℕ) (delay : ℤ) (s : System) : System → Type 0 where
  stay : Steps gate delay s s
  more : {t u : System} → Steps gate delay s t → Step gate delay t u → Steps gate delay s u

-- Something will still look at the queue, or nothing in it could run now.
pub data Awake (gate : ℕ) (s : System) : Type 0 where
  shutting : s.queue.shutting_down ≡ true → Awake gate s
  pending : s.queue.queue_pending ≡ true → Awake gate s
  passing : s.in_pass ≡ true → Awake gate s
  signalled : 0 < s.signals → Awake gate s
  drained : s.queue.request_queue ≡ [] → Awake gate s
  full : gate ≤ s.queue.active_requests → Awake gate s

pub record Inv (gate : ℕ) (s : System) : Type 0 where
  pub slots : s.queue.active_requests ≡ s.running + s.delayed
  pub bounded : s.queue.active_requests ≤ gate
  pub awake : Awake gate s
