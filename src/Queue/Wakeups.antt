-- ===== src/Queue/Wakeups.antt =====
-- No wake-up is lost and no slot is leaked: the invariant of the interleavings of src/queue.go.
use umans_dash_go.Prelude.{
  ℕ, suc, ◌+◌, ◌≤◌, max, ◌≡◌, refl, ap, ◌∙◌, ◌⊎◌, inl, inr, Bool, true, false, not, List, [], ◌++◌,
  arith, leb, ℤ, pos, length, Bool-cases,
}
use umans_dash_go.Queue.{
  Item, Queue, process_locked, finish_pass, enqueue_locked, release_slot, reject_queue_locked,
  worker_wake, try_signal, max_queue_size, drain_queue,
}
use umans_dash_go.Queue.Fifo.{steady, process_locked-Takes, process_locked-full}
use umans_dash_go.Queue.System.{
  System, is_runs, is_exits, flagged, after_pass, release, set_flag, Step, arrive, enqueue, wake,
  pass, cut_pass, finish, finish_delayed, expire, signal, shut_down, clear_pending, reject, Reach,
  here, next, Awake, shutting, pending, passing, signalled, drained, full, Inv,
}

-- What the invariant reads stays the same.
record Same (s t : System) : Type 0 where
  flag : t.queue.shutting_down ≡ s.queue.shutting_down
  pass : t.in_pass ≡ s.in_pass
  signal : t.signals ≡ s.signals
  waiting : t.queue.request_queue ≡ s.queue.request_queue
  active : t.queue.active_requests ≡ s.queue.active_requests

Awake-Same :
    {gate : ℕ} {s t : System}
    → Same s t
    → t.queue.queue_pending ≡ s.queue.queue_pending
    → Awake gate s
    → Awake gate t
Awake-Same e p (shutting h) = shutting (e.flag ∙ h)
Awake-Same e p (pending h) = pending (p ∙ h)
Awake-Same e p (passing h) = passing (e.pass ∙ h)
Awake-Same e p (signalled h) = signalled (omega (arith, e.signal))
Awake-Same e p (drained h) = drained (e.waiting ∙ h)
Awake-Same e p (full h) = full (omega (arith, e.active))

try_signal-Awake :
    (gate : ℕ) (s : System) (q : Queue) → Awake gate (record s { queue = try_signal q })
unfolding try_signal
try_signal-Awake gate s q = elim (Bool-cases q.shutting_down) [
  | inl down ↦ shutting (ground arith)
  | inr up ↦ pending (ground arith)
]

try_signal-active : (q : Queue) → (try_signal q).active_requests ≡ q.active_requests
unfolding try_signal
try_signal-active q = ground arith

module _ (gate : ℕ) where
  enqueue-Inv :
      (item : Item) (rest : List Item) (s : System)
      → Inv gate s
      → Inv gate (record s { arrivals = rest; queue = (enqueue_locked (pos gate) item s.queue).0 })
  unfolding enqueue_locked
  enqueue-Inv item rest s v =
      elim (Bool-cases (leb max_queue_size (length s.queue.request_queue))) [
        | inl is_full ↦ rw is_full (record {
          slots = v.slots;
          bounded = v.bounded;
          awake =
              Awake-Same
                (record { flag = refl; pass = refl; signal = refl; waiting = refl; active = refl })
                refl v.awake;
        })
        | inr room ↦ rw room (record {
          slots = try_signal-active _ ∙ v.slots;
          bounded = omega (arith, try_signal-active _, v.bounded);
          awake = try_signal-Awake gate (record s { arrivals = rest }) _;
        })
      ]

  wake-Inv :
      (s : System)
      → Inv gate s
      → s.in_pass ≡ false
      → Inv gate (record s {
        queue = (worker_wake s.queue).0;
        in_pass = is_runs (worker_wake s.queue).1;
        worker_alive = not (is_exits (worker_wake s.queue).1);
      })
  unfolding worker_wake
  wake-Inv s v e = record {
    slots = ground (arith, v.slots);
    bounded = ground (arith, v.bounded);
    awake = elim (Bool-cases s.queue.shutting_down) [
      | inl down ↦ shutting (ground arith)
      | inr up ↦ elim (Bool-cases s.queue.queue_pending) [
        | inl due ↦ passing (ground arith)
        | inr idle ↦
            Awake-Same
              (record {
                flag = ground arith;
                pass = ground arith;
                signal = refl;
                waiting = ground arith;
                active = ground arith;
              })
              (ground arith) v.awake
      ]
    ];
  }

down_slots :
    (reads : ℕ → Bool × ℤ) (gate : ℕ) (q : Queue)
    → q.shutting_down ≡ true
    → let r = process_locked reads (pos gate) q in
      (r.0.active_requests ≡ q.active_requests + r.1.dispatched)
      × (r.0.active_requests ≤ max q.active_requests gate)
unfolding process_locked
down_slots reads gate q down = ground arith

pub process_locked-flag :
    (reads : ℕ → Bool × ℤ) (gate : ℤ) (q : Queue)
    → (process_locked reads gate q).0.shutting_down ≡ q.shutting_down
unfolding process_locked finish_pass drain_queue
process_locked-flag reads gate q = ground arith

-- A pass takes one slot for each item that it dispatches, and none beyond the gate.
process_locked-slots :
    (reads : ℕ → Bool × ℤ) (gate : ℕ) (q : Queue)
    → let r = process_locked reads (pos gate) q in
      (r.0.active_requests ≡ q.active_requests + r.1.dispatched)
      × (r.0.active_requests ≤ max q.active_requests gate)
process_locked-slots reads gate q = elim (Bool-cases q.shutting_down) [
  | inl down ↦ down_slots reads gate q down
  | inr up ↦
      let (p, t, e, d, _) = process_locked-Takes reads gate q up in
      (
        omega (arith, ap (λ r. r.active_requests) e, d, t.slots),
        omega (arith, ap (λ r. r.active_requests) e, t.bounded),
      )
]

module _ (gate : ℕ) where
  pass-Inv :
      (s : System)
      → Inv gate s
      → Inv gate (after_pass (process_locked (steady gate) (pos gate) s.queue) s)
  pass-Inv s v =
      let (slots, bounded) = process_locked-slots (steady gate) gate s.queue in
      record {
        slots = omega (arith, slots, v.slots);
        bounded = omega (arith, bounded, v.bounded);
        awake = elim (Bool-cases s.queue.shutting_down) [
          | inl down ↦ shutting (process_locked-flag (steady gate) (pos gate) s.queue ∙ down)
          | inr up ↦ elim (process_locked-full gate s.queue up) [
            | inl none_left ↦ drained none_left
            | inr all_taken ↦ full all_taken
          ]
        ];
      }

  cut_pass-Inv :
      (down : ℕ → Bool) (s : System)
      → Inv gate s
      → Inv gate (set_flag (after_pass (process_locked (flagged down gate) (pos gate) s.queue) s))
  cut_pass-Inv down s v =
      let (slots, bounded) = process_locked-slots (flagged down gate) gate s.queue in
      record {
        slots = omega (arith, slots, v.slots);
        bounded = omega (arith, bounded, v.bounded);
        awake = shutting refl;
      }

  release-Inv :
      (s : System) (n m : ℕ)
      → s.queue.active_requests ≡ suc (n + m)
      → s.queue.active_requests ≤ gate
      → Inv gate (release (record s { running = n; delayed = m }))
  unfolding release_slot
  release-Inv s n m e b = record {
    slots = omega arith;
    bounded = omega arith;
    awake = signalled (omega arith);
  }

  keep-awake :
      {s t : System}
      → t.queue ≡ s.queue
      → t.in_pass ≡ s.in_pass
      → t.signals ≡ s.signals
      → Awake gate s
      → Awake gate t
  keep-awake q p n =
      Awake-Same
        (record {
          flag = ap (λ q. q.shutting_down) q;
          pass = p;
          signal = n;
          waiting = ap (λ q. q.request_queue) q;
          active = ap (λ q. q.active_requests) q;
        })
        (ap (λ q. q.queue_pending) q)

  reject-Inv :
      (s : System)
      → Inv gate s
      → Inv gate
          (record s { queue = (reject_queue_locked s.queue).0; rejections = suc s.rejections })
  unfolding reject_queue_locked
  reject-Inv s v = record { slots = v.slots; bounded = v.bounded; awake = drained refl }

  -- Every step keeps the invariant.
  Step-Inv : {delay : ℤ} {s t : System} → Step gate delay s t → Inv gate s → Inv gate t
  Step-Inv (arrive item up) v = record {
    slots = v.slots;
    bounded = v.bounded;
    awake = keep-awake refl refl refl v.awake;
  }
  Step-Inv {s = s} (enqueue item before behind e) v = enqueue-Inv gate item (before ++ behind) s v
  Step-Inv {s = s} (wake alive idle) v = wake-Inv gate s v idle
  Step-Inv {s = s} (pass p) v = pass-Inv s v
  Step-Inv {s = s} (cut_pass down p) v = cut_pass-Inv down s v
  Step-Inv {s = s} (finish n e r) v =
      release-Inv s n s.delayed (omega (arith, v.slots, e)) v.bounded
  Step-Inv (finish_delayed n e r) v = record {
    slots = omega (arith, v.slots, e);
    bounded = v.bounded;
    awake = keep-awake refl refl refl v.awake;
  }
  Step-Inv {s = s} (expire n e) v = release-Inv s s.running n (omega (arith, v.slots, e)) v.bounded
  Step-Inv {s = s} (signal n e) v = record {
    slots = try_signal-active s.queue ∙ v.slots;
    bounded = omega (arith, try_signal-active s.queue, v.bounded);
    awake = try_signal-Awake gate (record s { signals = n }) s.queue;
  }
  Step-Inv shut_down v = record { slots = v.slots; bounded = v.bounded; awake = shutting refl }
  Step-Inv (clear_pending down) v = record {
    slots = v.slots;
    bounded = v.bounded;
    awake = shutting down;
  }
  Step-Inv {s = s} (reject down gone) v = reject-Inv s v

pub Reach-Inv : {gate : ℕ} {delay : ℤ} {s : System} → Reach gate delay s → Inv gate s
Reach-Inv here = record { slots = refl; bounded = omega arith; awake = drained refl }
Reach-Inv {gate} (next r st) = Step-Inv gate st (Reach-Inv r)

-- With a constant gate, in every interleaving: the slots in use are those of the running handlers
-- and of the delayed releases, and never exceed the gate.
pub Reach-slots :
    (gate : ℕ) (delay : ℤ) (s : System)
    → Reach gate delay s
    → (s.queue.active_requests ≡ s.running + s.delayed) × (s.queue.active_requests ≤ gate)
Reach-slots gate delay s r = let v = Reach-Inv r in (v.slots, v.bounded)

quiet_full :
    {gate : ℕ} {s : System}
    → s.queue.shutting_down ≡ false
    → s.queue.queue_pending ≡ false
    → s.in_pass ≡ false
    → s.signals ≡ 0
    → Awake gate s
    → (s.queue.request_queue ≡ []) ⊎ (gate ≤ s.queue.active_requests)
quiet_full up idle out none_due (shutting h) = absurd (ground arith)
quiet_full up idle out none_due (pending h) = absurd (ground arith)
quiet_full up idle out none_due (passing h) = absurd (ground arith)
quiet_full up idle out none_due (signalled h) = absurd (omega arith)
quiet_full up idle out none_due (drained h) = inl h
quiet_full up idle out none_due (full h) = inr h

-- No wake-up is lost: with a constant gate, in every reachable state before shutdown where no pass is
-- pending or under way and no goroutine is about to signal, the queue is empty or every slot is held
-- by a running handler or a delayed release.
pub Reach-quiet :
    (gate : ℕ) (delay : ℤ) (s : System)
    → Reach gate delay s
    → s.queue.shutting_down ≡ false
    → s.queue.queue_pending ≡ false
    → s.in_pass ≡ false
    → s.signals ≡ 0
    → (s.queue.request_queue ≡ []) ⊎ (s.running + s.delayed ≡ gate)
Reach-quiet gate delay s r up idle out none_due =
    let v = Reach-Inv r in
    elim (quiet_full up idle out none_due v.awake) [
      | inl e ↦ inl e
      | inr h ↦ inr (omega (arith, h, v.slots, v.bounded))
    ]
