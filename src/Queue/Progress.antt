-- ===== src/Queue/Progress.antt =====
-- The queue of src/queue.go can always move on: from every reachable state before shutdown some run of
-- the worker, of handlers that end and of delays that expire empties it, if nothing new arrives.
use umans_dash_go.Prelude.{
  ℕ, zero, suc, ◌≤◌, ◌<◌, ◌≡◌, refl, sym, ap, ◌∙◌, subst, ◌⊎◌, inl, inr, true, false, not, List, [],
  ◌∷◌, arith, ℤ, pos, length, Bool-cases, length-drop,
}
use umans_dash_go.Queue.{
  Item, Queue, process_locked, release_slot, worker_wake, try_signal, enqueue_locked,
  reject_queue_locked, Outcome, runs,
}
use umans_dash_go.Queue.Fifo.{steady, process_locked-Takes, process_locked-full, taken}
use umans_dash_go.Queue.Wakeups.{Reach-Inv, process_locked-flag}
use umans_dash_go.Queue.System.{
  Steps, stay, more, System, is_runs, is_exits, after_pass, Step, arrive, enqueue, wake, pass,
  cut_pass, finish, finish_delayed, expire, signal, shut_down, clear_pending, reject, Reach, here,
  next, Awake, shutting, pending, passing, signalled, drained, full,
}
use umans_dash_go.Queue.Runs.{Open, Gets, Idle, then_gets, released, chained, finish_all}

signal_sets :
    (q : Queue)
    → q.shutting_down ≡ false
    → ((try_signal q).queue_pending ≡ true)
      × ((try_signal q).request_queue ≡ q.request_queue)
      × ((try_signal q).shutting_down ≡ q.shutting_down)
unfolding try_signal
signal_sets q up = ground (arith, up)

-- The pass is under way, with every slot free.
record Ready (items : List Item) (s : System) : Type 0 where
  idle : Idle items s
  passes : s.in_pass ≡ true

module _ {gate : ℕ} {delay : ℤ} where
  wake_up :
      (items : List Item) (s : System)
      → Idle items s
      → Open gate delay s
      → s.in_pass ≡ false
      → s.queue.queue_pending ≡ true
      → Gets gate delay s (Ready items)
  unfolding worker_wake
  wake_up items s i o out due = record {
    after = woken;
    run = more stay (wake o.alive out);
    opened =
        released woken o (wake o.alive out) (ap (λ r. r.0.shutting_down) wakes)
          (ap (λ r. not (is_exits r.1)) wakes ∙ sym o.alive);
    holds = record {
      idle = record {
        none_running = i.none_running;
        none_delayed = i.none_delayed;
        waiting = ap (λ r. r.0.request_queue) wakes ∙ i.waiting;
      };
      passes = ap (λ r. is_runs r.1) wakes;
    };
  }
    where
      wakes : worker_wake s.queue ≡ (record s.queue { queue_pending = false }, runs)
      wakes = ground (arith, o.up, due)

      woken : System
      woken = record s {
        queue = (worker_wake s.queue).0;
        in_pass = is_runs (worker_wake s.queue).1;
        worker_alive = not (is_exits (worker_wake s.queue).1);
      }

  some_signal :
      (items : List Item) (n : ℕ) (s : System)
      → Idle items s
      → Open gate delay s
      → s.in_pass ≡ false
      → s.signals ≡ n
      → 0 < n
      → Gets gate delay s (Ready items)
  some_signal items zero s i o out due some_due = absurd (omega (arith, some_due))
  some_signal items (suc n) s i o out due some_due =
      let (sets, waits, flag) = signal_sets s.queue o.up in
      then_gets (signal n due) (
        wake_up items (record s { signals = n; queue = try_signal s.queue })
          (record {
            none_running = i.none_running;
            none_delayed = i.none_delayed;
            waiting = waits ∙ i.waiting;
          })
          (released _ o (signal n due) flag refl) out sets)

  no_slot_used :
      (items : List Item) (s : System)
      → Idle items s
      → Open gate delay s
      → s.queue.active_requests ≡ 0
  no_slot_used items s i o =
      omega (arith, (Reach-Inv o.reach).slots, i.none_running, i.none_delayed)

  start_pass :
      (item : Item) (items : List Item) (s : System)
      → 0 < gate
      → Idle (item ∷ items) s
      → Open gate delay s
      → Gets gate delay s (Ready (item ∷ items))
  start_pass item items s gated i o = elim (Bool-cases s.in_pass) [
    | inl passes ↦ record {
      after = s;
      run = stay;
      opened = o;
      holds = record { idle = i; passes = passes };
    }
    | inr out ↦ go out (Reach-Inv o.reach).awake
  ]
    where
      go : s.in_pass ≡ false → Awake gate s → Gets gate delay s (Ready (item ∷ items))
      go out (shutting h) = absurd (ground (arith, h, o.up))
      go out (pending h) = wake_up (item ∷ items) s i o out h
      go out (passing h) = absurd (ground (arith, h, out))
      go out (signalled h) = some_signal (item ∷ items) s.signals s i o out refl h
      go out (drained h) = absurd (ground (arith, h, i.waiting))
      go out (full h) = absurd (omega (arith, h, no_slot_used (item ∷ items) s i o))

  -- A pass with every slot free shortens a queue that is not empty.
  passed :
      (item : Item) (items : List Item) (s : System)
      → 0 < gate
      → Ready (item ∷ items) s
      → Open gate delay s
      → Gets gate delay s (λ t. length t.queue.request_queue ≤ length items)
  passed item items s gated ready o = record {
    after = after_pass r s;
    run = more stay (pass ready.passes);
    opened =
        released _ o (pass ready.passes) (process_locked-flag (steady gate) (pos gate) s.queue)
          refl;
    holds = shorter (process_locked-full gate s.queue o.up);
  }
    where
      r : Queue × Outcome
      r = process_locked (steady gate) (pos gate) s.queue

      shorter :
          (r.0.request_queue ≡ []) ⊎ (gate ≤ r.0.active_requests)
          → length r.0.request_queue ≤ length items
      shorter (inl e) = omega (arith, ap length e)
      shorter (inr h) =
          let (p, t, e, d, _) = process_locked-Takes (steady gate) gate s.queue o.up in
          omega (
            arith,
            h,
            ap (λ q. q.active_requests) e,
            ap (λ q. length q.request_queue) e,
            t.slots,
            no_slot_used (item ∷ items) s ready.idle o,
            length-drop (taken p) s.queue.request_queue,
            ap length ready.idle.waiting,
          )

  one_shorter :
      (item : Item) (items : List Item) (s : System)
      → 0 < gate
      → s.queue.request_queue ≡ item ∷ items
      → Open gate delay s
      → Gets gate delay s (λ t. length t.queue.request_queue ≤ length items)
  one_shorter item items s gated e o = chained (finish_all s.running s refl o) (λ t ot idle.
      chained (start_pass item items t gated (subst (λ q. Idle q t) e idle) ot)
        (λ u ou ready. passed item items u gated ready ou))

  drain :
      (n : ℕ) (s : System)
      → 0 < gate
      → length s.queue.request_queue ≤ n
      → Open gate delay s
      → Gets gate delay s (λ t. t.queue.request_queue ≡ [])
  drain zero s gated few o = go s.queue.request_queue refl
    where
      go :
          (items : List Item)
          → s.queue.request_queue ≡ items
          → Gets gate delay s (λ t. t.queue.request_queue ≡ [])
      go [] e = record { after = s; run = stay; opened = o; holds = e }
      go (item ∷ items) e = absurd (omega (arith, few, ap length e))
  drain (suc n) s gated few o =
      go (λ t short ot. drain n t gated short ot) s.queue.request_queue refl
    where
      go :
          ((t : System)
            → length t.queue.request_queue ≤ n
            → Open gate delay t
            → Gets gate delay t (λ t. t.queue.request_queue ≡ []))
          → (items : List Item) → s.queue.request_queue ≡ items
          → Gets gate delay s (λ t. t.queue.request_queue ≡ [])
      go rest [] e = record { after = s; run = stay; opened = o; holds = e }
      go rest (item ∷ items) e =
          chained (one_shorter item items s gated e o)
            (λ t ot short. rest t (omega (arith, few, short, ap length e)) ot)

enqueue_flag :
    (gate : ℕ) (item : Item) (q : Queue)
    → (enqueue_locked (pos gate) item q).0.shutting_down ≡ q.shutting_down
unfolding enqueue_locked try_signal
enqueue_flag gate item q = ground arith

-- Before shutdown the worker does not exit.
Step-alive :
    {gate : ℕ} {delay : ℤ} {s t : System}
    → Step gate delay s t
    → (s.queue.shutting_down ≡ false → s.worker_alive ≡ true)
    → t.queue.shutting_down ≡ false
    → t.worker_alive ≡ true
unfolding worker_wake release_slot try_signal reject_queue_locked
Step-alive (arrive item k) h up = h up
Step-alive {gate} {s = s} (enqueue item before behind k) h up =
    h (sym (enqueue_flag gate item s.queue) ∙ up)
Step-alive (wake k l) h up = ground (arith, up)
Step-alive {gate} {s = s} (pass k) h up =
    h (sym (process_locked-flag (steady gate) (pos gate) s.queue) ∙ up)
Step-alive (cut_pass down k) h up = absurd (ground (arith, up))
Step-alive (finish n k l) h up = h up
Step-alive (finish_delayed n k l) h up = h up
Step-alive (expire n k) h up = h up
Step-alive {s = s} (signal n k) h up = ground (arith, up, h)
Step-alive shut_down h up = absurd (ground (arith, up))
Step-alive (clear_pending k) h up = h up
Step-alive (reject k l) h up = h up

Reach-alive :
    {gate : ℕ} {delay : ℤ} {s : System}
    → Reach gate delay s
    → s.queue.shutting_down ≡ false
    → s.worker_alive ≡ true
Reach-alive here up = refl
Reach-alive (next r st) up = Step-alive st (Reach-alive r) up

-- With a gate of at least one, every reachable state before shutdown has a run of steps after which the
-- queue is empty, still before shutdown: no order of arrivals, passes, signals and releases leaves an
-- item that nothing can take any more.
pub Reach-drains :
    (gate : ℕ) (delay : ℤ) (s : System)
    → Reach gate delay s
    → 0 < gate
    → s.queue.shutting_down ≡ false
    → (t : System) × Steps gate delay s t
      × (t.queue.request_queue ≡ [])
      × (t.queue.shutting_down ≡ false)
Reach-drains gate delay s r gated up =
    let g =
      drain (length s.queue.request_queue) s gated (omega arith)
        (record { reach = r; up = up; alive = Reach-alive r up }) in
    (g.after, g.run, g.holds, g.opened.up)
