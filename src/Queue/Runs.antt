-- ===== src/Queue/Runs.antt =====
-- Runs of src/queue.go before shutdown, and the one in which all handlers end and all delays expire.
use umans_dash_go.Prelude.{
  ℕ, zero, suc, ◌+◌, ◌≡◌, refl, ◌∙◌, inl, inr, true, false, List, ℤ, Bool-cases,
}
use umans_dash_go.Queue.{Item, release_slot, releases_at_once}
use umans_dash_go.Queue.System.{
  Steps, stay, more, System, release, Step, finish, finish_delayed, expire, Reach, next,
}

-- A reachable state before shutdown, whose worker is there.
pub record Open (gate : ℕ) (delay : ℤ) (s : System) : Type 0 where
  pub reach : Reach gate delay s
  pub up : s.queue.shutting_down ≡ false
  pub alive : s.worker_alive ≡ true

-- The state behind a run from `s`, in which `P` holds.
pub record Gets (gate : ℕ) (delay : ℤ) (s : System) (P : System → Type 0) : Type 0 where
  pub after : System
  pub run : Steps gate delay s after
  pub opened : Open gate delay after
  pub holds : P after

pub joined :
    {gate : ℕ} {delay : ℤ} {s t u : System}
    → Steps gate delay s t
    → Steps gate delay t u
    → Steps gate delay s u
joined r stay = r
joined r (more r' st) = more (joined r r') st

-- No handler runs, no release is delayed, and the queue is `items`.
pub record Idle (items : List Item) (s : System) : Type 0 where
  pub none_running : s.running ≡ 0
  pub none_delayed : s.delayed ≡ 0
  pub waiting : s.queue.request_queue ≡ items

module _ {gate : ℕ} {delay : ℤ} where
  pub then_gets :
      {s t : System} {P : System → Type 0}
      → Step gate delay s t
      → Gets gate delay t P
      → Gets gate delay s P
  then_gets st g = record {
    after = g.after;
    run = joined (more stay st) g.run;
    opened = g.opened;
    holds = g.holds;
  }

  pub released :
      {s : System} (t : System)
      → Open gate delay s
      → Step gate delay s t
      → t.queue.shutting_down ≡ s.queue.shutting_down
      → t.worker_alive ≡ s.worker_alive
      → Open gate delay t
  released t o st flag worker = record {
    reach = next o.reach st;
    up = flag ∙ o.up;
    alive = worker ∙ o.alive;
  }

  expire_all :
      (d : ℕ) (s : System)
      → s.delayed ≡ d
      → s.running ≡ 0
      → Open gate delay s
      → Gets gate delay s (Idle s.queue.request_queue)
  unfolding release_slot
  expire_all zero s none_left stopped o = record {
    after = s;
    run = stay;
    opened = o;
    holds = record { none_running = stopped; none_delayed = none_left; waiting = refl };
  }
  expire_all (suc d) s some_left stopped o = then_gets (expire d some_left) (
      expire_all d (release (record s { delayed = d })) refl stopped
        (released _ o (expire d some_left) refl refl))

  pub finish_all :
      (r : ℕ) (s : System)
      → s.running ≡ r
      → Open gate delay s
      → Gets gate delay s (Idle s.queue.request_queue)
  unfolding release_slot
  finish_all zero s stopped o = expire_all s.delayed s refl stopped o
  finish_all (suc r) s some_run o = elim (Bool-cases (releases_at_once delay s.queue)) [
    | inl at_once ↦ then_gets (finish r some_run at_once) (
        finish_all r (release (record s { running = r })) refl
          (released _ o (finish r some_run at_once) refl refl))
    | inr later ↦ then_gets (finish_delayed r some_run later) (
        finish_all r (record s { running = r; delayed = s.delayed + 1 }) refl
          (released _ o (finish_delayed r some_run later) refl refl))
  ]

  pub chained :
      {s : System} {P Q : System → Type 0}
      → Gets gate delay s P
      → ((t : System) → Open gate delay t → P t → Gets gate delay t Q)
      → Gets gate delay s Q
  chained g f =
      let h = f g.after g.opened g.holds in
      record { after = h.after; run = joined g.run h.run; opened = h.opened; holds = h.holds }
