-- ===== src/Queue/Fifo.antt =====
-- What one pass of `ProcessQueue` takes: a prefix of the queue, in order, up to the gate.
use umans_dash_go.Prelude.{
  ℕ, suc, ◌+◌, ◌≤◌, ◌<◌, max, ◌≡◌, refl, ap, ◌⊎◌, inl, inr, Bool, true, false, not, List, [], ◌∷◌,
  ◌++◌, arith, if◌then◌else◌, ℤ, pos, negsuc, leb_ℤ, eqb_ℤ, length, take, drop, Bool-cases,
  drop_of_length-le,
}
use umans_dash_go.Queue.{
  Item, Queue, Pass, stop, take_item, pass_loop, finish_pass, process_locked, cancel_events,
  launches,
}

-- The items of a list whose request is cancelled, and the others, in order.
unfoldable pub lost : List Item → List Item
lost [] = []
lost (item ∷ items) = if item.ctx_err then item ∷ lost items else lost items

unfoldable pub live : List Item → List Item
live [] = []
live (item ∷ items) = if item.ctx_err then live items else item ∷ live items

abbrev pub taken : Pass → ℕ
taken p = length p.to_dispatch + length p.cancelled

-- A pass over `items` with `active` slots in use takes a prefix: the live items of it are dispatched
-- in order, each with a slot of its own, and the cancelled ones are set apart in order.
pub record Takes (gate active : ℕ) (items : List Item) (p : Pass) : Type 0 where
  pub count : ℕ
  pub counted : taken p ≡ count
  pub within : count ≤ length items
  pub dispatched : p.to_dispatch ≡ live (take count items)
  pub cancelled : p.cancelled ≡ lost (take count items)
  pub slots : p.active ≡ active + length p.to_dispatch
  pub bounded : p.active ≤ max active gate

Takes-stop : (gate active : ℕ) (items : List Item) → Takes gate active items (stop active)
unfolding live lost
Takes-stop gate active items = record {
  count = 0;
  counted = omega arith;
  within = omega arith;
  dispatched = refl;
  cancelled = refl;
  slots = omega arith;
  bounded = omega arith;
}

Takes-item :
    (gate active : ℕ) (item : Item) (items : List Item) (p : Pass)
    → active < gate
    → Takes gate (if item.ctx_err then active else active + 1) items p
    → Takes gate active (item ∷ items) (take_item item p)
unfolding live lost
Takes-item gate active item items p free t = record {
  count = suc t.count;
  counted = ground arith;
  within = omega (arith, t.within);
  dispatched = ground (arith, t.dispatched);
  cancelled = ground (arith, t.cancelled);
  slots = ground (arith, t.slots);
  bounded = ground (arith, t.bounded);
}

abbrev round : Bool → ℤ → ℕ → ℕ → Pass → Pass
round down current gate active rest =
    if down
    then stop active
    else if not (eqb_ℤ current (pos gate))
    then stop active
    else if leb_ℤ current (pos active)
    then stop active
    else rest

free_slot :
    (current : ℤ) (gate active : ℕ)
    → eqb_ℤ current (pos gate) ≡ true
    → leb_ℤ current (pos active) ≡ false
    → active < gate
free_slot (pos g) gate active h k = ground arith
free_slot (negsuc g) gate active h k = cc

-- A round stops the pass, or finds a free slot.
round_cases {ℓ} :
    (P : Pass → Type ℓ) (down : Bool) (current : ℤ) (gate active : ℕ) (rest : Pass)
    → P (stop active)
    → (active < gate → P rest)
    → P (round down current gate active rest)
round_cases P true current gate active rest p q = p
round_cases P false current gate active rest p q = elim (Bool-cases (eqb_ℤ current (pos gate))) [
  | inl same_gate ↦ elim (Bool-cases (leb_ℤ current (pos active))) [
    | inl full ↦ rw (same_gate, full) p
    | inr free ↦ rw (same_gate, free) (q (free_slot current gate active same_gate free))
  ]
  | inr changed ↦ rw changed p
]

pass_loop-Takes :
    (reads : ℕ → Bool × ℤ) (gate i active : ℕ) (items : List Item)
    → Takes gate active items (pass_loop reads (pos gate) i active items)
unfolding pass_loop
pass_loop-Takes reads gate i active [] = Takes-stop gate active []
pass_loop-Takes reads gate i active (item ∷ items) =
    let rest =
      pass_loop-Takes reads gate (i + 1) (if item.ctx_err then active else active + 1) items in
    round_cases (Takes gate active (item ∷ items)) (reads i).0 (reads i).1 gate active _
      (Takes-stop gate active (item ∷ items))
      (λ free. Takes-item gate active item items _ free rest)

process_locked-finish_pass :
    (reads : ℕ → Bool × ℤ) (gate : ℕ) (q : Queue)
    → q.shutting_down ≡ false
    → process_locked reads (pos gate) q
      ≡ finish_pass (pass_loop reads (pos gate) 0 q.active_requests q.request_queue) q
unfolding process_locked
process_locked-finish_pass reads gate q up = ground arith

-- A pass with a gate, whatever it reads of the flag and the gate in its rounds, takes a prefix of the
-- queue: the live items are dispatched in the order of their arrival with one slot each, the
-- cancelled ones are dropped, the rest stays in place, and the slots in use end no higher than the larger
-- of their number before and the gate.
pub process_locked-Takes :
    (reads : ℕ → Bool × ℤ) (gate : ℕ) (q : Queue)
    → q.shutting_down ≡ false
    → let r = process_locked reads (pos gate) q in
      (p : Pass) × Takes gate q.active_requests q.request_queue p
      × (r.0 ≡ record q {
        active_requests = p.active;
        request_queue = drop (taken p) q.request_queue;
        queue_len = length (drop (taken p) q.request_queue);
      })
      × (r.1.dispatched ≡ length p.to_dispatch)
      × (r.1.events ≡ cancel_events p.cancelled ++ launches p.to_dispatch)
unfolding finish_pass
process_locked-Takes reads gate q up = (
  pass_loop reads (pos gate) 0 q.active_requests q.request_queue,
  pass_loop-Takes reads gate 0 q.active_requests q.request_queue,
  ap (λ r. r.0) e,
  ap (λ r. r.1.dispatched) e,
  ap (λ r. r.1.events) e,
)
  where
    e :
        process_locked reads (pos gate) q
        ≡ finish_pass (pass_loop reads (pos gate) 0 q.active_requests q.request_queue) q
    e = process_locked-finish_pass reads gate q up

-- The reads of a pass during which neither the flag nor the gate changes.
abbrev pub steady : ℕ → ℕ → Bool × ℤ
steady gate i = (false, pos gate)

-- A pass that ends with nothing left, or with every slot in use.
abbrev Settled : ℕ → List Item → Pass → Type 0
Settled gate items p = (length items ≤ taken p) ⊎ (gate ≤ p.active)

Settled-item :
    (gate : ℕ) (item : Item) (items : List Item) (p : Pass)
    → Settled gate items p
    → Settled gate (item ∷ items) (take_item item p)
Settled-item gate item items p s = ground arith

pass_loop-Settled :
    (gate i active : ℕ) (items : List Item)
    → Settled gate items (pass_loop (steady gate) (pos gate) i active items)
unfolding pass_loop
pass_loop-Settled gate i active [] = inl (omega arith)
pass_loop-Settled gate i active (item ∷ items) =
    let rest =
      Settled-item gate item items _
        (pass_loop-Settled gate (i + 1) (if item.ctx_err then active else active + 1) items) in
    ground arith

-- Before shutdown and with a steady gate of at least 0, a pass leaves items in the queue only
-- where every slot is in use.
pub process_locked-full :
    (gate : ℕ) (q : Queue)
    → q.shutting_down ≡ false
    → let r = (process_locked (steady gate) (pos gate) q).0 in
      (r.request_queue ≡ []) ⊎ (gate ≤ r.active_requests)
unfolding finish_pass
process_locked-full gate q up =
    rw (process_locked-finish_pass (steady gate) gate q up)
      (settled _ (pass_loop-Settled gate 0 q.active_requests q.request_queue))
  where
    settled :
        (p : Pass)
        → Settled gate q.request_queue p
        → ((finish_pass p q).0.request_queue ≡ []) ⊎ (gate ≤ (finish_pass p q).0.active_requests)
    settled p (inl all) = inl (drop_of_length-le _ q.request_queue all)
    settled p (inr full) = inr full
