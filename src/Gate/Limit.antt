-- ===== src/Gate/Limit.antt =====
-- `gateLimit` of src/queue.go: the range of the gate and its cache.
use umans_dash_go.Prelude.{
  Bool-cases, inl, inr, ℕ, zero, suc, ◌-◌, ◌<◌, ◌≡◌, refl, false, Option, none, some, arith, leb,
  if◌then◌else◌, ℤ, pos, negsuc, ◌≤ℤ◌, leb_ℤ,
}
use umans_dash_go.Gate.{
  ConcurrencyData, GateState, Mode, soft, hard, manual, choose_gate, compute_gate, gate_limit,
  is_fresh, or_else, above_one, below_cap, invalidate_gate_cache, second,
}

-- A limit that is not set, or is at least 1.
abbrev pub IsUsable : Option ℤ → Type 0
IsUsable none = Unit {0}
IsUsable (some a) = pos 1 ≤ℤ a

abbrev pub AtMost : ℤ → Option ℤ → Type 0
AtMost g none = Unit {0}
AtMost g (some cap) = g ≤ℤ cap

or_else-pos : (a b : Option ℤ) → IsUsable a → IsUsable b → pos 1 ≤ℤ or_else a b
or_else-pos none none u v = omega arith
or_else-pos none (some b) u v = v
or_else-pos (some a) b u v = u

above_one-pos : (a : ℤ) → pos 1 ≤ℤ above_one a
above_one-pos (pos zero) = omega arith
above_one-pos (pos (suc n)) = ground arith
above_one-pos (negsuc n) = ground arith

-- Where the limit and the hard cap are each absent or at least 1, the gate is at least 1 in every
-- mode: the "no gate" value -1 that the comments of the code speak of does not occur.
pub choose_gate_pos :
    (eff : ConcurrencyData) (mode : Mode) (limit : ℤ)
    → IsUsable eff.limit
    → IsUsable eff.hard_cap
    → pos 1 ≤ℤ choose_gate eff mode limit
unfolding choose_gate
choose_gate_pos eff soft limit u v = or_else-pos eff.limit eff.hard_cap u v
choose_gate_pos eff hard limit u v = or_else-pos eff.hard_cap eff.limit v u
choose_gate_pos eff manual limit u v = elim (Bool-cases (leb_ℤ limit (pos 0))) [
  | inl low ↦ rw low (or_else-pos eff.limit eff.hard_cap u v)
  | inr high ↦ rw high (above_one-pos (below_cap limit eff.hard_cap))
]

below_cap-manual :
    (n : ℕ) (o : Option ℤ)
    → IsUsable o
    → (above_one (below_cap (pos (suc n)) o) ≤ℤ pos (suc n))
      × AtMost (above_one (below_cap (pos (suc n)) o)) o
below_cap-manual n none v = (ground arith, tt)
below_cap-manual n (some (pos m)) v = (ground arith, ground arith)
below_cap-manual n (some (negsuc m)) v = absurd (omega arith)

-- In manual mode with a positive manual limit, and a hard cap that is absent or at least 1, the
-- gate is at most the manual limit and at most the hard cap.
pub choose_gate_manual :
    (eff : ConcurrencyData) (n : ℕ)
    → IsUsable eff.hard_cap
    → (choose_gate eff manual (pos (suc n)) ≤ℤ pos (suc n))
      × AtMost (choose_gate eff manual (pos (suc n))) eff.hard_cap
unfolding choose_gate
choose_gate_manual eff n v = elim (Bool-cases (leb_ℤ (pos (suc n)) (pos 0))) [
  | inl low ↦ absurd (ground arith)
  | inr high ↦ rw high (below_cap-manual n eff.hard_cap v)
]

-- A gate that was computed anew after time 0 is served from the cache for one second, whatever
-- the override is set to in the meantime, and is computed from the new override after that.
pub gate_limit_later :
    (now later : ℕ) (override : ℤ) (s : GateState)
    → 0 < now
    → is_fresh now s ≡ false
    → let t = record (gate_limit now s).0 { override_concurrency = override } in
      (gate_limit later t).1
      ≡ (if leb (later - now) second then (compute_gate s).0 else (compute_gate t).0)
unfolding gate_limit
gate_limit_later now later override s h stale = ground arith

-- After an invalidation the next gate is computed anew, and stored with its time.
pub gate_limit-invalidate :
    (now : ℕ) (s : GateState)
    → let t = invalidate_gate_cache s in
      ((gate_limit now t).1 ≡ (compute_gate t).0)
      × ((gate_limit now t).0.cached_gate ≡ (compute_gate t).0)
      × ((gate_limit now t).0.cached_gate_at ≡ now)
unfolding gate_limit invalidate_gate_cache
gate_limit-invalidate now s = (refl, refl, refl)
