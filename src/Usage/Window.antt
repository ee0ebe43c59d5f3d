-- ===== src/Usage/Window.antt =====
-- What `FetchUsage` and `FetchConcurrency` of src/usage.go do to the count of a window and to the gate.
use umans_dash_go.Prelude.{
  ℕ, ◌≡◌, refl, subst, sym, Bool, true, false, not, ◌&&◌, ◌⊎◌, Option, none, some, [], ltb, since,
  same, arith, Bool-cases, ℤ, Bytes, ap, same_refl, eq_of_same, Option-cases, inl, inr, if_split,
}
use umans_dash_go.Gate.{
  ConcurrencyData, GateState, store_concurrency, invalidate_gate_cache, gate_limit, compute_gate,
  choose_gate, compute_effective, mode_of, get_effective_concurrency,
}
use umans_dash_go.Usage.{
  UsageData, Usage, usage_cache_ttl, new_window, reset_throttled, store_usage, fresh_usage,
  fetch_usage, fetch_concurrency,
}

-- Without an answer from the upstream the cached usage is returned, however old, and nothing changes.
pub fetch_usage_fails :
    (fresh : Bool) (now later : ℕ) (s : Usage)
    → fetch_usage fresh now later none s ≡ (s, s.usage_cache)
unfolding fetch_usage
fetch_usage_fails true now later s = refl
fetch_usage_fails false now later s =
    elim (Bool-cases (ltb (since now s.fetched_at) usage_cache_ttl)) [
      | inl e ↦ elim (Option-cases s.usage_cache) [
        | inl c ↦ ground (arith, e, c)
        | inr (usage, c) ↦ ground (arith, e, c)
      ]
      | inr e ↦ ground (arith, e)
    ]

abbrev pub Unmoved : Usage → Usage → Type 0
Unmoved before after =
    (after.throttled_window ≡ before.throttled_window)
    × (after.throttled_count ≡ before.throttled_count)

-- The cached usage is used: nothing asks for a new one, there is one, and it is not too old.
abbrev pub Held : Bool → ℕ → Usage → Type 0
Held fresh now before =
    (fresh ≡ false)
    × (ltb (since now before.fetched_at) usage_cache_ttl ≡ true)
    × (held : UsageData) × (before.usage_cache ≡ some held)

-- Nothing moves where the cached usage is used, where there is no answer, and where the window of the
-- answer is none or the one of before. Any other answer starts its window with no count.
pub data Counted (fresh : Bool) (now : ℕ) (answer : Option UsageData) (before after : Usage)
    : Type 0 where
  from_cache : Held fresh now before → Unmoved before after → Counted fresh now answer before after
  no_answer : answer ≡ none → Unmoved before after → Counted fresh now answer before after
  same_window :
      (usage : UsageData)
      → answer ≡ some usage
      → (new_window usage ≡ []) ⊎ (new_window usage ≡ before.throttled_window)
      → Unmoved before after
      → Counted fresh now answer before after
  started :
      (usage : UsageData)
      → answer ≡ some usage
      → ¬ Held fresh now before
      → ¬ (new_window usage ≡ [])
      → ¬ (new_window usage ≡ before.throttled_window)
      → after.throttled_window ≡ new_window usage
      → after.throttled_count ≡ 0
      → Counted fresh now answer before after

unless_fresh :
    (fresh : Bool) (now : ℕ) (s : Usage) → fresh_usage fresh now s ≡ none → ¬ Held fresh now s
unless_fresh fresh now s e (asked, young, held, cached) =
    absurd (ground (arith, e, asked, young, cached))

when_fresh :
    (fresh : Bool) (now : ℕ) (s : Usage) (held : UsageData)
    → fresh_usage fresh now s ≡ some held
    → Held fresh now s
when_fresh true now s held e = absurd (ground (arith, e))
when_fresh false now s held e = elim (Bool-cases (ltb (since now s.fetched_at) usage_cache_ttl)) [
  | inl young ↦ (refl, young, held, ground (arith, e, young))
  | inr old ↦ absurd (ground (arith, e, old))
]

not_same : (a b : Bytes) → same a b ≡ false → ¬ (a ≡ b)
not_same a b e d = absurd (ground (arith, e, same_refl b, ap (λ c. same c b) d))

either_window : (a w : Bytes) → (not (same a []) && not (same a w)) ≡ false → (a ≡ []) ⊎ (a ≡ w)
either_window a w stayed = elim (Bool-cases (same a [])) [
  | inl e ↦ inl (eq_of_same a [] e)
  | inr e ↦ inr (eq_of_same a w (ground (arith, stayed, e)))
]

store_usage-Counted :
    (fresh : Bool) (now later : ℕ) (usage : UsageData) (s : Usage)
    → ¬ Held fresh now s
    → Counted fresh now (some usage) s (store_usage later usage s)
unfolding store_usage reset_throttled
store_usage-Counted fresh now later usage s asked =
    if_split
      (λ (r : Usage).
        Counted fresh now (some usage) s
          (record r { usage_cache = some usage; fetched_at = later }))
      (not (same (new_window usage) []) && not (same (new_window usage) s.throttled_window))
      (record s { throttled_count = 0; throttled_window = new_window usage }) s
      (λ moved.
        started usage refl asked (not_same (new_window usage) [] (ground (arith, moved)))
          (not_same (new_window usage) s.throttled_window (ground (arith, moved))) refl refl)
      (λ stayed.
        same_window usage refl (either_window (new_window usage) s.throttled_window stayed)
          (refl, refl))

held_usage :
    (fresh : Bool) (now later : ℕ) (answer : Option UsageData) (s : Usage) (held : UsageData)
    → fresh_usage fresh now s ≡ some held
    → fetch_usage fresh now later answer s ≡ (s, some held)
unfolding fetch_usage
held_usage fresh now later answer s held e = ground (arith, e)

new_usage :
    (fresh : Bool) (now later : ℕ) (usage : UsageData) (s : Usage)
    → fresh_usage fresh now s ≡ none
    → fetch_usage fresh now later (some usage) s ≡ (store_usage later usage s, some usage)
unfolding fetch_usage
new_usage fresh now later usage s e = ground (arith, e)

abbrev CountedBy : Bool → ℕ → Option UsageData → Usage → Usage × Option UsageData → Type 0
CountedBy fresh now answer s r = Counted fresh now answer s r.0

-- A fetch that uses the cached usage, has no answer, or whose answer names no window or the one of before
-- keeps the count of throttled requests and its window. Any other answer, whose window is a new one, starts
-- that window with no count.
pub fetch_usage-Counted :
    (fresh : Bool) (now later : ℕ) (answer : Option UsageData) (s : Usage)
    → Counted fresh now answer s (fetch_usage fresh now later answer s).0
fetch_usage-Counted fresh now later none s =
    subst (CountedBy fresh now none s) (sym (fetch_usage_fails fresh now later s))
      (no_answer refl (refl, refl))
fetch_usage-Counted fresh now later (some usage) s = elim (Option-cases (fresh_usage fresh now s)) [
  | inr (held, e) ↦
      subst (CountedBy fresh now (some usage) s)
        (sym (held_usage fresh now later (some usage) s held e))
        (from_cache (when_fresh fresh now s held e) (refl, refl))
  | inl e ↦
      subst (CountedBy fresh now (some usage) s) (sym (new_usage fresh now later usage s e))
        (store_usage-Counted fresh now later usage s (unless_fresh fresh now s e))
]

-- The limits of a usage with the override on top, the way the mode chooses among them.
abbrev pub gate_of : UsageData → GateState → ℤ
gate_of usage g =
    choose_gate
      (compute_effective
        (record {
          concurrent = usage.concurrent_sessions;
          limit = usage.limit;
          hard_cap = usage.hard_cap;
          user_id = usage.user_id;
          overridden = false;
        })
        g.override_concurrency)
      (mode_of g.concurrency_limit_mode) g.manual_limit

computed :
    (up : Bool) (last : ConcurrencyData) (override : ℤ)
    → (get_effective_concurrency up none last override).0 ≡ compute_effective last override
unfolding get_effective_concurrency
computed true last override = refl
computed false last override = refl

gate_limit-store_concurrency :
    (usage : UsageData) (g : GateState) (again : ℕ)
    → (gate_limit again
        (store_concurrency usage.concurrent_sessions usage.limit usage.hard_cap usage.user_id g)).1
      ≡ gate_of usage g
unfolding gate_limit store_concurrency invalidate_gate_cache compute_gate
gate_limit-store_concurrency usage g again =
    ap
      (λ (eff : ConcurrencyData). choose_gate eff (mode_of g.concurrency_limit_mode) g.manual_limit)
      (computed g.upstream _ g.override_concurrency)

-- The gate directly after a fetch for the dashboard is that of the usage which the fetch returns, a cached
-- one too: the gate and the effective limits that were cached before do not count any more. Without any usage
-- it is the gate of before.
pub fetch_concurrency-gate :
    (fresh : Bool) (now later again : ℕ) (answer : Option UsageData) (s : Usage) (g : GateState)
    → (gate_limit again (fetch_concurrency fresh now later answer (s, g)).1).1
      ≡ elim (fetch_usage fresh now later answer s).1 as (λ _. ℤ) [
        | none ↦ (gate_limit again g).1
        | some usage ↦ gate_of usage g
      ]
unfolding fetch_concurrency
fetch_concurrency-gate fresh now later again answer s g = go (fetch_usage fresh now later answer s)
  where
    go :
        (fetched : Usage × Option UsageData)
        → (gate_limit again
            (elim fetched.1 as (λ _. Usage × GateState) [
              | none ↦ (fetched.0, g)
              | some usage ↦ (
                fetched.0,
                store_concurrency usage.concurrent_sessions usage.limit usage.hard_cap usage.user_id
                    g,
              )
            ]).1).1
          ≡ elim fetched.1 as (λ _. ℤ) [
            | none ↦ (gate_limit again g).1
            | some usage ↦ gate_of usage g
          ]
    go (u, none) = refl
    go (u, some usage) = gate_limit-store_concurrency usage g again
