-- ===== src/Gate/Effective.antt =====
-- `GetEffectiveConcurrency` of src/usage.go: the override, and what its cache returns.
use umans_dash_go.Prelude.{
  ℕ, ◌≤◌, ◌<◌, ◌≡◌, refl, inl, inr, Bool, true, false, Option, none, some, arith, ℤ, pos, negsuc,
  eqb_ℤ, Bool-cases,
}
use umans_dash_go.Gate.{
  ConcurrencyData, compute_effective, get_effective_concurrency, cache_matches, same_limit,
  is_override, cap_override,
}

eq_of_eqb_ℤ : (a b : ℤ) → eqb_ℤ a b ≡ true → a ≡ b
eq_of_eqb_ℤ (pos a) (pos b) h = ground arith
eq_of_eqb_ℤ (negsuc a) (negsuc b) h = ground arith
eq_of_eqb_ℤ (pos a) (negsuc b) h = cc
eq_of_eqb_ℤ (negsuc a) (pos b) h = cc

eqb_ℤ-refl : (a : ℤ) → eqb_ℤ a a ≡ true
eqb_ℤ-refl (pos a) = ground arith
eqb_ℤ-refl (negsuc a) = ground arith

eq_of_same_limit : (a b : Option ℤ) → same_limit a b ≡ true → a ≡ b
unfolding same_limit
eq_of_same_limit none none h = refl
eq_of_same_limit none (some b) h = cc
eq_of_same_limit (some a) none h = cc
eq_of_same_limit (some a) (some b) h = cc (eq_of_eqb_ℤ a b h)

pub same_limit_refl : (a : Option ℤ) → same_limit a a ≡ true
unfolding same_limit
same_limit_refl none = refl
same_limit_refl (some a) = eqb_ℤ-refl a

-- A matching cache entry holds the limit and the hard cap that were asked for.
cache_matches-eq :
    (cached last : ConcurrencyData) (override : ℤ)
    → cache_matches cached last override ≡ true
    → (cached.limit ≡ last.limit)
      × (cached.hard_cap ≡ last.hard_cap)
      × (cached.overridden ≡ is_override override)
unfolding cache_matches
cache_matches-eq cached last override h = ground (
  arith,
  eq_of_same_limit last.limit cached.limit,
  eq_of_same_limit last.hard_cap cached.hard_cap,
)

cap_override_twice :
    (override : ℤ) (o : Option ℤ)
    → cap_override override (some (cap_override override o)) ≡ cap_override override o
cap_override_twice override none = ground arith
cap_override_twice override (some cap) = ground arith

-- Two results that agree in what the gate reads.
pub record Agrees (a b : ConcurrencyData) : Type 0 where
  pub limit : a.limit ≡ b.limit
  pub hard_cap : a.hard_cap ≡ b.hard_cap

hit-Agrees :
    (old last : ConcurrencyData) (override : ℤ)
    → cache_matches (compute_effective old override) last override ≡ true
    → Agrees (compute_effective old override) (compute_effective last override)
unfolding compute_effective
hit-Agrees old last override hit =
    let (l, c, o) = cache_matches-eq (compute_effective old override) last override hit in
    ground (arith, l, c, cap_override_twice override old.hard_cap)

-- For a cache entry that was computed under the same override, from whatever upstream data, the
-- limit and the hard cap returned are those of a fresh computation.
pub get_effective_concurrency-Agrees :
    (upstream : Bool) (old last : ConcurrencyData) (override : ℤ)
    → Agrees
        (get_effective_concurrency upstream (some (compute_effective old override)) last override).0
        (compute_effective last override)
unfolding get_effective_concurrency
get_effective_concurrency-Agrees false old last override = record { limit = refl; hard_cap = refl }
get_effective_concurrency-Agrees true old last override =
    elim (Bool-cases (cache_matches (compute_effective old override) last override)) [
      | inl hit ↦ rw hit (hit-Agrees old last override hit)
      | inr miss ↦ rw miss (record { limit = refl; hard_cap = refl })
    ]

stale_caps :
    (last : ConcurrencyData) (cap before after : ℕ)
    → last.hard_cap ≡ some (pos cap)
    → 0 < after
    → after < cap
    → cap ≤ before
    → ((compute_effective last (pos before)).hard_cap ≡ some (pos cap))
      × ((compute_effective last (pos after)).hard_cap ≡ some (pos after))
unfolding compute_effective
stale_caps last cap before after e p lt le = ground arith

stale_hit :
    (last : ConcurrencyData) (cap before after : ℕ)
    → last.hard_cap ≡ some (pos cap)
    → 0 < after
    → after < cap
    → cap ≤ before
    → cache_matches (compute_effective last (pos before)) last (pos after) ≡ true
unfolding compute_effective cache_matches
stale_hit last cap before after e p lt le =
    ground (arith, same_limit_refl last.limit, same_limit_refl last.hard_cap, eqb_ℤ-refl (pos cap))

-- The cache key does not hold the value of the override: with a hard cap, a cache entry made
-- under an override of at least the cap answers with that cap for a smaller positive override,
-- where a fresh computation gives the override.
pub get_effective_concurrency_stale :
    (last : ConcurrencyData) (cap before after : ℕ)
    → last.hard_cap ≡ some (pos cap)
    → 0 < after
    → after < cap
    → cap ≤ before
    → ((get_effective_concurrency true
          (some (compute_effective last (pos before)))
          last
          (pos after)).0.hard_cap
        ≡ some (pos cap))
      × ((compute_effective last (pos after)).hard_cap ≡ some (pos after))
unfolding get_effective_concurrency
get_effective_concurrency_stale last cap before after e p lt le =
    rw (stale_hit last cap before after e p lt le) (
      ground (arith, stale_caps last cap before after e p lt le),
      (stale_caps last cap before after e p lt le).1,
    )
