-- ===== src/KeyPool/Rotation.antt =====
-- `Acquire` of src/keypool.go: which key it hands out.
use native.Mathlib.Nat.{mod-lt, mod-eq_of_lt, mod-add-mod, add-mod_right}
use umans_dash_go.Prelude.{
  ℕ, zero, suc, ◌+◌, ◌-◌, ◌%◌, ◌<◌, ◌≡◌, refl, sym, ap, ◌∙◌, subst, inl, inr, Bool, true, false,
  Option, none, some, List, [], ◌∷◌, arith, if◌then◌else◌, ℤ, pos, negsuc, length, get_elem?, set,
  Bool-cases,
}
use native.Mathlib.Decide.{dec_le}
use umans_dash_go.KeyPool.{
  KeyEntry, KeySlot, KeyPool, is_available, available_at, hand_out, acquire_loop, round_robin,
  acquire_preferred, acquire, set_api_key, count_available,
}

-- The slot `s` is the first available one, `skipped` places behind the pool's index.
pub record Chosen (now rounds : ℕ) (p q : KeyPool) (s : KeySlot) : Type 0 where
  pub skipped : ℕ
  pub entry : KeyEntry
  pub within : skipped < rounds
  pub position : s.index ≡ (p.index + skipped) % length p.entries
  pub found : get_elem? p.entries s.index ≡ some entry
  pub is_free : is_available now entry ≡ true
  pub first :
      (k : ℕ) → k < skipped → available_at now p.entries ((p.index + k) % length p.entries) ≡ false
  pub key : s.key ≡ entry.key
  pub name : s.name ≡ entry.name
  pub advanced : q.index ≡ p.index + skipped + 1
  pub updated : q.entries ≡ set p.entries s.index (record entry { healthy = true })
  pub configured : q.config ≡ set_api_key p.config entry.key

-- No key among the next `rounds` ones is available, and only the index has moved.
pub record Missed (now rounds : ℕ) (p q : KeyPool) : Type 0 where
  pub busy :
      (k : ℕ) → k < rounds → available_at now p.entries ((p.index + k) % length p.entries) ≡ false
  pub advanced : q.index ≡ p.index + rounds
  pub kept : q.entries ≡ p.entries
  pub unconfigured : q.config ≡ p.config

abbrev pub Outcome : ℕ → ℕ → KeyPool → KeyPool × Option KeySlot → Type 0
Outcome now rounds p (q, none) = Missed now rounds p q
Outcome now rounds p (q, some s) = Chosen now rounds p q s

shift_busy :
    (f : ℕ → Bool) (i n : ℕ)
    → f i ≡ false
    → ((k : ℕ) → k < n → f (i + 1 + k) ≡ false)
    → (k : ℕ) → k < suc n
    → f (i + k) ≡ false
shift_busy f i n b h zero lt = subst (λ j. f j ≡ false) (omega arith) b
shift_busy f i n b h (suc k) lt = subst (λ j. f j ≡ false) (omega arith) (h k (omega arith))

-- A busy entry at the index: the rest of the loop decides.
step_busy :
    (now rounds : ℕ) (p : KeyPool)
    → available_at now p.entries (p.index % length p.entries) ≡ false
    → (r : KeyPool × Option KeySlot) → Outcome now rounds (record p { index = p.index + 1 }) r
    → Outcome now (suc rounds) p r
step_busy now rounds p busy (q, none) m = record {
  busy =
      shift_busy (λ j. available_at now p.entries (j % length p.entries)) p.index rounds busy
        m.busy;
  advanced = omega (arith, m.advanced);
  kept = m.kept;
  unconfigured = m.unconfigured;
}
step_busy now rounds p busy (q, some s) c = record {
  skipped = suc c.skipped;
  entry = c.entry;
  within = omega (arith, c.within);
  position = c.position ∙ ap (λ j. j % length p.entries) (omega arith);
  found = c.found;
  is_free = c.is_free;
  first =
      shift_busy (λ j. available_at now p.entries (j % length p.entries)) p.index c.skipped busy
        c.first;
  key = c.key;
  name = c.name;
  advanced = omega (arith, c.advanced);
  updated = c.updated;
  configured = c.configured;
}

-- One round, at the entry that stands at the index.
entry_outcome :
    (now rounds : ℕ) (p : KeyPool) (o : Option KeyEntry)
    → get_elem? p.entries (p.index % length p.entries) ≡ o
    → Outcome now rounds
        (record p { index = p.index + 1 })
        (acquire_loop now rounds (record p { index = p.index + 1 }))
    → Outcome now (suc rounds) p (elim o [
      | none ↦ acquire_loop now rounds (record p { index = p.index + 1 })
      | some e ↦
          if is_available now e
          then hand_out (record p { index = p.index + 1 }) (p.index % length p.entries) e
          else acquire_loop now rounds (record p { index = p.index + 1 })
    ])
unfolding hand_out
entry_outcome now rounds p none e rest = step_busy now rounds p (rw (e, available_at)) _ rest
entry_outcome now rounds p (some x) e rest = elim (Bool-cases (is_available now x)) [
  | inl free ↦ rw free (record {
    skipped = 0;
    entry = x;
    within = omega arith;
    position = ap (λ j. j % length p.entries) (omega arith);
    found = e;
    is_free = free;
    first = λ k lt. elim lt [ ];
    key = refl;
    name = refl;
    advanced = omega arith;
    updated = refl;
    configured = refl;
  })
  | inr busy ↦ rw busy (step_busy now rounds p (rw (e, available_at, busy)) _ rest)
]

-- The loop hands out the first available key at or behind its index, or finds none and moves on.
pub acquire_loop_outcome :
    (now rounds : ℕ) (p : KeyPool) → Outcome now rounds p (acquire_loop now rounds p)
unfolding acquire_loop
acquire_loop_outcome now zero p = record {
  busy = λ k lt. elim lt [ ];
  advanced = omega arith;
  kept = refl;
  unconfigured = refl;
}
acquire_loop_outcome now (suc rounds) p =
    entry_outcome now rounds p (get_elem? p.entries (p.index % length p.entries)) refl
      (acquire_loop_outcome now rounds (record p { index = p.index + 1 }))

reach_mod : (n i j : ℕ) → i < n → (k : ℕ) × (k < n) × ((j + k) % n ≡ i)
reach_mod n i j lt = elim (dec_le (j % n) i) [
  | yes le ↦ (
    i - j % n,
    omega arith,
    sym (mod-add-mod j n _) ∙ ap (λ t. t % n) (omega arith) ∙ mod-eq_of_lt lt,
  )
  | no gt ↦ (
    i + n - j % n,
    omega (arith, mod-lt j {m = n} (omega arith)),
    sym (mod-add-mod j n _)
        ∙ ap (λ t. t % n) (omega (arith, mod-lt j {m = n} (omega arith)))
        ∙ add-mod_right i n
        ∙ mod-eq_of_lt lt,
  )
]

count-eq-zero :
    (now : ℕ) (es : List KeyEntry)
    → ((i : ℕ) → i < length es → available_at now es i ≡ false)
    → count_available now es ≡ 0
unfolding count_available
count-eq-zero now [] h = refl
count-eq-zero now (e ∷ es) h =
    ground (arith, h 0 (omega arith), count-eq-zero now es (λ i lt. h (suc i) (omega arith)))

pub count_pos :
    (now : ℕ) (es : List KeyEntry) (i : ℕ)
    → available_at now es i ≡ true
    → 0 < count_available now es
unfolding count_available
count_pos now [] i h = cc
count_pos now (e ∷ es) zero h = ground arith
count_pos now (e ∷ es) (suc i) h = omega (arith, count_pos now es i h)

-- The round-robin search over the whole pool misses only where nothing is available.
round_robin_miss :
    (now : ℕ) (p q : KeyPool)
    → Missed now (length p.entries) p q
    → count_available now p.entries ≡ 0
round_robin_miss now p q m = count-eq-zero now p.entries λ i lt.
    let (k, small, at) = reach_mod (length p.entries) i p.index lt in
    subst (λ j. available_at now p.entries j ≡ false) at (m.busy k small)

-- What `Acquire` promises, whatever key is preferred: it fails only where no key is available, and
-- then leaves the keys as they were; else the slot is an available entry of the pool, under its own
-- position, key and name, which becomes healthy, and whose key becomes the active API key.
pub record Handed (now : ℕ) (p q : KeyPool) (s : KeySlot) : Type 0 where
  pub entry : KeyEntry
  pub found : get_elem? p.entries s.index ≡ some entry
  pub is_free : is_available now entry ≡ true
  pub key : s.key ≡ entry.key
  pub name : s.name ≡ entry.name
  pub updated : q.entries ≡ set p.entries s.index (record entry { healthy = true })
  pub configured : q.config ≡ set_api_key p.config entry.key

abbrev pub Acquired : ℕ → KeyPool → KeyPool × Option KeySlot → Type 0
Acquired now p (q, none) =
    (count_available now p.entries ≡ 0) × (q.entries ≡ p.entries) × (q.config ≡ p.config)
Acquired now p (q, some s) = Handed now p q s

Acquired-round_robin :
    (now : ℕ) (p : KeyPool) (r : KeyPool × Option KeySlot)
    → Outcome now (length p.entries) p r
    → Acquired now p r
Acquired-round_robin now p (q, none) m = (round_robin_miss now p q m, m.kept, m.unconfigured)
Acquired-round_robin now p (q, some s) c = record {
  entry = c.entry;
  found = c.found;
  is_free = c.is_free;
  key = c.key;
  name = c.name;
  updated = c.updated;
  configured = c.configured;
}

Acquired-preferred : (now i : ℕ) (p : KeyPool) → Acquired now p (acquire_preferred now i p)
unfolding acquire_preferred hand_out
Acquired-preferred now i p = go (get_elem? p.entries i) refl
  where
    robin : Acquired now p (round_robin now p)
    robin = Acquired-round_robin now p _ (acquire_loop_outcome now (length p.entries) p)

    go :
        (o : Option KeyEntry)
        → get_elem? p.entries i ≡ o
        → Acquired now p (elim o [
          | none ↦ round_robin now p
          | some e ↦ if is_available now e then hand_out p i e else round_robin now p
        ])
    go none e = robin
    go (some x) e = elim (Bool-cases (is_available now x)) [
      | inl free ↦ rw free (record {
        entry = x;
        found = e;
        is_free = free;
        key = refl;
        name = refl;
        updated = refl;
        configured = refl;
      })
      | inr busy ↦ rw busy robin
    ]

-- `Acquire` fails exactly where no key is healthy or past its cooldown, whatever key is preferred;
-- it then changes no entry and no configuration. Where it succeeds the slot is an available entry
-- under its own position, key and name; that entry is healthy afterwards, no other entry changes,
-- and a linked configuration has its key as the active API key.
pub acquire-Acquired :
    (now : ℕ) (preferred : ℤ) (p : KeyPool) → Acquired now p (acquire now preferred p)
unfolding acquire
acquire-Acquired now (negsuc i) p =
    Acquired-round_robin now p _ (acquire_loop_outcome now (length p.entries) p)
acquire-Acquired now (pos i) p = Acquired-preferred now i p

-- With no preferred key, `Acquire` hands out the first available key at or behind the pool's index,
-- cyclically, and the index moves just past it; where it fails, every key was passed over.
pub acquire-Outcome :
    (now k : ℕ) (p : KeyPool) → Outcome now (length p.entries) p (acquire now (negsuc k) p)
unfolding acquire
acquire-Outcome now k p = acquire_loop_outcome now (length p.entries) p
