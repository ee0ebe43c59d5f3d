-- ===== src/KeyPool/Health.antt =====
-- Cooldowns of src/keypool.go: `MarkUnhealthy`, `MarkHealthy`, `HealthyCount` and `State`.
use umans_dash_go.Prelude.{
  millisecond, since, subst, leb→le, ◌∙◌, ◌&&◌, ℕ, ◌+◌, ◌*◌, ◌<◌, ◌≡◌, refl, sym, ◌≢◌, true, false,
  Option, none, some, List, [], ◌∷◌, map, arith, leb, if◌then◌else◌, ℤ, pos, same, length,
  get_elem?, set, get_elem?-set_self, get_elem?-set_ne, get_elem?-some_of_lt,
}
use umans_dash_go.KeyPool.{
  KeyEntry, KeySlot, KeyPool, KeyState, is_available, available_at, acquire, mark_unhealthy,
  mark_healthy, cooldown_for, count_available, key_state, state, healthy_count,
}
use umans_dash_go.KeyPool.Rotation.{Handed, Acquired, acquire-Acquired}

-- A key of the pool that is marked unhealthy is available again exactly when the cooldown of its
-- status is over: 60 s from 503 on, 30 s for 502, 10 s below.
pub mark_unhealthy-available_at :
    (now later i status : ℕ) (p : KeyPool)
    → i < length p.entries
    → available_at later (mark_unhealthy now (pos i) status p).entries i
      ≡ leb (cooldown_for status * millisecond) (since later now)
unfolding mark_unhealthy is_available
mark_unhealthy-available_at now later i status p lt =
    let (e, at) = get_elem?-some_of_lt p.entries i lt in
    rw (at, mark_unhealthy) (rw (get_elem?-set_self p.entries i _ lt, available_at) refl)

-- Every other key is as available as before.
pub mark_unhealthy_elsewhere :
    (now later i j status : ℕ) (p : KeyPool)
    → i ≢ j
    → available_at later (mark_unhealthy now (pos i) status p).entries j
      ≡ available_at later p.entries j
unfolding mark_unhealthy
mark_unhealthy_elsewhere now later i j status p ne = go (get_elem? p.entries i)
  where
    go :
        (o : Option KeyEntry)
        → available_at later
            (elim o as (λ _. KeyPool) [
              | none ↦ p
              | some e ↦ record p {
                entries = set p.entries i (record e {
                  healthy = false;
                  last_error = now;
                  cooldown_ms = cooldown_for status;
                });
              }
            ]).entries
            j
          ≡ available_at later p.entries j
    go none = refl
    go (some e) = rw (get_elem?-set_ne p.entries i j _ ne, available_at)

Handed-available_at :
    {now : ℕ} {p q : KeyPool} {s : KeySlot}
    → Handed now p q s
    → available_at now p.entries s.index ≡ true
Handed-available_at h = rw (h.found, available_at) h.is_free

-- After `MarkUnhealthy` of a key of the pool, and as long as its cooldown runs, `Acquire` never
-- hands that key out, whatever index is preferred.
pub acquire-mark_unhealthy :
    (now later i status : ℕ) (preferred : ℤ) (p q : KeyPool) (s : KeySlot)
    → i < length p.entries
    → since later now < cooldown_for status * millisecond
    → acquire later preferred (mark_unhealthy now (pos i) status p) ≡ (q, some s)
    → s.index ≢ i
acquire-mark_unhealthy now later i status preferred p q s lt soon e at =
    let marked = mark_unhealthy now (pos i) status p in
    let h : Handed later marked q s =
      subst (Acquired later marked) e (acquire-Acquired later preferred marked) in
    let free : available_at later marked.entries i ≡ true =
      subst (λ j. available_at later marked.entries j ≡ true) at (Handed-available_at h) in
    omega (
      arith,
      leb→le (cooldown_for status * millisecond) (since later now)
          (sym (mark_unhealthy-available_at now later i status p lt) ∙ free),
    )

-- A key marked healthy is available at once, and every other key is as available as before.
pub mark_healthy-available_at :
    (now i : ℕ) (p : KeyPool)
    → i < length p.entries
    → available_at now (mark_healthy (pos i) p).entries i ≡ true
unfolding mark_healthy is_available
mark_healthy-available_at now i p lt =
    let (e, at) = get_elem?-some_of_lt p.entries i lt in
    rw (at, mark_healthy) (rw (get_elem?-set_self p.entries i _ lt, available_at) refl)

-- Keys that `State` reports as healthy.
unfoldable pub count_healthy : List KeyState → ℕ
count_healthy [] = 0
count_healthy (k ∷ ks) = (if k.healthy then 1 else 0) + count_healthy ks

-- Available entries whose key is empty.
unfoldable pub count_keyless : ℕ → List KeyEntry → ℕ
count_keyless now [] = 0
count_keyless now (e ∷ es) =
    (if same e.key [] && is_available now e then 1 else 0) + count_keyless now es

key_state-healthy :
    (now : ℕ) (e : KeyEntry)
    → (key_state now e).healthy ≡ (if same e.key [] then false else is_available now e)
unfolding key_state is_available
key_state-healthy now e = ground arith

count_healthy-state :
    (now : ℕ) (es : List KeyEntry)
    → count_healthy (map (key_state now) es) + count_keyless now es ≡ count_available now es
unfolding count_healthy count_keyless count_available
count_healthy-state now [] = refl
count_healthy-state now (e ∷ es) =
    ground (arith, key_state-healthy now e, count_healthy-state now es)

-- `HealthyCount` is the number of keys that `State` reports as healthy, plus the entries with an
-- empty key that `Acquire` may hand out: `State` never calls those healthy.
pub healthy_count-state :
    (now : ℕ) (p : KeyPool)
    → count_healthy (state now p) + count_keyless now p.entries ≡ healthy_count now p
unfolding state
healthy_count-state now p = count_healthy-state now p.entries
