-- ===== src/KeyPool.antt =====
-- src/keypool.go, with the types `KeyConfig`, `KeyState`, `keyEntry`, `KeySlot` and `KeyPool` of
-- src/types.go: a round-robin pool of API keys with cooldowns.
-- Times are nanoseconds since Go's zero time, so `time.Time{}` is 0; `now` is an argument of each
-- operation that reads the clock. `index` is a counter that is not taken to its wrap at 2^63.
-- The `config` pointer is the API key of the configuration it points to, if it is set.
pub mod Rotation
pub mod Health
mod Tests
use umans_dash_go.Prelude.{
  ℕ, zero, suc, ◌+◌, ◌-◌, ◌*◌, ◌/◌, ◌%◌, ◌^◌, ◌≤◌, ◌<◌, min, ◌≡◌, refl, Bool, true, false, not,
  ◌&&◌, ◌||◌, Option, none, some, List, [], ◌∷◌, map, ltb, leb, ◌==◌, since, millisecond,
  if◌then◌else◌, ℤ, pos, negsuc, Bytes, codes, same, length, get_elem?, set,
}
use umans_dash_go.Mask.{mask_token}

pub record KeyConfig : Type 0 where
  pub name : Bytes
  pub key : Bytes
  pub session : Bytes

pub record KeyEntry : Type 0 where
  pub key : Bytes
  pub name : Bytes
  pub healthy : Bool
  pub last_error : ℕ
  pub cooldown_ms : ℕ

pub record KeySlot : Type 0 where
  pub key : Bytes
  pub name : Bytes
  pub index : ℕ

pub record KeyPool : Type 0 where
  pub entries : List KeyEntry
  pub index : ℕ
  pub config : Option Bytes

pub data KeyStatus : Type 0 where
  absent active cooldown : KeyStatus

pub record KeyState : Type 0 where
  pub name : Bytes
  pub status : KeyStatus
  pub healthy : Bool
  pub remaining_cooldown : ℕ
  pub token : Bytes

unfoldable pub new_entry : KeyConfig → KeyEntry
new_entry k = record {
  key = k.key;
  name = k.name;
  healthy = true;
  last_error = 0;
  cooldown_ms = 30_000;
}

unfoldable pub new_key_pool : List KeyConfig → KeyPool
new_key_pool keys = record { entries = map new_entry keys; index = 0; config = none }

-- The pool takes the configuration whose API key is the argument.
unfoldable pub set_config : KeyPool → Bytes → KeyPool
set_config p api_key = record p { config = some api_key }

-- `e.Healthy || now.Sub(e.LastError) >= cooldown`.
unfoldable pub is_available : ℕ → KeyEntry → Bool
is_available now e = e.healthy || leb (e.cooldown_ms * millisecond) (since now e.last_error)

abbrev pub set_api_key : Option Bytes → Bytes → Option Bytes
set_api_key none key = none
set_api_key (some old) key = some key

-- The body of `if e.Healthy || …`: the entry is healthy again and its key becomes the active one.
unfoldable pub hand_out : KeyPool → ℕ → KeyEntry → KeyPool × Option KeySlot
hand_out p idx e = (
  record p {
    entries = set p.entries idx (record e { healthy = true });
    config = set_api_key p.config e.key;
  },
  some (record { key = e.key; name = e.name; index = idx }),
)

-- The round-robin loop of `Acquire`, with the rounds left.
unfoldable pub acquire_loop : ℕ → ℕ → KeyPool → KeyPool × Option KeySlot
unfolding hand_out is_available
acquire_loop now zero p = (p, none)
acquire_loop now (suc rounds) p =
    let idx = p.index % length p.entries in
    let p' = record p { index = p.index + 1 } in
    let rest = acquire_loop now rounds p' in
    elim (get_elem? p.entries idx) [
      | none ↦ rest
      | some e ↦ if is_available now e then hand_out p' idx e else rest
    ]

abbrev pub round_robin : ℕ → KeyPool → KeyPool × Option KeySlot
round_robin now p = acquire_loop now (length p.entries) p

-- The preferred key, where the index is in range and its key available.
unfoldable pub acquire_preferred : ℕ → ℕ → KeyPool → KeyPool × Option KeySlot
unfolding acquire_loop
acquire_preferred now i p = elim (get_elem? p.entries i) [
  | none ↦ round_robin now p
  | some e ↦ if is_available now e then hand_out p i e else round_robin now p
]

unfoldable pub acquire : ℕ → ℤ → KeyPool → KeyPool × Option KeySlot
unfolding acquire_preferred
acquire now (negsuc i) p = round_robin now p
acquire now (pos i) p = acquire_preferred now i p

abbrev pub cooldown_for : ℕ → ℕ
cooldown_for status = if leb 503 status then 60_000 else if leb 502 status then 30_000 else 10_000

unfoldable pub mark_unhealthy : ℕ → ℤ → ℕ → KeyPool → KeyPool
mark_unhealthy now (negsuc i) status p = p
mark_unhealthy now (pos i) status p = elim (get_elem? p.entries i) [
  | none ↦ p
  | some e ↦ record p {
    entries =
        set p.entries i
          (record e { healthy = false; last_error = now; cooldown_ms = cooldown_for status });
  }
]

unfoldable pub mark_healthy : ℤ → KeyPool → KeyPool
mark_healthy (negsuc i) p = p
mark_healthy (pos i) p = elim (get_elem? p.entries i) [
  | none ↦ p
  | some e ↦ record p { entries = set p.entries i (record e { healthy = true; last_error = 0 }) }
]

unfoldable pub count_available : ℕ → List KeyEntry → ℕ
unfolding is_available
count_available now [] = 0
count_available now (e ∷ es) = (if is_available now e then 1 else 0) + count_available now es

abbrev pub healthy_count : ℕ → KeyPool → ℕ
healthy_count now p = count_available now p.entries

-- Whether `Acquire` may hand out the entry at a position.
abbrev pub available_at : ℕ → List KeyEntry → ℕ → Bool
available_at now es i = elim (get_elem? es i) [ none ↦ false | some e ↦ is_available now e ]

abbrev pub total : KeyPool → ℕ
total p = length p.entries

-- The status of a key in `State`, with the cooldown that is left in milliseconds.
unfoldable pub status_of : ℕ → KeyEntry → KeyStatus × ℕ
status_of now e =
    if same e.key []
    then (absent, 0)
    else if e.healthy
    then (active, 0)
    else if leb e.cooldown_ms (since now e.last_error / millisecond)
    then (active, 0)
    else (cooldown, e.cooldown_ms - since now e.last_error / millisecond)

abbrev pub is_active : KeyStatus → Bool
is_active absent = false
is_active active = true
is_active cooldown = false

unfoldable pub key_state : ℕ → KeyEntry → KeyState
unfolding status_of
key_state now e =
    let (status, left) = status_of now e in
    record {
      name = e.name;
      status = status;
      healthy = is_active status;
      remaining_cooldown = left;
      token = mask_token e.key;
    }

unfoldable pub state : ℕ → KeyPool → List KeyState
unfolding key_state
state now p = map (key_state now) p.entries
