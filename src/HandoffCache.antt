-- ===== src/HandoffCache.antt =====
-- src/cache.go, with the types `ImageHandoffCache`, `handoffCacheEntry` and `HandoffCacheStats` of
-- src/types.go: the cache of image descriptions, with a time to live and eviction by recent use.
-- `lru` is the list of entries, the front first. `lookup` maps the hash of each entry to its element,
-- so reading it is looking for the entry of that hash. `now` is the time that the operation reads.
pub mod Recency
pub mod Bounds
mod Tests
use umans_dash_go.Prelude.{
  ℕ, zero, suc, ◌+◌, ◌/◌, ◌≡◌, refl, Bool, true, false, Option, none, some, List, [], ◌∷◌, ltb,
  ltb_ℤ, ℤ, pos, negsuc, since, millisecond, if◌then◌else◌, Bytes, same, length,
}

pub record Entry : Type 0 where
  pub hash : Bytes
  pub desc : Bytes
  pub time : ℕ

pub record HandoffCache : Type 0 where
  pub max_size : ℤ
  pub ttl : ℤ
  pub lru : List Entry
  pub hits : ℕ
  pub misses : ℕ
  pub evictions : ℕ

pub record HandoffStats : Type 0 where
  pub size : ℕ
  pub max_size : ℤ
  pub ttl_ms : ℤ
  pub hits : ℕ
  pub misses : ℕ
  pub evictions : ℕ

abbrev pub new_image_handoff_cache : ℤ → ℤ → HandoffCache
new_image_handoff_cache max_size ttl = record {
  max_size = max_size;
  ttl = ttl;
  lru = [];
  hits = 0;
  misses = 0;
  evictions = 0;
}

-- The element that `lookup` holds for a key.
unfoldable pub find : Bytes → List Entry → Option Entry
find key [] = none
find key (e ∷ es) = if same e.hash key then some e else find key es

-- `lru.Remove` and `delete` of that element.
unfoldable pub detach : Bytes → List Entry → List Entry
detach key [] = []
detach key (e ∷ es) = if same e.hash key then es else e ∷ detach key es

unfoldable pub get : ℕ → Bytes → HandoffCache → HandoffCache × Option Bytes
get now key c = elim (find key c.lru) [
  | none ↦ (record c { misses = c.misses + 1 }, none)
  | some e ↦
      if ltb_ℤ c.ttl (pos (since now e.time))
      then (record c { lru = detach key c.lru; misses = c.misses + 1 }, none)
      else (record c { lru = e ∷ detach key c.lru; hits = c.hits + 1 }, some e.desc)
]

unfoldable pub back : List Entry → Option Entry
back [] = none
back (e ∷ []) = some e
back (e ∷ f ∷ es) = back (f ∷ es)

unfoldable pub drop_back : List Entry → List Entry
drop_back [] = []
drop_back (e ∷ []) = []
drop_back (e ∷ f ∷ es) = e ∷ drop_back (f ∷ es)

-- The end of `Set`: at most one entry goes, the one at the back.
unfoldable pub evict_back : HandoffCache → HandoffCache
evict_back c =
    if ltb_ℤ c.max_size (pos (length c.lru))
    then (elim (back c.lru) [
      | none ↦ c
      | some e ↦ record c { lru = drop_back c.lru; evictions = c.evictions + 1 }
    ])
    else c

unfoldable pub set : ℕ → Bytes → Bytes → HandoffCache → HandoffCache
set now key desc c =
    let entry : Entry = record { hash = key; desc = desc; time = now } in
    elim (find key c.lru) [
      | some e ↦ record c { lru = entry ∷ detach key c.lru }
      | none ↦ evict_back (record c { lru = entry ∷ c.lru })
    ]

abbrev pub negate : ℕ → ℤ
negate zero = pos zero
negate (suc n) = negsuc n

-- `Duration.Milliseconds` rounds towards zero.
abbrev pub milliseconds : ℤ → ℤ
milliseconds (pos n) = pos (n / millisecond)
milliseconds (negsuc n) = negate (suc n / millisecond)

abbrev pub stats : HandoffCache → HandoffStats
stats c = record {
  size = length c.lru;
  max_size = c.max_size;
  ttl_ms = milliseconds c.ttl;
  hits = c.hits;
  misses = c.misses;
  evictions = c.evictions;
}

abbrev pub resize : ℤ → ℤ → HandoffCache → HandoffCache
resize max_size ttl c = record c { max_size = max_size; ttl = ttl }
