-- ===== src/HandoffCache/Recency.antt =====
-- What `Get` and `Set` of src/cache.go keep, and which entry goes when the cache is full.
use umans_dash_go.Prelude.{
  ℕ, suc, ◌≡◌, refl, Bool, true, false, not, ◌&&◌, Option, none, some, List, [], ◌∷◌, arith, ltb_ℤ,
  leb_ℤ, pos, since, if◌then◌else◌, Bytes, same, same_iff, same_refl, length, Option-cases,
}
use umans_dash_go.HandoffCache.{
  Entry, HandoffCache, find, detach, get, set, back, drop_back, evict_back,
}

-- No entry of the list has the hash.
unfoldable pub absent : Bytes → List Entry → Bool
absent key [] = true
absent key (e ∷ es) = not (same e.hash key) && absent key es

-- Each hash stands once in the list.
unfoldable pub distinct : List Entry → Bool
distinct [] = true
distinct (e ∷ es) = absent e.hash es && distinct es

pub absent-find : (key : Bytes) (es : List Entry) → absent key es ≡ true → find key es ≡ none
unfolding absent find
absent-find key [] h = refl
absent-find key (e ∷ es) h = ground (arith, absent-find key es)

pub find-absent : (key : Bytes) (es : List Entry) → find key es ≡ none → absent key es ≡ true
unfolding absent find
find-absent key [] h = refl
find-absent key (e ∷ es) h = ground (arith, find-absent key es)

pub find_hash : (key : Bytes) (es : List Entry) (e : Entry) → find key es ≡ some e → e.hash ≡ key
unfolding find
find_hash key [] e h = cc
find_hash key (f ∷ es) e h = ground (arith, same_iff f.hash key, find_hash key es e)

pub absent-detach :
    (key k : Bytes) (es : List Entry) → absent k es ≡ true → absent k (detach key es) ≡ true
unfolding absent detach
absent-detach key k [] h = refl
absent-detach key k (e ∷ es) h = ground (arith, absent-detach key k es)

pub distinct-detach :
    (key : Bytes) (es : List Entry)
    → distinct es ≡ true
    → (distinct (detach key es) ≡ true) × (absent key (detach key es) ≡ true)
unfolding absent detach distinct
distinct-detach key [] h = (refl, refl)
distinct-detach key (e ∷ es) h =
    ground (arith, distinct-detach key es, absent-detach key e.hash es, same_iff e.hash key)

pub find-detach :
    (key k : Bytes) (es : List Entry) → same key k ≡ false → find k (detach key es) ≡ find k es
unfolding find detach
find-detach key k [] ne = refl
find-detach key k (e ∷ es) ne =
    ground (arith, find-detach key k es, same_iff key k, same_iff e.hash key, same_iff e.hash k)

pub absent-drop_back :
    (k : Bytes) (es : List Entry) → absent k es ≡ true → absent k (drop_back es) ≡ true
unfolding absent drop_back
absent-drop_back k [] h = refl
absent-drop_back k (e ∷ []) h = refl
absent-drop_back k (e ∷ f ∷ es) h = ground (arith, absent-drop_back k (f ∷ es))

pub distinct-drop_back : (es : List Entry) → distinct es ≡ true → distinct (drop_back es) ≡ true
unfolding distinct drop_back absent
distinct-drop_back [] h = refl
distinct-drop_back (e ∷ []) h = refl
distinct-drop_back (e ∷ f ∷ es) h =
    ground (arith, distinct-drop_back (f ∷ es), absent-drop_back e.hash (f ∷ es))

absent-back :
    (k : Bytes) (es : List Entry) (old : Entry)
    → absent k es ≡ true
    → back es ≡ some old
    → same old.hash k ≡ false
unfolding absent back
absent-back k [] old h e = cc
absent-back k (f ∷ []) old h e = ground arith
absent-back k (f ∷ g ∷ es) old h e = ground (arith, absent-back k (g ∷ es) old)

find-drop_back :
    (k : Bytes) (es : List Entry) (old : Entry)
    → back es ≡ some old
    → distinct es ≡ true
    → find k (drop_back es) ≡ (if same old.hash k then none else find k es)
unfolding find back drop_back distinct
find-drop_back k [] old e h = cc
find-drop_back k (f ∷ []) old e h = ground (arith, e)
find-drop_back k (f ∷ g ∷ es) old e h = ground (
  arith,
  find-drop_back k (g ∷ es) old e,
  absent-back f.hash (g ∷ es) old,
  same_iff f.hash k,
  same_iff old.hash k,
  same_iff old.hash f.hash,
)

-- The entry just put in front survives the eviction, in a cache whose maximal size is positive.
find-evict_back_front :
    (e : Entry) (es : List Entry) (c : HandoffCache)
    → ltb_ℤ (pos 0) c.max_size ≡ true
    → find e.hash (evict_back (record c { lru = e ∷ es })).lru ≡ some e
unfolding find evict_back back drop_back
find-evict_back_front e [] c room = ground (arith, same_refl e.hash)
find-evict_back_front e (f ∷ es) c room =
    ground (arith, same_refl e.hash, Option-cases (back (f ∷ es)))

find-evict_back :
    (k : Bytes) (c : HandoffCache) (old : Entry)
    → distinct c.lru ≡ true
    → back c.lru ≡ some old
    → find k (evict_back c).lru
      ≡ (if ltb_ℤ c.max_size (pos (length c.lru)) && same old.hash k then none else find k c.lru)
unfolding evict_back
find-evict_back k c old h e = ground (arith, find-drop_back k c.lru old e h)

back_cons : (e f : Entry) (es : List Entry) → back es ≡ some f → back (e ∷ es) ≡ some f
unfolding back
back_cons e f [] at = cc
back_cons e f (g ∷ es) at = at

evict_back-ttl : (c : HandoffCache) → (evict_back c).ttl ≡ c.ttl
unfolding evict_back
evict_back-ttl c = ground (arith, Option-cases (back c.lru))

set-ttl : (now : ℕ) (key desc : Bytes) (c : HandoffCache) → (set now key desc c).ttl ≡ c.ttl
unfolding set
set-ttl now key desc c = ground (
  arith,
  evict_back-ttl (record c { lru = record { hash = key; desc = desc; time = now } ∷ c.lru }),
)

get_fresh :
    (now : ℕ) (key : Bytes) (c : HandoffCache) (e : Entry)
    → find key c.lru ≡ some e
    → leb_ℤ (pos (since now e.time)) c.ttl ≡ true
    → (get now key c).1 ≡ some e.desc
unfolding get
get_fresh now key c e at fresh = ground arith

find-set_self :
    (now : ℕ) (key desc : Bytes) (c : HandoffCache)
    → ltb_ℤ (pos 0) c.max_size ≡ true
    → find key (set now key desc c).lru ≡ some (record { hash = key; desc = desc; time = now })
unfolding set find
find-set_self now key desc c room = ground (
  arith,
  find-evict_back_front (record { hash = key; desc = desc; time = now }) c.lru c room,
  same_refl key,
)

-- `Get` after `Set` within the time to live gives the description that was set, in a cache whose
-- maximal size is positive.
pub get-set :
    (now later : ℕ) (key desc : Bytes) (c : HandoffCache)
    → ltb_ℤ (pos 0) c.max_size ≡ true
    → leb_ℤ (pos (since later now)) c.ttl ≡ true
    → (get later key (set now key desc c)).1 ≡ some desc
get-set now later key desc c room fresh =
    get_fresh later key (set now key desc c) (record { hash = key; desc = desc; time = now })
      (find-set_self now key desc c room) (rw (set-ttl now key desc c) fresh)

-- In a cache that has each hash once, `Get` of an entry past the time to live finds nothing and
-- takes the entry out.
pub get_expired :
    (now : ℕ) (key : Bytes) (c : HandoffCache) (e : Entry)
    → distinct c.lru ≡ true
    → find key c.lru ≡ some e
    → ltb_ℤ c.ttl (pos (since now e.time)) ≡ true
    → ((get now key c).1 ≡ none) × (find key (get now key c).0.lru ≡ none)
unfolding get
get_expired now key c e h at late =
    ground (arith, absent-find key (detach key c.lru), distinct-detach key c.lru h)

-- In a cache that has each hash once, `Set` of a key leaves what is found for any other key as it
-- was, but for the entry at the back, which goes when the key is new and the cache is full.
pub find-set :
    (now : ℕ) (key k desc : Bytes) (c : HandoffCache) (old : Entry)
    → distinct c.lru ≡ true
    → back c.lru ≡ some old
    → same key k ≡ false
    → find k (set now key desc c).lru ≡ (
        if absent key c.lru && ltb_ℤ c.max_size (pos (suc (length c.lru))) && same old.hash k
        then none
        else find k c.lru)
unfolding set find absent distinct
find-set now key k desc c old h e ne = go (find key c.lru) refl
  where
    entry : Entry
    entry = record { hash = key; desc = desc; time = now }

    go :
        (o : Option Entry)
        → find key c.lru ≡ o
        → find k
            (elim o as (λ _. HandoffCache) [
              | some e ↦ record c { lru = entry ∷ detach key c.lru }
              | none ↦ evict_back (record c { lru = entry ∷ c.lru })
            ]).lru
          ≡ (if absent key c.lru && ltb_ℤ c.max_size (pos (suc (length c.lru))) && same old.hash k
              then none
              else find k c.lru)
    go (some f) there = ground (arith, there, find-detach key k c.lru ne, absent-find key c.lru)
    go none there = ground (
      arith,
      find-absent key c.lru there,
      find-evict_back k (record c { lru = entry ∷ c.lru }) old
          (ground (arith, h, find-absent key c.lru there)) (back_cons entry old c.lru e),
    )
