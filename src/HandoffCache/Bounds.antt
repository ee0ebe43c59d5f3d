-- ===== src/HandoffCache/Bounds.antt =====
-- How many entries the cache of src/cache.go holds.
use umans_dash_go.Prelude.{
  ℕ, suc, ◌+◌, ◌≤◌, ◌≡◌, refl, ◌≢◌, true, Option, none, some, List, [], ◌∷◌, arith, ltb_ℤ, ◌≤ℤ◌, ℤ,
  pos, since, if◌then◌else◌, Bytes, length, Bool-cases, Option-cases, inl, inr,
}
use umans_dash_go.HandoffCache.{
  Entry, HandoffCache, find, detach, get, set, back, drop_back, evict_back, resize,
}
use umans_dash_go.HandoffCache.Recency.{
  distinct, distinct-detach, find_hash, find-absent, distinct-drop_back,
}

length-detach :
    (key : Bytes) (es : List Entry) (e : Entry)
    → find key es ≡ some e
    → length (detach key es) + 1 ≡ length es
unfolding find detach
length-detach key [] e at = cc
length-detach key (f ∷ es) e at = ground (arith, length-detach key es e)

length-drop_back : (e : Entry) (es : List Entry) → length (drop_back (e ∷ es)) ≡ length es
unfolding drop_back
length-drop_back e [] = refl
length-drop_back e (f ∷ es) = ground (arith, length-drop_back f es)

back_some : (e : Entry) (es : List Entry) → back (e ∷ es) ≢ none
unfolding back
back_some e [] h = cc
back_some e (f ∷ es) h = back_some f es h

length-evict_back :
    (e : Entry) (es : List Entry) (c : HandoffCache)
    → length (evict_back (record c { lru = e ∷ es })).lru
      ≡ (if ltb_ℤ c.max_size (pos (suc (length es))) then length es else suc (length es))
unfolding evict_back
length-evict_back e es c =
    ground (arith, length-drop_back e es, back_some e es, Option-cases (back (e ∷ es)))

abbrev stored : ℕ → Bytes → Bytes → Entry
stored now key desc = record { hash = key; desc = desc; time = now }

-- Every hash stands once, and there are no more entries than the maximal size.
pub record IsValid (c : HandoffCache) : Type 0 where
  pub unique : distinct c.lru ≡ true
  pub few : pos (length c.lru) ≤ℤ c.max_size

evict_back-distinct :
    (c : HandoffCache) → distinct c.lru ≡ true → distinct (evict_back c).lru ≡ true
unfolding evict_back
evict_back-distinct c h = ground (arith, distinct-drop_back c.lru h, Option-cases (back c.lru))

evict_back-max_size : (c : HandoffCache) → (evict_back c).max_size ≡ c.max_size
unfolding evict_back
evict_back-max_size c = ground (arith, Option-cases (back c.lru))

-- What holds of both endings of `Set` holds of it.
set_cases {ℓ} :
    (P : HandoffCache → Type ℓ) (now : ℕ) (key desc : Bytes) (c : HandoffCache)
    → ((e : Entry)
        → find key c.lru ≡ some e
        → P (record c { lru = stored now key desc ∷ detach key c.lru }))
    → (find key c.lru ≡ none → P (evict_back (record c { lru = stored now key desc ∷ c.lru })))
    → P (set now key desc c)
unfolding set
set_cases P now key desc c replaced added = go (find key c.lru) replaced added
  where
    go :
        (o : Option Entry)
        → ((e : Entry) → o ≡ some e → P (record c { lru = stored now key desc ∷ detach key c.lru }))
        → (o ≡ none → P (evict_back (record c { lru = stored now key desc ∷ c.lru })))
        → P (elim o as (λ _. HandoffCache) [
          | some e ↦ record c { lru = stored now key desc ∷ detach key c.lru }
          | none ↦ evict_back (record c { lru = stored now key desc ∷ c.lru })
        ])
    go (some e) f g = f e refl
    go none f g = g refl

replaced-IsValid :
    (now : ℕ) (key desc : Bytes) (c : HandoffCache) (e : Entry)
    → IsValid c
    → find key c.lru ≡ some e
    → IsValid (record c { lru = stored now key desc ∷ detach key c.lru })
unfolding distinct
replaced-IsValid now key desc c e h at = record {
  unique = ground (arith, distinct-detach key c.lru h.unique);
  few = omega (arith, h.few, length-detach key c.lru e at);
}

added-IsValid :
    (now : ℕ) (key desc : Bytes) (c : HandoffCache)
    → IsValid c
    → find key c.lru ≡ none
    → IsValid (evict_back (record c { lru = stored now key desc ∷ c.lru }))
unfolding distinct
added-IsValid now key desc c h new = record {
  unique =
      evict_back-distinct (record c { lru = stored now key desc ∷ c.lru })
        (ground (arith, h.unique, find-absent key c.lru));
  few = ground (
    arith,
    h.few,
    length-evict_back (stored now key desc) c.lru c,
    evict_back-max_size (record c { lru = stored now key desc ∷ c.lru }),
  );
}

-- `Set` keeps a cache within its maximal size, with each hash once, where it was so before.
pub set-IsValid :
    (now : ℕ) (key desc : Bytes) (c : HandoffCache) → IsValid c → IsValid (set now key desc c)
set-IsValid now key desc c h =
    set_cases IsValid now key desc c (λ e at. replaced-IsValid now key desc c e h at)
      (λ new. added-IsValid now key desc c h new)

abbrev reply : ℕ → Bytes → HandoffCache → Option Entry → HandoffCache × Option Bytes
reply now key c none = (record c { misses = c.misses + 1 }, none)
reply now key c (some e) =
    if ltb_ℤ c.ttl (pos (since now e.time))
    then (record c { lru = detach key c.lru; misses = c.misses + 1 }, none)
    else (record c { lru = e ∷ detach key c.lru; hits = c.hits + 1 }, some e.desc)

-- `Get` keeps a cache within its maximal size, with each hash once, where it was so before, and
-- counts one hit or one miss.
pub get-IsValid :
    (now : ℕ) (key : Bytes) (c : HandoffCache)
    → IsValid c
    → IsValid (get now key c).0
      × ((get now key c).0.hits + (get now key c).0.misses ≡ suc (c.hits + c.misses))
unfolding get distinct
get-IsValid now key c h = go (find key c.lru) refl
  where
    go :
        (o : Option Entry)
        → find key c.lru ≡ o
        → IsValid (reply now key c o).0
          × ((reply now key c o).0.hits + (reply now key c o).0.misses ≡ suc (c.hits + c.misses))
    go none at = (record { unique = h.unique; few = h.few }, omega arith)
    go (some e) at = elim (Bool-cases (ltb_ℤ c.ttl (pos (since now e.time)))) [
      | inl late ↦ rw late (
        record {
          unique = (distinct-detach key c.lru h.unique).0;
          few = omega (arith, h.few, length-detach key c.lru e at);
        },
        omega arith,
      )
      | inr fresh ↦ rw fresh (
        record {
          unique = ground (arith, distinct-detach key c.lru h.unique, find_hash key c.lru e at);
          few = omega (arith, h.few, length-detach key c.lru e at);
        },
        omega arith,
      )
    ]

-- `Set` evicts one entry at most: however far `Resize` has lowered the maximal size below the number of
-- entries, no later `Set` has fewer entries than there were.
pub set-resize :
    (now : ℕ) (key desc : Bytes) (max_size ttl : ℤ) (c : HandoffCache)
    → length c.lru ≤ length (set now key desc (resize max_size ttl c)).lru
set-resize now key desc max_size ttl c =
    set_cases (λ d. length c.lru ≤ length d.lru) now key desc (resize max_size ttl c)
      (λ e at. omega (arith, length-detach key c.lru e at))
      (λ new. ground (arith, length-evict_back (stored now key desc) c.lru (resize max_size ttl c)))
