-- ===== src/HandoffCache/Tests.antt =====
-- Runs of src/cache.go on a cache of two entries.
use umans_dash_go.Prelude.{
  suc, ◌≡◌, refl, true, ◌&&◌, none, [], ◌∷◌, arith, pos, ltb_ℤ, Bytes, codes, same, length,
  if◌then◌else◌,
}
use umans_dash_go.HandoffCache.{
  Entry, HandoffCache, find, detach, get, set, back, drop_back, evict_back, new_image_handoff_cache,
}
use umans_dash_go.HandoffCache.Recency.{distinct, absent, find-set}
use umans_dash_go.HandoffCache.Bounds.{IsValid, set-IsValid}

abbrev a : Bytes
a = codes "a"

abbrev b : Bytes
b = codes "b"

abbrev entry_a : Entry
entry_a = record { hash = a; desc = codes "cat"; time = 5 }

abbrev entry_b : Entry
entry_b = record { hash = b; desc = codes "dog"; time = 9 }

abbrev full : HandoffCache
full = record (new_image_handoff_cache (pos 2) (pos 100)) { lru = entry_b ∷ entry_a ∷ [] }

-- A third key takes the place of the oldest; a late read takes its entry out.
caches :
    (set 9 b (codes "dog") (set 5 a (codes "cat") (new_image_handoff_cache (pos 2) (pos 100)))
      ≡ full)
    × ((set 10 (codes "c") [] full).evictions ≡ 1)
    × (find a (set 10 (codes "c") [] full).lru ≡ none)
    × ((get 50 a full).0.lru ≡ entry_a ∷ entry_b ∷ [])
    × ((get 500 a full).1 ≡ none)
    × ((get 500 a full).0.misses ≡ 1)
unfolding get set find detach back drop_back evict_back same
caches = (refl, refl, refl, refl, refl, refl)

full_distinct : distinct full.lru ≡ true
unfolding distinct absent same
full_distinct = refl

find-set_example : find b (set 10 (codes "c") [] full).lru ≡ (
    if absent (codes "c") full.lru
      && ltb_ℤ full.max_size (pos (suc (length full.lru)))
      && same entry_a.hash b
    then none
    else find b full.lru)
unfolding back same
find-set_example = find-set 10 (codes "c") b [] full entry_a full_distinct refl refl

full-IsValid : IsValid full
full-IsValid = record { unique = full_distinct; few = omega arith }

set-IsValid_example : IsValid (set 10 (codes "c") [] full)
set-IsValid_example = set-IsValid 10 (codes "c") [] full full-IsValid
