-- ===== src/Conversation/Invariant.antt =====
-- The size of the conversation map of src/conversation.go: where it stays within its limit, and
-- where it does not.
use umans_dash_go.Prelude.{
  ℕ, zero, suc, ◌+◌, ◌≤◌, ◌<◌, ◌≡◌, refl, ◌≢◌, Bool, true, false, not, ◌&&◌, Option, none, some,
  List, [], ◌∷◌, arith, if◌then◌else◌, Bytes, same, same_iff, same_refl, length, Bool-cases, ◌⊎◌,
  inl, inr, ltb, leb,
}
use umans_dash_go.Conversation.Map.{
  lookup, insert, contains, remove, last, drop_last, lookup-insert, lookup-delete, length-insert,
}
use umans_dash_go.Conversation.{
  Session, Conversations, track, evict, evict_one, make_room, place, conv_map_max, is_some,
  conv_map_evict_target,
}
use umans_dash_go.Conversation.Affinity.{evict_inv}

-- Every session can be evicted: its fingerprint stands in the list.
pub record IsTracked (c : Conversations) : Type 0 where
  pub listed : (fp : Bytes) (s : Session) → lookup fp c.sessions ≡ some s → contains fp c.lru ≡ true

contains-remove_ne :
    (k j : Bytes) (l : List Bytes)
    → contains k l ≡ true
    → same j k ≡ false
    → contains k (remove j l) ≡ true
unfolding contains remove
contains-remove_ne k j [] h ne = cc
contains-remove_ne k j (i ∷ l) h ne =
    ground (arith, contains-remove_ne k j l, same_iff i j, same_iff i k, same_iff j k)

contains-drop_last :
    (k old : Bytes) (l : List Bytes)
    → contains k l ≡ true
    → last l ≡ some old
    → same old k ≡ false
    → contains k (drop_last l) ≡ true
unfolding contains last drop_last
contains-drop_last k old [] h e ne = cc
contains-drop_last k old (i ∷ []) h e ne = ground (arith, same_iff i k, same_iff old k)
contains-drop_last k old (i ∷ j ∷ l) h e ne = ground (arith, contains-drop_last k old (j ∷ l))

evict_one-IsTracked :
    (c : Conversations) (old : Bytes)
    → last c.lru ≡ some old
    → IsTracked c
    → IsTracked (evict_one old c)
evict_one-IsTracked c old e h = record {
  listed = λ fp s at.
      ground
        (arith, lookup-delete old fp c.sessions, h.listed fp s, contains-drop_last fp old c.lru);
}

length-drop_last :
    (l : List Bytes) (old : Bytes) → last l ≡ some old → length (drop_last l) + 1 ≡ length l
unfolding last drop_last
length-drop_last [] old e = cc
length-drop_last (i ∷ []) old e = refl
length-drop_last (i ∷ j ∷ l) old e = omega (arith, length-drop_last (j ∷ l) old e)

last-none : (l : List Bytes) → last l ≡ none → l ≡ []
unfolding last
last-none [] e = refl
last-none (i ∷ []) e = cc
last-none (i ∷ j ∷ l) e = absurd (ground (arith, last-none (j ∷ l) e))

no_length : (l : List Bytes) → length l ≤ 0 → l ≡ []
no_length [] few = refl
no_length (i ∷ l) few = absurd (omega arith)

abbrev IsSettled : ℕ → Conversations → Type 0
IsSettled target c = (length c.sessions ≤ target) ⊎ (c.lru ≡ [])

-- With a round for each listed fingerprint, eviction reaches its target or empties the list.
evict_settles :
    (fuel target : ℕ) (c : Conversations)
    → length c.lru ≤ fuel
    → IsSettled target (evict fuel target c)
unfolding evict
evict_settles zero target c enough = inr (no_length c.lru enough)
evict_settles (suc fuel) target c enough = go (last c.lru) (last-none c.lru) (λ old e.
    evict_settles fuel target (evict_one old c) (omega (arith, length-drop_last c.lru old e)))
  where
    go :
        (o : Option Bytes)
        → (o ≡ none → c.lru ≡ [])
        → ((old : Bytes) → o ≡ some old → IsSettled target (evict fuel target (evict_one old c)))
        → IsSettled target (elim o [
          | none ↦ c
          | some old ↦
              if ltb target (length c.sessions) then evict fuel target (evict_one old c) else c
        ])
    go none empty f = inr (empty refl)
    go (some old) empty f = elim (Bool-cases (ltb target (length c.sessions))) [
      | inl more ↦ rw more (f old refl)
      | inr few ↦ rw few (inl (ground (arith, few)))
    ]

no_sessions : (c : Conversations) → IsTracked c → c.lru ≡ [] → length c.sessions ≡ 0
unfolding contains lookup
no_sessions c h e = go c.sessions refl
  where
    go : (m : List (Bytes × Session)) → c.sessions ≡ m → length m ≡ 0
    go [] at = refl
    go ((k, s) ∷ m) at = absurd (ground (arith, h.listed k s, same_refl k))

evict-IsTracked :
    (fuel target : ℕ) (c : Conversations) → IsTracked c → IsTracked (evict fuel target c)
evict-IsTracked fuel target c h =
    evict_inv IsTracked target (λ d old e more k. evict_one-IsTracked d old e k) fuel c h

-- Where every session can be evicted, a round of evictions gets down to its target.
evict_enough :
    (target : ℕ) (c : Conversations)
    → IsTracked c
    → length (evict (length c.lru) target c).sessions ≤ target
evict_enough target c h = elim (evict_settles (length c.lru) target c (omega arith)) [
  | inl few ↦ few
  | inr empty ↦ omega (arith, no_sessions _ (evict-IsTracked (length c.lru) target c h) empty)
]

make_room-IsTracked : (fp : Bytes) (c : Conversations) → IsTracked c → IsTracked (make_room fp c)
unfolding make_room
make_room-IsTracked fp c h =
    elim (Bool-cases
      (not (is_some (lookup fp c.sessions)) && leb conv_map_max (length c.sessions))) [
        | inl full ↦ rw full (evict-IsTracked (length c.lru) conv_map_evict_target c h)
        | inr room ↦ rw room h
      ]

make_room_bound :
    (fp : Bytes) (c : Conversations)
    → IsTracked c
    → length c.sessions ≤ conv_map_max
    → (length (make_room fp c).sessions < conv_map_max)
      ⊎ ((make_room fp c ≡ c) × (is_some (lookup fp c.sessions) ≡ true))
unfolding make_room
make_room_bound fp c h few = ground (arith, evict_enough conv_map_evict_target c h)

place-IsTracked :
    (fp : Bytes) (s : Session) (c : Conversations)
    → IsTracked c
    → IsTracked (place false fp (record c { sessions = insert fp s c.sessions }))
unfolding place contains
place-IsTracked fp s c h = record {
  listed = λ k t at.
      ground (arith, lookup-insert fp k s c.sessions, h.listed k t, contains-remove_ne k fp c.lru);
}

place-sessions : (b : Bool) (fp : Bytes) (c : Conversations) → (place b fp c).sessions ≡ c.sessions
unfolding place
place-sessions true fp c = refl
place-sessions false fp c = ground arith

insert_bound :
    (fp : Bytes) (s : Session) (c : Conversations)
    → IsTracked c
    → length c.sessions ≤ conv_map_max
    → length (insert fp s (make_room fp c).sessions) ≤ conv_map_max
insert_bound fp s c h few =
    ground (arith, make_room_bound fp c h few, length-insert fp s (make_room fp c).sessions)

-- Where every session can be evicted and the map is within its limit, tracking a session that is
-- not yet touched, as the OpenAI path does, keeps both.
pub track-IsTracked :
    (fp : Bytes) (s : Session) (c : Conversations)
    → IsTracked c
    → length c.sessions ≤ conv_map_max
    → IsTracked (track fp s false c) × (length (track fp s false c).sessions ≤ conv_map_max)
unfolding track
track-IsTracked fp s c h few = elim (Bool-cases (same fp [])) [
  | inl unnamed ↦ rw unnamed (h, few)
  | inr named ↦ rw named (
    place-IsTracked fp s (make_room fp c) (make_room-IsTracked fp c h),
    rw
        (place-sessions false fp
          (record (make_room fp c) { sessions = insert fp s (make_room fp c).sessions }))
        (insert_bound fp s c h few),
  )
]

evict-unlisted : (fuel target : ℕ) (c : Conversations) → c.lru ≡ [] → evict fuel target c ≡ c
unfolding evict last
evict-unlisted zero target c e = refl
evict-unlisted (suc fuel) target c e = rw e refl

-- With nothing listed, tracking a new and non-empty fingerprint as already touched, as the
-- Anthropic path does, makes the map longer by one, whatever its length, and lists nothing.
pub track_touched-grows :
    (fp : Bytes) (s : Session) (c : Conversations)
    → fp ≢ []
    → c.lru ≡ []
    → lookup fp c.sessions ≡ none
    → (length (track fp s true c).sessions ≡ length c.sessions + 1) × ((track fp s true c).lru ≡ [])
unfolding track make_room place
track_touched-grows fp s c named empty new = ground (
  arith,
  same_iff fp [],
  evict-unlisted (length c.lru) conv_map_evict_target c,
  length-insert fp s c.sessions,
)
