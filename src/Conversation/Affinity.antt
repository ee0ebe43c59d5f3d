-- ===== src/Conversation/Affinity.antt =====
-- Key affinity in src/conversation.go: when a tracked session is found again. The OpenAI path tracks
-- a new session with `alreadyTouched` false, the Anthropic path (src/proxy_anthropic.go) with true.
use umans_dash_go.Prelude.{
  ℕ, zero, suc, ◌<◌, ◌≡◌, refl, ◌≢◌, true, false, Option, none, some, List, [], ◌∷◌, arith,
  if◌then◌else◌, Bytes, same_iff, same_refl, length, Bool-cases, inl, inr, ltb, ltb→lt,
}
use umans_dash_go.Conversation.Map.{contains, remove, last, lookup-insert}
use umans_dash_go.Conversation.{
  Session, Conversations, touch, track, evict, evict_one, make_room, place,
}

contains-remove_absent :
    (k j : Bytes) (l : List Bytes) → contains k l ≡ false → contains k (remove j l) ≡ false
unfolding contains remove
contains-remove_absent k j [] h = refl
contains-remove_absent k j (i ∷ l) h = ground (arith, contains-remove_absent k j l)

-- Eviction keeps what each of its rounds keeps.
pub evict_inv {ℓ} :
    (P : Conversations → Type ℓ) (target : ℕ)
    → ((c : Conversations) (old : Bytes)
        → last c.lru ≡ some old
        → target < length c.sessions
        → P c
        → P (evict_one old c))
    → (fuel : ℕ) (c : Conversations) → P c
    → P (evict fuel target c)
unfolding evict
evict_inv P target keep zero c h = h
evict_inv P target keep (suc fuel) c h =
    go (last c.lru)
      (λ old e more. evict_inv P target keep fuel (evict_one old c) (keep c old e more h))
  where
    go :
        (o : Option Bytes)
        → ((old : Bytes)
            → o ≡ some old
            → target < length c.sessions
            → P (evict fuel target (evict_one old c)))
        → P (elim o [
          | none ↦ c
          | some old ↦
              if ltb target (length c.sessions) then evict fuel target (evict_one old c) else c
        ])
    go none f = h
    go (some old) f = elim (Bool-cases (ltb target (length c.sessions))) [
      | inl more ↦ rw more (f old refl (ltb→lt _ _ more))
      | inr few ↦ rw few h
    ]

-- Eviction adds nothing to the index.
evict-absent :
    (fuel target : ℕ) (fp : Bytes) (c : Conversations)
    → contains fp c.lru_index ≡ false
    → contains fp (evict fuel target c).lru_index ≡ false
evict-absent fuel target fp c h =
    evict_inv (λ d. contains fp d.lru_index ≡ false) target
      (λ d old e more k. contains-remove_absent fp old d.lru_index k) fuel c h

pub make_room-absent :
    (fp k : Bytes) (c : Conversations)
    → contains k c.lru_index ≡ false
    → contains k (make_room fp c).lru_index ≡ false
unfolding make_room
make_room-absent fp k c h = ground (arith, evict-absent (length c.lru) 8_000 k c h)

-- A session tracked under a non-empty fingerprint without `alreadyTouched` is found by the next
-- touch, whatever had to be evicted.
pub touch-track :
    (fp : Bytes) (s : Session) (c : Conversations)
    → fp ≢ []
    → (touch fp (track fp s false c)).1 ≡ some s
unfolding touch track place contains
touch-track fp s c named =
    ground (arith, same_iff fp [], same_refl fp, lookup-insert fp fp s (make_room fp c).sessions)

-- A session that is tracked as already touched under a fingerprint that is not in the index, as
-- the Anthropic path does with a new one, is not found by the next touch.
pub touch-track_touched :
    (fp : Bytes) (s : Session) (c : Conversations)
    → contains fp c.lru_index ≡ false
    → (touch fp (track fp s true c)).1 ≡ none
unfolding touch track place
touch-track_touched fp s c new = ground (arith, make_room-absent fp fp c)
