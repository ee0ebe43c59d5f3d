-- ===== src/Conversation.antt =====
-- src/conversation.go: sessions by fingerprint, with a list of fingerprints by recent use.
-- `conversationMap` is an association list. `convLRUIndex` maps a fingerprint to its element of
-- `convLRU`, whose value is that fingerprint: it is the list of its keys, and an element of the list
-- is known by its value. The maps are created lazily, so an empty map stands for nil.
pub mod Map
pub mod Invariant
pub mod Affinity
mod Tests
use umans_dash_go.Prelude.{
  ℕ, zero, suc, ◌+◌, ◌≤◌, ◌≡◌, refl, Bool, true, false, not, ◌&&◌, ◌||◌, Option, none, some, List,
  [], ◌∷◌, ◌++◌, ltb, leb, ◌==◌, if◌then◌else◌, ℤ, pos, Bytes, same, length,
}
use Map.{lookup, insert, delete, contains, remove, last, drop_last}

abbrev pub conv_map_max : ℕ
conv_map_max = 10_000

abbrev pub conv_map_evict_target : ℕ
conv_map_evict_target = 8_000

pub record Session : Type 0 where
  pub token_index : ℤ
  pub request_count : ℕ
  pub sess_num : ℕ

pub record Conversations : Type 0 where
  pub sessions : List (Bytes × Session)
  pub lru : List Bytes
  pub lru_index : List Bytes

abbrev pub move_to_front : Bytes → List Bytes → List Bytes
move_to_front fp lru = fp ∷ remove fp lru

-- `TouchConversation`.
unfoldable pub touch : Bytes → Conversations → Conversations × Option Session
touch fp c =
    if same fp []
    then (c, none)
    else if not (contains fp c.lru_index)
    then (c, none)
    else (record c { lru = move_to_front fp c.lru }, lookup fp c.sessions)

-- One round of the eviction loop: the least recently used fingerprint goes out of all three.
abbrev pub evict_one : Bytes → Conversations → Conversations
evict_one old c = record {
  sessions = delete old c.sessions;
  lru = drop_last c.lru;
  lru_index = remove old c.lru_index;
}

-- The eviction loop, down to `target` sessions; the fuel bounds the rounds.
unfoldable pub evict : ℕ → ℕ → Conversations → Conversations
evict zero target c = c
evict (suc fuel) target c = elim (last c.lru) [
  | none ↦ c
  | some old ↦
      let rest = evict fuel target (evict_one old c) in
      if ltb target (length c.sessions) then rest else c
]

abbrev pub is_some : Option Session → Bool
is_some none = false
is_some (some s) = true

unfoldable pub make_room : Bytes → Conversations → Conversations
make_room fp c =
    if not (is_some (lookup fp c.sessions)) && leb conv_map_max (length c.sessions)
    then evict (length c.lru) conv_map_evict_target c
    else c

unfoldable pub place : Bool → Bytes → Conversations → Conversations
place true fp c = c
place false fp c =
    if contains fp c.lru_index
    then record c { lru = move_to_front fp c.lru }
    else record c { lru = fp ∷ c.lru; lru_index = fp ∷ c.lru_index }

-- `TrackConversationSession`.
unfoldable pub track : Bytes → Session → Bool → Conversations → Conversations
track fp session already_touched c =
    if same fp []
    then c
    else (let room = make_room fp c in
        place already_touched fp (record room { sessions = insert fp session room.sessions }))
