-- ===== src/Conversation/Tests.antt =====
-- Runs of src/conversation.go on a map of one conversation.
use umans_dash_go.Prelude.{
  ℕ, ◌≡◌, ◌≤◌, refl, ◌≢◌, false, none, [], ◌∷◌, arith, pos, codes, same, same_iff, length,
}
use umans_dash_go.Conversation.Map.{lookup, contains, insert, remove}
use umans_dash_go.Conversation.{
  Session, Conversations, touch, track, conv_map_max, make_room, place,
}
use umans_dash_go.Conversation.Invariant.{IsTracked, track-IsTracked}

abbrev first_session : Session
first_session = record { token_index = pos 1; request_count = 0; sess_num = 4 }

abbrev nobody : Conversations
nobody = record { sessions = []; lru = []; lru_index = [] }

abbrev one : Conversations
one = record {
  sessions = (codes "f", first_session) ∷ [];
  lru = codes "f" ∷ [];
  lru_index = codes "f" ∷ [];
}

-- Tracking adds the conversation once, and touching it moves it to the front.
conversations :
    (track (codes "f") first_session false nobody ≡ one)
    × (track (codes "f") first_session false one ≡ one)
    × ((track (codes "g") first_session false one).lru ≡ codes "g" ∷ codes "f" ∷ [])
    × ((touch (codes "g") one).1 ≡ none)
unfolding track touch make_room place lookup insert contains remove same
conversations = (refl, refl, refl, refl)

one-IsTracked : IsTracked one
unfolding lookup contains
one-IsTracked = record {
  listed = λ fp s at. ground (arith, same_iff (codes "f") fp, same_iff fp (codes "f"));
}

named : (c : ℕ) → (c ∷ [] ≢ [])
named c e = ground arith

track-IsTracked_example :
    IsTracked (track (codes "g") first_session false one)
    × (length (track (codes "g") first_session false one).sessions ≤ conv_map_max)
track-IsTracked_example = track-IsTracked (codes "g") first_session one one-IsTracked (omega arith)
