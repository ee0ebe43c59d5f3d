-- ===== src/Admission/Affinity.antt =====
-- Whether a conversation comes back to the key it had, in src/proxy_openai.go and
-- src/proxy_anthropic.go.
use umans_dash_go.Prelude.{
  ℕ, zero, suc, ◌+◌, ◌≡◌, refl, ap, sym, subst, ◌≢◌, true, false, Option, none, some, [], arith, ℤ,
  pos, Bytes, same, same_refl, same_iff, if_split,
}
use umans_dash_go.KeyPool.{KeyPool, KeySlot}
use umans_dash_go.Conversation.Map.{lookup, contains, lookup-insert}
use umans_dash_go.Conversation.{Session, Conversations, touch, track, make_room, place}
use umans_dash_go.Conversation.Affinity.{touch-track, make_room-absent}
use umans_dash_go.Admission.{
  KeyMode, Key, pooled, Tracking, preferred_index, track_openai, track_anthropic, track_admitted,
  admit_openai,
}

-- A touched session was in the index, and stays there.
touch_found :
    (fp : Bytes) (c : Conversations) (s : Session)
    → (touch fp c).1 ≡ some s
    → (contains fp (touch fp c).0.lru_index ≡ true) × (lookup fp (touch fp c).0.sessions ≡ some s)
unfolding touch
touch_found fp c s e = ground (arith, e)

make_room_known :
    (fp : Bytes) (c : Conversations) (s : Session)
    → lookup fp c.sessions ≡ some s
    → make_room fp c ≡ c
unfolding make_room
make_room_known fp c s e = ground (arith, e)

touch-track_known :
    (fp : Bytes) (c : Conversations) (s t : Session)
    → fp ≢ []
    → contains fp c.lru_index ≡ true
    → lookup fp c.sessions ≡ some s
    → (touch fp (track fp t true c)).1 ≡ some t
unfolding touch track place
touch-track_known fp c s t named listed known = ground (
  arith,
  same_iff fp [],
  same_refl fp,
  make_room_known fp c s known,
  lookup-insert fp fp t c.sessions,
)

-- After the tracking of the OpenAI path, the conversation prefers the index that was tracked.
track_openai-touch :
    (fp : Bytes) (index : ℤ) (t : Tracking)
    → fp ≢ []
    → preferred_index
        (touch fp
          (track_openai fp index
            (touch fp t.conversations).1
            (record t { conversations = (touch fp t.conversations).0 })).conversations).1
      ≡ index
unfolding track_openai
track_openai-touch fp index t named = go (touch fp t.conversations).1 refl
  where
    go :
        (o : Option Session)
        → (touch fp t.conversations).1 ≡ o
        → preferred_index
            (touch fp
              (track_openai fp index o
                (record t { conversations = (touch fp t.conversations).0 })).conversations).1
          ≡ index
    go none e = ground (
      arith,
      same_iff fp [],
      touch-track fp
          (record { token_index = index; request_count = 1; sess_num = t.session_counter + 1 })
          (touch fp t.conversations).0 named,
    )
    go (some s) e = ground (
      arith,
      same_iff fp [],
      touch-track_known fp (touch fp t.conversations).0 s
          (record s { token_index = index; request_count = s.request_count + 1 }) named
          (touch_found fp t.conversations s e).0 (touch_found fp t.conversations s e).1,
    )

-- On the OpenAI path a conversation comes back to its key: where a request with a non-empty
-- fingerprint got a slot of the pool, the next request of that fingerprint prefers this slot,
-- whether or not the conversation was known before.
pub admit_openai-touch :
    (now : ℕ) (mode : KeyMode) (client_key fp : Bytes) (t : Tracking) (pool : Option KeyPool)
    (slot : KeySlot)
    → fp ≢ []
    → (admit_openai now mode client_key fp t pool).2 ≡ pooled slot
    → preferred_index (touch fp (admit_openai now mode client_key fp t pool).0.conversations).1
      ≡ pos slot.index
unfolding admit_openai
admit_openai-touch now mode client_key fp t pool slot named e =
    subst
      (λ k.
        preferred_index
          (touch fp
            (track_admitted fp (touch fp t.conversations).1
              (record t { conversations = (touch fp t.conversations).0 }) k).conversations).1
        ≡ pos slot.index)
      (sym e) (track_openai-touch fp (pos slot.index) t named)

-- The sessions that `n` requests of one fingerprint open on the Anthropic path.
abbrev pub requests : ℕ → Bytes → Key → Tracking → Tracking
requests zero fp key t = t
requests (suc n) fp key t = requests n fp key (track_anthropic fp key t)

touch_new :
    (fp : Bytes) (c : Conversations) → contains fp c.lru_index ≡ false → touch fp c ≡ (c, none)
unfolding touch
touch_new fp c new = ground (arith, new)

track_touched-absent :
    (fp : Bytes) (s : Session) (c : Conversations)
    → contains fp c.lru_index ≡ false
    → contains fp (track fp s true c).lru_index ≡ false
unfolding track place
track_touched-absent fp s c new = ground (arith, new, make_room-absent fp fp c new)

track_anthropic_new :
    (fp : Bytes) (key : Key) (t : Tracking)
    → fp ≢ []
    → contains fp t.conversations.lru_index ≡ false
    → (contains fp (track_anthropic fp key t).conversations.lru_index ≡ false)
      × ((track_anthropic fp key t).session_counter ≡ t.session_counter + 1)
unfolding track_anthropic
track_anthropic_new fp key t named new =
    if_split
      (λ (r : Tracking).
        (contains fp r.conversations.lru_index ≡ false)
        × (r.session_counter ≡ t.session_counter + 1))
      (same fp []) _ _ (λ empty. absurd (ground (arith, same_iff fp [])))
      (λ given.
        rw (touch_new fp t.conversations new) (track_touched-absent fp _ t.conversations new, refl))

-- On the Anthropic path a non-empty fingerprint that is not in the index never gets there: each
-- of `n` requests opens a session of its own, and the next touch finds none.
pub requests_count :
    (n : ℕ) (fp : Bytes) (key : Key) (t : Tracking)
    → fp ≢ []
    → contains fp t.conversations.lru_index ≡ false
    → ((requests n fp key t).session_counter ≡ t.session_counter + n)
      × ((touch fp (requests n fp key t).conversations).1 ≡ none)
requests_count zero fp key t named new = (
  omega arith,
  ap (λ (r : Conversations × Option Session). r.1) (touch_new fp t.conversations new),
)
requests_count (suc n) fp key t named new =
    let (absent, counted) = track_anthropic_new fp key t named new in
    let (count, unknown) = requests_count n fp key (track_anthropic fp key t) named absent in
    (omega (arith, count, counted), unknown)
