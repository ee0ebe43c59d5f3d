-- ===== src/Payload/Strip.antt =====
-- What `StripReasoningContent` and `NormalizeThinkingPayload` of src/normalize.go leave of a payload.
use umans_dash_go.Prelude.{
  ◌≡◌, refl, true, false, ◌||◌, Option, none, some, arith, if◌then◌else◌, Bytes, codes, same,
  same_iff, Bool-cases, inl, inr, [],
}
use umans_dash_go.Json.{
  Json, Items, Fields, null, bool, num, str, arr, obj, nil, cons, member, put, drop_key, as_obj,
  obj_at, arr_at, map_items,
}
use umans_dash_go.Json.Laws.{member-put, member-drop_key}
use umans_dash_go.Payload.{
  strip_message, strip_reasoning_content, is_role, messages_key, rename_budget,
  normalize_thinking_payload, snake_key, camel_key, thinking_key,
}

-- The fields of `after` are those of `before` without the two keys of the reasoning.
abbrev pub Cleared : Fields → Fields → Type 0
Cleared before after =
    (k : Bytes)
    → member k after ≡ (
        if same (codes "reasoning_content") k || same (codes "reasoningContent") k
        then none
        else member k before)

-- One message before and after: an assistant's is cleared, any other value is kept.
pub data Stripped : Json → Json → Type 0 where
  kept :
      (v : Json)
      → (elim (as_obj v) [ none ↦ false | some m ↦ is_role (codes "assistant") m ]) ≡ false
      → Stripped v v
  cleared :
      (before after : Fields)
      → is_role (codes "assistant") before ≡ true
      → Cleared before after
      → Stripped (obj before) (obj after)

abbrev pub StrippedAll : Items → Items → Type 0
StrippedAll nil nil = Unit {0}
StrippedAll nil (cons w ws) = ⊥
StrippedAll (cons v vs) nil = ⊥
StrippedAll (cons v vs) (cons w ws) = Stripped v w × StrippedAll vs ws

drop_both :
    (m : Fields)
    → Cleared m (drop_key (codes "reasoningContent") (drop_key (codes "reasoning_content") m))
drop_both m k = ground (
  arith,
  member-drop_key (codes "reasoningContent") k (drop_key (codes "reasoning_content") m),
  member-drop_key (codes "reasoning_content") k m,
)

strip_message-Stripped : (v : Json) → Stripped v (strip_message v)
unfolding strip_message
strip_message-Stripped null = kept null refl
strip_message-Stripped (bool b) = kept (bool b) refl
strip_message-Stripped (num n) = kept (num n) refl
strip_message-Stripped (str s) = kept (str s) refl
strip_message-Stripped (arr xs) = kept (arr xs) refl
strip_message-Stripped (obj m) = elim (Bool-cases (is_role (codes "assistant") m)) [
  | inl assistant ↦ rw assistant (cleared m _ assistant (drop_both m))
  | inr other ↦ rw other (kept (obj m) other)
]

map_items-StrippedAll : (ms : Items) → StrippedAll ms (map_items strip_message ms)
unfolding map_items
map_items-StrippedAll nil = tt
map_items-StrippedAll (cons v ms) = (strip_message-Stripped v, map_items-StrippedAll ms)

-- Each message of an assistant loses its two fields of reasoning and nothing else, every other message
-- and every other field of the payload stays as it was.
pub strip_reasoning_content_lem :
    (payload : Fields) (ms : Items)
    → arr_at messages_key payload ≡ some ms
    → (ms' : Items) × (arr_at messages_key (strip_reasoning_content payload) ≡ some ms')
      × StrippedAll ms ms'
      × ((k : Bytes)
          → same messages_key k ≡ false
          → member k (strip_reasoning_content payload) ≡ member k payload)
unfolding strip_reasoning_content
strip_reasoning_content_lem payload ms e = (
  map_items strip_message ms,
  ground (
    arith,
    e,
    member-put messages_key messages_key (arr (map_items strip_message ms)) payload,
    same_iff messages_key messages_key,
  ),
  map_items-StrippedAll ms,
  λ k ne. ground (arith, e, member-put messages_key k (arr (map_items strip_message ms)) payload),
)

abbrev pub or_budget : Option Json → Option Json → Option Json
or_budget none w = w
or_budget (some v) w = some v

keys_differ : (same camel_key snake_key ≡ false) × (same snake_key camel_key ≡ false)
unfolding same
keys_differ = (refl, refl)

member-rename_budget :
    (k : Bytes) (t : Fields)
    → (member snake_key (rename_budget t) ≡ or_budget (member snake_key t) (member camel_key t))
      × (same camel_key k ≡ false
          → same snake_key k ≡ false
          → member k (rename_budget t) ≡ member k t)
unfolding rename_budget
member-rename_budget k t = (
  ground (
    arith,
    keys_differ,
    same_iff snake_key snake_key,
    dropped snake_key (value (member camel_key t)),
    written snake_key (value (member camel_key t)),
  ),
  λ camel snake.
      ground
        (arith, dropped k (value (member camel_key t)), written k (value (member camel_key t))),
)
  where
    value : Option Json → Json
    value none = null
    value (some v) = v

    dropped :
        (j : Bytes) (v : Json)
        → member j (drop_key camel_key (put snake_key v t))
          ≡ (if same camel_key j then none else member j (put snake_key v t))
    dropped j v = member-drop_key camel_key j (put snake_key v t)

    written :
        (j : Bytes) (v : Json)
        → member j (put snake_key v t) ≡ (if same snake_key j then some v else member j t)
    written j v = member-put snake_key j v t

-- The budget of `thinking` is read under its snake-case name afterwards, from that field or else from the
-- camel-case one; every field of `thinking` but these two and every other field of the payload stays.
pub normalize_thinking_payload_lem :
    (payload t : Fields)
    → obj_at thinking_key payload ≡ some t
    → (t' : Fields) × (obj_at thinking_key (normalize_thinking_payload payload) ≡ some t')
      × (member snake_key t' ≡ or_budget (member snake_key t) (member camel_key t))
      × ((k : Bytes)
          → same camel_key k ≡ false
          → same snake_key k ≡ false
          → member k t' ≡ member k t)
      × ((k : Bytes)
          → same thinking_key k ≡ false
          → member k (normalize_thinking_payload payload) ≡ member k payload)
unfolding normalize_thinking_payload
normalize_thinking_payload_lem payload t e = (
  rename_budget t,
  ground (
    arith,
    e,
    member-put thinking_key thinking_key (obj (rename_budget t)) payload,
    same_iff thinking_key thinking_key,
  ),
  (member-rename_budget [] t).0,
  λ k. (member-rename_budget k t).1,
  λ k ne. ground (arith, e, member-put thinking_key k (obj (rename_budget t)) payload),
)
