-- ===== src/Payload/Fingerprint.antt =====
-- The fingerprint of src/normalize.go that ties a conversation to its key.
use umans_dash_go.Prelude.{
  ◌≡◌, refl, ◌∙◌, ap, true, false, Option, none, some, [], arith, Bytes, codes, same, same_iff,
  Option-cases, inl, inr,
}
use umans_dash_go.Json.{
  Json, Items, Fields, null, bool, num, str, arr, obj, nil, cons, member, drop_key, arr_at, text_at,
  map_items, append_items,
}
use umans_dash_go.Json.Laws.{member-put, member-drop_key}
use umans_dash_go.Payload.{
  strip_message, strip_reasoning_content, messages_key, first_user, last_user, user_text,
  fingerprint_payload, extract_user_prompt,
}

first_user-append :
    (ms more : Items) (text : Bytes)
    → first_user ms ≡ some text
    → first_user (append_items ms more) ≡ some text
unfolding first_user append_items
first_user-append nil more text e = cc e
first_user-append (cons v ms) more text e = ground (arith, first_user-append ms more text)

-- A conversation keeps its fingerprint as it grows: with a message of the user among its messages,
-- whatever messages follow them, and whatever the other fields are.
pub fingerprint_payload_grows :
    (md5_hash : Bytes → Bytes) (before after : Fields) (ms more : Items) (text : Bytes)
    → arr_at messages_key before ≡ some ms
    → arr_at messages_key after ≡ some (append_items ms more)
    → first_user ms ≡ some text
    → fingerprint_payload md5_hash after ≡ fingerprint_payload md5_hash before
unfolding fingerprint_payload
fingerprint_payload_grows md5_hash before after ms more text b a u =
    ground (arith, a, b, u, first_user-append ms more text u)

role_kept :
    (m : Fields)
    → member
        (codes "role")
        (drop_key (codes "reasoningContent") (drop_key (codes "reasoning_content") m))
      ≡ member (codes "role") m
unfolding same
role_kept m =
    member-drop_key (codes "reasoningContent") (codes "role")
      (drop_key (codes "reasoning_content") m)
    ∙ member-drop_key (codes "reasoning_content") (codes "role") m

not_both : (s : Bytes) → same s (codes "assistant") ≡ true → same s (codes "user") ≡ false
unfolding same
not_both s e = ground (arith, same_iff s (codes "assistant"), same_iff s (codes "user"))

user_text-strip : (v : Json) → user_text (strip_message v) ≡ user_text v
unfolding user_text strip_message
user_text-strip null = refl
user_text-strip (bool b) = refl
user_text-strip (num n) = refl
user_text-strip (str s) = refl
user_text-strip (arr xs) = refl
user_text-strip (obj m) = ground (arith, role_kept m, not_both (text_at (codes "role") m))

first_user-strip : (ms : Items) → first_user (map_items strip_message ms) ≡ first_user ms
unfolding first_user map_items
first_user-strip nil = refl
first_user-strip (cons v ms) = ground (arith, user_text-strip v, first_user-strip ms)

last_user-strip :
    (text : Bytes) (ms : Items) → last_user text (map_items strip_message ms) ≡ last_user text ms
unfolding last_user map_items
last_user-strip text nil = refl
last_user-strip text (cons v ms) =
    last_user-strip (newer (user_text (strip_message v))) ms
    ∙ ap (λ o. last_user (newer o) ms) (user_text-strip v)
  where
    newer : Option Bytes → Bytes
    newer o = elim o [ none ↦ text | some t ↦ t ]

messages-strip :
    (payload : Fields) (ms : Items)
    → arr_at messages_key payload ≡ some ms
    → arr_at messages_key (strip_reasoning_content payload) ≡ some (map_items strip_message ms)
unfolding strip_reasoning_content
messages-strip payload ms e = ground (
  arith,
  e,
  member-put messages_key messages_key (arr (map_items strip_message ms)) payload,
  same_iff messages_key messages_key,
)

no_messages-strip :
    (payload : Fields)
    → arr_at messages_key payload ≡ none
    → strip_reasoning_content payload ≡ payload
unfolding strip_reasoning_content
no_messages-strip payload e = ground (arith, e)

-- Stripping the reasoning changes neither the fingerprint of a payload nor the prompt taken from it.
pub fingerprint_payload-strip :
    (md5_hash strip_prefix : Bytes → Bytes) (payload : Fields)
    → (fingerprint_payload md5_hash (strip_reasoning_content payload)
        ≡ fingerprint_payload md5_hash payload)
      × (extract_user_prompt strip_prefix (strip_reasoning_content payload)
          ≡ extract_user_prompt strip_prefix payload)
unfolding fingerprint_payload extract_user_prompt
fingerprint_payload-strip md5_hash strip_prefix payload =
    elim (Option-cases (arr_at messages_key payload)) [
      | inl absent ↦ (cc (no_messages-strip payload absent), cc (no_messages-strip payload absent))
      | inr (ms, e) ↦ (
        ground (arith, messages-strip payload ms e, e, first_user-strip ms),
        ground (arith, messages-strip payload ms e, e, last_user-strip [] ms),
      )
    ]
