-- ===== src/Payload/Tests.antt =====
-- Runs of the rewriting of payloads.
use umans_dash_go.Prelude.{◌≡◌, refl, some, Bytes, codes, same}
use umans_dash_go.Json.{
  Json, Items, Fields, num, str, arr, obj, nil, cons, end, field, member, arr_at, obj_at,
  append_items,
}
use umans_dash_go.Payload.{
  messages_key, thinking_key, camel_key, first_user, user_text, msg_text, content_text,
  fingerprint_payload,
}
use umans_dash_go.Payload.Fingerprint.{fingerprint_payload_grows}

abbrev message : Bytes → Bytes → Json
message role text = obj (
    field (codes "role") (str role) (
      field (codes "content") (str text)
        (field (codes "reasoning_content") (str (codes "hm")) end)))

abbrev question : Items
question = cons (message (codes "user") (codes "hi")) nil

abbrev answer : Items
answer = cons (message (codes "assistant") (codes "yes")) nil

abbrev chat : Items → Fields
chat ms = field messages_key (arr ms) end

abbrev thinks : Fields
thinks = field thinking_key (obj (field camel_key (num (codes "8000")) end)) end

messages_of_chat : (ms : Items) → arr_at messages_key (chat ms) ≡ some ms
unfolding member same
messages_of_chat ms = refl

thinking_of : obj_at thinking_key thinks ≡ some (field camel_key (num (codes "8000")) end)
unfolding member same
thinking_of = refl

asked : first_user question ≡ some (codes "hi")
unfolding first_user user_text msg_text content_text member same
asked = refl

-- With the text for its hash.
fingerprint_payload_grows_example :
    fingerprint_payload (λ text. text) (chat (append_items question answer))
    ≡ fingerprint_payload (λ text. text) (chat question)
fingerprint_payload_grows_example =
    fingerprint_payload_grows (λ text. text) (chat question) (chat (append_items question answer))
      question answer (codes "hi") (messages_of_chat question)
      (messages_of_chat (append_items question answer)) asked
