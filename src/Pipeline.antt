-- ===== src/Pipeline.antt =====
-- What `proxyChatRequest` of src/proxy_openai.go (steps 3 to 11) and `proxyAnthropicRequest` of
-- src/proxy_anthropic.go (steps 4 to 6) do to the payload before it is sent upstream.
pub mod Kept
pub mod Prepared
mod Tests
use umans_dash_go.Prelude.{
  ℕ, Bool, true, false, Option, none, some, List, if◌then◌else◌, ℤ, Bytes, codes,
}
use umans_dash_go.Json.{Json, Items, Fields, nil, cons, arr, str, arr_at, put}
use umans_dash_go.Payload.{strip_reasoning_content, apply_auto_think, normalize_thinking_payload}
use umans_dash_go.Schema.{normalize_tool_schemas}
use umans_dash_go.Images.{ImgPart, limit_images_in_messages}
use umans_dash_go.Catalog.{Catalog, Model, resolve_model_id, needs_vision_handoff, find_model}
use umans_dash_go.HandoffCache.{HandoffCache}
use umans_dash_go.Vision.Handoff.{Calls, Handoff, perform_vision_handoff}

abbrev pub model_key : Bytes
model_key = codes "model"

abbrev pub tools_key : Bytes
tools_key = codes "tools"

unfoldable pub set_model : Bytes → Fields → Fields
set_model resolved payload = put model_key (str resolved) payload

-- `ModelInfoMap[resolvedModel]`, where the model is known.
unfoldable pub think_of : List Model → Bytes → Fields → Fields
think_of models resolved payload = elim (find_model resolved models) [
  | none ↦ payload
  | some m ↦ elim m.info.capabilities.reasoning [
    | none ↦ payload
    | some reasoning ↦ apply_auto_think reasoning payload
  ]
]

-- What the handler has of the proxy and of the outside: the catalogue, the sorts, the limit of the images
-- as read under the lock, what the tool schemas need, and the vision handoff with its key.
pub record Setting : Type 0 where
  pub catalog : Catalog
  pub to_lower : Bytes → Bytes
  pub sort_slice : (Bytes → Bytes → Bool) → List Bytes → List Bytes
  pub sort_parts : List ImgPart → List ImgPart
  pub max_images : ℤ
  pub trim : Bytes → Bytes
  pub marshal : Json → Bytes
  pub unmarshal : Bytes → Fields
  pub calls : Calls
  pub handoff : Handoff
  pub api_key : Bytes
  pub times : ℕ → ℕ × ℕ

module _ (s : Setting) where
  -- Without a tool there is nothing to normalise.
  unfoldable pub normalize_tools : Fields → Fields
  normalize_tools payload = elim (arr_at tools_key payload) [
    | none ↦ payload
    | some nil ↦ payload
    | some (cons t ts) ↦
        put tools_key (arr (normalize_tool_schemas s.trim s.marshal s.unmarshal (cons t ts)))
          payload
  ]

  unfoldable pub resolved_of : Bytes → Bytes
  resolved_of model = resolve_model_id s.to_lower s.sort_slice s.catalog model

  unfoldable pub limit_unless : Bool → Fields → Fields
  limit_unless needed payload =
      if needed then payload else limit_images_in_messages s.sort_parts s.max_images payload

  -- The handoff is called where it is needed, and asks again whether it is.
  unfoldable pub hand_off : Bool → Fields → Option HandoffCache → Fields × Option HandoffCache
  hand_off needed payload cache =
      let done = perform_vision_handoff s.calls s.handoff s.api_key s.times needed payload cache in
      if needed then (done.0, done.1) else (payload, cache)

  unfoldable pub prepare_openai :
      Bytes → Fields → Option HandoffCache → Fields × Option HandoffCache
  prepare_openai model payload cache =
      let resolved = resolved_of model in
      let needed = needs_vision_handoff s.catalog resolved in
      let named = set_model resolved (strip_reasoning_content payload) in
      let limited = limit_unless needed (normalize_tools named) in
      hand_off needed (normalize_thinking_payload (think_of s.catalog.models resolved limited))
        cache

  unfoldable pub prepare_anthropic :
      Bytes → Fields → Option HandoffCache → Fields × Option HandoffCache
  prepare_anthropic model payload cache =
      let resolved = resolved_of model in
      let needed = needs_vision_handoff s.catalog resolved in
      hand_off needed
        (limit_unless needed (set_model resolved (normalize_thinking_payload payload))) cache
