-- ===== src/Payload.antt =====
-- The rewriting of request payloads in src/normalize.go: `StripReasoningContent`,
-- `NormalizeThinkingPayload`, `ApplyAutoThink`, `FingerprintPayload`, `MsgText`, `ExtractUserPrompt` and
-- the reasoning helpers. The code writes into the payload; each function here returns the new one.
-- `strings.TrimSpace`, `strings.Fields`, the MD5 hash and the regular expression are parameters.
pub mod Strip
pub mod Fingerprint
mod Tests
use umans_dash_go.Prelude.{
  ℕ, zero, suc, ◌+◌, ◌≡◌, Bool, true, false, not, ◌&&◌, ◌||◌, Option, none, some, List, [], ◌∷◌,
  ◌++◌, ltb, if◌then◌else◌, Bytes, codes, same, length, take,
}
use umans_dash_go.Json.{
  Json, Items, Fields, null, bool, num, str, arr, obj, nil, cons, end, field, member, put, drop_key,
  has, as_obj, as_arr, as_str, as_bool, obj_at, arr_at, str_at, bool_at, text_at, map_items,
  count_fields,
}

abbrev pub messages_key : Bytes
messages_key = codes "messages"

abbrev pub is_role : Bytes → Fields → Bool
is_role role m = same (text_at (codes "role") m) role

-- `StripReasoningContent` on one message.
unfoldable pub strip_message : Json → Json
strip_message v = elim (as_obj v) [
  | none ↦ v
  | some m ↦
      if is_role (codes "assistant") m
      then obj (drop_key (codes "reasoningContent") (drop_key (codes "reasoning_content") m))
      else v
]

unfoldable pub strip_reasoning_content : Fields → Fields
strip_reasoning_content payload = elim (arr_at messages_key payload) [
  | none ↦ payload
  | some ms ↦ put messages_key (arr (map_items strip_message ms)) payload
]

abbrev pub snake_key : Bytes
snake_key = codes "budget_tokens"

abbrev pub camel_key : Bytes
camel_key = codes "budgetTokens"

-- The budget of `thinking` under its snake-case name, unless that is taken.
unfoldable pub rename_budget : Fields → Fields
rename_budget thinking = elim (member camel_key thinking) [
  | none ↦ thinking
  | some budget ↦
      if has snake_key thinking
      then thinking
      else drop_key camel_key (put snake_key budget thinking)
]

abbrev pub thinking_key : Bytes
thinking_key = codes "thinking"

unfoldable pub normalize_thinking_payload : Fields → Fields
normalize_thinking_payload payload = elim (obj_at thinking_key payload) [
  | none ↦ payload
  | some thinking ↦ put thinking_key (obj (rename_budget thinking)) payload
]

-- `MsgText`: the text of a message, or of the first part that has one.
unfoldable pub part_text : Json → Option Bytes
part_text part = elim (as_obj part) [
  | none ↦ none
  | some p ↦
      if same (text_at (codes "type") p) (codes "text") then str_at (codes "text") p else none
]

unfoldable pub first_text : Items → Bytes
first_text nil = []
first_text (cons part parts) = elim (part_text part) [ none ↦ first_text parts | some text ↦ text ]

unfoldable pub content_text : Json → Bytes
content_text content = elim (as_str content) [
  | some s ↦ s
  | none ↦ elim (as_arr content) [ none ↦ [] | some parts ↦ first_text parts ]
]

unfoldable pub msg_text : Fields → Bytes
msg_text m = elim (member (codes "content") m) [ none ↦ [] | some content ↦ content_text content ]

-- The text of a message of the user.
unfoldable pub user_text : Json → Option Bytes
user_text v = elim (as_obj v) [
  | none ↦ none
  | some m ↦ if is_role (codes "user") m then some (msg_text m) else none
]

unfoldable pub first_user : Items → Option Bytes
first_user nil = none
first_user (cons v ms) = elim (user_text v) [ none ↦ first_user ms | some text ↦ some text ]

unfoldable pub last_user : Bytes → Items → Bytes
last_user text nil = text
last_user text (cons v ms) = last_user (elim (user_text v) [ none ↦ text | some newer ↦ newer ]) ms

module _ (md5_hash : Bytes → Bytes) where
  abbrev pub short_hash : Bytes → Bytes
  short_hash text =
      if ltb (length (md5_hash text)) 12 then md5_hash text else take 12 (md5_hash text)

  unfoldable pub fingerprint_payload : Fields → Bytes
  fingerprint_payload payload = elim (arr_at messages_key payload) [
    | none ↦ []
    | some ms ↦ elim (first_user ms) [ none ↦ [] | some text ↦ short_hash text ]
  ]

-- `extractUserPromptPrefixRegex.ReplaceAllString(_, "")` is the parameter.
unfoldable pub extract_user_prompt : (Bytes → Bytes) → Fields → Bytes
extract_user_prompt strip_prefix payload = elim (arr_at messages_key payload) [
  | none ↦ []
  | some ms ↦ strip_prefix (last_user [] ms)
]

-- `caps["supported"]` where `reasoningCaps` is an object with a true one.
unfoldable pub is_supported : Fields → Bool
is_supported caps = elim (bool_at (codes "supported") caps) [ none ↦ false | some b ↦ b ]

abbrev pub is_fixed : Fields → Bool
is_fixed caps = elim (bool_at (codes "can_disable") caps) [ none ↦ false | some b ↦ not b ]

abbrev pub adaptive : Json
adaptive = obj (field (codes "type") (str (codes "adaptive")) end)

unfoldable pub apply_auto_think : Json → Fields → Fields
apply_auto_think reasoning payload = elim (as_obj reasoning) [
  | none ↦ payload
  | some caps ↦
      if is_supported caps && is_fixed caps then put thinking_key adaptive payload else payload
]

-- `trim` and `fields` are `strings.TrimSpace` and `strings.Fields`.
module _ (trim : Bytes → Bytes) (fields : Bytes → List Bytes) where
  unfoldable pub named_levels : Items → List Bytes
  named_levels nil = []
  named_levels (cons v xs) = elim (as_str v) [
    | none ↦ named_levels xs
    | some s ↦ if same (trim s) [] then named_levels xs else trim s ∷ named_levels xs
  ]

  -- No value stands for the nil interface.
  unfoldable pub parse_levels : Option Json → List Bytes
  parse_levels none = []
  parse_levels (some raw) = elim (as_arr raw) [
    | some xs ↦ named_levels xs
    | none ↦ elim (as_str raw) [ none ↦ [] | some s ↦ fields s ]
  ]

  -- Whether the model reasons, where that is known.
  unfoldable pub infer_reasoning_mode_from_capabilities : Json → Option Bool
  infer_reasoning_mode_from_capabilities reasoning = elim (as_obj reasoning) [
    | none ↦ none
    | some caps ↦
        if is_supported caps
        then some true
        else (elim (parse_levels (member (codes "levels") caps)) [ [] ↦ none | l ∷ ls ↦ some true ])
  ]

-- `ReasoningLevelBudgets`, with the literals of its numbers.
unfoldable pub reasoning_level_budgets : Bytes → Option Bytes
reasoning_level_budgets level =
    if same level (codes "low")
    then some (codes "8000")
    else if same level (codes "medium") || same level (codes "high")
    then some (codes "16000")
    else if same level (codes "max")
    then some (codes "32000")
    else none

abbrev pub variant : Bytes → Json
variant budget = obj (
    field thinking_key
      (obj (field (codes "type") (str (codes "enabled")) (field snake_key (num budget) end))) end)

-- The loop of `BuildReasoningVariants`.
unfoldable pub variants_of : List Bytes → Fields → Fields
variants_of [] variants = variants
variants_of (level ∷ levels) variants = variants_of levels (
    if same level (codes "none") then variants else (elim (reasoning_level_budgets level) [
      | none ↦ variants
      | some budget ↦ put level (variant budget) variants
    ]))

abbrev pub unless_empty : Fields → Option Fields
unless_empty end = none
unless_empty (field k v m) = some (field k v m)

unfoldable pub build_reasoning_variants :
    (Bytes → Bytes) → (Bytes → List Bytes) → Json → Option Fields
build_reasoning_variants trim fields reasoning = elim (as_obj reasoning) [
  | none ↦ none
  | some caps ↦
      if is_supported caps && not (is_fixed caps)
      then unless_empty (variants_of (parse_levels trim fields (member (codes "levels") caps)) end)
      else none
]
