-- ===== src/Vision/Handoff.antt =====
-- The vision handoff: `analyzeImageViaHandoff` and `cacheHandoffDescription` of src/normalize.go and
-- `PerformVisionHandoff` of src/vision.go, with an upstream and a request that nobody cancels. `handoff_request` is the request for one image.
use umans_dash_go.Prelude.{
  ℕ, suc, ◌+◌, Bool, true, Option, none, some, List, [], ◌∷◌, ◌++◌, ltb, leb_ℤ, ℤ, pos, pos_part,
  ◌==◌, if◌then◌else◌, Bytes, codes, same, length, take, get_elem?, ◌⊎◌, inl, inr,
}
use umans_dash_go.Json.{Json, Fields, bool, str, arr, obj, nil, cons, end, field}
use umans_dash_go.HandoffCache.{HandoffCache, get, set}
use umans_dash_go.Images.{collect_image_parts, image_uri, write_payload}
use umans_dash_go.Vision.{Reply, Outcome, described, failed, failure, outcome_of}

pub record Handoff : Type 0 where
  pub prompt : Bytes
  pub model : Bytes
  pub cache_enabled : Bool
  pub max_images : ℤ

-- The request for one image.
abbrev pub text_part : Bytes → Json
text_part text =
    obj (field (codes "type") (str (codes "text")) (field (codes "text") (str text) end))

abbrev pub image_part : Bytes → Json
image_part uri = obj (
    field (codes "type") (str (codes "image_url"))
      (field (codes "image_url") (obj (field (codes "url") (str uri) end)) end))

abbrev pub role_message : Bytes → Json → Json
role_message role content =
    obj (field (codes "role") (str role) (field (codes "content") content end))

unfoldable pub handoff_request : Bytes → Bytes → Bytes → Json
handoff_request model prompt uri = obj (
    field (codes "model") (str model) (
      field (codes "stream") (bool true) (
        field (codes "messages")
          (arr (
            cons (role_message (codes "system") (str prompt)) (
              cons
                (role_message (codes "user") (
                  arr
                    (cons (text_part (codes "Describe this image.")) (cons (image_part uri) nil))))
                nil)))
          end)))

-- What the handoff calls: the hash, `json.Marshal`, `ChatCompletions`, the printing of numbers, and
-- `json.Unmarshal` and `strings.TrimSpace` for the stream. `default_prompt` is `DEFAULT_VISION_HANDOFF_PROMPT`.
pub record Calls : Type 0 where
  pub sha256 : Bytes → Bytes
  pub marshal : Json → Bytes ⊎ Bytes
  pub chat : Bytes → Bytes → Reply
  pub itoa : ℕ → Bytes
  pub decode : Bytes → Option Fields
  pub trim : Bytes → Bytes
  pub default_prompt : Bytes

-- A failure to encode the request is `inr` with its text.
unfoldable pub ask : Calls → Handoff → Bytes → Bytes → Outcome
ask calls config api_key uri =
    elim (calls.marshal (
      handoff_request config.model
        (if same config.prompt [] then calls.default_prompt else config.prompt) uri)) [
          | inl body ↦ outcome_of calls.trim calls.decode calls.itoa (calls.chat body api_key)
          | inr reason ↦ failed (failure (codes "failed to marshal request: " ++ reason))
        ]

abbrev pub cached : Handoff → Option HandoffCache → Option HandoffCache
cached config cache = if config.cache_enabled then cache else none

unfoldable pub look_up :
    Calls → Handoff → ℕ → Bytes → Option HandoffCache → Option HandoffCache × Option Bytes
look_up calls config now uri cache = elim (cached config cache) [
  | none ↦ (cache, none)
  | some c ↦ (some (get now (calls.sha256 uri) c).0, (get now (calls.sha256 uri) c).1)
]

unfoldable pub cache_handoff_description :
    Calls → Handoff → ℕ → Bytes → Bytes → Option HandoffCache → Option HandoffCache
cache_handoff_description calls config later uri desc cache = elim (cached config cache) [
  | none ↦ cache
  | some c ↦ some (set later (calls.sha256 uri) desc c)
]

-- The cache is read at `now` and written at `later`.
unfoldable pub analyze_image_via_handoff :
    Calls → Handoff → Bytes → ℕ → ℕ → Bytes → Option HandoffCache → Option HandoffCache × Bytes
analyze_image_via_handoff calls config api_key now later uri cache =
    let looked = look_up calls config now uri cache in
    elim looked.1 [
      | some desc ↦ (looked.0, desc)
      | none ↦ elim (ask calls config api_key uri) [
        | described desc ↦ (cache_handoff_description calls config later uri desc looked.0, desc)
        | failed text ↦ (looked.0, text)
      ]
    ]

-- The descriptions of the images, each as the cache then is. `times n` are the two times of image `n`.
unfoldable pub describe_all :
    Calls
    → Handoff
    → Bytes
    → (ℕ → ℕ × ℕ)
    → ℕ
    → List Bytes
    → Option HandoffCache
    → Option HandoffCache × List Bytes
describe_all calls config api_key times n [] cache = (cache, [])
describe_all calls config api_key times n (uri ∷ uris) cache =
    let first = analyze_image_via_handoff calls config api_key (times n).0 (times n).1 uri cache in
    let rest = describe_all calls config api_key times (suc n) uris first.0 in
    (rest.0, first.1 ∷ rest.1)

abbrev pub dash : Bytes
dash = 226 ∷ 128 ∷ 148 ∷ []

abbrev pub label_end : Bytes
label_end =
    codes " analyzed by vision module, shown as text because the active model cannot see images:]"
    ++ (10 ∷ [])

unfoldable pub label : Calls → ℕ → ℕ → Bytes
label calls images n =
    if ltb 1 images
    then codes "[Image " ++ calls.itoa (n + 1) ++ codes " content " ++ dash ++ label_end
    else codes "[Image content " ++ dash ++ label_end

-- The limit, with 4 for none.
abbrev pub image_limit : Handoff → ℕ
image_limit config = if leb_ℤ config.max_images (pos 0) then 4 else pos_part config.max_images

abbrev pub description_part : Calls → List Bytes → ℕ → Option Json
description_part calls descriptions n = elim (get_elem? descriptions n) [
  | none ↦ none
  | some text ↦ some (text_part (label calls (length descriptions) n ++ text))
]

abbrev pub with_model : Handoff → Handoff
with_model config =
    if same config.model [] then record config { model = codes "umans-coder" } else config

-- `needed` is `NeedsVisionHandoff` of the model. The number of images described comes last.
unfoldable pub perform_vision_handoff :
    Calls
    → Handoff
    → Bytes
    → (ℕ → ℕ × ℕ)
    → Bool
    → Fields
    → Option HandoffCache
    → Fields × Option HandoffCache × ℕ
perform_vision_handoff calls config api_key times needed payload cache =
    let parts = if needed then take (image_limit config) (collect_image_parts payload) else [] in
    let done = describe_all calls (with_model config) api_key times 0 parts cache in
    if length parts == 0
    then (payload, cache, 0)
    else (write_payload image_uri (description_part calls done.1) payload, done.0, length parts)
