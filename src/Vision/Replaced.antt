-- ===== src/Vision/Replaced.antt =====
-- Which images `PerformVisionHandoff` of src/vision.go leaves in a payload.
use umans_dash_go.Prelude.{
  ℕ, zero, suc, ◌-◌, ◌≤◌, min, ◌≡◌, ◌⊎◌, refl, ap, subst, true, false, ◌==◌, ==_iff, ltb→lt, Option,
  none, some, List, [], ◌∷◌, ◌++◌, ltb, Bytes, codes, same, length, length-take, take, get_elem?,
  get_elem?-some_of_lt, arith, Bool-cases, Option-cases, inl, inr, if_split,
}
use umans_dash_go.Json.{Json, Fields, member}
use umans_dash_go.HandoffCache.{HandoffCache}
use umans_dash_go.Images.{content_key, image_uri, walk_part, write_payload, collect_image_parts}
use umans_dash_go.Images.Walk.{kept, Blind, write_payload-Bounded}
use umans_dash_go.Vision.Handoff.{
  Calls, Handoff, text_part, describe_all, description_part, image_limit, with_model,
  perform_vision_handoff, label, analyze_image_via_handoff,
}

other_keys :
    (same content_key (codes "type") ≡ false)
    × (same content_key (codes "image_url") ≡ false)
    × (same content_key (codes "source") ≡ false)
unfolding same
other_keys = (refl, refl, refl)

image_uri-Blind : Blind image_uri
unfolding image_uri
image_uri-Blind m m' h = ground (
  arith,
  h (codes "type") other_keys.0,
  h (codes "image_url") other_keys.1,
  h (codes "source") other_keys.2,
)

text_part-walk : (text : Bytes) → walk_part image_uri (text_part text) ≡ []
unfolding walk_part image_uri same member
text_part-walk text = refl

description_part-Clean :
    (calls : Calls) (descriptions : List Bytes) (n : ℕ) (w : Json)
    → description_part calls descriptions n ≡ some w
    → walk_part image_uri w ≡ []
description_part-Clean calls descriptions n w e = elim (Option-cases (get_elem? descriptions n)) [
  | inl f ↦ absurd (ground (arith, e, f))
  | inr (text, f) ↦
      subst (λ v. walk_part image_uri v ≡ []) (ground (arith, e, f))
        (text_part-walk (label calls (length descriptions) n ++ text))
]

length-describe_all :
    (calls : Calls) (config : Handoff) (api_key : Bytes) (times : ℕ → ℕ × ℕ) (n : ℕ)
    (uris : List Bytes) (cache : Option HandoffCache)
    → length (describe_all calls config api_key times n uris cache).1 ≡ length uris
unfolding describe_all
length-describe_all calls config api_key times n [] cache = refl
length-describe_all calls config api_key times n (uri ∷ uris) cache =
    ap suc (length-describe_all calls config api_key times (suc n) uris _)

kept_described :
    (calls : Calls) (descriptions : List Bytes) (n k : ℕ)
    → kept (description_part calls descriptions) n k ≤ k - (length descriptions - n)
unfolding kept
kept_described calls descriptions n zero = omega arith
kept_described calls descriptions n (suc k) = elim (Option-cases (get_elem? descriptions n)) [
  | inr (text, f) ↦ ground (arith, f, kept_described calls descriptions (suc n) k)
  | inl f ↦ ground (arith, f, kept_described calls descriptions (suc n) k, ended f)
]
  where
    ended : get_elem? descriptions n ≡ none → length descriptions ≤ n
    ended f = elim (Bool-cases (ltb n (length descriptions))) [
      | inl e ↦ absurd (
          ground
            (arith, f, (get_elem?-some_of_lt descriptions n (ltb→lt n (length descriptions) e)).1))
      | inr e ↦ ground (arith, e)
    ]

empty_of_length : (xs : List Bytes) → length xs ≤ 0 → xs ≡ []
empty_of_length [] h = refl
empty_of_length (x ∷ xs) h = absurd (omega (arith, h))

no_parts : (limit total taken : ℕ) → taken ≡ 0 → taken ≡ min limit total → total ≤ total - limit
no_parts limit total taken e f = omega (arith, e, f)

-- The texts of the images from number `n` on: each is what the handoff answers for its image at its times,
-- with the cache that the image before it has left.
pub data Described (calls : Calls) (config : Handoff) (api_key : Bytes) (times : ℕ → ℕ × ℕ)
    : ℕ → List Bytes → Option HandoffCache → List Bytes → Type 0 where
  all_described :
      {n : ℕ} {cache : Option HandoffCache} → Described calls config api_key times n [] cache []
  next_described :
      {n : ℕ} {cache : Option HandoffCache} (uri : Bytes) (uris texts : List Bytes)
      → Described calls config api_key times
          (suc n)
          uris
          (analyze_image_via_handoff calls config api_key (times n).0 (times n).1 uri cache).0
          texts
      → Described calls config api_key times n (uri ∷ uris) cache (
          (analyze_image_via_handoff calls config api_key (times n).0 (times n).1 uri cache).1
          ∷ texts)

describe_all-Described :
    (calls : Calls) (config : Handoff) (api_key : Bytes) (times : ℕ → ℕ × ℕ) (n : ℕ)
    (uris : List Bytes) (cache : Option HandoffCache)
    → Described calls config api_key times n uris cache
        (describe_all calls config api_key times n uris cache).1
unfolding describe_all
describe_all-Described calls config api_key times n [] cache = all_described
describe_all-Described calls config api_key times n (uri ∷ uris) cache =
    next_described uri uris _ (describe_all-Described calls config api_key times (suc n) uris _)

-- The payload with the first images written over by a label and their text.
abbrev pub with_texts : Calls → List Bytes → Fields → Fields
with_texts calls texts payload =
    write_payload image_uri
      (λ n. elim (get_elem? texts n) as (λ _. Option Json) [
        | none ↦ none
        | some text ↦ some (text_part (label calls (length texts) n ++ text))
      ])
      payload

-- There are no images and the payload stays as it is, or the first images, up to the limit, have become
-- their texts, one each, and nothing else is written.
abbrev pub IsHandedOff :
    Calls
    → Handoff
    → Bytes
    → (ℕ → ℕ × ℕ)
    → Fields
    → Option HandoffCache
    → Fields × Option HandoffCache × ℕ
    → Type 0
IsHandedOff calls config api_key times payload cache r =
    (r.0 ≡ payload) × (r.2 ≡ 0)
    ⊎ (texts : List Bytes) × Described calls (with_model config) api_key times 0
        (take (image_limit config) (collect_image_parts payload)) cache texts
      × (length texts ≡ r.2)
      × (r.0 ≡ with_texts calls texts payload)

-- Of the images that a model without vision gets, as many stay as there are over the limit, at most; with
-- no more than the limit none stays. The number returned is that of the images up to the limit. Where it is
-- not 0, each of these has become a text, namely its label and what the handoff answers for this image; the
-- payload is not changed otherwise.
pub perform_vision_handoff-images :
    (calls : Calls) (config : Handoff) (api_key : Bytes) (times : ℕ → ℕ × ℕ) (payload : Fields)
    (cache : Option HandoffCache)
    → (length (
          collect_image_parts
            (perform_vision_handoff calls config api_key times true payload cache).0)
        ≤ length (collect_image_parts payload) - image_limit config)
      × (length (collect_image_parts payload) ≤ image_limit config
          → collect_image_parts
              (perform_vision_handoff calls config api_key times true payload cache).0
            ≡ [])
      × ((perform_vision_handoff calls config api_key times true payload cache).2
          ≡ min (image_limit config) (length (collect_image_parts payload)))
      × IsHandedOff calls config api_key times payload cache
          (perform_vision_handoff calls config api_key times true payload cache)
unfolding perform_vision_handoff
perform_vision_handoff-images calls config api_key times payload cache = (
  few,
  λ all. empty_of_length _ (omega (arith, few, all)),
  if_split
      (λ (r : Fields × Option HandoffCache × ℕ).
        r.2 ≡ min (image_limit config) (length (collect_image_parts payload)))
      (length parts == 0) (payload, cache, 0) (written, done.0, length parts)
      (λ empty.
        ground (arith, empty, length-take (image_limit config) (collect_image_parts payload)))
      (λ more. length-take (image_limit config) (collect_image_parts payload)),
  if_split (IsHandedOff calls config api_key times payload cache) (length parts == 0)
      (payload, cache, 0) (written, done.0, length parts) (λ empty. inl (refl, refl))
      (λ more. inr (
        done.1,
        describe_all-Described calls (with_model config) api_key times 0 parts cache,
        length-describe_all calls (with_model config) api_key times 0 parts cache,
        refl,
      )),
)
  where
    parts : List Bytes
    parts = take (image_limit config) (collect_image_parts payload)

    done : Option HandoffCache × List Bytes
    done = describe_all calls (with_model config) api_key times 0 parts cache

    written : Fields
    written = write_payload image_uri (description_part calls done.1) payload

    few :
        length (
          collect_image_parts
            (perform_vision_handoff calls config api_key times true payload cache).0)
        ≤ length (collect_image_parts payload) - image_limit config
    few =
        if_split
          (λ (r : Fields × Option HandoffCache × ℕ).
            length (collect_image_parts r.0)
            ≤ length (collect_image_parts payload) - image_limit config)
          (length parts == 0) (payload, cache, 0) (written, done.0, length parts)
          (λ empty.
            no_parts (image_limit config) (length (collect_image_parts payload)) (length parts)
              ((==_iff (length parts) 0).0 empty)
              (length-take (image_limit config) (collect_image_parts payload)))
          (λ more. omega (
            arith,
            write_payload-Bounded image_uri (description_part calls done.1) image_uri-Blind
                (description_part-Clean calls done.1) payload,
            kept_described calls done.1 0 (length (collect_image_parts payload)),
            length-describe_all calls (with_model config) api_key times 0 parts cache,
            length-take (image_limit config) (collect_image_parts payload),
          ))
