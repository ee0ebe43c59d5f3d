-- ===== src/Pipeline/Prepared.antt =====
-- What reaches the upstream client of the model and of the images, whichever format the request has.
use umans_dash_go.Prelude.{
  ℕ, ◌≤◌, ◌<◌, ◌≡◌, refl, sym, ◌∙◌, subst, Bool, true, false, Option, some, pos, Bytes, same,
  length, arith,
}
use umans_dash_go.Json.{Json, str, Fields, member, put}
use umans_dash_go.Json.Laws.{member-put}
use umans_dash_go.Payload.{
  thinking_key, adaptive, strip_reasoning_content, normalize_thinking_payload,
}
use umans_dash_go.Images.{walk_payload, typed_image, limit_images_in_messages}
use umans_dash_go.Images.Numbers.{Sorts}
use umans_dash_go.Images.Limit.{limit_images_in_messages-count}
use umans_dash_go.Catalog.{needs_vision_handoff}
use umans_dash_go.HandoffCache.{HandoffCache}
use umans_dash_go.Pipeline.{
  Setting, model_key, set_model, normalize_tools, think_of, resolved_of, limit_unless, hand_off,
  prepare_openai, prepare_anthropic,
}
use umans_dash_go.Pipeline.Kept.{
  member-put_other, walk_payload-put, member-limit_unless, member-normalize_tools, member-hand_off,
  normalize_thinking_put, think_of_put,
}

set_model_lem :
    (resolved : Bytes) (m : Fields) → member model_key (set_model resolved m) ≡ some (str resolved)
unfolding set_model same
set_model_lem resolved m = member-put model_key model_key (str resolved) m

-- The object names the model `resolved`.
abbrev Names : Bytes → Fields → Type 0
Names resolved m = member model_key m ≡ some (str resolved)

thinking-Names :
    (resolved : Bytes) (m : Fields)
    → Names resolved m
    → (v : Json) → Names resolved (put thinking_key v m)
unfolding same
thinking-Names resolved m h v = member-put_other thinking_key model_key v m refl ∙ h

module _ (s : Setting) (model : Bytes) (payload : Fields) (cache : Option HandoffCache) where
  -- The payload sent upstream names the model that the id of the request resolves to, in both formats.
  pub prepare_model :
      (member model_key (prepare_openai s model payload cache).0 ≡ some (str (resolved_of s model)))
      × (member model_key (prepare_anthropic s model payload cache).0
          ≡ some (str (resolved_of s model)))
  unfolding prepare_openai prepare_anthropic same
  prepare_model = (
    member-hand_off s needed model_key _ cache refl refl
        ∙ normalize_thinking_put (Names resolved) thought thought_named
            (thinking-Names resolved thought thought_named),
    member-hand_off s needed model_key _ cache refl refl
        ∙ member-limit_unless s needed model_key _ refl refl
        ∙ set_model_lem resolved (normalize_thinking_payload payload),
  )
    where
      resolved : Bytes
      resolved = resolved_of s model

      needed : Bool
      needed = needs_vision_handoff s.catalog resolved

      limited : Fields
      limited =
          limit_unless s needed
            (normalize_tools s (set_model resolved (strip_reasoning_content payload)))

      limited_named : Names resolved limited
      limited_named =
          member-limit_unless s needed model_key _ refl refl
          ∙ member-normalize_tools s model_key _ refl
          ∙ set_model_lem resolved (strip_reasoning_content payload)

      thought : Fields
      thought = think_of s.catalog.models resolved limited

      thought_named : Names resolved thought
      thought_named =
          think_of_put (Names resolved) s.catalog.models resolved limited limited_named
            (thinking-Names resolved limited limited_named adaptive)

-- At most `n` images are left.
abbrev Few : ℕ → Fields → Type 0
Few n m = length (walk_payload typed_image m) ≤ n

thinking-Few : (n : ℕ) (m : Fields) → Few n m → (v : Json) → Few n (put thinking_key v m)
unfolding same
thinking-Few n m h v =
    subst (λ ps. length ps ≤ n) (sym (walk_payload-put typed_image thinking_key v m refl refl)) h

module _ (s : Setting) (n : ℕ) where
  limit_unless-Few :
      (needed : Bool) (m : Fields)
      → needed ≡ false
      → s.max_images ≡ pos n
      → 0 < n
      → Sorts s.sort_parts
      → Few n (limit_unless s needed m)
  unfolding limit_unless
  limit_unless-Few true m unneeded limit positive sorts = absurd (ground (arith, unneeded))
  limit_unless-Few false m unneeded limit positive sorts =
      subst (λ k. Few n (limit_images_in_messages s.sort_parts k m)) (sym limit)
        (limit_images_in_messages-count s.sort_parts n m sorts positive).0

  hand_off-Few :
      (needed : Bool) (m : Fields) (cache : Option HandoffCache)
      → needed ≡ false
      → Few n m
      → Few n (hand_off s needed m cache).0
  unfolding hand_off
  hand_off-Few true m cache unneeded h = absurd (ground (arith, unneeded))
  hand_off-Few false m cache unneeded h = h

  -- Where the model sees images itself and the limit is `n`, which is not zero, no more than `n` images
  -- reach the upstream client in either format, whatever the steps behind the limit do.
  pub prepare_images :
      (model : Bytes) (payload : Fields) (cache : Option HandoffCache)
      → needs_vision_handoff s.catalog (resolved_of s model) ≡ false
      → s.max_images ≡ pos n
      → 0 < n
      → Sorts s.sort_parts
      → (length (walk_payload typed_image (prepare_openai s model payload cache).0) ≤ n)
        × (length (walk_payload typed_image (prepare_anthropic s model payload cache).0) ≤ n)
  unfolding prepare_openai prepare_anthropic
  prepare_images model payload cache unneeded limit positive sorts = (
    hand_off-Few _ _ cache unneeded
        (normalize_thinking_put (Few n) thought thought_few (thinking-Few n thought thought_few)),
    hand_off-Few _ _ cache unneeded (limit_unless-Few _ _ unneeded limit positive sorts),
  )
    where
      needed : Bool
      needed = needs_vision_handoff s.catalog (resolved_of s model)

      limited : Fields
      limited =
          limit_unless s needed
            (normalize_tools s (set_model (resolved_of s model) (strip_reasoning_content payload)))

      limited_few : Few n limited
      limited_few = limit_unless-Few needed _ unneeded limit positive sorts

      thought : Fields
      thought = think_of s.catalog.models (resolved_of s model) limited

      thought_few : Few n thought
      thought_few =
          think_of_put (Few n) s.catalog.models (resolved_of s model) limited limited_few
            (thinking-Few n limited limited_few adaptive)
