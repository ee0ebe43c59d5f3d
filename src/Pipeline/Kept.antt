-- ===== src/Pipeline/Kept.antt =====
-- Which keys of the payload the steps of src/normalize.go write, and what a write leaves of the images.
use umans_dash_go.Prelude.{
  ◌≡◌, refl, sym, ap, ◌∙◌, Bool, true, false, Option, none, some, List, ◌++◌, ℕ, if◌then◌else◌, ℤ,
  pos, leb_ℤ, ◌||◌, ◌==◌, ◌&&◌, take, Bytes, length, same, arith, if_split, [],
}
use umans_dash_go.Json.{
  Json, Items, Fields, nil, cons, obj, as_obj, arr, member, put, arr_at, obj_at, as_arr,
}
use umans_dash_go.Json.Laws.{member-put}
use umans_dash_go.Payload.{
  messages_key, thinking_key, adaptive, apply_auto_think, rename_budget, normalize_thinking_payload,
  is_supported, is_fixed,
}
use umans_dash_go.Schema.{normalize_tool_schemas}
use umans_dash_go.Catalog.{Model, find_model}
use umans_dash_go.HandoffCache.{HandoffCache}
use umans_dash_go.Vision.Handoff.{perform_vision_handoff, image_limit}
use umans_dash_go.Pipeline.{Setting, limit_unless, normalize_tools, tools_key, hand_off, think_of}
use umans_dash_go.Images.{
  ImgPart, image_parts, collect_image_parts, image_uri, walk_parts, walk_messages, walk_payload,
  walk_system, write_payload, write_system, write_parts, write_messages, system_key,
  limit_images_in_messages, typed_image,
}

-- A write at another key is not seen.
pub member-put_other :
    (k j : Bytes) (v : Json) (m : Fields) → same k j ≡ false → member j (put k v m) ≡ member j m
member-put_other k j v m other = ground (arith, member-put k j v m, other)

abbrev list_of : Option Json → Option Items
list_of none = none
list_of (some v) = as_arr v

-- The images of the two lists of a payload.
walk_of : {A : Type 0} → (Fields → Option A) → Option Json → Option Json → List A
walk_of see system messages =
    (elim (list_of system) [ none ↦ [] | some xs ↦ walk_parts see xs ])
    ++ (elim (list_of messages) [ none ↦ [] | some ms ↦ walk_messages see ms ])

walk_payload-walk_of :
    {A : Type 0} (see : Fields → Option A) (m : Fields)
    → walk_payload see m ≡ walk_of see (member system_key m) (member messages_key m)
unfolding walk_payload walk_system walk_of
walk_payload-walk_of see m = refl

pub walk_payload-put :
    {A : Type 0} (see : Fields → Option A) (k : Bytes) (v : Json) (m : Fields)
    → same k messages_key ≡ false
    → same k system_key ≡ false
    → walk_payload see (put k v m) ≡ walk_payload see m
walk_payload-put see k v m not_messages not_system =
    walk_payload-walk_of see (put k v m)
    ∙ ap (λ o. walk_of see o (member messages_key (put k v m)))
        (member-put_other k system_key v m not_system)
    ∙ ap (walk_of see (member system_key m)) (member-put_other k messages_key v m not_messages)
    ∙ sym (walk_payload-walk_of see m)

member-write_system :
    {A : Type 0} (see : Fields → Option A) (swap : ℕ → Option Json) (j : Bytes) (m : Fields)
    → same system_key j ≡ false
    → member j (write_system see swap m) ≡ member j m
unfolding write_system
member-write_system see swap j m other = go (arr_at system_key m)
  where
    go :
        (o : Option Items)
        → member j (elim o as (λ _. Fields) [
          | none ↦ m
          | some xs ↦ put system_key (arr (write_parts see swap 0 xs)) m
        ])
          ≡ member j m
    go none = refl
    go (some xs) = member-put_other system_key j _ m other

pub member-write_payload :
    {A : Type 0} (see : Fields → Option A) (swap : ℕ → Option Json) (j : Bytes) (m : Fields)
    → same messages_key j ≡ false
    → same system_key j ≡ false
    → member j (write_payload see swap m) ≡ member j m
unfolding write_payload
member-write_payload see swap j m not_messages not_system = go (arr_at messages_key m)
  where
    go :
        (o : Option Items)
        → member j (elim o as (λ _. Fields) [
          | none ↦ write_system see swap m
          | some ms ↦
              put messages_key
                (arr (write_messages see swap (length (walk_system see m)) ms))
                (write_system see swap m)
        ])
          ≡ member j m
    go none = member-write_system see swap j m not_system
    go (some ms) =
        member-put_other messages_key j _ _ not_messages
        ∙ member-write_system see swap j m not_system

member-limit_images :
    (sort_parts : List ImgPart → List ImgPart) (n : ℤ) (j : Bytes) (m : Fields)
    → same messages_key j ≡ false
    → same system_key j ≡ false
    → member j (limit_images_in_messages sort_parts n m) ≡ member j m
unfolding limit_images_in_messages
member-limit_images sort_parts n j m not_messages not_system =
    if_split (λ r. member j r ≡ member j m)
      (leb_ℤ n (pos 0) || leb_ℤ (pos (length (image_parts m))) n) m _ (λ few. refl)
      (λ many. member-write_payload typed_image _ j m not_messages not_system)

module _ (s : Setting) where
  pub member-limit_unless :
      (needed : Bool) (j : Bytes) (m : Fields)
      → same messages_key j ≡ false
      → same system_key j ≡ false
      → member j (limit_unless s needed m) ≡ member j m
  unfolding limit_unless
  member-limit_unless true j m not_messages not_system = refl
  member-limit_unless false j m not_messages not_system =
      member-limit_images s.sort_parts s.max_images j m not_messages not_system

  pub member-normalize_tools :
      (j : Bytes) (m : Fields)
      → same tools_key j ≡ false
      → member j (normalize_tools s m) ≡ member j m
  unfolding normalize_tools
  member-normalize_tools j m other = go (arr_at tools_key m)
    where
      go :
          (o : Option Items)
          → member j (elim o as (λ _. Fields) [
            | none ↦ m
            | some nil ↦ m
            | some (cons t ts) ↦
                put tools_key
                  (arr (normalize_tool_schemas s.trim s.marshal s.unmarshal (cons t ts)))
                  m
          ])
            ≡ member j m
      go none = refl
      go (some nil) = refl
      go (some (cons t ts)) = member-put_other tools_key j _ m other

  pub member-hand_off :
      (needed : Bool) (j : Bytes) (m : Fields) (cache : Option HandoffCache)
      → same messages_key j ≡ false
      → same system_key j ≡ false
      → member j (hand_off s needed m cache).0 ≡ member j m
  unfolding hand_off perform_vision_handoff
  member-hand_off false j m cache not_messages not_system = refl
  member-hand_off true j m cache not_messages not_system =
      if_split (λ (r : Fields × Option HandoffCache × ℕ). member j r.0 ≡ member j m)
        (length (take (image_limit s.handoff) (collect_image_parts m)) == 0) (m, cache, 0) _
        (λ none_there. refl)
        (λ some_there. member-write_payload image_uri _ j m not_messages not_system)

pub normalize_thinking_put :
    (P : Fields → Type 0) (m : Fields)
    → P m
    → ((v : Json) → P (put thinking_key v m))
    → P (normalize_thinking_payload m)
unfolding normalize_thinking_payload
normalize_thinking_put P m h k = go (obj_at thinking_key m)
  where
    go :
        (o : Option Fields)
        → P (elim o as (λ _. Fields) [
          | none ↦ m
          | some thinking ↦ put thinking_key (obj (rename_budget thinking)) m
        ])
    go none = h
    go (some thinking) = k (obj (rename_budget thinking))

apply_auto_think_put :
    (P : Fields → Type 0) (reasoning : Json) (m : Fields)
    → P m
    → P (put thinking_key adaptive m)
    → P (apply_auto_think reasoning m)
unfolding apply_auto_think
apply_auto_think_put P reasoning m h k = go (as_obj reasoning)
  where
    go :
        (o : Option Fields)
        → P (elim o as (λ _. Fields) [
          | none ↦ m
          | some caps ↦
              if is_supported caps && is_fixed caps then put thinking_key adaptive m else m
        ])
    go none = h
    go (some caps) =
        if_split P (is_supported caps && is_fixed caps) (put thinking_key adaptive m) m (λ b. k)
          (λ b. h)

pub think_of_put :
    (P : Fields → Type 0) (models : List Model) (resolved : Bytes) (m : Fields)
    → P m
    → P (put thinking_key adaptive m)
    → P (think_of models resolved m)
unfolding think_of
think_of_put P models resolved m h k = go (find_model resolved models)
  where
    reasons :
        (r : Option Json)
        → P (elim r as (λ _. Fields) [ none ↦ m | some reasoning ↦ apply_auto_think reasoning m ])
    reasons none = h
    reasons (some reasoning) = apply_auto_think_put P reasoning m h k

    go :
        (o : Option Model)
        → P (elim o as (λ _. Fields) [
          | none ↦ m
          | some info_of ↦ elim info_of.info.capabilities.reasoning as (λ _. Fields) [
            | none ↦ m
            | some reasoning ↦ apply_auto_think reasoning m
          ]
        ])
    go none = h
    go (some info_of) = reasons info_of.info.capabilities.reasoning
