-- ===== src/Images.antt =====
-- The images of a payload in src/normalize.go: `CollectImageParts` and `LimitImagesInMessages`. Both walk
-- the content of `system` and of the messages, nested content included, and number the parts they take
-- in the order of the walk. The code writes through the slice and the index of a part; here a part is
-- found by its number, and a part that is replaced takes its nested content with it.
pub mod Walk
pub mod Numbers
pub mod Limit
pub mod Sorted
mod Tests
use umans_dash_go.Prelude.{
  ℕ, zero, suc, ◌+◌, ◌-◌, Bool, true, false, not, ◌||◌, Option, none, some, List, [], ◌∷◌, ◌++◌,
  map, leb, ◌==◌, if◌then◌else◌, ℤ, pos, negsuc, leb_ℤ, pos_part, Bytes, codes, same, length, take,
}
use umans_dash_go.Json.{
  Json, Items, Fields, null, bool, num, str, arr, obj, nil, cons, end, field, put, as_obj, obj_at,
  arr_at, text_at, map_items,
}
use umans_dash_go.Payload.{messages_key}

abbrev pub content_key : Bytes
content_key = codes "content"

abbrev pub system_key : Bytes
system_key = codes "system"

-- `walkContentArray`, on the parts that `see` takes. A part's nested content is the value of its field
-- `content`, where that is an array.
module _ {A : Type 0} (see : Fields → Option A) where
  abbrev pub seen : Fields → List A
  seen m = elim (see m) [ none ↦ [] | some a ↦ a ∷ [] ]

  unfoldable mutual
    pub walk_part : Json → List A
    walk_part (obj m) = seen m ++ walk_content m
    walk_part _ = []

    pub walk_parts : Items → List A
    walk_parts nil = []
    walk_parts (cons v xs) = walk_part v ++ walk_parts xs

    pub walk_value : Json → List A
    walk_value (arr xs) = walk_parts xs
    walk_value _ = []

    pub walk_content : Fields → List A
    walk_content end = []
    walk_content (field k v m) = if same k content_key then walk_value v else walk_content m

  -- A message is an object too, and only its content is walked.
  abbrev pub walk_message : Json → List A
  walk_message v = elim (as_obj v) [ none ↦ [] | some m ↦ walk_content m ]

  unfoldable pub walk_messages : Items → List A
  walk_messages nil = []
  walk_messages (cons v ms) = walk_message v ++ walk_messages ms

  unfoldable pub walk_system : Fields → List A
  walk_system payload = elim (arr_at system_key payload) [ none ↦ [] | some xs ↦ walk_parts xs ]

  unfoldable pub walk_payload : Fields → List A
  walk_payload payload =
      walk_system payload
      ++ (elim (arr_at messages_key payload) [ none ↦ [] | some ms ↦ walk_messages ms ])

  -- The part that has the number `n` is written over where `swap n` has a value.
  module _ (swap : ℕ → Option Json) where
    unfoldable mutual
      pub write_part : ℕ → Json → Json
      write_part n (obj m) = elim (see m) [
        | none ↦ obj (write_content n m)
        | some a ↦ elim (swap n) [ none ↦ obj (write_content (suc n) m) | some w ↦ w ]
      ]
      write_part n v = v

      pub write_parts : ℕ → Items → Items
      write_parts n nil = nil
      write_parts n (cons v xs) = cons (write_part n v) (write_parts (n + length (walk_part v)) xs)

      pub write_value : ℕ → Json → Json
      write_value n (arr xs) = arr (write_parts n xs)
      write_value n v = v

      pub write_content : ℕ → Fields → Fields
      write_content n end = end
      write_content n (field k v m) =
          if same k content_key then field k (write_value n v) m else field k v (write_content n m)

    abbrev pub write_message : ℕ → Json → Json
    write_message n v = elim (as_obj v) [ none ↦ v | some m ↦ obj (write_content n m) ]

    unfoldable pub write_messages : ℕ → Items → Items
    write_messages n nil = nil
    write_messages n (cons v ms) =
        cons (write_message n v) (write_messages (n + length (walk_message v)) ms)

    unfoldable pub write_system : Fields → Fields
    write_system payload = elim (arr_at system_key payload) [
      | none ↦ payload
      | some xs ↦ put system_key (arr (write_parts 0 xs)) payload
    ]

    unfoldable pub write_payload : Fields → Fields
    write_payload payload = elim (arr_at messages_key payload) [
      | none ↦ write_system payload
      | some ms ↦
          put messages_key (arr (write_messages (length (walk_system payload)) ms))
            (write_system payload)
    ]

-- `CollectImageParts`: what a part has for an image, as a URI.
abbrev pub unless_blank : Bytes → Option Bytes
unless_blank [] = none
unless_blank (c ∷ cs) = some (c ∷ cs)

unfoldable pub data_uri : Bytes → Bytes → Option Bytes
data_uri [] data_text = none
data_uri media_type [] = none
data_uri media_type data_text = some (codes "data:" ++ media_type ++ codes ";base64," ++ data_text)

unfoldable pub source_uri : Fields → Option Bytes
source_uri source =
    if same (text_at (codes "type") source) (codes "base64")
    then data_uri (text_at (codes "media_type") source) (text_at (codes "data") source)
    else if same (text_at (codes "type") source) (codes "url")
    then unless_blank (text_at (codes "url") source)
    else none

unfoldable pub image_uri : Fields → Option Bytes
image_uri p =
    if same (text_at (codes "type") p) (codes "image_url")
    then (elim (obj_at (codes "image_url") p) [
      | none ↦ none
      | some image ↦ unless_blank (text_at (codes "url") image)
    ])
    else if same (text_at (codes "type") p) (codes "image")
    then (elim (obj_at (codes "source") p) [ none ↦ none | some source ↦ source_uri source ])
    else none

abbrev pub collect_image_parts : Fields → List Bytes
collect_image_parts payload = walk_payload image_uri payload

-- `LimitImagesInMessages` looks at the type alone.
unfoldable pub typed_image : Fields → Option (Unit {0})
typed_image p =
    if same (text_at (codes "type") p) (codes "image_url")
      || same (text_at (codes "type") p) (codes "image")
    then some tt
    else none

-- The `time` of an image: -1 in `system`, else the index of its message.
pub record ImgPart : Type 0 where
  pub number : ℕ
  pub time : ℤ

unfoldable pub stamp : ℕ → ℤ → ℕ → List ImgPart
stamp n time zero = []
stamp n time (suc k) = record { number = n; time = time } ∷ stamp (suc n) time k

unfoldable pub message_parts : ℕ → ℕ → Items → List ImgPart
message_parts n index nil = []
message_parts n index (cons v ms) =
    stamp n (pos index) (length (walk_message typed_image v))
    ++ message_parts (n + length (walk_message typed_image v)) (suc index) ms

unfoldable pub image_parts : Fields → List ImgPart
image_parts payload =
    stamp 0 (negsuc 0) (length (walk_system typed_image payload))
    ++ (elim (arr_at messages_key payload) [
      | none ↦ []
      | some ms ↦ message_parts (length (walk_system typed_image payload)) 0 ms
    ])

unfoldable pub is_listed : ℕ → List ImgPart → Bool
is_listed n [] = false
is_listed n (p ∷ ps) = p.number == n || is_listed n ps

abbrev pub previously_shared : Json
previously_shared = obj (
    field (codes "type") (str (codes "text"))
      (field (codes "text") (str (codes "(Image previously shared)")) end))

abbrev pub blank_listed : List ImgPart → ℕ → Option Json
blank_listed victims n = if is_listed n victims then some previously_shared else none

-- `sort_parts` is `sort.Slice` by time.
unfoldable pub limit_images_in_messages : (List ImgPart → List ImgPart) → ℤ → Fields → Fields
limit_images_in_messages sort_parts max_images payload =
    if leb_ℤ max_images (pos 0) || leb_ℤ (pos (length (image_parts payload))) max_images
    then payload
    else write_payload typed_image
        (blank_listed (
          take (length (image_parts payload) - pos_part max_images)
            (sort_parts (image_parts payload))))
        payload
