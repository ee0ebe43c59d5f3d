-- ===== src/Images/Tests.antt =====
-- Runs of the limits on images, with an insertion sort for `sort.Slice`.
use umans_dash_go.Prelude.{
  Bool, same, ◌-◌, ◌≡◌, refl, ◌≤◌, false, List, ◌≤ℤ◌, pos, codes, length, All, arith,
}
use umans_dash_go.Json.{Json, Items, Fields, str, arr, obj, nil, cons, end, field, member}
use umans_dash_go.Images.{
  ImgPart, walk_payload, write_payload, typed_image, limit_images_in_messages, blank_listed,
  is_listed, image_parts, walk_system, walk_part, walk_messages,
}
use umans_dash_go.Images.Numbers.{count}
use umans_dash_go.Images.Limit.{limit_images_in_messages-count, limit_images_in_messages-oldest}
use umans_dash_go.Images.Sorted.{sort_by_time, sort_by_time-Sorts}

abbrev image : Json
image = obj (
    field (codes "type") (str (codes "image_url"))
      (field (codes "image_url") (obj (field (codes "url") (str (codes "a")) end)) end))

abbrev message : Items → Json
message parts =
    obj (field (codes "role") (str (codes "user")) (field (codes "content") (arr parts) end))

-- One image in `system`, two in one message (one of them nested) and one in another.
abbrev four_images : Fields
four_images = field (codes "system") (arr (cons image nil)) (
    field (codes "messages")
      (arr (
        cons (message (cons image (cons (message (cons image nil)) nil)))
          (cons (message (cons image nil)) nil)))
      end)

collected : length (walk_payload typed_image four_images) ≡ 4
unfolding walk_payload walk_system walk_part walk_messages typed_image member same
collected = refl

limit_images_in_messages-count_example :
    (length (walk_payload typed_image (limit_images_in_messages sort_by_time (pos 2) four_images))
      ≤ 2)
    × (length (walk_payload typed_image four_images) ≤ 2
        → limit_images_in_messages sort_by_time (pos 2) four_images ≡ four_images)
limit_images_in_messages-count_example =
    limit_images_in_messages-count sort_by_time 2 four_images sort_by_time-Sorts (omega arith)

limit_images_in_messages-oldest_example :
    (victims : List ImgPart) × (limit_images_in_messages sort_by_time (pos 2) four_images
      ≡ write_payload typed_image (blank_listed victims) four_images)
    × (length victims ≡ length (walk_payload typed_image four_images) - 2)
    × ((test : ImgPart → Bool) → count test victims ≤ count test (image_parts four_images))
    × All
        (λ (p : ImgPart).
          All
            (λ (q : ImgPart). is_listed q.number victims ≡ false → p.time ≤ℤ q.time)
            (image_parts four_images))
        victims
limit_images_in_messages-oldest_example =
    limit_images_in_messages-oldest sort_by_time 2 four_images sort_by_time-Sorts (omega arith)
      (omega (arith, collected))
