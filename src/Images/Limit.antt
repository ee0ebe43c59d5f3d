-- ===== src/Images/Limit.antt =====
-- `LimitImagesInMessages` of src/normalize.go: how many images it leaves, and which.
use umans_dash_go.Prelude.{
  All-append, ℕ, zero, suc, ◌-◌, ◌≤◌, ◌<◌, ◌≡◌, refl, subst, sym, ap, ◌∙◌, Bool, true, false, not,
  ◌&&◌, ◌||◌, List, [], ◌∷◌, leb_ℤ, ◌≤ℤ◌, pos, length, take, drop, take-append-drop, length-drop,
  length-take, All, arith, if_split,
}
use umans_dash_go.Json.{Fields}
use umans_dash_go.Images.{
  walk_payload, write_payload, typed_image, ImgPart, image_parts, is_listed, blank_listed,
  limit_images_in_messages,
}
use umans_dash_go.Images.Walk.{write_payload-Bounded}
use umans_dash_go.Images.Numbers.{
  count, Ordered, Sorts, unlisted, count-append, count_le, All-map, listed_each, none_counted,
  fails_each, count-image_parts, length-image_parts, length-sort_parts, typed_image-Blind,
  blank_listed-Clean,
}

-- The parts that are not among the first `k` of the sorted ones.
rest_counted :
    (sort_parts : List ImgPart → List ImgPart) (ps : List ImgPart) (k : ℕ)
    → Sorts sort_parts
    → count (unlisted (take k (sort_parts ps))) ps ≤ length ps - k
rest_counted sort_parts ps k sorts = omega (
  arith,
  (sorts ps).0 (unlisted (take k (sort_parts ps))),
  length-sort_parts sort_parts ps sorts,
  length-drop k (sort_parts ps),
  count_le (unlisted (take k (sort_parts ps))) (drop k (sort_parts ps)),
  none_counted (unlisted (take k (sort_parts ps))) (take k (sort_parts ps)) all_taken,
  count-append (unlisted (take k (sort_parts ps))) (take k (sort_parts ps))
      (drop k (sort_parts ps)),
  ap (count (unlisted (take k (sort_parts ps)))) (take-append-drop k (sort_parts ps)),
)
  where
    all_taken : All (λ p. unlisted (take k (sort_parts ps)) p ≡ false) (take k (sort_parts ps))
    all_taken =
        All-map (λ p e. rw e refl) (take k (sort_parts ps)) (listed_each (take k (sort_parts ps)))

-- At most `n` images are left, where `n` is positive; with no more than that nothing is changed.
pub limit_images_in_messages-count :
    (sort_parts : List ImgPart → List ImgPart) (n : ℕ) (payload : Fields)
    → Sorts sort_parts
    → 0 < n
    → (length (walk_payload typed_image (limit_images_in_messages sort_parts (pos n) payload)) ≤ n)
      × (length (walk_payload typed_image payload) ≤ n
          → limit_images_in_messages sort_parts (pos n) payload ≡ payload)
unfolding limit_images_in_messages
limit_images_in_messages-count sort_parts n payload sorts positive = (
  if_split (λ after. length (walk_payload typed_image after) ≤ n)
      (leb_ℤ (pos n) (pos 0) || leb_ℤ (pos (length (image_parts payload))) (pos n)) payload
      (write_payload typed_image (blank_listed victims) payload)
      (λ few. ground (arith, few, length-image_parts payload, positive))
      (λ many. omega (
        arith,
        write_payload-Bounded typed_image (blank_listed victims) typed_image-Blind
            (blank_listed-Clean victims) payload,
        count-image_parts victims payload,
        rest_counted sort_parts (image_parts payload) (length (image_parts payload) - n) sorts,
      )),
  λ few. ground (arith, few, length-image_parts payload),
)
  where
    victims : List ImgPart
    victims = take (length (image_parts payload) - n) (sort_parts (image_parts payload))

older_of_not :
    (p q : ImgPart) (victims : List ImgPart)
    → (not (leb_ℤ p.time q.time) && unlisted victims q) ≡ false
    → is_listed q.number victims ≡ false
    → p.time ≤ℤ q.time
older_of_not p q victims e f = ground (arith, e, f)

All-drop {κ} : (P : ImgPart → Type κ) (k : ℕ) (ps : List ImgPart) → All P ps → All P (drop k ps)
All-drop P zero ps h = h
All-drop P (suc k) [] h = tt
All-drop P (suc k) (p ∷ ps) (h, hs) = All-drop P k ps hs

-- Of a sorted list, the first parts are no newer than the others.
taken_older :
    (k : ℕ) (ps : List ImgPart)
    → Ordered ps
    → All (λ (p : ImgPart). All (λ (q : ImgPart). p.time ≤ℤ q.time) (drop k ps)) (take k ps)
taken_older zero ps h = tt
taken_older (suc k) [] h = tt
taken_older (suc k) (p ∷ ps) (h, hs) =
    (All-drop (λ (q : ImgPart). p.time ≤ℤ q.time) k ps h, taken_older k ps hs)

newest_kept :
    (sort_parts : List ImgPart → List ImgPart) (ps : List ImgPart) (k : ℕ) (p : ImgPart)
    → Sorts sort_parts
    → All (λ (q : ImgPart). p.time ≤ℤ q.time) (drop k (sort_parts ps))
    → All
        (λ (q : ImgPart). is_listed q.number (take k (sort_parts ps)) ≡ false → p.time ≤ℤ q.time)
        ps
newest_kept sort_parts ps k p sorts later =
    All-map {P = λ q. newer q ≡ false}
      {R = λ (q : ImgPart). is_listed q.number taken ≡ false → p.time ≤ℤ q.time}
      (λ q e f. older_of_not p q taken e f) ps
      (fails_each newer ps
        (sym ((sorts ps).0 newer) ∙ none_counted newer (sort_parts ps) none_newer))
  where
    taken : List ImgPart
    taken = take k (sort_parts ps)

    newer : ImgPart → Bool
    newer q = not (leb_ℤ p.time q.time) && unlisted taken q

    none_newer : All (λ q. newer q ≡ false) (sort_parts ps)
    none_newer = subst (All (λ q. newer q ≡ false)) (take-append-drop k (sort_parts ps)) (
        All-append (λ q. newer q ≡ false) taken (drop k (sort_parts ps))
          (All-map {P = λ (q : ImgPart). is_listed q.number taken ≡ true} {R = λ q. newer q ≡ false}
            (λ q e. ground (arith, e)) taken (listed_each taken))
          (All-map {P = λ (q : ImgPart). p.time ≤ℤ q.time} {R = λ q. newer q ≡ false}
            (λ q e. ground (arith, e)) (drop k (sort_parts ps)) later))

length-taken :
    (sort_parts : List ImgPart → List ImgPart) (ps : List ImgPart) (n : ℕ)
    → Sorts sort_parts
    → length (take (length ps - n) (sort_parts ps)) ≡ length ps - n
length-taken sort_parts ps n sorts =
    omega
      (arith, length-sort_parts sort_parts ps sorts, length-take (length ps - n) (sort_parts ps))

-- A test holds for no more of the sorted list's first parts than of the parts.
count-taken :
    (sort_parts : List ImgPart → List ImgPart) (ps : List ImgPart) (k : ℕ) (test : ImgPart → Bool)
    → Sorts sort_parts
    → count test (take k (sort_parts ps)) ≤ count test ps
count-taken sort_parts ps k test sorts = omega (
  arith,
  (sorts ps).0 test,
  count-append test (take k (sort_parts ps)) (drop k (sort_parts ps)),
  ap (count test) (take-append-drop k (sort_parts ps)),
)

-- Of more images than `n`, as many as are too many are written over. The list of those has no part that is
-- not an image of the payload, with its number and time, and none oftener: whatever a test asks of a part, it
-- holds for at most as many of them. None of them is newer than an image that is left.
pub limit_images_in_messages-oldest :
    (sort_parts : List ImgPart → List ImgPart) (n : ℕ) (payload : Fields)
    → Sorts sort_parts
    → 0 < n
    → n < length (walk_payload typed_image payload)
    → (victims : List ImgPart) × (limit_images_in_messages sort_parts (pos n) payload
        ≡ write_payload typed_image (blank_listed victims) payload)
      × (length victims ≡ length (walk_payload typed_image payload) - n)
      × ((test : ImgPart → Bool) → count test victims ≤ count test (image_parts payload))
      × All
          (λ (p : ImgPart).
            All
              (λ (q : ImgPart). is_listed q.number victims ≡ false → p.time ≤ℤ q.time)
              (image_parts payload))
          victims
unfolding limit_images_in_messages
limit_images_in_messages-oldest sort_parts n payload sorts positive many = (
  victims,
  if_split (λ after. after ≡ write_payload typed_image (blank_listed victims) payload)
      (leb_ℤ (pos n) (pos 0) || leb_ℤ (pos (length (image_parts payload))) (pos n)) payload
      (write_payload typed_image (blank_listed victims) payload)
      (λ few. absurd (ground (arith, few, length-image_parts payload))) (λ more. refl),
  length-taken sort_parts (image_parts payload) n sorts
      ∙ ap (λ l. l - n) (length-image_parts payload),
  λ test. count-taken sort_parts (image_parts payload) over test sorts,
  All-map
      {P = λ (p : ImgPart).
        All (λ (q : ImgPart). p.time ≤ℤ q.time) (drop over (sort_parts (image_parts payload)))}
      (λ p later. newest_kept sort_parts (image_parts payload) over p sorts later) victims
      (taken_older over (sort_parts (image_parts payload)) (sorts (image_parts payload)).1),
)
  where
    over : ℕ
    over = length (image_parts payload) - n

    victims : List ImgPart
    victims = take over (sort_parts (image_parts payload))
