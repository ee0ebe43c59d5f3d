-- ===== src/Images/Numbers.antt =====
-- The numbers and the times that `LimitImagesInMessages` (src/normalize.go) gives to the images.
use umans_dash_go.Prelude.{
  ℕ, zero, suc, ◌+◌, ◌≤◌, ◌≡◌, refl, subst, sym, ap, ◌∙◌, Bool, true, false, not, Option, none,
  some, List, [], ◌∷◌, ◌++◌, ◌≤ℤ◌, if◌then◌else◌, ℤ, pos, negsuc, codes, same, length,
  length-append, All, arith,
}
use umans_dash_go.Json.{Json, Items, Fields, nil, cons, member, arr_at}
use umans_dash_go.Payload.{messages_key}
use umans_dash_go.Images.{
  walk_part, walk_messages, walk_message, walk_system, walk_payload, typed_image, content_key,
  ImgPart, stamp, message_parts, image_parts, is_listed, previously_shared, blank_listed,
}
use umans_dash_go.Images.Walk.{kept, kept_add, zero_add, Blind}

abbrev pub count : (ImgPart → Bool) → List ImgPart → ℕ
count test [] = 0
count test (p ∷ ps) = (if test p then 1 else 0) + count test ps

abbrev pub Ordered : List ImgPart → Type 0
Ordered [] = Unit
Ordered (p ∷ ps) = All (λ (q : ImgPart). p.time ≤ℤ q.time) ps × Ordered ps

-- `sort.Slice` leaves the same parts, and none before an older one. Parts of one time have no order.
abbrev pub Sorts : (List ImgPart → List ImgPart) → Type 0
Sorts sort_parts =
    (ps : List ImgPart)
    → ((test : ImgPart → Bool) → count test (sort_parts ps) ≡ count test ps)
      × Ordered (sort_parts ps)

abbrev pub unlisted : List ImgPart → ImgPart → Bool
unlisted victims p = not (is_listed p.number victims)

pub count-append :
    (test : ImgPart → Bool) (ps qs : List ImgPart)
    → count test (ps ++ qs) ≡ count test ps + count test qs
count-append test [] qs = omega arith
count-append test (p ∷ ps) qs = omega (arith, count-append test ps qs)

pub count_le : (test : ImgPart → Bool) (ps : List ImgPart) → count test ps ≤ length ps
count_le test [] = omega arith
count_le test (p ∷ ps) = ground (arith, count_le test ps)

count_all : (ps : List ImgPart) → count (λ p. true) ps ≡ length ps
count_all [] = refl
count_all (p ∷ ps) = ground (arith, count_all ps)

-- Each part stands in a list that holds it.
listed_weaken :
    (victims : List ImgPart) (p : ImgPart) (n : ℕ)
    → is_listed n victims ≡ true
    → is_listed n (p ∷ victims) ≡ true
unfolding is_listed
listed_weaken victims p n e = ground (arith, e)

pub All-map {ℓ κ} :
    {A : Type 0} {P : A → Type ℓ} {R : A → Type κ}
    → ((a : A) → P a → R a)
    → (xs : List A) → All P xs
    → All R xs
All-map f [] h = tt
All-map f (x ∷ xs) (h, hs) = (f x h, All-map f xs hs)

pub listed_each : (ps : List ImgPart) → All (λ (p : ImgPart). is_listed p.number ps ≡ true) ps
unfolding is_listed
listed_each [] = tt
listed_each (p ∷ ps) =
    (ground arith, All-map (λ q. listed_weaken ps p q.number) ps (listed_each ps))

pub none_counted :
    (test : ImgPart → Bool) (ps : List ImgPart) → All (λ p. test p ≡ false) ps → count test ps ≡ 0
none_counted test [] h = refl
none_counted test (p ∷ ps) (h, hs) = ground (arith, h, none_counted test ps hs)

pub fails_each :
    (test : ImgPart → Bool) (ps : List ImgPart) → count test ps ≡ 0 → All (λ p. test p ≡ false) ps
fails_each test [] e = tt
fails_each test (p ∷ ps) e = (ground (arith, e), fails_each test ps (ground (arith, e)))

-- The numbers of the parts run from 0 on.
count-stamp :
    (victims : List ImgPart) (n : ℕ) (time : ℤ) (k : ℕ)
    → count (unlisted victims) (stamp n time k) ≡ kept (blank_listed victims) n k
unfolding stamp kept
count-stamp victims n time zero = refl
count-stamp victims n time (suc k) = ground (arith, count-stamp victims (suc n) time k)

length-stamp : (n : ℕ) (time : ℤ) (k : ℕ) → length (stamp n time k) ≡ k
unfolding stamp
length-stamp n time zero = refl
length-stamp n time (suc k) = omega (arith, length-stamp (suc n) time k)

count-message_parts :
    (victims : List ImgPart) (n index : ℕ) (ms : Items)
    → count (unlisted victims) (message_parts n index ms)
      ≡ kept (blank_listed victims) n (length (walk_messages typed_image ms))
unfolding message_parts walk_messages kept
count-message_parts victims n index nil = refl
count-message_parts victims n index (cons v ms) = ground (
  arith,
  count-append (unlisted victims) (stamp n (pos index) (length (walk_message typed_image v)))
      (message_parts (n + length (walk_message typed_image v)) (suc index) ms),
  count-stamp victims n (pos index) (length (walk_message typed_image v)),
  count-message_parts victims (n + length (walk_message typed_image v)) (suc index) ms,
  kept_add (blank_listed victims) n (length (walk_message typed_image v))
      (length (walk_messages typed_image ms)),
  ap (kept (blank_listed victims) n)
      (length-append (walk_message typed_image v) (walk_messages typed_image ms)),
)

type_apart : same content_key (codes "type") ≡ false
unfolding same
type_apart = refl

pub typed_image-Blind : Blind typed_image
unfolding typed_image
typed_image-Blind m m' h = ground (arith, h (codes "type") type_apart)

no_image : walk_part typed_image previously_shared ≡ []
unfolding walk_part typed_image same member
no_image = refl

pub blank_listed-Clean :
    (victims : List ImgPart) (n : ℕ) (w : Json)
    → blank_listed victims n ≡ some w
    → walk_part typed_image w ≡ []
blank_listed-Clean victims n w e = subst (λ v. walk_part typed_image v ≡ []) written no_image
  where
    written : previously_shared ≡ w
    written = ground (arith, e)

abbrev numbered : ℕ → Option Items → List ImgPart
numbered n o = elim o [ none ↦ [] | some ms ↦ message_parts n 0 ms ]

abbrev walked : Option Items → List (Unit {0})
walked o = elim o [ none ↦ [] | some ms ↦ walk_messages typed_image ms ]

count-numbered :
    (victims : List ImgPart) (n : ℕ) (o : Option Items)
    → count (unlisted victims) (numbered n o) ≡ kept (blank_listed victims) n (length (walked o))
unfolding kept
count-numbered victims n none = refl
count-numbered victims n (some ms) = count-message_parts victims n 0 ms

pub count-image_parts :
    (victims : List ImgPart) (payload : Fields)
    → count (unlisted victims) (image_parts payload)
      ≡ kept (blank_listed victims) 0 (length (walk_payload typed_image payload))
unfolding image_parts walk_payload
count-image_parts victims payload =
    count-append (unlisted victims) (stamp 0 (negsuc 0) before) (numbered before messages)
    ∙ omega (
      arith,
      count-stamp victims 0 (negsuc 0) before,
      count-numbered victims before messages,
      kept_add (blank_listed victims) 0 before (length (walked messages)),
      ap (λ i. kept (blank_listed victims) i (length (walked messages))) (zero_add before),
      ap (kept (blank_listed victims) 0)
          (length-append (walk_system typed_image payload) (walked messages)),
    )
  where
    before : ℕ
    before = length (walk_system typed_image payload)

    messages : Option Items
    messages = arr_at messages_key payload

kept_all : (n k : ℕ) → kept (blank_listed []) n k ≡ k
unfolding kept is_listed
kept_all n zero = refl
kept_all n (suc k) = omega (arith, kept_all (suc n) k)

unlisted_all : (ps : List ImgPart) → count (unlisted []) ps ≡ length ps
unfolding is_listed
unlisted_all ps = count_all ps

pub length-image_parts :
    (payload : Fields) → length (image_parts payload) ≡ length (walk_payload typed_image payload)
length-image_parts payload =
    sym (unlisted_all (image_parts payload))
    ∙ count-image_parts [] payload
    ∙ kept_all 0 (length (walk_payload typed_image payload))

pub length-sort_parts :
    (sort_parts : List ImgPart → List ImgPart) (ps : List ImgPart)
    → Sorts sort_parts
    → length (sort_parts ps) ≡ length ps
length-sort_parts sort_parts ps sorts =
    sym (count_all (sort_parts ps)) ∙ (sorts ps).0 (λ p. true) ∙ count_all ps
