-- ===== src/ErrorLog/Redacted.antt =====
-- No secret field and no sensitive header reaches the error log of src/errors.go with its value.
use umans_dash_go.Prelude.{
  zero, suc, ℕ, ◌≡◌, refl, ap, ◌∙◌, true, List, [], ◌∷◌, ◌++◌, leb, if◌then◌else◌, if_split, Bytes,
  codes, same, length, take, length-take, length-append, arith, Bool-cases, inl, inr, All,
}
use umans_dash_go.Json.{Json, Items, Fields, null, bool, num, str, arr, obj, nil, cons, end, field}
use umans_dash_go.Mask.{truncate_body}
use umans_dash_go.ErrorLog.{
  is_secret, is_sensitive, redacted, content_key, redact_walk, redact_items, redact_content,
  redact_fields, redact_headers, redact_header,
}

module _ (to_lower : Bytes → Bytes) where
  -- Each field with a secret name, at any depth, has no value but the mark.
  unfoldable mutual
    pub Clean : Json → Type 0
    Clean (obj m) = CleanFields m
    Clean (arr vs) = CleanItems vs
    Clean null = Unit {0}
    Clean (bool b) = Unit {0}
    Clean (num t) = Unit {0}
    Clean (str t) = Unit {0}

    pub CleanItems : Items → Type 0
    CleanItems nil = Unit {0}
    CleanItems (cons v vs) = Clean v × CleanItems vs

    pub CleanFields : Fields → Type 0
    CleanFields end = Unit {0}
    CleanFields (field k v m) =
        (is_secret (to_lower k) ≡ true → v ≡ str redacted) × Clean v × CleanFields m

  -- The value that a field keeps.
  abbrev kept : Bytes → Json → Json
  kept k v =
      if is_secret (to_lower k)
      then str redacted
      else if same k content_key
      then redact_content to_lower v
      else redact_walk to_lower v

  mutual
    unfolding Clean CleanItems CleanFields redact_walk redact_items redact_content redact_fields

    walk-Clean : (v : Json) → Clean (redact_walk to_lower v)
    walk-Clean (obj m) = fields-Clean m
    walk-Clean (arr vs) = items-Clean vs
    walk-Clean null = tt
    walk-Clean (bool b) = tt
    walk-Clean (num t) = tt
    walk-Clean (str t) = tt

    content-Clean : (v : Json) → Clean (redact_content to_lower v)
    content-Clean (obj m) = fields-Clean m
    content-Clean (arr vs) = items-Clean vs
    content-Clean null = tt
    content-Clean (bool b) = tt
    content-Clean (num t) = tt
    content-Clean (str t) = tt

    items-Clean : (vs : Items) → CleanItems (redact_items to_lower vs)
    items-Clean nil = tt
    items-Clean (cons v vs) = (walk-Clean v, items-Clean vs)

    fields-Clean : (m : Fields) → CleanFields (redact_fields to_lower m)
    fields-Clean end = tt
    fields-Clean (field k v m) = (
      λ secret. ground (arith, secret),
      if_split Clean (is_secret (to_lower k)) (str redacted)
          (if same k content_key then redact_content to_lower v else redact_walk to_lower v)
          (λ secret. tt)
          (λ plain.
            if_split Clean (same k content_key) (redact_content to_lower v) (redact_walk to_lower v)
              (λ c. content-Clean v) (λ c. walk-Clean v)),
      fields-Clean m,
    )

take_exact : (n : ℕ) (xs ys : Bytes) → length xs ≡ n → take n (xs ++ ys) ≡ xs
take_exact n [] ys e = ap (λ k. take k ys) {y = 0} (omega (arith, e))
take_exact zero (x ∷ xs) ys e = absurd (omega (arith, e))
take_exact (suc n) (x ∷ xs) ys e = ap (x ∷◌) (take_exact n xs ys (omega (arith, e)))

-- A text that was cut is cut at the same place again.
truncate_body_twice : (t : Bytes) (n : ℕ) → truncate_body (truncate_body t n) n ≡ truncate_body t n
unfolding truncate_body
truncate_body_twice t n = elim (Bool-cases (leb (length t) n)) [
  | inl short ↦ ground (arith, short)
  | inr long ↦ ground (
    arith,
    long,
    length-take n t,
    length-append (take n t) (codes "...[truncated]"),
    take_exact n (take n t) (codes "...[truncated]"),
  )
]

module _ (to_lower : Bytes → Bytes) where
  -- A field that a value was kept for keeps it when it is redacted again.
  field_again :
      (k : Bytes) (v : Json) (m : Fields)
      → redact_content to_lower (redact_content to_lower v) ≡ redact_content to_lower v
      → redact_walk to_lower (redact_walk to_lower v) ≡ redact_walk to_lower v
      → redact_fields to_lower (redact_fields to_lower m) ≡ redact_fields to_lower m
      → redact_fields to_lower (redact_fields to_lower (field k v m))
        ≡ redact_fields to_lower (field k v m)
  unfolding redact_fields
  field_again k v m content walk fields = elim (Bool-cases (is_secret (to_lower k))) [
    | inl secret ↦ ground (arith, secret, fields)
    | inr plain ↦ elim (Bool-cases (same k content_key)) [
      | inl c ↦ ground (arith, plain, c, content, fields)
      | inr c ↦ ground (arith, plain, c, walk, fields)
    ]
  ]

  mutual
    unfolding redact_walk redact_items redact_content

    walk_again : (v : Json) → redact_walk to_lower (redact_walk to_lower v) ≡ redact_walk to_lower v
    walk_again (obj m) = ap obj (fields_again m)
    walk_again (arr vs) = ap arr (items_again vs)
    walk_again null = refl
    walk_again (bool b) = refl
    walk_again (num t) = refl
    walk_again (str t) = refl

    content_again :
        (v : Json) → redact_content to_lower (redact_content to_lower v) ≡ redact_content to_lower v
    content_again (obj m) = ap obj (fields_again m)
    content_again (arr vs) = ap arr (items_again vs)
    content_again null = refl
    content_again (bool b) = refl
    content_again (num t) = refl
    content_again (str t) = ap str (truncate_body_twice t 2000)

    items_again :
        (vs : Items) → redact_items to_lower (redact_items to_lower vs) ≡ redact_items to_lower vs
    items_again nil = refl
    items_again (cons v vs) =
        ap (λ w. cons w (redact_items to_lower (redact_items to_lower vs))) (walk_again v)
        ∙ ap (cons (redact_walk to_lower v)) (items_again vs)

    fields_again :
        (m : Fields) → redact_fields to_lower (redact_fields to_lower m) ≡ redact_fields to_lower m
    fields_again end = refl
    fields_again (field k v m) = field_again k v m (content_again v) (walk_again v) (fields_again m)

  -- A sensitive header has the mark for its values.
  abbrev pub Masked : Bytes × List Bytes → Type 0
  Masked (k, values) = is_sensitive (to_lower k) ≡ true → values ≡ redacted ∷ []

  header-Masked : (h : Bytes × List Bytes) → Masked (redact_header to_lower h)
  header-Masked (k, values) =
      if_split Masked (is_sensitive (to_lower k)) (k, redacted ∷ []) (k, values)
        (λ sensitive marked. refl) (λ plain marked. absurd (ground (arith, plain, marked)))

  headers-Masked : (hs : List (Bytes × List Bytes)) → All Masked (redact_headers to_lower hs)
  unfolding redact_headers
  headers-Masked [] = tt
  headers-Masked (h ∷ hs) = (header-Masked h, headers-Masked hs)

  -- What is logged of a decoded body has no value but the mark for any field with a secret name, at any
  -- depth, and redacting it once more changes nothing; of the headers the sensitive ones have the mark.
  pub redact_walk-Clean :
      (v : Json) (hs : List (Bytes × List Bytes))
      → Clean to_lower (redact_walk to_lower v)
        × (redact_walk to_lower (redact_walk to_lower v) ≡ redact_walk to_lower v)
        × All Masked (redact_headers to_lower hs)
  redact_walk-Clean v hs = (walk-Clean to_lower v, walk_again v, headers-Masked hs)
