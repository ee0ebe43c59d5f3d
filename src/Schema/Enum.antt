-- ===== src/Schema/Enum.antt =====
-- What `NormalizeEnumField` and `NormalizeTypeField` of src/normalize.go leave of a schema.
use umans_dash_go.Prelude.{
  ◌≡◌, refl, Bool, true, false, ◌||◌, Option, none, some, List, [], ◌∷◌, if◌then◌else◌, Bytes,
  codes, same, same_iff, arith, Option-cases, inl, inr, if_split,
}
use umans_dash_go.Json.{
  Json, Items, Fields, null, bool, num, str, arr, obj, nil, cons, member, is_null, as_arr, as_str,
  arr_at,
}
use umans_dash_go.Json.Laws.{member-put, member-drop_key}
use umans_dash_go.Schema.{
  enum_key, type_key, enum_dedup_key, is_seen, dedup_enum, set_enum, normalize_enum_field,
  first_type, normalize_type_field,
}

-- The entries of `ys` are entries of `xs`, in their order.
pub data Within : Items → Items → Type 0 where
  none_left : Within nil nil
  skip : (v : Json) (ys xs : Items) → Within ys xs → Within ys (cons v xs)
  keep : (v : Json) (ys xs : Items) → Within ys xs → Within (cons v ys) (cons v xs)

abbrev pub AllItems : (Json → Type 0) → Items → Type 0
AllItems P nil = Unit
AllItems P (cons v xs) = P v × AllItems P xs

abbrev pub array_or_none : Items → Option Json
array_or_none nil = none
array_or_none (cons v xs) = some (arr (cons v xs))

module _ (marshal : Json → Bytes) where
  unfoldable pub has_key : Bytes → Items → Bool
  has_key key nil = false
  has_key key (cons v xs) = same (enum_dedup_key marshal v) key || has_key key xs

  -- No entry is null, and none has the key of one before it or of `seen`.
  abbrev pub Distinct : List Bytes → Items → Type 0
  Distinct seen nil = Unit
  Distinct seen (cons v xs) =
      (is_null v ≡ false)
      × (is_seen (enum_dedup_key marshal v) seen ≡ false)
      × Distinct (enum_dedup_key marshal v ∷ seen) xs

  -- Each entry but null has its key among `seen` or in `ys`.
  abbrev pub Covered : List Bytes → Items → Items → Type 0
  Covered seen ys xs =
      AllItems
        (λ v.
          (is_null v
            || is_seen (enum_dedup_key marshal v) seen
            || has_key (enum_dedup_key marshal v) ys)
          ≡ true)
        xs

  dedup_enum-Distinct :
      (seen : List Bytes) (xs : Items) → Distinct seen (dedup_enum marshal seen xs)
  unfolding dedup_enum
  dedup_enum-Distinct seen nil = tt
  dedup_enum-Distinct seen (cons v xs) =
      if_split (Distinct seen) (is_null v || is_seen (enum_dedup_key marshal v) seen)
        (dedup_enum marshal seen xs)
        (cons v (dedup_enum marshal (enum_dedup_key marshal v ∷ seen) xs))
        (λ old. dedup_enum-Distinct seen xs)
        (λ new. (
          ground (arith, new),
          ground (arith, new),
          dedup_enum-Distinct (enum_dedup_key marshal v ∷ seen) xs,
        ))

  dedup_enum-Within : (seen : List Bytes) (xs : Items) → Within (dedup_enum marshal seen xs) xs
  unfolding dedup_enum
  dedup_enum-Within seen nil = none_left
  dedup_enum-Within seen (cons v xs) =
      if_split (λ ys. Within ys (cons v xs)) (is_null v || is_seen (enum_dedup_key marshal v) seen)
        (dedup_enum marshal seen xs)
        (cons v (dedup_enum marshal (enum_dedup_key marshal v ∷ seen) xs))
        (λ old. skip v (dedup_enum marshal seen xs) xs (dedup_enum-Within seen xs))
        (λ new. keep v _ xs (dedup_enum-Within (enum_dedup_key marshal v ∷ seen) xs))

  Covered-keep :
      (seen : List Bytes) (v : Json) (ys xs : Items)
      → Covered (enum_dedup_key marshal v ∷ seen) ys xs
      → Covered seen (cons v ys) xs
  unfolding has_key is_seen
  Covered-keep seen v ys nil h = tt
  Covered-keep seen v ys (cons x xs) (h, hs) = (ground (arith, h), Covered-keep seen v ys xs hs)

  has_own : (v : Json) (ys : Items) → has_key (enum_dedup_key marshal v) (cons v ys) ≡ true
  unfolding has_key
  has_own v ys = ground (arith, same_iff (enum_dedup_key marshal v) (enum_dedup_key marshal v))

  dedup_enum-Covered :
      (seen : List Bytes) (xs : Items) → Covered seen (dedup_enum marshal seen xs) xs
  unfolding dedup_enum
  dedup_enum-Covered seen nil = tt
  dedup_enum-Covered seen (cons v xs) =
      if_split (λ ys. Covered seen ys (cons v xs))
        (is_null v || is_seen (enum_dedup_key marshal v) seen) (dedup_enum marshal seen xs)
        (cons v (dedup_enum marshal (enum_dedup_key marshal v ∷ seen) xs))
        (λ old. (ground (arith, old), dedup_enum-Covered seen xs))
        (λ new. (
          ground (arith, has_own v (dedup_enum marshal (enum_dedup_key marshal v ∷ seen) xs)),
          Covered-keep seen v _ xs (dedup_enum-Covered (enum_dedup_key marshal v ∷ seen) xs),
        ))

  member-set_enum :
      (k : Bytes) (ys : Items) (schema : Fields)
      → member k (set_enum ys schema)
        ≡ (if same enum_key k then array_or_none ys else member k schema)
  unfolding set_enum
  member-set_enum k nil schema = member-drop_key enum_key k schema
  member-set_enum k (cons v ys) schema = member-put enum_key k (arr (cons v ys)) schema

  -- The enumeration keeps entries of the old one in their order, none of them null and no two of one key,
  -- and every entry but null has its key among them; with none left the field is deleted. Every other
  -- field stays.
  pub normalize_enum_field_lem :
      (schema : Fields) (xs : Items)
      → arr_at enum_key schema ≡ some xs
      → (ys : Items) × (member enum_key (normalize_enum_field marshal schema) ≡ array_or_none ys)
        × Within ys xs
        × Distinct [] ys
        × Covered [] ys xs
        × ((k : Bytes)
            → same enum_key k ≡ false
            → member k (normalize_enum_field marshal schema) ≡ member k schema)
  unfolding normalize_enum_field
  normalize_enum_field_lem schema xs e = (
    dedup_enum marshal [] xs,
    ground (
      arith,
      e,
      same_iff enum_key enum_key,
      member-set_enum enum_key (dedup_enum marshal [] xs) schema,
    ),
    dedup_enum-Within [] xs,
    dedup_enum-Distinct [] xs,
    dedup_enum-Covered [] xs,
    λ k other. ground (arith, e, member-set_enum k (dedup_enum marshal [] xs) schema),
  )

abbrev pub as_text : Option Bytes → Option Json
as_text o = elim o [ none ↦ none | some s ↦ some (str s) ]

module _ (trim : Bytes → Bytes) where
  abbrev pub TypeOf : Json → Bytes → Type 0
  TypeOf t s = (as_str t ≡ some s) × (same s (codes "null") ≡ false) × (same (trim s) [] ≡ false)

  -- The first of the list that is a name, neither null nor blank.
  pub data FirstType : Items → Option Bytes → Type 0 where
    nowhere : FirstType nil none
    found : (t : Json) (s : Bytes) (ts : Items) → TypeOf t s → FirstType (cons t ts) (some s)
    later :
        (t : Json) (ts : Items) (o : Option Bytes)
        → ((s : Bytes) → ¬ TypeOf t s)
        → FirstType ts o
        → FirstType (cons t ts) o

  no_type : (t : Json) → as_str t ≡ none → (s : Bytes) → ¬ TypeOf t s
  no_type t e s (f, g, h) = ground (arith, e, f)

  first_type-FirstType : (ts : Items) → FirstType ts (first_type trim ts)
  unfolding first_type
  first_type-FirstType nil = nowhere
  first_type-FirstType (cons null ts) =
      later null ts (first_type trim ts) (no_type null refl) (first_type-FirstType ts)
  first_type-FirstType (cons (bool b) ts) =
      later (bool b) ts (first_type trim ts) (no_type (bool b) refl) (first_type-FirstType ts)
  first_type-FirstType (cons (num n) ts) =
      later (num n) ts (first_type trim ts) (no_type (num n) refl) (first_type-FirstType ts)
  first_type-FirstType (cons (arr xs) ts) =
      later (arr xs) ts (first_type trim ts) (no_type (arr xs) refl) (first_type-FirstType ts)
  first_type-FirstType (cons (obj m) ts) =
      later (obj m) ts (first_type trim ts) (no_type (obj m) refl) (first_type-FirstType ts)
  first_type-FirstType (cons (str s) ts) =
      if_split (FirstType (cons (str s) ts)) (same s (codes "null") || same (trim s) [])
        (first_type trim ts) (some s)
        (λ bad. later (str s) ts (first_type trim ts) (refused bad) (first_type-FirstType ts))
        (λ good. found (str s) s ts (refl, ground (arith, good), ground (arith, good)))
    where
      refused :
          (same s (codes "null") || same (trim s) []) ≡ true → (r : Bytes) → ¬ TypeOf (str s) r
      refused bad r (f, g, h) = ground (arith, bad, f, g, h)

  member-type :
      (k : Bytes) (schema : Fields) (ts : Items)
      → arr_at type_key schema ≡ some ts
      → member k (normalize_type_field trim schema)
        ≡ (if same type_key k then as_text (first_type trim ts) else member k schema)
  unfolding normalize_type_field
  member-type k schema ts e = elim (Option-cases (first_type trim ts)) [
    | inl f ↦ ground (arith, e, f, member-drop_key type_key k schema)
    | inr (s, f) ↦ ground (arith, e, f, member-put type_key k (str s) schema)
  ]

  -- Of a list of types the first name that is neither null nor blank becomes the type; with none the
  -- field is deleted. Every other field stays, and a second pass changes nothing.
  pub normalize_type_field_lem :
      (schema : Fields) (ts : Items)
      → arr_at type_key schema ≡ some ts
      → (o : Option Bytes) × FirstType ts o
        × (member type_key (normalize_type_field trim schema) ≡ as_text o)
        × ((k : Bytes)
            → same type_key k ≡ false
            → member k (normalize_type_field trim schema) ≡ member k schema)
        × (normalize_type_field trim (normalize_type_field trim schema)
            ≡ normalize_type_field trim schema)
  unfolding normalize_type_field
  normalize_type_field_lem schema ts e = (
    first_type trim ts,
    first_type-FirstType ts,
    ground (arith, member-type type_key schema ts e, same_iff type_key type_key),
    λ k other. ground (arith, member-type k schema ts e),
    ground (
      arith,
      text_only (first_type trim ts),
      member-type type_key schema ts e,
      same_iff type_key type_key,
    ),
  )
    where
      arrays : Option Json → Option Items
      arrays v = elim v [ none ↦ none | some w ↦ as_arr w ]

      text_only : (o : Option Bytes) → arrays (as_text o) ≡ none
      text_only none = refl
      text_only (some s) = refl
