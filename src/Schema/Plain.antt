-- ===== src/Schema/Plain.antt =====
-- Schemas with nothing for `normalizeSchemaMap` of src/normalize.go to rewrite.
use umans_dash_go.Prelude.{
  ℕ, suc, max, ◌≡◌, refl, subst, Bool, true, false, not, ◌&&◌, none, some, Bytes, codes, same,
  same_iff, arith, Bool-cases, Option-cases, inl, inr,
}
use umans_dash_go.Json.{
  Json, Items, Fields, null, bool, num, str, arr, obj, nil, cons, end, field, member, is_null,
  as_arr, arr_at,
}
use umans_dash_go.Schema.{
  ref_key, defs_key, definitions_key, type_key, enum_key, const_key, is_dropped,
}

-- A field that the normalisation reads only to copy it.
abbrev pub is_plain : Bytes → Json → Bool
is_plain k v =
    not (is_dropped k)
    && not (same k ref_key)
    && not (same k (codes "anyOf"))
    && not (same k (codes "oneOf"))
    && not (same k enum_key)
    && not (same k type_key && (elim (as_arr v) [ none ↦ false | some ts ↦ true ]))
    && not (same k const_key && is_null v)

-- Every field, at any depth.
unfoldable mutual
  pub plain_value : Json → Bool
  plain_value (obj m) = plain_fields m
  plain_value (arr xs) = plain_items xs
  plain_value v = true

  pub plain_items : Items → Bool
  plain_items nil = true
  plain_items (cons v xs) = plain_value v && plain_items xs

  pub plain_fields : Fields → Bool
  plain_fields end = true
  plain_fields (field k v m) = is_plain k v && plain_value v && plain_fields m

-- How deep objects nest in the value.
unfoldable mutual
  pub nest_value : Json → ℕ
  nest_value (obj m) = suc (nest_fields m)
  nest_value (arr xs) = nest_items xs
  nest_value v = 0

  pub nest_items : Items → ℕ
  nest_items nil = 0
  nest_items (cons v xs) = max (nest_value v) (nest_items xs)

  pub nest_fields : Fields → ℕ
  nest_fields end = 0
  nest_fields (field k v m) = max (nest_value v) (nest_fields m)

pub clash : (b : Bool) → b ≡ true → b ≡ false → ⊥
clash b e f = ground (arith, e, f)

pub plain_first :
    (k : Bytes) (v : Json) (m : Fields)
    → plain_fields (field k v m) ≡ true
    → (is_plain k v ≡ true) × (plain_value v ≡ true) × (plain_fields m ≡ true)
unfolding plain_value
plain_first k v m h = go (is_plain k v) (plain_value v) h
  where
    go :
        (a b : Bool)
        → (a && b && plain_fields m) ≡ true
        → (a ≡ true) × (b ≡ true) × (plain_fields m ≡ true)
    go true true e = (refl, refl, e)
    go true false e = absurd (ground (arith, e))
    go false b e = absurd (ground (arith, e))

pub both_true : (a b : Bool) → (a && b) ≡ true → (a ≡ true) × (b ≡ true)
both_true true b e = (refl, e)
both_true false b e = absurd (ground (arith, e))

pub items_parts :
    (v : Json) (xs : Items)
    → plain_items (cons v xs) ≡ true
    → (plain_value v ≡ true) × (plain_items xs ≡ true)
unfolding plain_value
items_parts v xs h = both_true (plain_value v) (plain_items xs) h

pub plain_member :
    (k : Bytes) (m : Fields) (w : Json)
    → plain_fields m ≡ true
    → member k m ≡ some w
    → is_plain k w ≡ true
unfolding member
plain_member k end w h e = absurd (ground (arith, e))
plain_member k (field j v m) w h e = elim (Bool-cases (same j k)) [
  | inl f ↦
      subst (λ i. is_plain i w ≡ true) ((same_iff j k).0 f)
        (subst (λ u. is_plain j u ≡ true) (ground (arith, e, f)) (plain_first j v m h).0)
  | inr f ↦ plain_member k m w (plain_first j v m h).2 (ground (arith, e, f))
]

pub plain_absent :
    (k : Bytes) (m : Fields)
    → ((v : Json) → is_plain k v ≡ false)
    → plain_fields m ≡ true
    → member k m ≡ none
plain_absent k m never h = elim (Option-cases (member k m)) [
  | inl e ↦ e
  | inr (v, e) ↦ absurd (clash (is_plain k v) (plain_member k m v h e) (never v))
]

pub not_dropped : (k : Bytes) (v : Json) → is_plain k v ≡ true → is_dropped k ≡ false
not_dropped k v h = go (is_dropped k) h
  where
    go :
        (d : Bool)
        → (not d
            && not (same k ref_key)
            && not (same k (codes "anyOf"))
            && not (same k (codes "oneOf"))
            && not (same k enum_key)
            && not (same k type_key && (elim (as_arr v) [ none ↦ false | some ts ↦ true ]))
            && not (same k const_key && is_null v))
          ≡ true
        → d ≡ false
    go true e = absurd (ground (arith, e))
    go false e = refl

pub never_plain :
    ((v : Json) → is_plain definitions_key v ≡ false)
    × ((v : Json) → is_plain defs_key v ≡ false)
    × ((v : Json) → is_plain ref_key v ≡ false)
    × ((v : Json) → is_plain (codes "anyOf") v ≡ false)
    × ((v : Json) → is_plain (codes "oneOf") v ≡ false)
    × ((v : Json) → is_plain enum_key v ≡ false)
unfolding same is_dropped
never_plain = (λ v. refl, λ v. refl, λ v. refl, λ v. refl, λ v. refl, λ v. refl)

pub array_refused : (xs : Items) → is_plain type_key (arr xs) ≡ false
unfolding same is_dropped
array_refused xs = refl

pub plain_type : (m : Fields) → plain_fields m ≡ true → arr_at type_key m ≡ none
plain_type m h = elim (Option-cases (member type_key m)) [
  | inl e ↦ ground (arith, e)
  | inr (v, e) ↦ ground (arith, e, no_array v (plain_member type_key m v h e))
]
  where
    no_array : (v : Json) → is_plain type_key v ≡ true → as_arr v ≡ none
    no_array null e = refl
    no_array (bool b) e = refl
    no_array (num n) e = refl
    no_array (str s) e = refl
    no_array (obj m) e = refl
    no_array (arr xs) e = absurd (clash (is_plain type_key (arr xs)) e (array_refused xs))
