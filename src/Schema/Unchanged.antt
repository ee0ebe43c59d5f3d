-- ===== src/Schema/Unchanged.antt =====
-- That `normalizeSchemaMap` of src/normalize.go leaves plain schemas alone.
use umans_dash_go.Prelude.{
  ℕ, zero, suc, ◌≤◌, ◌<◌, ◌≡◌, refl, ◌∙◌, ap, true, false, Option, none, some, Bytes, codes, same,
  arith, Option-cases, inl, inr,
}
use umans_dash_go.Json.{
  Json, Items, Fields, null, bool, num, str, arr, obj, nil, cons, end, field, member, is_null,
}
use umans_dash_go.Schema.{
  ref_key, enum_key, const_key, child_defs, try_resolve_ref, simplify_nullable_combinator,
  normalize_type_field, normalize_enum_field, drop_null_const, tidy, is_dropped, normalize_value,
  normalize_items, normalize_fields, normalize_schema_map,
}
use umans_dash_go.Schema.Plain.{
  is_plain, plain_value, plain_items, plain_fields, nest_value, nest_items, nest_fields, clash,
  items_parts, plain_first, plain_member, plain_absent, not_dropped, never_plain, plain_type,
}

null_refused : is_plain const_key null ≡ false
unfolding same is_dropped
null_refused = refl

plain_const :
    (m : Fields) (v : Json)
    → plain_fields m ≡ true
    → member const_key m ≡ some v
    → is_null v ≡ false
plain_const m null h e =
    absurd (clash (is_plain const_key null) (plain_member const_key m null h e) null_refused)
plain_const m (bool b) h e = refl
plain_const m (num n) h e = refl
plain_const m (str s) h e = refl
plain_const m (arr xs) h e = refl
plain_const m (obj o) h e = refl

drop_null_const_plain : (m : Fields) → plain_fields m ≡ true → drop_null_const m ≡ m
unfolding drop_null_const
drop_null_const_plain m h = elim (Option-cases (member const_key m)) [
  | inl e ↦ ground (arith, e)
  | inr (v, e) ↦ ground (arith, e, plain_const m v h e)
]

simplify_plain :
    (key : Bytes) (m : Fields) → member key m ≡ none → simplify_nullable_combinator key m ≡ m
unfolding simplify_nullable_combinator
simplify_plain key m e = ground (arith, e)

module _ (trim : Bytes → Bytes) (marshal : Json → Bytes) (unmarshal : Bytes → Fields) where
  type_plain : (m : Fields) → plain_fields m ≡ true → normalize_type_field trim m ≡ m
  unfolding normalize_type_field
  type_plain m h = ground (arith, plain_type m h)

  enum_plain : (m : Fields) → plain_fields m ≡ true → normalize_enum_field marshal m ≡ m
  unfolding normalize_enum_field
  enum_plain m h = ground (arith, plain_absent enum_key m never_plain.5 h)

  tidy_plain : (m : Fields) → plain_fields m ≡ true → tidy trim marshal unmarshal m ≡ m
  unfolding tidy
  tidy_plain m h = rw (
    simplify_plain (codes "anyOf") m (plain_absent (codes "anyOf") m never_plain.3 h),
    simplify_plain (codes "oneOf") m (plain_absent (codes "oneOf") m never_plain.4 h),
    type_plain m h,
    enum_plain m h,
    drop_null_const_plain m h,
  )

  abbrev Keeps : ℕ → (Fields → Fields) → Type 0
  Keeps depth inner = (m : Fields) → plain_fields m ≡ true → nest_fields m < depth → inner m ≡ m

  mutual
    unfolding plain_value normalize_value nest_value

    value_plain :
        (depth : ℕ) (inner : Fields → Fields) (v : Json)
        → Keeps depth inner
        → plain_value v ≡ true
        → nest_value v ≤ depth
        → normalize_value inner v ≡ v
    value_plain depth inner null keeps h n = refl
    value_plain depth inner (bool b) keeps h n = refl
    value_plain depth inner (num s) keeps h n = refl
    value_plain depth inner (str s) keeps h n = refl
    value_plain depth inner (obj m) keeps h n = ap obj (keeps m h (omega (arith, n)))
    value_plain depth inner (arr xs) keeps h n = ap arr (items_plain depth inner xs keeps h n)

    items_plain :
        (depth : ℕ) (inner : Fields → Fields) (xs : Items)
        → Keeps depth inner
        → plain_items xs ≡ true
        → nest_items xs ≤ depth
        → normalize_items inner xs ≡ xs
    items_plain depth inner nil keeps h n = refl
    items_plain depth inner (cons v xs) keeps h n = rw (
      value_plain depth inner v keeps (items_parts v xs h).0 (omega (arith, n)),
      items_plain depth inner xs keeps (items_parts v xs h).1 (omega (arith, n)),
    )

  end_kept : (inner : Fields → Fields) → normalize_fields inner end ≡ end
  unfolding normalize_fields
  end_kept inner = refl

  field_kept :
      (inner : Fields → Fields) (k : Bytes) (v : Json) (m : Fields)
      → is_dropped k ≡ false
      → normalize_fields inner (field k v m)
        ≡ field k (normalize_value inner v) (normalize_fields inner m)
  unfolding normalize_fields
  field_kept inner k v m e = rw e

  nest_parts :
      (k : Bytes) (v : Json) (m : Fields) (depth : ℕ)
      → nest_fields (field k v m) ≤ depth
      → (nest_value v ≤ depth) × (nest_fields m ≤ depth)
  unfolding nest_value
  nest_parts k v m depth n = (omega (arith, n), omega (arith, n))

  fields_plain :
      (depth : ℕ) (inner : Fields → Fields) (m : Fields)
      → Keeps depth inner
      → plain_fields m ≡ true
      → nest_fields m ≤ depth
      → normalize_fields inner m ≡ m
  fields_plain depth inner end keeps h n = end_kept inner
  fields_plain depth inner (field k v m) keeps h n =
      field_kept inner k v m (not_dropped k v (plain_first k v m h).0)
      ∙ rw (
        value_plain depth inner v keeps (plain_first k v m h).1 (nest_parts k v m depth n).0,
        fields_plain depth inner m keeps (plain_first k v m h).2 (nest_parts k v m depth n).1,
      )

  no_ref_plain :
      (m : Fields) (defs : Option Fields)
      → plain_fields m ≡ true
      → try_resolve_ref trim marshal unmarshal m defs ≡ none
  unfolding try_resolve_ref
  no_ref_plain m defs h = ground (arith, plain_absent ref_key m never_plain.2 h)

  -- A schema with no reference, definition, `nullable`, `anyOf`, `oneOf`, `enum`, null `const` or list of
  -- types in it comes out as it was, where its objects nest less deep than the depth that is left.
  pub normalize_schema_map_plain :
      (depth : ℕ) (defs : Option Fields) (m : Fields)
      → plain_fields m ≡ true
      → nest_fields m < depth
      → normalize_schema_map trim marshal unmarshal depth defs m ≡ m
  unfolding normalize_schema_map
  normalize_schema_map_plain zero defs m h n = absurd (omega (arith, n))
  normalize_schema_map_plain (suc depth) defs m h n = ground (
    arith,
    no_ref_plain m (child_defs m defs) h,
    fields_plain depth (normalize_schema_map trim marshal unmarshal depth (child_defs m defs)) m
        (λ o. normalize_schema_map_plain depth (child_defs m defs) o) h (omega (arith, n)),
    tidy_plain m h,
  )
