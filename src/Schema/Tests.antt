-- ===== src/Schema/Tests.antt =====
-- Runs of the normalisation of schemas.
use umans_dash_go.Prelude.{◌≡◌, refl, true, false, none, some, [], Bytes, codes, same, arith}
use umans_dash_go.Json.{
  Json, Items, Fields, null, bool, num, str, arr, obj, nil, cons, end, field, member, arr_at,
}
use umans_dash_go.Schema.{
  type_key, enum_key, defs_key, definitions_key, normalize_enum_field, normalize_schema_map,
  is_dropped,
}
use umans_dash_go.Schema.Enum.{normalize_enum_field_lem, Within, Distinct, Covered, array_or_none}
use umans_dash_go.Schema.Plain.{plain_fields, plain_value, nest_fields, nest_value}
use umans_dash_go.Schema.Unchanged.{normalize_schema_map_plain}
use umans_dash_go.Schema.Scope.{Unique, local_at}

abbrev choices : Items
choices = cons (str (codes "a")) (cons null (cons (str (codes "a")) nil))

abbrev choice : Fields
choice = field enum_key (arr choices) end

enum_of : arr_at enum_key choice ≡ some choices
unfolding member same
enum_of = refl

abbrev as_written : Json → Bytes
as_written v = elim v [
  | null ↦ codes "null"
  | bool b ↦ []
  | num n ↦ n
  | str s ↦ s
  | arr xs ↦ []
  | obj m ↦ []
]

normalize_enum_field_lem_example :
    (ys : Items) × (member enum_key (normalize_enum_field as_written choice) ≡ array_or_none ys)
    × Within ys choices
    × Distinct as_written [] ys
    × Covered as_written [] ys choices
    × ((k : Bytes)
        → same enum_key k ≡ false
        → member k (normalize_enum_field as_written choice) ≡ member k choice)
normalize_enum_field_lem_example = normalize_enum_field_lem as_written choice choices enum_of

abbrev types : Items
types = cons (str (codes "null")) (cons (str (codes "string")) nil)

abbrev typed : Fields
typed = field type_key (arr types) end

types_of : arr_at type_key typed ≡ some types
unfolding member same
types_of = refl

own_defs : Unique (local_at defs_key (field defs_key (obj typed) end))
unfolding member same
own_defs = (refl, tt)

no_definitions : Unique (local_at definitions_key (field defs_key (obj typed) end))
unfolding member same
no_definitions = tt

-- `{"type": "object", "properties": {"a": {"type": "string"}}}`.
abbrev person : Fields
person = field type_key (str (codes "object")) (
    field (codes "properties")
      (obj (field (codes "a") (obj (field type_key (str (codes "string")) end)) end)) end)

person_plain : plain_fields person ≡ true
unfolding plain_value is_dropped same
person_plain = refl

person_nests : nest_fields person ≡ 2
unfolding nest_value
person_nests = refl

normalize_schema_map_plain_example :
    normalize_schema_map (λ s. s) as_written (λ s. end) 12 none person ≡ person
normalize_schema_map_plain_example =
    normalize_schema_map_plain (λ s. s) as_written (λ s. end) 12 none person person_plain
      (omega (arith, person_nests))
