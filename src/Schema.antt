-- ===== src/Schema.antt =====
-- The normalisation of tool schemas in src/normalize.go: `NormalizeToolSchemas`, `normalizeSchemaMap` and
-- what they call. The code writes into a map it has just made; each function here returns it. The depth
-- that `normalizeSchemaMap` counts down from 12 is the recursion of `normalize_schema_map`.
pub mod Plain
pub mod Unchanged
pub mod Enum
pub mod Scope
mod Tests
use umans_dash_go.Prelude.{
  ℕ, zero, suc, Bool, true, false, not, ◌&&◌, ◌||◌, Option, none, some, List, [], ◌∷◌, ◌++◌, ◌==◌,
  if◌then◌else◌, Bytes, codes, same,
}
use umans_dash_go.Json.{
  Json, Items, Fields, null, bool, num, str, arr, obj, nil, cons, end, field, member, put, put_all,
  drop_key, has, is_null, as_obj, as_arr, as_str, obj_at, arr_at, str_at, text_at, map_items,
  count_fields,
}
use umans_dash_go.Payload.{unless_empty}

abbrev pub ref_key : Bytes
ref_key = codes "$ref"

abbrev pub defs_key : Bytes
defs_key = codes "$defs"

abbrev pub definitions_key : Bytes
definitions_key = codes "definitions"

abbrev pub type_key : Bytes
type_key = codes "type"

abbrev pub enum_key : Bytes
enum_key = codes "enum"

abbrev pub const_key : Bytes
const_key = codes "const"

-- The nil map is no value.
abbrev pub merge_at : Bytes → Fields → Fields → Fields
merge_at key schema merged = elim (obj_at key schema) [
  | none ↦ merged
  | some defs ↦ put_all defs merged
]

unfoldable pub extract_definitions : Fields → Option Fields
extract_definitions schema =
    unless_empty (merge_at defs_key schema (merge_at definitions_key schema end))

abbrev pub defined : Option Fields → Fields
defined none = end
defined (some defs) = defs

-- The definitions in scope inside of a node.
unfoldable pub child_defs : Fields → Option Fields → Option Fields
child_defs node defs = elim (extract_definitions node) [
  | none ↦ defs
  | some local ↦ some (put_all local (put_all (defined defs) end))
]

-- `strings.HasPrefix`, and what follows the prefix.
unfoldable pub after_prefix : Bytes → Bytes → Option Bytes
after_prefix [] text = some text
after_prefix (c ∷ prefix) [] = none
after_prefix (c ∷ prefix) (d ∷ text) = if c == d then after_prefix prefix text else none

unfoldable pub ref_name : Bytes → Option Bytes
ref_name ref = elim (after_prefix (codes "#/definitions/") ref) [
  | some name ↦ some name
  | none ↦ after_prefix (codes "#/$defs/") ref
]

-- `isNullSchema`.
abbrev pub only_null : Items → Bool
only_null (cons null nil) = true
only_null _ = false

unfoldable pub is_null_schema : Json → Bool
is_null_schema schema = elim (as_obj schema) [
  | none ↦ false
  | some m ↦
      same (text_at type_key m) (codes "null")
      || (elim (member const_key m) [ none ↦ false | some v ↦ is_null v ])
      || (elim (arr_at enum_key m) [ none ↦ false | some xs ↦ only_null xs ])
]

unfoldable pub non_null_options : Items → Items
non_null_options nil = nil
non_null_options (cons v xs) =
    if is_null_schema v then non_null_options xs else cons v (non_null_options xs)

-- The end of `SimplifyNullableCombinator`.
unfoldable pub set_options : Bytes → Items → Fields → Fields
set_options key nil schema = drop_key key schema
set_options key (cons (obj m) nil) schema = put_all m (drop_key key schema)
set_options key filtered schema = put key (arr filtered) schema

unfoldable pub simplify_nullable_combinator : Bytes → Fields → Fields
simplify_nullable_combinator key schema = elim (arr_at key schema) [
  | none ↦ schema
  | some options ↦ set_options key (non_null_options options) schema
]

-- `trim` is `strings.TrimSpace`.
module _ (trim : Bytes → Bytes) where
  -- The first name in a list of types that is neither null nor blank.
  unfoldable pub first_type : Items → Option Bytes
  first_type nil = none
  first_type (cons t ts) = elim (as_str t) [
    | none ↦ first_type ts
    | some s ↦ if same s (codes "null") || same (trim s) [] then first_type ts else some s
  ]

  unfoldable pub normalize_type_field : Fields → Fields
  normalize_type_field schema = elim (arr_at type_key schema) [
    | none ↦ schema
    | some ts ↦ elim (first_type ts) [
      | none ↦ drop_key type_key schema
      | some s ↦ put type_key (str s) schema
    ]
  ]

-- `%T`.
abbrev pub type_name : Json → Bytes
type_name null = codes "<nil>"
type_name (bool b) = codes "bool"
type_name (num n) = codes "float64"
type_name (str s) = codes "string"
type_name (arr xs) = codes "[]interface {}"
type_name (obj m) = codes "map[string]interface {}"

unfoldable pub is_seen : Bytes → List Bytes → Bool
is_seen key [] = false
is_seen key (s ∷ seen) = same s key || is_seen key seen

unfoldable pub set_enum : Items → Fields → Fields
set_enum nil schema = drop_key enum_key schema
set_enum (cons v xs) schema = put enum_key (arr (cons v xs)) schema

-- `json.Marshal` and, below, `json.Unmarshal`, with their errors dropped.
module _ (marshal : Json → Bytes) where
  unfoldable pub enum_dedup_key : Json → Bytes
  enum_dedup_key entry = type_name entry ++ codes ":" ++ marshal entry

  -- The loop of `NormalizeEnumField`, with the keys it has seen.
  unfoldable pub dedup_enum : List Bytes → Items → Items
  dedup_enum seen nil = nil
  dedup_enum seen (cons entry xs) =
      if is_null entry || is_seen (enum_dedup_key entry) seen
      then dedup_enum seen xs
      else cons entry (dedup_enum (enum_dedup_key entry ∷ seen) xs)

  unfoldable pub normalize_enum_field : Fields → Fields
  normalize_enum_field schema = elim (arr_at enum_key schema) [
    | none ↦ schema
    | some xs ↦ set_enum (dedup_enum [] xs) schema
  ]

unfoldable pub drop_null_const : Fields → Fields
drop_null_const schema = elim (member const_key schema) [
  | none ↦ schema
  | some v ↦ if is_null v then drop_key const_key schema else schema
]

-- `normalizeSchemaValue`, where `inner` is `normalizeSchemaMap` on the objects inside.
unfoldable mutual
  pub normalize_value : (Fields → Fields) → Json → Json
  normalize_value inner (obj m) = obj (inner m)
  normalize_value inner (arr xs) = arr (normalize_items inner xs)
  normalize_value inner v = v

  pub normalize_items : (Fields → Fields) → Items → Items
  normalize_items inner nil = nil
  normalize_items inner (cons v xs) = cons (normalize_value inner v) (normalize_items inner xs)

unfoldable pub is_dropped : Bytes → Bool
is_dropped key = same key definitions_key || same key defs_key || same key (codes "nullable")

unfoldable pub normalize_fields : (Fields → Fields) → Fields → Fields
normalize_fields inner end = end
normalize_fields inner (field k v m) =
    if is_dropped k
    then normalize_fields inner m
    else field k (normalize_value inner v) (normalize_fields inner m)

-- The parameters of a tool's function, and the tool with others.
abbrev pub parameters_of : Json → Option Fields
parameters_of tool = elim (as_obj tool) [
  | none ↦ none
  | some t ↦ elim (obj_at (codes "function") t) [
    | none ↦ none
    | some fn ↦ obj_at (codes "parameters") fn
  ]
]

unfoldable pub has_schema_refs_or_defs : Items → Bool
has_schema_refs_or_defs nil = false
has_schema_refs_or_defs (cons tool tools) = elim (parameters_of tool) [
  | none ↦ has_schema_refs_or_defs tools
  | some params ↦
      has ref_key params
      || has defs_key params
      || has definitions_key params
      || has_schema_refs_or_defs tools
]

module _ (trim : Bytes → Bytes) (marshal : Json → Bytes) (unmarshal : Bytes → Fields) where
  unfoldable pub deep_clone_map : Fields → Fields
  deep_clone_map m = unmarshal (marshal (obj m))

  unfoldable pub try_resolve_ref : Fields → Option Fields → Option Fields
  try_resolve_ref node defs = elim defs [
    | none ↦ none
    | some scope ↦ elim (str_at ref_key node) [
      | none ↦ none
      | some ref ↦
          if count_fields node == 1
          then (elim (ref_name ref) [
            | none ↦ none
            | some name ↦ elim (obj_at name scope) [
              | none ↦ none
              | some m ↦ some (deep_clone_map m)
            ]
          ])
          else none
    ]
  ]

  unfoldable pub tidy : Fields → Fields
  tidy normalized = drop_null_const (
      normalize_enum_field marshal (
        normalize_type_field trim (
          simplify_nullable_combinator (codes "oneOf")
            (simplify_nullable_combinator (codes "anyOf") normalized))))

  unfoldable pub normalize_schema_map : ℕ → Option Fields → Fields → Fields
  normalize_schema_map zero defs node = deep_clone_map node
  normalize_schema_map (suc depth) defs node = elim (try_resolve_ref node (child_defs node defs)) [
    | some resolved ↦ normalize_schema_map depth (child_defs node defs) resolved
    | none ↦ tidy (normalize_fields (normalize_schema_map depth (child_defs node defs)) node)
  ]

  unfoldable pub normalize_tool : Json → Json
  normalize_tool tool = elim (as_obj tool) [
    | none ↦ tool
    | some t ↦ elim (obj_at (codes "function") t) [
      | none ↦ tool
      | some fn ↦ elim (obj_at (codes "parameters") fn) [
        | none ↦ tool
        | some params ↦ obj (
            put (codes "function")
              (obj (
                put (codes "parameters")
                  (obj (normalize_schema_map 12 (extract_definitions params) params)) fn))
              t)
      ]
    ]
  ]

  unfoldable pub normalize_tool_schemas : Items → Items
  normalize_tool_schemas tools =
      if has_schema_refs_or_defs tools then map_items normalize_tool tools else tools
