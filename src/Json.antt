-- ===== src/Json.antt =====
-- What encoding/json decodes into an `interface{}`, as src/normalize.go reads and rewrites it. An object
-- is a Go map: a list of its fields, each key once. A number is the text of its literal, which no code
-- looks into. Reading a missing key gives no value, and an assertion `x.(T)` that fails none either.
pub mod Laws
use umans_dash_go.Prelude.{
  ℕ, suc, Bool, true, false, Option, none, some, List, [], ◌∷◌, if◌then◌else◌, Bytes, same,
}

mutual
  pub data Json : Type 0 where
    null : Json
    bool : Bool → Json
    num str : Bytes → Json
    arr : Items → Json
    obj : Fields → Json

  pub data Items : Type 0 where
    nil : Items
    cons : Json → Items → Items

  pub data Fields : Type 0 where
    end : Fields
    field : Bytes → Json → Fields → Fields

-- `m[key]`, `m[key] = v` and `delete(m, key)`.
unfoldable pub member : Bytes → Fields → Option Json
member key end = none
member key (field k v m) = if same k key then some v else member key m

unfoldable pub put : Bytes → Json → Fields → Fields
put key w end = field key w end
put key w (field k v m) = if same k key then field k w m else field k v (put key w m)

unfoldable pub drop_key : Bytes → Fields → Fields
drop_key key end = end
drop_key key (field k v m) = if same k key then drop_key key m else field k v (drop_key key m)

-- `for k, v := range m { into[k] = v }`.
unfoldable pub put_all : Fields → Fields → Fields
put_all end into = into
put_all (field k v m) into = put_all m (put k v into)

abbrev pub has : Bytes → Fields → Bool
has key m = elim (member key m) [ none ↦ false | some v ↦ true ]

abbrev pub count_fields : Fields → ℕ
count_fields end = 0
count_fields (field k v m) = suc (count_fields m)

abbrev pub as_obj : Json → Option Fields
as_obj (obj m) = some m
as_obj _ = none

abbrev pub as_arr : Json → Option Items
as_arr (arr xs) = some xs
as_arr _ = none

abbrev pub as_str : Json → Option Bytes
as_str (str s) = some s
as_str _ = none

abbrev pub as_bool : Json → Option Bool
as_bool (bool b) = some b
as_bool _ = none

abbrev pub is_null : Json → Bool
is_null null = true
is_null _ = false

-- The same on `m[key]`, where a missing value fails too.
abbrev pub obj_at : Bytes → Fields → Option Fields
obj_at key m = elim (member key m) [ none ↦ none | some v ↦ as_obj v ]

abbrev pub arr_at : Bytes → Fields → Option Items
arr_at key m = elim (member key m) [ none ↦ none | some v ↦ as_arr v ]

abbrev pub str_at : Bytes → Fields → Option Bytes
str_at key m = elim (member key m) [ none ↦ none | some v ↦ as_str v ]

abbrev pub bool_at : Bytes → Fields → Option Bool
bool_at key m = elim (member key m) [ none ↦ none | some v ↦ as_bool v ]

-- `s, _ := m[key].(string)`.
abbrev pub text_at : Bytes → Fields → Bytes
text_at key m = elim (str_at key m) [ none ↦ [] | some s ↦ s ]

unfoldable pub map_items : (Json → Json) → Items → Items
map_items f nil = nil
map_items f (cons v xs) = cons (f v) (map_items f xs)

unfoldable pub append_items : Items → Items → Items
append_items nil ys = ys
append_items (cons x xs) ys = cons x (append_items xs ys)

abbrev pub count_items : Items → ℕ
count_items nil = 0
count_items (cons x xs) = suc (count_items xs)
