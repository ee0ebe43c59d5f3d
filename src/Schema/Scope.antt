-- ===== src/Schema/Scope.antt =====
-- The definitions that `normalizeSchemaMap` of src/normalize.go has in scope, and what a reference to one
-- of them becomes.
use umans_dash_go.Prelude.{
  ◌≡◌, refl, subst, ◌∙◌, ap, Option, none, some, Bytes, same, same_iff, arith, Bool-cases,
  Option-cases, inl, inr, if_split,
}
use umans_dash_go.Json.{Json, Fields, end, field, member, put, put_all, obj_at}
use umans_dash_go.Json.Laws.{member-put}
use umans_dash_go.Payload.{unless_empty}
use umans_dash_go.Schema.{
  defs_key, definitions_key, extract_definitions, merge_at, defined, child_defs,
}

-- A Go map has each key once.
abbrev pub Unique : Fields → Type 0
Unique end = Unit
Unique (field k v m) = (member k m ≡ none) × Unique m

abbrev pub first_of : Option Json → Option Json → Option Json
first_of none w = w
first_of (some v) w = some v

member-put_all :
    (k : Bytes) (m into : Fields)
    → Unique m
    → member k (put_all m into) ≡ first_of (member k m) (member k into)
unfolding put_all member
member-put_all k end into u = refl
member-put_all k (field j v m) into (fresh, u) = elim (Bool-cases (same j k)) [
  | inl e ↦ ground (
    arith,
    e,
    gone ((same_iff j k).0 e),
    member-put_all k m (put j v into) u,
    member-put j k v into,
  )
  | inr e ↦ ground (arith, e, member-put_all k m (put j v into) u, member-put j k v into)
]
  where
    gone : j ≡ k → member k m ≡ none
    gone e = subst (λ i. member i m ≡ none) e fresh

put-Unique : (k : Bytes) (v : Json) (m : Fields) → Unique m → Unique (put k v m)
unfolding put member
put-Unique k v end u = (refl, tt)
put-Unique k v (field j w m) (fresh, u) =
    if_split Unique (same j k) (field j v m) (field j w (put k v m)) (λ e. (fresh, u))
      (λ e. (
        member-put k j v m ∙ ground (arith, e, fresh, same_iff k j, same_iff j k),
        put-Unique k v m u,
      ))

put_all-Unique : (m into : Fields) → Unique into → Unique (put_all m into)
unfolding put_all
put_all-Unique end into u = u
put_all-Unique (field k v m) into u = put_all-Unique m (put k v into) (put-Unique k v into u)

abbrev pub local_at : Bytes → Fields → Fields
local_at key node = elim (obj_at key node) [ none ↦ end | some defs ↦ defs ]

merge_at-local :
    (key : Bytes) (node merged : Fields)
    → merge_at key node merged ≡ put_all (local_at key node) merged
unfolding put_all
merge_at-local key node merged = elim (Option-cases (obj_at key node)) [
  | inl e ↦ ground (arith, e)
  | inr (defs, e) ↦ ground (arith, e)
]

abbrev merged_defs : Fields → Fields
merged_defs node = put_all (local_at defs_key node) (put_all (local_at definitions_key node) end)

extract_definitions-merged :
    (node : Fields) → extract_definitions node ≡ unless_empty (merged_defs node)
unfolding extract_definitions
extract_definitions-merged node = ap unless_empty (
    merge_at-local defs_key node (merge_at definitions_key node end)
    ∙ ap (put_all (local_at defs_key node)) (merge_at-local definitions_key node end))

abbrev scoped : Fields → Option Fields → Option Fields → Option Fields
scoped node defs o = elim o [
  | none ↦ defs
  | some local ↦ some (put_all local (put_all (defined defs) end))
]

or_end : (k : Bytes) (o : Option Json) → first_of o (member k end) ≡ o
unfolding member
or_end k none = refl
or_end k (some w) = refl

member-scoped :
    (node : Fields) (defs : Option Fields) (k : Bytes) (l : Fields)
    → Unique (defined defs)
    → Unique l
    → member k (defined (scoped node defs (unless_empty l)))
      ≡ first_of (member k l) (member k (defined defs))
unfolding member
member-scoped node defs k end u ul = refl
member-scoped node defs k (field j v l) u ul =
    member-put_all k (field j v l) (put_all (defined defs) end) ul
    ∙ ap (first_of (member k (field j v l)))
        (member-put_all k (defined defs) end u ∙ or_end k (member k (defined defs)))

-- A name means what the node's own `$defs` say, else its `definitions`, else what it meant outside.
pub member-child_defs :
    (node : Fields) (defs : Option Fields) (k : Bytes)
    → Unique (defined defs)
    → Unique (local_at defs_key node)
    → Unique (local_at definitions_key node)
    → member k (defined (child_defs node defs))
      ≡ first_of
          (member k (local_at defs_key node))
          (first_of (member k (local_at definitions_key node)) (member k (defined defs)))
unfolding child_defs
member-child_defs node defs k u ud ue =
    ap (λ o. member k (defined (scoped node defs o))) (extract_definitions-merged node)
    ∙ member-scoped node defs k (merged_defs node) u (
        put_all-Unique (local_at defs_key node) (put_all (local_at definitions_key node) end)
          (put_all-Unique (local_at definitions_key node) end tt))
    ∙ ap (λ o. first_of o (member k (defined defs))) merged
    ∙ assoc (member k (local_at defs_key node)) (member k (local_at definitions_key node))
  where
    merged :
        member k (merged_defs node)
        ≡ first_of (member k (local_at defs_key node)) (member k (local_at definitions_key node))
    merged =
        member-put_all k (local_at defs_key node) (put_all (local_at definitions_key node) end) ud
        ∙ ap (first_of (member k (local_at defs_key node))) (
            member-put_all k (local_at definitions_key node) end ue
            ∙ or_end k (member k (local_at definitions_key node)))

    assoc :
        (a b : Option Json)
        → first_of (first_of a b) (member k (defined defs))
          ≡ first_of a (first_of b (member k (defined defs)))
    assoc none b = refl
    assoc (some v) b = refl
