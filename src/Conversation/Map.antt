-- ===== src/Conversation/Map.antt =====
-- Maps and lists over fingerprints, for src/conversation.go.
use umans_dash_go.Prelude.{
  ℕ, ◌+◌, ◌≤◌, ◌≡◌, refl, Bool, false, ◌||◌, Option, none, some, List, [], ◌∷◌, arith,
  if◌then◌else◌, Bytes, same, same_iff, length,
}

module _ {V : Type 0} where
  unfoldable pub lookup : Bytes → List (Bytes × V) → Option V
  lookup k [] = none
  lookup k ((j, v) ∷ m) = if same j k then some v else lookup k m

  unfoldable pub insert : Bytes → V → List (Bytes × V) → List (Bytes × V)
  insert k v [] = (k, v) ∷ []
  insert k v ((j, w) ∷ m) = if same j k then (k, v) ∷ m else (j, w) ∷ insert k v m

  unfoldable pub delete : Bytes → List (Bytes × V) → List (Bytes × V)
  delete k [] = []
  delete k ((j, w) ∷ m) = if same j k then delete k m else (j, w) ∷ delete k m

  pub lookup-insert :
      (k j : Bytes) (v : V) (m : List (Bytes × V))
      → lookup j (insert k v m) ≡ (if same k j then some v else lookup j m)
  unfolding lookup insert
  lookup-insert k j v [] = refl
  lookup-insert k j v ((i, w) ∷ m) =
      ground (arith, same_iff k j, same_iff i k, same_iff i j, lookup-insert k j v m)

  pub lookup-delete :
      (k j : Bytes) (m : List (Bytes × V))
      → lookup j (delete k m) ≡ (if same k j then none else lookup j m)
  unfolding lookup delete
  lookup-delete k j [] = ground arith
  lookup-delete k j ((i, w) ∷ m) =
      ground (arith, same_iff k j, same_iff i k, same_iff i j, lookup-delete k j m)

  pub length-delete-le : (k : Bytes) (m : List (Bytes × V)) → length (delete k m) ≤ length m
  unfolding delete
  length-delete-le k [] = omega arith
  length-delete-le k ((i, w) ∷ m) = ground (arith, length-delete-le k m)

  pub length-insert :
      (k : Bytes) (v : V) (m : List (Bytes × V))
      → length (insert k v m)
        ≡ (elim (lookup k m) as (λ _. ℕ) [ none ↦ length m + 1 | some w ↦ length m ])
  unfolding lookup insert
  length-insert k v [] = refl
  length-insert k v ((i, w) ∷ m) = ground (arith, length-insert k v m)

  pub length-delete :
      (k : Bytes) (m : List (Bytes × V)) (w : V)
      → lookup k m ≡ some w
      → length (delete k m) + 1 ≤ length m
  unfolding lookup delete
  length-delete k [] w e = cc
  length-delete k ((i, x) ∷ m) w e = ground (arith, length-delete k m w, length-delete-le k m)

unfoldable pub contains : Bytes → List Bytes → Bool
contains k [] = false
contains k (j ∷ l) = same j k || contains k l

-- Takes the element out of a list that has it at most once.
unfoldable pub remove : Bytes → List Bytes → List Bytes
remove k [] = []
remove k (j ∷ l) = if same j k then l else j ∷ remove k l

-- The value of `Back()`, and the list without it.
unfoldable pub last : List Bytes → Option Bytes
last [] = none
last (j ∷ []) = some j
last (j ∷ i ∷ l) = last (i ∷ l)

unfoldable pub drop_last : List Bytes → List Bytes
drop_last [] = []
drop_last (j ∷ []) = []
drop_last (j ∷ i ∷ l) = j ∷ drop_last (i ∷ l)
