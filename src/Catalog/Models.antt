-- ===== src/Catalog/Models.antt =====
-- The models that src/normalize.go offers, and how it finds and orders them.
use umans_dash_go.Prelude.{
  ◌≡◌, refl, sym, ap, ◌∙◌, Bool, true, false, not, ◌&&◌, some, List, [], ◌∷◌, ◌++◌, Bytes, same,
  same_iff, arith, Bool-cases, Option-cases, ◌⊎◌, inl, inr,
}
use umans_dash_go.Schema.{after_prefix}
use umans_dash_go.Catalog.{
  Catalog, Model, before, sort_name, model_less, get_all_catalog_models, is_among, without,
  get_effective_models, umans_prefix, resolve_model_id,
}

-- `<` on strings is a strict total order.
before_asym : (a b : Bytes) → before a b ≡ true → before b a ≡ false
unfolding before
before_asym [] [] h = refl
before_asym [] (y ∷ ys) h = refl
before_asym (x ∷ xs) [] h = absurd (ground (arith, h))
before_asym (x ∷ xs) (y ∷ ys) h = ground (arith, before_asym xs ys)

before_total : (a b : Bytes) → before a b ≡ false → before b a ≡ false → a ≡ b
unfolding before
before_total [] [] h k = refl
before_total [] (y ∷ ys) h k = absurd (ground (arith, h))
before_total (x ∷ xs) [] h k = absurd (ground (arith, k))
before_total (x ∷ xs) (y ∷ ys) h k = ground (arith, h, k, before_total xs ys)

-- The order of the ids is strict and total, so their sorted list is the only one.
pub model_less_total :
    (to_lower : Bytes → Bytes) (models : List Model) (i j : Bytes)
    → (model_less to_lower models i j ≡ true → model_less to_lower models j i ≡ false)
      × (model_less to_lower models i j ≡ false → model_less to_lower models j i ≡ false → i ≡ j)
unfolding model_less
model_less_total to_lower models i j = (
  λ h. ground (arith, h, flipped, before_asym i j, before_asym a b),
  λ h k. ground (arith, h, k, flipped, before_total i j, before_total a b, same_iff a b),
)
  where
    a : Bytes
    a = sort_name to_lower models i

    b : Bytes
    b = sort_name to_lower models j

    flipped : same b a ≡ same a b
    flipped = ground (arith, same_iff a b, same_iff b a)

among-without :
    (id : Bytes) (disabled ids : List Bytes)
    → is_among id (without disabled ids) ≡ is_among id ids && not (is_among id disabled)
unfolding is_among without
among-without id disabled [] = refl
among-without id disabled (i ∷ ids) = elim (Bool-cases (same i id)) [
  | inl e ↦
      ground (
        arith,
        e,
        among-without id disabled ids,
        ap (λ k. is_among k disabled) ((same_iff i id).0 e),
      )
  | inr e ↦ ground (arith, e, among-without id disabled ids)
]

true_and : (b : Bool) → b ≡ b && true
true_and true = refl
true_and false = refl

prefix_found : (prefix text : Bytes) → after_prefix prefix (prefix ++ text) ≡ some text
unfolding after_prefix
prefix_found [] text = refl
prefix_found (c ∷ prefix) text = ground (arith, prefix_found prefix text)

all_offered :
    (id : Bytes) (ids : List Bytes) → is_among id ids ≡ is_among id ids && not (is_among id [])
unfolding is_among
all_offered id ids = true_and (is_among id ids)

module _ (to_lower : Bytes → Bytes)
    (sort_slice : (Bytes → Bytes → Bool) → List Bytes → List Bytes) where
  -- A model is offered when it is in the catalogue (or, with an empty one, enabled) and not disabled.
  pub get_effective_models_lem :
      (p : Catalog) (id : Bytes)
      → is_among id (get_effective_models to_lower sort_slice p)
        ≡ is_among id (get_all_catalog_models to_lower sort_slice p)
          && not (is_among id p.disabled_models)
  unfolding get_effective_models
  get_effective_models_lem p id = go p.disabled_models
    where
      go :
          (disabled : List Bytes)
          → is_among id (elim disabled [
            | [] ↦ get_all_catalog_models to_lower sort_slice p
            | i ∷ ids ↦ without (i ∷ ids) (get_all_catalog_models to_lower sort_slice p)
          ])
            ≡ is_among id (get_all_catalog_models to_lower sort_slice p)
              && not (is_among id disabled)
      go [] = all_offered id (get_all_catalog_models to_lower sort_slice p)
      go (i ∷ ids) = among-without id (i ∷ ids) (get_all_catalog_models to_lower sort_slice p)

  resolve_prefixed :
      (p : Catalog) (rest : Bytes)
      → resolve_model_id to_lower sort_slice p (umans_prefix ++ rest) ≡ umans_prefix ++ rest
  unfolding resolve_model_id
  resolve_prefixed p rest = ground (arith, prefix_found umans_prefix rest)

  resolved :
      (p : Catalog) (id : Bytes)
      → (resolve_model_id to_lower sort_slice p id ≡ id)
        ⊎ (resolve_model_id to_lower sort_slice p id ≡ umans_prefix ++ id)
          × (is_among (umans_prefix ++ id) (get_effective_models to_lower sort_slice p) ≡ true)
  unfolding resolve_model_id
  resolved p [] = inl refl
  resolved p (c ∷ cs) = elim (Option-cases (after_prefix umans_prefix (c ∷ cs))) [
    | inr (rest, e) ↦ inl (ground (arith, e))
    | inl e ↦
        elim (Bool-cases
          (is_among (umans_prefix ++ (c ∷ cs)) (get_effective_models to_lower sort_slice p))) [
            | inl offered ↦ inr (ground (arith, e, offered), offered)
            | inr missing ↦ inl (ground (arith, e, missing))
          ]
  ]

  -- A resolved id is the one asked for or has the prefix before it, in which case it is offered; and it
  -- resolves to itself.
  pub resolve_model_id_lem :
      (p : Catalog) (id : Bytes)
      → ((resolve_model_id to_lower sort_slice p id ≡ id)
          ⊎ (resolve_model_id to_lower sort_slice p id ≡ umans_prefix ++ id)
            × (is_among (umans_prefix ++ id) (get_effective_models to_lower sort_slice p) ≡ true))
        × (resolve_model_id to_lower sort_slice p (resolve_model_id to_lower sort_slice p id)
            ≡ resolve_model_id to_lower sort_slice p id)
  resolve_model_id_lem p id = elim (resolved p id) [
    | inl e ↦ (inl e, ap (resolve_model_id to_lower sort_slice p) e)
    | inr (e, offered) ↦ (
      inr (e, offered),
      ap (resolve_model_id to_lower sort_slice p) e ∙ resolve_prefixed p id ∙ sym e,
    )
  ]
