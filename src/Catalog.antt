-- ===== src/Catalog.antt =====
-- The model catalogue of src/normalize.go: what `ApplyCatalogData` reads from it, the models it offers,
-- and the state of the caches that Catalog/Calls fills. `sort.Slice`, `strings.ToLower` and the regular
-- expression of `stripUmansPrefix` are parameters.
pub mod Calls
pub mod Models
pub mod Cached
mod Tests
use umans_dash_go.Prelude.{
  ℕ, ◌+◌, ◌*◌, Bool, true, false, not, ◌&&◌, ◌||◌, Option, none, some, List, [], ◌∷◌, ◌++◌, map,
  ltb, ◌==◌, since, if◌then◌else◌, Bytes, codes, same,
}
use umans_dash_go.Json.{
  Json, Items, Fields, null, bool, num, str, arr, obj, nil, cons, end, field, member, as_obj,
  as_arr, as_str, obj_at, str_at,
}
use umans_dash_go.Schema.{after_prefix}

pub record Capabilities : Type 0 where
  pub context_window : Option Json
  pub recommended_max_tokens : Option Json
  pub max_completion_tokens : Option Json
  pub supports_tools : Option Json
  pub supports_vision : Option Json
  pub reasoning : Option Json

pub record ModelInfo : Type 0 where
  pub display_name : Bytes
  pub capabilities : Capabilities

-- An entry of the maps `ModelInfoMap` and `DisplayNameMap`, which have their ids in common. Without a
-- `display_name` the second has no entry, and reading it gives the empty name.
pub record Model : Type 0 where
  pub id : Bytes
  pub info : ModelInfo
  pub name : Bytes

-- A nil `data` is no value.
pub record CatalogCache : Type 0 where
  pub data_map : Option Fields
  pub fetched_at : ℕ

pub record UpstreamModels : Type 0 where
  pub data_list : Items
  pub fetched_at : ℕ

pub record Catalog : Type 0 where
  pub base_url : Bytes
  pub api_key : Bytes
  pub enabled_models : List Bytes
  pub disabled_models : List Bytes
  pub vision_handoff_enabled : Bool
  pub models : List Model
  pub catalog_cache : Option CatalogCache
  pub upstream_models_cache : Option UpstreamModels
  pub user_info_cache : Option CatalogCache

-- Five minutes, for each of the three caches.
abbrev pub cache_ttl : ℕ
cache_ttl = 300_000_000_000

abbrev pub no_capabilities : Capabilities
no_capabilities = record {
  context_window = none;
  recommended_max_tokens = none;
  max_completion_tokens = none;
  supports_tools = none;
  supports_vision = none;
  reasoning = none;
}

unfoldable pub capabilities_of : Fields → Capabilities
capabilities_of info = elim (obj_at (codes "capabilities") info) [
  | none ↦ no_capabilities
  | some caps ↦ record {
    context_window = member (codes "context_window") caps;
    recommended_max_tokens = member (codes "recommended_max_tokens") caps;
    max_completion_tokens = member (codes "max_completion_tokens") caps;
    supports_tools = member (codes "supports_tools") caps;
    supports_vision = member (codes "supports_vision") caps;
    reasoning = member (codes "reasoning") caps;
  }
]

abbrev pub display_name_of : Fields → Bytes
display_name_of info = elim (str_at (codes "display_name") info) [ none ↦ [] | some name ↦ name ]

-- `strip_umans_prefix` replaces the matches of a regular expression; of the empty name it makes none.
unfoldable pub read_model : (Bytes → Bytes) → Bytes → Fields → Model
read_model strip_umans_prefix id info = record {
  id = id;
  info = record { display_name = display_name_of info; capabilities = capabilities_of info };
  name = elim (str_at (codes "display_name") info) [
    | none ↦ []
    | some name ↦ strip_umans_prefix name
  ];
}

unfoldable pub read_models : (Bytes → Bytes) → Fields → List Model
read_models strip_umans_prefix end = []
read_models strip_umans_prefix (field id v m) = elim (as_obj v) [
  | none ↦ read_models strip_umans_prefix m
  | some info ↦ read_model strip_umans_prefix id info ∷ read_models strip_umans_prefix m
]

-- A nil catalogue has no model.
abbrev pub catalog_models : (Bytes → Bytes) → Option Fields → List Model
catalog_models strip_umans_prefix catalog = elim catalog [
  | none ↦ []
  | some m ↦ read_models strip_umans_prefix m
]

unfoldable pub apply_catalog_data : (Bytes → Bytes) → Option Fields → Catalog → Catalog
apply_catalog_data strip_umans_prefix catalog p = record p {
  models = catalog_models strip_umans_prefix catalog;
}

unfoldable pub find_model : Bytes → List Model → Option Model
find_model id [] = none
find_model id (m ∷ ms) = if same m.id id then some m else find_model id ms

-- `a < b` on strings.
unfoldable pub before : Bytes → Bytes → Bool
before [] [] = false
before [] (y ∷ ys) = true
before (x ∷ xs) [] = false
before (x ∷ xs) (y ∷ ys) = ltb x y || x == y && before xs ys

module _ (to_lower : Bytes → Bytes) where
  -- The name an id is sorted by.
  unfoldable pub sort_name : List Model → Bytes → Bytes
  sort_name models id = elim (find_model id models) [
    | none ↦ to_lower id
    | some m ↦ if same m.name [] then to_lower id else to_lower m.name
  ]

  unfoldable pub model_less : List Model → Bytes → Bytes → Bool
  model_less models i j =
      if same (sort_name models i) (sort_name models j)
      then before i j
      else before (sort_name models i) (sort_name models j)

unfoldable pub is_among : Bytes → List Bytes → Bool
is_among id [] = false
is_among id (i ∷ ids) = same i id || is_among id ids

unfoldable pub without : List Bytes → List Bytes → List Bytes
without disabled [] = []
without disabled (id ∷ ids) =
    if is_among id disabled then without disabled ids else id ∷ without disabled ids

abbrev pub umans_prefix : Bytes
umans_prefix = codes "umans-"

-- The ids in the order of `sort.Slice` by `model_less`.
module _ (to_lower : Bytes → Bytes)
    (sort_slice : (Bytes → Bytes → Bool) → List Bytes → List Bytes) where
  unfoldable pub get_ordered_model_ids : Catalog → List Bytes
  get_ordered_model_ids p =
      sort_slice (model_less to_lower p.models) (map (λ (m : Model). m.id) p.models)

  unfoldable pub get_all_catalog_models : Catalog → List Bytes
  get_all_catalog_models p = elim (get_ordered_model_ids p) [
    | [] ↦ p.enabled_models
    | id ∷ ids ↦ id ∷ ids
  ]

  unfoldable pub get_effective_models : Catalog → List Bytes
  get_effective_models p = elim p.disabled_models [
    | [] ↦ get_all_catalog_models p
    | id ∷ ids ↦ without (id ∷ ids) (get_all_catalog_models p)
  ]

  -- The second loop looks for the id itself, which is the answer without it too.
  unfoldable pub resolve_model_id : Catalog → Bytes → Bytes
  resolve_model_id p [] = []
  resolve_model_id p (c ∷ cs) = elim (after_prefix umans_prefix (c ∷ cs)) [
    | some rest ↦ c ∷ cs
    | none ↦
        if is_among (umans_prefix ++ (c ∷ cs)) (get_effective_models p)
        then umans_prefix ++ (c ∷ cs)
        else c ∷ cs
  ]

unfoldable pub needs_vision_handoff : Catalog → Bytes → Bool
needs_vision_handoff p resolved = p.vision_handoff_enabled && (elim (find_model resolved p.models) [
  | none ↦ false
  | some m ↦ elim m.info.capabilities.supports_vision [
    | none ↦ false
    | some v ↦ elim (as_str v) [ none ↦ false | some s ↦ same s (codes "via-handoff") ]
  ]
])
