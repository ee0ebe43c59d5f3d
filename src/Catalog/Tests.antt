-- ===== src/Catalog/Tests.antt =====
-- Runs of the catalogue.
use umans_dash_go.Prelude.{
  ◌≡◌, refl, Bool, true, false, Option, none, some, List, [], ◌∷◌, Bytes, codes, same,
}
use umans_dash_go.Json.{Fields, obj, end, field}
use umans_dash_go.Catalog.{Catalog, Model, no_capabilities, model_less}
use umans_dash_go.Catalog.Calls.{
  Request, Response, fetch_body, fetch_model_catalog, get_catalog_data, validate_api_key,
}
use umans_dash_go.Catalog.Models.{model_less_total}
use umans_dash_go.Catalog.Cached.{get_catalog_data_fails, validate_api_key_cached}

abbrev coder : Model
coder = record {
  id = codes "umans-coder";
  info = record { display_name = []; capabilities = no_capabilities };
  name = [];
}

abbrev start : Catalog
start = record {
  base_url = [];
  api_key = codes "k";
  enabled_models = [];
  disabled_models = codes "umans-old" ∷ [];
  vision_handoff_enabled = true;
  models = coder ∷ [];
  catalog_cache = none;
  upstream_models_cache = none;
  user_info_cache = none;
}

abbrev keep : Bytes → Bytes
keep s = s

abbrev document : Fields
document = field (codes "umans-coder") (obj end) end

abbrev up : Request → Option Response
up request = some (record { status = 200; body = some (obj document) })

abbrev down : Request → Option Response
down request = none

fetched : fetch_model_catalog keep up start ≡ some (some document)
unfolding fetch_model_catalog fetch_body
fetched = refl

unreachable : fetch_model_catalog keep down start ≡ none
unfolding fetch_model_catalog fetch_body
unreachable = refl

keyed : same start.api_key [] ≡ false
unfolding same
keyed = refl

first_call_failed : (get_catalog_data keep down keep 0 1 start).1 ≡ none
unfolding get_catalog_data fetch_model_catalog fetch_body
first_call_failed = refl

get_catalog_data_fails_example :
    (start.catalog_cache ≡ none)
    × (fetch_model_catalog keep down start ≡ none)
    × ((get_catalog_data keep down keep 0 1 start).0.catalog_cache
        ≡ some (record { data_map = none; fetched_at = 1 }))
get_catalog_data_fails_example = get_catalog_data_fails keep keep down 0 1 start first_call_failed

validate_api_key_cached_example :
    validate_api_key keep down keep 30 40 (validate_api_key keep up keep 10 20 start).0
    ≡ ((validate_api_key keep up keep 10 20 start).0, true)
validate_api_key_cached_example =
    validate_api_key_cached keep keep up down 10 20 30 40 start document keyed refl fetched refl

-- With the ids unsorted.
abbrev unsorted : (Bytes → Bytes → Bool) → List Bytes → List Bytes
unsorted less ids = ids

model_less_total_example :
    (model_less keep start.models (codes "a") (codes "b") ≡ true
      → model_less keep start.models (codes "b") (codes "a") ≡ false)
    × (model_less keep start.models (codes "a") (codes "b") ≡ false
        → model_less keep start.models (codes "b") (codes "a") ≡ false
        → codes "a" ≡ codes "b")
model_less_total_example = model_less_total keep start.models (codes "a") (codes "b")
