-- ===== src/Catalog/Calls.antt =====
-- The calls of src/normalize.go that fetch the catalogue and cache it: `FetchModelCatalog`,
-- `GetCatalogData`, `FetchUpstreamModels` and `ValidateApiKey`. The HTTP client and `strings.TrimRight`
-- are parameters. A call reads the time when it looks at its cache and again when it fills it.
use umans_dash_go.Prelude.{
  ℕ, Bool, true, false, Option, none, some, [], ◌++◌, ltb, ◌==◌, since, if◌then◌else◌, Bytes, codes,
  same,
}
use umans_dash_go.Json.{Json, Items, Fields, null, obj}
use umans_dash_go.Catalog.{Catalog, CatalogCache, cache_ttl, apply_catalog_data}

pub record Request : Type 0 where
  pub url : Bytes
  pub authorization : Option Bytes

-- An answer with its decoded body; a body that is no JSON is no value.
pub record Response : Type 0 where
  pub status : ℕ
  pub body : Option Json

-- What decoding into a map gives: a JSON null leaves it nil.
abbrev pub as_map : Json → Option (Option Fields)
as_map null = some none
as_map (obj m) = some (some m)
as_map _ = none

-- What a cache holds, while it is fresh.
abbrev pub held_models : ℕ → Catalog → Option Items
held_models now p = elim p.upstream_models_cache [
  | none ↦ none
  | some c ↦ if ltb (since now c.fetched_at) cache_ttl then some c.data_list else none
]

abbrev pub held_catalog : ℕ → Option CatalogCache → Option (Option Fields)
held_catalog now cache = elim cache [
  | none ↦ none
  | some c ↦ if ltb (since now c.fetched_at) cache_ttl then some c.data_map else none
]

abbrev pub is_map : Option Fields → Bool
is_map catalog = elim catalog [ none ↦ false | some m ↦ true ]

-- `trim_right` takes the slashes off the end; no value of `perform` is an error of `http.NewRequest` or of the client.
module _ (trim_right : Bytes → Bytes) (perform : Request → Option Response) where
  unfoldable pub request_of : Bytes → Catalog → Request
  request_of path p = record {
    url =
        trim_right (if same p.base_url [] then codes "https://api.code.umans.ai/v1" else p.base_url)
        ++ path;
    authorization = if same p.api_key [] then none else some (codes "Bearer " ++ p.api_key);
  }

  -- The decoded body of an answer with status 200.
  unfoldable pub fetch_body : Bytes → Catalog → Option Json
  fetch_body path p = elim (perform (request_of path p)) [
    | none ↦ none
    | some response ↦ if response.status == 200 then response.body else none
  ]

  unfoldable pub fetch_model_catalog : Catalog → Option (Option Fields)
  fetch_model_catalog p = elim (fetch_body (codes "/models/info") p) [
    | none ↦ none
    | some body ↦ as_map body
  ]

  -- `decode` is the decoder of the document into its field `data`; no value is its error.
  module _ (decode : Json → Option Items) where
    unfoldable pub fetch_upstream_models : ℕ → ℕ → Catalog → Catalog × Option Items
    fetch_upstream_models now later p = elim (held_models now p) [
      | some xs ↦ (p, some xs)
      | none ↦ elim (fetch_body (codes "/models") p) [
        | none ↦ (p, none)
        | some body ↦ elim (decode body) [
          | none ↦ (p, none)
          | some xs ↦ (
            record p {
              upstream_models_cache = some (record { data_list = xs; fetched_at = later });
            },
            some xs,
          )
        ]
      ]
    ]

  module _ (strip_umans_prefix : Bytes → Bytes) where
    -- The function that `GetCatalogData` hands to its group, which runs it once at a time.
    unfoldable pub get_catalog_data : ℕ → ℕ → Catalog → Catalog × Option (Option Fields)
    get_catalog_data now later p = elim (held_catalog now p.catalog_cache) [
      | some catalog ↦ (p, some catalog)
      | none ↦ elim (fetch_model_catalog p) [
        | some catalog ↦ (
          apply_catalog_data strip_umans_prefix catalog (record p {
            catalog_cache = some (record { data_map = catalog; fetched_at = later });
          }),
          some catalog,
        )
        | none ↦ elim p.catalog_cache [
          | some stale ↦ (p, some stale.data_map)
          | none ↦ (
            record p { catalog_cache = some (record { data_map = none; fetched_at = later }) },
            none,
          )
        ]
      ]
    ]

    unfoldable pub validate_api_key : ℕ → ℕ → Catalog → Catalog × Bool
    validate_api_key now later p =
        if same p.api_key [] then (p, false) else (elim (held_catalog now p.user_info_cache) [
          | some catalog ↦ (p, is_map catalog)
          | none ↦ elim (fetch_model_catalog p) [
            | none ↦ (p, false)
            | some catalog ↦ (
              apply_catalog_data strip_umans_prefix catalog (record p {
                user_info_cache = some (record { data_map = catalog; fetched_at = later });
              }),
              true,
            )
          ]
        ])
