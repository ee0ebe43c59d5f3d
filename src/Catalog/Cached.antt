-- ===== src/Catalog/Cached.antt =====
-- What the calls of Catalog/Calls (src/normalize.go) answer from their caches, and when they fail.
use umans_dash_go.Prelude.{
  ℕ, ◌≡◌, refl, true, false, Option, none, some, [], ltb, since, Bytes, same, arith, Option-cases,
  inl, inr,
}
use umans_dash_go.Json.{Fields}
use umans_dash_go.Catalog.{Catalog, CatalogCache, cache_ttl, apply_catalog_data}
use umans_dash_go.Catalog.Calls.{
  Request, Response, request_of, fetch_body, fetch_model_catalog, held_catalog, get_catalog_data,
  validate_api_key,
}

module _ (trim_right : Bytes → Bytes) (strip : Bytes → Bytes) where
  -- A fetched catalogue is what every call within five minutes of the fetch answers, whatever the upstream
  -- then does, and such a call changes nothing.
  pub get_catalog_data_cached :
      (client client' : Request → Option Response) (now later now' later' : ℕ) (p : Catalog)
      (catalog : Option Fields)
      → held_catalog now p.catalog_cache ≡ none
      → fetch_model_catalog trim_right client p ≡ some catalog
      → ltb (since now' later) cache_ttl ≡ true
      → ((get_catalog_data trim_right client strip now later p).1 ≡ some catalog)
        × (get_catalog_data trim_right client' strip now' later'
              (get_catalog_data trim_right client strip now later p).0
            ≡ ((get_catalog_data trim_right client strip now later p).0, some catalog))
  unfolding get_catalog_data apply_catalog_data
  get_catalog_data_cached client client' now later now' later' p catalog h f t =
      (ground (arith, h, f), ground (arith, h, f, t))

  -- An error is answered only when the upstream fails and nothing was ever cached; a failure itself is cached.
  pub get_catalog_data_fails :
      (client : Request → Option Response) (now later : ℕ) (p : Catalog)
      → (get_catalog_data trim_right client strip now later p).1 ≡ none
      → (p.catalog_cache ≡ none)
        × (fetch_model_catalog trim_right client p ≡ none)
        × ((get_catalog_data trim_right client strip now later p).0.catalog_cache
            ≡ some (record { data_map = none; fetched_at = later }))
  unfolding get_catalog_data
  get_catalog_data_fails client now later p h =
      elim (Option-cases (held_catalog now p.catalog_cache)) [
        | inr (catalog, e) ↦ absurd (ground (arith, h, e))
        | inl e ↦ elim (Option-cases (fetch_model_catalog trim_right client p)) [
          | inr (catalog, f) ↦ absurd (ground (arith, h, e, f))
          | inl f ↦ elim (Option-cases p.catalog_cache) [
            | inr (stale, c) ↦ absurd (ground (arith, h, e, f, c))
            | inl c ↦ (c, f, ground (arith, e, f, c))
          ]
        ]
      ]

  same_fetch :
      (client : Request → Option Response) (p : Catalog) (cache : Option CatalogCache)
      → fetch_model_catalog trim_right client (record p { catalog_cache = cache })
        ≡ fetch_model_catalog trim_right client p
  unfolding fetch_model_catalog fetch_body request_of
  same_fetch client p cache = refl

  -- After a failed first fetch the next call that fails too answers without an error, with no catalogue:
  -- within five minutes without asking the upstream, and later from the cached failure.
  pub get_catalog_data_masked :
      (client client' : Request → Option Response) (now later now' later' : ℕ) (p : Catalog)
      → p.catalog_cache ≡ none
      → fetch_model_catalog trim_right client p ≡ none
      → fetch_model_catalog trim_right client' p ≡ none
      → ((get_catalog_data trim_right client strip now later p).1 ≡ none)
        × ((get_catalog_data trim_right client' strip now' later'
              (get_catalog_data trim_right client strip now later p).0).1
            ≡ some none)
  unfolding get_catalog_data
  get_catalog_data_masked client client' now later now' later' p h f g = (
    ground (arith, h, f),
    ground (
      arith,
      h,
      f,
      g,
      same_fetch client' p (some (record { data_map = none; fetched_at = later })),
    ),
  )

  -- A key found valid by a catalogue that is an object stays valid for five minutes, whatever the upstream does.
  pub validate_api_key_cached :
      (client client' : Request → Option Response) (now later now' later' : ℕ) (p : Catalog)
      (m : Fields)
      → same p.api_key [] ≡ false
      → held_catalog now p.user_info_cache ≡ none
      → fetch_model_catalog trim_right client p ≡ some (some m)
      → ltb (since now' later) cache_ttl ≡ true
      → validate_api_key trim_right client' strip now' later'
          (validate_api_key trim_right client strip now later p).0
        ≡ ((validate_api_key trim_right client strip now later p).0, true)
  unfolding validate_api_key apply_catalog_data
  validate_api_key_cached client client' now later now' later' p m k h f t =
      ground (arith, k, h, f, t)

  -- With an answer of JSON null a key is valid at first, and within five minutes it is not.
  pub validate_api_key_null :
      (client client' : Request → Option Response) (now later now' later' : ℕ) (p : Catalog)
      → same p.api_key [] ≡ false
      → held_catalog now p.user_info_cache ≡ none
      → fetch_model_catalog trim_right client p ≡ some none
      → ltb (since now' later) cache_ttl ≡ true
      → ((validate_api_key trim_right client strip now later p).1 ≡ true)
        × ((validate_api_key trim_right client' strip now' later'
              (validate_api_key trim_right client strip now later p).0).1
            ≡ false)
  unfolding validate_api_key apply_catalog_data
  validate_api_key_null client client' now later now' later' p k h f t =
      (ground (arith, k, h, f), ground (arith, k, h, f, t))
