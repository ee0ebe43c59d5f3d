-- ===== src/Vision/Described.antt =====
-- What `analyzeImageViaHandoff` of src/normalize.go keeps in the cache of src/cache.go.
use umans_dash_go.Prelude.{
  ℕ, ◌≡◌, true, Option, none, some, ltb_ℤ, leb_ℤ, since, pos, Bytes, arith, Bool-cases,
  Option-cases, inl, inr,
}
use umans_dash_go.HandoffCache.{HandoffCache, get, set, find}
use umans_dash_go.HandoffCache.Recency.{get-set}
use umans_dash_go.Vision.{described, failed}
use umans_dash_go.Vision.Handoff.{
  Calls, Handoff, ask, look_up, cache_handoff_description, analyze_image_via_handoff,
}

get_limits :
    (now : ℕ) (key : Bytes) (c : HandoffCache)
    → ((get now key c).0.max_size ≡ c.max_size) × ((get now key c).0.ttl ≡ c.ttl)
unfolding get
get_limits now key c = elim (Option-cases (find key c.lru)) [
  | inl e ↦ (ground (arith, e), ground (arith, e))
  | inr (found, e) ↦ elim (Bool-cases (ltb_ℤ c.ttl (pos (since now found.time)))) [
    | inl old ↦ (ground (arith, e, old), ground (arith, e, old))
    | inr new ↦ (ground (arith, e, new), ground (arith, e, new))
  ]
]

-- Where the cache is on and may hold at least one entry, a description that the upstream gave is answered
-- from the cache when the same image is asked for again directly afterwards, within the time to live of the
-- entry and whatever the upstream would say then. A later request, with other images in between, is not
-- covered.
pub analyze_image_via_handoff_again :
    (calls calls' : Calls) (config : Handoff) (api_key uri desc : Bytes) (now later now' later' : ℕ)
    (c : HandoffCache)
    → config.cache_enabled ≡ true
    → ltb_ℤ (pos 0) c.max_size ≡ true
    → leb_ℤ (pos (since now' later)) c.ttl ≡ true
    → calls'.sha256 uri ≡ calls.sha256 uri
    → (get now (calls.sha256 uri) c).1 ≡ none
    → ask calls config api_key uri ≡ described desc
    → ((analyze_image_via_handoff calls config api_key now later uri (some c)).1 ≡ desc)
      × ((analyze_image_via_handoff calls' config api_key now' later' uri
            (analyze_image_via_handoff calls config api_key now later uri (some c)).0).1
          ≡ desc)
unfolding analyze_image_via_handoff look_up cache_handoff_description
analyze_image_via_handoff_again calls calls' config api_key uri desc now later now' later' c on room
      fresh hash miss new =
    (ground (arith, on, miss, new), ground (arith, on, miss, new, hash, kept))
  where
    left : HandoffCache
    left = (get now (calls.sha256 uri) c).0

    kept : (get now' (calls.sha256 uri) (set later (calls.sha256 uri) desc left)).1 ≡ some desc
    kept =
        get-set later now' (calls.sha256 uri) desc left
          (rw (get_limits now (calls.sha256 uri) c).0 room)
          (rw (get_limits now (calls.sha256 uri) c).1 fresh)

-- A failure is not cached: the cache is what reading it left.
pub analyze_image_via_handoff_failed :
    (calls : Calls) (config : Handoff) (api_key uri text : Bytes) (now later : ℕ)
    (cache : Option HandoffCache)
    → (look_up calls config now uri cache).1 ≡ none
    → ask calls config api_key uri ≡ failed text
    → analyze_image_via_handoff calls config api_key now later uri cache
      ≡ ((look_up calls config now uri cache).0, text)
unfolding analyze_image_via_handoff
analyze_image_via_handoff_failed calls config api_key uri text now later cache miss e =
    ground (arith, miss, e)
