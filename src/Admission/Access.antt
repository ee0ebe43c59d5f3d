-- ===== src/Admission/Access.antt =====
-- Who may pass, by src/http.go, against which key the request then gets.
use umans_dash_go.Prelude.{
  ℕ, ◌≡◌, refl, false, Option, none, some, List, [], arith, if◌then◌else◌, ℤ, Bytes, same, ◌≢◌,
  same_iff, if_split,
}
use umans_dash_go.KeyPool.{KeyPool, KeySlot, acquire}
use umans_dash_go.Admission.{
  Headers, KeyMode, passthrough, smart, managed, extract_client_api_key, authorized, acquire_key,
  acquire_pooled, slot_key, Key, client, refused,
}

-- In passthrough mode a request is authorised exactly if it then gets the client's key, whatever keys
-- and pool are configured; otherwise it is refused with 401 and the pool stays as it is.
pub authorized-acquire_key :
    (trim_space : Bytes → Bytes) (now : ℕ) (keys : List Bytes) (h : Headers) (preferred : ℤ)
    (pool : Option KeyPool)
    → acquire_key now passthrough (extract_client_api_key trim_space h) preferred pool ≡ (
      pool,
      if authorized trim_space passthrough keys h
          then client (extract_client_api_key trim_space h)
          else refused 401,
    )
unfolding authorized acquire_key
authorized-acquire_key trim_space now keys h preferred pool = ground arith

slot_key-client : (k : Bytes) (r : KeyPool × Option KeySlot) → (slot_key r).1 ≢ client k
slot_key-client k (p, none) e = cc e
slot_key-client k (p, some slot) e = cc e

pooled-client :
    (now : ℕ) (k : Bytes) (preferred : ℤ) (pool : Option KeyPool)
    → (acquire_pooled now preferred pool).1 ≢ client k
pooled-client now k preferred none e = cc e
pooled-client now k preferred (some p) e = slot_key-client k (acquire now preferred p) e

-- What a request with the key `k` of its client says about its mode, its headers and the pool.
abbrev pub Own : KeyMode → Bytes → Bytes → Option KeyPool → Option KeyPool × Key → Type 0
Own mode client_key k pool r =
    r.1 ≡ client k → (k ≡ client_key) × (k ≢ []) × (mode ≢ managed) × (r.0 ≡ pool)

given-Own :
    (mode : KeyMode) (client_key k : Bytes) (pool : Option KeyPool)
    → mode ≢ managed
    → same client_key [] ≡ false
    → Own mode client_key k pool (pool, client client_key)
given-Own mode client_key k pool open_mode given e = (
  ground (arith, e),
  λ empty. ground (arith, e, empty, given, same_iff client_key []),
  open_mode,
  refl,
)

-- A key of the client is used only outside the managed mode, and only one that is not empty; the pool
-- is then left as it was.
pub acquire_key-Own :
    (now : ℕ) (mode : KeyMode) (client_key k : Bytes) (preferred : ℤ) (pool : Option KeyPool)
    → Own mode client_key k pool (acquire_key now mode client_key preferred pool)
unfolding acquire_key
acquire_key-Own now passthrough client_key k preferred pool =
    if_split (Own passthrough client_key k pool) (same client_key []) _ _ (λ unset e. absurd (cc e))
      (given-Own passthrough client_key k pool (λ m. cc m))
acquire_key-Own now smart client_key k preferred pool =
    if_split (Own smart client_key k pool) (same client_key []) _ _
      (λ unset e. absurd (pooled-client now k preferred pool e))
      (given-Own smart client_key k pool (λ m. cc m))
acquire_key-Own now managed client_key k preferred pool =
    λ e. absurd (pooled-client now k preferred pool e)
