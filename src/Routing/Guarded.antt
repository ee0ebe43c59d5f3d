-- ===== src/Routing/Guarded.antt =====
-- Which requests `HandleRequest` of src/proxy.go lets in.
use umans_dash_go.Prelude.{
  ◌≡◌, refl, sym, subst, ◌⊎◌, inl, inr, Bool, true, false, not, ◌&&◌, List, [], ◌∷◌, if◌then◌else◌,
  Bytes, arith,
}
use umans_dash_go.Admission.{Headers, KeyMode, smart, authorized, listed}
use umans_dash_go.Routing.{Route, unauthorized, route, is_open, handle_request}
use umans_dash_go.Routing.Admitted.{
  Admitted, no_keys, open_path, in_smart, has_own, has_listed, open_path_of, is_open_of,
  authorized-Admitted, own_authorized, listed_authorized, listed_there,
}

smart_admits :
    (trim_space : Bytes → Bytes) (mode : KeyMode) (keys : List Bytes) (headers : Headers)
    → mode ≡ smart
    → authorized trim_space mode keys headers ≡ true
unfolding authorized
smart_admits trim_space mode keys headers e =
    subst (λ m. authorized trim_space m keys headers ≡ true) (sym e) refl

module _ (trim_space : Bytes → Bytes) (keys : List Bytes) (headers : Headers)
    (path method : Bytes) where
  opened :
      (mode : KeyMode)
      → is_open path ≡ true
      → handle_request trim_space mode keys headers path method ≡ route path method
  unfolding handle_request
  opened mode e = opened_with keys mode e
    where
      opened_with :
          (ks : List Bytes) (mode : KeyMode)
          → is_open path ≡ true
          → handle_request trim_space mode ks headers path method ≡ route path method
      opened_with [] mode e = refl
      opened_with (k ∷ ks) mode e = ground (arith, e)

  let_in :
      (mode : KeyMode)
      → authorized trim_space mode keys headers ≡ true
      → handle_request trim_space mode keys headers path method ≡ route path method
  unfolding handle_request
  let_in mode e = let_in_with keys mode e
    where
      let_in_with :
          (ks : List Bytes) (mode : KeyMode)
          → authorized trim_space mode ks headers ≡ true
          → handle_request trim_space mode ks headers path method ≡ route path method
      let_in_with [] mode e = refl
      let_in_with (k ∷ ks) mode e = ground (arith, e)

  Admitted-route :
      (mode : KeyMode)
      → Admitted trim_space mode keys headers path
      → handle_request trim_space mode keys headers path method ≡ route path method
  unfolding handle_request
  Admitted-route mode (no_keys e) =
      subst (λ ks. handle_request trim_space mode ks headers path method ≡ route path method)
        (sym e) refl
  Admitted-route mode (open_path e) = opened mode (is_open_of path e)
  Admitted-route mode (in_smart e) = let_in mode (smart_admits trim_space mode keys headers e)
  Admitted-route mode (has_own key m some_key carried) = let_in mode (
      subst (λ m. authorized trim_space m keys headers ≡ true) (sym m)
        (own_authorized trim_space headers keys key some_key carried))
  Admitted-route mode (has_listed key before after m e carried) = let_in mode (
      subst (λ m. authorized trim_space m keys headers ≡ true) (sym m)
        (listed_authorized trim_space headers keys key
          (subst (λ ks. listed key ks ≡ true) (sym e) (listed_there key before after)) carried))

-- The two tests of a list of keys that is not empty.
guarded :
    (trim_space : Bytes → Bytes) (mode : KeyMode) (keys : List Bytes) (headers : Headers)
    (path : Bytes) (r : Route) (open_one has : Bool)
    → is_open path ≡ open_one
    → authorized trim_space mode keys headers ≡ has
    → ((if not open_one && not has then unauthorized else r) ≡ unauthorized)
      ⊎ Admitted trim_space mode keys headers path
        × ((if not open_one && not has then unauthorized else r) ≡ r)
guarded trim_space mode keys headers path r true has o a =
    inr (open_path (open_path_of path o), refl)
guarded trim_space mode keys headers path r false true o a =
    inr (authorized-Admitted trim_space headers mode keys path a, refl)
guarded trim_space mode keys headers path r false false o a = inl refl

-- A request is turned away before it reaches any handler, or it gets the handler of its path and method.
-- The latter exactly without a list of keys, for an open path, in smart mode, with some key in passthrough mode,
-- or with a key of the list in managed mode, in the x-api-key header or as the bearer token of the
-- authorization header, both trimmed. In smart mode the list of keys turns no request away.
pub handle_request_guarded :
    (trim_space : Bytes → Bytes) (mode : KeyMode) (keys : List Bytes) (headers : Headers)
    (path method : Bytes)
    → ((handle_request trim_space mode keys headers path method ≡ unauthorized)
        ⊎ Admitted trim_space mode keys headers path
          × (handle_request trim_space mode keys headers path method ≡ route path method))
      × (Admitted trim_space mode keys headers path
          → handle_request trim_space mode keys headers path method ≡ route path method)
      × (mode ≡ smart → handle_request trim_space mode keys headers path method ≡ route path method)
unfolding handle_request
handle_request_guarded trim_space mode [] headers path method =
    (inr (no_keys refl, refl), λ admitted. refl, λ e. refl)
handle_request_guarded trim_space mode (k ∷ ks) headers path method = (
  guarded trim_space mode (k ∷ ks) headers path (route path method) (is_open path)
      (authorized trim_space mode (k ∷ ks) headers) refl refl,
  Admitted-route trim_space (k ∷ ks) headers path method mode,
  λ e. ground (arith, smart_admits trim_space mode (k ∷ ks) headers e),
)
