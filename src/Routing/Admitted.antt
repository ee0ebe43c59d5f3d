-- ===== src/Routing/Admitted.antt =====
-- What lets a request of `HandleRequest` of src/proxy.go in, and that `authorized` of src/http.go tests it.
use umans_dash_go.Prelude.{
  ◌≡◌, ◌≢◌, refl, sym, subst, ap, ◌∙◌, ◌++◌, some, codes, same, take, drop, eq_of_same, same_refl,
  take-append-drop, Bool-cases, Option-cases, ◌⊎◌, inl, inr, true, false, not, ◌&&◌, List, [], ◌∷◌,
  Bytes, arith,
}
use umans_dash_go.Admission.{
  Headers, KeyMode, passthrough, smart, managed, authorized, listed, bearer_prefix, bearer_token,
  extract_client_api_key,
}
use umans_dash_go.Routing.{is_open}

-- The request carries the key: it is the trimmed x-api-key header, which is not empty, or what follows "Bearer " in the
-- trimmed authorization header, trimmed.
pub data Carries (trim_space : Bytes → Bytes) (headers : Headers) (key : Bytes) : Type 0 where
  in_x_api_key : trim_space headers.x_api_key ≡ key → key ≢ [] → Carries trim_space headers key
  in_authorization :
      (rest : Bytes)
      → trim_space headers.authorization ≡ codes "Bearer " ++ rest
      → trim_space rest ≡ key
      → Carries trim_space headers key

-- What lets a request in: there are no keys, its path is an open one, the mode is the smart one, it carries
-- some key in passthrough mode, or one of the keys in managed mode.
pub data Admitted (trim_space : Bytes → Bytes) (mode : KeyMode) (keys : List Bytes)
    (headers : Headers) (path : Bytes) : Type 0 where
  no_keys : keys ≡ [] → Admitted trim_space mode keys headers path
  open_path :
      (path ≡ codes "/") ⊎ (path ≡ codes "/dashboard") ⊎ (path ≡ codes "/healthz")
      → Admitted trim_space mode keys headers path
  in_smart : mode ≡ smart → Admitted trim_space mode keys headers path
  has_own :
      (key : Bytes)
      → mode ≡ passthrough
      → key ≢ []
      → Carries trim_space headers key
      → Admitted trim_space mode keys headers path
  has_listed :
      (key : Bytes) (before after : List Bytes)
      → mode ≡ managed
      → keys ≡ before ++ key ∷ after
      → Carries trim_space headers key
      → Admitted trim_space mode keys headers path

pub open_path_of :
    (path : Bytes)
    → is_open path ≡ true
    → (path ≡ codes "/") ⊎ (path ≡ codes "/dashboard") ⊎ (path ≡ codes "/healthz")
unfolding is_open
open_path_of path e = elim (Bool-cases (same path (codes "/"))) [
  | inl root ↦ inl (eq_of_same path (codes "/") root)
  | inr other ↦ elim (Bool-cases (same path (codes "/dashboard"))) [
    | inl board ↦ inr (inl (eq_of_same path (codes "/dashboard") board))
    | inr neither ↦
        inr (inr (eq_of_same path (codes "/healthz") (ground (arith, e, other, neither))))
  ]
]

-- A key that is listed stands somewhere in the list.
listed_place :
    (key : Bytes) (keys : List Bytes)
    → listed key keys ≡ true
    → (before : List Bytes) × (after : List Bytes) × (keys ≡ before ++ key ∷ after)
unfolding listed
listed_place key [] e = absurd (ground (arith, e))
listed_place key (k ∷ ks) e = elim (Bool-cases (same k key)) [
  | inl here ↦ ([], ks, ap (◌∷ ks) (eq_of_same k key here))
  | inr other ↦
      let (before, after, at) = listed_place key ks (ground (arith, e, other)) in
      (k ∷ before, after, ap (k ∷◌) at)
]

not_empty : (key : Bytes) → not (same key []) ≡ true → key ≢ []
not_empty key e empty = absurd (ground (arith, e, ap (λ k. same k []) empty, same_refl []))

module _ (trim_space : Bytes → Bytes) (headers : Headers) where
  bearer_token-Carries :
      (key : Bytes) → bearer_token trim_space headers ≡ some key → Carries trim_space headers key
  unfolding bearer_token
  bearer_token-Carries key e =
      elim (Bool-cases (same (take 7 (trim_space headers.authorization)) bearer_prefix)) [
        | inl begins ↦
            in_authorization (drop 7 (trim_space headers.authorization))
              (sym (take-append-drop 7 (trim_space headers.authorization))
                ∙ ap (◌++ drop 7 (trim_space headers.authorization))
                    (eq_of_same (take 7 (trim_space headers.authorization)) bearer_prefix begins))
              (ground (arith, e, begins))
        | inr other ↦ absurd (ground (arith, e, other))
      ]

  extract_client_api_key-Carries :
      extract_client_api_key trim_space headers ≢ []
      → Carries trim_space headers (extract_client_api_key trim_space headers)
  unfolding extract_client_api_key
  extract_client_api_key-Carries some_key =
      elim (Bool-cases (same (trim_space headers.x_api_key) [])) [
        | inr given ↦ in_x_api_key (ground (arith, given)) some_key
        | inl empty ↦ elim (Option-cases (bearer_token trim_space headers)) [
          | inl e ↦ absurd (some_key (ground (arith, empty, e)))
          | inr (key, e) ↦
              subst (Carries trim_space headers) (ground (arith, empty, e))
                (bearer_token-Carries key e)
        ]
      ]

  listed-Admitted :
      (keys : List Bytes) (path key : Bytes)
      → listed key keys ≡ true
      → Carries trim_space headers key
      → Admitted trim_space managed keys headers path
  listed-Admitted keys path key e carried =
      let (before, after, at) = listed_place key keys e in
      has_listed key before after refl at carried

  pub authorized-Admitted :
      (mode : KeyMode) (keys : List Bytes) (path : Bytes)
      → authorized trim_space mode keys headers ≡ true
      → Admitted trim_space mode keys headers path
  unfolding authorized
  authorized-Admitted smart keys path e = in_smart refl
  authorized-Admitted passthrough keys path e =
      let some_key = not_empty (extract_client_api_key trim_space headers) e in
      has_own (extract_client_api_key trim_space headers) refl some_key
        (extract_client_api_key-Carries some_key)
  authorized-Admitted managed [] path e = no_keys refl
  authorized-Admitted managed (k ∷ ks) path e =
      elim (Bool-cases (
        not (same (trim_space headers.x_api_key) [])
        && listed (trim_space headers.x_api_key) (k ∷ ks))) [
          | inl here ↦
              listed-Admitted (k ∷ ks) path (trim_space headers.x_api_key) (ground (arith, here)) (
                in_x_api_key refl (not_empty (trim_space headers.x_api_key) (ground (arith, here))))
          | inr other ↦ elim (Option-cases (bearer_token trim_space headers)) [
            | inl none_there ↦ absurd (ground (arith, e, other, none_there))
            | inr (key, f) ↦
                listed-Admitted (k ∷ ks) path key (ground (arith, e, other, f))
                  (bearer_token-Carries key f)
          ]
        ]

pub listed_there :
    (key : Bytes) (before after : List Bytes) → listed key (before ++ key ∷ after) ≡ true
unfolding listed
listed_there key [] after = ground (arith, same_refl key)
listed_there key (k ∷ before) after = ground (arith, listed_there key before after)

pub is_open_of :
    (path : Bytes)
    → (path ≡ codes "/") ⊎ (path ≡ codes "/dashboard") ⊎ (path ≡ codes "/healthz")
    → is_open path ≡ true
unfolding is_open same
is_open_of path (inl e) = subst (λ p. is_open p ≡ true) (sym e) refl
is_open_of path (inr (inl e)) = subst (λ p. is_open p ≡ true) (sym e) refl
is_open_of path (inr (inr e)) = subst (λ p. is_open p ≡ true) (sym e) refl

not_same : (key : Bytes) → key ≢ [] → same key [] ≡ false
not_same key some_key = elim (Bool-cases (same key [])) [
  | inl e ↦ absurd (some_key (eq_of_same key [] e))
  | inr e ↦ e
]

begins_same : (rest : Bytes) → same (take 7 (codes "Bearer " ++ rest)) bearer_prefix ≡ true
unfolding same
begins_same rest = refl

module _ (trim_space : Bytes → Bytes) (headers : Headers) where
  bearer_token_there :
      (rest key : Bytes)
      → trim_space headers.authorization ≡ codes "Bearer " ++ rest
      → trim_space rest ≡ key
      → bearer_token trim_space headers ≡ some key
  unfolding bearer_token same
  bearer_token_there rest key e f = rw e (ap some f)

  pub own_authorized :
      (keys : List Bytes) (key : Bytes)
      → key ≢ []
      → Carries trim_space headers key
      → authorized trim_space passthrough keys headers ≡ true
  unfolding authorized extract_client_api_key
  own_authorized keys key some_key (in_x_api_key e given) =
      ground (arith, ap (λ k. same k []) e, not_same key some_key)
  own_authorized keys key some_key (in_authorization rest e f) =
      elim (Bool-cases (same (trim_space headers.x_api_key) [])) [
        | inl empty ↦ ground (arith, empty, bearer_token_there rest key e f, not_same key some_key)
        | inr given ↦ ground (arith, given)
      ]

  pub listed_authorized :
      (keys : List Bytes) (key : Bytes)
      → listed key keys ≡ true
      → Carries trim_space headers key
      → authorized trim_space managed keys headers ≡ true
  unfolding authorized
  listed_authorized [] key there carried = refl
  listed_authorized (k ∷ ks) key there (in_x_api_key e given) =
      ground
        (arith, ap (λ x. same x []) e, ap (λ x. listed x (k ∷ ks)) e, there, not_same key given)
  listed_authorized (k ∷ ks) key there (in_authorization rest e f) =
      ground (arith, there, bearer_token_there rest key e f)
