-- ===== src/Routing/Tests.antt =====
-- Runs of the routes.
use umans_dash_go.Prelude.{◌≡◌, refl, ◌⊎◌, List, [], ◌∷◌, Bytes, codes, same}
use umans_dash_go.Admission.{Headers, managed, smart, authorized, bearer_token}
use umans_dash_go.Routing.{
  config_post, unauthorized, method_not_allowed, route, by_method, is_open, handle_request,
}
use umans_dash_go.Routing.Admitted.{Admitted}
use umans_dash_go.Routing.Guarded.{handle_request_guarded}

abbrev as_it_is : Bytes → Bytes
as_it_is b = b

abbrev nameless : Headers
nameless = record { x_api_key = []; authorization = [] }

abbrev some_key : List Bytes
some_key = codes "k" ∷ []

-- The list of keys guards the configuration in managed mode, and not in smart mode.
turned_away :
    handle_request as_it_is managed some_key nameless (codes "/api/config") (codes "POST")
    ≡ unauthorized
unfolding handle_request is_open authorized bearer_token same
turned_away = refl

let_in :
    handle_request as_it_is smart some_key nameless (codes "/api/config") (codes "POST")
    ≡ config_post
unfolding handle_request is_open authorized route by_method same
let_in = refl

other_method : route (codes "/api/keys") (codes "PUT") ≡ method_not_allowed
unfolding route by_method same
other_method = refl

handle_request_guarded_example :
    ((handle_request as_it_is managed some_key nameless (codes "/api/config") (codes "POST")
        ≡ unauthorized)
      ⊎ Admitted as_it_is managed some_key nameless (codes "/api/config")
        × (handle_request as_it_is managed some_key nameless (codes "/api/config") (codes "POST")
            ≡ route (codes "/api/config") (codes "POST")))
    × (Admitted as_it_is managed some_key nameless (codes "/api/config")
        → handle_request as_it_is managed some_key nameless (codes "/api/config") (codes "POST")
          ≡ route (codes "/api/config") (codes "POST"))
    × (managed ≡ smart
        → handle_request as_it_is managed some_key nameless (codes "/api/config") (codes "POST")
          ≡ route (codes "/api/config") (codes "POST"))
handle_request_guarded_example =
    handle_request_guarded as_it_is managed some_key nameless (codes "/api/config") (codes "POST")
