-- ===== src/KeyAdmin/Tests.antt =====
-- Runs of the changes of keys.
use umans_dash_go.Prelude.{◌≡◌, refl, none, some, [], ◌∷◌, pos, codes, same}
use umans_dash_go.Json.{Fields, str, end, field, member}
use umans_dash_go.KeyPool.{new_key_pool}
use umans_dash_go.KeyAdmin.{KeyAdmin, install, change_at, index_of, delete_key, handle_keys_post}
use umans_dash_go.KeyAdmin.Changes.{Handled, handle_keys_post-Handled}

abbrev two_keys : KeyAdmin
two_keys = record {
  keys =
      record { name = codes "a"; key = codes "1"; session = [] }
      ∷ record { name = codes "b"; key = codes "2"; session = [] }
      ∷ [];
  api_key = codes "1";
  key_pool = new_key_pool [];
  pending_save = none;
}

abbrev deletion : Fields
deletion = field (codes "action") (str (codes "delete")) end

handle_keys_post-Handled_example :
    Handled two_keys
      (handle_keys_post (λ n. n ∷ []) (λ n. pos 1) (codes "bad") (some deletion) two_keys)
handle_keys_post-Handled_example =
    handle_keys_post-Handled (λ n. n ∷ []) (λ n. pos 1) (codes "bad") (some deletion) two_keys

-- Without an index the first key goes.
first_deleted :
    (handle_keys_post (λ n. n ∷ []) (λ n. pos 1) (codes "bad") (some deletion) two_keys).0.keys
    ≡ record { name = codes "b"; key = codes "2"; session = [] } ∷ []
unfolding handle_keys_post delete_key index_of change_at install member same
first_deleted = refl
