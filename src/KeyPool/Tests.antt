-- ===== src/KeyPool/Tests.antt =====
-- Runs of the key pool of src/keypool.go on a pool of three keys.
use umans_dash_go.Prelude.{ℕ, ◌≡◌, refl, Option, none, some, [], ◌∷◌, pos, negsuc, Bytes, codes}
use umans_dash_go.KeyPool.{
  KeyConfig, KeySlot, KeyPool, is_available, new_key_pool, new_entry, set_config, acquire,
  mark_unhealthy, mark_healthy, state, healthy_count, count_available,
}
use umans_dash_go.KeyPool.Rotation.{Outcome, Acquired, acquire-Outcome, acquire-Acquired}

abbrev config_of : Bytes → KeyConfig
config_of k = record { name = codes "n"; key = k; session = [] }

abbrev three : KeyPool
unfolding new_key_pool new_entry set_config
three =
    set_config (new_key_pool (config_of (codes "a") ∷ config_of (codes "b") ∷ config_of [] ∷ []))
      (codes "old")

program : Unit {0}
unfolding new_key_pool new_entry set_config acquire mark_unhealthy mark_healthy state is_available
program = tt

abbrev index_of : KeyPool × Option KeySlot → Option ℕ
index_of (q, none) = none
index_of (q, some s) = some s.index

-- Round robin, then past a key that has just failed, and the preferred key where it is available.
rounds :
    (index_of (acquire 5 (negsuc 0) three) ≡ some 0)
    × (index_of (acquire 5 (negsuc 0) (acquire 5 (negsuc 0) three).0) ≡ some 1)
    × (index_of (acquire 5 (negsuc 0) (mark_unhealthy 5 (pos 0) 500 three)) ≡ some 1)
    × (index_of (acquire 5 (pos 2) three) ≡ some 2)
    × ((acquire 5 (pos 1) three).0.config ≡ some (codes "b"))
    × (healthy_count 5 three ≡ 3)
unfolding program count_available
rounds = (refl, refl, refl, refl, refl, refl)

acquire-Outcome_example : Outcome 5 3 three (acquire 5 (negsuc 0) three)
unfolding new_key_pool new_entry set_config
acquire-Outcome_example = acquire-Outcome 5 0 three

acquire-Acquired_example : Acquired 5 three (acquire 5 (pos 1) three)
acquire-Acquired_example = acquire-Acquired 5 (pos 1) three
