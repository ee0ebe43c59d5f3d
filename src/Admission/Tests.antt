-- ===== src/Admission/Tests.antt =====
-- Runs of the first steps of src/proxy_openai.go and src/proxy_anthropic.go.
use umans_dash_go.Prelude.{
  ℕ, ◌≡◌, refl, ◌≢◌, true, false, some, [], ◌∷◌, pos, arith, Bytes, codes, same,
}
use umans_dash_go.KeyPool.{
  KeyConfig, KeyPool, KeySlot, new_key_pool, new_entry, acquire, is_available,
}
use umans_dash_go.Conversation.Map.{contains}
use umans_dash_go.Conversation.{touch}
use umans_dash_go.Admission.{
  Headers, managed, extract_client_api_key, bearer_token, authorized, listed, acquire_key, pooled,
  Tracking, preferred_index, admit_openai,
}
use umans_dash_go.Admission.Affinity.{admit_openai-touch}

abbrev key_of : Bytes → KeyConfig
key_of k = record { name = k; key = k; session = [] }

abbrev two_keys : KeyPool
unfolding new_key_pool new_entry
two_keys = new_key_pool (key_of (codes "a") ∷ key_of (codes "b") ∷ [])

abbrev nothing_tracked : Tracking
nothing_tracked = record {
  conversations = record { sessions = []; lru = []; lru_index = [] };
  session_counter = 7;
}

abbrev first_slot : KeySlot
first_slot = record { key = codes "a"; name = codes "a"; index = 0 }

abbrev keep : Bytes → Bytes
keep b = b

abbrev headers : Headers
headers = record { x_api_key = []; authorization = codes "Bearer tok" }

program : Unit {0}
unfolding new_key_pool new_entry acquire is_available acquire_key admit_openai touch contains same
program = tt

-- The token of the header, and who is let in.
access :
    (extract_client_api_key keep headers ≡ codes "tok")
    × (authorized keep managed (codes "x" ∷ codes "tok" ∷ []) headers ≡ true)
    × (authorized keep managed (codes "x" ∷ []) headers ≡ false)
unfolding extract_client_api_key bearer_token authorized listed same
access = (refl, refl, refl)

given : (c : ℕ) → (c ∷ [] ≢ [])
given c e = ground arith

admitted :
    (admit_openai 5 managed [] (codes "f") nothing_tracked (some two_keys)).2 ≡ pooled first_slot
unfolding program
admitted = refl

admit_openai-touch_example :
    preferred_index
      (touch
        (codes "f")
        (admit_openai 5 managed [] (codes "f") nothing_tracked (some two_keys)).0.conversations).1
    ≡ pos 0
admit_openai-touch_example =
    admit_openai-touch 5 managed [] (codes "f") nothing_tracked (some two_keys) first_slot
      (given 102) admitted
