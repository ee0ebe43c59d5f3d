-- ===== src/KeyAdmin/Changes.antt =====
-- What every request to `HandleKeysPost` of src/handlers.go does to the keys and the pool.
use umans_dash_go.Prelude.{
  ℕ, suc, ◌<◌, ◌≡◌, refl, ◌⊎◌, Bool, true, false, Option, none, some, List, [], ◌∷◌, ◌++◌, map,
  if◌then◌else◌, ℤ, pos, negsuc, Bytes, codes, same, length, length-append, length-set, get_elem?,
  take, drop, All, ◌==◌, arith, inl, inr,
}
use umans_dash_go.Json.{Fields, text_at}
use umans_dash_go.KeyPool.{KeyConfig, new_entry, new_key_pool, is_available}
use umans_dash_go.KeyAdmin.{
  KeyAdmin, KeysAnswer, changed, refused, mask_keys_for_response, install, not_found, add_key,
  index_of, update_config, update_key, or_one_key, delete_key, handle_keys_post, change_at,
  first_key_of,
}

-- Nothing is changed and the request refused, or the answer shows the masked keys, of which there is one
-- at least, the pool is a new one of them, in which every key is available, and the save that is scheduled is
-- of the keys and the active key as they are.
abbrev pub Handled : KeyAdmin → KeyAdmin × KeysAnswer → Type 0
Handled before r =
    ((r.0 ≡ before) × (status : ℕ) × (text : Bytes) × (r.1 ≡ refused status text))
    ⊎ (r.1 ≡ changed (mask_keys_for_response r.0.keys))
      × (0 < length r.0.keys)
      × (r.0.key_pool ≡ new_key_pool r.0.keys)
      × ((now : ℕ) → All (λ e. is_available now e ≡ true) r.0.key_pool.entries)
      × (r.0.pending_save ≡ some (r.0.keys, r.0.api_key))

entries_available :
    (now : ℕ) (keys : List KeyConfig) → All (λ e. is_available now e ≡ true) (map new_entry keys)
unfolding is_available new_entry
entries_available now [] = tt
entries_available now (k ∷ ks) = (refl, entries_available now ks)

install-Handled : (before s : KeyAdmin) → 0 < length s.keys → Handled before (install s)
unfolding install new_key_pool
install-Handled before s some_key =
    inr (refl, some_key, refl, λ now. entries_available now s.keys, refl)

some_of : (ks : List KeyConfig) → 0 < length (or_one_key ks)
some_of [] = omega arith
some_of (k ∷ ks) = omega arith

in_bounds : (ks : List KeyConfig) (i : ℕ) (k : KeyConfig) → get_elem? ks i ≡ some k → 0 < length ks
in_bounds [] i k e = absurd (ground (arith, e))
in_bounds (x ∷ ks) i k e = omega arith

refused-Handled : (s : KeyAdmin) (status : ℕ) (text : Bytes) → Handled s (s, refused status text)
refused-Handled s status text = inl (refl, status, text, refl)

change_at-Handled :
    (z : ℤ) (change : ℕ → KeyConfig → List KeyConfig) (s : KeyAdmin)
    → ((i : ℕ) (k : KeyConfig) → get_elem? s.keys i ≡ some k → 0 < length (change i k))
    → Handled s (change_at z change s)
unfolding change_at
change_at-Handled (negsuc n) change s some_key = refused-Handled s 404 _
change_at-Handled (pos i) change s some_key = go (get_elem? s.keys i) refl
  where
    go :
        (found : Option KeyConfig)
        → get_elem? s.keys i ≡ found
        → Handled s (elim found [
          | none ↦ (s, not_found)
          | some k ↦ install (record s {
            keys = change i k;
            api_key = if i == 0 then first_key_of (change i k) else s.api_key;
          })
        ])
    go none e = refused-Handled s 404 _
    go (some k) e = install-Handled s _ (some_key i k e)

add_key-Handled :
    (itoa : ℕ → Bytes) (request : Fields) (s : KeyAdmin) → Handled s (add_key itoa request s)
unfolding add_key
add_key-Handled itoa request s = install-Handled s _ (omega (arith, length-append s.keys (_ ∷ [])))

update_key-Handled :
    (to_int : Bytes → ℤ) (request : Fields) (s : KeyAdmin) → Handled s (update_key to_int request s)
unfolding update_key
update_key-Handled to_int request s =
    change_at-Handled (index_of to_int request) _ s (λ i k e.
      omega (arith, length-set s.keys i (update_config request k), in_bounds s.keys i k e))

delete_key-Handled :
    (to_int : Bytes → ℤ) (request : Fields) (s : KeyAdmin) → Handled s (delete_key to_int request s)
unfolding delete_key
delete_key-Handled to_int request s =
    change_at-Handled (index_of to_int request) _ s
      (λ i k e. some_of (take i s.keys ++ drop (suc i) s.keys))

either_Handled :
    (s : KeyAdmin) (b : Bool) (x y : KeyAdmin × KeysAnswer)
    → Handled s x
    → Handled s y
    → Handled s (if b then x else y)
either_Handled s true x y h k = h
either_Handled s false x y h k = k

-- A request is refused and changes nothing, or its answer shows the keys masked, of which one at least is
-- left, and the pool is a new one of them: every key counts as available, the ones in a cooldown too. The
-- save then scheduled is of those keys and the active key with them.
pub handle_keys_post-Handled :
    (itoa : ℕ → Bytes) (to_int : Bytes → ℤ) (reason : Bytes) (request : Option Fields)
    (s : KeyAdmin)
    → Handled s (handle_keys_post itoa to_int reason request s)
unfolding handle_keys_post
handle_keys_post-Handled itoa to_int reason none s = refused-Handled s 400 reason
handle_keys_post-Handled itoa to_int reason (some m) s =
    either_Handled s (same (text_at (codes "action") m) (codes "add")) (add_key itoa m s)
      (if same (text_at (codes "action") m) (codes "update") then update_key to_int m s else rest)
      (add_key-Handled itoa m s)
      (either_Handled s (same (text_at (codes "action") m) (codes "update")) (update_key to_int m s)
        rest (update_key-Handled to_int m s)
        (either_Handled s (same (text_at (codes "action") m) (codes "delete"))
          (delete_key to_int m s) (s, refused 400 (codes "Unknown action"))
          (delete_key-Handled to_int m s) (refused-Handled s 400 (codes "Unknown action"))))
  where
    rest : KeyAdmin × KeysAnswer
    rest =
        if same (text_at (codes "action") m) (codes "delete")
        then delete_key to_int m s
        else (s, refused 400 (codes "Unknown action"))
