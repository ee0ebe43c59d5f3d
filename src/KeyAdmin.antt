-- ===== src/KeyAdmin.antt =====
-- `HandleKeysPost` of src/handlers.go with `maskKeysForResponse`: adding, changing and deleting keys. Decoding the
-- body, printing a number and the conversion of a JSON number to an int are parameters. A successful
-- change schedules a save of the configuration, in place of one that is still pending; of the configuration
-- the keys and the active key are modelled.
pub mod Changes
mod Tests
use umans_dash_go.Prelude.{
  ℕ, zero, suc, ◌+◌, Bool, true, false, not, ◌&&◌, Option, none, some, List, [], ◌∷◌, ◌++◌, map,
  ltb, ◌==◌, if◌then◌else◌, ℤ, pos, negsuc, Bytes, codes, same, length, get_elem?, set, take, drop,
}
use umans_dash_go.Json.{Json, Fields, num, member, str_at, text_at}
use umans_dash_go.KeyPool.{KeyConfig, KeyPool, new_key_pool}
use umans_dash_go.Mask.{mask_token}

pub record KeyAdmin : Type 0 where
  pub keys : List KeyConfig
  pub api_key : Bytes
  pub key_pool : KeyPool
  -- what the timer of `debouncedSaveConfig` will write
  pub pending_save : Option (List KeyConfig × Bytes)

pub record MaskedKey : Type 0 where
  pub name : Bytes
  pub key : Bytes
  pub session : Bytes

pub data KeysAnswer : Type 0 where
  changed : List MaskedKey → KeysAnswer
  refused : ℕ → Bytes → KeysAnswer

unfoldable pub mask_keys_for_response : List KeyConfig → List MaskedKey
mask_keys_for_response keys =
    map (λ (k : KeyConfig). record { name = k.name; key = mask_token k.key; session = k.session })
      keys

-- The end of each action: a new pool, `debouncedSaveConfig`, and the answer.
unfoldable pub install : KeyAdmin → KeyAdmin × KeysAnswer
install s = (
  record s { key_pool = new_key_pool s.keys; pending_save = some (s.keys, s.api_key) },
  changed (mask_keys_for_response s.keys),
)

abbrev pub not_found : KeysAnswer
not_found = refused 404 (codes "Key not found")

module _ (itoa : ℕ → Bytes) where
  abbrev pub name_of : Fields → List KeyConfig → Bytes
  name_of request keys =
      if same (text_at (codes "name") request) []
      then codes "Key " ++ itoa (length keys + 1)
      else text_at (codes "name") request

  unfoldable pub add_key : Fields → KeyAdmin → KeyAdmin × KeysAnswer
  add_key request s =
      let key = text_at (codes "key") request in
      install (record s {
        keys = s.keys ++ (record { name = name_of request s.keys; key = key; session = [] } ∷ []);
        api_key = if same s.api_key [] && not (same key []) then key else s.api_key;
      })

abbrev pub or_kept : Option Bytes → Bytes → Bytes
or_kept none old = old
or_kept (some new) old = new

unfoldable pub update_config : Fields → KeyConfig → KeyConfig
update_config request k = record {
  name = or_kept (str_at (codes "name") request) k.name;
  key = or_kept (str_at (codes "key") request) k.key;
  session = or_kept (str_at (codes "session") request) k.session;
}

abbrev pub first_key_of : List KeyConfig → Bytes
first_key_of [] = []
first_key_of (k ∷ ks) = k.key

-- The bounds of `update` and `delete`, and what both do with the new keys: the active key follows the
-- first one.
unfoldable pub change_at : ℤ → (ℕ → KeyConfig → List KeyConfig) → KeyAdmin → KeyAdmin × KeysAnswer
change_at (negsuc n) change s = (s, not_found)
change_at (pos i) change s = elim (get_elem? s.keys i) [
  | none ↦ (s, not_found)
  | some k ↦
      let keys = change i k in
      install (record s { keys = keys; api_key = if i == 0 then first_key_of keys else s.api_key })
]

abbrev pub or_one_key : List KeyConfig → List KeyConfig
or_one_key [] = record { name = codes "Key 1"; key = []; session = [] } ∷ []
or_one_key (k ∷ ks) = k ∷ ks

module _ (to_int : Bytes → ℤ) where
  -- `int(idxFloat)`, which is 0 without a number at `index`.
  unfoldable pub index_of : Fields → ℤ
  index_of request = elim (member (codes "index") request) [
    | none ↦ pos 0
    | some v ↦ elim v [ num n ↦ to_int n | _ ↦ pos 0 ]
  ]

  unfoldable pub update_key : Fields → KeyAdmin → KeyAdmin × KeysAnswer
  update_key request s =
      change_at (index_of request) (λ i k. set s.keys i (update_config request k)) s

  unfoldable pub delete_key : Fields → KeyAdmin → KeyAdmin × KeysAnswer
  delete_key request s =
      change_at (index_of request) (λ i k. or_one_key (take i s.keys ++ drop (suc i) s.keys)) s

-- No request is a body that cannot be read or is no JSON object; `reason` is what is answered then.
unfoldable pub handle_keys_post :
    (ℕ → Bytes) → (Bytes → ℤ) → Bytes → Option Fields → KeyAdmin → KeyAdmin × KeysAnswer
handle_keys_post itoa to_int reason request s = elim request [
  | none ↦ (s, refused 400 reason)
  | some m ↦
      if same (text_at (codes "action") m) (codes "add")
      then add_key itoa m s
      else if same (text_at (codes "action") m) (codes "update")
      then update_key to_int m s
      else if same (text_at (codes "action") m) (codes "delete")
      then delete_key to_int m s
      else (s, refused 400 (codes "Unknown action"))
]
