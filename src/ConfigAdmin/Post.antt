-- ===== src/ConfigAdmin/Post.antt =====
-- `HandleConfigPost` of src/handlers.go as a whole, in the order of its fields. Its answer is what the
-- status and the settings determine; the masked settings of a success are read off the state.
use umans_dash_go.Prelude.{Bool, false, Option, none, some, List, [], ◌∷◌, ℤ, Bytes, codes}
use umans_dash_go.Json.{Fields, str_at}
use umans_dash_go.ConfigAdmin.{
  Server, Settings, on_str, on_arr, on_num, num_at, in_order, take_names, take_vision, set_keys,
}
use umans_dash_go.ConfigAdmin.Numbers.{
  Float64, Checked, rejected, goes_on, set_wallpaper, set_override, set_max_images, set_limit_mode,
  set_manual, set_slot_delay, set_attempts, set_strategy, set_timeout,
}

pub data Posted : Type 0 where
  -- 400 with a reason
  bad_request : Bytes → Posted
  -- 200 with the settings, and whether the listener has to be restarted
  success : Settings → Bool → Posted

-- The handler's own two flags at its start.
abbrev pub started : Server → Server
started s = record s { restart_required = false; signals_queue = false }

abbrev pub then_check : Option Bytes → (Bytes → Server → Checked) → Checked → Checked
then_check v f (rejected why s) = rejected why s
then_check none f (goes_on s) = goes_on s
then_check (some v) f (goes_on s) = f v s

module _ (number : Bytes → Float64) (outside : Float64 → ℤ) where
  unfoldable pub check_fields : Fields → Server → Checked
  check_fields m s = then_check (num_at (codes "maxImages") m) (set_max_images number outside) (
      then_check (num_at (codes "overrideConcurrency") m) (set_override number outside)
        (then_check (str_at (codes "wallpaperSource") m) set_wallpaper (goes_on s)))

  -- The fields behind the last one that can be refused.
  abbrev pub take_limits : Fields → List (Server → Server)
  take_limits m =
      on_str (codes "concurrencyLimitMode") set_limit_mode m
      ∷ on_num (codes "manualConcurrencyLimit") (set_manual number outside) m
      ∷ on_num (codes "slotFreeDelay") (set_slot_delay number outside) m
      ∷ on_num (codes "retryAttempts") (set_attempts number outside) m
      ∷ on_str (codes "backoffStrategy") set_strategy m
      ∷ on_num (codes "requestTimeout") (set_timeout number outside) m
      ∷ on_arr (codes "keys") set_keys m
      ∷ []

  abbrev pub save : Server → Server × Posted
  save s = (
    record s { saves = s.settings ∷ s.saves; rendered = false },
    success s.settings s.restart_required,
  )

  unfoldable pub finish_post : Fields → Checked → Server × Posted
  finish_post m (rejected why s) = (s, bad_request why)
  finish_post m (goes_on s) = save (in_order (take_limits m) (in_order (take_vision m) s))

  -- `reason` is what is answered to a body that cannot be read or is no JSON object.
  unfoldable pub handle_config_post : Bytes → Option Fields → Server → Server × Posted
  handle_config_post reason none s = (started s, bad_request reason)
  handle_config_post reason (some m) s =
      finish_post m (check_fields m (in_order (take_names m) (started s)))
