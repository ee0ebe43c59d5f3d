-- ===== src/ConfigAdmin/Bounds.antt =====
-- What every request to `HandleConfigPost` of src/handlers.go keeps: the bounds of the numbers, the
-- admitted names, and that the running values are the settings.
use umans_dash_go.Prelude.{
  ◌≡◌, refl, ap, arith, Bool, true, false, ◌&&◌, Option, none, some, ℤ, pos, ◌≤ℤ◌, Bytes, codes,
  if_split,
}
use umans_dash_go.Json.{Fields, str_at, arr_at}
use umans_dash_go.ConfigAdmin.{Server, num_at, in_order, set_keys}
use umans_dash_go.ConfigAdmin.Numbers.{
  Float64, to_int, fits, int_of, Checked, rejected, goes_on, set_wallpaper, set_override,
  set_max_images, set_limit_mode, set_manual, set_slot_delay, set_attempts, set_strategy,
  set_timeout, is_source,
}
use umans_dash_go.ConfigAdmin.Post.{
  then_check, check_fields, take_limits, finish_post, handle_config_post,
}
use umans_dash_go.ConfigAdmin.Steps.{Keeps, on_some-Keeps, in_order-Keeps}
use umans_dash_go.ConfigAdmin.Valid.{IsValid, take_names-Keeps, take_vision-Keeps}
use umans_dash_go.ConfigAdmin.Limited.{
  set_keys-Keeps, set_limit_mode-Keeps, set_manual-Keeps, set_slot_delay-Keeps, set_attempts-Keeps,
  set_strategy-Keeps, set_timeout-Keeps,
}

abbrev CheckedValid : Checked → Type 0
CheckedValid (rejected why s) = IsValid s
CheckedValid (goes_on s) = IsValid s

then_check-CheckedValid :
    (o : Option Bytes) (f : Bytes → Server → Checked) (c : Checked)
    → ((v : Bytes) → o ≡ some v → (s : Server) → IsValid s → CheckedValid (f v s))
    → CheckedValid c
    → CheckedValid (then_check o f c)
then_check-CheckedValid o f (rejected why s) keeps h = h
then_check-CheckedValid none f (goes_on s) keeps h = h
then_check-CheckedValid (some v) f (goes_on s) keeps h = keeps v refl s h

set_wallpaper-CheckedValid : (v : Bytes) (s : Server) → IsValid s → CheckedValid (set_wallpaper v s)
unfolding set_wallpaper
set_wallpaper-CheckedValid v s (r, t, d, g, w, k) =
    if_split CheckedValid (is_source v) _ _ (λ listed. (r, t, d, g, listed, k))
      (λ other. (r, t, d, g, w, k))

module _ (number : Bytes → Float64) (outside : Float64 → ℤ) where
  -- A number of the request that is there fits in an int.
  abbrev pub fits_at : Option Bytes → Bool
  fits_at none = true
  fits_at (some v) = fits (number v)

  -- The override and the image limit of the request.
  abbrev pub numbers_fit : Option Fields → Bool
  numbers_fit none = true
  numbers_fit (some m) =
      fits_at (num_at (codes "maxImages") m) && fits_at (num_at (codes "overrideConcurrency") m)

  natural :
      (v : Bytes)
      → fits (number v) ≡ true
      → (number v).negative ≡ false
      → pos 0 ≤ℤ to_int number outside v
  unfolding int_of
  natural v fit above = ground (arith, fit, above)

  set_override-CheckedValid :
      (v : Bytes)
      → fits (number v) ≡ true
      → (s : Server) → IsValid s
      → CheckedValid (set_override number outside v s)
  unfolding set_override
  set_override-CheckedValid v fit s (r, t, d, g, w, k) =
      if_split CheckedValid (number v).negative _ _ (λ below. (r, t, d, g, w, k))
        (λ above. (
          r,
          t,
          record {
            delay_natural = d.delay_natural;
            images_natural = d.images_natural;
            override_natural = natural v fit above;
            gate_is_override = refl;
          },
          g,
          w,
          k,
        ))

  set_max_images-CheckedValid :
      (v : Bytes)
      → fits (number v) ≡ true
      → (s : Server) → IsValid s
      → CheckedValid (set_max_images number outside v s)
  unfolding set_max_images
  set_max_images-CheckedValid v fit s (r, t, d, g, w, k) =
      if_split CheckedValid (number v).negative _ _ (λ below. (r, t, d, g, w, k))
        (λ above. (
          r,
          t,
          record {
            delay_natural = d.delay_natural;
            images_natural = natural v fit above;
            override_natural = d.override_natural;
            gate_is_override = d.gate_is_override;
          },
          g,
          w,
          k,
        ))

  check_fields-CheckedValid :
      (m : Fields) (s : Server)
      → numbers_fit (some m) ≡ true
      → IsValid s
      → CheckedValid (check_fields number outside m s)
  unfolding check_fields
  check_fields-CheckedValid m s fit h =
      then_check-CheckedValid (num_at (codes "maxImages") m) _ _
        (λ v e. set_max_images-CheckedValid v (ground (arith, fit, ap fits_at e)))
        (then_check-CheckedValid (num_at (codes "overrideConcurrency") m) _ _
          (λ v e. set_override-CheckedValid v (ground (arith, fit, ap fits_at e)))
          (then_check-CheckedValid (str_at (codes "wallpaperSource") m) _ (goes_on s)
            (λ v e. set_wallpaper-CheckedValid v) h))

  take_limits-Keeps : (m : Fields) → Keeps IsValid (in_order (take_limits number outside m))
  take_limits-Keeps m = in_order-Keeps IsValid (take_limits number outside m) (
    on_some-Keeps IsValid (str_at (codes "concurrencyLimitMode") m) set_limit_mode
        set_limit_mode-Keeps,
    (
      on_some-Keeps IsValid (num_at (codes "manualConcurrencyLimit") m) (set_manual number outside)
          (set_manual-Keeps number outside),
      (
        on_some-Keeps IsValid (num_at (codes "slotFreeDelay") m) (set_slot_delay number outside)
            (set_slot_delay-Keeps number outside),
        (
          on_some-Keeps IsValid (num_at (codes "retryAttempts") m) (set_attempts number outside)
              (set_attempts-Keeps number outside),
          (
            on_some-Keeps IsValid (str_at (codes "backoffStrategy") m) set_strategy
                set_strategy-Keeps,
            (
              on_some-Keeps IsValid (num_at (codes "requestTimeout") m) (set_timeout number outside)
                  (set_timeout-Keeps number outside),
              (on_some-Keeps IsValid (arr_at (codes "keys") m) set_keys set_keys-Keeps, tt),
            ),
          ),
        ),
      ),
    ),
  )

  finish_post-IsValid :
      (m : Fields) (c : Checked) → CheckedValid c → IsValid (finish_post number outside m c).0
  unfolding finish_post
  finish_post-IsValid m (rejected why s) h = h
  finish_post-IsValid m (goes_on s) h = take_limits-Keeps m _ (take_vision-Keeps m s h)

  -- A request leaves valid what is valid, whether it is refused or not: between none and ten retries,
  -- as the settings say, a timeout from half a minute to half an hour, which is the upstream client's,
  -- no negative delay, image limit or override, a manual limit of at least one in manual mode, the
  -- gate's mode and override those of the settings, and only the names that the handler admits. This
  -- is for requests whose override and image limit, where they have them, fit in an int.
  pub handle_config_post-IsValid :
      (reason : Bytes) (request : Option Fields) (s : Server)
      → numbers_fit request ≡ true
      → IsValid s
      → IsValid (handle_config_post number outside reason request s).0
  unfolding handle_config_post
  handle_config_post-IsValid reason none s fit h = h
  handle_config_post-IsValid reason (some m) s fit h =
      finish_post-IsValid m _ (check_fields-CheckedValid m _ fit (take_names-Keeps m _ h))
