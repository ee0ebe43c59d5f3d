-- ===== src/ConfigAdmin/Gated.antt =====
-- What `HandleConfigPost` of src/handlers.go saves and answers, and when it drops the cached gate.
use umans_dash_go.Prelude.{
  ◌⊎◌, ℕ, ◌≡◌, refl, ap, true, false, Option, none, some, List, ◌∷◌, ◌&&◌, ℤ, pos, eqb_ℤ, Bytes,
  codes, same, if_split, inl, inr,
}
use umans_dash_go.Json.{Fields, str_at, arr_at, obj_at, bool_at}
use umans_dash_go.Gate.{invalidate_gate_cache}
use umans_dash_go.Retry.{backoff_presets, get_retry_attempts, set_retry_config}
use umans_dash_go.ConfigAdmin.{
  Server, num_at, in_order, take_names, take_vision, set_keys, set_address, set_api_key,
  set_api_keys, set_enabled_models, set_display_names, set_disabled_models, set_handoff_enabled,
  set_handoff_model, set_handoff_prompt, set_handoff_cache, set_key_mode, is_key_mode,
}
use umans_dash_go.ConfigAdmin.Numbers.{
  Float64, Checked, rejected, drop_gate, switch_mode, default_manual, is_limit_mode, goes_on,
  set_wallpaper, set_override, set_max_images, set_limit_mode, set_manual, set_slot_delay,
  set_attempts, set_strategy, set_timeout, is_source, is_limit_mode, switch_mode, default_manual,
  drop_gate,
}
use umans_dash_go.ConfigAdmin.Post.{
  Posted, bad_request, success, then_check, check_fields, take_limits, finish_post,
  handle_config_post,
}
use umans_dash_go.ConfigAdmin.Steps.{Keeps, on_some-Keeps, in_order-Keeps}

-- What a refused request leaves as it was; `start` is the server before it.
abbrev pub Untouched : Server → Server → Type 0
Untouched start s =
    (s.saves ≡ start.saves)
    × (s.key_pool ≡ start.key_pool)
    × (s.retries ≡ start.retries)
    × (s.upstream_timeout ≡ start.upstream_timeout)
    × (s.gate.concurrency_limit_mode ≡ start.gate.concurrency_limit_mode)
    × (s.gate.manual_limit ≡ start.gate.manual_limit)
    × (s.signals_queue ≡ false)

-- The cached gate is dropped and the queue signalled, or the gate's mode and manual limit are as before.
abbrev pub Refreshed : Server → Server → Type 0
Refreshed start s =
    (s.gate.cached_gate_at ≡ 0) × (s.signals_queue ≡ true)
    ⊎ (s.gate.concurrency_limit_mode ≡ start.gate.concurrency_limit_mode)
      × (s.gate.manual_limit ≡ start.gate.manual_limit)

abbrev Pending : Server → Server → Type 0
Pending start s = (s.saves ≡ start.saves) × Refreshed start s

take_names-Untouched :
    (start : Server) (m : Fields) → Keeps (Untouched start) (in_order (take_names m))
unfolding set_api_key set_api_keys set_address set_enabled_models set_display_names
take_names-Untouched start m = in_order-Keeps (Untouched start) (take_names m) (
  on_some-Keeps (Untouched start) (str_at (codes "apiKey") m) set_api_key (λ v s h. h),
  (
    on_some-Keeps (Untouched start) (arr_at (codes "apiKeys") m) set_api_keys (λ v s h. h),
    (
      on_some-Keeps (Untouched start) (str_at (codes "listenAddr") m) set_address (λ v s h. h),
      (
        on_some-Keeps (Untouched start) (arr_at (codes "enabledModels") m) set_enabled_models
            (λ v s h. h),
        (
          on_some-Keeps (Untouched start) (obj_at (codes "modelDisplayNames") m) set_display_names
              (λ v s h. h),
          tt,
        ),
      ),
    ),
  ),
)

set_key_mode-Pending : (start : Server) (v : Bytes) → Keeps (Pending start) (set_key_mode v)
unfolding set_key_mode
set_key_mode-Pending start v s h = if_split (Pending start) (is_key_mode v) _ s (λ b. h) (λ b. h)

take_vision-Pending :
    (start : Server) (m : Fields) → Keeps (Pending start) (in_order (take_vision m))
unfolding set_disabled_models set_handoff_enabled set_handoff_model set_handoff_prompt
    set_handoff_cache
take_vision-Pending start m = in_order-Keeps (Pending start) (take_vision m) (
  on_some-Keeps (Pending start) (arr_at (codes "disabledModels") m) set_disabled_models
      (λ v s h. h),
  (
    on_some-Keeps (Pending start) (bool_at (codes "visionHandoffEnabled") m) set_handoff_enabled
        (λ v s h. h),
    (
      on_some-Keeps (Pending start) (str_at (codes "visionHandoffModel") m) set_handoff_model
          (λ v s h. h),
      (
        on_some-Keeps (Pending start) (str_at (codes "visionHandoffPrompt") m) set_handoff_prompt
            (λ v s h. h),
        (
          on_some-Keeps (Pending start) (bool_at (codes "visionHandoffCacheEnabled") m)
              set_handoff_cache (λ v s h. h),
          (
            on_some-Keeps (Pending start) (str_at (codes "apikeyMode") m) set_key_mode
                (set_key_mode-Pending start),
            tt,
          ),
        ),
      ),
    ),
  ),
)

-- A mode that is not admitted also drops the cached gate, and signals nothing by itself.
set_limit_mode-Pending : (start : Server) (v : Bytes) → Keeps (Pending start) (set_limit_mode v)
unfolding set_limit_mode drop_gate invalidate_gate_cache switch_mode default_manual
set_limit_mode-Pending start v s h =
    if_split (λ x. Pending start (drop_gate x)) (is_limit_mode v) _ s
      (λ listed.
        if_split (λ x. Pending start (drop_gate x))
          (same v (codes "manual") && eqb_ℤ s.gate.manual_limit (pos 0))
          (default_manual (switch_mode v s)) (switch_mode v s) (λ unset. (h.0, inl (refl, refl)))
          (λ set. (h.0, inl (refl, refl))))
      (λ other. (h.0, dropped h.1))
  where
    dropped : Refreshed start s → Refreshed start (drop_gate s)
    dropped (inl r) = inl (refl, r.1)
    dropped (inr r) = inr r

set_strategy-Pending : (start : Server) (v : Bytes) → Keeps (Pending start) (set_strategy v)
unfolding set_strategy
set_strategy-Pending start v s h = go (backoff_presets v)
  where
    go :
        (o : Option (List ℕ))
        → Pending start (elim o as (λ _. Server) [
          | none ↦ s
          | some delays ↦ record s {
            settings = record s.settings { backoff_strategy = v };
            retries = set_retry_config (get_retry_attempts s.retries) v;
          }
        ])
    go none = h
    go (some delays) = h

abbrev CheckedUntouched : Server → Checked → Type 0
CheckedUntouched start (rejected why s) = Untouched start s
CheckedUntouched start (goes_on s) = Untouched start s

then_check-CheckedUntouched :
    (start : Server) (o : Option Bytes) (f : Bytes → Server → Checked) (c : Checked)
    → ((v : Bytes) (s : Server) → Untouched start s → CheckedUntouched start (f v s))
    → CheckedUntouched start c
    → CheckedUntouched start (then_check o f c)
then_check-CheckedUntouched start o f (rejected why s) keeps h = h
then_check-CheckedUntouched start none f (goes_on s) keeps h = h
then_check-CheckedUntouched start (some v) f (goes_on s) keeps h = keeps v s h

-- A refusal saves nothing and leaves the pool, the retries, the timeout and the gate's limit, and the
-- queue is not signalled. A success answers and saves, once, the settings as they then are, drops the
-- rendered dashboard, and has refreshed the gate where its mode or limit changed.
abbrev pub Answered : Server → Server × Posted → Type 0
Answered start (s, bad_request why) = Untouched start s
Answered start (s, success c restart) =
    (s.settings ≡ c) × (s.saves ≡ c ∷ start.saves) × (s.rendered ≡ false) × Refreshed start s

module _ (number : Bytes → Float64) (outside : Float64 → ℤ) (start : Server) where
  check_fields-CheckedUntouched :
      (m : Fields) (s : Server)
      → Untouched start s
      → CheckedUntouched start (check_fields number outside m s)
  unfolding check_fields set_max_images set_override set_wallpaper
  check_fields-CheckedUntouched m s h =
      then_check-CheckedUntouched start (num_at (codes "maxImages") m) _ _
        (λ v s h. if_split (CheckedUntouched start) (number v).negative _ _ (λ b. h) (λ b. h))
        (then_check-CheckedUntouched start (num_at (codes "overrideConcurrency") m) _ _
          (λ v s h. if_split (CheckedUntouched start) (number v).negative _ _ (λ b. h) (λ b. h))
          (then_check-CheckedUntouched start (str_at (codes "wallpaperSource") m) _ (goes_on s)
            (λ v s h. if_split (CheckedUntouched start) (is_source v) _ _ (λ b. h) (λ b. h)) h))

  take_limits-Pending :
      (m : Fields) → Keeps (Pending start) (in_order (take_limits number outside m))
  unfolding set_manual set_slot_delay set_attempts set_timeout set_keys drop_gate
      invalidate_gate_cache
  take_limits-Pending m = in_order-Keeps (Pending start) (take_limits number outside m) (
    on_some-Keeps (Pending start) (str_at (codes "concurrencyLimitMode") m) set_limit_mode
        (set_limit_mode-Pending start),
    (
      on_some-Keeps (Pending start) (num_at (codes "manualConcurrencyLimit") m)
          (set_manual number outside) (λ v s h. (h.0, inl (refl, refl))),
      (
        on_some-Keeps (Pending start) (num_at (codes "slotFreeDelay") m)
            (set_slot_delay number outside) (λ v s h. h),
        (
          on_some-Keeps (Pending start) (num_at (codes "retryAttempts") m)
              (set_attempts number outside) (λ v s h. h),
          (
            on_some-Keeps (Pending start) (str_at (codes "backoffStrategy") m) set_strategy
                (set_strategy-Pending start),
            (
              on_some-Keeps (Pending start) (num_at (codes "requestTimeout") m)
                  (set_timeout number outside) (λ v s h. h),
              (on_some-Keeps (Pending start) (arr_at (codes "keys") m) set_keys (λ v s h. h), tt),
            ),
          ),
        ),
      ),
    ),
  )

  finish_post-Answered :
      (m : Fields) (c : Checked)
      → CheckedUntouched start c
      → Answered start (finish_post number outside m c)
  unfolding finish_post
  finish_post-Answered m (rejected why s) h = h
  finish_post-Answered m (goes_on s) h = (refl, ap (s2.settings ∷◌) done_all.0, refl, done_all.1)
    where
      s2 : Server
      s2 = in_order (take_limits number outside m) (in_order (take_vision m) s)

      done_all : Pending start s2
      done_all = take_limits-Pending m _ (take_vision-Pending start m s (h.0, inr (h.4, h.5)))

  -- Every request is refused or succeeds. A refusal saves nothing and leaves the key pool, the retries,
  -- the upstream client's timeout and the gate's mode and manual limit as they were, without a signal to
  -- the queue. A success answers and saves, once, the settings as they then are, drops the rendered
  -- dashboard, and has dropped the cached gate and signalled the queue, unless the gate's mode and its
  -- manual limit are as before.
  pub handle_config_post-Answered :
      (reason : Bytes) (request : Option Fields)
      → Answered start (handle_config_post number outside reason request start)
  unfolding handle_config_post
  handle_config_post-Answered reason none = (refl, refl, refl, refl, refl, refl, refl)
  handle_config_post-Answered reason (some m) = finish_post-Answered m _ (
      check_fields-CheckedUntouched m _
        (take_names-Untouched start m _ (refl, refl, refl, refl, refl, refl, refl)))
