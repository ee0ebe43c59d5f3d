-- ===== src/Config/Tests.antt =====
-- Runs of the configuration.
use umans_dash_go.Prelude.{
  ◌≡◌, refl, Option, none, some, [], ◌∷◌, if◌then◌else◌, ℤ, pos, negsuc, Bytes, codes, same,
}
use umans_dash_go.Config.{
  default_config, digits_and_unit, parse_duration, apply_env_overrides, apply_default_api_key_mode,
  missing, decoded, Loading, fatal, loaded, load_config,
}
use umans_dash_go.Config.Loaded.{Checked, load_config-Checked}

-- Two digits are the only numbers.
abbrev two_digits : Bytes → Option ℤ
two_digits text = elim text [
  | [] ↦ none
  | c ∷ cs ↦ elim cs [
    | [] ↦ none
    | d ∷ ds ↦ if same (c ∷ d ∷ ds) (codes "15") then some (pos 15) else none
  ]
]

minutes : parse_duration two_digits (codes "15m") ≡ pos 900_000_000_000
unfolding parse_duration digits_and_unit same
minutes = refl

bare : parse_duration two_digits (codes "15") ≡ pos 15_000_000
unfolding parse_duration digits_and_unit same
bare = refl

-- An environment with a timeout that is no duration.
abbrev bad_timeout : Bytes → Bytes
bad_timeout name = if same name (codes "REQUEST_TIMEOUT") then codes "soon" else []

abbrev timeout_of : Loading → ℤ
timeout_of l = elim l [ fatal ↦ negsuc 0 | loaded c with_error ↦ c.request_timeout ]

-- Without a file the timeout of zero is not noticed.
unnoticed :
    timeout_of
      (load_config (apply_env_overrides two_digits (λ s. s) (λ s. s ∷ []) bad_timeout) missing)
    ≡ pos 0
unfolding load_config apply_env_overrides apply_default_api_key_mode parse_duration digits_and_unit
    same
unnoticed = refl

load_config-Checked_example : Checked (load_config (λ c. c) (decoded default_config))
load_config-Checked_example = load_config-Checked (λ c. c) default_config
