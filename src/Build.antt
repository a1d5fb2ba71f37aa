-- ===== src/Build.antt =====
-- build.rs: which tests cargo builds. The environment is a parameter.
use Prim.Native.String.{String, ◌++◌}
use bubblegum_batch_sdk.Base.{Bool, true, false, if◌then◌else◌, Option, none, some, List, [], ◌∷◌}
use text.Mathlib.Text.{◌==◌}

abbrev skip_integration_tests : String
skip_integration_tests = "SKIP_INTEGRATION_TESTS"

-- `str::parse::<bool>`
unfoldable parse_bool : String → Option Bool
parse_bool s = if s == "true" then some true else if s == "false" then some false else none

-- `std::env::var` finds no variable that is not set or no text.
module _ (var : String → Option String) where
  unfoldable get_bool_env : String → Bool
  unfolding parse_bool
  get_bool_env var_name = elim (var var_name) [
    | none ↦ false
    | some var_value ↦ elim (parse_bool var_value) [ none ↦ false | some b ↦ b ]
  ]

  -- `main`, with the lines that it prints.
  unfoldable main : List String
  unfolding get_bool_env
  main =
      ("cargo:rerun-if-env-changed=" ++ skip_integration_tests)
      ∷ (if get_bool_env skip_integration_tests
          then "cargo:rustc-cfg=skip_integration_tests" ∷ []
          else [])
