-- ===== src/Config/Load.antt =====
-- Load of internal/config/config.go. The file's text (`none`: it cannot be read) and the YAML decoder
-- are parameters.
use distributed_task_queue_s.Prelude.{Option, none, some, List, [], ◌∷◌, Text, codes, if◌then◌else◌}
use distributed_task_queue_s.Env.Float.{Float64}
use distributed_task_queue_s.Config.{Config}
use distributed_task_queue_s.Config.Defaults.{is_blank, default_config}
use distributed_task_queue_s.Config.Problem.{Problem}
use distributed_task_queue_s.Config.Apply.{apply_defaults}
use distributed_task_queue_s.Config.Validate.{validate_config}

unfoldable pub display_path : Text → Text
display_path path = if is_blank path then codes "(built-in defaults)" else path

module _ ⦃fl : Float64⦄ where
  pub data Loaded : Type 0 where
    loaded : Config → Loaded
    unreadable : Text → Loaded
    unparsable : Text → Loaded
    invalid : Text → List Problem → Loaded

  -- After decoding: the defaults, and what Validate says.
  unfoldable pub check_loaded : Text → Config → Loaded
  unfolding display_path
  check_loaded path decoded =
      let c = apply_defaults decoded in
      elim (validate_config c) [ [] ↦ loaded c | p ∷ ps ↦ invalid (display_path path) (p ∷ ps) ]

  unfoldable pub load : (Config → Text → Option Config) → Text → Option Text → Loaded
  unfolding check_loaded
  load decode path file = if is_blank path then check_loaded path default_config else (elim file [
    | none ↦ unreadable path
    | some raw ↦ elim (decode default_config raw) [
      | none ↦ unparsable path
      | some c ↦ check_loaded path c
    ]
  ])
