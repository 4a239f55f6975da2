-- ===== src/Config/Configure.antt =====
-- config_file_configurator::configure: the lines are read, and the prefix of their keys chooses the
-- processor.
use chucho.Base.{ℕ, ◌≡◌, refl, List, [], ◌∷◌, Option, Text, codes}
use chucho.Config.Properties.{Properties, get_subset, read_lines}
use chucho.Config.Process.{Configurable, Factories, Attempt, threw, process}
use chucho.Config.Log4cplus.Writers.{process_log4cplus}

unfoldable configure_properties :
    Factories → (Text → List Text) → ℕ → Properties → Attempt (List (Option Configurable))
unfolding process process_log4cplus
configure_properties f split_tokens fuel props = elim (get_subset (codes "chucho.") props) [
  | e ∷ es ↦ process f fuel props
  | [] ↦ elim (get_subset (codes "log4cplus.") props) [
    | [] ↦ threw
    | e ∷ es ↦ process_log4cplus f split_tokens fuel props
  ]
]

unfoldable configure :
    Factories
    → (Text → List Text)
    → (Text → Option (Text × Text))
    → ℕ
    → List Text
    → Attempt (List (Option Configurable))
unfolding configure_properties read_lines
configure f split_tokens matched fuel lines =
    configure_properties f split_tokens fuel (read_lines matched lines [])

-- Neither Chucho's keys nor log4cplus's
configure_empty :
    (f : Factories) (split_tokens : Text → List Text) (matched : Text → Option (Text × Text))
    (fuel : ℕ)
    → configure f split_tokens matched fuel [] ≡ threw
unfolding configure get_subset
configure_empty f split_tokens matched fuel = refl
