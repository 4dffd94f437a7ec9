-- ===== src/Tests/Configs.antt =====
-- A configuration from defaults, a file and the environment.
use planetmint.Base.{
  ◌≡◌, refl, String, true, false, Option, none, some, List, [], ◌∷◌, ◌==◌, if◌then◌else◌,
}
use planetmint.Errors.{ok, err, type_error}
use planetmint.Json.{Json, bool, int, str, object, nil, Fields, end, field}
use planetmint.Config.{Builtins, Module, update, env_config, autoconfigure, is_configured}
use planetmint.Config.Overlay.{leaf_at, update-overlaid}
use planetmint.Config.Sources.{env_config-leaf, autoconfigure-once}

abbrev last : List String → String
last [] = ""
last (t ∷ []) = t
last (t ∷ u ∷ ts) = last (u ∷ ts)

-- the name of a variable is the last part of its path
abbrev builtins : Builtins
builtins = record {
  upper = λ t. t;
  join = λ sep texts. last texts;
  split = λ sep text. nil;
  convert = λ current value. ok value;
}

abbrev database : Json → Fields
database host = field "database" (object (field "host" host (field "port" (int 27017) end))) end

abbrev defaults : Fields
defaults = database (str "localhost")

abbrev file : Fields
file = field "database" (object (field "host" (str "db") end)) end

abbrev environ : String → Option String
environ name = if name == "port" then some "27018" else none

updates : update (object defaults) file ≡ ok (object (database (str "db")))
unfolding update
updates = refl

-- a dict in place of a value
over_a_value : update (object (field "database" (str "db") end)) file ≡ err type_error
unfolding update
over_a_value = refl

update-overlaid_example :
    leaf_at ("database" ∷ "host" ∷ []) (object (database (str "db"))) ≡ some (str "db")
update-overlaid_example =
    update-overlaid file (object defaults) ("database" ∷ "host" ∷ []) (refl, (refl, tt, tt), tt)
      updates

abbrev from_env : Fields
from_env =
    field "database" (object (field "host" (str "localhost") (field "port" (str "27018") end))) end

reads_env : env_config builtins environ defaults ≡ ok from_env
unfolding env_config
reads_env = refl

env_config-leaf_example : leaf_at ("database" ∷ "port" ∷ []) (object from_env) ≡ some (str "27018")
env_config-leaf_example =
    env_config-leaf builtins environ ("port" ∷ []) "database" defaults reads_env refl

abbrev first : Module
first = record { config = object defaults; defaults = defaults }

abbrev configured : Module
configured = record {
  config = object (
      field "database" (object (field "host" (str "db") (field "port" (str "27018") end)))
        (field "CONFIGURED" (bool true) end));
  defaults = defaults;
}

configures : autoconfigure builtins (ok (some file)) environ end false first ≡ ok configured
unfolding autoconfigure
configures = refl

autoconfigure-once_example :
    (is_configured builtins configured.config ≡ true)
    × (autoconfigure builtins (err type_error) environ end false configured ≡ ok configured)
autoconfigure-once_example =
    autoconfigure-once builtins (ok (some file)) (err type_error) environ environ end end false
      first configures
