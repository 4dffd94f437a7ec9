-- ===== src/Config.antt =====
-- planetmint/config_utils.py: the configuration as nested dicts, put together from the defaults, a
-- file, the environment and an argument. The proofs are in the modules below.
pub mod Overlay
pub mod Sources
use planetmint.Base.{
  ℕ, String, Bool, true, false, Option, none, some, List, [], ◌∷◌, ◌++◌, map, ◌==◌, if◌then◌else◌,
  ◌&&◌, not, eqb,
}
use planetmint.Errors.{Error, Result, ok, err, ◌>>=◌, type_error, attribute_error}
use planetmint.Json.{
  Json, null, bool, int, number, str, array, object, Items, nil, Fields, end, field,
}
use planetmint.Schema.{get}

-- What the code takes from the built-in functions.
pub record Builtins : Type 0 where
  pub upper : String → String
  -- `sep.join(texts)` and `text.split(sep)`
  pub join : String → List String → String
  pub split : String → String → Items
  -- `type(current)(value)`
  pub convert : Json → Json → Result Json

-- `d[k] = v`
abbrev pub set : String → Json → Fields → Fields
set k v end = field k v end
set k v (field j w rest) =
    let after = set k v rest in if j == k then field k v rest else field j w after

-- of a value that may be no dict: an item cannot be set in it, and it has no `get`
abbrev pub set_item : String → Json → Json → Result Json
set_item k v (object fields) = ok (object (set k v fields))
set_item k v _ = err type_error

-- `d.get(k, {})`
abbrev pub get_or_empty : String → Json → Result Json
get_or_empty k (object fields) = ok (elim (get k fields) [ none ↦ object end | some v ↦ v ])
get_or_empty k _ = err attribute_error

-- One round of the loop of `update` is the value that is set, and then the rest.
unfoldable mutual
  pub update : Json → Fields → Result Json
  update d end = ok d
  update d (field k v rest) = do r ← value_for d k v; next ← set_item k r d; update next rest

  pub value_for : Json → String → Json → Result Json
  value_for d k (object fields) = do below ← get_or_empty k d; update below fields
  value_for d k v = ok v

-- `map_leafs` over the copy of a mapping; the function may raise
mutual
  pub map_leafs : (Json → List String → Result Json) → List String → Fields → Result Fields
  map_leafs func path end = ok end
  map_leafs func path (field key val rest) = do
    mapped ← map_leaf func (path ++ (key ∷ [])) val
    others ← map_leafs func path rest
    ok (field key mapped others)

  pub map_leaf : (Json → List String → Result Json) → List String → Json → Result Json
  map_leaf func path (object fields) = do inner ← map_leafs func path fields; ok (object inner)
  map_leaf func path val = func val path

-- what `current[elem]` ends with for a path
pub data Found : Type 0 where
  missing : Found
  found : Json → Found
  not_a_dict : Found

-- `planetmint.config` and `planetmint._config`
pub record Module : Type 0 where
  pub config : Json
  pub defaults : Fields

-- the value of the variable, or else the one that is there
abbrev pub or_environ : Option String → Json → Json
or_environ none value = value
or_environ (some text) value = str text

module _ (builtins : Builtins) where
  abbrev pub var_name : List String → String
  var_name path = builtins.join "_" ("PLANETMINT" ∷ map builtins.upper path)

  -- `os.environ.get(var_name, value)`
  abbrev pub load_from_env : (String → Option String) → Json → List String → Result Json
  load_from_env environ value path = ok (or_environ (environ (var_name path)) value)

  unfoldable pub env_config : (String → Option String) → Fields → Result Fields
  unfolding map_leafs
  env_config environ config = map_leafs (load_from_env environ) [] config

  -- the `except TypeError` around `type(current)(value)`
  abbrev or_value : Json → Result Json → Result Json
  or_value value (err type_error) = ok value
  or_value value r = r

  -- `_coerce`, where `current` is a value of the configuration and cannot be called
  abbrev coerce : Json → Json → Result Json
  coerce (array items) (str text) = ok (array (builtins.split ":" text))
  coerce current value = or_value value (builtins.convert current value)

  abbrev lookup_path : List String → Json → Found
  lookup_path [] current = found current
  lookup_path (elem ∷ path) (object fields) = elim (get elem fields) [
    | none ↦ missing
    | some current ↦ lookup_path path current
  ]
  lookup_path (elem ∷ path) _ = not_a_dict

  pub update_type : Fields → Json → List String → Result Json
  update_type reference value path = elim (lookup_path path (object reference)) [
    | missing ↦ ok value
    | found current ↦ coerce current value
    | not_a_dict ↦ err type_error
  ]

  pub update_types : Fields → Fields → Result Fields
  unfolding map_leafs update_type
  update_types config reference = map_leafs (update_type reference) [] config

  abbrev as_fields : Json → Result Fields
  as_fields (object fields) = ok fields
  as_fields _ = err type_error

  -- `update(planetmint.config, …)`, and then the mark
  pub update_config : Fields → Module → Result Module
  unfolding update update_types
  update_config config m = do
    reference ← as_fields m.config
    typed ← update_types config reference
    merged ← update m.config typed
    marked ← set_item "CONFIGURED" (bool true) merged
    ok (record m { config = marked })

  unfoldable pub set_config : Fields → Module → Result Module
  unfolding update_config
  set_config config m = update_config config (record m { config = object m.defaults })

  -- `bool(…)` of a value; a float is not zero here
  abbrev pub truthy : Json → Bool
  truthy null = false
  truthy (bool b) = b
  truthy (str text) = not (text == "")
  truthy (int n) = not (eqb n 0)
  truthy (array nil) = false
  truthy (object end) = false
  truthy _ = true

  abbrev pub is_configured : Json → Bool
  is_configured (object fields) = elim (get "CONFIGURED" fields) [
    | none ↦ false
    | some v ↦ truthy v
  ]
  is_configured _ = false

  -- the configuration file: `None` where there is none and the name was not given
  abbrev updated_from : Json → Option Fields → Result Json
  updated_from config none = ok config
  updated_from config (some fields) = update config fields

  -- the rest of `autoconfigure`; an empty `config` changes nothing
  pub configured :
      Result (Option Fields) → (String → Option String) → Fields → Module → Result Module
  unfolding update env_config set_config
  configured file environ config m = do
    contents ← file
    newconfig ← updated_from m.config contents
    fields ← as_fields newconfig
    from_env ← env_config environ fields
    merged ← update (object from_env) config
    final ← as_fields merged
    set_config final m

  -- `autoconfigure`, with what `file_config` gave: an exception that goes up, no file under the
  -- default name, or the contents of the file
  unfoldable pub autoconfigure :
      Result (Option Fields) → (String → Option String) → Fields → Bool → Module → Result Module
  unfolding configured
  autoconfigure file environ config force m =
      if not force && is_configured m.config then ok m else configured file environ config m
