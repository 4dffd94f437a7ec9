-- ===== src/Schema.antt =====
-- The checks of a transaction's dict before it is loaded: `validate_schema` of planetmint/models.py,
-- `validate_transaction_schema` of planetmint/transactions/common/schema/__init__.py, the walks over
-- nested keys of planetmint/transactions/common/utils.py, and the language checks of
-- planetmint/backend/schema.py. The proofs are in the modules below.
pub mod Nested
pub mod Accepts
use Prim.Native.Char.{code}
use planetmint.Base.{
  ℕ, String, Bool, true, false, not, ◌||◌, Option, none, some, List, [], ◌∷◌, any, eqb, ◌==◌,
  if◌then◌else◌,
}
use planetmint.Errors.{
  Result, ok, err, ◌>>=◌, ◌>>◌, raise_if, or_raise, validation_error, schema_validation_error,
  key_error, attribute_error,
}
use planetmint.Json.{
  Json, null, bool, int, number, str, array, object, Items, nil, cons, Fields, end, field,
}

-- `for key, value in obj.items()`, with the function of the value and of the key
mutual
  pub validate_all_keys_in_obj :
      (String → String → Result (Unit {0})) → String → Fields → Result (Unit {0})
  validate_all_keys_in_obj validation_fun obj_name end = ok tt
  validate_all_keys_in_obj validation_fun obj_name (field key value rest) =
      let inside = validate_keys_of validation_fun obj_name value in
      let after = validate_all_keys_in_obj validation_fun obj_name rest in
      validation_fun obj_name key >> (inside >> after)

  pub validate_all_items_in_list :
      (String → String → Result (Unit {0})) → String → Items → Result (Unit {0})
  validate_all_items_in_list validation_fun obj_name nil = ok tt
  validate_all_items_in_list validation_fun obj_name (cons item rest) =
      let inside = validate_keys_of validation_fun obj_name item in
      let after = validate_all_items_in_list validation_fun obj_name rest in inside >> after

  -- `if isinstance(value, dict) … elif isinstance(value, list) …`
  pub validate_keys_of : (String → String → Result (Unit {0})) → String → Json → Result (Unit {0})
  validate_keys_of validation_fun obj_name (object fields) =
      validate_all_keys_in_obj validation_fun obj_name fields
  validate_keys_of validation_fun obj_name (array items) =
      validate_all_items_in_list validation_fun obj_name items
  validate_keys_of validation_fun obj_name _ = ok tt

-- A value under the key is checked and not searched.
mutual
  pub validate_all_values_for_key_in_obj :
      String → (Json → Result (Unit {0})) → Fields → Result (Unit {0})
  validate_all_values_for_key_in_obj key validation_fun end = ok tt
  validate_all_values_for_key_in_obj key validation_fun (field vkey value rest) =
      let inside = validate_values_of key validation_fun value in
      let after = validate_all_values_for_key_in_obj key validation_fun rest in
      (if vkey == key then validation_fun value else inside) >> after

  pub validate_all_values_for_key_in_list :
      String → (Json → Result (Unit {0})) → Items → Result (Unit {0})
  validate_all_values_for_key_in_list key validation_fun nil = ok tt
  validate_all_values_for_key_in_list key validation_fun (cons item rest) =
      let inside = validate_values_of key validation_fun item in
      let after = validate_all_values_for_key_in_list key validation_fun rest in inside >> after

  pub validate_values_of : String → (Json → Result (Unit {0})) → Json → Result (Unit {0})
  validate_values_of key validation_fun (object fields) =
      validate_all_values_for_key_in_obj key validation_fun fields
  validate_values_of key validation_fun (array items) =
      validate_all_values_for_key_in_list key validation_fun items
  validate_values_of key validation_fun _ = ok tt

-- `obj.get(key)`
abbrev pub get : String → Fields → Option Json
get key end = none
get key (field k value rest) = if k == key then some value else get key rest

-- only a dict has `get`
abbrev pub as_dict : Json → Result Fields
as_dict (object fields) = ok fields
as_dict _ = err attribute_error

-- `obj.get(key, {})`
abbrev pub get_or_empty : String → Json → Result Json
get_or_empty key obj = do
  fields ← as_dict obj
  ok (elim (get key fields) [ none ↦ object end | some value ↦ value ])

-- the backend that `planetmint.config` names
pub validate_txn_obj :
    String → String → Json → String → (String → String → Result (Unit {0})) → Result (Unit {0})
unfolding validate_keys_of
validate_txn_obj backend obj_name obj key validation_fun =
    if backend == "localmongodb"
    then get_or_empty key obj >>= validate_keys_of validation_fun obj_name
    else ok tt

-- `[$]` at the start of the text
abbrev starts_with_dollar : String → Bool
starts_with_dollar String.[] = false
starts_with_dollar (String.◌∷◌ c s) = eqb (code c) b'$'

-- `\.` or `\x00` anywhere in it
abbrev has_dot_or_null : String → Bool
has_dot_or_null String.[] = false
has_dot_or_null (String.◌∷◌ c s) =
    let later = has_dot_or_null s in (eqb (code c) b'.' || eqb (code c) 0) || later

unfoldable pub validate_key : String → String → Result (Unit {0})
validate_key obj_name key =
    raise_if (starts_with_dollar key || has_dot_or_null key) validation_error

unfoldable pub valid_languages : List String
valid_languages =
    "danish" ∷ "dutch" ∷ "english" ∷ "finnish" ∷ "french" ∷ "german" ∷ "hungarian" ∷ "italian"
    ∷ "norwegian" ∷ "portuguese" ∷ "romanian" ∷ "russian" ∷ "spanish" ∷ "swedish" ∷ "turkish"
    ∷ "none" ∷ "da" ∷ "nl" ∷ "en" ∷ "fi" ∷ "fr" ∷ "de" ∷ "hu" ∷ "it" ∷ "nb" ∷ "pt" ∷ "ro" ∷ "ru"
    ∷ "es" ∷ "sv" ∷ "tr" ∷ []

-- a value that is no text equals none of the languages
abbrev is_language : Json → Bool
is_language (str text) = any (λ l. l == text) valid_languages
is_language _ = false

unfoldable pub validate_language : Json → Result (Unit {0})
validate_language value = raise_if (not (is_language value)) validation_error

pub validate_language_key : String → Json → String → Result (Unit {0})
unfolding validate_values_of validate_language
validate_language_key backend obj key =
    if backend == "localmongodb"
    then get_or_empty key obj >>= validate_values_of "language" validate_language
    else ok tt

-- What rapidjson and jsonschema answer for one YAML schema.
pub record Checker : Type 0 where
  pub rapidjson : Fields → Bool
  pub jsonschema : Fields → Bool

-- `_validate_schema`: jsonschema is asked for its message, and either way it is the same error
abbrev validate_against : Checker → Fields → Result (Unit {0})
validate_against schema body =
    if schema.rapidjson body
    then ok tt
    else raise_if (not (schema.jsonschema body)) schema_validation_error
      >> err schema_validation_error

-- The schemas that `validate_transaction_schema` chooses from.
pub record Schemas : Type 0 where
  pub common : Checker
  pub create : Checker
  pub transfer : Checker

-- `tx['operation'] == 'TRANSFER'`
abbrev is_transfer : Json → Bool
is_transfer (str text) = text == "TRANSFER"
is_transfer _ = false

abbrev pub of_operation : Schemas → Json → Checker
of_operation schemas operation = if is_transfer operation then schemas.transfer else schemas.create

pub validate_transaction_schema : Schemas → Fields → Result (Unit {0})
validate_transaction_schema schemas tx = do
  validate_against schemas.common tx
  operation ← or_raise (get "operation" tx) key_error
  validate_against (of_operation schemas operation) tx

-- with the backend of `planetmint.config`
unfoldable pub validate_schema : Schemas → String → Fields → Result (Unit {0})
unfolding validate_transaction_schema validate_txn_obj validate_key validate_language_key
validate_schema schemas backend tx_body = do
  validate_transaction_schema schemas tx_body
  asset ← or_raise (get "asset" tx_body) key_error
  validate_txn_obj backend "asset" asset "data" validate_key
  validate_txn_obj backend "metadata" (object tx_body) "metadata" validate_key
  validate_language_key backend asset "data"
  validate_language_key backend (object tx_body) "metadata"
