-- ===== src/Tests/Schemas.antt =====
-- The checks of a transaction's dict on concrete bodies.
use planetmint.Base.{◌≡◌, refl, String, true}
use planetmint.Errors.{ok, err, validation_error}
use planetmint.Json.{Json, null, int, str, array, object, nil, cons, Fields, end, field}
use planetmint.Schema.{
  Schemas, Checker, validate_schema, validate_key, validate_language, valid_languages,
}
use planetmint.Schema.Accepts.{
  validate_schema_iff-IsAccepted, validate_key_iff-IsStorable, validate_language_iff-IsLanguage,
  IsAccepted, IsStorable, under,
}
use planetmint.Schema.Nested.{nested_keys, values_for}

abbrev any_body : Checker
any_body = record { rapidjson = λ body. true; jsonschema = λ body. true }

abbrev schemas : Schemas
schemas = record { common = any_body; create = any_body; transfer = any_body }

abbrev asset : Fields
asset =
    field "data"
      (object (field "serial" (array (cons (object (field "part" (int 3) end)) nil)) end)) end

abbrev body : Json → Fields
body metadata =
    field "operation" (str "CREATE") (field "asset" (object asset) (field "metadata" metadata end))

abbrev fit : Json
fit = object (field "note" (object (field "language" (str "nl") end)) end)

-- a dot in a nested name, and a dict under `language`
nested_dot :
    validate_schema schemas "localmongodb"
      (body (array (cons (object (field "a" (object (field "b.c" null end)) end)) nil)))
    ≡ err validation_error
unfolding validate_schema valid_languages
nested_dot = refl

dict_of_languages :
    validate_schema schemas "localmongodb" (body (object (field "language" fit end)))
    ≡ err validation_error
unfolding validate_schema valid_languages
dict_of_languages = refl

-- a dot is no matter to another backend
other_backend : validate_schema schemas "tarantool" (body (object (field "b.c" null end))) ≡ ok tt
unfolding validate_schema
other_backend = refl

abbrev storable : (key : String) → validate_key "" key ≡ ok tt → IsStorable key
storable key h = (validate_key_iff-IsStorable "" key).0 h

fit_body : IsAccepted schemas (body fit)
unfolding validate_key validate_language valid_languages under nested_keys values_for
fit_body = record {
  IsCommon = refl;
  operation = str "CREATE";
  has_operation = refl;
  IsOfOperation = refl;
  asset = asset;
  has_asset = refl;
  data_names = (storable "serial" refl, (storable "part" refl, tt));
  metadata_names = (storable "note" refl, (storable "language" refl, tt));
  data_languages = tt;
  metadata_languages = ((validate_language_iff-IsLanguage (str "nl")).0 refl, tt);
}

validate_schema_iff-IsAccepted_example : validate_schema schemas "localmongodb" (body fit) ≡ ok tt
validate_schema_iff-IsAccepted_example =
    (validate_schema_iff-IsAccepted schemas (body fit)).1 fit_body
