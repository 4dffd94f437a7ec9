-- ===== src/Schema/Accepts.antt =====
-- Which transactions `validate_schema` lets through, with MongoDB as the backend.
use Prim.Native.Char.{code}
use planetmint.Base.{
  ℕ, ◌≡◌, ◌≢◌, refl, ◌↔◌, inl, inr, String, Bool, true, false, not, ◌||◌, none, some, List, [], ◌∷◌,
  eqb_iff, ◌==◌, eq_iff, All, Any, any-true_iff, All-weaken, get_elem?, arith, Bool-cases, sym,
  subst, ap, ◌∙◌,
}
use planetmint.Errors.{
  ok, or_raise, validation_error, >>-ok_iff, >>=-eq-ok, raise_if-eq-ok, raise_if-ok_iff,
  or_raise-eq-ok, key_error,
}
use planetmint.Json.{Json, null, bool, int, number, str, array, object, Fields, end}
use planetmint.Schema.{
  validate_schema, validate_transaction_schema, validate_txn_obj, validate_key, validate_language,
  validate_language_key, validate_against, get, of_operation, is_language, valid_languages,
  starts_with_dollar, has_dot_or_null, Checker, Schemas,
}
use planetmint.Schema.Nested.{nested_keys, values_for, each-ok_iff, keys_of-each, values_of-each}

abbrev codes : String → List ℕ
codes String.[] = []
codes (String.◌∷◌ c s) = code c ∷ codes s

-- A name that MongoDB takes for a field: no `$` in front, no dot and no NUL.
unfoldable pub IsStorable : String → Type 0
IsStorable key = (get_elem? (codes key) 0 ≢ some b'$') × All (λ c. (c ≢ b'.') × (c ≢ 0)) (codes key)

unfoldable pub IsLanguage : Json → Type 0
IsLanguage value = (text : String) × (value ≡ str text) × Any (λ l. l ≡ text) valid_languages

no_dollar_iff :
    (key : String) → (starts_with_dollar key ≡ false) ↔ (get_elem? (codes key) 0 ≢ some b'$')
no_dollar_iff String.[] = (λ h. λ e. cc, λ h. refl)
no_dollar_iff (String.◌∷◌ c s) =
    (λ h. λ e. ground (arith, eqb_iff (code c) b'$'), λ h. ground (arith, eqb_iff (code c) b'$'))

no_dot_iff :
    (key : String) → (has_dot_or_null key ≡ false) ↔ All (λ c. (c ≢ b'.') × (c ≢ 0)) (codes key)
no_dot_iff String.[] = (λ h. tt, λ h. refl)
no_dot_iff (String.◌∷◌ c s) =
    (λ h. ground (arith, (no_dot_iff s).0), λ h. ground (arith, (no_dot_iff s).1 h.1))

or-false_iff : (a b : Bool) → ((a || b) ≡ false) ↔ ((a ≡ false) × (b ≡ false))
or-false_iff true b = (λ h. cc, λ h. cc)
or-false_iff false b = (λ h. (refl, h), λ h. h.1)

pub validate_key_iff-IsStorable :
    (name key : String) → (validate_key name key ≡ ok tt) ↔ IsStorable key
unfolding validate_key IsStorable
validate_key_iff-IsStorable name key = (
  λ h.
      let no =
        (or-false_iff (starts_with_dollar key) (has_dot_or_null key)).0
          (raise_if-eq-ok _ validation_error h) in
      ((no_dollar_iff key).0 no.0, (no_dot_iff key).0 no.1),
  λ h. (raise_if-ok_iff (starts_with_dollar key || has_dot_or_null key) validation_error).1 (
      (or-false_iff (starts_with_dollar key) (has_dot_or_null key)).1
        ((no_dollar_iff key).1 h.0, (no_dot_iff key).1 h.1)),
)

Any-weaken :
    {A : Type 0} (P Q : A → Type 0) (xs : List A) → ((x : A) → P x → Q x) → Any P xs → Any Q xs
Any-weaken P Q [] f h = absurd h
Any-weaken P Q (x ∷ xs) f h = elim h [ inl e ↦ inl (f x e) | inr e ↦ inr (Any-weaken P Q xs f e) ]

not-false : (b : Bool) → not b ≡ false → b ≡ true
not-false true h = refl
not-false false h = cc

is_language-true : (value : Json) → is_language value ≡ true → IsLanguage value
unfolding IsLanguage
is_language-true (str text) h = (
  text,
  refl,
  Any-weaken _ _ valid_languages (λ l. (eq_iff l text).0)
      ((any-true_iff (λ l. l == text) valid_languages).0 h),
)
is_language-true null h = cc
is_language-true (bool b) h = cc
is_language-true (int n) h = cc
is_language-true (number n) h = cc
is_language-true (array items) h = cc
is_language-true (object fields) h = cc

language_is : (value : Json) → IsLanguage value → is_language value ≡ true
unfolding IsLanguage
language_is value h =
    subst (λ v. is_language v ≡ true) (sym h.1)
      ((any-true_iff (λ l. l == h.0) valid_languages).1
        (Any-weaken _ _ valid_languages (λ l. (eq_iff l h.0).1) h.2))

pub validate_language_iff-IsLanguage :
    (value : Json) → (validate_language value ≡ ok tt) ↔ IsLanguage value
unfolding validate_language
validate_language_iff-IsLanguage value = (
  λ h. is_language-true value (not-false (is_language value) (raise_if-eq-ok _ validation_error h)),
  λ h. rw (language_is value h) refl,
)

-- What stands under the key of the dict, or the empty dict.
unfoldable pub under : String → Fields → Json
under key fields = elim (get key fields) [ none ↦ object end | some v ↦ v ]

txn_obj_iff :
    (name key : String) (fields : Fields)
    → (validate_txn_obj "localmongodb" name (object fields) key validate_key ≡ ok tt)
      ↔ All IsStorable (nested_keys (under key fields))
unfolding validate_txn_obj under
txn_obj_iff name key fields =
    let value = under key fields in
    let loop = each-ok_iff (validate_key name) (nested_keys value) in
    (
      λ h.
          All-weaken _ _ (nested_keys value) (λ k. (validate_key_iff-IsStorable name k).0)
            (loop.0 (sym (keys_of-each validate_key name value) ∙ h)),
      λ h.
          keys_of-each validate_key name value
          ∙ loop.1
              (All-weaken _ _ (nested_keys value) (λ k. (validate_key_iff-IsStorable name k).1) h),
    )

validate_language_key-IsLanguage :
    (key : String) (fields : Fields)
    → (validate_language_key "localmongodb" (object fields) key ≡ ok tt)
      ↔ All IsLanguage (values_for "language" (under key fields))
unfolding validate_language_key under
validate_language_key-IsLanguage key fields =
    let value = under key fields in
    let loop = each-ok_iff validate_language (values_for "language" value) in
    (
      λ h.
          All-weaken _ _ (values_for "language" value) (λ v. (validate_language_iff-IsLanguage v).0)
            (loop.0 (sym (values_of-each "language" validate_language value) ∙ h)),
      λ h.
          values_of-each "language" validate_language value
          ∙ loop.1 (
              All-weaken _ _ (values_for "language" value)
                (λ v. (validate_language_iff-IsLanguage v).1) h),
    )

-- The two schemas accept the body, its asset is a dict, and the names and languages in the asset's
-- data and in the metadata are fit for MongoDB.
pub record IsAccepted (schemas : Schemas) (tx_body : Fields) : Type 0 where
  pub IsCommon : schemas.common.rapidjson tx_body ≡ true
  pub operation : Json
  pub has_operation : get "operation" tx_body ≡ some operation
  pub IsOfOperation : (of_operation schemas operation).rapidjson tx_body ≡ true
  pub asset : Fields
  pub has_asset : get "asset" tx_body ≡ some (object asset)
  pub data_names : All IsStorable (nested_keys (under "data" asset))
  pub metadata_names : All IsStorable (nested_keys (under "metadata" tx_body))
  pub data_languages : All IsLanguage (values_for "language" (under "data" asset))
  pub metadata_languages : All IsLanguage (values_for "language" (under "metadata" tx_body))

validate_against_iff :
    (schema : Checker) (body : Fields)
    → (validate_against schema body ≡ ok tt) ↔ (schema.rapidjson body ≡ true)
validate_against_iff schema body = elim (Bool-cases (schema.rapidjson body)) [
  | inl e ↦ (λ h. e, λ h. rw e refl)
  | inr e ↦ elim (Bool-cases (schema.jsonschema body)) [
    | inl j ↦ ground arith
    | inr j ↦ ground arith
  ]
]

dict_asset :
    (asset : Json) (name key : String)
    → validate_txn_obj "localmongodb" name asset key validate_key ≡ ok tt
    → (fields : Fields) × (asset ≡ object fields)
unfolding validate_txn_obj
dict_asset (object fields) name key h = (fields, refl)
dict_asset null name key h = cc
dict_asset (bool b) name key h = cc
dict_asset (int n) name key h = cc
dict_asset (number n) name key h = cc
dict_asset (str t) name key h = cc
dict_asset (array items) name key h = cc

validate_transaction_schema_iff :
    (schemas : Schemas) (tx : Fields)
    → (validate_transaction_schema schemas tx ≡ ok tt) ↔ (
        (schemas.common.rapidjson tx ≡ true)
        × ((operation : Json) × (get "operation" tx ≡ some operation)
            × ((of_operation schemas operation).rapidjson tx ≡ true)))
unfolding validate_transaction_schema
validate_transaction_schema_iff schemas tx = (
  λ h.
      let steps = (>>-ok_iff (validate_against schemas.common tx) _).0 h in
      let found = >>=-eq-ok (or_raise (get "operation" tx) key_error) _ steps.1 in
      (
        (validate_against_iff schemas.common tx).0 steps.0,
        (
          found.0,
          or_raise-eq-ok (get "operation" tx) key_error found.1,
          (validate_against_iff (of_operation schemas found.0) tx).0 found.2,
        ),
      ),
  λ h. (>>-ok_iff (validate_against schemas.common tx) _).1 (
    (validate_against_iff schemas.common tx).1 h.0,
    rw (h.1.1, (validate_against_iff (of_operation schemas h.1.0) tx).1 h.1.2) refl,
  ),
)

-- With MongoDB as the backend, validate_schema of models.py lets a body through exactly if the
-- common schema and the one of its operation accept it, its asset is a dict, every key at any depth
-- of the data of the asset and of the metadata is a name that MongoDB takes, and every value under
-- a key language there is one of the languages.
pub validate_schema_iff-IsAccepted :
    (schemas : Schemas) (tx_body : Fields)
    → (validate_schema schemas "localmongodb" tx_body ≡ ok tt) ↔ IsAccepted schemas tx_body
unfolding validate_schema
validate_schema_iff-IsAccepted schemas tx_body = (
  λ h.
      let steps = (>>-ok_iff (validate_transaction_schema schemas tx_body) _).0 h in
      let read = >>=-eq-ok (or_raise (get "asset" tx_body) key_error) _ steps.1 in
      let inside =
        (>>-ok_iff (validate_txn_obj "localmongodb" "asset" read.0 "data" validate_key) _).0
          read.2 in
      let metadata =
        (>>-ok_iff
            (validate_txn_obj "localmongodb" "metadata" (object tx_body) "metadata" validate_key)
            _).0
          inside.1 in
      let languages =
        (>>-ok_iff (validate_language_key "localmongodb" read.0 "data") _).0 metadata.1 in
      let shape = (validate_transaction_schema_iff schemas tx_body).0 steps.0 in
      let asset = dict_asset read.0 "asset" "data" inside.0 in
      record {
        IsCommon = shape.0;
        operation = shape.1.0;
        has_operation = shape.1.1;
        IsOfOperation = shape.1.2;
        asset = asset.0;
        has_asset = or_raise-eq-ok (get "asset" tx_body) key_error read.1 ∙ ap some asset.1;
        data_names = (txn_obj_iff "asset" "data" asset.0).0 (
            subst (λ j. validate_txn_obj "localmongodb" "asset" j "data" validate_key ≡ ok tt)
              asset.1 inside.0);
        metadata_names = (txn_obj_iff "metadata" "metadata" tx_body).0 metadata.0;
        data_languages = (validate_language_key-IsLanguage "data" asset.0).0 (
            subst (λ j. validate_language_key "localmongodb" j "data" ≡ ok tt) asset.1 languages.0);
        metadata_languages = (validate_language_key-IsLanguage "metadata" tx_body).0 languages.1;
      },
  λ a.
      rw
        (
          (validate_transaction_schema_iff schemas tx_body).1
              (a.IsCommon, (a.operation, a.has_operation, a.IsOfOperation)),
          a.has_asset,
          (txn_obj_iff "asset" "data" a.asset).1 a.data_names,
          (txn_obj_iff "metadata" "metadata" tx_body).1 a.metadata_names,
          (validate_language_key-IsLanguage "data" a.asset).1 a.data_languages,
          (validate_language_key-IsLanguage "metadata" tx_body).1 a.metadata_languages,
        )
        refl,
)
