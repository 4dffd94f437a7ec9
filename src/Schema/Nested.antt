-- ===== src/Schema/Nested.antt =====
-- The walks over nested dicts and lists, as loops over the keys and the values they come to.
use planetmint.Base.{
  ◌≡◌, refl, String, List, [], ◌∷◌, ◌++◌, ◌==◌, if◌then◌else◌, Bool-cases, All, inl, inr, ◌↔◌,
}
use planetmint.Errors.{Result, ok, err, ◌>>◌, >>-ok_iff}
use planetmint.Json.{
  Json, null, bool, int, number, str, array, object, Items, nil, cons, Fields, end, field,
}
use planetmint.Schema.{
  validate_keys_of, validate_all_keys_in_obj, validate_all_items_in_list, validate_values_of,
  validate_all_values_for_key_in_obj, validate_all_values_for_key_in_list,
}

-- Every key of every dict in the value, at any depth, in the order of the text.
unfoldable mutual
  pub nested_keys : Json → List String
  nested_keys (object fields) = keys_in fields
  nested_keys (array items) = keys_in_items items
  nested_keys _ = []

  pub keys_in : Fields → List String
  keys_in end = []
  keys_in (field key value rest) = (key ∷ nested_keys value) ++ keys_in rest

  pub keys_in_items : Items → List String
  keys_in_items nil = []
  keys_in_items (cons item rest) = nested_keys item ++ keys_in_items rest

-- The values that stand under the key in a dict of the value, but not those inside such a value.
unfoldable mutual
  pub values_for : String → Json → List Json
  values_for key (object fields) = values_in key fields
  values_for key (array items) = values_in_items key items
  values_for key _ = []

  pub values_in : String → Fields → List Json
  values_in key end = []
  values_in key (field vkey value rest) =
      let inside = values_for key value in
      let after = values_in key rest in (if vkey == key then value ∷ [] else inside) ++ after

  pub values_in_items : String → Items → List Json
  values_in_items key nil = []
  values_in_items key (cons item rest) = values_for key item ++ values_in_items key rest

-- a check of each element in order, which stops at the first that raises
abbrev pub each : {A : Type 0} → (A → Result (Unit {0})) → List A → Result (Unit {0})
each f [] = ok tt
each f (x ∷ xs) = f x >> each f xs

>>-assoc : (a b c : Result (Unit {0})) → (a >> (b >> c)) ≡ ((a >> b) >> c)
>>-assoc (err e) b c = refl
>>-assoc (ok t) b c = refl

pub each-append :
    {A : Type 0} (f : A → Result (Unit {0})) (xs ys : List A)
    → each f (xs ++ ys) ≡ (each f xs >> each f ys)
each-append f [] ys = refl
each-append f (x ∷ xs) ys = rw (each-append f xs ys, >>-assoc (f x) (each f xs) (each f ys)) refl

pub each-ok_iff :
    {A : Type 0} (f : A → Result (Unit {0})) (xs : List A)
    → (each f xs ≡ ok tt) ↔ All (λ x. f x ≡ ok tt) xs
each-ok_iff f [] = (λ h. tt, λ h. refl)
each-ok_iff f (x ∷ xs) = (
  λ h. let passed = (>>-ok_iff (f x) (each f xs)).0 h in (passed.0, (each-ok_iff f xs).0 passed.1),
  λ h. (>>-ok_iff (f x) (each f xs)).1 (h.0, (each-ok_iff f xs).1 h.1),
)

mutual
  unfolding validate_keys_of nested_keys

  pub keys_of-each :
      (f : String → String → Result (Unit {0})) (name : String) (value : Json)
      → validate_keys_of f name value ≡ each (f name) (nested_keys value)
  keys_of-each f name (object fields) = keys_in_obj-each f name fields
  keys_of-each f name (array items) = keys_in_list-each f name items
  keys_of-each f name null = refl
  keys_of-each f name (bool b) = refl
  keys_of-each f name (int n) = refl
  keys_of-each f name (number n) = refl
  keys_of-each f name (str t) = refl

  keys_in_obj-each :
      (f : String → String → Result (Unit {0})) (name : String) (fields : Fields)
      → validate_all_keys_in_obj f name fields ≡ each (f name) (keys_in fields)
  keys_in_obj-each f name end = refl
  keys_in_obj-each f name (field key value rest) =
      rw
        (
          keys_of-each f name value,
          keys_in_obj-each f name rest,
          each-append (f name) (nested_keys value) (keys_in rest),
        )
        refl

  keys_in_list-each :
      (f : String → String → Result (Unit {0})) (name : String) (items : Items)
      → validate_all_items_in_list f name items ≡ each (f name) (keys_in_items items)
  keys_in_list-each f name nil = refl
  keys_in_list-each f name (cons item rest) =
      rw
        (
          keys_of-each f name item,
          keys_in_list-each f name rest,
          each-append (f name) (nested_keys item) (keys_in_items rest),
        )
        refl

mutual
  unfolding validate_values_of values_for

  pub values_of-each :
      (key : String) (f : Json → Result (Unit {0})) (value : Json)
      → validate_values_of key f value ≡ each f (values_for key value)
  values_of-each key f (object fields) = values_in_obj-each key f fields
  values_of-each key f (array items) = values_in_list-each key f items
  values_of-each key f null = refl
  values_of-each key f (bool b) = refl
  values_of-each key f (int n) = refl
  values_of-each key f (number n) = refl
  values_of-each key f (str t) = refl

  values_in_obj-each :
      (key : String) (f : Json → Result (Unit {0})) (fields : Fields)
      → validate_all_values_for_key_in_obj key f fields ≡ each f (values_in key fields)
  values_in_obj-each key f end = refl
  values_in_obj-each key f (field vkey value rest) = elim (Bool-cases (vkey == key)) [
    | inl matches ↦ rw (matches, values_in_obj-each key f rest) refl
    | inr differs ↦
        rw
          (
            differs,
            values_of-each key f value,
            values_in_obj-each key f rest,
            each-append f (values_for key value) (values_in key rest),
          )
          refl
  ]

  values_in_list-each :
      (key : String) (f : Json → Result (Unit {0})) (items : Items)
      → validate_all_values_for_key_in_list key f items ≡ each f (values_in_items key items)
  values_in_list-each key f nil = refl
  values_in_list-each key f (cons item rest) =
      rw
        (
          values_of-each key f item,
          values_in_list-each key f rest,
          each-append f (values_for key item) (values_in_items key rest),
        )
        refl
