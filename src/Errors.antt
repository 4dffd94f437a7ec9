-- ===== src/Errors.antt =====
-- The exceptions of planetmint/exceptions.py and planetmint/transactions/common/exceptions.py, the
-- built-in ones that the modelled code lets through, and a call that may raise.
use planetmint.Base.{◌≡◌, refl, ◌↔◌, Bool, true, false, Option, none, some}

pub data Error : Type 0 where
  double_spend invalid_hash schema_validation_error invalid_signature : Error
  asset_id_mismatch amount_error input_does_not_exist transaction_owner_error : Error
  duplicate_transaction threshold_too_deep multiple_validator_operation_error : Error
  multiple_inputs_error invalid_proposer unequal_validator_set invalid_power_change : Error
  invalid_public_key validation_error : Error
  critical_double_spend keypair_mismatch configuration_error : Error
  type_error value_error key_error index_error attribute_error unsupported_type_error : Error
  parsing_error asn1_encode_error asn1_decode_error : Error
  system_exit duplicate_key_error connection_error : Error
  zero_division_error queue_empty operation_error pymongo_error file_not_found_error : Error

-- The subclasses of `ValidationError`, which `except ValidationError` catches.
unfoldable pub is_validation_error : Error → Bool
is_validation_error critical_double_spend = false
is_validation_error keypair_mismatch = false
is_validation_error configuration_error = false
is_validation_error type_error = false
is_validation_error value_error = false
is_validation_error key_error = false
is_validation_error index_error = false
is_validation_error attribute_error = false
is_validation_error unsupported_type_error = false
is_validation_error parsing_error = false
is_validation_error asn1_encode_error = false
is_validation_error asn1_decode_error = false
is_validation_error system_exit = false
is_validation_error duplicate_key_error = false
is_validation_error connection_error = false
is_validation_error zero_division_error = false
is_validation_error queue_empty = false
is_validation_error operation_error = false
is_validation_error pymongo_error = false
is_validation_error file_not_found_error = false
is_validation_error _ = true

pub data Result {ℓ} (A : Type ℓ) : Type ℓ where
  err : Error → Result A
  ok : A → Result A

infixl 10 ◌>>=◌ ◌>>◌
-- what follows a call: an exception skips it
abbrev pub ◌>>=◌ {ℓ κ} : {A : Type ℓ} {B : Type κ} → Result A → (A → Result B) → Result B
err raised >>= next = err raised
ok value >>= next = next value

-- the same for a statement without a value
abbrev pub ◌>>◌ {ℓ} : {C : Type ℓ} → Result (Unit {0}) → Result C → Result C
statement >> next = statement >>= λ nothing. next

-- `if b: raise e`
abbrev pub raise_if : Bool → Error → Result (Unit {0})
raise_if true e = err e
raise_if false e = ok tt

-- a lookup that raises where nothing is found
abbrev pub or_raise {ℓ} : {A : Type ℓ} → Option A → Error → Result A
or_raise none e = err e
or_raise (some a) e = ok a

pub or_raise-eq-ok {ℓ} :
    {A : Type ℓ} (o : Option A) (e : Error) {a : A} → or_raise o e ≡ ok a → o ≡ some a
or_raise-eq-ok none e h = cc
or_raise-eq-ok (some b) e h = cc

-- what returns has returned at each call
pub >>=-eq-ok {ℓ κ} :
    {A : Type ℓ} {B : Type κ} (call : Result A) (next : A → Result B) {result : B}
    → (call >>= next) ≡ ok result
    → (value : A) × (call ≡ ok value) × (next value ≡ ok result)
>>=-eq-ok (err raised) next returned = cc
>>=-eq-ok (ok value) next returned = (value, refl, returned)

pub raise_if-eq-ok : (b : Bool) (e : Error) → raise_if b e ≡ ok tt → b ≡ false
raise_if-eq-ok true e h = cc
raise_if-eq-ok false e h = refl

pub ok-injective {ℓ} : {A : Type ℓ} {a b : A} → ◌≡◌ {A = Result A} (ok a) (ok b) → a ≡ b
ok-injective h = cc

-- a sequence of statements returns if each of them does
pub >>-ok_iff {ℓ} :
    {C : Type ℓ} (statement : Result (Unit {0})) (next : Result C) {result : C}
    → ((statement >> next) ≡ ok result) ↔ ((statement ≡ ok tt) × (next ≡ ok result))
>>-ok_iff (err raised) next = (λ h. cc, λ h. cc h.0)
>>-ok_iff (ok t) next = (λ h. (refl, h), λ h. h.1)

pub raise_if-ok_iff : (b : Bool) (e : Error) → (raise_if b e ≡ ok tt) ↔ (b ≡ false)
raise_if-ok_iff b e = (raise_if-eq-ok b e, λ h. rw h refl)
