-- ===== src/Election.antt =====
-- planetmint/transactions/types/elections/election.py with its subclasses `ValidatorElection`
-- (planetmint/upsert_validator) and `ChainMigrationElection` (planetmint/migrations).
pub mod Process
use planetmint.Base.{
  ℕ, ◌+◌, String, Option, none, some, is_some, opt_eq, List, [], ◌∷◌, ◌++◌, map, Bool, true, false,
  not, ◌&&◌, ◌||◌, ◌==◌, eqb, ltb, any, all, keep, sum, length, if◌then◌else◌,
}
use planetmint.Base.Dict
use planetmint.Base.Dict.{Dict}
use planetmint.Errors.{
  Result, ok, err, ◌>>=◌, ◌>>◌, raise_if, or_raise, type_error, value_error, key_error,
  attribute_error, duplicate_transaction, invalid_signature, multiple_inputs_error,
  invalid_proposer, unequal_validator_set, invalid_power_change,
}
use planetmint.Json.{Json, Fields, object, int, str, end, field}
use planetmint.Transaction.Model.{
  Operation, create, transfer, validator_election, chain_migration_election, vote, Asset, absent,
  payload, reference, Input, Output, OutputDict, Transaction, TransactionDict,
}
use planetmint.Validation.{Crypto, Planet, inputs_valid, validate_transfer_inputs}
use planetmint.Backend.Mongo.{Mongo}
use planetmint.Backend.Query
use planetmint.Backend.Documents.{
  Validator, ValidatorSet, ElectionDocument, AbciChain, BlockDocument, Connection,
}
use planetmint.Node.{planet, get_transaction}

-- Floating-point tests against the ratios of a total, and the encodings of keys.
pub record Arithmetic : Type 0 where
  -- `votes < (2 / 3) * total`, `votes >= (2 / 3) * total`, `power >= (1 / 3) * total`
  pub lt_two_thirds : ℕ → ℕ → Bool
  pub ge_two_thirds : ℕ → ℕ → Bool
  pub ge_third : ℕ → ℕ → Bool
  -- `public_key_from_ed25519_key(key_from_base64(…))`
  pub public_key_from_base64 : String → String
  -- base58 of the bytes of a hexadecimal id
  pub to_public_key : String → String
  -- `base64.b64encode(decoder(value))`, with the decoder of the key's type
  pub recode : String → String → Result String
  -- the bytes of a hexadecimal text, or a ValueError
  pub fromhex : String → Result String
  pub parse_int : String → Option ℕ
  -- `chain_id.split('-migrated-at-height-')[0] + '-migrated-at-height-' + str(height)`
  pub migrated_chain_id : String → ℕ → String

-- `ValidatorUpdate(pub_key, power)`
pub record ValidatorUpdate : Type 0 where
  pub public_key : String
  pub power : ℕ

-- `d[key]` of a JSON object
abbrev get_field : String → Fields → Result Json
get_field k end = err key_error
get_field k (field j v fs) = if j == k then ok v else get_field k fs

abbrev get_item : String → Json → Result Json
get_item k (object fs) = get_field k fs
get_item k _ = err type_error

-- `asset['data']`
abbrev asset_data : Asset → Result Json
asset_data (payload j) = ok j
asset_data (reference i) = err key_error
asset_data absent = err type_error

abbrev as_int : Json → Result ℕ
as_int (int n) = ok n
as_int _ = err type_error

abbrev as_text : Json → Result String
as_text (str s) = ok s
as_text _ = err type_error

-- Python's `==` of two dicts
abbrev pub dict_eq : Dict ℕ → Dict ℕ → Bool
dict_eq d e =
    eqb (length d) (length e)
    && all (λ (kv : String × ℕ). elim (Dict.lookup kv.0 e) [ none ↦ false | some n ↦ eqb kv.1 n ]) d

module _ {F : Type 0} where
  -- the loop of `is_same_topology` that builds the dict of voters; none: a voter with many keys
  pub voters_from : List (Output F) → Dict ℕ → Result (Option (Dict ℕ))
  voters_from [] voters = ok (some voters)
  voters_from (o ∷ os) voters =
      let rest = λ (k : String). voters_from os (Dict.insert k o.amount voters) in
      elim o.public_keys [ [] ↦ err value_error | k ∷ [] ↦ rest k | _ ↦ ok none ]

  pub is_same_topology : Dict ℕ → List (Output F) → Result Bool
  unfolding voters_from
  is_same_topology current election_topology = do
    voters ← voters_from election_topology []
    elim voters [ none ↦ ok false | some v ↦ ok (dict_eq current v) ]

  -- the getter on objects
  abbrev pub object_view : Transaction F → Operation × List (List String × ℕ)
  object_view tx = (tx.operation, map (λ (o : Output F). (o.public_keys, o.amount)) tx.outputs)

-- `len(public_keys) == 1 and [election_pk] == public_keys`
abbrev pub is_ballot : String → List String → Bool
is_ballot election_pk (k ∷ []) = election_pk == k
is_ballot election_pk _ = false

abbrev ballots : String → List (List String × ℕ) → ℕ
ballots election_pk [] = 0
ballots election_pk ((keys, amount) ∷ rest) =
    (if is_ballot election_pk keys then amount else 0) + ballots election_pk rest

-- `operation == Vote.OPERATION`
abbrev pub is_vote : Operation → Bool
is_vote vote = true
is_vote _ = false

-- `count_votes`, of what its getter reads: the operation, and of each output the public keys and
-- the amount
unfoldable pub count_votes : String → List (Operation × List (List String × ℕ)) → ℕ
count_votes election_pk [] = 0
count_votes election_pk ((operation, outputs) ∷ txns) =
    (if is_vote operation then ballots election_pk outputs else 0) + count_votes election_pk txns

-- the getter on dicts, whose amounts are texts
abbrev dict_outputs : Arithmetic → List OutputDict → Result (List (List String × ℕ))
dict_outputs a [] = ok []
dict_outputs a (o ∷ os) = do
  n ← or_raise (a.parse_int o.amount) value_error
  rest ← dict_outputs a os
  ok ((o.public_keys, n) ∷ rest)

abbrev dict_views :
    Arithmetic → List TransactionDict → Result (List (Operation × List (List String × ℕ)))
dict_views a [] = ok []
dict_views a (d ∷ ds) = do
  outputs ← dict_outputs a d.outputs
  rest ← dict_views a ds
  ok ((d.operation, outputs) ∷ rest)

module _ {F : Type 0} (crypto : Crypto F) (a : Arithmetic) (mongo : Mongo) where
  abbrev validator_list : Option ValidatorSet → List Validator
  validator_list none = []
  validator_list (some v) = v.validators

  -- `Planetmint.get_validators`
  pub node_validators : Option ℕ → Connection mongo → List Validator
  node_validators height conn = validator_list (Query.get_validator_set mongo height conn)

  abbrev collect : List Validator → Dict ℕ → Dict ℕ
  collect [] validators = validators
  collect (v ∷ vs) validators =
      collect vs (Dict.insert (a.public_key_from_base64 v.public_key) v.voting_power validators)

  -- `Election.get_validators`
  pub get_validators : Option ℕ → Connection mongo → Dict ℕ
  unfolding node_validators
  get_validators height conn = collect (node_validators height conn) []

  pub recipients : Connection mongo → List (List String × ℕ)
  unfolding get_validators
  recipients conn = map (λ (kv : String × ℕ). (kv.0 ∷ [], kv.1)) (get_validators none conn)

  -- the single owner of the single input
  abbrev proposer : List (Input F) → Option String
  proposer (i ∷ []) = elim i.owners_before [ [] ↦ none | k ∷ [] ↦ some k | _ ↦ none ]
  proposer _ = none

  -- `Election.validate`
  pub validate_election :
      Connection mongo → List (Transaction F) → Transaction F → Result (Unit {0})
  unfolding get_validators is_same_topology
  validate_election conn current tx = do
    let duplicates = any (λ (t : Transaction F). opt_eq t.id tx.id) current
    let p = planet crypto mongo conn
    raise_if (p.is_committed tx.id || duplicates) duplicate_transaction
    signed ← inputs_valid crypto tx []
    raise_if (not signed) invalid_signature
    let validators = get_validators none conn
    key ← or_raise (proposer tx.inputs) multiple_inputs_error
    raise_if (not (Dict.contains key validators)) invalid_proposer
    same ← is_same_topology validators tx.outputs
    raise_if (not same) unequal_validator_set

  power_of : Transaction F → Result ℕ
  power_of tx = do d ← asset_data tx.asset; j ← get_item "power" d; as_int j

  -- `ValidatorElection.validate`
  pub validate_validator_election :
      Connection mongo → List (Transaction F) → Transaction F → Result (Unit {0})
  unfolding validate_election power_of
  validate_validator_election conn current tx = do
    validate_election conn current tx
    power ← power_of tx
    raise_if (a.ge_third power (sum (Dict.values (get_validators none conn)))) invalid_power_change

  -- `models.Transaction.validate`
  pub validate_create : Connection mongo → List (Transaction F) → Transaction F → Result (Unit {0})
  validate_create conn current tx = do
    let duplicates = any (λ (t : Transaction F). opt_eq t.id tx.id) current
    let p = planet crypto mongo conn
    raise_if (p.is_committed tx.id || duplicates) duplicate_transaction
    signed ← inputs_valid crypto tx []
    raise_if (not signed) invalid_signature

  -- `validate` of the class that is registered for the operation
  unfoldable pub validate_as :
      Operation → Connection mongo → List (Transaction F) → Transaction F → Result (Unit {0})
  unfolding validate_create validate_validator_election
  validate_as create conn current tx = validate_create conn current tx
  validate_as transfer conn current tx =
      validate_transfer_inputs crypto (planet crypto mongo conn) current tx
  validate_as vote conn current tx =
      validate_transfer_inputs crypto (planet crypto mongo conn) current tx
  validate_as validator_election conn current tx = validate_validator_election conn current tx
  validate_as chain_migration_election conn current tx = validate_election conn current tx

  unfoldable pub validate :
      Connection mongo → List (Transaction F) → Transaction F → Result (Unit {0})
  unfolding validate_as
  validate conn current tx = validate_as tx.operation conn current tx
