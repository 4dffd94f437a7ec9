-- ===== src/Commands.antt =====
-- The commands of planetmint/commands/planetmint.py that start an election and approve one, with
-- `generate` of the elections and of the votes. The file with the key of the node and the arguments are
-- passed in; a command returns what it returns, or none for False, with the requests that it sent.
pub mod Votes
pub mod Approved
use planetmint.Base.{
  ℕ, String, Bool, true, false, Option, none, some, List, [], ◌∷◌, ◌==◌, ◌||◌, eqb, any, keep,
  if◌then◌else◌,
}
use planetmint.Json.{Json, Fields, object, str, int, end, field}
use planetmint.Errors.{
  Error, Result, ok, err, ◌>>=◌, ◌>>◌, or_raise, is_validation_error, attribute_error, type_error,
  file_not_found_error,
}
use planetmint.Transaction.Model.{
  Operation, vote, validator_election, chain_migration_election, payload, reference, Input, Output,
  Transaction, TransactionDict,
}
use planetmint.Transaction.Serialize.{make_transaction, to_dict}
use planetmint.Transaction.Build.{version, validate_create, validate_transfer, to_inputs}
use planetmint.Validation.{Crypto}
use planetmint.Signing.{Signer, sign}
use planetmint.Backend.Mongo.{Mongo}
use planetmint.Backend.Documents.{Connection}
use planetmint.Node.{get_transaction}
use planetmint.Election.{Arithmetic, recipients, validate_as}
use planetmint.Broadcast.{Payload, RpcResponse, broadcast_tx_commit, write_transaction}

pub record KeyPair : Type 0 where
  pub private_key : String
  pub public_key : String

-- `election_data['seed'] = str(uuid)`
abbrev set_field : String → Json → Fields → Fields
set_field k v end = field k v end
set_field k v (field j w fs) = if j == k then field k v fs else field j w (set_field k v fs)

module _ {F : Type 0} (crypto : Crypto F) (signer : Signer F) (a : Arithmetic) (mongo : Mongo) where
  -- `Election.generate` of the class with this operation
  pub generate_election :
      Operation → List String → List (List String × ℕ) → Fields → String → Result (Transaction F)
  generate_election operation initiator voters election_data uuid = do
    let seeded = object (set_field "seed" (str uuid) election_data)
    parts ← validate_create crypto.fulfillments initiator voters (some seeded) none
    election ←
        make_transaction crypto.fulfillments operation (payload seeded) parts.0 parts.1 none version
          none none
    d ← to_dict crypto.fulfillments election
    crypto.validate_schema d
    ok election

  -- `Vote.generate`
  pub generate_vote : List (Input F) → List (List String × ℕ) → String → Result (Transaction F)
  generate_vote inputs voters election_id = do
    parts ← validate_transfer crypto.fulfillments inputs voters
    election_vote ←
        make_transaction crypto.fulfillments vote (reference election_id) parts.0 parts.1 none
          version none none
    d ← to_dict crypto.fulfillments election_vote
    crypto.validate_schema d
    ok election_vote

  -- `[v.amount for v in tx.outputs if key.public_key in v.public_keys]`
  abbrev pub voting_powers : String → List (Output F) → List ℕ
  voting_powers key [] = []
  voting_powers key (v ∷ vs) =
      let rest = voting_powers key vs in
      if any (λ k. key == k) v.public_keys then v.amount ∷ rest else rest

  abbrev owned_by : String → List (Input F) → List (Input F)
  owned_by key inputs = keep (λ (i : Input F). any (λ k. key == k) i.owners_before) inputs

  -- the vote of this power that is signed and valid
  pub cast_vote : Connection mongo → KeyPair → Transaction F → ℕ → Result (Transaction F)
  unfolding generate_vote
  cast_vote conn key tx power = do
    inputs ← to_inputs crypto.fulfillments tx []
    id ← or_raise tx.id type_error
    election_vote ←
        generate_vote (owned_by key.public_key inputs) ((a.to_public_key id ∷ [], power) ∷ []) id
    approval ← sign crypto signer (key.private_key ∷ []) election_vote
    validate_as crypto a mongo vote conn [] approval
    ok approval

  -- none: the key is no voter
  abbrev pub approval_of :
      Connection mongo → KeyPair → Transaction F → List ℕ → Result (Option (Transaction F))
  approval_of conn key tx [] = ok none
  approval_of conn key tx (power ∷ powers) = do
    approval ← cast_vote conn key tx power
    ok (some approval)

  pub prepare_approval :
      Connection mongo → Result KeyPair → String → Result (Option (Transaction F))
  unfolding cast_vote
  prepare_approval conn loaded_key election_id = do
    key ← loaded_key
    found ← get_transaction crypto mongo (some election_id) conn
    tx ← or_raise found attribute_error
    approval_of conn key tx (voting_powers key.public_key tx.outputs)

  is_caught : Error → Bool
  is_caught file_not_found_error = true
  is_caught e = is_validation_error e

  abbrev or_false : Result (Transaction F) → Result (Option (Transaction F))
  or_false (err e) = if is_caught e then ok none else err e
  or_false (ok tx) = ok (some tx)

  -- the `try` block of `create_new_election`
  pub prepare_election :
      Connection mongo
      → Result KeyPair
      → Operation
      → Fields
      → String
      → Result (Option (Transaction F))
  unfolding generate_election is_caught
  prepare_election conn loaded_key operation election_data uuid = or_false (do
    key ← loaded_key
    let voters = recipients crypto a mongo conn
    draft ← generate_election operation (key.public_key ∷ []) voters election_data uuid
    election ← sign crypto signer (key.private_key ∷ []) draft
    validate_as crypto a mongo operation conn [] election
    ok election)

  module _ (encode_transaction : TransactionDict → String)
      (tendermint : Payload → Result RpcResponse) where
    abbrev pub reported :
        Transaction F
        → Result (ℕ × String) × List Payload
        → Result (Option (Option String)) × List Payload
    reported tx (err e, sent) = (err e, sent)
    reported tx (ok (status, message), sent) =
        (ok (if eqb status 202 then (if message == "" then some tx.id else none) else none), sent)

    -- what is ready is written, with the mode that waits for the commit
    abbrev pub submit :
        Result (Option (Transaction F)) → Result (Option (Option String)) × List Payload
    submit (err e) = (err e, [])
    submit (ok none) = (ok none, [])
    submit (ok (some tx)) =
        reported tx (write_transaction crypto encode_transaction tendermint tx broadcast_tx_commit)

    unfoldable pub create_new_election :
        Connection mongo
        → Result KeyPair
        → Operation
        → Fields
        → String
        → Result (Option (Option String)) × List Payload
    unfolding prepare_election
    create_new_election conn loaded_key operation election_data uuid =
        submit (prepare_election conn loaded_key operation election_data uuid)

    -- `run_election_new_upsert_validator`, with the public key in hexadecimal
    pub new_upsert_validator :
        Connection mongo
        → Result KeyPair
        → String
        → ℕ
        → String
        → String
        → Result (Option (Option String)) × List Payload
    unfolding create_new_election
    new_upsert_validator conn loaded_key public_key power node_id uuid =
        create_new_election conn loaded_key validator_election
          (field "public_key"
            (object (field "value" (str public_key) (field "type" (str "ed25519-base16") end)))
            (field "power" (int power) (field "node_id" (str node_id) end)))
          uuid

    -- `run_election_new_chain_migration`
    pub new_chain_migration :
        Connection mongo → Result KeyPair → String → Result (Option (Option String)) × List Payload
    unfolding create_new_election
    new_chain_migration conn loaded_key uuid =
        create_new_election conn loaded_key chain_migration_election end uuid

    unfoldable pub run_election_approve :
        Connection mongo → Result KeyPair → String → Result (Option (Option String)) × List Payload
    unfolding prepare_approval
    run_election_approve conn loaded_key election_id =
        submit (prepare_approval conn loaded_key election_id)
