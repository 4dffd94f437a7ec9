-- ===== src/App.antt =====
-- planetmint/core.py: the application that Tendermint drives through the ABCI, and the recovery
-- after a crash.
pub mod Deliver
pub mod DoubleSpend
pub mod Recovery
pub mod Sync
use planetmint.Base.{
  ℕ, ◌+◌, ◌-◌, ◌<◌, String, Option, none, some, List, [], ◌∷◌, ◌++◌, map, Bool, true, false, not,
  ◌==◌, eqb, ltb, length, if◌then◌else◌,
}
use planetmint.Errors.{
  Error, Result, ok, err, ◌>>=◌, ◌>>◌, raise_if, or_raise, is_validation_error, type_error,
  system_exit,
}
use planetmint.Transaction.Model.{Transaction, TransactionDict}
use planetmint.Validation.{Crypto}
use planetmint.Backend.Mongo.{Mongo}
use planetmint.Backend.Query
use planetmint.Backend.Documents.{
  Validator, ValidatorSet, AbciChain, BlockDocument, PreCommitState, Connection,
}
use planetmint.Node.{load, store_bulk_transactions}
use planetmint.Election.{Arithmetic, ValidatorUpdate, node_validators, validate}
use planetmint.Election.Process
use planetmint.Election.Process.{process_block}

-- `App`, with the connection of its node.
pub record App (F : Type 0) (mongo : Mongo) : Type 0 where
  pub conn : Connection mongo
  pub block_txn_ids : List String
  pub block_txn_hash : String
  pub block_transactions : List (Transaction F)
  pub new_height : Option ℕ
  pub chain : Option AbciChain

pub data Code : Type 0 where
  ok_code code_type_error : Code

-- The events that `commit` puts on the queue.
pub record BlockEvent (F : Type 0) : Type 0 where
  pub height : Option ℕ
  pub hash : String
  pub transactions : List (Transaction F)

-- the height that `info` reports, which may be negative
pub data ℤ : Type 0 where
  pos negsuc : ℕ → ℤ

abbrev difference : ℕ → ℕ → ℤ
difference m n = if ltb m n then negsuc (n - (m + 1)) else pos (m - n)

pub record Genesis : Type 0 where
  pub chain_id : String
  -- `decode_validator` of the validators of the request
  pub validators : List Validator

module _ {F : Type 0} (crypto : Crypto F) (a : Arithmetic) (mongo : Mongo) where
  abbrev pub unsynced : Option AbciChain → Bool
  unsynced none = false
  unsynced (some c) = not c.is_synced

  -- `abort_if_abci_chain_is_not_synced`
  abbrev pub abort_if_not_synced : App F mongo → Result (Unit {0})
  abort_if_not_synced app = raise_if (unsynced app.chain) system_exit

  abbrev chain_shift : App F mongo → ℕ
  chain_shift app = elim app.chain [ none ↦ 0 | some c ↦ c.height ]

  -- `validate_transaction` of a dict: what `from_dict` refuses is not valid
  pub validate_transaction :
      Connection mongo → List (Transaction F) → TransactionDict → Result (Option (Transaction F))
  validate_transaction conn current d = elim (load crypto d) [
    | err e ↦ if is_validation_error e then ok none else err e
    | ok tx ↦ (do validate crypto a mongo conn current tx; ok (some tx))
  ]

  -- `is_valid_transaction`
  unfoldable pub is_valid_transaction :
      Connection mongo → List (Transaction F) → TransactionDict → Result (Option (Transaction F))
  unfolding validate_transaction is_validation_error
  is_valid_transaction conn current d = elim (validate_transaction conn current d) [
    | err e ↦ if is_validation_error e then ok none else err e
    | ok found ↦ ok found
  ]

  pub check_tx : App F mongo → TransactionDict → Result Code
  unfolding is_valid_transaction
  check_tx app d = do
    abort_if_not_synced app
    found ← is_valid_transaction app.conn [] d
    ok (elim found [ none ↦ code_type_error | some tx ↦ ok_code ])

  unfoldable pub begin_block : App F mongo → Result (App F mongo)
  begin_block app = do
    abort_if_not_synced app
    ok (record app { block_txn_ids = []; block_transactions = [] })

  -- `from_dict` has compared the id with a hash, so it is not None
  abbrev accept : App F mongo → Option (Transaction F) → Result (App F mongo × Code)
  accept app none = ok (app, code_type_error)
  accept app (some tx) = do
    id ← or_raise tx.id type_error
    ok (
      record app {
        block_txn_ids = app.block_txn_ids ++ id ∷ [];
        block_transactions = app.block_transactions ++ tx ∷ [];
      },
      ok_code,
    )

  unfoldable pub deliver_tx : App F mongo → TransactionDict → Result (App F mongo × Code)
  unfolding is_valid_transaction
  deliver_tx app d = do
    abort_if_not_synced app
    found ← is_valid_transaction app.conn app.block_transactions d
    accept app found

  -- `calculate_hash`
  pub calculate_hash : List String → String
  calculate_hash [] = ""
  calculate_hash (k ∷ ks) = crypto.hexdigest (k ∷ ks)

  abbrev next_hash : String → List String → String
  next_hash app_hash [] = app_hash
  next_hash app_hash (i ∷ is) = calculate_hash (app_hash ∷ calculate_hash (i ∷ is) ∷ [])

  pub end_block : App F mongo → ℕ → Result (App F mongo × List ValidatorUpdate)
  unfolding calculate_hash
  end_block app requested = do
    abort_if_not_synced app
    let height = requested + chain_shift app
    let conn1 =
        Query.store_pre_commit_state mongo
          (record { height = height; transactions = app.block_txn_ids }) app.conn
    block ← or_raise (Query.get_latest_block mongo conn1) type_error
    done ← process_block crypto a mongo conn1 height app.block_transactions
    ok (
      record app {
        conn = done.0;
        new_height = some height;
        block_txn_hash = next_hash block.app_hash app.block_txn_ids;
      },
      done.1,
    )

  abbrev store_delivered : App F mongo → List String → Result (Connection mongo)
  store_delivered app [] = ok app.conn
  store_delivered app (i ∷ is) =
      store_bulk_transactions crypto mongo app.block_transactions app.conn

  -- after an `end_block`, which sets the height: the hash, which is the answer, and the event for the subscribers
  pub commit : App F mongo → Result (App F mongo × String × BlockEvent F)
  commit app = do
    abort_if_not_synced app
    conn1 ← store_delivered app app.block_txn_ids
    height ← or_raise app.new_height type_error
    let conn2 =
        Query.store_block mongo
          (record {
            app_hash = app.block_txn_hash;
            height = height;
            transactions = app.block_txn_ids;
          })
          conn1
    ok (
      record app { conn = conn2 },
      app.block_txn_hash,
      record {
        height = app.new_height;
        hash = app.block_txn_hash;
        transactions = app.block_transactions;
      },
    )

  -- the height and the hash that `info` reports
  pub info : App F mongo → Result (ℤ × String)
  info app = do
    abort_if_not_synced app
    ok (elim (Query.get_latest_block mongo app.conn) [
      | none ↦ (pos 0, "")
      | some b ↦ (difference b.height (chain_shift app), b.app_hash)
    ])

  -- Python's `==` of two lists of validators
  abbrev same_validator : Validator → Validator → Bool
  same_validator v w =
      if v.key_type == w.key_type
      then (if v.public_key == w.public_key then eqb v.voting_power w.voting_power else false)
      else false

  same_validators : List Validator → List Validator → Bool
  same_validators [] [] = true
  same_validators (v ∷ vs) (w ∷ ws) =
      let rest = same_validators vs ws in if same_validator v w then rest else false
  same_validators _ _ = false

  -- the app hash and the height that a known chain goes on from
  abbrev continued : Connection mongo → Genesis → Option AbciChain → Result (String × ℕ)
  continued conn genesis none = ok ("", 0)
  continued conn genesis (some chain) = do
    raise_if chain.is_synced system_exit
    raise_if (not (chain.chain_id == genesis.chain_id)) system_exit
    ok (elim (Query.get_latest_block mongo conn) [
      | none ↦ ("", 0)
      | some b ↦ (b.app_hash, b.height + 1)
    ])

  abbrev differs : List Validator → List Validator → Bool
  differs [] set = false
  differs (v ∷ vs) set = not (same_validators (v ∷ vs) set)

  -- a mismatch of the validators exits, whether or not a chain is known
  pub init_chain : App F mongo → Genesis → Result (App F mongo)
  unfolding same_validators
  init_chain app genesis = do
    let known_chain = Query.get_latest_abci_chain mongo app.conn
    start ← continued app.conn genesis known_chain
    raise_if (differs (node_validators crypto a mongo none app.conn) genesis.validators)
        (elim known_chain [ none ↦ type_error | some c ↦ system_exit ])
    let block : BlockDocument = record { app_hash = start.0; height = start.1; transactions = [] }
    let conn1 = Query.store_block mongo block app.conn
    let set : ValidatorSet = record { height = start.1 + 1; validators = genesis.validators }
    let conn2 = Query.store_validator_set mongo set conn1
    let abci_height : ℕ = elim known_chain [ none ↦ 0 | some c ↦ c.height ]
    let conn3 = Query.store_abci_chain mongo abci_height genesis.chain_id true conn2
    ok (record app {
      conn = conn3;
      chain = some (record { height = abci_height; chain_id = genesis.chain_id; is_synced = true });
    })

  abbrev recover :
      Connection mongo → PreCommitState → Option BlockDocument → Result (Connection mongo)
  recover conn state none = err system_exit
  recover conn state (some block) =
      if ltb block.height state.height
      then (do
        conn' ← Process.rollback crypto a mongo conn state.height state.transactions
        ok (Query.delete_transactions mongo (map (λ i. some i) state.transactions) conn'))
      else ok conn

  -- `rollback` of core.py, which runs before the node starts
  unfoldable pub rollback : Connection mongo → Result (Connection mongo)
  rollback conn = elim (Query.get_pre_commit_state mongo conn) [
    | none ↦ ok conn
    | some state ↦ recover conn state (Query.get_latest_block mongo conn)
  ]
