-- ===== src/Lib.antt =====
-- Planetmint: a Tendermint application that keeps assets in MongoDB.
--
-- Tendermint drives the application of planetmint/core.py through the ABCI. `check_tx` and
-- `deliver_tx` load a transaction from its dict and validate it, the latter also against the earlier
-- transactions of the block, to which it is added; `end_block` records the pre-commit state and lets the
-- elections of the block conclude; `commit` stores the transactions and the block; `rollback` runs
-- after a crash, before the node starts. The validation goes through the node of planetmint/lib.py,
-- which reads and writes through planetmint/backend/localmongodb/query.py.
--
-- Base, with its children, holds the shared helpers: Boolean tests on numbers and optional texts,
-- lists over the native naturals, quantifiers over lists, association lists for dicts (in insertion
-- order, as Python keeps them), `set` of a list of optional texts, and `str` of a number. Errors has
-- the exceptions and the result type; a raised exception is `err e`, and what a program wrote before
-- it raised is not kept in the result. Json has the values of a parsed JSON text.
--
-- Transaction/Link is planetmint/transactions/common/transaction_link.py. Transaction/Conditions is
-- `_fulfillment_to_details` and `_fulfillment_from_details` of planetmint/transactions/common/utils.py
-- and `condition_details_has_owner` of planetmint/utils.py; the list case of the latter is a second
-- function. Transaction/Model and Transaction/Serialize are the objects and the dicts of input.py,
-- output.py and transaction.py of the same folder, with `to_dict`, `from_dict` and the checks of the
-- constructors. Transaction/Build is how clients build transactions: `Output.generate`,
-- `Input.generate`, `to_inputs`, and the classes of planetmint/transactions/types/assets/create.py and
-- transfer.py, for public keys in a flat list. Signing is `sign` of transaction.py with the functions
-- that it calls; a fulfillment is signed by giving it and getting it back, where the source signs a
-- copy in place.
--
-- Schema is `validate_schema` of planetmint/models.py with the walks over nested keys of
-- planetmint/transactions/common/utils.py, the languages of planetmint/backend/schema.py and the choice
-- of a schema in planetmint/transactions/common/schema/__init__.py. What rapidjson and jsonschema
-- answer is the record `Checker`. Node still takes the schema check of a class as a parameter, since an
-- election has another one.
--
-- Validation is `inputs_valid`, `get_asset_id` and `validate_transfer_inputs` of transaction.py, and
-- `get_spent` of planetmint/lib.py. What validation reads of the node is the record `Planet`, which
-- Node fills. Its children prove each part against a specification, and Transfer puts them together.
--
-- Backend/Query has the functions of planetmint/backend/localmongodb/query.py by their names, over
-- the operations of pymongo, which are the record `Mongo`; Backend/Documents has the documents. The
-- connection is a record of collections, passed in and returned.
--
-- Node is `Planetmint` of planetmint/lib.py: `store_bulk_transactions`, `update_utxoset`,
-- `get_transaction`, and `from_db`, `validate_id`, `spent_outputs`, `unspent_outputs` of
-- transaction.py. Election is planetmint/transactions/types/elections/election.py and vote.py with
-- the subclasses of planetmint/upsert_validator and planetmint/migrations; the class of a
-- transaction is read off its operation, as the registry of planetmint/__init__.py assigns it.
-- Election/Process has what happens with them at the end of a block and after a crash. App is
-- planetmint/core.py with `validate_transaction` and `is_valid_transaction` of lib.py; the state of
-- the application is the record `App`.
--
-- FastQuery is planetmint/fastquery.py: the outputs of a public key, and the filters of spent ones.
--
-- Merkle is `merkleroot` of planetmint/tendermint_utils.py and the root of the UTXO set in lib.py. The
-- recursion is on a list that it makes, so it is on fuel, which counts the calls: k + 1 calls do for
-- 2 ^ k hashes, and the root of the UTXO set gives one more than it has hashes.
--
-- Parallel is planetmint/parallel_validation.py. A worker process is a record with its queue, a queue of
-- multiprocessing is a list, and what the processes do is a list of events: a delivery, or one round of
-- the loop of a worker. An exception ends a worker, and `result` with too few answers is a timeout.
-- Parallel/Schedule and Parallel/Agreement are about the order of the rounds, Parallel/Indices and
-- Parallel/Conserved about the number of answers, and Parallel/Buffer about the buffer.
-- Parallel/Application is the application whose handlers use the validator.
--
-- Config is planetmint/config_utils.py over JSON values. A dict that `update` changes in place is passed
-- in and returned; the in-place change of the old configuration by `autoconfigure` is not kept, since
-- `set_config` replaces it.
--
-- Events is the exchange of planetmint/events.py between the publisher and its subscribers.
--
-- Pool is `pool` of planetmint/utils.py: the variables of its closure are the record `Shared`, a thread is
-- the place where it stands, and what it does between two accesses of the shared variables is one step.
-- A run is a list of steps, each with the thread that takes it, in any order.
--
-- Connection is planetmint/backend/connection.py and planetmint/backend/localmongodb/connection.py with
-- `Lazy` of planetmint/utils.py: the attempts to connect, and how a recorded query is run. pymongo is the
-- record `Driver`, and its world is passed in and returned. With max_tries zero the attempts are on fuel,
-- and none means that it is still trying; otherwise the rounds are max_tries.
--
-- Node/Unspent is `get_spent` over the collections, and Signing/Owners the owners of signed inputs.
-- Node/Reads is what the web server reads of the node, and Broadcast how lib.py posts a transaction to
-- Tendermint, whose endpoint is a function; the requests are returned with the answer. Web is the views
-- of planetmint/web/views over both, and Web/Parameters the parsers of their parameters, on code points.
--
-- Dispatcher is planetmint/web/websocket_dispatcher.py: a websocket is the list of the messages that it
-- was sent. The clients come and go between two events, and at most one for each event while a message
-- is being sent, which ends `publish` with a RuntimeError. Dispatcher/Loops is about the loops.
--
-- Commands is the part of planetmint/commands/planetmint.py that starts elections and approves them,
-- with `generate` of election.py and vote.py: the votes go through Transaction/Build, Signing, the
-- validation of Election and Broadcast.
--
-- Memoize is planetmint/transactions/common/memoize.py: a cache is the list of the calls it holds, the
-- last used first, passed in and returned. Python's equality of the arguments is a parameter. The other
-- modules call `to_dict` and `from_dict` directly, for ids that are hexadecimal.
--
-- Parameters stand for code that is not in the repository: cryptoconditions, base58, hashlib,
-- rapidjson and jsonschema with the YAML files that it reads (`ConditionLibrary`, `Fulfillments`,
-- `Crypto`), pymongo (`Mongo`, and `Driver` for a connection), floating-point comparison and the encodings of keys
-- (`Arithmetic`), the digests of the Merkle tree (`Hashing`), the signing of fulfillments
-- (`Signer`), and built-in functions on texts (`Builtins`). `IsExact` bounds the totals of votes
-- for which the comparisons with two thirds of a total agree with the exact ones. `BuildLaws` is
-- how cryptoconditions builds a condition, `SignLaws` what it promises of a signed fulfillment.
-- But for the Merkle root and the unlimited attempts to connect, loops are structural recursion on
-- a list, a JSON value or the details of a condition, so there is no fuel; the limit of 100 nested
-- thresholds is the source's own.
--
-- Not modelled: the server processes of flask and aiohttp, the text searches of assets and metadata, the
-- rest of the command line, logging and the start of the processes, the setup of collections and indexes (input and
-- output, or calls of pymongo), the arguments that `connect` takes from the configuration, the loading
-- of YAML schemas and of plugins, changes of the objects that the caches of `to_dict` and `from_dict` hold,
-- public keys in nested lists in a builder, and clients that come and go while one message is sent and
-- leave the number of clients as it was.
pub mod Base
pub mod Errors
pub mod Json
pub mod Schema
pub mod Transaction
pub mod Validation
pub mod Signing
pub mod Backend
pub mod Node
pub mod Merkle
pub mod Parallel
pub mod Election
pub mod Config
pub mod Events
pub mod Pool
pub mod Memoize
pub mod Connection
pub mod App
pub mod FastQuery
pub mod Dispatcher
pub mod Broadcast
pub mod Web
pub mod Commands
pub mod Tests
