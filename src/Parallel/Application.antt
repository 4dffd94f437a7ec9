-- ===== src/Parallel/Application.antt =====
-- `ParallelValidationApp` of planetmint/parallel_validation.py: the application with its handlers
-- for deliveries replaced. The workers read the store as it is while the block is delivered.
use planetmint.Base.{ℕ, String, Option, none, some, List, [], ◌∷◌, ◌++◌}
use planetmint.Errors.{Result, ok, ◌>>=◌, or_raise, type_error}
use planetmint.Transaction.Model.{Transaction, TransactionDict}
use planetmint.Validation.{Crypto}
use planetmint.Backend.Mongo.{Mongo}
use planetmint.Backend.Documents.{Connection}
use planetmint.Election.{Arithmetic, ValidatorUpdate}
use planetmint.App.{App, Code, ok_code, is_valid_transaction}
use planetmint.App
use planetmint.Parallel.{ParallelValidator}
use planetmint.Parallel

pub record ParallelValidationApp (F : Type 0) (mongo : Mongo) : Type 0 where
  pub app : App F mongo
  pub parallel_validator : ParallelValidator F

module _ {F : Type 0} (crypto : Crypto F) (a : Arithmetic) (mongo : Mongo)
    (parse_hex : Option String → Result ℕ) where
  -- `self.planetmint.is_valid_transaction`
  unfoldable pub is_valid_at :
      Connection mongo → TransactionDict → List (Transaction F) → Result (Option (Transaction F))
  unfolding is_valid_transaction
  is_valid_at conn d current = is_valid_transaction crypto a mongo conn current d

  unfoldable pub check_tx : ParallelValidationApp F mongo → TransactionDict → Code
  check_tx p d = ok_code

  unfoldable pub deliver_tx :
      ParallelValidationApp F mongo
      → TransactionDict
      → Result (ParallelValidationApp F mongo × Code)
  unfolding is_valid_at
  deliver_tx p d = do
    v ← Parallel.validate (is_valid_at p.app.conn) parse_hex d p.parallel_validator
    ok (record p { parallel_validator = v }, ok_code)

  -- the loop over the result
  abbrev pub append_valid : List (Option (Transaction F)) → App F mongo → Result (App F mongo)
  append_valid [] app = ok app
  append_valid (none ∷ found) app = append_valid found app
  append_valid (some tx ∷ found) app = do
    id ← or_raise tx.id type_error
    append_valid found (record app {
      block_txn_ids = app.block_txn_ids ++ (id ∷ []);
      block_transactions = app.block_transactions ++ (tx ∷ []);
    })

  pub end_block :
      ParallelValidationApp F mongo
      → ℕ
      → Result (ParallelValidationApp F mongo × List ValidatorUpdate)
  end_block p requested = do
    r ← Parallel.result p.parallel_validator
    extended ← append_valid r.0 p.app
    done ← App.end_block crypto a mongo extended requested
    ok (record { app = done.0; parallel_validator = r.1 }, done.1)
