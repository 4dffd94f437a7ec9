-- ===== src/App/Sync.antt =====
-- An application whose chain is migrated and not synced.
use planetmint.Base.{ℕ, ◌≡◌, refl, true}
use planetmint.Errors.{err, system_exit}
use planetmint.Transaction.Model.{TransactionDict}
use planetmint.Validation.{Crypto}
use planetmint.Backend.Mongo.{Mongo}
use planetmint.Election.{Arithmetic}
use planetmint.App.{App, unsynced, check_tx, begin_block, deliver_tx, end_block, commit, info}

module _ {F : Type 0} (crypto : Crypto F) (a : Arithmetic) (mongo : Mongo) where
  -- While the migrated chain is not synced, info, check_tx, begin_block, deliver_tx, end_block and
  -- commit exit.
  pub unsynced-handlers :
      (app : App F mongo) (d : TransactionDict) (height : ℕ)
      → unsynced crypto a mongo app.chain ≡ true
      → (info crypto a mongo app ≡ err system_exit)
        × (check_tx crypto a mongo app d ≡ err system_exit)
        × (begin_block crypto a mongo app ≡ err system_exit)
        × (deliver_tx crypto a mongo app d ≡ err system_exit)
        × (end_block crypto a mongo app height ≡ err system_exit)
        × (commit crypto a mongo app ≡ err system_exit)
  unfolding info check_tx begin_block deliver_tx end_block commit
  unsynced-handlers app d height h =
      (rw h refl, rw h refl, rw h refl, rw h refl, rw h refl, rw h refl)
