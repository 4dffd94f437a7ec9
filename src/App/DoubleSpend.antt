-- ===== src/App/DoubleSpend.antt =====
-- What the deliveries of a block spend.
use planetmint.Base.{
  ◌≡◌, refl, sym, subst, some, List, [], ◌∷◌, ◌++◌, append_assoc, append-nil, Bool, true, false,
  All,
}
use planetmint.Errors.{ok}
use planetmint.Transaction.Link.{TransactionLink}
use planetmint.Transaction.Model.{
  Operation, is_create, create, transfer, vote, validator_election, chain_migration_election, Input,
  Output, Transaction, TransactionDict,
}
use planetmint.Validation.{Crypto, Planet, validate_transfer_inputs}
use planetmint.Validation.Spent.{IsUnspent}
use planetmint.Validation.Resolve.{AllResolved}
use planetmint.Validation.Transfer.{validate_transfer_inputs_iff-IsValidTransfer}
use planetmint.Backend.Mongo.{Mongo}
use planetmint.Backend.Documents.{Connection}
use planetmint.Node.{planet}
use planetmint.Election.{Arithmetic, validate, validate_as}
use planetmint.App.{App, begin_block}
use planetmint.App.Deliver.{AllValid, deliver_all, deliveries-IsBuilding}

-- A TRANSFER or a VOTE.
abbrev pub is_transfer : Operation → Bool
is_transfer transfer = true
is_transfer vote = true
is_transfer _ = false

transfers_only : (o : Operation) → is_transfer o ≡ true → is_create o ≡ false
transfers_only transfer h = refl
transfers_only vote h = refl
transfers_only create h = cc
transfers_only validator_election h = cc
transfers_only chain_migration_election h = cc

module _ {F : Type 0} (crypto : Crypto F) (a : Arithmetic) (mongo : Mongo) where
  -- Every input has a link, whose output no stored transaction and no earlier one spends.
  abbrev pub SpendsFresh : Connection mongo → List (Transaction F) → Transaction F → Type 0
  SpendsFresh conn earlier tx =
      All
        (λ (i : Input F).
          (l : TransactionLink) × (i.fulfills ≡ some l)
          × IsUnspent crypto (planet crypto mongo conn) earlier l.txid l.output)
        tx.inputs

  All-fresh :
      (p : Planet F) (earlier : List (Transaction F)) (is : List (Input F))
      (rs : List (Transaction F × Output F))
      → AllResolved crypto p earlier is rs
      → All
          (λ (i : Input F).
            (l : TransactionLink) × (i.fulfills ≡ some l)
            × IsUnspent crypto p earlier l.txid l.output)
          is
  All-fresh p earlier [] rs h = tt
  All-fresh p earlier (i ∷ is) [] h = absurd h
  All-fresh p earlier (i ∷ is) (r ∷ rs) h =
      ((h.0.link, h.0.fulfills, h.0.unspent), All-fresh p earlier is rs h.1)

  transfers_validate :
      (conn : Connection mongo) (earlier : List (Transaction F)) (tx : Transaction F)
      (o : Operation)
      → tx.operation ≡ o
      → is_transfer o ≡ true
      → validate crypto a mongo conn earlier tx ≡ ok tt
      → validate_transfer_inputs crypto (planet crypto mongo conn) earlier tx ≡ ok tt
  unfolding validate
  transfers_validate conn earlier tx transfer e t h =
      subst (λ o. validate_as crypto a mongo o conn earlier tx ≡ ok tt) e h
  transfers_validate conn earlier tx vote e t h =
      subst (λ o. validate_as crypto a mongo o conn earlier tx ≡ ok tt) e h
  transfers_validate conn earlier tx create e t h = cc
  transfers_validate conn earlier tx validator_election e t h = cc
  transfers_validate conn earlier tx chain_migration_election e t h = cc

  valid_at :
      (conn : Connection mongo) (earlier xs ys : List (Transaction F)) (tx : Transaction F)
      → AllValid crypto a mongo conn earlier (xs ++ tx ∷ ys)
      → validate crypto a mongo conn (earlier ++ xs) tx ≡ ok tt
  valid_at conn earlier [] ys tx h =
      subst (λ l. validate crypto a mongo conn l tx ≡ ok tt) (sym (append-nil earlier)) h.0
  valid_at conn earlier (x ∷ xs) ys tx h =
      subst (λ l. validate crypto a mongo conn l tx ≡ ok tt) (append_assoc earlier (x ∷ []) xs)
        (valid_at conn (earlier ++ x ∷ []) xs ys tx h.1)

  -- After begin_block and any deliveries that raise nothing, each TRANSFER and VOTE of the block
  -- spends outputs that no stored transaction spends and no input of a transaction before it in the
  -- block spends.
  pub deliveries-SpendsFresh :
      (app start app' : App F mongo) (ds : List TransactionDict) (xs ys : List (Transaction F))
      (tx : Transaction F)
      → begin_block crypto a mongo app ≡ ok start
      → deliver_all crypto a mongo start ds ≡ ok app'
      → app'.block_transactions ≡ xs ++ tx ∷ ys
      → is_transfer tx.operation ≡ true
      → SpendsFresh app.conn xs tx
  deliveries-SpendsFresh app start app' ds xs ys tx h k at t =
      let b = deliveries-IsBuilding crypto a mongo app start app' ds h k in
      let valid =
        valid_at app.conn [] xs ys tx (subst (AllValid crypto a mongo app.conn []) at b.valid) in
      let spend = transfers_validate app.conn xs tx tx.operation refl t valid in
      let spec =
        (validate_transfer_inputs_iff-IsValidTransfer crypto (planet crypto mongo app.conn) xs tx
            (transfers_only tx.operation t)).0
          spend in
      All-fresh (planet crypto mongo app.conn) xs tx.inputs spec.spent spec.resolved
