-- ===== src/App/Recovery.antt =====
-- `rollback` of core.py, and what is left of a crash between `end_block` and `commit`.
use planetmint.Base.{
  ◌+◌, ◌<◌, ◌≡◌, refl, ap, sym, subst, ◌∙◌, none, some, List, map, true, false, arith, ltb, String,
  Option, Bool, not, any, any-map, keep, keep-ext, opt_eq, eqb,
}
use planetmint.Errors.{ok, ok-injective}
use planetmint.Transaction.Model.{Transaction, TransactionDict, validator_election}
use planetmint.Validation.{Crypto}
use planetmint.Backend.Mongo.{Mongo, MongoLaws, contents}
use planetmint.Backend.Query
use planetmint.Backend.Documents.{
  AssetDocument, MetadataDocument, ElectionDocument, BlockDocument, PreCommitState, ValidatorSet,
  Connection,
}
use planetmint.Election.{Arithmetic}
use planetmint.Election.Process.{has_concluded}
use planetmint.Election.Process.Unstored.{NoneStored, rollback-NoneStored, pending-has_concluded}
use planetmint.App.{rollback}

module _ {F : Type 0} (crypto : Crypto F) (a : Arithmetic) (mongo : Mongo) where
  -- rollback deletes the election records of the height and the documents of the transactions
  rollback_deletes :
      (conn : Connection mongo) (s : PreCommitState) (b : BlockDocument)
      → Query.get_pre_commit_state mongo conn ≡ some s
      → Query.get_latest_block mongo conn ≡ some b
      → b.height < s.height
      → NoneStored crypto a mongo conn s.transactions
      → rollback crypto a mongo conn
        ≡ ok (
            Query.delete_transactions mongo
              (map (λ i. some i) s.transactions)
              (Query.delete_elections mongo s.height conn))
  unfolding rollback
  rollback_deletes conn s b e e' h n =
      let ahead : ltb b.height s.height ≡ true = ground arith in
      rw (e, rollback)
        (rw e' (rw ahead (rw (rollback-NoneStored crypto a mongo conn s.height s.transactions n))))

  -- The id of a document is one of the ids of the transactions.
  abbrev pub listed : List String → Option String → Bool
  listed ids i = any (λ j. opt_eq i (some j)) ids

  -- What the collections hold when the block of the state is undone.
  pub record IsUndone (s : PreCommitState) (conn conn' : Connection mongo) : Type 0 where
    pub transactions :
        contents mongo TransactionDict conn'.transactions
        ≡ keep
            (λ d. not (listed s.transactions d.id))
            (contents mongo TransactionDict conn.transactions)
    pub assets :
        contents mongo AssetDocument conn'.assets
        ≡ keep (λ d. not (listed s.transactions d.id)) (contents mongo AssetDocument conn.assets)
    pub metadata :
        contents mongo MetadataDocument conn'.metadata
        ≡ keep
            (λ d. not (listed s.transactions d.id))
            (contents mongo MetadataDocument conn.metadata)
    pub elections :
        contents mongo ElectionDocument conn'.elections
        ≡ keep (λ e. not (eqb e.height s.height)) (contents mongo ElectionDocument conn.elections)
    pub blocks : conn'.blocks ≡ conn.blocks
    pub utxos : conn'.utxos ≡ conn.utxos
    pub pre_commit : conn'.pre_commit ≡ conn.pre_commit
    pub validators : conn'.validators ≡ conn.validators
    pub abci_chains : conn'.abci_chains ≡ conn.abci_chains

  deleted :
      (laws : MongoLaws mongo) (D : Type 0) (id : D → Option String) (ids : List String)
      (c : mongo.Collection D)
      → contents mongo D (mongo.delete_many D (λ d. Query.one_of (map (λ i. some i) ids) (id d)) c)
        ≡ keep (λ d. not (listed ids (id d))) (contents mongo D c)
  deleted laws D id ids c =
      laws.delete_many_law D _ c
      ∙ keep-ext _ _ (contents mongo D c)
          (λ d. ap not (any-map (opt_eq (id d)) (λ (i : String). some i) ids))

  delete_transactions-IsUndone :
      (laws : MongoLaws mongo) (conn : Connection mongo) (s : PreCommitState)
      → IsUndone s conn (
          Query.delete_transactions mongo
            (map (λ i. some i) s.transactions)
            (Query.delete_elections mongo s.height conn))
  unfolding Query.delete_transactions Query.delete_elections
  delete_transactions-IsUndone laws conn s = record {
    transactions = deleted laws TransactionDict (λ d. d.id) s.transactions conn.transactions;
    assets = deleted laws AssetDocument (λ d. d.id) s.transactions conn.assets;
    metadata = deleted laws MetadataDocument (λ d. d.id) s.transactions conn.metadata;
    elections = laws.delete_many_law ElectionDocument _ conn.elections;
    blocks = refl;
    utxos = refl;
    pre_commit = refl;
    validators = refl;
    abci_chains = refl;
  }

  -- If the pre-commit state is ahead of the latest block and none of its transactions is stored,
  -- then, under the laws of the collections, rollback returns, and it leaves of the transactions,
  -- assets and metadata those documents, in order, whose ids are not among the ids of the state, of
  -- the elections the records of other heights, and the other five collections as they were.
  pub rollback_before_commit :
      (laws : MongoLaws mongo) (conn : Connection mongo) (s : PreCommitState) (b : BlockDocument)
      → Query.get_pre_commit_state mongo conn ≡ some s
      → Query.get_latest_block mongo conn ≡ some b
      → b.height < s.height
      → NoneStored crypto a mongo conn s.transactions
      → (conn' : Connection mongo) × (rollback crypto a mongo conn ≡ ok conn')
        × IsUndone s conn conn'
  rollback_before_commit laws conn s b e e' h n =
      (_, rollback_deletes conn s b e e' h n, delete_transactions-IsUndone laws conn s)

  -- If the crash came before commit stored the transactions, and the latest validator set is
  -- assigned to the height after the next of the latest block, then after rollback no validator
  -- election concludes, whatever the votes.
  pub replay_does_not_conclude :
      (conn conn' : Connection mongo) (s : PreCommitState) (b : BlockDocument)
      (change : ValidatorSet) (tx : Transaction F) (votes : List (Transaction F))
      → Query.get_pre_commit_state mongo conn ≡ some s
      → Query.get_latest_block mongo conn ≡ some b
      → b.height < s.height
      → NoneStored crypto a mongo conn s.transactions
      → Query.get_validator_set mongo none conn ≡ some change
      → change.height ≡ b.height + 2
      → rollback crypto a mongo conn ≡ ok conn'
      → tx.operation ≡ validator_election
      → has_concluded crypto a mongo conn' tx votes ≡ ok false
  replay_does_not_conclude conn conn' s b change tx votes e e' h n v at r o =
      let same = ok-injective (sym (rollback_deletes conn s b e e' h n) ∙ r) in
      subst (λ c. has_concluded crypto a mongo c tx votes ≡ ok false) same
        (pending-has_concluded crypto a mongo _ b change tx votes
          (unfold Query.get_latest_block Query.delete_elections Query.delete_transactions in e')
          (unfold Query.get_validator_set Query.delete_elections Query.delete_transactions in v) at
          o)
