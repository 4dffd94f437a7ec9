-- ===== src/Election/Process/Unstored.antt =====
-- The rollback of elections whose transactions are not stored, and a change of the validators that
-- is assigned already.
use planetmint.Base.{
  ℕ, ◌+◌, String, ◌≡◌, refl, sym, subst, none, some, List, [], ◌∷◌, true, false, All, eqb, eqb_iff,
}
use planetmint.Errors.{ok}
use planetmint.Transaction.Model.{Transaction, validator_election}
use planetmint.Validation.{Crypto}
use planetmint.Backend.Mongo.{Mongo}
use planetmint.Backend.Query
use planetmint.Backend.Documents.{BlockDocument, ValidatorSet, Connection}
use planetmint.Node.Stored.{get_transaction-none}
use planetmint.Election.{Arithmetic}
use planetmint.Election.Process.{
  load_all, rollback, has_concluded, has_concluded_as, change_pending,
}

module _ {F : Type 0} (crypto : Crypto F) (a : Arithmetic) (mongo : Mongo) where
  -- None of the transactions is stored.
  abbrev pub NoneStored : Connection mongo → List String → Type 0
  NoneStored conn ids = All (λ i. Query.get_transaction mongo (some i) conn ≡ none) ids

  load_all-none :
      (conn : Connection mongo) (ids : List String)
      → NoneStored conn ids
      → load_all crypto a mongo conn ids ≡ ok []
  load_all-none conn [] h = refl
  load_all-none conn (i ∷ is) h =
      rw (get_transaction-none crypto mongo (some i) conn h.0) (rw (load_all-none conn is h.1))

  pub rollback-NoneStored :
      (conn : Connection mongo) (height : ℕ) (ids : List String)
      → NoneStored conn ids
      → rollback crypto a mongo conn height ids ≡ ok (Query.delete_elections mongo height conn)
  unfolding rollback Query.delete_elections Query.get_transaction
  rollback-NoneStored conn height ids h =
      rw (load_all-none (Query.delete_elections mongo height conn) ids h)

  pub pending-has_concluded :
      (conn : Connection mongo) (b : BlockDocument) (change : ValidatorSet) (tx : Transaction F)
      (votes : List (Transaction F))
      → Query.get_latest_block mongo conn ≡ some b
      → Query.get_validator_set mongo none conn ≡ some change
      → change.height ≡ b.height + 2
      → tx.operation ≡ validator_election
      → has_concluded crypto a mongo conn tx votes ≡ ok false
  unfolding has_concluded
  pending-has_concluded conn b change tx votes e v at o =
      let same : eqb change.height (b.height + 2) ≡ true = (eqb_iff _ _).1 at in
      let pending : change_pending crypto a mongo conn (Query.get_latest_block mongo conn)
          ≡ ok true =
        rw e (rw v (rw same)) in
      subst (λ k. has_concluded_as crypto a mongo k conn tx votes ≡ ok false) (sym o) (rw pending)
