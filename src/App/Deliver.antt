-- ===== src/App/Deliver.antt =====
-- `begin_block` and `deliver_tx`: what a block holds after any deliveries.
use planetmint.Base.{
  String, ◌≡◌, refl, sym, ap, subst, ◌∙◌, Option, none, some, List, [], ◌∷◌, ◌++◌, map,
  append_assoc, append-nil, arith, if◌then◌else◌,
}
use mathlib.Core.List.{map-append}
use planetmint.Errors.{
  Result, ok, err, ◌>>=◌, ◌>>◌, or_raise, or_raise-eq-ok, >>=-eq-ok, ok-injective,
  is_validation_error, type_error,
}
use planetmint.Transaction.Model.{Transaction, TransactionDict}
use planetmint.Validation.{Crypto}
use planetmint.Backend.Mongo.{Mongo}
use planetmint.Backend.Documents.{Connection}
use planetmint.Node.{load}
use planetmint.Election.{Arithmetic, validate}
use planetmint.App.{
  App, Code, ok_code, code_type_error, abort_if_not_synced, accept, validate_transaction,
  is_valid_transaction, begin_block, deliver_tx,
}

module _ {F : Type 0} (crypto : Crypto F) (a : Arithmetic) (mongo : Mongo) where
  abbrev answer : Result (Option (Transaction F)) → Result (Option (Transaction F))
  answer (err e) = if is_validation_error e then ok none else err e
  answer (ok found) = ok found

  answer-some :
      (r : Result (Option (Transaction F))) (tx : Transaction F)
      → answer r ≡ ok (some tx)
      → r ≡ ok (some tx)
  answer-some (ok found) tx h = h
  answer-some (err e) tx h = ground arith

  -- A transaction that passes was loaded from the dict and validated by its class.
  pub is_valid_transaction-some :
      (conn : Connection mongo) (current : List (Transaction F)) (d : TransactionDict)
      (tx : Transaction F)
      → is_valid_transaction crypto a mongo conn current d ≡ ok (some tx)
      → (load crypto d ≡ ok tx) × (validate crypto a mongo conn current tx ≡ ok tt)
  unfolding is_valid_transaction validate_transaction
  is_valid_transaction-some conn current d tx h =
      loaded (load crypto d) tx
        (answer-some (validate_transaction crypto a mongo conn current d) tx h)
    where
      loaded :
          (r : Result (Transaction F)) (tx : Transaction F)
          → elim r [
            | err e ↦ if is_validation_error e then ok none else err e
            | ok t ↦ validate crypto a mongo conn current t >> ok (some t)
          ]
            ≡ ok (some tx)
          → (r ≡ ok tx) × (validate crypto a mongo conn current tx ≡ ok tt)
      loaded (err e) tx h = ground arith
      loaded (ok t) tx h =
          let (u, p, q) = >>=-eq-ok (validate crypto a mongo conn current t) _ h in
          let same : t ≡ tx = cc q in
          (ap ok same, subst (λ x. validate crypto a mongo conn current x ≡ ok tt) same p)

  -- Each transaction was valid when the ones before it in the block were the current ones.
  abbrev pub AllValid : Connection mongo → List (Transaction F) → List (Transaction F) → Type 0
  AllValid conn earlier [] = Unit
  AllValid conn earlier (tx ∷ txs) =
      (validate crypto a mongo conn earlier tx ≡ ok tt) × AllValid conn (earlier ++ tx ∷ []) txs

  AllValid-append :
      (conn : Connection mongo) (earlier txs : List (Transaction F)) (tx : Transaction F)
      → AllValid conn earlier txs
      → validate crypto a mongo conn (earlier ++ txs) tx ≡ ok tt
      → AllValid conn earlier (txs ++ tx ∷ [])
  AllValid-append conn earlier [] tx h v =
      (subst (λ l. validate crypto a mongo conn l tx ≡ ok tt) (append-nil earlier) v, tt)
  AllValid-append conn earlier (t ∷ ts) tx h v = (
    h.0,
    AllValid-append conn (earlier ++ t ∷ []) ts tx h.1 (
        subst (λ l. validate crypto a mongo conn l tx ≡ ok tt)
          (sym (append_assoc earlier (t ∷ []) ts)) v),
  )

  -- The state between `begin_block` and `end_block`.
  pub record IsBuilding (conn : Connection mongo) (app : App F mongo) : Type 0 where
    pub connection : app.conn ≡ conn
    pub valid : AllValid conn [] app.block_transactions
    pub ids :
        map (λ (t : Transaction F). t.id) app.block_transactions
        ≡ map (λ i. some i) app.block_txn_ids

  -- What a delivery answers and does to the application.
  pub data Delivery (app app' : App F mongo) : Code → Type 0 where
    refused : app' ≡ app → Delivery app app' code_type_error
    accepted :
        (tx : Transaction F) (id : String)
        → tx.id ≡ some id
        → validate crypto a mongo app.conn app.block_transactions tx ≡ ok tt
        → app' ≡ record app {
          block_txn_ids = app.block_txn_ids ++ id ∷ [];
          block_transactions = app.block_transactions ++ tx ∷ [];
        }
        → Delivery app app' ok_code

  accept-Delivery :
      (app app' : App F mongo) (code : Code) (found : Option (Transaction F))
      → ((tx : Transaction F)
          → found ≡ some tx
          → validate crypto a mongo app.conn app.block_transactions tx ≡ ok tt)
      → accept crypto a mongo app found ≡ ok (app', code)
      → Delivery app app' code
  accept-Delivery app app' code none v h =
      subst (Delivery app app') (ap (λ r. r.1) (ok-injective h))
        (refused (sym (ap (λ r. r.0) (ok-injective h))))
  accept-Delivery app app' code (some tx) v h =
      let (id, p, q) = >>=-eq-ok (or_raise tx.id type_error) _ h in
      subst (Delivery app app') (ap (λ r. r.1) (ok-injective q)) (
        accepted tx id (or_raise-eq-ok tx.id type_error p) (v tx refl)
          (sym (ap (λ r. r.0) (ok-injective q))))

  -- deliver_tx that returns either answers the error code and leaves the application as it was, or
  -- answers the good code, and then the transaction is valid against the store and the block so far
  -- and is the one thing appended to the block.
  pub deliver_tx-Delivery :
      (app app' : App F mongo) (d : TransactionDict) (code : Code)
      → deliver_tx crypto a mongo app d ≡ ok (app', code)
      → Delivery app app' code
  unfolding deliver_tx
  deliver_tx-Delivery app app' d code h =
      let (u, p, q) = >>=-eq-ok (abort_if_not_synced crypto a mongo app) _ h in
      let (found, p', q') =
        >>=-eq-ok (is_valid_transaction crypto a mongo app.conn app.block_transactions d) _ q in
      accept-Delivery app app' code found
        (λ tx e. (is_valid_transaction-some app.conn app.block_transactions d tx (p' ∙ ap ok e)).1)
        q'

  Delivery-IsBuilding :
      (conn : Connection mongo) (app app' : App F mongo) (code : Code)
      → IsBuilding conn app
      → Delivery app app' code
      → IsBuilding conn app'
  Delivery-IsBuilding conn app app' code b (refused e) = subst (IsBuilding conn) (sym e) b
  Delivery-IsBuilding conn app app' code b (accepted tx id is_id v e) =
      subst (IsBuilding conn) (sym e) (record {
        connection = b.connection;
        valid = AllValid-append conn [] app.block_transactions tx b.valid (
            subst (λ c. validate crypto a mongo c app.block_transactions tx ≡ ok tt) b.connection
              v);
        ids = rw (map-append, map-append) (rw (b.ids, is_id));
      })

  -- a block's deliveries, one after the other
  unfoldable pub deliver_all : App F mongo → List TransactionDict → Result (App F mongo)
  deliver_all app [] = ok app
  deliver_all app (d ∷ ds) = do r ← deliver_tx crypto a mongo app d; deliver_all r.0 ds

  deliver_all-IsBuilding :
      (conn : Connection mongo) (app app' : App F mongo) (ds : List TransactionDict)
      → IsBuilding conn app
      → deliver_all app ds ≡ ok app'
      → IsBuilding conn app'
  unfolding deliver_all
  deliver_all-IsBuilding conn app app' [] b h = subst (IsBuilding conn) (ok-injective h) b
  deliver_all-IsBuilding conn app app' (d ∷ ds) b h =
      let (r, p, q) = >>=-eq-ok (deliver_tx crypto a mongo app d) _ h in
      deliver_all-IsBuilding conn r.0 app' ds
        (Delivery-IsBuilding conn app r.0 r.1 b (deliver_tx-Delivery app r.0 d r.1 p)) q

  begin_block-IsBuilding :
      (app start : App F mongo)
      → begin_block crypto a mongo app ≡ ok start
      → IsBuilding app.conn start
  unfolding begin_block
  begin_block-IsBuilding app start h =
      let (u, p, q) = >>=-eq-ok (abort_if_not_synced crypto a mongo app) _ h in
      subst (IsBuilding app.conn) (ok-injective q)
        (record { connection = refl; valid = tt; ids = refl })

  -- After begin_block and any deliveries that raise nothing, the connection is untouched, every
  -- transaction of the block was valid against the store and the transactions before it in the
  -- block, and the ids of the block are the ids of its transactions, in order.
  pub deliveries-IsBuilding :
      (app start app' : App F mongo) (ds : List TransactionDict)
      → begin_block crypto a mongo app ≡ ok start
      → deliver_all start ds ≡ ok app'
      → IsBuilding app.conn app'
  deliveries-IsBuilding app start app' ds h k =
      deliver_all-IsBuilding app.conn start app' ds (begin_block-IsBuilding app start h) k
