-- ===== src/Web/Sends.antt =====
-- What is sent to Tendermint for a posted transaction.
use planetmint.Base.{
  ℕ, String, Option, none, some, List, [], ◌∷◌, ◌==◌, ◌≡◌, refl, any, Bool-cases, inl, inr,
}
use planetmint.Errors.{Error, Result, ok, err}
use planetmint.Transaction.Model.{Transaction, TransactionDict}
use planetmint.Validation.{Crypto}
use planetmint.Backend.Mongo.{Mongo}
use planetmint.Backend.Documents.{Connection}
use planetmint.Node.{load, dict_of}
use planetmint.Election.{Arithmetic, validate}
use planetmint.Broadcast.{
  Payload, RpcResponse, mode_list, write_transaction, post_transaction, payload_of, post_body,
}
use planetmint.Web.{mode_of, refused_or_raised, written, if_valid, if_loaded, if_mode, post}

module _ {F : Type 0} (crypto : Crypto F) (a : Arithmetic) (mongo : Mongo)
    (encode_transaction : TransactionDict → String) (tendermint : Payload → Result RpcResponse)
    (conn : Connection mongo) where
  -- What is sent: nothing, or one request with the text of the transaction.
  abbrev pub Sends : TransactionDict → Option String → List Payload → Type 0
  Sends d given [] = Unit
  Sends d given (p ∷ ps) =
      (mode : String) × (tx : Transaction F) × (body : TransactionDict) × (mode_of given
        ≡ some mode)
      × (load crypto d ≡ ok tx)
      × (validate crypto a mongo conn [] tx ≡ ok tt)
      × (dict_of crypto tx tx.tx_dict ≡ ok body)
      × (p ≡ payload_of crypto encode_transaction tendermint mode body)
      × (ps ≡ [])

  refused-Sends :
      (d : TransactionDict) (given : Option String) (e : Error)
      → Sends d given (refused_or_raised crypto a mongo encode_transaction tendermint e).1
  refused-Sends d given e = tt

  written-Sends :
      (d : TransactionDict) (given : Option String) (r : Result (ℕ × String) × List Payload)
      → Sends d given r.1
      → Sends d given (written crypto a mongo encode_transaction tendermint d r).1
  written-Sends d given (err e, sent) h = h
  written-Sends d given (ok status, sent) h = h

  body-Sends :
      (d : TransactionDict) (given : Option String) (mode : String) (tx : Transaction F)
      (b : Result TransactionDict)
      → mode_of given ≡ some mode
      → load crypto d ≡ ok tx
      → validate crypto a mongo conn [] tx ≡ ok tt
      → dict_of crypto tx tx.tx_dict ≡ b
      → Sends d given (post_body crypto encode_transaction tendermint mode b).1
  body-Sends d given mode tx (err e) m l v has = tt
  body-Sends d given mode tx (ok body) m l v has = (mode, tx, body, m, l, v, has, refl, refl)

  loaded-Sends :
      (d : TransactionDict) (given : Option String) (mode : String) (x : Result (Transaction F))
      → mode_of given ≡ some mode
      → load crypto d ≡ x
      → Sends d given (if_loaded crypto a mongo encode_transaction tendermint conn d mode x).1
  unfolding write_transaction post_transaction
  loaded-Sends d given mode (err e) m l = refused-Sends d given e
  loaded-Sends d given mode (ok tx) m l = validated (validate crypto a mongo conn [] tx) refl
    where
      validated :
          (v : Result (Unit {0}))
          → validate crypto a mongo conn [] tx ≡ v
          → Sends d given (if_valid crypto a mongo encode_transaction tendermint d mode tx v).1
      validated (err e) valid = refused-Sends d given e
      validated (ok t) valid =
          written-Sends d given (write_transaction crypto encode_transaction tendermint tx mode)
            (elim (Bool-cases (any (λ k. mode == k) mode_list)) [
              | inr unknown ↦ rw unknown tt
              | inl known ↦
                  rw known
                    (body-Sends d given mode tx (dict_of crypto tx tx.tx_dict) m l valid refl)
            ])

  -- For a posted transaction nothing is sent to Tendermint, or just one request, and then the mode
  -- is missing or known, the dict loads, the transaction is valid against the store, and the
  -- request has this mode and the dict of this transaction.
  pub post-Sends :
      (d : TransactionDict) (given : Option String)
      → Sends d given (post crypto a mongo encode_transaction tendermint conn given d).1
  unfolding post
  post-Sends d given = chosen (mode_of given) refl
    where
      chosen :
          (m : Option String)
          → mode_of given ≡ m
          → Sends d given (if_mode crypto a mongo encode_transaction tendermint conn d m).1
      chosen none e = tt
      chosen (some mode) e = loaded-Sends d given mode (load crypto d) e refl
