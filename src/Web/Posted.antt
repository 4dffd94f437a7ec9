-- ===== src/Web/Posted.antt =====
-- When a posted transaction is accepted, and what is sent to Tendermint.
use planetmint.Base.{
  ℕ, String, true, Option, none, some, List, [], ◌∷◌, ◌==◌, eqb, if◌then◌else◌, if_taken, ◌≡◌, ◌≢◌,
  refl, ap, ◌∙◌, ◌↔◌, arith, any, Bool-cases, Option-cases, inl, inr, eq_iff, eqb_iff,
}
use planetmint.Errors.{Error, Result, ok, err, is_validation_error, validation_error}
use planetmint.Transaction.Model.{Transaction, TransactionDict}
use planetmint.Validation.{Crypto}
use planetmint.Backend.Mongo.{Mongo}
use planetmint.Backend.Documents.{Connection}
use planetmint.Node.{load, dict_of}
use planetmint.Election.{Arithmetic, validate}
use planetmint.Broadcast.{
  Payload, RpcResponse, RpcResult, RpcError, broadcast_tx_async, broadcast_tx_sync,
  broadcast_tx_commit, mode_list, write_transaction, post_transaction, process_post_response,
  payload_of, post_body, processed, code_of, error_code, response_status, get_or,
}
use planetmint.Web.{
  success, valid_mode, mode_of, refused_or_raised, written, if_valid, if_loaded, post,
}

-- The answer of Tendermint has no error, and no code but zero: with the mode for commits those of
-- `check_tx` and of `deliver_tx`, and otherwise the one of the answer.
pub record IsGood (mode : String) (r : RpcResponse) : Type 0 where
  pub no_error : r.error ≡ none
  pub result : RpcResult
  pub has_result : r.result ≡ some result
  pub committed :
      mode ≡ broadcast_tx_commit → (code_of result.check_tx ≡ 0) × (code_of result.deliver_tx ≡ 0)
  pub checked : mode ≢ broadcast_tx_commit → get_or result.code 0 ≡ 0

abbrev IsZero : String → RpcResult → Type 0
IsZero mode q =
    (mode ≡ broadcast_tx_commit → (code_of q.check_tx ≡ 0) × (code_of q.deliver_tx ≡ 0))
    × (mode ≢ broadcast_tx_commit → get_or q.code 0 ≡ 0)

zero→IsZero : (mode : String) (q : RpcResult) → error_code mode q ≡ 0 → IsZero mode q
zero→IsZero mode q h = elim (Bool-cases (mode == broadcast_tx_commit)) [
  | inl e ↦
      let commits : mode ≡ broadcast_tx_commit = (eq_iff mode broadcast_tx_commit).0 e in
      (λ same. ground arith, λ differ. absurd (differ commits))
  | inr e ↦ (λ same. cc (e, (eq_iff mode broadcast_tx_commit).1 same), λ differ. ground arith)
]

IsZero→zero : (mode : String) (q : RpcResult) → IsZero mode q → error_code mode q ≡ 0
IsZero→zero mode q h = elim (Bool-cases (mode == broadcast_tx_commit)) [
  | inl e ↦
      let codes = h.0 ((eq_iff mode broadcast_tx_commit).0 e) in ground (arith, codes.0, codes.1)
  | inr e ↦
      let code = h.1 (λ same. cc (e, (eq_iff mode broadcast_tx_commit).1 same)) in
      ground (arith, code)
]

status-202 :
    (mode : String) (e : Option RpcError) (q : Option RpcResult) (status : ℕ × String)
    → response_status e q mode ≡ ok status
    → status.0 ≡ 202
    → (r : RpcResult) × (e ≡ none) × (q ≡ some r) × IsZero mode r
status-202 mode (some e) q status h accepted = absurd (ground arith)
status-202 mode none none status h accepted = cc
status-202 mode none (some r) status h accepted = (r, refl, refl, zero→IsZero mode r (ground arith))

good-status :
    (mode : String) (r : RpcResponse) → IsGood mode r → process_post_response r mode ≡ ok (202, "")
unfolding process_post_response
good-status mode r g =
    ap (λ e. response_status e r.result mode) g.no_error
    ∙ ap (λ q. response_status none q mode) g.has_result
    ∙ ap (λ b. ok (if b then (202, "") else (500, "Transaction validation failed"))) zero
  where
    zero : eqb (error_code mode g.result) 0 ≡ true
    zero = (eqb_iff _ 0).1 (IsZero→zero mode g.result (g.committed, g.checked))

module _ {F : Type 0} (crypto : Crypto F) (a : Arithmetic) (mongo : Mongo)
    (encode_transaction : TransactionDict → String) (tendermint : Payload → Result RpcResponse)
    (conn : Connection mongo) where
  -- The transaction loads, it is valid against the store, and Tendermint takes it.
  pub record IsTaken (mode : String) (d : TransactionDict) : Type 0 where
    pub tx : Transaction F
    pub loads : load crypto d ≡ ok tx
    pub valid : validate crypto a mongo conn [] tx ≡ ok tt
    pub body : TransactionDict
    pub has_body : dict_of crypto tx tx.tx_dict ≡ ok body
    pub response : RpcResponse
    pub responds :
        tendermint (payload_of crypto encode_transaction tendermint mode body) ≡ ok response
    pub good : IsGood mode response

mode_of-known :
    (given : Option String) (m : String)
    → mode_of given ≡ some m
    → any (λ k. m == k) mode_list ≡ true
unfolding valid_mode
mode_of-known none m h =
    ground
      (arith, eq_iff m broadcast_tx_async, eq_iff m broadcast_tx_sync, eq_iff m broadcast_tx_commit)
mode_of-known (some g) m h =
    ground
      (arith, eq_iff m broadcast_tx_async, eq_iff m broadcast_tx_sync, eq_iff m broadcast_tx_commit)

module _ {F : Type 0} (crypto : Crypto F) (a : Arithmetic) (mongo : Mongo)
    (encode_transaction : TransactionDict → String) (tendermint : Payload → Result RpcResponse)
    (conn : Connection mongo) where
  written-accepted :
      (d : TransactionDict) (r : Result (ℕ × String) × List Payload)
      → (written crypto a mongo encode_transaction tendermint d r).0 ≡ ok (success 202 d)
      → (status : ℕ × String) × (r.0 ≡ ok status) × (status.0 ≡ 202)
  written-accepted d (err e, sent) h = cc
  written-accepted d (ok (n, message), sent) h = ((n, message), refl, ground arith)

  sent-accepted :
      (mode : String) (x : Result RpcResponse × List Payload) (status : ℕ × String)
      → (processed crypto encode_transaction tendermint mode x).0 ≡ ok status
      → (r : RpcResponse) × (x.0 ≡ ok r) × (process_post_response r mode ≡ ok status)
  sent-accepted mode (err e, sent) status h = cc
  sent-accepted mode (ok r, sent) status h = (r, refl, h)

  body-answered :
      (mode : String) (b : Result TransactionDict) (r : RpcResponse)
      → (post_body crypto encode_transaction tendermint mode b).0 ≡ ok r
      → (body : TransactionDict) × (b ≡ ok body)
        × (tendermint (payload_of crypto encode_transaction tendermint mode body) ≡ ok r)
  body-answered mode (err e) r h = cc
  body-answered mode (ok body) r h = (body, refl, h)

  refused-accepted :
      (e : Error) (d : TransactionDict)
      → (refused_or_raised crypto a mongo encode_transaction tendermint e).0 ≢ ok (success 202 d)
  refused-accepted e d h = elim (Bool-cases (is_validation_error e)) [
    | inl v ↦ cc (rw v at h)
    | inr v ↦ cc (rw v at h)
  ]

  accepted-IsTaken :
      (d : TransactionDict) (mode : String) (x : Result (Transaction F))
      → load crypto d ≡ x
      → (if_loaded crypto a mongo encode_transaction tendermint conn d mode x).0
        ≡ ok (success 202 d)
      → IsTaken crypto a mongo encode_transaction tendermint conn mode d
  unfolding write_transaction post_transaction
  accepted-IsTaken d mode (err e) loads h = absurd (refused-accepted e d h)
  accepted-IsTaken d mode (ok tx) loads h = validated (validate crypto a mongo conn [] tx) refl h
    where
      validated :
          (v : Result (Unit {0}))
          → validate crypto a mongo conn [] tx ≡ v
          → (if_valid crypto a mongo encode_transaction tendermint d mode tx v).0
            ≡ ok (success 202 d)
          → IsTaken crypto a mongo encode_transaction tendermint conn mode d
      validated (err e) valid g = absurd (refused-accepted e d g)
      validated (ok t) valid g =
          let (status, sent, is_202) = written-accepted d _ g in
          let (r, answered, processes) =
            sent-accepted mode (post_transaction crypto encode_transaction tendermint tx mode)
              status sent in
          elim (Bool-cases (any (λ k. mode == k) mode_list)) [
            | inr unknown ↦ cc (rw unknown at answered)
            | inl known ↦
                let (body, has, responds) =
                  body-answered mode (dict_of crypto tx tx.tx_dict) r (rw known at answered) in
                let (q, no_error, has_result, zero) =
                  status-202 mode r.error r.result status processes is_202 in
                record {
                  tx = tx;
                  loads = loads;
                  valid = valid;
                  body = body;
                  has_body = has;
                  response = r;
                  responds = responds;
                  good = record {
                    no_error = no_error;
                    result = q;
                    has_result = has_result;
                    committed = zero.0;
                    checked = zero.1;
                  };
                }
          ]

  IsTaken-accepted :
      (d : TransactionDict) (mode : String)
      → any (λ k. mode == k) mode_list ≡ true
      → IsTaken crypto a mongo encode_transaction tendermint conn mode d
      → (if_loaded crypto a mongo encode_transaction tendermint conn d mode (load crypto d)).0
        ≡ ok (success 202 d)
  unfolding write_transaction post_transaction
  IsTaken-accepted d mode known t =
      ap (λ x. (if_loaded crypto a mongo encode_transaction tendermint conn d mode x).0) t.loads
      ∙ ap (λ v. (if_valid crypto a mongo encode_transaction tendermint d mode t.tx v).0) t.valid
      ∙ ap (λ w. (written crypto a mongo encode_transaction tendermint d w).0) wrote
    where
      p : Payload
      p = payload_of crypto encode_transaction tendermint mode t.body

      posted :
          post_transaction crypto encode_transaction tendermint t.tx mode ≡ (ok t.response, p ∷ [])
      posted =
          if_taken (any (λ k. mode == k) mode_list)
            (post_body crypto encode_transaction tendermint mode (dict_of crypto t.tx t.tx.tx_dict))
            (err validation_error, []) known
          ∙ ap (post_body crypto encode_transaction tendermint mode) t.has_body
          ∙ ap (λ x. (x, p ∷ [])) t.responds

      wrote :
          write_transaction crypto encode_transaction tendermint t.tx mode ≡ (ok (202, ""), p ∷ [])
      wrote =
          ap (processed crypto encode_transaction tendermint mode) posted
          ∙ ap (λ x. (x, p ∷ [])) (good-status mode t.response t.good)

  -- The view answers a posted transaction with 202 and its dict exactly if the mode is missing or
  -- known, the dict loads, the transaction is valid against the store, and the response of
  -- Tendermint has no error and, for the mode that waits for the commit, no code but zero of
  -- check_tx and deliver_tx, and else none of its own.
  pub post-accepted_iff :
      (d : TransactionDict) (given : Option String)
      → ((post crypto a mongo encode_transaction tendermint conn given d).0 ≡ ok (success 202 d))
        ↔ ((mode : String) × (mode_of given ≡ some mode)
            × IsTaken crypto a mongo encode_transaction tendermint conn mode d)
  unfolding post
  post-accepted_iff d given = (
    λ h. elim (Option-cases (mode_of given)) [
      | inl e ↦ cc (rw e at h)
      | inr (mode, e) ↦ (mode, e, accepted-IsTaken d mode (load crypto d) refl (rw e at h))
    ],
    λ (mode, e, taken). rw e (IsTaken-accepted d mode (mode_of-known given mode e) taken),
  )
