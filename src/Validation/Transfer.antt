-- ===== src/Validation/Transfer.antt =====
-- `validate_transfer_inputs` against a specification of valid transfers.
use planetmint.Base.{
  ℕ, String, ◌≡◌, refl, sym, ap, ◌∙◌, ◌↔◌, Option, List, Bool, true, false, not, arith, length, eqb,
  opt_eq, opt_eq_iff,
}
use planetmint.Base.Sets.{to_set, length-to_set_iff-Distinct, Distinct}
use planetmint.Errors.{
  ok, raise_if, raise_if-eq-ok, >>=-eq-ok, double_spend, amount_error, asset_id_mismatch,
}
use planetmint.Transaction.Model.{is_create, Output, Transaction, TransactionDict}
use planetmint.Validation.{
  Crypto, Planet, referenced, links, resolve_all, get_asset_id, inputs_valid, amounts, dict_of,
  transactions_of, outputs_of, validate_transfer_inputs,
}
use planetmint.Validation.Resolve.{AllResolved, resolve_all_iff-AllResolved}
use planetmint.Validation.Signatures.{AllFulfilled, message_of, inputs_valid_iff-AllFulfilled}
use planetmint.Validation.Assets.{ShareAsset, get_asset_id_iff-ShareAsset}

module _ {F : Type 0} (crypto : Crypto F) (planet : Planet F) (current : List (Transaction F)) where
  -- What a valid TRANSFER or VOTE is.
  pub record IsValidTransfer (tx : Transaction F) : Type 0 where
    -- the transactions and the outputs that the inputs point to
    pub spent : List (Transaction F × Output F)
    pub resolved : AllResolved crypto planet current tx.inputs spent
    -- no two inputs have the same link
    pub uris : List (Option String)
    pub linked : links crypto tx.inputs ≡ ok uris
    pub distinct : Distinct uris
    pub asset_id : Option String
    pub refers : referenced crypto tx.asset ≡ ok asset_id
    pub same_asset : ShareAsset crypto asset_id (transactions_of crypto spent)
    pub conserved : amounts crypto tx.outputs ≡ amounts crypto (outputs_of crypto spent)
    -- the text that is signed, and the fulfillments of the conditions
    pub body : TransactionDict
    pub loaded : dict_of crypto tx tx.tx_dict ≡ ok body
    pub signed : AllFulfilled crypto (message_of crypto body) tx.inputs (outputs_of crypto spent)

  not-false : (b : Bool) → not b ≡ false → b ≡ true
  not-false b h = ground arith

  eqb-not : (m n : ℕ) → not (eqb m n) ≡ false → m ≡ n
  eqb-not m n h = ground arith

  assemble :
      (tx : Transaction F) (spent : List (Transaction F × Output F)) (uris : List (Option String))
      (asset_id own : Option String) (valid : Bool)
      → is_create tx.operation ≡ false
      → resolve_all crypto planet current tx.inputs ≡ ok spent
      → links crypto tx.inputs ≡ ok uris
      → not (eqb (length uris) (length (to_set uris))) ≡ false
      → get_asset_id crypto (transactions_of crypto spent) ≡ ok asset_id
      → referenced crypto tx.asset ≡ ok own
      → not (opt_eq asset_id own) ≡ false
      → not (eqb (amounts crypto tx.outputs) (amounts crypto (outputs_of crypto spent))) ≡ false
      → inputs_valid crypto tx (outputs_of crypto spent) ≡ ok valid
      → not valid ≡ false
      → IsValidTransfer tx
  assemble tx spent uris asset_id own valid c p0 p1 p2 p3 p4 p5 p6 p7 p8 =
      let (body, loaded, signed) =
        (inputs_valid_iff-AllFulfilled crypto tx (outputs_of crypto spent) c).0
          (p7 ∙ ap ok (not-false valid p8)) in
      record {
        spent = spent;
        resolved = (resolve_all_iff-AllResolved crypto planet current tx.inputs spent).0 p0;
        uris = uris;
        linked = p1;
        distinct = (length-to_set_iff-Distinct uris).0 (sym (eqb-not _ _ p2));
        asset_id = asset_id;
        refers = p4 ∙ ap ok (sym ((opt_eq_iff asset_id own).0 (not-false _ p5)));
        same_asset = (get_asset_id_iff-ShareAsset crypto asset_id _).0 p3;
        conserved = eqb-not _ _ p6;
        body = body;
        loaded = loaded;
        signed = signed;
      }

  accepted→valid :
      (tx : Transaction F)
      → is_create tx.operation ≡ false
      → validate_transfer_inputs crypto planet current tx ≡ ok tt
      → IsValidTransfer tx
  unfolding validate_transfer_inputs
  accepted→valid tx c h =
      let (spent, p0, h0) = >>=-eq-ok (resolve_all crypto planet current tx.inputs) _ h in
      let (uris, p1, h1) = >>=-eq-ok (links crypto tx.inputs) _ h0 in
      let (u2, p2, h2) =
        >>=-eq-ok (raise_if (not (eqb (length uris) (length (to_set uris)))) double_spend) _ h1 in
      let (asset_id, p3, h3) =
        >>=-eq-ok (get_asset_id crypto (transactions_of crypto spent)) _ h2 in
      let (own, p4, h4) = >>=-eq-ok (referenced crypto tx.asset) _ h3 in
      let (u5, p5, h5) = >>=-eq-ok (raise_if (not (opt_eq asset_id own)) asset_id_mismatch) _ h4 in
      let (u6, p6, h6) =
        >>=-eq-ok
          (raise_if
            (not (eqb (amounts crypto tx.outputs) (amounts crypto (outputs_of crypto spent))))
            amount_error)
          _ h5 in
      let (valid, p7, h7) = >>=-eq-ok (inputs_valid crypto tx (outputs_of crypto spent)) _ h6 in
      assemble tx spent uris asset_id own valid c p0 p1 (raise_if-eq-ok _ _ p2) p3 p4
        (raise_if-eq-ok _ _ p5) (raise_if-eq-ok _ _ p6) p7 (raise_if-eq-ok _ _ h7)

  eqb_same : (m n : ℕ) → m ≡ n → not (eqb m n) ≡ false
  eqb_same m n h = ground arith

  valid→accepted :
      (tx : Transaction F)
      → is_create tx.operation ≡ false
      → IsValidTransfer tx
      → validate_transfer_inputs crypto planet current tx ≡ ok tt
  unfolding validate_transfer_inputs
  valid→accepted tx c v = rw (
    (resolve_all_iff-AllResolved crypto planet current tx.inputs v.spent).1 v.resolved,
    v.linked,
    eqb_same _ _ (sym ((length-to_set_iff-Distinct v.uris).1 v.distinct)),
    (get_asset_id_iff-ShareAsset crypto v.asset_id _).1 v.same_asset,
    v.refers,
    (opt_eq_iff v.asset_id v.asset_id).1 refl,
    eqb_same _ _ v.conserved,
    (inputs_valid_iff-AllFulfilled crypto tx (outputs_of crypto v.spent) c).1
        (v.body, v.loaded, v.signed),
  )

  -- validate_transfer_inputs accepts a TRANSFER or a VOTE exactly if it is a valid transfer: each
  -- input points to an unspent output of a transaction that is stored or earlier in the block, no
  -- two inputs have the same link, all transactions spent are about the asset that the transaction
  -- refers to, the amounts of its outputs add up to the amounts of the outputs spent, and the
  -- fulfillment of each input has the condition of the output that it spends and validates against
  -- the text of the transaction.
  pub validate_transfer_inputs_iff-IsValidTransfer :
      (tx : Transaction F)
      → is_create tx.operation ≡ false
      → (validate_transfer_inputs crypto planet current tx ≡ ok tt) ↔ IsValidTransfer tx
  validate_transfer_inputs_iff-IsValidTransfer tx c = (accepted→valid tx c, valid→accepted tx c)
