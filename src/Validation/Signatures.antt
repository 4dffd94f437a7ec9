-- ===== src/Validation/Signatures.antt =====
-- `inputs_valid`: what a valid input of a TRANSFER or a VOTE is.
use planetmint.Base.{
  ℕ, String, ◌≡◌, refl, sym, ap, subst, ◌∙◌, ◌↔◌, ◌==◌, eq_iff, Option, none, some, List, [], ◌∷◌,
  Bool, true, false, map, not, ◌&&◌, arith, length, eqb, if◌then◌else◌,
}
use planetmint.Errors.{
  Result, ok, err, ◌>>=◌, >>=-eq-ok, ok-injective, raise_if, raise_if-eq-ok, value_error,
}
use planetmint.Transaction.Model.{Operation, is_create, Input, Output, Transaction, TransactionDict}
use planetmint.Transaction.Serialize.{remove_signatures}
use planetmint.Validation.{
  Crypto, caught, checked, signed_pieces, output_valid, input_valid, all_valid, condition_uris,
  dict_of, inputs_match, inputs_valid,
}

module _ {F : Type 0} (crypto : Crypto F) where
  -- The fulfillment of the input parses, its condition is the one of the output that the input
  -- spends, and it validates against the message with the link of the input.
  pub record IsFulfilled (message : String) (i : Input F) (o : Output F) : Type 0 where
    pub parsed : F
    pub parses : (crypto.serialize_uri i.fulfillment >>= λ u. crypto.from_uri u) ≡ ok parsed
    pub uri : String
    pub required : crypto.condition_uri o.fulfillment ≡ ok uri
    pub given : crypto.condition_uri i.fulfillment ≡ ok uri
    pub fulfils :
        crypto.validate parsed (crypto.sha3_256 (signed_pieces crypto message i.fulfills)) ≡ true

  -- One output for each input, in order.
  abbrev pub AllFulfilled : String → List (Input F) → List (Output F) → Type 0
  AllFulfilled message [] [] = Unit
  AllFulfilled message (i ∷ is) (o ∷ os) = IsFulfilled message i o × AllFulfilled message is os
  AllFulfilled message _ _ = ⊥

  -- the text that the fulfillments sign
  abbrev pub message_of : TransactionDict → String
  message_of d = crypto.dumps (record (remove_signatures crypto.fulfillments d) { id = none })

  caught-some : (r : Result F) (f : F) → caught crypto r ≡ ok (some f) → r ≡ ok f
  caught-some (ok g) f h = cc
  caught-some (err e) f h = ground arith

  and_true : (b c : Bool) → b && c ≡ true → (b ≡ true) × (c ≡ true)
  and_true b c h = ground arith

  -- what `checked` asks of an input
  abbrev Passes : Operation → String → Input F → String → Type 0
  Passes o message i uri =
      (parsed : F) × ((crypto.serialize_uri i.fulfillment >>= λ u. crypto.from_uri u) ≡ ok parsed)
      × (crypto.condition_uri i.fulfillment ≡ ok uri)
      × (crypto.validate parsed (crypto.sha3_256 (signed_pieces crypto message i.fulfills)) ≡ true)

  checked-Passes :
      (o : Operation) (i : Input F) (message uri : String) (parsed : Option F)
      → is_create o ≡ false
      → caught crypto (crypto.serialize_uri i.fulfillment >>= λ u. crypto.from_uri u) ≡ ok parsed
      → checked crypto o i message uri parsed ≡ ok true
      → Passes o message i uri
  checked-Passes o i message uri none c p q = cc
  checked-Passes o i message uri (some f) c p q =
      let (same, r, s) = >>=-eq-ok (output_valid crypto o i.fulfillment uri) _ q in
      let (u, r', s') = >>=-eq-ok (crypto.condition_uri i.fulfillment) _ (
        subst
          (λ b.
            (if b then ok true else (do u ← crypto.condition_uri i.fulfillment; ok (uri == u)))
            ≡ ok same)
          c r) in
      let matches : uri == u ≡ same = ok-injective s' in
      let both = and_true same _ (ok-injective s) in
      let equal : u ≡ uri = sym ((eq_iff uri u).0 (matches ∙ both.0)) in
      (f, caught-some _ f p, r' ∙ ap ok equal, both.1)

  input_valid-Passes :
      (o : Operation) (i : Input F) (message uri : String)
      → is_create o ≡ false
      → input_valid crypto o i message uri ≡ ok true
      → Passes o message i uri
  unfolding input_valid
  input_valid-Passes o i message uri c h =
      let (parsed, p, q) =
        >>=-eq-ok (caught crypto (crypto.serialize_uri i.fulfillment >>= λ u. crypto.from_uri u)) _
          h in
      checked-Passes o i message uri parsed c p q

  Passes-input_valid :
      (o : Operation) (i : Input F) (message uri : String)
      → is_create o ≡ false
      → Passes o message i uri
      → input_valid crypto o i message uri ≡ ok true
  unfolding input_valid
  Passes-input_valid o i message uri c h = rw (h.1, c, h.2, h.3, (eq_iff uri uri).1 refl) refl

  abbrev AllPass : Operation → String → List (Input F) → List String → Type 0
  AllPass o message [] [] = Unit
  AllPass o message (i ∷ is) (u ∷ us) = Passes o message i u × AllPass o message is us
  AllPass o message _ _ = ⊥

  all_valid-AllPass :
      (o : Operation) (message : String) (is : List (Input F)) (us : List String)
      → is_create o ≡ false
      → length is ≡ length us
      → all_valid crypto o message is us ≡ ok true
      → AllPass o message is us
  unfolding all_valid
  all_valid-AllPass o message [] [] c e h = tt
  all_valid-AllPass o message [] (u ∷ us) c e h = absurd (omega arith)
  all_valid-AllPass o message (i ∷ is) [] c e h = absurd (omega arith)
  all_valid-AllPass o message (i ∷ is) (u ∷ us) c e h =
      let (v, p, q) = >>=-eq-ok (input_valid crypto o i message u) _ h in
      let both = goes_on v _ q in
      (
        input_valid-Passes o i message u c (p ∙ ap ok both.0),
        all_valid-AllPass o message is us c (omega arith) both.1,
      )
    where
      goes_on :
          (v : Bool) (rest : Result Bool)
          → (if v then rest else ok false) ≡ ok true
          → (v ≡ true) × (rest ≡ ok true)
      goes_on v rest h = ground arith

  AllPass-all_valid :
      (o : Operation) (message : String) (is : List (Input F)) (us : List String)
      → is_create o ≡ false
      → AllPass o message is us
      → (length is ≡ length us) × (all_valid crypto o message is us ≡ ok true)
  unfolding all_valid
  AllPass-all_valid o message [] [] c h = (refl, refl)
  AllPass-all_valid o message [] (u ∷ us) c h = absurd h
  AllPass-all_valid o message (i ∷ is) [] c h = absurd h
  AllPass-all_valid o message (i ∷ is) (u ∷ us) c h =
      let (e, v) = AllPass-all_valid o message is us c h.1 in
      (omega arith, rw (Passes-input_valid o i message u c h.0) v)

  AllPass→AllFulfilled :
      (o : Operation) (message : String) (is : List (Input F)) (os : List (Output F))
      (us : List String)
      → condition_uris crypto os ≡ ok us
      → AllPass o message is us
      → AllFulfilled message is os
  unfolding condition_uris
  AllPass→AllFulfilled o message [] [] us p h = tt
  AllPass→AllFulfilled o message (i ∷ is) [] us p h =
      subst (AllPass o message (i ∷ is)) (sym (ok-injective p)) h
  AllPass→AllFulfilled o message [] (out ∷ os) us p h =
      let (u, q, r) = >>=-eq-ok (crypto.condition_uri out.fulfillment) _ p in
      let (rest, q', r') = >>=-eq-ok (condition_uris crypto os) _ r in
      subst (AllPass o message []) (sym (ok-injective r')) h
  AllPass→AllFulfilled o message (i ∷ is) (out ∷ os) us p h =
      let (u, q, r) = >>=-eq-ok (crypto.condition_uri out.fulfillment) _ p in
      let (rest, q', r') = >>=-eq-ok (condition_uris crypto os) _ r in
      let pass = subst (AllPass o message (i ∷ is)) (sym (ok-injective r')) h in
      (
        record {
          parsed = pass.0.0;
          parses = pass.0.1;
          uri = u;
          required = q;
          given = pass.0.2;
          fulfils = pass.0.3;
        },
        AllPass→AllFulfilled o message is os rest q' pass.1,
      )

  AllFulfilled→AllPass :
      (o : Operation) (message : String) (is : List (Input F)) (os : List (Output F))
      → AllFulfilled message is os
      → (us : List String) × (condition_uris crypto os ≡ ok us) × AllPass o message is us
  unfolding condition_uris
  AllFulfilled→AllPass o message [] [] h = ([], refl, tt)
  AllFulfilled→AllPass o message [] (u ∷ us) h = absurd h
  AllFulfilled→AllPass o message (i ∷ is) [] h = absurd h
  AllFulfilled→AllPass o message (i ∷ is) (out ∷ os) h =
      let (us, p, q) = AllFulfilled→AllPass o message is os h.1 in
      (
        h.0.uri ∷ us,
        rw (h.0.required, p) refl,
        ((h.0.parsed, h.0.parses, h.0.given, h.0.fulfils), q),
      )

  eqb_same : (m n : ℕ) → (not (eqb m n) ≡ false) ↔ (m ≡ n)
  eqb_same m n = (λ h. ground arith, λ h. ground arith)

  -- The inputs of a TRANSFER or a VOTE are valid exactly if there are as many as outputs to spend,
  -- and each fulfillment parses, has the condition of its output, and validates against the text of
  -- the transaction without its signatures, with the link of the input.
  pub inputs_valid_iff-AllFulfilled :
      (tx : Transaction F) (outputs : List (Output F))
      → is_create tx.operation ≡ false
      → (inputs_valid crypto tx outputs ≡ ok true) ↔ (
          (d : TransactionDict) × (dict_of crypto tx tx.tx_dict ≡ ok d)
          × AllFulfilled (message_of d) tx.inputs outputs)
  unfolding inputs_valid inputs_match
  inputs_valid_iff-AllFulfilled tx outputs c = (
    λ h.
        let (us, p, q) = >>=-eq-ok (condition_uris crypto outputs) _ (
          subst
            (λ b.
              (if b
                then inputs_match crypto tx (map (λ i. "dummyvalue") tx.inputs)
                else (do us ← condition_uris crypto outputs; inputs_match crypto tx us))
              ≡ ok true)
            c h) in
        let (u, p', q') =
          >>=-eq-ok (raise_if (not (eqb (length tx.inputs) (length us))) value_error) _ q in
        let (d, p'', q'') = >>=-eq-ok (dict_of crypto tx tx.tx_dict) _ q' in
        (
          d,
          p'',
          AllPass→AllFulfilled tx.operation (message_of d) tx.inputs outputs us p (
              all_valid-AllPass tx.operation (message_of d) tx.inputs us c
                ((eqb_same _ _).0 (raise_if-eq-ok _ _ p')) q''),
        ),
    λ h.
        let (us, p, pass) =
          AllFulfilled→AllPass tx.operation (message_of h.0) tx.inputs outputs h.2 in
        let (same, valid) = AllPass-all_valid tx.operation (message_of h.0) tx.inputs us c pass in
        rw (c, p, (eqb_same _ _).1 same, h.1, valid) refl,
  )
