-- ===== src/Signing/Signed.antt =====
-- The inputs that `sign` returns.
use planetmint.Base.{
  ℕ, ◌≡◌, refl, sym, ap, subst, ◌∙◌, inl, inr, String, true, Option, some, List, [], ◌∷◌, if_taken,
  if_refused, ◌==◌, eq_iff, Bool-cases,
}
use planetmint.Base.Dict.{Dict, lookup, insert, lookup-insert}
use planetmint.Errors.{
  ok, ◌>>=◌, >>=-eq-ok, ok-injective, or_raise, or_raise-eq-ok, keypair_mismatch,
}
use planetmint.Transaction.Conditions.{ed25519}
use planetmint.Transaction.Model.{Input, Output}
use planetmint.Validation.{Crypto}
use planetmint.Validation.Signatures.{IsFulfilled, AllFulfilled}
use planetmint.Signing.{
  Signer, first, add_key_pairs, digest, sign_simple, sign_as, sign_input, sign_inputs,
}

some-injective : {a b : String} → ◌≡◌ {A = Option String} (some a) (some b) → a ≡ b
some-injective h = cc

module _ {F : Type 0} (crypto : Crypto F) (signer : Signer F) where
  -- What cryptoconditions promises of an Ed25519 fulfillment: signed with the private key of its
  -- public key, it can be written and read back, validates, and keeps its condition.
  pub record SignLaws : Type 0 where
    pub parsed : F → F
    pub signed_parses :
        (f g : F) (message private_key : String) (vk key : List ℕ)
        → crypto.shape f ≡ ed25519 vk
        → signer.gen_public_key private_key ≡ ok (crypto.b58encode vk)
        → crypto.b58decode private_key ≡ ok key
        → signer.sign f message key ≡ ok g
        → (crypto.serialize_uri g >>= λ u. crypto.from_uri u) ≡ ok (parsed g)
    pub signed_condition :
        (f g : F) (message private_key : String) (vk key : List ℕ)
        → crypto.shape f ≡ ed25519 vk
        → signer.gen_public_key private_key ≡ ok (crypto.b58encode vk)
        → crypto.b58decode private_key ≡ ok key
        → signer.sign f message key ≡ ok g
        → crypto.condition_uri g ≡ crypto.condition_uri f
    pub signed_validates :
        (f g : F) (message private_key : String) (vk key : List ℕ)
        → crypto.shape f ≡ ed25519 vk
        → signer.gen_public_key private_key ≡ ok (crypto.b58encode vk)
        → crypto.b58decode private_key ≡ ok key
        → signer.sign f message key ≡ ok g
        → crypto.validate (parsed g) message ≡ true

  -- An input with an Ed25519 fulfillment, which belongs to its first owner, and the output with this
  -- condition.
  pub record IsSignable (i : Input F) (o : Output F) : Type 0 where
    pub vk : List ℕ
    pub is_ed25519 : crypto.shape i.fulfillment ≡ ed25519 vk
    pub owns : first i.owners_before ≡ ok (crypto.b58encode vk)
    pub uri : String
    pub has_condition : crypto.condition_uri i.fulfillment ≡ ok uri
    pub required : crypto.condition_uri o.fulfillment ≡ ok uri

  abbrev pub AllSignable : List (Input F) → List (Output F) → Type 0
  AllSignable [] [] = Unit
  AllSignable (i ∷ is) (o ∷ os) = IsSignable i o × AllSignable is os
  AllSignable _ _ = ⊥

  -- The dict holds each private key under its public key.
  unfoldable pub IsKeyed : Dict String → Type 0
  IsKeyed pairs =
      (public_key private_key : String)
      → lookup public_key pairs ≡ some private_key
      → signer.gen_public_key private_key ≡ ok public_key

  IsKeyed-insert :
      (public_key private_key : String) (pairs : Dict String)
      → signer.gen_public_key private_key ≡ ok public_key
      → IsKeyed pairs
      → IsKeyed (insert public_key private_key pairs)
  unfolding IsKeyed
  IsKeyed-insert public_key private_key pairs e keyed p q h =
      let found = sym (lookup-insert public_key p private_key pairs) ∙ h in
      elim (Bool-cases (public_key == p)) [
        | inl same ↦
            let here = if_taken (public_key == p) (some private_key) (lookup p pairs) same in
            subst (λ k. signer.gen_public_key k ≡ ok p) (some-injective (sym here ∙ found))
              (e ∙ ap ok ((eq_iff public_key p).0 same))
        | inr other ↦
            keyed p q
              (sym (if_refused (public_key == p) (some private_key) (lookup p pairs) other) ∙ found)
      ]

  pub add_key_pairs-IsKeyed :
      (private_keys : List String) (pairs : Dict String) {result : Dict String}
      → IsKeyed pairs
      → add_key_pairs crypto signer private_keys pairs ≡ ok result
      → IsKeyed result
  unfolding add_key_pairs
  add_key_pairs-IsKeyed [] pairs keyed h = subst IsKeyed (ok-injective h) keyed
  add_key_pairs-IsKeyed (k ∷ ks) pairs keyed h =
      let one = >>=-eq-ok (signer.gen_public_key k) _ h in
      add_key_pairs-IsKeyed ks (insert one.0 k pairs) (IsKeyed-insert one.0 k pairs one.1 keyed)
        one.2

  -- Signing changes nothing but the fulfillment.
  unfoldable pub SameInput : Input F → Input F → Type 0
  SameInput i j = (j.owners_before ≡ i.owners_before) × (j.fulfills ≡ i.fulfills)

  -- `sign_simple`, call by call
  opened :
      (i j : Input F) (message : String) (pairs : Dict String)
      → sign_simple crypto signer i message pairs ≡ ok j
      → (first i.owners_before >>= λ public_key.
          or_raise (lookup public_key pairs) keypair_mismatch >>= λ private_key.
          crypto.b58decode private_key >>= λ key.
          signer.sign i.fulfillment (digest crypto signer message i) key >>= λ f.
          ok (record i { fulfillment = f }))
        ≡ ok j
  unfolding sign_simple
  opened i j message pairs h = h

  signed-IsFulfilled :
      (laws : SignLaws) (i j : Input F) (o : Output F) (message : String) (pairs : Dict String)
      → IsKeyed pairs
      → IsSignable i o
      → sign_input crypto signer i message pairs ≡ ok j
      → SameInput i j × IsFulfilled crypto message j o
  unfolding sign_input SameInput IsKeyed
  signed-IsFulfilled laws i j o message pairs keyed s h =
      let simple = subst (λ sh. sign_as crypto signer sh i message pairs ≡ ok j) s.is_ed25519 h in
      let owner = >>=-eq-ok (first i.owners_before) _ (opened i j message pairs simple) in
      let held = >>=-eq-ok (or_raise (lookup owner.0 pairs) keypair_mismatch) _ owner.2 in
      let key = >>=-eq-ok (crypto.b58decode held.0) _ held.2 in
      let made =
        >>=-eq-ok (signer.sign i.fulfillment (digest crypto signer message i) key.0) _ key.2 in
      let pair =
        keyed owner.0 held.0 (or_raise-eq-ok (lookup owner.0 pairs) keypair_mismatch held.1)
        ∙ ap ok (ok-injective (sym owner.1 ∙ s.owns)) in
      let g = made.0 in
      let m = digest crypto signer message i in
      subst (λ x. SameInput i x × IsFulfilled crypto message x o) (ok-injective made.2)
        (
          (refl, refl),
          record {
            parsed = laws.parsed g;
            parses =
                laws.signed_parses i.fulfillment g m held.0 s.vk key.0 s.is_ed25519 pair key.1
                  made.1;
            uri = s.uri;
            required = s.required;
            given =
                laws.signed_condition i.fulfillment g m held.0 s.vk key.0 s.is_ed25519 pair key.1
                  made.1
                ∙ s.has_condition;
            fulfils =
                laws.signed_validates i.fulfillment g m held.0 s.vk key.0 s.is_ed25519 pair key.1
                  made.1;
          },
        )

  abbrev pub AllSame : List (Input F) → List (Input F) → Type 0
  AllSame [] [] = Unit
  AllSame (i ∷ is) (j ∷ js) = SameInput i j × AllSame is js
  AllSame _ _ = ⊥

  pub all_signed :
      (laws : SignLaws) (is : List (Input F)) (os : List (Output F)) (message : String)
      (pairs : Dict String) {js : List (Input F)}
      → IsKeyed pairs
      → AllSignable is os
      → sign_inputs crypto signer is message pairs ≡ ok js
      → AllSame is js × AllFulfilled crypto message js os
  unfolding sign_inputs
  all_signed laws [] [] message pairs keyed s h =
      subst (λ js. AllSame [] js × AllFulfilled crypto message js []) (ok-injective h) (tt, tt)
  all_signed laws [] (o ∷ os) message pairs keyed s h = absurd s
  all_signed laws (i ∷ is) [] message pairs keyed s h = absurd s
  all_signed laws (i ∷ is) (o ∷ os) message pairs keyed s h =
      let one = >>=-eq-ok (sign_input crypto signer i message pairs) _ h in
      let more = >>=-eq-ok (sign_inputs crypto signer is message pairs) _ one.2 in
      let p = signed-IsFulfilled laws i one.0 o message pairs keyed s.0 one.1 in
      let q = all_signed laws is os message pairs keyed s.1 more.1 in
      subst (λ js. AllSame (i ∷ is) js × AllFulfilled crypto message js (o ∷ os))
        (ok-injective more.2) ((p.0, q.0), (p.1, q.1))
