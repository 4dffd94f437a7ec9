-- ===== src/Tests/Signatures.antt =====
-- A transfer that is built, signed by its owner, and checked; and outputs for one and for two keys.
use planetmint.Base.{
  ℕ, ◌≡◌, refl, inl, inr, String, true, none, some, List, [], ◌∷◌, sum, eqb, Bool-cases, arith,
  if◌then◌else◌, subst, ap, sym,
}
use planetmint.Errors.{Result, ok, err, type_error, keypair_mismatch, ◌>>=◌, ok-injective}
use planetmint.Transaction.Conditions.{
  Shape, ed25519, threshold, other, plain, nil, cons, fulfillment_to_details,
}
use planetmint.Transaction.Conditions.RoundTrip.{snoc}
use planetmint.Base.Decimal.{decimal}
use planetmint.Tests.Details.{laws, canonical}
use planetmint.Transaction.Conditions.Owner.{leaf_keys}
use planetmint.Transaction.Model.{Transaction, Output, transfer, reference}
use planetmint.Transaction.Serialize.{to_dict, remove_signatures}
use planetmint.Transaction.Build.{generate_output, generate_transfer}
use planetmint.Transaction.Build.Generate.{
  details_of, generate_output-ok_iff, generate_output-details,
}
use planetmint.Transaction.Link
use planetmint.Validation.{inputs_valid}
use planetmint.Signing.{Signer, sign}
use planetmint.Signing.Signed.{SignLaws, AllSignable}
use planetmint.Signing.Accepted.{sign-inputs_valid}
use planetmint.Tests.Toy.{crypto, library}
use planetmint.Tests.Blocks.{input_of, output_of}

abbrev signed_by : Shape → Result Shape
signed_by (ed25519 k) = ok (ed25519 k)
signed_by _ = err type_error

-- A private key is its own public key.
abbrev pub signer : Signer Shape
signer = record {
  gen_public_key = λ private_key. ok private_key;
  sign = λ f message key. signed_by f;
  has_subcondition = λ f vk. true;
  sign_subconditions = λ f vk message key. ok f;
}

abbrev read_back : Shape → Shape
read_back (ed25519 k) = if eqb (sum k) 0 then ed25519 (0 ∷ []) else ed25519 (1 ∷ [])
read_back s = s

reads :
    (k : List ℕ)
    → (crypto.serialize_uri (ed25519 k) >>= λ u. crypto.from_uri u) ≡ ok (read_back (ed25519 k))
reads k = elim (Bool-cases (eqb (sum k) 0)) [ inl e ↦ rw e refl | inr e ↦ rw e refl ]

parses :
    (f g : Shape) (message : String) (key : List ℕ)
    → signer.sign f message key ≡ ok g
    → (crypto.serialize_uri g >>= λ u. crypto.from_uri u) ≡ ok (read_back g)
parses (ed25519 k) g message key h =
    subst (λ x. (crypto.serialize_uri x >>= λ u. crypto.from_uri u) ≡ ok (read_back x))
      (ok-injective h) (reads k)
parses (threshold n s) g message key h = cc
parses (other t) g message key h = cc
parses plain g message key h = cc

keeps :
    (f g : Shape) (message : String) (key : List ℕ)
    → signer.sign f message key ≡ ok g
    → crypto.condition_uri g ≡ crypto.condition_uri f
keeps (ed25519 k) g message key h = ap crypto.condition_uri (sym (ok-injective h))
keeps (threshold n s) g message key h = cc
keeps (other t) g message key h = cc
keeps plain g message key h = cc

sign_laws : SignLaws crypto signer
sign_laws = record {
  parsed = read_back;
  signed_parses = λ f g message private_key vk key e p d s. parses f g message key s;
  signed_condition = λ f g message private_key vk key e p d s. keeps f g message key s;
  signed_validates = λ f g message private_key vk key e p d s. refl;
}

abbrev share : Output Shape
share = output_of "alice" 0 3

-- alice pays bob
abbrev payment : Transaction Shape
payment = record {
  operation = transfer;
  asset = reference "share";
  inputs = input_of "share" 0 "alice" 0;
  outputs = output_of "bob" 1 3 ∷ [];
  metadata = none;
  version = "2.0";
  id = none;
  tx_dict = none;
}

abbrev signed : Transaction Shape
signed = record payment { id = some "2.0" }

builds :
    generate_transfer crypto.fulfillments
      (input_of "share" 0 "alice" 0)
      (("bob" ∷ [], 3) ∷ [])
      "share"
      none
    ≡ ok payment
unfolding generate_transfer
builds = refl

signs : sign crypto signer ("alice" ∷ []) payment ≡ ok signed
unfolding sign to_dict remove_signatures fulfillment_to_details Link.to_dict decimal
signs = refl

-- without the owner's key
needs_the_key : sign crypto signer ("bob" ∷ []) payment ≡ err keypair_mismatch
unfolding sign to_dict remove_signatures fulfillment_to_details Link.to_dict decimal
needs_the_key = refl

signable : AllSignable crypto signer payment.inputs (share ∷ [])
signable = (
  record {
    vk = 0 ∷ [];
    is_ed25519 = refl;
    owns = refl;
    uri = "alice";
    has_condition = refl;
    required = refl;
  },
  tt,
)

sign-inputs_valid_example : inputs_valid crypto signed (share ∷ []) ≡ ok true
sign-inputs_valid_example =
    sign-inputs_valid crypto signer ("alice" ∷ []) payment (share ∷ []) sign_laws refl refl refl
      signable signs

abbrev shared : Output Shape
shared = record {
  fulfillment = threshold 2 (cons (ed25519 (0 ∷ [])) (cons (ed25519 (1 ∷ [])) nil));
  public_keys = "alice" ∷ "bob" ∷ [];
  amount = 3;
}

generates : generate_output crypto.fulfillments ("alice" ∷ "bob" ∷ []) 3 ≡ ok shared
unfolding generate_output snoc
generates = refl

generate_output-details_example :
    (fulfillment_to_details library shared.fulfillment ≡ ok (details_of ("alice" ∷ "bob" ∷ [])))
    × (leaf_keys (details_of ("alice" ∷ "bob" ∷ [])) ≡ "alice" ∷ "bob" ∷ [])
    × (shared.public_keys ≡ "alice" ∷ "bob" ∷ [])
    × (shared.amount ≡ 3)
generate_output-details_example =
    generate_output-details crypto.fulfillments ("alice" ∷ "bob" ∷ []) 3 laws canonical generates

generate_output-ok_iff_example :
    (o : Output Shape) × (generate_output crypto.fulfillments ("alice" ∷ "bob" ∷ []) 3 ≡ ok o)
generate_output-ok_iff_example =
    (generate_output-ok_iff crypto.fulfillments ("alice" ∷ "bob" ∷ []) 3).1
      (omega arith, omega arith, λ e. cc, (((0 ∷ []), refl), (((1 ∷ []), refl), tt)))
