-- ===== src/Transaction/Conditions/Owner.antt =====
-- Whom a condition names as owners.
use planetmint.Base.{
  String, ◌≡◌, ◌↔◌, inl, inr, true, List, [], ◌∷◌, ◌++◌, arith, eq_iff, Any, Any-append_iff,
  Bool-cases,
}
use planetmint.Transaction.Conditions.{
  Details, Subconditions, ed25519, threshold, unsupported, nil, cons, condition_details_has_owner,
  any_has_owner,
}

-- The public keys at the leaves of the details.
unfoldable mutual
  pub leaf_keys : Details → List String
  leaf_keys (ed25519 key) = key ∷ []
  leaf_keys (threshold n subs) = leaf_keys_all subs
  leaf_keys (unsupported t) = []

  pub leaf_keys_all : Subconditions → List String
  leaf_keys_all nil = []
  leaf_keys_all (cons d rest) = leaf_keys d ++ leaf_keys_all rest

abbrev pub IsLeafKey : String → List String → Type 0
IsLeafKey owner keys = Any (λ key. owner ≡ key) keys

mutual
  unfolding condition_details_has_owner leaf_keys

  sound :
      (d : Details) (o : String)
      → condition_details_has_owner d o ≡ true
      → IsLeafKey o (leaf_keys d)
  sound (ed25519 key) o h = inl ((eq_iff o key).0 h)
  sound (threshold n subs) o h = sound_all subs o (ground arith)
  sound (unsupported t) o h = cc

  sound_all :
      (s : Subconditions) (o : String) → any_has_owner s o ≡ true → IsLeafKey o (leaf_keys_all s)
  sound_all nil o h = cc
  sound_all (cons d rest) o h = elim (Bool-cases (condition_details_has_owner d o)) [
    | inl e ↦
        (Any-append_iff (λ key. o ≡ key) (leaf_keys d) (leaf_keys_all rest)).1 (inl (sound d o e))
    | inr e ↦
        (Any-append_iff (λ key. o ≡ key) (leaf_keys d) (leaf_keys_all rest)).1
          (inr (sound_all rest o (ground arith)))
  ]

mutual
  unfolding condition_details_has_owner leaf_keys

  complete :
      (d : Details) (o : String)
      → IsLeafKey o (leaf_keys d)
      → condition_details_has_owner d o ≡ true
  complete (ed25519 key) o (inl e) = (eq_iff o key).1 e
  complete (ed25519 key) o (inr e) = absurd e
  complete (threshold n subs) o h = rw (complete_all subs o h)
  complete (unsupported t) o h = absurd h

  complete_all :
      (s : Subconditions) (o : String) → IsLeafKey o (leaf_keys_all s) → any_has_owner s o ≡ true
  complete_all nil o h = absurd h
  complete_all (cons d rest) o h =
      elim ((Any-append_iff (λ key. o ≡ key) (leaf_keys d) (leaf_keys_all rest)).0 h) [
        | inl e ↦ rw (complete d o e)
        | inr e ↦ ground (arith, complete_all rest o e)
      ]

-- condition_details_has_owner is true exactly of the public keys at the leaves of the condition, at
-- any nesting of thresholds.
pub has_owner_iff-IsLeafKey :
    (d : Details) (owner : String)
    → (condition_details_has_owner d owner ≡ true) ↔ IsLeafKey owner (leaf_keys d)
has_owner_iff-IsLeafKey d owner = (sound d owner, complete d owner)
