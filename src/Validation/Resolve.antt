-- ===== src/Validation/Resolve.antt =====
-- The loop of `validate_transfer_inputs` over the inputs.
use planetmint.Base.{
  ℕ, ◌≡◌, refl, ap, subst, ◌∙◌, ◌↔◌, Option, none, some, is_some, List, [], ◌∷◌, get_elem?,
}
use planetmint.Errors.{
  ok, ◌>>=◌, ◌>>◌, raise_if, or_raise, or_raise-eq-ok, ok-injective, >>=-eq-ok, attribute_error,
  input_does_not_exist, double_spend, index_error,
}
use planetmint.Transaction.Link.{TransactionLink}
use planetmint.Transaction.Model.{Input, Output, Transaction}
use planetmint.Validation.{
  Crypto, Planet, or_current, index_output, get_spent, resolve, resolve_all,
}
use planetmint.Validation.Spent.{IsUnspent, get_spent-none_iff-IsUnspent}

module _ {F : Type 0} (crypto : Crypto F) (planet : Planet F) (current : List (Transaction F)) where
  -- The input points to output `position` of a known transaction, stored or earlier in the block,
  -- and this output is unspent.
  pub record IsResolved (i : Input F) (tx : Transaction F) (out : Output F) : Type 0 where
    pub link : TransactionLink
    pub fulfills : i.fulfills ≡ some link
    pub stored : Option (Transaction F)
    pub looked_up : planet.get_transaction link.txid ≡ ok stored
    pub known : or_current crypto link.txid current stored ≡ some tx
    pub unspent : IsUnspent crypto planet current link.txid link.output
    pub position : ℕ
    pub points_at : link.output ≡ some position
    pub present : get_elem? tx.outputs position ≡ some out

  -- the end of the loop's body
  finish :
      (spent : Option (Transaction F)) (found : Transaction F) (o : Option ℕ) {tx : Transaction F}
      {out : Output F}
      → ◌>>◌ {C = Transaction F × Output F}
          (raise_if (is_some spent) double_spend)
          (index_output crypto found.outputs o >>= λ output. ok (found, output))
        ≡ ok (tx, out)
      → (spent ≡ none)
        × (found ≡ tx)
        × ((n : ℕ) × (o ≡ some n) × (get_elem? found.outputs n ≡ some out))
  finish (some t) found o h = cc
  finish none found none h = cc
  finish none found (some n) {out = out} h =
      let (out', p, q) = >>=-eq-ok (or_raise (get_elem? found.outputs n) index_error) _ h in
      let same : out' ≡ out = cc in
      (refl, cc, (n, refl, or_raise-eq-ok (get_elem? found.outputs n) index_error p ∙ ap some same))

  assemble :
      (i : Input F) (l : TransactionLink) (stored spent : Option (Transaction F))
      (found tx : Transaction F) (out : Output F)
      → or_raise i.fulfills attribute_error ≡ ok l
      → planet.get_transaction l.txid ≡ ok stored
      → or_raise (or_current crypto l.txid current stored) input_does_not_exist ≡ ok found
      → get_spent crypto planet l.txid l.output current ≡ ok spent
      → ◌>>◌ {C = Transaction F × Output F}
          (raise_if (is_some spent) double_spend)
          (index_output crypto found.outputs l.output >>= λ output. ok (found, output))
        ≡ ok (tx, out)
      → IsResolved i tx out
  assemble i l stored spent found tx out p0 p1 p2 p3 h3 =
      let (p4, p5, rest) = finish spent found l.output h3 in
      let (n, p6, p7) = rest in
      record {
        link = l;
        fulfills = or_raise-eq-ok i.fulfills attribute_error p0;
        stored = stored;
        looked_up = p1;
        known =
            or_raise-eq-ok (or_current crypto l.txid current stored) input_does_not_exist p2
            ∙ ap some p5;
        unspent =
            (get_spent-none_iff-IsUnspent crypto planet l.txid l.output current).0 (p3 ∙ ap ok p4);
        position = n;
        points_at = p6;
        present = subst (λ (t : Transaction F). get_elem? t.outputs n ≡ some out) p5 p7;
      }

  resolve-IsResolved :
      (i : Input F) (tx : Transaction F) (out : Output F)
      → resolve crypto planet current i ≡ ok (tx, out)
      → IsResolved i tx out
  unfolding resolve
  resolve-IsResolved i tx out h =
      let (l, p0, h0) = >>=-eq-ok (or_raise i.fulfills attribute_error) _ h in
      let (stored, p1, h1) = >>=-eq-ok (planet.get_transaction l.txid) _ h0 in
      let (found, p2, h2) =
        >>=-eq-ok (or_raise (or_current crypto l.txid current stored) input_does_not_exist) _ h1 in
      let (spent, p3, h3) = >>=-eq-ok (get_spent crypto planet l.txid l.output current) _ h2 in
      assemble i l stored spent found tx out p0 p1 p2 p3 h3

  IsResolved-resolve :
      (i : Input F) (tx : Transaction F) (out : Output F)
      → IsResolved i tx out
      → resolve crypto planet current i ≡ ok (tx, out)
  unfolding resolve
  IsResolved-resolve i tx out r = rw (
    r.fulfills,
    r.looked_up,
    r.known,
    (get_spent-none_iff-IsUnspent crypto planet r.link.txid r.link.output current).1 r.unspent,
    r.points_at,
    r.present,
  )

  -- Input by input.
  abbrev pub AllResolved : List (Input F) → List (Transaction F × Output F) → Type 0
  AllResolved [] [] = Unit
  AllResolved [] (r ∷ rs) = ⊥
  AllResolved (i ∷ is) [] = ⊥
  AllResolved (i ∷ is) (r ∷ rs) = IsResolved i r.0 r.1 × AllResolved is rs

  resolve_all-AllResolved :
      (is : List (Input F)) (rs : List (Transaction F × Output F))
      → resolve_all crypto planet current is ≡ ok rs
      → AllResolved is rs
  unfolding resolve_all
  resolve_all-AllResolved [] rs h = subst (AllResolved []) (ok-injective h) tt
  resolve_all-AllResolved (i ∷ is) rs h =
      let (r, p, q) = >>=-eq-ok (resolve crypto planet current i) _ h in
      let (rest, p', q') = >>=-eq-ok (resolve_all crypto planet current is) _ q in
      subst (AllResolved (i ∷ is)) (ok-injective q')
        (resolve-IsResolved i r.0 r.1 p, resolve_all-AllResolved is rest p')

  AllResolved-resolve_all :
      (is : List (Input F)) (rs : List (Transaction F × Output F))
      → AllResolved is rs
      → resolve_all crypto planet current is ≡ ok rs
  unfolding resolve_all
  AllResolved-resolve_all [] [] h = refl
  AllResolved-resolve_all [] (r ∷ rs) h = absurd h
  AllResolved-resolve_all (i ∷ is) [] h = absurd h
  AllResolved-resolve_all (i ∷ is) (r ∷ rs) h =
      rw (IsResolved-resolve i r.0 r.1 h.0, AllResolved-resolve_all is rs h.1)

  -- The loop succeeds exactly if every input is resolved, with these transactions and outputs.
  pub resolve_all_iff-AllResolved :
      (is : List (Input F)) (rs : List (Transaction F × Output F))
      → (resolve_all crypto planet current is ≡ ok rs) ↔ AllResolved is rs
  resolve_all_iff-AllResolved is rs = (resolve_all-AllResolved is rs, AllResolved-resolve_all is rs)
