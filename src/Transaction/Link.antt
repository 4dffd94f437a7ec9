-- ===== src/Transaction/Link.antt =====
-- planetmint/transactions/common/transaction_link.py
use Prim.Native.String.{◌++◌}
use planetmint.Base.{
  ℕ, String, ◌≡◌, refl, Bool, true, false, ◌&&◌, Option, none, some, is_some, opt_eq, opt_eq_iff,
  eqb, eqb_iff, and_true, ap, ◌∙◌, ◌↔◌, arith, if◌then◌else◌,
}
use planetmint.Base.Decimal.{decimal}

pub record TransactionLink : Type 0 where
  pub txid : Option String
  pub output : Option ℕ

-- a link that is not None as a dictionary
pub record LinkDict : Type 0 where
  pub transaction_id : Option String
  pub output_index : Option ℕ

-- `__bool__`
unfoldable pub is_truthy : TransactionLink → Bool
is_truthy l = is_some l.txid && is_some l.output

-- `from_dict`: indexing None raises a `TypeError`, and the result is the empty link
unfoldable pub from_dict : Option LinkDict → TransactionLink
from_dict none = record { txid = none; output = none }
from_dict (some d) = record { txid = d.transaction_id; output = d.output_index }

unfoldable pub to_dict : TransactionLink → Option LinkDict
to_dict l = elim l.txid [
  | none ↦ elim l.output [
    | none ↦ none
    | some n ↦ some (record { transaction_id = none; output_index = some n })
  ]
  | some t ↦ some (record { transaction_id = some t; output_index = l.output })
]

-- `str` of a value that may be None
abbrev show_txid : Option String → String
show_txid none = "None"
show_txid (some t) = t

abbrev show_output : Option ℕ → String
show_output none = "None"
show_output (some n) = decimal n

unfoldable pub to_uri : String → TransactionLink → Option String
to_uri path l =
    if is_some l.txid
    then some (path ++ "/transactions/" ++ show_txid l.txid ++ "/outputs/" ++ show_output l.output)
    else if is_some l.output
    then some (path ++ "/transactions/" ++ show_txid l.txid ++ "/outputs/" ++ show_output l.output)
    else none

-- `'{}{}'.format(txid, output)`, which is hashed behind the message to sign
unfoldable pub concatenated : TransactionLink → String
concatenated l = show_txid l.txid ++ show_output l.output

-- Python's `==` on two values of type `Optional[int]`
abbrev pub opt_eqb : Option ℕ → Option ℕ → Bool
opt_eqb none none = true
opt_eqb none (some n) = false
opt_eqb (some m) none = false
opt_eqb (some m) (some n) = eqb m n

-- `link.txid == txid and link.output == output`, and the `__eq__` of two links
unfoldable pub points_to : Option String → Option ℕ → TransactionLink → Bool
points_to txid output l = opt_eq l.txid txid && opt_eqb l.output output

pub opt_eqb_refl : (o : Option ℕ) → opt_eqb o o ≡ true
opt_eqb_refl none = refl
opt_eqb_refl (some n) = ground arith

-- A transaction link is rebuilt from its dict.
pub from_dict-to_dict : (l : TransactionLink) → from_dict (to_dict l) ≡ l
unfolding from_dict to_dict
from_dict-to_dict l = ground arith

pub opt_eqb-eq : (m n : Option ℕ) → opt_eqb m n ≡ true → m ≡ n
opt_eqb-eq none none h = refl
opt_eqb-eq none (some n) h = cc
opt_eqb-eq (some m) none h = cc
opt_eqb-eq (some m) (some n) h = ap some ((eqb_iff m n).0 h)

pub points_to_iff :
    (t : String) (n : ℕ) (l : TransactionLink)
    → (points_to (some t) (some n) l ≡ true) ↔ (l ≡ record { txid = some t; output = some n })
unfolding points_to
points_to_iff t n l = (
  λ h.
      let both = and_true _ _ h in
      ap (λ x. record { txid = x; output = l.output }) ((opt_eq_iff l.txid (some t)).0 both.0)
      ∙ ap (λ x. record { txid = some t; output = x }) (opt_eqb-eq l.output (some n) both.1),
  λ h. rw (h, (opt_eq_iff (some t) (some t)).1 refl, opt_eqb_refl (some n)) refl,
)
