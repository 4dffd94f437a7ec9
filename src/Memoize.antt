-- ===== src/Memoize.antt =====
-- planetmint/transactions/common/memoize.py: `functools.lru_cache` around `to_dict` and `from_dict`, as
-- a list of the calls it holds, the last used first. The arguments of a call are of any type; `equal`
-- is Python's `==` on them, which takes 1, 1.0 and True for the same.
pub mod Direct
use Prim.Native.Char.{code}
use planetmint.Base.{
  ℕ, zero, suc, String, Bool, true, false, not, ◌&&◌, Option, none, some, List, [], ◌∷◌, ◌==◌,
  if◌then◌else◌, opt_eq,
}
use planetmint.Errors.{Result, ok, err, raise_if, value_error}
use planetmint.Transaction.Model.{Transaction, TransactionDict}
use planetmint.Web.Parameters.{is_hex}

-- `maxsize`
abbrev pub maxsize : ℕ
maxsize = 16384

module _ {K V : Type 0} (equal : K → K → Bool) where
  pub find : K → List (K × V) → Option (K × V)
  find k [] = none
  find k ((l, v) ∷ rest) = let found = find k rest in if equal k l then some (l, v) else found

  pub without : K → List (K × V) → List (K × V)
  without k [] = []
  without k ((l, v) ∷ rest) =
      let others = without k rest in if equal k l then rest else (l, v) ∷ others

  pub first : ℕ → List (K × V) → List (K × V)
  first zero cache = []
  first (suc n) [] = []
  first (suc n) (e ∷ cache) = e ∷ first n cache

  -- a call that raises leaves the cache as it is
  abbrev pub remembered : K → Result V → List (K × V) → Result V × List (K × V)
  remembered k (err e) cache = (err e, cache)
  remembered k (ok v) cache = (ok v, first maxsize ((k, v) ∷ cache))

  abbrev pub answered : Option (K × V) → Result V → K → List (K × V) → Result V × List (K × V)
  answered (some (l, v)) called k cache = (ok v, (l, v) ∷ without k cache)
  answered none called k cache = remembered k called cache

  -- the call of a function that `lru_cache` wraps
  unfoldable pub cached : (K → Result V) → K → List (K × V) → Result V × List (K × V)
  unfolding find without first
  cached func k cache = answered (find k cache) (func k) k cache

  -- the hash of the key comes first, which may raise
  abbrev pub keyed : Result (Unit {0}) → (K → Result V) → K → List (K × V) → Result V × List (K × V)
  keyed (err e) func k cache = (err e, cache)
  keyed (ok t) func k cache = cached func k cache

  -- both wrappers: only a call whose transaction has an id goes through the cache
  unfoldable pub memoized :
      (K → Bool)
      → (K → Result (Unit {0}))
      → (K → Result V)
      → K
      → List (K × V)
      → Result V × List (K × V)
  memoized has_id hash func k cache =
      if has_id k then keyed (hash k) func k cache else (func k, cache)

-- neither None nor empty
abbrev pub has_id : Option String → Bool
has_id none = false
has_id (some i) = not (i == "")

-- what `codecs.decode` takes for pairs of hexadecimal digits
unfoldable pub is_hex_text : String → Bool
is_hex_text String.[] = true
is_hex_text (String.◌∷◌ c String.[]) = false
is_hex_text (String.◌∷◌ c (String.◌∷◌ d s)) =
    let rest = is_hex_text s in is_hex (code c) && (is_hex (code d) && rest)

-- `HDict.__hash__`; a `binascii.Error` is a `ValueError`
unfoldable pub hash_dict : Option String → Result (Unit {0})
unfolding is_hex_text
hash_dict none = ok tt
hash_dict (some i) = raise_if (not (is_hex_text i)) value_error

-- `ToDictWrapper.__eq__`
abbrev pub same_id : {F : Type 0} → Transaction F → Transaction F → Bool
same_id a b = opt_eq a.id b.id

module _ {F A : Type 0} where
  -- the other arguments, the class among them, are of type `A`
  unfoldable pub memoize_from_dict :
      (A × TransactionDict → A × TransactionDict → Bool)
      → (A × TransactionDict → Result (Transaction F))
      → A × TransactionDict
      → List ((A × TransactionDict) × Transaction F)
      → Result (Transaction F) × List ((A × TransactionDict) × Transaction F)
  unfolding memoized
  memoize_from_dict equal func call cache =
      memoized equal (λ k. has_id k.1.id) (λ k. hash_dict k.1.id) func call cache

  unfoldable pub memoize_to_dict :
      (Transaction F → Result A)
      → Transaction F
      → List (Transaction F × A)
      → Result A × List (Transaction F × A)
  unfolding memoized
  memoize_to_dict func tx cache = memoized same_id (λ t. has_id t.id) (λ t. ok tt) func tx cache
