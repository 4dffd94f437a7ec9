-- ===== src/Tests/Caches.antt =====
-- The memoized from_dict and to_dict on a few dictionaries.
use planetmint.Base.{◌≡◌, refl, String, Bool, Option, none, some, List, [], ◌∷◌, ◌==◌, map}
use planetmint.Errors.{Result, ok, err, value_error}
use planetmint.Transaction.Conditions.{Shape}
use planetmint.Transaction.Model.{Transaction, TransactionDict}
use planetmint.Transaction.Serialize.{from_dict}
use planetmint.Memoize.{cached, has_id, hash_dict, memoize_from_dict, memoize_to_dict}
use planetmint.Memoize.Direct.{answers, direct, memoize_from_dict-direct}
use planetmint.Tests.Toy.{crypto, created}
use planetmint.Tests.Blocks.{first_tx}

abbrev named : Option String → String → TransactionDict
named i version = record created { id = i; version = version }

abbrev same_version : Unit {0} × TransactionDict → Unit {0} × TransactionDict → Bool
same_version a b = a.1.version == b.1.version

abbrev load : Unit {0} × TransactionDict → Result (Transaction Shape)
unfolding from_dict
load k = from_dict crypto.fulfillments k.1

abbrev calls : List (Unit {0} × TransactionDict)
calls = (tt, named (some "0a") "1.0") ∷ (tt, named none "2.0") ∷ (tt, named (some "0a") "1.0") ∷ []

memoize_from_dict-direct_example :
    answers (memoize_from_dict same_version load) calls []
    ≡ map
        (direct (λ (k : Unit {0} × TransactionDict). has_id k.1.id) (λ k. hash_dict k.1.id) load)
        calls
memoize_from_dict-direct_example =
    memoize_from_dict-direct same_version load calls
      ((λ h. cc, ((λ h. refl), tt)), ((λ h. cc, tt), (tt, tt)))

-- an id that is not hexadecimal
memoize_from_dict-not_hex :
    answers (memoize_from_dict same_version load) ((tt, created) ∷ []) [] ≡ err value_error ∷ []
unfolding answers memoize_from_dict hash_dict
memoize_from_dict-not_hex = refl

abbrev version_of : Transaction Shape → Result String
version_of tx = ok tx.version

abbrev versioned : String → Transaction Shape
versioned version = record first_tx { version = version }

-- a transaction that was changed has the dict of before
memoize_to_dict-stale :
    answers (memoize_to_dict version_of) (versioned "1.0" ∷ versioned "2.0" ∷ []) []
    ≡ ok "1.0" ∷ ok "1.0" ∷ []
unfolding answers memoize_to_dict cached
memoize_to_dict-stale = refl
