-- ===== src/Merkle.antt =====
-- The Merkle root of the unspent outputs: `merkleroot` of planetmint/tendermint_utils.py and
-- `get_utxoset_merkle_root` of planetmint/lib.py. The proofs are in the modules below.
pub mod Levels
pub mod Root
use Prim.Native.String
use planetmint.Base.{
  ℕ, zero, suc, ◌%◌, String, Option, none, some, List, [], ◌∷◌, map, Bool, eqb, length,
  if◌then◌else◌,
}
use planetmint.Base.Decimal.{decimal}
use planetmint.Backend.Mongo.{Mongo}
use planetmint.Backend.Documents.{UnspentOutput, Connection}
use planetmint.Backend.Query

-- What the code takes from hashlib, binascii and the built-in functions; bytes are texts.
pub record Hashing : Type 0 where
  pub sha3_256 : String → String
  pub hexlify : String → String
  pub sorted : List String → List String

-- `hashes.append(hashes[-1])`, of a list that is not empty
abbrev pub append_last : List String → List String
append_last [] = []
append_last (h ∷ []) = h ∷ h ∷ []
append_last (h ∷ k ∷ hashes) = h ∷ append_last (k ∷ hashes)

abbrev pub padded : List String → List String
padded hashes = if eqb (length hashes % 2) 1 then append_last hashes else hashes

module _ (hashing : Hashing) where
  -- `sha3_256(hashes[i] + hashes[i + 1]).digest()`
  abbrev pub parent : String → String → String
  parent left right = hashing.sha3_256 (String.◌++◌ left right)

  -- `for i in range(0, len(hashes) - 1, 2)`
  abbrev pub parent_hashes : List String → List String
  parent_hashes (left ∷ right ∷ hashes) = parent left right ∷ parent_hashes hashes
  parent_hashes _ = []

  -- The fuel counts the calls.
  unfoldable pub merkleroot : ℕ → List String → Option String
  merkleroot zero hashes = none
  merkleroot (suc fuel) [] = some (hashing.hexlify (hashing.sha3_256 ""))
  merkleroot (suc fuel) (h ∷ []) = some (hashing.hexlify h)
  merkleroot (suc fuel) (h ∷ k ∷ hashes) = merkleroot fuel (parent_hashes (padded (h ∷ k ∷ hashes)))

  -- `str.format` of the id, which is None in no stored output
  abbrev formatted : Option String → String
  formatted none = "None"
  formatted (some id) = id

  abbrev leaf : UnspentOutput → String
  leaf utxo =
      hashing.sha3_256 (String.◌++◌ (formatted utxo.transaction_id) (decimal utxo.output_index))

  pub get_utxoset_merkle_root : (mongo : Mongo) → Connection mongo → Option String
  unfolding merkleroot
  get_utxoset_merkle_root mongo conn =
      let hashes = hashing.sorted (map leaf (Query.get_unspent_outputs mongo conn)) in
      merkleroot (suc (length hashes)) hashes
