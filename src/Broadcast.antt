-- ===== src/Broadcast.antt =====
-- How planetmint/lib.py sends a transaction to Tendermint: `post_transaction`, `write_transaction`
-- and `_process_post_response`. Tendermint's JSON-RPC endpoint is a function.
use Prim.Native.String
use Prim.Native.Char.{code}
use planetmint.Base.{
  ℕ, String, Bool, true, false, Option, none, some, List, [], ◌∷◌, eqb, any, ◌==◌, if◌then◌else◌,
}
use planetmint.Errors.{Result, ok, err, ◌>>=◌, key_error, validation_error}
use planetmint.Transaction.Model.{Transaction, TransactionDict}
use planetmint.Validation.{Crypto}
use planetmint.Node.{dict_of}

-- `error` of a JSON-RPC response, with the keys that the code reads
pub record RpcError : Type 0 where
  pub message : Option String
  pub details : Option String

-- `result`, with the `code` of `check_tx` and of `deliver_tx` where they are there
pub record RpcResult : Type 0 where
  pub code : Option ℕ
  pub check_tx : Option (Option ℕ)
  pub deliver_tx : Option (Option ℕ)

-- No `error` is one that is absent, null or an empty object.
pub record RpcResponse : Type 0 where
  pub error : Option RpcError
  pub result : Option RpcResult

-- the method and the parameter of a request; its id is random
pub record Payload : Type 0 where
  pub method : String
  pub tx : String

abbrev pub broadcast_tx_async : String
broadcast_tx_async = "broadcast_tx_async"

abbrev pub broadcast_tx_sync : String
broadcast_tx_sync = "broadcast_tx_sync"

abbrev pub broadcast_tx_commit : String
broadcast_tx_commit = "broadcast_tx_commit"

abbrev pub mode_list : List String
mode_list = broadcast_tx_async ∷ broadcast_tx_sync ∷ broadcast_tx_commit ∷ []

abbrev starts_with : String → String → Bool
starts_with String.[] t = true
starts_with (String.◌∷◌ c s) String.[] = false
starts_with (String.◌∷◌ c s) (String.◌∷◌ d t) =
    let rest = starts_with s t in if eqb (code c) (code d) then rest else false

-- `part in text`
abbrev is_part : String → String → Bool
is_part part String.[] = starts_with part String.[]
is_part part (String.◌∷◌ c t) =
    let rest = is_part part t in if starts_with part (String.◌∷◌ c t) then true else rest

-- `d.get(key, default)`
abbrev pub get_or {ℓ} : {A : Type ℓ} → Option A → A → A
get_or none a = a
get_or (some b) a = b

abbrev pub code_of : Option (Option ℕ) → ℕ
code_of call = get_or (get_or call none) 0

abbrev pub error_code : String → RpcResult → ℕ
error_code mode r =
    if mode == broadcast_tx_commit
    then (let check_tx_code = code_of r.check_tx in
        if eqb check_tx_code 0 then code_of r.deliver_tx else check_tx_code)
    else get_or r.code 0

abbrev pub error_status : RpcError → ℕ × String
error_status e =
    let details = get_or e.details "" in
    (
      (if is_part "Tx already exists in cache" details then 400 else 500),
      String.◌++◌ (get_or e.message "Internal Error") (String.◌++◌ " - " details),
    )

abbrev pub result_status : String → RpcResult → ℕ × String
result_status mode r =
    if eqb (error_code mode r) 0 then (202, "") else (500, "Transaction validation failed")

abbrev pub response_status : Option RpcError → Option RpcResult → String → Result (ℕ × String)
response_status (some e) result mode = ok (error_status e)
response_status none none mode = err key_error
response_status none (some r) mode = ok (result_status mode r)

unfoldable pub process_post_response : RpcResponse → String → Result (ℕ × String)
process_post_response response mode = response_status response.error response.result mode

module _ {F : Type 0} (crypto : Crypto F) (encode_transaction : TransactionDict → String)
    (tendermint : Payload → Result RpcResponse) where
  abbrev pub payload_of : String → TransactionDict → Payload
  payload_of mode d = record { method = mode; tx = encode_transaction d }

  abbrev pub post_body : String → Result TransactionDict → Result RpcResponse × List Payload
  post_body mode (err e) = (err e, [])
  post_body mode (ok d) = (tendermint (payload_of mode d), payload_of mode d ∷ [])

  -- with the requests that it has sent
  unfoldable pub post_transaction : Transaction F → String → Result RpcResponse × List Payload
  post_transaction tx mode =
      if any (λ m. mode == m) mode_list
      then post_body mode (dict_of crypto tx tx.tx_dict)
      else (err validation_error, [])

  abbrev pub processed :
      String → Result RpcResponse × List Payload → Result (ℕ × String) × List Payload
  processed mode (response, sent) = (response >>= λ r. process_post_response r mode, sent)

  unfoldable pub write_transaction : Transaction F → String → Result (ℕ × String) × List Payload
  unfolding post_transaction process_post_response
  write_transaction tx mode = processed mode (post_transaction tx mode)
