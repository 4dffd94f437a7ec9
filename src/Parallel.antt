-- ===== src/Parallel.antt =====
-- planetmint/parallel_validation.py: the validator that spreads the transactions of a block over
-- worker processes. A run of the processes is a list of turns. The proofs are in the modules below.
pub mod Schedule
pub mod Agreement
pub mod Indices
pub mod Conserved
pub mod Buffer
pub mod Results
pub mod Answered
pub mod Apart
pub mod Application
use planetmint.Base.{
  ℕ, zero, suc, ◌+◌, ◌%◌, String, Option, none, some, List, [], ◌∷◌, ◌++◌, map, Bool, true, false,
  not, eqb, ltb, opt_eq, length, is_some, if◌then◌else◌,
}
use planetmint.Errors.{
  Result, ok, err, ◌>>=◌, type_error, index_error, zero_division_error, queue_empty,
}
use planetmint.Transaction.Model.{Transaction, TransactionDict, Asset, absent, payload, reference}

-- What is put in a routing queue: an index with a transaction, or one of the two constants.
pub data Message : Type 0 where
  transaction : ℕ → TransactionDict → Message
  reset exit : Message

-- `result_buffer[index] = transaction`
abbrev pub set_elem {ℓ} : {A : Type ℓ} → ℕ → A → List A → Result (List A)
set_elem i a [] = err index_error
set_elem zero a (x ∷ xs) = ok (a ∷ xs)
set_elem (suc i) a (x ∷ xs) = do rest ← set_elem i a xs; ok (x ∷ rest)

module _ (F : Type 0) where
  -- `validated_transactions`, by asset id
  abbrev pub Validated : Type 0
  Validated = List (Option String × List (Transaction F))

  -- What is put in the results queue.
  abbrev pub Answer : Type 0
  Answer = ℕ × Option (Transaction F)

  -- A worker process with its queue. An exception ends the process, as EXIT does.
  pub record ValidationWorker : Type 0 where
    pub in_queue : List Message
    pub validated_transactions : Validated
    pub is_running : Bool

  pub record ParallelValidator : Type 0 where
    pub transaction_index : ℕ
    pub workers : List ValidationWorker
    pub results_queue : List Answer

-- over `is_valid_transaction` of the node
module _ {F : Type 0}
    (is_valid_transaction : TransactionDict
      → List (Transaction F)
      → Result (Option (Transaction F))) where
  -- `dict_transaction['asset']['id']`, or the id of a transaction with no such key; the asset None
  -- has no keys at all
  abbrev pub asset_key : TransactionDict → Asset → Result (Option String)
  asset_key d absent = err type_error
  asset_key d (payload j) = ok d.id
  asset_key d (reference i) = ok (some i)

  -- the `defaultdict`
  abbrev pub validated_of : Option String → Validated F → List (Transaction F)
  validated_of key [] = []
  validated_of key ((k, txs) ∷ rest) = if opt_eq k key then txs else validated_of key rest

  abbrev pub append_validated : Option String → Transaction F → Validated F → Validated F
  append_validated key tx [] = (key, tx ∷ []) ∷ []
  append_validated key tx ((k, txs) ∷ rest) =
      if opt_eq k key then (k, txs ++ (tx ∷ [])) ∷ rest else (k, txs) ∷ append_validated key tx rest

  abbrev kept : Option String → Option (Transaction F) → Validated F → Validated F
  kept key none validated = validated
  kept key (some tx) validated = append_validated key tx validated

  -- `ValidationWorker.validate`
  unfoldable pub worker_validate :
      TransactionDict → Validated F → Result (Option (Transaction F) × Validated F)
  worker_validate d validated = do
    key ← asset_key d d.asset
    found ← is_valid_transaction d (validated_of key validated)
    ok (found, kept key found validated)

  abbrev pub conclude :
      ℕ
      → ValidationWorker F
      → Result (Option (Transaction F) × Validated F)
      → ValidationWorker F × List (Answer F)
  conclude i w (err e) = (record w { is_running = false }, [])
  conclude i w (ok r) = (record w { validated_transactions = r.1 }, (i, r.0) ∷ [])

  -- one round of the loop of `ValidationWorker.run`: the worker after it, and what it put in the
  -- results queue; a queue with nothing in it blocks
  abbrev handle : Message → ValidationWorker F → ValidationWorker F × List (Answer F)
  handle reset w = (record w { validated_transactions = [] }, [])
  handle exit w = (record w { is_running = false }, [])
  handle (transaction i d) w = conclude i w (worker_validate d w.validated_transactions)

  abbrev serve : List Message → ValidationWorker F → ValidationWorker F × List (Answer F)
  serve [] w = (w, [])
  serve (m ∷ rest) w = handle m (record w { in_queue = rest })

  unfoldable pub round : ValidationWorker F → ValidationWorker F × List (Answer F)
  unfolding worker_validate
  round w = if w.is_running then serve w.in_queue w else (w, [])

  -- a round of the worker with this number
  abbrev pub advance : ℕ → List (ValidationWorker F) → List (ValidationWorker F)
  advance k [] = []
  advance zero (w ∷ ws) = (round w).0 ∷ ws
  advance (suc k) (w ∷ ws) = w ∷ advance k ws

  abbrev pub answered : ℕ → List (ValidationWorker F) → List (Answer F)
  answered k [] = []
  answered zero (w ∷ ws) = (round w).1
  answered (suc k) (w ∷ ws) = answered k ws

  pub turn : ℕ → ParallelValidator F → ParallelValidator F
  unfolding round
  turn k v = record v {
    workers = advance k v.workers;
    results_queue = v.results_queue ++ answered k v.workers;
  }

module _ {F : Type 0} where
  abbrev pub put : Message → ValidationWorker F → ValidationWorker F
  put m w = record w { in_queue = w.in_queue ++ (m ∷ []) }

  -- `self.routing_queues[index].put(…)`
  abbrev pub put_at : ℕ → Message → List (ValidationWorker F) → List (ValidationWorker F)
  put_at k m [] = []
  put_at zero m (w ∷ ws) = put m w ∷ ws
  put_at (suc k) m (w ∷ ws) = w ∷ put_at k m ws

  -- `n` rounds of the loop of `result`: the buffer, and what is left in the queue
  abbrev pub collect :
      ℕ
      → List (Answer F)
      → List (Option (Transaction F))
      → Result (List (Option (Transaction F)) × List (Answer F))
  collect zero answers buffer = ok (buffer, answers)
  collect (suc n) [] buffer = err queue_empty
  collect (suc n) ((i, t) ∷ answers) buffer =
      set_elem i t buffer >>= λ written. collect n answers written

  -- `[None] * n`
  abbrev pub nones : ℕ → List (Option (Transaction F))
  nones zero = []
  nones (suc n) = none ∷ nones n

  -- `ParallelValidator.result`, where nothing more comes before the timeout
  unfoldable pub result :
      ParallelValidator F → Result (List (Option (Transaction F)) × ParallelValidator F)
  result v = do
    got ← collect v.transaction_index v.results_queue (nones v.transaction_index)
    ok (
      got.0,
      record { transaction_index = 0; workers = map (put reset) v.workers; results_queue = got.1 },
    )

  -- `ParallelValidator.stop`
  pub stop : ParallelValidator F → ParallelValidator F
  stop v = record v { workers = map (put exit) v.workers }

  -- a validator that was just started, with this number of workers
  abbrev fresh_workers : ℕ → List (ValidationWorker F)
  fresh_workers zero = []
  fresh_workers (suc n) =
      record { in_queue = []; validated_transactions = []; is_running = true } ∷ fresh_workers n

  unfoldable pub start : ℕ → ParallelValidator F
  start number_of_workers = record {
    transaction_index = 0;
    workers = fresh_workers number_of_workers;
    results_queue = [];
  }

-- What happens to the validator between two calls of `result`.
pub data Event : Type 0 where
  delivered : TransactionDict → Event
  round_of : ℕ → Event

-- over `is_valid_transaction` of the node and `int(…, 16)` of an id
module _ {F : Type 0}
    (is_valid_transaction : TransactionDict
      → List (Transaction F)
      → Result (Option (Transaction F)))
    (parse_hex : Option String → Result ℕ) where
  abbrev routed : ℕ → ℕ → Result ℕ
  routed n zero = err zero_division_error
  routed n (suc m) = ok (n % suc m)

  -- `int(dict_transaction['id'], 16) % self.number_of_workers`
  unfoldable pub worker_of : TransactionDict → ℕ → Result ℕ
  worker_of d number_of_workers = do n ← parse_hex d.id; routed n number_of_workers

  pub validate : TransactionDict → ParallelValidator F → Result (ParallelValidator F)
  unfolding worker_of
  validate d v = do
    index ← worker_of d (length v.workers)
    ok (record v {
      workers = put_at index (transaction v.transaction_index d) v.workers;
      transaction_index = v.transaction_index + 1;
    })

  pub happens : Event → ParallelValidator F → Result (ParallelValidator F)
  unfolding validate turn
  happens (delivered d) v = validate d v
  happens (round_of k) v = ok (turn is_valid_transaction k v)

  unfoldable pub run : List Event → ParallelValidator F → Result (ParallelValidator F)
  unfolding happens
  run [] v = ok v
  run (e ∷ es) v = happens e v >>= run es
