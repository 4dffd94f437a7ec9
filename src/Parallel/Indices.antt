-- ===== src/Parallel/Indices.antt =====
-- Counts of the answers, of the transactions in the queues, and of those lost with a worker that stops.
use planetmint.Base.{
  ℕ, zero, suc, ◌+◌, ◌<◌, ◌≡◌, refl, ◌⊎◌, inl, inr, Bool, true, false, Option, List, [], ◌∷◌, ◌++◌,
  length, if◌then◌else◌, Any, arith,
}
use planetmint.Errors.{Result, ok, err}
use planetmint.Transaction.Model.{Transaction, TransactionDict}
use planetmint.Parallel.{
  Message, transaction, reset, exit, Validated, Answer, ValidationWorker, ParallelValidator,
  worker_validate, conclude, serve, round, advance, answered, put_at,
}

module _ {F : Type 0} where
  -- the answers, where one for index `j` counts as `f j`
  abbrev pub count : (ℕ → ℕ) → List (Answer F) → ℕ
  count f [] = 0
  count f (a ∷ answers) = f a.0 + count f answers

  pub count-append :
      (f : ℕ → ℕ) (as' bs : List (Answer F)) → count f (as' ++ bs) ≡ count f as' + count f bs
  count-append f [] bs = omega arith
  count-append f (a ∷ as') bs = omega (arith, count-append f as' bs)

-- the same of the transactions in a queue
abbrev pub queued : (ℕ → ℕ) → List Message → ℕ
queued f [] = 0
queued f (transaction j d ∷ ms) = f j + queued f ms
queued f (m ∷ ms) = queued f ms

queued-append : (f : ℕ → ℕ) (ms ns : List Message) → queued f (ms ++ ns) ≡ queued f ms + queued f ns
queued-append f [] ns = omega arith
queued-append f (transaction j d ∷ ms) ns = omega (arith, queued-append f ms ns)
queued-append f (reset ∷ ms) ns = queued-append f ms ns
queued-append f (exit ∷ ms) ns = queued-append f ms ns

-- the indices below `n`
abbrev pub total : (ℕ → ℕ) → ℕ → ℕ
total f zero = 0
total f (suc n) = total f n + f n

module _ {F : Type 0} where
  abbrev pub queued_all : (ℕ → ℕ) → List (ValidationWorker F) → ℕ
  queued_all f [] = 0
  queued_all f (w ∷ ws) = queued f w.in_queue + queued_all f ws

  abbrev pub SomeStopped : List (ValidationWorker F) → Type 0
  SomeStopped ws = Any (λ w. w.is_running ≡ false) ws

  pub queued_all-put_at :
      (f : ℕ → ℕ) (k j : ℕ) (d : TransactionDict) (ws : List (ValidationWorker F))
      → k < length ws
      → queued_all f (put_at k (transaction j d) ws) ≡ queued_all f ws + f j
  queued_all-put_at f k j d [] h = absurd (omega arith)
  queued_all-put_at f zero j d (w ∷ ws) h =
      omega (arith, queued-append f w.in_queue (transaction j d ∷ []))
  queued_all-put_at f (suc k) j d (w ∷ ws) h =
      omega (arith, queued_all-put_at f k j d ws (omega arith))

  pub SomeStopped-put_at :
      (k : ℕ) (m : Message) (ws : List (ValidationWorker F))
      → SomeStopped ws
      → SomeStopped (put_at k m ws)
  SomeStopped-put_at k m [] h = h
  SomeStopped-put_at zero m (w ∷ ws) h = elim h [ inl e ↦ inl e | inr e ↦ inr e ]
  SomeStopped-put_at (suc k) m (w ∷ ws) h = elim h [
    | inl e ↦ inl e
    | inr e ↦ inr (SomeStopped-put_at k m ws e)
  ]

  module _
      (is_valid : TransactionDict → List (Transaction F) → Result (Option (Transaction F))) where
    -- What a round puts in the results queue, leaves, and loses if the worker stops.
    abbrev Round : (ℕ → ℕ) → ValidationWorker F → ValidationWorker F × List (Answer F) → Type 0
    Round f w r =
        (lost : ℕ) × (count f r.1 + queued f r.0.in_queue + lost ≡ queued f w.in_queue)
        × ((lost ≡ 0) ⊎ (r.0.is_running ≡ false))

    conclude-Round :
        (f : ℕ → ℕ) (j : ℕ) (d : TransactionDict) (rest : List Message) (w : ValidationWorker F)
        (r : Result (Option (Transaction F) × Validated F))
        → w.in_queue ≡ transaction j d ∷ rest
        → Round f w (conclude is_valid j (record w { in_queue = rest }) r)
    conclude-Round f j d rest w (err e) q = (f j, rw q (omega arith), inr refl)
    conclude-Round f j d rest w (ok r) q = (0, rw q (omega arith), inl refl)

    serve-Round :
        (f : ℕ → ℕ) (ms : List Message) (w : ValidationWorker F)
        → w.in_queue ≡ ms
        → Round f w (serve is_valid ms w)
    serve-Round f [] w q = (0, omega arith, inl refl)
    serve-Round f (reset ∷ rest) w q = (0, rw q (omega arith), inl refl)
    serve-Round f (exit ∷ rest) w q = (0, rw q (omega arith), inr refl)
    serve-Round f (transaction j d ∷ rest) w q =
        conclude-Round f j d rest w (worker_validate is_valid d w.validated_transactions) q

    branch-Round :
        (f : ℕ → ℕ) (b : Bool) (w : ValidationWorker F)
        → Round f w (if b then serve is_valid w.in_queue w else (w, []))
    branch-Round f true w = serve-Round f w.in_queue w refl
    branch-Round f false w = (0, omega arith, inl refl)

    round-Round : (f : ℕ → ℕ) (w : ValidationWorker F) → Round f w (round is_valid w)
    unfolding round
    round-Round f w = branch-Round f w.is_running w

    round_stopped :
        (w : ValidationWorker F) → w.is_running ≡ false → (round is_valid w).0.is_running ≡ false
    unfolding round
    round_stopped w stopped = rw stopped refl

    pub SomeStopped-advance :
        (k : ℕ) (ws : List (ValidationWorker F))
        → SomeStopped ws
        → SomeStopped (advance is_valid k ws)
    SomeStopped-advance k [] h = h
    SomeStopped-advance zero (w ∷ ws) h = elim h [ inl e ↦ inl (round_stopped w e) | inr e ↦ inr e ]
    SomeStopped-advance (suc k) (w ∷ ws) h = elim h [
      | inl e ↦ inl e
      | inr e ↦ inr (SomeStopped-advance k ws e)
    ]

    pub advance-queued_all :
        (f : ℕ → ℕ) (k : ℕ) (ws : List (ValidationWorker F))
        → (lost : ℕ) × (count f (answered is_valid k ws)
              + queued_all f (advance is_valid k ws)
              + lost
            ≡ queued_all f ws)
          × ((lost ≡ 0) ⊎ SomeStopped (advance is_valid k ws))
    advance-queued_all f k [] = (0, omega arith, inl refl)
    advance-queued_all f zero (w ∷ ws) =
        let r = round-Round f w in
        (r.0, omega (arith, r.1), elim r.2 [ inl e ↦ inl e | inr e ↦ inr (inl e) ])
    advance-queued_all f (suc k) (w ∷ ws) =
        let r = advance-queued_all f k ws in
        (r.0, omega (arith, r.1), elim r.2 [ inl e ↦ inl e | inr e ↦ inr (inr e) ])

  -- Every delivery is answered, queued, or lost with a worker that stopped.
  unfoldable pub IsConserved : (ℕ → ℕ) → ParallelValidator F → Type 0
  IsConserved f v =
      (lost : ℕ) × (count f v.results_queue + queued_all f v.workers + lost
        ≡ total f v.transaction_index)
      × ((lost ≡ 0) ⊎ SomeStopped v.workers)
