-- ===== src/Parallel/Results.antt =====
-- What `result` returns at the end of a block, and the order of the workers' rounds.
use planetmint.Base.{
  ℕ, zero, suc, ◌+◌, ◌≤◌, ◌≡◌, refl, sym, ap, subst, ◌∙◌, ◌⊎◌, inl, inr, true, String, Option, List,
  [], ◌∷◌, length, get_elem?, All, arith,
}
use planetmint.Errors.{Result, ok, >>=-eq-ok, ok-injective}
use planetmint.Transaction.Model.{Transaction, TransactionDict}
use planetmint.Parallel.{
  Message, reset, exit, Answer, ParallelValidator, ValidationWorker, collect, nones, Event,
  delivered, round_of, run, validate, worker_of, turn, result,
}
use planetmint.Parallel.Agreement.{deliveries, IsAtRest, Eventually, run-answers_iff}
use planetmint.Parallel.Indices.{count, queued, queued_all, IsConserved}
use planetmint.Parallel.Conserved.{run-IsConserved}
use planetmint.Parallel.Buffer.{
  is_index, total-is_index, total-one, get_elem?-ext, collect-get, length-collect, last_answer,
  last_answer-same,
}

-- No worker has stopped.
abbrev pub IsRunning : {F : Type 0} → ParallelValidator F → Type 0
IsRunning v = All (λ w. w.is_running ≡ true) v.workers

-- Between two blocks: nothing was delivered and nothing is answered; the queues hold no more than
-- what `result` and `stop` put there.
abbrev pub IsFresh : {F : Type 0} → ParallelValidator F → Type 0
IsFresh v =
    (v.transaction_index ≡ 0)
    × (v.results_queue ≡ [])
    × All (λ w. All (λ m. (m ≡ reset) ⊎ (m ≡ exit)) w.in_queue) v.workers

control-queued :
    (f : ℕ → ℕ) (ms : List Message) → All (λ m. (m ≡ reset) ⊎ (m ≡ exit)) ms → queued f ms ≡ 0
control-queued f [] h = refl
control-queued f (m ∷ ms) h = elim h.0 [
  | inl e ↦ rw e (control-queued f ms h.1)
  | inr e ↦ rw e (control-queued f ms h.1)
]

pub length-nones : (F : Type 0) (n : ℕ) → length (nones {F = F} n) ≡ n
length-nones F zero = refl
length-nones F (suc n) = ap suc (length-nones F n)

module _ {F : Type 0} where
  control-queued_all :
      (f : ℕ → ℕ) (ws : List (ValidationWorker F))
      → All (λ w. All (λ m. (m ≡ reset) ⊎ (m ≡ exit)) w.in_queue) ws
      → queued_all f ws ≡ 0
  control-queued_all f [] h = refl
  control-queued_all f (w ∷ ws) h =
      omega (arith, control-queued f w.in_queue h.0, control-queued_all f ws h.1)

  pub IsFresh-IsConserved : (f : ℕ → ℕ) (v : ParallelValidator F) → IsFresh v → IsConserved f v
  unfolding IsConserved
  IsFresh-IsConserved f v h = (0, rw (h.0, h.1, control-queued_all f v.workers h.2) refl, inl refl)

  pub count-one : (answers : List (Answer F)) → count (λ i. 1) answers ≡ length answers
  count-one [] = refl
  count-one (a ∷ answers) = omega (arith, count-one answers)

  -- Each index is answered once at most, and there are no more answers than deliveries.
  pub answered_once :
      (v : ParallelValidator F) (j : ℕ)
      → IsConserved (is_index j) v
      → count (is_index j) v.results_queue ≤ 1
  unfolding IsConserved
  answered_once v j c = ground (arith, c.1, total-is_index j v.transaction_index)

  pub answers-le :
      (v : ParallelValidator F)
      → IsConserved (λ i. 1) v
      → length v.results_queue ≤ v.transaction_index
  unfolding IsConserved
  answers-le v c = omega (arith, c.1, count-one v.results_queue, total-one v.transaction_index)

  pub result-collect :
      (v : ParallelValidator F) {b : List (Option (Transaction F))} {next : ParallelValidator F}
      → result v ≡ ok (b, next)
      → (rest : List (Answer F)) × (collect v.transaction_index v.results_queue
            (nones v.transaction_index)
          ≡ ok (b, rest))
  unfolding result
  result-collect v h =
      let got =
        >>=-eq-ok (collect v.transaction_index v.results_queue (nones v.transaction_index)) _ h in
      (got.0.1, got.1 ∙ ap (λ l. ok (l, got.0.1)) (ap (λ r. r.0) (ok-injective got.2)))

  module _ (is_valid : TransactionDict → List (Transaction F) → Result (Option (Transaction F)))
      (parse_hex : Option String → Result ℕ) where
    turn-index :
        (k : ℕ) (v : ParallelValidator F)
        → (turn is_valid k v).transaction_index ≡ v.transaction_index
    unfolding turn
    turn-index k v = refl

    validate-index :
        (d : TransactionDict) (v : ParallelValidator F) {w : ParallelValidator F}
        → validate is_valid parse_hex d v ≡ ok w
        → w.transaction_index ≡ v.transaction_index + 1
    unfolding validate
    validate-index d v h =
        let sent = >>=-eq-ok (worker_of is_valid parse_hex d (length v.workers)) _ h in
        sym (ap (λ u. u.transaction_index) (ok-injective sent.2))

    pub run-index :
        (es : List Event) (v : ParallelValidator F) {w : ParallelValidator F}
        → run is_valid parse_hex es v ≡ ok w
        → w.transaction_index ≡ v.transaction_index + length (deliveries es)
    unfolding run
    run-index [] v h = omega (arith, ap (λ u. u.transaction_index) (ok-injective h))
    run-index (delivered d ∷ es) v h =
        let sent = >>=-eq-ok (validate is_valid parse_hex d v) (run is_valid parse_hex es) h in
        omega (arith, run-index es sent.0 sent.2, validate-index d v sent.1)
    run-index (round_of k ∷ es) v h =
        omega (arith, run-index es (turn is_valid k v) h, turn-index k v)

    -- If two runs of the parallel validator start at the same state between two blocks and deliver
    -- the same transactions in the same order, and in each all workers have come to rest and result
    -- returns, then result returns the same buffer, however the rounds of the workers interleaved
    -- with each other and with the deliveries.
    pub interleavings_agree :
        (before : ParallelValidator F) (es fs : List Event) {v w : ParallelValidator F}
        {b c : List (Option (Transaction F))} {v' w' : ParallelValidator F}
        → IsFresh before
        → run is_valid parse_hex es before ≡ ok v
        → run is_valid parse_hex fs before ≡ ok w
        → deliveries es ≡ deliveries fs
        → IsAtRest v
        → IsAtRest w
        → result v ≡ ok (b, v')
        → result w ≡ ok (c, w')
        → b ≡ c
    interleavings_agree before es fs {v} {w} {b} {c} fresh left right same vr wr vb wc =
        let kept = λ (f : ℕ → ℕ). IsFresh-IsConserved f before fresh in
        let vc = λ (f : ℕ → ℕ). run-IsConserved is_valid parse_hex f es before left (kept f) in
        let wc' = λ (f : ℕ → ℕ). run-IsConserved is_valid parse_hex f fs before right (kept f) in
        let n : v.transaction_index ≡ w.transaction_index =
          run-index es before left
          ∙ ap (λ l. before.transaction_index + length l) same
          ∙ sym (run-index fs before right) in
        let p = result-collect v vb in
        let q = result-collect w wc in
        get_elem?-ext b c
          (length-collect _ v.results_queue _ p.1
            ∙ ap (λ m. length (nones {F = F} m)) n
            ∙ sym (length-collect _ w.results_queue _ q.1))
          (λ j.
            collect-get v.transaction_index j v.results_queue _ (answers-le v (vc (λ i. 1))) p.1
            ∙ last_answer-same j v.results_queue w.results_queue _
                (answered_once v j (vc (is_index j))) (answered_once w j (wc' (is_index j)))
                (λ t. (
                  λ h. (run-answers_iff is_valid parse_hex (j, t) fs before right wr).0 (
                      subst (λ ds. Eventually is_valid parse_hex (j, t) ds before) same
                        ((run-answers_iff is_valid parse_hex (j, t) es before left vr).1 h)),
                  λ h. (run-answers_iff is_valid parse_hex (j, t) es before left vr).0 (
                      subst (λ ds. Eventually is_valid parse_hex (j, t) ds before) (sym same)
                        ((run-answers_iff is_valid parse_hex (j, t) fs before right wr).1 h)),
                ))
            ∙ ap (λ m. last_answer j w.results_queue (get_elem? (nones m) j)) n
            ∙ sym (
                collect-get w.transaction_index j w.results_queue _ (answers-le w (wc' (λ i. 1)))
                  q.1))
