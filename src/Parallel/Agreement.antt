-- ===== src/Parallel/Agreement.antt =====
-- The answers of a run, and the order of the workers' rounds.
use planetmint.Base.{
  ℕ, zero, suc, ◌+◌, ◌≡◌, refl, sym, ap, subst, ◌⊎◌, inl, inr, ◌↔◌, Bool, true, false, String,
  Option, List, [], ◌∷◌, append-nil, length, All, arith,
}
use planetmint.Errors.{Result, ok, err, ◌>>=◌, >>=-eq-ok, ok-injective}
use planetmint.Transaction.Model.{Transaction, TransactionDict}
use planetmint.Parallel.{
  Message, transaction, reset, exit, Validated, Answer, ValidationWorker, ParallelValidator,
  worker_validate, conclude, round, advance, answered, turn, put, put_at, validate, worker_of,
  Event, delivered, round_of, run,
}
use planetmint.Parallel.Schedule.{due, In, Owed, Answers, Answers-turn_iff}

-- the transactions that are delivered, in order
abbrev pub deliveries : List Event → List TransactionDict
deliveries [] = []
deliveries (delivered d ∷ es) = d ∷ deliveries es
deliveries (round_of k ∷ es) = deliveries es

-- No worker has anything left to do.
abbrev pub IsAtRest : {F : Type 0} → ParallelValidator F → Type 0
IsAtRest v = All (λ w. (w.in_queue ≡ []) ⊎ (w.is_running ≡ false)) v.workers

module _ {F : Type 0}
    (is_valid : TransactionDict → List (Transaction F) → Result (Option (Transaction F))) where
  conclude-put :
      (i : ℕ) (m : Message) (w : ValidationWorker F)
      (r : Result (Option (Transaction F) × Validated F))
      → conclude is_valid i (put m w) r
        ≡ (put m (conclude is_valid i w r).0, (conclude is_valid i w r).1)
  conclude-put i m w (err e) = refl
  conclude-put i m w (ok r) = refl

  -- A worker that does nothing in its round, or that does the same if its queue gets longer.
  round-put :
      (b : Bool) (ms : List Message) (m : Message) (w : ValidationWorker F)
      → w.is_running ≡ b
      → w.in_queue ≡ ms
      → (round is_valid w ≡ (w, []))
        ⊎ (round is_valid (put m w) ≡ (put m (round is_valid w).0, (round is_valid w).1))
  unfolding round
  round-put false ms m w runs q = inl (rw runs refl)
  round-put true [] m w runs q = inl (rw (runs, q) refl)
  round-put true (reset ∷ rest) m w runs q = inr (rw (runs, q) refl)
  round-put true (exit ∷ rest) m w runs q = inr (rw (runs, q) refl)
  round-put true (transaction i d ∷ rest) m w runs q = inr (
      rw (runs, q)
        (conclude-put i m (record w { in_queue = rest; is_running = true })
          (worker_validate is_valid d w.validated_transactions)))

  advance-put_at :
      (k j : ℕ) (m : Message) (ws : List (ValidationWorker F))
      → ((advance is_valid k ws ≡ ws) × (answered is_valid k ws ≡ []))
        ⊎ ((advance is_valid k (put_at j m ws) ≡ put_at j m (advance is_valid k ws))
            × (answered is_valid k (put_at j m ws) ≡ answered is_valid k ws))
  advance-put_at k j m [] = inl (refl, refl)
  advance-put_at zero zero m (w ∷ ws) = elim (round-put w.is_running w.in_queue m w refl refl) [
    | inl idle ↦ inl (ap (λ r. r.0 ∷ ws) idle, ap (λ r. r.1) idle)
    | inr same ↦ inr (ap (λ r. r.0 ∷ ws) same, ap (λ r. r.1) same)
  ]
  advance-put_at zero (suc j) m (w ∷ ws) = inr (refl, refl)
  advance-put_at (suc k) zero m (w ∷ ws) = inr (refl, refl)
  advance-put_at (suc k) (suc j) m (w ∷ ws) = elim (advance-put_at k j m ws) [
    | inl idle ↦ inl (ap (λ l. w ∷ l) idle.0, idle.1)
    | inr same ↦ inr (ap (λ l. w ∷ l) same.0, same.1)
  ]

  pub length-advance :
      (k : ℕ) (ws : List (ValidationWorker F)) → length (advance is_valid k ws) ≡ length ws
  length-advance k [] = refl
  length-advance zero (w ∷ ws) = refl
  length-advance (suc k) (w ∷ ws) = ap suc (length-advance k ws)

  module _ (parse_hex : Option String → Result ℕ) where
    -- a delivery, where the number of the worker is computed
    abbrev send : TransactionDict → ParallelValidator F → Result ℕ → Result (ParallelValidator F)
    send d v r = r >>= λ index. ok (record v {
      workers = put_at index (transaction v.transaction_index d) v.workers;
      transaction_index = v.transaction_index + 1;
    })

    send-turn :
        (d : TransactionDict) (k : ℕ) (v : ParallelValidator F) (r : Result ℕ)
        → (turn is_valid k v ≡ v)
          ⊎ (send d (turn is_valid k v) r ≡ (send d v r >>= λ next. ok (turn is_valid k next)))
    unfolding turn
    send-turn d k v (err e) = inr refl
    send-turn d k v (ok index) =
        elim (advance-put_at k index (transaction v.transaction_index d) v.workers) [
          | inl idle ↦ inl (rw (idle.0, idle.1, append-nil v.results_queue) refl)
          | inr same ↦ inr (rw (same.0, same.1) refl)
        ]

    validate-turn :
        (d : TransactionDict) (k : ℕ) (v : ParallelValidator F)
        → (turn is_valid k v ≡ v)
          ⊎ (validate is_valid parse_hex d (turn is_valid k v)
              ≡ (validate is_valid parse_hex d v >>= λ next. ok (turn is_valid k next)))
    unfolding validate turn
    validate-turn d k v =
        rw (length-advance k v.workers)
          (send-turn d k v (worker_of is_valid parse_hex d (length v.workers)))

    -- the call returns, and then this holds
    abbrev pub ThenHolds : (ParallelValidator F → Type 0) → Result (ParallelValidator F) → Type 0
    ThenHolds P (err e) = ⊥
    ThenHolds P (ok next) = P next

    -- The answer is given once these are delivered and every worker has had its turns.
    unfoldable pub Eventually : Answer F → List TransactionDict → ParallelValidator F → Type 0
    Eventually a [] v = Answers is_valid a v
    Eventually a (d ∷ ds) v =
        ThenHolds (λ next. Eventually a ds next) (validate is_valid parse_hex d v)

    after-turn :
        (k : ℕ) (P : ParallelValidator F → Type 0) (r : Result (ParallelValidator F))
        → ((next : ParallelValidator F) → P (turn is_valid k next) ↔ P next)
        → ThenHolds P (r >>= λ next. ok (turn is_valid k next)) ↔ ThenHolds P r
    after-turn k P (err e) same = (λ h. h, λ h. h)
    after-turn k P (ok next) same = same next

    Eventually-turn_iff :
        (a : Answer F) (ds : List TransactionDict) (k : ℕ) (v : ParallelValidator F)
        → Eventually a ds (turn is_valid k v) ↔ Eventually a ds v
    unfolding Eventually
    Eventually-turn_iff a [] k v = Answers-turn_iff is_valid a k v
    Eventually-turn_iff a (d ∷ ds) k v = elim (validate-turn d k v) [
      | inl idle ↦ (
        λ h. subst (Eventually a (d ∷ ds)) idle h,
        λ h. subst (Eventually a (d ∷ ds)) (sym idle) h,
      )
      | inr later ↦
          let same =
            after-turn k (Eventually a ds) (validate is_valid parse_hex d v)
              (λ next. Eventually-turn_iff a ds k next) in
          (
            λ h. same.0 (subst (ThenHolds (Eventually a ds)) later h),
            λ h. subst (ThenHolds (Eventually a ds)) (sym later) (same.1 h),
          )
    ]

    Eventually-run_iff :
        (a : Answer F) (es : List Event) (v : ParallelValidator F) {w : ParallelValidator F}
        → run is_valid parse_hex es v ≡ ok w
        → Eventually a (deliveries es) v ↔ Answers is_valid a w
    unfolding Eventually run
    Eventually-run_iff a [] v h = (
      subst (Answers is_valid a) (ok-injective h),
      subst (Answers is_valid a) (sym (ok-injective h)),
    )
    Eventually-run_iff a (delivered d ∷ es) v h =
        let sent = >>=-eq-ok (validate is_valid parse_hex d v) (run is_valid parse_hex es) h in
        let rest = Eventually-run_iff a es sent.0 sent.2 in
        (
          λ e. rest.0 (subst (ThenHolds (Eventually a (deliveries es))) sent.1 e),
          λ e. subst (ThenHolds (Eventually a (deliveries es))) (sym sent.1) (rest.1 e),
        )
    Eventually-run_iff a (round_of k ∷ es) v h =
        let rest = Eventually-run_iff a es (turn is_valid k v) h in
        let same = Eventually-turn_iff a (deliveries es) k v in
        (λ e. rest.0 (same.1 e), λ e. same.0 (rest.1 e))

    due-rest :
        (w : ValidationWorker F) → (w.in_queue ≡ []) ⊎ (w.is_running ≡ false) → due is_valid w ≡ []
    unfolding due
    due-rest w rest = elim rest [ inl empty ↦ ground arith | inr stopped ↦ ground arith ]

    none-Owed :
        (a : Answer F) (ws : List (ValidationWorker F))
        → All (λ w. (w.in_queue ≡ []) ⊎ (w.is_running ≡ false)) ws
        → Owed is_valid a ws
        → ⊥
    none-Owed a [] rest h = h
    none-Owed a (w ∷ ws) rest h = elim h [
      | inl own ↦ subst (In a) (due-rest w rest.0) own
      | inr other ↦ none-Owed a ws rest.1 other
    ]

    pub run-answers_iff :
        (a : Answer F) (es : List Event) (v : ParallelValidator F) {w : ParallelValidator F}
        → run is_valid parse_hex es v ≡ ok w
        → IsAtRest w
        → Eventually a (deliveries es) v ↔ In a w.results_queue
    unfolding Answers
    run-answers_iff a es v {w} h rest =
        let same = Eventually-run_iff a es v h in
        (
          λ e. elim (same.0 e) [
            | inl given ↦ given
            | inr owed ↦ absurd (none-Owed a w.workers rest owed)
          ],
          λ given. same.1 (inl given),
        )
