-- ===== src/Parallel/Schedule.antt =====
-- What the workers still owe: a round moves an answer from there to the results queue.
use planetmint.Base.{
  ℕ, zero, suc, ◌≡◌, refl, sym, subst, ◌⊎◌, inl, inr, ◌↔◌, Bool, true, false, Option, List, [], ◌∷◌,
  ◌++◌, if◌then◌else◌, Any, Any-append_iff,
}
use planetmint.Errors.{Result, ok, err}
use planetmint.Transaction.Model.{Transaction, TransactionDict}
use planetmint.Parallel.{
  Message, transaction, reset, exit, Validated, Answer, ValidationWorker, ParallelValidator,
  worker_validate, conclude, serve, round, advance, answered, turn,
}

-- the answer is in the list
abbrev pub In : {F : Type 0} → Answer F → List (Answer F) → Type 0
In a answers = Any (λ b. b ≡ a) answers

-- the answer of a validation, and what comes after it; an exception ends the worker
abbrev pub answer_then :
    {F : Type 0}
    → ℕ
    → Result (Option (Transaction F) × Validated F)
    → (Validated F → List (Answer F))
    → List (Answer F)
answer_then i (err e) next = []
answer_then i (ok r) next = (i, r.0) ∷ next r.1

module _ {F : Type 0}
    (is_valid : TransactionDict → List (Transaction F) → Result (Option (Transaction F))) where
  -- what a worker answers to these messages if it gets enough turns
  unfoldable pub outputs : List Message → Validated F → List (Answer F)
  outputs [] validated = []
  outputs (reset ∷ ms) validated = outputs ms []
  outputs (exit ∷ ms) validated = []
  outputs (transaction i d ∷ ms) validated =
      answer_then i (worker_validate is_valid d validated) (λ after. outputs ms after)

  unfoldable pub due : ValidationWorker F → List (Answer F)
  unfolding outputs
  due w = if w.is_running then outputs w.in_queue w.validated_transactions else []

  due-conclude :
      (i : ℕ) (rest : List Message) (w : ValidationWorker F)
      (r : Result (Option (Transaction F) × Validated F))
      → w.is_running ≡ true
      → w.in_queue ≡ rest
      → answer_then i r (λ after. outputs rest after)
        ≡ (conclude is_valid i w r).1 ++ due (conclude is_valid i w r).0
  unfolding due
  due-conclude i rest w (err e) runs q = refl
  due-conclude i rest w (ok r) runs q = rw (runs, q) refl

  due-serve :
      (ms : List Message) (w : ValidationWorker F)
      → w.is_running ≡ true
      → w.in_queue ≡ ms
      → outputs ms w.validated_transactions ≡ (serve is_valid ms w).1 ++ due (serve is_valid ms w).0
  unfolding due
  due-serve [] w runs q = rw (runs, q) refl
  due-serve (reset ∷ rest) w runs q = rw runs refl
  due-serve (exit ∷ rest) w runs q = refl
  due-serve (transaction i d ∷ rest) w runs q =
      due-conclude i rest (record w { in_queue = rest })
        (worker_validate is_valid d w.validated_transactions) runs refl

  due-turn :
      (b : Bool) (ms : List Message) (w : ValidationWorker F)
      → w.is_running ≡ b
      → w.in_queue ≡ ms
      → (if b then outputs ms w.validated_transactions else [])
        ≡ (if b then serve is_valid ms w else (w, [])).1
          ++ due (if b then serve is_valid ms w else (w, [])).0
  unfolding due
  due-turn true ms w runs q = due-serve ms w runs q
  due-turn false ms w runs q = rw runs refl

  pub due-round :
      (w : ValidationWorker F) → due w ≡ (round is_valid w).1 ++ due (round is_valid w).0
  unfolding due round
  due-round w = due-turn w.is_running w.in_queue w refl refl

  -- some worker owes the answer
  abbrev pub Owed : Answer F → List (ValidationWorker F) → Type 0
  Owed a workers = Any (λ w. In a (due w)) workers

  Owed-advance_iff :
      (a : Answer F) (k : ℕ) (ws : List (ValidationWorker F))
      → Owed a ws ↔ (In a (answered is_valid k ws) ⊎ Owed a (advance is_valid k ws))
  Owed-advance_iff a k [] = (λ h. absurd h, λ h. elim h [ inl e ↦ e | inr e ↦ e ])
  Owed-advance_iff a zero (w ∷ ws) =
      let split = Any-append_iff (λ b. b ≡ a) (round is_valid w).1 (due (round is_valid w).0) in
      (
        λ h. elim h [
          | inl e ↦ elim (split.0 (subst (In a) (due-round w) e)) [
            | inl now ↦ inl now
            | inr later ↦ inr (inl later)
          ]
          | inr e ↦ inr (inr e)
        ],
        λ h. elim h [
          | inl now ↦ inl (subst (In a) (sym (due-round w)) (split.1 (inl now)))
          | inr e ↦ elim e [
            | inl later ↦ inl (subst (In a) (sym (due-round w)) (split.1 (inr later)))
            | inr other ↦ inr other
          ]
        ],
      )
  Owed-advance_iff a (suc k) (w ∷ ws) = (
    λ h. elim h [
      | inl e ↦ inr (inl e)
      | inr e ↦ elim ((Owed-advance_iff a k ws).0 e) [
        | inl now ↦ inl now
        | inr later ↦ inr (inr later)
      ]
    ],
    λ h. elim h [
      | inl now ↦ inr ((Owed-advance_iff a k ws).1 (inl now))
      | inr e ↦ elim e [
        | inl own ↦ inl own
        | inr later ↦ inr ((Owed-advance_iff a k ws).1 (inr later))
      ]
    ],
  )

  -- the answer is given or owed
  unfoldable pub Answers : Answer F → ParallelValidator F → Type 0
  Answers a v = In a v.results_queue ⊎ Owed a v.workers

  pub Answers-turn_iff :
      (a : Answer F) (k : ℕ) (v : ParallelValidator F) → Answers a (turn is_valid k v) ↔ Answers a v
  unfolding Answers turn
  Answers-turn_iff a k v =
      let given = Any-append_iff (λ b. b ≡ a) v.results_queue (answered is_valid k v.workers) in
      let owed = Owed-advance_iff a k v.workers in
      (
        λ h. elim h [
          | inl e ↦ elim (given.0 e) [ inl old ↦ inl old | inr now ↦ inr (owed.1 (inl now)) ]
          | inr later ↦ inr (owed.1 (inr later))
        ],
        λ h. elim h [
          | inl old ↦ inl (given.1 (inl old))
          | inr e ↦ elim (owed.0 e) [ inl now ↦ inl (given.1 (inr now)) | inr later ↦ inr later ]
        ],
      )
