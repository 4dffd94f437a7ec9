-- ===== src/Parallel/Apart.antt =====
-- Two transactions that fall to different workers.
use planetmint.Base.{
  ℕ, zero, suc, ◌+◌, ◌≤◌, ◌<◌, ◌≡◌, ◌≢◌, refl, sym, ap, subst, ◌∙◌, inl, inr, Bool, true, false,
  String, Option, some, List, [], ◌∷◌, ◌++◌, length, get_elem?, if◌then◌else◌, arith,
}
use planetmint.Errors.{Result, ok, err}
use planetmint.Transaction.Model.{Transaction, TransactionDict}
use planetmint.Parallel.{
  Message, transaction, reset, exit, Validated, Answer, ParallelValidator, ValidationWorker, put_at,
  fresh_workers, start, worker_validate, worker_of, validate, Event, run, result,
}
use planetmint.Parallel.Schedule.{answer_then, outputs, due, In, Owed, Answers}
use planetmint.Parallel.Agreement.{deliveries, IsAtRest, Eventually, ThenHolds, run-answers_iff}
use planetmint.Parallel.Indices.{count}
use planetmint.Parallel.Conserved.{start-IsConserved, run-IsConserved, worker_of_lt}
use planetmint.Parallel.Buffer.{
  is_index, collect-get, length-collect, last_answer, last_answer-cases, In-unique, In-count,
}
use planetmint.Parallel.Results.{answered_once, answers-le, length-nones, result-collect, run-index}

length-fresh_workers : (F : Type 0) (n : ℕ) → length (fresh_workers {F = F} n) ≡ n
length-fresh_workers F zero = refl
length-fresh_workers F (suc n) = ap suc (length-fresh_workers F n)

In-answer_then :
    {F : Type 0} (a : Answer F) (i : ℕ) (r : Result (Option (Transaction F) × Validated F))
    (f g : Validated F → List (Answer F))
    → ((after : Validated F) → In a (f after) → In a (g after))
    → In a (answer_then i r f)
    → In a (answer_then i r g)
In-answer_then a i (err e) f g sub h = h
In-answer_then a i (ok r) f g sub h = elim h [ inl e ↦ inl e | inr e ↦ inr (sub r.1 e) ]

module _ {F : Type 0} where
  length-put_at :
      (k : ℕ) (m : Message) (ws : List (ValidationWorker F)) → length (put_at k m ws) ≡ length ws
  length-put_at k m [] = refl
  length-put_at zero m (w ∷ ws) = refl
  length-put_at (suc k) m (w ∷ ws) = ap suc (length-put_at k m ws)

  put_at-swap :
      (i j : ℕ) (m p : Message) (ws : List (ValidationWorker F))
      → i ≢ j
      → put_at i m (put_at j p ws) ≡ put_at j p (put_at i m ws)
  put_at-swap i j m p [] h = refl
  put_at-swap zero zero m p (w ∷ ws) h = absurd (h refl)
  put_at-swap zero (suc j) m p (w ∷ ws) h = refl
  put_at-swap (suc i) zero m p (w ∷ ws) h = refl
  put_at-swap (suc i) (suc j) m p (w ∷ ws) h =
      ap (λ l. w ∷ l) (put_at-swap i j m p ws (λ e. h (ap suc e)))

  get-answer :
      (j : ℕ) (t : Option (Transaction F)) (answers : List (Answer F))
      (found : Option (Option (Transaction F)))
      → count (is_index j) answers ≤ 1
      → In (j, t) answers
      → last_answer j answers found ≡ some t
  get-answer j t answers found h e = elim (last_answer-cases j answers found h) [
    | inl r ↦ absurd (omega (arith, r.0, In-count j t answers e))
    | inr r ↦ r.2 ∙ ap some (In-unique j r.0 t answers h r.1 e)
  ]

  pair_of :
      (b : List (Option (Transaction F))) (s t : Option (Transaction F))
      → length b ≡ 2
      → get_elem? b 0 ≡ some s
      → get_elem? b 1 ≡ some t
      → b ≡ s ∷ t ∷ []
  pair_of [] s t n p q = absurd (omega arith)
  pair_of (x ∷ []) s t n p q = absurd (omega arith)
  pair_of (x ∷ y ∷ []) s t n p q = cc (p, q)
  pair_of (x ∷ y ∷ z ∷ b) s t n p q = absurd (omega arith)

  module _
      (is_valid : TransactionDict → List (Transaction F) → Result (Option (Transaction F))) where
    -- Later messages take no answer away.
    In-outputs :
        (a : Answer F) (ms ns : List Message) (validated : Validated F)
        → In a (outputs is_valid ms validated)
        → In a (outputs is_valid (ms ++ ns) validated)
    unfolding outputs
    In-outputs a [] ns validated h = absurd h
    In-outputs a (reset ∷ ms) ns validated h = In-outputs a ms ns [] h
    In-outputs a (exit ∷ ms) ns validated h = h
    In-outputs a (transaction i d ∷ ms) ns validated h =
        In-answer_then a i (worker_validate is_valid d validated)
          (λ after. outputs is_valid ms after) (λ after. outputs is_valid (ms ++ ns) after)
          (λ after. In-outputs a ms ns after) h

    In-branch :
        (a : Answer F) (b : Bool) (m : Message) (ms : List Message) (validated : Validated F)
        → In a (if b then outputs is_valid ms validated else [])
        → In a (if b then outputs is_valid (ms ++ (m ∷ [])) validated else [])
    In-branch a true m ms validated h = In-outputs a ms (m ∷ []) validated h
    In-branch a false m ms validated h = h

    Owed-put_at :
        (a : Answer F) (k : ℕ) (m : Message) (ws : List (ValidationWorker F))
        → Owed is_valid a ws
        → Owed is_valid a (put_at k m ws)
    unfolding due
    Owed-put_at a k m [] h = h
    Owed-put_at a zero m (w ∷ ws) h = elim h [
      | inl e ↦ inl (In-branch a w.is_running m w.in_queue w.validated_transactions e)
      | inr e ↦ inr e
    ]
    Owed-put_at a (suc k) m (w ∷ ws) h = elim h [
      | inl e ↦ inl e
      | inr e ↦ inr (Owed-put_at a k m ws e)
    ]

    Owed-fresh :
        (d : TransactionDict) (i k n : ℕ) {r : Option (Transaction F) × Validated F}
        → k < n
        → worker_validate is_valid d [] ≡ ok r
        → Owed is_valid (i, r.0) (put_at k (transaction i d) (fresh_workers n))
    unfolding due
    Owed-fresh d i k zero h e = absurd (omega arith)
    Owed-fresh d i zero (suc n) {r} h e = inl (
        subst (λ x. In (i, r.0) (answer_then i x (λ after. outputs is_valid [] after))) (sym e)
          (inl refl))
    Owed-fresh d i (suc k) (suc n) h e = inr (Owed-fresh d i k n (omega arith) e)

    module _ (parse_hex : Option String → Result ℕ) where
      sent_to :
          (d : TransactionDict) (v : ParallelValidator F) {k : ℕ}
          → worker_of is_valid parse_hex d (length v.workers) ≡ ok k
          → validate is_valid parse_hex d v
            ≡ ok (record v {
              workers = put_at k (transaction v.transaction_index d) v.workers;
              transaction_index = v.transaction_index + 1;
            })
      unfolding validate
      sent_to d v h = rw h refl

      -- the validator after one delivery, and after both
      abbrev first : ℕ → ℕ → TransactionDict → ParallelValidator F
      first n i d = record {
        transaction_index = 1;
        workers = put_at i (transaction 0 d) (fresh_workers n);
        results_queue = [];
      }

      Eventually-both :
          (n : ℕ) (d e : TransactionDict) (i j : ℕ) (a : Answer F)
          → worker_of is_valid parse_hex d n ≡ ok i
          → worker_of is_valid parse_hex e n ≡ ok j
          → Owed is_valid a
              (put_at j (transaction 1 e) (put_at i (transaction 0 d) (fresh_workers n)))
          → Eventually is_valid parse_hex a (d ∷ e ∷ []) (start n)
      unfolding Eventually start Answers
      Eventually-both n d e i j a di ej owed =
          let one =
            sent_to d (start n)
              (ap (worker_of is_valid parse_hex d) (length-fresh_workers F n) ∙ di) in
          let two = sent_to e (first n i d) (
            ap (worker_of is_valid parse_hex e)
              (length-put_at i (transaction 0 d) (fresh_workers n) ∙ length-fresh_workers F n)
            ∙ ej) in
          subst (ThenHolds is_valid parse_hex (λ x. Eventually is_valid parse_hex a (e ∷ []) x))
            (sym one)
            (subst (ThenHolds is_valid parse_hex (λ x. Answers is_valid a x)) (sym two) (inr owed))

      answers_both :
          (n : ℕ) (d e : TransactionDict) (i j : ℕ) (s t : Option (Transaction F))
          {left right : Validated F}
          → worker_of is_valid parse_hex d n ≡ ok i
          → worker_of is_valid parse_hex e n ≡ ok j
          → i ≢ j
          → worker_validate is_valid d [] ≡ ok (s, left)
          → worker_validate is_valid e [] ≡ ok (t, right)
          → Eventually is_valid parse_hex (0, s) (d ∷ e ∷ []) (start n)
            × Eventually is_valid parse_hex (1, t) (d ∷ e ∷ []) (start n)
      answers_both n d e i j s t di ej apart ds et =
          let p = transaction 0 d in
          let q = transaction 1 e in
          (
            Eventually-both n d e i j (0, s) di ej
                (Owed-put_at (0, s) j q (put_at i p (fresh_workers n))
                  (Owed-fresh d 0 i n (worker_of_lt is_valid parse_hex d n di) ds)),
            Eventually-both n d e i j (1, t) di ej
                (subst (Owed is_valid (1, t)) (put_at-swap i j p q (fresh_workers n) apart) (
                  Owed-put_at (1, t) i p (put_at j q (fresh_workers n))
                    (Owed-fresh e 1 j n (worker_of_lt is_valid parse_hex e n ej) et))),
          )

      index_two :
          (n : ℕ) {d e : TransactionDict} (es : List Event) {v : ParallelValidator F}
          → deliveries es ≡ d ∷ e ∷ []
          → run is_valid parse_hex es (start n) ≡ ok v
          → v.transaction_index ≡ 2
      unfolding start
      index_two n es both ran =
          omega (arith, run-index is_valid parse_hex es (start n) ran, ap length both)

      -- If a block of two transactions is delivered to a validator that was just started, the two
      -- ids fall to different workers, and each transaction alone is answered s and t, then at rest
      -- result returns s and t: neither is validated against the other, whatever the order of the
      -- rounds.
      pub apart-accepted :
          (n : ℕ) (d e : TransactionDict) (i j : ℕ) (s t : Option (Transaction F))
          {left right : Validated F} (es : List Event) {v next : ParallelValidator F}
          {b : List (Option (Transaction F))}
          → worker_of is_valid parse_hex d n ≡ ok i
          → worker_of is_valid parse_hex e n ≡ ok j
          → i ≢ j
          → worker_validate is_valid d [] ≡ ok (s, left)
          → worker_validate is_valid e [] ≡ ok (t, right)
          → run is_valid parse_hex es (start n) ≡ ok v
          → deliveries es ≡ d ∷ e ∷ []
          → IsAtRest v
          → result v ≡ ok (b, next)
          → b ≡ s ∷ t ∷ []
      apart-accepted n d e i j s t es {v} {next} {b} di ej apart ds et ran both rest got =
          let kept = λ (f : ℕ → ℕ).
            run-IsConserved is_valid parse_hex f es (start n) ran (start-IsConserved F f n) in
          let owed = answers_both n d e i j s t di ej apart ds et in
          let given = λ (a : Answer F) (h : Eventually is_valid parse_hex a (d ∷ e ∷ []) (start n)).
            (run-answers_iff is_valid parse_hex a es (start n) ran rest).0
              (subst (λ l. Eventually is_valid parse_hex a l (start n)) (sym both) h) in
          let two : v.transaction_index ≡ 2 = index_two n es both ran in
          let out = result-collect v got in
          let at = λ (k : ℕ).
            collect-get v.transaction_index k v.results_queue _ (answers-le v (kept (λ x. 1)))
              out.1 in
          let once = λ (k : ℕ). answered_once v k (kept (is_index k)) in
          pair_of b s t
            (length-collect _ v.results_queue _ out.1 ∙ length-nones F v.transaction_index ∙ two)
            (at 0 ∙ get-answer 0 s v.results_queue _ (once 0) (given (0, s) owed.0))
            (at 1 ∙ get-answer 1 t v.results_queue _ (once 1) (given (1, t) owed.1))
