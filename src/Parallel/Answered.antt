-- ===== src/Parallel/Answered.antt =====
-- A block during which no worker stops.
use planetmint.Base.{
  ℕ, zero, suc, ◌≤◌, ◌<◌, ◌≡◌, refl, sym, ap, subst, ◌∙◌, ◌⊎◌, inl, inr, true, false, String,
  Option, List, [], ◌∷◌, length, map, ltb, ltb→lt, All, Bool-cases, arith,
}
use planetmint.Errors.{Result, ok, >>=-eq-ok, ok-injective}
use planetmint.Transaction.Model.{Transaction, TransactionDict}
use planetmint.Parallel.{
  reset, exit, Answer, ParallelValidator, ValidationWorker, set_elem, collect, nones, Event, run,
  result, put,
}
use planetmint.Parallel.Agreement.{deliveries, IsAtRest}
use planetmint.Parallel.Indices.{count, queued, queued_all, total, SomeStopped, IsConserved}
use planetmint.Parallel.Conserved.{run-IsConserved}
use planetmint.Parallel.Buffer.{
  is_index, is_index_self, total-is_index, total-one, collect-returns, length-collect,
}
use planetmint.Parallel.Results.{
  IsRunning, IsFresh, IsFresh-IsConserved, count-one, length-nones, run-index,
}

module _ {F : Type 0} where
  none_stopped :
      (ws : List (ValidationWorker F)) → All (λ w. w.is_running ≡ true) ws → SomeStopped ws → ⊥
  none_stopped [] r h = h
  none_stopped (w ∷ ws) r h = elim h [ inl e ↦ ground arith | inr e ↦ none_stopped ws r.1 e ]

  empty_queues :
      (ws : List (ValidationWorker F))
      → All (λ w. w.is_running ≡ true) ws
      → All (λ w. (w.in_queue ≡ []) ⊎ (w.is_running ≡ false)) ws
      → All (λ w. w.in_queue ≡ []) ws
  empty_queues [] r h = tt
  empty_queues (w ∷ ws) r h =
      (elim h.0 [ inl e ↦ e | inr e ↦ ground arith ], empty_queues ws r.1 h.1)

  empty-queued_all :
      (f : ℕ → ℕ) (ws : List (ValidationWorker F))
      → All (λ w. w.in_queue ≡ []) ws
      → queued_all f ws ≡ 0
  empty-queued_all f [] h = refl
  empty-queued_all f (w ∷ ws) h = omega (arith, ap (queued f) h.0, empty-queued_all f ws h.1)

  -- Nothing is lost: the answers make up the total.
  all_counted :
      (f : ℕ → ℕ) (v : ParallelValidator F)
      → IsConserved f v
      → IsAtRest v
      → IsRunning v
      → count f v.results_queue ≡ total f v.transaction_index
  unfolding IsConserved
  all_counted f v c rest running =
      let none_left = empty-queued_all f v.workers (empty_queues v.workers running rest) in
      elim c.2 [
        | inl kept ↦ omega (arith, c.1, none_left)
        | inr stopped ↦ absurd (none_stopped v.workers running stopped)
      ]

  in_bounds :
      (n : ℕ) (answers : List (Answer F))
      → ((j : ℕ) → n ≤ j → count (is_index j) answers ≡ 0)
      → All (λ a. a.0 < n) answers
  in_bounds n [] h = tt
  in_bounds n (a ∷ answers) h = (
    elim (Bool-cases (ltb a.0 n)) [
      | inl e ↦ ltb→lt a.0 n e
      | inr e ↦
          let le : n ≤ a.0 = ground arith in absurd (omega (arith, h a.0 le, is_index_self a.0))
    ],
    in_bounds n answers (λ j le. omega (arith, h j le)),
  )

  reset_queues :
      (ws : List (ValidationWorker F))
      → All (λ w. w.in_queue ≡ []) ws
      → All (λ w. All (λ m. (m ≡ reset) ⊎ (m ≡ exit)) w.in_queue) (map (put reset) ws)
  reset_queues [] h = tt
  reset_queues (w ∷ ws) h = (rw h.0 (inl refl, tt), reset_queues ws h.1)

  nothing_left :
      (n : ℕ) (answers : List (Answer F)) (buffer : List (Option (Transaction F)))
      {b : List (Option (Transaction F))} {rest : List (Answer F)}
      → length answers ≡ n
      → collect n answers buffer ≡ ok (b, rest)
      → rest ≡ []
  nothing_left zero [] buffer n h = sym (ap (λ r. r.1) (ok-injective h))
  nothing_left zero (a ∷ answers) buffer n h = absurd (omega arith)
  nothing_left (suc n) [] buffer e h = cc
  nothing_left (suc n) ((i, t) ∷ answers) buffer e h =
      let one = >>=-eq-ok (set_elem i t buffer) _ h in
      nothing_left n answers one.0 (omega arith) one.2

  -- If a run of the parallel validator starts between two blocks and comes to rest with no worker
  -- stopped, then result does not time out: it returns a buffer with one place for each transaction
  -- delivered, and leaves the validator as it is between two blocks.
  pub block_answered :
      (is_valid : TransactionDict → List (Transaction F) → Result (Option (Transaction F)))
      (parse_hex : Option String → Result ℕ) (before : ParallelValidator F) (es : List Event)
      {v : ParallelValidator F}
      → IsFresh before
      → run is_valid parse_hex es before ≡ ok v
      → IsAtRest v
      → IsRunning v
      → (b : List (Option (Transaction F))) × (next : ParallelValidator F) × (result v
          ≡ ok (b, next))
        × (length b ≡ length (deliveries es))
        × IsFresh next
  unfolding result
  block_answered is_valid parse_hex before es {v} fresh ran rest running =
      let counted = λ (f : ℕ → ℕ).
        all_counted f v
          (run-IsConserved is_valid parse_hex f es before ran (IsFresh-IsConserved f before fresh))
          rest running in
      let n = v.transaction_index in
      let enough : n ≤ length v.results_queue =
        omega (arith, counted (λ i. 1), count-one v.results_queue, total-one n) in
      let got = collect-returns n v.results_queue (nones n) enough (
        subst (λ m. All (λ a. a.0 < m) v.results_queue) (sym (length-nones F n))
          (in_bounds n v.results_queue
            (λ j le. counted (is_index j) ∙ ground (arith, le, total-is_index j n)))) in
      (
        got.0.0,
        record {
          transaction_index = 0;
          workers = map (put reset) v.workers;
          results_queue = got.0.1;
        },
        rw got.1 refl,
        length-collect n v.results_queue (nones n) got.1
            ∙ length-nones F n
            ∙ run-index is_valid parse_hex es before ran
            ∙ omega (arith, fresh.0),
        (
          refl,
          nothing_left n v.results_queue (nones n)
              (omega (arith, counted (λ i. 1), count-one v.results_queue, total-one n)) got.1,
          reset_queues v.workers (empty_queues v.workers running rest),
        ),
      )
