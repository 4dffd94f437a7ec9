-- ===== src/Parallel/Conserved.antt =====
-- The counts along a run of the validator.
use native.Mathlib.Nat.{mod-lt}
use planetmint.Base.{
  ℕ, zero, suc, ◌+◌, ◌<◌, ◌≡◌, refl, subst, inl, inr, String, Option, List, [], ◌∷◌, length, arith,
}
use planetmint.Errors.{Result, ok, >>=-eq-ok, ok-injective}
use planetmint.Transaction.Model.{Transaction, TransactionDict}
use planetmint.Parallel.{
  transaction, ParallelValidator, turn, validate, worker_of, routed, Event, delivered, round_of,
  run, start, answered, fresh_workers,
}
use planetmint.Parallel.Indices.{
  count-append, queued_all, total, queued_all-put_at, SomeStopped-put_at, SomeStopped-advance,
  advance-queued_all, IsConserved,
}

total_next : (f : ℕ → ℕ) (n : ℕ) → total f (n + 1) ≡ total f n + f n
total_next f n = let e : n + 1 ≡ suc n = omega arith in rw e refl

fresh-queued_all : (F : Type 0) (f : ℕ → ℕ) (n : ℕ) → queued_all f (fresh_workers {F = F} n) ≡ 0
fresh-queued_all F f zero = refl
fresh-queued_all F f (suc n) = omega (arith, fresh-queued_all F f n)

pub start-IsConserved : (F : Type 0) (f : ℕ → ℕ) (n : ℕ) → IsConserved f (start {F = F} n)
unfolding IsConserved start
start-IsConserved F f n = (0, omega (arith, fresh-queued_all F f n), inl refl)

module _ {F : Type 0}
    (is_valid : TransactionDict → List (Transaction F) → Result (Option (Transaction F))) where
  turn-IsConserved :
      (f : ℕ → ℕ) (k : ℕ) (v : ParallelValidator F)
      → IsConserved f v
      → IsConserved f (turn is_valid k v)
  unfolding IsConserved turn
  turn-IsConserved f k v c =
      let r = advance-queued_all is_valid f k v.workers in
      (
        c.0 + r.0,
        omega (arith, c.1, r.1, count-append f v.results_queue (answered is_valid k v.workers)),
        elim c.2 [
          | inl kept ↦ elim r.2 [ inl e ↦ inl (omega arith) | inr stopped ↦ inr stopped ]
          | inr stopped ↦ inr (SomeStopped-advance is_valid k v.workers stopped)
        ],
      )

  module _ (parse_hex : Option String → Result ℕ) where
    routed_lt : (n m : ℕ) {k : ℕ} → routed is_valid parse_hex n m ≡ ok k → k < m
    routed_lt n zero h = cc
    routed_lt n (suc m) h = subst (λ k. k < suc m) (ok-injective h) (mod-lt n (omega arith))

    pub worker_of_lt :
        (d : TransactionDict) (m : ℕ) {k : ℕ} → worker_of is_valid parse_hex d m ≡ ok k → k < m
    unfolding worker_of
    worker_of_lt d m h =
        let read = >>=-eq-ok (parse_hex d.id) (λ n. routed is_valid parse_hex n m) h in
        routed_lt read.0 m read.2

    validate-IsConserved :
        (f : ℕ → ℕ) (d : TransactionDict) (v : ParallelValidator F) {w : ParallelValidator F}
        → validate is_valid parse_hex d v ≡ ok w
        → IsConserved f v
        → IsConserved f w
    unfolding IsConserved validate
    validate-IsConserved f d v h c =
        let routes = >>=-eq-ok (worker_of is_valid parse_hex d (length v.workers)) _ h in
        let m = transaction v.transaction_index d in
        subst (IsConserved f) (ok-injective routes.2) (
          c.0,
          omega (
            arith,
            c.1,
            total_next f v.transaction_index,
            queued_all-put_at f routes.0 v.transaction_index d v.workers
                (worker_of_lt d (length v.workers) routes.1),
          ),
          elim c.2 [
            | inl e ↦ inl e
            | inr stopped ↦ inr (SomeStopped-put_at routes.0 m v.workers stopped)
          ],
        )

    pub run-IsConserved :
        (f : ℕ → ℕ) (es : List Event) (v : ParallelValidator F) {w : ParallelValidator F}
        → run is_valid parse_hex es v ≡ ok w
        → IsConserved f v
        → IsConserved f w
    unfolding run
    run-IsConserved f [] v h c = subst (IsConserved f) (ok-injective h) c
    run-IsConserved f (delivered d ∷ es) v h c =
        let sent = >>=-eq-ok (validate is_valid parse_hex d v) (run is_valid parse_hex es) h in
        run-IsConserved f es sent.0 sent.2 (validate-IsConserved f d v sent.1 c)
    run-IsConserved f (round_of k ∷ es) v h c =
        run-IsConserved f es (turn is_valid k v) h (turn-IsConserved f k v c)
