-- ===== src/Tests/Pools.antt =====
-- A pool of two instances and three threads.
use planetmint.Base.{ℕ, zero, suc, ◌≡◌, ◌≢◌, refl, arith, false, some, List, [], ◌∷◌, get_elem?}
use planetmint.Pool.{Thread, outside, waiting, body, Outcome, returns, raises, run, fresh_pool}
use planetmint.Pool.Accounts.{losses}
use planetmint.Pool.Exclusive.{run-exclusive, run-exhausted}
use planetmint.Pool.Progress.{CanStep, run-progresses}

abbrev three : List Thread
three = outside ∷ outside ∷ outside ∷ []

-- so many steps of one thread, all of which return
abbrev steps : ℕ → ℕ → List (ℕ × Outcome) → List (ℕ × Outcome)
steps zero k rest = rest
steps (suc n) k rest = (k, returns) ∷ steps n k rest

-- two threads build an instance each, the third waits
abbrev contended : List (ℕ × Outcome)
contended = steps 4 0 (steps 4 1 (steps 2 2 []))

-- and then the bodies of both raise
abbrev broken : List (ℕ × Outcome)
broken = steps 4 0 (steps 4 1 ((0, raises) ∷ (1, raises) ∷ []))

run-contended : run 2 false contended (fresh_pool 2 false three) ≡ record {
  shared = record { current_size = 2; is_locked = false; local_pool = []; built = 2 };
  threads = body 0 ∷ body 1 ∷ waiting ∷ [];
}
unfolding run
run-contended = refl

-- the waiting thread gets what the first one gives back
abbrev handed_over : List (ℕ × Outcome)
handed_over = steps 4 0 (steps 4 1 (steps 2 2 (steps 1 0 (steps 1 2 []))))

run-handed_over :
    (run 2 false handed_over (fresh_pool 2 false three)).threads ≡ outside ∷ body 1 ∷ body 0 ∷ []
unfolding run
run-handed_over = refl

run-exclusive_example : ◌≡◌ {A = ℕ} 1 1
unfolding run
run-exclusive_example =
    run-exclusive 2 false three contended 1 1 1 (refl, (refl, (refl, tt))) refl refl

run-exhausted_example :
    get_elem? (run 2 false broken (fresh_pool 2 false three)).threads 2 ≢ some (body 0)
unfolding run losses
run-exhausted_example =
    run-exhausted 2 false three broken (refl, (refl, (refl, tt))) (omega arith) 2 0

run-progresses_example :
    CanStep 2 false
      (run 2 false contended (fresh_pool 2 false three)).shared
      (run 2 false contended (fresh_pool 2 false three)).threads
unfolding losses
run-progresses_example =
    run-progresses 2 false three contended (refl, (refl, (refl, tt))) (omega arith) (omega arith)
