-- ===== src/Pool/Exclusive.antt =====
-- Who uses an instance, and when nobody can any more.
use planetmint.Base.{
  ℕ, zero, suc, ◌+◌, ◌≤◌, ◌≡◌, ◌≢◌, refl, subst, ap, Bool, some, List, [], ◌∷◌, ◌++◌, All, arith,
  if◌then◌else◌, eqb, ltb, get_elem?, Option-cases, inl, inr,
}
use native.Mathlib.Decide.{ℕ_discrete}
use planetmint.Pool.{
  Shared, Thread, outside, checked, locked, building, waiting, body, Outcome, returns, raises,
  System, take, take_step, advance_at, step, run, fresh_pool,
}
use planetmint.Pool.Accounts.{
  total, total-outside, holds, advance_at-Moves, losses, run-fresh_pool-IsAccounted,
}

abbrev count : ℕ → List ℕ → ℕ
count i [] = 0
count i (j ∷ js) = (if eqb i j then 1 else 0) + count i js

count-append : (i : ℕ) (js ks : List ℕ) → count i (js ++ ks) ≡ count i js + count i ks
count-append i [] ks = omega arith
count-append i (j ∷ js) ks = omega (arith, count-append i js ks)

abbrev has : ℕ → Thread → ℕ
has i (body j) = if eqb i j then 1 else 0
has i _ = 0

-- The instance is at most once in the pool or in the hands of a thread, and nowhere before it is built.
abbrev Once : ℕ → System → Type 0
Once i s =
    count i s.shared.local_pool + total (has i) s.threads ≤ (if ltb i s.shared.built then 1 else 0)

module _ (size : ℕ) (t : Bool) (i : ℕ) where
  taken-Once :
      (o : Outcome) (m : Shared) (queue : List ℕ)
      → m.local_pool ≡ queue
      → (q : Thread) (ps ps' : List Thread) (m' : Shared) → take size t o m queue ≡ some (m', q)
      → total (has i) ps' + has i waiting ≡ total (has i) ps + has i q
      → Once i (record { shared = m; threads = ps })
      → Once i (record { shared = m'; threads = ps' })
  taken-Once o m (j ∷ rest) e q ps ps' m' went balance h = ground arith
  taken-Once returns m [] e q ps ps' m' went balance h = cc
  taken-Once raises m [] e q ps ps' m' went balance h = ground arith

  take_step-Once :
      (o : Outcome) (m : Shared) (p q : Thread) (ps ps' : List Thread) (m' : Shared)
      → take_step size t o m p ≡ some (m', q)
      → total (has i) ps' + has i p ≡ total (has i) ps + has i q
      → Once i (record { shared = m; threads = ps })
      → Once i (record { shared = m'; threads = ps' })
  unfolding take_step
  take_step-Once o m outside q ps ps' m' went balance h = ground arith
  take_step-Once o m checked q ps ps' m' went balance h = ground arith
  take_step-Once o m locked q ps ps' m' went balance h = ground arith
  take_step-Once returns m building q ps ps' m' went balance h = ground arith
  take_step-Once raises m building q ps ps' m' went balance h = ground arith
  take_step-Once o m waiting q ps ps' m' went balance h =
      taken-Once o m m.local_pool refl q ps ps' m' went balance h
  take_step-Once returns m (body j) q ps ps' m' went balance h =
      ground (arith, count-append i m.local_pool (j ∷ []))
  take_step-Once raises m (body j) q ps ps' m' went balance h = ground arith

  step-Once : (k : ℕ) (o : Outcome) (s : System) → Once i s → Once i (step size t (k, o) s)
  unfolding step
  step-Once k o s h = elim (Option-cases (advance_at size t k o s.shared s.threads)) [
    | inl e ↦ rw e h
    | inr (r, e) ↦
        let v = advance_at-Moves size t k o s.shared s.threads e in
        rw e
          (take_step-Once o s.shared v.before v.next s.threads r.1 r.0 v.went (v.balance (has i)) h)
  ]

  run-Once : (cs : List (ℕ × Outcome)) (s : System) → Once i s → Once i (run size t cs s)
  unfolding run
  run-Once [] s h = h
  run-Once ((k, o) ∷ cs) s h = run-Once cs (step size t (k, o) s) (step-Once k o s h)

le-total :
    (w : Thread → ℕ) (ps : List Thread) (k : ℕ) {p : Thread}
    → get_elem? ps k ≡ some p
    → w p ≤ total w ps
le-total w [] k h = cc
le-total w (q ∷ ps) zero {p} h =
    let e : q ≡ p = cc in subst (λ r. w r ≤ w q + total w ps) e (omega arith)
le-total w (q ∷ ps) (suc k) h = omega (arith, le-total w ps k h)

two-le-total :
    (w : Thread → ℕ) (ps : List Thread) (j k : ℕ) {p q : Thread}
    → get_elem? ps j ≡ some p
    → get_elem? ps k ≡ some q
    → j ≢ k
    → w p + w q ≤ total w ps
two-le-total w [] j k h g ne = cc
two-le-total w (r ∷ ps) zero zero h g ne = absurd (ne refl)
two-le-total w (r ∷ ps) zero (suc k) {p} {q} h g ne =
    let e : r ≡ p = cc in
    subst (λ x. w x + w q ≤ w r + total w ps) e (omega (arith, le-total w ps k g))
two-le-total w (r ∷ ps) (suc j) zero {p} {q} h g ne =
    let e : r ≡ q = cc in
    subst (λ x. w p + w x ≤ w r + total w ps) e (omega (arith, le-total w ps j h))
two-le-total w (r ∷ ps) (suc j) (suc k) h g ne =
    omega (arith, two-le-total w ps j k h g (λ same. ne (ap suc same)))

not_twice :
    (s : System) (j k i : ℕ)
    → Once i s
    → get_elem? s.threads j ≡ some (body i)
    → get_elem? s.threads k ≡ some (body i)
    → j ≢ k
    → ⊥
not_twice s j k i once a b differ = ground (arith, two-le-total (has i) s.threads j k a b differ)

-- Whatever the steps of the threads on a fresh pool are, and whatever raises, two threads that are
-- in the bodies of their with statements with the same instance are the same thread.
pub run-exclusive :
    (size : ℕ) (t : Bool) (threads : List Thread) (cs : List (ℕ × Outcome)) (i j k : ℕ)
    → All (λ p. p ≡ outside) threads
    → get_elem? (run size t cs (fresh_pool size t threads)).threads j ≡ some (body i)
    → get_elem? (run size t cs (fresh_pool size t threads)).threads k ≡ some (body i)
    → j ≡ k
run-exclusive size t threads cs i j k h a b = elim (ℕ_discrete j k) [
  | yes same ↦ same
  | no differ ↦ absurd (
      not_twice (run size t cs (fresh_pool size t threads)) j k i
        (run-Once size t i cs (fresh_pool size t threads)
          (omega (arith, total-outside (has i) threads refl h)))
        a b differ)
]

-- If as many exceptions as the size of the pool have left the builder and the bodies, no thread is
-- in the body of its with statement, whatever steps the threads have taken.
pub run-exhausted :
    (size : ℕ) (t : Bool) (threads : List Thread) (cs : List (ℕ × Outcome))
    → All (λ p. p ≡ outside) threads
    → size ≤ losses size t cs (fresh_pool size t threads)
    → (k i : ℕ) → get_elem? (run size t cs (fresh_pool size t threads)).threads k ≢ some (body i)
run-exhausted size t threads cs h all_lost k i stands =
    let a = run-fresh_pool-IsAccounted size t threads cs h in
    absurd (omega (arith, a.bounded, a.accounted, le-total holds _ k stands))
