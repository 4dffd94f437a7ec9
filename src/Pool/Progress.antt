-- ===== src/Pool/Progress.antt =====
-- As long as fewer exceptions than instances were raised, the pool does not come to a standstill.
use planetmint.Base.{
  ℕ, suc, ◌+◌, ◌≤◌, ◌<◌, ◌≡◌, refl, Bool, true, false, some, List, [], ◌∷◌, All, arith, length,
  Option-cases, inl, inr, ◌∙◌,
}
use native.Mathlib.Decide.{dec_lt}
use planetmint.Pool.{
  Shared, Thread, outside, checked, locked, building, waiting, body, Outcome, returns, System, take,
  take_step, advance_at, step, run, fresh_pool,
}
use planetmint.Pool.Accounts.{
  total, inside, builds, holds, waits, advance_at-Moves, IsAccounted, losses,
  run-fresh_pool-IsAccounted,
}

abbrev is_outside : Thread → ℕ
is_outside outside = 1
is_outside _ = 0

abbrev is_checked : Thread → ℕ
is_checked checked = 1
is_checked _ = 0

-- every thread stands somewhere
count_all :
    (ps : List Thread)
    → length ps
      ≡ total is_outside ps
        + total is_checked ps
        + total inside ps
        + total holds ps
        + total waits ps
count_all [] = omega arith
count_all (outside ∷ ps) = omega (arith, count_all ps)
count_all (checked ∷ ps) = omega (arith, count_all ps)
count_all (locked ∷ ps) = omega (arith, count_all ps)
count_all (building ∷ ps) = omega (arith, count_all ps)
count_all (waiting ∷ ps) = omega (arith, count_all ps)
count_all (body i ∷ ps) = omega (arith, count_all ps)

builds-le-inside : (ps : List Thread) → total builds ps ≤ total inside ps
builds-le-inside [] = omega arith
builds-le-inside (outside ∷ ps) = omega (arith, builds-le-inside ps)
builds-le-inside (checked ∷ ps) = omega (arith, builds-le-inside ps)
builds-le-inside (locked ∷ ps) = omega (arith, builds-le-inside ps)
builds-le-inside (building ∷ ps) = omega (arith, builds-le-inside ps)
builds-le-inside (waiting ∷ ps) = omega (arith, builds-le-inside ps)
builds-le-inside (body i ∷ ps) = omega (arith, builds-le-inside ps)

module _ (size : ℕ) (t : Bool) where
  -- Some thread can take a step.
  abbrev pub CanStep : Shared → List Thread → Type 0
  CanStep m ps = (k : ℕ) × (r : Shared × List Thread) × (advance_at size t k returns m ps ≡ some r)

  abbrev Ready : Shared → Thread → Type 0
  Ready m p = (r : Shared × Thread) × (take_step size t returns m p ≡ some r)

  CanStep-tail : (m : Shared) (p : Thread) (ps : List Thread) → CanStep m ps → CanStep m (p ∷ ps)
  unfolding advance_at
  CanStep-tail m p ps (k, r, e) = (suc k, (r.0, p ∷ r.1), rw e refl)

  -- if a thread of one kind can always step, it is enough that there is one
  Ready-CanStep :
      (w : Thread → ℕ) (m : Shared)
      → ((p : Thread) → 0 < w p → Ready m p)
      → (ps : List Thread) → 0 < total w ps
      → CanStep m ps
  unfolding advance_at
  Ready-CanStep w m ready [] h = absurd (omega arith)
  Ready-CanStep w m ready (p ∷ ps) h = elim (dec_lt 0 (w p)) [
    | yes some_here ↦ let (r, e) = ready p some_here in (0, (r.0, r.1 ∷ ps), rw e refl)
    | no none_here ↦ CanStep-tail m p ps (Ready-CanStep w m ready ps (omega arith))
  ]

  outside-Ready : (m : Shared) (p : Thread) → 0 < is_outside p → Ready m p
  unfolding take_step
  outside-Ready m outside h = (_, refl)
  outside-Ready m _ h = absurd (omega arith)

  inside-Ready : (m : Shared) (p : Thread) → 0 < inside p → Ready m p
  unfolding take_step
  inside-Ready m locked h = (_, refl)
  inside-Ready m building h = (_, refl)
  inside-Ready m _ h = absurd (omega arith)

  holds-Ready : (m : Shared) (p : Thread) → 0 < holds p → Ready m p
  unfolding take_step
  holds-Ready m (body i) h = (_, refl)
  holds-Ready m _ h = absurd (omega arith)

  checked-Ready : (m : Shared) → m.is_locked ≡ false → (p : Thread) → 0 < is_checked p → Ready m p
  unfolding take_step
  checked-Ready m free checked h = ((record m { is_locked = true }, locked), rw free refl)
  checked-Ready m free _ h = absurd (omega arith)

  take-some :
      (m : Shared) (queue : List ℕ)
      → 0 < length queue
      → (r : Shared × Thread) × (take size t returns m queue ≡ some r)
  take-some m [] h = absurd (omega arith)
  take-some m (i ∷ rest) h = (_, refl)

  waits-Ready : (m : Shared) → 0 < length m.local_pool → (p : Thread) → 0 < waits p → Ready m p
  unfolding take_step
  waits-Ready m filled waiting h = take-some m m.local_pool filled
  waits-Ready m filled _ h = absurd (omega arith)

  IsAccounted-CanStep :
      (lost : ℕ) (m : Shared) (ps : List Thread)
      → IsAccounted size t lost (record { shared = m; threads = ps })
      → lost < size
      → 0 < length ps
      → CanStep m ps
  IsAccounted-CanStep lost m ps a few some_thread = elim (dec_lt 0 (total is_outside ps)) [
    | yes h ↦ Ready-CanStep is_outside m (outside-Ready m) ps h
    | no no_outside ↦ elim (dec_lt 0 (total inside ps)) [
      | yes h ↦ Ready-CanStep inside m (inside-Ready m) ps h
      | no no_inside ↦ elim (dec_lt 0 (total holds ps)) [
        | yes h ↦ Ready-CanStep holds m (holds-Ready m) ps h
        | no no_holds ↦ elim (dec_lt 0 (total is_checked ps)) [
          | yes h ↦ Ready-CanStep is_checked m (checked-Ready m (ground arith)) ps h
          | no no_checked ↦
              let all_wait : 0 < total waits ps = omega (arith, count_all ps) in
              Ready-CanStep waits m
                (waits-Ready m (omega (arith, a.accounted, a.full all_wait, builds-le-inside ps)))
                ps all_wait
        ]
      ]
    ]
  ]

length-total : (ps : List Thread) → length ps ≡ total (λ _. 1) ps
length-total [] = refl
length-total (p ∷ ps) = omega (arith, length-total ps)

module _ (size : ℕ) (t : Bool) where
  length-step :
      (k : ℕ) (o : Outcome) (s : System) → length (step size t (k, o) s).threads ≡ length s.threads
  unfolding step
  length-step k o s = elim (Option-cases (advance_at size t k o s.shared s.threads)) [
    | inl e ↦ rw e refl
    | inr (r, e) ↦
        let v = advance_at-Moves size t k o s.shared s.threads e in
        rw e (omega (arith, v.balance (λ _. 1), length-total r.1, length-total s.threads))
  ]

  length-run :
      (cs : List (ℕ × Outcome)) (s : System) → length (run size t cs s).threads ≡ length s.threads
  unfolding run
  length-run [] s = refl
  length-run ((k, o) ∷ cs) s = length-run cs (step size t (k, o) s) ∙ length-step k o s

-- As long as fewer exceptions than the size of the pool have left the builder and the bodies, some
-- thread of the pool can take a step, in whatever state the steps of the threads have brought a
-- fresh pool.
pub run-progresses :
    (size : ℕ) (t : Bool) (threads : List Thread) (cs : List (ℕ × Outcome))
    → All (λ p. p ≡ outside) threads
    → 0 < length threads
    → losses size t cs (fresh_pool size t threads) < size
    → CanStep size t
        (run size t cs (fresh_pool size t threads)).shared
        (run size t cs (fresh_pool size t threads)).threads
run-progresses size t threads cs h some_thread few =
    IsAccounted-CanStep size t _ _ _ (run-fresh_pool-IsAccounted size t threads cs h) few
      (omega (arith, length-run size t cs (fresh_pool size t threads)))
