-- ===== src/Pool/Accounts.antt =====
-- What the pool keeps count of: its instances, the lock, and the places that exceptions have cost.
use planetmint.Base.{
  ℕ, zero, suc, ◌+◌, ◌≤◌, ◌<◌, ◌≡◌, refl, Bool, true, false, Option, none, some, List, [], ◌∷◌, All,
  ap, subst, arith, if◌then◌else◌, get_elem?, length, length-append, Option-cases, inl, inr,
}
use planetmint.Pool.{
  Shared, Thread, outside, checked, locked, building, waiting, body, Outcome, returns, raises,
  System, take_step, advance_at, step, run, fresh_pool, moved, carried, take,
}

-- how many threads, each counted by its place
abbrev pub total : (Thread → ℕ) → List Thread → ℕ
total w [] = 0
total w (p ∷ ps) = w p + total w ps

abbrev pub inside : Thread → ℕ
inside locked = 1
inside building = 1
inside _ = 0

abbrev pub builds : Thread → ℕ
builds building = 1
builds _ = 0

abbrev pub holds : Thread → ℕ
holds (body i) = 1
holds _ = 0

abbrev pub waits : Thread → ℕ
waits waiting = 1
waits _ = 0

abbrev pub is_outside : Thread → Bool
is_outside outside = true
is_outside _ = false

abbrev raised : Outcome → ℕ
raised returns = 0
raised raises = 1

-- An exception in the builder or in the body.
abbrev pub loss : Outcome → Thread → ℕ
loss o building = raised o
loss o (body i) = raised o
loss o _ = 0

abbrev pub loss_at : Outcome → Option Thread → ℕ
loss_at o none = 0
loss_at o (some p) = loss o p

-- One thread moves, and the others stay.
pub record Moves (size : ℕ) (t : Bool) (k : ℕ) (o : Outcome) (m : Shared) (ps : List Thread)
    (m' : Shared) (ps' : List Thread) : Type 0 where
  pub before : Thread
  pub next : Thread
  pub stood : get_elem? ps k ≡ some before
  pub went : take_step size t o m before ≡ some (m', next)
  pub balance : (w : Thread → ℕ) → total w ps' + w before ≡ total w ps + w next
  pub among : (w : Thread → ℕ) → w before ≤ total w ps

module _ (size : ℕ) (t : Bool) where
  here :
      (o : Outcome) (m : Shared) (p : Thread) (ps : List Thread) (r : Option (Shared × Thread))
      {m' : Shared} {ps' : List Thread}
      → take_step size t o m p ≡ r
      → moved size t ps r ≡ some (m', ps')
      → Moves size t 0 o m (p ∷ ps) m' ps'
  here o m p ps none e h = cc
  here o m p ps (some (n, q)) {ps' = ps'} e h = record {
    before = p;
    next = q;
    stood = refl;
    went = cc;
    balance = λ w. rw (← h_threads) (omega arith);
    among = λ w. omega arith;
  }
    where
      h_threads : q ∷ ps ≡ ps'
      h_threads = cc

  there :
      (k : ℕ) (o : Outcome) (m : Shared) (p : Thread) (ps : List Thread)
      (r : Option (Shared × List Thread)) {m' : Shared} {ps' : List Thread}
      → ((m'' : Shared) (qs : List Thread) → r ≡ some (m'', qs) → Moves size t k o m ps m'' qs)
      → carried size t p r ≡ some (m', ps')
      → Moves size t (suc k) o m (p ∷ ps) m' ps'
  there k o m p ps none ih h = cc
  there k o m p ps (some (n, qs)) {m' = m'} {ps' = ps'} ih h =
      rw (← h_shared, ← h_threads)
        (record {
          before = rest.before;
          next = rest.next;
          stood = rest.stood;
          went = rest.went;
          balance = λ w. omega (arith, rest.balance w);
          among = λ w. omega (arith, rest.among w);
        })
    where
      rest : Moves size t k o m ps n qs
      rest = ih n qs refl

      h_threads : p ∷ qs ≡ ps'
      h_threads = cc

      h_shared : n ≡ m'
      h_shared = cc

  pub advance_at-Moves :
      (k : ℕ) (o : Outcome) (m : Shared) (ps : List Thread) {m' : Shared} {ps' : List Thread}
      → advance_at size t k o m ps ≡ some (m', ps')
      → Moves size t k o m ps m' ps'
  unfolding advance_at
  advance_at-Moves k o m [] h = cc
  advance_at-Moves zero o m (p ∷ ps) h = here o m p ps (take_step size t o m p) refl h
  advance_at-Moves (suc k) o m (p ∷ ps) h =
      there k o m p ps (advance_at size t k o m ps) (λ m'' qs e. advance_at-Moves k o m ps e) h

  -- What the counters mean, in a pool that has lost so many instances.
  pub record IsAccounted (lost : ℕ) (s : System) : Type 0 where
    pub bounded : s.shared.current_size ≤ size
    pub lock : total inside s.threads ≡ (if s.shared.is_locked then 1 else 0)
    pub accounted :
        length s.shared.local_pool + total holds s.threads + total builds s.threads + lost
        ≡ s.shared.current_size
    pub full : 0 < total waits s.threads → s.shared.current_size ≡ size

  taken :
      (lost : ℕ) (o : Outcome) (m : Shared) (queue : List ℕ)
      → m.local_pool ≡ queue
      → (q : Thread) (ps ps' : List Thread) (m' : Shared) → take size t o m queue ≡ some (m', q)
      → ((w : Thread → ℕ) → total w ps' + w waiting ≡ total w ps + w q)
      → ((w : Thread → ℕ) → w waiting ≤ total w ps)
      → IsAccounted lost (record { shared = m; threads = ps })
      → IsAccounted (lost + loss o waiting) (record { shared = m'; threads = ps' })
  taken lost o m (i ∷ rest) e q ps ps' m' went balance among a = ground (
    arith,
    balance inside,
    balance holds,
    balance builds,
    balance waits,
    among inside,
    among holds,
    among builds,
    among waits,
  )
  taken lost returns m [] e q ps ps' m' went balance among a = cc
  taken lost raises m [] e q ps ps' m' went balance among a = ground (
    arith,
    balance inside,
    balance holds,
    balance builds,
    balance waits,
    among inside,
    among holds,
    among builds,
    among waits,
  )

  take_step-IsAccounted :
      (lost : ℕ) (o : Outcome) (m : Shared) (p q : Thread) (ps ps' : List Thread) (m' : Shared)
      → take_step size t o m p ≡ some (m', q)
      → ((w : Thread → ℕ) → total w ps' + w p ≡ total w ps + w q)
      → ((w : Thread → ℕ) → w p ≤ total w ps)
      → IsAccounted lost (record { shared = m; threads = ps })
      → IsAccounted (lost + loss o p) (record { shared = m'; threads = ps' })
  unfolding take_step
  take_step-IsAccounted lost o m outside q ps ps' m' went balance among a = ground (
    arith,
    balance inside,
    balance holds,
    balance builds,
    balance waits,
    among inside,
    among holds,
    among builds,
    among waits,
  )
  take_step-IsAccounted lost o m checked q ps ps' m' went balance among a = ground (
    arith,
    balance inside,
    balance holds,
    balance builds,
    balance waits,
    among inside,
    among holds,
    among builds,
    among waits,
  )
  take_step-IsAccounted lost o m locked q ps ps' m' went balance among a = ground (
    arith,
    balance inside,
    balance holds,
    balance builds,
    balance waits,
    among inside,
    among holds,
    among builds,
    among waits,
  )
  take_step-IsAccounted lost returns m building q ps ps' m' went balance among a = ground (
    arith,
    balance inside,
    balance holds,
    balance builds,
    balance waits,
    among inside,
    among holds,
    among builds,
    among waits,
  )
  take_step-IsAccounted lost raises m building q ps ps' m' went balance among a = ground (
    arith,
    balance inside,
    balance holds,
    balance builds,
    balance waits,
    among inside,
    among holds,
    among builds,
    among waits,
  )
  take_step-IsAccounted lost returns m (body i) q ps ps' m' went balance among a = ground (
    arith,
    balance inside,
    balance holds,
    balance builds,
    balance waits,
    among inside,
    among holds,
    among builds,
    among waits,
    length-append m.local_pool (i ∷ []),
  )
  take_step-IsAccounted lost raises m (body i) q ps ps' m' went balance among a = ground (
    arith,
    balance inside,
    balance holds,
    balance builds,
    balance waits,
    among inside,
    among holds,
    among builds,
    among waits,
    length-append m.local_pool (i ∷ []),
  )
  take_step-IsAccounted lost o m waiting q ps ps' m' went balance among a =
      taken lost o m m.local_pool refl q ps ps' m' went balance among a

  -- the exceptions that leave a builder or a body in a run
  unfoldable pub losses : List (ℕ × Outcome) → System → ℕ
  unfolding step
  losses [] s = 0
  losses ((k, o) ∷ cs) s = loss_at o (get_elem? s.threads k) + losses cs (step size t (k, o) s)

  -- A thread that has to wait raises nothing.
  blocked :
      (k : ℕ) (o : Outcome) (m : Shared) (ps : List Thread)
      → advance_at size t k o m ps ≡ none
      → loss_at o (get_elem? ps k) ≡ 0
  unfolding advance_at take_step
  blocked k o m [] h = refl
  blocked zero o m (outside ∷ ps) h = refl
  blocked zero o m (checked ∷ ps) h = refl
  blocked zero o m (locked ∷ ps) h = refl
  blocked zero returns m (building ∷ ps) h = refl
  blocked zero raises m (building ∷ ps) h = cc
  blocked zero o m (waiting ∷ ps) h = refl
  blocked zero returns m (body i ∷ ps) h = refl
  blocked zero raises m (body i ∷ ps) h = cc
  blocked (suc k) o m (p ∷ ps) h = blocked k o m ps (carried-none p (advance_at size t k o m ps) h)
    where
      carried-none :
          (p : Thread) (r : Option (Shared × List Thread)) → carried size t p r ≡ none → r ≡ none
      carried-none p none e = refl
      carried-none p (some r) e = cc

  recount : (lost lost' : ℕ) (s : System) → lost ≡ lost' → IsAccounted lost s → IsAccounted lost' s
  recount lost lost' s e a = subst (λ n. IsAccounted n s) e a

  pub step-IsAccounted :
      (lost k : ℕ) (o : Outcome) (s : System)
      → IsAccounted lost s
      → IsAccounted (lost + loss_at o (get_elem? s.threads k)) (step size t (k, o) s)
  unfolding step
  step-IsAccounted lost k o s a = elim (Option-cases (advance_at size t k o s.shared s.threads)) [
    | inl e ↦ rw (e, blocked k o s.shared s.threads e) (recount lost (lost + 0) s (omega arith) a)
    | inr (r, e) ↦
        let v = advance_at-Moves k o s.shared s.threads e in
        rw (e, v.stood)
          (take_step-IsAccounted lost o s.shared v.before v.next s.threads r.1 r.0 v.went v.balance
            v.among a)
  ]

  run-IsAccounted :
      (lost : ℕ) (cs : List (ℕ × Outcome)) (s : System)
      → IsAccounted lost s
      → IsAccounted (lost + losses cs s) (run size t cs s)
  unfolding run losses
  run-IsAccounted lost [] s a = recount lost (lost + 0) s (omega arith) a
  run-IsAccounted lost ((k, o) ∷ cs) s a =
      let next = step size t (k, o) s in
      recount (lost + loss_at o (get_elem? s.threads k) + losses cs next) _ (run size t cs next)
        (omega arith)
        (run-IsAccounted (lost + loss_at o (get_elem? s.threads k)) cs next
          (step-IsAccounted lost k o s a))

pub total-outside :
    (w : Thread → ℕ) (ps : List Thread) → w outside ≡ 0 → All (λ p. p ≡ outside) ps → total w ps ≡ 0
total-outside w [] e h = refl
total-outside w (p ∷ ps) e h = omega (arith, total-outside w ps e h.1, ap w h.0)

-- No body and no builder has left an instance anywhere else.
pub run-fresh_pool-IsAccounted :
    (size : ℕ) (t : Bool) (threads : List Thread) (cs : List (ℕ × Outcome))
    → All (λ p. p ≡ outside) threads
    → IsAccounted size t
        (losses size t cs (fresh_pool size t threads))
        (run size t cs (fresh_pool size t threads))
run-fresh_pool-IsAccounted size t threads cs h =
    subst (λ n. IsAccounted size t n (run size t cs (fresh_pool size t threads))) (omega arith)
      (run-IsAccounted size t 0 cs (fresh_pool size t threads) (record {
        bounded = omega arith;
        lock = total-outside inside threads refl h;
        accounted =
            omega (arith, total-outside holds threads refl h, total-outside builds threads refl h);
        full = λ some_wait. absurd (omega (arith, total-outside waits threads refl h));
      }))
