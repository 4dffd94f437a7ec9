-- ===== src/Pool.antt =====
-- `pool` of planetmint/utils.py: threads that share a limited number of instances. What a thread does
-- between two accesses of what they share is one step; the threads take their steps in any order.
pub mod Accounts
pub mod Exclusive
pub mod Progress
use planetmint.Base.{
  ℕ, zero, suc, ◌+◌, Bool, true, false, Option, none, some, List, [], ◌∷◌, ◌++◌, ltb, if◌then◌else◌,
  get_elem?,
}

-- The variables of the closure. Instances are named by how many the builder made before.
pub record Shared : Type 0 where
  pub current_size : ℕ
  pub is_locked : Bool
  pub local_pool : List ℕ
  pub built : ℕ

-- Where a thread stands: outside of `pooled`, before `with lock`, in it before the second test, in
-- the call of the builder, in `local_pool.get`, or in the body of its `with` statement.
pub data Thread : Type 0 where
  outside checked locked building waiting : Thread
  body : ℕ → Thread

-- Whether the builder or the body of the `with` statement that takes the step returns or raises; in
-- `local_pool.get` with nothing there, whether the timeout is over.
pub data Outcome : Type 0 where
  returns raises : Outcome

pub record System : Type 0 where
  pub shared : Shared
  pub threads : List Thread

module _ (size : ℕ) (has_timeout : Bool) where
  -- `local_pool.get(timeout=timeout)`, which raises `queue.Empty` when the time is over
  abbrev pub take : Outcome → Shared → List ℕ → Option (Shared × Thread)
  take o m (i ∷ rest) = some (record m { local_pool = rest }, body i)
  take returns m [] = none
  take raises m [] = if has_timeout then some (m, outside) else none

  -- One step of a thread; none if it has to wait. A body that raises leaves `pooled` at its `yield`,
  -- so the instance is not put back, and a builder that raises does so in `with lock`.
  unfoldable pub take_step : Outcome → Shared → Thread → Option (Shared × Thread)
  take_step o m outside = some (m, (if ltb m.current_size size then checked else waiting))
  take_step o m checked = if m.is_locked then none else some (record m { is_locked = true }, locked)
  take_step o m locked = some (
      if ltb m.current_size size
      then (record m { current_size = m.current_size + 1 }, building)
      else (record m { is_locked = false }, waiting))
  take_step returns m building =
      some (record m { is_locked = false; built = m.built + 1 }, body m.built)
  take_step raises m building = some (record m { is_locked = false }, outside)
  take_step o m waiting = take o m m.local_pool
  take_step returns m (body i) = some (record m { local_pool = m.local_pool ++ (i ∷ []) }, outside)
  take_step raises m (body i) = some (m, outside)

  abbrev pub moved : List Thread → Option (Shared × Thread) → Option (Shared × List Thread)
  moved rest none = none
  moved rest (some (m, q)) = some (m, q ∷ rest)

  abbrev pub carried : Thread → Option (Shared × List Thread) → Option (Shared × List Thread)
  carried p none = none
  carried p (some (m, qs)) = some (m, p ∷ qs)

  pub advance_at : ℕ → Outcome → Shared → List Thread → Option (Shared × List Thread)
  unfolding take_step
  advance_at k o m [] = none
  advance_at zero o m (p ∷ ps) = moved ps (take_step o m p)
  advance_at (suc k) o m (p ∷ ps) = carried p (advance_at k o m ps)

  abbrev pub after : System → Option (Shared × List Thread) → System
  after s none = s
  after s (some (m, ps)) = record { shared = m; threads = ps }

  -- the thread of this number takes a step; it stays where it is if it has to wait
  pub step : ℕ × Outcome → System → System
  unfolding advance_at
  step (k, o) s = after s (advance_at k o s.shared s.threads)

  unfoldable pub run : List (ℕ × Outcome) → System → System
  unfolding step
  run [] s = s
  run (c ∷ cs) s = run cs (step c s)

  -- a fresh pool: nothing is built, and all the threads are outside
  abbrev pub fresh_pool : List Thread → System
  fresh_pool threads = record {
    shared = record { current_size = 0; is_locked = false; local_pool = []; built = 0 };
    threads = threads;
  }
