-- ===== src/Enforcer.antt =====
-- core/runtime/policy_enforcer.go: the queue of policy actions, in the order of their priorities.
-- container/heap is the argument `heap`: its `Push` and `Pop` on the slice of the queue. The lock
-- makes each call one step. Whether an action fails or runs out of time is asked of `fails`; its
-- context and the log lines are left out.
pub mod Draining
mod Tests
use hisnos_secure_workstatio.Common.{
  ℕ, zero, suc, Bool, true, false, not, Option, none, some, List, [], ◌∷◌, ◌++◌, String, length,
  ltb, ◌==◌, if◌then◌else◌,
}

pub data Priority : Type 0 where
  operator performance security critical : Priority

abbrev pub rank : Priority → ℕ
rank operator = 1
rank performance = 2
rank security = 3
rank critical = 4

-- `has_dry_run` says whether DryRunExec is there.
pub record PolicyAction : Type 0 where
  pub priority : Priority
  pub name : String
  pub reason : String
  pub has_dry_run : Bool
  pub submitted_at : ℕ

-- The smaller one is executed first.
unfoldable pub less : PolicyAction → PolicyAction → Bool
less a b =
    if rank a.priority == rank b.priority
    then ltb a.submitted_at b.submitted_at
    else ltb (rank b.priority) (rank a.priority)

-- `heap.Push` and `heap.Pop`; an empty heap must not be popped.
pub record Heap : Type 0 where
  pub push : PolicyAction → List PolicyAction → List PolicyAction
  pub pop : List PolicyAction → Option (PolicyAction × List PolicyAction)

pub data Effect : Type 0 where
  executes dry_runs skips dead_letters : PolicyAction → Effect

-- `signal` is a channel with room for one.
pub record PolicyEnforcer : Type 0 where
  pub queue : List PolicyAction
  pub signal : Bool
  pub dry_run : Bool
  pub has_dead_letter : Bool

abbrev pub new_policy_enforcer : Bool → Bool → PolicyEnforcer
new_policy_enforcer dead_letter dry = record {
  queue = [];
  signal = false;
  dry_run = dry;
  has_dead_letter = dead_letter;
}

-- A dry run without a function is only logged, and does not fail.
abbrev pub started : Bool → PolicyAction → Effect
started dry a = if dry then (if a.has_dry_run then dry_runs a else skips a) else executes a

abbrev pub dead_lettered : Bool → Effect → Bool
dead_lettered failed (skips a) = false
dead_lettered failed e = failed

unfoldable pub execute : (PolicyAction → Bool) → PolicyEnforcer → PolicyAction → List Effect
execute fails e a =
    let effect = started e.dry_run a in
    effect
    ∷ (if dead_lettered (fails a) effect
        then (if e.has_dead_letter then dead_letters a ∷ [] else [])
        else [])

module _ (heap : Heap) where
  -- The action gets the present time, and the worker is poked.
  unfoldable pub submit : ℕ → PolicyAction → PolicyEnforcer → PolicyEnforcer
  submit now a e = record e {
    queue = heap.push (record a { submitted_at = now }) e.queue;
    signal = true;
  }

  abbrev pub next : List PolicyAction → Option (PolicyAction × List PolicyAction)
  next [] = none
  next (a ∷ rest) = heap.pop (a ∷ rest)

  -- The inner loop of the worker, with fuel: the actions in the order in which they are taken, and
  -- the queue at the end.
  unfoldable pub drain : ℕ → List PolicyAction → List PolicyAction × List PolicyAction
  drain zero queue = ([], queue)
  drain (suc fuel) queue = elim (next queue) [
    | none ↦ ([], queue)
    | some (a, rest) ↦ let (taken, left) = drain fuel rest in (a ∷ taken, left)
  ]

  abbrev pub execute_all : (PolicyAction → Bool) → PolicyEnforcer → List PolicyAction → List Effect
  execute_all fails e [] = []
  execute_all fails e (a ∷ rest) = execute fails e a ++ execute_all fails e rest

  -- The worker on a signal. Nothing is submitted meanwhile.
  unfoldable pub work : (PolicyAction → Bool) → PolicyEnforcer → PolicyEnforcer × List Effect
  unfolding drain execute
  work fails e =
      let (taken, left) = drain (length e.queue) e.queue in
      if e.signal
      then (record e { queue = left; signal = false }, execute_all fails e taken)
      else (e, [])
