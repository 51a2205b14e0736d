-- ===== src/Enforcer/Draining.antt =====
-- core/runtime/policy_enforcer.go: the order in which the worker takes the actions.
use mathlib.Core.Path.{subst}
use mathlib.Core.List.{Permᴰ}
use mathlib.Core.List.Permᴰ
use hisnos_secure_workstatio.Common.{
  ℕ, zero, suc, ◌≤◌, ◌<◌, ◌≡◌, refl, ap, ◌∙◌, ◌⊎◌, inl, inr, Bool, true, false, some, List, [], ◌∷◌,
  ◌++◌, length, All, arith, ltb, ◌==◌, if◌then◌else◌,
}
use hisnos_secure_workstatio.Enforcer.{
  PolicyAction, PolicyEnforcer, new_policy_enforcer, rank, less, Heap, next, drain, submit, work,
  execute_all, execute, Effect, executes, dry_runs, skips, dead_letters, dead_lettered,
}

-- What container/heap documents: on a heap, `Pop` takes out an element that no other is less than,
-- and `Push` and `Pop` keep the elements and the heap.
pub record HeapLaws (heap : Heap) (IsHeap : List PolicyAction → Type 0) : Type 0 where
  pub empty_heap : IsHeap []
  pub push_heap : (a : PolicyAction) (q : List PolicyAction) → IsHeap q → IsHeap (heap.push a q)
  pub push_perm :
      (a : PolicyAction) (q : List PolicyAction) → IsHeap q → Permᴰ (a ∷ q) (heap.push a q)
  pub pop_least :
      (x : PolicyAction) (xs : List PolicyAction)
      → IsHeap (x ∷ xs)
      → (a : PolicyAction) × (rest : List PolicyAction) × (heap.pop (x ∷ xs) ≡ some (a, rest))
        × (Permᴰ (x ∷ xs) (a ∷ rest))
        × (All (λ b. less b a ≡ false) rest)
        × IsHeap rest

-- No later action is less than an earlier one.
abbrev pub InOrder : List PolicyAction → Type 0
InOrder [] = Unit
InOrder (a ∷ rest) = All (λ b. less b a ≡ false) rest × InOrder rest

All-Perm :
    (P : PolicyAction → Type 0) (xs ys : List PolicyAction) → Permᴰ xs ys → All P xs → All P ys
All-Perm P _ _ Permᴰ.nil h = h
All-Perm P _ _ (Permᴰ.cons {a} {b} {l₁} {l₂} e p) h = (subst P e h.0, All-Perm P l₁ l₂ p h.1)
All-Perm P _ _ (Permᴰ.swap e f) h = (subst P f h.1.0, (subst P e h.0, h.1.1))
All-Perm P _ _ (Permᴰ.trans {l₁} {l₂} {l₃} p q) h = All-Perm P l₂ l₃ q (All-Perm P l₁ l₂ p h)

length-Perm : (xs ys : List PolicyAction) → Permᴰ xs ys → length xs ≡ length ys
length-Perm _ _ Permᴰ.nil = refl
length-Perm _ _ (Permᴰ.cons {a} {b} {l₁} {l₂} e p) = ap suc (length-Perm l₁ l₂ p)
length-Perm _ _ (Permᴰ.swap e f) = refl
length-Perm _ _ (Permᴰ.trans {l₁} {l₂} {l₃} p q) = length-Perm l₁ l₂ p ∙ length-Perm l₂ l₃ q

module _ (heap : Heap) (IsHeap : List PolicyAction → Type 0) (laws : HeapLaws heap IsHeap) where
  drain_step :
      (fuel : ℕ) (q : List PolicyAction) (a : PolicyAction) (rest : List PolicyAction)
      → next heap q ≡ some (a, rest)
      → let (taken, left) = drain heap fuel rest in drain heap (suc fuel) q ≡ (a ∷ taken, left)
  unfolding drain
  drain_step fuel q a rest e = rw (e, drain) refl

  pub drain_lem :
      (fuel : ℕ) (q : List PolicyAction)
      → IsHeap q
      → length q ≡ fuel
      → let (taken, left) = drain heap fuel q in (left ≡ []) × Permᴰ q taken × InOrder taken
  unfolding drain
  drain_lem zero [] h f = (refl, Permᴰ.nil, tt)
  drain_lem zero (x ∷ xs) h f = absurd (omega arith)
  drain_lem (suc fuel) [] h f = absurd (omega arith)
  drain_lem (suc fuel) (x ∷ xs) h f =
      let (a, rest, e, p, least, h') = laws.pop_least x xs h in
      let shorter = length-Perm (x ∷ xs) (a ∷ rest) p in
      let (none_left, taken_all, ordered) = drain_lem fuel rest h' (omega arith) in
      rw (drain_step fuel (x ∷ xs) a rest e) (
        none_left,
        Permᴰ.trans p (Permᴰ.cons refl taken_all),
        (All-Perm (λ b. less b a ≡ false) rest (drain heap fuel rest).0 taken_all least, ordered),
      )

-- The first action has the higher priority, or the same and was not submitted later.
abbrev pub Precedes : PolicyAction → PolicyAction → Type 0
Precedes a b =
    (rank b.priority < rank a.priority)
    ⊎ ((rank a.priority ≡ rank b.priority) × (a.submitted_at ≤ b.submitted_at))

abbrev pub Ordered : List PolicyAction → Type 0
Ordered [] = Unit
Ordered (a ∷ rest) = All (Precedes a) rest × Ordered rest

less-Precedes : (a b : PolicyAction) → less b a ≡ false → Precedes a b
unfolding less
less-Precedes a b h = by_keys (rank a.priority) (rank b.priority) a.submitted_at b.submitted_at h
  where
    by_keys :
        (p q s t : ℕ)
        → (if q == p then ltb t s else ltb p q) ≡ false
        → (q < p) ⊎ ((p ≡ q) × (s ≤ t))
    by_keys p q s t h = ground arith

All-Precedes :
    (a : PolicyAction) (xs : List PolicyAction)
    → All (λ b. less b a ≡ false) xs
    → All (Precedes a) xs
All-Precedes a [] h = tt
All-Precedes a (x ∷ xs) h = (less-Precedes a x h.0, All-Precedes a xs h.1)

InOrder-Ordered : (xs : List PolicyAction) → InOrder xs → Ordered xs
InOrder-Ordered [] h = tt
InOrder-Ordered (x ∷ xs) h = (All-Precedes x xs h.0, InOrder-Ordered xs h.1)

-- Actions that are submitted one after the other, each at its time.
abbrev pub stamped : List (ℕ × PolicyAction) → List PolicyAction
stamped [] = []
stamped ((now, a) ∷ rest) = record a { submitted_at = now } ∷ stamped rest

pub submit_all : Heap → List (ℕ × PolicyAction) → PolicyEnforcer → PolicyEnforcer
submit_all heap [] e = e
submit_all heap ((now, a) ∷ rest) e = submit_all heap rest (submit heap now a e)

-- What is done with one action: in a dry run or not, with DryRunExec or without, failing or not, and
-- with a dead-letter handler or without.
abbrev pub handled : Bool → Bool → Bool → Bool → PolicyAction → List Effect
handled false has_dry_run true true a = executes a ∷ dead_letters a ∷ []
handled false has_dry_run true false a = executes a ∷ []
handled false has_dry_run false letters a = executes a ∷ []
handled true true true true a = dry_runs a ∷ dead_letters a ∷ []
handled true true true false a = dry_runs a ∷ []
handled true true false letters a = dry_runs a ∷ []
handled true false failing letters a = skips a ∷ []

abbrev pub all_handled : (PolicyAction → Bool) → Bool → Bool → List PolicyAction → List Effect
all_handled fails letters dry [] = []
all_handled fails letters dry (a ∷ rest) =
    handled dry a.has_dry_run (fails a) letters a ++ all_handled fails letters dry rest

handled_of :
    (dry has failed letters : Bool) (a : PolicyAction)
    → let effect = if dry then (if has then dry_runs a else skips a) else executes a in
      effect
        ∷ (if dead_lettered failed effect
            then (if letters then dead_letters a ∷ [] else [])
            else [])
      ≡ handled dry has failed letters a
handled_of false has true true a = refl
handled_of false has true false a = refl
handled_of false has false letters a = refl
handled_of true true true true a = refl
handled_of true true true false a = refl
handled_of true true false letters a = refl
handled_of true false failed letters a = refl

execute-handled :
    (fails : PolicyAction → Bool) (e : PolicyEnforcer) (a : PolicyAction)
    → execute fails e a ≡ handled e.dry_run a.has_dry_run (fails a) e.has_dead_letter a
unfolding execute
execute-handled fails e a = handled_of e.dry_run a.has_dry_run (fails a) e.has_dead_letter a

execute_all-handled :
    (heap : Heap) (fails : PolicyAction → Bool) (e : PolicyEnforcer) (letters dry : Bool)
    (xs : List PolicyAction)
    → e.has_dead_letter ≡ letters
    → e.dry_run ≡ dry
    → execute_all heap fails e xs ≡ all_handled fails letters dry xs
execute_all-handled heap fails e letters dry [] l d = refl
execute_all-handled heap fails e letters dry (a ∷ rest) l d =
    let one : execute fails e a ≡ handled dry a.has_dry_run (fails a) letters a =
      execute-handled fails e a
      ∙ (ap (λ x. handled x a.has_dry_run (fails a) e.has_dead_letter a) d
          ∙ ap (λ x. handled dry a.has_dry_run (fails a) x a) l) in
    ap (λ x. x ++ execute_all heap fails e rest) one
    ∙ ap (λ x. handled dry a.has_dry_run (fails a) letters a ++ x)
        (execute_all-handled heap fails e letters dry rest l d)

submit_all-flags :
    (heap : Heap) (xs : List (ℕ × PolicyAction)) (e : PolicyEnforcer)
    → ((submit_all heap xs e).has_dead_letter ≡ e.has_dead_letter)
      × ((submit_all heap xs e).dry_run ≡ e.dry_run)
unfolding submit_all submit
submit_all-flags heap [] e = (refl, refl)
submit_all-flags heap ((now, a) ∷ rest) e = submit_all-flags heap rest (submit heap now a e)

module _ (heap : Heap) (IsHeap : List PolicyAction → Type 0) (laws : HeapLaws heap IsHeap) where
  submit_all-queue :
      (xs : List (ℕ × PolicyAction)) (e : PolicyEnforcer)
      → IsHeap e.queue
      → let e' = submit_all heap xs e in
        IsHeap e'.queue × Permᴰ (stamped xs ++ e.queue) e'.queue × ((e'.signal ≡ true) ⊎ (e' ≡ e))
  unfolding submit_all submit
  submit_all-queue [] e h = (h, Permᴰ.refl e.queue, inr refl)
  submit_all-queue ((now, a) ∷ rest) e h =
      let b = record a { submitted_at = now } in
      let (h', p, s) = submit_all-queue rest (submit heap now a e) (laws.push_heap b e.queue h) in
      (
        h',
        Permᴰ.trans (Permᴰ.symm (Permᴰ.middle b (stamped rest) e.queue))
            (Permᴰ.trans (Permᴰ.append_left (stamped rest) (laws.push_perm b e.queue h)) p),
        inl (elim s [ inl t ↦ t | inr q ↦ ap (λ (x : PolicyEnforcer). x.signal) q ]),
      )

  -- What a signal makes the worker do with the actions that were submitted to a new enforcer: it
  -- empties the queue and takes all of them, each once, a higher priority before a lower one and,
  -- within a priority, an earlier action before a later one, whichever fail. Each one is executed; in a
  -- dry run it is run dry instead, or only logged if it has no function for that. Behind one that
  -- fails stands its dead letter, if the enforcer has a handler for these.
  pub submit_all-work :
      (fails : PolicyAction → Bool) (dead_letter dry : Bool) (xs : List (ℕ × PolicyAction))
      → let e = submit_all heap xs (new_policy_enforcer dead_letter dry) in
        let (e', effects) = work heap fails e in
        (e'.queue ≡ [])
        × (e'.signal ≡ false)
        × (taken : List PolicyAction) × (effects ≡ all_handled fails dead_letter dry taken)
        × (Permᴰ (stamped xs) taken)
        × Ordered taken
  unfolding work
  submit_all-work fails dead_letter dry xs =
      let e0 = new_policy_enforcer dead_letter dry in
      let e = submit_all heap xs e0 in
      let flags = submit_all-flags heap xs e0 in
      let (h, p, s) = submit_all-queue xs e0 laws.empty_heap in
      let (left, taken_all, ordered) = drain_lem heap IsHeap laws (length e.queue) e.queue h refl in
      elim s [
        | inl t ↦ rw t (
          left,
          refl,
          (drain heap (length e.queue) e.queue).0,
          execute_all-handled heap fails e dead_letter dry (drain heap (length e.queue) e.queue).0
              flags.0 flags.1,
          Permᴰ.trans (Permᴰ.symm (Permᴰ.append-nil (stamped xs))) (Permᴰ.trans p taken_all),
          InOrder-Ordered _ ordered,
        )
        | inr q ↦
            let idle : e.signal ≡ false = ap (λ (x : PolicyEnforcer). x.signal) q in
            let empty : e.queue ≡ [] = ap (λ (x : PolicyEnforcer). x.queue) q in
            rw idle (
              empty,
              refl,
              [],
              refl,
              Permᴰ.trans (Permᴰ.symm (Permᴰ.append-nil (stamped xs)))
                  (subst (λ (l : List PolicyAction). Permᴰ (stamped xs ++ []) l) empty p),
              tt,
            )
      ]
