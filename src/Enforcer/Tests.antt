-- ===== src/Enforcer/Tests.antt =====
-- core/runtime/policy_enforcer.go on three actions, with a queue that is kept sorted as the heap.
use mathlib.Core.List.{Permᴰ}
use mathlib.Core.List.Permᴰ
use hisnos_secure_workstatio.Common.{
  ℕ, ◌≡◌, refl, inl, inr, true, false, Option, none, some, List, [], ◌∷◌, String, All, Bool-cases,
  arith, ltb, ◌==◌, if◌then◌else◌,
}
use hisnos_secure_workstatio.Enforcer.{
  Priority, operator, security, critical, PolicyAction, rank, less, Heap, new_policy_enforcer, work,
}
use hisnos_secure_workstatio.Enforcer.Draining.{
  HeapLaws, InOrder, Ordered, stamped, submit_all, all_handled, submit_all-work,
}

abbrev insert : PolicyAction → List PolicyAction → List PolicyAction
insert a [] = a ∷ []
insert a (x ∷ xs) = let rest = insert a xs in if less a x then a ∷ x ∷ xs else x ∷ rest

abbrev take_first : List PolicyAction → Option (PolicyAction × List PolicyAction)
take_first [] = none
take_first (x ∷ xs) = some (x, xs)

abbrev sorted : Heap
sorted = record { push = insert; pop = take_first }

less-not : (a b : PolicyAction) → less a b ≡ true → less b a ≡ false
unfolding less
less-not a b h = by_keys (rank a.priority) (rank b.priority) a.submitted_at b.submitted_at h
  where
    by_keys :
        (p q s t : ℕ)
        → (if p == q then ltb s t else ltb q p) ≡ true
        → (if q == p then ltb t s else ltb p q) ≡ false
    by_keys p q s t h = ground arith

less-through : (a x b : PolicyAction) → less a x ≡ true → less b x ≡ false → less b a ≡ false
unfolding less
less-through a x b h g =
    by_keys (rank a.priority) (rank x.priority) (rank b.priority) a.submitted_at x.submitted_at
      b.submitted_at h g
  where
    by_keys :
        (p q r s t u : ℕ)
        → (if p == q then ltb s t else ltb q p) ≡ true
        → (if r == q then ltb u t else ltb q r) ≡ false
        → (if r == p then ltb u s else ltb p r) ≡ false
    by_keys p q r s t u h g = ground arith

All-through :
    (a x : PolicyAction) (xs : List PolicyAction)
    → less a x ≡ true
    → All (λ b. less b x ≡ false) xs
    → All (λ b. less b a ≡ false) xs
All-through a x [] h k = tt
All-through a x (b ∷ bs) h k = (less-through a x b h k.0, All-through a x bs h k.1)

All-insert :
    (P : PolicyAction → Type 0) (a : PolicyAction) (xs : List PolicyAction)
    → P a
    → All P xs
    → All P (insert a xs)
All-insert P a [] p k = (p, tt)
All-insert P a (x ∷ xs) p k = elim (Bool-cases (less a x)) [
  | inl q ↦ rw q (p, k)
  | inr q ↦ rw q (k.0, All-insert P a xs p k.1)
]

insert-InOrder : (a : PolicyAction) (xs : List PolicyAction) → InOrder xs → InOrder (insert a xs)
insert-InOrder a [] h = (tt, tt)
insert-InOrder a (x ∷ xs) h = elim (Bool-cases (less a x)) [
  | inl q ↦ rw q ((less-not a x q, All-through a x xs q h.0), h)
  | inr q ↦ rw q (All-insert (λ b. less b x ≡ false) a xs q h.0, insert-InOrder a xs h.1)
]

insert-Perm : (a : PolicyAction) (xs : List PolicyAction) → Permᴰ (a ∷ xs) (insert a xs)
insert-Perm a [] = Permᴰ.refl (a ∷ [])
insert-Perm a (x ∷ xs) = elim (Bool-cases (less a x)) [
  | inl q ↦ rw q (Permᴰ.refl (a ∷ x ∷ xs))
  | inr q ↦ rw q (Permᴰ.trans (Permᴰ.swap refl refl) (Permᴰ.cons refl (insert-Perm a xs)))
]

sorted-HeapLaws : HeapLaws sorted InOrder
sorted-HeapLaws = record {
  empty_heap = tt;
  push_heap = insert-InOrder;
  push_perm = λ a q h. insert-Perm a q;
  pop_least = λ x xs h. (x, xs, refl, Permᴰ.refl (x ∷ xs), h.0, h.1);
}

abbrev asks : Priority → String → PolicyAction
asks p n = record { priority = p; name = n; reason = ""; has_dry_run = false; submitted_at = 0 }

abbrev submissions : List (ℕ × PolicyAction)
submissions =
    (4, asks operator "preflight")
    ∷ (5, asks critical "vault_lock")
    ∷ (6, asks security "firewall_strict")
    ∷ []

submit_all-work_example :
    let e = submit_all sorted submissions (new_policy_enforcer true false) in
    let (e', effects) = work sorted (λ a. true) e in
    (e'.queue ≡ [])
    × (e'.signal ≡ false)
    × (taken : List PolicyAction) × (effects ≡ all_handled (λ a. true) true false taken)
    × (Permᴰ (stamped submissions) taken)
    × Ordered taken
submit_all-work_example =
    submit_all-work sorted InOrder sorted-HeapLaws (λ a. true) true false submissions
