-- ===== src/Supervisor/Budget.antt =====
-- core/supervisor/supervisor.go: how many crashes of a service the supervisor stands.
use mathlib.Core.Path.{subst}
use mathlib.Core.List.{append_assoc, append-nil}
use hisnos_secure_workstatio.Common.{
  ℕ, ◌+◌, ◌≤◌, ◌<◌, ◌≡◌, ◌↔◌, refl, sym, ap, ◌∙◌, ◌⊎◌, inl, inr, true, false, List, [], ◌∷◌, ◌++◌,
  length, count_if, count_if-append, length-append, All, Bool-cases, ltb, arith,
}
use hisnos_secure_workstatio.Supervisor.{
  ServiceEntry, is_recent, last_ten, record_crash, attempt_restart, escalates, max_crashes,
}

-- Times in the order in which they came.
abbrev pub Ascending : List ℕ → Type 0
Ascending [] = Unit
Ascending (t ∷ ts) = All (λ u. t ≤ u) ts × Ascending ts

-- The entry after crashes at these times.
pub crashes_at : List ℕ → ServiceEntry → ServiceEntry
crashes_at [] e = e
crashes_at (t ∷ ts) e = crashes_at ts (record_crash t e).0

-- The remembered times are the end of the history: all of it, or its last ten.
abbrev End : List ℕ → List ℕ → Type 0
End ts r = (old : List ℕ) × (old ++ r ≡ ts) × (length r ≤ 10) × ((old ≡ []) ⊎ (length r ≡ 10))

last_ten-full :
    (old : List ℕ) (r : List ℕ) (t : ℕ)
    → length r ≡ 10
    → End (old ++ (r ++ t ∷ [])) (last_ten (r ++ t ∷ []))
last_ten-full old [] t l = absurd (omega arith)
last_ten-full old (x ∷ xs) t l =
    let eleven : length (x ∷ (xs ++ t ∷ [])) ≡ 11 = omega (arith, length-append xs (t ∷ [])) in
    rw eleven (
      old ++ x ∷ [],
      append_assoc old (x ∷ []) (xs ++ t ∷ []),
      omega (arith, length-append xs (t ∷ [])),
      inr (omega (arith, length-append xs (t ∷ []))),
    )

last_ten-short : (r : List ℕ) (t : ℕ) → length r < 10 → last_ten (r ++ t ∷ []) ≡ r ++ t ∷ []
last_ten-short r t l = rw few refl
  where
    few : ltb 10 (length (r ++ t ∷ [])) ≡ false
    few = ground (arith, length-append r (t ∷ []))

End-last_ten :
    (old r : List ℕ) (t : ℕ)
    → length r ≤ 10
    → (old ≡ []) ⊎ (length r ≡ 10)
    → End (old ++ (r ++ t ∷ [])) (last_ten (r ++ t ∷ []))
End-last_ten old r t l (inr ten) = last_ten-full old r t ten
End-last_ten old r t l (inl none) = elim (Bool-cases (ltb (length r) 10)) [
  | inl q ↦
      rw (last_ten-short r t (ground arith))
        (old, refl, omega (arith, length-append r (t ∷ []), short q), inl none)
  | inr q ↦ last_ten-full old r t (ground arith)
]
  where
    short : ltb (length r) 10 ≡ true → length r < 10
    short q = ground arith

End-record_crash :
    (ts : List ℕ) (t : ℕ) (e : ServiceEntry)
    → End ts e.crash_times
    → End (ts ++ t ∷ []) (record_crash t e).0.crash_times
unfolding record_crash
End-record_crash ts t e (old, q, l, k) =
    subst (λ (h : List ℕ). End h (last_ten (e.crash_times ++ t ∷ [])))
      (sym (append_assoc old e.crash_times (t ∷ [])) ∙ ap (λ (h : List ℕ). h ++ t ∷ []) q)
      (End-last_ten old e.crash_times t l k)

End-crashes_at :
    (xs ts : List ℕ) (e : ServiceEntry)
    → End ts e.crash_times
    → End (ts ++ xs) (crashes_at xs e).crash_times
unfolding crashes_at
End-crashes_at [] ts e h = subst (λ (l : List ℕ). End l e.crash_times) (sym (append-nil ts)) h
End-crashes_at (x ∷ xs) ts e h =
    subst (λ (l : List ℕ). End l (crashes_at xs (record_crash x e).0).crash_times)
      (append_assoc ts (x ∷ []) xs)
      (End-crashes_at xs (ts ++ x ∷ []) (record_crash x e).0 (End-record_crash ts x e h))

All-append_right : (P : ℕ → Type 0) (xs ys : List ℕ) → All P (xs ++ ys) → All P ys
All-append_right P [] ys h = h
All-append_right P (x ∷ xs) ys h = All-append_right P xs ys h.1

recent_after :
    (now t : ℕ) (ts : List ℕ)
    → is_recent now t ≡ true
    → All (λ u. t ≤ u) ts
    → count_if (is_recent now) ts ≡ length ts
recent_after now t [] r h = refl
recent_after now t (u ∷ us) r h = ground (arith, recent_after now t us r h.1)

-- If a forgotten time is recent, so are all the remembered ones.
forgotten :
    (now : ℕ) (old r : List ℕ)
    → Ascending (old ++ r)
    → (count_if (is_recent now) old ≡ 0) ⊎ (count_if (is_recent now) r ≡ length r)
forgotten now [] r h = inl refl
forgotten now (t ∷ ts) r h = elim (Bool-cases (is_recent now t)) [
  | inl q ↦ inr (recent_after now t r q (All-append_right (λ u. t ≤ u) ts r h.0))
  | inr q ↦ elim (forgotten now ts r h.1) [ inl z ↦ inl (rw q (omega (arith, z))) | inr a ↦ inr a ]
]

now_counts :
    (now : ℕ) (r : List ℕ)
    → count_if (is_recent now) (r ++ now ∷ []) ≡ count_if (is_recent now) r + 1
now_counts now r = ground (arith, count_if-append (is_recent now) r (now ∷ []))

attempt_restart-escalates :
    (now : ℕ) (e : ServiceEntry)
    → ((attempt_restart now e).1 ≡ escalates) ↔ (3 ≤ count_if (is_recent now) e.crash_times)
unfolding attempt_restart record_crash
attempt_restart-escalates now e =
    let one = now_counts now e.crash_times in
    elim (Bool-cases (ltb max_crashes (count_if (is_recent now) (e.crash_times ++ now ∷ [])))) [
      | inl q ↦ rw q (λ h. ground arith, λ h. refl)
      | inr q ↦ rw q (λ h. cc, λ h. absurd (ground arith))
    ]

three_of :
    (now : ℕ) (ts r : List ℕ)
    → Ascending ts
    → End ts r
    → (3 ≤ count_if (is_recent now) r) ↔ (3 ≤ count_if (is_recent now) ts)
three_of now ts r asc (old, q, l, k) =
    let sum = ap (count_if (is_recent now)) (sym q) ∙ count_if-append (is_recent now) old r in
    elim k [
      | inl none ↦
          let no_old : count_if (is_recent now) old ≡ 0 = ap (count_if (is_recent now)) none in
          (λ h. omega arith, λ h. omega arith)
      | inr ten ↦ elim (forgotten now old r (subst Ascending (sym q) asc)) [
        | inl z ↦ (λ h. omega arith, λ h. omega arith)
        | inr all ↦ (λ h. omega arith, λ h. omega arith)
      ]
    ]

-- A crash is not followed by a restart exactly if at least three crashes before it lie in the last
-- five minutes, however many there have been: that only ten times are remembered changes no
-- decision. The times are taken in the order of the clock.
pub attempt_restart-budget :
    (ts : List ℕ) (now : ℕ) (e : ServiceEntry)
    → e.crash_times ≡ []
    → Ascending ts
    → ((attempt_restart now (crashes_at ts e)).1 ≡ escalates) ↔ (3 ≤ count_if (is_recent now) ts)
attempt_restart-budget ts now e fresh asc =
    let start : End [] e.crash_times = ([], fresh, rw fresh (omega arith), inl refl) in
    let (a, b) = attempt_restart-escalates now (crashes_at ts e) in
    let (c, d) = three_of now ts (crashes_at ts e).crash_times asc (End-crashes_at ts [] e start) in
    (λ h. c (a h), λ h. b (d h))
