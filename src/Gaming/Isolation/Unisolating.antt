-- ===== src/Gaming/Isolation/Unisolating.antt =====
-- gaming/hispowerd/cpu/isolator.go: what Restore gives back after Apply.
use mathlib.Core.Path.{subst}
use hisnos_secure_workstatio.Common.{
  ℕ, ◌≡◌, refl, sym, ap, ◌∙◌, ◌⊎◌, inl, inr, Bool, true, false, ◌||◌, List, [], ◌∷◌, ◌++◌, All,
  ◌==◌, Bool-cases, arith,
}
use hisnos_secure_workstatio.Gaming.Isolation.{
  Mask, Masks, SavedMask, IsolationEnv, put_mask, save_and_set, set_each, daemons_each, isolate,
  set_back, unisolate,
}

abbrev lists : ℕ → List SavedMask → Bool
lists p [] = false
lists p (s ∷ ss) = p == s.pid || lists p ss

-- What is saved of a process is the word of its first mask, and a process of which nothing is saved has it still.
abbrev Tracks : Masks → List SavedMask → Masks → Type 0
Tracks m0 saved m =
    (p : ℕ)
    → All (λ s. (p == s.pid) ≡ true → s.previous ≡ (m0 p).word) saved
      × ((m p ≡ m0 p) ⊎ (lists p saved ≡ true))

-- The process is none of the list.
abbrev pub Outside : ℕ → List ℕ → Type 0
Outside p pids = All (λ q. (p == q) ≡ false) pids

abbrev pub Distinct : List ℕ → Type 0
Distinct [] = Unit
Distinct (p ∷ ps) = All (λ q. (q == p) ≡ false) ps × Distinct ps

abbrev pub flat : List (List ℕ) → List ℕ
flat [] = []
flat (ps ∷ rest) = ps ++ flat rest

-- Nothing is saved yet of these processes.
abbrev Unsaved : List SavedMask → List ℕ → Type 0
Unsaved saved pids = All (λ q. lists q saved ≡ false) pids

lists-append :
    (p : ℕ) (saved : List SavedMask) (s : SavedMask)
    → lists p (saved ++ s ∷ []) ≡ (lists p saved || p == s.pid)
lists-append p [] s = ground arith
lists-append p (x ∷ xs) s = ground (arith, lists-append p xs s)

All-snoc :
    (P : SavedMask → Type 0) (saved : List SavedMask) (s : SavedMask)
    → All P saved
    → P s
    → All P (saved ++ s ∷ [])
All-snoc P [] s a h = (h, tt)
All-snoc P (x ∷ xs) s a h = (a.0, All-snoc P xs s a.1 h)

or_true : (b : Bool) → (b || true) ≡ true
or_true b = ground arith

or_false : (b : Bool) → (b || false) ≡ b
or_false b = ground arith

Unsaved-later :
    (saved saved' : List SavedMask) (pid : ℕ) (pids : List ℕ)
    → ((q : ℕ) → (q == pid) ≡ false → lists q saved' ≡ lists q saved)
    → Unsaved saved pids
    → All (λ q. (q == pid) ≡ false) pids
    → Unsaved saved' pids
Unsaved-later saved saved' pid [] k u d = tt
Unsaved-later saved saved' pid (q ∷ qs) k (u, us) (d, ds) =
    (k q d ∙ u, Unsaved-later saved saved' pid qs k us ds)

-- One more process is saved, if at all, and no other.
abbrev Grown : Masks → List SavedMask → (ℕ → Type 0) → List SavedMask × Masks × Bool → Type 0
Grown m0 saved P (saved', m', fine) =
    Tracks m0 saved' m' × ((q : ℕ) → P q → lists q saved' ≡ lists q saved)

save_and_set-Grown :
    (env : IsolationEnv) (m0 : Masks) (pid mask : ℕ) (saved : List SavedMask) (m : Masks)
    → Tracks m0 saved m
    → lists pid saved ≡ false
    → Grown m0 saved (λ q. (q == pid) ≡ false) (save_and_set env pid mask saved m)
unfolding save_and_set
save_and_set-Grown env m0 pid mask saved m t u = elim (Bool-cases (env.get_fails pid)) [
  | inl y ↦ rw y (t, λ q n. refl)
  | inr n ↦ elim (Bool-cases (env.set_fails pid)) [
    | inl y ↦ rw (n, y) (t, λ q o. refl)
    | inr n2 ↦
        rw (n, n2) (tracked, λ q o. lists-append q saved new ∙ rw o (or_false (lists q saved)))
  ]
]
  where
    new : SavedMask
    new = record { pid = pid; previous = (m pid).word }

    was : m pid ≡ m0 pid
    was = elim (t pid).1 [ inl e ↦ e | inr l ↦ absurd (let bad : false ≡ true = sym u ∙ l in cc) ]

    tracked : Tracks m0 (saved ++ new ∷ []) (put_mask pid mask m)
    tracked p = (
      All-snoc (λ s. (p == s.pid) ≡ true → s.previous ≡ (m0 p).word) saved new (t p).0
          (λ e.
            let same : p ≡ pid = ground arith in
            ap (λ (x : Mask). x.word) (was ∙ ap m0 (sym same))),
      elim (Bool-cases (p == pid)) [
        | inl e ↦ inr (lists-append p saved new ∙ rw e (or_true (lists p saved)))
        | inr e ↦ elim (t p).1 [
          | inl k ↦ inl (rw e k)
          | inr l ↦ inr (lists-append p saved new ∙ rw l refl)
        ]
      ],
    )

set_each-Grown :
    (env : IsolationEnv) (m0 : Masks) (mask : ℕ) (pids : List ℕ) (saved : List SavedMask)
    (m : Masks)
    → Tracks m0 saved m
    → Unsaved saved pids
    → Distinct pids
    → Grown m0 saved (λ q. Outside q pids) (set_each env mask pids saved m)
unfolding set_each
set_each-Grown env m0 mask [] saved m t u d = (t, λ q o. refl)
set_each-Grown env m0 mask (pid ∷ rest) saved m t u d =
    let (t1, kept) = save_and_set-Grown env m0 pid mask saved m t u.0 in
    let r = save_and_set env pid mask saved m in
    let (t2, others) =
      set_each-Grown env m0 mask rest r.0 r.1 t1 (Unsaved-later saved r.0 pid rest kept u.1 d.0)
        d.1 in
    (t2, λ q o. others q o.1 ∙ kept q o.0)

-- The second mask allows the same of the first 64 CPUs, and of the others the same or none.
abbrev pub Returned : Mask → Mask → Type 0
Returned before after = (after.word ≡ before.word) × ((after.rest ≡ before.rest) ⊎ (after.rest ≡ 0))

set_back_lem :
    (env : IsolationEnv) (m0 : Masks) (saved : List SavedMask) (m : Masks) (p : ℕ)
    → ((k : ℕ) → env.set_fails k ≡ false)
    → All (λ s. (p == s.pid) ≡ true → s.previous ≡ (m0 p).word) saved
    → Returned (m0 p) (m p) ⊎ (lists p saved ≡ true)
    → Returned (m0 p) ((set_back env saved m).0 p)
unfolding set_back
set_back_lem env m0 [] m p w a (inl e) = e
set_back_lem env m0 [] m p w a (inr e) = absurd (let bad : false ≡ true = e in cc)
set_back_lem env m0 (s ∷ ss) m p w (k, ks) h =
    let wrote = w s.pid in
    rw wrote (set_back_lem env m0 ss (put_mask s.pid s.previous m) p w ks now)
  where
    now : Returned (m0 p) (put_mask s.pid s.previous m p) ⊎ (lists p ss ≡ true)
    now = elim (Bool-cases (p == s.pid)) [
      | inl e ↦ inl (rw e (k e, inr refl))
      | inr e ↦ elim h [ inl x ↦ inl (rw e x) | inr l ↦ inr (rw e at l) ]
    ]

abbrev joined : List SavedMask × Masks × Bool → List SavedMask × Masks
joined (saved, m, fine) = (saved, m)

-- The daemons are served one after another as if they were one.
set_each-append :
    (env : IsolationEnv) (mask : ℕ) (ps qs : List ℕ) (saved : List SavedMask) (m : Masks)
    → let r = set_each env mask ps saved m in
      joined (set_each env mask (ps ++ qs) saved m) ≡ joined (set_each env mask qs r.0 r.1)
unfolding set_each
set_each-append env mask [] qs saved m = refl
set_each-append env mask (p ∷ ps) qs saved m =
    let r = save_and_set env p mask saved m in set_each-append env mask ps qs r.0 r.1

daemons_each-flat :
    (env : IsolationEnv) (groups : List (List ℕ)) (saved : List SavedMask) (m : Masks)
    → joined (daemons_each env groups saved m)
      ≡ joined (set_each env env.system_mask (flat groups) saved m)
unfolding daemons_each set_each
daemons_each-flat env [] saved m = refl
daemons_each-flat env (ps ∷ rest) saved m =
    let r = set_each env env.system_mask ps saved m in
    daemons_each-flat env rest r.0 r.1
    ∙ sym (set_each-append env env.system_mask ps (flat rest) saved m)

Unsaved-nil : (pids : List ℕ) → Unsaved [] pids
Unsaved-nil [] = tt
Unsaved-nil (p ∷ ps) = (refl, Unsaved-nil ps)

Unsaved-Outside :
    (saved : List SavedMask) (game pids : List ℕ)
    → ((q : ℕ) → Outside q game → lists q saved ≡ false)
    → All (λ q. Outside q game) pids
    → Unsaved saved pids
Unsaved-Outside saved game [] k o = tt
Unsaved-Outside saved game (q ∷ qs) k (o, os) = (k q o, Unsaved-Outside saved game qs k os)

-- If no process is listed twice and the masks can be set when the game ends: whichever calls of
-- Apply failed, every process may run after Restore on the same of the first 64 CPUs as before Apply.
-- Of the CPUs above it has the same as before, or none.
pub isolate-unisolate :
    (env later : IsolationEnv) (game_pids : List ℕ) (m : Masks) (p : ℕ)
    → Distinct game_pids
    → Distinct (flat env.daemon_pids)
    → All (λ q. Outside q game_pids) (flat env.daemon_pids)
    → ((k : ℕ) → later.set_fails k ≡ false)
    → let (saved, m', fine) = isolate env game_pids m in
      Returned (m p) ((unisolate later saved m').1 p)
unfolding isolate unisolate
isolate-unisolate env later game_pids m p d d2 o w =
    let r = set_each env env.gaming_mask game_pids [] m in
    let (t1, kept) =
      set_each-Grown env m env.gaming_mask game_pids [] m (λ q. (tt, inl refl))
        (Unsaved-nil game_pids) d in
    let (t2, rest) =
      set_each-Grown env m env.system_mask (flat env.daemon_pids) r.0 r.1 t1
        (Unsaved-Outside r.0 game_pids (flat env.daemon_pids) kept o) d2 in
    let r2 = daemons_each env env.daemon_pids r.0 r.1 in
    let t3 : Tracks m r2.0 r2.1 =
      subst (λ (j : List SavedMask × Masks). Tracks m j.0 j.1)
        (sym (daemons_each-flat env env.daemon_pids r.0 r.1)) t2 in
    set_back_lem later m r2.0 r2.1 p w (t3 p).0 (elim (t3 p).1 [
      | inl e ↦ inl (ap (λ (x : Mask). x.word) e, inl (ap (λ (x : Mask). x.rest) e))
      | inr l ↦ inr l
    ])
