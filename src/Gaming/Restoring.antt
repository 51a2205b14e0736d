-- ===== src/Gaming/Restoring.antt =====
-- gaming/hispowerd: what is remembered of the files is enough to put them back.
use text.Mathlib.TextEquality.{eq_iff}
use hisnos_secure_workstatio.Common.{
  ◌≡◌, refl, sym, ap, ◌∙◌, ◌⊎◌, inl, inr, Bool, true, false, ◌||◌, some, List, [], ◌∷◌, ◌++◌,
  String, All, Bool-cases, Option-cases, arith,
}
use hisnos_secure_workstatio.Gaming.{
  Knob, app_slice, user_service, irq, same, Knobs, put, Env, Saved, is_some, read_knob, write_knob,
  save_and_write, restore_each,
}

pub same-path : (j k : Knob) → same j k ≡ true → j ≡ k
same-path (app_slice s) (app_slice t) q = ap app_slice ((eq_iff s t).0 q)
same-path (user_service s) (user_service t) q = ap user_service ((eq_iff s t).0 q)
same-path (irq n) (irq k) q = ap irq (ground arith)
same-path (app_slice s) (user_service t) q = cc
same-path (app_slice s) (irq k) q = cc
same-path (user_service s) (app_slice t) q = cc
same-path (user_service s) (irq k) q = cc
same-path (irq n) (app_slice t) q = cc
same-path (irq n) (user_service t) q = cc

-- A file that is remembered.
abbrev pub covers : Knob → List Saved → Bool
covers k [] = false
covers k (s ∷ ss) = same k s.knob || covers k ss

pub covers-append :
    (k : Knob) (xs ys : List Saved) → covers k (xs ++ ys) ≡ (covers k xs || covers k ys)
covers-append k [] ys = refl
covers-append k (s ∷ ss) ys = elim (Bool-cases (same k s.knob)) [
  | inl q ↦ rw q refl
  | inr q ↦ rw q (covers-append k ss ys)
]

abbrev Was : Knobs → Saved → Type 0
Was m0 s = m0 s.knob ≡ some s.previous

Was-append :
    (m0 : Knobs) (xs : List Saved) (s : Saved)
    → All (Was m0) xs
    → Was m0 s
    → All (Was m0) (xs ++ s ∷ [])
Was-append m0 [] s a w = (w, tt)
Was-append m0 (x ∷ xs) s a w = (a.0, Was-append m0 xs s a.1 w)

-- A file that differs from what it was is remembered as it was, and no file has gone or come.
abbrev pub Pending : Knobs → List Saved → Knobs → Type 0
Pending m0 saved m =
    ((k : Knob) → (m k ≡ m0 k) ⊎ (covers k saved ≡ true))
    × (All (Was m0) saved)
    × ((k : Knob) → is_some (m k) ≡ is_some (m0 k))

pub Pending-nil : (m : Knobs) → Pending m [] m
Pending-nil m = (λ k. inl refl, tt, λ k. refl)

write_knob-cases :
    (env : Env) (k : Knob) (v : String) (m : Knobs)
    → (write_knob env k v m ≡ (m, false))
      ⊎ ((is_some (m k) ≡ true) × (write_knob env k v m ≡ (put k v m, true)))
unfolding write_knob
write_knob-cases env k v m = elim (Bool-cases (env.write_fails k)) [
  | inl f ↦ inl (rw f refl)
  | inr f ↦ elim (Option-cases (m k)) [
    | inl q ↦ inl (rw (f, q) refl)
    | inr (old, q) ↦ inr (rw q refl, rw (f, q) refl)
  ]
]

pub put-is_some :
    (k : Knob) (v : String) (m : Knobs) (j : Knob)
    → is_some (m k) ≡ true
    → is_some (put k v m j) ≡ is_some (m j)
put-is_some k v m j e = elim (Bool-cases (same j k)) [
  | inl q ↦ rw (q, same-path j k q) (sym e)
  | inr q ↦ rw q refl
]

or_true : (a : Bool) → (a || (true || false)) ≡ true
or_true a = ground arith

put-Pending :
    (m0 : Knobs) (saved : List Saved) (m : Knobs) (k : Knob) (v prev : String)
    → Pending m0 saved m
    → m k ≡ m0 k
    → m k ≡ some prev
    → Pending m0 (saved ++ record { knob = k; previous = prev } ∷ []) (put k v m)
put-Pending m0 saved m k v prev (kept, was, there) same_now e = (
  covered,
  Was-append m0 saved (record { knob = k; previous = prev }) was (sym same_now ∙ e),
  λ j. put-is_some k v m j (rw e refl) ∙ there j,
)
  where
    covered :
        (j : Knob)
        → (put k v m j ≡ m0 j)
          ⊎ (covers j (saved ++ record { knob = k; previous = prev } ∷ []) ≡ true)
    covered j = elim (Bool-cases (same j k)) [
      | inl q ↦ inr (covers-append j saved _ ∙ rw q (or_true (covers j saved)))
      | inr q ↦ elim (kept j) [
        | inl p ↦ inl (rw q p)
        | inr c ↦ inr (covers-append j saved _ ∙ rw c refl)
      ]
    ]

-- Overwriting a file that is still as it was keeps all that is needed to put it back, whatever
-- fails; and no other file is changed.
pub save_and_write-Pending :
    (env : Env) (m0 : Knobs) (saved : List Saved) (m : Knobs) (k : Knob) (v : String)
    → Pending m0 saved m
    → m k ≡ m0 k
    → let (saved', m', fine) = save_and_write env k v saved m in
      Pending m0 saved' m' × ((j : Knob) → same j k ≡ false → m' j ≡ m j)
unfolding save_and_write read_knob
save_and_write-Pending env m0 saved m k v p s = elim (Bool-cases (env.read_fails k)) [
  | inl f ↦ rw f (p, λ j d. refl)
  | inr f ↦ elim (Option-cases (m k)) [
    | inl e ↦ rw (f, e) (p, λ j d. refl)
    | inr (prev, e) ↦ elim (write_knob-cases env k v m) [
      | inl q ↦ rw (f, e, q) (p, λ j d. refl)
      | inr (t, q) ↦ rw (f, e, q) (put-Pending m0 saved m k v prev p s e, λ j d. rw d refl)
    ]
  ]
]

-- No write fails.
abbrev pub WritesWork : Env → Type 0
WritesWork env = (k : Knob) → env.write_fails k ≡ false

write_knob-works :
    (env : Env) (k : Knob) (v : String) (m : Knobs)
    → WritesWork env
    → is_some (m k) ≡ true
    → write_knob env k v m ≡ (put k v m, true)
unfolding write_knob
write_knob-works env k v m w e = elim (Option-cases (m k)) [
  | inl q ↦ let bad = rw q at e in cc
  | inr (old, q) ↦ rw (w k, q) refl
]

put-back :
    (m0 : Knobs) (s : Saved) (ss : List Saved) (m : Knobs)
    → Pending m0 (s ∷ ss) m
    → Pending m0 ss (put s.knob s.previous m)
put-back m0 s ss m (kept, was, there) = (
  covered,
  was.1,
  λ j. put-is_some s.knob s.previous m j (there s.knob ∙ rw was.0 refl) ∙ there j,
)
  where
    covered : (j : Knob) → (put s.knob s.previous m j ≡ m0 j) ⊎ (covers j ss ≡ true)
    covered j = elim (Bool-cases (same j s.knob)) [
      | inl q ↦ inl (rw (q, same-path j s.knob q) (sym was.0))
      | inr q ↦ elim (kept j) [ inl p ↦ inl (rw q p) | inr c ↦ inr (rw q at c) ]
    ]

-- If no write fails, restoring puts every file back and reports no error.
pub restore_each-Pending :
    (env : Env) (m0 : Knobs) (saved : List Saved) (m : Knobs)
    → WritesWork env
    → Pending m0 saved m
    → let (m', fine) = restore_each env saved m in ((k : Knob) → m' k ≡ m0 k) × (fine ≡ true)
unfolding restore_each
restore_each-Pending env m0 [] m w (kept, was, there) = (back, refl)
  where
    back : (k : Knob) → m k ≡ m0 k
    back k = elim (kept k) [ inl p ↦ p | inr c ↦ cc ]
restore_each-Pending env m0 (s ∷ ss) m w p =
    let present = p.2 s.knob ∙ ap is_some p.1.0 in
    rw (write_knob-works env s.knob s.previous m w present)
      (restore_each-Pending env m0 ss (put s.knob s.previous m) w (put-back m0 s ss m p))
