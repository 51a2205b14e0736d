-- ===== src/Onboarding/Wizard.antt =====
-- onboarding/backend/state/state.go: the flags of the steps, and what a restart finds of them.
use text.Mathlib.TextEquality.{eq_iff}
use hisnos_secure_workstatio.Common.{
  ◌≡◌, refl, sym, ap, ◌∙◌, inl, inr, Bool, true, false, none, some, List, [], ◌∷◌, String,
  Bool-cases, Option-cases, arith, if◌then◌else◌,
}
use hisnos_secure_workstatio.AtomicFile.{Json, whole, Disk, FileStep, write_atomic}
use hisnos_secure_workstatio.AtomicFile.Laws.{write_atomic_lem}
use hisnos_secure_workstatio.State.Manager.{failed_step}
use hisnos_secure_workstatio.Onboarding.{
  StepName, welcome, other, step_eq, StepState, OnboardingState, put_step, lookup_step, done,
  step_marked, Manager, close_unchecked, state_or_reset, load, new_manager, persist, update,
  mark_step_complete,
}

step_eq-eq : (a b : StepName) → step_eq a b ≡ true → a ≡ b
step_eq-eq (other a) (other b) h = ap other ((eq_iff a b).0 h)
step_eq-eq welcome b h = ground arith
step_eq-eq _ b h = ground arith

step_eq_refl : (a : StepName) → step_eq a a ≡ true
step_eq_refl (other a) = (eq_iff a a).1 refl
step_eq_refl welcome = refl
step_eq_refl _ = refl

step_eq-apart :
    (k step t : StepName) → step_eq k step ≡ false → step_eq k t ≡ true → step_eq step t ≡ false
step_eq-apart k step t e h = elim (Bool-cases (step_eq step t)) [
  | inl q ↦
      let same : k ≡ step = step_eq-eq k t h ∙ sym (step_eq-eq step t q) in
      let yes : step_eq k step ≡ true = ap (λ x. step_eq x step) same ∙ step_eq_refl step in cc
  | inr q ↦ q
]

lookup_step-put_step :
    (t step : StepName) (v : StepState) (ss : List (StepName × StepState))
    → lookup_step t (put_step step v ss) ≡ (if step_eq step t then some v else lookup_step t ss)
unfolding lookup_step put_step
lookup_step-put_step t step v [] = refl
lookup_step-put_step t step v ((k, w) ∷ ss) = elim (Bool-cases (step_eq k step)) [
  | inl e ↦
      let same : k ≡ step = step_eq-eq k step e in
      rw (e, same) (elim (Bool-cases (step_eq step t)) [ inl q ↦ rw q refl | inr q ↦ rw q refl ])
  | inr e ↦
      rw (e, lookup_step-put_step t step v ss)
        (elim (Bool-cases (step_eq k t)) [
          | inl q ↦ rw (q, step_eq-apart k step t e q) refl
          | inr q ↦ rw q refl
        ])
]

module _ {B : Type 0} (json : Json OnboardingState B) where
  -- What a marked step does to the flags, written or not.
  pub mark_step_complete-lookup_step :
      (fails : FileStep → Bool) (t step : StepName) (m : Manager B)
      → lookup_step t (mark_step_complete json fails step m).0.state.steps
        ≡ (if step_eq step t then some done else lookup_step t m.state.steps)
  unfolding mark_step_complete update step_marked
  mark_step_complete-lookup_step fails t step m = lookup_step-put_step t step done m.state.steps

  persist-live :
      (fails : FileStep → Bool) (s : OnboardingState) (d : Disk B)
      → (persist json fails s d).1 ≡ none
      → (b : B) × (json.marshal_indent s ≡ some b)
        × ((persist json fails s d).0.live ≡ some (whole b))
  unfolding persist
  persist-live fails s d ok = elim (Option-cases (json.marshal_indent s)) [
    | inl e ↦ let bad = rw (e, persist) at ok in cc
    | inr (b, e) ↦
        let ok' : failed_step (write_atomic (close_unchecked fails) b d).1 ≡ none =
          rw (e, persist) at ok in
        (
          b,
          e,
          rw (e, persist)
              (elim (write_atomic_lem (close_unchecked fails) b d).1 [
                | inl (_, l) ↦ l
                | inr (s', q, _, _) ↦ let bad = rw q at ok' in cc
              ]),
        )
  ]

  -- A step that is marked without an error is still marked after a restart, if the encoding of the
  -- state reads back: the new process has the same state.
  pub mark_step_complete-new_manager :
      (fails : FileStep → Bool) (step : StepName) (later : String) (m : Manager B)
      → ((b : B)
          → json.marshal_indent (step_marked step m.state) ≡ some b
          → json.unmarshal b ≡ some (step_marked step m.state))
      → (mark_step_complete json fails step m).1 ≡ none
      → new_manager json later (mark_step_complete json fails step m).0.disk
        ≡ (mark_step_complete json fails step m).0
  unfolding mark_step_complete update new_manager
  mark_step_complete-new_manager fails step later m decodes ok =
      let (b, e, l) = persist-live fails (step_marked step m.state) m.disk ok in
      let d = (persist json fails (step_marked step m.state) m.disk).0 in
      ap (λ s. record { state = s; disk = d })
        (ap (load json later) l ∙ ap (state_or_reset json later) (decodes b e))
