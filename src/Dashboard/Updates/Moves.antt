-- ===== src/Dashboard/Updates/Moves.antt =====
-- dashboard/backend/api/update.go: the modes that preparing and rolling back go through.
use mathlib.Core.Path.{subst}
use hisnos_secure_workstatio.Common.{
  ℕ, zero, suc, ◌≡◌, refl, sym, ap, ◌∙◌, ◌⊎◌, inl, inr, Bool, true, false, ◌||◌, Option, none, some,
  String, ◌==◌, Bool-cases, Option-cases, arith, if◌then◌else◌,
}
use hisnos_secure_workstatio.AtomicFile.{Json}
use hisnos_secure_workstatio.ControlPlane.{
  Mode, update_preparing, update_pending, rollback_mode, SystemState, UpdateFacts,
}
use hisnos_secure_workstatio.ControlPlane.Modes.{mode_eq, allowed}
use hisnos_secure_workstatio.ControlPlane.Manager.{
  Manager, Env as ManagerEnv, Error, file_error, transitions, updates, step,
}
use hisnos_secure_workstatio.ControlPlane.Manager.Laws.{step-Wrote, ensure_loaded_of_valid}
use hisnos_secure_workstatio.Dashboard.{
  refused, transition_invalid, internal_error, streamed, Env, manager_refused, Served,
  with_snapshot, after_snapshot, if_changed,
}
use hisnos_secure_workstatio.Dashboard.Updates.{
  final_code, move, note_facts, finish_prepare, stream_prepare, prepare_loaded, update_prepare,
  prepared_facts,
}

-- The mode after a transition is asked for, written or not.
abbrev pub moved : Mode → Mode → Mode
moved from to = if mode_eq from to || allowed from to then to else from

-- A loaded manager in a mode.
abbrev pub In : {B : Type 0} → Manager B → Mode → Type 0
In m mode = (m.cache_valid ≡ true) × (m.cached.mode ≡ mode)

-- A mode that preparing may begin in is one that it may go back to.
return_lem :
    (from : Mode) → allowed from update_preparing ≡ true → moved update_preparing from ≡ from
unfolding allowed
return_lem from h = ground arith

pending_lem : moved update_preparing update_pending ≡ update_pending
unfolding allowed
pending_lem = refl

if_changed-none :
    {B : Type 0} (rest : Manager B → Served B) (t : Manager B × Option Error)
    → t.1 ≡ none
    → if_changed rest t ≡ rest t.0
if_changed-none rest (m, none) e = refl
if_changed-none rest (m, some x) e = absurd (let bad : some x ≡ none = e in cc)

if_changed-some :
    {B : Type 0} (rest : Manager B → Served B) (t : Manager B × Option Error) (x : Error)
    → t.1 ≡ some x
    → if_changed rest t ≡ (t.0, manager_refused x)
if_changed-some rest (m, none) x e = absurd (let bad : none ≡ some x = e in cc)
if_changed-some rest (m, some y) x e =
    let same : some y ≡ some x = e in let q : y ≡ x = cc in rw q refl

moved_of :
    (from to : Mode) (b : Bool)
    → (mode_eq from to || allowed from to) ≡ b
    → moved from to ≡ (if b then to else from)
moved_of from to b e = rw e refl

module _ {B : Type 0} (json : Json SystemState B) where
  pub with_snapshot_of_valid :
      (env : Env) (rest : Manager B → Served B) (m : Manager B)
      → m.cache_valid ≡ true
      → with_snapshot json env rest m ≡ rest m
  with_snapshot_of_valid env rest m v =
      ap (after_snapshot rest) (ensure_loaded_of_valid json (env.manager 0) m v)

  pub move-In :
      (env : ManagerEnv) (to : Mode) (action meta : String) (m : Manager B) (from : Mode)
      → In m from
      → In (move json env to action meta m) (moved from to)
  move-In env to action meta m from (v, e) =
      elim (step-Wrote json env (transitions to action meta) m v) [
        | inl (a, (w, k, _)) ↦
            (k ∙ v, ap (λ (s : SystemState). s.mode) w ∙ sym (moved_of from to true (rw e at a)))
        | inr (a, r) ↦ (
          ap (λ (t : Manager B × Option Error). t.0.cache_valid) r ∙ v,
          ap (λ (t : Manager B × Option Error). t.0.cached.mode) r
              ∙ (e ∙ sym (moved_of from to false (rw e at a))),
        )
      ]

  pub note_facts-In :
      (env : ManagerEnv) (facts : UpdateFacts) (action : String) (m : Manager B) (mode : Mode)
      → In m mode
      → In (note_facts json env facts action m) mode
  note_facts-In env facts action m mode (v, e) =
      elim (step-Wrote json env (updates facts action "{}") m v) [
        | inl (a, (w, k, _)) ↦ (k ∙ v, ap (λ (s : SystemState). s.mode) w ∙ e)
        | inr (a, r) ↦ let bad : true ≡ false = a in cc
      ]

  -- How a request to prepare may end.
  abbrev pub PrepareOutcome : Mode → Served B → Type 0
  PrepareOutcome mode t =
      In t.0 mode
      ⊎ (In t.0 update_pending × (t.1 ≡ streamed 0)
          ⊎ In t.0 update_preparing × (t.1 ≡ internal_error))

  reverted :
      (env : ManagerEnv) (previous : Mode) (action meta : String) (m : Manager B)
      → allowed previous update_preparing ≡ true
      → In m update_preparing
      → In (move json env previous action meta m) previous
  reverted env previous action meta m a i =
      subst (In (move json env previous action meta m)) (return_lem previous a)
        (move-In env previous action meta m update_preparing i)

  finish_prepare-Outcome :
      (env : Env) (previous : Mode) (code : ℕ) (m : Manager B)
      → allowed previous update_preparing ≡ true
      → In m update_preparing
      → PrepareOutcome previous (finish_prepare json env previous code m, streamed code)
  unfolding finish_prepare
  finish_prepare-Outcome env previous zero m a i = inr (
      inl (
        subst (In (finish_prepare json env previous 0 m)) pending_lem (
            move-In (env.manager 3) update_pending "update_prepare_to_pending_reboot" "{}"
              (note_facts json (env.manager 2) (prepared_facts env) "update_prepare_completed" m)
              update_preparing
              (note_facts-In (env.manager 2) (prepared_facts env) "update_prepare_completed" m
                update_preparing i)),
        refl,
      ))
  finish_prepare-Outcome env previous (suc code) m a i =
      let other : (suc code == 0) ≡ false = ground arith in
      rw (finish_prepare, other)
        (inl (
          reverted (env.manager 2) previous "update_prepare_failed" (env.exit_meta (suc code)) m a
            i))

  stream_prepare-Outcome :
      (env : Env) (previous : Mode) (m : Manager B)
      → allowed previous update_preparing ≡ true
      → In m update_preparing
      → PrepareOutcome previous (stream_prepare json env previous m)
  unfolding stream_prepare
  stream_prepare-Outcome env previous m a i = elim (Bool-cases env.streams) [
    | inr n ↦ rw n (inr (inr (i, refl)))
    | inl y ↦ elim (Option-cases env.prepare) [
      | inl e ↦
          rw (stream_prepare, y, e)
            (inl (reverted (env.manager 2) previous "update_prepare_start_failed" "{}" m a i))
      | inr (given, e) ↦
          rw (stream_prepare, y, e) (finish_prepare-Outcome env previous (final_code given) m a i)
    ]
  ]

  -- A transition that is asked for, and the rest of the handler if there is no error.
  pub if_changed-rule :
      (P : Served B → Type 0) (rest : Manager B → Served B) (env : ManagerEnv) (to : Mode)
      (action meta : String) (m : Manager B)
      → m.cache_valid ≡ true
      → (allowed m.cached.mode to ≡ true
          → (m' : Manager B) → In m' to
          → P (rest m') × P (m', internal_error))
      → (allowed m.cached.mode to ≡ false → P (m, refused transition_invalid))
      → mode_eq m.cached.mode to ≡ false
      → P (if_changed rest (step json env (transitions to action meta) m))
  if_changed-rule P rest env to action meta m v changed kept d =
      elim (step-Wrote json env (transitions to action meta) m v) [
        | inl (a, (w, k, inl (ok, _))) ↦
            let m' = (step json env (transitions to action meta) m).0 in
            subst P (sym (if_changed-none rest (step json env (transitions to action meta) m) ok))
              (changed (rw d at a) m' (k ∙ v, ap (λ (s : SystemState). s.mode) w)).0
        | inl (a, (w, k, inr (failed, _))) ↦
            let m' = (step json env (transitions to action meta) m).0 in
            subst P
              (sym (
                if_changed-some rest (step json env (transitions to action meta) m) file_error
                  failed))
              (changed (rw d at a) m' (k ∙ v, ap (λ (s : SystemState). s.mode) w)).1
        | inr (a, r) ↦ subst P (sym (ap (if_changed rest) r)) (kept (rw d at a))
      ]

  prepare_loaded-Outcome :
      (env : Env) (m : Manager B)
      → m.cache_valid ≡ true
      → PrepareOutcome m.cached.mode (prepare_loaded json env m)
  unfolding prepare_loaded
  prepare_loaded-Outcome env m v = elim (Bool-cases (mode_eq m.cached.mode rollback_mode)) [
    | inl y ↦ rw y (inl (v, refl))
    | inr n ↦ elim (Bool-cases (mode_eq m.cached.mode update_preparing)) [
      | inl y ↦ rw (n, y) (inl (v, refl))
      | inr n2 ↦ elim (Bool-cases (mode_eq m.cached.mode update_pending)) [
        | inl y ↦ rw (n, n2, y) (inl (v, refl))
        | inr n3 ↦
            rw (n, n2, n3)
              (if_changed-rule (PrepareOutcome m.cached.mode)
                (stream_prepare json env m.cached.mode) (env.manager 1) update_preparing
                "update_prepare_start" "{}" m v
                (λ a m' i. (stream_prepare-Outcome env m.cached.mode m' a i, inr (inr (i, refl))))
                (λ a. inl (v, refl)) n2)
      ]
    ]
  ]

  -- A request to prepare an update of a loaded manager, whatever the mode and the scripts: the mode is
  -- afterwards what it was, or update-pending-reboot where the reply is the exit code 0. Only where
  -- the reply is an internal error may the mode be left in update-preparing.
  pub update_prepare-Outcome :
      (env : Env) (m : Manager B)
      → m.cache_valid ≡ true
      → PrepareOutcome m.cached.mode (update_prepare json env m)
  unfolding update_prepare
  update_prepare-Outcome env m v = elim (Bool-cases env.update_script) [
    | inr n ↦ rw n (inl (v, refl))
    | inl y ↦ rw y (
        subst (PrepareOutcome m.cached.mode)
          (sym (with_snapshot_of_valid env (prepare_loaded json env) m v))
          (prepare_loaded-Outcome env m v))
  ]
