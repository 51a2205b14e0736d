-- ===== src/State/Manager/Laws.antt =====
-- What `Update` promises: the state in memory, the file, and a later start of the daemon.
use hisnos_secure_workstatio.Common.{
  ℕ, ◌≡◌, refl, ◌⊎◌, inl, inr, Bool, false, Option, none, some, is_int, arith, Option-cases,
  Bool-cases, ap,
}
use hisnos_secure_workstatio.AtomicFile.{Json, whole, Disk, FileStep}
use hisnos_secure_workstatio.AtomicFile.Laws.{write_atomic_lem}
use hisnos_secure_workstatio.State.{SystemState}
use hisnos_secure_workstatio.State.Manager.{
  Manager, PersistError, marshal_failed, file_failed, failed_step, new_manager, persist, updated,
  update,
}

pub updated_version :
    (now : ℕ) (f : SystemState → SystemState) (s : SystemState)
    → is_int (updated now f s).version 0 ≡ false
unfolding updated
updated_version now f s = ground arith

-- `Update` gives the fields that the callback left, but for the time and the version.
pub updated_fields :
    (now : ℕ) (f : SystemState → SystemState) (s : SystemState)
    → let t = updated now f s in
      (t.mode ≡ (f s).mode)
      × (t.risk ≡ (f s).risk)
      × (t.vault ≡ (f s).vault)
      × (t.lab ≡ (f s).lab)
      × (t.firewall ≡ (f s).firewall)
      × (t.subsystems ≡ (f s).subsystems)
unfolding updated
updated_fields now f s = elim (Bool-cases (is_int (f s).version 0)) [
  | inl e ↦ rw e (refl, refl, refl, refl, refl, refl)
  | inr e ↦ rw e (refl, refl, refl, refl, refl, refl)
]

pub updated-mode :
    (now : ℕ) (f : SystemState → SystemState) (s : SystemState)
    → (updated now f s).mode ≡ (f s).mode
updated-mode now f s = (updated_fields now f s).0

module _ {B : Type 0} (json : Json SystemState B) where
  -- The file after `persist`: on success the new bytes, else what was there.
  abbrev pub Persisted : SystemState → Disk B → Disk B × Option PersistError → Type 0
  Persisted s d r =
      ((r.1 ≡ none) × (b : B) × (json.marshal_indent s ≡ some b) × (r.0.live ≡ some (whole b)))
      ⊎ ((e : PersistError) × (r.1 ≡ some e) × (r.0.live ≡ d.live))

  pub persist-Persisted :
      (fails : FileStep → Bool) (s : SystemState) (d : Disk B)
      → Persisted s d (persist json fails s d)
  unfolding persist
  persist-Persisted fails s d = elim (Option-cases (json.marshal_indent s)) [
    | inl e ↦ rw (e, persist) (inr (marshal_failed, refl, refl))
    | inr (b, e) ↦
        rw (e, persist)
          (elim (write_atomic_lem fails b d).1 [
            | inl (q, l) ↦ inl (ap failed_step q, b, refl, l)
            | inr (s', q, _, l) ↦ inr (file_failed s', ap failed_step q, l)
          ])
  ]

  -- Whether or not the write succeeds, the state in memory is the new one, with a version that is
  -- not 0. The file holds the encoding of that state if no error is returned, and otherwise what
  -- it held before.
  pub update-Persisted :
      (fails : FileStep → Bool) (now : ℕ) (f : SystemState → SystemState) (m : Manager B)
      → let (m', e) = update json fails now f m in
        (m'.state ≡ updated now f m.state)
        × (is_int m'.state.version 0 ≡ false)
        × Persisted m'.state m.disk (m'.disk, e)
  unfolding update
  update-Persisted fails now f m =
      (refl, updated_version now f m.state, persist-Persisted fails (updated now f m.state) m.disk)

  -- After an `Update` that reports no error a new process loads the state of this one, if the
  -- encoding of that state reads back.
  pub update-new_manager :
      (fails : FileStep → Bool) (now later : ℕ) (f : SystemState → SystemState) (m : Manager B)
      → ((b : B)
          → json.marshal_indent (updated now f m.state) ≡ some b
          → json.unmarshal b ≡ some (updated now f m.state))
      → (update json fails now f m).1 ≡ none
      → new_manager json later (update json fails now f m).0.disk
        ≡ ((update json fails now f m).0, none)
  unfolding new_manager update
  update-new_manager fails now later f m decodes ok = elim (update-Persisted fails now f m).2 [
    | inl (_, b, e, l) ↦ rw (l, new_manager, decodes b e, updated_version now f m.state) refl
    | inr (e, q, _) ↦ cc
  ]
