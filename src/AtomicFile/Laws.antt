-- ===== src/AtomicFile/Laws.antt =====
-- What the two ways of writing a state file leave on the disk.
use hisnos_secure_workstatio.Common.{
  ℕ, zero, suc, ◌≡◌, refl, ◌⊎◌, inl, inr, Bool, true, none, some, arith, take, false, ◌||◌,
  if◌then◌else◌,
}
use hisnos_secure_workstatio.AtomicFile.{
  whole, partial, create_temp, write_temp, rename_temp, write_unchecked, Disk, FileStep, file_steps,
  apply_step, run_steps, write_atomic,
}

module _ {ℓ} {B : Type ℓ} where
  -- The careful writer succeeds exactly when no call failed; then the state file holds the new
  -- bytes. Otherwise it is what it was. Either way no temporary file stays behind.
  pub write_atomic_lem :
      (fails : FileStep → Bool) (b : B) (d : Disk B)
      → ((write_atomic fails b d).0.temp ≡ none)
        × (((write_atomic fails b d).1 ≡ none) × ((write_atomic fails b d).0.live ≡ some (whole b))
            ⊎ ((s : FileStep) × ((write_atomic fails b d).1 ≡ some s)
                × (fails s ≡ true)
                × ((write_atomic fails b d).0.live ≡ d.live)))
  unfolding write_atomic
  write_atomic_lem fails b d = ground arith

  -- A crash after any number of the calls leaves the old file or the whole new one.
  pub run_steps_crash :
      (b : B) (d : Disk B) (k : ℕ)
      → ((run_steps (whole b) (take k file_steps) d).live ≡ d.live)
        ⊎ ((run_steps (whole b) (take k file_steps) d).live ≡ some (whole b))
  unfolding run_steps apply_step
  run_steps_crash b d zero = inl refl
  run_steps_crash b d (suc zero) = inl refl
  run_steps_crash b d (suc (suc zero)) = inl refl
  run_steps_crash b d (suc (suc (suc zero))) = inl refl
  run_steps_crash b d (suc (suc (suc (suc zero)))) = inl refl
  run_steps_crash b d (suc (suc (suc (suc (suc zero))))) = inr refl
  run_steps_crash b d (suc (suc (suc (suc (suc (suc k)))))) = inr refl

  -- The careless writer: where the temporary file cannot be created or renamed, the state file is
  -- what it was; otherwise it holds the new bytes, or only a part of them if the write failed.
  pub write_unchecked_lem :
      (fails : FileStep → Bool) (b : B) (d : Disk B)
      → let live = (write_unchecked fails (whole b) d).live in
        ((fails create_temp || fails rename_temp) ≡ true) × (live ≡ d.live)
        ⊎ (((fails create_temp || fails rename_temp) ≡ false)
            × (live ≡ some (if fails write_temp then partial else whole b)))
  unfolding write_unchecked
  write_unchecked_lem fails b d = ground arith
