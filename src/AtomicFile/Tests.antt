-- ===== src/AtomicFile/Tests.antt =====
-- A codec for tests, and the two writers run on a disk that is full.
use hisnos_secure_workstatio.Common.{ℕ, ◌≡◌, refl, Bool, true, false, none, some}
use hisnos_secure_workstatio.AtomicFile.{
  Json, Disk, FileStep, write_temp, partial, whole, write_atomic, write_unchecked,
}

-- A codec whose bytes are the states themselves.
abbrev pub plain : (S : Type 0) → Json S S
plain S = record { marshal_indent = some; unmarshal = some }

abbrev pub no_fault : FileStep → Bool
no_fault s = false

-- A full disk: only the write fails.
abbrev pub disk_full : FileStep → Bool
disk_full write_temp = true
disk_full _ = false

abbrev seven : Disk ℕ
seven = record { live = some (whole 7); temp = none }

write_atomic_full : write_atomic disk_full 8 seven ≡ (seven, some write_temp)
unfolding write_atomic
write_atomic_full = refl

write_unchecked_full : (write_unchecked disk_full (whole 8) seven).live ≡ some partial
unfolding write_unchecked
write_unchecked_full = refl
