-- ===== src/Containment/Tests.antt =====
-- core/security/containment/containment.go on a host with one suspicious process.
use hisnos_secure_workstatio.Common.{refl, true, false, some, List, [], ◌∷◌, ◌==◌}
use hisnos_secure_workstatio.Containment.{Host, new_manager, Env, emergency_restore}
use hisnos_secure_workstatio.Containment.Histories.{
  Measure, contains, quarantines, remounts, take_measures, Free, take_measures-emergency_restore,
}

abbrev usual : Env
usual = record {
  temp_file_written = true;
  nft_loads = true;
  nft_deletes = true;
  cgroup_made = true;
  moves_in = λ p. true;
  moves_out = λ p. true;
  abs = some;
  remounts_read_only = λ p. true;
  remounts_writable = λ p. true;
}

-- One process cannot be moved, and nft does not work.
abbrev troubled : Env
troubled = record usual { moves_in = λ p. p == 7; nft_deletes = false }

abbrev free : Host
free = record { table = false; quarantined = λ p. false; read_only = λ p. false }

abbrev attack : List (Env × Measure)
attack =
    (usual, contains) ∷ (troubled, quarantines (7 ∷ 8 ∷ [])) ∷ (usual, remounts ("/home" ∷ [])) ∷ []

take_measures-emergency_restore_example :
    Free (emergency_restore usual (take_measures attack (new_manager, free))).1
take_measures-emergency_restore_example =
    take_measures-emergency_restore attack usual free (refl, λ p. refl, λ p. refl)
      (refl, λ p. refl, λ p. refl)
