-- ===== src/DeploymentGraph/Tests.antt =====
-- The deployment graph at concrete histories.
use hisnos_secure_workstatio.Common.{
  ◌+◌, ◌≡◌, ◌⊎◌, refl, true, false, none, some, List, [], ◌∷◌, count_if, String, pos, arith,
}
use hisnos_secure_workstatio.AtomicFile.{Json}
use hisnos_secure_workstatio.AtomicFile.Tests.{no_fault}
use hisnos_secure_workstatio.DeploymentGraph.{
  DeploymentRecord, StatusEntry, Host, is_active, rec_of, find_booted, graph_status,
  DeploymentGraphManager, record_current, min_stable_age,
}
use hisnos_secure_workstatio.DeploymentGraph.History.{Distinct, record_current-Distinct}

abbrev host : Host
host = record { now = 900; services_ok = true; overrides = false; boot_time_sec = pos 20 }

abbrev listed : String → StatusEntry
listed h = record { checksum = h; version = "41"; timestamp = 5; booted = true }

-- Checksums as rpm-ostree has them.
abbrev commit_a : String
commit_a = "a0123456789abcdef0123456789abcdef0123456789abcdef0123456789abcde"

abbrev commit_b : String
commit_b = "b0123456789abcdef0123456789abcdef0123456789abcdef0123456789abcde"

abbrev commit_c : String
commit_c = "c0123456789abcdef0123456789abcdef0123456789abcdef0123456789abcde"

abbrev retired : DeploymentRecord
retired = record (rec_of host (listed commit_a)) { retired_at = 800 }

abbrev slow : DeploymentRecord
slow = record (rec_of host (listed commit_b)) {
  retired_at = 5 + min_stable_age;
  boot_time_sec = pos 90;
}

abbrev nodes : List DeploymentRecord
nodes = retired ∷ slow ∷ rec_of host (listed commit_c) ∷ []

abbrev listing : Json (List DeploymentRecord) String
listing = record { marshal_indent = λ ns. some "[]"; unmarshal = λ t. none }

abbrev graph : DeploymentGraphManager String
graph = record { nodes = nodes; disk = record { live = none; temp = none } }

record_current-Distinct_example :
    let (m', failed) = record_current listing no_fault host (listed commit_a ∷ []) graph in
    Distinct m'.nodes
    × ((failed ≡ true) × (m' ≡ graph)
        ⊎ ((failed ≡ false)
            × (count_if is_active m'.nodes ≡ 1)
            × (d : StatusEntry) × (find_booted (listed commit_a ∷ []) ≡ some d)
            × ((graph_status 950 m'.nodes).active_commit ≡ d.checksum)))
record_current-Distinct_example =
    record_current-Distinct listing no_fault host (listed commit_a ∷ []) graph 950 (omega arith)
      ((refl, (refl, tt)), ((refl, tt), (tt, tt)))
