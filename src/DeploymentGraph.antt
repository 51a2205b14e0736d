-- ===== src/DeploymentGraph.antt =====
-- core/ecosystem/deployment_graph.go: the history of deployments and the scores for a rollback.
-- A time is in nanoseconds since Go's zero time, so that 0 is the time that is not set. One call
-- reads the clock once. What rpm-ostree and systemd answer is an argument.
pub mod History
pub mod Ranking
mod Tests
use text.Mathlib.Text.{◌==◌ as str_eq}
use hisnos_secure_workstatio.Common.{
  ℕ, ◌+◌, ◌-◌, ◌*◌, Bool, true, false, not, ◌&&◌, Option, none, some, List, [], ◌∷◌, ◌++◌, String,
  ℤ, at_least, if◌then◌else◌, ltb, leb, ◌==◌, length, count_if,
}
use hisnos_secure_workstatio.AtomicFile.{
  Json, Content, partial, whole, Disk, FileStep, create_temp, write_unchecked, remove_temp,
}

pub record DeploymentRecord : Type 0 where
  pub commit_hash : String
  pub version : String
  pub timestamp : ℕ
  pub booted_at : ℕ
  pub retired_at : ℕ
  pub boot_time_sec : ℤ
  pub overrides : Bool
  pub services_ok : Bool
  pub audit_clean : Bool
  pub predecessor_hash : String

-- `n.RetiredAt.IsZero()`.
abbrev pub is_active : DeploymentRecord → Bool
is_active n = n.retired_at == 0

abbrev pub has_hash : String → DeploymentRecord → Bool
has_hash h n = str_eq n.commit_hash h

-- What rpm-ostree lists, with times already turned into nanoseconds since Go's zero time.
pub record StatusEntry : Type 0 where
  pub checksum : String
  pub version : String
  pub timestamp : ℕ
  pub booted : Bool

-- What the other commands answer.
pub record Host : Type 0 where
  pub now : ℕ
  pub services_ok : Bool
  pub overrides : Bool
  pub boot_time_sec : ℤ

-- The first entry that is booted.
unfoldable pub find_booted : List StatusEntry → Option StatusEntry
find_booted [] = none
find_booted (d ∷ ds) = if d.booted then some d else find_booted ds

abbrev pub rec_of : Host → StatusEntry → DeploymentRecord
rec_of h d = record {
  commit_hash = d.checksum;
  version = d.version;
  timestamp = d.timestamp;
  booted_at = h.now;
  retired_at = 0;
  boot_time_sec = h.boot_time_sec;
  overrides = h.overrides;
  services_ok = h.services_ok;
  audit_clean = true;
  predecessor_hash = "";
}

-- `none` is the error, also for a booted entry with no checksum.
unfoldable pub introspect_current : Host → List StatusEntry → Option DeploymentRecord
unfolding find_booted
introspect_current h ds = elim (find_booted ds) [
  | none ↦ none
  | some d ↦ if str_eq d.checksum "" then none else some (rec_of h d)
]

-- The first loop of `RecordCurrent`.
unfoldable pub retire : ℕ → String → List DeploymentRecord → List DeploymentRecord
retire now hash [] = []
retire now hash (n ∷ ns) =
    (if is_active n && not (has_hash hash n) then record n { retired_at = now } else n)
    ∷ retire now hash ns

abbrev pub booted_again : DeploymentRecord → DeploymentRecord → DeploymentRecord
booted_again rec n = record n {
  booted_at = rec.booted_at;
  boot_time_sec = rec.boot_time_sec;
  services_ok = rec.services_ok;
  retired_at = 0;
}

-- The second loop, and the append behind it.
unfoldable pub upsert : DeploymentRecord → List DeploymentRecord → List DeploymentRecord
upsert rec [] = rec ∷ []
upsert rec (n ∷ ns) =
    if has_hash rec.commit_hash n then booted_again rec n ∷ ns else n ∷ upsert rec ns

unfoldable pub record_nodes : ℕ → DeploymentRecord → List DeploymentRecord → List DeploymentRecord
record_nodes now rec ns = upsert rec (retire now rec.commit_hash ns)

pub data Reason : Type 0 where
  stable services_healthy no_overrides fast_boot audit_was_clean : Reason

abbrev pub min_stable_age : ℕ
min_stable_age = 7 * 24 * 3600 * 1000000000

abbrev pub age : ℕ → DeploymentRecord → ℕ
age now n =
    if not (n.booted_at == 0) && not (is_active n)
    then n.retired_at - n.timestamp
    else now - n.timestamp

abbrev pub earns : Bool → ℕ → Reason → ℕ × List Reason → ℕ × List Reason
earns c points r (score, reasons) =
    if c then (score + points, reasons ++ r ∷ []) else (score, reasons)

unfoldable pub score_deployment : ℕ → DeploymentRecord → ℕ × List Reason
score_deployment now n = earns n.audit_clean 10 audit_was_clean (
    earns (at_least n.boot_time_sec 1 && not (at_least n.boot_time_sec 45)) 15 fast_boot (
      earns (not n.overrides) 20 no_overrides (
        earns n.services_ok 25 services_healthy
          (earns (leb min_stable_age (age now n)) 30 stable (0, [])))))

pub record RollbackCandidate : Type 0 where
  pub deployment : DeploymentRecord
  pub score : ℕ
  pub reasons : List Reason

abbrev pub min_rollback_score : ℕ
min_rollback_score = 50

-- The test that `SuggestRollback` and `Status` make.
abbrev pub is_candidate : ℕ → DeploymentRecord → Bool
is_candidate now n = not (is_active n) && leb min_rollback_score (score_deployment now n).0

-- The first loop of `SuggestRollback`.
unfoldable pub collect : ℕ → List DeploymentRecord → List RollbackCandidate
collect now [] = []
collect now (n ∷ ns) =
    let rest = collect now ns in
    let (score, reasons) = score_deployment now n in
    if is_candidate now n
    then record { deployment = n; score = score; reasons = reasons } ∷ rest
    else rest

-- The inner loop of the sort: `done` holds the places before `i`, the last one first, and each
-- smaller score moves one place up.
unfoldable pub sink : RollbackCandidate → List RollbackCandidate → List RollbackCandidate
sink key [] = key ∷ []
sink key (c ∷ done) = if ltb c.score key.score then c ∷ sink key done else key ∷ c ∷ done

-- The outer loop; the result has the last place first.
unfoldable pub sort_loop : List RollbackCandidate → List RollbackCandidate → List RollbackCandidate
sort_loop [] done = done
sort_loop (key ∷ rest) done = sort_loop rest (sink key done)

abbrev pub flip : List RollbackCandidate → List RollbackCandidate → List RollbackCandidate
flip [] out = out
flip (c ∷ cs) out = flip cs (c ∷ out)

unfoldable pub suggest_rollback : ℕ → List DeploymentRecord → List RollbackCandidate
suggest_rollback now ns = flip (sort_loop (collect now ns) []) []

pub record GraphStatus : Type 0 where
  pub total_deployments : ℕ
  pub active_commit : String
  pub rollback_candidates : ℕ

-- The hash of the first active node.
unfoldable pub active_hash : List DeploymentRecord → String
active_hash [] = ""
active_hash (n ∷ ns) = if is_active n then n.commit_hash else active_hash ns

unfoldable pub graph_status : ℕ → List DeploymentRecord → GraphStatus
graph_status now ns = record {
  total_deployments = length ns;
  active_commit = active_hash ns;
  rollback_candidates = count_if (is_candidate now) ns;
}

-- The nodes in memory, and the file.
pub record DeploymentGraphManager (B : Type 0) : Type 0 where
  pub nodes : List DeploymentRecord
  pub disk : Disk B

module _ {B : Type 0} (json : Json (List DeploymentRecord) B) where
  -- The deferred os.Remove runs once the temporary file was created.
  unfoldable pub save : (FileStep → Bool) → List DeploymentRecord → Disk B → Disk B
  save fails ns d = elim (json.marshal_indent ns) [
    | none ↦ d
    | some b ↦
        let d' = remove_temp (write_unchecked fails (whole b) d) in
        if fails create_temp then d else d'
  ]

  -- The second part says whether the call reports an error. The log line takes the first twelve bytes of
  -- the hash, which panics for a shorter one; the checksums of rpm-ostree have 64.
  unfoldable pub record_current :
      (FileStep → Bool)
      → Host
      → List StatusEntry
      → DeploymentGraphManager B
      → DeploymentGraphManager B × Bool
  record_current fails h ds m = elim (introspect_current h ds) [
    | none ↦ (m, true)
    | some rec ↦
        let ns = record_nodes h.now rec m.nodes in
        (record { nodes = ns; disk = save fails ns m.disk }, false)
  ]

  abbrev pub nodes_of : Option (List DeploymentRecord) → List DeploymentRecord
  nodes_of none = []
  nodes_of (some ns) = ns

  -- The file missing, cut short or no JSON leaves the graph empty.
  unfoldable pub load_graph : Disk B → DeploymentGraphManager B
  load_graph d = elim d.live [
    | none ↦ record { nodes = []; disk = d }
    | some c ↦ elim c [
      | partial ↦ record { nodes = []; disk = d }
      | whole b ↦ record { nodes = nodes_of (json.unmarshal b); disk = d }
    ]
  ]
