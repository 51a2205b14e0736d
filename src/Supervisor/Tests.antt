-- ===== src/Supervisor/Tests.antt =====
-- core/supervisor/supervisor.go at a concrete check and a concrete history of crashes.
use hisnos_secure_workstatio.Common.{
  ◌≡◌, ◌↔◌, ◌≤◌, refl, arith, true, false, none, [], ◌∷◌, count_if, ◌*◌,
}
use hisnos_secure_workstatio.AtomicFile.Tests.{plain, disk_full}
use hisnos_secure_workstatio.State.{SystemState, normal, default_state}
use hisnos_secure_workstatio.Supervisor.{
  logd, Probe, Supervised, ServiceEntry, check_all, attempt_restart, escalates, is_recent, second,
}
use hisnos_secure_workstatio.Supervisor.Observing.{seen, check_all-seen}
use hisnos_secure_workstatio.Supervisor.Budget.{crashes_at, attempt_restart-budget}

-- Only logd runs, and the disk is full.
abbrev down : Probe
down = record {
  now = 9;
  fails = disk_full;
  is_active = λ svc. elim svc [ logd ↦ true | _ ↦ false ];
  is_vault_mounted = true;
}

abbrev booted : Supervised SystemState
booted = record {
  manager = record {
    state = record (default_state 5) {
      firewall = record { active = true; enforced_profile = "default"; last_reload = 0 };
    };
    disk = record { live = none; temp = none };
  };
  bus = [];
}

check_all-seen_example :
    let s = booted.manager.state in
    let t = (check_all (plain SystemState) down booted).0.manager.state in
    (t.subsystems ≡ seen down)
    × (t.firewall.active ≡ false)
    × (t.vault.mounted ≡ true)
    × (t.mode ≡ normal)
    × (t.risk ≡ s.risk)
    × (t.lab ≡ s.lab)
check_all-seen_example = check_all-seen (plain SystemState) down booted

abbrev fresh : ServiceEntry
fresh = record { crash_times = []; restart_delay = 0 }

attempt_restart-budget_example :
    ((attempt_restart (90 * second) (crashes_at (0 ∷ (30 * second) ∷ (60 * second) ∷ []) fresh)).1
      ≡ escalates)
    ↔ (3 ≤ count_if (is_recent (90 * second)) (0 ∷ (30 * second) ∷ (60 * second) ∷ []))
attempt_restart-budget_example =
    attempt_restart-budget (0 ∷ (30 * second) ∷ (60 * second) ∷ []) (90 * second) fresh refl
      ((omega arith, (omega arith, tt)), ((omega arith, tt), (tt, tt)))
