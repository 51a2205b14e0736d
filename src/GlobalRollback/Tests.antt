-- ===== src/GlobalRollback/Tests.antt =====
-- core/orchestrator/global_rollback.go with the two hooks of core/main.go, in a world that is the active
-- profile and the rules of the firewall.
use text.Mathlib.Text.{◌==◌ as str_eq}
use hisnos_secure_workstatio.Common.{◌≡◌, refl, true, false, some, [], ◌∷◌, String, if◌then◌else◌}
use hisnos_secure_workstatio.GlobalRollback.{
  SubsystemHook, GlobalRollback, take_snapshot, rollback_to_latest, performance_hook, firewall_hook,
}
use hisnos_secure_workstatio.GlobalRollback.Restore.{take_snapshot-rollback_to_latest}

record World : Type 0 where
  profile : String
  rules : String

-- The manager of profiles knows one profile, and nft loads its file.
abbrev performance : SubsystemHook World String
performance =
    performance_hook (λ (w : World). w.profile)
      (λ p w. if str_eq p "balanced" then (record w { profile = p }, false) else (w, true))

abbrev firewall : SubsystemHook World String
firewall = firewall_hook (λ w. (record w { rules = "canonical" }, false))

abbrev two : GlobalRollback World String
two = record { hooks = performance ∷ firewall ∷ []; snapshots = []; next_id = 0 }

abbrev before : World
before = record { profile = "balanced"; rules = "strict" }

abbrev after : World
after = record { profile = "performance"; rules = "open" }

take_snapshot-rollback_to_latest_example :
    rollback_to_latest after (take_snapshot 5 before two).0
    ≡ some (
      record { snapshot_id = 1; succeeded = "firewall" ∷ "performance" ∷ []; failed = [] },
      record { profile = "balanced"; rules = "canonical" },
    )
unfolding take_snapshot
take_snapshot-rollback_to_latest_example =
    take_snapshot-rollback_to_latest 5 before after two ((refl, tt), (tt, tt))
