-- ===== src/State/Tests.antt =====
-- The state manager at concrete states.
use hisnos_secure_workstatio.Common.{◌≡◌, refl, sym, none}
use hisnos_secure_workstatio.AtomicFile.{write_atomic}
use hisnos_secure_workstatio.AtomicFile.Tests.{plain, no_fault}
use hisnos_secure_workstatio.State.{SystemState, safe_mode, default_state}
use hisnos_secure_workstatio.State.Manager.{Manager, new_manager, update}
use hisnos_secure_workstatio.State.Manager.Laws.{update-new_manager}

abbrev fresh : Manager SystemState
fresh = record { state = default_state 5; disk = record { live = none; temp = none } }

abbrev enter : SystemState → SystemState
enter s = record s { mode = safe_mode }

update-new_manager_example :
    new_manager (plain SystemState) 12 (update (plain SystemState) no_fault 9 enter fresh).0.disk
    ≡ ((update (plain SystemState) no_fault 9 enter fresh).0, none)
unfolding update write_atomic
update-new_manager_example =
    update-new_manager (plain SystemState) no_fault 9 12 enter fresh (λ b e. sym e) refl
