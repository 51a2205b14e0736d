-- ===== src/Gaming/Tests.antt =====
-- gaming/hispowerd: sessions on a machine with two services and one network card.
use hisnos_secure_workstatio.Common.{
  ◌≡◌, refl, true, false, none, some, [], ◌∷◌, ◌==◌, if◌then◌else◌,
}
use hisnos_secure_workstatio.Gaming.{
  app_slice, user_service, irq, Knobs, put, same, Config, Env, throttle_apply,
}
use hisnos_secure_workstatio.Gaming.Irq.{irq_apply}
use hisnos_secure_workstatio.Gaming.Isolation.{Masks, IsolationEnv, isolate, unisolate}
use hisnos_secure_workstatio.Gaming.Isolation.Unisolating.{Returned, isolate-unisolate}
use hisnos_secure_workstatio.Gaming.Session.{Session, nothing_applied, start_gaming, stop_gaming}
use hisnos_secure_workstatio.Gaming.Sessions.{start-stop_gaming}

-- One service in each place, and interrupt 40.
abbrev initial_files : Knobs
initial_files =
    put (app_slice "hisnos-logd.service") "max 100000"
      (put (user_service "hisnos-threatd.service") "50000 100000" (put (irq 40) "f" (λ k. none)))

abbrev shipped : Config
shipped = record {
  throttle_daemons = "hisnos-threatd.service" ∷ "hisnos-logd.service" ∷ [];
  vault_idle_timer = "hisnos-vault-idle.timer";
  gaming_hex = "c";
}

abbrev usual : Env
usual = record {
  read_fails = λ k. false;
  write_fails = λ k. false;
  denied = λ k. false;
  systemctl_works = true;
  irqs = some (40 ∷ []);
  nft_file_exists = true;
  nft_loads = true;
  nft_deletes = true;
  isolates = true;
  unisolates = true;
  tunes = true;
  mode_sets = true;
  state_writes = true;
}

-- The second service cannot be written, and the interrupts cannot be read.
abbrev troubled : Env
troubled = record usual { write_fails = same (app_slice "hisnos-logd.service"); irqs = none }

abbrev at_rest : Session
at_rest = record {
  gaming = false;
  phases = nothing_applied;
  throttler = record { saved = []; timer_stopped = false };
  irq_saved = [];
  fast_applied = false;
  gaming_active = false;
  stored_active = false;
  machine = record { knobs = initial_files; timer = true; fast_table = false };
}

start-stop_gaming_example :
    (stop_gaming shipped usual (start_gaming shipped usual at_rest).0).0.machine.knobs (irq 40)
    ≡ some "f"
unfolding start_gaming throttle_apply irq_apply
start-stop_gaming_example =
    start-stop_gaming shipped usual usual at_rest (irq 40) ((refl, tt), (tt, tt)) (tt, tt)
      (λ k. refl) refl refl

abbrev half_masks : Masks
half_masks pid = record { word = if pid == 7 then 15 else 240; rest = 1 }

-- The game is process 7, the daemons are 8 and 9, and the mask of 9 cannot be read.
abbrev cores : IsolationEnv
cores = record {
  get_fails = λ pid. pid == 9;
  set_fails = λ pid. false;
  gaming_mask = 12;
  system_mask = 3;
  daemon_pids = (8 ∷ []) ∷ (9 ∷ []) ∷ [];
  all_pids = 7 ∷ 8 ∷ 9 ∷ [];
}

isolate-unisolate_example :
    let (saved, m', fine) = isolate cores (7 ∷ []) half_masks in
    Returned (half_masks 7) ((unisolate cores saved m').1 7)
isolate-unisolate_example =
    isolate-unisolate cores cores (7 ∷ []) half_masks 7 (tt, tt) ((refl, tt), (tt, tt))
      ((refl, tt), ((refl, tt), tt)) (λ k. refl)
