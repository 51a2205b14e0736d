-- ===== src/Gaming/Irq.antt =====
-- gaming/hispowerd/irq/affinity.go and gaming/hispowerd/firewall/fastpath.go.
use hisnos_secure_workstatio.Common.{
  ℕ, Bool, true, false, not, ◌&&◌, ◌||◌, none, some, List, [], ◌∷◌, String, if◌then◌else◌,
}
use hisnos_secure_workstatio.Gaming.{
  irq, Knobs, Config, Env, Machine, Saved, is_some, read_knob, write_knob, save_and_write,
  restore_each,
}

abbrev is_empty : List Saved → Bool
is_empty [] = true
is_empty (s ∷ ss) = false

-- The last part is `permErr`: a write, after a read that went well, was not permitted.
unfoldable pub pin_each : Env → String → List ℕ → List Saved → Knobs → List Saved × Knobs × Bool
unfolding save_and_write read_knob
pin_each env hex [] saved m = (saved, m, false)
pin_each env hex (n ∷ rest) saved m =
    let (saved1, m1, fine) = save_and_write env (irq n) hex saved m in
    let (saved2, m2, refused) = pin_each env hex rest saved1 m1 in
    (saved2, m2, (not fine && (is_some (read_knob env (irq n) m) && env.denied (irq n))) || refused)

-- `Optimizer.Apply`: partial success is no failure.
unfoldable pub irq_apply : Config → Env → Machine → List Saved × Machine × Bool
unfolding pin_each
irq_apply cfg env m = elim env.irqs [
  | none ↦ ([], m, false)
  | some numbers ↦
      let (saved, knobs, refused) = pin_each env cfg.gaming_hex numbers [] m.knobs in
      (saved, record m { knobs = knobs }, not (refused && is_empty saved))
]

-- `Optimizer.Restore` forgets what it has saved, also if a write fails.
unfoldable pub irq_restore : Env → List Saved → Machine → List Saved × Machine × Bool
unfolding restore_each
irq_restore env saved m =
    let (knobs, fine) = restore_each env saved m.knobs in ([], record m { knobs = knobs }, fine)

abbrev pub all_cpus : String
all_cpus = "ffffffff"

unfoldable pub reset_each : Env → List Saved → Knobs → Knobs
unfolding write_knob
reset_each env [] m = m
reset_each env (s ∷ ss) m = reset_each env ss (write_knob env s.knob all_cpus m).0

-- `Optimizer.EmergencyRestore`.
unfoldable pub irq_emergency : Env → List Saved → Machine → List Saved × Machine
unfolding reset_each
irq_emergency env saved m = ([], record m { knobs = reset_each env saved m.knobs })

-- `FastPath.Apply`, with the flag `applied`.
unfoldable pub fast_apply : Env → Bool → Machine → Bool × Machine × Bool
fast_apply env applied m =
    if applied
    then (true, m, true)
    else if not env.nft_file_exists
    then (false, m, false)
    else if env.nft_loads
    then (true, record m { fast_table = true }, true)
    else (false, m, false)

-- `flush table` and `delete table`.
abbrev pub without_table : Env → Machine → Machine
without_table env m = if env.nft_deletes then record m { fast_table = false } else m

-- `FastPath.Restore`: an error of nft is only logged.
unfoldable pub fast_restore : Env → Bool → Machine → Bool × Machine
fast_restore env applied m = if applied then (false, without_table env m) else (false, m)

unfoldable pub fast_emergency : Env → Machine → Bool × Machine
fast_emergency env m = (false, without_table env m)
