-- ===== src/Marketplace/Running.antt =====
-- core/marketplace/registry.go: which commands Run starts after a history of calls.
use text.Mathlib.Text.{◌==◌ as str_eq}
use text.Mathlib.TextEquality.{eq_iff}
use hisnos_secure_workstatio.Common.{
  ◌≡◌, refl, sym, ap, ◌∙◌, ◌⊎◌, inl, inr, true, some, List, [], ◌∷◌, ◌++◌, String, Bool-cases,
  Option-cases, if◌then◌else◌,
}
use hisnos_secure_workstatio.Common.Dict.{value_at}
use hisnos_secure_workstatio.AtomicFile.{Json}
use hisnos_secure_workstatio.Marketplace.{InstalledPlugin, Index, Registry, Env}
use hisnos_secure_workstatio.Marketplace.Operations.{
  RunError, run_not_installed, is_disabled, no_entrypoint, no_bwrap, bwrap_base, build_bwrap_cmd,
  run_plugin,
}
use hisnos_secure_workstatio.Marketplace.Effects.{Call}
use hisnos_secure_workstatio.Marketplace.Histories.{
  enabled, status, fate, Origin, run, run-fate, run-Origin,
}

-- What separates the process from the host; a sandbox other than "network" has no network either.
abbrev pub confinement : String → List String
confinement sandbox =
    if str_eq sandbox "network"
    then "--unshare-user" ∷ "--unshare-pid" ∷ "--unshare-ipc" ∷ "--unshare-uts" ∷ []
    else "--unshare-all" ∷ []

build_bwrap_cmd_lem :
    (dir sandbox : String) (args : List String)
    → (build_bwrap_cmd dir sandbox args ≡ inr no_bwrap)
      ⊎ (build_bwrap_cmd dir sandbox args
          ≡ inl (bwrap_base dir ++ confinement sandbox ++ "/plugin/run" ∷ args))
unfolding build_bwrap_cmd
build_bwrap_cmd_lem dir sandbox args = elim (Bool-cases (str_eq sandbox "strict")) [
  | inl y ↦
      let strict : sandbox ≡ "strict" = let (to, from) = eq_iff sandbox "strict" in to y in
      rw strict (inr refl)
  | inr n ↦ elim (Bool-cases (str_eq sandbox "network")) [
    | inl y ↦ rw (build_bwrap_cmd, n, y) (inr refl)
    | inr n2 ↦ elim (Bool-cases (str_eq sandbox "privileged")) [
      | inl y ↦ rw (build_bwrap_cmd, n, n2, y) (inl refl)
      | inr n3 ↦ rw (build_bwrap_cmd, n, n2, n3) (inr refl)
    ]
  ]
]

run_plugin-cases :
    {B : Type 0} (env : Env) (name : String) (args : List String) (r : Registry B)
    → ((e : RunError) × (run_plugin env name args r ≡ inr e))
      ⊎ ((p : InstalledPlugin) × (value_at name r.index ≡ some p)
          × (p.enabled ≡ true)
          × (run_plugin env name args r
              ≡ inl (bwrap_base p.install_dir ++ confinement p.sandbox ++ "/plugin/run" ∷ args)))
unfolding run_plugin
run_plugin-cases env name args r = elim (Option-cases (value_at name r.index)) [
  | inl e ↦ inl (run_not_installed, rw (run_plugin, e) refl)
  | inr (p, e) ↦ elim (Bool-cases p.enabled) [
    | inr n ↦ inl (is_disabled, rw (run_plugin, e, n) refl)
    | inl y ↦ elim (Bool-cases (env.entrypoint_found p.install_dir)) [
      | inr n ↦ inl (no_entrypoint, rw (run_plugin, e, y, n) refl)
      | inl f ↦ elim (build_bwrap_cmd_lem p.install_dir p.sandbox args) [
        | inl x ↦ inl (no_bwrap, rw (run_plugin, e, y, f) x)
        | inr x ↦ inr (p, e, y, rw (run_plugin, e, y, f) x)
      ]
    ]
  ]
]

-- After any history on an empty index, Run starts nothing, or the history has enabled the plugin; then
-- an install of the history that passed every check gave it its version, its directory and its
-- sandbox, and the command is bwrap's with the confinement of that sandbox, before the arguments.
pub run_plugin-run :
    {B : Type 0} (json : Json Index B) (cs : List Call) (r : Registry B) (env : Env) (name : String)
    (args : List String)
    → r.index ≡ []
    → ((e : RunError) × (run_plugin env name args (run json cs r) ≡ inr e))
      ⊎ ((p : InstalledPlugin) × (fate name cs ≡ enabled)
          × Origin p cs
          × (run_plugin env name args (run json cs r)
              ≡ inl (bwrap_base p.install_dir ++ confinement p.sandbox ++ "/plugin/run" ∷ args)))
run_plugin-run json cs r env name args z = elim (run_plugin-cases env name args (run json cs r)) [
  | inl x ↦ inl x
  | inr (p, l, y, c) ↦ inr (
    p,
    sym (run-fate json cs name r z) ∙ ap status l ∙ rw y refl,
    run-Origin json cs name r p z l,
    c,
  )
]
