-- ===== src/Marketplace/Tests.antt =====
-- core/marketplace/registry.go with one plugin.
use text.Mathlib.Text.{◌==◌ as str_eq}
use hisnos_secure_workstatio.Common.{
  ◌≡◌, ◌≢◌, refl, ◌⊎◌, inl, inr, true, false, none, some, List, [], ◌∷◌, ◌++◌,
}
use hisnos_secure_workstatio.Common.Dict.{value_at}
use hisnos_secure_workstatio.AtomicFile.{
  close_temp, create_temp, write_temp, sync_temp, rename_temp, FileStep,
}
use hisnos_secure_workstatio.AtomicFile.Tests.{plain, no_fault}
use hisnos_secure_workstatio.Marketplace.{
  PluginManifest, InstalledPlugin, Index, Registry, Env, Refusal, extract_failed,
}
use hisnos_secure_workstatio.Marketplace.Versions.{version_ge}
use hisnos_secure_workstatio.Marketplace.Operations.{
  RunError, bwrap_base, run_plugin, new_registry, fails_but_close, install, remove_dir,
}
use hisnos_secure_workstatio.Marketplace.Effects.{Call, installs, enables, disables, uninstalls}
use hisnos_secure_workstatio.Marketplace.Histories.{status, fate, enabled, Origin, run, run-fate}
use hisnos_secure_workstatio.Marketplace.Running.{confinement, run_plugin-run}
use hisnos_secure_workstatio.Marketplace.Saving.{run-new_registry, install-failed}

abbrev notes : PluginManifest
notes = record {
  name = "notes";
  version = "1.2.0";
  description = "";
  author = "";
  archive_url = "https://example.org/notes.tar.gz";
  sha256 = "ab";
  signature = "signed";
  min_version = "0.9";
  arch = "amd64";
  sandbox = "network";
}

-- A system on which every call works: the hash of every archive is "ab".
abbrev usual : Env
usual = record {
  uname = some "x86_64";
  get = λ url. some (200, "archive");
  archive_saved = true;
  archive_opens = true;
  sha256 = λ archive. "ab";
  to_lower = λ t. t;
  keyring_found = true;
  marshal = λ m. some m.name;
  payload_file_made = true;
  signature_file_made = true;
  gpg = λ signature payload. str_eq signature "signed";
  join = λ name version. name;
  dir_made = true;
  tar = true;
  now = 3;
  index_dir_made = true;
  fails = no_fault;
  entrypoint_found = λ dir. true;
}

abbrev blank : Registry Index
blank = record { index = []; disk = record { live = none; temp = none }; dirs = λ d. none }

-- The newest call stands first.
abbrev calls : List Call
calls =
    enables usual "notes"
    ∷ disables usual "notes"
    ∷ installs usual notes
    ∷ uninstalls usual "x"
    ∷ []

run-fate_example :
    status (value_at "notes" (run (plain Index) calls blank).index) ≡ fate "notes" calls
run-fate_example = run-fate (plain Index) calls "notes" blank refl

notes_enabled : fate "notes" calls ≡ enabled
unfolding version_ge
notes_enabled = refl

run_plugin-run_example :
    ((e : RunError) × (run_plugin usual "notes" ("--quiet" ∷ []) (run (plain Index) calls blank)
        ≡ inr e))
    ⊎ ((p : InstalledPlugin) × (fate "notes" calls ≡ enabled)
        × Origin p calls
        × (run_plugin usual "notes" ("--quiet" ∷ []) (run (plain Index) calls blank)
            ≡ inl (
                bwrap_base p.install_dir
                ++ confinement p.sandbox
                ++ "/plugin/run" ∷ "--quiet" ∷ [])))
run_plugin-run_example =
    run_plugin-run (plain Index) calls blank usual "notes" ("--quiet" ∷ []) refl

saved : (s : FileStep) → fails_but_close no_fault s ≡ false
saved create_temp = refl
saved write_temp = refl
saved sync_temp = refl
saved close_temp = refl
saved rename_temp = refl

run-new_registry_example :
    let r = run (plain Index) calls (new_registry (plain Index) blank.disk blank.dirs) in
    value_at "notes" (new_registry (plain Index) r.disk r.dirs).index ≡ value_at "notes" r.index
run-new_registry_example =
    run-new_registry (plain Index) calls blank.disk blank.dirs "notes"
      (λ idx. (idx, refl, idx, refl, λ name. refl))
      ((refl, saved), ((refl, saved), ((refl, saved), ((refl, saved), tt))))

install-failed_example :
    let t = install (plain Index) (record usual { tar = false }) notes blank in
    (t.1 ≡ none)
    ⊎ ((e : Refusal) × (t.1 ≡ some e)
        × (t.0.index ≡ [])
        × (t.0.disk ≡ blank.disk)
        × ((e ≢ extract_failed) × (t.0.dirs ≡ blank.dirs)
            ⊎ (e ≡ extract_failed) × (t.0.dirs ≡ remove_dir "notes" blank.dirs)))
install-failed_example = install-failed (plain Index) (record usual { tar = false }) notes blank
