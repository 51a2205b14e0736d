-- ===== src/Marketplace/Operations.antt =====
-- core/marketplace/registry.go: the methods of the registry.
use text.Mathlib.Text.{◌==◌ as str_eq}
use hisnos_secure_workstatio.Common.{
  ◌⊎◌, inl, inr, Bool, true, false, not, Option, none, some, List, [], ◌∷◌, ◌++◌, map, String,
  if◌then◌else◌,
}
use hisnos_secure_workstatio.Common.Dict.{value_at, set_at, delete_at}
use hisnos_secure_workstatio.AtomicFile.{
  Json, Content, partial, whole, Disk, FileStep, close_temp, write_atomic,
}
use hisnos_secure_workstatio.Marketplace.{
  PluginManifest, InstalledPlugin, Index, Registry, Env, Refusal, privileged_refused, mkdir_failed,
  extract_failed,
}
use hisnos_secure_workstatio.Marketplace.Checks.{check_compat, download, verify_hash, verify_gpg}

-- The error of Close is not looked at.
abbrev pub fails_but_close : (FileStep → Bool) → FileStep → Bool
fails_but_close fails close_temp = false
fails_but_close fails s = fails s

-- `os.MkdirAll` leaves a directory that is there, and `tar` adds to it.
abbrev pub unpacked : String → Option (List String) → Option (List String)
unpacked archive none = some (archive ∷ [])
unpacked archive (some old) = some (old ++ archive ∷ [])

abbrev pub set_dir :
    String → Option (List String) → (String → Option (List String)) → String → Option (List String)
set_dir dir content dirs d = if str_eq d dir then content else dirs d

-- os.RemoveAll of an install directory; its errors, which are logged or dropped, are left out, and so
-- are directories inside one another.
abbrev pub remove_dir : String → (String → Option (List String)) → String → Option (List String)
remove_dir dir dirs = set_dir dir none dirs

pub data RunError : Type 0 where
  run_not_installed is_disabled no_entrypoint no_bwrap : RunError

pub data NotInstalled : Type 0 where
  not_installed : NotInstalled

module _ {B : Type 0} where
  unfoldable pub write_marketplace_atomic : Env → B → Disk B → Disk B
  write_marketplace_atomic env b d =
      if env.index_dir_made then (write_atomic (fails_but_close env.fails) b d).0 else d

module _ {B : Type 0} (json : Json Index B) where
  -- What cannot be read leaves the index empty, as NewRegistry made it.
  unfoldable pub load_index : Option (Content B) → Index
  load_index none = []
  load_index (some partial) = []
  load_index (some (whole b)) = elim (json.unmarshal b) [ none ↦ [] | some idx ↦ idx ]

  unfoldable pub new_registry : Disk B → (String → Option (List String)) → Registry B
  unfolding load_index
  new_registry disk dirs = record { index = load_index disk.live; disk = disk; dirs = dirs }

  -- Every error is dropped.
  unfoldable pub save_index : Env → Registry B → Registry B
  unfolding write_marketplace_atomic
  save_index env r = elim (json.marshal_indent r.index) [
    | none ↦ r
    | some b ↦ record r { disk = write_marketplace_atomic env b r.disk }
  ]

  unfoldable pub put_plugin : Env → String → InstalledPlugin → Registry B → Registry B
  put_plugin env name p r = save_index env (record r { index = set_at name p r.index })

  -- Steps 6 and 7 of Install.
  unfoldable pub unpack : Env → PluginManifest → String → Registry B → Registry B × Option Refusal
  unfolding put_plugin
  unpack env m archive r =
      let dir = env.join m.name m.version in
      if not env.dir_made
      then (r, some mkdir_failed)
      else if not env.tar
      then (record r { dirs = remove_dir dir r.dirs }, some extract_failed)
      else (
        put_plugin env m.name
            (record {
              name = m.name;
              version = m.version;
              install_dir = dir;
              installed_at = env.now;
              sandbox = m.sandbox;
              enabled = false;
            })
            (record r { dirs = set_dir dir (unpacked archive (r.dirs dir)) r.dirs }),
        none,
      )

  unfoldable pub install : Env → PluginManifest → Registry B → Registry B × Option Refusal
  unfolding unpack
  install env m r = elim (check_compat env m) [
    | some e ↦ (r, some e)
    | none ↦ elim (download env m.archive_url) [
      | inr e ↦ (r, some e)
      | inl archive ↦ elim (verify_hash env archive m.sha256) [
        | some e ↦ (r, some e)
        | none ↦ elim (verify_gpg env m) [
          | some e ↦ (r, some e)
          | none ↦
              if str_eq m.sandbox "privileged"
              then (r, some privileged_refused)
              else unpack env m archive r
        ]
      ]
    ]
  ]

  -- `Enable` and `Disable`.
  unfoldable pub set_enabled : Bool → Env → String → Registry B → Registry B × Option NotInstalled
  unfolding put_plugin
  set_enabled on env name r = elim (value_at name r.index) [
    | none ↦ (r, some not_installed)
    | some p ↦ (put_plugin env name (record p { enabled = on }) r, none)
  ]

  unfoldable pub enable : Env → String → Registry B → Registry B × Option NotInstalled
  unfolding set_enabled
  enable env name r = set_enabled true env name r

  unfoldable pub disable : Env → String → Registry B → Registry B × Option NotInstalled
  unfolding set_enabled
  disable env name r = set_enabled false env name r

  unfoldable pub uninstall : Env → String → Registry B → Registry B × Option NotInstalled
  unfolding save_index
  uninstall env name r = elim (value_at name r.index) [
    | none ↦ (r, some not_installed)
    | some p ↦
        let saved = save_index env (record r { index = delete_at name r.index }) in
        (record saved { dirs = remove_dir p.install_dir r.dirs }, none)
  ]

-- The flags that a sandbox adds; `none` is the error.
abbrev pub sandbox_flags : String → Option (List String)
sandbox_flags sandbox =
    if str_eq sandbox "strict"
    then some ("--unshare-all" ∷ [])
    else if str_eq sandbox "network"
    then some ("--unshare-user" ∷ "--unshare-pid" ∷ "--unshare-ipc" ∷ "--unshare-uts" ∷ [])
    else if str_eq sandbox "privileged"
    then none
    else some ("--unshare-all" ∷ [])

abbrev pub bwrap_base : String → List String
bwrap_base dir =
    "bwrap" ∷ "--ro-bind" ∷ "/usr" ∷ "/usr" ∷ "--ro-bind" ∷ "/lib" ∷ "/lib" ∷ "--ro-bind" ∷ "/lib64"
    ∷ "/lib64" ∷ "--ro-bind" ∷ dir ∷ "/plugin" ∷ "--tmpfs" ∷ "/tmp" ∷ "--proc" ∷ "/proc" ∷ "--dev"
    ∷ "/dev" ∷ "--die-with-parent" ∷ "--new-session" ∷ []

unfoldable pub build_bwrap_cmd : String → String → List String → List String ⊎ RunError
build_bwrap_cmd dir sandbox args = elim (sandbox_flags sandbox) [
  | none ↦ inr no_bwrap
  | some flags ↦ inl (bwrap_base dir ++ flags ++ "/plugin/run" ∷ args)
]

-- The command that is started, or the error before one is.
unfoldable pub run_plugin :
    {B : Type 0} → Env → String → List String → Registry B → List String ⊎ RunError
unfolding build_bwrap_cmd
run_plugin env name args r = elim (value_at name r.index) [
  | none ↦ inr run_not_installed
  | some p ↦
      if not p.enabled
      then inr is_disabled
      else if env.entrypoint_found p.install_dir
      then build_bwrap_cmd p.install_dir p.sandbox args
      else inr no_entrypoint
]

-- Go gives the records in any order.
unfoldable pub installed_list : {B : Type 0} → Registry B → List InstalledPlugin
installed_list r = map (λ (name, p). p) r.index
