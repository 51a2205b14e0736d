-- ===== src/Marketplace/Saving.antt =====
-- core/marketplace/registry.go: the index on disk, and what an install leaves that fails.
use mathlib.Core.Path.{subst}
use hisnos_secure_workstatio.Common.{
  ◌≡◌, ◌≢◌, refl, sym, ap, ◌∙◌, ◌⊎◌, inl, inr, Bool, true, false, Option, none, some, List, [], ◌∷◌,
  String, All, Bool-cases, Option-cases,
}
use hisnos_secure_workstatio.Common.Dict.{value_at, set_at, delete_at}
use hisnos_secure_workstatio.AtomicFile.{Json, Content, whole, Disk, FileStep}
use hisnos_secure_workstatio.AtomicFile.Laws.{write_atomic_lem}
use hisnos_secure_workstatio.Marketplace.{
  PluginManifest, Index, Registry, Env, Refusal, extract_failed, mkdir_failed,
}
use hisnos_secure_workstatio.Marketplace.Operations.{
  fails_but_close, remove_dir, write_marketplace_atomic, load_index, new_registry, save_index,
  put_plugin, unpack, install, set_enabled, enable, disable, uninstall, unpacked, set_dir,
}
use hisnos_secure_workstatio.Marketplace.Vetting.{install-cases}
use hisnos_secure_workstatio.Marketplace.Effects.{
  Call, installs, enables, disables, uninstalls, fresh, step,
}
use hisnos_secure_workstatio.Marketplace.Histories.{run}

-- The index can be written during the call.
abbrev pub Saves : Env → Type 0
Saves env = (env.index_dir_made ≡ true) × ((s : FileStep) → fails_but_close env.fails s ≡ false)

abbrev pub env_of : Call → Env
env_of (installs env m) = env
env_of (enables env n) = env
env_of (disables env n) = env
env_of (uninstalls env n) = env

module _ {B : Type 0} (json : Json Index B) where
  -- Every index can be encoded, and decoding gives back an index with the same plugin under each name.
  -- The index is a map of Go: the order and the repetitions of the list are not part of it, and the
  -- decoded list may have others.
  abbrev pub Encodes : Type 0
  Encodes =
      (idx : Index)
      → (b : B) × (json.marshal_indent idx ≡ some b)
        × (idx' : Index) × (json.unmarshal b ≡ some idx')
        × ((name : String) → value_at name idx' ≡ value_at name idx)

  -- The file holds what is in memory.
  abbrev Stored : Registry B → Type 0
  Stored r = (name : String) → value_at name (load_index json r.disk.live) ≡ value_at name r.index

  load_index-whole :
      (idx : Index) (b : B) (live : Option (Content B))
      → live ≡ some (whole b)
      → json.unmarshal b ≡ some idx
      → load_index json live ≡ idx
  unfolding load_index
  load_index-whole idx b live e u = rw (e, load_index, u) refl

  write-live :
      (env : Env) (b : B) (d : Disk B)
      → Saves env
      → (write_marketplace_atomic env b d).live ≡ some (whole b)
  unfolding write_marketplace_atomic
  write-live env b d (i, f) =
      let (gone, outcome) = write_atomic_lem (fails_but_close env.fails) b d in
      elim outcome [
        | inl (ok, live) ↦ rw i live
        | inr (s, e, bad, live) ↦ absurd (let x = sym (f s) ∙ bad in cc)
      ]

  save_index-Stored :
      (env : Env) (r : Registry B) → Encodes → Saves env → Stored (save_index json env r)
  unfolding save_index
  save_index-Stored env r c s =
      let (b, m, idx', u, same) = c r.index in
      let live = (write_marketplace_atomic env b r.disk).live in
      let read : load_index json live ≡ idx' =
        load_index-whole idx' b live (write-live env b r.disk s) u in
      rw (save_index, m) (λ name. ap (value_at name) read ∙ same name)

  unpack-Stored :
      (env : Env) (m : PluginManifest) (archive : String) (r : Registry B)
      → Encodes
      → Saves env
      → Stored r
      → Stored (unpack json env m archive r).0
  unfolding unpack put_plugin
  unpack-Stored env m archive r c s k = elim (Bool-cases env.dir_made) [
    | inr n ↦ simp n k
    | inl y ↦ elim (Bool-cases env.tar) [
      | inr n ↦ simp (y, n) k
      | inl t ↦
          let dir = env.join m.name m.version in
          simp (y, t)
            (save_index-Stored env
              (record r {
                index = set_at m.name (fresh env m) r.index;
                dirs = set_dir dir (unpacked archive (r.dirs dir)) r.dirs;
              })
              c s)
    ]
  ]

  set_enabled-Stored :
      (on : Bool) (env : Env) (n : String) (r : Registry B)
      → Encodes
      → Saves env
      → Stored r
      → Stored (set_enabled json on env n r).0
  unfolding set_enabled put_plugin
  set_enabled-Stored on env n r c s k = elim (Option-cases (value_at n r.index)) [
    | inl e ↦ rw (set_enabled, e) k
    | inr (p, e) ↦
        rw (set_enabled, e)
          (save_index-Stored env (record r { index = set_at n (record p { enabled = on }) r.index })
            c s)
  ]

  uninstall-Stored :
      (env : Env) (n : String) (r : Registry B)
      → Encodes
      → Saves env
      → Stored r
      → Stored (uninstall json env n r).0
  unfolding uninstall
  uninstall-Stored env n r c s k = elim (Option-cases (value_at n r.index)) [
    | inl e ↦ rw (uninstall, e) k
    | inr (p, e) ↦
        rw (uninstall, e) (save_index-Stored env (record r { index = delete_at n r.index }) c s)
  ]

  step-Stored :
      (c : Call) (r : Registry B) → Encodes → Saves (env_of c) → Stored r → Stored (step json c r)
  unfolding step enable disable
  step-Stored (installs env m) r c s k = elim (install-cases json env m r) [
    | inl (archive, v, e) ↦
        subst (λ (t : Registry B × Option Refusal). Stored t.0) (sym e)
          (unpack-Stored env m archive r c s k)
    | inr (x, v, e, other) ↦ subst (λ (t : Registry B × Option Refusal). Stored t.0) (sym e) k
  ]
  step-Stored (enables env n) r c s k = set_enabled-Stored true env n r c s k
  step-Stored (disables env n) r c s k = set_enabled-Stored false env n r c s k
  step-Stored (uninstalls env n) r c s k = uninstall-Stored env n r c s k

  run-Stored :
      (cs : List Call) (r : Registry B)
      → Encodes
      → All (λ c. Saves (env_of c)) cs
      → Stored r
      → Stored (run json cs r)
  unfolding run
  run-Stored [] r c s k = k
  run-Stored (call ∷ older) r c (s, ss) k =
      step-Stored call (run json older r) c s (run-Stored older r c ss k)

  -- Whatever the disk held: if every index can be encoded and reads back with the same plugin under
  -- each name, and the index could be written during each call of a history, then a registry made from
  -- the disk afterwards has, under each name, the plugin that the old one had in memory.
  pub run-new_registry :
      (cs : List Call) (disk : Disk B) (dirs : String → Option (List String)) (name : String)
      → Encodes
      → All (λ c. Saves (env_of c)) cs
      → let r = run json cs (new_registry json disk dirs) in
        value_at name (new_registry json r.disk r.dirs).index ≡ value_at name r.index
  unfolding new_registry
  run-new_registry cs disk dirs name c s =
      run-Stored cs (new_registry json disk dirs) c s (λ n. refl) name

  abbrev Failing : Env → PluginManifest → Registry B → Registry B × Option Refusal → Type 0
  Failing env m r t =
      (t.1 ≡ none)
      ⊎ ((e : Refusal) × (t.1 ≡ some e)
          × (t.0.index ≡ r.index)
          × (t.0.disk ≡ r.disk)
          × ((e ≢ extract_failed) × (t.0.dirs ≡ r.dirs)
              ⊎ (e ≡ extract_failed) × (t.0.dirs ≡ remove_dir (env.join m.name m.version) r.dirs)))

  unpack-Failing :
      (env : Env) (m : PluginManifest) (archive : String) (r : Registry B)
      → Failing env m r (unpack json env m archive r)
  unfolding unpack
  unpack-Failing env m archive r = elim (Bool-cases env.dir_made) [
    | inr n ↦ simp n (inr (mkdir_failed, refl, refl, refl, inl (λ q. cc, refl)))
    | inl y ↦ elim (Bool-cases env.tar) [
      | inr n ↦ simp (y, n) (inr (extract_failed, refl, refl, refl, inr (refl, refl)))
      | inl t ↦ simp (y, t) (inl refl)
    ]
  ]

  -- What an install leaves that fails: the index and its file as they were. If it was tar that failed,
  -- the directory of this name and version is gone, although the index may still list it from an
  -- earlier install; after any other failure the directories are as they were.
  pub install-failed :
      (env : Env) (m : PluginManifest) (r : Registry B)
      → ((install json env m r).1 ≡ none)
        ⊎ ((e : Refusal) × ((install json env m r).1 ≡ some e)
            × ((install json env m r).0.index ≡ r.index)
            × ((install json env m r).0.disk ≡ r.disk)
            × ((e ≢ extract_failed) × ((install json env m r).0.dirs ≡ r.dirs)
                ⊎ (e ≡ extract_failed)
                  × ((install json env m r).0.dirs
                      ≡ remove_dir (env.join m.name m.version) r.dirs)))
  install-failed env m r = elim (install-cases json env m r) [
    | inr (x, v, e, other) ↦
        subst (Failing env m r) (sym e) (inr (x, refl, refl, refl, inl (other, refl)))
    | inl (archive, v, e) ↦ subst (Failing env m r) (sym e) (unpack-Failing env m archive r)
  ]
