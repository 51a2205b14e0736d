-- ===== src/Marketplace/Effects.antt =====
-- core/marketplace/registry.go: what each call makes of a plugin's entry in the index.
use text.Mathlib.Text.{◌==◌ as str_eq}
use text.Mathlib.TextEquality.{eq_iff}
use hisnos_secure_workstatio.Common.{
  ◌≡◌, refl, sym, ap, ◌∙◌, inl, inr, Bool, true, false, ◌&&◌, Option, none, some, String,
  Bool-cases, Option-cases, if◌then◌else◌,
}
use hisnos_secure_workstatio.Common.Dict.{
  value_at, set_at, delete_at, value_at-set_at, value_at-delete_at,
}
use hisnos_secure_workstatio.AtomicFile.{Json}
use hisnos_secure_workstatio.Marketplace.{
  PluginManifest, InstalledPlugin, Index, Registry, Env, Refusal,
}
use hisnos_secure_workstatio.Marketplace.Operations.{
  save_index, put_plugin, unpack, install, set_enabled, enable, disable, uninstall, set_dir,
  unpacked,
}
use hisnos_secure_workstatio.Marketplace.Vetting.{vetted, unpacks, install-cases}

-- A call that may change the index.
pub data Call : Type 0 where
  installs : Env → PluginManifest → Call
  enables disables uninstalls : Env → String → Call

abbrev pub fresh : Env → PluginManifest → InstalledPlugin
fresh env m = record {
  name = m.name;
  version = m.version;
  install_dir = env.join m.name m.version;
  installed_at = env.now;
  sandbox = m.sandbox;
  enabled = false;
}

abbrev pub turned : Bool → Option InstalledPlugin → Option InstalledPlugin
turned on none = none
turned on (some p) = some (record p { enabled = on })

-- The entry of one name after a call, from what it was before.
abbrev pub effect : Call → String → Option InstalledPlugin → Option InstalledPlugin
effect (installs env m) name old =
    if str_eq m.name name && (vetted env m && unpacks env) then some (fresh env m) else old
effect (enables env n) name old = if str_eq n name then turned true old else old
effect (disables env n) name old = if str_eq n name then turned false old else old
effect (uninstalls env n) name old = if str_eq n name then none else old

if_and_false {ℓ} : {A : Type ℓ} (b : Bool) (x y : A) → (if b && false then x else y) ≡ y
if_and_false true x y = refl
if_and_false false x y = refl

if_and_true {ℓ} :
    {A : Type ℓ} (b : Bool) (x y : A) → (if b && true then x else y) ≡ (if b then x else y)
if_and_true true x y = refl
if_and_true false x y = refl

same_entry :
    {B : Type 0} (n name : String) (r : Registry B)
    → str_eq n name ≡ true
    → value_at name r.index ≡ value_at n r.index
same_entry n name r q = let (to, from) = eq_iff n name in ap (λ k. value_at k r.index) (sym (to q))

module _ {B : Type 0} (json : Json Index B) where
  unfoldable pub step : Call → Registry B → Registry B
  step (installs env m) r = (install json env m r).0
  step (enables env n) r = (enable json env n r).0
  step (disables env n) r = (disable json env n r).0
  step (uninstalls env n) r = (uninstall json env n r).0

  pub save_index-index : (env : Env) (r : Registry B) → (save_index json env r).index ≡ r.index
  unfolding save_index
  save_index-index env r = elim (Option-cases (json.marshal_indent r.index)) [
    | inl e ↦ rw (save_index, e) refl
    | inr (b, e) ↦ rw (save_index, e) refl
  ]

  put_plugin-value_at :
      (env : Env) (n name : String) (p : InstalledPlugin) (r : Registry B)
      → value_at name (put_plugin json env n p r).index
        ≡ (if str_eq n name then some p else value_at name r.index)
  unfolding put_plugin
  put_plugin-value_at env n name p r =
      ap (value_at name) (save_index-index env (record r { index = set_at n p r.index }))
      ∙ value_at-set_at n name p r.index

  unpack-value_at :
      (env : Env) (m : PluginManifest) (archive name : String) (r : Registry B)
      → value_at name (unpack json env m archive r).0.index
        ≡ (if str_eq m.name name && unpacks env then some (fresh env m) else value_at name r.index)
  unfolding unpack
  unpack-value_at env m archive name r = elim (Bool-cases env.dir_made) [
    | inr n ↦
        rw n (sym (if_and_false (str_eq m.name name) (some (fresh env m)) (value_at name r.index)))
    | inl y ↦ elim (Bool-cases env.tar) [
      | inr n ↦
          rw (y, n)
            (sym (if_and_false (str_eq m.name name) (some (fresh env m)) (value_at name r.index)))
      | inl t ↦
          simp (y, t)
            (put_plugin-value_at env m.name name (fresh env m) (record r {
              dirs =
                  set_dir (env.join m.name m.version)
                    (unpacked archive (r.dirs (env.join m.name m.version))) r.dirs;
            })
              ∙ sym (if_and_true (str_eq m.name name) (some (fresh env m)) (value_at name r.index)))
    ]
  ]

  set_enabled-value_at :
      (on : Bool) (env : Env) (n name : String) (r : Registry B)
      → value_at name (set_enabled json on env n r).0.index
        ≡ (if str_eq n name then turned on (value_at name r.index) else value_at name r.index)
  unfolding set_enabled
  set_enabled-value_at on env n name r = elim (Option-cases (value_at n r.index)) [
    | inl e ↦ elim (Bool-cases (str_eq n name)) [
      | inl q ↦
          let here : value_at name r.index ≡ none = same_entry n name r q ∙ e in
          rw (set_enabled, e, q, here) refl
      | inr d ↦ rw (set_enabled, e, d) refl
    ]
    | inr (p, e) ↦ elim (Bool-cases (str_eq n name)) [
      | inl q ↦
          let here : value_at name r.index ≡ some p = same_entry n name r q ∙ e in
          rw (set_enabled, e, q, here)
            (put_plugin-value_at env n name (record p { enabled = on }) r ∙ rw q refl)
      | inr d ↦
          rw (set_enabled, e, d)
            (put_plugin-value_at env n name (record p { enabled = on }) r ∙ rw d refl)
    ]
  ]

  uninstall-value_at :
      (env : Env) (n name : String) (r : Registry B)
      → value_at name (uninstall json env n r).0.index
        ≡ (if str_eq n name then none else value_at name r.index)
  unfolding uninstall
  uninstall-value_at env n name r = elim (Option-cases (value_at n r.index)) [
    | inl e ↦ elim (Bool-cases (str_eq n name)) [
      | inl q ↦
          let here : value_at name r.index ≡ none = same_entry n name r q ∙ e in
          rw (uninstall, e, q, here) refl
      | inr d ↦ rw (uninstall, e, d) refl
    ]
    | inr (p, e) ↦
        rw (uninstall, e)
          (ap (value_at name) (save_index-index env (record r { index = delete_at n r.index }))
            ∙ value_at-delete_at n name r.index)
  ]

  -- Each call changes the entry of the name that it is given, as `effect` says, and no other.
  pub step-effect :
      (c : Call) (name : String) (r : Registry B)
      → value_at name (step c r).index ≡ effect c name (value_at name r.index)
  unfolding step enable disable
  step-effect (installs env m) name r = elim (install-cases json env m r) [
    | inl (archive, v, e) ↦
        ap (λ (t : Registry B × Option Refusal). value_at name t.0.index) e
        ∙ (unpack-value_at env m archive name r ∙ rw v refl)
    | inr (x, v, e, other) ↦
        ap (λ (t : Registry B × Option Refusal). value_at name t.0.index) e
        ∙ rw v
            (sym (if_and_false (str_eq m.name name) (some (fresh env m)) (value_at name r.index)))
  ]
  step-effect (enables env n) name r = set_enabled-value_at true env n name r
  step-effect (disables env n) name r = set_enabled-value_at false env n name r
  step-effect (uninstalls env n) name r = uninstall-value_at env n name r
