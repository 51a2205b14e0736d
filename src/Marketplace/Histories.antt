-- ===== src/Marketplace/Histories.antt =====
-- core/marketplace/registry.go: histories of calls, and what a plugin that runs has gone through.
use text.Mathlib.Text.{◌==◌ as str_eq}
use mathlib.Core.Path.{subst}
use hisnos_secure_workstatio.Common.{
  ◌≡◌, refl, sym, ap, ◌∙◌, ◌⊎◌, inl, inr, Bool, true, false, ◌&&◌, Option, none, some, List, [],
  ◌∷◌, String, Bool-cases, if◌then◌else◌,
}
use hisnos_secure_workstatio.Common.Dict.{value_at, value_at-nil}
use hisnos_secure_workstatio.AtomicFile.{Json}
use hisnos_secure_workstatio.Marketplace.{PluginManifest, InstalledPlugin, Index, Registry, Env}
use hisnos_secure_workstatio.Marketplace.Vetting.{vetted, unpacks}
use hisnos_secure_workstatio.Marketplace.Effects.{
  Call, installs, enables, disables, uninstalls, fresh, turned, effect, step, step-effect,
}

pub data Status : Type 0 where
  absent disabled enabled : Status

abbrev pub status : Option InstalledPlugin → Status
status none = absent
status (some p) = if p.enabled then enabled else disabled

abbrev pub unless_absent : Status → Status → Status
unless_absent to absent = absent
unless_absent to disabled = to
unless_absent to enabled = to

-- The status that a history gives a plugin; the newest call stands first.
abbrev pub fate : String → List Call → Status
fate name [] = absent
fate name (installs env m ∷ older) =
    if str_eq m.name name && (vetted env m && unpacks env) then disabled else fate name older
fate name (enables env n ∷ older) =
    if str_eq n name then unless_absent enabled (fate name older) else fate name older
fate name (disables env n ∷ older) =
    if str_eq n name then unless_absent disabled (fate name older) else fate name older
fate name (uninstalls env n ∷ older) = if str_eq n name then absent else fate name older

-- One of the calls installed the plugin, and its manifest passed the checks.
abbrev pub InstalledFrom : Env → PluginManifest → InstalledPlugin → Type 0
InstalledFrom env m p =
    (vetted env m ≡ true)
    × (unpacks env ≡ true)
    × (p.name ≡ m.name)
    × (p.version ≡ m.version)
    × (p.sandbox ≡ m.sandbox)
    × (p.install_dir ≡ env.join m.name m.version)

abbrev pub Origin : InstalledPlugin → List Call → Type 0
Origin p [] = ⊥
Origin p (installs env m ∷ older) = InstalledFrom env m p ⊎ Origin p older
Origin p (_ ∷ older) = Origin p older

status-turned-on :
    (o : Option InstalledPlugin) → status (turned true o) ≡ unless_absent enabled (status o)
status-turned-on none = refl
status-turned-on (some p) = elim (Bool-cases p.enabled) [ inl y ↦ rw y refl | inr n ↦ rw n refl ]

status-turned-off :
    (o : Option InstalledPlugin) → status (turned false o) ≡ unless_absent disabled (status o)
status-turned-off none = refl
status-turned-off (some p) = elim (Bool-cases p.enabled) [ inl y ↦ rw y refl | inr n ↦ rw n refl ]

status-if :
    (b : Bool) (x y : Option InstalledPlugin)
    → status (if b then x else y) ≡ (if b then status x else status y)
status-if true x y = refl
status-if false x y = refl

status-effect :
    (c : Call) (older : List Call) (name : String) (o : Option InstalledPlugin)
    → status o ≡ fate name older
    → status (effect c name o) ≡ fate name (c ∷ older)
status-effect (installs env m) older name o h =
    status-if (str_eq m.name name && (vetted env m && unpacks env)) (some (fresh env m)) o
    ∙ rw h refl
status-effect (enables env n) older name o h =
    status-if (str_eq n name) (turned true o) o ∙ rw (status-turned-on o, h) refl
status-effect (disables env n) older name o h =
    status-if (str_eq n name) (turned false o) o ∙ rw (status-turned-off o, h) refl
status-effect (uninstalls env n) older name o h = status-if (str_eq n name) none o ∙ rw h refl

abbrev OriginOf : Option InstalledPlugin → List Call → Type 0
OriginOf none cs = Unit
OriginOf (some p) cs = Origin p cs

Origin-enabled :
    (on : Bool) (cs : List Call) (p : InstalledPlugin)
    → Origin p cs
    → Origin (record p { enabled = on }) cs
Origin-enabled on [] p o = absurd o
Origin-enabled on (installs env m ∷ older) p (inl o) = inl o
Origin-enabled on (installs env m ∷ older) p (inr o) = inr (Origin-enabled on older p o)
Origin-enabled on (enables env n ∷ older) p o = Origin-enabled on older p o
Origin-enabled on (disables env n ∷ older) p o = Origin-enabled on older p o
Origin-enabled on (uninstalls env n ∷ older) p o = Origin-enabled on older p o

OriginOf-turned :
    (b on : Bool) (cs : List Call) (o : Option InstalledPlugin)
    → OriginOf o cs
    → OriginOf (if b then turned on o else o) cs
OriginOf-turned false on cs o h = h
OriginOf-turned true on cs none h = tt
OriginOf-turned true on cs (some p) h = Origin-enabled on cs p h

OriginOf-lift :
    (c : Call) (cs : List Call) (o : Option InstalledPlugin) → OriginOf o cs → OriginOf o (c ∷ cs)
OriginOf-lift (installs env m) cs none h = tt
OriginOf-lift (installs env m) cs (some p) h = inr h
OriginOf-lift (enables env n) cs none h = tt
OriginOf-lift (enables env n) cs (some p) h = h
OriginOf-lift (disables env n) cs none h = tt
OriginOf-lift (disables env n) cs (some p) h = h
OriginOf-lift (uninstalls env n) cs none h = tt
OriginOf-lift (uninstalls env n) cs (some p) h = h

OriginOf-fresh :
    (named vets opens : Bool) (env : Env) (m : PluginManifest) (older : List Call)
    (o : Option InstalledPlugin)
    → vetted env m ≡ vets
    → unpacks env ≡ opens
    → OriginOf o older
    → OriginOf (if named && (vets && opens) then some (fresh env m) else o) (installs env m ∷ older)
OriginOf-fresh true true true env m older o v u h = inl (v, u, refl, refl, refl, refl)
OriginOf-fresh false vets opens env m older o v u h = OriginOf-lift (installs env m) older o h
OriginOf-fresh true false opens env m older o v u h = OriginOf-lift (installs env m) older o h
OriginOf-fresh true true false env m older o v u h = OriginOf-lift (installs env m) older o h

OriginOf-erased :
    (b : Bool) (cs : List Call) (o : Option InstalledPlugin)
    → OriginOf o cs
    → OriginOf (if b then none else o) cs
OriginOf-erased true cs o h = tt
OriginOf-erased false cs o h = h

OriginOf-effect :
    (c : Call) (older : List Call) (name : String) (o : Option InstalledPlugin)
    → OriginOf o older
    → OriginOf (effect c name o) (c ∷ older)
OriginOf-effect (installs env m) older name o h =
    OriginOf-fresh (str_eq m.name name) (vetted env m) (unpacks env) env m older o refl refl h
OriginOf-effect (enables env n) older name o h =
    OriginOf-lift (enables env n) older (if str_eq n name then turned true o else o)
      (OriginOf-turned (str_eq n name) true older o h)
OriginOf-effect (disables env n) older name o h =
    OriginOf-lift (disables env n) older (if str_eq n name then turned false o else o)
      (OriginOf-turned (str_eq n name) false older o h)
OriginOf-effect (uninstalls env n) older name o h =
    OriginOf-lift (uninstalls env n) older (if str_eq n name then none else o)
      (OriginOf-erased (str_eq n name) older o h)

module _ {B : Type 0} (json : Json Index B) where
  unfoldable pub run : List Call → Registry B → Registry B
  run [] r = r
  run (c ∷ older) r = step json c (run older r)

  -- On an empty index, a plugin's status after any history is that of the abstract history: it is
  -- there from an install that passed every check until it is uninstalled, and enabled only by the
  -- operator's call after that install.
  pub run-fate :
      (cs : List Call) (name : String) (r : Registry B)
      → r.index ≡ []
      → status (value_at name (run cs r).index) ≡ fate name cs
  unfolding run
  run-fate [] name r e = ap (λ m. status (value_at name m)) e ∙ ap status (value_at-nil name)
  run-fate (c ∷ older) name r e =
      ap status (step-effect json c name (run older r))
      ∙ status-effect c older name (value_at name (run older r).index) (run-fate older name r e)

  run-OriginOf :
      (cs : List Call) (name : String) (r : Registry B)
      → r.index ≡ []
      → OriginOf (value_at name (run cs r).index) cs
  unfolding run
  run-OriginOf [] name r e =
      subst (λ o. OriginOf o []) (sym (ap (λ m. value_at name m) e ∙ value_at-nil name)) tt
  run-OriginOf (c ∷ older) name r e =
      subst (λ o. OriginOf o (c ∷ older)) (sym (step-effect json c name (run older r)))
        (OriginOf-effect c older name (value_at name (run older r).index)
          (run-OriginOf older name r e))

  -- Every plugin of the index comes from an install that passed the checks.
  pub run-Origin :
      (cs : List Call) (name : String) (r : Registry B) (p : InstalledPlugin)
      → r.index ≡ []
      → value_at name (run cs r).index ≡ some p
      → Origin p cs
  run-Origin cs name r p e h = subst (λ o. OriginOf o cs) h (run-OriginOf cs name r e)
