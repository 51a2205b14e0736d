-- ===== src/Containment/Histories.antt =====
-- core/security/containment/containment.go: sequences of measures, and the emergency restore.
use hisnos_secure_workstatio.Common.{
  ℕ, ◌≡◌, refl, sym, ap, ◌∙◌, inl, inr, Bool, true, false, List, [], ◌∷◌, String, Bool-cases,
}
use hisnos_secure_workstatio.Containment.{
  Host, Manager, new_manager, Env, State, apply_network_containment, restore_network,
  quarantine_pids, release_quarantine, remount_read_only, restore_filesystem, emergency_restore,
}
use hisnos_secure_workstatio.Containment.Rollback.{
  Tracked, apply_network_containment-Tracked, quarantine_pids-Tracked, remount_read_only-Tracked,
  Works, release_each-lem, writable_each-lem,
}

-- A measure that is asked for.
pub data Measure : Type 0 where
  contains : Measure
  quarantines : List ℕ → Measure
  remounts : List String → Measure

pub take_measure : Env → Measure → State → State
take_measure env contains s = (apply_network_containment env s).0
take_measure env (quarantines pids) s = (quarantine_pids env pids s).0
take_measure env (remounts paths) s = (remount_read_only env paths s).0

pub take_measures : List (Env × Measure) → State → State
take_measures [] s = s
take_measures ((env, c) ∷ rest) s = take_measures rest (take_measure env c s)

take_measure-Tracked :
    (env : Env) (c : Measure) (s : State) → Tracked s → Tracked (take_measure env c s)
unfolding take_measure
take_measure-Tracked env contains s k = apply_network_containment-Tracked env s k
take_measure-Tracked env (quarantines pids) s k = quarantine_pids-Tracked env pids s k
take_measure-Tracked env (remounts paths) s k = remount_read_only-Tracked env paths s k

take_measures-Tracked :
    (cs : List (Env × Measure)) (s : State) → Tracked s → Tracked (take_measures cs s)
unfolding take_measures
take_measures-Tracked [] s k = k
take_measures-Tracked ((env, c) ∷ rest) s k =
    take_measures-Tracked rest (take_measure env c s) (take_measure-Tracked env c s k)

-- No measure is in force.
abbrev pub Free : Host → Type 0
Free h =
    (h.table ≡ false) × ((p : ℕ) → h.quarantined p ≡ false) × ((p : String) → h.read_only p ≡ false)

Free-Tracked : (m : Manager) (h : Host) → Free h → Tracked (m, h)
Free-Tracked m h (t, q, r) =
    (λ x. absurd (clash t x), λ p x. absurd (clash (q p) x), λ p x. absurd (clash (r p) x))
  where
    clash : {b : Bool} → b ≡ false → b ≡ true → ⊥
    clash n y = let bad : false ≡ true = sym n ∙ y in cc

restore_network-table :
    (env : Env) (m : Manager) (h : Host)
    → env.nft_deletes ≡ true
    → (h.table ≡ true → m.network_contained ≡ true)
    → (restore_network env (m, h)).1.table ≡ false
unfolding restore_network
restore_network-table env m h w t = elim (Bool-cases m.network_contained) [
  | inl n ↦ rw (n, w) refl
  | inr n ↦ elim (Bool-cases h.table) [
    | inl y ↦ let bad : false ≡ true = sym n ∙ t y in cc
    | inr f ↦ rw n f
  ]
]

restore_network-rest :
    (env : Env) (s : State)
    → ((restore_network env s).1.quarantined ≡ s.1.quarantined)
      × ((restore_network env s).1.read_only ≡ s.1.read_only)
unfolding restore_network
restore_network-rest env (m, h) = elim (Bool-cases m.network_contained) [
  | inr n ↦ rw n (refl, refl)
  | inl n ↦ elim (Bool-cases env.nft_deletes) [
    | inl d ↦ rw (n, d) (refl, refl)
    | inr d ↦ rw (n, d) (refl, refl)
  ]
]

emergency_restore-Free :
    (env : Env) (s : State) → Works env → Tracked s → Free (emergency_restore env s).1
unfolding emergency_restore restore_filesystem release_quarantine
emergency_restore-Free env (m, h) (d, o, w) (t, q, r) =
    let s2 = release_quarantine env (restore_filesystem env (m, h)) in
    let (same_pids, same_paths) = restore_network-rest env s2 in
    (
      restore_network-table env s2.0 s2.1 d t,
      λ p.
          ap (λ (f : ℕ → Bool). f p) same_pids
          ∙ release_each-lem env m.quarantined_pids h.quarantined p o (q p),
      λ p.
          ap (λ (f : String → Bool). f p) same_paths
          ∙ writable_each-lem env m.fs_read_only h.read_only p w (r p),
    )

-- Whatever measures were taken on a free host, and whichever of their system calls failed: the
-- emergency restore leaves no measure in force, if its own system calls work.
pub take_measures-emergency_restore :
    (cs : List (Env × Measure)) (env : Env) (h : Host)
    → Free h
    → Works env
    → Free (emergency_restore env (take_measures cs (new_manager, h))).1
take_measures-emergency_restore cs env h f w =
    emergency_restore-Free env (take_measures cs (new_manager, h)) w
      (take_measures-Tracked cs (new_manager, h) (Free-Tracked new_manager h f))

-- But a restore whose nft calls fail forgets the containment: no later restore removes the table,
-- even if nft works again.
pub restore_network-forgets :
    (env later : Env) (m : Manager) (h : Host)
    → m.network_contained ≡ true
    → h.table ≡ true
    → env.nft_deletes ≡ false
    → (emergency_restore later (restore_network env (m, h))).1.table ≡ true
unfolding emergency_restore restore_filesystem release_quarantine restore_network
restore_network-forgets env later m h c t n = rw (c, n) t
