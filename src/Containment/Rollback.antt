-- ===== src/Containment/Rollback.antt =====
-- core/security/containment/containment.go: what the emergency restore undoes.
use text.Mathlib.Text.{◌==◌ as str_eq}
use hisnos_secure_workstatio.Common.{
  ℕ, ◌≡◌, refl, sym, ◌∙◌, inl, inr, Bool, true, false, not, ◌&&◌, ◌||◌, List, [], ◌∷◌, ◌++◌, String,
  ◌==◌, Bool-cases, Option-cases, arith, if◌then◌else◌,
}
use hisnos_secure_workstatio.Containment.{
  Env, State, apply_network_containment, quarantine_pid, quarantine_each, quarantine_pids,
  release_each, remount_read_only, writable_each,
}

abbrev pub lists_pid : ℕ → List ℕ → Bool
lists_pid p [] = false
lists_pid p (q ∷ qs) = p == q || lists_pid p qs

abbrev pub lists_path : String → List String → Bool
lists_path p [] = false
lists_path p (q ∷ qs) = str_eq p q || lists_path p qs

or_true : (a : Bool) → (a || true) ≡ true
or_true a = ground arith

lists_pid-append :
    (p : ℕ) (xs : List ℕ) (y : ℕ) → lists_pid p (xs ++ y ∷ []) ≡ (lists_pid p xs || p == y)
lists_pid-append p [] y = ground arith
lists_pid-append p (x ∷ xs) y = ground (arith, lists_pid-append p xs y)

lists_path-append :
    (p : String) (xs : List String) (y : String)
    → lists_path p (xs ++ y ∷ []) ≡ (lists_path p xs || str_eq p y)
lists_path-append p [] y = ground arith
lists_path-append p (x ∷ xs) y = elim (Bool-cases (str_eq p x)) [
  | inl q ↦ rw q refl
  | inr q ↦ rw q (lists_path-append p xs y)
]

-- The manager knows of every measure that is in force.
abbrev pub Tracked : State → Type 0
Tracked (m, h) =
    (h.table ≡ true → m.network_contained ≡ true)
    × ((p : ℕ) → h.quarantined p ≡ true → lists_pid p m.quarantined_pids ≡ true)
    × ((p : String) → h.read_only p ≡ true → lists_path p m.fs_read_only ≡ true)

pub apply_network_containment-Tracked :
    (env : Env) (s : State) → Tracked s → Tracked (apply_network_containment env s).0
unfolding apply_network_containment
apply_network_containment-Tracked env (m, h) (t, q, r) = elim (Bool-cases m.network_contained) [
  | inl n ↦ rw n (λ x. refl, q, r)
  | inr n ↦ elim (Bool-cases env.temp_file_written) [
    | inr w ↦ rw (n, w) (λ x. sym n ∙ t x, q, r)
    | inl w ↦ elim (Bool-cases env.nft_loads) [
      | inl l ↦ rw (n, w, l) (λ x. refl, q, r)
      | inr l ↦ rw (n, w, l) (λ x. sym n ∙ t x, q, r)
    ]
  ]
]

quarantine_pid-Tracked :
    (env : Env) (pid : ℕ) (s : State) → Tracked s → Tracked (quarantine_pid env pid s)
quarantine_pid-Tracked env pid (m, h) (t, q, r) = elim (Bool-cases (env.moves_in pid)) [
  | inr n ↦ rw n (t, q, r)
  | inl y ↦ rw y (t, listed, r)
]
  where
    listed :
        (p : ℕ)
        → (if p == pid then true else h.quarantined p) ≡ true
        → lists_pid p (m.quarantined_pids ++ pid ∷ []) ≡ true
    listed p k = elim (Bool-cases (p == pid)) [
      | inl e ↦ lists_pid-append p m.quarantined_pids pid ∙ ground arith
      | inr e ↦ let old = q p (rw e at k) in lists_pid-append p m.quarantined_pids pid ∙ rw old refl
    ]

quarantine_each-Tracked :
    (env : Env) (pids : List ℕ) (s : State) → Tracked s → Tracked (quarantine_each env pids s)
unfolding quarantine_each
quarantine_each-Tracked env [] s k = k
quarantine_each-Tracked env (pid ∷ rest) s k =
    quarantine_each-Tracked env rest (quarantine_pid env pid s) (quarantine_pid-Tracked env pid s k)

pub quarantine_pids-Tracked :
    (env : Env) (pids : List ℕ) (s : State) → Tracked s → Tracked (quarantine_pids env pids s).0
unfolding quarantine_pids
quarantine_pids-Tracked env pids s k = elim (Bool-cases env.cgroup_made) [
  | inl y ↦ rw y (quarantine_each-Tracked env pids s k)
  | inr n ↦ rw n k
]

pub remount_read_only-Tracked :
    (env : Env) (paths : List String) (s : State)
    → Tracked s
    → Tracked (remount_read_only env paths s).0
unfolding remount_read_only
remount_read_only-Tracked env [] s k = k
remount_read_only-Tracked env (path ∷ rest) (m, h) (t, q, r) = elim (Option-cases (env.abs path)) [
  | inl e ↦ rw (e, remount_read_only) (remount_read_only-Tracked env rest (m, h) (t, q, r))
  | inr (a, e) ↦ elim (Bool-cases (env.remounts_read_only a)) [
    | inr n ↦ rw (e, remount_read_only, n) (t, q, r)
    | inl y ↦
        rw (e, remount_read_only, y)
          (remount_read_only-Tracked env rest
            (
              record m { fs_read_only = m.fs_read_only ++ a ∷ [] },
              record h { read_only = λ p. if str_eq p a then true else h.read_only p },
            )
            (t, q, listed a))
  ]
]
  where
    listed :
        (a p : String)
        → (if str_eq p a then true else h.read_only p) ≡ true
        → lists_path p (m.fs_read_only ++ a ∷ []) ≡ true
    listed a p k = elim (Bool-cases (str_eq p a)) [
      | inl e ↦ lists_path-append p m.fs_read_only a ∙ rw e (or_true (lists_path p m.fs_read_only))
      | inr e ↦ let old = r p (rw e at k) in lists_path-append p m.fs_read_only a ∙ rw old refl
    ]

-- The system calls of the restore work.
abbrev pub Works : Env → Type 0
Works env =
    (env.nft_deletes ≡ true)
    × ((p : ℕ) → env.moves_out p ≡ true)
    × ((p : String) → env.remounts_writable p ≡ true)

pub release_each-lem :
    (env : Env) (pids : List ℕ) (inside : ℕ → Bool) (p : ℕ)
    → ((k : ℕ) → env.moves_out k ≡ true)
    → (inside p ≡ true → lists_pid p pids ≡ true)
    → release_each env pids inside p ≡ false
unfolding release_each
release_each-lem env [] inside p w k = elim (Bool-cases (inside p)) [
  | inl y ↦ absurd (let bad = k y in cc)
  | inr n ↦ n
]
release_each-lem env (pid ∷ rest) inside p w k =
    release_each-lem env rest
      (λ q. if q == pid then not (env.moves_out pid) && inside q else inside q) p w still
  where
    still :
        (if p == pid then not (env.moves_out pid) && inside p else inside p) ≡ true
        → lists_pid p rest ≡ true
    still h = elim (Bool-cases (p == pid)) [
      | inl e ↦ let bad = rw (e, w pid) at h in cc
      | inr e ↦ rw e at (k (rw e at h))
    ]

pub writable_each-lem :
    (env : Env) (paths : List String) (ro : String → Bool) (p : String)
    → ((k : String) → env.remounts_writable k ≡ true)
    → (ro p ≡ true → lists_path p paths ≡ true)
    → writable_each env paths ro p ≡ false
unfolding writable_each
writable_each-lem env [] ro p w k = elim (Bool-cases (ro p)) [
  | inl y ↦ absurd (let bad = k y in cc)
  | inr n ↦ n
]
writable_each-lem env (path ∷ rest) ro p w k =
    writable_each-lem env rest
      (λ q. if str_eq q path then not (env.remounts_writable path) && ro q else ro q) p w still
  where
    still :
        (if str_eq p path then not (env.remounts_writable path) && ro p else ro p) ≡ true
        → lists_path p rest ≡ true
    still h = elim (Bool-cases (str_eq p path)) [
      | inl e ↦ let bad = rw (e, w path) at h in cc
      | inr e ↦ rw e at (k (rw e at h))
    ]
