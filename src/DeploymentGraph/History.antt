-- ===== src/DeploymentGraph/History.antt =====
-- core/ecosystem/deployment_graph.go: which deployment is active.
use text.Mathlib.Text.{◌==◌ as str_eq}
use text.Mathlib.TextEquality.{eq_iff}
use hisnos_secure_workstatio.Common.{
  ℕ, ◌<◌, ◌≡◌, refl, ap, ◌∙◌, ◌⊎◌, inl, inr, Bool, true, false, not, ◌&&◌, some, List, [], ◌∷◌,
  String, All, count_if, Bool-cases, Option-cases, arith,
}
use hisnos_secure_workstatio.AtomicFile.{Json, FileStep}
use hisnos_secure_workstatio.DeploymentGraph.{
  DeploymentRecord, StatusEntry, Host, is_active, has_hash, find_booted, rec_of, introspect_current,
  retire, upsert, record_nodes, active_hash, graph_status, DeploymentGraphManager, record_current,
}

-- No two nodes have the same hash.
abbrev pub Distinct : List DeploymentRecord → Type 0
Distinct [] = Unit
Distinct (n ∷ ns) = All (λ m. has_hash n.commit_hash m ≡ false) ns × Distinct ns

str_eq_comm : (a b : String) → str_eq a b ≡ false → str_eq b a ≡ false
str_eq_comm a b h = ground (arith, eq_iff a b, eq_iff b a)

Distinct-retire-head :
    (now : ℕ) (g h : String) (ns : List DeploymentRecord)
    → All (λ m. has_hash h m ≡ false) ns
    → All (λ m. has_hash h m ≡ false) (retire now g ns)
unfolding retire
Distinct-retire-head now g h [] a = tt
Distinct-retire-head now g h (n ∷ ns) a = ground (arith, Distinct-retire-head now g h ns a.1)

Distinct-retire :
    (now : ℕ) (g : String) (ns : List DeploymentRecord) → Distinct ns → Distinct (retire now g ns)
unfolding retire
Distinct-retire now g [] d = tt
Distinct-retire now g (n ∷ ns) d = elim (Bool-cases (is_active n && not (has_hash g n))) [
  | inl e ↦ rw e (Distinct-retire-head now g n.commit_hash ns d.0, Distinct-retire now g ns d.1)
  | inr e ↦ rw e (Distinct-retire-head now g n.commit_hash ns d.0, Distinct-retire now g ns d.1)
]

Distinct-upsert-head :
    (rec : DeploymentRecord) (h : String) (ns : List DeploymentRecord)
    → has_hash h rec ≡ false
    → All (λ m. has_hash h m ≡ false) ns
    → All (λ m. has_hash h m ≡ false) (upsert rec ns)
unfolding upsert
Distinct-upsert-head rec h [] r a = (r, tt)
Distinct-upsert-head rec h (n ∷ ns) r a = ground (arith, Distinct-upsert-head rec h ns r a.1)

Distinct-upsert :
    (rec : DeploymentRecord) (ns : List DeploymentRecord) → Distinct ns → Distinct (upsert rec ns)
unfolding upsert
Distinct-upsert rec [] d = (tt, tt)
Distinct-upsert rec (n ∷ ns) d = elim (Bool-cases (has_hash rec.commit_hash n)) [
  | inl e ↦ rw e d
  | inr e ↦ rw e (
    Distinct-upsert-head rec n.commit_hash ns (str_eq_comm n.commit_hash rec.commit_hash e) d.0,
    Distinct-upsert rec ns d.1,
  )
]

-- The loop leaves no active node with another hash.
active-retire :
    (now : ℕ) (h : String) (ns : List DeploymentRecord)
    → 0 < now
    → All (λ m. has_hash h m ≡ false) ns
    → count_if is_active (retire now h ns) ≡ 0
unfolding retire
active-retire now h [] t a = refl
active-retire now h (n ∷ ns) t a = ground (arith, active-retire now h ns t a.1)

active-record_nodes :
    (now : ℕ) (rec : DeploymentRecord) (ns : List DeploymentRecord)
    → 0 < now
    → rec.retired_at ≡ 0
    → Distinct ns
    → count_if is_active (upsert rec (retire now rec.commit_hash ns)) ≡ 1
unfolding retire upsert
active-record_nodes now rec [] t r d = ground arith
active-record_nodes now rec (n ∷ ns) t r d = elim (Bool-cases (has_hash rec.commit_hash n)) [
  | inl e ↦
      let same : n.commit_hash ≡ rec.commit_hash = (eq_iff n.commit_hash rec.commit_hash).0 e in
      ground (arith, active-retire now rec.commit_hash ns t (rw same at d.0))
  | inr e ↦ ground (arith, active-record_nodes now rec ns t r d.1)
]

active_hash-record_nodes :
    (now : ℕ) (rec : DeploymentRecord) (ns : List DeploymentRecord)
    → 0 < now
    → rec.retired_at ≡ 0
    → active_hash (upsert rec (retire now rec.commit_hash ns)) ≡ rec.commit_hash
unfolding retire upsert active_hash
active_hash-record_nodes now rec [] t r = ground arith
active_hash-record_nodes now rec (n ∷ ns) t r =
    ground (arith, eq_iff n.commit_hash rec.commit_hash, active_hash-record_nodes now rec ns t r)

introspected :
    (h : Host) (ds : List StatusEntry) (rec : DeploymentRecord)
    → introspect_current h ds ≡ some rec
    → (d : StatusEntry) × (find_booted ds ≡ some d) × (rec ≡ rec_of h d)
unfolding introspect_current
introspected h ds rec e = elim (Option-cases (find_booted ds)) [
  | inl q ↦ let bad = rw (q, introspect_current) at e in cc
  | inr (d, q) ↦
      let e' = rw (q, introspect_current) at e in
      elim (Bool-cases (str_eq d.checksum "")) [
        | inl b ↦ let bad = rw b at e' in cc
        | inr b ↦ (d, q, let found = rw b at e' in cc)
      ]
]

module _ {B : Type 0} (json : Json (List DeploymentRecord) B) where
  -- Recording the running deployment, by a clock past Go's zero time, keeps the hashes of the nodes
  -- distinct, if they were. If it reports an error nothing changes; otherwise exactly one node is active, and the status names the deployment that
  -- rpm-ostree lists as booted.
  pub record_current-Distinct :
      (fails : FileStep → Bool) (h : Host) (ds : List StatusEntry) (m : DeploymentGraphManager B)
      (later : ℕ)
      → 0 < h.now
      → Distinct m.nodes
      → let (m', failed) = record_current json fails h ds m in
        Distinct m'.nodes
        × ((failed ≡ true) × (m' ≡ m)
            ⊎ ((failed ≡ false)
                × (count_if is_active m'.nodes ≡ 1)
                × (d : StatusEntry) × (find_booted ds ≡ some d)
                × ((graph_status later m'.nodes).active_commit ≡ d.checksum)))
  unfolding record_current record_nodes graph_status
  record_current-Distinct fails h ds m later t d = elim (Option-cases (introspect_current h ds)) [
    | inl e ↦ rw (e, record_current) (d, inl (refl, refl))
    | inr (rec, e) ↦
        let (b, q, r) = introspected h ds rec e in
        let off : rec.retired_at ≡ 0 = ap (λ (n : DeploymentRecord). n.retired_at) r in
        rw (e, record_current)
          (
            Distinct-upsert rec _ (Distinct-retire h.now rec.commit_hash m.nodes d),
            inr (
              refl,
              active-record_nodes h.now rec m.nodes t off d,
              b,
              q,
              active_hash-record_nodes h.now rec m.nodes t off
                  ∙ ap (λ (n : DeploymentRecord). n.commit_hash) r,
            ),
          )
  ]
