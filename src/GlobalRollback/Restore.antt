-- ===== src/GlobalRollback/Restore.antt =====
-- core/orchestrator/global_rollback.go: what a rollback brings back.
use mathlib.Core.Path.{subst}
use text.Mathlib.Text.{◌==◌ as str_eq}
use text.Mathlib.TextEquality.{eq_iff}
use hisnos_secure_workstatio.Common.{
  ℕ, zero, suc, ◌-◌, ◌≤◌, ◌≡◌, refl, sym, ap, ◌∙◌, inl, inr, Bool, true, false, none, some, List,
  [], ◌∷◌, ◌++◌, String, length, length-append, drop, All, ltb, Option, Option-cases, Bool-cases,
  arith, if◌then◌else◌,
}
use hisnos_secure_workstatio.GlobalRollback.{
  max_snapshots, SubsystemHook, SnapshotEntry, GlobalRollback, RollbackResult, put_state, state_of,
  evict, latest, capture, new_entry, take_snapshot, noted, restore_state, restore_one,
  restore_hooks, restore_entry, rollback_to_latest,
}

module _ {V : Type 0} where
  latest-drop :
      (k : ℕ) (xs : List (SnapshotEntry V)) (e : SnapshotEntry V)
      → k ≤ length xs
      → latest (drop k (xs ++ e ∷ [])) ≡ some e
  unfolding latest
  latest-drop zero [] e h = refl
  latest-drop zero (x ∷ []) e h = refl
  latest-drop zero (x ∷ y ∷ xs) e h = latest-drop zero (y ∷ xs) e (omega arith)
  latest-drop (suc k) [] e h = absurd (omega arith)
  latest-drop (suc k) (x ∷ xs) e h = latest-drop k xs e (omega arith)

  latest-evict :
      (xs : List (SnapshotEntry V)) (e : SnapshotEntry V) → latest (evict (xs ++ e ∷ [])) ≡ some e
  unfolding evict
  latest-evict xs e = elim (Bool-cases (ltb max_snapshots (length (xs ++ e ∷ [])))) [
    | inl h ↦ rw h (
        latest-drop (length (xs ++ e ∷ []) - max_snapshots) xs e
          (omega (arith, length-append xs (e ∷ []))))
    | inr h ↦ rw h (latest-drop 0 xs e (omega arith))
  ]

  length-drop : (k : ℕ) (xs : List (SnapshotEntry V)) → length (drop k xs) ≡ length xs - k
  length-drop zero xs = omega arith
  length-drop (suc k) [] = omega arith
  length-drop (suc k) (x ∷ xs) = omega (arith, length-drop k xs)

  state_of-put_state :
      (m n : String) (v : V) (ss : List (String × V))
      → state_of m (put_state n v ss) ≡ (if str_eq n m then some v else state_of m ss)
  unfolding state_of put_state
  state_of-put_state m n v [] = refl
  state_of-put_state m n v ((k, u) ∷ ss) =
      ground (arith, state_of-put_state m n v ss, eq_iff k n, eq_iff k m, eq_iff n m)

-- The new snapshot is the latest one, its id is the last one given out, and no more than five are
-- kept.
pub take_snapshot-latest :
    {W V : Type 0} (now : ℕ) (w : W) (gr : GlobalRollback W V)
    → let (gr', id) = take_snapshot now w gr in
      (latest gr'.snapshots ≡ some (new_entry now w gr))
      × (id ≡ gr'.next_id)
      × (length gr'.snapshots ≤ 5)
unfolding take_snapshot evict
take_snapshot-latest now w gr =
    let e = new_entry now w gr in
    (
      latest-evict gr.snapshots e,
      refl,
      ground (
        arith,
        length-drop (length (gr.snapshots ++ e ∷ []) - max_snapshots) (gr.snapshots ++ e ∷ []),
      ),
    )

turned : (a b : String) → str_eq a b ≡ false → str_eq b a ≡ false
turned a b e = ground (arith, eq_iff a b, eq_iff b a, e)

noted_lem :
    (n : String) (b : Bool) (r : RollbackResult)
    → noted n b r ≡ record r {
      succeeded = if b then r.succeeded else r.succeeded ++ n ∷ [];
      failed = if b then r.failed ++ n ∷ [] else r.failed;
    }
noted_lem n true r = refl
noted_lem n false r = refl

module _ {W V : Type 0} where
  -- The hooks whose snapshot works, with what they capture.
  abbrev pub captures : List (SubsystemHook W V) → W → List (SubsystemHook W V × V)
  captures [] w = []
  captures (h ∷ hs) w =
      let later = captures hs w in elim (h.snapshot w) [ none ↦ later | some v ↦ (h, v) ∷ later ]

  abbrev pub last_first : List (SubsystemHook W V × V) → List (SubsystemHook W V × V)
  last_first [] = []
  last_first (x ∷ xs) = last_first xs ++ x ∷ []

  -- One restore after another; each name is noted as succeeded or failed.
  abbrev pub undo : List (SubsystemHook W V × V) → RollbackResult → W → RollbackResult × W
  undo [] r w = (r, w)
  undo ((h, v) ∷ rest) r w =
      undo rest
        (record r {
          succeeded = if (h.restore v w).1 then r.succeeded else r.succeeded ++ h.name ∷ [];
          failed = if (h.restore v w).1 then r.failed ++ h.name ∷ [] else r.failed;
        })
        (h.restore v w).0

  abbrev Apart : SubsystemHook W V → List (SubsystemHook W V) → Type 0
  Apart h hs = All (λ k. str_eq h.name k.name ≡ false) hs

  -- No two hooks have the same name.
  abbrev pub DistinctNames : List (SubsystemHook W V) → Type 0
  DistinctNames [] = Unit
  DistinctNames (h ∷ hs) = Apart h hs × DistinctNames hs

  abbrev put_new : SubsystemHook W V → Option V → List (String × V) → List (String × V)
  put_new h none ss = ss
  put_new h (some v) ss = put_state h.name v ss

  capture_step :
      (h : SubsystemHook W V) (hs : List (SubsystemHook W V)) (w : W) (ss : List (String × V))
      → capture (h ∷ hs) w ss ≡ capture hs w (put_new h (h.snapshot w) ss)
  unfolding capture
  capture_step h hs w ss = elim (Option-cases (h.snapshot w)) [
    | inl e ↦ rw (e, capture) refl
    | inr (v, e) ↦ rw (e, capture) refl
  ]

  state_of-put_new :
      (m : String) (h : SubsystemHook W V) (o : Option V) (ss : List (String × V))
      → str_eq h.name m ≡ false
      → state_of m (put_new h o ss) ≡ state_of m ss
  state_of-put_new m h none ss e = refl
  state_of-put_new m h (some v) ss e = state_of-put_state m h.name v ss ∙ rw e refl

  state_of-put_same :
      (h : SubsystemHook W V) (o : Option V) (ss : List (String × V))
      → state_of h.name ss ≡ none
      → state_of h.name (put_new h o ss) ≡ o
  state_of-put_same h none ss e = e
  state_of-put_same h (some v) ss e =
      state_of-put_state h.name h.name v ss ∙ rw ((eq_iff h.name h.name).1 refl) refl

  capture-Apart :
      (h : SubsystemHook W V) (hs : List (SubsystemHook W V)) (w : W) (ss : List (String × V))
      → Apart h hs
      → state_of h.name (capture hs w ss) ≡ state_of h.name ss
  unfolding capture
  capture-Apart h [] w ss a = refl
  capture-Apart h (k ∷ hs) w ss (a, others) =
      ap (state_of h.name) (capture_step k hs w ss)
      ∙ (capture-Apart h hs w (put_new k (k.snapshot w) ss) others
          ∙ state_of-put_new h.name k (k.snapshot w) ss (turned h.name k.name a))

  abbrev Free : List (String × V) → List (SubsystemHook W V) → Type 0
  Free ss hs = All (λ k. state_of k.name ss ≡ none) hs

  Free-put_new :
      (h : SubsystemHook W V) (o : Option V) (hs : List (SubsystemHook W V))
      (ss : List (String × V))
      → Apart h hs
      → Free ss hs
      → Free (put_new h o ss) hs
  Free-put_new h o [] ss a f = tt
  Free-put_new h o (k ∷ hs) ss (a, others) (f, fs) =
      (state_of-put_new k.name h o ss a ∙ f, Free-put_new h o hs ss others fs)

  abbrev Holds : List (String × V) → W → List (SubsystemHook W V) → Type 0
  Holds ss w hs = All (λ k. state_of k.name ss ≡ k.snapshot w) hs

  capture-Holds :
      (hs : List (SubsystemHook W V)) (w : W) (ss : List (String × V))
      → DistinctNames hs
      → Free ss hs
      → Holds (capture hs w ss) w hs
  capture-Holds [] w ss d f = tt
  capture-Holds (h ∷ hs) w ss (a, d) (f, fs) =
      let ss' = put_new h (h.snapshot w) ss in
      subst (λ x. Holds x w (h ∷ hs)) (sym (capture_step h hs w ss))
        (
          capture-Apart h hs w ss' a ∙ state_of-put_same h (h.snapshot w) ss f,
          capture-Holds hs w ss' d (Free-put_new h (h.snapshot w) hs ss a fs),
        )

  Free-nil : (hs : List (SubsystemHook W V)) → Free [] hs
  unfolding state_of
  Free-nil [] = tt
  Free-nil (h ∷ hs) = (refl, Free-nil hs)

  undo-append :
      (xs ys : List (SubsystemHook W V × V)) (r : RollbackResult) (w : W)
      → undo (xs ++ ys) r w ≡ undo ys (undo xs r w).0 (undo xs r w).1
  undo-append [] ys r w = refl
  undo-append ((h, v) ∷ xs) ys r w = undo-append xs ys _ _

  restore_state-undo :
      (h : SubsystemHook W V) (v : V) (r : RollbackResult × W)
      → restore_state h v r ≡ undo ((h, v) ∷ []) r.0 r.1
  restore_state-undo h v (r, w) =
      ap (λ x. (x, (h.restore v w).0)) (noted_lem h.name (h.restore v w).1 r)

  restore_hooks-undo :
      (ss : List (String × V)) (hs : List (SubsystemHook W V)) (w : W) (r : RollbackResult) (w' : W)
      → Holds ss w hs
      → restore_hooks ss hs (r, w') ≡ undo (last_first (captures hs w)) r w'
  unfolding restore_hooks restore_one
  restore_hooks-undo ss [] w r w' a = refl
  restore_hooks-undo ss (h ∷ hs) w r w' (a, others) =
      let below = restore_hooks-undo ss hs w r w' others in
      elim (Option-cases (h.snapshot w)) [
        | inl e ↦
            let q : state_of h.name ss ≡ none = a ∙ e in
            ap (restore_one ss h) below ∙ rw (restore_one, q, e) refl
        | inr (v, e) ↦
            let q : state_of h.name ss ≡ some v = a ∙ e in
            ap (restore_one ss h) below
            ∙ (rw (restore_one, q, e)
                (restore_state-undo h v (undo (last_first (captures hs w)) r w')
                  ∙ sym (undo-append (last_first (captures hs w)) ((h, v) ∷ []) r w')))
      ]

  -- If no two hooks have the same name: a rollback to the snapshot just taken, in whatever state the
  -- subsystems are by then, calls the restore of every registered hook whose snapshot worked, once and
  -- with what this hook captured, the last registered first; a failure stops nothing, and the result
  -- names what succeeded and what failed.
  pub take_snapshot-rollback_to_latest :
      (now : ℕ) (w w' : W) (gr : GlobalRollback W V)
      → DistinctNames gr.hooks
      → let (gr', id) = take_snapshot now w gr in
        rollback_to_latest w' gr'
        ≡ some (
            undo
              (last_first (captures gr.hooks w))
              (record { snapshot_id = id; succeeded = []; failed = [] })
              w')
  unfolding rollback_to_latest take_snapshot restore_entry
  take_snapshot-rollback_to_latest now w w' gr d =
      let e = new_entry now w gr in
      rw (latest-evict gr.snapshots e, rollback_to_latest)
        (ap some (
          restore_hooks-undo e.states gr.hooks w
            (record { snapshot_id = e.id; succeeded = []; failed = [] }) w'
            (capture-Holds gr.hooks w [] d (Free-nil gr.hooks))))
