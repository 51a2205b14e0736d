-- ===== src/Gaming/Sessions.antt =====
-- gaming/hispowerd/main.go: what a gaming session leaves behind in cpu.max of the
-- services and smp_affinity of the interrupts. What tuning.go writes is not modelled.
use mathlib.Core.Path.{subst}
use hisnos_secure_workstatio.Common.{
  ◌≡◌, refl, sym, ap, ◌∙◌, inl, inr, Bool, true, false, List, [], Bool-cases, arith,
}
use hisnos_secure_workstatio.Gaming.{
  Knob, Knobs, Env, Config, Machine, Saved, Throttler, throttle_apply, throttle_restore,
  restore_each, is_some,
}
use hisnos_secure_workstatio.Gaming.Irq.{
  irq_apply, irq_restore, irq_emergency, reset_each, fast_apply, fast_restore, fast_emergency,
}
use hisnos_secure_workstatio.Gaming.Restoring.{Pending, WritesWork, restore_each-Pending}
use hisnos_secure_workstatio.Gaming.Throttling.{
  Distinct, DistinctIrqs, found_irqs, throttle_apply-Pending, throttle_restore-Pending,
  throttle_restore-knobs, irq_apply-Pending,
}
use hisnos_secure_workstatio.Gaming.Session.{
  Applied, Session, start_gaming, stop_fast, stop_throttle, stop_irqs, restore_irqs, stop_gaming,
  clean_up, ensure_clean_start, new_process,
}

fast_apply-knobs :
    (env : Env) (applied : Bool) (m : Machine) → (fast_apply env applied m).1.knobs ≡ m.knobs
unfolding fast_apply
fast_apply-knobs env applied m = ground arith

-- What `startGaming` has done when it returns.
start_gaming-parts :
    (cfg : Config) (env : Env) (d : Session)
    → let (saved, m1, irq_fine) = irq_apply cfg env d.machine in
      let (t, m2, fine) = throttle_apply cfg env m1 in
      let s = (start_gaming cfg env d).0 in
      (s.gaming ≡ true)
      × (s.irq_saved ≡ saved)
      × (s.throttler ≡ t)
      × (s.machine.knobs ≡ m2.knobs)
      × (s.phases.throttled ≡ fine)
      × (s.phases.irq_affinity ≡ irq_fine)
unfolding start_gaming
start_gaming-parts cfg env d = (refl, refl, refl, fast_apply-knobs env d.fast_applied _, refl, refl)

stop_fast-keeps :
    (env : Env) (d : Session)
    → let s = stop_fast env d in
      (s.machine.knobs ≡ d.machine.knobs)
      × (s.throttler ≡ d.throttler)
      × (s.irq_saved ≡ d.irq_saved)
      × (s.phases ≡ d.phases)
unfolding stop_fast fast_restore
stop_fast-keeps env d = elim (Bool-cases d.phases.firewall_fast) [
  | inr q ↦ rw (q, stop_fast) (refl, refl, refl, refl)
  | inl q ↦ elim (Bool-cases d.fast_applied) [
    | inr a ↦ rw (q, stop_fast, a, fast_restore) (refl, refl, refl, refl)
    | inl a ↦ elim (Bool-cases env.nft_deletes) [
      | inl n ↦ rw (q, stop_fast, a, fast_restore, n) (refl, refl, refl, refl)
      | inr n ↦ rw (q, stop_fast, a, fast_restore, n) (refl, refl, refl, refl)
    ]
  ]
]

stop_gaming-knobs :
    (cfg : Config) (env : Env) (d : Session)
    → d.gaming ≡ true
    → (stop_gaming cfg env d).0.machine.knobs
      ≡ (stop_irqs env (stop_throttle cfg env (stop_fast env d))).machine.knobs
unfolding stop_gaming
stop_gaming-knobs cfg env d g = rw g refl

stop_throttle-done :
    (cfg : Config) (env : Env) (d : Session)
    → d.phases.throttled ≡ true
    → let s = stop_throttle cfg env d in
      (s.machine ≡ (throttle_restore cfg env d.throttler d.machine).1)
      × (s.irq_saved ≡ d.irq_saved)
      × (s.phases ≡ d.phases)
unfolding stop_throttle
stop_throttle-done cfg env d q = rw (q, stop_throttle) (refl, refl, refl)

stop_throttle-skipped :
    (cfg : Config) (env : Env) (d : Session)
    → d.phases.throttled ≡ false
    → stop_throttle cfg env d ≡ d
unfolding stop_throttle
stop_throttle-skipped cfg env d q = rw (q, stop_throttle) refl

stop_irqs-done :
    (env : Env) (d : Session)
    → d.phases.irq_affinity ≡ true
    → (stop_irqs env d).machine ≡ (restore_irqs env d.irq_saved d.machine).1
unfolding stop_irqs
stop_irqs-done env d q = rw (q, stop_irqs) refl

stop_irqs-skipped : (env : Env) (d : Session) → d.phases.irq_affinity ≡ false → stop_irqs env d ≡ d
unfolding stop_irqs
stop_irqs-skipped env d q = rw (q, stop_irqs) refl

-- `EmergencyRestore` after a failed `Restore` changes no file, since `Restore` has forgotten what to
-- reset.
pub restore_irqs-knobs :
    (env : Env) (saved : List Saved) (m : Machine)
    → (restore_irqs env saved m).1.knobs ≡ (irq_restore env saved m).1.knobs
unfolding restore_irqs irq_restore irq_emergency reset_each
restore_irqs-knobs env saved m = elim (Bool-cases (restore_each env saved m.knobs).1) [
  | inl q ↦ rw q refl
  | inr q ↦ rw q refl
]

restore_irqs-Pending :
    (env : Env) (m0 : Knobs) (saved : List Saved) (m : Machine) (k : Knob)
    → WritesWork env
    → Pending m0 saved m.knobs
    → (restore_irqs env saved m).1.knobs k ≡ m0 k
unfolding irq_restore
restore_irqs-Pending env m0 saved m k w p =
    ap (λ (f : Knobs). f k) (restore_irqs-knobs env saved m)
    ∙ (restore_each-Pending env m0 saved m.knobs w p).0 k

-- Files that agree need the same.
Pending-agree :
    (m0 m m' : Knobs) (saved : List Saved)
    → ((k : Knob) → m' k ≡ m k)
    → Pending m0 saved m
    → Pending m0 saved m'
Pending-agree m0 m m' saved a (kept, was, there) = (
  λ k. elim (kept k) [ inl p ↦ inl (a k ∙ p) | inr c ↦ inr c ],
  was,
  λ k. ap is_some (a k) ∙ there k,
)

-- After a session in which pinning the interrupts and throttling the services reported no error,
-- cpu.max of every service and smp_affinity of every interrupt is as it was, if no write fails at the end of the session and neither the
-- services nor the interrupts are listed twice.
pub start-stop_gaming :
    (cfg : Config) (env later : Env) (d : Session) (k : Knob)
    → Distinct cfg.throttle_daemons
    → DistinctIrqs (found_irqs env.irqs)
    → WritesWork later
    → (start_gaming cfg env d).0.phases.throttled ≡ true
    → (start_gaming cfg env d).0.phases.irq_affinity ≡ true
    → (stop_gaming cfg later (start_gaming cfg env d).0).0.machine.knobs k ≡ d.machine.knobs k
start-stop_gaming cfg env later d k distinct irqs w t i =
    let s = (start_gaming cfg env d).0 in
    let (on, saved, throttler, knobs, r1, r2) = start_gaming-parts cfg env d in
    let m1 = (irq_apply cfg env d.machine).1 in
    let s1 = stop_fast later s in
    let (k1, t1, i1, p1) = stop_fast-keeps later s in
    let s2 = stop_throttle cfg later s1 in
    let (m2, i2, p2) = stop_throttle-done cfg later s1 (ap (λ (p : Applied). p.throttled) p1 ∙ t) in
    let applied = throttle_apply cfg env m1 in
    let remembered : Pending m1.knobs s1.throttler.saved s1.machine.knobs =
      subst (λ (x : Throttler). Pending m1.knobs x.saved s1.machine.knobs) (sym (t1 ∙ throttler))
        (subst (λ (f : Knobs). Pending m1.knobs applied.0.saved f) (sym (k1 ∙ knobs))
          (throttle_apply-Pending cfg env m1 distinct)) in
    let throttles : (j : Knob) → s2.machine.knobs j ≡ m1.knobs j = λ j.
      ap (λ (m : Machine). m.knobs j) m2
      ∙ throttle_restore-Pending cfg later m1.knobs s1.throttler s1.machine w remembered j in
    let pinned : Pending d.machine.knobs s2.irq_saved s2.machine.knobs =
      subst (λ (l : List Saved). Pending d.machine.knobs l s2.machine.knobs)
        (sym (i2 ∙ (i1 ∙ saved)))
        (Pending-agree d.machine.knobs m1.knobs s2.machine.knobs (irq_apply cfg env d.machine).0
          throttles (irq_apply-Pending cfg env d.machine irqs)) in
    ap (λ (f : Knobs). f k) (stop_gaming-knobs cfg later s on)
    ∙ (ap (λ (m : Machine). m.knobs k)
          (stop_irqs-done later s2 (ap (λ (p : Applied). p.irq_affinity) (p2 ∙ p1) ∙ i))
        ∙ restore_irqs-Pending later d.machine.knobs s2.irq_saved s2.machine k w pinned)

-- But if both reported an error, the end of the session puts no file back: what was throttled before
-- the error stays throttled.
pub partly_throttled :
    (cfg : Config) (env later : Env) (d : Session) (k : Knob)
    → (start_gaming cfg env d).0.phases.throttled ≡ false
    → (start_gaming cfg env d).0.phases.irq_affinity ≡ false
    → (stop_gaming cfg later (start_gaming cfg env d).0).0.machine.knobs k
      ≡ (start_gaming cfg env d).0.machine.knobs k
partly_throttled cfg env later d k t i =
    let s = (start_gaming cfg env d).0 in
    let on = (start_gaming-parts cfg env d).0 in
    let s1 = stop_fast later s in
    let (k1, t1, i1, p1) = stop_fast-keeps later s in
    let same = stop_throttle-skipped cfg later s1 (ap (λ (p : Applied). p.throttled) p1 ∙ t) in
    ap (λ (f : Knobs). f k) (stop_gaming-knobs cfg later s on)
    ∙ (ap (λ (x : Session). (stop_irqs later x).machine.knobs k) same
        ∙ (ap (λ (x : Session). x.machine.knobs k)
              (stop_irqs-skipped later s1 (ap (λ (p : Applied). p.irq_affinity) p1 ∙ i))
            ∙ ap (λ (f : Knobs). f k) k1))

fast_emergency-knobs : (env : Env) (m : Machine) → (fast_emergency env m).1.knobs ≡ m.knobs
unfolding fast_emergency
fast_emergency-knobs env m = ground arith

-- A process that remembers nothing.
clean_up-knobs :
    (cfg : Config) (env : Env) (d : Session)
    → d.irq_saved ≡ []
    → d.throttler.saved ≡ []
    → (clean_up cfg env d).0.machine.knobs ≡ d.machine.knobs
unfolding clean_up irq_emergency reset_each restore_each
clean_up-knobs cfg env d i t =
    let m1 = (irq_emergency env d.irq_saved d.machine).1 in
    let m2 = (fast_emergency env m1).1 in
    throttle_restore-knobs cfg env d.throttler m2
    ∙ (ap (λ (l : List Saved). (restore_each env l m2.knobs).0) t
        ∙ (fast_emergency-knobs env m1
            ∙ ap (λ (l : List Saved). reset_each env l d.machine.knobs) i))

-- After a crash the cleanup at the start of the new process puts no file back either, since it has
-- nothing remembered; so the services stay throttled and the interrupts pinned.
pub ensure_clean_start-knobs :
    (cfg : Config) (env : Env) (d : Session)
    → (ensure_clean_start cfg env (new_process d)).0.machine.knobs ≡ d.machine.knobs
unfolding ensure_clean_start new_process
ensure_clean_start-knobs cfg env d = elim (Bool-cases d.stored_active) [
  | inl q ↦ rw q (clean_up-knobs cfg env (new_process d) refl refl)
  | inr q ↦ rw q refl
]
