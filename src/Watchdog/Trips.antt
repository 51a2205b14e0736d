-- ===== src/Watchdog/Trips.antt =====
-- core/runtime/watchdog.go: a silent subsystem trips its circuit breaker.
use native.Mathlib.Nat.{le_refl}
use hisnos_secure_workstatio.Common.{
  ℕ, zero, suc, ◌+◌, ◌*◌, ◌≤◌, ◌<◌, ◌≡◌, ◌⊎◌, inl, inr, Bool, true, false, List, [], ◌∷◌, ◌++◌,
  arith, leb, count_if, count_if-append,
}
use hisnos_secure_workstatio.Watchdog.{
  circuit_window, heartbeat_period, WdEntry, count_recent, tick_entry,
}
use hisnos_secure_workstatio.Watchdog.Ticks.{tick_entry_open}

-- How many restarts were started at `t0` or later.
abbrev since : ℕ → List ℕ → ℕ
since t0 = count_if (leb t0)

since-le-count_recent :
    (ts : List ℕ) (t0 now w : ℕ) → now < t0 + w → since t0 ts ≤ count_recent ts now w
unfolding count_recent
since-le-count_recent [] t0 now w h = omega arith
since-le-count_recent (x ∷ ts) t0 now w h = ground (arith, since-le-count_recent ts t0 now w h)

since-snoc : (ts : List ℕ) (t0 now : ℕ) → t0 ≤ now → since t0 (ts ++ now ∷ []) ≡ suc (since t0 ts)
since-snoc ts t0 now h = ground (arith, count_if-append (leb t0) ts (now ∷ []))

-- A subsystem that can be restarted and whose heartbeats have stopped too long ago at time `t0`.
pub record IsSilent (t0 : ℕ) (e : WdEntry) : Type 0 where
  pub restartable : e.spec.has_restart ≡ true
  pub no_beat : e.pending ≡ 0
  pub late : e.last_beat + e.spec.sla < t0

-- How far it is after `k` ticks since `t0`: the circuit is open since, or one more heartbeat is
-- missed with each tick, and a restart was started at each but the first.
abbrev Stage : ℕ → ℕ → WdEntry → Type 0
Stage t0 k e =
    ((e.circuit_open ≡ true) × (t0 ≤ e.circuit_open_at))
    ⊎ ((e.circuit_open ≡ false)
        × (k ≤ e.missed_beats)
        × (k ≤ suc (since t0 e.restart_times))
        × (k ≤ 4))

tick-IsSilent :
    (c : Bool) (t0 now : ℕ) (e : WdEntry)
    → t0 ≤ now
    → IsSilent t0 e
    → IsSilent t0 (tick_entry c now e).0
unfolding tick_entry
tick-IsSilent c t0 now e h s = ground arith

tick-Stage_closed :
    (c : Bool) (t0 now k : ℕ) (e : WdEntry)
    → t0 ≤ now
    → now < t0 + circuit_window
    → IsSilent t0 e
    → e.circuit_open ≡ false
    → k ≤ e.missed_beats
    → k ≤ suc (since t0 e.restart_times)
    → k ≤ 4
    → Stage t0 (suc k) (tick_entry c now e).0
unfolding tick_entry
tick-Stage_closed c t0 now k e h w s o m r b = ground (
  arith,
  since-le-count_recent e.restart_times t0 now circuit_window w,
  since-snoc e.restart_times t0 now h,
)

tick-Stage :
    (c : Bool) (t0 now k : ℕ) (e : WdEntry)
    → t0 ≤ now
    → now < t0 + circuit_window
    → IsSilent t0 e
    → Stage t0 k e
    → Stage t0 (suc k) (tick_entry c now e).0
tick-Stage c t0 now k e h w s (inr (o, m, r, b)) = tick-Stage_closed c t0 now k e h w s o m r b
tick-Stage c t0 now k e h w s (inl (o, since_t0)) =
    let (_, o', at, _) = tick_entry_open c now e o (omega arith) in inl (o', omega (arith, at))

-- Ticks at `now`, `now + 5s` and so on, with no heartbeat in between.
pub run_ticks : Bool → ℕ → ℕ → WdEntry → WdEntry
run_ticks c zero now e = e
run_ticks c (suc n) now e = run_ticks c n (now + heartbeat_period) (tick_entry c now e).0

run_ticks-Stage :
    (c : Bool) (t0 n k now : ℕ) (e : WdEntry)
    → t0 ≤ now
    → now + n * heartbeat_period < t0 + circuit_window
    → IsSilent t0 e
    → Stage t0 k e
    → Stage t0 (n + k) (run_ticks c n now e)
unfolding run_ticks
run_ticks-Stage c t0 zero k now e h w s st = let q : zero + k ≡ k = omega arith in rw q st
run_ticks-Stage c t0 (suc n) k now e h w s st =
    let q : suc n + k ≡ n + suc k = omega arith in
    rw q (
      run_ticks-Stage c t0 n (suc k) (now + heartbeat_period) (tick_entry c now e).0 (omega arith)
        (omega arith) (tick-IsSilent c t0 now e h s) (tick-Stage c t0 now k e h (omega arith) s st))

-- A restartable subsystem that has fallen silent, whose circuit is closed, has an open circuit after
-- five ticks of the watchdog, five seconds apart, with no heartbeat, whatever its earlier restarts.
pub run_ticks_trip :
    (c : Bool) (t0 : ℕ) (e : WdEntry)
    → IsSilent t0 e
    → e.circuit_open ≡ false
    → (run_ticks c 5 t0 e).circuit_open ≡ true
run_ticks_trip c t0 e s o =
    elim (run_ticks-Stage c t0 5 0 t0 e (le_refl t0) (omega arith) s
      (inr (o, omega arith, omega arith, omega arith))) [
        | inl (opened, _) ↦ opened
        | inr (_, _, _, b) ↦ absurd (omega arith)
      ]
