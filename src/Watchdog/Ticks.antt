-- ===== src/Watchdog/Ticks.antt =====
-- core/runtime/watchdog.go: what one tick does to one entry.
use hisnos_secure_workstatio.Common.{
  ℕ, ◌+◌, ◌-◌, ◌*◌, ◌≤◌, ◌<◌, ◌≡◌, ◌⊎◌, Bool, true, false, ◌&&◌, List, [], ◌∷◌, ◌++◌, arith,
}
use hisnos_secure_workstatio.Watchdog.{
  second, circuit_window, circuit_cooldown, circuit_thresh, WdEntry, Effect, restarts,
  calls_on_fail, safe_mode_candidate, operator_alert, count_recent, drain, cool_down, check_age,
  tick_entry, when,
}

module _ (has_callback : Bool) (now : ℕ) where
  -- What the switch may do with an entry `d` to give `e`.
  abbrev pub Outcome : WdEntry → WdEntry × List Effect → Type 0
  Outcome d r =
      ((r.1 ≡ [])
        × (r.0.restart_times ≡ d.restart_times)
        × (r.0.circuit_open ≡ d.circuit_open)
        × (r.0.circuit_open_at ≡ d.circuit_open_at))
      ⊎ (((r.1 ≡ restarts d.spec.name d.restart_backoff ∷ [])
            × (d.circuit_open ≡ false)
            × (r.0.circuit_open ≡ false)
            × (r.0.restart_times ≡ d.restart_times ++ now ∷ [])
            × (count_recent d.restart_times now circuit_window < circuit_thresh))
          ⊎ ((r.1
                ≡ when d.spec.has_on_fail (calls_on_fail d.spec.name)
                  ++ (when (d.spec.critical && has_callback) (safe_mode_candidate d.spec.name)
                      ++ operator_alert d.spec.name
                          (count_recent d.restart_times now circuit_window)
                        ∷ []))
              × (d.circuit_open ≡ false)
              × (r.0.circuit_open ≡ true)
              × (r.0.circuit_open_at ≡ now)
              × (r.0.restart_times ≡ d.restart_times)
              × (circuit_thresh ≤ count_recent d.restart_times now circuit_window)))

  check_age-Outcome : (d : WdEntry) → Outcome d (check_age has_callback now d)
  unfolding check_age
  check_age-Outcome d = ground arith

  pub tick_entry-Outcome :
      (e : WdEntry) → Outcome (cool_down now (drain now e)) (tick_entry has_callback now e)
  unfolding tick_entry
  tick_entry-Outcome e = check_age-Outcome (cool_down now (drain now e))

  -- The two steps before: either the circuit had been open for the cooldown and is closed with an
  -- empty list of restarts, or these fields are as they were.
  pub cool_down_lem :
      (e : WdEntry)
      → let d = cool_down now (drain now e) in
        ((e.circuit_open ≡ true)
          × (circuit_cooldown ≤ now - e.circuit_open_at)
          × (d.circuit_open ≡ false)
          × (d.restart_times ≡ [])
          × (d.missed_beats ≡ 0))
        ⊎ ((d.circuit_open ≡ e.circuit_open)
            × (d.circuit_open_at ≡ e.circuit_open_at)
            × (d.restart_times ≡ e.restart_times)
            × (d.missed_beats ≡ e.missed_beats))
  unfolding drain cool_down
  cool_down_lem e = ground arith

  -- The restart backoff stays between 5 and 60 seconds.
  pub tick_entry_backoff :
      (e : WdEntry)
      → 5 * second ≤ e.restart_backoff
      → e.restart_backoff ≤ 60 * second
      → let e' = (tick_entry has_callback now e).0 in
        (5 * second ≤ e'.restart_backoff) × (e'.restart_backoff ≤ 60 * second)
  unfolding tick_entry
  tick_entry_backoff e lo hi = ground arith

  -- While the circuit is open and the cooldown has not passed, a tick starts nothing and leaves the
  -- circuit as it is.
  pub tick_entry_open :
      (e : WdEntry)
      → e.circuit_open ≡ true
      → now < e.circuit_open_at + circuit_cooldown
      → let (e', effects) = tick_entry has_callback now e in
        (effects ≡ [])
        × (e'.circuit_open ≡ true)
        × (e'.circuit_open_at ≡ e.circuit_open_at)
        × (e'.restart_times ≡ e.restart_times)
  unfolding tick_entry
  tick_entry_open e o h = ground arith
