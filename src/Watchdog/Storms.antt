-- ===== src/Watchdog/Storms.antt =====
-- core/runtime/watchdog.go: the circuit breaker bounds how often a subsystem is restarted.
use mathlib.Core.List.{append-nil}
use native.Mathlib.Nat.{le_trans, le_refl}
use hisnos_secure_workstatio.Common.{
  ℕ, ◌+◌, ◌≤◌, ◌≡◌, refl, inl, inr, Bool, true, false, List, [], ◌∷◌, ◌++◌, arith, Bool-cases, ltb,
  All, count_if-append, sym, ◌∙◌, String,
}
use hisnos_secure_workstatio.Watchdog.{
  circuit_window, WdEntry, Effect, restarts, calls_on_fail, safe_mode_candidate, operator_alert,
  count_recent, drain, cool_down, tick_entry, is_recent, beat, when, SubsystemSpec, new_entry,
}
use hisnos_secure_workstatio.Watchdog.Ticks.{Outcome, tick_entry-Outcome, cool_down_lem}

-- Later, fewer of the same times are recent.
count_recent-antitone :
    (ts : List ℕ) (t u w : ℕ) → t ≤ u → count_recent ts u w ≤ count_recent ts t w
unfolding count_recent
count_recent-antitone [] t u w h = omega arith
count_recent-antitone (x ∷ ts) t u w h = ground (arith, count_recent-antitone ts t u w h)

count_recent-append :
    (ts us : List ℕ) (t w : ℕ)
    → count_recent (ts ++ us) t w ≡ count_recent ts t w + count_recent us t w
unfolding count_recent
count_recent-append ts us t w = count_if-append (is_recent t w) ts us

count_recent-nil : (t w : ℕ) → count_recent [] t w ≡ 0
unfolding count_recent
count_recent-nil t w = refl

count_recent-one : (x t w : ℕ) → count_recent (x ∷ []) t w ≤ 1
unfolding count_recent
count_recent-one x t w = ground arith

-- Times up to `p` are out of the window at `p + w`.
count_recent_past :
    (ts : List ℕ) (p t w : ℕ) → All (λ x. x ≤ p) ts → p + w ≤ t → count_recent ts t w ≡ 0
unfolding count_recent
count_recent_past [] p t w a h = refl
count_recent_past (x ∷ ts) p t w a h = ground (arith, count_recent_past ts p t w a.1 h)

-- What holds of an entry and of the times `log` at which its restarts were started, up to time `p`.
pub record Bounded (log : List ℕ) (p : ℕ) (e : WdEntry) : Type 0 where
  pub past : All (λ x. x ≤ p) log
  pub listed :
      (t : ℕ)
      → p ≤ t
      → count_recent log t circuit_window ≤ count_recent e.restart_times t circuit_window
  pub few : (t : ℕ) → p ≤ t → count_recent e.restart_times t circuit_window ≤ 3
  pub quiet :
      e.circuit_open ≡ true
      → (t : ℕ) → p ≤ t
      → e.circuit_open_at + circuit_window ≤ t
      → count_recent log t circuit_window ≡ 0

All-le : (ts : List ℕ) (p q : ℕ) → p ≤ q → All (λ x. x ≤ p) ts → All (λ x. x ≤ q) ts
All-le [] p q h a = tt
All-le (x ∷ ts) p q h a = (omega arith, All-le ts p q h a.1)

All-le-snoc :
    (ts : List ℕ) (p q : ℕ) → p ≤ q → All (λ x. x ≤ p) ts → All (λ x. x ≤ q) (ts ++ q ∷ [])
All-le-snoc [] p q h a = (omega arith, tt)
All-le-snoc (x ∷ ts) p q h a = (omega arith, All-le-snoc ts p q h a.1)

-- The two steps before the switch keep the bounds.
cool_down-Bounded :
    (log : List ℕ) (p now : ℕ) (e : WdEntry)
    → p ≤ now
    → Bounded log p e
    → Bounded log now (cool_down now (drain now e))
cool_down-Bounded log p now e h b = elim (cool_down_lem false now e) [
  | inl (o, long, o', ts, _) ↦
      let none_left : (t : ℕ) → now ≤ t → count_recent log t circuit_window ≡ 0 =
        λ t k. b.quiet o t (le_trans h k) (omega arith) in
      record {
        past = All-le log p now h b.past;
        listed = λ t k. omega (arith, none_left t k);
        few = λ t k. rw ts (omega (arith, count_recent-nil t circuit_window));
        quiet = λ o''. cc;
      }
  | inr (o, at, ts, _) ↦ record {
    past = All-le log p now h b.past;
    listed = λ t k. rw ts (b.listed t (le_trans h k));
    few = λ t k. rw ts (b.few t (le_trans h k));
    quiet = λ o' t k l. b.quiet (sym o ∙ o') t (le_trans h k) (omega arith);
  }
]

-- The times at which a list of effects, had at time `now`, starts restarts.
abbrev pub started : ℕ → List Effect → List ℕ
started now [] = []
started now (restarts name backoff ∷ xs) = now ∷ started now xs
started now (calls_on_fail name ∷ xs) = started now xs
started now (safe_mode_candidate name ∷ xs) = started now xs
started now (operator_alert name n ∷ xs) = started now xs

started-none :
    (now : ℕ) (a b : Bool) (x y : String) (n : ℕ)
    → started now
        (when a (calls_on_fail x) ++ (when b (safe_mode_candidate y) ++ operator_alert x n ∷ []))
      ≡ []
started-none now a b x y n = ground arith

Outcome-Bounded :
    (has_callback : Bool) (log : List ℕ) (now : ℕ) (d : WdEntry) (r : WdEntry × List Effect)
    → Outcome has_callback now d r
    → Bounded log now d
    → Bounded (log ++ started now r.1) now r.0
Outcome-Bounded c log now d r (inl (x, ts, o, at)) b =
    rw (x, append-nil)
      (record {
        past = b.past;
        listed = λ t k. rw ts (b.listed t k);
        few = λ t k. rw ts (b.few t k);
        quiet = λ o' t k l. b.quiet (sym o ∙ o') t k (omega arith);
      })
Outcome-Bounded c log now d r (inr (inl (x, o, o', ts, few))) b = rw x (record {
  past = All-le-snoc log now now (le_refl now) b.past;
  listed = λ t k.
      rw
        (
          ts,
          count_recent-append log (now ∷ []) t circuit_window,
          count_recent-append d.restart_times (now ∷ []) t circuit_window,
        )
        (omega (arith, b.listed t k));
  few = λ t k.
      rw (ts, count_recent-append d.restart_times (now ∷ []) t circuit_window)
        (omega (
          arith,
          count_recent-one now t circuit_window,
          count_recent-antitone d.restart_times now t circuit_window k,
        ));
  quiet = λ o''. cc;
})
Outcome-Bounded c log now d r (inr (inr (x, o, o', at, ts, many))) b =
    rw (x, started-none now _ _ d.spec.name d.spec.name _, append-nil)
      (record {
        past = b.past;
        listed = λ t k. rw ts (b.listed t k);
        few = λ t k. rw ts (b.few t k);
        quiet = λ _ t k l. count_recent_past log now t circuit_window b.past (omega arith);
      })

pub tick_entry-Bounded :
    (has_callback : Bool) (log : List ℕ) (p now : ℕ) (e : WdEntry)
    → p ≤ now
    → Bounded log p e
    → let (e', effects) = tick_entry has_callback now e in
      Bounded (log ++ started now effects) now e'
tick_entry-Bounded c log p now e h b =
    Outcome-Bounded c log now _ _ (tick_entry-Outcome c now e) (cool_down-Bounded log p now e h b)

-- A life of a subsystem: heartbeats, and ticks of the watchdog at given times.
pub data Event : Type 0 where
  beats : Event
  ticks : ℕ → Event

-- The entry after the events, and the times at which restarts were started.
pub run : Bool → List Event → List ℕ → WdEntry → WdEntry × List ℕ
run c [] log e = (e, log)
run c (beats ∷ es) log e = run c es log (beat e)
run c (ticks now ∷ es) log e =
    let (e', effects) = tick_entry c now e in run c es (log ++ started now effects) e'

-- The times of the ticks do not fall, from `p` to `q`.
abbrev pub Between : ℕ → List Event → ℕ → Type 0
Between p [] q = p ≤ q
Between p (beats ∷ es) q = Between p es q
Between p (ticks now ∷ es) q = (p ≤ now) × Between now es q

beat-Bounded : (log : List ℕ) (p : ℕ) (e : WdEntry) → Bounded log p e → Bounded log p (beat e)
unfolding beat
beat-Bounded log p e b = elim (Bool-cases (ltb e.pending 4)) [
  | inl h ↦ rw (h, beat) (record { past = b.past; listed = b.listed; few = b.few; quiet = b.quiet })
  | inr h ↦ rw (h, beat) b
]

run-Bounded :
    (c : Bool) (es : List Event) (log : List ℕ) (p q : ℕ) (e : WdEntry)
    → Between p es q
    → Bounded log p e
    → count_recent (run c es log e).1 q circuit_window ≤ 3
unfolding run
run-Bounded c [] log p q e h b = le_trans (b.listed q h) (b.few q h)
run-Bounded c (beats ∷ es) log p q e h b =
    run-Bounded c es log p q (beat e) h (beat-Bounded log p e b)
run-Bounded c (ticks now ∷ es) log p q e h b =
    run-Bounded c es _ now q _ h.1 (tick_entry-Bounded c log p now e h.0 b)

-- However heartbeats and ticks follow one another: of a subsystem that was just registered, no more
-- than three restarts were started within any 60 seconds.
pub run-count_recent :
    (c : Bool) (es : List Event) (p q : ℕ) (spec : SubsystemSpec)
    → Between p es q
    → count_recent (run c es [] (new_entry p spec)).1 q circuit_window ≤ 3
unfolding new_entry
run-count_recent c es p q spec h = run-Bounded c es [] p q (new_entry p spec) h (record {
  past = tt;
  listed = λ t k. le_refl _;
  few = λ t k. omega (arith, count_recent-nil t circuit_window);
  quiet = λ o. cc;
})
