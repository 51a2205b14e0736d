-- ===== src/SelfHealer/Attempts.antt =====
-- core/supervisor/self_healer.go: how often a service is restarted.
use text.Mathlib.Text.{◌==◌ as str_eq}
use text.Mathlib.TextEquality.{eq_iff}
use hisnos_secure_workstatio.Common.{
  ℕ, ◌+◌, ◌-◌, ◌≤◌, ◌≡◌, refl, sym, ap, ◌∙◌, inl, inr, Bool, true, false, Option, none, some, List,
  [], ◌∷◌, ◌++◌, String, count_if, count_if-append, Bool-cases, Option-cases, arith, if◌then◌else◌,
  ltb,
}
use hisnos_secure_workstatio.SelfHealer.{
  ServiceRecord, SelfHealer, Effect, emits, correlated_failure, restarts, max_restart_attempts, put,
  find, failed, record_failure, detect_correlation, restart_or_report, decide, restart_notify,
  cleared, reset, probed, notify_each, probe_all, restart_after_delay,
}

abbrev is_restart_of : String → Effect → Bool
is_restart_of name (restarts n delay attempt) = str_eq n name
is_restart_of name (emits e) = false
is_restart_of name (correlated_failure ns) = false

-- How many restarts of a service are among the effects.
abbrev pub restarts_of : String → List Effect → ℕ
restarts_of name = count_if (is_restart_of name)

-- How many restarts a service has left.
abbrev pub left_of : Option ServiceRecord → ℕ
left_of none = 0
left_of (some svc) = if svc.disabled then 0 else max_restart_attempts - svc.attempts

abbrev pub left : String → SelfHealer → ℕ
left name sh = left_of (find name sh.services)

find-put :
    (name : String) (svc : ServiceRecord) (ss : List ServiceRecord)
    → find name (put svc ss) ≡ (if str_eq svc.name name then some svc else find name ss)
unfolding find put
find-put name svc [] = refl
find-put name svc (s ∷ ss) =
    ground (
      arith,
      find-put name svc ss,
      eq_iff s.name svc.name,
      eq_iff s.name name,
      eq_iff svc.name name,
    )

find-name :
    (name : String) (ss : List ServiceRecord) (svc : ServiceRecord)
    → find name ss ≡ some svc
    → str_eq svc.name name ≡ true
unfolding find
find-name name [] svc e = cc
find-name name (s ∷ ss) svc e = ground (arith, find-name name ss svc)

restart_or_report-restarts_of :
    (name : String) (c : Bool) (svc : ServiceRecord) (ns : List String)
    → restarts_of name (restart_or_report c svc ns) ≤ (if str_eq svc.name name then 1 else 0)
restart_or_report-restarts_of name c svc [] = ground arith
restart_or_report-restarts_of name c svc (n ∷ ns) = ground arith

decide-left :
    (name : String) (now : ℕ) (svc : ServiceRecord) (sh : SelfHealer)
    → find name sh.services ≡ some svc
    → str_eq svc.name name ≡ true
    → svc.disabled ≡ false
    → let (sh', x) = decide now svc sh in restarts_of name x + left name sh' ≤ 7 - svc.attempts
unfolding decide
decide-left name now svc sh f n d = elim (Bool-cases (ltb max_restart_attempts svc.attempts)) [
  | inl e ↦ rw (e, find-put name (record svc { disabled = true }) sh.services, n) (ground arith)
  | inr e ↦
      rw (e, f)
        (ground (
          arith,
          restart_or_report-restarts_of name sh.has_callback svc (detect_correlation now sh),
        ))
]

decide-left_other :
    (name : String) (now : ℕ) (svc : ServiceRecord) (sh : SelfHealer)
    → str_eq svc.name name ≡ false
    → let (sh', x) = decide now svc sh in restarts_of name x + left name sh' ≤ left name sh
unfolding decide
decide-left_other name now svc sh n = elim (Bool-cases (ltb max_restart_attempts svc.attempts)) [
  | inl e ↦ rw (e, find-put name (record svc { disabled = true }) sh.services, n) (ground arith)
  | inr e ↦ rw e (
      ground
        (arith, restart_or_report-restarts_of name sh.has_callback svc (detect_correlation now sh)))
]

-- The healer once a failure of a service is written down.
abbrev noted : ℕ → ServiceRecord → SelfHealer → SelfHealer
noted now svc sh = record_failure now (record sh { services = put (failed now svc) sh.services })

restart_notify-decide :
    (now : ℕ) (n : String) (sh : SelfHealer) (svc : ServiceRecord)
    → find n sh.services ≡ some svc
    → svc.disabled ≡ false
    → restart_notify now n sh ≡ decide now (failed now svc) (noted now svc sh)
unfolding restart_notify
restart_notify-decide now n sh svc f d = rw (f, restart_notify, d) refl

-- A notification uses up a restart of its service, and leaves the others theirs.
pub restart_notify-left :
    (name : String) (now : ℕ) (n : String) (sh : SelfHealer)
    → let (sh', x) = restart_notify now n sh in restarts_of name x + left name sh' ≤ left name sh
unfolding restart_notify record_failure
restart_notify-left name now n sh = elim (Option-cases (find n sh.services)) [
  | inl f ↦ rw (f, restart_notify) (ground arith)
  | inr (svc, f) ↦ elim (Bool-cases svc.disabled) [
    | inl d ↦ rw (f, restart_notify, d) (ground arith)
    | inr d ↦ rw (restart_notify-decide now n sh svc f d) (by_name svc f d)
  ]
]
  where
    by_name :
        (svc : ServiceRecord)
        → find n sh.services ≡ some svc
        → svc.disabled ≡ false
        → let (sh', x) = decide now (failed now svc) (noted now svc sh) in
          restarts_of name x + left name sh' ≤ left name sh
    by_name svc f d =
        let next = noted now svc sh in
        let found = find-put name (failed now svc) sh.services in
        elim (Bool-cases (str_eq svc.name name)) [
          | inl e ↦
              let here : find name next.services ≡ some (failed now svc) = ground (arith, found) in
              let before : find name sh.services ≡ some svc =
                ap (λ k. find k sh.services)
                  (sym ((eq_iff svc.name name).0 e)
                    ∙ (eq_iff svc.name n).0 (find-name n sh.services svc f))
                ∙ f in
              rw before (ground (arith, decide-left name now (failed now svc) next here e d))
          | inr e ↦
              let kept : left name next ≡ left name sh = ground (arith, found) in
              omega (arith, decide-left_other name now (failed now svc) next e, kept)
        ]

-- What happens to a healer: a service exits, the probes run, a restart that was started with a
-- delay is tried and goes well or not.
pub data Call : Type 0 where
  notifies : ℕ → String → Call
  probes : ℕ → (String → Bool) → Call
  tries : String → Bool → Call

pub step : Call → SelfHealer → SelfHealer × List Effect
step (notifies now n) sh = restart_notify now n sh
step (probes now healthy) sh = probe_all now healthy sh
step (tries n ok) sh = restart_after_delay n ok sh

pub run : List Call → SelfHealer → SelfHealer × List Effect
run [] sh = (sh, [])
run (c ∷ cs) sh = let (sh', x) = step c sh in let (sh'', xs) = run cs sh' in (sh'', x ++ xs)

-- No restart of the service goes well.
abbrev pub KeepsFailing : String → List Call → Type 0
KeepsFailing name [] = Unit
KeepsFailing name (tries n true ∷ cs) = (str_eq n name ≡ false) × KeepsFailing name cs
KeepsFailing name (c ∷ cs) = KeepsFailing name cs

notify_each-left :
    (name : String) (now : ℕ) (healthy : String → Bool) (ns : List String) (sh : SelfHealer)
    → let (sh', x) = notify_each now healthy ns sh in
      restarts_of name x + left name sh' ≤ left name sh
unfolding notify_each
notify_each-left name now healthy [] sh = omega arith
notify_each-left name now healthy (n ∷ ns) sh = elim (Bool-cases (healthy n)) [
  | inl e ↦ rw e (notify_each-left name now healthy ns sh)
  | inr e ↦
      let (sh', x) = restart_notify now n sh in
      rw e (
        omega (
          arith,
          restart_notify-left name now n sh,
          notify_each-left name now healthy ns sh',
          count_if-append (is_restart_of name) x (notify_each now healthy ns sh').1,
        ))
]

tries-left :
    (name n : String) (ok : Bool) (sh : SelfHealer)
    → (ok ≡ true → str_eq n name ≡ false)
    → let (sh', x) = restart_after_delay n ok sh in
      restarts_of name x + left name sh' ≤ left name sh
unfolding restart_after_delay reset
tries-left name n ok sh h = elim (Option-cases (find n sh.services)) [
  | inl f ↦ rw (f, restart_after_delay) (ground arith)
  | inr (svc, f) ↦
      rw (f, restart_after_delay)
        (elim (Bool-cases svc.disabled) [
          | inl d ↦ rw d (ground arith)
          | inr d ↦ elim (Bool-cases ok) [
            | inl o ↦
                let other : str_eq svc.name name ≡ false =
                  ap (λ k. str_eq k name) ((eq_iff svc.name n).0 (find-name n sh.services svc f))
                  ∙ h o in
                rw (d, o, f, reset) (ground (arith, find-put name (cleared svc) sh.services, other))
            | inr o ↦ rw (d, o) (omega arith)
          ]
        ])
]

step-left :
    (name : String) (c : Call) (cs : List Call) (sh : SelfHealer)
    → KeepsFailing name (c ∷ cs)
    → let (sh', x) = step c sh in restarts_of name x + left name sh' ≤ left name sh
unfolding step probe_all
step-left name (notifies now n) cs sh k = restart_notify-left name now n sh
step-left name (probes now healthy) cs sh k =
    notify_each-left name now healthy (probed sh.services) sh
step-left name (tries n true) cs sh k = tries-left name n true sh (λ e. k.0)
step-left name (tries n false) cs sh k = tries-left name n false sh (λ e. cc)

KeepsFailing-rest :
    (name : String) (c : Call) (cs : List Call) → KeepsFailing name (c ∷ cs) → KeepsFailing name cs
KeepsFailing-rest name (notifies now n) cs k = k
KeepsFailing-rest name (probes now healthy) cs k = k
KeepsFailing-rest name (tries n true) cs k = k.1
KeepsFailing-rest name (tries n false) cs k = k

run-left :
    (name : String) (cs : List Call) (sh : SelfHealer)
    → KeepsFailing name cs
    → restarts_of name (run cs sh).1 ≤ left name sh
unfolding run
run-left name [] sh k = omega arith
run-left name (c ∷ cs) sh k =
    let (sh', x) = step c sh in
    omega (
      arith,
      step-left name c cs sh k,
      run-left name cs sh' (KeepsFailing-rest name c cs k),
      count_if-append (is_restart_of name) x (run cs sh').1,
    )

left_bound : (o : Option ServiceRecord) → left_of o ≤ max_restart_attempts
left_bound none = omega arith
left_bound (some svc) = ground arith

-- As long as no restart of a service goes well, no more than six restarts of it are started, however
-- exits of services, probes and delayed restarts follow one another.
pub run-restarts_of :
    (name : String) (cs : List Call) (sh : SelfHealer)
    → KeepsFailing name cs
    → restarts_of name (run cs sh).1 ≤ 6
run-restarts_of name cs sh k =
    omega (arith, run-left name cs sh k, left_bound (find name sh.services))
