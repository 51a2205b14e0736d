-- ===== src/Gaming/Throttling.antt =====
-- gaming/hispowerd/throttle/throttle.go and gaming/hispowerd/irq/affinity.go: applying and restoring.
use text.Mathlib.Text.{◌==◌ as str_eq}
use hisnos_secure_workstatio.Common.{
  ℕ, ◌≡◌, refl, ap, ◌∙◌, ◌⊎◌, inl, inr, Bool, true, false, Option, none, some, List, [], ◌∷◌,
  String, All, Bool-cases, Option-cases, ◌==◌, arith,
}
use hisnos_secure_workstatio.Gaming.{
  Knob, app_slice, user_service, irq, same, Knobs, Env, Config, Machine, Saved, Throttler, is_some,
  find_service_cgroup, throttle_service, throttle_each, throttled_value, throttle_apply,
  throttle_restore, switch_timer, save_and_write, restore_each,
}
use hisnos_secure_workstatio.Gaming.Irq.{pin_each, irq_apply}
use hisnos_secure_workstatio.Gaming.Restoring.{
  Pending, Pending-nil, save_and_write-Pending, WritesWork, restore_each-Pending,
}

-- No service is listed twice.
abbrev pub Distinct : List String → Type 0
Distinct [] = Unit
Distinct (s ∷ ss) = All (λ t. str_eq t s ≡ false) ss × Distinct ss

-- The files of a service are as they were.
abbrev Fresh : Knobs → Knobs → String → Type 0
Fresh m0 m s = (m (app_slice s) ≡ m0 (app_slice s)) × (m (user_service s) ≡ m0 (user_service s))

find_service_cgroup-cases :
    (s : String) (m : Knobs)
    → (find_service_cgroup s m ≡ none)
      ⊎ ((find_service_cgroup s m ≡ some (app_slice s))
          ⊎ (find_service_cgroup s m ≡ some (user_service s)))
unfolding find_service_cgroup
find_service_cgroup-cases s m = elim (Bool-cases (is_some (m (app_slice s)))) [
  | inl q ↦ inr (inl (rw q refl))
  | inr q ↦ elim (Bool-cases (is_some (m (user_service s)))) [
    | inl p ↦ inr (inr (rw (q, p) refl))
    | inr p ↦ inl (rw (q, p) refl)
  ]
]

throttle_service-Pending :
    (env : Env) (m0 : Knobs) (s : String) (saved : List Saved) (m : Knobs)
    → Pending m0 saved m
    → Fresh m0 m s
    → let (saved', m', fine) = throttle_service env s saved m in
      Pending m0 saved' m' × ((t : String) → str_eq t s ≡ false → Fresh m m' t)
unfolding throttle_service
throttle_service-Pending env m0 s saved m p f = elim (find_service_cgroup-cases s m) [
  | inl q ↦ rw q (p, λ t d. (refl, refl))
  | inr (inl q) ↦
      let (p', kept) = save_and_write-Pending env m0 saved m (app_slice s) throttled_value p f.0 in
      rw q (p', λ t d. (kept (app_slice t) d, kept (user_service t) refl))
  | inr (inr q) ↦
      let (p', kept) =
        save_and_write-Pending env m0 saved m (user_service s) throttled_value p f.1 in
      rw q (p', λ t d. (kept (app_slice t) refl, kept (user_service t) d))
]

Fresh-All :
    (m0 m m' : Knobs) (s : String) (ss : List String)
    → ((t : String) → str_eq t s ≡ false → Fresh m m' t)
    → All (λ t. str_eq t s ≡ false) ss
    → All (Fresh m0 m) ss
    → All (Fresh m0 m') ss
Fresh-All m0 m m' s [] k d f = tt
Fresh-All m0 m m' s (t ∷ ts) k d f =
    let (a, b) = k t d.0 in ((a ∙ f.0.0, b ∙ f.0.1), Fresh-All m0 m m' s ts k d.1 f.1)

throttle_each-Pending :
    (env : Env) (m0 : Knobs) (ss : List String) (saved : List Saved) (m : Knobs)
    → Distinct ss
    → Pending m0 saved m
    → All (Fresh m0 m) ss
    → let (saved', m', fine) = throttle_each env ss saved m in Pending m0 saved' m'
unfolding throttle_each
throttle_each-Pending env m0 [] saved m d p f = p
throttle_each-Pending env m0 (s ∷ ss) saved m d p f =
    let (p', kept) = throttle_service-Pending env m0 s saved m p f.0 in
    throttle_each-Pending env m0 ss (throttle_service env s saved m).0
      (throttle_service env s saved m).1 d.1 p'
      (Fresh-All m0 m (throttle_service env s saved m).1 s ss kept d.0 f.1)

Fresh-refl : (m : Knobs) (ss : List String) → All (Fresh m m) ss
Fresh-refl m [] = tt
Fresh-refl m (s ∷ ss) = ((refl, refl), Fresh-refl m ss)

switch_timer-knobs :
    (cfg : Config) (env : Env) (on : Bool) (m : Machine)
    → (switch_timer cfg env on m).0.knobs ≡ m.knobs
switch_timer-knobs cfg env on m = ground arith

pub throttle_apply-Pending :
    (cfg : Config) (env : Env) (m : Machine)
    → Distinct cfg.throttle_daemons
    → let (t, m', fine) = throttle_apply cfg env m in Pending m.knobs t.saved m'.knobs
unfolding throttle_apply
throttle_apply-Pending cfg env m d = rw (switch_timer-knobs cfg env false _) (
    throttle_each-Pending env m.knobs cfg.throttle_daemons [] m.knobs d (Pending-nil m.knobs)
      (Fresh-refl m.knobs cfg.throttle_daemons))

pub throttle_restore-knobs :
    (cfg : Config) (env : Env) (t : Throttler) (m : Machine)
    → (throttle_restore cfg env t m).1.knobs ≡ (restore_each env t.saved m.knobs).0
unfolding throttle_restore
throttle_restore-knobs cfg env t m = elim (Bool-cases t.timer_stopped) [
  | inl q ↦ rw q (switch_timer-knobs cfg env true _)
  | inr q ↦ rw q refl
]

pub throttle_restore-Pending :
    (cfg : Config) (env : Env) (m0 : Knobs) (t : Throttler) (m : Machine)
    → WritesWork env
    → Pending m0 t.saved m.knobs
    → (k : Knob) → (throttle_restore cfg env t m).1.knobs k ≡ m0 k
throttle_restore-Pending cfg env m0 t m w p k =
    ap (λ (f : Knobs). f k) (throttle_restore-knobs cfg env t m)
    ∙ (restore_each-Pending env m0 t.saved m.knobs w p).0 k

-- Whatever fails while the services are throttled: if no service is listed twice and no write fails
-- while they are restored, every such file is then as it was.
pub throttle_apply-restore :
    (cfg : Config) (env later : Env) (m : Machine) (k : Knob)
    → Distinct cfg.throttle_daemons
    → WritesWork later
    → let (t, m1, fine) = throttle_apply cfg env m in
      (throttle_restore cfg later t m1).1.knobs k ≡ m.knobs k
throttle_apply-restore cfg env later m k d w =
    let (t, m1, fine) = throttle_apply cfg env m in
    throttle_restore-Pending cfg later m.knobs t m1 w (throttle_apply-Pending cfg env m d) k

-- No number is found twice.
abbrev pub DistinctIrqs : List ℕ → Type 0
DistinctIrqs [] = Unit
DistinctIrqs (n ∷ ns) = All (λ k. (k == n) ≡ false) ns × DistinctIrqs ns

abbrev pub found_irqs : Option (List ℕ) → List ℕ
found_irqs none = []
found_irqs (some ns) = ns

irqs_fresh :
    (m0 m m' : Knobs) (n : ℕ) (ns : List ℕ)
    → ((j : Knob) → same j (irq n) ≡ false → m' j ≡ m j)
    → All (λ k. (k == n) ≡ false) ns
    → All (λ k. m (irq k) ≡ m0 (irq k)) ns
    → All (λ k. m' (irq k) ≡ m0 (irq k)) ns
irqs_fresh m0 m m' n [] kept d f = tt
irqs_fresh m0 m m' n (k ∷ ks) kept d f =
    (kept (irq k) d.0 ∙ f.0, irqs_fresh m0 m m' n ks kept d.1 f.1)

irqs_fresh_refl : (m : Knobs) (ns : List ℕ) → All (λ k. m (irq k) ≡ m (irq k)) ns
irqs_fresh_refl m [] = tt
irqs_fresh_refl m (n ∷ ns) = (refl, irqs_fresh_refl m ns)

pin_each-Pending :
    (env : Env) (hex : String) (m0 : Knobs) (ns : List ℕ) (saved : List Saved) (m : Knobs)
    → DistinctIrqs ns
    → Pending m0 saved m
    → All (λ k. m (irq k) ≡ m0 (irq k)) ns
    → let (saved', m', refused) = pin_each env hex ns saved m in Pending m0 saved' m'
unfolding pin_each
pin_each-Pending env hex m0 [] saved m d p f = p
pin_each-Pending env hex m0 (n ∷ ns) saved m d p f =
    let (p', kept) = save_and_write-Pending env m0 saved m (irq n) hex p f.0 in
    pin_each-Pending env hex m0 ns (save_and_write env (irq n) hex saved m).0
      (save_and_write env (irq n) hex saved m).1 d.1 p'
      (irqs_fresh m0 m (save_and_write env (irq n) hex saved m).1 n ns kept d.0 f.1)

pub irq_apply-Pending :
    (cfg : Config) (env : Env) (m : Machine)
    → DistinctIrqs (found_irqs env.irqs)
    → let (saved, m', fine) = irq_apply cfg env m in Pending m.knobs saved m'.knobs
unfolding irq_apply
irq_apply-Pending cfg env m d = elim (Option-cases env.irqs) [
  | inl q ↦ rw q (Pending-nil m.knobs)
  | inr (ns, q) ↦
      let d' = rw q at d in
      rw q (
        pin_each-Pending env cfg.gaming_hex m.knobs ns [] m.knobs d' (Pending-nil m.knobs)
          (irqs_fresh_refl m.knobs ns))
]
