-- ===== src/Thermal/Ticks.antt =====
-- core/performance/thermal_controller.go: sequences of ticks.
use mathlib.Core.Path.{subst}
use hisnos_secure_workstatio.Common.{
  ℕ, zero, suc, ◌+◌, ◌≤◌, ℤ, pos, negsuc, ltb, leb, ◌==◌, none, Option-cases, ◌≡◌, refl, sym, ap,
  ◌∙◌, ◌⊎◌, inl, inr, Bool, true, not, ◌&&◌, Option, some, List, [], ◌∷◌, String, All, Bool-cases,
  arith, if◌then◌else◌,
}
use hisnos_secure_workstatio.Thermal.{
  ThermalTier, tier_nominal, tier_warm, tier_throttle, tier_critical, tier_eq, Readings, Sensor,
  raise, raise_read, raise_crit, hottest, classify_tier, ThermalController, quota, apply_tier,
  change_tier, max_temperature, is_throttling, tier_of, tick,
}

abbrev pub level : ThermalTier → ℕ
level tier_nominal = 0
level tier_warm = 1
level tier_throttle = 2
level tier_critical = 3

-- A higher temperature never gives a lower tier.
pub classify_tier-le :
    (cool hot crit : ℕ) (throttling : Bool)
    → cool ≤ hot
    → level (classify_tier cool crit throttling) ≤ level (classify_tier hot crit throttling)
unfolding classify_tier
classify_tier-le cool hot crit throttling h = ground arith

unfoldable pub run_ticks : List Readings → ThermalController → ThermalController
run_ticks [] tc = tc
run_ticks (r ∷ rest) tc = run_ticks rest (tick r tc)

-- The greater of two temperatures, and the temperature a file gives: 0 if it is negative or unreadable.
unfoldable pub higher : ℕ → ℕ → ℕ
higher a b = if leb a b then b else a

abbrev degrees : Option ℤ → ℕ
degrees none = 0
degrees (some (pos v)) = v
degrees (some (negsuc v)) = 0

abbrev crit_degrees : Option (Option ℤ) → ℕ
crit_degrees none = 0
crit_degrees (some c) = degrees c

-- The highest temperature, and the highest critical one of the sensors that can be read.
abbrev warmest : List Sensor → ℕ
warmest [] = 0
warmest (s ∷ rest) = higher (degrees s.input) (warmest rest)

abbrev highest_crit : List Sensor → ℕ
highest_crit [] = 0
highest_crit (s ∷ rest) =
    let others = highest_crit rest in
    elim s.input [ none ↦ others | some v ↦ higher (crit_degrees s.crit) others ]

abbrev pub limit_of : ℕ → ℕ
limit_of zero = 100000
limit_of (suc c) = suc c

-- The tier for a temperature and a limit: cool tiers first, each with its distance from the limit.
abbrev pub band : ℕ → ℕ → Bool → ThermalTier
band temp limit throttling =
    if not throttling && ltb (temp + 15000) limit
    then (if leb temp 75000 then tier_nominal else tier_warm)
    else if not throttling && ltb (temp + 5000) limit
    then tier_throttle
    else tier_critical

-- The tier that a reading asks for.
unfoldable pub demanded : Readings → ThermalTier
demanded r = band (warmest r.sensors) (limit_of (highest_crit r.sensors)) (is_throttling r r.cpus)

raise-higher : (v : ℤ) (m : ℕ) → raise v m ≡ higher m (degrees (some v))
unfolding higher
raise-higher (pos v) m = ground arith
raise-higher (negsuc v) m = ground arith

raise_crit-higher : (c : Option (Option ℤ)) (m : ℕ) → raise_crit c m ≡ higher m (crit_degrees c)
unfolding higher
raise_crit-higher none m = ground arith
raise_crit-higher (some none) m = ground arith
raise_crit-higher (some (some v)) m = raise-higher v m

higher_of_zero : (a : ℕ) → higher a 0 ≡ a
unfolding higher
higher_of_zero a = ground arith

higher_zero : (a : ℕ) → higher 0 a ≡ a
unfolding higher
higher_zero a = ground arith

higher_assoc : (a b c : ℕ) → higher (higher a b) c ≡ higher a (higher b c)
unfolding higher
higher_assoc a b c = ground arith

hottest_lem :
    (ss : List Sensor) (m c : ℕ)
    → hottest ss (m, c) ≡ (higher m (warmest ss), higher c (highest_crit ss))
unfolding hottest
hottest_lem [] m c = sym (rw (higher_of_zero m, higher_of_zero c) refl)
hottest_lem (s ∷ rest) m c = elim (Option-cases s.input) [
  | inl e ↦ rw (e, higher_zero (warmest rest)) (hottest_lem rest m c)
  | inr (v, e) ↦ rw e (
      ap (λ x. hottest rest (raise_read x m, raise_crit s.crit c)) e
      ∙ hottest_lem rest (raise v m) (raise_crit s.crit c)
      ∙ rw
          (
            raise-higher v m,
            raise_crit-higher s.crit c,
            higher_assoc m (degrees (some v)) (warmest rest),
            higher_assoc c (crit_degrees s.crit) (highest_crit rest),
          )
          refl)
]

limit_of_lem : (c : ℕ) → (if c == 0 then 100000 else c) ≡ limit_of c
limit_of_lem zero = refl
limit_of_lem (suc c) = ground arith

band_lem : (temp limit : ℕ) (t : Bool) → classify_tier temp limit t ≡ band temp limit t
unfolding classify_tier
band_lem temp limit t = ground arith

tier_of_lem : (r : Readings) → tier_of r ≡ demanded r
unfolding demanded max_temperature
tier_of_lem r =
    rw
      (
        hottest_lem r.sensors 0 0,
        higher_zero (warmest r.sensors),
        higher_zero (highest_crit r.sensors),
        limit_of_lem,
        band_lem,
      )
      refl

-- The line of cpu.max for each tier: microseconds of every second.
abbrev pub line_for : ThermalTier → String
line_for tier_nominal = "200000 1000000"
line_for tier_warm = "100000 1000000"
line_for tier_throttle = "50000 1000000"
line_for tier_critical = "25000 1000000"

quota_lem : (t : ThermalTier) → quota t ≡ line_for t
quota_lem tier_nominal = refl
quota_lem tier_warm = refl
quota_lem tier_throttle = refl
quota_lem tier_critical = refl

-- How often the tier becomes critical, from a tier before.
abbrev pub entries : ThermalTier → List Readings → ℕ
entries before [] = 0
entries before (r ∷ rest) =
    (if not (tier_eq (demanded r) before) && tier_eq (demanded r) tier_critical then 1 else 0)
    + entries (demanded r) rest

tier_eq-eq : (a b : ThermalTier) → tier_eq a b ≡ true → a ≡ b
tier_eq-eq a b h = ground arith

-- The tier is that of the last tick.
abbrev pub last_of : ThermalTier → List Readings → ThermalTier
last_of before [] = before
last_of before (r ∷ rest) = last_of (demanded r) rest

abbrev pub Followed : Option String → ThermalTier → Option String → ThermalTier → Type 0
Followed cpu_max before cpu_max' after =
    (cpu_max' ≡ some (line_for after)) ⊎ (cpu_max' ≡ cpu_max) × (after ≡ before)

abbrev entered : ThermalTier → ThermalTier → ℕ
entered before after = if not (tier_eq after before) && tier_eq after tier_critical then 1 else 0

add_nothing : (n : ℕ) (b : Bool) → n ≡ n + (if b then 0 else 0)
add_nothing n b = ground arith

add_if : (n x : ℕ) (b : Bool) → (if b then n + x else n) ≡ n + (if b then x else 0)
add_if n x b = ground arith

add_both :
    (n x y : ℕ) (b : Bool)
    → n + (if b then x else 0) + (if b then y else 0) ≡ n + (if b then x + y else 0)
add_both n x y b = ground arith

change_tier_lem :
    (tier : ThermalTier) (max_temp : ℕ) (throttling : Bool) (tc : ThermalController)
    → let tc' = change_tier true tier max_temp throttling tc in
      (tc'.last_tier ≡ tier)
      × (tc'.has_callback ≡ tc.has_callback)
      × Followed tc.cpu_max tc.last_tier tc'.cpu_max tier
      × (tc'.downgrades
          ≡ tc.downgrades + (if tc.has_callback then entered tc.last_tier tier else 0))
unfolding change_tier apply_tier
change_tier_lem tier max_temp throttling tc = elim (Bool-cases (tier_eq tier tc.last_tier)) [
  | inl y ↦
      let same : tier ≡ tc.last_tier = tier_eq-eq tier tc.last_tier y in
      rw y (sym same, refl, inr (refl, same), add_nothing tc.downgrades tc.has_callback)
  | inr n ↦ rw n (
    refl,
    refl,
    inl (ap some (quota_lem tier)),
    add_if tc.downgrades (if tier_eq tier tier_critical then 1 else 0) tc.has_callback,
  )
]

tick_lem :
    (r : Readings) (tc : ThermalController)
    → r.quota_writes ≡ true
    → ((tick r tc).last_tier ≡ demanded r)
      × ((tick r tc).has_callback ≡ tc.has_callback)
      × Followed tc.cpu_max tc.last_tier (tick r tc).cpu_max (demanded r)
      × ((tick r tc).downgrades
          ≡ tc.downgrades + (if tc.has_callback then entered tc.last_tier (demanded r) else 0))
unfolding tick
tick_lem r tc w =
    rw (sym (tier_of_lem r)) (
      simp w
        (change_tier_lem (tier_of r) (max_temperature r.sensors).0 (is_throttling r r.cpus) tc))

Followed-trans :
    (a b c : Option String) (x y z : ThermalTier)
    → Followed a x b y
    → Followed b y c z
    → Followed a x c z
Followed-trans a b c x y z f (inl e) = inl e
Followed-trans a b c x y z (inl e) (inr (k, l)) = inl (k ∙ e ∙ ap (λ t. some (line_for t)) (sym l))
Followed-trans a b c x y z (inr (e, f)) (inr (k, l)) = inr (k ∙ e, l ∙ f)

-- Where the quota can be written at every tick: the tier is the one that the last readings demand, by
-- a slow CPU or by the distance of the hottest sensor from the limit; the file of the quota has the
-- line of this tier, unless it is as it was before and the tier too; and the callback, if there is one,
-- is called once for each time that the demanded tier became critical.
pub run_ticks_lem :
    (rs : List Readings) (tc : ThermalController)
    → All (λ r. r.quota_writes ≡ true) rs
    → ((run_ticks rs tc).last_tier ≡ last_of tc.last_tier rs)
      × Followed tc.cpu_max tc.last_tier (run_ticks rs tc).cpu_max (last_of tc.last_tier rs)
      × ((run_ticks rs tc).downgrades
          ≡ tc.downgrades + (if tc.has_callback then entries tc.last_tier rs else 0))
unfolding run_ticks
run_ticks_lem [] tc w = (refl, inr (refl, refl), ground arith)
run_ticks_lem (r ∷ rest) tc (w, ws) =
    let (t, c, f, d) = tick_lem r tc w in
    let (t2, f2, d2) = run_ticks_lem rest (tick r tc) ws in
    (
      t2 ∙ ap (λ k. last_of k rest) t,
      Followed-trans tc.cpu_max (tick r tc).cpu_max (run_ticks rest (tick r tc)).cpu_max
          tc.last_tier (demanded r) (last_of (demanded r) rest) f
          (subst
            (λ k.
              Followed (tick r tc).cpu_max k (run_ticks rest (tick r tc)).cpu_max (last_of k rest))
            t f2),
      d2
          ∙ (ap
                (λ k.
                  (tick r tc).downgrades + (if k then entries (tick r tc).last_tier rest else 0))
                c
              ∙ (ap (λ k. (tick r tc).downgrades + (if tc.has_callback then entries k rest else 0))
                    t
                  ∙ (ap (λ n. n + (if tc.has_callback then entries (demanded r) rest else 0)) d
                      ∙ add_both tc.downgrades (entered tc.last_tier (demanded r))
                          (entries (demanded r) rest) tc.has_callback))),
    )
