-- ===== src/EventStream/Categories.antt =====
-- core/telemetry/security_events_stream.go: RecentByCategory against the list of all events emitted.
use text.Mathlib.Text.{◌==◌ as str_eq}
use hisnos_secure_workstatio.Common.{
  ℕ, zero, suc, ◌+◌, ◌≡◌, refl, sym, ap, ◌∙◌, inl, inr, ℤ, pos, negsuc, Bool, true, false, Option,
  some, List, [], ◌∷◌, String, take, Bool-cases, arith, if◌then◌else◌,
}
use hisnos_secure_workstatio.EventStream.{
  Event, ring_capacity, Stream, new_stream, recent, enough, pick_category, recent_by_category,
}
use hisnos_secure_workstatio.EventStream.Ring.{Call, run, emitted, run-recent}

abbrev pub of_category : String → List Event → List Event
of_category category [] = []
of_category category (ev ∷ rest) =
    let more = of_category category rest in if str_eq ev.category category then ev ∷ more else more

-- A limit below one counts as one.
abbrev pub at_least_one : ℤ → ℕ
at_least_one (pos (suc n)) = suc n
at_least_one _ = 1

enough_at_last : (n : ℤ) (k : ℕ) → at_least_one n ≡ k + 1 → enough n (suc k) ≡ true
enough_at_last (pos zero) k l = ground arith
enough_at_last (pos (suc n)) k l = ground arith
enough_at_last (negsuc n) k l = refl

enough_before : (n : ℤ) (k m : ℕ) → at_least_one n ≡ k + suc (suc m) → enough n (suc k) ≡ false
enough_before (pos zero) k m l = absurd (omega arith)
enough_before (pos (suc n)) k m l = ground arith
enough_before (negsuc n) k m l = absurd (omega arith)

-- `m` more than one are still wanted.
pick_category_lem :
    (category : String) (n : ℤ) (k m : ℕ) (events : List Event)
    → at_least_one n ≡ k + suc m
    → pick_category category n k events ≡ take (suc m) (of_category category events)
unfolding pick_category
pick_category_lem category n k m [] l = refl
pick_category_lem category n k zero (ev ∷ rest) l =
    elim (Bool-cases (str_eq ev.category category)) [
      | inr o ↦ rw (pick_category, o) (pick_category_lem category n k zero rest l)
      | inl y ↦ rw (pick_category, y, enough_at_last n k l) refl
    ]
pick_category_lem category n k (suc m) (ev ∷ rest) l =
    elim (Bool-cases (str_eq ev.category category)) [
      | inr o ↦ rw (pick_category, o) (pick_category_lem category n k (suc m) rest l)
      | inl y ↦
          rw (pick_category, y, enough_before n k m l)
            (ap (λ t. ev ∷ t) (pick_category_lem category n (suc k) m rest (omega arith)))
    ]

limit_lem : (n : ℤ) → (m : ℕ) × (at_least_one n ≡ suc m)
limit_lem (pos zero) = (0, refl)
limit_lem (pos (suc n)) = (n, refl)
limit_lem (negsuc n) = (0, refl)

by_category_of :
    (category : String) (n : ℤ) (s : Stream) (events : List Event)
    → recent (pos ring_capacity) s ≡ some events
    → recent_by_category category n s ≡ some (pick_category category n 0 events)
unfolding recent_by_category
by_category_of category n s events e = rw (e, recent_by_category) refl

take-take : (k : ℕ) (xs : List Event) → take k (take k xs) ≡ take k xs
take-take zero xs = refl
take-take (suc k) [] = refl
take-take (suc k) (x ∷ xs) = ap (λ t. x ∷ t) (take-take k xs)

-- `RecentByCategory` likewise gives the latest events of the category among the latest 10,000. But a
-- limit that is zero or negative still gives one.
pub run-recent_by_category :
    (cs : List Call) (made : Bool) (opened : Option (List Event)) (category : String) (n : ℤ)
    → recent_by_category category n (run cs (new_stream made opened))
      ≡ some (take (at_least_one n) (of_category category (take ring_capacity (emitted cs []))))
run-recent_by_category cs made opened category n =
    let (m, l) = limit_lem n in
    by_category_of category n (run cs (new_stream made opened))
      (take ring_capacity (take ring_capacity (emitted cs [])))
      (run-recent cs made opened ring_capacity)
    ∙ ap some (
        pick_category_lem category n 0 m (take ring_capacity (take ring_capacity (emitted cs [])))
          (omega arith)
        ∙ ap (λ events. take (suc m) (of_category category events))
            (take-take ring_capacity (emitted cs []))
        ∙ ap (λ k. take k (of_category category (take ring_capacity (emitted cs [])))) (sym l))
