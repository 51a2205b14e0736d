-- ===== src/EventStream/Ring.antt =====
-- core/telemetry/security_events_stream.go: the ring against the list of all events emitted.
use hisnos_secure_workstatio.Common.{
  ℕ, zero, suc, ◌+◌, ◌-◌, ◌%◌, ◌≤◌, ◌<◌, ◌≡◌, refl, ap, ◌∙◌, ◌⊎◌, inl, inr, pos, Bool, true, false,
  Option, some, List, [], ◌∷◌, String, length, take, drop, ◌==◌, Bool-cases, Option-cases, arith,
  if◌then◌else◌,
}
use hisnos_secure_workstatio.EventStream.{
  Event, ring_capacity, Stream, new_stream, filled, emit, subscribe, unsubscribe, min_of, walk_back,
  recent, persist, close,
}

-- What happens to a stream, with what each call is given.
pub data Call : Type 0 where
  emits : String → ℕ → Event → Call
  subscribes : String → ℕ → Call
  unsubscribes : String → Call
  persists : Bool → Event → Call
  closes : Call

unfoldable pub step : Call → Stream → Stream
step (emits fresh now ev) s = emit fresh now ev s
step (subscribes name n) s = subscribe name n s
step (unsubscribes name) s = unsubscribe name s
step (persists marshals ev) s = persist marshals ev s
step closes s = close s

unfoldable pub run : List Call → Stream → Stream
run [] s = s
run (c ∷ cs) s = run cs (step c s)

-- The events of a history, the newest first, before those that there are already.
unfoldable pub emitted : List Call → List Event → List Event
emitted [] old = old
emitted (emits fresh now ev ∷ cs) old = emitted cs (filled fresh now ev ∷ old)
emitted (subscribes name n ∷ cs) old = emitted cs old
emitted (unsubscribes name ∷ cs) old = emitted cs old
emitted (persists marshals ev ∷ cs) old = emitted cs old
emitted (closes ∷ cs) old = emitted cs old

-- The ring holds the newest events of the list.
abbrev Holds : (ℕ → Event) → List Event → Type 0
Holds ring log =
    (i : ℕ)
    → i < ring_capacity
    → i < length log
    → drop i log ≡ ring ((length log + ring_capacity - 1 - i) % ring_capacity) ∷ drop (suc i) log

abbrev Represents : Stream → List Event → Type 0
Represents s log = (s.head ≡ length log) × (s.count ≡ length log) × Holds s.ring log

Holds-emit :
    (ring : ℕ → Event) (log : List Event) (e : Event)
    → Holds ring log
    → Holds (λ i. if i == length log % ring_capacity then e else ring i) (e ∷ log)
Holds-emit ring log e h zero a b =
    let same : ((suc (length log) + ring_capacity - 1 - 0) % ring_capacity
          == length log % ring_capacity)
        ≡ true =
      ground arith in
    rw same refl
Holds-emit ring log e h (suc i) a b =
    let other : ((suc (length log) + ring_capacity - 1 - suc i) % ring_capacity
          == length log % ring_capacity)
        ≡ false =
      ground arith in
    let shifted : (suc (length log) + ring_capacity - 1 - suc i) % ring_capacity
        ≡ (length log + ring_capacity - 1 - i) % ring_capacity =
      omega arith in
    rw (other, shifted) (h i (omega arith) (omega arith))

step-Represents :
    (c : Call) (s : Stream) (log : List Event)
    → Represents s log
    → Represents (step c s) (emitted (c ∷ []) log)
unfolding step emitted emit subscribe unsubscribe persist close
step-Represents (emits fresh now ev) s log (a, b, h) =
    (omega arith, omega arith, rw a (Holds-emit s.ring log (filled fresh now ev) h))
step-Represents (subscribes name n) s log r = r
step-Represents (unsubscribes name) s log r = r
step-Represents (persists marshals ev) s log r = elim (Option-cases s.log_file) [
  | inl e ↦ rw e r
  | inr (lines, e) ↦ elim (Bool-cases marshals) [ inl y ↦ rw (e, y) r | inr n ↦ rw (e, n) r ]
]
step-Represents closes s log r = r

walk_back_lem :
    (s : Stream) (log : List Event) (i k : ℕ)
    → Represents s log
    → i + k ≤ ring_capacity
    → i + k ≤ length log
    → walk_back s i k ≡ take k (drop i log)
unfolding walk_back
walk_back_lem s log i zero r a b = refl
walk_back_lem s log i (suc k) (e, c, h) a b =
    rw
      (
        h i (omega arith) (omega arith),
        e,
        walk_back_lem s log (suc i) k (e, c, h) (omega arith) (omega arith),
      )
      refl

emitted-cons :
    (c : Call) (cs : List Call) (log : List Event)
    → emitted (c ∷ cs) log ≡ emitted cs (emitted (c ∷ []) log)
unfolding emitted
emitted-cons (emits fresh now ev) cs log = refl
emitted-cons (subscribes name n) cs log = refl
emitted-cons (unsubscribes name) cs log = refl
emitted-cons (persists marshals ev) cs log = refl
emitted-cons closes cs log = refl

run-Represents :
    (cs : List Call) (s : Stream) (log : List Event)
    → Represents s log
    → Represents (run cs s) (emitted cs log)
unfolding run emitted
run-Represents [] s log r = r
run-Represents (c ∷ cs) s log r =
    rw (emitted-cons c cs log)
      (run-Represents cs (step c s) (emitted (c ∷ []) log) (step-Represents c s log r))

new_stream-Represents :
    (made : Bool) (opened : Option (List Event)) → Represents (new_stream made opened) []
new_stream-Represents made opened = (refl, refl, λ i a b. absurd (omega arith))

take_of :
    (k n c : ℕ) (log : List Event)
    → k ≤ n
    → k ≤ c
    → k ≤ length log
    → (k ≡ n) ⊎ (k ≡ c) ⊎ (k ≡ length log)
    → take k log ≡ take n (take c log)
take_of zero zero c log a b l m = refl
take_of zero (suc n) zero log a b l m = refl
take_of zero (suc n) (suc c) [] a b l m = refl
take_of zero (suc n) (suc c) (e ∷ log) a b l m = absurd (omega arith)
take_of (suc k) zero c log a b l m = absurd (omega arith)
take_of (suc k) (suc n) zero log a b l m = absurd (omega arith)
take_of (suc k) (suc n) (suc c) [] a b l m = absurd (omega arith)
take_of (suc k) (suc n) (suc c) (e ∷ log) a b l m =
    ap (λ t. e ∷ t) (take_of k n c log (omega arith) (omega arith) (omega arith) (omega arith))

min_of_lem :
    (n count len : ℕ)
    → count ≡ len
    → let k = min_of (min_of n ring_capacity) (min_of count ring_capacity) in
      (k ≤ n) × (k ≤ ring_capacity) × (k ≤ len) × ((k ≡ n) ⊎ (k ≡ ring_capacity) ⊎ (k ≡ len))
min_of_lem n count len e = ground arith

recent_lem :
    (n : ℕ) (s : Stream) (log : List Event)
    → Represents s log
    → recent (pos n) s ≡ some (take n (take ring_capacity log))
unfolding recent
recent_lem n s log (e, c, h) =
    let k = min_of (min_of n ring_capacity) (min_of s.count ring_capacity) in
    let (a, b, l, m) = min_of_lem n s.count (length log) c in
    ap some (
      walk_back_lem s log 0 k (e, c, h) (omega arith) (omega arith)
      ∙ take_of k n ring_capacity log a b l m)

-- However calls follow one another on a new stream: `Recent` of a number that is not negative gives
-- that many of the latest 10,000 events, the newest first, and all of them if there are fewer.
pub run-recent :
    (cs : List Call) (made : Bool) (opened : Option (List Event)) (n : ℕ)
    → recent (pos n) (run cs (new_stream made opened))
      ≡ some (take n (take ring_capacity (emitted cs [])))
run-recent cs made opened n =
    recent_lem n (run cs (new_stream made opened)) (emitted cs [])
      (run-Represents cs (new_stream made opened) [] (new_stream-Represents made opened))
