-- ===== src/EventBus/Delivery.antt =====
-- core/eventbus/eventbus.go: which events a subscriber finds in its channel.
use text.Mathlib.Text.{◌==◌ as str_eq}
use mathlib.Core.List.{append-nil, append_assoc}
use hisnos_secure_workstatio.Common.{
  ℕ, zero, suc, ◌-◌, ◌≤◌, ◌≡◌, refl, sym, ap, ◌∙◌, inl, inr, Bool, true, false, not, ◌&&◌, List, [],
  ◌∷◌, ◌++◌, String, map, length, take, length-append, All, ltb, Bool-cases, arith, if◌then◌else◌,
}
use hisnos_secure_workstatio.EventBus.{
  Event, Subscriber, Bus, subscribe, wants, stamped, offer, offer_all, publish, without_first,
  receive,
}

-- No channel holds more than 64 events.
abbrev pub Bounded : Bus → Type 0
Bounded bus = All (λ s. length s.buffer ≤ 64) bus

-- What happens to a bus.
pub data Call : Type 0 where
  subscribes : String → Call
  publishes : ℕ → Event → Call
  receives : ℕ → Call

pub step : Call → Bus → Bus
step (subscribes filter) bus = subscribe filter bus
step (publishes now ev) bus = publish now ev bus
step (receives i) bus = receive i bus

pub run : List Call → Bus → Bus
run [] bus = bus
run (c ∷ cs) bus = run cs (step c bus)

subscribe-Bounded : (filter : String) (bus : Bus) → Bounded bus → Bounded (subscribe filter bus)
unfolding subscribe
subscribe-Bounded filter [] b = (omega arith, tt)
subscribe-Bounded filter (s ∷ ss) b = (b.0, subscribe-Bounded filter ss b.1)

offer-Bounded :
    (ev : Event) (s : Subscriber) → length s.buffer ≤ 64 → length (offer ev s).buffer ≤ 64
unfolding offer
offer-Bounded ev s b = ground (arith, length-append s.buffer (ev ∷ []))

offer_all-Bounded : (ev : Event) (bus : Bus) → Bounded bus → Bounded (offer_all ev bus)
unfolding offer_all
offer_all-Bounded ev [] b = tt
offer_all-Bounded ev (s ∷ ss) b = (offer-Bounded ev s b.0, offer_all-Bounded ev ss b.1)

receive-Bounded : (i : ℕ) (bus : Bus) → Bounded bus → Bounded (receive i bus)
unfolding receive
receive-Bounded i [] b = tt
receive-Bounded zero (s ∷ ss) b = (shorter s.buffer b.0, b.1)
  where
    shorter : (es : List Event) → length es ≤ 64 → length (without_first es) ≤ 64
    shorter [] h = h
    shorter (e ∷ es) h = omega arith
receive-Bounded (suc i) (s ∷ ss) b = (b.0, receive-Bounded i ss b.1)

-- However calls follow one another: if no channel held more than 64 events before them, none does
-- after them.
pub run-Bounded : (cs : List Call) (bus : Bus) → Bounded bus → Bounded (run cs bus)
unfolding run step publish
run-Bounded [] bus b = b
run-Bounded (subscribes filter ∷ cs) bus b = run-Bounded cs _ (subscribe-Bounded filter bus b)
run-Bounded (publishes now ev ∷ cs) bus b =
    run-Bounded cs _ (offer_all-Bounded (stamped now ev) bus b)
run-Bounded (receives i ∷ cs) bus b = run-Bounded cs _ (receive-Bounded i bus b)

-- Several events, each with the time at which it is published.
pub publish_all : List (ℕ × Event) → Bus → Bus
publish_all [] bus = bus
publish_all ((now, ev) ∷ evs) bus = publish_all evs (publish now ev bus)

-- The empty filter lets every event through, and another one those of its type.
abbrev pub passes : String → Event → Bool
passes filter ev = if str_eq filter "" then true else str_eq filter ev.type

wants-passes : (filter : String) (ev : Event) → wants filter ev ≡ passes filter ev
wants-passes filter ev = of_tests (str_eq filter "") (str_eq filter ev.type)
  where
    of_tests : (a b : Bool) → not (not a && not b) ≡ (if a then true else b)
    of_tests a b = ground arith

-- The events that a filter lets through.
abbrev pub matching : String → List (ℕ × Event) → List Event
matching filter [] = []
matching filter ((now, ev) ∷ evs) =
    let rest = matching filter evs in
    if passes filter (stamped now ev) then stamped now ev ∷ rest else rest

-- The subscriber with as many of the events behind its buffer as there is room for.
abbrev pub delivered : List (ℕ × Event) → Subscriber → Subscriber
delivered evs s = record s {
  buffer = s.buffer ++ take (64 - length s.buffer) (matching s.filter evs);
}

take-nil : (n : ℕ) → take {A = Event} n [] ≡ []
take-nil zero = refl
take-nil (suc n) = refl

delivered-nil : (s : Subscriber) → delivered [] s ≡ s
delivered-nil s =
    ap (λ es. record s { buffer = s.buffer ++ es }) (take-nil (64 - length s.buffer))
    ∙ ap (λ es. record s { buffer = es }) (append-nil s.buffer)

take-cons : (n k : ℕ) (e : Event) (es : List Event) → n ≡ suc k → e ∷ take k es ≡ take n (e ∷ es)
take-cons zero k e es h = absurd (omega arith)
take-cons (suc n) k e es h = let same : n ≡ k = omega arith in rw same refl

buffer_room :
    (b : List Event) (ev : Event) (es : List Event)
    → ltb (length b) 64 ≡ true
    → (b ++ ev ∷ []) ++ take (64 - length (b ++ ev ∷ [])) es ≡ b ++ take (64 - length b) (ev ∷ es)
buffer_room b ev es h =
    append_assoc b (ev ∷ []) (take (64 - length (b ++ ev ∷ [])) es)
    ∙ ap (λ r. b ++ r)
        (take-cons (64 - length b) (64 - length (b ++ ev ∷ [])) ev es
          (ground (arith, length-append b (ev ∷ []))))

buffer_full :
    (b : List Event) (ev : Event) (es : List Event)
    → length b ≤ 64
    → ltb (length b) 64 ≡ false
    → b ++ take (64 - length b) es ≡ b ++ take (64 - length b) (ev ∷ es)
buffer_full b ev es h f = let none_left : 64 - length b ≡ 0 = ground arith in rw none_left refl

delivered-offer :
    (now : ℕ) (ev : Event) (evs : List (ℕ × Event)) (s : Subscriber)
    → length s.buffer ≤ 64
    → delivered evs (offer (stamped now ev) s) ≡ delivered ((now, ev) ∷ evs) s
unfolding offer
delivered-offer now ev evs s b = elim (Bool-cases (wants s.filter (stamped now ev))) [
  | inr w ↦
      let p : passes s.filter (stamped now ev) ≡ false =
        sym (wants-passes s.filter (stamped now ev)) ∙ w in
      rw (w, p) refl
  | inl w ↦
      let p : passes s.filter (stamped now ev) ≡ true =
        sym (wants-passes s.filter (stamped now ev)) ∙ w in
      elim (Bool-cases (ltb (length s.buffer) 64)) [
        | inl r ↦
            rw (w, p, r)
              (ap (λ es. record s { buffer = es })
                (buffer_room s.buffer (stamped now ev) (matching s.filter evs) r))
        | inr r ↦
            rw (w, p, r)
              (ap (λ es. record s { buffer = es })
                (buffer_full s.buffer (stamped now ev) (matching s.filter evs) b r))
      ]
]

map-offer_all :
    (now : ℕ) (ev : Event) (evs : List (ℕ × Event)) (bus : Bus)
    → Bounded bus
    → map (delivered evs) (offer_all (stamped now ev) bus) ≡ map (delivered ((now, ev) ∷ evs)) bus
unfolding offer_all
map-offer_all now ev evs [] b = refl
map-offer_all now ev evs (s ∷ ss) b =
    rw (delivered-offer now ev evs s b.0, map-offer_all now ev evs ss b.1) refl

map-delivered-nil : (bus : Bus) → bus ≡ map (delivered []) bus
map-delivered-nil [] = refl
map-delivered-nil (s ∷ ss) = rw (delivered-nil s) (ap (λ r. s ∷ r) (map-delivered-nil ss))

-- What publishing leaves in each channel of a bus where no channel holds more than 64 events: behind what was there,
-- in order, the events that the filter lets through, as many as there is room for.
pub publish_all-delivered :
    (evs : List (ℕ × Event)) (bus : Bus)
    → Bounded bus
    → publish_all evs bus ≡ map (delivered evs) bus
unfolding publish_all publish
publish_all-delivered [] bus b = map-delivered-nil bus
publish_all-delivered ((now, ev) ∷ evs) bus b =
    publish_all-delivered evs (publish now ev bus) (offer_all-Bounded (stamped now ev) bus b)
    ∙ map-offer_all now ev evs bus b
