-- ===== src/EventStream/Channels.antt =====
-- core/telemetry/security_events_stream.go: what waits in a subscriber's channel.
use mathlib.Core.List.{append-nil, append_assoc}
use text.Mathlib.Text.{◌==◌ as str_eq}
use text.Mathlib.TextPositions.{eq_refl}
use hisnos_secure_workstatio.Common.{
  ℕ, zero, suc, ◌-◌, ◌≤◌, ◌≡◌, refl, sym, ap, ◌∙◌, inl, inr, Bool, true, false, Option, some, List,
  [], ◌∷◌, ◌++◌, String, length, length-append, take, ltb, Bool-cases, Option-cases, All, arith,
}
use hisnos_secure_workstatio.EventStream.{
  Event, Channel, Stream, filled, offer, emit, subscribe, unsubscribe, persist, close,
}
use hisnos_secure_workstatio.EventStream.Ring.{
  Call, emits, subscribes, unsubscribes, persists, closes, step, run,
}

-- The call neither replaces nor removes the subscriber.
abbrev pub Keeps : String → Call → Type 0
Keeps name (subscribes other n) = str_eq name other ≡ false
Keeps name (unsubscribes other) = str_eq name other ≡ false
Keeps name _ = Unit

-- The events of a history, the oldest first.
abbrev pub sent : List Call → List Event
sent [] = []
sent (emits fresh now ev ∷ cs) = filled fresh now ev ∷ sent cs
sent (_ ∷ cs) = sent cs

persist-subscribers :
    (marshals : Bool) (ev : Event) (s : Stream)
    → (persist marshals ev s).subscribers ≡ s.subscribers
unfolding persist
persist-subscribers marshals ev s = elim (Option-cases s.log_file) [
  | inl e ↦ rw e refl
  | inr (lines, e) ↦ elim (Bool-cases marshals) [ inl y ↦ rw (e, y) refl | inr n ↦ rw (e, n) refl ]
]

take_more :
    (b : ℕ) (w : List Event) (e : Event) (es : List Event)
    → ltb (length w) b ≡ true
    → (w ++ e ∷ []) ++ take (b - length (w ++ e ∷ [])) es ≡ w ++ take (b - length w) (e ∷ es)
take_more b w e es l =
    let one : b - length w ≡ suc (b - length (w ++ e ∷ [])) =
      ground (arith, length-append w (e ∷ [])) in
    rw one (append_assoc w (e ∷ []) (take (b - length (w ++ e ∷ [])) es))

take_nil : (k : ℕ) → take {A = Event} k [] ≡ []
take_nil zero = refl
take_nil (suc k) = refl

take_none : (b : ℕ) (w : List Event) → w ++ take (b - length w) [] ≡ w
take_none b w = ap (λ t. w ++ t) (take_nil (b - length w)) ∙ append-nil w

take_full :
    (b : ℕ) (w : List Event) (e : Event) (es : List Event)
    → ltb (length w) b ≡ false
    → w ++ take (b - length w) es ≡ w ++ take (b - length w) (e ∷ es)
take_full b w e es l = let none_left : b - length w ≡ 0 = ground arith in rw none_left refl

emit-subscribers :
    (fresh : String) (now : ℕ) (ev : Event) (s : Stream) (name : String)
    → (emit fresh now ev s).subscribers name ≡ offer (filled fresh now ev) (s.subscribers name)
unfolding emit
emit-subscribers fresh now ev s name = refl

subscribe-other :
    (other name : String) (n : ℕ) (s : Stream)
    → str_eq name other ≡ false
    → (subscribe other n s).subscribers name ≡ s.subscribers name
unfolding subscribe
subscribe-other other name n s d = rw d refl

unsubscribe-other :
    (other name : String) (s : Stream)
    → str_eq name other ≡ false
    → (unsubscribe other s).subscribers name ≡ s.subscribers name
unfolding unsubscribe
unsubscribe-other other name s d = rw d refl

subscribe_self :
    (name : String) (n : ℕ) (s : Stream)
    → (subscribe name n s).subscribers name ≡ some (record { buf_size = n; waiting = [] })
unfolding subscribe
subscribe_self name n s = rw (eq_refl name) refl

close-subscribers : (s : Stream) → (close s).subscribers ≡ s.subscribers
unfolding close
close-subscribers s = refl

offer_room :
    (e : Event) (b : ℕ) (w : List Event)
    → ltb (length w) b ≡ true
    → offer e (some (record { buf_size = b; waiting = w }))
      ≡ some (record { buf_size = b; waiting = w ++ e ∷ [] })
offer_room e b w y = rw y refl

offer_full :
    (e : Event) (b : ℕ) (w : List Event)
    → ltb (length w) b ≡ false
    → offer e (some (record { buf_size = b; waiting = w }))
      ≡ some (record { buf_size = b; waiting = w })
offer_full e b w n = rw n refl

run-waiting :
    (cs : List Call) (name : String) (b : ℕ) (w : List Event) (s : Stream)
    → All (Keeps name) cs
    → s.subscribers name ≡ some (record { buf_size = b; waiting = w })
    → length w ≤ b
    → (run cs s).subscribers name
      ≡ some (record { buf_size = b; waiting = w ++ take (b - length w) (sent cs) })
unfolding run step
run-waiting [] name b w s k h l =
    h ∙ ap (λ t. some (record { buf_size = b; waiting = t })) (sym (take_none b w))
run-waiting (emits fresh now ev ∷ cs) name b w s k h l = elim (Bool-cases (ltb (length w) b)) [
  | inl y ↦
      run-waiting cs name b (w ++ filled fresh now ev ∷ []) (emit fresh now ev s) k.1
        (emit-subscribers fresh now ev s name
          ∙ ap (offer (filled fresh now ev)) h
          ∙ offer_room (filled fresh now ev) b w y)
        (ground (arith, length-append w (filled fresh now ev ∷ [])))
      ∙ ap (λ t. some (record { buf_size = b; waiting = t }))
          (take_more b w (filled fresh now ev) (sent cs) y)
  | inr n ↦
      run-waiting cs name b w (emit fresh now ev s) k.1
        (emit-subscribers fresh now ev s name
          ∙ ap (offer (filled fresh now ev)) h
          ∙ offer_full (filled fresh now ev) b w n)
        l
      ∙ ap (λ t. some (record { buf_size = b; waiting = t }))
          (take_full b w (filled fresh now ev) (sent cs) n)
]
run-waiting (subscribes other n ∷ cs) name b w s k h l =
    run-waiting cs name b w (subscribe other n s) k.1 (subscribe-other other name n s k.0 ∙ h) l
run-waiting (unsubscribes other ∷ cs) name b w s k h l =
    run-waiting cs name b w (unsubscribe other s) k.1 (unsubscribe-other other name s k.0 ∙ h) l
run-waiting (persists marshals ev ∷ cs) name b w s k h l =
    run-waiting cs name b w (persist marshals ev s) k.1
      (ap (λ (f : String → Option Channel). f name) (persist-subscribers marshals ev s) ∙ h) l
run-waiting (closes ∷ cs) name b w s k h l =
    run-waiting cs name b w (close s) k.1
      (ap (λ (f : String → Option Channel). f name) (close-subscribers s) ∙ h) l

less_none : (b : ℕ) → b - 0 ≡ b
less_none b = omega arith

-- Whoever subscribes, while its name is neither subscribed again nor removed and before it reads:
-- the channel holds the first events emitted since then, in their order, as many as it has room for.
pub run-subscribe :
    (cs : List Call) (name : String) (b : ℕ) (s : Stream)
    → All (Keeps name) cs
    → (run cs (subscribe name b s)).subscribers name
      ≡ some (record { buf_size = b; waiting = take b (sent cs) })
run-subscribe cs name b s k =
    run-waiting cs name b [] (subscribe name b s) k (subscribe_self name b s) (omega arith)
    ∙ ap (λ n. some (record { buf_size = b; waiting = take n (sent cs) })) (less_none b)
