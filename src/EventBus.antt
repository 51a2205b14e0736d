-- ===== src/EventBus.antt =====
-- core/eventbus/eventbus.go: publishing events to subscribers with bounded buffers.
-- An event's type and payload are texts. A channel is the list of the events in it; the lock makes
-- each call one step.
pub mod Delivery
mod Tests
use text.Mathlib.Text.{◌==◌ as str_eq}
use hisnos_secure_workstatio.Common.{
  ℕ, zero, suc, Bool, true, false, not, ◌&&◌, Option, none, some, List, [], ◌∷◌, ◌++◌, String,
  length, ltb, ◌==◌, if◌then◌else◌,
}

pub record Event : Type 0 where
  pub type : String
  pub timestamp : ℕ
  pub payload : String

abbrev pub subscriber_buf_size : ℕ
subscriber_buf_size = 64

-- `sub`; the empty filter takes all events.
pub record Subscriber : Type 0 where
  pub buffer : List Event
  pub filter : String

abbrev pub Bus : Type 0
Bus = List Subscriber

unfoldable pub subscribe : String → Bus → Bus
subscribe filter bus = bus ++ record { buffer = []; filter = filter } ∷ []

abbrev pub wants : String → Event → Bool
wants filter ev = not (not (str_eq filter "") && not (str_eq filter ev.type))

-- An event without a time gets the present one.
abbrev pub stamped : ℕ → Event → Event
stamped now ev = if ev.timestamp == 0 then record ev { timestamp = now } else ev

-- The body of the loop: a full buffer drops the event.
unfoldable pub offer : Event → Subscriber → Subscriber
offer ev s =
    if not (wants s.filter ev)
    then s
    else if ltb (length s.buffer) subscriber_buf_size
    then record s { buffer = s.buffer ++ ev ∷ [] }
    else s

unfoldable pub offer_all : Event → Bus → Bus
unfolding offer
offer_all ev [] = []
offer_all ev (s ∷ ss) = offer ev s ∷ offer_all ev ss

unfoldable pub publish : ℕ → Event → Bus → Bus
unfolding offer_all
publish now ev bus = offer_all (stamped now ev) bus

unfoldable pub emit : ℕ → String → String → Bus → Bus
unfolding publish
emit now type payload bus =
    publish now (record { type = type; timestamp = now; payload = payload }) bus

abbrev pub without_first : List Event → List Event
without_first [] = []
without_first (e ∷ es) = es

-- The subscriber at a place takes the oldest event out of its channel.
unfoldable pub receive : ℕ → Bus → Bus
receive i [] = []
receive zero (s ∷ ss) = record s { buffer = without_first s.buffer } ∷ ss
receive (suc i) (s ∷ ss) = s ∷ receive i ss
