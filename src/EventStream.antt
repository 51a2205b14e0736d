-- ===== src/EventStream.antt =====
-- core/telemetry/security_events_stream.go: the ring of the latest security events, and the
-- channels that subscribers read. Times are nanoseconds since Go's zero time, an event's details are
-- a text, and head and count never reach the end of Go's int. The lock makes each method one step,
-- and the sends of Emit, which follow the lock, belong to its step. The random ID and the time that
-- Emit may fill in are arguments; the journal's socket is left out. A risk score is only carried along.
pub mod Ring
pub mod Categories
pub mod Channels
mod Tests
use text.Mathlib.Text.{◌==◌ as str_eq}
use hisnos_secure_workstatio.Common.{
  ℕ, zero, suc, ◌+◌, ◌-◌, ◌%◌, ℤ, pos, negsuc, Bool, true, Option, none, some, List, [], ◌∷◌, ◌++◌,
  String, length, ltb, leb, ◌==◌, if◌then◌else◌,
}

-- `unnamed` carries any other number.
pub data Severity : Type 0 where
  debug info warn alert critical : Severity
  unnamed : ℤ → Severity

abbrev pub severity_name : Severity → String
severity_name debug = "DEBUG"
severity_name info = "INFO"
severity_name warn = "WARN"
severity_name alert = "ALERT"
severity_name critical = "CRITICAL"
severity_name (unnamed n) = "UNKNOWN"

pub record Event : Type 0 where
  pub id : String
  pub correlation_id : String
  pub timestamp : ℕ
  pub severity : Severity
  pub severity_name : String
  pub category : String
  pub source : String
  pub message : String
  pub details : String
  pub risk_score : ℕ

abbrev pub ring_capacity : ℕ
ring_capacity = 10000

-- `make(chan Event, bufSize)`, and the events that wait in it.
pub record Channel : Type 0 where
  pub buf_size : ℕ
  pub waiting : List Event

-- The places of `ring` are below the capacity. `log_file` holds the lines written, oldest first.
pub record Stream : Type 0 where
  pub ring : ℕ → Event
  pub head : ℕ
  pub count : ℕ
  pub subscribers : String → Option Channel
  pub log_file : Option (List Event)

abbrev pub zero_event : Event
zero_event = record {
  id = "";
  correlation_id = "";
  timestamp = 0;
  severity = debug;
  severity_name = "";
  category = "";
  source = "";
  message = "";
  details = "";
  risk_score = 0;
}

-- The arguments say whether the log's directory was made and the log opened; it may have lines.
abbrev pub new_stream : Bool → Option (List Event) → Stream
new_stream made opened = record {
  ring = λ i. zero_event;
  head = 0;
  count = 0;
  subscribers = λ name. none;
  log_file = if made then opened else none;
}

-- The parts of the event that Emit fills in.
abbrev pub filled : String → ℕ → Event → Event
filled fresh now ev = record ev {
  id = if str_eq ev.id "" then fresh else ev.id;
  timestamp = if ev.timestamp == 0 then now else ev.timestamp;
  severity_name = severity_name ev.severity;
}

-- `select { case ch <- ev: default: }`
abbrev pub offer : Event → Option Channel → Option Channel
offer ev none = none
offer ev (some ch) =
    if ltb (length ch.waiting) ch.buf_size
    then some (record ch { waiting = ch.waiting ++ ev ∷ [] })
    else some ch

-- The event as it is stored; `persist` follows in its own goroutine.
unfoldable pub emit : String → ℕ → Event → Stream → Stream
emit fresh now ev s =
    let e = filled fresh now ev in
    record s {
      ring = λ i. if i == s.head % ring_capacity then e else s.ring i;
      head = s.head + 1;
      count = s.count + 1;
      subscribers = λ name. offer e (s.subscribers name);
    }

unfoldable pub emit_simple : String → ℕ → Severity → String → String → String → Stream → Stream
unfolding emit
emit_simple fresh now severity category source message s =
    emit fresh now
      (record zero_event {
        severity = severity;
        category = category;
        source = source;
        message = message;
      })
      s

-- A channel of the same name is replaced; `make` panics at a negative size, which is not modelled.
unfoldable pub subscribe : String → ℕ → Stream → Stream
subscribe name buf_size s = record s {
  subscribers = λ k.
      if str_eq k name
      then some (record { buf_size = buf_size; waiting = [] })
      else s.subscribers k;
}

unfoldable pub unsubscribe : String → Stream → Stream
unsubscribe name s = record s { subscribers = λ k. if str_eq k name then none else s.subscribers k }

abbrev pub min_of : ℕ → ℕ → ℕ
min_of a b = if ltb b a then b else a

-- The loop from `i` on, `k` events long.
pub walk_back : Stream → ℕ → ℕ → List Event
walk_back s i zero = []
walk_back s i (suc k) =
    s.ring ((s.head + ring_capacity - 1 - i) % ring_capacity) ∷ walk_back s (suc i) k

-- `none` is the panic of `make` at a negative length.
unfoldable pub recent : ℤ → Stream → Option (List Event)
unfolding walk_back
recent (negsuc n) s = none
recent (pos n) s =
    some (walk_back s 0 (min_of (min_of n ring_capacity) (min_of s.count ring_capacity)))

-- `len(out) >= n`
abbrev pub enough : ℤ → ℕ → Bool
enough (pos n) k = leb n k
enough (negsuc n) k = true

-- The loop over the events, `k` of which were taken.
unfoldable pub pick_category : String → ℤ → ℕ → List Event → List Event
pick_category category n k [] = []
pick_category category n k (ev ∷ rest) =
    let more = pick_category category n (suc k) rest in
    let skipped = pick_category category n k rest in
    if str_eq ev.category category then ev ∷ (if enough n (suc k) then [] else more) else skipped

unfoldable pub recent_by_category : String → ℤ → Stream → Option (List Event)
unfolding pick_category
recent_by_category category n s = elim (recent (pos ring_capacity) s) [
  | none ↦ none
  | some events ↦ some (pick_category category n 0 events)
]

-- `marshals`: json.Marshal gives a line.
unfoldable pub persist : Bool → Event → Stream → Stream
persist marshals ev s = elim s.log_file [
  | none ↦ s
  | some lines ↦ if marshals then record s { log_file = some (lines ++ ev ∷ []) } else s
]

unfoldable pub close : Stream → Stream
close s = record s { log_file = none }
