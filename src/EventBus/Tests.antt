-- ===== src/EventBus/Tests.antt =====
-- The event bus with two subscribers.
use hisnos_secure_workstatio.Common.{◌≡◌, List, [], ◌∷◌, map, arith}
use hisnos_secure_workstatio.EventBus.{Event, Bus}
use hisnos_secure_workstatio.EventBus.Delivery.{
  Call, subscribes, publishes, receives, publish_all, delivered, publish_all-delivered,
}

abbrev lab_started : Event
lab_started = record { type = "LabStarted"; timestamp = 0; payload = "" }

abbrev two : Bus
two =
    record { buffer = lab_started ∷ []; filter = "LabStarted" }
    ∷ record { buffer = []; filter = "" }
    ∷ []

abbrev calls : List Call
calls = subscribes "VaultLocked" ∷ publishes 7 lab_started ∷ receives 0 ∷ []

publish_all-delivered_example :
    publish_all ((7, lab_started) ∷ (8, lab_started) ∷ []) two
    ≡ map (delivered ((7, lab_started) ∷ (8, lab_started) ∷ [])) two
publish_all-delivered_example =
    publish_all-delivered ((7, lab_started) ∷ (8, lab_started) ∷ []) two
      (omega arith, (omega arith, tt))
