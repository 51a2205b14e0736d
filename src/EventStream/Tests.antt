-- ===== src/EventStream/Tests.antt =====
-- core/telemetry/security_events_stream.go on a few events.
use hisnos_secure_workstatio.Common.{◌≡◌, refl, pos, true, none, some, List, [], ◌∷◌, String, take}
use hisnos_secure_workstatio.EventStream.{
  Event, ring_capacity, alert, zero_event, filled, new_stream, subscribe, recent,
  recent_by_category, pick_category, walk_back, emit, persist, close,
}
use hisnos_secure_workstatio.EventStream.Ring.{
  Call, emits, subscribes, persists, closes, run, step, emitted, run-recent,
}
use hisnos_secure_workstatio.EventStream.Channels.{sent, run-subscribe}

abbrev seen : String → Event
seen category = record zero_event { severity = alert; category = category; source = "threatd" }

abbrev calls : List Call
calls =
    emits "ev-1" 5 (seen "vault")
    ∷ subscribes "dashboard" 2
    ∷ emits "ev-2" 6 (seen "firewall")
    ∷ persists true (seen "vault")
    ∷ emits "ev-3" 7 (seen "vault")
    ∷ closes
    ∷ []

run-recent_example :
    recent (pos 2) (run calls (new_stream true (some [])))
    ≡ some (take 2 (take ring_capacity (emitted calls [])))
run-recent_example = run-recent calls true (some []) 2

-- The dashboard's channel has room for one event.
run-subscribe_example :
    (run calls (subscribe "journal" 1 (new_stream true none))).subscribers "journal"
    ≡ some (record { buf_size = 1; waiting = take 1 (sent calls) })
run-subscribe_example =
    run-subscribe calls "journal" 1 (new_stream true none) (tt, (refl, (tt, (tt, (tt, (tt, tt))))))

-- Nothing was asked for, and one event comes.
newest_vault :
    recent_by_category "vault" (pos 0) (run calls (new_stream true none))
    ≡ some (filled "ev-3" 7 (seen "vault") ∷ [])
unfolding recent_by_category recent pick_category walk_back run step emit subscribe persist close
newest_vault = refl
