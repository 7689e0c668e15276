-- ===== src/Dashboard/Socket/Tests.antt =====
-- A run of the connection at concrete listeners, and the theorem on it.
use airport_inspection_platf.Prelude.{arith, false, refl, true, ℕ, ◌<◌, ◌≡◌}
use airport_inspection_platf.Dashboard.Socket.{
  new_client, on_close, on_open, on_timer, open_once, schedule_reconnect, set_state, start_client,
}
use airport_inspection_platf.Dashboard.Socket.Single.{
  IsSingle, Tab, after, after_open, closes, fires, opens, reachable-IsSingle, started,
}

-- A connection that opens, is lost, and is tried again by the timer.
abbrev unvaried : ℕ → ℕ
unvaried delay = delay

abbrev first_try : Tab
first_try = after_open 0 (start_client new_client)

abbrev joined : Tab
joined = record { client = on_open first_try.client; live = 1 }

abbrev lost : Tab
lost = record { client = on_close true unvaried joined.client; live = 0 }

abbrev retried : Tab
retried = after_open 0 (on_timer lost.client)

first_open : 0 < first_try.live
unfolding start_client new_client open_once
first_open = omega arith

reachable-IsSingle_example : IsSingle true retried
unfolding start_client new_client open_once set_state on_open on_close on_timer schedule_reconnect
reachable-IsSingle_example = reachable-IsSingle unvaried true (
    after (after (after started (opens first_try first_open)) (closes joined 0 refl))
      (fires lost refl))

-- Where the timer function throws, a connection that is lost is not tried again.
abbrev given_up : Tab
given_up = record { client = on_close false unvaried joined.client; live = 0 }

never_retried : (given_up.client.has_timer ≡ false) × (given_up.client.disposed ≡ false)
unfolding start_client new_client open_once set_state on_open on_close schedule_reconnect
never_retried = (refl, refl)
