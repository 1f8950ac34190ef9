-- ===== src/Shifts/Shift/Clocks.antt =====
-- The timestamps of a device that was offline.
use aytrackerv.Prelude.{ℕ, ◌+◌, ◌-◌, ◌*◌, ◌≤◌, ◌≡◌, false, arith, leb, ◌&&◌, not}
use aytrackerv.Domain.Time.{Instant}
use aytrackerv.Shifts.Shift.Defs.{reconcile_client_timestamp}

-- The accepted timestamp lies between the oldest backlog and the largest skew; it is the client's
-- own exactly when that lies there, and reconciling it once more changes nothing.
reconcile_client_timestamp_window :
    (client now : Instant) (backlog skew : ℕ)
    → let r = reconcile_client_timestamp client now backlog skew in
      (now - backlog * 1000 ≤ r.timestamp)
      × (r.timestamp ≤ now + skew * 1000)
      × (r.was_adjusted ≡ not (leb (now - backlog * 1000) client && leb client (now + skew * 1000)))
      × (reconcile_client_timestamp r.timestamp now backlog skew
          ≡ record { timestamp = r.timestamp; was_adjusted = false })
unfolding reconcile_client_timestamp
reconcile_client_timestamp_window client now backlog skew = ground arith
