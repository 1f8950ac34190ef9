-- ===== src/Fleet/Examples.antt =====
-- Documents that run out.
use aytrackerv.Prelude.{Perm, none, some, List, [], ◌∷◌, map, filter}
use aytrackerv.Fleet.Expiration.{ExpirableItem, evaluate_expiration, pending_expirations}
use aytrackerv.Fleet.Expiration.Urgency.{IsByDays, is_pending, pending_expirations-IsSorted}

abbrev documents : List ExpirableItem
documents =
    record { id = 1; expires_at = none; reminder_days = 30 }
    ∷ record { id = 2; expires_at = some 864_000_000; reminder_days = 30 }
    ∷ record { id = 3; expires_at = some 5; reminder_days = 30 }
    ∷ []

pending_expirations-IsSorted_example :
    IsByDays (pending_expirations documents 10)
    × Perm
        (pending_expirations documents 10)
        (map (λ item. evaluate_expiration item 10) (filter (is_pending 10) documents))
pending_expirations-IsSorted_example = pending_expirations-IsSorted documents 10
