-- ===== src/Domain/Time/Rounding.antt =====
-- What rounding a span to seconds keeps.
use aytrackerv.Prelude.{ℕ, ◌+◌, ◌*◌, ◌≤◌, arith}
use aytrackerv.Domain.Time.Defs.{round_seconds}

pub round_seconds_mono : (a b : ℕ) → a ≤ b → round_seconds a ≤ round_seconds b
unfolding round_seconds
round_seconds_mono a b h = omega arith

-- Rounding moves a span by at most half a second.
pub round_seconds_near :
    (a : ℕ) → (round_seconds a * 1000 ≤ a + 500) × (a ≤ round_seconds a * 1000 + 499)
unfolding round_seconds
round_seconds_near a = omega arith
