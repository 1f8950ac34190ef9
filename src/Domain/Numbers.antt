-- ===== src/Domain/Numbers.antt =====
-- JavaScript numbers, as far as the source compares them. A finite double is an integral multiple of
-- 2 ^ -1074, so it is a sign and the number of these units; -0 and 0 are equal.
use aytrackerv.Prelude.{ℕ, ◌*◌, ◌^◌, Bool, true, false, not, ◌&&◌, ltb, ◌==◌}

pub data JsNumber : Type 0 where
  nan infinity minus_infinity : JsNumber
  positive negative : ℕ → JsNumber

-- The units of 1, which stay folded.
pub units_of_one : ℕ
units_of_one = 2 ^ 1074

-- `n` and `-n`
abbrev pub number : ℕ → JsNumber
number n = positive (n * units_of_one)

abbrev pub minus : ℕ → JsNumber
minus n = negative (n * units_of_one)

-- `Number.isFinite(x)`
abbrev pub is_finite : JsNumber → Bool
is_finite (positive _) = true
is_finite (negative _) = true
is_finite nan = false
is_finite infinity = false
is_finite minus_infinity = false

-- `x < y`, which is false where one of the two is not a number.
abbrev pub num_lt : JsNumber → JsNumber → Bool
num_lt nan _ = false
num_lt _ nan = false
num_lt infinity _ = false
num_lt _ minus_infinity = false
num_lt minus_infinity _ = true
num_lt _ infinity = true
num_lt (positive m) (positive n) = ltb m n
num_lt (positive m) (negative n) = false
num_lt (negative m) (positive n) = not ((m == 0) && (n == 0))
num_lt (negative m) (negative n) = ltb n m

-- `x <= y`
abbrev pub num_le : JsNumber → JsNumber → Bool
num_le nan _ = false
num_le _ nan = false
num_le x y = not (num_lt y x)
