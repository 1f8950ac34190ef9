-- ===== src/Domain/Money.antt =====
-- packages/domain/src/money.ts. A text is the list of its character codes. The text of an amount or
-- of a factor is what `trim` leaves of it, and an amount that is a JavaScript number is left out.
pub mod Digits
pub mod RoundTrip
pub mod Sums
pub mod Rounding
use aytrackerv.Prelude.{
  ℕ, zero, suc, ◌+◌, ◌-◌, ◌*◌, ◌/◌, ◌%◌, ◌^◌, Bool, true, false, not, ◌&&◌, Option, none, some,
  List, [], ◌∷◌, ◌++◌, ltb, leb, length, take, drop, all, ◌==◌, if◌then◌else◌,
}
use aytrackerv.Prelude.Int.{ℤ, ◌+ℤ◌, ◌-ℤ◌, ◌*ℤ◌, pos, abs, is_negative, signed}
use aytrackerv.Domain.Errors.{Result, ok, err, ◌>>◌, ◌>>=◌, throw_if, validation_error}

abbrev pub Text : Type 0
Text = List ℕ

pub record Money : Type 0 where
  pub amount : Text
  pub currency : Text

abbrev pub is_digit : ℕ → Bool
is_digit c = leb b'0' c && leb c b'9'

abbrev pub is_upper : ℕ → Bool
is_upper c = leb b'A' c && leb c b'Z'

abbrev pub same_text : Text → Text → Bool
same_text [] [] = true
same_text [] (_ ∷ _) = false
same_text (_ ∷ _) [] = false
same_text (c ∷ s) (d ∷ t) = (c == d) && same_text s t

-- `EXPONENT_OVERRIDES[currency] ?? 2`, of a currency in upper case.
unfoldable pub minor_unit_exponent : Text → ℕ
minor_unit_exponent currency =
    if same_text currency (b'J' ∷ b'P' ∷ b'Y' ∷ [])
    then 0
    else if same_text currency (b'K' ∷ b'R' ∷ b'W' ∷ [])
    then 0
    else if same_text currency (b'I' ∷ b'S' ∷ b'K' ∷ [])
    then 0
    else if same_text currency (b'C' ∷ b'L' ∷ b'P' ∷ [])
    then 0
    else if same_text currency (b'B' ∷ b'H' ∷ b'D' ∷ [])
    then 3
    else if same_text currency (b'K' ∷ b'W' ∷ b'D' ∷ [])
    then 3
    else if same_text currency (b'T' ∷ b'N' ∷ b'D' ∷ [])
    then 3
    else 2

-- `/^[A-Z]{3}$/`
unfoldable pub assert_currency : Text → Result (Unit {0})
assert_currency currency =
    throw_if (not ((length currency == 3) && all is_upper currency))
      (validation_error "money.invalid_currency")

-- The groups of `/^(-)?(\d+)(?:\.(\d+))?$/`.
pub record Decimal : Type 0 where
  pub negative : Bool
  pub whole : Text
  pub fraction : Text

abbrev pub before_sign : Text → Bool × Text
before_sign [] = (false, [])
before_sign (c ∷ s) = if c == b'-' then (true, s) else (false, c ∷ s)

-- The longest run of digits, and the rest.
unfoldable pub span_digits : Text → Text × Text
span_digits [] = ([], [])
span_digits (c ∷ s) =
    let rest = span_digits s in if is_digit c then (c ∷ rest.0, rest.1) else ([], c ∷ s)

abbrev pub after_point : Bool → Text → Text × Text → Option Decimal
after_point negative whole ([], end) = none
after_point negative whole (d ∷ digits, []) =
    some (record { negative = negative; whole = whole; fraction = d ∷ digits })
after_point negative whole (d ∷ digits, _ ∷ _) = none

abbrev pub after_whole : Bool → Text × Text → Option Decimal
after_whole negative ([], end) = none
after_whole negative (d ∷ digits, []) =
    some (record { negative = negative; whole = d ∷ digits; fraction = [] })
after_whole negative (d ∷ digits, c ∷ s) =
    if c == b'.' then after_point negative (d ∷ digits) (span_digits s) else none

unfoldable pub match_decimal : Text → Option Decimal
unfolding span_digits
match_decimal text = after_whole (before_sign text).0 (span_digits (before_sign text).1)

-- `BigInt` of a text of digits, with the digits read before.
unfoldable pub digits_value : ℕ → Text → ℕ
digits_value read [] = read
digits_value read (c ∷ s) = digits_value (read * 10 + (c - b'0')) s

abbrev pub zeros : ℕ → Text
zeros zero = []
zeros (suc n) = b'0' ∷ zeros n

-- `padEnd` and `padStart` with zeros.
abbrev pub pad_end : ℕ → Text → Text
pad_end n text = text ++ zeros (n - length text)

abbrev pub pad_start : ℕ → Text → Text
pad_start n text = zeros (n - length text) ++ text

abbrev pub matched : {A : Type 0} → Option A → Result A
matched none = err (validation_error "money.invalid_amount")
matched (some a) = ok a

unfoldable pub to_minor_units : Text → Text → Result ℤ
unfolding assert_currency match_decimal digits_value
to_minor_units amount currency =
    assert_currency currency
    >> (matched (match_decimal amount) >>= λ d.
        let exponent = minor_unit_exponent currency in
        throw_if (ltb exponent (length d.fraction)) (validation_error "money.excess_precision")
        >> ok (signed d.negative (digits_value 0 (d.whole ++ pad_end exponent d.fraction))))

-- `toString` of a natural number; the fuel is enough where it exceeds the number.
unfoldable pub decimal_digits : ℕ → ℕ → Text → Text
decimal_digits zero n later = later
decimal_digits (suc fuel) n later =
    let more = decimal_digits fuel (n / 10) ((b'0' + n % 10) ∷ later) in
    if ltb n 10 then (b'0' + n) ∷ later else more

abbrev pub sign_text : Bool → Text
sign_text true = b'-' ∷ []
sign_text false = []

abbrev pub fraction_text : ℕ → Text → Text
fraction_text zero digits = []
fraction_text (suc n) digits = b'.' ∷ digits

-- The amount of a number of minor units.
unfoldable pub amount_text : ℕ → ℤ → Text
unfolding decimal_digits
amount_text exponent minor =
    let absolute = pad_start (exponent + 1) (decimal_digits (suc (abs minor)) (abs minor) []) in
    let point = length absolute - exponent in
    sign_text (is_negative minor)
    ++ (take point absolute ++ fraction_text exponent (drop point absolute))

unfoldable pub from_minor_units : ℤ → Text → Result Money
unfolding assert_currency amount_text
from_minor_units minor currency =
    assert_currency currency
    >> ok
        (record { amount = amount_text (minor_unit_exponent currency) minor; currency = currency })

-- `money` of a text.
unfoldable pub money : Text → Text → Result Money
money amount currency = to_minor_units amount currency >>= λ minor. from_minor_units minor currency

abbrev pub same_currency : Money → Money → Result (Unit {0})
same_currency a b =
    throw_if (not (same_text a.currency b.currency)) (validation_error "money.currency_mismatch")

unfoldable pub add_money : Money → Money → Result Money
add_money a b =
    same_currency a b
    >> (to_minor_units a.amount a.currency >>= λ x.
        to_minor_units b.amount b.currency >>= λ y. from_minor_units (x +ℤ y) a.currency)

unfoldable pub subtract_money : Money → Money → Result Money
subtract_money a b =
    same_currency a b
    >> (to_minor_units a.amount a.currency >>= λ x.
        to_minor_units b.amount b.currency >>= λ y. from_minor_units (x -ℤ y) a.currency)

-- The loop of `reduce` in `sumMoney`.
unfoldable pub sum_from : Money → List Money → Result Money
sum_from total [] = ok total
sum_from total (value ∷ values) = add_money total value >>= λ total. sum_from total values

unfoldable pub sum_money : List Money → Text → Result Money
unfolding sum_from
sum_money values currency = money (b'0' ∷ []) currency >>= λ total. sum_from total values

-- `divideHalfUp` by a denominator that is positive.
unfoldable pub divide_half_up : ℤ → ℕ → Result ℤ
divide_half_up numerator denominator =
    throw_if (denominator == 0) (validation_error "money.division_by_zero")
    >> (let quotient = abs numerator / denominator in
        let remainder = abs numerator % denominator in
        let rounded = if leb denominator (remainder * 2) then quotient + 1 else quotient in
        ok (signed (is_negative numerator) rounded))

abbrev pub factor_of : Option Decimal → Result Decimal
factor_of none = err (validation_error "money.invalid_factor")
factor_of (some d) = ok d

-- `multiplyMoney` by the text of a decimal.
unfoldable pub multiply_money : Money → Text → Result Money
multiply_money value factor = factor_of (match_decimal factor) >>= λ f.
    to_minor_units value.amount value.currency >>= λ minor.
    divide_half_up (minor *ℤ signed f.negative (digits_value 0 (f.whole ++ f.fraction)))
      (10 ^ length f.fraction)
    >>= λ rounded. from_minor_units rounded value.currency

-- `multiplyDecimalsToMoney`
unfoldable pub multiply_decimals_to_money : Text → Text → Text → Result Money
multiply_decimals_to_money a b currency =
    assert_currency currency
    >> (matched (match_decimal a) >>= λ left. matched (match_decimal b) >>= λ right.
        let product =
          signed left.negative (digits_value 0 (left.whole ++ left.fraction))
          *ℤ signed right.negative (digits_value 0 (right.whole ++ right.fraction)) in
        divide_half_up (product *ℤ pos (10 ^ minor_unit_exponent currency))
          (10 ^ (length left.fraction + length right.fraction))
        >>= λ minor. from_minor_units minor currency)
