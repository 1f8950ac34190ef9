-- ===== src/Domain/Money/Sums.antt =====
-- Sums of money as sums of integers.
use aytrackerv.Prelude.{ℕ, zero, suc, ◌-◌, ◌≡◌, refl, sym, ◌∙◌, true, List, [], ◌∷◌, arith}
use aytrackerv.Prelude.Int.{ℤ, ◌+ℤ◌, ◌-ℤ◌, pos}
use aytrackerv.Domain.Errors.{ok}
use aytrackerv.Domain.Money.{
  Text, Money, same_text, span_digits, amount_text, match_decimal, digits_value, zeros,
  assert_currency, minor_unit_exponent, to_minor_units, from_minor_units, money, add_money,
  subtract_money, sum_from, sum_money,
}
use aytrackerv.Domain.Money.RoundTrip.{to_minor_units-from_minor_units}

same_text_refl : (s : Text) → same_text s s ≡ true
same_text_refl [] = refl
same_text_refl (c ∷ s) = ground (arith, same_text_refl s)

module _ (m n : ℤ) (currency : Text) (a b : Money) (from_m : from_minor_units m currency ≡ ok a)
    (from_n : from_minor_units n currency ≡ ok b) where
  -- Adding and subtracting the money of two numbers of minor units gives the money of their sum
  -- and of their difference.
  pub add_money-from_minor_units :
      (add_money a b ≡ from_minor_units (m +ℤ n) currency)
      × (subtract_money a b ≡ from_minor_units (m -ℤ n) currency)
  unfolding add_money subtract_money
  add_money-from_minor_units =
      let (currency_a, read_a) = to_minor_units-from_minor_units m currency a from_m in
      let (currency_b, read_b) = to_minor_units-from_minor_units n currency b from_n in
      ground (arith, same_text_refl currency)

-- Each value is the money of a number of minor units.
abbrev pub ArePrinted : Text → List ℤ → List Money → Type 0
ArePrinted currency [] [] = Unit
ArePrinted currency [] (_ ∷ _) = ⊥
ArePrinted currency (_ ∷ _) [] = ⊥
ArePrinted currency (m ∷ minors) (value ∷ values) =
    (from_minor_units m currency ≡ ok value) × ArePrinted currency minors values

abbrev pub sum_ℤ : ℤ → List ℤ → ℤ
sum_ℤ total [] = total
sum_ℤ total (m ∷ minors) = sum_ℤ (total +ℤ m) minors

from_minor_units-ok :
    (m : ℤ) (currency : Text)
    → assert_currency currency ≡ ok tt
    → (value : Money) × (from_minor_units m currency ≡ ok value)
unfolding from_minor_units
from_minor_units-ok m currency valid = (
  record { amount = amount_text (minor_unit_exponent currency) m; currency = currency },
  rw valid,
)

sum_from-sum_ℤ :
    (t : ℤ) (total : Money) (minors : List ℤ) (values : List Money) (currency : Text)
    → assert_currency currency ≡ ok tt
    → from_minor_units t currency ≡ ok total
    → ArePrinted currency minors values
    → sum_from total values ≡ from_minor_units (sum_ℤ t minors) currency
unfolding sum_from
sum_from-sum_ℤ t total [] [] currency valid from all = sym from
sum_from-sum_ℤ t total [] (_ ∷ _) currency valid from all = absurd all
sum_from-sum_ℤ t total (_ ∷ _) [] currency valid from all = absurd all
sum_from-sum_ℤ t total (m ∷ minors) (value ∷ values) currency valid from all =
    let (next, made) = from_minor_units-ok (t +ℤ m) currency valid in
    rw ((add_money-from_minor_units t m currency total value from all.0).0 ∙ made)
      (sum_from-sum_ℤ (t +ℤ m) next minors values currency valid made all.1)

zero_value : (n : ℕ) → digits_value 0 (zeros n) ≡ 0
unfolding digits_value
zero_value zero = refl
zero_value (suc n) = zero_value n

zero_read :
    (currency : Text)
    → assert_currency currency ≡ ok tt
    → to_minor_units (b'0' ∷ []) currency ≡ ok (pos 0)
unfolding to_minor_units match_decimal span_digits digits_value
zero_read currency valid = rw valid (ground (arith, zero_value (minor_unit_exponent currency - 0)))

-- The sum of values of one currency, each the money of a number of minor units, is the money of the
-- sum of these numbers: no cent is lost or made, whatever the number of values and their signs.
pub sum_money-sum_ℤ :
    (currency : Text) (minors : List ℤ) (values : List Money)
    → assert_currency currency ≡ ok tt
    → ArePrinted currency minors values
    → sum_money values currency ≡ from_minor_units (sum_ℤ (pos 0) minors) currency
unfolding sum_money money
sum_money-sum_ℤ currency minors values valid all =
    let (start, made) = from_minor_units-ok (pos 0) currency valid in
    rw (zero_read currency valid)
      (rw made (sum_from-sum_ℤ (pos 0) start minors values currency valid made all))
