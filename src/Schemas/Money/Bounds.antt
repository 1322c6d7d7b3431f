-- ===== src/Schemas/Money/Bounds.antt =====
-- What packages/schemas/src/money.ts accepts as an amount.
use Prim.Native.Nat.{Ordering}
use crip_wallet.Base.{ℕ, ◌+◌, ◌≤◌, ◌<◌, ◌^◌, ◌≡◌, ◌≢◌, ◌↔◌, refl, true, length, arith, sym, ◌∙◌}
use crip_wallet.Schemas.Money.{
  Text, text_compare, canonical_atomic, maximum_uint256_decimal, is_within_uint256, atomic_unit,
  positive_atomic_unit, units, is_at_most,
}
use crip_wallet.Schemas.Money.Decimal.{
  value, Agrees, text_compare-Agrees, canonical_atomic-IsDecimal, shorter-lt,
  canonical_atomic-nonempty,
}

maximum_canonical : canonical_atomic maximum_uint256_decimal ≡ true
unfolding canonical_atomic maximum_uint256_decimal
maximum_canonical = refl

maximum_length : length maximum_uint256_decimal ≡ 78
unfolding maximum_uint256_decimal
maximum_length = refl

maximum_value : value maximum_uint256_decimal + 1 ≡ 2 ^ 256
unfolding maximum_uint256_decimal value
maximum_value = refl

is_at_most_iff : (o : Ordering) (m n : ℕ) → Agrees o m n → (is_at_most o ≡ true) ↔ (m ≤ n)
is_at_most_iff Ordering.lt m n h = ground arith
is_at_most_iff Ordering.eq m n h = ground arith
is_at_most_iff Ordering.gt m n h = ground arith

compare_maximum :
    (t : Text)
    → canonical_atomic t ≡ true
    → length t ≡ 78
    → (is_at_most (text_compare t maximum_uint256_decimal) ≡ true)
      ↔ (value t ≤ value maximum_uint256_decimal)
compare_maximum t h e = is_at_most_iff _ _ _ (
    text_compare-Agrees t maximum_uint256_decimal (canonical_atomic-IsDecimal t h)
      (canonical_atomic-IsDecimal _ maximum_canonical) (e ∙ sym maximum_length))

-- The accepted amounts are exactly the canonical decimals (0, or digits without a leading zero)
-- of a number below 2^256.
pub atomic_unit_iff :
    (t : Text) → (atomic_unit t ≡ true) ↔ ((canonical_atomic t ≡ true) × (value t < 2 ^ 256))
unfolding atomic_unit is_within_uint256
atomic_unit_iff t = (
  λ h. ground (
    arith,
    maximum_length,
    maximum_value,
    compare_maximum t,
    shorter-lt t maximum_uint256_decimal,
    maximum_canonical,
  ),
  λ h. ground (
    arith,
    maximum_length,
    maximum_value,
    compare_maximum t,
    shorter-lt maximum_uint256_decimal t maximum_canonical,
  ),
)

zero_text : (canonical_atomic (units "0") ≡ true) × (value (units "0") ≡ 0)
unfolding canonical_atomic value
zero_text = (refl, refl)

compare_zero :
    (t : Text) → canonical_atomic t ≡ true → text_compare t (units "0") ≢ Ordering.eq → 1 ≤ value t
compare_zero t h n = ground (
  arith,
  zero_text,
  canonical_atomic-nonempty t h,
  shorter-lt (units "0") t zero_text.0 h,
  text_compare-Agrees t (units "0") (canonical_atomic-IsDecimal t h) refl,
)

-- A positive amount is an accepted amount that denotes at least 1.
pub positive_atomic_unit_sound :
    (t : Text) → positive_atomic_unit t ≡ true → (atomic_unit t ≡ true) × (1 ≤ value t)
unfolding positive_atomic_unit
positive_atomic_unit_sound t h =
    let fits : atomic_unit t ≡ true = ground arith in
    (fits, compare_zero t ((atomic_unit_iff t).0 fits).0 (ground arith))
