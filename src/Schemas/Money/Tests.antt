-- ===== src/Schemas/Money/Tests.antt =====
-- Tests of packages/schemas/src/money.ts and instances of its theorems.
use crip_wallet.Base.{◌<◌, ◌^◌, ◌≡◌, ◌↔◌, refl, true, false}
use crip_wallet.Schemas.Money.{
  units, text_compare, canonical_atomic, maximum_uint256_decimal, is_within_uint256, atomic_unit,
  positive_atomic_unit,
}
use crip_wallet.Schemas.Money.Decimal.{value}
use crip_wallet.Schemas.Money.Bounds.{atomic_unit_iff}

money : Unit {0}
unfolding positive_atomic_unit atomic_unit is_within_uint256 canonical_atomic text_compare
    maximum_uint256_decimal
money = tt

money_tests :
    (atomic_unit (units "0") ≡ true)
    × (atomic_unit (units "01") ≡ false)
    × (atomic_unit (units "") ≡ false)
    × (positive_atomic_unit (units "0") ≡ false)
    × (positive_atomic_unit (units "250") ≡ true)
    × (atomic_unit maximum_uint256_decimal ≡ true)
    × (atomic_unit
          (units "115792089237316195423570985008687907853269984665640564039457584007913129639936")
        ≡ false)
unfolding money
money_tests = (refl, refl, refl, refl, refl, refl, refl)

atomic_unit_iff_example :
    (atomic_unit (units "250") ≡ true)
    ↔ ((canonical_atomic (units "250") ≡ true) × (value (units "250") < 2 ^ 256))
atomic_unit_iff_example = atomic_unit_iff (units "250")
