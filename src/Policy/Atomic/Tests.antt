-- ===== src/Policy/Atomic/Tests.antt =====
-- Tests of the amounts of packages/policy-engine/src/index.ts and instances of their theorems.
use crip_wallet.Base.{◌-◌, ◌≤◌, ◌≡◌, ◌↔◌, refl, true}
use crip_wallet.Schemas.Money.{units, canonical_atomic, text_compare}
use crip_wallet.Schemas.Money.Decimal.{value}
use crip_wallet.Policy.Atomic.{
  compare_atomic, is_atomic_at_most, subtract_atomic, subtract_loop, strip_zeros,
}
use crip_wallet.Policy.Atomic.Laws.{is_atomic_at_most_iff, subtract_atomic_lem}

atomic_tests :
    (is_atomic_at_most (units "9") (units "10") ≡ true)
    × (subtract_atomic (units "1000") (units "1") ≡ units "999")
    × (subtract_atomic (units "5") (units "7") ≡ units "0")
unfolding is_atomic_at_most subtract_atomic compare_atomic strip_zeros subtract_loop text_compare
atomic_tests = (refl, refl, refl)

is_atomic_at_most_iff_example :
    (is_atomic_at_most (units "9") (units "10") ≡ true) ↔ (value (units "9") ≤ value (units "10"))
unfolding canonical_atomic
is_atomic_at_most_iff_example = is_atomic_at_most_iff (units "9") (units "10") refl refl

subtract_atomic_lem_example :
    (canonical_atomic (subtract_atomic (units "1000") (units "1")) ≡ true)
    × (value (subtract_atomic (units "1000") (units "1"))
        ≡ value (units "1000") - value (units "1"))
unfolding canonical_atomic
subtract_atomic_lem_example = subtract_atomic_lem (units "1000") (units "1") refl refl
