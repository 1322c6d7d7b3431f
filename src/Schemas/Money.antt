-- ===== src/Schemas/Money.antt =====
-- packages/schemas/src/money.ts: canonical atomic amounts, as decimal texts.
-- A text is the list of its UTF-16 units; on ASCII these are the character codes.
pub mod Decimal
pub mod Bounds
pub mod Tests
use Prim.Native.Nat.{compare, Ordering}
use Prim.Native.Char.{code}
use Prim.Native.String
use crip_wallet.Base.{
  ℕ, String, Bool, true, false, not, ◌&&◌, List, [], ◌∷◌, all, length, ◌==◌, ltb, leb,
  if◌then◌else◌,
}

abbrev pub Text : Type 0
Text = List ℕ

-- A literal's units.
abbrev pub units : String → Text
units String.[] = []
units (String.◌∷◌ c s) = code c ∷ units s

-- `[0-9]`
abbrev pub is_digit : ℕ → Bool
is_digit c = leb b'0' c && leb c b'9'

-- The first difference decides.
abbrev pub then_by : Ordering → Ordering → Ordering
then_by Ordering.lt rest = Ordering.lt
then_by Ordering.eq rest = rest
then_by Ordering.gt rest = Ordering.gt

-- `left < right`, `left === right`, `left > right` on strings.
unfoldable pub text_compare : Text → Text → Ordering
text_compare [] [] = Ordering.eq
text_compare [] (d ∷ right) = Ordering.lt
text_compare (c ∷ left) [] = Ordering.gt
text_compare (c ∷ left) (d ∷ right) = then_by (compare c d) (text_compare left right)

abbrev pub is_empty : Text → Bool
is_empty [] = true
is_empty (c ∷ t) = false

-- `canonicalAtomicPattern`: /^(?:0|[1-9][0-9]*)$/
unfoldable pub canonical_atomic : Text → Bool
canonical_atomic [] = false
canonical_atomic (c ∷ t) = if c == b'0' then is_empty t else is_digit c && all is_digit t

-- `maximumUint256Decimal`
unfoldable pub maximum_uint256_decimal : Text
maximum_uint256_decimal =
    units "115792089237316195423570985008687907853269984665640564039457584007913129639935"

abbrev is_at_most : Ordering → Bool
is_at_most Ordering.gt = false
is_at_most _ = true

unfoldable pub is_within_uint256 : Text → Bool
is_within_uint256 value =
    if not (canonical_atomic value)
    then true
    else if not (length value == length maximum_uint256_decimal)
    then ltb (length value) (length maximum_uint256_decimal)
    else is_at_most (text_compare value maximum_uint256_decimal)

-- `atomicUnitSchema`
unfoldable pub atomic_unit : Text → Bool
atomic_unit value = leb (length value) 78 && (canonical_atomic value && is_within_uint256 value)

-- `positiveAtomicUnitSchema`
unfoldable pub positive_atomic_unit : Text → Bool
positive_atomic_unit value =
    atomic_unit value && (elim (text_compare value (units "0")) [ Ordering.eq ↦ false | _ ↦ true ])
