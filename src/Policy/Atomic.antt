-- ===== src/Policy/Atomic.antt =====
-- packages/policy-engine/src/index.ts: `compareAtomic`, `isAtomicAtMost` and `subtractAtomic`.
pub mod Laws
pub mod Tests
use Prim.Native.Nat.{Ordering}
use crip_wallet.Base.{
  ℕ, ◌+◌, ◌-◌, Bool, true, false, not, ◌&&◌, List, [], ◌∷◌, map, reverse, length, ◌==◌, ltb,
  if◌then◌else◌,
}
use crip_wallet.Schemas.Money.{Text, units, text_compare, is_digit}

-- -1, 0 and 1 are `lt`, `eq` and `gt`.
unfoldable pub compare_atomic : Text → Text → Ordering
compare_atomic left right =
    if not (length left == length right)
    then (if ltb (length left) (length right) then Ordering.lt else Ordering.gt)
    else text_compare left right

unfoldable pub is_atomic_at_most : Text → Text → Bool
is_atomic_at_most value limit = elim (compare_atomic value limit) [ Ordering.gt ↦ false | _ ↦ true ]

-- `Number(left[leftIndex])`
abbrev pub digit_of : ℕ → ℕ
digit_of c = c - b'0'

abbrev pub char_of : ℕ → ℕ
char_of d = d + b'0'

-- The loop of `subtractAtomic`: both texts from their last digit on, and the digits that it pushes.
-- `digit < rightDigit` reads `left < right + borrow`, since `digit` has the borrow taken off.
unfoldable pub subtract_loop : Text → Text → ℕ → List ℕ
subtract_loop [] right borrow = []
subtract_loop (c ∷ left) [] borrow =
    if ltb (digit_of c) borrow
    then (digit_of c + 10 - borrow) ∷ subtract_loop left [] 1
    else (digit_of c - borrow) ∷ subtract_loop left [] 0
subtract_loop (c ∷ left) (d ∷ right) borrow =
    if ltb (digit_of c) (digit_of d + borrow)
    then (digit_of c + 10 - borrow - digit_of d) ∷ subtract_loop left right 1
    else (digit_of c - borrow - digit_of d) ∷ subtract_loop left right 0

-- `.replace(/^0+(?=\d)/, "")`
unfoldable pub strip_zeros : Text → Text
strip_zeros [] = []
strip_zeros (c ∷ []) = c ∷ []
strip_zeros (c ∷ d ∷ t) =
    let rest = strip_zeros (d ∷ t) in if c == b'0' && is_digit d then rest else c ∷ d ∷ t

unfoldable pub subtract_atomic : Text → Text → Text
subtract_atomic left right =
    if not (is_atomic_at_most right left)
    then units "0"
    else strip_zeros (map char_of (reverse (subtract_loop (reverse left) (reverse right) 0)))
