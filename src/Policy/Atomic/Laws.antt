-- ===== src/Policy/Atomic/Laws.antt =====
-- The text arithmetic of the policy engine against arithmetic on the numbers.
use Prim.Native.Nat.{Ordering, compare}
use mathlib.Core.List.{reverse-cons, reverse-reverse, map-append}
use crip_wallet.Base.{
  ℕ, suc, ◌+◌, ◌-◌, ◌*◌, ◌≤◌, ◌≡◌, refl, sym, ap, ◌∙◌, ◌↔◌, inl, inr, true, List, [], ◌∷◌, ◌++◌,
  map, reverse, length, length-append, arith, Bool-cases,
}
use crip_wallet.Schemas.Money.{Text, units, canonical_atomic}
use crip_wallet.Schemas.Money.Decimal.{
  scale, value, IsDecimal, Agrees, text_compare-Agrees, canonical_atomic-IsDecimal, shorter-lt,
  IsDecimal-cons, canonical_atomic-nonempty,
}
use crip_wallet.Policy.Atomic.{
  compare_atomic, is_atomic_at_most, digit_of, char_of, subtract_loop, strip_zeros, subtract_atomic,
}

-- `compareAtomic` on canonical amounts is the comparison of the numbers.
compare_atomic-Agrees :
    (s t : Text)
    → canonical_atomic s ≡ true
    → canonical_atomic t ≡ true
    → Agrees (compare_atomic s t) (value s) (value t)
unfolding compare_atomic
compare_atomic-Agrees s t p q = ground (
  arith,
  shorter-lt s t p q,
  shorter-lt t s q p,
  text_compare-Agrees s t (canonical_atomic-IsDecimal s p) (canonical_atomic-IsDecimal t q),
)

-- `compareAtomic` on canonical amounts is the comparison of the numbers that they denote.
pub compare_atomic_lem :
    (s t : Text)
    → canonical_atomic s ≡ true
    → canonical_atomic t ≡ true
    → compare_atomic s t ≡ compare (value s) (value t)
compare_atomic_lem s t p q =
    go (compare_atomic s t) (value s) (value t) (compare_atomic-Agrees s t p q)
  where
    go : (o : Ordering) (m n : ℕ) → Agrees o m n → o ≡ compare m n
    go Ordering.lt m n h = ground arith
    go Ordering.eq m n h = ground arith
    go Ordering.gt m n h = ground arith

-- For canonical amounts, isAtomicAtMost is the order of their numbers.
pub is_atomic_at_most_iff :
    (s t : Text)
    → canonical_atomic s ≡ true
    → canonical_atomic t ≡ true
    → (is_atomic_at_most s t ≡ true) ↔ (value s ≤ value t)
unfolding is_atomic_at_most
is_atomic_at_most_iff s t p q = ground (arith, compare_atomic-Agrees s t p q)

-- The number of a text read from its last digit on.
low : (ℕ → ℕ) → List ℕ → ℕ
low f [] = 0
low f (c ∷ t) = f c + 10 * low f t

scale-concat : (s : Text) (c : ℕ) → scale (length (s ++ c ∷ [])) ≡ 10 * scale (length s)
scale-concat [] c = refl
scale-concat (x ∷ s) c = omega (arith, scale-concat s c)

value-concat : (s : Text) (c : ℕ) → value (s ++ c ∷ []) ≡ 10 * value s + digit_of c
unfolding value
value-concat [] c = omega arith
value-concat (x ∷ s) c =
    omega (arith, value-concat s c, ap (λ (n : ℕ). digit_of x * n) (scale-concat s c))

value-reverse : (t : Text) → value (reverse t) ≡ low digit_of t
unfolding low value
value-reverse [] = refl
value-reverse (c ∷ t) =
    rw (reverse-cons c t, value-concat (reverse t) c, value-reverse t) (omega arith)

low-char_of : (ds : List ℕ) → low digit_of (map char_of ds) ≡ low (λ d. d) ds
unfolding low
low-char_of [] = refl
low-char_of (d ∷ ds) = omega (arith, low-char_of ds)

map-reverse : (f : ℕ → ℕ) (xs : List ℕ) → map f (reverse xs) ≡ reverse (map f xs)
map-reverse f [] = refl
map-reverse f (x ∷ xs) =
    rw (reverse-cons x xs, map-append f (reverse xs) (x ∷ []), map-reverse f xs)
      (sym (reverse-cons (f x) (map f xs)))

-- Digit by digit the loop subtracts, if the borrow can be paid in the end.
subtract_loop_lem :
    (left right : Text) (borrow : ℕ)
    → IsDecimal left
    → IsDecimal right
    → borrow ≤ 1
    → length right ≤ length left
    → low digit_of right + borrow ≤ low digit_of left
    → low (λ d. d) (subtract_loop left right borrow) + low digit_of right + borrow
      ≡ low digit_of left
unfolding subtract_loop low
subtract_loop_lem [] [] b p q h k e = omega arith
subtract_loop_lem [] (d ∷ right) b p q h k e = absurd (omega arith)
subtract_loop_lem (c ∷ left) [] b p q h k e =
    ground
      (arith, IsDecimal-cons c left p, subtract_loop_lem left [] 1, subtract_loop_lem left [] 0)
subtract_loop_lem (c ∷ left) (d ∷ right) b p q h k e = ground (
  arith,
  IsDecimal-cons c left p,
  IsDecimal-cons d right q,
  subtract_loop_lem left right 1,
  subtract_loop_lem left right 0,
)

subtract_loop-IsDecimal :
    (left right : Text) (borrow : ℕ)
    → IsDecimal left
    → IsDecimal right
    → borrow ≤ 1
    → IsDecimal (map char_of (subtract_loop left right borrow))
unfolding subtract_loop
subtract_loop-IsDecimal [] right b p q h = refl
subtract_loop-IsDecimal (c ∷ left) [] b p q h =
    ground (arith, subtract_loop-IsDecimal left [] 1, subtract_loop-IsDecimal left [] 0)
subtract_loop-IsDecimal (c ∷ left) (d ∷ right) b p q h =
    ground (arith, subtract_loop-IsDecimal left right 1, subtract_loop-IsDecimal left right 0)

length-subtract_loop :
    (left right : Text) (borrow : ℕ) → length (subtract_loop left right borrow) ≡ length left
unfolding subtract_loop
length-subtract_loop [] right b = refl
length-subtract_loop (c ∷ left) [] b =
    ground (arith, length-subtract_loop left [] 1, length-subtract_loop left [] 0)
length-subtract_loop (c ∷ left) (d ∷ right) b =
    ground (arith, length-subtract_loop left right 1, length-subtract_loop left right 0)

IsDecimal-append : (s t : Text) → IsDecimal s → IsDecimal t → IsDecimal (s ++ t)
IsDecimal-append [] t p q = q
IsDecimal-append (c ∷ s) t p q = ground (arith, IsDecimal-append s t)

IsDecimal-reverse : (t : Text) → IsDecimal t → IsDecimal (reverse t)
IsDecimal-reverse [] p = refl
IsDecimal-reverse (c ∷ t) p =
    rw (reverse-cons c t)
      (IsDecimal-append (reverse t) (c ∷ []) (IsDecimal-reverse t (ground arith)) (ground arith))

length-reverse : (t : List ℕ) → length (reverse t) ≡ length t
length-reverse [] = refl
length-reverse (c ∷ t) =
    omega
      (arith, ap length (reverse-cons c t), length-append (reverse t) (c ∷ []), length-reverse t)

length-map : (f : ℕ → ℕ) (t : List ℕ) → length (map f t) ≡ length t
length-map f [] = refl
length-map f (c ∷ t) = ap suc (length-map f t)

value-zero_cons : (c : ℕ) (t : Text) → c ≡ b'0' → value (c ∷ t) ≡ value t
unfolding value
value-zero_cons c t e =
    let none_of : (c - b'0') * scale (length t) ≡ 0 * scale (length t) =
      ap (λ (n : ℕ). (n - b'0') * scale (length t)) e in
    omega arith

value-strip_zeros : (t : Text) → value (strip_zeros t) ≡ value t
unfolding strip_zeros
value-strip_zeros [] = refl
value-strip_zeros (c ∷ []) = refl
value-strip_zeros (c ∷ d ∷ t) = ground (arith, value-strip_zeros (d ∷ t), value-zero_cons c (d ∷ t))

strip_zeros-canonical :
    (t : Text) → IsDecimal t → 1 ≤ length t → canonical_atomic (strip_zeros t) ≡ true
unfolding strip_zeros canonical_atomic
strip_zeros-canonical [] p h = absurd (omega arith)
strip_zeros-canonical (c ∷ []) p h = ground arith
strip_zeros-canonical (c ∷ d ∷ t) p h = ground (arith, strip_zeros-canonical (d ∷ t))

difference : Text → Text → Text
difference left right = map char_of (reverse (subtract_loop (reverse left) (reverse right) 0))

value-low : (t : Text) → value t ≡ low digit_of (reverse t)
value-low t = ap value (sym (reverse-reverse t)) ∙ value-reverse (reverse t)

no_longer :
    (left right : Text)
    → canonical_atomic left ≡ true
    → canonical_atomic right ≡ true
    → value right ≤ value left
    → length (reverse right) ≤ length (reverse left)
no_longer left right p q h =
    ground (arith, length-reverse left, length-reverse right, shorter-lt left right p q)

zero_text : (canonical_atomic (units "0") ≡ true) × (value (units "0") ≡ 0)
unfolding canonical_atomic value
zero_text = (refl, refl)

difference_lem :
    (left right : Text)
    → canonical_atomic left ≡ true
    → canonical_atomic right ≡ true
    → value right ≤ value left
    → (canonical_atomic (strip_zeros (difference left right)) ≡ true)
      × (value (strip_zeros (difference left right)) ≡ value left - value right)
unfolding difference
difference_lem left right p q h =
    let l = IsDecimal-reverse left (canonical_atomic-IsDecimal left p) in
    let r = IsDecimal-reverse right (canonical_atomic-IsDecimal right q) in
    let out = subtract_loop (reverse left) (reverse right) 0 in
    let swap : difference left right ≡ reverse (map char_of out) = map-reverse char_of out in
    let digits : IsDecimal (difference left right) = rw swap (
      IsDecimal-reverse (map char_of out)
        (subtract_loop-IsDecimal (reverse left) (reverse right) 0 l r (omega arith))) in
    let size : length (difference left right) ≡ length left =
      length-map char_of (reverse out)
      ∙ length-reverse out
      ∙ length-subtract_loop (reverse left) (reverse right) 0
      ∙ length-reverse left in
    let read : value (difference left right) ≡ low (λ d. d) out =
      ap value swap ∙ value-reverse (map char_of out) ∙ low-char_of out in
    (
      strip_zeros-canonical (difference left right) digits
          (omega (arith, size, canonical_atomic-nonempty left p)),
      omega (
        arith,
        value-strip_zeros (difference left right),
        read,
        value-low left,
        value-low right,
        subtract_loop_lem (reverse left) (reverse right) 0 l r (omega arith)
            (no_longer left right p q h) (omega (arith, value-low left, value-low right)),
      ),
    )

-- `subtractAtomic` on canonical amounts gives the canonical text of the difference of the
-- numbers, and "0" where the right one is the larger.
pub subtract_atomic_lem :
    (left right : Text)
    → canonical_atomic left ≡ true
    → canonical_atomic right ≡ true
    → (canonical_atomic (subtract_atomic left right) ≡ true)
      × (value (subtract_atomic left right) ≡ value left - value right)
unfolding subtract_atomic difference
subtract_atomic_lem left right p q = elim (Bool-cases (is_atomic_at_most right left)) [
  | inl fits ↦
      rw (fits, subtract_atomic)
        (difference_lem left right p q ((is_atomic_at_most_iff right left q p).0 fits))
  | inr over ↦
      rw (over, subtract_atomic)
        (zero_text.0, ground (arith, zero_text, is_atomic_at_most_iff right left q p))
]
