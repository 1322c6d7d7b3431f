-- ===== src/Schemas/Money/Decimal.antt =====
-- The number that a decimal text denotes, and what comparing texts says of the numbers.
use Prim.Native.Nat.{compare, Ordering}
use crip_wallet.Base.{
  ℕ, zero, suc, ◌+◌, ◌-◌, ◌*◌, ◌≤◌, ◌<◌, ◌≡◌, ◌⊎◌, inl, inr, true, [], ◌∷◌, all, length, arith,
  refl, ap, ◌∙◌,
}
use crip_wallet.Schemas.Money.{Text, is_digit, then_by, text_compare, canonical_atomic}

-- 10 to the power n
abbrev pub scale : ℕ → ℕ
scale zero = 1
scale (suc n) = 10 * scale n

-- `BigInt(text)`, which is also how PostgreSQL reads `$1::numeric`.
unfoldable pub value : Text → ℕ
value [] = 0
value (c ∷ t) = (c - b'0') * scale (length t) + value t

abbrev pub IsDecimal : Text → Type 0
IsDecimal t = all is_digit t ≡ true

pub scale-pos : (n : ℕ) → 1 ≤ scale n
scale-pos zero = omega arith
scale-pos (suc n) = omega (arith, scale-pos n)

pub scale_mono : (m n : ℕ) → m ≤ n → scale m ≤ scale n
scale_mono zero n h = scale-pos n
scale_mono (suc m) zero h = elim h [ ]
scale_mono (suc m) (suc n) h = omega (arith, scale_mono m n (omega arith))

digit-mul : (c s : ℕ) → is_digit c ≡ true → (c - b'0') * s ≤ 9 * s
digit-mul c s h = let bound : c - b'0' ≤ 9 = ground arith in grind arith

digit_lt-mul : (c d s : ℕ) → is_digit c ≡ true → c < d → (c - b'0') * s + s ≤ (d - b'0') * s
digit_lt-mul c d s h k =
    let bound : (c - b'0') + 1 ≤ d - b'0' = ground arith in
    let product : ((c - b'0') + 1) * s ≤ (d - b'0') * s = grind arith in omega arith

pub IsDecimal-cons : (c : ℕ) (t : Text) → IsDecimal (c ∷ t) → (is_digit c ≡ true) × IsDecimal t
IsDecimal-cons c t h = (ground arith, ground arith)

pub value-lt : (t : Text) → IsDecimal t → value t < scale (length t)
unfolding value
value-lt [] h = omega arith
value-lt (c ∷ t) h =
    let (digit, rest) = IsDecimal-cons c t h in
    omega (arith, digit-mul c (scale (length t)) digit, value-lt t rest)

abbrev pub Agrees : Ordering → ℕ → ℕ → Type 0
Agrees Ordering.lt m n = m < n
Agrees Ordering.eq m n = m ≡ n
Agrees Ordering.gt m n = n < m

compare-cases :
    (a b : ℕ)
    → ((compare a b ≡ Ordering.lt) × (a < b))
      ⊎ ((compare a b ≡ Ordering.eq) × (a ≡ b))
      ⊎ ((compare a b ≡ Ordering.gt) × (b < a))
compare-cases a b = ground arith

Agrees-add : (o : Ordering) (x v w : ℕ) → Agrees o v w → Agrees o (x + v) (x + w)
Agrees-add Ordering.lt x v w h = omega arith
Agrees-add Ordering.eq x v w h = omega arith
Agrees-add Ordering.gt x v w h = omega arith

head_Agrees :
    (c d v w m n : ℕ) (rest : Ordering)
    → m ≡ n
    → is_digit c ≡ true
    → is_digit d ≡ true
    → v < m
    → w < n
    → Agrees rest v w
    → Agrees (then_by (compare c d) rest) ((c - b'0') * m + v) ((d - b'0') * n + w)
head_Agrees c d v w m n rest e p q h k r = elim (compare-cases c d) [
  | inl (o, lt) ↦ rw o (omega (arith, digit_lt-mul c d m p lt, ap (λ (s : ℕ). (d - b'0') * s) e))
  | inr (inl (o, same)) ↦
      let shift : (c - b'0') * m ≡ (d - b'0') * n =
        ap (λ (x : ℕ). (x - b'0') * m) same ∙ ap (λ (s : ℕ). (d - b'0') * s) e in
      rw (o, shift) (Agrees-add rest _ v w r)
  | inr (inr (o, gt)) ↦
      rw o (omega (arith, digit_lt-mul d c n q gt, ap (λ (s : ℕ). (c - b'0') * s) e))
]

-- Of two decimal texts of one length the lexicographic order is the order of the numbers.
pub text_compare-Agrees :
    (s t : Text)
    → IsDecimal s
    → IsDecimal t
    → length s ≡ length t
    → Agrees (text_compare s t) (value s) (value t)
unfolding text_compare value
text_compare-Agrees [] [] p q e = refl
text_compare-Agrees [] (d ∷ t) p q e = absurd (omega arith)
text_compare-Agrees (c ∷ s) [] p q e = absurd (omega arith)
text_compare-Agrees (c ∷ s) (d ∷ t) p q e =
    let (c_digit, s_rest) = IsDecimal-cons c s p in
    let (d_digit, t_rest) = IsDecimal-cons d t q in
    let same : length s ≡ length t = omega arith in
    head_Agrees c d (value s) (value t) (scale (length s)) (scale (length t)) (text_compare s t)
      (ap scale same) c_digit d_digit (value-lt s s_rest) (value-lt t t_rest)
      (text_compare-Agrees s t s_rest t_rest same)

-- A canonical text is decimal, and has no leading zero unless it is "0".
pub canonical_atomic-IsDecimal : (t : Text) → canonical_atomic t ≡ true → IsDecimal t
unfolding canonical_atomic
canonical_atomic-IsDecimal [] h = refl
canonical_atomic-IsDecimal (c ∷ []) h = ground arith
canonical_atomic-IsDecimal (c ∷ d ∷ t) h = ground arith

leading_digit : (c d : ℕ) (t : Text) → canonical_atomic (c ∷ d ∷ t) ≡ true → 1 ≤ c - b'0'
unfolding canonical_atomic
leading_digit c d t h = ground arith

pub canonical_atomic-nonempty : (t : Text) → canonical_atomic t ≡ true → 1 ≤ length t
unfolding canonical_atomic
canonical_atomic-nonempty [] h = cc
canonical_atomic-nonempty (c ∷ t) h = omega arith

-- A canonical text longer than n digits denotes at least 10 to the power n.
pub scale-le-value :
    (t : Text) (n : ℕ) → canonical_atomic t ≡ true → 1 ≤ n → n < length t → scale n ≤ value t
unfolding value
scale-le-value [] n h p k = absurd (omega arith)
scale-le-value (c ∷ []) n h p k = absurd (omega arith)
scale-le-value (c ∷ d ∷ t) n h p k =
    let digit = leading_digit c d t h in
    let product : 1 * scale (length (d ∷ t)) ≤ (c - b'0') * scale (length (d ∷ t)) = grind arith in
    let enough = scale_mono n (length (d ∷ t)) (omega arith) in omega arith

-- Of two canonical texts the shorter denotes the smaller number.
pub shorter-lt :
    (s t : Text)
    → canonical_atomic s ≡ true
    → canonical_atomic t ≡ true
    → length s < length t
    → value s < value t
shorter-lt s t p q h = omega (
  arith,
  value-lt s (canonical_atomic-IsDecimal s p),
  scale-le-value t (length s) q (canonical_atomic-nonempty s p) h,
)
