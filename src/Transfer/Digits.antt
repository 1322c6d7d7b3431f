-- ===== src/Transfer/Digits.antt =====
-- The decimal text of a number, as `toString(10)` writes it, against the number that a text denotes.
use Prim.Native.Nat.{Ordering}
use crip_wallet.Base.{
  sym, ap, subst, ℕ, zero, suc, ◌+◌, ◌*◌, ◌/◌, ◌%◌, ◌≤◌, ◌<◌, ◌≡◌, inl, inr, refl, ◌∙◌, true, false,
  [], ◌∷◌, length, ltb, arith, Bool-cases,
}
use crip_wallet.Schemas.Money.{Text, text_compare, canonical_atomic}
use crip_wallet.Schemas.Money.Decimal.{
  scale, value, IsDecimal, text_compare-Agrees, shorter-lt, canonical_atomic-IsDecimal,
}

-- The digits of n in front of a text; each step takes the last digit off, so n steps are enough.
digits : ℕ → ℕ → Text → Text
digits zero n rest = rest
digits (suc fuel) n rest = elim (ltb n 10) [
  | true ↦ (b'0' + n) ∷ rest
  | false ↦ digits fuel (n / 10) ((b'0' + n % 10) ∷ rest)
]

-- `n.toString(10)`
unfoldable pub decimal : ℕ → Text
unfolding digits
decimal n = digits (suc n) n []

digits_last :
    (fuel n : ℕ) (rest : Text) → ltb n 10 ≡ true → digits (suc fuel) n rest ≡ (b'0' + n) ∷ rest
unfolding digits
digits_last fuel n rest h = ground arith

digits_more :
    (fuel n : ℕ) (rest : Text)
    → ltb n 10 ≡ false
    → digits (suc fuel) n rest ≡ digits fuel (n / 10) ((b'0' + n % 10) ∷ rest)
unfolding digits
digits_more fuel n rest h = ground arith

value-cons :
    (d : ℕ) (rest : Text) → value ((b'0' + d) ∷ rest) ≡ d * scale (length rest) + value rest
unfolding value
value-cons d rest = ground arith

distribute : (q r s v : ℕ) → q * (10 * s) + (r * s + v) ≡ (q * 10 + r) * s + v
distribute q r s v = grind arith

regroup : (n s v : ℕ) → n / 10 * (10 * s) + (n % 10 * s + v) ≡ n * s + v
regroup n s v = distribute (n / 10) (n % 10) s v ∙ ap (λ (m : ℕ). m * s + v) (omega arith)

digits-value :
    (fuel n : ℕ) (rest : Text)
    → n < fuel
    → value (digits fuel n rest) ≡ n * scale (length rest) + value rest
digits-value zero n rest h = absurd (omega arith)
digits-value (suc fuel) n rest h = elim (Bool-cases (ltb n 10)) [
  | inl small ↦ ap value (digits_last fuel n rest small) ∙ value-cons n rest
  | inr large ↦
      ap value (digits_more fuel n rest large)
      ∙ digits-value fuel (n / 10) ((b'0' + n % 10) ∷ rest) (ground arith)
      ∙ ap (λ v. n / 10 * (10 * scale (length rest)) + v) (value-cons (n % 10) rest)
      ∙ regroup n (scale (length rest)) (value rest)
]

-- A text of digits that starts with one that is not 0
abbrev IsLed : Text → Type 0
IsLed [] = ⊥
IsLed (c ∷ t) = (b'1' ≤ c) × IsDecimal (c ∷ t)

digits-IsLed :
    (fuel n : ℕ) (rest : Text) → n < fuel → 1 ≤ n → IsDecimal rest → IsLed (digits fuel n rest)
digits-IsLed zero n rest h p d = absurd (omega arith)
digits-IsLed (suc fuel) n rest h p d = elim (Bool-cases (ltb n 10)) [
  | inl small ↦ subst IsLed (sym (digits_last fuel n rest small)) (ground arith, ground arith)
  | inr large ↦ subst IsLed (sym (digits_more fuel n rest large)) (
      digits-IsLed fuel (n / 10) ((b'0' + n % 10) ∷ rest) (ground arith) (ground arith)
        (ground arith))
]

IsLed-canonical : (t : Text) → IsLed t → canonical_atomic t ≡ true
unfolding canonical_atomic
IsLed-canonical [] h = absurd h
IsLed-canonical (c ∷ t) h = ground arith

digits-zero : canonical_atomic (digits 1 0 []) ≡ true
unfolding digits canonical_atomic
digits-zero = refl

value-nil : (n : ℕ) → n * scale (length {A = ℕ} []) + value [] ≡ n
unfolding value
value-nil n = omega arith

-- The decimal text of a number is canonical and denotes the number.
pub decimal_lem : (n : ℕ) → (canonical_atomic (decimal n) ≡ true) × (value (decimal n) ≡ n)
unfolding decimal
decimal_lem zero = (digits-zero, digits-value 1 0 [] (omega arith) ∙ value-nil 0)
decimal_lem (suc n) = (
  IsLed-canonical _ (digits-IsLed (suc (suc n)) (suc n) [] (omega arith) (omega arith) refl),
  digits-value (suc (suc n)) (suc n) [] (omega arith) ∙ value-nil (suc n),
)

text_compare-eq : (s t : Text) → text_compare s t ≡ Ordering.eq → s ≡ t
unfolding text_compare
text_compare-eq [] [] h = refl
text_compare-eq [] (d ∷ t) h = cc
text_compare-eq (c ∷ s) [] h = cc
text_compare-eq (c ∷ s) (d ∷ t) h = ground (arith, text_compare-eq s t)

same_length-value :
    (s t : Text)
    → canonical_atomic s ≡ true
    → canonical_atomic t ≡ true
    → length s ≡ length t
    → value s ≡ value t
    → s ≡ t
same_length-value s t p q l e = ground (
  arith,
  text_compare-eq s t,
  text_compare-Agrees s t (canonical_atomic-IsDecimal s p) (canonical_atomic-IsDecimal t q) l,
)

-- Canonical texts of one number are the same text.
pub canonical_value-injective :
    (s t : Text) → canonical_atomic s ≡ true → canonical_atomic t ≡ true → value s ≡ value t → s ≡ t
canonical_value-injective s t p q e =
    same_length-value s t p q (ground (arith, shorter-lt s t p q, shorter-lt t s q p)) e

pub decimal-value : (t : Text) → canonical_atomic t ≡ true → decimal (value t) ≡ t
decimal-value t h =
    canonical_value-injective (decimal (value t)) t (decimal_lem (value t)).0 h
      (decimal_lem (value t)).1
