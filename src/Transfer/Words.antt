-- ===== src/Transfer/Words.antt =====
-- Hexadecimal words of a fixed width, as the application binary interface packs them.
use crip_wallet.Base.{
  ℕ, zero, suc, ◌+◌, ◌-◌, ◌*◌, ◌/◌, ◌%◌, ◌≤◌, ◌<◌, ◌^◌, ◌≡◌, refl, true, [], ◌∷◌, all, length, ltb,
  if◌then◌else◌, arith,
}
use crip_wallet.Schemas.Money.{Text, is_digit}
use crip_wallet.Schemas.Common.{is_hex}

-- 16 to the power n
abbrev pub hex_scale : ℕ → ℕ
hex_scale zero = 1
hex_scale (suc n) = 16 * hex_scale n

digit_value : ℕ → ℕ
digit_value c = if is_digit c then c - b'0' else (c - b'a') + 10

hex_digit : ℕ → ℕ
hex_digit d = if ltb d 10 then b'0' + d else b'a' + (d - 10)

-- `BigInt("0x" + text)`
unfoldable pub hex_value : Text → ℕ
unfolding digit_value
hex_value [] = 0
hex_value (c ∷ t) = digit_value c * hex_scale (length t) + hex_value t

-- The last k hexadecimal digits of a number below 16^k
unfoldable pub word : ℕ → ℕ → Text
unfolding hex_digit
word zero n = []
word (suc k) n = hex_digit (n / hex_scale k) ∷ word k (n % hex_scale k)

pub hex_scale-pos : (n : ℕ) → 1 ≤ hex_scale n
hex_scale-pos zero = omega arith
hex_scale-pos (suc n) = omega (arith, hex_scale-pos n)

pub hex_scale_64 : hex_scale 64 ≡ 2 ^ 256
hex_scale_64 = refl

pub length-word : (k n : ℕ) → length (word k n) ≡ k
unfolding word
length-word zero n = refl
length-word (suc k) n = omega (arith, length-word k (n % hex_scale k))

digit_value-lt : (c : ℕ) → is_hex c ≡ true → digit_value c < 16
unfolding digit_value
digit_value-lt c h = ground arith

hex_digit-digit_value : (c : ℕ) → is_hex c ≡ true → hex_digit (digit_value c) ≡ c
unfolding digit_value hex_digit
hex_digit-digit_value c h = ground arith

hex_digit-is_hex : (d : ℕ) → d < 16 → is_hex (hex_digit d) ≡ true
unfolding hex_digit
hex_digit-is_hex d h = ground arith

digit_value-hex_digit : (d : ℕ) → d < 16 → digit_value (hex_digit d) ≡ d
unfolding digit_value hex_digit
digit_value-hex_digit d h = ground arith

div-lt : (n s : ℕ) → 1 ≤ s → n < 16 * s → n / s < 16
div-lt n s p h = grind arith

mod-lt : (n s : ℕ) → 1 ≤ s → n % s < s
mod-lt n s p = grind arith

div_mod : (n s : ℕ) → 1 ≤ s → n / s * s + n % s ≡ n
div_mod n s p = grind arith

mul_add-div : (d v s : ℕ) → v < s → (d * s + v) / s ≡ d
mul_add-div d v s h = grind arith

mul_add-mod : (d v s : ℕ) → v < s → (d * s + v) % s ≡ v
mul_add-mod d v s h = grind arith

-- A word is hexadecimal and denotes its number.
pub word_lem :
    (k n : ℕ) → n < hex_scale k → (all is_hex (word k n) ≡ true) × (hex_value (word k n) ≡ n)
unfolding word hex_value
word_lem zero n h = (refl, omega arith)
word_lem (suc k) n h =
    let positive = hex_scale-pos k in
    let small = div-lt n (hex_scale k) positive h in
    let rest = word_lem k (n % hex_scale k) (mod-lt n (hex_scale k) positive) in
    (
      ground (arith, hex_digit-is_hex (n / hex_scale k) small),
      rw (digit_value-hex_digit (n / hex_scale k) small, length-word k (n % hex_scale k), rest.1)
          (div_mod n (hex_scale k) positive),
    )

pub hex_value-lt : (t : Text) → all is_hex t ≡ true → hex_value t < hex_scale (length t)
unfolding hex_value
hex_value-lt [] h = omega arith
hex_value-lt (c ∷ t) h =
    let rest = hex_value-lt t (ground arith) in
    let digit = digit_value-lt c (ground arith) in
    let product : (digit_value c + 1) * hex_scale (length t) ≤ 16 * hex_scale (length t) =
      grind arith in
    grind arith

-- Hexadecimal digits are the word of the number that they denote.
pub word-hex_value : (t : Text) → all is_hex t ≡ true → word (length t) (hex_value t) ≡ t
unfolding word hex_value
word-hex_value [] h = refl
word-hex_value (c ∷ t) h =
    let rest = hex_value-lt t (ground arith) in
    rw
      (
        mul_add-div (digit_value c) (hex_value t) (hex_scale (length t)) rest,
        mul_add-mod (digit_value c) (hex_value t) (hex_scale (length t)) rest,
        hex_digit-digit_value c (ground arith),
        word-hex_value t (ground arith),
      )
      refl
