-- ===== src/Schemas/Common.antt =====
-- packages/schemas/src/common.ts: the textual formats that several contracts share.
use crip_wallet.Base.{
  ℕ, ◌≡◌, ◌↔◌, Bool, true, false, ◌&&◌, ◌||◌, List, [], ◌∷◌, all, any, length, ◌==◌, leb, arith,
}
use crip_wallet.Schemas.Money.{Text, is_digit}

-- `left === right` on strings
unfoldable pub same_text : Text → Text → Bool
same_text [] [] = true
same_text (c ∷ s) (d ∷ t) = c == d && same_text s t
same_text _ _ = false

pub same_text_iff : (s t : Text) → (same_text s t ≡ true) ↔ (s ≡ t)
unfolding same_text
same_text_iff [] [] = ground arith
same_text_iff [] (d ∷ t) = ground arith
same_text_iff (c ∷ s) [] = ground arith
same_text_iff (c ∷ s) (d ∷ t) = ground (arith, same_text_iff s t)

-- `list.includes(value)`
abbrev pub includes_text : List Text → Text → Bool
includes_text list value = any (same_text value) list

abbrev pub within : ℕ → ℕ → Text → Bool
within least most t = leb least (length t) && leb (length t) most

abbrev pub is_lower : ℕ → Bool
is_lower c = leb b'a' c && leb c b'z'

abbrev pub is_upper : ℕ → Bool
is_upper c = leb b'A' c && leb c b'Z'

abbrev pub is_alphanumeric : ℕ → Bool
is_alphanumeric c = is_digit c || (is_lower c || is_upper c)

-- `[0-9a-f]`
abbrev pub is_hex : ℕ → Bool
is_hex c = is_digit c || (leb b'a' c && leb c b'f')

-- `[A-Za-z0-9._:-]`
abbrev pub is_identifier_unit : ℕ → Bool
is_identifier_unit c = is_alphanumeric c || (c == b'.' || (c == b'_' || (c == b':' || c == b'-')))

-- /^[A-Za-z0-9][A-Za-z0-9._:-]*$/
unfoldable pub identifier_pattern : Text → Bool
identifier_pattern [] = false
identifier_pattern (c ∷ t) = is_alphanumeric c && all is_identifier_unit t

-- `canonicalIdentifierSchema`
unfoldable pub canonical_identifier : Text → Bool
canonical_identifier t = within 1 128 t && identifier_pattern t

-- /^0x[0-9a-f]{n}$/
unfoldable pub hex_pattern : ℕ → Text → Bool
hex_pattern n [] = false
hex_pattern n (c ∷ []) = false
hex_pattern n (c ∷ d ∷ t) = c == b'0' && (d == b'x' && (length t == n && all is_hex t))

-- `evmHashSchema`
abbrev pub evm_hash : Text → Bool
evm_hash = hex_pattern 64
