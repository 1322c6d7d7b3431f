-- ===== src/Transfer/Decode.antt =====
-- packages/transaction-pipeline/src/decode-transfer.ts: the decoder of transfer calldata.
use crip_wallet.Base.{
  ℕ, ◌-◌, ◌%◌, Bool, false, not, ◌&&◌, ◌∷◌, ◌++◌, all, length, ◌==◌, ltb, Option, some,
  if◌then◌else◌,
}
use crip_wallet.Base.Ensures.{Result, ok, err}
use crip_wallet.Schemas.Money.{Text, units}
use crip_wallet.Schemas.Common.{same_text, is_hex}
use crip_wallet.Transfer.Slices.{take, drop, is_zero_digit}
use crip_wallet.Transfer.Digits.{decimal}
use crip_wallet.Transfer.Words.{hex_value}
use crip_wallet.Transfer.Values.{text, Value, scalar}
use crip_wallet.Transfer.Candidate.{
  DecodedTransfer, DecodeFailureCode, malformed_hex, invalid_length, trailing_data,
  unknown_selector, non_canonical_address_padding, invalid_uint256, transfer_selector,
}

-- /^0x[0-9a-f]*$/
unfoldable pub prefixed_hex : Text → Bool
prefixed_hex (c ∷ d ∷ t) = c == b'0' && (d == b'x' && all is_hex t)
prefixed_hex _ = false

-- `WORD_HEX_LENGTH`
abbrev pub word_hex_length : ℕ
word_hex_length = 64

-- `TRANSFER_DATA_HEX_LENGTH`
abbrev pub transfer_data_hex_length : ℕ
transfer_data_hex_length = 136

-- /^0{24}[0-9a-f]{40}$/
unfoldable pub is_address_word : Text → Bool
is_address_word t = length t == 64 && (all is_zero_digit (take 24 t) && all is_hex (drop 24 t))

-- /^[0-9a-f]{64}$/
unfoldable pub is_hex_word : Text → Bool
is_hex_word t = length t == 64 && all is_hex t

-- The words after the length test; `BigInt` cannot throw on hexadecimal digits.
unfoldable pub decode_words : Text → Text → Text → Result DecodeFailureCode DecodedTransfer
decode_words selector address_word amount_word =
    if not (same_text selector (drop 2 transfer_selector))
    then err unknown_selector
    else if not (is_address_word address_word)
    then err non_canonical_address_padding
    else if not (is_hex_word amount_word)
    then err invalid_uint256
    else ok record {
      selector = transfer_selector;
      recipient = units "0x" ++ drop 24 address_word;
      amount_atomic = decimal (hex_value amount_word);
    }

-- The decoder on a text
unfoldable pub decode_text : Text → Result DecodeFailureCode DecodedTransfer
decode_text input =
    let data_hex_length = length input - 2 in
    if not (prefixed_hex input)
    then err malformed_hex
    else if not (data_hex_length % 2 == 0)
    then err malformed_hex
    else if ltb data_hex_length transfer_data_hex_length
    then err invalid_length
    else if ltb transfer_data_hex_length data_hex_length
    then err trailing_data
    else decode_words (take 8 (drop 2 input)) (take word_hex_length (drop 10 input))
        (take word_hex_length (drop 74 input))

-- `decodeTransferIndependent`
unfoldable pub decode_transfer_independent : Option Value → Result DecodeFailureCode DecodedTransfer
decode_transfer_independent (some (scalar (text input))) = decode_text input
decode_transfer_independent _ = err malformed_hex
