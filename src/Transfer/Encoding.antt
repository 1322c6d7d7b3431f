-- ===== src/Transfer/Encoding.antt =====
-- The calldata of `transfer(to, amount)` as the application binary interface documents it,
-- which packages/transaction-pipeline/src/construct-transfer.ts takes from its encoder.
use crip_wallet.Base.{ℕ, ◌<◌, ◌^◌, ◌≡◌, true, [], ◌∷◌, ◌++◌, all, length, Option, some, arith}
use crip_wallet.Schemas.Money.{Text, units}
use crip_wallet.Schemas.Common.{is_hex, hex_pattern}
use crip_wallet.Schemas.Intent.{evm_address}
use crip_wallet.Transfer.Slices.{drop, zeros}
use crip_wallet.Transfer.Words.{word}
use crip_wallet.Transfer.Candidate.{transfer_selector}

-- The selector, the address padded on the left to a word, and the amount as a word
unfoldable pub transfer_data : Text → ℕ → Text
transfer_data recipient amount =
    transfer_selector ++ (zeros 24 ++ (drop 2 recipient ++ word 64 amount))

-- The encoder gives that for every lower-case address and every amount below 2^256.
abbrev pub IsAbiEncoder : (Text → ℕ → Option Text) → Type 0
IsAbiEncoder encode =
    (recipient : Text) (amount : ℕ)
    → evm_address recipient ≡ true
    → amount < 2 ^ 256
    → encode recipient amount ≡ some (transfer_data recipient amount)

-- The digits of an address
pub evm_address-digits :
    (t : Text)
    → evm_address t ≡ true
    → (t ≡ units "0x" ++ drop 2 t) × (length (drop 2 t) ≡ 40) × (all is_hex (drop 2 t) ≡ true)
unfolding hex_pattern
evm_address-digits [] h = cc
evm_address-digits (c ∷ []) h = cc
evm_address-digits (c ∷ d ∷ t) h = ground arith

pub digits-evm_address :
    (t : Text) → length t ≡ 40 → all is_hex t ≡ true → evm_address (units "0x" ++ t) ≡ true
unfolding hex_pattern
digits-evm_address t l h = ground arith
