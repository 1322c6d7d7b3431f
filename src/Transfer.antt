-- ===== src/Transfer.antt =====
-- packages/transaction-pipeline: the static core of a transfer, from an intent to calldata and back.
pub mod Digits
pub mod Words
pub mod Slices
pub mod Values
pub mod Candidate
pub mod Encoding
pub mod Decode
pub mod Construct
pub mod Verify
pub mod Inverse
pub mod Checks
pub mod Decoding
pub mod Constructing
pub mod Comparing
pub mod Roundtrip
mod Tests
