-- ===== src/Evidence/Unknown.antt =====
-- packages/transaction-pipeline/src/chain-evidence.ts: values of type `unknown`, and the tests
-- isRecord, isHash, isAddress, isHexBytes and isAtomicBigInt as partial readings of them. A
-- property that an object does not have reads as undefined; `other` is every value that no test
-- tells apart, such as a number or a function.
use crip_wallet.Base.{
  suc, ℕ, ◌%◌, Bool, true, false, ◌&&◌, List, [], ◌∷◌, length, ◌==◌, Option, none, some,
  if◌then◌else◌,
}
use crip_wallet.Schemas.Money.{Text}
use crip_wallet.Schemas.Common.{same_text, hex_pattern, evm_hash}
use crip_wallet.Transfer.Decode.{prefixed_hex}

mutual
  pub data Unknown : Type 0 where
    undefined null other : Unknown
    text : Text → Unknown
    boolean : Bool → Unknown
    bigint : ℕ → Unknown
    negative_bigint : ℕ → Unknown
    array : Items → Unknown
    dictionary : Members → Unknown

  pub data Items : Type 0 where
    no_items : Items
    item : Unknown → Items → Items

  pub data Members : Type 0 where
    no_members : Members
    member : Text → Unknown → Members → Members

-- `value.key`
unfoldable pub property : Text → Members → Unknown
property key no_members = undefined
property key (member k v rest) =
    let found = property key rest in if same_text key k then v else found

-- `value === null || value === undefined`
abbrev pub is_missing : Unknown → Bool
is_missing undefined = true
is_missing null = true
is_missing _ = false

infixl 5 ◌>>=◌
abbrev pub ◌>>=◌ : {A B : Type 0} → Option A → (A → Option B) → Option B
none >>= f = none
some a >>= f = f a

-- `isRecord`
abbrev pub as_record : Unknown → Option Members
as_record (dictionary m) = some m
as_record _ = none

-- `Array.isArray`
abbrev pub as_array : Unknown → Option Items
as_array (array xs) = some xs
as_array _ = none

-- `typeof value === "string"`
abbrev pub as_text : Unknown → Option Text
as_text (text t) = some t
as_text _ = none

-- `isAtomicBigInt`
abbrev pub as_atomic : Unknown → Option ℕ
as_atomic (bigint n) = some n
as_atomic _ = none

-- `typeof value === "boolean"`
abbrev pub as_boolean : Unknown → Option Bool
as_boolean (boolean b) = some b
as_boolean _ = none

abbrev matching : (Text → Bool) → Unknown → Option Text
matching p (text t) = if p t then some t else none
matching p _ = none

-- `isHash` and `isTopic`
unfoldable pub as_hash : Unknown → Option Text
as_hash = matching evm_hash

-- /^0x[0-9a-f]{40}$/
abbrev pub address_pattern : Text → Bool
address_pattern = hex_pattern 40

-- `isAddress`
unfoldable pub as_address : Unknown → Option Text
as_address = matching address_pattern

-- /^0x(?:[0-9a-f]{2})*$/
abbrev pub hex_bytes_pattern : Text → Bool
hex_bytes_pattern t = prefixed_hex t && length t % 2 == 0

-- `isHexBytes`
unfoldable pub as_hex_bytes : Unknown → Option Text
as_hex_bytes = matching hex_bytes_pattern

-- `accessList.length`
abbrev pub count_items : Items → ℕ
count_items no_items = 0
count_items (item x xs) = suc (count_items xs)

-- `value.topics.every(isTopic)`
unfoldable pub as_topics : Items → Option (List Text)
as_topics no_items = some []
as_topics (item x xs) = do topic ← as_hash x; topics ← as_topics xs; some (topic ∷ topics)
