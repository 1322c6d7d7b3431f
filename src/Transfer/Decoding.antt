-- ===== src/Transfer/Decoding.antt =====
-- packages/transaction-pipeline/src/decode-transfer.ts: which texts decode, and to what.
use crip_wallet.Base.{◌≡◌, ◌↔◌, refl, sym, ap, ◌∙◌, true, some, arith}
use crip_wallet.Base.Ensures.{ok}
use crip_wallet.Schemas.Money.{Text, atomic_unit}
use crip_wallet.Schemas.Money.Decimal.{value}
use crip_wallet.Schemas.Money.Bounds.{atomic_unit_iff, positive_atomic_unit_sound}
use crip_wallet.Schemas.Intent.{
  CommonIntent, Transfer, transfer, evm_address, canonical_intent, transfer_shape,
}
use crip_wallet.Transfer.Digits.{decimal-value}
use crip_wallet.Transfer.Values.{text, scalar}
use crip_wallet.Transfer.Candidate.{DecodedTransfer, transfer_selector}
use crip_wallet.Transfer.Encoding.{transfer_data}
use crip_wallet.Transfer.Decode.{decode_text, decode_transfer_independent}
use crip_wallet.Transfer.Inverse.{decode_text_sound, decode_text-transfer_data}

-- The decoder gives a transfer for exactly one text: the encoding of the selector, a lower-case
-- address and a canonical amount below 2^256; it then gives that address and that amount.
pub decode_transfer_iff :
    (t : Text) (d : DecodedTransfer)
    → (decode_transfer_independent (some (scalar (text t))) ≡ ok d) ↔ (
        (d.selector ≡ transfer_selector)
        × (evm_address d.recipient ≡ true)
        × (atomic_unit d.amount_atomic ≡ true)
        × (t ≡ transfer_data d.recipient (value d.amount_atomic)))
unfolding decode_transfer_independent
decode_transfer_iff t d = (
  decode_text_sound t d,
  λ (s, r, a, e).
      let (canonical, bound) = (atomic_unit_iff d.amount_atomic).0 a in
      let step : decode_text t ≡ ok _ =
        ap decode_text e ∙ decode_text-transfer_data d.recipient (value d.amount_atomic) r bound in
      ground (arith, step, decimal-value d.amount_atomic canonical),
)

-- Two texts that decode to the same transfer are the same text.
pub decode_transfer-injective :
    (s t : Text) (d : DecodedTransfer)
    → decode_transfer_independent (some (scalar (text s))) ≡ ok d
    → decode_transfer_independent (some (scalar (text t))) ≡ ok d
    → s ≡ t
decode_transfer-injective s t d h k =
    let (_, _, _, e) = (decode_transfer_iff s d).0 h in
    let (_, _, _, f) = (decode_transfer_iff t d).0 k in e ∙ sym f

abbrev pub intended : Transfer → DecodedTransfer
intended t = record {
  selector = transfer_selector;
  recipient = t.recipient;
  amount_atomic = t.amount_atomic;
}

pub intent_texts :
    (c : CommonIntent) (t : Transfer)
    → canonical_intent (transfer c t) ≡ true
    → (evm_address t.recipient ≡ true) × (atomic_unit t.amount_atomic ≡ true)
unfolding canonical_intent transfer_shape
intent_texts c t h = ground (arith, positive_atomic_unit_sound t.amount_atomic)

pub decode-intended :
    (c : CommonIntent) (t : Transfer)
    → canonical_intent (transfer c t) ≡ true
    → decode_transfer_independent
        (some (scalar (text (transfer_data t.recipient (value t.amount_atomic)))))
      ≡ ok (intended t)
decode-intended c t h =
    let (address, amount) = intent_texts c t h in
    (decode_transfer_iff _ (intended t)).1 (refl, address, amount, refl)
