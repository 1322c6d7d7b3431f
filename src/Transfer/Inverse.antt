-- ===== src/Transfer/Inverse.antt =====
-- The decoder of packages/transaction-pipeline/src/decode-transfer.ts inverts the interface's
-- encoding: it accepts the encoded transfers and no other text.
use crip_wallet.Base.{
  if◌then◌else◌, Bool, ℕ, ◌-◌, ◌≤◌, ◌<◌, ◌^◌, ◌≡◌, refl, sym, ap, subst, ◌∙◌, true, false, not, [],
  ◌∷◌, ◌++◌, all, length, length-append, ltb, arith,
}
use crip_wallet.Base.Ensures.{Result, ok, err}
use crip_wallet.Schemas.Money.{Text, units, atomic_unit}
use crip_wallet.Schemas.Money.Decimal.{value}
use crip_wallet.Schemas.Money.Bounds.{atomic_unit_iff}
use crip_wallet.Schemas.Common.{same_text, same_text_iff, is_hex}
use crip_wallet.Schemas.Intent.{evm_address}
use crip_wallet.Transfer.Digits.{decimal, decimal_lem}
use crip_wallet.Transfer.Words.{
  hex_value, word, length-word, hex_scale, word_lem, hex_value-lt, word-hex_value, hex_scale_64,
}
use crip_wallet.Transfer.Slices.{
  take, drop, zeros, zeros_lem, is_zero_digit, take-drop, length-drop, length-take, take_all,
  drop-drop, take-append, drop-append,
}
use crip_wallet.Transfer.Candidate.{DecodedTransfer, transfer_selector}
use crip_wallet.Transfer.Encoding.{transfer_data, evm_address-digits, digits-evm_address}
use crip_wallet.Transfer.Decode.{
  prefixed_hex, is_address_word, is_hex_word, decode_words, decode_text,
}

abbrev decoded_of : Text → Text → DecodedTransfer
decoded_of recipient amount = record {
  selector = transfer_selector;
  recipient = recipient;
  amount_atomic = amount;
}

decode_words_parts :
    (s a w : Text) (d : DecodedTransfer)
    → decode_words s a w ≡ ok d
    → (s ≡ drop 2 transfer_selector)
      × (is_address_word a ≡ true)
      × (is_hex_word w ≡ true)
      × (d ≡ decoded_of (units "0x" ++ drop 24 a) (decimal (hex_value w)))
unfolding decode_words
decode_words_parts s a w d h = ground (arith, same_text_iff s (drop 2 transfer_selector))

same_size : (m n : ℕ) → ltb m n ≡ false → ltb n m ≡ false → m ≡ n
same_size m n h k = ground arith

guards :
    {E A : Type 0} (p q r s : Bool) (e f g i : E) (x : Result E A) {a : A}
    → (if not p
        then err e
        else if not q
        then err f
        else if r
        then err g
        else if s
        then err i
        else x)
      ≡ ok a
    → (p ≡ true) × (q ≡ true) × (r ≡ false) × (s ≡ false) × (x ≡ ok a)
guards p q r s e f g i x h = ground arith

decode_text_parts :
    (t : Text) (d : DecodedTransfer)
    → decode_text t ≡ ok d
    → (prefixed_hex t ≡ true)
      × (length t - 2 ≡ 136)
      × (decode_words (take 8 (drop 2 t)) (take 64 (drop 10 t)) (take 64 (drop 74 t)) ≡ ok d)
unfolding decode_text
decode_text_parts t d h =
    let (shape, even, long, short, rest) = guards _ _ _ _ _ _ _ _ _ h in
    (shape, same_size (length t - 2) 136 long short, rest)

prefix :
    (t : Text)
    → prefixed_hex t ≡ true
    → (t ≡ units "0x" ++ drop 2 t) × (all is_hex (drop 2 t) ≡ true)
unfolding prefixed_hex
prefix [] h = cc
prefix (c ∷ []) h = cc
prefix (c ∷ d ∷ t) h = ground arith

address_parts :
    (a : Text)
    → is_address_word a ≡ true
    → (a ≡ zeros 24 ++ drop 24 a) × (length (drop 24 a) ≡ 40) × (all is_hex (drop 24 a) ≡ true)
unfolding is_address_word
address_parts a h =
    let size : length a ≡ 64 = ground arith in
    let padding : all is_zero_digit (take 24 a) ≡ true = ground arith in
    let zero_part : take 24 a ≡ zeros 24 =
      zeros_lem (take 24 a) padding ∙ ap zeros (length-take 24 a (omega arith)) in
    (
      sym (take-drop 24 a) ∙ ap (λ (z : Text). z ++ drop 24 a) zero_part,
      omega (arith, length-drop 24 a),
      ground arith,
    )

word_parts :
    (w : Text) → is_hex_word w ≡ true → (w ≡ word 64 (hex_value w)) × (hex_value w < 2 ^ 256)
unfolding is_hex_word
word_parts w h =
    let size : length w ≡ 64 = ground arith in
    let hex : all is_hex w ≡ true = ground arith in
    (
      subst (λ k. w ≡ word k (hex_value w)) size (sym (word-hex_value w hex)),
      subst (λ k. hex_value w < k) (ap hex_scale size ∙ hex_scale_64) (hex_value-lt w hex),
    )

-- A text of 136 units is its selector and its two words.
three_parts :
    (t : Text) → length t ≡ 136 → t ≡ take 8 t ++ (take 64 (drop 8 t) ++ take 64 (drop 72 t))
three_parts t h =
    let last : length (drop 72 t) ≤ 64 = omega (arith, length-drop 72 t) in
    let words : drop 8 t ≡ take 64 (drop 8 t) ++ take 64 (drop 72 t) =
      sym (take-drop 64 (drop 8 t))
      ∙ ap (λ (w : Text). take 64 (drop 8 t) ++ w)
          (drop-drop 8 64 t ∙ sym (take_all 64 (drop 72 t) last)) in
    sym (take-drop 8 t) ∙ ap (λ (w : Text). take 8 t ++ w) words

-- Whatever decodes is the encoding of what it decodes to.
pub decode_text_sound :
    (t : Text) (d : DecodedTransfer)
    → decode_text t ≡ ok d
    → (d.selector ≡ transfer_selector)
      × (evm_address d.recipient ≡ true)
      × (atomic_unit d.amount_atomic ≡ true)
      × (t ≡ transfer_data d.recipient (value d.amount_atomic))
unfolding transfer_data
decode_text_sound t d h =
    let (shape, size, words) = decode_text_parts t d h in
    let (start, hex) = prefix t shape in
    let r : Text = drop 2 t in
    let a : Text = take 64 (drop 10 t) in
    let w : Text = take 64 (drop 74 t) in
    let (selector, address, amount, decoded) = decode_words_parts (take 8 r) a w d words in
    let (padded, forty, digits) = address_parts a address in
    let (packed, bound) = word_parts w amount in
    let (canonical, number) = decimal_lem (hex_value w) in
    let parts : r ≡ take 8 r ++ (a ++ w) =
      three_parts r (omega (arith, length-drop 2 t))
      ∙ ap (λ (u : Text). take 8 r ++ (take 64 u ++ take 64 (drop 72 r))) (drop-drop 2 8 t)
      ∙ ap (λ (u : Text). take 8 r ++ (a ++ take 64 u)) (drop-drop 2 72 t) in
    subst
      (λ (e : DecodedTransfer).
        (e.selector ≡ transfer_selector)
        × (evm_address e.recipient ≡ true)
        × (atomic_unit e.amount_atomic ≡ true)
        × (t ≡ transfer_data e.recipient (value e.amount_atomic)))
      (sym decoded)
      (
        refl,
        digits-evm_address (drop 24 a) forty digits,
        (atomic_unit_iff (decimal (hex_value w))).1 (canonical, omega (arith, number, bound)),
        start
            ∙ ap (λ (u : Text). units "0x" ++ u) parts
            ∙ ap (λ (u : Text). units "0x" ++ (u ++ (a ++ w))) selector
            ∙ ap (λ (u : Text). transfer_selector ++ (u ++ w)) padded
            ∙ ap (λ (u : Text). transfer_selector ++ ((zeros 24 ++ drop 24 a) ++ u)) packed
            ∙ ap (λ (n : ℕ). transfer_selector ++ ((zeros 24 ++ drop 24 a) ++ word 64 n))
                (sym number),
      )

all-append : (s t : Text) → all is_hex s ≡ true → all is_hex t ≡ true → all is_hex (s ++ t) ≡ true
all-append [] t h k = k
all-append (c ∷ s) t h k = ground (arith, all-append s t)

decode_words_ok :
    (a w : Text)
    → is_address_word a ≡ true
    → is_hex_word w ≡ true
    → decode_words (drop 2 transfer_selector) a w
      ≡ ok (decoded_of (units "0x" ++ drop 24 a) (decimal (hex_value w)))
unfolding decode_words same_text
decode_words_ok a w h k = rw (h, k) refl

decode_text_ok :
    (t s a w : Text)
    → prefixed_hex t ≡ true
    → length t ≡ 138
    → take 8 (drop 2 t) ≡ s
    → take 64 (drop 10 t) ≡ a
    → take 64 (drop 74 t) ≡ w
    → decode_text t ≡ decode_words s a w
unfolding decode_text
decode_text_ok t s a w h l e f g = rw (h, l, e, f, g) refl

is_address_word-padded :
    (h : Text) → length h ≡ 40 → all is_hex h ≡ true → is_address_word (zeros 24 ++ h) ≡ true
unfolding is_address_word
is_address_word-padded h l x = rw (l, x) refl

is_hex_word-word : (n : ℕ) → n < 2 ^ 256 → is_hex_word (word 64 n) ≡ true
unfolding is_hex_word
is_hex_word-word n h = rw (length-word 64 n, (word_lem 64 n (omega (arith, hex_scale_64))).0) refl

-- An encoded transfer decodes to its address and amount.
pub decode_text-transfer_data :
    (r : Text) (n : ℕ)
    → evm_address r ≡ true
    → n < 2 ^ 256
    → decode_text (transfer_data r n) ≡ ok (decoded_of r (decimal n))
unfolding transfer_data prefixed_hex
decode_text-transfer_data r n h b =
    let (start, forty, digits) = evm_address-digits r h in
    let w : Text = word 64 n in
    let size : length w ≡ 64 = length-word 64 n in
    let (hex, number) = word_lem 64 n (omega (arith, hex_scale_64)) in
    let total : length (drop 2 r ++ w) ≡ 104 = omega (arith, length-append (drop 2 r) w) in
    decode_text_ok (transfer_data r n) _ (zeros 24 ++ drop 2 r) w
      (all-append (drop 2 r) w digits hex) (omega (arith, total)) refl
      (ap (λ (u : Text). zeros 24 ++ u) (take-append 40 (drop 2 r) w forty))
      (ap (take 64) (drop-append 40 (drop 2 r) w forty) ∙ take_all 64 w (omega (arith, size)))
    ∙ decode_words_ok (zeros 24 ++ drop 2 r) w (is_address_word-padded (drop 2 r) forty digits)
        (is_hex_word-word n b)
    ∙ ap (λ (u : Text). ok (decoded_of u (decimal (hex_value w)))) (sym start)
    ∙ ap (λ (m : ℕ). ok (decoded_of r (decimal m))) number
