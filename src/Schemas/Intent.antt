-- ===== src/Schemas/Intent.antt =====
-- packages/schemas/src/intent.ts: the canonical intents. A timestamp is its number of seconds.
use crip_wallet.Base.{
  ℕ, suc, ◌-◌, Bool, true, false, not, ◌&&◌, ◌||◌, [], ◌∷◌, all, length, ◌==◌, leb, ltb, Option,
  none, some, if◌then◌else◌,
}
use crip_wallet.Schemas.Money.{Text, is_digit, is_empty, atomic_unit, positive_atomic_unit}
use crip_wallet.Schemas.Common.{
  within, is_lower, is_alphanumeric, canonical_identifier, hex_pattern,
}

-- The rest of a chain identifier: [-_a-zA-Z0-9]{1,32}
chain_reference : Text → Bool
chain_reference t = within 1 32 t && all (λ c. is_alphanumeric c || (c == b'-' || c == b'_')) t

-- `chainIdSchema`: /^[a-z0-9]{3,8}:[-_a-zA-Z0-9]{1,32}$/, after n units of the namespace.
chain_from : ℕ → Text → Bool
chain_from n [] = false
chain_from n (c ∷ t) =
    if c == b':'
    then (leb 3 n && leb n 8) && chain_reference t
    else (is_digit c || is_lower c) && chain_from (suc n) t

unfoldable pub chain_id : Text → Bool
unfolding chain_from chain_reference
chain_id t = chain_from 0 t

-- `evmAddressSchema`
abbrev pub evm_address : Text → Bool
evm_address = hex_pattern 40

abbrev pub optionally : (Text → Bool) → Option Text → Bool
optionally p none = true
optionally p (some t) = p t

-- (?:\.[0-9]+)?$
decimal_rest : Text → Bool
decimal_rest [] = true
decimal_rest (c ∷ t) = c == b'.' && (not (is_empty t) && all is_digit t)

after_digits : Text → Bool
after_digits [] = true
after_digits (c ∷ t) = if is_digit c then after_digits t else decimal_rest (c ∷ t)

-- `displayHint`: /^(?:0|[1-9][0-9]*)(?:\.[0-9]+)?$/
unfoldable pub display_pattern : Text → Bool
unfolding after_digits decimal_rest
display_pattern [] = false
display_pattern (c ∷ t) = if c == b'0' then decimal_rest t else is_digit c && after_digits t

pub record CommonIntent : Type 0 where
  pub intent_id : Text
  pub idempotency_key : Text
  pub agent_id : Text
  pub wallet_id : Text
  pub chain_id : Text
  pub objective : Text
  pub not_before : ℕ
  pub expires_at : ℕ
  pub external_reference : Option Text

pub record Transfer : Type 0 where
  pub asset_address : Text
  pub symbol_hint : Option Text
  pub decimals_hint : Option ℕ
  pub amount_atomic : Text
  pub display_hint : Option Text
  pub recipient : Text
  pub maximum_network_fee : Text

-- The two members of the discriminated union; literal fields are left out.
pub data Intent : Type 0 where
  read_state : CommonIntent → Intent
  transfer : CommonIntent → Transfer → Intent

abbrev pub common_of : Intent → CommonIntent
common_of (read_state c) = c
common_of (transfer c t) = c

-- `DEFAULT_MAXIMUM_INTENT_LIFETIME_SECONDS`
abbrev pub default_maximum_intent_lifetime_seconds : ℕ
default_maximum_intent_lifetime_seconds = 900

-- `commonIntentShape`
unfoldable pub common_shape : CommonIntent → Bool
common_shape c =
    canonical_identifier c.intent_id
    && (canonical_identifier c.idempotency_key
        && (canonical_identifier c.agent_id
            && (canonical_identifier c.wallet_id
                && (chain_id c.chain_id
                    && (within 1 512 c.objective
                        && optionally (within 1 256) c.external_reference)))))

decimals_hint_shape : Option ℕ → Bool
decimals_hint_shape none = true
decimals_hint_shape (some n) = leb n 255

-- `transferIntentSchema`, without the common shape
unfoldable pub transfer_shape : Transfer → Bool
unfolding decimals_hint_shape
transfer_shape t =
    evm_address t.asset_address
    && (optionally (within 1 32) t.symbol_hint
        && (decimals_hint_shape t.decimals_hint
            && (positive_atomic_unit t.amount_atomic
                && (optionally (λ h. leb (length h) 160 && display_pattern h) t.display_hint
                    && (evm_address t.recipient && atomic_unit t.maximum_network_fee)))))

-- `canonicalIntentBaseSchema` and `createCanonicalIntentSchema`: the order of the window and its
-- greatest length.
unfoldable pub lifetime_shape : ℕ → CommonIntent → Bool
lifetime_shape maximum c =
    ltb c.not_before c.expires_at && leb (c.expires_at - c.not_before) maximum

-- `canonicalIntentSchema`
unfoldable pub canonical_intent : Intent → Bool
canonical_intent (read_state c) =
    common_shape c && lifetime_shape default_maximum_intent_lifetime_seconds c
canonical_intent (transfer c t) =
    common_shape c && (transfer_shape t && lifetime_shape default_maximum_intent_lifetime_seconds c)
