-- ===== src/Ledger/Auth.antt =====
-- packages/budget-ledger/src/ledger.ts: who acts, and what the caller sends (authenticateComponent,
-- parseAtomic, parseBroadcastEvidence).
use crip_wallet.Base.{
  ℕ, Bool, true, false, ◌&&◌, ◌||◌, [], ◌∷◌, all, Option, none, some, ◌==◌, if◌then◌else◌,
}
use crip_wallet.Schemas.Money.{Text, units, atomic_unit, positive_atomic_unit}
use crip_wallet.Schemas.Money.Decimal.{value}
use crip_wallet.Schemas.Common.{same_text, evm_hash, is_identifier_unit}
use crip_wallet.Store.{ComponentRole, CredentialStatus, Credential, AuthenticatedComponent}
use crip_wallet.Store.Tables.{find}
use crip_wallet.Store.Tx.{
  component_authentication_failed, component_not_trusted, invalid_atomic_amount,
  invalid_broadcast_evidence,
}
use crip_wallet.Store.Query.{Query, ◌>>=◌, ◌>>◌, pure, or_throw, require, select}
use crip_wallet.TrustBoundary.{
  AuthPayload, ComponentAuthorization, verify_component_action, component_auth_payload_hash,
}
use crip_wallet.Ledger.{Env, BroadcastEvidence}

abbrev pub same_role : ComponentRole → ComponentRole → Bool
same_role ComponentRole.adapter ComponentRole.adapter = true
same_role ComponentRole.reconciler ComponentRole.reconciler = true
same_role _ _ = false

abbrev pub is_active : CredentialStatus → Bool
is_active CredentialStatus.active = true
is_active CredentialStatus.revoked = false

abbrev pub is_credential : Text → Credential → Bool
is_credential id c = same_text c.credential_id id

-- `authenticateComponent`
unfoldable pub authenticate_component :
    Env → Option ComponentAuthorization → ComponentRole → AuthPayload → Query AuthenticatedComponent
authenticate_component env authorization expected_role payload = do
  a ← or_throw authorization component_authentication_failed
  require (same_role a.role expected_role) component_authentication_failed
  credential ←
      select (λ db. find (is_credential a.credential_id) db.credentials) component_not_trusted
  require (is_active credential.status) component_not_trusted
  require
      (same_text credential.component_id a.component_id
        && (same_role credential.component_role a.role
            && verify_component_action env.crypto a credential.public_key payload))
      component_authentication_failed
  pure (record {
    credential_id = a.credential_id;
    component_id = credential.component_id;
    role = credential.component_role;
    auth_payload_hash = component_auth_payload_hash env.crypto a payload;
    signature = a.signature;
  })

-- `parseAtomic`; the number that the text stands for.
unfoldable pub parse_atomic : Text → Query ℕ
parse_atomic text = do require (atomic_unit text) invalid_atomic_amount; pure (value text)

-- `parseAtomic` of a positive amount
unfoldable pub parse_positive_atomic : Text → Query ℕ
parse_positive_atomic text = do
  require (positive_atomic_unit text) invalid_atomic_amount
  pure (value text)

-- The part of a text after a prefix.
after_prefix : Text → Text → Option Text
after_prefix [] t = some t
after_prefix (c ∷ p) [] = none
after_prefix (c ∷ p) (d ∷ t) = let rest = after_prefix p t in if c == d then rest else none

-- /^receipt:[A-Za-z0-9._:/-]+$/
unfoldable pub receipt_pattern : Text → Bool
unfolding after_prefix
receipt_pattern t = elim (after_prefix (units "receipt:") t) [
  | none ↦ false
  | some [] ↦ false
  | some (c ∷ rest) ↦ all (λ d. is_identifier_unit d || d == b'/') (c ∷ rest)
]

-- `parseBroadcastEvidence`, which gives the nonce back
unfoldable pub parse_broadcast_evidence : BroadcastEvidence → Query ℕ
parse_broadcast_evidence evidence = do
  require (evm_hash evidence.transaction_hash) invalid_broadcast_evidence
  nonce ← parse_atomic evidence.nonce
  require (receipt_pattern evidence.receipt_reference) invalid_broadcast_evidence
  pure nonce
