-- ===== src/TrustBoundary.antt =====
-- packages/trust-boundary/src/index.ts: authenticated component actions. The signature scheme
-- and the hash are Node's: parameters.
use crip_wallet.Base.{ℕ, Bool, true, false, ◌&&◌, ◌||◌, [], ◌∷◌, all, ◌==◌, Option}
use crip_wallet.Schemas.Money.{Text}
use crip_wallet.Schemas.Common.{is_alphanumeric, is_identifier_unit}
use crip_wallet.Store.{ComponentRole, RecoveryOutcome}

-- The payloads that the ledger has signed, by the action that they belong to.
pub data AuthPayload : Type 0 where
  -- "broadcast": reservation, transaction hash, nonce, receipt reference
  broadcast_payload : Text → Text → ℕ → Text → AuthPayload
  -- "verify", of the same
  verify_payload : Text → Text → ℕ → Text → AuthPayload
  -- "recovery.claim": attempt, operation, reservation, lease duration in seconds
  claim_payload : Text → Text → Text → ℕ → AuthPayload
  -- "recovery.resolve": attempt, operation, reservation, lease version, outcome, reason, spend,
  -- proof, whether a revert is verified, and of the evidence transaction hash, nonce and receipt
  resolve_payload :
      Text
      → Text
      → Text
      → ℕ
      → RecoveryOutcome
      → Text
      → Option Text
      → Option Text
      → Bool
      → Option (Text × ℕ × Text)
      → AuthPayload

-- `ComponentAuthorization`
pub record ComponentAuthorization : Type 0 where
  pub credential_id : Text
  pub component_id : Text
  pub role : ComponentRole
  pub signature : Text

-- What `canonicalComponentAuthPayload` serialises; a payload determines its action.
pub record Claim : Type 0 where
  pub credential_id : Text
  pub component_id : Text
  pub role : ComponentRole
  pub payload : AuthPayload

-- The functions of node:crypto that the code calls, on the canonical text of a claim.
pub record Crypto : Type 0 where
  -- `verify`, by public key and signature
  pub verify : Text → Claim → Text → Bool
  -- SHA-256
  pub digest : Claim → Text

abbrev nonempty : Text → Bool
nonempty [] = false
nonempty (c ∷ t) = true

-- /^[A-Za-z0-9._:-]+$/
unfoldable pub component_pattern : Text → Bool
component_pattern t = nonempty t && all is_identifier_unit t

-- /^[A-Za-z0-9_-]+$/
unfoldable pub base64url_pattern : Text → Bool
base64url_pattern t = nonempty t && all (λ c. is_alphanumeric c || (c == b'_' || c == b'-')) t

abbrev pub claim_of : ComponentAuthorization → AuthPayload → Claim
claim_of a payload = record {
  credential_id = a.credential_id;
  component_id = a.component_id;
  role = a.role;
  payload = payload;
}

module _ (crypto : Crypto) where
  -- `componentAuthPayloadHash`
  abbrev pub component_auth_payload_hash : ComponentAuthorization → AuthPayload → Text
  component_auth_payload_hash a payload = crypto.digest (claim_of a payload)

  -- `verifyComponentAction`; the role is one of the two by its type.
  unfoldable pub verify_component_action : ComponentAuthorization → Text → AuthPayload → Bool
  verify_component_action a public_key payload =
      component_pattern a.credential_id
      && (component_pattern a.component_id
          && (base64url_pattern a.signature
              && (base64url_pattern public_key
                  && crypto.verify public_key (claim_of a payload) a.signature)))
