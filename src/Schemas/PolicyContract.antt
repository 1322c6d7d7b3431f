-- ===== src/Schemas/PolicyContract.antt =====
-- packages/schemas/src/policy.ts: the policy contract. Literal fields are left out, and a
-- timestamp is its number of seconds.
use crip_wallet.Base.{ℕ, ◌^◌, ◌-◌, Bool, true, false, ◌&&◌, List, [], ◌∷◌, all, ltb, leb}
use crip_wallet.Schemas.Money.{Text, atomic_unit, positive_atomic_unit}
use crip_wallet.Schemas.Common.{canonical_identifier}
use crip_wallet.Schemas.Intent.{chain_id, evm_address}
use crip_wallet.Schemas.Grade.{EnforcementGrade}

-- `policyModeSchema`
pub data PolicyMode : Type 0 where
  read_only review_required autonomous_within_policy : PolicyMode

-- `policyStatusSchema`
pub data PolicyStatus : Type 0 where
  draft active superseded revoked : PolicyStatus

-- `actions.allow`
pub data Action : Type 0 where
  wallet_read_state asset_transfer : Action

-- `assetAllowanceSchema`
pub record AssetAllowance : Type 0 where
  pub chain_id : Text
  pub address : Text

pub record Policy : Type 0 where
  pub policy_id : Text
  pub version : ℕ
  pub status : PolicyStatus
  pub agent_id : Text
  pub wallet_id : Text
  pub mode : PolicyMode
  pub not_before : ℕ
  pub expires_at : ℕ
  pub chains : List Text
  pub assets : List AssetAllowance
  pub recipients : List Text
  pub actions : List Action
  pub total_asset_address : Text
  pub total_atomic : Text
  pub per_transaction_atomic : Text
  pub maximum_per_transaction_fee : Text
  pub minimum_budget_grade : EnforcementGrade
  pub minimum_recipient_grade : EnforcementGrade

abbrev nonempty : {A : Type 0} → List A → Bool
nonempty [] = false
nonempty (x ∷ xs) = true

-- `policySchema`
unfoldable pub policy_schema : Policy → Bool
policy_schema p =
    canonical_identifier p.policy_id
    && ((leb 1 p.version && leb p.version (2 ^ 53 - 1))
        && (canonical_identifier p.agent_id
            && (canonical_identifier p.wallet_id
                && (ltb p.not_before p.expires_at
                    && ((nonempty p.chains && all chain_id p.chains)
                        && ((nonempty p.assets
                              && all (λ a. chain_id a.chain_id && evm_address a.address) p.assets)
                            && ((nonempty p.recipients && all evm_address p.recipients)
                                && (nonempty p.actions
                                    && (evm_address p.total_asset_address
                                        && (positive_atomic_unit p.total_atomic
                                            && (positive_atomic_unit p.per_transaction_atomic
                                                && atomic_unit
                                                    p.maximum_per_transaction_fee)))))))))))
