-- ===== src/Control.antt =====
-- packages/approvals/src/control.ts: the fences of the system, owners, agents and policies, the
-- commands that change them, and the probe of an authorization. Row locks have no counterpart.
pub mod Events
pub mod Fences
pub mod Rows
pub mod Statements
pub mod Invalidate
pub mod Change
pub mod Revalidate
pub mod Later
pub mod Frame
pub mod Changing
pub mod Changed
pub mod Revalidated
pub mod Stopped
mod Tests
use crip_wallet.Base.{ℕ, Bool, true, false, Option, none, some}
use crip_wallet.Schemas.Money.{Text}
use crip_wallet.Store.{ControlScopeType, ControlState}
use crip_wallet.Ledger.{AuditContext}

pub data ControlCommand : Type 0 where
  pause resume revoke : ControlCommand

pub record ChangeControlFenceRequest : Type 0 where
  pub scope_type : ControlScopeType
  pub scope_id : Text
  pub command : ControlCommand
  pub audit : AuditContext

pub record ControlFenceResult : Type 0 where
  pub scope_type : ControlScopeType
  pub scope_id : Text
  pub fence_version : ℕ
  pub state : ControlState
  pub changed : Bool

pub record RevalidateAuthorizationRequest : Type 0 where
  pub operation_id : Text
  pub authorization_id : Text
