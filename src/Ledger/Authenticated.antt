-- ===== src/Ledger/Authenticated.antt =====
-- packages/budget-ledger/src/ledger.ts: what `authenticateComponent` has checked.
use crip_wallet.Base.{◌≡◌, refl, ◌∙◌, true, ◌&&◌, Option, some, arith}
use crip_wallet.Base.Ensures.{Ensures}
use crip_wallet.Schemas.Common.{same_text, same_text_iff}
use crip_wallet.Store.{Db, ComponentRole, CredentialStatus, Credential, AuthenticatedComponent}
use crip_wallet.Store.Tables.{find}
use crip_wallet.Store.Tx.{component_authentication_failed, component_not_trusted}
use crip_wallet.Store.Query.{or_throw-Ensures, require-Ensures, select-Ensures}
use crip_wallet.TrustBoundary.{
  AuthPayload, ComponentAuthorization, verify_component_action, component_auth_payload_hash,
}
use crip_wallet.Ledger.{Env}
use crip_wallet.Ledger.Auth.{same_role, is_active, is_credential, authenticate_component}

-- The component named a credential on record, active and of the role, and its signature on the
-- payload verifies under that credential's key.
pub record Authenticated (env : Env) (authorization : Option ComponentAuthorization)
    (role : ComponentRole) (payload : AuthPayload) (db : Db) (a : AuthenticatedComponent)
    : Type 0 where
  pub claimed : ComponentAuthorization
  pub credential : Credential
  pub given : authorization ≡ some claimed
  pub found : find (is_credential claimed.credential_id) db.credentials ≡ some credential
  pub active : credential.status ≡ CredentialStatus.active
  pub same_component : credential.component_id ≡ claimed.component_id
  pub has_role : credential.component_role ≡ role
  pub verified : verify_component_action env.crypto claimed credential.public_key payload ≡ true
  pub named : a.credential_id ≡ claimed.credential_id
  pub hashed : a.auth_payload_hash ≡ component_auth_payload_hash env.crypto claimed payload

same_role_sound : (r s : ComponentRole) → same_role r s ≡ true → r ≡ s
same_role_sound r s e = ground arith

is_active_sound : (s : CredentialStatus) → is_active s ≡ true → s ≡ CredentialStatus.active
is_active_sound s e = ground arith

pub authenticate_component-Authenticated :
    (env : Env) (authorization : Option ComponentAuthorization) (role : ComponentRole)
    (payload : AuthPayload) (db : Db)
    → Ensures
        (Authenticated env authorization role payload db)
        (authenticate_component env authorization role payload db)
unfolding authenticate_component
authenticate_component-Authenticated env authorization role payload db =
    or_throw-Ensures _ db authorization component_authentication_failed _ (λ claimed given.
      require-Ensures _ db (same_role claimed.role role) component_authentication_failed _ (λ same.
        select-Ensures _ db (λ d. find (is_credential claimed.credential_id) d.credentials)
          component_not_trusted _
          (λ credential found.
            require-Ensures _ db (is_active credential.status) component_not_trusted _ (λ active.
              require-Ensures _ db
                (same_text credential.component_id claimed.component_id
                  && (same_role credential.component_role claimed.role
                      && verify_component_action env.crypto claimed credential.public_key payload))
                component_authentication_failed _
                (λ matches. record {
                  claimed = claimed;
                  credential = credential;
                  given = given;
                  found = found;
                  active = is_active_sound credential.status active;
                  same_component =
                      (same_text_iff credential.component_id claimed.component_id).0 (ground arith);
                  has_role =
                      same_role_sound credential.component_role claimed.role (ground arith)
                      ∙ same_role_sound claimed.role role same;
                  verified = ground arith;
                  named = refl;
                  hashed = refl;
                })))))
