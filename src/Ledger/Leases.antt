-- ===== src/Ledger/Leases.antt =====
-- packages/budget-ledger/src/ledger.ts: the recovery lease, who may take it and what its owner may
-- resolve.
use crip_wallet.Base.{
  ℕ, ◌+◌, ◌*◌, ◌≤◌, ◌<◌, ◌≡◌, ◌⊎◌, inl, inr, refl, sym, subst, true, false, not, ◌&&◌, Option, none,
  some, arith, leb, ltb,
}
use crip_wallet.Base.Ensures.{Ensures-ok}
use crip_wallet.Schemas.Money.{Text}
use crip_wallet.Schemas.Common.{same_text, same_text_iff}
use crip_wallet.Store.{
  Budget, Reservation, Db, AuthenticatedComponent, AuditEventType, AuditCorrelation, ComponentRole,
  Lease, LeaseState, RecoveryAttempt, BroadcastEvidenceRow,
}
use crip_wallet.Store.Tables.{find, update}
use crip_wallet.Store.Tx.{
  Holds, require-Holds, pure-Holds, gets-Holds, modify-Holds, or_throw-Holds, weaken-Holds,
  recovery_lease_stale, recovery_lease_held, budget_binding_mismatch, recovery_conflict,
  invalid_broadcast_evidence,
}
use crip_wallet.Store.Query.{reads-Holds}
use crip_wallet.Store.Funds.{funds}
use crip_wallet.Store.Funds.Moves.{find-update}
use crip_wallet.TrustBoundary.{claim_payload}
use crip_wallet.Ledger.{Env, RecoveryClaimRequest, RecoveryLease, RecoveryResolution}
use crip_wallet.Ledger.Auth.{authenticate_component}
use crip_wallet.Ledger.Authenticated.{Authenticated, authenticate_component-Authenticated}
use crip_wallet.Ledger.Binding.{get_reservation_for_update, is_evidence}
use crip_wallet.Ledger.Binding.Found.{Found, get_reservation_for_update-Found}
use crip_wallet.Ledger.Events.Frame.{write_recovery_audit-Holds}
use crip_wallet.Ledger.Outcomes.{Current, current, Touched}
use crip_wallet.Ledger.Lease.{
  is_active_lease, is_lease, is_taken, next_version, put_lease, claim_recovery_lease,
}
use crip_wallet.Ledger.Recovery.{
  is_attempt, is_same_attempt, owns_lease, recovery_payload, parse_spend, replay_or_resolve,
  resolve_new, resolve_recovery,
}
use crip_wallet.Ledger.Recovering.{Resolved, resolve_new-Holds}

-- The live lease of an operation that a component owns and a resolution names
pub record Owned (now : ℕ) (input : RecoveryResolution) (a : AuthenticatedComponent) (db : Db)
    : Type 0 where
  pub lease : Lease
  pub found : find (is_lease input.operation_id) db.leases ≡ some lease
  pub same_reservation : lease.reservation_id ≡ input.reservation_id
  pub own : lease.credential_id ≡ a.credential_id
  pub same_version : lease.lease_version ≡ input.lease_version
  pub active : lease.lease_state ≡ LeaseState.active
  pub live : now < lease.lease_expires_at

active_lease_sound : (s : LeaseState) → is_active_lease s ≡ true → s ≡ LeaseState.active
active_lease_sound s e = ground arith

owns_lease-Owned :
    (now : ℕ) (input : RecoveryResolution) (a : AuthenticatedComponent) (db : Db) (l : Lease)
    → find (is_lease input.operation_id) db.leases ≡ some l
    → owns_lease now input a l ≡ true
    → Owned now input a db
owns_lease-Owned now input a db l found owns = record {
  lease = l;
  found = found;
  same_reservation = (same_text_iff l.reservation_id input.reservation_id).0 (ground arith);
  own = (same_text_iff l.credential_id a.credential_id).0 (ground arith);
  same_version = ground arith;
  active = active_lease_sound l.lease_state (ground arith);
  live = ground arith;
}

-- A resolution by a component is the replay of an attempt on record for the same operation,
-- reservation and signed payload, which changes nothing, or the first one, under a live lease that
-- the component owns.
pub data Recovering (now : ℕ) (input : RecoveryResolution) (a : AuthenticatedComponent) (db w : Db)
    (r r' : Reservation) : Type 0 where
  replayed :
      (prior : RecoveryAttempt)
      → find (is_attempt input.attempt_id) db.attempts ≡ some prior
      → prior.operation_id ≡ input.operation_id
      → prior.reservation_id ≡ input.reservation_id
      → prior.resolution_hash ≡ a.auth_payload_hash
      → r' ≡ r
      → w ≡ db
      → Recovering now input a db w r r'
  recovered :
      find (is_attempt input.attempt_id) db.attempts ≡ none
      → Owned now input a db
      → Resolved input.outcome db w r r'
      → Recovering now input a db w r r'

decide-Holds :
    (env : Env) (now : ℕ) (input : RecoveryResolution) (a : AuthenticatedComponent)
    (spend : Option ℕ) (evidence : Option BroadcastEvidenceRow) (db : Db) (r : Reservation)
    (b : Budget) (c : AuditCorrelation) (prior : Option RecoveryAttempt)
    → Current input.reservation_id db r b
    → find (is_attempt input.attempt_id) db.attempts ≡ prior
    → Holds
        (λ r' w. Recovering now input a db w r r')
        (replay_or_resolve env input a now spend evidence r c prior db)
decide-Holds env now input a spend evidence db r b c (some prior) bound at =
    require-Holds _ db (is_same_attempt input a.auth_payload_hash prior) recovery_conflict _
      (λ same. pure-Holds _ db r (
        replayed prior at ((same_text_iff prior.operation_id input.operation_id).0 (ground arith))
          ((same_text_iff prior.reservation_id input.reservation_id).0 (ground arith))
          ((same_text_iff prior.resolution_hash a.auth_payload_hash).0 (ground arith)) refl refl))
decide-Holds env now input a spend evidence db r b c none bound at =
    weaken-Holds _ db _ (resolve_new env input a now spend evidence r c)
      (resolve_new-Holds env input a db r b c bound now spend evidence)
      (λ r' w (done, (l, found, owns)).
        recovered at (owns_lease-Owned now input a db l found owns) done)

-- A resolution that succeeds is for the reservation named, which is the operation's, by a component
-- with an active reconciler credential whose signature on the resolution verifies. It is the replay
-- of an attempt on record with the same signed payload, which changes nothing, or a first attempt
-- under a live lease that this credential owns, in the version named, with a step of the money or,
-- for AMBIGUOUS and CONFLICT alone, the dispute of a reservation that holds nothing any more.
pub resolve_recovery_lem :
    (env : Env) (now : ℕ) (input : RecoveryResolution) (db : Db)
    → Holds
        (Touched input.reservation_id db (λ r b r' w.
          (r.operation_id ≡ input.operation_id)
          × ((a : AuthenticatedComponent) × Authenticated env input.audit.component_auth
                ComponentRole.reconciler
                (recovery_payload input (find (is_evidence input.reservation_id) db.evidence))
                db
                a
              × Recovering now input a db w r r')))
        (resolve_recovery env now input db)
unfolding resolve_recovery
resolve_recovery_lem env now input db =
    reads-Holds _ db (parse_spend input.actual_spend_atomic) _ (λ spend _.
      require-Holds _ db _ invalid_broadcast_evidence _ (λ _.
        reads-Holds _ db (get_reservation_for_update input.reservation_id) _ (λ binding got.
          let found =
            Ensures-ok (Found input.reservation_id db) _
              (get_reservation_for_update-Found input.reservation_id db) got in
          let bound = current found in
          require-Holds _ db (same_text binding.reservation.operation_id input.operation_id)
            budget_binding_mismatch _
            (λ same.
              gets-Holds _ db (λ d. find (is_evidence input.reservation_id) d.evidence) _
                (reads-Holds _ db
                  (authenticate_component env input.audit.component_auth ComponentRole.reconciler
                    (recovery_payload input (find (is_evidence input.reservation_id) db.evidence)))
                  _
                  (λ a authenticated.
                    let signed =
                      Ensures-ok _ _
                        (authenticate_component-Authenticated env input.audit.component_auth
                          ComponentRole.reconciler
                          (recovery_payload input
                            (find (is_evidence input.reservation_id) db.evidence))
                          db)
                        authenticated in
                    gets-Holds _ db (λ d. find (is_attempt input.attempt_id) d.attempts) _
                      (weaken-Holds _ db _
                        (replay_or_resolve env input a now spend
                          (find (is_evidence input.reservation_id) db.evidence) binding.reservation
                          binding.correlation (find (is_attempt input.attempt_id) db.attempts))
                        (decide-Holds env now input a spend
                          (find (is_evidence input.reservation_id) db.evidence) db
                          binding.reservation found.row.budget binding.correlation _ bound refl)
                        (λ r' w h. (
                          binding.reservation,
                          found.row.budget,
                          bound,
                          (
                            (same_text_iff binding.reservation.operation_id input.operation_id).0
                                same,
                            (a, signed, h),
                          ),
                        )))))))))

-- The lease of an operation, if it has one, is not live, and the number is the next version.
pub data Free (now : ℕ) : Option Lease → ℕ → Type 0 where
  unleased : Free now none 1
  expired : (l : Lease) → l.lease_expires_at ≤ now → Free now (some l) (l.lease_version + 1)
  closed :
      (l : Lease) → l.lease_state ≡ LeaseState.resolved → Free now (some l) (l.lease_version + 1)

closed_or_live : (s : LeaseState) → (s ≡ LeaseState.resolved) ⊎ (is_active_lease s ≡ true)
closed_or_live LeaseState.active = inr refl
closed_or_live LeaseState.resolved = inl refl

not_taken-Free :
    (now : ℕ) (old : Option Lease) → is_taken now old ≡ false → Free now old (next_version old)
not_taken-Free now none free = unleased
not_taken-Free now (some l) free = elim (closed_or_live l.lease_state) [
  | inl e ↦ closed l e
  | inr e ↦ expired l (ground (arith, e, free))
]

-- What a claim certifies, and the lease that it leaves.
pub record Claimed (env : Env) (now : ℕ) (input : RecoveryClaimRequest) (db : Db)
    (lease : RecoveryLease) (w : Db) : Type 0 where
  pub seconds : ℕ
  pub given : input.lease_duration_seconds ≡ some seconds
  pub positive : 0 < seconds
  pub bounded : seconds ≤ 300
  pub component : AuthenticatedComponent
  pub signed :
      Authenticated env input.audit.component_auth ComponentRole.reconciler
        (claim_payload input.attempt_id input.operation_id input.reservation_id seconds)
        db
        component
  pub own : lease.credential_id ≡ component.credential_id
  pub free : Free now (find (is_lease input.operation_id) db.leases) lease.lease_version
  pub expiry : lease.lease_expires_at ≡ now + seconds * 1000
  pub kept : funds w ≡ funds db
  pub stored :
      find (is_lease input.operation_id) w.leases
      ≡ some (record {
        operation_id = input.operation_id;
        reservation_id = input.reservation_id;
        credential_id = lease.credential_id;
        lease_version = lease.lease_version;
        lease_expires_at = lease.lease_expires_at;
        lease_state = LeaseState.active;
      })

put-found :
    (id : Text) (l : Lease) (db : Db) (old : Option Lease)
    → l.operation_id ≡ id
    → find (is_lease id) db.leases ≡ old
    → find (is_lease id) (put_lease old l db).leases ≡ some l
unfolding find
put-found id l db none same at = rw ((same_text_iff l.operation_id id).1 same) refl
put-found id l db (some o) same at =
    subst (λ t. find (is_lease id) (update (is_lease t) (λ _. l) db.leases) ≡ some l) (sym same)
      (find-update (is_lease id) (λ _. l) db.leases at ((same_text_iff l.operation_id id).1 same))

put-funds : (old : Option Lease) (l : Lease) (db : Db) → funds (put_lease old l db) ≡ funds db
put-funds none l db = refl
put-funds (some o) l db = refl

-- A successful claim is by a component with an active reconciler credential whose signature on the
-- claim verifies. The operation had no live lease; it now has an active one of that credential, with
-- the next version, for 1 to 300 seconds, and no money has moved.
pub claim_recovery_lease_lem :
    (env : Env) (now : ℕ) (input : RecoveryClaimRequest) (db : Db)
    → Holds (λ lease w. Claimed env now input db lease w) (claim_recovery_lease env now input db)
unfolding claim_recovery_lease
claim_recovery_lease_lem env now input db =
    or_throw-Holds _ db input.lease_duration_seconds recovery_lease_stale _ (λ seconds given.
      require-Holds _ db (ltb 0 seconds && leb seconds 300) recovery_lease_stale _ (λ bounds.
        reads-Holds _ db (get_reservation_for_update input.reservation_id) _ (λ binding _.
          require-Holds _ db (same_text binding.reservation.operation_id input.operation_id)
            budget_binding_mismatch _
            (λ _.
              reads-Holds _ db
                (authenticate_component env input.audit.component_auth ComponentRole.reconciler
                  (claim_payload input.attempt_id input.operation_id input.reservation_id seconds))
                _
                (λ a authenticated.
                  gets-Holds _ db (λ d. find (is_lease input.operation_id) d.leases) _
                    (let old = find (is_lease input.operation_id) db.leases in
                      require-Holds _ db (not (is_taken now old)) recovery_lease_held _ (λ free.
                        require-Holds _ db (leb (next_version old) 9007199254740991)
                          recovery_lease_stale _
                          (λ _. modify-Holds _ db _ _ (
                            write_recovery_audit-Holds _ _ env input.audit
                              AuditEventType.recovery_claimed binding.correlation _ _
                              (λ log. pure-Holds _ _ _ (record {
                                seconds = seconds;
                                given = given;
                                positive = ground arith;
                                bounded = ground arith;
                                component = a;
                                signed =
                                    Ensures-ok _ _
                                      (authenticate_component-Authenticated env
                                        input.audit.component_auth ComponentRole.reconciler
                                        (claim_payload input.attempt_id input.operation_id
                                          input.reservation_id seconds)
                                        db)
                                      authenticated;
                                own = refl;
                                free = not_taken-Free now old (ground arith);
                                expiry = refl;
                                kept = put-funds old _ db;
                                stored = put-found input.operation_id _ db old refl refl;
                              }))
                              a input.attempt_id)))))))))
