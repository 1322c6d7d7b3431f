-- ===== src/Ledger/Outcomes.antt =====
-- packages/budget-ledger/src/ledger.ts: what the transitions of a reservation have done when they
-- succeed.
use crip_wallet.Base.{
  ℕ, ◌≤◌, ◌≡◌, ◌≢◌, refl, sym, ap, subst, ◌∙◌, true, Option, some, arith, leb, leb_iff,
}
use crip_wallet.Base.Ensures.{ok, Ensures, Ensures-ok}
use crip_wallet.Schemas.Money.{Text, atomic_unit}
use crip_wallet.Schemas.Common.{same_text, same_text_iff}
use crip_wallet.Store.{
  ReservationStatus, Budget, Reservation, Db, BroadcastEvidenceRow, VerificationStatus,
  AuditCorrelation, AuditEventType,
}
use crip_wallet.Store.ReservationStatus.{broadcast, finalized, released, expired}
use crip_wallet.Store.Tables.{find}
use crip_wallet.Store.Tx.{
  Tx, ◌>>=◌, Holds, if-Holds, require-Holds, bind-Holds, pure-Holds, or_throw-Holds, weaken-Holds,
  invalid_reservation_transition, invalid_timestamp, reservation_not_expired,
  invalid_broadcast_evidence, invalid_atomic_amount,
}
use crip_wallet.Store.Query.{reads, reads-Holds, select-found, require-Ensures}
use crip_wallet.Ledger.Auth.{parse_atomic}
use crip_wallet.Schemas.Money.Decimal.{value}
use crip_wallet.Store.Funds.{is_budget, is_reservation}
use crip_wallet.Ledger.{Env, TransitionInput}
use crip_wallet.Ledger.Binding.{
  ReservationBinding, get_reservation_for_update, assert_audit_correlation, get_broadcast_evidence,
  is_evidence,
}
use crip_wallet.Ledger.Binding.Found.{Found, get_reservation_for_update-Found}
use crip_wallet.Ledger.Rows.{
  set_status, set_finalized, give_back, settle, return_funds, settle_funds,
}
use crip_wallet.Ledger.Rows.Effects.{Paid, return_funds_lem, settle_funds_lem}
use crip_wallet.Ledger.Events.Frame.{with_log, write_transition_audit-Holds}
use crip_wallet.Ledger.Transitions.{
  is_status, is_unsent, is_verified, transition_reservation, close_reservation, release_reservation,
  expire_reservation, finalize_broadcast, finalize_reservation,
}

found_evidence :
    (id : Text) (db : Db) {e : BroadcastEvidenceRow}
    → get_broadcast_evidence id db ≡ ok e
    → find (is_evidence id) db.evidence ≡ some e
unfolding get_broadcast_evidence
found_evidence id db {e} h =
    Ensures-ok (λ a. find (is_evidence id) db.evidence ≡ some a) (get_broadcast_evidence id db)
      (select-found (λ d. find (is_evidence id) d.evidence) invalid_broadcast_evidence db) h

pub parse_atomic-Ensures :
    (text : Text) (db : Db)
    → Ensures (λ n. (atomic_unit text ≡ true) × (value text ≡ n)) (parse_atomic text db)
unfolding parse_atomic
parse_atomic-Ensures text db =
    require-Ensures _ db (atomic_unit text) invalid_atomic_amount _ (λ e. (e, refl))

-- The number of a text that parses.
pub parsed_atomic :
    (text : Text) (db : Db) {n : ℕ}
    → parse_atomic text db ≡ ok n
    → (atomic_unit text ≡ true) × (value text ≡ n)
parsed_atomic text db {n} h =
    Ensures-ok (λ a. (atomic_unit text ≡ true) × (value text ≡ a)) (parse_atomic text db)
      (parse_atomic-Ensures text db) h

pub is_status_sound : (s t : ReservationStatus) → is_status s t ≡ true → s ≡ t
is_status_sound s t e = ground arith

-- A reservation of the database, with its budget.
pub record Current (id : Text) (db : Db) (r : Reservation) (b : Budget) : Type 0 where
  pub named : r.reservation_id ≡ id
  pub reserved : find (is_reservation r.reservation_id) db.reservations ≡ some r
  pub budgeted : find (is_budget r.budget_id) db.budgets ≡ some b

module _ {id : Text} {db : Db} {binding : ReservationBinding} where
  pub current : (f : Found id db binding) → Current id db binding.reservation f.row.budget
  current f = record {
    named = f.named;
    reserved = ap (λ t. find (is_reservation t) db.reservations) f.named ∙ f.reserved;
    budgeted = f.budgeted;
  }

pub transition_reservation-Holds :
    (P : Reservation → Db → Type 0) (input : TransitionInput)
    (transition : Reservation → AuditCorrelation → Tx Reservation) (db : Db)
    → ((r : Reservation) (b : Budget) (c : AuditCorrelation)
        → Current input.reservation_id db r b
        → Holds P (transition r c db))
    → Holds P (transition_reservation input transition db)
unfolding transition_reservation
transition_reservation-Holds P input transition db h =
    reads-Holds P db (get_reservation_for_update input.reservation_id) _ (λ binding e.
      let found =
        Ensures-ok (Found input.reservation_id db)
          (get_reservation_for_update input.reservation_id db)
          (get_reservation_for_update-Found input.reservation_id db) e in
      reads-Holds P db (assert_audit_correlation input.audit binding.correlation) _
        (λ _ _. h binding.reservation found.row.budget binding.correlation (current found)))

-- A reservation that is closed with its amount back in the budget, or was closed already.
pub data Closing (status : ReservationStatus) (db w : Db) (r r' : Reservation) (b : Budget)
    : Type 0 where
  already : r.status ≡ status → r' ≡ r → w ≡ db → Closing status db w r r' b
  closing :
      is_unsent r.status ≡ true
      → r' ≡ set_status status r
      → Paid (give_back r.amount_atomic) (set_status status) r b db w
      → Closing status db w r r' b

-- What the transaction has done to the reservation named.
abbrev pub Touched :
    (id : Text) (db : Db)
    → (Reservation → Budget → Reservation → Db → Type 0)
    → Reservation
    → Db
    → Type 0
Touched id db Q r' w = (r : Reservation) × (b : Budget) × (Current id db r b) × Q r b r' w

close_reservation-Holds :
    (env : Env) (input : TransitionInput) (db : Db) (r : Reservation) (b : Budget)
    (c : AuditCorrelation) (status : ReservationStatus) (event_type : AuditEventType)
    → Current input.reservation_id db r b
    → is_unsent r.status ≡ true
    → Holds
        (λ r' w. Closing status db w r r' b)
        (close_reservation env input r c status event_type db)
unfolding close_reservation
close_reservation-Holds env input db r b c status event_type now unsent =
    bind-Holds _ db _ (return_funds r status) _
      (return_funds_lem r b db now.budgeted now.reserved status)
      (λ _ w p. write_transition_audit-Holds _ w env input.audit event_type c _ _ (λ log.
        pure-Holds _ (with_log w log) _ (
          closing unsent refl (record {
            after = p.after;
            changed = p.changed;
            checked = p.checked;
            result = p.result;
          }))))

-- A release gives the whole amount of an unsent reservation back, once.
pub release_reservation_lem :
    (env : Env) (input : TransitionInput) (db : Db)
    → Holds
        (Touched input.reservation_id db (λ r b r' w. Closing released db w r r' b))
        (release_reservation env input db)
unfolding release_reservation
release_reservation_lem env input db = transition_reservation-Holds _ input _ db (λ r b c now.
    if-Holds _ db (is_status r.status released) _ _
      (λ e. pure-Holds _ db r (r, b, now, already (is_status_sound r.status released e) refl refl))
      (λ _. require-Holds _ db (is_unsent r.status) invalid_reservation_transition _ (λ unsent.
        weaken-Holds _ db _
          (close_reservation env input r c released AuditEventType.reservation_released)
          (close_reservation-Holds env input db r b c released AuditEventType.reservation_released
            now unsent)
          (λ r' w h. (r, b, now, h)))))

-- An expiry does the same, and not before the reservation's time.
pub expire_reservation_lem :
    (env : Env) (input : TransitionInput) (time : Option ℕ) (db : Db)
    → Holds
        (Touched input.reservation_id db (λ r b r' w.
          Closing expired db w r r' b
          × (r.status ≢ expired → (now : ℕ) × (time ≡ some now) × (r.expires_at ≤ now))))
        (expire_reservation env input time db)
unfolding expire_reservation
expire_reservation_lem env input time db = transition_reservation-Holds _ input _ db (λ r b c bound.
    if-Holds _ db (is_status r.status expired) _ _
      (λ e.
        let same = is_status_sound r.status expired e in
        pure-Holds _ db r
          (r, b, bound, (already same refl refl, λ different. absurd (different same))))
      (λ _. require-Holds _ db (is_unsent r.status) invalid_reservation_transition _ (λ unsent.
        or_throw-Holds _ db time invalid_timestamp _ (λ now at.
          require-Holds _ db (leb r.expires_at now) reservation_not_expired _ (λ due.
            weaken-Holds _ db _
              (close_reservation env input r c expired AuditEventType.reservation_expired)
              (close_reservation-Holds env input db r b c expired AuditEventType.reservation_expired
                bound unsent)
              (λ r' w h. (r, b, bound, (h, λ _. (now, at, (leb_iff r.expires_at now).0 due)))))))))

-- A reservation that is finalized with its spend paid, or was finalized already.
pub data Finalizing (spend : ℕ) (proof : Text) (db w : Db) (r r' : Reservation) (b : Budget)
    : Type 0 where
  already : r.status ≡ finalized → r' ≡ r → w ≡ db → Finalizing spend proof db w r r' b
  finalizing :
      (e : BroadcastEvidenceRow)
      → r.status ≡ broadcast
      → find (is_evidence r.reservation_id) db.evidence ≡ some e
      → e.verification_status ≡ VerificationStatus.verified
      → e.receipt_reference ≡ proof
      → spend ≤ r.amount_atomic
      → r' ≡ set_finalized spend (some proof) r
      → Paid (settle r.amount_atomic spend) (set_finalized spend (some proof)) r b db w
      → Finalizing spend proof db w r r' b

pub is_verified_sound :
    (s : VerificationStatus) → is_verified s ≡ true → s ≡ VerificationStatus.verified
is_verified_sound s e = ground arith

pub get_broadcast_evidence-Holds :
    {B : Type 0} (P : B → Db → Type 0) (id : Text) (db : Db) (k : BroadcastEvidenceRow → Tx B)
    → ((e : BroadcastEvidenceRow) → find (is_evidence id) db.evidence ≡ some e → Holds P (k e db))
    → Holds P ((reads (get_broadcast_evidence id) >>= k) db)
get_broadcast_evidence-Holds P id db k h =
    reads-Holds P db (get_broadcast_evidence id) k (λ e got. h e (found_evidence id db got))

finalize_broadcast-Holds :
    (env : Env) (input : TransitionInput) (db : Db) (spend : ℕ) (proof : Text) (r : Reservation)
    (b : Budget) (c : AuditCorrelation)
    → Current input.reservation_id db r b
    → Holds
        (λ r' w. Finalizing spend proof db w r r' b)
        (finalize_broadcast env input spend proof r c db)
unfolding finalize_broadcast
finalize_broadcast-Holds env input db spend proof r b c now =
    require-Holds _ db (is_status r.status broadcast) invalid_reservation_transition _ (λ sent.
      get_broadcast_evidence-Holds _ r.reservation_id db _ (λ e found.
        require-Holds _ db (is_verified e.verification_status) invalid_broadcast_evidence _
          (λ verified.
            require-Holds _ db (same_text proof e.receipt_reference) invalid_broadcast_evidence _
              (λ matching.
                require-Holds _ db (leb spend r.amount_atomic) invalid_atomic_amount _ (λ enough.
                  bind-Holds _ db _ (settle_funds r spend (some proof)) _
                    (settle_funds_lem r b db now.budgeted now.reserved spend (some proof))
                    (λ _ w p.
                      write_transition_audit-Holds _ w env input.audit
                        AuditEventType.reservation_finalized c _ _
                        (λ log. pure-Holds _ (with_log w log) _ (
                          finalizing e (is_status_sound r.status broadcast sent) found
                            (is_verified_sound e.verification_status verified)
                            (sym ((same_text_iff proof e.receipt_reference).0 matching))
                            ((leb_iff spend r.amount_atomic).0 enough) refl
                            (record {
                              after = p.after;
                              changed = p.changed;
                              checked = p.checked;
                              result = p.result;
                            })))))))))

-- A finalization pays the spend that the text stands for, at most the amount reserved, and only
-- with verified evidence of the same receipt.
pub finalize_reservation_lem :
    (env : Env) (input : TransitionInput) (actual_spend proof : Text) (db : Db)
    → Holds
        (λ r' w.
          (atomic_unit actual_spend ≡ true)
          × Touched input.reservation_id db
              (λ r b r'' w'. Finalizing (value actual_spend) proof db w' r r'' b)
              r'
              w)
        (finalize_reservation env input actual_spend proof db)
unfolding finalize_reservation
finalize_reservation_lem env input actual_spend proof db =
    reads-Holds _ db (parse_atomic actual_spend) _ (λ spend parsed.
      let (valid, number) = parsed_atomic actual_spend db parsed in
      transition_reservation-Holds _ input _ db (λ r b c now.
        if-Holds _ db (is_status r.status finalized) _ _
          (λ e.
            pure-Holds _ db r
              (valid, (r, b, now, already (is_status_sound r.status finalized e) refl refl)))
          (λ _.
            weaken-Holds _ db _ (finalize_broadcast env input spend proof r c)
              (finalize_broadcast-Holds env input db spend proof r b c now)
              (λ r' w h.
                (valid, (r, b, now, subst (λ n. Finalizing n proof db w r r' b) (sym number) h))))))
