-- ===== src/Ledger/Again.antt =====
-- packages/budget-ledger/src/ledger.ts: what a reserve request finds in the database that its new
-- reservation has left.
use crip_wallet.Base.{ℕ, ◌≡◌, refl, ap, ◌∙◌, true, List, ◌∷◌, Option, some, leb}
use crip_wallet.Base.Ensures.{ok, Ensures}
use crip_wallet.Schemas.Common.{same_text, same_text_iff}
use crip_wallet.Store.{Db, Budget, IdempotencyRecord, AuditCorrelation, AuditEvent, AuditEventType}
use crip_wallet.Store.Tables.{find, update, find_holds}
use crip_wallet.Store.Tx.{
  control_fence_inactive, idempotency_conflict, no_result, Tx, LedgerError, ◌>>=◌, gets, require,
  or_throw, Holds, bind-Holds, require-Holds, modify-Holds, pure-Holds, insufficient_budget,
  invalid_timestamp, reservation_not_found, budget_binding_mismatch,
}
use crip_wallet.Store.Query.{
  Query, ◌>>=◌ as query_bind, require as query_require, reads, reads-Holds, select, select-Ensures,
  require-Ensures, query-Ensures,
}
use crip_wallet.Store.Funds.{is_budget, is_reservation}
use crip_wallet.Store.Funds.Moves.{find-update}
use crip_wallet.Ledger.{Env, ReserveRequest}
use crip_wallet.Ledger.Auth.{parse_positive_atomic}
use crip_wallet.Ledger.Binding.{
  BindingRow, map_audit_correlation, is_asserted, assert_audit_correlation, is_consistent,
  join_operation, get_reservation, get_reservation_binding_for_reserve,
  lock_reservation_control_fences,
}
use crip_wallet.Ledger.Rows.{set_aside, update_budget}
use crip_wallet.Ledger.Rows.Effects.{with_budget, update_budget_lem}
use crip_wallet.Ledger.Events.Frame.{with_log, write_transition_audit-Holds}
use crip_wallet.Ledger.Reserve.{
  is_record, payload_hash, new_reservation, insert_record, complete_record, replay, reserve_new,
  replay_or_reserve, reserve_budget,
}
use crip_wallet.Ledger.Fences.{Unfenced}
use crip_wallet.Ledger.Reserving.{aside, set_aside-aside, insert_reservation-Holds}

module _ {A B : Type 0} where
  bind_ok :
      (m : Tx A) (k : A → Tx B) (db : Db) {a : A} {w : Db} → m db ≡ ok (a, w) → (m >>= k) db ≡ k a w
  unfolding ◌>>=◌
  bind_ok m k db e = rw (e, ◌>>=◌) refl

  read_ok :
      (q : Query A) (k : A → Tx B) (db : Db) {a : A} → q db ≡ ok a → (reads q >>= k) db ≡ k a db
  unfolding ◌>>=◌ reads
  read_ok q k db e = rw (e, ◌>>=◌, reads) refl

  select_ok :
      (f : Db → Option A) (e : LedgerError) (k : A → Query B) (db : Db) {a : A}
      → f db ≡ some a
      → query_bind (select f e) k db ≡ k a db
  unfolding query_bind select
  select_ok f e k db h = rw (h, query_bind, select) refl

module _ {A B : Type 0} where
  given_ok :
      (o : Option A) (e : LedgerError) (k : A → Tx B) (db : Db) {a : A}
      → o ≡ some a
      → (or_throw o e >>= k) db ≡ k a db
  given_ok o e k db {a} h = bind_ok (or_throw o e) k db (rw (h) refl)

  gets_ok : (f : Db → A) (k : A → Tx B) (db : Db) → (gets f >>= k) db ≡ k (f db) db
  gets_ok f k db = bind_ok (gets f) k db refl

module _ (env : Env) (q : ReserveRequest) (db : Db) (n expires_at : ℕ) (row : BindingRow)
    (parsed : parse_positive_atomic q.amount_atomic db ≡ ok n)
    (dated : q.expires_at ≡ some expires_at)
    (unfenced : lock_reservation_control_fences q.operation_id db ≡ ok tt)
    (bound : get_reservation_binding_for_reserve q.budget_id q.operation_id db ≡ ok row)
    (asserted : is_asserted q.audit (map_audit_correlation q.reservation_id row) ≡ true) where
  -- Past the checks, the record of the key decides.
  pub decided :
      reserve_budget env q db
      ≡ replay_or_reserve env q n expires_at
          (map_audit_correlation q.reservation_id row)
          (find (is_record q.idempotency_key) db.idempotency)
          db
  unfolding reserve_budget
  decided =
      read_ok (parse_positive_atomic q.amount_atomic) _ db parsed
      ∙ (given_ok q.expires_at invalid_timestamp _ db dated
          ∙ (read_ok (lock_reservation_control_fences q.operation_id) _ db unfenced
              ∙ (read_ok (get_reservation_binding_for_reserve q.budget_id q.operation_id) _ db bound
                  ∙ (read_ok
                        (assert_audit_correlation q.audit
                          (map_audit_correlation q.reservation_id row))
                        _ db (rw (asserted) refl)
                      ∙ gets_ok (λ d. find (is_record q.idempotency_key) d.idempotency) _ db))))

-- The record of a key whose reservation is made
abbrev pub completed : Env → ReserveRequest → ℕ → AuditCorrelation → IdempotencyRecord
completed env q t c = record {
  idempotency_key = q.idempotency_key;
  payload_hash = payload_hash env q t;
  intent_id = c.intent_id;
  operation_id = q.operation_id;
  reservation_id = some q.reservation_id;
}

-- The database after a new reservation
abbrev pub reserved_database :
    Env → ReserveRequest → ℕ → ℕ → AuditCorrelation → Budget → Db → List AuditEvent → Db
reserved_database env q t n c b db log =
    let d = with_budget q.budget_id b (insert_record env q t c db) in
    with_log
      (complete_record q (record d { reservations = new_reservation q n t ∷ d.reservations })) log

-- A new reservation is written as a whole.
pub reserve_new-written :
    (env : Env) (q : ReserveRequest) (t n : ℕ) (c : AuditCorrelation) (db : Db) (b : Budget)
    → find (is_budget q.budget_id) db.budgets ≡ some b
    → Holds
        (λ r' w.
          (r' ≡ new_reservation q n t)
          × ((log : List AuditEvent) × (w ≡ reserved_database env q t n c (aside n b) db log)))
        (reserve_new env q n t c db)
unfolding reserve_new
reserve_new-written env q t n c db b at =
    let r = new_reservation q n t in
    modify-Holds _ db (insert_record env q t c) _ (
      let d = insert_record env q t c db in
      reads-Holds _ d (select (λ x. find (is_budget q.budget_id) x.budgets) reservation_not_found) _
        (λ b' got. require-Holds _ d (leb n b'.available) insufficient_budget _ (λ _.
          bind-Holds _ d _ (update_budget q.budget_id (set_aside n)) _
            (update_budget_lem q.budget_id (set_aside n) d at)
            (λ _ v (after, moved, e). insert_reservation-Holds _ r v _ (λ _.
              modify-Holds _ _ (complete_record q) _ (
                write_transition_audit-Holds _ _ env q.audit AuditEventType.reservation_created c _
                  _
                  (λ log. pure-Holds _ _ r (
                    refl,
                    (
                      log,
                      ap
                          (λ (x : Db).
                            with_log
                              (complete_record q (record x { reservations = r ∷ x.reservations }))
                              log)
                          (e ∙ ap (λ y. with_budget q.budget_id y d) (set_aside-aside n b moved)),
                    ),
                  ))))))))

selected :
    {A : Type 0} (f : Db → Option A) (e : LedgerError) (db : Db) {a : A}
    → f db ≡ some a
    → select f e db ≡ ok a
unfolding select
selected f e db h = rw (h, select) refl

read_last : {A : Type 0} (q : Query A) (db : Db) {a : A} → q db ≡ ok a → reads q db ≡ ok (a, db)
unfolding reads
read_last q db e = rw (e, reads) refl

pub same_some : {A : Type 0} {o : Option A} {a b : A} → o ≡ some a → o ≡ some b → a ≡ b
same_some e d = cc

query_ok :
    {A B : Type 0} (q : Query A) (k : A → Query B) (db : Db) {a : A}
    → q db ≡ ok a
    → query_bind q k db ≡ k a db
unfolding query_bind
query_ok q k db e = rw (e, query_bind) refl

module _ (env : Env) (q : ReserveRequest) (t n : ℕ) (c : AuditCorrelation) (db : Db)
    (log : List AuditEvent) where
  abbrev pub after : Budget → Db
  after b = reserved_database env q t n c (aside n b) db log

  budget_again :
      (b : Budget)
      → find (is_budget q.budget_id) db.budgets ≡ some b
      → find (is_budget q.budget_id) (after b).budgets ≡ some (aside n b)
  budget_again b at =
      find-update (is_budget q.budget_id) (λ _. aside n b) db.budgets at
        (find_holds (is_budget q.budget_id) db.budgets at)

  join_again :
      Ensures
        (λ row.
          (find (is_budget q.budget_id) db.budgets ≡ some row.budget)
          × (join_operation q.budget_id q.operation_id (after row.budget)
              ≡ ok (record row { budget = aside n row.budget })))
        (join_operation q.budget_id q.operation_id db)
  unfolding join_operation
  join_again = select-Ensures _ db _ reservation_not_found _ (λ o o_at.
      select-Ensures _ db _ reservation_not_found _ (λ i i_at.
        select-Ensures _ db _ reservation_not_found _ (λ a a_at.
          select-Ensures _ db _ reservation_not_found _ (λ w w_at.
            select-Ensures _ db _ reservation_not_found _ (λ p p_at.
              select-Ensures _ db _ reservation_not_found _ (λ b b_at. (
                b_at,
                select_ok _ reservation_not_found _ (after b) o_at
                    ∙ (select_ok _ reservation_not_found _ (after b) i_at
                        ∙ (select_ok _ reservation_not_found _ (after b) a_at
                            ∙ (select_ok _ reservation_not_found _ (after b) w_at
                                ∙ (select_ok _ reservation_not_found _ (after b) p_at
                                    ∙ select_ok (λ d. find (is_budget q.budget_id) d.budgets)
                                        reservation_not_found _ (after b) (budget_again b b_at))))),
              )))))))

  -- The rows that a request is bound to are found again.
  pub bound_again :
      Ensures
        (λ row.
          (find (is_budget q.budget_id) db.budgets ≡ some row.budget)
          × (get_reservation_binding_for_reserve q.budget_id q.operation_id (after row.budget)
              ≡ ok (record row { budget = aside n row.budget })))
        (get_reservation_binding_for_reserve q.budget_id q.operation_id db)
  unfolding get_reservation_binding_for_reserve is_consistent
  bound_again =
      query-Ensures _ db _ (join_operation q.budget_id q.operation_id) _ join_again
        (λ row (found, joined).
          require-Ensures _ db (is_consistent row) budget_binding_mismatch _ (λ consistent. (
            found,
            query_ok (join_operation q.budget_id q.operation_id) _ (after row.budget) joined
                ∙ query_ok (query_require (is_consistent row) budget_binding_mismatch) _
                    (after row.budget) (rw (consistent) refl),
          )))

  -- The fences are as they were.
  pub locked_again :
      (b : Budget)
      → Unfenced q.operation_id db
      → lock_reservation_control_fences q.operation_id (after b) ≡ ok tt
  unfolding lock_reservation_control_fences
  locked_again b u =
      select_ok _ reservation_not_found _ (after b) u.operation_found
      ∙ (select_ok _ reservation_not_found _ (after b) u.agent_found
          ∙ (select_ok _ reservation_not_found _ (after b) u.policy_found
              ∙ (select_ok _ control_fence_inactive _ (after b) u.system_found
                  ∙ (select_ok _ control_fence_inactive _ (after b) u.owner_found
                      ∙ (select_ok _ control_fence_inactive _ (after b) u.agent_fence_found
                          ∙ (select_ok _ control_fence_inactive _ (after b) u.policy_fence_found
                              ∙ rw (u.active) refl))))))

  pub record_again :
      (b : Budget)
      → find (is_record q.idempotency_key) (after b).idempotency ≡ some (completed env q t c)
  unfolding find update
  record_again b =
      let own = (same_text_iff q.idempotency_key q.idempotency_key).1 refl in rw (own, own) refl

  stored_again :
      (b : Budget)
      → reads (get_reservation q.reservation_id) (after b) ≡ ok (new_reservation q n t, after b)
  unfolding get_reservation find
  stored_again b =
      let own = (same_text_iff q.reservation_id q.reservation_id).1 refl in
      let found : find (is_reservation q.reservation_id) (after b).reservations
          ≡ some (new_reservation q n t) =
        rw (own) refl in
      read_last (get_reservation q.reservation_id) (after b) (
        selected (λ d. find (is_reservation q.reservation_id) d.reservations) reservation_not_found
          (after b) found)

  -- The record of the key names the new reservation.
  pub replayed_again :
      (b : Budget)
      → replay_or_reserve env q n t c
          (find (is_record q.idempotency_key) (after b).idempotency)
          (after b)
        ≡ ok (new_reservation q n t, after b)
  unfolding replay
  replayed_again b =
      let hash = payload_hash env q t in
      ap (λ i. replay_or_reserve env q n t c i (after b)) (record_again b)
      ∙ (bind_ok (require (same_text hash hash) idempotency_conflict) _ (after b)
            (rw ((same_text_iff hash hash).1 refl) refl)
          ∙ (bind_ok (or_throw (some q.reservation_id) no_result) (λ id. reads (get_reservation id))
                (after b) refl
              ∙ stored_again b))
