-- ===== src/Ledger/Replaying.antt =====
-- packages/budget-ledger/src/ledger.ts: a reserve request that is repeated, and another one under
-- its key.
use crip_wallet.Base.{
  ℕ, ◌≡◌, ◌≢◌, refl, sym, ap, subst, ◌∙◌, Bool, true, false, List, [], none, some, arith,
}
use crip_wallet.Base.Ensures.{ok, Ensures-ok}
use crip_wallet.Schemas.Money.{Text}
use crip_wallet.Schemas.Common.{same_text, same_text_iff}
use crip_wallet.Store.{Db, Reservation, IdempotencyRecord, AuditEvent}
use crip_wallet.Store.Tables.{find}
use crip_wallet.Store.Tx.{
  IsRefused, refuse, holds_at, idempotency_conflict, no_result, LedgerError, Holds, or_throw-Holds,
  gets-Holds, require-Holds, weaken-Holds, invalid_timestamp,
}
use crip_wallet.Store.Query.{◌>>=◌ as query_bind, require as query_require, reads-Holds}
use crip_wallet.Ledger.{Env, ReserveRequest}
use crip_wallet.Ledger.Auth.{parse_positive_atomic}
use crip_wallet.Ledger.Binding.{
  BindingRow, map_audit_correlation, is_asserted, assert_audit_correlation, get_reservation,
  get_reservation_binding_for_reserve, lock_reservation_control_fences,
}
use crip_wallet.Ledger.Reserve.{
  is_record, payload_hash, new_reservation, replay, reserve_new, replay_or_reserve, reserve_budget,
}
use crip_wallet.Ledger.Fences.{Unfenced, lock-Unfenced}
use crip_wallet.Ledger.Reserving.{
  Reserving, aside, replayed, created, reserve_budget_lem, read_last-Holds,
}
use crip_wallet.Ledger.Again.{
  decided, completed, reserved_database, reserve_new-written, after, bound_again, locked_again,
  record_again, replayed_again, same_some,
}

-- A reserve request succeeds as the replay of its key, which changes nothing, or afresh.
data Accepted (env : Env) (q : ReserveRequest) (db w : Db) (r' : Reservation) : Type 0 where
  unchanged :
      (t : ℕ) (i : IdempotencyRecord)
      → q.expires_at ≡ some t
      → find (is_record q.idempotency_key) db.idempotency ≡ some i
      → i.payload_hash ≡ payload_hash env q t
      → w ≡ db
      → Accepted env q db w r'
  fresh :
      (t n : ℕ) (row : BindingRow) (log : List AuditEvent)
      → parse_positive_atomic q.amount_atomic db ≡ ok n
      → q.expires_at ≡ some t
      → Unfenced q.operation_id db
      → get_reservation_binding_for_reserve q.budget_id q.operation_id db ≡ ok row
      → is_asserted q.audit (map_audit_correlation q.reservation_id row) ≡ true
      → r' ≡ new_reservation q n t
      → w
        ≡ reserved_database env q t n
            (map_audit_correlation q.reservation_id row)
            (aside n row.budget)
            db
            log
      → Accepted env q db w r'

parse_again :
    (text : Text) (db w : Db) {n : ℕ}
    → parse_positive_atomic text db ≡ ok n
    → parse_positive_atomic text w ≡ ok n
unfolding parse_positive_atomic query_bind
parse_again text db w {n} e = ground arith

asserted_again :
    (b : Bool) (e : LedgerError) (db : Db) {u : Unit {0}} → query_require b e db ≡ ok u → b ≡ true
asserted_again true e db h = refl
asserted_again false e db h = cc

unchanged-Holds :
    (hash : Text) (db : Db) (i : IdempotencyRecord)
    → Holds (λ r' w. (i.payload_hash ≡ hash) × (w ≡ db)) (replay hash i db)
unfolding replay
unchanged-Holds hash db i =
    require-Holds _ db (same_text i.payload_hash hash) idempotency_conflict _ (λ same.
      or_throw-Holds _ db i.reservation_id no_result _ (λ id _.
        read_last-Holds _ (get_reservation id) db
          (λ r _. ((same_text_iff i.payload_hash hash).0 same, refl))))

reserve_budget-Accepted :
    (env : Env) (q : ReserveRequest) (db : Db)
    → Holds (λ r' w. Accepted env q db w r') (reserve_budget env q db)
unfolding reserve_budget
reserve_budget-Accepted env q db =
    let P : Reservation → Db → Type 0 = λ r' w. Accepted env q db w r' in
    reads-Holds P db (parse_positive_atomic q.amount_atomic) _ (λ n parsed.
      or_throw-Holds P db q.expires_at invalid_timestamp _ (λ t dated.
        reads-Holds P db (lock_reservation_control_fences q.operation_id) _ (λ _ locked.
          let unfenced =
            Ensures-ok (λ _. Unfenced q.operation_id db) _ (lock-Unfenced q.operation_id db)
              locked in
          reads-Holds P db (get_reservation_binding_for_reserve q.budget_id q.operation_id) _
            (λ row bound.
              let c = map_audit_correlation q.reservation_id row in
              let (found, _) = Ensures-ok _ _ (bound_again env q t n c db []) bound in
              reads-Holds P db (assert_audit_correlation q.audit c) _ (λ _ asserted.
                gets-Holds P db (λ d. find (is_record q.idempotency_key) d.idempotency) _
                  (elim (find (is_record q.idempotency_key) db.idempotency)
                      as (λ i.
                        find (is_record q.idempotency_key) db.idempotency ≡ i
                        → Holds P (replay_or_reserve env q n t c i db)) [
                          | some i ↦ λ at.
                              weaken-Holds P db _ (replay (payload_hash env q t) i)
                                (unchanged-Holds (payload_hash env q t) db i)
                                (λ r' w (same, kept). unchanged t i dated at same kept)
                          | none ↦ λ _.
                              weaken-Holds P db _ (reserve_new env q n t c)
                                (reserve_new-written env q t n c db row.budget found)
                                (λ r' w (new, (log, written)).
                                  fresh t n row log parsed dated unfenced bound
                                    (asserted_again _ _ db asserted) new written)
                        ]
                    refl))))))

-- A reserve request that has succeeded succeeds again, with the same reservation, and the second
-- time changes nothing.
pub reserve_budget-reserve_budget :
    (env : Env) (q : ReserveRequest) (db w : Db) (r' : Reservation)
    → reserve_budget env q db ≡ ok (r', w)
    → reserve_budget env q w ≡ ok (r', w)
unfolding Holds is_asserted
reserve_budget-reserve_budget env q db w r' e = repeat (
    Ensures-ok (λ x. Accepted env q db x.1 x.0) (reserve_budget env q db)
      (reserve_budget-Accepted env q db) e)
  where
    repeat : Accepted env q db w r' → reserve_budget env q w ≡ ok (r', w)
    repeat (unchanged _ _ _ _ _ same) = ap (reserve_budget env q) same ∙ e
    repeat (fresh t n row log parsed dated unfenced bound asserted new written) =
        let c = map_audit_correlation q.reservation_id row in
        let v = after env q t n c db log row.budget in
        let (_, again) = Ensures-ok _ _ (bound_again env q t n c db log) bound in
        subst (λ x. reserve_budget env q x ≡ ok (r', x)) (sym written)
          (subst (λ r. reserve_budget env q v ≡ ok (r, v)) (sym new)
            (decided env q v n t (record row { budget = aside n row.budget })
                (parse_again q.amount_atomic db v parsed) dated
                (locked_again env q t n c db log row.budget unfenced) again asserted
              ∙ replayed_again env q t n c db log row.budget))

-- The record of its key that a successful request leaves
recorded :
    (env : Env) (q : ReserveRequest) (db w : Db) (r' : Reservation)
    → Accepted env q db w r'
    → (t : ℕ) × (i : IdempotencyRecord) × (q.expires_at ≡ some t)
      × (find (is_record q.idempotency_key) w.idempotency ≡ some i)
      × (i.payload_hash ≡ payload_hash env q t)
recorded env q db w r' (unchanged t i dated at same kept) = (
  t,
  i,
  dated,
  subst (λ (x : Db). find (is_record q.idempotency_key) x.idempotency ≡ some i) (sym kept) at,
  same,
)
recorded env q db w r' (fresh t n row log parsed dated unfenced bound asserted new written) =
    let c = map_audit_correlation q.reservation_id row in
    (
      t,
      completed env q t c,
      dated,
      subst
          (λ (x : Db).
            find (is_record q.idempotency_key) x.idempotency ≡ some (completed env q t c))
          (sym written) (record_again env q t n c db log row.budget),
      refl,
    )

-- After a reserve request has succeeded, a request with the same key and another digest is
-- refused, whatever else it asks for.
pub reserve_budget-IsRefused :
    (env : Env) (q p : ReserveRequest) (db w : Db) (r' : Reservation) (t u : ℕ)
    → reserve_budget env q db ≡ ok (r', w)
    → q.expires_at ≡ some t
    → p.expires_at ≡ some u
    → p.idempotency_key ≡ q.idempotency_key
    → payload_hash env p u ≢ payload_hash env q t
    → IsRefused (reserve_budget env p w)
reserve_budget-IsRefused env q p db w r' t u e dated p_dated same_key differs =
    let (s, i, s_at, at, hash) = recorded env q db w r' (
      holds_at (λ x v. Accepted env q db v x) (reserve_budget env q) db
        (reserve_budget-Accepted env q db) e) in
    let found = subst (λ key. find (is_record key) w.idempotency ≡ some i) (sym same_key) at in
    refuse (reserve_budget env p w) (λ x v done.
      let (_, _, (m, m_at, reserving)) =
        holds_at _ (reserve_budget env p) w (reserve_budget_lem env p w) done in
      conflict i x v m found
        (λ h. differs (
          ap (payload_hash env p) (same_some p_dated m_at)
          ∙ (sym h ∙ (hash ∙ ap (payload_hash env q) (same_some s_at dated)))))
        reserving)
  where
    conflict :
        (i : IdempotencyRecord) (x : Reservation) (v : Db) (m : ℕ)
        → find (is_record p.idempotency_key) w.idempotency ≡ some i
        → (i.payload_hash ≡ payload_hash env p m → ⊥)
        → Reserving env p m w v x
        → ⊥
    conflict i x v m found other (replayed j id j_at same _ _ _) =
        other (ap (λ (k : IdempotencyRecord). k.payload_hash) (same_some found j_at) ∙ same)
    conflict i x v m found other (created _ _ none_at _ _ _ _ _ _ _) = cc
