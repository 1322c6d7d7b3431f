-- ===== src/Ledger/Serializable.antt =====
-- packages/budget-ledger/src/transaction.ts: `withSerializableTransaction`, its retries after
-- serialization failures. Which attempts the database fails is a parameter, and so is the database
-- that each attempt sees, since other transactions commit in between.
use crip_wallet.Base.{
  ℕ, zero, suc, ◌+◌, ◌≤◌, ◌<◌, ◌≡◌, refl, sym, ap, subst, ◌∙◌, Bool, true, false, arith, leb,
  leb_iff, ◌==◌, ==_iff, Bool-cases, inl, inr, if◌then◌else◌,
}
use crip_wallet.Base.Ensures.{ok, err}
use crip_wallet.Store.{Db}
use crip_wallet.Store.Tx.{LedgerError, Tx}

-- How the transaction ends. Without a commit the database is rolled back.
pub data Ending (A : Type 0) : Type 0 where
  committed : A → Db → Ending A
  rolled_back : LedgerError → Ending A
  serialization_failure range_error : Ending A

module _ {A : Type 0} (conflicts : ℕ → Bool) (snapshot : ℕ → Db) (work : Tx A) where
  -- An attempt that the database lets pass.
  abbrev pub attempt_work : ℕ → Ending A
  attempt_work attempt = elim (work (snapshot attempt)) [
    | ok (a, db) ↦ committed a db
    | err e ↦ rolled_back e
  ]

  -- The loop, by the number of retries left and the number of the attempt.
  unfoldable pub attempts : ℕ → ℕ → Ending A
  attempts zero attempt = if conflicts attempt then serialization_failure else attempt_work attempt
  attempts (suc left) attempt =
      let rest = attempts left (suc attempt) in
      if conflicts attempt then rest else attempt_work attempt

  -- `withSerializableTransaction`, of a number of retries that is an integer
  unfoldable pub with_serializable_transaction : ℕ → Ending A
  with_serializable_transaction max_retries =
      if leb max_retries 8 then attempts max_retries 0 else range_error

  attempts-stop :
      (left attempt : ℕ) → conflicts attempt ≡ false → attempts left attempt ≡ attempt_work attempt
  unfolding attempts
  attempts-stop zero attempt free = rw (free) refl
  attempts-stop (suc left) attempt free = rw (free) refl

  attempts-first :
      (left attempt k : ℕ)
      → attempt ≤ k
      → k ≤ attempt + left
      → ((j : ℕ) → attempt ≤ j → j < k → conflicts j ≡ true)
      → conflicts k ≡ false
      → attempts left attempt ≡ attempt_work k
  unfolding attempts
  attempts-first zero attempt k low high before free =
      let same : k ≡ attempt = omega (arith, low, high) in
      subst (λ n. attempts zero attempt ≡ attempt_work n) (sym same)
        (attempts-stop zero attempt (ap conflicts (sym same) ∙ free))
  attempts-first (suc left) attempt k low high before free = elim (Bool-cases (k == attempt)) [
    | inl e ↦
        let same = (==_iff k attempt).0 e in
        subst (λ n. attempts (suc left) attempt ≡ attempt_work n) (sym same)
          (attempts-stop (suc left) attempt (ap conflicts (sym same) ∙ free))
    | inr e ↦
        let above : suc attempt ≤ k = ground (arith, low) in
        rw (before attempt (omega arith) above) (
          attempts-first left (suc attempt) k above (omega (arith, high))
            (λ j l. before j (omega (arith, l))) free)
  ]

  -- The first attempt that meets no serialization failure decides, if it is among the first
  -- `max_retries + 1`: its work is committed, or its error is passed on after a rollback.
  pub with_serializable_transaction-first :
      (max_retries k : ℕ)
      → max_retries ≤ 8
      → k ≤ max_retries
      → ((j : ℕ) → j < k → conflicts j ≡ true)
      → conflicts k ≡ false
      → with_serializable_transaction max_retries ≡ attempt_work k
  unfolding with_serializable_transaction
  with_serializable_transaction-first max_retries k small within before free =
      rw ((leb_iff max_retries 8).1 small) (
        attempts-first max_retries 0 k (omega arith) (omega (arith, within)) (λ j _. before j) free)

  attempts-all_fail :
      (left attempt : ℕ)
      → ((j : ℕ) → j ≤ attempt + left → conflicts j ≡ true)
      → attempts left attempt ≡ serialization_failure
  unfolding attempts
  attempts-all_fail zero attempt h = rw (h attempt (omega arith)) refl
  attempts-all_fail (suc left) attempt h =
      rw (h attempt (omega arith))
        (attempts-all_fail left (suc attempt) (λ j l. h j (omega (arith, l))))

  -- When all of the `max_retries + 1` attempts fail, the failure is passed on and nothing is
  -- committed.
  pub with_serializable_transaction-all_fail :
      (max_retries : ℕ)
      → max_retries ≤ 8
      → ((j : ℕ) → j ≤ max_retries → conflicts j ≡ true)
      → with_serializable_transaction max_retries ≡ serialization_failure
  unfolding with_serializable_transaction
  with_serializable_transaction-all_fail max_retries small h =
      rw ((leb_iff max_retries 8).1 small)
        (attempts-all_fail max_retries 0 (λ j l. h j (omega (arith, l))))
