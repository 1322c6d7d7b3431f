-- ===== src/Evidence/Settling.antt =====
-- packages/transaction-pipeline/src/chain-evidence.ts: what verified evidence says of the logs.
use crip_wallet.Base.{
  ◌≡◌, refl, sym, ap, ◌∙◌, Bool, true, false, not, ◌&&◌, List, [], ◌∷◌, length, ◌==◌, Option, none,
  some, arith, if◌then◌else◌,
}
use crip_wallet.Schemas.Money.{Text}
use crip_wallet.Schemas.Common.{same_text, same_text_iff}
use crip_wallet.Evidence.{ExecutionEnvelope, ParsedReceipt, ParsedLog, VerifiedTransferLogEvidence}
use crip_wallet.Evidence.Parse.{is_transfer_log, transfer_from_log}
use crip_wallet.Evidence.Checks.{
  Check, is_success, is_reverted, status_check, select_logs, transfer_log_checks, log_count_checks,
  the_transfer, is_none, all_log_checks, transfer_of, transfer_checks,
}
use crip_wallet.Evidence.Matching.{passes, passes-append}

-- A reverted receipt without logs, or a successful one whose one log is the transfer of the
-- envelope.
pub data Settled (envelope : ExecutionEnvelope) (r : ParsedReceipt) : Type 0 where
  undone : is_reverted r.status ≡ true → r.logs ≡ [] → transfer_of r ≡ none → Settled envelope r
  moved :
      (l : ParsedLog) (t : VerifiedTransferLogEvidence)
      → is_success r.status ≡ true
      → r.logs ≡ l ∷ []
      → transfer_from_log l ≡ some t
      → transfer_of r ≡ some t
      → t.token_address ≡ envelope.to
      → t.from ≡ envelope.from
      → t.to ≡ envelope.recipient
      → t.amount_atomic ≡ envelope.amount_atomic
      → Settled envelope r

text_same : (s t : Text) → not (not (same_text s t)) ≡ true → s ≡ t
text_same s t e = (same_text_iff s t).0 (ground arith)

-- Several logs fail a test.
several_logs :
    (l m : ParsedLog) (ls selected : List ParsedLog)
    → passes (transfer_log_checks (l ∷ m ∷ ls) selected) ≡ true
    → ⊥
unfolding passes transfer_log_checks
several_logs l m ls [] e = cc
several_logs l m ls (x ∷ []) e = ground arith
several_logs l m ls (x ∷ y ∷ zs) e = cc

abbrev One : List ParsedLog → Type 0
One logs =
    (l : ParsedLog) × ((t : VerifiedTransferLogEvidence) × ((logs ≡ l ∷ [])
        × ((transfer_from_log l ≡ some t)
            × (the_transfer (select_logs is_transfer_log logs) ≡ some t))))

parsed_transfer :
    (l : ParsedLog) (v : Option VerifiedTransferLogEvidence)
    → transfer_from_log l ≡ v
    → not (not (is_none v) && true) ≡ false
    → the_transfer (select_logs is_transfer_log (l ∷ [])) ≡ v
    → One (l ∷ [])
parsed_transfer l none at e d = cc
parsed_transfer l (some t) at e d = (l, (t, (refl, (at, d))))

only_log :
    (logs : List ParsedLog)
    → passes (transfer_log_checks logs (select_logs is_transfer_log logs)) ≡ true
    → One logs
unfolding passes transfer_log_checks select_logs
only_log [] e = cc
only_log (l ∷ []) e =
    elim (is_transfer_log l)
        as (λ b.
          is_transfer_log l ≡ b
          → passes (transfer_log_checks (l ∷ []) (if b then l ∷ [] else [])) ≡ true
          → One (l ∷ [])) [
            | true ↦ λ at h.
                parsed_transfer l (transfer_from_log l) refl (ground arith)
                  (ap (λ (b : Bool). the_transfer (if b then l ∷ [] else [])) at)
            | false ↦ λ at h. cc
          ]
      refl e
only_log (l ∷ m ∷ ls) e = absurd (several_logs l m ls (select_logs is_transfer_log (l ∷ m ∷ ls)) e)

empty_logs : (logs : List ParsedLog) → not (not (length logs == 0)) ≡ true → logs ≡ []
empty_logs [] e = refl
empty_logs (l ∷ ls) e = ground arith

transferred :
    (envelope : ExecutionEnvelope) (r : ParsedReceipt)
    → is_reverted r.status ≡ false
    → is_success r.status ≡ true
    → One r.logs
    → passes (transfer_checks envelope (transfer_of r)) ≡ true
    → Settled envelope r
unfolding passes transfer_checks transfer_of
transferred envelope r reverted success (l, (t, (alone, (at, one)))) e =
    let same : transfer_of r ≡ some t = rw (reverted, success) one in
    let checked : passes (transfer_checks envelope (some t)) ≡ true =
      ap (λ v. passes (transfer_checks envelope v)) (sym same) ∙ e in
    moved l t success alone at same
      (text_same t.token_address envelope.to (ground (arith, checked)))
      (text_same t.from envelope.from (ground (arith, checked)))
      (text_same t.to envelope.recipient (ground (arith, checked)))
      (text_same t.amount_atomic envelope.amount_atomic (ground (arith, checked)))

passes-if :
    (b : Bool) (a c : List Check)
    → passes (if b then a else c) ≡ true
    → (b ≡ true → passes a ≡ true) × (b ≡ false → passes c ≡ true)
passes-if true a c h = (λ _. h, λ e. cc)
passes-if false a c h = (λ e. cc, λ _. h)

pub settled_lem :
    (envelope : ExecutionEnvelope) (r : ParsedReceipt)
    → passes (status_check r.status ∷ []) ≡ true
    → passes (log_count_checks r.status r.logs) ≡ true
    → passes (transfer_checks envelope (transfer_of r)) ≡ true
    → Settled envelope r
unfolding passes status_check log_count_checks transfer_of
settled_lem envelope r known counted checked =
    let success_of : is_reverted r.status ≡ false → is_success r.status ≡ true =
      λ e. ground arith in
    elim (is_reverted r.status) as (λ b. is_reverted r.status ≡ b → Settled envelope r) [
      | true ↦ λ e.
          undone e
            (empty_logs r.logs (ground (arith, (passes-if (is_reverted r.status) _ _ counted).0 e)))
            (rw (e) refl)
      | false ↦ λ e.
          transferred envelope r e (success_of e)
            (only_log r.logs
              (passes-append (transfer_log_checks r.logs (select_logs is_transfer_log r.logs))
                (all_log_checks r.logs)
                ((passes-if (is_success r.status) _ _
                    ((passes-if (is_reverted r.status) _ _ counted).1 e)).0
                  (success_of e))).0)
            checked
    ]
      refl
