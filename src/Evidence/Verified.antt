-- ===== src/Evidence/Verified.antt =====
-- packages/transaction-pipeline/src/chain-evidence.ts: what `verifyUntrustedChainEvidence` has
-- verified.
use crip_wallet.Base.{◌≡◌, refl, true, false, List, [], ◌∷◌, ◌++◌, all, Option, none, some, arith}
use crip_wallet.Base.Ensures.{Result, ok, err, Ensures}
use crip_wallet.Evidence.{
  ChainEvidenceExpectation, ChainEvidenceMismatch, EnvelopeLibrary, ParsedChainTransaction,
  ParsedReceipt, ParsedBlock, VerifiedChainEvidence,
}
use crip_wallet.Evidence.Parse.{parse_transaction, parse_receipt, parse_block}
use crip_wallet.Evidence.Expectation.{
  valid_expectation_shape, valid_envelope_binding, expectation_mismatches,
}
use crip_wallet.Evidence.Checks.{
  Check, UntrustedChainEvidence, presence_checks, transaction_checks, block_checks, status_check,
  log_count_checks, transfer_of, transfer_checks, log_checks,
}
use crip_wallet.Evidence.Verify.{
  verified_evidence, parsed_checks, conclude, verify_parsed, verify_answers,
  verify_untrusted_chain_evidence,
}
use crip_wallet.Evidence.Matching.{
  passes, report_lem, passes-append, Matches, transaction_checks_lem, Mined, block_checks_lem,
  is_bound_log, log_checks_lem,
}
use crip_wallet.Evidence.Settling.{Settled, settled_lem}

-- The answers parse, the transaction is that of the envelope, it is mined in the one block that
-- both answers give, every log parses and is of this transaction and block, and the receipt is
-- reverted without logs or has the transfer of the envelope as its one log.
pub record Proven (x : ChainEvidenceExpectation) (e : UntrustedChainEvidence)
    (v : VerifiedChainEvidence) : Type 0 where
  pub tx : ParsedChainTransaction
  pub receipt : ParsedReceipt
  pub by_number : ParsedBlock
  pub by_hash : ParsedBlock
  pub tx_parsed : parse_transaction e.transaction_answer ≡ some tx
  pub receipt_parsed : parse_receipt e.receipt_answer ≡ some receipt
  pub number_parsed : parse_block e.canonical_block_by_number ≡ some by_number
  pub hash_parsed : parse_block e.canonical_block_by_hash ≡ some by_hash
  pub reported : v ≡ verified_evidence x tx receipt
  pub matches : Matches x tx
  pub mined : Mined x tx receipt by_number by_hash
  pub well_formed : receipt.malformed_logs ≡ false
  pub bound : all (is_bound_log tx) receipt.logs ≡ true
  pub settled : Settled x.envelope receipt

module _ (x : ChainEvidenceExpectation) (e : UntrustedChainEvidence) where
  parsed-Proven :
      (tx : ParsedChainTransaction) (r : ParsedReceipt) (by_number by_hash : ParsedBlock)
      → parse_transaction e.transaction_answer ≡ some tx
      → parse_receipt e.receipt_answer ≡ some r
      → parse_block e.canonical_block_by_number ≡ some by_number
      → parse_block e.canonical_block_by_hash ≡ some by_hash
      → passes (
          presence_checks x e (some tx) (some r) (some by_number) (some by_hash)
          ++ parsed_checks x tx r by_number by_hash)
        ≡ true
      → Proven x e (verified_evidence x tx r)
  unfolding passes presence_checks parsed_checks
  parsed-Proven tx r by_number by_hash at1 at2 at3 at4 h =
      let about_logs : List Check =
        transfer_checks x.envelope (transfer_of r) ++ log_checks tx r.logs in
      let after_blocks : List Check =
        status_check r.status ∷ (log_count_checks r.status r.logs ++ about_logs) in
      let (present, rest) =
        passes-append (presence_checks x e (some tx) (some r) (some by_number) (some by_hash))
          (parsed_checks x tx r by_number by_hash) h in
      let (sent, rest1) =
        passes-append (transaction_checks x tx)
          (block_checks x tx r by_number by_hash ++ after_blocks) rest in
      let (mined, rest2) =
        passes-append (block_checks x tx r by_number by_hash) after_blocks rest1 in
      let (known, rest3) =
        passes-append (status_check r.status ∷ []) (log_count_checks r.status r.logs ++ about_logs)
          rest2 in
      let (counted, rest4) = passes-append (log_count_checks r.status r.logs) about_logs rest3 in
      let (moved, bound) =
        passes-append (transfer_checks x.envelope (transfer_of r)) (log_checks tx r.logs) rest4 in
      record {
        tx = tx;
        receipt = r;
        by_number = by_number;
        by_hash = by_hash;
        tx_parsed = at1;
        receipt_parsed = at2;
        number_parsed = at3;
        hash_parsed = at4;
        reported = refl;
        matches = transaction_checks_lem x tx sent;
        mined = block_checks_lem x tx r by_number by_hash mined;
        well_formed = ground (arith, present);
        bound = log_checks_lem tx r.logs bound;
        settled = settled_lem x.envelope r known counted moved;
      }

  conclude-Proven :
      (issues : List ChainEvidenceMismatch) (v : VerifiedChainEvidence)
      → (issues ≡ [] → Proven x e v)
      → Ensures (Proven x e) (conclude issues v)
  conclude-Proven [] v h = h refl
  conclude-Proven (m ∷ ms) v h = tt

  verify_parsed-Proven :
      (tx : Option ParsedChainTransaction) (r : Option ParsedReceipt)
      (by_number by_hash : Option ParsedBlock)
      → parse_transaction e.transaction_answer ≡ tx
      → parse_receipt e.receipt_answer ≡ r
      → parse_block e.canonical_block_by_number ≡ by_number
      → parse_block e.canonical_block_by_hash ≡ by_hash
      → Ensures
          (Proven x e)
          (verify_parsed x (presence_checks x e tx r by_number by_hash) tx r by_number by_hash)
  unfolding verify_parsed
  verify_parsed-Proven (some tx) (some r) (some b) (some c) at1 at2 at3 at4 =
      conclude-Proven _ (verified_evidence x tx r)
        (λ none_left. parsed-Proven tx r b c at1 at2 at3 at4 (report_lem _ none_left))
  verify_parsed-Proven none r b c at1 at2 at3 at4 = tt
  verify_parsed-Proven (some tx) none b c at1 at2 at3 at4 = tt
  verify_parsed-Proven (some tx) (some r) none c at1 at2 at3 at4 = tt
  verify_parsed-Proven (some tx) (some r) (some b) none at1 at2 at3 at4 = tt

  verify_answers-Proven : Ensures (Proven x e) (verify_answers x e)
  unfolding verify_answers
  verify_answers-Proven = verify_parsed-Proven _ _ _ _ refl refl refl refl

-- The expectation is valid and bound to its envelope.
expectation_mismatches_lem :
    (library : EnvelopeLibrary) (x : ChainEvidenceExpectation)
    → expectation_mismatches library x ≡ []
    → (valid_expectation_shape library x ≡ true) × (valid_envelope_binding library x ≡ true)
unfolding expectation_mismatches
expectation_mismatches_lem library x h = (ground arith, ground arith)

both-Ensures :
    {A : Type 0} (P Q : Type 0) (R : A → Type 0) (r : Result (List ChainEvidenceMismatch) A)
    → Ensures R r
    → P
    → Q
    → Ensures (λ v. P × Q × R v) r
both-Ensures P Q R (ok a) h p q = (p, q, h)
both-Ensures P Q R (err e) h p q = tt

-- Where verifyUntrustedChainEvidence accepts, the expectation has its shape and is bound to its
-- envelope, and the answers prove the transfer of the envelope, or its revert without logs, in the
-- one block that both block answers give.
pub verify_untrusted_chain_evidence_lem :
    (library : EnvelopeLibrary) (x : ChainEvidenceExpectation) (e : UntrustedChainEvidence)
    → Ensures
        (λ v.
          (valid_expectation_shape library x ≡ true)
          × (valid_envelope_binding library x ≡ true)
          × Proven x e v)
        (verify_untrusted_chain_evidence library x e)
unfolding verify_untrusted_chain_evidence
verify_untrusted_chain_evidence_lem library x e =
    elim (expectation_mismatches library x)
        as (λ ms.
          expectation_mismatches library x ≡ ms
          → Ensures
              (λ v.
                (valid_expectation_shape library x ≡ true)
                × (valid_envelope_binding library x ≡ true)
                × Proven x e v)
              (elim ms [ [] ↦ verify_answers x e | m ∷ rest ↦ err (m ∷ rest) ])) [
                | [] ↦ λ h.
                    let (shape, binding) = expectation_mismatches_lem library x h in
                    both-Ensures _ _ (Proven x e) (verify_answers x e) (verify_answers-Proven x e)
                      shape binding
                | m ∷ rest ↦ λ _. tt
              ]
      refl
