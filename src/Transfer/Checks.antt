-- ===== src/Transfer/Checks.antt =====
-- The comparisons of packages/transaction-pipeline/src/verify-transfer.ts on what the pipeline built.
use crip_wallet.Base.{
  ◌≡◌, ◌↔◌, refl, Bool, true, false, not, ◌&&◌, List, [], ◌∷◌, all, any, Option, some, arith,
}
use crip_wallet.Schemas.Money.{Text, text_compare}
use crip_wallet.Schemas.Common.{same_text, same_text_iff}
use crip_wallet.Transfer.Values.{
  Scalar, text, number, other, Value, scalar, dictionary, own, same_scalar, is_text, is_text_lem,
  sort_keys, same_keys, has_exact_keys, entry_agrees, same_record,
}
use crip_wallet.Transfer.Candidate.{
  TransferCoreProvenance, TransferCoreCandidate, provenance_fields, candidate_fields,
}
use crip_wallet.Transfer.Verify.{candidate_keys}

is_plain : Scalar → Bool
is_plain other = false
is_plain _ = true

-- No two entries have the same key, and `===` compares every value by its content.
comparable : List (Text × Scalar) → Bool
unfolding is_plain
comparable [] = true
comparable (e ∷ rest) =
    not (any (λ (f : Text × Scalar). same_text f.0 e.0) rest) && (is_plain e.1 && comparable rest)

same_text_refl : (t : Text) → same_text t t ≡ true
same_text_refl t = (same_text_iff t t).1 refl

same_scalar_refl : (v : Scalar) → is_plain v ≡ true → same_scalar v v ≡ true
unfolding same_scalar is_plain
same_scalar_refl (text t) h = same_text_refl t
same_scalar_refl (number n) h = ground arith
same_scalar_refl other h = cc

entry_agrees_later :
    (f : Text × Scalar) (rest l : List (Text × Scalar))
    → any (λ (g : Text × Scalar). same_text g.0 f.0) l ≡ false
    → all (entry_agrees rest) l ≡ true
    → all (entry_agrees (f ∷ rest)) l ≡ true
unfolding entry_agrees own
entry_agrees_later f rest [] h k = refl
entry_agrees_later f rest (g ∷ l) h k = ground (arith, entry_agrees_later f rest l)

entry_agrees_first :
    (e : Text × Scalar) (rest : List (Text × Scalar))
    → is_plain e.1 ≡ true
    → entry_agrees (e ∷ rest) e ≡ true
unfolding entry_agrees own
entry_agrees_first e rest h = ground (arith, same_text_refl e.0, same_scalar_refl e.1 h)

all_agree : (o : List (Text × Scalar)) → comparable o ≡ true → all (entry_agrees o) o ≡ true
unfolding comparable
all_agree [] h = refl
all_agree (e ∷ rest) h =
    ground (arith, entry_agrees_first e rest, entry_agrees_later e rest rest, all_agree rest)

provenance-comparable : (p : TransferCoreProvenance) → comparable (provenance_fields p) ≡ true
unfolding comparable provenance_fields same_text is_plain
provenance-comparable p = ground arith

-- A provenance is the same record as itself.
pub same_record-provenance :
    (p : TransferCoreProvenance)
    → same_record (some (dictionary (provenance_fields p))) (provenance_fields p) ≡ true
unfolding same_record
same_record-provenance p = ground (arith, all_agree (provenance_fields p) (provenance-comparable p))

-- A built candidate has exactly the keys of a candidate.
pub candidate-has_exact_keys :
    (c : TransferCoreCandidate) → has_exact_keys (candidate_fields c) candidate_keys ≡ true
unfolding candidate_fields has_exact_keys sort_keys same_keys same_text text_compare
candidate-has_exact_keys c = refl

pub is_text_iff :
    (v : Option Value) (t : Text) → (is_text v t ≡ true) ↔ (v ≡ some (scalar (text t)))
unfolding is_text
is_text_iff v t = (is_text_lem v t, λ h. rw h (same_text_refl t))
