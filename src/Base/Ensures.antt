-- ===== src/Base/Ensures.antt =====
-- The results of fallible code, and what a result ensures when it is a success.
use mathlib.Core.Path.{◌≡◌, subst}

pub data Result {ℓ κ} (E : Type κ) (A : Type ℓ) : Type (ℓ ⊔ κ) where
  ok : A → Result E A
  err : E → Result E A

module _ {ℓ κ} {E : Type κ} {A : Type ℓ} where
  abbrev pub Ensures {ν} : (A → Type ν) → Result E A → Type ν
  Ensures P (ok a) = P a
  Ensures P (err e) = Unit

  pub Ensures-ok {ν} : (P : A → Type ν) (r : Result E A) {a : A} → Ensures P r → r ≡ ok a → P a
  Ensures-ok P (ok b) h e = subst P (cc) h
  Ensures-ok P (err b) h e = cc
