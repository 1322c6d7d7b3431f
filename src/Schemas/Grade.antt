-- ===== src/Schemas/Grade.antt =====
-- packages/schemas/src/enforcement-grade.ts
use crip_wallet.Base.{ℕ, Bool, leb}

-- `ENFORCEMENT_GRADES`, from strongest to weakest.
pub data EnforcementGrade : Type 0 where
  onchain signer control_plane advisory unsupported : EnforcementGrade

-- `enforcementStrength`
abbrev pub enforcement_strength : EnforcementGrade → ℕ
enforcement_strength onchain = 0
enforcement_strength signer = 1
enforcement_strength control_plane = 2
enforcement_strength advisory = 3
enforcement_strength unsupported = 4

unfoldable pub meets_minimum_enforcement_grade : EnforcementGrade → EnforcementGrade → Bool
meets_minimum_enforcement_grade actual required =
    leb (enforcement_strength actual) (enforcement_strength required)
