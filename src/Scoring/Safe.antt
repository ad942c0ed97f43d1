-- ===== src/Scoring/Safe.antt =====
-- `_safe_non_negative_number` lets only finite, non-negative numbers through.
use trust_news.Prelude.{◌≡◌, true, arith}
use trust_news.Scoring.Values.{PyFloat, FloatLaws, Raw, float}
use trust_news.Scoring.Weights.{safe_non_negative_number}

module _ (P : PyFloat) where
  -- A number that can stand for a weight.
  pub record IsWeight (x : P.Float) : Type 0 where
    pub finite : P.is_finite x ≡ true
    pub non_negative : P.le P.zero x ≡ true

  pub zero-IsWeight : FloatLaws P → IsWeight P.zero
  zero-IsWeight laws = record { finite = laws.zero-finite; non_negative = laws.zero-le-zero }

  pub safe-IsWeight :
      (value : Raw P) (default : P.Float)
      → IsWeight default
      → IsWeight (safe_non_negative_number P value default)
  unfolding safe_non_negative_number
  safe-IsWeight value default h = ground arith

  pub safe_of_weight :
      (x default : P.Float) → IsWeight x → safe_non_negative_number P (float x) default ≡ x
  unfolding safe_non_negative_number
  safe_of_weight x default h = ground arith
