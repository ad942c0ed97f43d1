-- ===== src/Scoring/Snapshot.antt =====
-- The weights that a validation was stored with stay its weights.
use trust_news.Prelude.{String, ◌≡◌, refl, false, Option, some, arith}
use trust_news.Prelude.Int.{pos}
use trust_news.Scoring.Values.{PyFloat, FloatLaws, Raw, int, float, text, or_else, truthy}
use trust_news.Scoring.Weights.{
  ValidatorType, llm_memory_validation, name, Weights, Config, WeightSnapshot, parse_validator_type,
  validator_type_name, stated_type, resolved_type_weight, validation_weight_snapshot,
  safe_non_negative_number, stated_reputation,
}
use trust_news.Scoring.Detail.{Validation, config_of, type_of, validation_weight_detail}
use trust_news.Scoring.Safe.{IsWeight, zero-IsWeight, safe-IsWeight, safe_of_weight}

module _ (P : PyFloat) where
  -- The record that news-handler stores, `{…, **weight_snapshot}`.
  unfoldable pub with_snapshot : WeightSnapshot P → Validation P → Validation P
  with_snapshot s v = record v {
    own = record v.own {
      validator_type = text s.validator_type;
      validator_type_weight = some (float s.validator_type_weight);
      reputation_at_validation = some (float s.reputation_at_validation);
      effective_weight = some (float s.effective_weight);
      policy_version = s.weights_policy_version;
    };
  }

  -- A type's name is read back as that type, whatever stands behind it in an `or`.
  name-or_else :
      (t : ValidatorType) (r : Raw P) → validator_type_name P (or_else P (text (name t)) r) ≡ name t
  unfolding validator_type_name truthy
  name-or_else llm_memory_validation r = refl
  name-or_else _ r = refl

  module _ (laws : FloatLaws P) (cfg : Option (Config P)) (weights : Weights P) where
    abbrev snapshot : WeightSnapshot P
    snapshot = validation_weight_snapshot P cfg weights

    zero_ok : IsWeight P P.zero
    zero_ok = zero-IsWeight P laws

    resolved-IsWeight : (t : Raw P) → IsWeight P (resolved_type_weight P t weights)
    unfolding resolved_type_weight safe_non_negative_number
    resolved-IsWeight t = ground (arith, zero_ok)

    type-IsWeight : IsWeight P snapshot.validator_type_weight
    unfolding validation_weight_snapshot
    type-IsWeight = resolved-IsWeight (or_else P (stated_type P cfg) (int (pos 1)))

    reputation-IsWeight : IsWeight P snapshot.reputation_at_validation
    unfolding validation_weight_snapshot
    reputation-IsWeight = safe-IsWeight P (stated_reputation P cfg) P.zero zero_ok

    effective-IsWeight : IsWeight P snapshot.effective_weight
    unfolding validation_weight_snapshot
    effective-IsWeight =
        safe-IsWeight P
          (float (P.mul snapshot.validator_type_weight snapshot.reputation_at_validation)) P.zero
          zero_ok

    snapshot_type :
        (v : Validation P) (c : Option (Config P))
        → validator_type_name P (type_of P (with_snapshot snapshot v) c) ≡ snapshot.validator_type
    unfolding type_of with_snapshot validation_weight_snapshot validator_type_name
    snapshot_type v c =
        name-or_else (parse_validator_type P (or_else P (stated_type P cfg) (int (pos 1))))
          (or_else P v.payload.validator_type (or_else P (stated_type P c) (int (pos 1))))

    -- Whatever is cached or configured later, a validation that was stored with its snapshot is
    -- scored with the snapshot's type, type weight, reputation and effective weight, and is not
    -- marked as a legacy one.
    pub snapshot_is_final :
        (v : Validation P) (validator : String) (later_cached : String → Option (Config P))
        (later_weights : Weights P)
        → let d =
            validation_weight_detail P validator
              (with_snapshot snapshot v)
              later_cached
              later_weights in
          (d.validator_type ≡ snapshot.validator_type)
          × (d.validator_type_weight ≡ snapshot.validator_type_weight)
          × (d.reputation_at_validation ≡ snapshot.reputation_at_validation)
          × (d.effective_weight ≡ snapshot.effective_weight)
          × (d.legacy_dynamic_weight ≡ false)
    unfolding validation_weight_detail with_snapshot
    snapshot_is_final v validator later_cached later_weights = (
      snapshot_type v (config_of P validator (with_snapshot snapshot v) later_cached),
      safe_of_weight P snapshot.validator_type_weight P.zero type-IsWeight,
      safe_of_weight P snapshot.reputation_at_validation P.zero reputation-IsWeight,
      safe_of_weight P snapshot.effective_weight P.zero effective-IsWeight,
      refl,
    )
