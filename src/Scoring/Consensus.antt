-- ===== src/Scoring/Consensus.antt =====
-- `calculate_assertion_result` and `_rounded_distribution` of scoring.py: the verdict on an
-- assertion from the validations of its validators.
use trust_news.Prelude.{
  ℕ, String, Bool, true, false, not, ◌&&◌, Option, none, some, List, [], ◌∷◌, map, ◌==◌, eqb,
  length, any, keep, count_if, text_leb, if◌then◌else◌,
}
use trust_news.Scoring.Values.{PyFloat, float}
use trust_news.Scoring.Weights.{
  Verdict, verdict_true, verdict_false, verdict_unknown, Weights, Config, safe_non_negative_number,
}
use trust_news.Scoring.Detail.{Validation, Detail, validation_weight_detail}

pub data DecisionStatus : Type 0 where
  no_valid_responses : DecisionStatus
  insufficient_evidence : DecisionStatus
  no_consensus : DecisionStatus
  consensus : DecisionStatus
  weighted_majority : DecisionStatus

pub data ReasonCode : Type 0 where
  all_validations_failed : ReasonCode
  no_completed_validations : ReasonCode
  no_decisive_validations : ReasonCode
  decisive_coverage_too_low : ReasonCode
  true_false_weight_tie : ReasonCode
  all_decisive_agree_true : ReasonCode
  all_decisive_agree_false : ReasonCode
  true_weight_exceeds_false_weight : ReasonCode
  false_weight_exceeds_true_weight : ReasonCode

pub record Decision : Type 0 where
  pub verdict : Verdict
  pub decision_status : DecisionStatus
  pub reason_code : ReasonCode

pub record RawWeight (P : PyFloat) : Type 0 where
  pub true_weight : P.Float
  pub false_weight : P.Float
  pub unknown_weight : P.Float

pub record Distribution (P : PyFloat) : Type 0 where
  pub raw_weight : RawWeight P
  pub true_share : P.Float
  pub false_share : P.Float
  pub decisive_coverage : P.Float
  pub abstention_share : P.Float
  pub decision_margin : P.Float

pub record Counts : Type 0 where
  pub responses : ℕ
  pub completed : ℕ
  pub decisive : ℕ
  pub abstentions : ℕ
  pub errors : ℕ

pub record AssertionResult (P : PyFloat) : Type 0 where
  pub assertion_id : String
  pub decision : Decision
  pub distribution : Distribution P
  pub counts : Counts
  pub winner : Option Verdict
  pub excluded_validators : List String
  pub legacy_dynamic_weight : Bool
  pub details : List (Detail P)

-- `validators_obj`: a dict from validator to validation, in insertion order.
abbrev pub Responses : PyFloat → Type 0
Responses P = List (String × Validation P)

-- `sorted(items, key=lambda item: str(item[0]))`, which is stable.
module _ {ℓ} {V : Type ℓ} where
  unfoldable pub insert : String × V → List (String × V) → List (String × V)
  insert x [] = x ∷ []
  insert x (y ∷ rest) = if text_leb x.0 y.0 then x ∷ y ∷ rest else y ∷ insert x rest

  unfoldable pub sorted_by_key : List (String × V) → List (String × V)
  unfolding insert
  sorted_by_key [] = []
  sorted_by_key (x ∷ rest) = insert x (sorted_by_key rest)

abbrev pub is_decisive : Verdict → Bool
is_decisive verdict_unknown = false
is_decisive _ = true

abbrev pub is_empty {ℓ} : {A : Type ℓ} → List A → Bool
is_empty [] = true
is_empty (x ∷ xs) = false

module _ (P : PyFloat) where
  open P use {zero, half, tie_epsilon, eq, lt, le, add, sub, div, abs, round12}

  abbrev pub is_completed : String × Validation P → Bool
  is_completed r = r.1.execution_status == "COMPLETED"

  abbrev pub is_failed : String × Validation P → Bool
  is_failed r = r.1.execution_status == "ERROR"

  -- `raw_weight[name] = _safe_non_negative_number(raw_weight[name] + weight, raw_weight[name])`.
  unfoldable pub add_vote : RawWeight P → Verdict → P.Float → RawWeight P
  unfolding safe_non_negative_number
  add_vote w verdict_true x = record w {
    true_weight = safe_non_negative_number P (float (add w.true_weight x)) w.true_weight;
  }
  add_vote w verdict_false x = record w {
    false_weight = safe_non_negative_number P (float (add w.false_weight x)) w.false_weight;
  }
  add_vote w verdict_unknown x = record w {
    unknown_weight = safe_non_negative_number P (float (add w.unknown_weight x)) w.unknown_weight;
  }

  unfoldable pub add_votes : RawWeight P → List (Detail P) → RawWeight P
  unfolding add_vote
  add_votes w [] = w
  add_votes w (d ∷ rest) = add_votes (add_vote w d.result d.effective_weight) rest

  abbrev pub no_weight : RawWeight P
  no_weight = record { true_weight = zero; false_weight = zero; unknown_weight = zero }

  abbrev pub decisive_weight : RawWeight P → P.Float
  decisive_weight w = add w.true_weight w.false_weight

  abbrev pub completed_weight : RawWeight P → P.Float
  completed_weight w = add (decisive_weight w) w.unknown_weight

  -- `x / total if total > 0 else 0.0`.
  abbrev pub share : P.Float → P.Float → P.Float
  share x total = if lt zero total then div x total else zero

  abbrev pub rounded_share : P.Float → P.Float → P.Float
  rounded_share x total = if lt zero total then round12 (div x total) else zero

  unfoldable pub rounded_distribution : RawWeight P → Distribution P
  rounded_distribution w = record {
    raw_weight = record {
      true_weight = round12 w.true_weight;
      false_weight = round12 w.false_weight;
      unknown_weight = round12 w.unknown_weight;
    };
    true_share = rounded_share w.true_weight (decisive_weight w);
    false_share = rounded_share w.false_weight (decisive_weight w);
    decisive_coverage = rounded_share (decisive_weight w) (completed_weight w);
    abstention_share = rounded_share w.unknown_weight (completed_weight w);
    decision_margin = rounded_share (abs (sub w.true_weight w.false_weight)) (decisive_weight w);
  }

  abbrev decision : Verdict → DecisionStatus → ReasonCode → Decision
  decision v s r = record { verdict = v; decision_status = s; reason_code = r }

  -- The ladder that decides; `all_failed` is `responses and len(failed) == len(responses)`.
  unfoldable pub decide : (any_details all_failed : Bool) → RawWeight P → Decision
  decide any_details all_failed w =
      if not any_details
      then decision verdict_unknown no_valid_responses
          (if all_failed then all_validations_failed else no_completed_validations)
      else if eq (decisive_weight w) zero
      then decision verdict_unknown insufficient_evidence no_decisive_validations
      else if le (share (decisive_weight w) (completed_weight w)) half
      then decision verdict_unknown insufficient_evidence decisive_coverage_too_low
      else if le (abs (sub w.true_weight w.false_weight)) tie_epsilon
      then decision verdict_unknown no_consensus true_false_weight_tie
      else if eq w.false_weight zero && lt zero w.true_weight
      then decision verdict_true consensus all_decisive_agree_true
      else if eq w.true_weight zero && lt zero w.false_weight
      then decision verdict_false consensus all_decisive_agree_false
      else if lt w.false_weight w.true_weight
      then decision verdict_true weighted_majority true_weight_exceeds_false_weight
      else decision verdict_false weighted_majority false_weight_exceeds_true_weight

  abbrev pub winner_of : Verdict → Option Verdict
  winner_of v = if is_decisive v then some v else none

  -- The details of the completed responses, in the order of the sorted responses.
  unfoldable pub details_of :
      Responses P → (String → Option (Config P)) → Weights P → List (Detail P)
  unfolding validation_weight_detail
  details_of responses get_cached weights =
      map (λ r. validation_weight_detail P r.0 r.1 get_cached weights) (keep is_completed responses)

  -- `responses and len(failed) == len(responses)`.
  abbrev pub all_failed : Responses P → Bool
  all_failed responses =
      not (is_empty responses) && eqb (length (keep is_failed responses)) (length responses)

  -- The result from the sorted responses.
  unfoldable pub result_of_sorted :
      String → Responses P → (String → Option (Config P)) → Weights P → AssertionResult P
  unfolding details_of add_votes decide rounded_distribution
  result_of_sorted assertion_id responses get_cached weights =
      let failed = keep is_failed responses in
      let details = details_of responses get_cached weights in
      let w = add_votes no_weight details in
      let d = decide (not (is_empty details)) (all_failed responses) w in
      record {
        assertion_id = assertion_id;
        decision = d;
        distribution = rounded_distribution w;
        counts = record {
          responses = length responses;
          completed = length details;
          decisive = count_if (λ x. is_decisive x.result) details;
          abstentions = count_if (λ x. not (is_decisive x.result)) details;
          errors = length failed;
        };
        winner = winner_of d.verdict;
        excluded_validators = map (λ r. r.0) failed;
        legacy_dynamic_weight = any (λ x. x.legacy_dynamic_weight) details;
        details = details;
      }

  unfoldable pub calculate_assertion_result :
      String → Responses P → (String → Option (Config P)) → Weights P → AssertionResult P
  unfolding result_of_sorted sorted_by_key
  calculate_assertion_result assertion_id validators_obj get_cached weights =
      result_of_sorted assertion_id (sorted_by_key validators_obj) get_cached weights
