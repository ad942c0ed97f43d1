-- ===== src/Scoring/Neutral.antt =====
-- Scoring is neutral: with TRUE and FALSE exchanged in every approval, it decides the opposite.
use trust_news.Prelude.{
  String, ◌≡◌, refl, ap, ◌∙◌, Bool, not, Option, some, List, [], ◌∷◌, arith, map, Bool-cases, inl,
  inr,
}
use trust_news.Prelude.Int.{pos}
use trust_news.Scoring.Values.{PyFloat, FloatLaws, Raw, int}
use trust_news.Scoring.Weights.{
  Verdict, verdict_true, verdict_false, verdict_unknown, Weights, Config,
  normalize_validation_result,
}
use trust_news.Scoring.Detail.{Validation, Detail, approval_of, validation_weight_detail}
use trust_news.Scoring.Verdicts.{add_votes-IsWeight}
use trust_news.Scoring.Safe.{IsWeight, zero-IsWeight}
use trust_news.Scoring.Consensus.{
  Responses, RawWeight, AssertionResult, insert, all_failed, add_vote, add_votes, no_weight,
  is_empty, is_completed, sorted_by_key, details_of, decide, calculate_assertion_result,
}

abbrev pub opposite : Verdict → Verdict
opposite verdict_true = verdict_false
opposite verdict_false = verdict_true
opposite verdict_unknown = verdict_unknown

module _ (P : PyFloat) where
  -- The number of the exchanged result: FALSE is 2, TRUE is 1 and UNKNOWN 0.
  abbrev exchanged : Verdict → Raw P
  exchanged verdict_true = int (pos 2)
  exchanged verdict_false = int (pos 1)
  exchanged verdict_unknown = int (pos 0)

  -- The validation with the opposite approval.
  pub exchange : Validation P → Validation P
  exchange v = record v {
    own = record v.own {
      approval = some (exchanged (normalize_validation_result P (approval_of P v)));
    };
  }

  abbrev pub exchange_all : Responses P → Responses P
  exchange_all = map (λ r. (r.0, exchange r.1))

  abbrev exchange_detail : Detail P → Detail P
  exchange_detail d = record d { result = opposite d.result }

  normalize-exchanged : (v : Verdict) → normalize_validation_result P (exchanged v) ≡ opposite v
  unfolding normalize_validation_result
  normalize-exchanged verdict_true = refl
  normalize-exchanged _ = refl

  module _ (get_cached : String → Option (Config P)) (weights : Weights P) where
    abbrev detail : String → Validation P → Detail P
    detail k v = validation_weight_detail P k v get_cached weights

    detail-exchange :
        (k : String) (v : Validation P) → detail k (exchange v) ≡ exchange_detail (detail k v)
    unfolding validation_weight_detail exchange
    detail-exchange k v =
        ap (λ r. record (detail k v) { result = r })
          (normalize-exchanged (normalize_validation_result P (approval_of P v)))

    insert-exchange :
        (x : String × Validation P) (l : Responses P)
        → insert (x.0, exchange x.1) (exchange_all l) ≡ exchange_all (insert x l)
    unfolding insert
    insert-exchange x [] = refl
    insert-exchange x (y ∷ l) = ground (arith, insert-exchange x l)

    sorted-exchange :
        (l : Responses P) → sorted_by_key (exchange_all l) ≡ exchange_all (sorted_by_key l)
    unfolding sorted_by_key
    sorted-exchange [] = refl
    sorted-exchange (x ∷ l) =
        ap (insert (x.0, exchange x.1)) (sorted-exchange l) ∙ insert-exchange x (sorted_by_key l)

    details-exchange :
        (l : Responses P)
        → details_of P (exchange_all l) get_cached weights
          ≡ map exchange_detail (details_of P l get_cached weights)
    unfolding details_of exchange
    details-exchange [] = refl
    details-exchange (x ∷ l) = elim (Bool-cases (is_completed P x)) [
      | inl e ↦ rw e (cc (detail-exchange x.0 x.1, details-exchange l))
      | inr e ↦ rw e (details-exchange l)
    ]

  exchange_weights : RawWeight P → RawWeight P
  exchange_weights w = record w { true_weight = w.false_weight; false_weight = w.true_weight }

  add_vote-exchange :
      (w : RawWeight P) (v : Verdict) (x : P.Float)
      → add_vote P (exchange_weights w) (opposite v) x ≡ exchange_weights (add_vote P w v x)
  unfolding add_vote exchange_weights
  add_vote-exchange w verdict_true x = refl
  add_vote-exchange w _ x = refl

  add_votes-exchange :
      (w : RawWeight P) (ds : List (Detail P))
      → add_votes P (exchange_weights w) (map exchange_detail ds)
        ≡ exchange_weights (add_votes P w ds)
  unfolding add_votes
  add_votes-exchange w [] = refl
  add_votes-exchange w (d ∷ ds) =
      ap (λ w'. add_votes P w' (map exchange_detail ds))
        (add_vote-exchange w d.result d.effective_weight)
      ∙ add_votes-exchange (add_vote P w d.result d.effective_weight) ds

  module _ (laws : FloatLaws P) (w : RawWeight P) (ht : IsWeight P w.true_weight)
      (hf : IsWeight P w.false_weight) where
    open laws use {
      add_comm, abs-sub_comm, lt_eq_exclusive, lt_asymm, finite_total, eq_within_epsilon,
    }

    -- The ladder with the TRUE and FALSE weights exchanged.
    decide-exchange :
        (any_details b c : Bool)
        → ((decide P any_details b (exchange_weights w)).verdict
            ≡ opposite (decide P any_details c w).verdict)
          × ((decide P any_details b (exchange_weights w)).decision_status
              ≡ (decide P any_details c w).decision_status)
    unfolding decide exchange_weights
    decide-exchange any_details b c = ground (
      arith,
      add_comm w.false_weight w.true_weight,
      abs-sub_comm w.false_weight w.true_weight,
      lt_eq_exclusive P.zero w.true_weight,
      lt_eq_exclusive P.zero w.false_weight,
      lt_asymm w.false_weight w.true_weight,
      finite_total w.false_weight w.true_weight hf.finite ht.finite,
      eq_within_epsilon w.true_weight w.false_weight ht.finite,
    )

is_empty-map {ℓ κ} :
    {A : Type ℓ} {B : Type κ} (f : A → B) (xs : List A) → is_empty (map f xs) ≡ is_empty xs
is_empty-map f [] = refl
is_empty-map f (x ∷ xs) = refl

module _ (P : PyFloat) (laws : FloatLaws P) (assertion_id : String) (responses : Responses P)
    (get_cached : String → Option (Config P)) (weights : Weights P) where
  abbrev result : Responses P → AssertionResult P
  result rs = calculate_assertion_result P assertion_id rs get_cached weights

  abbrev details : List (Detail P)
  details = details_of P (sorted_by_key responses) get_cached weights

  abbrev totals : RawWeight P
  totals = add_votes P (no_weight P) details

  details_of_exchanged :
      (result (exchange_all P responses)).details ≡ map (exchange_detail P) details
  unfolding calculate_assertion_result
  details_of_exchanged =
      ap (λ l. details_of P l get_cached weights) (sorted-exchange P get_cached weights responses)
      ∙ details-exchange P get_cached weights (sorted_by_key responses)

  decision_of_exchanged :
      (result (exchange_all P responses)).decision
      ≡ decide P
          (not (is_empty details))
          (all_failed P (sorted_by_key (exchange_all P responses)))
          (exchange_weights P totals)
  unfolding calculate_assertion_result exchange_weights
  decision_of_exchanged =
      let b = all_failed P (sorted_by_key (exchange_all P responses)) in
      ap (λ ds. decide P (not (is_empty ds)) b (add_votes P (no_weight P) ds)) details_of_exchanged
      ∙ ap (λ e. decide P (not e) b (add_votes P (no_weight P) (map (exchange_detail P) details)))
          (is_empty-map (exchange_detail P) details)
      ∙ ap (decide P (not (is_empty details)) b) (add_votes-exchange P (no_weight P) details)

  -- If TRUE and FALSE are exchanged in every approval, the verdict is the opposite one and the
  -- decision status is the same.
  pub exchange_decides_opposite :
      ((result (exchange_all P responses)).decision.verdict
        ≡ opposite (result responses).decision.verdict)
      × ((result (exchange_all P responses)).decision.decision_status
          ≡ (result responses).decision.decision_status)
  unfolding calculate_assertion_result
  exchange_decides_opposite =
      let zero_ok = zero-IsWeight P laws in
      let sound = add_votes-IsWeight P (no_weight P) details zero_ok zero_ok in
      let same =
        decide-exchange P laws totals sound.0 sound.1 (not (is_empty details))
          (all_failed P (sorted_by_key (exchange_all P responses)))
          (all_failed P (sorted_by_key responses)) in
      (
        ap (λ d. d.verdict) decision_of_exchanged ∙ same.0,
        ap (λ d. d.decision_status) decision_of_exchanged ∙ same.1,
      )
