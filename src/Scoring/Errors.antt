-- ===== src/Scoring/Errors.antt =====
-- Failed validations have no say in the verdict.
use trust_news.Prelude.{
  String, ◌≡◌, refl, sym, ◌∙◌, ap, Bool, true, false, not, Option, List, [], ◌∷◌, arith, map, keep,
  All, text_leb, text_leb-total, text_leb_trans, Bool-cases, inl, inr,
}
use trust_news.Scoring.Values.{PyFloat}
use trust_news.Scoring.Weights.{Weights, Config}
use trust_news.Scoring.Detail.{Detail, validation_weight_detail}
use trust_news.Scoring.Consensus.{
  Responses, RawWeight, AssertionResult, insert, all_failed, add_votes, no_weight, is_empty,
  rounded_distribution, winner_of, sorted_by_key, is_completed, details_of, decide,
  calculate_assertion_result,
}

module _ {ℓ} {V : Type ℓ} where
  abbrev AtLeast : String → List (String × V) → Type 0
  AtLeast k l = All (λ x. text_leb k x.0 ≡ true) l

  abbrev IsSorted : List (String × V) → Type 0
  IsSorted [] = Unit
  IsSorted (x ∷ rest) = AtLeast x.0 rest × IsSorted rest

  AtLeast-trans :
      (k j : String) (l : List (String × V)) → text_leb k j ≡ true → AtLeast j l → AtLeast k l
  AtLeast-trans k j [] h a = tt
  AtLeast-trans k j (x ∷ rest) h a = (text_leb_trans k j x.0 h a.0, AtLeast-trans k j rest h a.1)

  AtLeast-insert :
      (k : String) (x : String × V) (l : List (String × V))
      → text_leb k x.0 ≡ true
      → AtLeast k l
      → AtLeast k (insert x l)
  unfolding insert
  AtLeast-insert k x [] h a = (h, tt)
  AtLeast-insert k x (y ∷ rest) h a = ground (arith, AtLeast-insert k x rest h a.1)

  insert-IsSorted : (x : String × V) (l : List (String × V)) → IsSorted l → IsSorted (insert x l)
  unfolding insert
  insert-IsSorted x [] h = (tt, tt)
  insert-IsSorted x (y ∷ rest) h = elim (Bool-cases (text_leb x.0 y.0)) [
    | inl e ↦ rw e ((e, AtLeast-trans x.0 y.0 rest e h.0), h)
    | inr e ↦
        rw e (AtLeast-insert y.0 x rest (text_leb-total x.0 y.0 e) h.0, insert-IsSorted x rest h.1)
  ]

  sorted_by_key-IsSorted : (l : List (String × V)) → IsSorted (sorted_by_key l)
  unfolding sorted_by_key
  sorted_by_key-IsSorted [] = tt
  sorted_by_key-IsSorted (x ∷ rest) =
      insert-IsSorted x (sorted_by_key rest) (sorted_by_key-IsSorted rest)

  module _ (p : String × V → Bool) where
    insert_least : (x : String × V) (l : List (String × V)) → AtLeast x.0 l → insert x l ≡ x ∷ l
    unfolding insert
    insert_least x [] h = refl
    insert_least x (y ∷ l) h = rw h.0

    AtLeast-keep : (k : String) (l : List (String × V)) → AtLeast k l → AtLeast k (keep p l)
    AtLeast-keep k [] h = tt
    AtLeast-keep k (y ∷ l) h = ground (arith, AtLeast-keep k l h.1)

    keep-insert-true :
        (x : String × V) (l : List (String × V))
        → IsSorted l
        → p x ≡ true
        → keep p (insert x l) ≡ insert x (keep p l)
    unfolding insert
    keep-insert-true x [] s h = ground arith
    keep-insert-true x (y ∷ l) s h = elim (Bool-cases (text_leb x.0 y.0)) [
      | inl e ↦
          let least = AtLeast-keep x.0 (y ∷ l) (e, AtLeast-trans x.0 y.0 l e s.0) in
          ground (arith, insert_least x (keep p (y ∷ l)) least)
      | inr e ↦ ground (arith, keep-insert-true x l s.1 h)
    ]

    keep-insert-false :
        (x : String × V) (l : List (String × V)) → p x ≡ false → keep p (insert x l) ≡ keep p l
    unfolding insert
    keep-insert-false x [] h = ground arith
    keep-insert-false x (y ∷ l) h = ground (arith, keep-insert-false x l h)

    keep-sorted_by_key :
        (l : List (String × V)) → keep p (sorted_by_key l) ≡ sorted_by_key (keep p l)
    unfolding sorted_by_key
    keep-sorted_by_key [] = refl
    keep-sorted_by_key (x ∷ rest) = elim (Bool-cases (p x)) [
      | inl e ↦ rw e (
          keep-insert-true x (sorted_by_key rest) (sorted_by_key-IsSorted rest) e
          ∙ ap (insert x) (keep-sorted_by_key rest))
      | inr e ↦ rw e (keep-insert-false x (sorted_by_key rest) e ∙ keep-sorted_by_key rest)
    ]

    keep-keep : (l : List (String × V)) → keep p (keep p l) ≡ keep p l
    keep-keep [] = refl
    keep-keep (x ∷ rest) = ground (arith, keep-keep rest)

    keep-sorted-keep :
        (l : List (String × V)) → keep p (sorted_by_key (keep p l)) ≡ keep p (sorted_by_key l)
    keep-sorted-keep l =
        keep-sorted_by_key (keep p l) ∙ ap sorted_by_key (keep-keep l) ∙ sym (keep-sorted_by_key l)

module _ (P : PyFloat) where
  decide-all_failed :
      (any_details b c : Bool) (w : RawWeight P)
      → ((decide P any_details b w).verdict ≡ (decide P any_details c w).verdict)
        × ((decide P any_details b w).decision_status ≡ (decide P any_details c w).decision_status)
  unfolding decide
  decide-all_failed any_details b c w = ground arith

  module _ (assertion_id : String) (responses : Responses P)
      (get_cached : String → Option (Config P)) (weights : Weights P) where
    abbrev result : Responses P → AssertionResult P
    result rs = calculate_assertion_result P assertion_id rs get_cached weights

    details-completed :
        (result (keep (is_completed P) responses)).details ≡ (result responses).details
    unfolding calculate_assertion_result
    details-completed =
        ap (map (λ r. validation_weight_detail P r.0 r.1 get_cached weights))
          (keep-sorted-keep (is_completed P) responses)

    -- The responses that are not COMPLETED, the failed ones among them, change neither the verdict
    -- nor the decision status, the distribution of weights, the winner or the details.
    pub only_completed_count :
        let all = result responses in
        let completed = result (keep (is_completed P) responses) in
        (completed.decision.verdict ≡ all.decision.verdict)
        × (completed.decision.decision_status ≡ all.decision.decision_status)
        × (completed.distribution ≡ all.distribution)
        × (completed.winner ≡ all.winner)
        × (completed.details ≡ all.details)
    unfolding calculate_assertion_result
    only_completed_count =
        let b = all_failed P (sorted_by_key (keep (is_completed P) responses)) in
        let c = all_failed P (sorted_by_key responses) in
        let ds = details_of P (sorted_by_key responses) get_cached weights in
        let decided =
          λ (xs : List (Detail P)). decide P (not (is_empty xs)) b (add_votes P (no_weight P) xs) in
        let w = add_votes P (no_weight P) ds in
        let same = decide-all_failed (not (is_empty ds)) b c w in
        (
          ap (λ xs. (decided xs).verdict) details-completed ∙ same.0,
          ap (λ xs. (decided xs).decision_status) details-completed ∙ same.1,
          ap (λ xs. rounded_distribution P (add_votes P (no_weight P) xs)) details-completed,
          ap (λ xs. winner_of P (decided xs).verdict) details-completed ∙ ap (winner_of P) same.0,
          details-completed,
        )
