-- ===== src/Orders/Pending.antt =====
-- Counting the validators that an order still waits for.
use trust_news.Prelude.{
  ℕ, ◌+◌, String, ◌≡◌, refl, ◌∙◌, ap, Bool, false, not, ◌&&◌, ◌||◌, List, [], ◌∷◌, arith, ◌==◌,
  eq_iff, keep, count_if, length, Bool-cases, inl, inr, if◌then◌else◌,
}
use trust_news.Prelude.Dict.{
  put, lookup-put, keys, is_member, is_member-keys, distinct, is_member-distinct, difference,
}
use trust_news.Scoring.Values.{PyFloat}
use trust_news.Orders.Model.{Stored, Validations, ValidatorInfo}
use trust_news.Orders.Counting.{of_assertion, missing_of, total_pending, is_done, record_validation}

module _ (u : String) (q q' : String → Bool) (fresh : q u ≡ false)
    (grown : (j : String) → q' j ≡ (u == j || q j)) where
  -- One more name in the second set takes that name out of the difference, once.
  length-keep-distinct :
      (xs : List String)
      → length (keep (λ j. not (q' j)) (distinct xs)) + (if is_member u (distinct xs) then 1 else 0)
        ≡ length (keep (λ j. not (q j)) (distinct xs))
  unfolding is_member distinct
  length-keep-distinct [] = refl
  length-keep-distinct (x ∷ xs) =
      ground (arith, length-keep-distinct xs, grown x, eq_iff u x, eq_iff x u)

-- Whether an entry of `validators` waits for the validator on the assertion.
abbrev pub waits : String → String → ValidatorInfo → Bool
waits a u v = v.id_assertion == a && is_member u v.validator_addresses

module _ {P : PyFloat} where
  is_member-put :
      (u : String) (s : Stored P) (d : List (String × Stored P)) (j : String)
      → is_member j (keys (put u s d)) ≡ (u == j || is_member j (keys d))
  is_member-put u s d j =
      ground (arith, is_member-keys j (put u s d), is_member-keys j d, lookup-put u j s d)

  module _ (a u : String) (s : Stored P) (vs : Validations P) (fresh : is_done a u vs ≡ false) where
    of_assertion-record :
        (b : String)
        → of_assertion b (record_validation a u s vs)
          ≡ (if a == b then put u s (of_assertion a vs) else of_assertion b vs)
    unfolding record_validation
    of_assertion-record b = ground (arith, lookup-put a b (put u s (of_assertion a vs)) vs)

    not_member : is_member u (keys (of_assertion a vs)) ≡ false
    unfolding is_done
    not_member = is_member-keys u (of_assertion a vs) ∙ fresh

    abbrev missing_among : ValidatorInfo → List (String × Stored P) → ℕ
    missing_among v d = length (difference (distinct v.validator_addresses) (keys d))

    missing_of-here :
        (v : ValidatorInfo)
        → a ≡ v.id_assertion
        → missing_among v (put u s (of_assertion a vs)) + (if waits a u v then 1 else 0)
          ≡ missing_among v (of_assertion v.id_assertion vs)
    unfolding difference
    missing_of-here v e =
        let counted =
          length-keep-distinct u (λ j. is_member j (keys (of_assertion a vs)))
            (λ j. is_member j (keys (put u s (of_assertion a vs)))) not_member
            (is_member-put u s (of_assertion a vs)) v.validator_addresses in
        let waiting : waits a u v ≡ is_member u (distinct v.validator_addresses) = ground (
          arith,
          is_member-distinct u v.validator_addresses,
          eq_iff a v.id_assertion,
          eq_iff v.id_assertion a,
        ) in
        ap (λ b. missing_among v (put u s (of_assertion a vs)) + (if b then 1 else 0)) waiting
        ∙ counted
        ∙ ap (λ b. missing_among v (of_assertion b vs)) e

    waits-there : (v : ValidatorInfo) → (a == v.id_assertion) ≡ false → waits a u v ≡ false
    waits-there v e = ground (arith, eq_iff a v.id_assertion, eq_iff v.id_assertion a)

    missing_of-record :
        (v : ValidatorInfo)
        → length (missing_of v (record_validation a u s vs)) + (if waits a u v then 1 else 0)
          ≡ length (missing_of v vs)
    unfolding missing_of
    missing_of-record v =
        let there = of_assertion-record v.id_assertion in
        elim (Bool-cases (a == v.id_assertion)) [
          | inl e ↦
              ap (λ d. missing_among v d + (if waits a u v then 1 else 0))
                (there
                  ∙ ap
                      (λ b.
                        if b then put u s (of_assertion a vs) else of_assertion v.id_assertion vs)
                      e)
              ∙ missing_of-here v ((eq_iff a v.id_assertion).0 e)
          | inr e ↦
              ap (λ d. missing_among v d + (if waits a u v then 1 else 0))
                (there
                  ∙ ap
                      (λ b.
                        if b then put u s (of_assertion a vs) else of_assertion v.id_assertion vs)
                      e)
              ∙ ap (λ b. missing_among v (of_assertion v.id_assertion vs) + (if b then 1 else 0))
                  (waits-there v e)
              ∙ omega arith
        ]

    pub total_pending-record :
        (infos : List ValidatorInfo)
        → total_pending infos (record_validation a u s vs) + count_if (waits a u) infos
          ≡ total_pending infos vs
    unfolding total_pending
    total_pending-record [] = refl
    total_pending-record (v ∷ rest) = omega (arith, missing_of-record v, total_pending-record rest)
