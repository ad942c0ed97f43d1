-- ===== src/Evidence/Citations.antt =====
-- The verified references, said without the index: by the retrieved contexts themselves.
use trust_news.Prelude.{
  ℕ, ◌+◌, String, ◌≡◌, refl, ◌∙◌, ap, Bool, false, not, ◌&&◌, ◌||◌, Option, none, some, List, [],
  ◌∷◌, arith, ◌==◌, any, keep, length, ltb, strip, Bool-cases, inl, inr, if◌then◌else◌,
}
use trust_news.Evidence.Url.{UrlParser, is_http_url}
use trust_news.Evidence.Contexts.{Source, Retrieved, Contexts, find, member, citation_contexts}
use trust_news.Evidence.Citable.{Entry, entries, cites, blocks, only, citation_contexts_exact}
use trust_news.Evidence.Claims.{
  Claim, Claims, Reference, Issue, Outcome, accepted, rejected, canonical_evidence_reference,
  record_outcome,
}
use trust_news.Evidence.Grounding.{check_resolved, check_claim, check_claims}

-- The one citable context of an id, unless a context that may not be cited has the id too.
abbrev pub resolve : Retrieved → String → Option Entry
resolve retrieved k =
    if (k == "") || any (blocks k) (entries retrieved)
    then none
    else only (keep (cites k) (entries retrieved))

abbrev pub prepend : Option Reference → List Reference → List Reference
prepend none rs = rs
prepend (some r) rs = r ∷ rs

module _ (parser : UrlParser) where
  -- A source may back a verdict: it is not the document under test, and has a web address.
  abbrev pub is_admissible : Source → Bool
  is_admissible s = not (s.relationship_to_origin == "ORIGINAL") && is_http_url parser s.url

  abbrev pub referenced : Claim → Option Entry → Option Reference
  referenced claim none = none
  referenced claim (some (s, c)) =
      if is_admissible s
      then elim claim.supports [
        | none ↦ none
        | some b ↦ some (canonical_evidence_reference parser s c claim)
      ]
      else none

module _ (parser : UrlParser) (retrieved : Retrieved) where
  -- The reference that a claim deserves.
  abbrev pub citation : Option Claim → Option Reference
  citation none = none
  citation (some claim) = referenced parser claim (resolve retrieved (strip claim.context_id))

  abbrev pub citations : Claims → List Reference
  citations [] = []
  citations (claim ∷ rest) = prepend (citation claim) (citations rest)

  abbrev as_reference : Outcome → Option Reference
  as_reference (accepted r) = some r
  as_reference (rejected x) = none

  check_resolved-eq :
      (i : ℕ) (claim : Claim) (k : String) (x : Entry)
      → as_reference (check_resolved parser i claim k x) ≡ referenced parser claim (some x)
  unfolding check_resolved
  check_resolved-eq i claim k (s, c) = ground arith

  module _ (st : Contexts) (i : ℕ) (claim : Claim)
      (named : (strip claim.context_id == "") ≡ false) where
    abbrev k : String
    k = strip claim.context_id

    -- A claim with an id, against an index that describes what was retrieved.
    check_named :
        (cited : List Entry) (blocked : Bool)
        → find k st.indexed ≡ only cited
        → member k st.ambiguous ≡ ltb 1 (length cited)
        → member k st.uncitable ≡ blocked
        → as_reference (check_claim parser st i (some claim))
          ≡ referenced parser claim (if (k == "") || blocked then none else only cited)
    unfolding check_claim
    check_named [] blocked f a u = ground arith
    check_named (x ∷ []) blocked f a u = ground (arith, check_resolved-eq i claim k x)
    check_named (x ∷ y ∷ rest) blocked f a u = ground arith

  check_claim-eq :
      (i : ℕ) (claim : Option Claim)
      → as_reference (check_claim parser (citation_contexts retrieved) i claim) ≡ citation claim
  check_claim-eq i none = unfold check_claim in refl
  check_claim-eq i (some claim) = elim (Bool-cases (strip claim.context_id == "")) [
    | inl e ↦ unfold check_claim in rw e refl
    | inr e ↦
        let exact = citation_contexts_exact (strip claim.context_id) retrieved e in
        check_named (citation_contexts retrieved) i claim e
          (keep (cites (strip claim.context_id)) (entries retrieved))
          (any (blocks (strip claim.context_id)) (entries retrieved)) exact.0 exact.1 exact.2
  ]

  abbrev checked : ℕ → Claims → List Reference × List Issue
  checked i claims = check_claims parser (citation_contexts retrieved) i claims

  record_outcome-eq :
      (o : Outcome) (p : List Reference × List Issue)
      → (record_outcome o p).0 ≡ prepend (as_reference o) p.0
  record_outcome-eq (accepted r) p = refl
  record_outcome-eq (rejected x) p = refl

  pub check_claims-eq : (i : ℕ) (claims : Claims) → (checked i claims).0 ≡ citations claims
  unfolding check_claims
  check_claims-eq i [] = refl
  check_claims-eq i (claim ∷ rest) =
      record_outcome-eq (check_claim parser (citation_contexts retrieved) i claim)
        (checked (i + 1) rest)
      ∙ ap (λ o. prepend o (checked (i + 1) rest).0) (check_claim-eq i claim)
      ∙ ap (prepend (citation claim)) (check_claims-eq (i + 1) rest)
