-- ===== src/Evidence/Support.antt =====
-- What a grounded TRUE or FALSE rests on.
use mathlib.Core.List.{Memᴰ}
use trust_news.Prelude.{
  ℕ, suc, ◌+◌, ◌-◌, String, ◌≡◌, ◌⊎◌, refl, subst, sym, ◌∙◌, ap, Bool, true, false, not, ◌&&◌,
  Option, none, some, List, [], ◌∷◌, ◌++◌, arith, any, length, length-append, strip, inl, inr,
  if◌then◌else◌,
}
use trust_news.Scoring.Weights.{Verdict, verdict_true, verdict_unknown}
use trust_news.Scoring.Consensus.{is_decisive}
use trust_news.Evidence.Url.{UrlParser}
use trust_news.Evidence.Contexts.{Context, Source, Retrieved, Contexts, citation_contexts}
use trust_news.Evidence.Citable.{Entry}
use trust_news.Evidence.Claims.{
  Claim, Claims, Reference, Issue, Outcome, accepted, rejected, Grounding, verdict_without_support,
  canonical_evidence_reference, read_verdict, record_outcome,
}
use trust_news.Evidence.Grounding.{
  check_claim, check_claims, same_bool, is_true_verdict, supports_verdict,
  evaluate_evidence_grounding,
}
use trust_news.Evidence.Citations.{
  resolve, is_admissible, referenced, citation, citations, prepend, check_claims-eq,
}

module _ (parser : UrlParser) (retrieved : Retrieved) where
  -- A claim that cites, by an id that stands for exactly one citable context and for nothing else,
  -- a source that may back a verdict, and says that it supports it.
  pub record IsSupport (expected : Bool) (claims : Claims) : Type 0 where
    pub claim : Claim
    pub listed : Memᴰ (some claim) claims
    pub source : Source
    pub context : Context
    pub resolved : resolve retrieved (strip claim.context_id) ≡ some (source, context)
    pub admissible : is_admissible parser source ≡ true
    pub supports : claim.supports ≡ some expected

  abbrev backs : Bool → Reference → Bool
  backs b r = same_bool r.supports b

  abbrev backs? : Bool → Option Reference → Bool
  backs? b none = false
  backs? b (some r) = backs b r

  referenced-supports :
      (b : Bool) (claim : Claim) (s : Source) (c : Context)
      → backs? b (referenced parser claim (some (s, c))) ≡ true
      → (is_admissible parser s ≡ true) × (claim.supports ≡ some b)
  unfolding canonical_evidence_reference
  referenced-supports b claim s c h = ground arith

  IsSupport-tail :
      {b : Bool} {claims : Claims} (c : Option Claim)
      → IsSupport b claims
      → IsSupport b (c ∷ claims)
  IsSupport-tail c h = record {
    claim = h.claim;
    listed = Memᴰ.tail h.listed;
    source = h.source;
    context = h.context;
    resolved = h.resolved;
    admissible = h.admissible;
    supports = h.supports;
  }

  IsSupport-head :
      (b : Bool) (claim : Claim) (rest : Claims) (o : Option Entry)
      → resolve retrieved (strip claim.context_id) ≡ o
      → backs? b (referenced parser claim o) ≡ true
      → IsSupport b (some claim ∷ rest)
  IsSupport-head b claim rest none e h = absurd (cc)
  IsSupport-head b claim rest (some (s, c)) e h =
      let (fit, says) = referenced-supports b claim s c h in
      record {
        claim = claim;
        listed = Memᴰ.head refl;
        source = s;
        context = c;
        resolved = e;
        admissible = fit;
        supports = says;
      }

  IsSupport-here :
      (b : Bool) (claim : Option Claim) (rest : Claims)
      → backs? b (citation parser retrieved claim) ≡ true
      → IsSupport b (claim ∷ rest)
  IsSupport-here b none rest h = absurd (cc)
  IsSupport-here b (some claim) rest h =
      IsSupport-head b claim rest (resolve retrieved (strip claim.context_id)) refl h

  any-prepend :
      (b : Bool) (o : Option Reference) (rs : List Reference)
      → any (backs b) (prepend o rs) ≡ true
      → (backs? b o ≡ true) ⊎ (any (backs b) rs ≡ true)
  any-prepend b o rs h = ground arith

  citations-IsSupport :
      (b : Bool) (claims : Claims)
      → any (backs b) (citations parser retrieved claims) ≡ true
      → IsSupport b claims
  citations-IsSupport b [] h = absurd (cc)
  citations-IsSupport b (claim ∷ rest) h =
      elim (any-prepend b (citation parser retrieved claim) (citations parser retrieved rest) h) [
        | inl here ↦ IsSupport-here b claim rest here
        | inr later ↦ IsSupport-tail claim (citations-IsSupport b rest later)
      ]

unless_decisive :
    (v : Verdict) (b : Bool)
    → is_decisive (if is_decisive v && not b then verdict_unknown else v) ≡ true
    → ((if is_decisive v && not b then verdict_unknown else v) ≡ v) × (b ≡ true)
unless_decisive verdict_true b h = ground arith
unless_decisive _ b h = ground arith

length-record_outcome :
    (o : Outcome) (p : List Reference × List Issue)
    → length (record_outcome o p).0 + length (record_outcome o p).1 ≡ suc (length p.0 + length p.1)
length-record_outcome (accepted r) p = omega arith
length-record_outcome (rejected x) p = omega arith

-- Each claim is accepted or rejected.
length-check_claims :
    (parser : UrlParser) (st : Contexts) (i : ℕ) (claims : Claims)
    → length (check_claims parser st i claims).0 + length (check_claims parser st i claims).1
      ≡ length claims
unfolding check_claims
length-check_claims parser st i [] = refl
length-check_claims parser st i (claim ∷ rest) =
    length-record_outcome (check_claim parser st i claim) (check_claims parser st (i + 1) rest)
    ∙ ap suc (length-check_claims parser st (i + 1) rest)

length-issues :
    {A : Type 0} (b : Bool) (xs : List A) (x : A)
    → length (if b then xs ++ x ∷ [] else xs) ≡ length xs + (if b then 1 else 0)
length-issues b xs x = ground (arith, length-append xs (x ∷ []))

rejected_count_lem : (a b c : ℕ) → a + b ≡ c → b ≡ c - a
rejected_count_lem a b c h = omega arith

module _ (parser : UrlParser) (verdict : String) (claims : Claims) (retrieved : Retrieved) where
  abbrev grounded : Grounding
  grounded = evaluate_evidence_grounding parser verdict claims retrieved true ""

  abbrev abstains : Bool
  abstains =
      is_decisive (read_verdict verdict)
      && not (supports_verdict (read_verdict verdict) (citations parser retrieved claims))

  -- With grounding required, the evidence published is, for each claim in turn, the server's own
  -- record of the context that the claim cites; the verdict is the model's, unless that is TRUE or
  -- FALSE and no published reference supports it: then it is UNKNOWN.
  pub grounded_exact :
      (grounded.evidence_used ≡ citations parser retrieved claims)
      × (grounded.effective_verdict ≡ (if abstains then verdict_unknown else read_verdict verdict))
  unfolding evaluate_evidence_grounding
  grounded_exact =
      let e = check_claims-eq parser retrieved 0 claims in
      let v = read_verdict verdict in
      (e, ap (λ rs. if is_decisive v && not (supports_verdict v rs) then verdict_unknown else v) e)

  -- With grounding required, a TRUE or FALSE that comes out is the model's own verdict, and one of
  -- its claims supports it: it cites, by an id that stands for exactly one citable retrieved
  -- context and for no context that may not be cited, a source with a web address that is not the
  -- document under test.
  pub decisive_is_supported :
      is_decisive grounded.effective_verdict ≡ true
      → (grounded.effective_verdict ≡ read_verdict verdict)
        × IsSupport parser retrieved (is_true_verdict grounded.effective_verdict) claims
  decisive_is_supported h =
      let v = read_verdict verdict in
      let e = grounded_exact.1 in
      let (same, backed) =
        unless_decisive v (supports_verdict v (citations parser retrieved claims))
          (subst (λ u. is_decisive u ≡ true) e h) in
      (
        e ∙ same,
        subst (λ u. IsSupport parser retrieved (is_true_verdict u) claims) (sym (e ∙ same))
            (citations-IsSupport parser retrieved (is_true_verdict v) claims backed),
      )

  -- With grounding required, each claim gives one published reference or one issue, in the counts
  -- that are reported; an abstention adds one issue of its own.
  pub counts_add_up :
      (grounded.verified_count + grounded.rejected_count ≡ grounded.claimed_count)
      × (grounded.verified_count ≡ length grounded.evidence_used)
      × (grounded.claimed_count ≡ length claims)
      × (length grounded.issues ≡ grounded.rejected_count + (if abstains then 1 else 0))
  unfolding evaluate_evidence_grounding
  counts_add_up =
      let e = check_claims-eq parser retrieved 0 claims in
      let total = length-check_claims parser (citation_contexts retrieved) 0 claims in
      let (refs, issues) = check_claims parser (citation_contexts retrieved) 0 claims in
      let v = read_verdict verdict in
      (
        omega (arith, total),
        refl,
        refl,
        length-issues (is_decisive v && not (supports_verdict v refs)) issues (record {
          index = none;
          code = verdict_without_support;
          context_id = none;
          source_id = none;
          verdict = some v;
        })
            ∙ ap (λ n. n + (if is_decisive v && not (supports_verdict v refs) then 1 else 0))
                (rejected_count_lem (length refs) (length issues) (length claims) total)
            ∙ ap
                (λ rs.
                  (length claims - length refs)
                  + (if is_decisive v && not (supports_verdict v rs) then 1 else 0))
                e,
      )
