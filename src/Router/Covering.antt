-- ===== src/Router/Covering.antt =====
-- When a jurisdiction of a source covers the one of an assertion.
use mathlib.Core.List.{Memᴰ}
use mathlib.Core.Path.{ap₂}
use trust_news.Prelude.{
  ap, sym, ◌∙◌, String, ◌≡◌, ◌≢◌, inl, inr, refl, Bool, true, false, ◌&&◌, Option, none, some, List,
  [], ◌∷◌, arith, any, eq_iff, eq_refl, Bool-cases,
}
use trust_news.Router.Taxonomy.{
  JurisdictionScope, global, supranational, country, region, local, unknown_scope, Jurisdiction,
  same_code,
}
use trust_news.Router.Eligibility.{includes, covers_by_scope}

-- A country, or a part of one.
abbrev is_national : JurisdictionScope → Bool
is_national country = true
is_national region = true
is_national local = true
is_national _ = false

-- A part of a country; a jurisdiction of unknown scope has no codes to compare.
abbrev is_subnational : JurisdictionScope → Bool
is_subnational region = true
is_subnational local = true
is_subnational unknown_scope = true
is_subnational _ = false

abbrev is_part : JurisdictionScope → Bool
is_part region = true
is_part local = true
is_part _ = false

-- A source's jurisdiction covers the one of an assertion.
pub data Covers (j target : Jurisdiction) : Type 0 where
  everywhere : j.scope ≡ global → Covers j target
  same_union :
      j.scope ≡ supranational
      → target.scope ≡ supranational
      → j.jurisdiction_code ≡ target.jurisdiction_code
      → Covers j target
  member_state :
      j.scope ≡ supranational
      → target.scope ≢ supranational
      → includes j.applicable_country_codes target.country_code ≡ true
      → Covers j target
  nationwide :
      j.scope ≡ country
      → is_national target.scope ≡ true
      → j.country_code ≡ target.country_code
      → Covers j target
  same_region :
      is_subnational j.scope ≡ true
      → is_part target.scope ≡ true
      → j.country_code ≡ target.country_code
      → j.region_code ≡ target.region_code
      → Covers j target

same_code-eq : (a b : Option String) → same_code a b ≡ true → a ≡ b
same_code-eq none none h = refl
same_code-eq none (some b) h = cc
same_code-eq (some a) none h = cc
same_code-eq (some a) (some b) h = ground (arith, eq_iff a b)

same_code_refl : (a : Option String) → same_code a a ≡ true
same_code_refl none = refl
same_code_refl (some a) = eq_refl a

&&-true : (a b : Bool) → a && b ≡ true → (a ≡ true) × (b ≡ true)
&&-true true true h = (refl, refl)
&&-true true false h = cc
&&-true false b h = cc

region_lem :
    (j t : Jurisdiction)
    → is_subnational j.scope ≡ true
    → is_part t.scope ≡ true
    → (same_code j.country_code t.country_code && same_code j.region_code t.region_code) ≡ true
    → Covers j t
region_lem j t e e' h =
    let (same_country, same_part) = &&-true _ _ h in
    same_region e e' (same_code-eq _ _ same_country) (same_code-eq _ _ same_part)

to_Covers :
    (s ts : JurisdictionScope) (j t : Jurisdiction)
    → j.scope ≡ s
    → t.scope ≡ ts
    → covers_by_scope s ts j t ≡ true
    → Covers j t
unfolding covers_by_scope
to_Covers global ts j t e e' h = everywhere e
to_Covers supranational supranational j t e e' h = same_union e e' (same_code-eq _ _ h)
to_Covers supranational ts j t e e' h = member_state e (λ x. cc) h
to_Covers country country j t e e' h = nationwide e (rw e') (same_code-eq _ _ h)
to_Covers country region j t e e' h = nationwide e (rw e') (same_code-eq _ _ h)
to_Covers country local j t e e' h = nationwide e (rw e') (same_code-eq _ _ h)
to_Covers region region j t e e' h = region_lem j t (rw e) (rw e') h
to_Covers region local j t e e' h = region_lem j t (rw e) (rw e') h
to_Covers local region j t e e' h = region_lem j t (rw e) (rw e') h
to_Covers local local j t e e' h = region_lem j t (rw e) (rw e') h
to_Covers unknown_scope region j t e e' h = region_lem j t (rw e) (rw e') h
to_Covers unknown_scope local j t e e' h = region_lem j t (rw e) (rw e') h
to_Covers s ts j t e e' h = absurd (cc)

member_lem :
    (ts : JurisdictionScope) (j t : Jurisdiction)
    → ts ≢ supranational
    → includes j.applicable_country_codes t.country_code ≡ true
    → covers_by_scope supranational ts j t ≡ true
unfolding covers_by_scope
member_lem supranational j t n h = absurd (n refl)
member_lem _ j t n h = h

nationwide_lem :
    (ts : JurisdictionScope) (j t : Jurisdiction)
    → is_national ts ≡ true
    → same_code j.country_code t.country_code ≡ true
    → covers_by_scope country ts j t ≡ true
unfolding covers_by_scope
nationwide_lem country j t n h = h
nationwide_lem region j t n h = h
nationwide_lem local j t n h = h
nationwide_lem _ j t n h = absurd (cc)

regional_lem :
    (s ts : JurisdictionScope) (j t : Jurisdiction)
    → is_subnational s ≡ true
    → is_part ts ≡ true
    → (same_code j.country_code t.country_code && same_code j.region_code t.region_code) ≡ true
    → covers_by_scope s ts j t ≡ true
unfolding covers_by_scope
regional_lem region region j t n m h = h
regional_lem region local j t n m h = h
regional_lem local region j t n m h = h
regional_lem local local j t n m h = h
regional_lem unknown_scope region j t n m h = h
regional_lem unknown_scope local j t n m h = h
regional_lem _ _ j t n m h = absurd (cc)

of_Covers : (j t : Jurisdiction) → Covers j t → covers_by_scope j.scope t.scope j t ≡ true
unfolding covers_by_scope
of_Covers j t (everywhere e) = ap (λ s. covers_by_scope s t.scope j t) e
of_Covers j t (same_union e e' same) =
    ap₂ (λ s ts. covers_by_scope s ts j t) e e'
    ∙ (ap (λ c. same_code c t.jurisdiction_code) same ∙ same_code_refl t.jurisdiction_code)
of_Covers j t (member_state e n h) =
    ap (λ s. covers_by_scope s t.scope j t) e ∙ member_lem t.scope j t n h
of_Covers j t (nationwide e n same) =
    ap (λ s. covers_by_scope s t.scope j t) e
    ∙ nationwide_lem t.scope j t n
        (ap (λ c. same_code c t.country_code) same ∙ same_code_refl t.country_code)
of_Covers j t (same_region e e' same same') =
    let national = ap (λ c. same_code c t.country_code) same ∙ same_code_refl t.country_code in
    let part = ap (λ c. same_code c t.region_code) same' ∙ same_code_refl t.region_code in
    regional_lem j.scope t.scope j t e e' (ap₂ ◌&&◌ national part)

-- One of some jurisdictions covers the target.
abbrev pub OneCovers : Jurisdiction → List Jurisdiction → Type 0
OneCovers target js = (j : Jurisdiction) × Memᴰ j js × Covers j target

abbrev covers_target : Jurisdiction → Jurisdiction → Bool
covers_target t j = covers_by_scope j.scope t.scope j t

pub any-OneCovers :
    (t : Jurisdiction) (js : List Jurisdiction) → any (covers_target t) js ≡ true → OneCovers t js
any-OneCovers t [] h = cc
any-OneCovers t (j ∷ js) h = elim (Bool-cases (covers_target t j)) [
  | inl e ↦ (j, Memᴰ.head refl, to_Covers j.scope t.scope j t refl refl e)
  | inr e ↦
      let (k, listed, covers) = any-OneCovers t js (ground arith) in (k, Memᴰ.tail listed, covers)
]

pub OneCovers-any :
    (t j : Jurisdiction) (js : List Jurisdiction)
    → Memᴰ j js
    → Covers j t
    → any (covers_target t) js ≡ true
OneCovers-any t j [] listed covers = elim listed [ ]
OneCovers-any t j (k ∷ js) (Memᴰ.head e) covers =
    let here = ap (covers_target t) (sym e) ∙ of_Covers j t covers in ground (arith, here)
OneCovers-any t j (k ∷ js) (Memᴰ.tail listed) covers =
    ground (arith, OneCovers-any t j js listed covers)
