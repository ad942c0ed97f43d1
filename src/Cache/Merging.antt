-- ===== src/Cache/Merging.antt =====
-- A snapshot merged into the entry of a validator event.
use mathlib.Core.Option
use trust_news.Prelude.{
  eq_refl, subst, ℕ, String, ◌≡◌, ◌≤◌, inl, inr, refl, sym, ◌∙◌, ap, true, Option, none, some, List,
  [], ◌∷◌, arith, ◌==◌, eq_iff, if-both, and_then, strip, Bool-cases, All,
}
use trust_news.Prelude.Dict.{lookup, put, or_default, lookup-put}
use trust_news.Scoring.Values.{PyFloat}
use trust_news.Cache.Fields.{
  ValidatorFields, Value, comes_from_event, lookup-merge, get, is_not_later, parse_iso_datetime,
  event_is_newer, merge_refreshed_validator,
}
use trust_news.Cache.Refresh.{
  Entries, Named, snapshot_entry, refreshed_fields, refresh_one, refresh_all, keep_events,
}

-- No time, or one that is not after the event's.
abbrev pub IsNotLater : Option ℕ → Option ℕ → Type 0
IsNotLater none event = Unit
IsNotLater (some refreshed) none = ⊥
IsNotLater (some refreshed) (some event) = refreshed ≤ event

is_not_later-IsNotLater : (r e : Option ℕ) → IsNotLater r e → is_not_later r e ≡ true
unfolding is_not_later
is_not_later-IsNotLater none e h = refl
is_not_later-IsNotLater (some r) none h = elim h [ ]
is_not_later-IsNotLater (some r) (some e) h = ground arith

module _ {P : PyFloat} where
  -- All that a dict says, another says as well.
  abbrev pub Extends : ValidatorFields P → ValidatorFields P → Type 0
  Extends entry previous =
      (k : String) (v : Value P) → lookup k previous ≡ some v → lookup k entry ≡ some v

  snapshot_entry_time :
      (h : String) (fields : ValidatorFields P) (t r : Value P)
      → lookup "updated_at" (snapshot_entry h fields t r) ≡ lookup "updated_at" fields
  unfolding snapshot_entry
  snapshot_entry_time h fields t r = simp lookup-put

  read_time :
      (h : String) (fields refreshed : ValidatorFields P) (t r : Option (Value P))
      → and_then t (λ u. Option.map (λ s. snapshot_entry h fields u s) r) ≡ some refreshed
      → lookup "updated_at" refreshed ≡ lookup "updated_at" fields
  read_time h fields refreshed none r e = cc
  read_time h fields refreshed (some t) none e = cc
  read_time h fields refreshed (some t) (some r) e =
      let same : snapshot_entry h fields t r ≡ refreshed = cc in
      ap (lookup "updated_at") (sym same) ∙ snapshot_entry_time h fields t r

  refreshed_time :
      (h : String) (fields refreshed : ValidatorFields P)
      → refreshed_fields h fields ≡ some refreshed
      → lookup "updated_at" refreshed ≡ lookup "updated_at" fields
  unfolding refreshed_fields
  refreshed_time h fields refreshed e = read_time h fields refreshed _ _ e

  module _ (from_iso : String → Option ℕ) (previous : ValidatorFields P)
      (is_event : comes_from_event previous ≡ true) where
    abbrev pub time_of : ValidatorFields P → Option ℕ
    time_of fields = parse_iso_datetime from_iso (get "updated_at" fields)

    merge_refreshed-Extends :
        (refreshed : ValidatorFields P)
        → IsNotLater (time_of refreshed) (time_of previous)
        → Extends (merge_refreshed_validator from_iso previous refreshed) previous
    unfolding merge_refreshed_validator event_is_newer
    merge_refreshed-Extends refreshed h k v found =
        rw (is_event, is_not_later-IsNotLater _ _ h) (lookup-merge k refreshed previous ∙ rw found)

    module _ (h : String) (lower : String → String) where
      -- An item of the snapshot that is this validator's has a time that is not later.
      abbrev pub IsBehind : Option (Named P) → Type 0
      IsBehind none = Unit
      IsBehind (some v) =
          lower (strip v.validator) ≡ h → IsNotLater (time_of v.fields) (time_of previous)

      -- What the refreshed cache has of the validator, if anything, extends its entry.
      unfoldable pub Carries : Entries P → Type 0
      Carries refreshed =
          (entry : ValidatorFields P) → lookup h refreshed ≡ some entry → Extends entry previous

      abbrev pub CarriesIf : Option (Entries P) → Type 0
      CarriesIf none = Unit
      CarriesIf (some refreshed) = Carries refreshed

      put-Carries :
          (k : String) (x : ValidatorFields P) (refreshed : Entries P)
          → (k ≡ h → Extends x previous)
          → Carries refreshed
          → Carries (put k x refreshed)
      unfolding Carries
      put-Carries k x refreshed good carries entry found = elim (Bool-cases (k == h)) [
        | inl e ↦
            let same : x ≡ entry = ground (arith, lookup-put k h x refreshed) in
            subst (λ y. Extends y previous) same (good (ground (arith, eq_iff k h)))
        | inr e ↦ carries entry (ground (arith, lookup-put k h x refreshed))
      ]

      put-CarriesIf :
          (k : String) (f : ValidatorFields P → ValidatorFields P) (refreshed : Entries P)
          (o : Option (ValidatorFields P))
          → ((r : ValidatorFields P) → o ≡ some r → k ≡ h → Extends (f r) previous)
          → Carries refreshed
          → CarriesIf (Option.map (λ r. put k (f r) refreshed) o)
      unfolding Carries
      put-CarriesIf k f refreshed none good carries = tt
      put-CarriesIf k f refreshed (some r) good carries =
          put-Carries k (f r) refreshed (good r refl) carries

      module _ (entries : Entries P) (known : lookup h entries ≡ some previous) where
        merged-Extends :
            (k : String) (fields r : ValidatorFields P)
            → (k ≡ h → IsNotLater (time_of fields) (time_of previous))
            → refreshed_fields k fields ≡ some r
            → k ≡ h
            → Extends
                (merge_refreshed_validator from_iso (or_default (lookup k entries) []) r)
                previous
        merged-Extends k fields r behind e same =
            rw (same, known)
              (merge_refreshed-Extends r (rw (refreshed_time k fields r e) (behind same)))

        refresh_one-CarriesIf :
            (refreshed : Entries P) (v : Option (Named P))
            → IsBehind v
            → Carries refreshed
            → CarriesIf (refresh_one from_iso lower entries refreshed v)
        unfolding refresh_one
        refresh_one-CarriesIf refreshed none behind carries = carries
        refresh_one-CarriesIf refreshed (some v) behind carries =
            let k = lower (strip v.validator) in
            if-both CarriesIf (k == "") carries (
              put-CarriesIf k
                (merge_refreshed_validator from_iso (or_default (lookup k entries) [])) refreshed
                (refreshed_fields k v.fields)
                (λ r e same. merged-Extends k v.fields r behind e same) carries)

        pub refresh_all-CarriesIf :
            (refreshed : Entries P) (validators : List (Option (Named P)))
            → All IsBehind validators
            → Carries refreshed
            → CarriesIf (refresh_all from_iso lower entries refreshed validators)
        unfolding refresh_all
        refresh_all-CarriesIf refreshed [] behind carries = carries
        refresh_all-CarriesIf refreshed (v ∷ rest) (first, behind) carries =
            carry_on (refresh_one from_iso lower entries refreshed v)
              (λ now. refresh_all from_iso lower entries now rest)
              (refresh_one-CarriesIf refreshed v first carries)
              (λ now held. refresh_all-CarriesIf now rest behind held)
          where
            carry_on :
                (o : Option (Entries P)) (f : Entries P → Option (Entries P))
                → CarriesIf o
                → ((now : Entries P) → Carries now → CarriesIf (f now))
                → CarriesIf (and_then o f)
            carry_on none f held k = tt
            carry_on (some now) f held k = k now held

  pub keep_events_found :
      (h : String) (e : ValidatorFields P) (entries refreshed : Entries P)
      → lookup h refreshed ≡ some e
      → lookup h (keep_events entries refreshed) ≡ some e
  unfolding keep_events
  keep_events_found h e [] refreshed found = found
  keep_events_found h e ((k, q) ∷ rest) refreshed found =
      keep_events_found h e rest _ (ground (arith, found, lookup-put k h q refreshed, eq_iff k h))

  pub keep_events_kept :
      (h : String) (p : ValidatorFields P) (entries refreshed : Entries P)
      → comes_from_event p ≡ true
      → lookup h entries ≡ some p
      → lookup h refreshed ≡ none
      → lookup h (keep_events entries refreshed) ≡ some p
  unfolding keep_events lookup
  keep_events_kept h p [] refreshed is_event known absent = cc
  keep_events_kept h p ((k, q) ∷ rest) refreshed is_event known absent =
      elim (Bool-cases (k == h)) [
        | inl e ↦
            let same : k ≡ h = ground (arith, eq_iff k h) in
            let found : q ≡ p = ground arith in
            keep_events_found h p rest _ (
              rw (same, found)
                (rw (absent, is_event) (lookup-put h h p refreshed ∙ rw (eq_refl h))))
        | inr e ↦
            keep_events_kept h p rest _ is_event (ground arith)
              (ground (arith, absent, lookup-put k h q refreshed))
      ]
