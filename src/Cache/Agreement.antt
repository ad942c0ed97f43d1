-- ===== src/Cache/Agreement.antt =====
-- The persisted entries and the cache.
use mathlib.Core.Option
use trust_news.Prelude.{
  ℕ, String, ◌≡◌, refl, ◌∙◌, Bool, true, not, ◌&&◌, Option, none, some, List, [], ◌∷◌, arith, ◌==◌,
  eq_iff, if-both, and_then, strip, inl, inr, Bool-cases,
}
use trust_news.Prelude.Dict.{lookup, put, is_present, or_default, lookup-put, IsDict, put-IsDict}
use trust_news.Scoring.Values.{PyFloat}
use trust_news.Cache.Fields.{
  ValidatorFields, is_filled, comes_from_event, merge_refreshed_validator,
}
use trust_news.Cache.Refresh.{
  Entries, CacheState, CallEnd, returned, raised, Named, refreshed_fields, refresh_one, refresh_all,
  keep_events, persist_all, install, load_fetched, load_validators_cache_from_chain,
}
use trust_news.Cache.Events.{
  store_entry, apply_event, after_load, update_validator_cache_from_event,
}

module _ {P : PyFloat} where
  lookup-persist_all-none :
      (k : String) (entries registry : Entries P)
      → lookup k entries ≡ none
      → lookup k (persist_all entries registry) ≡ lookup k registry
  unfolding persist_all lookup
  lookup-persist_all-none k [] registry h = refl
  lookup-persist_all-none k ((j, e) ∷ rest) registry h =
      lookup-persist_all-none k rest (put j e registry) (ground arith)
      ∙ ground (arith, lookup-put j k e registry)

  lookup-persist_all :
      (k : String) (entries registry : Entries P) (e : ValidatorFields P)
      → IsDict entries
      → lookup k entries ≡ some e
      → lookup k (persist_all entries registry) ≡ some e
  unfolding persist_all lookup
  lookup-persist_all k [] registry e d h = cc
  lookup-persist_all k ((j, f) ∷ rest) registry e (absent, d) h = elim (Bool-cases (j == k)) [
    | inl same ↦
        lookup-persist_all-none k rest (put j f registry) (ground (arith, absent, eq_iff j k))
        ∙ ground (arith, lookup-put j k f registry)
    | inr other ↦ lookup-persist_all k rest (put j f registry) e d (ground arith)
  ]

  keep_events-IsDict :
      (previous refreshed : Entries P) → IsDict refreshed → IsDict (keep_events previous refreshed)
  unfolding keep_events
  keep_events-IsDict [] refreshed h = h
  keep_events-IsDict ((k, p) ∷ rest) refreshed h = keep_events-IsDict rest _ (
      if-both (λ (d : Entries P). IsDict d)
        (not (is_present (lookup k refreshed)) && comes_from_event p) (put-IsDict k p refreshed h)
        h)

  -- A computed cache, if there is one, has no key twice.
  abbrev MakesDict : Option (Entries P) → Type 0
  MakesDict none = Unit
  MakesDict (some entries) = IsDict entries

  put-MakesDict :
      (k : String) (f : ValidatorFields P → ValidatorFields P) (entries : Entries P)
      (o : Option (ValidatorFields P))
      → IsDict entries
      → MakesDict (Option.map (λ r. put k (f r) entries) o)
  put-MakesDict k f entries none h = tt
  put-MakesDict k f entries (some r) h = put-IsDict k (f r) entries h

  and_then-MakesDict :
      (o : Option (Entries P)) (f : Entries P → Option (Entries P))
      → MakesDict o
      → ((entries : Entries P) → IsDict entries → MakesDict (f entries))
      → MakesDict (and_then o f)
  and_then-MakesDict none f h k = tt
  and_then-MakesDict (some entries) f h k = k entries h

  -- What the cache has is persisted.
  abbrev pub IsPersisted : CacheState P → Type 0
  IsPersisted w =
      (k : String) (e : ValidatorFields P)
      → lookup k w.cache ≡ some e
      → lookup k w.registry ≡ some e

  install-IsPersisted :
      (o : Option (Entries P)) (w : CacheState P)
      → MakesDict o
      → IsPersisted w
      → IsPersisted (install o w).1
  unfolding install
  install-IsPersisted none w d h = h
  install-IsPersisted (some entries) w d h =
      if-both (λ (r : CallEnd × CacheState P). IsPersisted r.1) (is_filled entries)
        (λ k e found.
          lookup-persist_all k (keep_events w.cache entries) w.registry e
            (keep_events-IsDict w.cache entries d) found)
        h

  store_entry-IsPersisted :
      (k : String) (o : Option (ValidatorFields P)) (w : CacheState P)
      → IsPersisted w
      → IsPersisted (store_entry k o w).1
  unfolding store_entry
  store_entry-IsPersisted k none w h j e found = h j e found
  store_entry-IsPersisted k (some updated) w h j e found =
      ground (arith, h j e, lookup-put k j updated w.cache, lookup-put k j updated w.registry)

  after_load-IsPersisted :
      (lower : String → String) (payload : Named P) (now : String) (r : CallEnd × CacheState P)
      → IsPersisted r.1
      → IsPersisted (after_load lower payload now r).1
  unfolding after_load apply_event
  after_load-IsPersisted lower payload now (raised, w) h = h
  after_load-IsPersisted lower payload now (returned loaded, w) h =
      store_entry-IsPersisted (lower payload.validator) _ w h

  module _ (from_iso : String → Option ℕ) (lower : String → String) where
    refresh_one-MakesDict :
        (previous refreshed : Entries P) (v : Option (Named P))
        → IsDict refreshed
        → MakesDict (refresh_one from_iso lower previous refreshed v)
    unfolding refresh_one
    refresh_one-MakesDict previous refreshed none h = h
    refresh_one-MakesDict previous refreshed (some v) h =
        let k = lower (strip v.validator) in
        if-both MakesDict (k == "") h (
          put-MakesDict k (merge_refreshed_validator from_iso (or_default (lookup k previous) []))
            refreshed (refreshed_fields k v.fields) h)

    refresh_all-MakesDict :
        (previous refreshed : Entries P) (validators : List (Option (Named P)))
        → IsDict refreshed
        → MakesDict (refresh_all from_iso lower previous refreshed validators)
    unfolding refresh_all
    refresh_all-MakesDict previous refreshed [] h = h
    refresh_all-MakesDict previous refreshed (v ∷ rest) h =
        and_then-MakesDict (refresh_one from_iso lower previous refreshed v)
          (λ now. refresh_all from_iso lower previous now rest)
          (refresh_one-MakesDict previous refreshed v h)
          (λ now d. refresh_all-MakesDict previous now rest d)

    module _ (fetched : Option (List (Option (Named P))))
        (meanwhile : CacheState P → CacheState P) where
      load_fetched-IsPersisted :
          (only_if_empty : Bool) (o : Option (List (Option (Named P)))) (w : CacheState P)
          → IsPersisted w
          → IsPersisted (load_fetched from_iso lower fetched meanwhile only_if_empty o w).1
      unfolding load_fetched
      load_fetched-IsPersisted only_if_empty none w h = h
      load_fetched-IsPersisted only_if_empty (some validators) w h =
          let Q = λ (r : CallEnd × CacheState P). IsPersisted r.1 in
          if-both Q (not (is_filled validators)) h (
            if-both Q (only_if_empty && is_filled w.cache) h (
              install-IsPersisted (refresh_all from_iso lower w.cache [] validators) w
                (refresh_all-MakesDict w.cache [] validators tt) h))

      pub refresh-IsPersisted :
          (only_if_empty : Bool) (w : CacheState P)
          → IsPersisted w
          → IsPersisted (meanwhile w)
          → IsPersisted
              (load_validators_cache_from_chain from_iso lower fetched meanwhile only_if_empty w).1
      unfolding load_validators_cache_from_chain
      refresh-IsPersisted only_if_empty w h later =
          if-both (λ (r : CallEnd × CacheState P). IsPersisted r.1)
            (only_if_empty && is_filled w.cache) h
            (load_fetched-IsPersisted only_if_empty fetched (meanwhile w) later)

      -- Every entry of the cache is persisted as it is, after a validator event, with or without a
      -- refresh before it and however they end, if it was so before the event and after what other
      -- tasks did during the request.
      pub event_keeps-IsPersisted :
          (blockchain_enabled : Bool) (payload : Named P) (now : String) (w : CacheState P)
          → IsPersisted w
          → IsPersisted (meanwhile w)
          → IsPersisted
              (update_validator_cache_from_event from_iso lower fetched meanwhile blockchain_enabled
                payload now w).1
      unfolding update_validator_cache_from_event
      event_keeps-IsPersisted blockchain_enabled payload now w h later =
          let Q = λ (r : CallEnd × CacheState P). IsPersisted r.1 in
          if-both Q (payload.validator == "") h (
            after_load-IsPersisted lower payload now _ (
              if-both Q (not (is_filled w.cache) && blockchain_enabled)
                (refresh-IsPersisted true w h later) h))
