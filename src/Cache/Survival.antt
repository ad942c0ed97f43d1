-- ===== src/Cache/Survival.antt =====
-- Validator events and a snapshot that has not caught up with them.
use trust_news.Prelude.{
  ℕ, String, ◌≡◌, refl, Bool, true, not, ◌&&◌, Option, none, some, List, [], if-both, All,
}
use trust_news.Prelude.Dict.{lookup}
use trust_news.Scoring.Values.{PyFloat}
use trust_news.Cache.Fields.{ValidatorFields, is_filled, comes_from_event}
use trust_news.Cache.Refresh.{
  Entries, CacheState, CallEnd, returned, Named, keep_events, install, load_fetched,
}
use trust_news.Cache.Merging.{
  Extends, IsBehind, Carries, CarriesIf, refresh_all-CarriesIf, keep_events_found, keep_events_kept,
}

module _ {P : PyFloat} where
  -- The cache has an entry for a validator that extends one.
  abbrev pub HasExtension : String → ValidatorFields P → CallEnd × CacheState P → Type 0
  HasExtension h previous r =
      (entry : ValidatorFields P) × (lookup h r.1.cache ≡ some entry) × Extends entry previous

  module _ (from_iso : String → Option ℕ) (previous : ValidatorFields P)
      (is_event : comes_from_event previous ≡ true) (h : String) (lower : String → String) where
    keep_events-HasExtension :
        (entries refreshed : Entries P) (found : Option (ValidatorFields P))
        → lookup h entries ≡ some previous
        → Carries from_iso previous is_event h lower refreshed
        → lookup h refreshed ≡ found
        → (entry : ValidatorFields P) × (lookup h (keep_events entries refreshed) ≡ some entry)
          × Extends entry previous
    unfolding Carries
    keep_events-HasExtension entries refreshed none known carries e =
        (previous, keep_events_kept h previous entries refreshed is_event known e, λ k v f. f)
    keep_events-HasExtension entries refreshed (some entry) known carries e =
        (entry, keep_events_found h entry entries refreshed e, carries entry e)

    install-HasExtension :
        (o : Option (Entries P)) (w : CacheState P)
        → lookup h w.cache ≡ some previous
        → CarriesIf from_iso previous is_event h lower o
        → HasExtension h previous (install o w)
    unfolding install
    install-HasExtension none w known carries = (previous, known, λ k v f. f)
    install-HasExtension (some refreshed) w known carries =
        if-both (HasExtension h previous) (is_filled refreshed)
          (keep_events-HasExtension w.cache refreshed (lookup h refreshed) known carries refl)
          (previous, known, λ k v f. f)

    -- A refresh does not undo a validator event: if the cache has an entry that came from an event
    -- when the snapshot arrives, and the snapshot has no later time for that validator, then the
    -- cache has an entry for it after the refresh, however it ends, with everything that the event's
    -- entry says.
    pub event_survives_refresh :
        (fetched : Option (List (Option (Named P)))) (meanwhile : CacheState P → CacheState P)
        (only_if_empty : Bool) (validators : List (Option (Named P))) (w : CacheState P)
        → lookup h w.cache ≡ some previous
        → All (IsBehind from_iso previous is_event h lower) validators
        → HasExtension h previous
            (load_fetched from_iso lower fetched meanwhile only_if_empty (some validators) w)
    unfolding load_fetched Carries
    event_survives_refresh fetched meanwhile only_if_empty validators w known behind =
        let as_before : HasExtension h previous (returned true, w) =
          (previous, known, λ k v f. f) in
        if-both (HasExtension h previous) (not (is_filled validators)) as_before (
          if-both (HasExtension h previous) (only_if_empty && is_filled w.cache) as_before (
            install-HasExtension _ w known (
              refresh_all-CarriesIf from_iso previous is_event h lower w.cache known [] validators
                behind (λ entry found. cc))))
