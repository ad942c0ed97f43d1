-- ===== src/Cache/Failures.antt =====
-- What a refresh that brings nothing leaves behind.
use trust_news.Prelude.Dict.{lookup, put, is_present}
use trust_news.Prelude.{
  Bool-cases, arith, ◌∷◌, ◌==◌, ℕ, String, ◌≡◌, ◌⊎◌, inl, inr, refl, Bool, true, not, ◌&&◌, Option,
  none, some, List, [], if-both,
}
use trust_news.Scoring.Values.{PyFloat}
use trust_news.Cache.Fields.{is_filled, comes_from_event}
use trust_news.Cache.Refresh.{
  Entries, CacheState, CallEnd, returned, Named, refresh_all, keep_events, install, load_fetched,
  load_validators_cache_from_chain,
}

put-is_filled :
    {A : Type 0} (k : String) (v : A) (d : List (String × A)) → is_filled (put k v d) ≡ true
unfolding put
put-is_filled {A} k v [] = refl
put-is_filled {A} k v ((j, u) ∷ rest) =
    if-both (λ (d : List (String × A)). is_filled d ≡ true) (j == k) refl refl

module _ {P : PyFloat} where
  keep_events-is_filled :
      (previous refreshed : Entries P)
      → is_filled refreshed ≡ true
      → is_filled (keep_events previous refreshed) ≡ true
  unfolding keep_events
  keep_events-is_filled [] refreshed h = h
  keep_events-is_filled ((k, p) ∷ rest) refreshed h = keep_events-is_filled rest _ (
      if-both (λ (d : Entries P). is_filled d ≡ true)
        (not (is_present (lookup k refreshed)) && comes_from_event p) (put-is_filled k p refreshed)
        h)

  -- A call has succeeded with a filled cache, or has left a state as it was.
  abbrev pub KeepsOrFills : CacheState P → CallEnd × CacheState P → Type 0
  KeepsOrFills w r = ((r.0 ≡ returned true) × (is_filled r.1.cache ≡ true)) ⊎ (r.1 ≡ w)

  install-KeepsOrFills : (o : Option (Entries P)) (w : CacheState P) → KeepsOrFills w (install o w)
  unfolding install
  install-KeepsOrFills none w = inr refl
  install-KeepsOrFills (some entries) w = elim (Bool-cases (is_filled entries)) [
    | inl e ↦ rw e (inl (refl, keep_events-is_filled w.cache entries e))
    | inr e ↦ rw e (inr refl)
  ]

  module _ (from_iso : String → Option ℕ) (lower : String → String)
      (fetched : Option (List (Option (Named P)))) (meanwhile : CacheState P → CacheState P) where
    load_fetched-KeepsOrFills :
        (only_if_empty : Bool) (o : Option (List (Option (Named P)))) (w : CacheState P)
        → KeepsOrFills w (load_fetched from_iso lower fetched meanwhile only_if_empty o w)
    unfolding load_fetched
    load_fetched-KeepsOrFills only_if_empty none w = inr refl
    load_fetched-KeepsOrFills only_if_empty (some validators) w =
        let installed = install-KeepsOrFills (refresh_all from_iso lower w.cache [] validators) w in
        if-both (KeepsOrFills w) (not (is_filled validators)) (inr refl)
          (elim (Bool-cases (only_if_empty && is_filled w.cache)) [
            | inl e ↦ rw e (inl (refl, ground arith))
            | inr e ↦ rw e installed
          ])

    -- A refresh of the cache succeeds and leaves a cache that is not empty; or it fails, because the
    -- request failed, brought nothing, brought no usable validator or brought one that raises an
    -- exception, and leaves the cache and the persisted entries as they were after the request.
    pub refresh-KeepsOrFills :
        (only_if_empty : Bool) (w : CacheState P)
        → KeepsOrFills
            (meanwhile w)
            (load_validators_cache_from_chain from_iso lower fetched meanwhile only_if_empty w)
    unfolding load_validators_cache_from_chain
    refresh-KeepsOrFills only_if_empty w = elim (Bool-cases (only_if_empty && is_filled w.cache)) [
      | inl e ↦ rw e (inl (refl, ground arith))
      | inr e ↦ rw e (load_fetched-KeepsOrFills only_if_empty fetched (meanwhile w))
    ]
