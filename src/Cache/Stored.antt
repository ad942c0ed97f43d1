-- ===== src/Cache/Stored.antt =====
-- What a validator event leaves in the cache.
use mathlib.Core.Option
use trust_news.Prelude.{
  [], true, String, ◌≡◌, ◌≢◌, ◌⊎◌, inl, inr, refl, ◌∙◌, Option, none, some, arith, eq_iff, eq_refl,
  and_then,
}
use trust_news.Prelude.Dict.{lookup, put, or_default, lookup-put}
use trust_news.Scoring.Values.{PyFloat, text}
use trust_news.Cache.Fields.{Value, plain, ValidatorFields, or_value, get, comes_from_event}
use trust_news.Cache.Refresh.{Entries, CacheState, CallEnd, returned, raised, Named}
use trust_news.Cache.Events.{event_entry, updated_validator, store_entry, apply_event}

module _ {P : PyFloat} where
  -- An entry that an event has written at a time.
  pub record IsEventEntry (payload : Named P) (now : String) (entry : ValidatorFields P)
      : Type 0 where
    from_event : comes_from_event entry ≡ true
    named : get "validator" entry ≡ plain (text payload.validator)
    timed : get "updated_at" entry ≡ or_value (get "timestamp" payload.fields) (plain (text now))

  -- The handler has stored an entry of the event and left the other validators alone, or it has
  -- raised an exception and changed nothing.
  abbrev pub StoresOrRaises :
      String → Named P → String → CacheState P → CallEnd × CacheState P → Type 0
  StoresOrRaises k payload now w r =
      ((r.0 ≡ raised) × (r.1 ≡ w))
      ⊎ ((r.0 ≡ returned true)
          × ((entry : ValidatorFields P) × (lookup k r.1.cache ≡ some entry)
              × (lookup k r.1.registry ≡ some entry)
              × IsEventEntry payload now entry)
          × ((j : String) → k ≢ j → lookup j r.1.cache ≡ lookup j w.cache)
          × ((j : String) → k ≢ j → lookup j r.1.registry ≡ lookup j w.registry))

  event_entry-IsEventEntry :
      (payload : Named P) (existing : ValidatorFields P) (now : String) (t r : Value P)
      → IsEventEntry payload now (event_entry payload.validator payload.fields existing now t r)
  unfolding event_entry
  event_entry-IsEventEntry payload existing now t r = record {
    from_event = simp lookup-put;
    named = simp lookup-put;
    timed = simp lookup-put;
  }

  -- The entry of an event, if there is one, is marked.
  abbrev IsMarked : Named P → String → Option (ValidatorFields P) → Type 0
  IsMarked payload now none = Unit
  IsMarked payload now (some entry) = IsEventEntry payload now entry

  marked :
      (payload : Named P) (existing : ValidatorFields P) (now : String) (t r : Option (Value P))
      → IsMarked payload now (
          and_then t (λ u.
            Option.map (λ s. event_entry payload.validator payload.fields existing now u s) r))
  marked payload existing now none r = tt
  marked payload existing now (some t) none = tt
  marked payload existing now (some t) (some r) = event_entry-IsEventEntry payload existing now t r

  updated_validator-IsMarked :
      (payload : Named P) (existing : ValidatorFields P) (now : String)
      → IsMarked payload now (updated_validator payload.validator payload.fields existing now)
  unfolding updated_validator
  updated_validator-IsMarked payload existing now = marked payload existing now _ _

  found_after_put :
      (k : String) (e : ValidatorFields P) (d : Entries P) → lookup k (put k e d) ≡ some e
  found_after_put k e d = lookup-put k k e d ∙ rw (eq_refl k)

  others_after_put :
      (k j : String) (e : ValidatorFields P) (d : Entries P)
      → k ≢ j
      → lookup j (put k e d) ≡ lookup j d
  others_after_put k j e d other = ground (arith, lookup-put k j e d, eq_iff k j)

  store_entry-StoresOrRaises :
      (k : String) (payload : Named P) (now : String) (o : Option (ValidatorFields P))
      (w : CacheState P)
      → IsMarked payload now o
      → StoresOrRaises k payload now w (store_entry k o w)
  unfolding store_entry
  store_entry-StoresOrRaises k payload now none w h = inl (refl, refl)
  store_entry-StoresOrRaises k payload now (some entry) w h = inr (
    refl,
    (entry, found_after_put k entry w.cache, found_after_put k entry w.registry, h),
    λ j other. others_after_put k j entry w.cache other,
    λ j other. others_after_put k j entry w.registry other,
  )

  -- A validator event, under the lock: the cache and the persisted entries get an entry for the lower
  -- case of its validator, which is marked as an event's, names the validator and has the event's
  -- time, or that of its arrival, and every other entry stays; or an exception is raised and nothing
  -- changes.
  pub event_is_stored :
      (lower : String → String) (payload : Named P) (now : String) (w : CacheState P)
      → StoresOrRaises (lower payload.validator) payload now w (apply_event lower payload now w)
  unfolding apply_event
  event_is_stored lower payload now w =
      store_entry-StoresOrRaises (lower payload.validator) payload now _ w (
        updated_validator-IsMarked payload
          (or_default (lookup (lower payload.validator) w.cache) []) now)
