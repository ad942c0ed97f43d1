-- ===== src/Cache/Examples.antt =====
-- A validator that an event has changed, and a snapshot of the chain from before.
use mathlib.Core.Option
use trust_news.Prelude.{
  ◌≡◌, refl, true, false, String, Option, none, some, List, [], ◌∷◌, ℕ, arith, int_of_text,
}
use trust_news.Prelude.Int.{pos}
use trust_news.Prelude.Dict.{lookup}
use trust_news.Scoring.Values.{text, int}
use trust_news.Scoring.Fixed.{fixed}
use trust_news.Cache.Fields.{merge_refreshed_validator, parse_iso_datetime, plain, ValidatorFields}
use trust_news.Cache.Refresh.{CacheState, Named, load_fetched, load_validators_cache_from_chain}
use trust_news.Cache.Events.{apply_event, update_validator_cache_from_event}
use trust_news.Cache.Failures.{KeepsOrFills, refresh-KeepsOrFills}
use trust_news.Cache.Agreement.{IsPersisted, event_keeps-IsPersisted}
use trust_news.Cache.Survival.{HasExtension, event_survives_refresh}
use trust_news.Cache.Stored.{StoresOrRaises, event_is_stored}

abbrev day : String → Option ℕ
day s = elim (int_of_text s) [ some (pos n) ↦ some n | _ ↦ none ]

abbrev same_text : String → String
same_text s = s

abbrev changed : ValidatorFields fixed
changed =
    ("validator", plain (text "0xa"))
    ∷ ("updated_at", plain (text "20260102"))
    ∷ ("_cache_origin", plain (text "validator-event"))
    ∷ []

abbrev state : CacheState fixed
state = record { cache = ("0xa", changed) ∷ []; registry = ("0xa", changed) ∷ [] }

abbrev old_validator : Named fixed
old_validator = record {
  validator = "0xa";
  fields =
      ("validator", plain (text "0xa"))
      ∷ ("validator_type", plain (int (pos 2)))
      ∷ ("updated_at", plain (text "20260101"))
      ∷ [];
}

abbrev snapshot : List (Option (Named fixed))
snapshot = some old_validator ∷ none ∷ []

abbrev event : Named fixed
event = record { validator = "0xa"; fields = ("timestamp", plain (text "20260103")) ∷ [] }

abbrev unchanged : CacheState fixed → CacheState fixed
unchanged w = w

refresh-KeepsOrFills_example :
    KeepsOrFills state
      (load_validators_cache_from_chain day same_text (some snapshot) unchanged false state)
refresh-KeepsOrFills_example =
    refresh-KeepsOrFills day same_text (some snapshot) unchanged false state

event_keeps-IsPersisted_example :
    IsPersisted
      (update_validator_cache_from_event day same_text
        (some snapshot)
        unchanged
        true
        event
        ""
        state).1
event_keeps-IsPersisted_example =
    event_keeps-IsPersisted day same_text (some snapshot) unchanged true event "" state
      (λ k e found. found) (λ k e found. found)

event_survives_refresh_example :
    HasExtension "0xa" changed
      (load_fetched day same_text (some snapshot) unchanged false (some snapshot) state)
unfolding lookup parse_iso_datetime int_of_text
event_survives_refresh_example =
    event_survives_refresh day changed refl "0xa" same_text (some snapshot) unchanged false snapshot
      state refl (λ same. omega arith, (tt, tt))

event_is_stored_example : StoresOrRaises "0xa" event "" state (apply_event same_text event "" state)
event_is_stored_example = event_is_stored same_text event "" state

abbrev refreshed : Option (ValidatorFields fixed)
refreshed =
    lookup "0xa" (load_fetched day same_text none unchanged false (some snapshot) state).1.cache

-- The type comes from the snapshot, the time from the event.
refreshed_entry :
    (Option.map (lookup "validator_type") refreshed ≡ some (some (plain (int (pos 2)))))
    × (Option.map (lookup "updated_at") refreshed ≡ some (some (plain (text "20260102"))))
unfolding load_fetched lookup merge_refreshed_validator int_of_text
refreshed_entry = (refl, refl)
